-- ===== src/Ibv/Receive/Traffic.antt =====
-- The receive packets between the queue pairs, the library and its caller.
pub mod Handed
pub mod Posted
pub mod Kept
use hashpipe.Base.{
  ℕ, ◌+◌, ◌*◌, ◌/◌, ◌≤◌, ◌<◌, ◌≡◌, ◌≢◌, ◌⊎◌, inl, inr, refl, sym, ◌∙◌, ap, subst, arith,
}
use hashpipe.Base.{
  Bool, Bool-cases, dec_lt, true, false, ◌&&◌, Option, none, some, List, [], ◌∷◌, ◌++◌, take, drop,
  ltb, if◌then◌else◌,
}
use hashpipe.Base.{update, update_self, update_other, same_or_other}
use hashpipe.Ibv.{QpState, release_pkts, release_qp}
use hashpipe.Ibv.Chain.{IsChain, IsDistinct}
use hashpipe.Base.{times, times-append, times-take-drop}
use hashpipe.Ibv.Times.{times_here, times-numbers, once-IsDistinct, IsChain-unique}
use hashpipe.Ibv.Setup.{link_recvs}
use hashpipe.Ibv.Setup.Lists.{numbers, link_recvs-IsChain, in_queue}
use hashpipe.Ibv.Receive.{Calls, Received, recv_pkts, make_all_recv_ready}
use hashpipe.Ibv.Receive.Order.{ids, recv_pkts-IsChain}

-- The packets that the caller has, those that no list has any more, and those that are posted to
-- each queue pair and whose completion has not been polled.
pub record Intake : Type 0 where
  pub next : ℕ → Option ℕ
  pub qps : List QpState
  pub held : List ℕ
  pub lost : List ℕ
  pub posted : ℕ → List ℕ

-- Whether a call gets as far as polling.
abbrev pub polls : Calls → List QpState → Bool
polls c qps = (make_all_recv_ready c.modify 0 qps).1 && c.poll && c.get_cq_event && c.req_notify_cq

abbrev pub taken : Calls → List QpState → List ℕ
taken c qps = if polls c qps then ids c.completed else []

-- What is lost of the packets whose completions were taken, when the answer is NULL.
abbrev pub dropped : Option ℕ → List ℕ → List ℕ
dropped none xs = xs
dropped (some p) xs = []

-- How many packets ibv_post_recv(3) takes off the front of the list, and where they are posted.
abbrev pub accepted : Option (ℕ × ℕ) → ℕ
accepted none = 0
accepted (some (q, n)) = n

abbrev pub repost : Option (ℕ × ℕ) → List ℕ → (ℕ → List ℕ) → ℕ → List ℕ
repost none xs posted = posted
repost (some (q, n)) xs posted = update posted q (take n xs ++ posted q)

-- What may happen, in any order. hashpipe_ibv_recv_pkts is called, and the completions that it takes
-- are of packets that are posted to one queue pair, each once. hashpipe_ibv_release_pkts is called with a
-- list of packets of the caller, all of one queue pair.
pub data Moves (recv_pkt_num : ℕ) (s : Intake) : Intake → Type 0 where
  recv :
      {p : Option ℕ} {r : Received} {qps : List QpState} (c : Calls) (length : ℕ → ℕ) (q : ℕ)
      (handed rest : List ℕ)
      → recv_pkts c s.next length s.qps ≡ (p, r, qps)
      → ((i : ℕ) → times i (s.posted q) ≡ times i (taken c s.qps) + times i rest)
      → IsChain r.next p handed
      → Moves recv_pkt_num s (record {
        next = r.next;
        qps = qps;
        held = handed ++ s.held;
        lost = dropped p (taken c s.qps) ++ s.lost;
        posted = update s.posted q rest;
      })
  release :
      {answer : Option (ℕ × ℕ)} (accept : ℕ → ℕ → ℕ) (p : Option ℕ) (mine rest : List ℕ)
      → release_pkts none (λ q p. some (q, accept q p)) recv_pkt_num p ≡ answer
      → IsChain s.next p mine
      → ((i : ℕ) → times i s.held ≡ times i mine + times i rest)
      → ((i j : ℕ) → 0 < times i mine → 0 < times j mine → i / recv_pkt_num ≡ j / recv_pkt_num)
      → Moves recv_pkt_num s (record s {
        held = drop (accepted answer) mine ++ rest;
        posted = repost answer mine s.posted;
      })

-- What may happen after the set-up, when the list of every queue pair could be posted to it.
pub data Reach (recv_pkt_num nqp : ℕ) : Intake → Type 0 where
  start :
      (next : ℕ → Option ℕ) (qps : List QpState) (posted : ℕ → List ℕ)
      → ((q : ℕ)
          → q < nqp
          → IsChain
              (link_recvs (λ q. true) recv_pkt_num nqp 0 next).0
              (some (q * recv_pkt_num))
              (posted q))
      → ((q : ℕ) → nqp ≤ q → posted q ≡ [])
      → Reach recv_pkt_num nqp (record {
        next = (link_recvs (λ q. true) recv_pkt_num nqp 0 next).0;
        qps = qps;
        held = [];
        lost = [];
        posted = posted;
      })
  on : {s t : Intake} → Reach recv_pkt_num nqp s → Moves recv_pkt_num s t → Reach recv_pkt_num nqp t

-- Each of the `total` packets is in one place, and there once, and a packet that is posted is posted
-- to its own queue pair.
pub record IsKept (num total : ℕ) (s : Intake) : Type 0 where
  pub counted :
      (i : ℕ)
      → times i s.held + times i (s.posted (i / num)) + times i s.lost
        ≡ (if ltb i total then 1 else 0)
  pub own : (q i : ℕ) → 0 < times i (s.posted q) → i / num ≡ q
