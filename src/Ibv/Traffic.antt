-- ===== src/Ibv/Traffic.antt =====
-- The send packets between the library, its caller and the queue pairs.
use hashpipe.Base.{ℕ, ◌+◌, ◌*◌, ◌^◌, ◌≤◌, ◌<◌, ◌≡◌, ap, subst, arith, if◌then◌else◌}
use hashpipe.Base.{Bool, Option, none, some, List, [], ◌++◌, take, drop, ltb}
use hashpipe.Ibv.{QpState, Poll, Context, get_pkts, send_pkts}
use hashpipe.Ibv.Setup.{link_sends}
use hashpipe.Ibv.Setup.Lists.{numbers, link_sends-IsFreeList}
use hashpipe.Ibv.Chain.{IsChain}
use hashpipe.Ibv.Packets.{IsFreeList, IsSplit, onto, polled, get_pkts-polled}
use hashpipe.Base.{times, times-append, times-take-drop}
use hashpipe.Ibv.Times.{
  times-onto, times-numbers, once-IsDistinct, once-AreNew, IsChain-unique, IsChain-agrees,
}

-- The packets that the caller has, and those that are posted to a queue pair and whose completion
-- has not been polled.
pub record Traffic : Type 0 where
  pub context : Context
  pub qps : List QpState
  pub held : List ℕ
  pub posted : List ℕ

-- How many packets ibv_post_send(3) takes off the front of the list; none if it is not called.
abbrev pub accepted : Option ℕ → ℕ
accepted none = 0
accepted (some n) = n

-- What may happen, in any order. hashpipe_ibv_get_pkts is called: the completions that it polls are of
-- posted packets, each once, and the caller gets the list `mine`. The caller links packets of
-- its own in another way. It calls hashpipe_ibv_send_pkts with a list `mine` of its own packets.
pub data Moves (nqp : ℕ) (s : Traffic) : Traffic → Type 0 where
  get :
      {p : Option ℕ} {d : Context} {qps : List QpState} (modify : ℕ → QpState → Bool)
      (polls : List Poll) (n : ℕ) (mine rest : List ℕ)
      → get_pkts modify polls s.context s.qps n ≡ (p, d, qps)
      → ((i : ℕ) → times i s.posted ≡ times i (polled modify polls s.qps n) + times i rest)
      → IsChain d.next p mine
      → Moves nqp s (record { context = d; qps = qps; held = mine ++ s.held; posted = rest })
  relink :
      (next : ℕ → Option ℕ)
      → ((j : ℕ) → times j s.held ≡ 0 → next j ≡ s.context.next j)
      → Moves nqp s (record s { context = record s.context { next = next } })
  send :
      {answer : Option ℕ} (post : ℕ → ℕ → ℕ) (p : Option ℕ) (qp_idx : ℕ) (mine rest : List ℕ)
      → send_pkts post nqp p qp_idx ≡ answer
      → IsChain s.context.next p mine
      → ((i : ℕ) → times i s.held ≡ times i mine + times i rest)
      → Moves nqp s (record s {
        held = drop (accepted answer) mine ++ rest;
        posted = take (accepted answer) mine ++ s.posted;
      })

-- What may happen after the set-up of `nqp` queue pairs.
pub data Reach (nqp : ℕ) (c : Context) (qps : List QpState) : Traffic → Type 0 where
  start : Reach nqp c qps (record { context = link_sends nqp c; qps = qps; held = []; posted = [] })
  next : {s t : Traffic} → Reach nqp c qps s → Moves nqp s t → Reach nqp c qps t

-- Each of the `total` packets is in one of the three places, and there once.
pub record IsConserved (total : ℕ) (s : Traffic) : Type 0 where
  pub free : List ℕ
  pub listed : IsFreeList s.context free
  pub counted :
      (i : ℕ) → times i free + times i s.held + times i s.posted ≡ (if ltb i total then 1 else 0)

start-IsConserved :
    (nqp : ℕ) (c : Context) (qps : List QpState)
    → 0 < c.send_pkt_num * nqp
    → c.send_pkt_num * nqp < 2 ^ 32
    → IsConserved
        (c.send_pkt_num * nqp)
        (record { context = link_sends nqp c; qps = qps; held = []; posted = [] })
unfolding times
start-IsConserved nqp c qps some_ small = record {
  free = numbers 0 (c.send_pkt_num * nqp);
  listed = link_sends-IsFreeList nqp c some_ small;
  counted = λ i. counted i;
}
  where
    counted :
        (i : ℕ)
        → times i (numbers 0 (c.send_pkt_num * nqp)) + times i [] + times i []
          ≡ (if ltb i (c.send_pkt_num * nqp) then 1 else 0)
    counted i = ground (arith, times-numbers i 0 (c.send_pkt_num * nqp))

IsConserved-once :
    {total : ℕ} {s : Traffic}
    → (v : IsConserved total s) → (i : ℕ) → times i v.free + times i s.held + times i s.posted ≤ 1
IsConserved-once v i = ground (arith, v.counted i)

-- The polled packets `ps` are put in front of the free ones, and the first `m` are handed out.
split-IsConserved :
    {total : ℕ} {s : Traffic} {qps : List QpState} (p : Option ℕ) (d : Context)
    (ps mine rest : List ℕ) (m : ℕ) (v : IsConserved total s)
    → ((i : ℕ) → times i s.posted ≡ times i ps + times i rest)
    → IsChain d.next p mine
    → IsSplit m (onto ps v.free) (p, d)
    → IsConserved total (record { context = d; qps = qps; held = mine ++ s.held; posted = rest })
split-IsConserved {s = s} p d ps mine rest m v from got (handed, kept) = record {
  free = drop m (onto ps v.free);
  listed = (kept, once-IsDistinct _ (λ i. omega (arith, counts i, IsConserved-once v i)));
  counted = λ i. omega (arith, counts i, v.counted i);
}
  where
    is_mine : mine ≡ take m (onto ps v.free)
    is_mine = IsChain-unique d.next p mine (take m (onto ps v.free)) got handed

    counts :
        (i : ℕ)
        → times i (drop m (onto ps v.free)) + times i (mine ++ s.held) + times i rest
          ≡ times i v.free + times i s.held + times i s.posted
    counts i = omega (
      arith,
      times-append i mine s.held,
      ap (times i) is_mine,
      times-take-drop i m (onto ps v.free),
      times-onto i ps v.free,
      from i,
    )

Moves-IsConserved :
    {nqp total : ℕ} {s t : Traffic} → Moves nqp s t → IsConserved total s → IsConserved total t
Moves-IsConserved {s = s} (get {p} {d} modify polls n mine rest e from got) v =
    let ps = polled modify polls s.qps n in
    let (m, le, split) =
      get_pkts-polled modify polls s.context s.qps n v.free v.listed
        (once-AreNew ps v.free (λ i. omega (arith, from i, IsConserved-once v i))) in
    split-IsConserved p d ps mine rest m v from got
      (subst (λ r. IsSplit m (onto ps v.free) (r.0, r.1)) e split)
Moves-IsConserved {s = s} (relink links own) v = record {
  free = v.free;
  listed = (
    IsChain-agrees s.context.next links s.context.send_pkt_head v.free
        (λ j l. own j (omega (arith, IsConserved-once v j))) v.listed.0,
    v.listed.1,
  );
  counted = v.counted;
}
Moves-IsConserved {s = s} (send {answer} post p qp_idx mine rest e list own) v = record {
  free = v.free;
  listed = v.listed;
  counted = λ i. omega (
    arith,
    v.counted i,
    own i,
    times-append i (drop (accepted answer) mine) rest,
    times-append i (take (accepted answer) mine) s.posted,
    times-take-drop i (accepted answer) mine,
  );
}

-- If there is a packet and they are fewer than 2 ^ 32, if the completions that are polled are of posted
-- packets, each once, and if the caller links and sends only packets that it holds: in whatever
-- order packets are got, linked and sent after the set-up, also when calls of libibverbs fail, none
-- is lost and none is in use twice. The free packets form a list that ends with NULL, and each
-- packet is free, held by the caller or posted, exactly once.
pub Reach-IsConserved :
    {nqp : ℕ} {c : Context} {qps : List QpState} {s : Traffic}
    → 0 < c.send_pkt_num * nqp
    → c.send_pkt_num * nqp < 2 ^ 32
    → Reach nqp c qps s
    → IsConserved (c.send_pkt_num * nqp) s
Reach-IsConserved {nqp} {c} {qps} some_ small start = start-IsConserved nqp c qps some_ small
Reach-IsConserved some_ small (next r st) = Moves-IsConserved st (Reach-IsConserved some_ small r)
