-- ===== src/Ibv/Receive/Traffic/Handed.antt =====
-- What hashpipe_ibv_recv_pkts takes from a queue is handed out or lost.
use hashpipe.Base.{ℕ, ◌+◌, ◌≡◌, ◌⊎◌, inl, inr, refl, sym, ◌∙◌, ap, subst, arith}
use hashpipe.Base.{Bool-cases, true, false, Option, none, some, List, [], ◌∷◌}
use hashpipe.Ibv.{QpState}
use hashpipe.Ibv.Chain.{IsChain, IsDistinct}
use hashpipe.Base.{times}
use hashpipe.Ibv.Times.{IsChain-unique}
use hashpipe.Ibv.Receive.{Calls, Received, recv_pkts}
use hashpipe.Ibv.Receive.Order.{ids, recv_pkts-IsChain}
use hashpipe.Ibv.Receive.Traffic.{polls, taken, dropped}

none-IsChain : (next : ℕ → Option ℕ) (xs : List ℕ) → IsChain next none xs → xs ≡ []
none-IsChain next [] ch = refl
none-IsChain next (x ∷ xs) ch = absurd ch

times-dropped :
    (next : ℕ → Option ℕ) (p : Option ℕ) (xs : List ℕ) (i : ℕ)
    → IsChain next p xs
    → times i (dropped p xs) ≡ 0
unfolding times
times-dropped next none [] i ch = refl
times-dropped next none (x ∷ xs) i ch = absurd ch
times-dropped next (some p) xs i ch = refl

-- Without an answer, what was taken is lost.
all_dropped :
    (next : ℕ → Option ℕ) (p : Option ℕ) (handed xs : List ℕ) (i : ℕ)
    → p ≡ none
    → IsChain next p handed
    → times i handed + times i (dropped p xs) ≡ times i xs
unfolding times
all_dropped next none [] xs i e ch = omega arith
all_dropped next none (x ∷ handed) xs i e ch = absurd ch
all_dropped next (some p) handed xs i e ch = cc

-- With an answer, it is what was taken.
all_handed :
    (next : ℕ → Option ℕ) (p : Option ℕ) (handed xs : List ℕ) (i : ℕ)
    → IsChain next p xs
    → IsChain next p handed
    → times i handed + times i (dropped p xs) ≡ times i xs
all_handed next p handed xs i ch got =
    omega
      (arith, times-dropped next p xs i ch, ap (times i) (IsChain-unique next p handed xs got ch))

recv_pkts-none :
    (c : Calls) (next : ℕ → Option ℕ) (length : ℕ → ℕ) (qps : List QpState)
    → ((polls c qps ≡ false) ⊎ (c.drained ≡ false))
    → (recv_pkts c next length qps).0 ≡ none
unfolding recv_pkts
recv_pkts-none c next length qps (inl e) = rw e refl
recv_pkts-none c next length qps (inr e) = rw e (ground arith)

-- What a call takes is handed out or lost.
pub handed-dropped :
    (c : Calls) (next : ℕ → Option ℕ) (length : ℕ → ℕ) (qps qps' : List QpState) (p : Option ℕ)
    (r : Received) (handed : List ℕ)
    → recv_pkts c next length qps ≡ (p, r, qps')
    → IsDistinct (taken c qps)
    → IsChain r.next p handed
    → (i : ℕ) → times i handed + times i (dropped p (taken c qps)) ≡ times i (taken c qps)
handed-dropped c next length qps qps' p r handed e d ch i = elim (Bool-cases (polls c qps)) [
  | inl ready ↦ elim (Bool-cases c.drained) [
    | inl drained ↦
        all_handed r.next p handed (taken c qps) i
          (subst (IsChain r.next p) (sym (is_taken ready)) (
            subst (λ a. IsChain a.1.next a.0 (ids c.completed)) e
              (recv_pkts-IsChain c next length qps ready drained
                (subst IsDistinct (is_taken ready) d)).0))
          ch
    | inr not_drained ↦ without (inr not_drained)
  ]
  | inr not_ready ↦ without (inl not_ready)
]
  where
    is_taken : polls c qps ≡ true → taken c qps ≡ ids c.completed
    is_taken ready = rw ready refl

    without :
        ((polls c qps ≡ false) ⊎ (c.drained ≡ false))
        → times i handed + times i (dropped p (taken c qps)) ≡ times i (taken c qps)
    without h =
        all_dropped r.next p handed (taken c qps) i
          (sym (ap (λ a. a.0) e) ∙ recv_pkts-none c next length qps h) ch
