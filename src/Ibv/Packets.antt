-- ===== src/Ibv/Packets.antt =====
-- The free send packets, popped and pushed, and the states of the queue pairs.
use hashpipe.Base.{ℕ, zero, suc, ◌+◌, ◌≡◌, refl, sym, ◌∙◌, subst, arith, if◌then◌else◌}
use hashpipe.Base.{
  Bool, true, false, Option, none, some, List, [], ◌∷◌, take, drop, ◌++◌, Bool-cases, inl, inr, ◌≤◌,
  ◌==◌,
}
use hashpipe.Ibv.{
  QpState, or_stop, get_pkts, pop_if_drained, at_most, qps_rts, make_ready, make_all_ready,
  from_init, from_rtr, Poll, poll_all, Context, link, walk, pop_send_packets, push, push_all,
}
use hashpipe.Ibv.Chain.{IsChain, IsNotIn, IsDistinct, IsCut, walk-IsCut, link-IsChain, link_self}

-- The free packets of a context, in order, none of them twice.
abbrev pub IsFreeList : Context → List ℕ → Type 0
IsFreeList c xs = IsChain c.next c.send_pkt_head xs × IsDistinct xs

-- If no packet is free twice, popping `n` packets gives a list of the first `n` free ones, or of
-- all if there are fewer, and leaves the others, in order.
pub pop_send_packets-IsChain :
    (n : ℕ) (c : Context) (xs : List ℕ)
    → IsFreeList c xs
    → let (p, d) = pop_send_packets c n in
      IsChain d.next p (take n xs) × IsChain d.next d.send_pkt_head (drop n xs)
unfolding pop_send_packets
pop_send_packets-IsChain zero c xs (chain, distinct) = (tt, chain)
pop_send_packets-IsChain (suc n) c xs (chain, distinct) = go c.send_pkt_head xs chain distinct
  where
    go :
        (o : Option ℕ) (xs : List ℕ)
        → IsChain c.next o xs
        → IsDistinct xs
        → let (p, d) = pop_send_packets (record c { send_pkt_head = o }) (suc n) in
          IsChain d.next p (take (suc n) xs) × IsChain d.next d.send_pkt_head (drop (suc n) xs)
    go none [] ch ds = (tt, tt)
    go none (x ∷ xs) ch ds = absurd ch
    go (some p) [] ch ds = absurd ch
    go (some p) (x ∷ xs) (e, ch) ds =
        subst
          (λ q.
            IsChain (link c.next (walk n c.next q) none) (some q) (x ∷ take n xs)
            × IsChain (link c.next (walk n c.next q) none) (c.next (walk n c.next q)) (drop n xs))
          (sym e) (r.front, r.back)
      where
        r : IsCut c.next n x xs
        r = walk-IsCut c.next n x xs ch ds

-- Completions pushed one after another, the last one first.
abbrev pub onto : List ℕ → List ℕ → List ℕ
onto [] xs = xs
onto (p ∷ ps) xs = onto ps (p ∷ xs)

-- Packets that are not free, and none of them twice.
abbrev pub AreNew : List ℕ → List ℕ → Type 0
AreNew [] xs = Unit
AreNew (p ∷ ps) xs = IsNotIn p xs × AreNew ps (p ∷ xs)

-- Completed packets, none of them free or completed twice, are put in front of the free ones, the
-- last one first, and no free packet is lost or doubled.
pub push_all-IsFreeList :
    (ps : List ℕ) (c : Context) (xs : List ℕ)
    → IsFreeList c xs
    → AreNew ps xs
    → IsFreeList (push_all c ps) (onto ps xs)
unfolding push_all push
push_all-IsFreeList [] c xs free new = free
push_all-IsFreeList (p ∷ ps) c xs (chain, distinct) (away, new) =
    push_all-IsFreeList ps (push c p) (p ∷ xs)
      (
        (
          refl,
          subst (λ r. IsChain (link c.next p c.send_pkt_head) r xs)
              (sym (link_self c.next p c.send_pkt_head))
              (link-IsChain c.next p c.send_pkt_head c.send_pkt_head xs away chain),
        ),
        (away, distinct),
      )
      new

push_all-append :
    (ps qs : List ℕ) (c : Context) → push_all (push_all c ps) qs ≡ push_all c (ps ++ qs)
unfolding push_all
push_all-append [] qs c = refl
push_all-append (p ∷ ps) qs c = push_all-append ps qs (push c p)

-- The completions of the queues, up to the first whose polling fails.
abbrev pub completions : List Poll → List ℕ
completions [] = []
completions (p ∷ ps) = p.completed ++ (if p.drained then completions ps else [])

poll_all-push_all : (ps : List Poll) (c : Context) → (poll_all c ps).1 ≡ push_all c (completions ps)
unfolding poll_all
poll_all-push_all [] c = unfold push_all in refl
poll_all-push_all (p ∷ ps) c = elim (Bool-cases p.drained) [
  | inl good ↦ rw good (
      poll_all-push_all ps (push_all c p.completed)
      ∙ push_all-append p.completed (completions ps) c)
  | inr bad ↦ rw bad (unfold push_all in push_all-append p.completed [] c)
]

-- All queue pairs are ready to send.
abbrev pub AreReady : List QpState → Type 0
AreReady [] = Unit
AreReady (s ∷ ss) = (s ≡ qps_rts) × AreReady ss

make_ready-rts :
    (modify : QpState → Bool) (s : QpState)
    → (make_ready modify s).1 ≡ true
    → (make_ready modify s).0 ≡ qps_rts
unfolding make_ready from_init from_rtr
make_ready-rts modify s h = ground arith

or_stop-AreReady :
    (ss : List QpState) (r : QpState × Bool) (m : List QpState × Bool)
    → (r.1 ≡ true → r.0 ≡ qps_rts)
    → (m.1 ≡ true → AreReady m.0)
    → (or_stop ss r m).1 ≡ true
    → AreReady (or_stop ss r m).0
or_stop-AreReady ss (t, true) (ts, made) one more h = (one refl, more h)
or_stop-AreReady ss (t, false) m one more h = cc

-- If every queue pair could be made ready, each of them is in the state RTS.
pub make_all_ready-AreReady :
    (modify : ℕ → QpState → Bool) (i : ℕ) (ss : List QpState)
    → (make_all_ready modify i ss).1 ≡ true
    → AreReady (make_all_ready modify i ss).0
unfolding make_all_ready
make_all_ready-AreReady modify i [] h = tt
make_all_ready-AreReady modify i (s ∷ ss) h =
    or_stop-AreReady ss (make_ready (modify i) s) _ (make_ready-rts (modify i) s)
      (make_all_ready-AreReady modify (i + 1) ss) h

at_most-le : (c : Context) (n : ℕ) → at_most c n ≤ n
at_most-le c n = ground arith

-- What a call leaves: the first `m` packets of `ys` are handed out, the others are free.
abbrev pub IsSplit : ℕ → List ℕ → Option ℕ × Context → Type 0
IsSplit m ys (p, d) = IsChain d.next p (take m ys) × IsChain d.next d.send_pkt_head (drop m ys)

pop_if_drained-IsSplit :
    (n : ℕ) (r : Bool × Context) (ys : List ℕ)
    → IsFreeList r.1 ys
    → (m : ℕ) × (m ≤ n) × IsSplit m ys (pop_if_drained n r)
pop_if_drained-IsSplit n (true, c) ys free = (n, omega arith, pop_send_packets-IsChain n c ys free)
pop_if_drained-IsSplit n (false, c) ys free = (0, omega arith, (tt, free.0))

-- The completions that a call takes: none if it does not get as far as polling.
abbrev pub polled : (ℕ → QpState → Bool) → List Poll → List QpState → ℕ → List ℕ
polled modify polls qps n =
    if n == 0 then [] else if (make_all_ready modify 0 qps).1 then completions polls else []

-- If no packet is free twice, and no packet whose completion the call takes is free or completed
-- twice, getting packets loses none and hands none out twice, on every branch: the free packets,
-- with all completed ones that the call takes in front of them, are split into at most as many as were
-- asked for, which are handed out, and the others, which stay free.
pub get_pkts-polled :
    (modify : ℕ → QpState → Bool) (polls : List Poll) (c : Context) (qps : List QpState) (n : ℕ)
    (xs : List ℕ)
    → IsFreeList c xs
    → AreNew (polled modify polls qps n) xs
    → let (p, d, _) = get_pkts modify polls c qps n in
      (m : ℕ) × (m ≤ n) × IsSplit m (onto (polled modify polls qps n) xs) (p, d)
unfolding get_pkts
get_pkts-polled modify polls c qps n xs free = elim (Bool-cases (n == 0)) [
  | inl nothing ↦ rw nothing (λ new. (0, omega arith, (tt, free.0)))
  | inr wanted ↦ elim (Bool-cases (make_all_ready modify 0 qps).1) [
    | inl made ↦
        rw (wanted, made)
          (λ new. let (m, le, split) = popped new in (m, omega (arith, at_most-le c n), split))
    | inr failed ↦ rw (wanted, failed) (λ new. (0, omega arith, (tt, free.0)))
  ]
]
  where
    popped :
        AreNew (completions polls) xs
        → (m : ℕ) × (m ≤ at_most c n)
          × IsSplit m
              (onto (completions polls) xs)
              (pop_if_drained (at_most c n) (poll_all c polls))
    popped new = pop_if_drained-IsSplit (at_most c n) (poll_all c polls) _ (
        subst (λ d. IsFreeList d (onto (completions polls) xs)) (sym (poll_all-push_all polls c))
          (push_all-IsFreeList (completions polls) c xs free new))
