-- ===== src/Ibv/Receive/Traffic/Kept.antt =====
-- No receive packet is in two places, or posted to another queue pair.
use hashpipe.Base.{◌^◌}
use hashpipe.Base.{ℕ, ◌+◌, ◌*◌, ◌/◌, ◌≤◌, ◌<◌, ◌≡◌, refl, sym, ◌∙◌, ap, subst, arith}
use hashpipe.Base.{dec_lt, true, Option, none, some, List, [], ◌∷◌, ◌++◌, take, drop}
use hashpipe.Ibv.{QpState, release_pkts, release_qp}
use hashpipe.Ibv.Chain.{IsChain, IsDistinct}
use hashpipe.Base.{times, times-append, times-take-drop}
use hashpipe.Ibv.Times.{times_here, times-numbers, once-IsDistinct, IsChain-unique}
use hashpipe.Ibv.Setup.{link_recvs}
use hashpipe.Ibv.Setup.Lists.{numbers, link_recvs-IsChain, in_queue}
use hashpipe.Ibv.Receive.Traffic.{
  Intake, taken, dropped, accepted, repost, Moves, recv, release, Reach, start, on, IsKept,
}
use hashpipe.Ibv.Receive.Traffic.Handed.{handed-dropped}
use hashpipe.Ibv.Receive.Traffic.Posted.{posted_once, update-own, update-counted}

release-IsKept :
    {num total : ℕ} {s : Intake} (accept : ℕ → ℕ → ℕ) (p : Option ℕ) (mine rest : List ℕ)
    → IsKept num total s
    → IsChain s.next p mine
    → ((i : ℕ) → times i s.held ≡ times i mine + times i rest)
    → ((i j : ℕ) → 0 < times i mine → 0 < times j mine → i / num ≡ j / num)
    → let answer = release_pkts {A = Option (ℕ × ℕ)} none (λ q p. some (q, accept q p)) num p in
      IsKept num total (record s {
        held = drop (accepted answer) mine ++ rest;
        posted = repost answer mine s.posted;
      })
unfolding release_pkts release_qp times
release-IsKept {s = s} accept none mine rest v list from one = record {
  counted = λ i. omega (arith, v.counted i, from i, times-append i mine rest);
  own = v.own;
}
release-IsKept {num} {s = s} accept (some p) [] rest v list from one = absurd list
release-IsKept {num} {s = s} accept (some p) (x ∷ mine) rest v (e, list) from one = record {
  counted = λ i. omega (
    arith,
    v.counted i,
    from i,
    times-append i (drop n (x ∷ mine)) rest,
    times-take-drop i n (x ∷ mine),
    update-counted num s.posted (p / num) i 0 (times i (take n (x ∷ mine))) back
        (λ l. here i (omega (arith, times-take-drop i n (x ∷ mine))))
        (omega (arith, times-append i (take n (x ∷ mine)) (s.posted (p / num)))),
  );
  own = update-own v (p / num) back (λ i l. elim (dec_lt 0 (times i (s.posted (p / num)))) [
    | yes there ↦ v.own (p / num) i there
    | no not_there ↦ here i (
        omega (
          arith,
          times-take-drop i n (x ∷ mine),
          times-append i (take n (x ∷ mine)) (s.posted (p / num)),
        ))
  ]);
}
  where
    n : ℕ
    n = accept (p / num) p

    back : List ℕ
    back = take n (x ∷ mine) ++ s.posted (p / num)

    here : (i : ℕ) → 0 < times i (x ∷ mine) → i / num ≡ p / num
    here i l = one i x l (omega (arith, times_here x mine)) ∙ ap (λ j. j / num) (sym e)

Moves-IsKept :
    {num total : ℕ} {s t : Intake} → Moves num s t → IsKept num total s → IsKept num total t
Moves-IsKept {num} {s = s} (recv {p} {r} {qps} c length q handed rest e from got) v = record {
  counted = λ i. omega (
    arith,
    v.counted i,
    times-append i handed s.held,
    times-append i (dropped p (taken c s.qps)) s.lost,
    handed-dropped c s.next length s.qps qps p r handed e distinct got i,
    update-counted num s.posted q i (times i (taken c s.qps)) 0 rest
        (λ l. v.own q i (omega (arith, from i))) (omega (arith, from i)),
  );
  own = update-own v q rest (λ i l. v.own q i (omega (arith, from i)));
}
  where
    distinct : IsDistinct (taken c s.qps)
    distinct = once-IsDistinct (taken c s.qps) (λ i. omega (arith, from i, posted_once v q i))
Moves-IsKept {num} {total} {s} (release accept p mine rest e list from one) v =
    subst
      (λ answer. IsKept num total (record s {
        held = drop (accepted answer) mine ++ rest;
        posted = repost answer mine s.posted;
      }))
      e (release-IsKept accept p mine rest v list from one)

quotient_low : (i num : ℕ) → 0 < num → i / num * num ≤ i
quotient_low i num some_ = grind arith

quotient_high : (i num : ℕ) → 0 < num → i < i / num * num + num
quotient_high i num some_ = grind arith

below_total : (i num nqp : ℕ) → 0 < num → i / num < nqp → i < num * nqp
below_total i num nqp some_ l = grind arith

above_total : (i num nqp : ℕ) → 0 < num → nqp ≤ i / num → num * nqp ≤ i
above_total i num nqp some_ l = grind arith

-- At first a packet is posted to its own queue pair.
numbers-home : (i num nqp : ℕ) → 0 < num → i / num < nqp → times i (numbers (i / num * num) num) ≡ 1
numbers-home i num nqp some_ l = ground (
  arith,
  times-numbers i (i / num * num) num,
  quotient_low i num some_,
  quotient_high i num some_,
)

numbers-own : (i num q : ℕ) → 0 < times i (numbers (q * num) num) → i / num ≡ q
numbers-own i num q l =
    in_queue q num i (ground (arith, times-numbers i (q * num) num))
      (ground (arith, times-numbers i (q * num) num))

swapped : (num nqp : ℕ) → num * nqp ≡ nqp * num
swapped num nqp = grind arith

start-IsKept :
    (num nqp : ℕ) (next : ℕ → Option ℕ) (qps : List QpState) (posted : ℕ → List ℕ)
    → 0 < num
    → num * nqp < 2 ^ 31
    → ((q : ℕ)
        → q < nqp
        → IsChain (link_recvs (λ q. true) num nqp 0 next).0 (some (q * num)) (posted q))
    → ((q : ℕ) → nqp ≤ q → posted q ≡ [])
    → IsKept num (num * nqp) (record {
      next = (link_recvs (λ q. true) num nqp 0 next).0;
      qps = qps;
      held = [];
      lost = [];
      posted = posted;
    })
unfolding times
start-IsKept num nqp next qps posted some_ small linked others = record {
  counted = λ i. elim (dec_lt (i / num) nqp) [
    | yes l ↦ ground (
      arith,
      ap (times i) (first (i / num) l),
      numbers-home i num nqp some_ l,
      below_total i num nqp some_ l,
    )
    | no h ↦ ground (
      arith,
      ap (times i) (others (i / num) (omega arith)),
      above_total i num nqp some_ (omega arith),
    )
  ];
  own = λ q i l. elim (dec_lt q nqp) [
    | yes less ↦ numbers-own i num q (subst (λ xs. 0 < times i xs) (first q less) l)
    | no h ↦ absurd (omega (arith, ap (times i) (others q (omega arith))))
  ];
}
  where
    first : (q : ℕ) → q < nqp → posted q ≡ numbers (q * num) num
    first q l =
        IsChain-unique (link_recvs (λ q. true) num nqp 0 next).0 (some (q * num)) (posted q)
          (numbers (q * num) num) (linked q l)
          (link_recvs-IsChain (λ q. true) (λ q p. q) num nqp next (λ q. refl) some_
            (subst (λ m. m < 2 ^ 31) (swapped num nqp) small) q l).0

-- If a queue pair has a packet at least, there are fewer than 2 ^ 31 packets and all lists could be posted in the set-up, if the
-- completions that a call takes are of packets that are posted to one queue pair, each once, and if
-- every list that the caller releases is of packets that it holds, all of one queue pair: in whatever
-- order packets are received and released, each is held by the caller, or posted to its own
-- queue pair, or was lost by a call that failed after it had taken completions, exactly once.
pub Reach-IsKept :
    {num nqp : ℕ} {s : Intake}
    → 0 < num
    → num * nqp < 2 ^ 31
    → Reach num nqp s
    → IsKept num (num * nqp) s
Reach-IsKept {num} {nqp} some_ small (start next qps posted linked others) =
    start-IsKept num nqp next qps posted some_ small linked others
Reach-IsKept some_ small (on r move) = Moves-IsKept move (Reach-IsKept some_ small r)
