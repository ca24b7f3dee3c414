-- ===== src/Ibv/Init/Upto.antt =====
-- The context holds what was acquired, and nothing of what comes later.
use hashpipe.Base.{
  ℕ, zero, suc, ◌+◌, ◌≡◌, ◌≤◌, ◌<◌, ◌⊎◌, inl, inr, refl, sym, ap, ap₂, ◌∙◌, subst, arith, ◌==◌,
  if◌then◌else◌, get_or, Bool-cases,
}
use hashpipe.Base.{Bool, true, false, [], ◌∷◌}
use hashpipe.Ibv.Shutdown.{Release, Context}
use hashpipe.Ibv.Shutdown.Count.{tag, index, same, count, one_if}
use hashpipe.Ibv.Shutdown.Once.{holds}
use hashpipe.Ibv.Init.{Calls, Got, Progress, goes, stops, and_next, gain, acquire, test, each_step}
use hashpipe.Ibv.Init.Gain.{IsCounted, IsGrown, IsAlike}

-- The place in the order of acquisition of what a call releases.
abbrev pub rank : Release → ℕ
rank r =
    if tag r == 10
    then get_or (7 ∷ 3 ∷ 5 ∷ 9 ∷ 10 ∷ 11 ∷ 12 ∷ 15 ∷ 16 ∷ []) (index r) 0
    else get_or (18 ∷ 18 ∷ 8 ∷ 4 ∷ 6 ∷ 13 ∷ 14 ∷ 2 ∷ 1 ∷ 0 ∷ 0 ∷ 18 ∷ 18 ∷ 17 ∷ []) (tag r) 18

abbrev pub IsLater : ℕ → ℕ → Release → Type 0
IsLater n i r = (n < rank r) ⊎ ((rank r ≡ n) × (i ≤ index r))

pub record IsExact (g : Got) : Type 0 where
  pub counts : (r : Release) → IsCounted r → count r g.gained ≡ one_if (holds g.context r)

-- Acquired as far as number `i` of place `n`; and a property of the context.
pub record IsUpto (P : Context → Type 0) (n i : ℕ) (g : Got) : Type 0 where
  pub exact : IsExact g
  pub later : (r : Release) → IsCounted r → IsLater n i r → holds g.context r ≡ false
  pub keeps : P g.context

-- After a call: as far as that, or there was a failure, and the context holds what was acquired.
abbrev pub StepIs : (Context → Type 0) → ℕ → ℕ → Progress → Type 0
StepIs P n i (goes g) = IsUpto P n i g
StepIs P n i (stops g) = IsExact g

pub record IsAfter (P : Context → Type 0) (n i : ℕ) (s : Progress) : Type 0 where
  pub is : StepIs P n i s

abbrev pub Always : Context → Type 0
Always c = Unit

same-tag : (r q : Release) → same r q ≡ true → tag r ≡ tag q
same-tag r q e = ground (arith, e)

same-index : (r q : Release) → same r q ≡ true → index r ≡ index q
same-index r q e = ground (arith, e)

same-rank : (r q : Release) → same r q ≡ true → rank r ≡ rank q
same-rank r q e =
    ap₂
      (λ t x.
        if t == 10
        then get_or (7 ∷ 3 ∷ 5 ∷ 9 ∷ 10 ∷ 11 ∷ 12 ∷ 15 ∷ 16 ∷ []) x 0
        else get_or (18 ∷ 18 ∷ 8 ∷ 4 ∷ 6 ∷ 13 ∷ 14 ∷ 2 ∷ 1 ∷ 0 ∷ 0 ∷ 18 ∷ 18 ∷ 17 ∷ []) t 18)
      (same-tag r q e) (same-index r q e)

module _ {P : Context → Type 0} where
  -- One acquisition.
  pub gain-IsUpto :
      {Q : Context → Type 0} (n i : ℕ) (q : Release) (set : Context → Context) (g : Got)
      → IsUpto Q n i g
      → rank q ≡ n
      → i ≤ index q
      → IsGrown q g.context (set g.context)
      → P (set g.context)
      → IsUpto P n (index q + 1) (gain q set g)
  unfolding count
  gain-IsUpto n i q set g u at le w p = record {
    exact = record { counts = λ r c. counted r c (Bool-cases (same r q)) };
    later = λ r c l. after r c l (Bool-cases (same r q));
    keeps = p;
  }
    where
      counted :
          (r : Release)
          → IsCounted r
          → (same r q ≡ true) ⊎ (same r q ≡ false)
          → (if same r q then 1 else 0) + count r g.gained ≡ one_if (holds (set g.context) r)
      counted r c (inl e) =
          rw (w.grown r c, e, u.exact.counts r c)
            (rw
              (u.later r c
                (inr (same-rank r q e ∙ at, subst (λ x. i ≤ x) (sym (same-index r q e)) le)))
              refl)
      counted r c (inr e) = rw (w.grown r c, e, u.exact.counts r c) (omega arith)

      not_it : (r : Release) → IsLater n (index q + 1) r → same r q ≡ true → ⊥
      not_it r (inl l) e = omega (arith, l, at, same-rank r q e)
      not_it r (inr l) e = omega (arith, l.1, same-index r q e)

      still : (r : Release) → IsLater n (index q + 1) r → IsLater n i r
      still r (inl l) = inl l
      still r (inr l) = inr (l.0, omega (arith, l.1, le))

      after :
          (r : Release)
          → IsCounted r
          → IsLater n (index q + 1) r
          → (same r q ≡ true) ⊎ (same r q ≡ false)
          → holds (set g.context) r ≡ false
      after r c l (inl e) = absurd (not_it r l e)
      after r c l (inr e) = rw (w.grown r c, e, u.later r c (still r l)) refl

  -- The place that comes next.
  pub next_place :
      {Q : Context → Type 0} (n i m : ℕ) (g : Got)
      → IsUpto Q n i g
      → n < m
      → P g.context
      → IsUpto P m 0 g
  next_place n i m g u l p = record {
    exact = u.exact;
    later = λ r c e. u.later r c (inl (beyond r e));
    keeps = p;
  }
    where
      beyond : (r : Release) → IsLater m 0 r → n < rank r
      beyond r (inl e) = omega (arith, e, l)
      beyond r (inr e) = omega (arith, e.0, l)

pub and_next-IsAfter :
    {P Q : Context → Type 0} {n i m j : ℕ} {s : Progress} {f : Got → Progress}
    → IsAfter P n i s
    → ((g : Got) → IsUpto P n i g → IsAfter Q m j (f g))
    → IsAfter Q m j (and_next s f)
and_next-IsAfter {P} {Q} {n} {i} {m} {j} {s} {f} a t = go s a.is
  where
    go : (s : Progress) → StepIs P n i s → IsAfter Q m j (and_next s f)
    go (goes g) u = t g u
    go (stops g) e = record { is = e }

-- A call that acquires nothing.
pub test-IsAfter :
    {P : Context → Type 0} {n i : ℕ} (b : Bool) (g : Got)
    → IsUpto P n i g
    → IsAfter P n i (test b g)
unfolding test
test-IsAfter true g u = record { is = u }
test-IsAfter false g u = record { is = u.exact }

-- The acquisition at a place of the order.
pub acquire-IsAfter :
    {P Q : Context → Type 0} {n : ℕ} (k : Calls) (q : Release) (set : Context → Context) (g : Got)
    → IsUpto Q n 0 g
    → rank q ≡ n
    → IsGrown q g.context (set g.context)
    → P (set g.context)
    → IsAfter P (n + 1) 0 (acquire k q set g)
unfolding acquire
acquire-IsAfter {P} {Q} {n} k q set g u at w p = elim (Bool-cases (k.gives q)) [
  | inl yes_it ↦
      rw (acquire, yes_it)
        record {
          is =
              next_place n (index q + 1) (n + 1) (gain q set g)
                (gain-IsUpto {P = Q'} n 0 q set g u at (omega arith) w tt) (omega arith) p;
        }
  | inr not_it ↦ rw (acquire, not_it) record { is = u.exact }
]
  where
    Q' : Context → Type 0
    Q' = Always

-- A loop whose rounds keep a property `P` and acquire the entries of a place.
pub each_step-IsAfter :
    {P : Context → Type 0} {m : ℕ} (n i : ℕ) (step : ℕ → Got → Progress) (g : Got)
    → ((j : ℕ) (h : Got) → j < i + n → IsUpto P m j h → IsAfter P m (j + 1) (step j h))
    → IsUpto P m i g
    → IsAfter P m (i + n) (each_step n i step g)
unfolding each_step
each_step-IsAfter {P} {m} zero i step g t u = record {
  is = subst (λ x. IsUpto P m x g) (omega arith) u;
}
each_step-IsAfter {P} {m} (suc n) i step g t u =
    subst (λ x. IsAfter P m x (and_next (step i g) (each_step n (i + 1) step))) (omega arith)
      (and_next-IsAfter (t i g (omega arith) u)
        (λ h v. each_step-IsAfter n (i + 1) step h (λ j h l. t j h (omega (arith, l))) v))

pub acquire_entry-IsAfter :
    {P Q : Context → Type 0} {n i : ℕ} (k : Calls) (q : Release) (set : Context → Context) (g : Got)
    → IsUpto Q n i g
    → rank q ≡ n
    → index q ≡ i
    → IsGrown q g.context (set g.context)
    → P (set g.context)
    → IsAfter P n (i + 1) (acquire k q set g)
unfolding acquire
acquire_entry-IsAfter {P} {Q} {n} {i} k q set g u at it w p = elim (Bool-cases (k.gives q)) [
  | inl yes_it ↦
      rw (acquire, yes_it)
        record {
          is =
              subst (λ x. IsUpto P n (x + 1) (gain q set g)) it
                (gain-IsUpto n i q set g u at (omega (arith, it)) w p);
        }
  | inr not_it ↦ rw (acquire, not_it) record { is = u.exact }
]

pub alike-IsExact :
    (g : Got) (c : Context) → IsExact g → IsAlike g.context c → IsExact (record g { context = c })
alike-IsExact g c x a = record { counts = λ r n. x.counts r n ∙ ap one_if (sym (a.alike r n)) }

-- The context changes, but not in what it holds.
pub alike-IsUpto :
    {P Q : Context → Type 0} {n i : ℕ} (g : Got) (c : Context)
    → IsUpto Q n i g
    → IsAlike g.context c
    → P c
    → IsUpto P n i (record g { context = c })
alike-IsUpto g c u a p = record {
  exact = alike-IsExact g c u.exact a;
  later = λ r n l. a.alike r n ∙ u.later r n l;
  keeps = p;
}

-- The place after a whole array.
pub next-IsAfter :
    {P Q : Context → Type 0} {n i : ℕ} (m : ℕ) {s : Progress}
    → IsAfter Q n i s
    → n < m
    → ((c : Context) → Q c → P c)
    → IsAfter P m 0 s
next-IsAfter {P} {Q} {n} {i} m {s} a l f = go s a.is
  where
    go : (s : Progress) → StepIs Q n i s → IsAfter P m 0 s
    go (goes g) u = record { is = next_place n i m g u l (f g.context u.keeps) }
    go (stops g) e = record { is = e }
