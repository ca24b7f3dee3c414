-- ===== src/Ibv/Times.antt =====
-- The chains and lists of packets that have no packet twice.
use hashpipe.Base.{times}
use hashpipe.Base.{
  ℕ, zero, suc, ◌+◌, ◌≡◌, ◌≤◌, ◌<◌, refl, sym, ap₂, ◌∙◌, subst, arith, ltb, leb, ◌&&◌,
  if◌then◌else◌,
}
use hashpipe.Base.{List, [], ◌∷◌, Option, none, some}
use hashpipe.Ibv.Chain.{IsChain, IsNotIn, IsDistinct}
use hashpipe.Ibv.Packets.{onto, AreNew}
use hashpipe.Ibv.Setup.Lists.{numbers}

pub times-onto : (i : ℕ) (ps xs : List ℕ) → times i (onto ps xs) ≡ times i ps + times i xs
unfolding times
times-onto i [] xs = omega arith
times-onto i (p ∷ ps) xs = times-onto i ps (p ∷ xs) ∙ omega arith

pub not_in : (i : ℕ) (xs : List ℕ) → times i xs ≡ 0 → IsNotIn i xs
unfolding times
not_in i [] e = tt
not_in i (x ∷ xs) e = (ground (arith, e), not_in i xs (ground (arith, e)))

pub times_here : (x : ℕ) (xs : List ℕ) → times x (x ∷ xs) ≡ times x xs + 1
unfolding times
times_here x xs = ground arith

times_more : (i x : ℕ) (xs : List ℕ) → times i xs ≤ times i (x ∷ xs)
unfolding times
times_more i x xs = omega arith

-- None of them twice.
pub once-IsDistinct : (xs : List ℕ) → ((i : ℕ) → times i xs ≤ 1) → IsDistinct xs
once-IsDistinct [] once = tt
once-IsDistinct (x ∷ xs) once = (
  not_in x xs (omega (arith, once x, times_here x xs)),
  once-IsDistinct xs (λ i. omega (arith, once i, times_more i x xs)),
)

pub once-AreNew : (ps xs : List ℕ) → ((i : ℕ) → times i ps + times i xs ≤ 1) → AreNew ps xs
unfolding times
once-AreNew [] xs once = tt
once-AreNew (p ∷ ps) xs once = (
  not_in p xs (omega (arith, once p, times_here p ps)),
  once-AreNew ps (p ∷ xs) (λ i. omega (arith, once i)),
)

pub times-numbers :
    (i m n : ℕ) → times i (numbers m n) ≡ (if leb m i && ltb i (m + n) then 1 else 0)
unfolding times
times-numbers i m zero = ground arith
times-numbers i m (suc n) = ground (arith, times-numbers i (m + 1) n)

-- A list has one sequence of packets.
pub IsChain-unique :
    (next : ℕ → Option ℕ) (p : Option ℕ) (xs ys : List ℕ)
    → IsChain next p xs
    → IsChain next p ys
    → xs ≡ ys
IsChain-unique next none [] [] c d = refl
IsChain-unique next none (x ∷ xs) ys c d = absurd c
IsChain-unique next none [] (y ∷ ys) c d = absurd d
IsChain-unique next (some p) [] ys c d = absurd c
IsChain-unique next (some p) (x ∷ xs) [] c d = absurd d
IsChain-unique next (some p) (x ∷ xs) (y ∷ ys) (e, c) (f, d) =
    ap₂ ◌∷◌ (sym e ∙ f)
      (IsChain-unique next (next x) xs ys c (subst (λ i. IsChain next (next i) ys) (sym f ∙ e) d))

-- A chain depends on the links of its own packets only.
pub IsChain-agrees :
    (f g : ℕ → Option ℕ) (p : Option ℕ) (xs : List ℕ)
    → ((j : ℕ) → 0 < times j xs → g j ≡ f j)
    → IsChain f p xs
    → IsChain g p xs
unfolding times
IsChain-agrees f g none [] same c = tt
IsChain-agrees f g none (x ∷ xs) same c = absurd c
IsChain-agrees f g (some p) [] same c = absurd c
IsChain-agrees f g (some p) (x ∷ xs) same (e, c) = (
  e,
  subst (λ o. IsChain g o xs) (sym (same x (ground arith)))
      (IsChain-agrees f g (f x) xs (λ j l. same j (ground (arith, l))) c),
)
