-- ===== src/Databuf/Mask.antt =====
-- What the status words of a data buffer say of its blocks.
use native.Mathlib.Nat.{pow-suc}
use native.Mathlib.Numerals.{add-one}
use hashpipe.Base.{Bool-cases, inl, inr, true, false}
use hashpipe.Base.{
  ℕ, zero, suc, ◌+◌, ◌*◌, ◌/◌, ◌%◌, ◌^◌, ◌≤◌, ◌<◌, ◌≡◌, refl, arith, ◌==◌, if◌then◌else◌,
}
use hashpipe.Base.{
  some, List, [], ◌∷◌, length, get_or, ◌++◌, ap, ap₂, ◌∙◌, bit_or, bit_or_fields, bit_or_comm,
}
use hashpipe.Databuf.Locks.{int_bit, mask_from}

-- Bit `i` of a number.
abbrev pub bit : ℕ → ℕ → ℕ
bit m zero = m % 2
bit m (suc i) = bit (m / 2) i

-- The number whose bit `i` says whether entry `i` is not 0.
abbrev pub pack : List ℕ → ℕ
pack [] = 0
pack (v ∷ vs) = (if v == 0 then 0 else 1) + 2 * pack vs

pack_half : (v : ℕ) (vs : List ℕ) → pack (v ∷ vs) / 2 ≡ pack vs
pack_half v vs = ground arith

pub bit-pack : (vs : List ℕ) (i : ℕ) → bit (pack vs) i ≡ (if get_or vs i 0 == 0 then 0 else 1)
bit-pack [] zero = refl
bit-pack [] (suc i) = bit-pack [] i
bit-pack (v ∷ vs) zero = ground arith
bit-pack (v ∷ vs) (suc i) = ap (λ m. bit m i) (pack_half v vs) ∙ bit-pack vs i

pow-add-one : (i : ℕ) → 2 ^ (i + 1) ≡ 2 * 2 ^ i
pow-add-one i = ap (λ n. 2 ^ n) (add-one i) ∙ pow-suc 2 i ∙ omega arith

-- Setting a bit above all others adds it.
bit_or-top : (tot i : ℕ) → tot < 2 ^ i → bit_or tot (2 ^ i) ≡ tot + 2 ^ i
bit_or-top tot i h =
    bit_or_comm tot (2 ^ i) ∙ ap (λ t. bit_or t tot) one-mul ∙ bit_or_fields i 1 tot h ∙ omega arith
  where
    one-mul : 2 ^ i ≡ 1 * 2 ^ i
    one-mul = omega arith

step_free : (tot i P : ℕ) → tot + 2 ^ (i + 1) * P ≡ tot + 2 ^ i * (0 + 2 * P)
step_free tot i P = omega (arith, ap (λ (t : ℕ). t * P) (pow-add-one i))

step_filled : (tot i P : ℕ) → tot + 2 ^ i + 2 ^ (i + 1) * P ≡ tot + 2 ^ i * (1 + 2 * P)
step_filled tot i P = omega (arith, ap (λ (t : ℕ). t * P) (pow-add-one i))

mask_from_free :
    (v : ℕ) (vs : List ℕ) (tot i : ℕ)
    → (v == 0) ≡ true
    → mask_from tot i (v ∷ vs) ≡ mask_from tot (i + 1) vs
unfolding mask_from
mask_from_free v vs tot i h = ground arith

mask_from_filled :
    (v : ℕ) (vs : List ℕ) (tot i : ℕ)
    → (v == 0) ≡ false
    → i < 31
    → mask_from tot i (v ∷ vs) ≡ mask_from (bit_or tot (2 ^ i)) (i + 1) vs
unfolding mask_from int_bit
mask_from_filled v vs tot i h p = ground arith

-- The loop from index `i` on, while every shift is by less than 31.
pub mask_from-pack :
    (vs : List ℕ) (tot i : ℕ)
    → tot < 2 ^ i
    → i + length vs ≤ 31
    → mask_from tot i vs ≡ some (tot + 2 ^ i * pack vs)
unfolding mask_from
mask_from-pack [] tot i h p = ground arith
mask_from-pack (v ∷ vs) tot i h p = elim (Bool-cases (v == 0)) [
  | inl free ↦
      mask_from_free v vs tot i free
      ∙ mask_from-pack vs tot (i + 1) (omega (arith, pow-add-one i)) (omega arith)
      ∙ rw free (ap some (step_free tot i (pack vs)))
  | inr filled ↦
      mask_from_filled v vs tot i filled (omega arith)
      ∙ ap (λ t. mask_from t (i + 1) vs) (bit_or-top tot i h)
      ∙ mask_from-pack vs (tot + 2 ^ i) (i + 1) (omega (arith, pow-add-one i)) (omega arith)
      ∙ rw filled (ap some (step_filled tot i (pack vs)))
]

pub pack-lt : (vs : List ℕ) → pack vs < 2 ^ length vs
pack-lt [] = omega arith
pack-lt (v ∷ vs) = ground (arith, pack-lt vs, pow-suc 2 (length vs))

-- The loop over a first part of at most 31 entries, then over the rest.
pub mask_from-append :
    (vs us : List ℕ) (tot i : ℕ)
    → tot < 2 ^ i
    → i + length vs ≤ 31
    → mask_from tot i (vs ++ us) ≡ mask_from (tot + 2 ^ i * pack vs) (i + length vs) us
mask_from-append [] us tot i h p = ap₂ (λ t j. mask_from t j us) (omega arith) (omega arith)
mask_from-append (v ∷ vs) us tot i h p = elim (Bool-cases (v == 0)) [
  | inl free ↦
      mask_from_free v (vs ++ us) tot i free
      ∙ mask_from-append vs us tot (i + 1) (omega (arith, pow-add-one i)) (omega arith)
      ∙ ap₂ (λ t j. mask_from t j us) (rw free (step_free tot i (pack vs))) (omega arith)
  | inr filled ↦
      mask_from_filled v (vs ++ us) tot i filled (omega arith)
      ∙ ap (λ t. mask_from t (i + 1) (vs ++ us)) (bit_or-top tot i h)
      ∙ mask_from-append vs us (tot + 2 ^ i) (i + 1) (omega (arith, pow-add-one i)) (omega arith)
      ∙ ap₂ (λ t j. mask_from t j us) (rw filled (step_filled tot i (pack vs))) (omega arith)
]
