-- ===== src/Tools/Write/Fill.antt =====
-- Which bytes are written.
use hashpipe.Base.{ℕ, zero, suc, ◌+◌, ◌-◌, ◌≤◌, ◌<◌, ◌≡◌, refl, ◌∙◌, arith}
use hashpipe.Base.{◌⊎◌}
use hashpipe.Base.{Option, none, some, ℤ, pos, negsuc}
use hashpipe.Tools.Write.{Reads, Bytes, stored, fill}

-- read(2) returns at most `most`, and at most the count that it is given.
abbrev pub IsAtMost : ℕ → ℕ → ℤ → Type 0
IsAtMost most count (pos n) = (n ≤ most) × (n ≤ count)
IsAtMost most count (negsuc n) = Unit

-- Before `p`, `most` bytes behind it or `num` bytes behind it.
abbrev pub IsBeyond : ℕ → ℕ → ℕ → ℕ → Type 0
IsBeyond p most num a = (a < p) ⊎ (p + most ≤ a) ⊎ (p + num ≤ a)

-- The loop has ended, and has changed bytes in that range only.
pub record IsSame (p most num : ℕ) (m m' : Bytes) : Type 0 where
  pub same : (a : ℕ) → IsBeyond p most num a → m' a ≡ m a

abbrev pub Fills : ℕ → ℕ → ℕ → Bytes → Option Bytes → Type 0
Fills p most num m none = ⊥
Fills p most num m (some m') = IsSame p most num m m'

stored_lem :
    (m : Bytes) (p n : ℕ) (bytes : ℕ → ℕ) (a : ℕ)
    → (a < p) ⊎ (p + n ≤ a)
    → stored m p n bytes a ≡ m a
stored_lem m p n bytes a out = ground (arith, out)

module _ (read : Reads) (p most : ℕ) (keeps : (i n : ℕ) → IsAtMost most n (read i n).result) where
  -- One more read before the rest of the loop.
  Fills-stored :
      (m : Bytes) (num n : ℕ) (bytes : ℕ → ℕ) (o : Option Bytes)
      → suc n ≤ most
      → n ≤ num
      → Fills p most (num - n) (stored m p (suc n) bytes) o
      → Fills p most (suc num) m o
  Fills-stored m num n bytes none le le' f = elim f [ ]
  Fills-stored m num n bytes (some m') le le' f = record {
    same = λ a out.
        f.same a (ground (arith, out)) ∙ stored_lem m p (suc n) bytes a (ground (arith, out));
  }

  pub fill-Fills :
      (fuel num i : ℕ) (m : Bytes) → num < fuel → Fills p most num m (fill fuel read p num i m)
  unfolding fill
  fill-Fills zero num i m l = omega (arith, l)
  fill-Fills (suc fuel) zero i m l = record { same = λ a out. refl }
  fill-Fills (suc fuel) (suc num) i m l =
      go (λ num i m l. fill-Fills fuel num i m l) (read i (suc num)).result (keeps i (suc num))
    where
      go :
          ((num i : ℕ) (m : Bytes) → num < fuel → Fills p most num m (fill fuel read p num i m))
          → (r : ℤ) → IsAtMost most (suc num) r
          → Fills p most (suc num) m (elim r [
            | pos zero ↦ some m
            | pos (suc n) ↦
                fill fuel read p (num - n) (suc i) (stored m p (suc n) (read i (suc num)).bytes)
            | negsuc _ ↦ some m
          ])
      go rest (pos zero) q = record { same = λ a out. refl }
      go rest (pos (suc n)) q =
          Fills-stored m num n (read i (suc num)).bytes _ q.0 (omega (arith, q.1))
            (rest (num - n) (suc i) _ (omega (arith, l)))
      go rest (negsuc n) q = record { same = λ a out. refl }
