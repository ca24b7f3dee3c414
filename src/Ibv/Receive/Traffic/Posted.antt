-- ===== src/Ibv/Receive/Traffic/Posted.antt =====
-- The packets that are posted to one queue pair.
use hashpipe.Base.{ℕ, ◌+◌, ◌/◌, ◌≤◌, ◌<◌, ◌≡◌, ◌≢◌, inl, inr, sym, ◌∙◌, ap, subst, arith}
use hashpipe.Base.{dec_lt, List}
use hashpipe.Base.{update, update_self, update_other, same_or_other}
use hashpipe.Base.{times}
use hashpipe.Ibv.Receive.Traffic.{Intake, IsKept}

-- A packet of another queue pair is not posted to this one.
other-zero :
    {num total : ℕ} {s : Intake}
    → IsKept num total s
    → (q i : ℕ) → i / num ≢ q
    → times i (s.posted q) ≡ 0
other-zero {s = s} v q i h = elim (dec_lt 0 (times i (s.posted q))) [
  | yes l ↦ absurd (h (v.own q i l))
  | no none_posted ↦ omega arith
]

pub posted_once :
    {num total : ℕ} {s : Intake} → IsKept num total s → (q i : ℕ) → times i (s.posted q) ≤ 1
posted_once {num} {s = s} v q i = elim (same_or_other (i / num) q) [
  | inl e ↦ subst (λ q. times i (s.posted q) ≤ 1) e (ground (arith, v.counted i))
  | inr h ↦ omega (arith, other-zero v q i h)
]

pub update-own :
    {num total : ℕ} {s : Intake}
    → IsKept num total s
    → (q : ℕ) (xs : List ℕ) → ((i : ℕ) → 0 < times i xs → i / num ≡ q)
    → (j i : ℕ) → 0 < times i (update s.posted q xs j)
    → i / num ≡ j
update-own {num} {s = s} v q xs here j i l = elim (same_or_other q j) [
  | inl e ↦
      here i (
        subst (λ ys. 0 < times i ys) (ap (update s.posted q xs) (sym e) ∙ update_self s.posted q xs)
          l)
      ∙ e
  | inr h ↦ v.own j i (subst (λ ys. 0 < times i ys) (update_other s.posted q xs j h) l)
]

-- The list of queue pair `q` becomes `xs`: `a` packets leave it and `b` come to it.
pub update-counted :
    (num : ℕ) (posted : ℕ → List ℕ) (q i a b : ℕ) (xs : List ℕ)
    → (0 < a + b → i / num ≡ q)
    → times i xs + a ≡ times i (posted q) + b
    → times i (update posted q xs (i / num)) + a ≡ times i (posted (i / num)) + b
update-counted num posted q i a b xs here e = elim (same_or_other (i / num) q) [
  | inl same ↦
      subst (λ j. times i (update posted q xs j) + a ≡ times i (posted j) + b) (sym same)
        (ap (λ ys. times i ys + a) (update_self posted q xs) ∙ e)
  | inr other ↦
      omega (
        arith,
        nothing other,
        ap (times i) (update_other posted q xs (i / num) (λ f. other (sym f))),
      )
]
  where
    nothing : i / num ≢ q → a + b ≡ 0
    nothing other = elim (dec_lt 0 (a + b)) [
      | yes l ↦ absurd (other (here l))
      | no none_moved ↦ omega arith
    ]
