-- ===== src/Executable/Command/Lives.antt =====
-- What becomes of the threads of a pipeline.
use hashpipe.Base.{
  ℕ, zero, suc, ◌+◌, ◌≤◌, ◌≡◌, refl, sym, ap, ap₂, ◌∙◌, ◌⊎◌, inl, inr, arith, ltb, ◌==◌, ◌&&◌,
  if◌then◌else◌, subst,
}
use hashpipe.Base.{Bool, true, false, List, [], ◌∷◌, ◌++◌}
use hashpipe.Executable.Command.{
  Act, create, cancel, signal, join, destroy, down, create_all, run_all,
}

-- What is done, and to which thread.
abbrev kind : Act → ℕ
kind (create i) = 0
kind (cancel i) = 1
kind (signal i) = 2
kind (join i) = 3
kind (destroy i) = 4

abbrev whose : Act → ℕ
whose (create i) = i
whose (cancel i) = i
whose (signal i) = i
whose (join i) = i
whose (destroy i) = i

unfoldable pub count : Act → List Act → ℕ
count a [] = 0
count a (b ∷ bs) = (if kind a == kind b && whose a == whose b then 1 else 0) + count a bs

count-append : (a : Act) (xs ys : List Act) → count a (xs ++ ys) ≡ count a xs + count a ys
unfolding count
count-append a [] ys = omega arith
count-append a (x ∷ xs) ys = omega (
  arith,
  ap (λ n. (if kind a == kind x && whose a == whose x then 1 else 0) + n) (count-append a xs ys),
)

abbrev once_below : ℕ → ℕ → Act → ℕ
once_below k n a = if kind a == k && ltb (whose a) n then 1 else 0

next_below :
    (g k x n : ℕ)
    → (if g == k && x == n then 1 else 0) + (if g == k && ltb x n then 1 else 0)
      ≡ (if g == k && ltb x (suc n) then 1 else 0)
next_below g k x n = ground arith

count-down :
    (a : Act) (k : ℕ) (act : ℕ → Act) (n : ℕ)
    → ((i : ℕ) → kind (act i) ≡ k)
    → ((i : ℕ) → whose (act i) ≡ i)
    → count a (down act n) ≡ once_below k n a
unfolding down count
count-down a k act zero e f = ground arith
count-down a k act (suc n) e f =
    ap (λ m. (if kind a == kind (act n) && whose a == whose (act n) then 1 else 0) + m)
      (count-down a k act n e f)
    ∙ rw (e n, f n) (next_below (kind a) k (whose a) n)

-- The threads that are created, all of them or those behind the first one that cannot be.
count-create_all :
    (works : ℕ → Bool) (a : Act) (n : ℕ)
    → (create_all works n).1 ≡ true
    → count a (create_all works n).0 ≡ once_below 0 n a
unfolding create_all count
count-create_all works a zero e = ground arith
count-create_all works a (suc n) e = go (works n) refl (count-create_all works a n)
  where
    go :
        (b : Bool)
        → works n ≡ b
        → ((create_all works n).1 ≡ true → count a (create_all works n).0 ≡ once_below 0 n a)
        → count a (create_all works (suc n)).0 ≡ once_below 0 (suc n) a
    go true w h =
        rw (w, create_all)
          (ap (λ m. (if kind a == 0 && whose a == n then 1 else 0) + m)
              (h (subst (λ y. y ≡ true) (rw (w, create_all) refl) e))
            ∙ next_below (kind a) 0 (whose a) n)
    go false w h = cc (sym e, w)

only_creates :
    (works : ℕ → Bool) (a : Act) (n : ℕ) → count a (create_all works n).0 ≤ once_below 0 n a
unfolding create_all count
only_creates works a zero = omega arith
only_creates works a (suc n) = go (works n) refl (only_creates works a n)
  where
    go :
        (b : Bool)
        → works n ≡ b
        → count a (create_all works n).0 ≤ once_below 0 n a
        → count a (create_all works (suc n)).0 ≤ once_below 0 (suc n) a
    go true w h = rw (w, create_all) (omega (arith, h, next_below (kind a) 0 (whose a) n))
    go false w h = rw (w, create_all) (omega arith)

-- How often an act is done in a run of `n` threads that ends as it should.
abbrev pub lived : ℕ → Act → ℕ
lived n (create i) = if ltb i n then 1 else 0
lived n (cancel i) = if ltb i n then 1 else 0
lived n (signal i) = if ltb i n then 1 else 0
lived n (join i) = if ltb i n then 1 else 0
lived n (destroy i) = if ltb i (n + 1) then 1 else 0

below_once : (k n : ℕ) (a : Act) → once_below k n a ≤ (if kind a == k then 1 else 0)
below_once k n a = ground arith

whole_run :
    (works : ℕ → Bool) (n : ℕ) (a : Act)
    → (create_all works n).1 ≡ true
    → count a (
        (create_all works n).0
        ++ (down cancel n ++ (down signal n ++ (down join n ++ down destroy (n + 1)))))
      ≡ once_below 0 n a
        + (once_below 1 n a + (once_below 2 n a + (once_below 3 n a + once_below 4 (n + 1) a)))
whole_run works n a e =
    count-append a (create_all works n).0 _
    ∙ ap₂ ◌+◌ (count-create_all works a n e) (
        count-append a (down cancel n) _
        ∙ ap₂ ◌+◌ (count-down a 1 cancel n (λ i. refl) (λ i. refl)) (
            count-append a (down signal n) _
            ∙ ap₂ ◌+◌ (count-down a 2 signal n (λ i. refl) (λ i. refl)) (
                count-append a (down join n) (down destroy (n + 1))
                ∙ ap₂ ◌+◌ (count-down a 3 join n (λ i. refl) (λ i. refl))
                    (count-down a 4 destroy (n + 1) (λ i. refl) (λ i. refl)))))

only_lived :
    (n : ℕ) (a : Act)
    → once_below 0 n a
        + (once_below 1 n a + (once_below 2 n a + (once_below 3 n a + once_below 4 (n + 1) a)))
      ≡ lived n a
only_lived n (create i) = omega arith
only_lived n (cancel i) = omega arith
only_lived n (signal i) = omega arith
only_lived n (join i) = omega arith
only_lived n (destroy i) = omega arith

-- When `main` has got through its command line with `n` threads (it does not with -h, -l, -V or an
-- error, after which it creates none): if it then exits with 0, each of its threads was created,
-- cancelled, signalled and joined exactly once, and its arguments, and those of the element behind the
-- last, destroyed exactly once, and nothing was done to any other; if it does not, it exits with 1,
-- none was created twice, and none was cancelled, signalled, joined or destroyed.
pub run_all-lived :
    (drops : Bool) (works : ℕ → Bool) (n : ℕ) (a : Act)
    → let (acts, code) = run_all drops works n in
      ((code ≡ 0) × (count a acts ≡ lived n a))
      ⊎ ((code ≡ 1) × (count a acts ≤ (if kind a == 0 then 1 else 0)))
unfolding run_all count
run_all-lived false works n a = inr (refl, omega arith)
run_all-lived true works n a = go (n == 0) (create_all works n).1 refl refl
  where
    go :
        (none_given all : Bool)
        → n == 0 ≡ none_given
        → (create_all works n).1 ≡ all
        → let (acts, code) = run_all true works n in
          ((code ≡ 0) × (count a acts ≡ lived n a))
          ⊎ ((code ≡ 1) × (count a acts ≤ (if kind a == 0 then 1 else 0)))
    go true all e w = rw (e, run_all) (inr (refl, omega arith))
    go false true e w = rw (e, w, run_all) (inl (refl, whole_run works n a w ∙ only_lived n a))
    go false false e w =
        rw (e, w, run_all) (inr (refl, omega (arith, only_creates works a n, below_once 0 n a)))
