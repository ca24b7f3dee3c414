-- ===== src/Ibv/Chain.antt =====
-- Linked lists of packets.
use hashpipe.Base.{ℕ, zero, suc, ◌≡◌, ◌≢◌, refl, ap, sym, ◌∙◌, subst, arith}
use hashpipe.Base.{Option, none, some, List, [], ◌∷◌, take, drop}
use hashpipe.Ibv.{link, walk}

-- The packets of a list, in order.
abbrev pub IsChain : (ℕ → Option ℕ) → Option ℕ → List ℕ → Type 0
IsChain next none [] = Unit
IsChain next none (x ∷ xs) = ⊥
IsChain next (some p) [] = ⊥
IsChain next (some p) (x ∷ xs) = (p ≡ x) × IsChain next (next x) xs

abbrev pub IsNotIn : ℕ → List ℕ → Type 0
IsNotIn y [] = Unit
IsNotIn y (x ∷ xs) = (x ≢ y) × IsNotIn y xs

abbrev pub IsDistinct : List ℕ → Type 0
IsDistinct [] = Unit
IsDistinct (x ∷ xs) = IsNotIn x xs × IsDistinct xs

pub link_other :
    (next : ℕ → Option ℕ) (t : ℕ) (q : Option ℕ) (x : ℕ) → t ≢ x → link next t q x ≡ next x
link_other next t q x h = ground arith

pub link_self : (next : ℕ → Option ℕ) (t : ℕ) (q : Option ℕ) → link next t q t ≡ q
link_self next t q = ground arith

pub link-IsChain :
    (next : ℕ → Option ℕ) (t : ℕ) (q p : Option ℕ) (xs : List ℕ)
    → IsNotIn t xs
    → IsChain next p xs
    → IsChain (link next t q) p xs
link-IsChain next t q none [] n c = tt
link-IsChain next t q none (x ∷ xs) n c = c
link-IsChain next t q (some p) [] n c = c
link-IsChain next t q (some p) (x ∷ xs) (ne, n) (e, c) = (
  e,
  subst (λ r. IsChain (link next t q) r xs) (sym (link_other next t q x (λ f. ne (sym f))))
      (link-IsChain next t q (next x) xs n c),
)

-- Cutting a list behind its first `n + 1` packets.
pub record IsCut (next : ℕ → Option ℕ) (n p : ℕ) (xs : List ℕ) : Type 0 where
  pub front : IsChain (link next (walk n next p) none) (some p) (p ∷ take n xs)
  pub back : IsChain (link next (walk n next p) none) (next (walk n next p)) (drop n xs)
  pub inside : (y : ℕ) → IsNotIn y (p ∷ xs) → walk n next p ≢ y

walk_end : (n p : ℕ) (next : ℕ → Option ℕ) → next p ≡ none → walk n next p ≡ p
unfolding walk
walk_end zero p next e = refl
walk_end (suc n) p next e = rw (e, walk) refl

walk_on : (n p q : ℕ) (next : ℕ → Option ℕ) → next p ≡ some q → walk (suc n) next p ≡ walk n next q
unfolding walk
walk_on n p q next e = rw (e, walk) refl

walk_here : (p : ℕ) (next : ℕ → Option ℕ) → walk 0 next p ≡ p
unfolding walk
walk_here p next = refl

-- The walk stays at the first packet.
stays-IsCut :
    (next : ℕ → Option ℕ) (n p : ℕ) (xs : List ℕ)
    → walk n next p ≡ p
    → take n xs ≡ []
    → drop n xs ≡ xs
    → IsChain next (next p) xs
    → IsNotIn p xs
    → IsCut next n p xs
stays-IsCut next n p xs e none_ all c d = record {
  front = rw (e, none_) (refl, rw (link_self next p none) tt);
  back = rw (e, all) (link-IsChain next p none (next p) xs d c);
  inside = λ y (ne, _). rw e ne;
}

longer :
    (next : ℕ → Option ℕ) (t p x : ℕ) (ys : List ℕ)
    → t ≢ p
    → next p ≡ some x
    → IsChain (link next t none) (some x) ys
    → IsChain (link next t none) (some p) (p ∷ ys)
longer next t p x ys ne f c =
    (refl, subst (λ r. IsChain (link next t none) r ys) (sym (link_other next t none p ne ∙ f)) c)

-- The walk goes on from the next packet.
goes_on-IsCut :
    (next : ℕ → Option ℕ) (n p x : ℕ) (xs : List ℕ)
    → next p ≡ some x
    → IsNotIn p (x ∷ xs)
    → IsCut next n x xs
    → IsCut next (suc n) p (x ∷ xs)
goes_on-IsCut next n p x xs f away r = record {
  front =
      subst (λ t. IsChain (link next t none) (some p) (p ∷ x ∷ take n xs))
        (sym (walk_on n p x next f))
        (longer next (walk n next x) p x (x ∷ take n xs) (r.inside p away) f r.front);
  back =
      subst (λ t. IsChain (link next t none) (next t) (drop n xs)) (sym (walk_on n p x next f))
        r.back;
  inside = λ y (_, far). subst (λ t. t ≢ y) (sym (walk_on n p x next f)) (r.inside y far);
}

pub walk-IsCut :
    (next : ℕ → Option ℕ) (n p : ℕ) (xs : List ℕ)
    → IsChain next (next p) xs
    → IsDistinct (p ∷ xs)
    → IsCut next n p xs
walk-IsCut next zero p xs c (d, ds) = stays-IsCut next 0 p xs (walk_here p next) refl refl c d
walk-IsCut next (suc n) p xs c (d, ds) = go (λ q ys. walk-IsCut next n q ys) (next p) xs refl c d ds
  where
    go :
        ((q : ℕ) (ys : List ℕ) → IsChain next (next q) ys → IsDistinct (q ∷ ys) → IsCut next n q ys)
        → (o : Option ℕ) (xs : List ℕ) → next p ≡ o
        → IsChain next o xs
        → IsNotIn p xs
        → IsDistinct xs
        → IsCut next (suc n) p xs
    go ih none [] e c d ds =
        stays-IsCut next (suc n) p [] (walk_end (suc n) p next e) refl refl (rw e tt) d
    go ih none (x ∷ xs) e c d ds = absurd c
    go ih (some q) [] e c d ds = absurd c
    go ih (some q) (x ∷ xs) e (same, c) (ne, d) ds =
        goes_on-IsCut next n p x xs (e ∙ ap some same) (ne, d) (ih x xs c ds)
