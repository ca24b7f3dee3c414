-- ===== src/Ibv/Receive/Order.antt =====
-- The received packets come out in the order of their completions.
use hashpipe.Base.{ℕ, ◌≡◌, ◌≢◌, refl, arith, ap, ◌∙◌, sym, subst, ◌&&◌, if◌then◌else◌}
use hashpipe.Base.{true, Option, none, some, List, [], ◌∷◌, ◌++◌}
use hashpipe.Base.{update, update_self, update_other}
use mathlib.Core.List.{append_assoc, append-nil}
use hashpipe.Ibv.{link, QpState}
use hashpipe.Ibv.Chain.{IsChain, IsNotIn, IsDistinct, link_other, link_self}
use hashpipe.Ibv.Receive.{
  Completion, Received, append, append_all, terminate, make_all_recv_ready, Calls, recv_pkts,
}

-- A list from `p` on that ends at `t`, whatever `t` is linked to.
abbrev pub IsOpen : (ℕ → Option ℕ) → ℕ → List ℕ → ℕ → Type 0
IsOpen next p [] t = ⊥
IsOpen next p (x ∷ []) t = (p ≡ x) × (t ≡ x)
IsOpen next p (x ∷ y ∷ ys) t = (p ≡ x) × (next x ≡ some y) × IsOpen next y (y ∷ ys) t

-- The end is in the list.
end-ne :
    (next : ℕ → Option ℕ) (x p : ℕ) (xs : List ℕ) (t : ℕ)
    → IsOpen next p xs t
    → IsNotIn x xs
    → t ≢ x
end-ne next x p [] t o n = absurd o
end-ne next x p (y ∷ []) t (e, f) (ne, n) = λ g. ne (sym f ∙ g)
end-ne next x p (y ∷ z ∷ zs) t (e, f, o) (ne, n) = end-ne next x z (z ∷ zs) t o n

-- Appending behind the end.
extended :
    (next : ℕ → Option ℕ) (p : ℕ) (xs : List ℕ) (t y : ℕ)
    → IsOpen next p xs t
    → IsDistinct xs
    → IsOpen (link next t (some y)) p (xs ++ y ∷ []) y
extended next p [] t y o d = absurd o
extended next p (x ∷ []) t y (e, f) d = (e, rw f (link_self next x (some y)), (refl, refl))
extended next p (x ∷ z ∷ zs) t y (e, f, o) (away, d) = (
  e,
  link_other next t (some y) x (end-ne next x z (z ∷ zs) t o away) ∙ f,
  extended next z (z ∷ zs) t y o d,
)

-- Ending the list.
closed :
    (next : ℕ → Option ℕ) (p : ℕ) (xs : List ℕ) (t : ℕ)
    → IsOpen next p xs t
    → IsDistinct xs
    → IsChain (link next t none) (some p) xs
closed next p [] t o d = absurd o
closed next p (x ∷ []) t (e, f) d =
    (e, rw f (subst (λ q. IsChain (link next x none) q []) (sym (link_self next x none)) tt))
closed next p (x ∷ z ∷ zs) t (e, f, o) (away, d) = (
  e,
  subst (λ q. IsChain (link next t none) q (z ∷ zs))
      (sym (link_other next t none x (end-ne next x z (z ∷ zs) t o away) ∙ f))
      (closed next z (z ∷ zs) t o d),
)

-- The packets of completions.
abbrev pub ids : List Completion → List ℕ
ids [] = []
ids (c ∷ cs) = c.wr_id ∷ ids cs

-- The list that is being made: of the packets `xs`, in this order.
abbrev IsMade : Received → List ℕ → Type 0
IsMade r [] = (r.recv_head ≡ none) × (r.recv_tail ≡ none)
IsMade r (x ∷ xs) =
    (t : ℕ) × (r.recv_head ≡ some x) × (r.recv_tail ≡ some t) × IsOpen r.next x (x ∷ xs) t

append_first :
    (r : Received) (c : Completion)
    → r.recv_tail ≡ none
    → ((append r c).recv_head ≡ some c.wr_id)
      × ((append r c).recv_tail ≡ some c.wr_id)
      × ((append r c).next ≡ r.next)
unfolding append
append_first r c e = rw e (refl, refl, refl)

append_more :
    (r : Received) (c : Completion) (t : ℕ)
    → r.recv_tail ≡ some t
    → ((append r c).recv_head ≡ r.recv_head)
      × ((append r c).recv_tail ≡ some c.wr_id)
      × ((append r c).next ≡ link r.next t (some c.wr_id))
unfolding append
append_more r c t e = rw e (refl, refl, refl)

append-IsMade :
    (r : Received) (c : Completion) (xs : List ℕ)
    → IsMade r xs
    → IsDistinct xs
    → IsMade (append r c) (xs ++ c.wr_id ∷ [])
append-IsMade r c [] (h, t) d = let (a, b, n) = append_first r c t in (c.wr_id, a, b, (refl, refl))
append-IsMade r c (x ∷ xs) (t, h, e, o) d =
    let (a, b, n) = append_more r c t e in
    (
      c.wr_id,
      a ∙ h,
      b,
      subst (λ f. IsOpen f x (x ∷ (xs ++ c.wr_id ∷ [])) c.wr_id) (sym n)
          (extended r.next x (x ∷ xs) t c.wr_id o d),
    )

IsNotIn-front : (x : ℕ) (xs ys : List ℕ) → IsNotIn x (xs ++ ys) → IsNotIn x xs
IsNotIn-front x [] ys n = tt
IsNotIn-front x (y ∷ xs) ys (e, n) = (e, IsNotIn-front x xs ys n)

front : (xs ys : List ℕ) → IsDistinct (xs ++ ys) → IsDistinct xs
front [] ys d = tt
front (x ∷ xs) ys (n, d) = (IsNotIn-front x xs ys n, front xs ys d)

append_all-IsMade :
    (cs : List Completion) (r : Received) (xs : List ℕ)
    → IsMade r xs
    → IsDistinct (xs ++ ids cs)
    → IsMade (append_all r cs) (xs ++ ids cs)
unfolding append_all
append_all-IsMade [] r xs m d = subst (IsMade r) (sym (append-nil xs)) m
append_all-IsMade (c ∷ cs) r xs m d =
    subst (IsMade (append_all (append r c) cs)) (append_assoc xs (c.wr_id ∷ []) (ids cs)) (
      append_all-IsMade cs (append r c) (xs ++ c.wr_id ∷ [])
        (append-IsMade r c xs m (front xs (c.wr_id ∷ ids cs) d))
        (subst IsDistinct (sym (append_assoc xs (c.wr_id ∷ []) (ids cs))) d))

terminate-IsChain :
    (r : Received) (xs : List ℕ)
    → IsMade r xs
    → IsDistinct xs
    → IsChain (terminate r).next (terminate r).recv_head xs
unfolding terminate
terminate-IsChain r [] (h, e) d = rw (e, h) tt
terminate-IsChain r (x ∷ xs) (t, h, e, o) d = rw (e, h) (closed r.next x (x ∷ xs) t o d)

-- Every completion's length, 0 if it failed.
abbrev pub HasLengths : (ℕ → ℕ) → List Completion → Type 0
HasLengths length [] = Unit
HasLengths length (c ∷ cs) =
    (length c.wr_id ≡ (if c.success then c.byte_len else 0)) × HasLengths length cs

append-length :
    (r : Received) (c : Completion)
    → (append r c).length ≡ update r.length c.wr_id (if c.success then c.byte_len else 0)
unfolding append
append-length r c = ground arith

untouched :
    (cs : List Completion) (r : Received) (x : ℕ)
    → IsNotIn x (ids cs)
    → (append_all r cs).length x ≡ r.length x
unfolding append_all
untouched [] r x n = refl
untouched (c ∷ cs) r x (e, n) =
    untouched cs (append r c) x n
    ∙ ap (λ f. f x) (append-length r c)
    ∙ update_other r.length _ _ _ e

append_all-HasLengths :
    (cs : List Completion) (r : Received)
    → IsDistinct (ids cs)
    → HasLengths (append_all r cs).length cs
unfolding append_all
append_all-HasLengths [] r d = tt
append_all-HasLengths (c ∷ cs) r (n, d) = (
  untouched cs (append r c) c.wr_id n
      ∙ ap (λ f. f c.wr_id) (append-length r c)
      ∙ update_self r.length _ _,
  append_all-HasLengths cs (append r c) d,
)

terminate-length : (r : Received) → (terminate r).length ≡ r.length
unfolding terminate
terminate-length r = ground arith

-- When the queue pairs can be made ready, every call succeeds and the completions are of different
-- packets, the call returns a list, ended by NULL, of exactly the packets that completed, in the
-- order of their completions, NULL if there are none, and the length of each is the number of bytes
-- received, 0 if its completion is not IBV_WC_SUCCESS.
pub recv_pkts-IsChain :
    (c : Calls) (next : ℕ → Option ℕ) (length : ℕ → ℕ) (qps : List QpState)
    → (make_all_recv_ready c.modify 0 qps).1 && c.poll && c.get_cq_event && c.req_notify_cq ≡ true
    → c.drained ≡ true
    → IsDistinct (ids c.completed)
    → let (head, r, qps') = recv_pkts c next length qps in
      IsChain r.next head (ids c.completed) × HasLengths r.length c.completed
unfolding recv_pkts
recv_pkts-IsChain c next length qps all drained d =
    let nothing : Received = record {
      next = next;
      length = length;
      recv_head = none;
      recv_tail = none;
    } in
    rw (all, drained)
      (
        terminate-IsChain (append_all nothing c.completed) (ids c.completed)
            (append_all-IsMade c.completed nothing [] (refl, refl) d) d,
        subst (λ l. HasLengths l c.completed)
            (sym (terminate-length (append_all nothing c.completed)))
            (append_all-HasLengths c.completed nothing d),
      )
