-- ===== src/Ibv/Setup/Elements.antt =====
-- The loops of `hashpipe_ibv_init` over the work requests and their scatter/gather elements.
use hashpipe.Base.{
  ℕ, zero, suc, ◌+◌, ◌-◌, ◌≡◌, ◌≤◌, ◌<◌, refl, sym, ap, ap₂, ◌∙◌, subst, arith, ◌==◌, leb, ltb,
  ◌&&◌, if◌then◌else◌,
}
use hashpipe.Base.{Bool, true, false, Option, some, ◌⊎◌, inl, inr}
use hashpipe.Ibv.Setup.{packet_address}

-- The fields of the requests by index, and of the elements; `sg_list` is the index of the first element.
pub record Requests : Type 0 where
  pub wr_id : ℕ → ℕ
  pub num_sge : ℕ → ℕ
  pub sg_list : ℕ → ℕ
  pub addr : ℕ → ℕ
  pub size : ℕ → ℕ
  pub lkey : ℕ → Option ℕ

abbrev pub at : {A : Type 0} → (ℕ → A) → ℕ → A → ℕ → A
at f i v j = if i == j then v else f j

-- One element for each request, unless the user manages them.
abbrev pub own_element : Bool → ℕ → ℕ → ℕ → Requests → Requests
own_element user mr_buf pkt_size_max i r = if user then r else record r {
  num_sge = at r.num_sge i 1;
  addr = at r.addr i (packet_address mr_buf pkt_size_max i);
  size = at r.size i pkt_size_max;
}

-- The elements behind those of the request before.
abbrev pub place_elements : ℕ → Requests → Requests
place_elements i r = record r {
  sg_list = at r.sg_list i (if i == 0 then 0 else r.sg_list (i - 1) + r.num_sge (i - 1));
}

-- Their keys.
abbrev pub set_lkeys : ℕ → ℕ → Requests → Requests
set_lkeys key i r = record r {
  lkey =
      λ j. if leb (r.sg_list i) j && ltb j (r.sg_list i + r.num_sge i) then some key else r.lkey j;
}

unfoldable pub init_request : Bool → ℕ → ℕ → ℕ → ℕ → Requests → Requests
init_request user mr_buf pkt_size_max key i r = set_lkeys key i (
    place_elements i (own_element user mr_buf pkt_size_max i (record r { wr_id = at r.wr_id i i })))

-- The loop for `n` requests from number `i` on.
unfoldable pub init_requests : Bool → ℕ → ℕ → ℕ → ℕ → ℕ → Requests → Requests
unfolding init_request
init_requests user mr_buf pkt_size_max key zero i r = r
init_requests user mr_buf pkt_size_max key (suc n) i r =
    init_requests user mr_buf pkt_size_max key n (i + 1)
      (init_request user mr_buf pkt_size_max key i r)

-- The walk over the requests of the user for the largest number of elements.
unfoldable pub max_sge : ℕ → ℕ → ℕ → Requests → ℕ
max_sge zero i m r = m
max_sge (suc n) i m r = max_sge n (i + 1) (if ltb m (r.num_sge i) then r.num_sge i else m) r

-- The requests below `m` are set up.
pub record IsSetUp (user : Bool) (mr_buf pkt_size_max key : ℕ) (old : Requests) (m : ℕ)
    (r : Requests) : Type 0 where
  pub ids : (i : ℕ) → i < m → r.wr_id i ≡ i
  pub counts : (i : ℕ) → i < m → r.num_sge i ≡ (if user then old.num_sge i else 1)
  pub untouched : (i : ℕ) → m ≤ i → r.num_sge i ≡ old.num_sge i
  pub unaddressed : (i : ℕ) → m ≤ i → r.addr i ≡ old.addr i
  pub addresses :
      (i : ℕ)
      → i < m
      → r.addr i ≡ (if user then old.addr i else packet_address mr_buf pkt_size_max i)
  pub first : 0 < m → r.sg_list 0 ≡ 0
  pub follows : (i : ℕ) → i + 1 < m → r.sg_list (i + 1) ≡ r.sg_list i + r.num_sge i
  pub keys : (i j : ℕ) → i < m → j < r.num_sge i → r.lkey (r.sg_list i + j) ≡ some key

at_other : {A : Type 0} → (f : ℕ → A) (m : ℕ) (v : A) (i : ℕ) → i < m → at f m v i ≡ f i
at_other f m v i l = ground (arith, l)

at_itself : {A : Type 0} → (f : ℕ → A) (m : ℕ) (v : A) → at f m v m ≡ v
at_itself f m v = ground arith

in_range : (x j n : ℕ) → j < n → (leb x (x + j) && ltb (x + j) (x + n)) ≡ true
in_range x j n l = ground (arith, l)

either : {A : Type 0} → (b : Bool) (v o : A) → o ≡ v → (if b then v else o) ≡ v
either true v o e = refl
either false v o e = e

below_or_last : (i m : ℕ) → i < m + 1 → (i < m) ⊎ (i ≡ m)
below_or_last i m l = omega (arith, l)

not_first : (i : ℕ) → (i + 1 == 0) ≡ false
not_first i = ground arith

own_element-lkey :
    (user : Bool) (mr_buf pkt_size_max i p : ℕ) (r : Requests)
    → (own_element user mr_buf pkt_size_max i r).lkey p ≡ r.lkey p
own_element-lkey true mr_buf pkt_size_max i p r = refl
own_element-lkey false mr_buf pkt_size_max i p r = refl

set_lkeys-own :
    (key i j : ℕ) (r : Requests)
    → j < r.num_sge i
    → (set_lkeys key i r).lkey (r.sg_list i + j) ≡ some key
set_lkeys-own key i j r l =
    ap (λ b. if b then some key else r.lkey (r.sg_list i + j))
      (in_range (r.sg_list i) j (r.num_sge i) l)

module _ (user : Bool) (mr_buf pkt_size_max key : ℕ) (old : Requests) where
  -- Another request keeps its elements.
  num_sge-other :
      (m i : ℕ) (r : Requests)
      → i < m
      → (init_request user mr_buf pkt_size_max key m r).num_sge i ≡ r.num_sge i
  unfolding init_request
  num_sge-other m i r l = ground (arith, l)

  sg_list-other :
      (m i : ℕ) (r : Requests)
      → i < m
      → (init_request user mr_buf pkt_size_max key m r).sg_list i ≡ r.sg_list i
  unfolding init_request
  sg_list-other m i r l = ground (arith, l)

  sg_list-next :
      (i : ℕ) (r : Requests)
      → (init_request user mr_buf pkt_size_max key (i + 1) r).sg_list (i + 1)
        ≡ r.sg_list i + r.num_sge i
  unfolding init_request
  sg_list-next i r = ground arith

  -- The keys of its own elements are set, and those that were set stay.
  lkey-own :
      (m j : ℕ) (r : Requests)
      → let r' = init_request user mr_buf pkt_size_max key m r in
        j < r'.num_sge m → r'.lkey (r'.sg_list m + j) ≡ some key
  unfolding init_request
  lkey-own m j r l =
      set_lkeys-own key m j
        (place_elements m
          (own_element user mr_buf pkt_size_max m (record r { wr_id = at r.wr_id m m })))
        l

  lkey-kept :
      (m p : ℕ) (r : Requests)
      → r.lkey p ≡ some key
      → (init_request user mr_buf pkt_size_max key m r).lkey p ≡ some key
  unfolding init_request
  lkey-kept m p r e =
      either _ (some key) _
        (own_element-lkey user mr_buf pkt_size_max m p (record r { wr_id = at r.wr_id m m }) ∙ e)

  round :
      (m : ℕ) (r : Requests)
      → IsSetUp user mr_buf pkt_size_max key old m r
      → IsSetUp user mr_buf pkt_size_max key old
          (m + 1)
          (init_request user mr_buf pkt_size_max key m r)
  unfolding init_request
  round m r s = record {
    ids = λ i l. ground (arith, s.ids i, l);
    counts = λ i l. ground (arith, s.counts i, s.untouched i, l);
    untouched = λ i l. ground (arith, s.untouched i, l);
    unaddressed = λ i l. ground (arith, s.unaddressed i, l);
    addresses = λ i l. ground (arith, s.addresses i, s.unaddressed i, l);
    first = λ l. ground (arith, s.first, l);
    follows = λ i l. elim (below_or_last (i + 1) m l) [
      | inl l' ↦
          sg_list-other m (i + 1) r l'
          ∙ s.follows i l'
          ∙ sym (
              ap₂ ◌+◌ (sg_list-other m i r (omega (arith, l')))
                (num_sge-other m i r (omega (arith, l'))))
      | inr e ↦
          subst
            (λ m.
              (init_request user mr_buf pkt_size_max key m r).sg_list (i + 1)
              ≡ (init_request user mr_buf pkt_size_max key m r).sg_list i
                + (init_request user mr_buf pkt_size_max key m r).num_sge i)
            e
            (sg_list-next i r
              ∙ sym (
                  ap₂ ◌+◌ (sg_list-other (i + 1) i r (omega arith))
                    (num_sge-other (i + 1) i r (omega arith))))
    ];
    keys = λ i j l e. elim (below_or_last i m l) [
      | inl l' ↦ lkey-kept m _ r (
          ap (λ x. r.lkey (x + j)) (sg_list-other m i r l')
          ∙ s.keys i j l' (subst (λ n. j < n) (num_sge-other m i r l') e))
      | inr q ↦
          subst
            (λ x.
              (init_request user mr_buf pkt_size_max key m r).lkey
                ((init_request user mr_buf pkt_size_max key m r).sg_list x + j)
              ≡ some key)
            (sym q)
            (lkey-own m j r
              (subst (λ x. j < (init_request user mr_buf pkt_size_max key m r).num_sge x) q e))
    ];
  }

  loop :
      (n m : ℕ) (r : Requests)
      → IsSetUp user mr_buf pkt_size_max key old m r
      → IsSetUp user mr_buf pkt_size_max key old
          (m + n)
          (init_requests user mr_buf pkt_size_max key n m r)
  unfolding init_requests
  loop zero m r s = subst (λ x. IsSetUp user mr_buf pkt_size_max key old x r) (omega arith) s
  loop (suc n) m r s =
      subst
        (λ x. IsSetUp user mr_buf pkt_size_max key old x (
          init_requests user mr_buf pkt_size_max key n (m + 1)
            (init_request user mr_buf pkt_size_max key m r)))
        (omega arith) (loop n (m + 1) _ (round m r s))

  -- After the loop over `n` requests: request `i` has the number `i`, as many elements as the user gave it, or
  -- one, which is at the address of packet `i`; its elements begin behind those of request `i - 1`, at 0
  -- for the first; and every element of every request has the key.
  pub init_requests-IsSetUp :
      (n : ℕ)
      → IsSetUp user mr_buf pkt_size_max key old n
          (init_requests user mr_buf pkt_size_max key n 0 old)
  init_requests-IsSetUp n =
      subst
        (λ x.
          IsSetUp user mr_buf pkt_size_max key old x
            (init_requests user mr_buf pkt_size_max key n 0 old))
        (omega arith)
        (loop n 0 old record {
          ids = λ i l. absurd (omega (arith, l));
          counts = λ i l. absurd (omega (arith, l));
          untouched = λ i l. refl;
          unaddressed = λ i l. refl;
          addresses = λ i l. absurd (omega (arith, l));
          first = λ l. absurd (omega (arith, l));
          follows = λ i l. absurd (omega (arith, l));
          keys = λ i j l e. absurd (omega (arith, l));
        })
