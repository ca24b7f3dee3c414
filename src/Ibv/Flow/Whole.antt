-- ===== src/Ibv/Flow/Whole.antt =====
-- After success, a flow has a handle for every queue pair, or for none.
use hashpipe.Base.{
  ℕ, zero, suc, ◌+◌, ◌*◌, ◌<◌, ◌≤◌, ◌≡◌, ◌≢◌, ◌⊎◌, inl, inr, refl, sym, ap, ◌∙◌, arith, subst, Bool,
  true, false, Option, none, some, dec_lt, lt→ltb,
}
use hashpipe.Ibv.Flow.{
  FlowType, Flow, Criteria, Headers, Nic, Verbs, Draft, and_then, is_nothing, is_supported, dropped,
  destroyed, destroy_all, remove_old, mcast_membership, drop_membership, made, create_all, layers,
  after_layers, add_new, flow, empty_flow,
}
use hashpipe.Ibv.Flow.Table.{Table, entry, set_other, set_self, qp_ne}

-- What the first part establishes, the second starts from.
after_both :
    {A : Type 0}
    → (P Q : A → Type 0) (r : Bool × A) (k : A → Bool × A) → (r.0 ≡ true → P r.1)
    → ((t : A) → P t → (k t).0 ≡ true → Q (k t).1)
    → (and_then r k).0 ≡ true
    → Q (and_then r k).1
after_both P Q (true, t) k p q e = q t (p refl) e
after_both P Q (false, t) k p q e = cc e

-- What the first part establishes, and the second keeps.
through :
    {A : Type 0}
    → (P : A → Type 0) (r : Bool × A) (k : A → Bool × A) → P r.1
    → ((t : A) → P t → P (k t).1)
    → P (and_then r k).1
through P (true, t) k p q = q t p
through P (false, t) k p q = p

not_beyond : (i j : ℕ) → i ≤ j → ¬ (i < j) → i ≡ j
not_beyond i j a q = omega arith

module _ (h : Headers) (nic : Nic) (v : Verbs) (idx : ℕ) (l : idx < nic.max_flows) where
  abbrev pub IsThere : Table h nic v → Type 0
  IsThere s = (i : ℕ) → i < nic.nqp → entry h nic v s i idx ≢ none

  abbrev pub IsClear : Table h nic v → Type 0
  IsClear s = (i : ℕ) → i < nic.nqp → entry h nic v s i idx ≡ none

  -- Without any criterion no flow is wanted.
  abbrev pub IsWanted : Bool → Table h nic v → Type 0
  IsWanted true s = IsClear s
  IsWanted false s = IsThere s

  abbrev at : ℕ → ℕ
  at i = i * nic.max_flows + idx

  destroyed_clears :
      (s : Table h nic v) (i : ℕ) (r : Bool × v.World)
      → (destroyed h nic v (at i) s r).0 ≡ true
      → entry h nic v (destroyed h nic v (at i) s r).1 i idx ≡ none
  unfolding destroyed
  destroyed_clears s i (true, w) e = set_self s.ibv_flows (at i) none
  destroyed_clears s i (false, w) e = cc e

  destroyed_keeps :
      (s : Table h nic v) (j i : ℕ) (r : Bool × v.World)
      → entry h nic v s i idx ≡ none
      → entry h nic v (destroyed h nic v j s r).1 i idx ≡ none
  unfolding destroyed
  destroyed_keeps s j i (true, w) e = ground (arith, e)
  destroyed_keeps s j i (false, w) e = e

  destroy_all_keeps :
      (n i : ℕ) (s : Table h nic v) (j : ℕ)
      → entry h nic v s j idx ≡ none
      → entry h nic v (destroy_all h nic v n i idx s).1 j idx ≡ none
  unfolding destroy_all
  destroy_all_keeps zero i s j e = e
  destroy_all_keeps (suc n) i s j e =
      let r = v.destroy_flow s.world (entry h nic v s i idx) in
      through (λ t. entry h nic v t j idx ≡ none) (destroyed h nic v (at i) s r)
        (destroy_all h nic v n (i + 1) idx) (destroyed_keeps s (at i) j r e)
        (λ t p. destroy_all_keeps n (i + 1) t j p)

  destroy_all_clears :
      (n i : ℕ) (s : Table h nic v)
      → (destroy_all h nic v n i idx s).0 ≡ true
      → (j : ℕ) → i ≤ j
      → j < i + n
      → entry h nic v (destroy_all h nic v n i idx s).1 j idx ≡ none
  unfolding destroy_all
  destroy_all_clears zero i s e = λ j a b. absurd (omega arith)
  destroy_all_clears (suc n) i s e =
      after_both (λ t. entry h nic v t i idx ≡ none)
        (λ u. (j : ℕ) → i ≤ j → j < i + suc n → entry h nic v u j idx ≡ none)
        (destroyed h nic v (at i) s (v.destroy_flow s.world (entry h nic v s i idx)))
        (destroy_all h nic v n (i + 1) idx) (destroyed_clears s i _)
        (λ t p e' j a b. elim (dec_lt i j) [
          | yes q ↦ destroy_all_clears n (i + 1) t e' j (omega arith) (omega arith)
          | no q ↦
              subst (λ k. entry h nic v (destroy_all h nic v n (i + 1) idx t).1 k idx ≡ none)
                (not_beyond i j a q) (destroy_all_keeps n (i + 1) t i p)
        ])
        e

  made_sets :
      (s : Table h nic v) (i : ℕ) (r : Option v.Handle × v.World)
      → (made h nic v (at i) s r).0 ≡ true
      → entry h nic v (made h nic v (at i) s r).1 i idx ≢ none
  unfolding made
  made_sets s i (some x, w) e = λ f. cc (sym (set_self s.ibv_flows (at i) (some x)) ∙ f)
  made_sets s i (none, w) e = cc e

  made_before :
      (s : Table h nic v) (i j : ℕ) (r : Option v.Handle × v.World)
      → j < i
      → entry h nic v (made h nic v (at i) s r).1 j idx ≡ entry h nic v s j idx
  unfolding made
  made_before s i j (some x, w) b = set_other s.ibv_flows _ _ _ (qp_ne nic.max_flows j i idx l b)
  made_before s i j (none, w) b = set_other s.ibv_flows _ _ _ (qp_ne nic.max_flows j i idx l b)

  create_all_before :
      (n i : ℕ) (f : Flow) (s : Table h nic v) (j : ℕ)
      → j < i
      → entry h nic v (create_all h nic v n i idx f s).1 j idx ≡ entry h nic v s j idx
  unfolding create_all
  create_all_before zero i f s j b = refl
  create_all_before (suc n) i f s j b =
      let r = v.create_flow s.world i f in
      through (λ t. entry h nic v t j idx ≡ entry h nic v s j idx) (made h nic v (at i) s r)
        (create_all h nic v n (i + 1) idx f) (made_before s i j r b)
        (λ t p. create_all_before n (i + 1) f t j (omega arith) ∙ p)

  create_all_sets :
      (n i : ℕ) (f : Flow) (s : Table h nic v)
      → (create_all h nic v n i idx f s).0 ≡ true
      → (j : ℕ) → i ≤ j
      → j < i + n
      → entry h nic v (create_all h nic v n i idx f s).1 j idx ≢ none
  unfolding create_all
  create_all_sets zero i f s e = λ j a b. absurd (omega arith)
  create_all_sets (suc n) i f s e =
      after_both (λ t. entry h nic v t i idx ≢ none)
        (λ u. (j : ℕ) → i ≤ j → j < i + suc n → entry h nic v u j idx ≢ none)
        (made h nic v (at i) s (v.create_flow s.world i f)) (create_all h nic v n (i + 1) idx f)
        (made_sets s i _)
        (λ t p e' j a b. elim (dec_lt i j) [
          | yes q ↦ create_all_sets n (i + 1) f t e' j (omega arith) (omega arith)
          | no q ↦
              subst (λ k. entry h nic v (create_all h nic v n (i + 1) idx f t).1 k idx ≢ none)
                (not_beyond i j a q)
                (λ g. p (sym (create_all_before n (i + 1) f t i (omega arith)) ∙ g))
        ])
        e

  remove_old_clears :
      (s : Table h nic v)
      → IsThere s ⊎ IsClear s
      → (remove_old h nic v idx s).0 ≡ true
      → IsClear (remove_old h nic v idx s).1
  unfolding remove_old
  remove_old_clears s whole ok = go (s.ibv_flows idx) refl
    where
      first_entry : at 0 ≡ idx
      first_entry = omega arith

      no_old : IsThere s ⊎ IsClear s → s.ibv_flows idx ≡ none → IsClear s
      no_old (inl set) e = λ i b. absurd (set 0 (omega arith) (ap s.ibv_flows first_entry ∙ e))
      no_old (inr clear) e = clear

      go : (x : Option v.Handle) → s.ibv_flows idx ≡ x → IsClear (remove_old h nic v idx s).1
      go none e = rw (e, remove_old) (no_old whole e)
      go (some x) e =
          rw (e, remove_old)
            (λ i b.
              after_both (λ t. Unit) (λ u. (i : ℕ) → i < nic.nqp → entry h nic v u i idx ≡ none)
                (dropped h nic v idx s
                  (mcast_membership h nic v s.world drop_membership (s.flow_dst_ips idx)))
                (destroy_all h nic v nic.nqp 0 idx) (λ _. tt)
                (λ t _ e' i b. destroy_all_clears nic.nqp 0 t e' i (omega arith) (omega arith))
                (subst (λ y. y ≡ true) (rw (e, remove_old) refl) ok) i b)

  after_layers_sets :
      (r : Bool × Draft h nic v)
      → (after_layers h nic v idx r).0 ≡ true
      → IsThere (after_layers h nic v idx r).1
  unfolding after_layers
  after_layers_sets (true, d) e =
      λ i b. create_all_sets nic.nqp 0 d.flow d.flows e i (omega arith) (omega arith)
  after_layers_sets (false, d) e = cc e

  add_new_lem :
      (t : FlowType) (c : Criteria) (s : Table h nic v)
      → IsClear s
      → (add_new h nic v idx t c s).0 ≡ true
      → IsWanted (is_nothing c) (add_new h nic v idx t c s).1
  unfolding add_new
  add_new_lem t c s clear = go (is_nothing c) refl
    where
      d : Draft h nic v
      d = record { flow = empty_flow h nic v; mac = c.dst_mac; flows = s }

      go :
          (b : Bool)
          → is_nothing c ≡ b
          → (add_new h nic v idx t c s).0 ≡ true
          → IsWanted b (add_new h nic v idx t c s).1
      go true e ok = rw (e, add_new) clear
      go false e ok =
          rw (e, add_new)
            (after_layers_sets (layers h nic v idx t c d)
              (subst (λ y. y ≡ true) (rw (e, add_new) refl) ok))

  -- If the context has its two arrays, a flow has handles for all queue pairs or for none, and a call
  -- for it with a supported type returns 0, then afterwards it has handles for all queue pairs, or, if
  -- there was nothing to match, for none.
  pub flow-IsWanted :
      (t : FlowType) (c : Criteria) (s : Table h nic v)
      → is_supported t ≡ true
      → nic.has_ibv_flows ≡ true
      → nic.has_flow_dst_ips ≡ true
      → IsThere s ⊎ IsClear s
      → (flow h nic v idx t c s).0 ≡ true
      → IsWanted (is_nothing c) (flow h nic v idx t c s).1
  unfolding flow
  flow-IsWanted t c s supported table ips whole ok =
      rw (lt→ltb idx nic.max_flows l, supported, table, ips, flow)
        (after_both IsClear (IsWanted (is_nothing c)) (remove_old h nic v idx s)
          (add_new h nic v idx t c) (remove_old_clears s whole) (add_new_lem t c)
          (subst (λ y. y ≡ true) (rw (lt→ltb idx nic.max_flows l, supported, table, ips, flow) refl)
            ok))
