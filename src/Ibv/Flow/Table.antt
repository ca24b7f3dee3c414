-- ===== src/Ibv/Flow/Table.antt =====
-- The table of flows: a call changes its own flow only, and after success its entries for all queue
-- pairs are there, or none is.
use hashpipe.Base.{ℕ, ◌+◌, ◌*◌, ◌<◌, ◌≡◌, ◌≢◌, arith}
use hashpipe.Base.{Option}
use hashpipe.Ibv.Flow.{Flow, Headers, Nic, Verbs, Flows, set_at}

pub set_other {ℓ} :
    {A : Type ℓ} → (f : ℕ → A) (i : ℕ) (a : A) (j : ℕ) → i ≢ j → set_at f i a j ≡ f j
set_other f i a j ne = ground arith

pub set_self {ℓ} : {A : Type ℓ} → (f : ℕ → A) (i : ℕ) (a : A) → set_at f i a i ≡ a
set_self f i a = ground arith

-- Two flows have no entry in common, and neither have two queue pairs.
far : (m i j a b : ℕ) → a < m → i < j → i * m + a < j * m + b
far m i j a b la l = grind arith

pub qp_ne : (m i j a : ℕ) → a < m → i < j → j * m + a ≢ i * m + a
qp_ne m i j a la l = omega (arith, far m i j a a la l)

module _ (h : Headers) (nic : Nic) (v : Verbs) where
  abbrev pub Table : Type 0
  Table = Flows h nic v

  abbrev pub entry : Table → ℕ → ℕ → Option v.Handle
  entry s i idx = s.ibv_flows (i * nic.max_flows + idx)

  -- What flow `idx` has is the same.
  pub record IsSame (idx : ℕ) (before after : Table) : Type 0 where
    pub handles : (i : ℕ) → entry after i idx ≡ entry before i idx
    pub address : after.flow_dst_ips idx ≡ before.flow_dst_ips idx
