-- ===== src/Ibv/Device/Search.antt =====
-- The search for a device, against a description of the ports that serve.
use hashpipe.Base.{ℕ, ◌+◌, ◌≤◌, ◌≡◌, refl, ◌⊎◌, inl, inr, arith, if◌then◌else◌, ◌&&◌}
use hashpipe.Base.{Bool, true, false, Option, none, some, List, [], ◌∷◌, ap₂}
use hashpipe.Ibv.Device.{
  swap64, Gid, Port, Device, is_wanted, find_gid, or_next, find_port, or_close, find_device,
  clear_retval, open_device_for_interface_id,
}

-- A GID of the interface that can be queried is among these.
abbrev pub HasGid : ℕ → List (Option Gid) → Type 0
HasGid id [] = ⊥
HasGid id (none ∷ gs) = HasGid id gs
HasGid id (some g ∷ gs) = ((g.subnet_prefix ≡ 0x80fe) × (g.interface_id ≡ id)) ⊎ HasGid id gs

abbrev pub IsPort : ℕ → Port → Type 0
IsPort id p = (p.queried ≡ true) × HasGid id p.gids

-- Port `k` is the first one that serves, the ports counted from `i` on.
abbrev pub IsFirstPort : ℕ → ℕ → List Port → ℕ → Type 0
IsFirstPort id i [] k = ⊥
IsFirstPort id i (p ∷ ps) k =
    (IsPort id p × (k ≡ i)) ⊎ ((¬ IsPort id p) × IsFirstPort id (i + 1) ps k)

abbrev pub HasNoPort : ℕ → List Port → Type 0
HasNoPort id [] = Unit
HasNoPort id (p ∷ ps) = (¬ IsPort id p) × HasNoPort id ps

abbrev pub IsUsable : Device → Type 0
IsUsable v = (v.opens ≡ true) × (v.queried ≡ true)

-- The device at `d` and its port `k` are the first that serve.
abbrev pub IsFirstDevice : ℕ → ℕ → List Device → ℕ → ℕ → Type 0
IsFirstDevice id i [] d k = ⊥
IsFirstDevice id i (v ∷ vs) d k =
    (IsUsable v × (d ≡ i) × IsFirstPort id 1 v.ports k)
    ⊎ (((¬ IsUsable v) ⊎ HasNoPort id v.ports) × IsFirstDevice id (i + 1) vs d k)

abbrev pub HasNoDevice : ℕ → List Device → Type 0
HasNoDevice id [] = Unit
HasNoDevice id (v ∷ vs) = ((¬ IsUsable v) ⊎ HasNoPort id v.ports) × HasNoDevice id vs

-- What the loops say.
abbrev GidFound : ℕ → ℕ → List (Option Gid) → Bool × ℕ → Type 0
GidFound id rv gs (true, r) = HasGid id gs
GidFound id rv gs (false, r) = (¬ HasGid id gs) × (rv ≤ r)

abbrev PortFound : ℕ → ℕ → ℕ → List Port → Option ℕ × ℕ → Type 0
PortFound id rv i ps (some k, r) = IsFirstPort id i ps k
PortFound id rv i ps (none, r) = HasNoPort id ps × (rv ≤ r)

abbrev DeviceFound : ℕ → ℕ → ℕ → List Device → Option (ℕ × ℕ) × ℕ → Type 0
DeviceFound id rv i vs (some (d, k), r) = IsFirstDevice id i vs d k
DeviceFound id rv i vs (none, r) = HasNoDevice id vs × (rv ≤ r)

wanted_iff :
    (id : ℕ) (g : Gid)
    → ((is_wanted id g ≡ true) × (g.subnet_prefix ≡ 0x80fe) × (g.interface_id ≡ id))
      ⊎ ((is_wanted id g ≡ false) × (¬ ((g.subnet_prefix ≡ 0x80fe) × (g.interface_id ≡ id))))
wanted_iff id g = ground arith

find_gid-GidFound : (id rv : ℕ) (gs : List (Option Gid)) → GidFound id rv gs (find_gid id rv gs)
unfolding find_gid
find_gid-GidFound id rv [] = (λ h. h, omega arith)
find_gid-GidFound id rv (none ∷ gs) =
    weaker (find_gid id (rv + 1) gs) (find_gid-GidFound id (rv + 1) gs)
  where
    weaker : (r : Bool × ℕ) → GidFound id (rv + 1) gs r → GidFound id rv (none ∷ gs) r
    weaker (true, r) f = f
    weaker (false, r) (lack, le) = (lack, omega (arith, le))
find_gid-GidFound id rv (some g ∷ gs) = elim (wanted_iff id g) [
  | inl (e, a, b) ↦ rw e (inl (a, b))
  | inr (e, bad) ↦ rw e (weaker bad (find_gid id rv gs) (find_gid-GidFound id rv gs))
]
  where
    weaker :
        ¬ ((g.subnet_prefix ≡ 0x80fe) × (g.interface_id ≡ id))
        → (r : Bool × ℕ) → GidFound id rv gs r
        → GidFound id rv (some g ∷ gs) r
    weaker bad (true, r) f = inr f
    weaker bad (false, r) (lack, le) = (λ h. elim h [ inl x ↦ bad x | inr x ↦ lack x ], le)

or_next-PortFound :
    (id rv i : ℕ) (p : Port) (ps : List Port) (r : Bool × ℕ) (next : ℕ → Option ℕ × ℕ)
    → p.queried ≡ true
    → GidFound id rv p.gids r
    → ((rv' : ℕ) → PortFound id rv' (i + 1) ps (next rv'))
    → PortFound id rv i (p ∷ ps) (or_next i r next)
or_next-PortFound id rv i p ps (true, r) next q f ih = inl ((q, f), refl)
or_next-PortFound id rv i p ps (false, r) next q (lack, le) ih = go (next r) (ih r)
  where
    go : (o : Option ℕ × ℕ) → PortFound id r (i + 1) ps o → PortFound id rv i (p ∷ ps) o
    go (some k, x) f = inr (λ h. lack h.1, f)
    go (none, x) (f, more) = ((λ h. lack h.1, f), omega (arith, le, more))

find_port-PortFound : (id rv i : ℕ) (ps : List Port) → PortFound id rv i ps (find_port id rv i ps)
unfolding find_port
find_port-PortFound id rv i [] = (tt, omega arith)
find_port-PortFound id rv i (p ∷ ps) =
    go (λ rv' i'. find_port-PortFound id rv' i' ps) p.queried refl
  where
    skipped :
        p.queried ≡ false
        → (o : Option ℕ × ℕ) → PortFound id (rv + 1) (i + 1) ps o
        → PortFound id rv i (p ∷ ps) o
    skipped q (some k, x) f = inr (λ h. cc (q, h.0), f)
    skipped q (none, x) (f, more) = ((λ h. cc (q, h.0), f), omega (arith, more))

    go :
        ((rv' i' : ℕ) → PortFound id rv' i' ps (find_port id rv' i' ps))
        → (b : Bool) → p.queried ≡ b
        → PortFound id rv i (p ∷ ps) (
            if b
            then or_next i (find_gid id rv p.gids) (λ x. find_port id x (i + 1) ps)
            else find_port id (rv + 1) (i + 1) ps)
    go ih true q =
        or_next-PortFound id rv i p ps (find_gid id rv p.gids) _ q (find_gid-GidFound id rv p.gids)
          (λ x. ih x (i + 1))
    go ih false q = skipped q (find_port id (rv + 1) (i + 1) ps) (ih (rv + 1) (i + 1))

or_close-DeviceFound :
    (id rv i : ℕ) (v : Device) (vs : List Device) (r : Option ℕ × ℕ) (next : ℕ → Option (ℕ × ℕ) × ℕ)
    (closes : Bool)
    → IsUsable v
    → PortFound id rv 1 v.ports r
    → ((rv' : ℕ) → DeviceFound id rv' (i + 1) vs (next rv'))
    → DeviceFound id rv i (v ∷ vs) (or_close i closes r next)
or_close-DeviceFound id rv i v vs (some k, r) next closes u f ih = inl (u, refl, f)
or_close-DeviceFound id rv i v vs (none, r) next true u (lack, le) ih = go (next r) (ih r)
  where
    go : (o : Option (ℕ × ℕ) × ℕ) → DeviceFound id r (i + 1) vs o → DeviceFound id rv i (v ∷ vs) o
    go (some (d, k), x) f = inr (inr lack, f)
    go (none, x) (f, more) = ((inr lack, f), omega (arith, le, more))
or_close-DeviceFound id rv i v vs (none, r) next false u (lack, le) ih =
    go (next (r + 1)) (ih (r + 1))
  where
    go :
        (o : Option (ℕ × ℕ) × ℕ)
        → DeviceFound id (r + 1) (i + 1) vs o
        → DeviceFound id rv i (v ∷ vs) o
    go (some (d, k), x) f = inr (inr lack, f)
    go (none, x) (f, more) = ((inr lack, f), omega (arith, le, more))

find_device-DeviceFound :
    (id rv i : ℕ) (vs : List Device) → DeviceFound id rv i vs (find_device id rv i vs)
unfolding find_device
find_device-DeviceFound id rv i [] = (tt, omega arith)
find_device-DeviceFound id rv i (v ∷ vs) =
    go (λ rv' i'. find_device-DeviceFound id rv' i' vs) (v.opens && v.queried) refl
  where
    both : (a b : Bool) → (a && b) ≡ true → (a ≡ true) × (b ≡ true)
    both a b h = ground arith

    skipped :
        (v.opens && v.queried) ≡ false
        → (o : Option (ℕ × ℕ) × ℕ) → DeviceFound id (rv + 1) (i + 1) vs o
        → DeviceFound id rv i (v ∷ vs) o
    skipped u (some (d, k), x) f = inr (inl (λ (o, q). cc (u, ap₂ ◌&&◌ o q)), f)
    skipped u (none, x) (f, more) = ((inl (λ (o, q). cc (u, ap₂ ◌&&◌ o q)), f), omega (arith, more))

    go :
        ((rv' i' : ℕ) → DeviceFound id rv' i' vs (find_device id rv' i' vs))
        → (b : Bool) → (v.opens && v.queried) ≡ b
        → DeviceFound id rv i (v ∷ vs) (
            if b
            then or_close i v.closes (find_port id rv 1 v.ports) (λ x. find_device id x (i + 1) vs)
            else find_device id (rv + 1) (i + 1) vs)
    go ih true u =
        or_close-DeviceFound id rv i v vs (find_port id rv 1 v.ports) _ v.closes (both _ _ u)
          (find_port-PortFound id rv 1 v.ports) (λ x. ih x (i + 1))
    go ih false u = skipped u (find_device id (rv + 1) (i + 1) vs) (ih (rv + 1) (i + 1))

-- A result: a port and 0, or no port and another code.
abbrev pub IsOpened : ℕ → List Device → Option (ℕ × ℕ) × ℕ → Type 0
IsOpened id vs (some (d, k), r) = (r ≡ 0) × IsFirstDevice id 0 vs d k
IsOpened id vs (none, r) = (1 ≤ r) × HasNoDevice id vs

-- The search returns 0 exactly if it finds a port, whatever queries failed on the way: the first
-- port of the first device that can be opened and queried and has, in a GID that can be queried,
-- the link-local prefix and the interface's number. It returns another code exactly if there is
-- none.
pub open_device_for_interface_id-IsOpened :
    (interface_id : ℕ) (vs : List Device)
    → IsOpened (swap64 interface_id) vs (open_device_for_interface_id interface_id (some vs))
unfolding open_device_for_interface_id
open_device_for_interface_id-IsOpened interface_id [] = (omega arith, tt)
open_device_for_interface_id-IsOpened interface_id (v ∷ vs) =
    go (find_device (swap64 interface_id) 1 0 (v ∷ vs))
      (find_device-DeviceFound (swap64 interface_id) 1 0 (v ∷ vs))
  where
    go :
        (o : Option (ℕ × ℕ) × ℕ)
        → DeviceFound (swap64 interface_id) 1 0 (v ∷ vs) o
        → IsOpened (swap64 interface_id) (v ∷ vs) (clear_retval o)
    go (some (d, k), r) f = (refl, f)
    go (none, r) (f, le) = (le, f)
