-- ===== src/Udp/Bound.antt =====
-- Which socket is bound, and that no other stays open.
use hashpipe.Base.{ℕ, ◌+◌, ◌≡◌, refl, sym, arith, ap, ◌∙◌, ◌==◌, if◌then◌else◌, pos, minus_one}
use hashpipe.Base.{Bool, true, false, Option, none, some, List, [], ◌∷◌, ◌++◌}
use mathlib.Core.Option.{some-injective}
use hashpipe.Databuf.{Status, hashpipe_ok, hashpipe_err_sys}
use hashpipe.Udp.{
  Params, Address, Event, opened, closed, bound, freed, try_addresses, after_loop, udp_init,
  set_sock, pollin,
}

-- The first address for which both calls succeed.
abbrev pub first_usable : List Address → Option ℕ
first_usable [] = none
first_usable (a ∷ result) =
    let rest = first_usable result in
    elim a.socket [ none ↦ rest | some s ↦ if a.binds then some s else rest ]

-- How often a socket is opened, and how often it is closed.
abbrev pub opened_count : ℕ → List Event → ℕ
opened_count s [] = 0
opened_count s (opened q ∷ es) = (if s == q then 1 else 0) + opened_count s es
opened_count s (_ ∷ es) = opened_count s es

abbrev pub closed_count : ℕ → List Event → ℕ
closed_count s [] = 0
closed_count s (closed q ∷ es) = (if s == q then 1 else 0) + closed_count s es
closed_count s (_ ∷ es) = closed_count s es

-- One is left open: `kept`.
abbrev pub IsKept : Option ℕ → List Event → Type 0
IsKept none es = (s : ℕ) → opened_count s es ≡ closed_count s es
IsKept (some k) es = (s : ℕ) → opened_count s es ≡ closed_count s es + (if s == k then 1 else 0)

-- What the loop over the addresses leaves.
record IsTried (usable : Option ℕ) (p : Params) (r : Bool × Params × List Event) : Type 0 where
  found : r.0 ≡ (elim usable [ none ↦ false | some _ ↦ true ])
  sock : (s : ℕ) → usable ≡ some s → r.1.sock ≡ pos s
  kept : IsKept usable r.2

closed-IsKept :
    (usable : Option ℕ) (q port : ℕ) (es : List Event)
    → IsKept usable es
    → IsKept usable (opened q ∷ bound q port ∷ closed q ∷ es)
closed-IsKept none q port es k = λ s. ap (λ n. (if s == q then 1 else 0) + n) (k s)
closed-IsKept (some u) q port es k = λ s. ground (arith, k s)

try_addresses-IsTried :
    (p : Params) (result : List Address) → IsTried (first_usable result) p (try_addresses p result)
unfolding try_addresses
try_addresses-IsTried p [] = record { found = refl; sock = λ s e. cc e; kept = λ s. refl }
try_addresses-IsTried p (a ∷ result) =
    go a.socket a.binds refl refl (try_addresses-IsTried (set_sock p minus_one) result)
  where
    go :
        (socket : Option ℕ) (binds : Bool)
        → a.socket ≡ socket
        → a.binds ≡ binds
        → IsTried
            (first_usable result)
            (set_sock p minus_one)
            (try_addresses (set_sock p minus_one) result)
        → IsTried (first_usable (a ∷ result)) p (try_addresses p (a ∷ result))
    go none b e f r = rw (e, try_addresses) record { found = r.found; sock = r.sock; kept = r.kept }
    go (some q) true e f r =
        rw (e, f, try_addresses)
          record {
            found = refl;
            sock = λ s g. ap pos (some-injective _ _ g);
            kept = λ s. omega arith;
          }
    go (some q) false e f r =
        rw (e, f, try_addresses)
          record {
            found = r.found;
            sock = r.sock;
            kept = closed-IsKept (first_usable result) q _ _ r.kept;
          }

freed-count :
    (s : ℕ) (es : List Event)
    → (opened_count s (es ++ freed ∷ []) ≡ opened_count s es)
      × (closed_count s (es ++ freed ∷ []) ≡ closed_count s es)
freed-count s [] = (refl, refl)
freed-count s (opened q ∷ es) =
    let (a, b) = freed-count s es in (ap (λ n. (if s == q then 1 else 0) + n) a, b)
freed-count s (closed q ∷ es) =
    let (a, b) = freed-count s es in (a, ap (λ n. (if s == q then 1 else 0) + n) b)
freed-count s (bound q port ∷ es) = freed-count s es
freed-count s (freed ∷ es) = freed-count s es

-- Where a call ends that found `usable`.
abbrev pub IsInit : Option ℕ → Status × Params × List Event → Type 0
IsInit none (st, p, es) = (st ≡ hashpipe_err_sys) × IsKept none es
IsInit (some k) (st, p, es) =
    (st ≡ hashpipe_ok)
    × (p.sock ≡ pos k)
    × (p.pfd_fd ≡ pos k)
    × (p.pfd_events ≡ pollin)
    × IsKept (some k) es

after_loop-IsInit :
    (usable : Option ℕ) (p : Params) (r : Bool × Params × List Event)
    → IsTried usable p r
    → IsInit usable (after_loop r)
after_loop-IsInit none p (false, p', es) t =
    (refl, λ s. let (a, b) = freed-count s es in a ∙ t.kept s ∙ sym b)
after_loop-IsInit (some k) p (true, p', es) t = (refl, t.sock k refl, t.sock k refl, refl, t.kept)
after_loop-IsInit none p (true, p', es) t = cc t.found
after_loop-IsInit (some k) p (false, p', es) t = cc t.found

-- For every list of addresses: if for none of them both calls succeed, an error is returned, and
-- every socket has been closed as often as it was opened; else the socket of the first one for which
-- they do is returned, is the one to poll for input, and of all sockets just this one was opened once
-- more than it was closed.
pub udp_init-IsInit :
    (p : Params) (result : List Address) → IsInit (first_usable result) (udp_init p (some result))
unfolding udp_init
udp_init-IsInit p result =
    after_loop-IsInit (first_usable result) p (try_addresses p result)
      (try_addresses-IsTried p result)
