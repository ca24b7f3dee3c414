-- ===== src/Udp.antt =====
-- hashpipe_udp.c: a socket bound to the first address that can be bound.
-- getaddrinfo(3), socket(2) and bind(2) answer through arguments.
pub mod Bound
use hashpipe.Base.{ℕ, ◌%◌, ◌^◌, if◌then◌else◌, ℤ, pos, minus_one}
use hashpipe.Base.{Bool, true, false, Option, none, some, List, [], ◌∷◌, ◌++◌}
use hashpipe.Databuf.{Status, hashpipe_ok, hashpipe_err_sys}
use hashpipe.Packet.{swap16}

-- The fields of `struct hashpipe_udp_params` that are read or set.
pub record Params : Type 0 where
  pub bindport : ℕ
  pub sock : ℤ
  pub pfd_fd : ℤ
  pub pfd_events : ℕ

-- What the calls answer for an address: socket(2) (`none`: -1), and whether bind(2) succeeds.
pub record Address : Type 0 where
  pub socket : Option ℕ
  pub binds : Bool

-- The calls that matter: of socket(2), of bind(2) with its port in network byte order, of close(2)
-- and of freeaddrinfo(3).
pub data Event : Type 0 where
  opened closed : ℕ → Event
  bound : ℕ → ℕ → Event
  freed : Event

abbrev pub pollin : ℕ
pollin = 1

abbrev pub set_sock : Params → ℤ → Params
set_sock p s = record p { sock = s }

-- Down the list, whether an address succeeded.
unfoldable pub try_addresses : Params → List Address → Bool × Params × List Event
try_addresses p [] = (false, p, [])
try_addresses p (a ∷ result) =
    let (found, p', es) = try_addresses (set_sock p minus_one) result in
    elim a.socket [
      | none ↦ (found, p', es)
      | some s ↦
          let port = swap16 (p.bindport % 2 ^ 16) in
          if a.binds
          then (true, set_sock p (pos s), opened s ∷ bound s port ∷ [])
          else (found, p', opened s ∷ bound s port ∷ closed s ∷ es)
    ]

abbrev pub after_loop : Bool × Params × List Event → Status × Params × List Event
after_loop (true, p, es) = (hashpipe_ok, record p { pfd_fd = p.sock; pfd_events = pollin }, es)
after_loop (false, p, es) = (hashpipe_err_sys, p, es ++ freed ∷ [])

-- `none` is a getaddrinfo(3) that fails. What fcntl(2) and setsockopt(2) return is ignored.
unfoldable pub udp_init : Params → Option (List Address) → Status × Params × List Event
unfolding try_addresses
udp_init p none = (hashpipe_err_sys, p, freed ∷ [])
udp_init p (some result) = after_loop (try_addresses p result)

unfoldable pub udp_close : ℕ → Status × List Event
udp_close sock = (hashpipe_ok, closed sock ∷ [])
