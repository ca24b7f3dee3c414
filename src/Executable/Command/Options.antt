-- ===== src/Executable/Command/Options.antt =====
-- What `-o` stores, and which CPUs a thread is given.
use hashpipe.Base.{ℕ, ◌≡◌, ◌≢◌, refl, arith}
use hashpipe.Base.{none, some, List, [], ◌∷◌, ◌++◌}
use hashpipe.Thread.{ThreadArgs, args_init}
use hashpipe.Executable.Command.{
  thread, text, Calls, Main, go_on, next_args, set_up_next, take_thread, classify, split_equal,
  option_entry, handle,
}

-- A key: no equal sign in it.
abbrev pub HasNoEqual : List ℕ → Type 0
HasNoEqual [] = Unit
HasNoEqual (b ∷ bs) = (b ≢ b'=') × HasNoEqual bs

split_equal-key :
    (key value : List ℕ) → HasNoEqual key → split_equal (key ++ b'=' ∷ value) ≡ some (key, value)
unfolding split_equal
split_equal-key [] value h = refl
split_equal-key (b ∷ bs) value (ne, h) = rw (split_equal-key bs value h) (ground (arith, ne))

split_equal-none : (arg : List ℕ) → HasNoEqual arg → split_equal arg ≡ none
unfolding split_equal
split_equal-none [] h = refl
split_equal-none (b ∷ bs) (ne, h) = rw (split_equal-none bs h) (ground (arith, ne))

-- For a key without an equal sign: `KEY=VALUE` stores the value under the key, as what it converts
-- to, and `KEY` alone stores an empty text under it. `KEY=`, with an empty value, does not: it stores
-- an empty text under a key that ends with the equal sign.
pub option_entry_lem :
    (c : Calls) (key value : List ℕ) (b : ℕ)
    → HasNoEqual key
    → (option_entry c (key ++ b'=' ∷ b ∷ value) ≡ (key, classify c (b ∷ value)))
      × (option_entry c key ≡ (key, text []))
      × (option_entry c (key ++ b'=' ∷ []) ≡ (key ++ b'=' ∷ [], text []))
unfolding option_entry
option_entry_lem c key value b h = (
  rw (split_equal-key key (b ∷ value) h, option_entry) refl,
  rw (split_equal-none key h, option_entry) refl,
  rw (split_equal-key key [] h, option_entry) refl,
)

-- A CPU mask is the mask of one thread: behind a thread's name, whatever mask that thread had, the
-- next one starts without, with the instance that was last given.
pub thread-no_mask :
    (c : Calls) (blank : ThreadArgs) (m n : Main) (name : List ℕ)
    → handle c blank m (thread name) ≡ go_on n
    → (n.current.cpu_mask ≡ 0) × (n.current.instance_id ≡ m.instance_id)
unfolding handle take_thread set_up_next next_args args_init
thread-no_mask c blank m n name e = ground (arith, e)
