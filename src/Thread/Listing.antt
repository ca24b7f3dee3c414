-- ===== src/Thread/Listing.antt =====
-- What registering, finding and listing threads do.
use hashpipe.Base.{ℕ, ◌+◌, ◌≤◌, ◌≡◌, refl, ◌⊎◌, inl, inr, arith, ltb}
use hashpipe.Base.{
  Bool, true, false, Option, none, some, List, [], ◌∷◌, ◌++◌, length, length-append,
}
use hashpipe.Base.{if◌then◌else◌, Bool-cases}
use hashpipe.Thread.{
  ThreadDesc, Registry, max_hashpipe_threads, same_name, register_hashpipe_thread,
  find_hashpipe_thread, names_of, null_output_thread, is_input_only, is_input_output,
  is_output_only, is_utility, list_hashpipe_threads,
}

-- The first answer there is.
abbrev pub or_else : Option ThreadDesc → Option ThreadDesc → Option ThreadDesc
or_else (some d) e = some d
or_else none e = e

find_hashpipe_thread-append :
    (name : List ℕ) (ds : List ThreadDesc) (d : ThreadDesc)
    → find_hashpipe_thread name (ds ++ d ∷ [])
      ≡ or_else (find_hashpipe_thread name ds) (if same_name name d.name then some d else none)
unfolding find_hashpipe_thread
find_hashpipe_thread-append name [] d = refl
find_hashpipe_thread-append name (e ∷ ds) d = elim (Bool-cases (same_name name e.name)) [
  | inl hit ↦ rw hit refl
  | inr miss ↦ rw (miss, find_hashpipe_thread-append name ds d) refl
]

-- From a table of at most 1024 entries, registering returns 0 exactly with a new last entry, or 1
-- and changes nothing; the table never holds more than 1024 entries, and a name that was found
-- before is found at the same entry, while another one is found if it is the new entry's.
pub register_hashpipe_thread_lem :
    (allocated : Bool) (ptm : ThreadDesc) (r : Registry) (name : List ℕ)
    → length r.thread_list ≤ max_hashpipe_threads
    → let (rc, s) = register_hashpipe_thread allocated ptm r in
      (length s.thread_list ≤ max_hashpipe_threads)
      × (s.run_threads_flag ≡ r.run_threads_flag)
      × (((rc ≡ 1) × (s ≡ r))
          ⊎ ((rc ≡ 0)
              × (find_hashpipe_thread name s.thread_list
                  ≡ or_else
                      (find_hashpipe_thread name r.thread_list)
                      (if same_name name ptm.name then some ptm else none))))
unfolding register_hashpipe_thread
register_hashpipe_thread_lem false ptm r name fits =
    elim (Bool-cases (ltb (length r.thread_list) max_hashpipe_threads)) [
      | inl room ↦ rw room (fits, refl, inl (refl, refl))
      | inr full ↦ rw full (fits, refl, inl (refl, refl))
    ]
register_hashpipe_thread_lem true ptm r name fits =
    elim (Bool-cases (ltb (length r.thread_list) max_hashpipe_threads)) [
      | inl room ↦ rw room (
        ground (arith, length-append r.thread_list (ptm ∷ [])),
        refl,
        inr (refl, find_hashpipe_thread-append name r.thread_list ptm),
      )
      | inr full ↦ rw full (fits, refl, inl (refl, refl))
    ]

-- How many names pass a test.
abbrev pub count : (List ℕ → Bool) → List (List ℕ) → ℕ
count test [] = 0
count test (n ∷ ns) = (if test n then 1 else 0) + count test ns

count-append :
    (test : List ℕ → Bool) (as_ bs : List (List ℕ))
    → count test (as_ ++ bs) ≡ count test as_ + count test bs
count-append test [] bs = omega arith
count-append test (a ∷ as_) bs = omega (arith, count-append test as_ bs)

-- The descriptors that no loop of the listing shows: named like the sink thread, with no buffer.
abbrev pub is_hidden : ThreadDesc → Bool
is_hidden d =
    if d.ibuf_create
    then false
    else if d.obuf_create
    then false
    else same_name d.name null_output_thread

abbrev pub is_any : ThreadDesc → Bool
is_any d = true

parts :
    (test : List ℕ → Bool) (ds : List ThreadDesc)
    → count test (names_of is_input_only ds)
        + count test (names_of is_input_output ds)
        + count test (names_of is_output_only ds)
        + count test (names_of is_utility ds)
        + count test (names_of is_hidden ds)
      ≡ count test (names_of is_any ds)
unfolding names_of
parts test [] = omega arith
parts test (d ∷ ds) = ground (arith, parts test ds)

-- The listing shows the sink thread once, and every other registered thread exactly as often as it
-- is registered: by any test on names, what is printed, and the hidden descriptors (those named
-- like the sink thread that have no buffer), number as many as the registered threads and one sink
-- thread.
pub list_hashpipe_threads-count :
    (test : List ℕ → Bool) (ds : List ThreadDesc)
    → count test (list_hashpipe_threads ds) + count test (names_of is_hidden ds)
      ≡ count test (names_of is_any ds) + (if test null_output_thread then 1 else 0)
unfolding list_hashpipe_threads
list_hashpipe_threads-count test ds =
    let ins = names_of is_input_only ds in
    let both = names_of is_input_output ds in
    let outs = null_output_thread ∷ names_of is_output_only ds in
    grind (
      arith,
      parts test ds,
      count-append test (ins ++ both ++ outs) (names_of is_utility ds),
      count-append test (ins ++ both) outs,
      count-append test ins both,
    )
