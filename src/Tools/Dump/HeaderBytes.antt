-- ===== src/Tools/Dump/HeaderBytes.antt =====
-- How much of the header is dumped.
use hashpipe.Base.{ℕ, ◌+◌, ◌-◌, ◌%◌, ◌^◌, ◌≤◌, ◌<◌, ◌≡◌, refl, ap, ◌∙◌, arith, if◌then◌else◌}
use hashpipe.Base.{true, false, ℤ, pos, negsuc, to_size_t, to_int, ltb, ◌==◌}
use hashpipe.Ipc.{Header}
use hashpipe.Tools.{settle_bytes}
use hashpipe.Tools.Dump.{Dump, writes, dump_from, dump}

size_of_difference :
    (a b : ℕ)
    → a < 2 ^ 31
    → b < 2 ^ 31
    → to_size_t (to_int ((a + 2 ^ 64 - b) % 2 ^ 64)) ≡ (a + 2 ^ 64 - b) % 2 ^ 64
size_of_difference a b l m = ground arith

not_longer : (a b : ℕ) → b ≤ a → ltb a b ≡ false
not_longer a b l = ground arith

same : (n : ℕ) → (n == n) ≡ true
same n = ground arith

all_left :
    (num other : ℤ) (r : ℕ)
    → to_size_t num ≡ r
    → (if to_size_t num == r then other else num) ≡ other
all_left num other r e = rw (e, same r) refl

-- `dump` with -b -1 and without -n, if `s` bytes are skipped, at most the size of a block, and the sizes
-- are below 2^31: it writes from byte `s` of the buffer on, and the count is the size of the header less
-- `s`, modulo 2^64. It is thus 2^64 less the difference if `s` is greater than the size of the header.
dump-header :
    (d : ℕ) (h : Header) (c : Dump) (s : ℕ)
    → s ≤ h.block_size
    → h.block_size < 2 ^ 31
    → h.header_size < 2 ^ 31
    → d + h.block_size < 2 ^ 64
    → dump d h (record c { block = negsuc 0; skip = pos s; num = pos 0 })
      ≡ writes (d + s) ((h.header_size + 2 ^ 64 - s) % 2 ^ 64)
unfolding dump settle_bytes dump_from
dump-header d h c s l small header fits =
    let size = size_of_difference h.block_size s small (omega (arith, l)) in
    let plain : s % 2 ^ 64 ≡ s = omega arith in
    let count = size_of_difference h.header_size s header (omega arith) in
    let start : (d + s) % 2 ^ 64 ≡ d + s = omega arith in
    rw (dump, settle_bytes, dump_from, plain, not_longer h.block_size s l, start)
      (ap (λ n. writes (d + s) (to_size_t n)) (all_left _ _ _ size) ∙ ap (writes (d + s)) count)
