-- ===== src/Tools/Write/Place.antt =====
-- Where in the buffer the loop writes.
use hashpipe.Base.{ℕ, zero, suc, ◌+◌, ◌*◌, ◌^◌, ◌≤◌, ◌<◌, ◌≡◌, refl, sym, subst, arith}
use hashpipe.Base.{ltb, ◌&&◌, if◌then◌else◌, not}
use hashpipe.Base.{
  Bool, true, false, Option, none, some, ℤ, pos, negsuc, to_size_t, to_int, at_least, eq_ℤ,
}
use hashpipe.Ipc.{Header}
use hashpipe.Tools.{room, settle_bytes}
use hashpipe.Tools.Dump.Range.{
  IsSettled, IsRefused, Settles, settle_bytes-Settles, wanted, whole, inside,
}
use hashpipe.Tools.Write.{
  Write, Reads, Bytes, fill, above_0, write_start, with_code, fill_settled, write_block_of,
}
use hashpipe.Tools.Write.Fill.{IsAtMost, IsBeyond, IsSame, Fills, fill-Fills}

abbrev pub IsInt : Option ℤ → Type 0
IsInt none = Unit
IsInt (some z) = above_0 z < 2 ^ 31

if-IsInt : (b : Bool) (x y : Option ℤ) → IsInt x → IsInt y → IsInt (if b then x else y)
if-IsInt true x y p q = p
if-IsInt false x y p q = q

above_0-to_int : (n : ℕ) → above_0 (to_int n) < 2 ^ 31
above_0-to_int n = ground arith

settle_bytes-IsInt :
    (h : Header) (block skip num : ℤ) (force : Bool)
    → above_0 num < 2 ^ 31
    → IsInt (settle_bytes h block skip num force)
unfolding settle_bytes
settle_bytes-IsInt h block skip num force l =
    if-IsInt (at_least block h.n_block && not force) none _ tt (
      if-IsInt (ltb h.block_size (to_size_t skip) && not force) none _ tt (
        if-IsInt (eq_ℤ num (pos 0)) _ _ (above_0-to_int (room h skip))
          (if-IsInt (ltb (room h skip) (to_size_t num) && not force) none _ tt l)))

-- How the tool ends, when it is to write the bytes `num` of block `b` and a read returns `most` bytes:
-- it refuses and nothing has changed, or it changes none but the first `most` of the bytes it is to write,
-- which are inside the block.
abbrev pub IsWritten : ℕ → Header → ℕ → ℤ → ℤ → ℕ → Bytes → Option (ℕ × Bytes) → Type 0
IsWritten d h b skip num most m none = ⊥
IsWritten d h b skip num most m (some (zero, m')) =
    (b < h.n_block)
    × (to_size_t skip + wanted h skip num ≤ h.block_size)
    × IsSame (d + h.header_size + b * h.block_size + to_size_t skip) most (wanted h skip num) m m'
IsWritten d h b skip num most m (some (suc code, m')) = (m' ≡ m) × IsRefused h b skip num

count-above_0 : (z : ℤ) → above_0 z < 2 ^ 31 → above_0 z ≤ to_size_t z
count-above_0 (pos n) l = omega (arith, l)
count-above_0 (negsuc n) l = omega arith

module _ (d : ℕ) (h : Header) (c : Write) (small : h.block_size < 2 ^ 31) (few : h.n_block < 2 ^ 31)
    (fits : d + h.header_size + h.n_block * h.block_size < 2 ^ 64) where
  write_start_lem :
      (b : ℕ) (given : ℤ)
      → IsSettled h b c.skip c.num given
      → write_start d h (pos b) c.skip ≡ d + h.header_size + b * h.block_size + to_size_t c.skip
  unfolding write_start
  write_start_lem b given s =
      let i = inside b h.n_block h.block_size s.is_block in
      rw (whole b h.block_size (omega (arith, s.is_block))) omega (arith, s.skipped, i)

  module _ (read : Reads) (most : ℕ) (keeps : (i n : ℕ) → IsAtMost most n (read i n).result) where
    filled :
        (b fuel : ℕ) (m : Bytes) (given : ℤ)
        → IsSettled h b c.skip c.num given
        → above_0 given < 2 ^ 31
        → 2 ^ 31 ≤ fuel
        → IsWritten d h b c.skip c.num most m
            (with_code 0 (fill fuel read (write_start d h (pos b) c.skip) (above_0 given) 0 m))
    filled b fuel m given s l enough =
        rw (write_start_lem b given s)
          (go _ (fill-Fills read _ most keeps fuel (above_0 given) 0 m (omega (arith, l, enough))))
      where
        go :
            (o : Option Bytes)
            → Fills
                (d + h.header_size + b * h.block_size + to_size_t c.skip)
                most
                (above_0 given)
                m
                o
            → IsWritten d h b c.skip c.num most m (with_code 0 o)
        go none f = elim f [ ]
        go (some m') f = (
          s.is_block,
          subst (λ n. to_size_t c.skip + n ≤ h.block_size) s.count s.fits,
          record {
            same = λ a out.
                f.same a
                  (narrow a (subst (λ n. above_0 given ≤ n) s.count (count-above_0 given l)) out);
          },
        )
          where
            narrow :
                (a : ℕ)
                → above_0 given ≤ wanted h c.skip c.num
                → IsBeyond
                    (d + h.header_size + b * h.block_size + to_size_t c.skip)
                    most
                    (wanted h c.skip c.num)
                    a
                → IsBeyond
                    (d + h.header_size + b * h.block_size + to_size_t c.skip)
                    most
                    (above_0 given)
                    a
            narrow a l out = ground (arith, l, out)

    -- Without -f, for block `b` of a buffer of fewer than 2^31 blocks of less than 2^31 bytes that does
    -- not wrap around the address space, with a number of bytes below 2^31, a read(2) that returns no more
    -- than it is asked for and no more than `most`, and fuel of 2^31: the loop ends. Either the exit code
    -- is not 0, no byte has changed, and there is no such block, or fewer bytes in it than are skipped or
    -- than are asked for behind them; or the exit code is 0, the bytes to be written are inside the block,
    -- and all others are unchanged, as are those from the first `most` on, since every read is given the
    -- same address.
    pub write_block_of-IsWritten :
        (b fuel : ℕ) (m : Bytes)
        → c.block ≡ pos b
        → c.force ≡ false
        → above_0 c.num < 2 ^ 31
        → 2 ^ 31 ≤ fuel
        → IsWritten d h b c.skip c.num most m (write_block_of fuel read d h c m)
    unfolding write_block_of
    write_block_of-IsWritten b fuel m e f l enough =
        go (settle_bytes h c.block c.skip c.num c.force)
          (rw (e, f) (settle_bytes-Settles h b c.skip c.num small))
          (settle_bytes-IsInt h c.block c.skip c.num c.force l)
      where
        go :
            (o : Option ℤ)
            → Settles h b c.skip c.num o
            → IsInt o
            → IsWritten d h b c.skip c.num most m (fill_settled fuel read d h c m o)
        go none r t = (refl, r)
        go (some given) s t =
            subst
              (λ z.
                IsWritten d h b c.skip c.num most m
                  (with_code 0 (fill fuel read (write_start d h z c.skip) (above_0 given) 0 m)))
              (sym e) (filled b fuel m given s t enough)
