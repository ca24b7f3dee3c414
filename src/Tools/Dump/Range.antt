-- ===== src/Tools/Dump/Range.antt =====
-- Which bytes are dumped.
use hashpipe.Base.{
  ℕ, ◌+◌, ◌-◌, ◌*◌, ◌%◌, ◌^◌, ◌≤◌, ◌<◌, ◌≡◌, refl, sym, ap, ◌∙◌, subst, arith, ◌⊎◌, inl, inr, ltb,
  ltb→lt, leb, if◌then◌else◌,
}
use hashpipe.Base.{Bool, true, false, Option, none, some, ℤ, pos, negsuc, to_size_t, to_int, eq_ℤ}
use hashpipe.Ipc.{Header}
use hashpipe.Tools.{room, settle_bytes}
use hashpipe.Tools.Dump.{
  Dump, Dumped, prints_stats, refuses, writes, dump_from, or_refuses, no_block, dump,
}

to_size_t-lt : (z : ℤ) → to_size_t z < 2 ^ 64
to_size_t-lt (pos n) = omega arith
to_size_t-lt (negsuc n) = omega arith

pub size_of_int : (n : ℕ) → n < 2 ^ 31 → to_size_t (to_int n) ≡ n
size_of_int n l = ground arith

-- The number of bytes that is asked for: all that are left, for 0.
abbrev pub wanted : Header → ℤ → ℤ → ℕ
wanted h skip num = if eq_ℤ num (pos 0) then h.block_size - to_size_t skip else to_size_t num

-- What has been tested, when `num` is asked for and `given` comes out.
pub record IsSettled (h : Header) (b : ℕ) (skip num given : ℤ) : Type 0 where
  pub is_block : b < h.n_block
  pub skipped : to_size_t skip ≤ h.block_size
  pub fits : to_size_t skip + to_size_t given ≤ h.block_size
  pub count : to_size_t given ≡ wanted h skip num

-- Why nothing comes out.
abbrev pub IsRefused : Header → ℕ → ℤ → ℤ → Type 0
IsRefused h b skip num =
    (h.n_block ≤ b)
    ⊎ (h.block_size < to_size_t skip)
    ⊎ (h.block_size < to_size_t skip + to_size_t num)

abbrev pub Settles : Header → ℕ → ℤ → ℤ → Option ℤ → Type 0
Settles h b skip num none = IsRefused h b skip num
Settles h b skip num (some given) = IsSettled h b skip num given

not_ltb : (a b : ℕ) → ltb a b ≡ false → b ≤ a
not_ltb a b e = ground (arith, e)

not_leb : (a b : ℕ) → leb a b ≡ false → b < a
not_leb a b e = ground (arith, e)

is_leb : (a b : ℕ) → leb a b ≡ true → a ≤ b
is_leb a b e = ground (arith, e)

pub room_lem :
    (h : Header) (skip : ℤ)
    → h.block_size < 2 ^ 31
    → to_size_t skip ≤ h.block_size
    → room h skip ≡ h.block_size - to_size_t skip
room_lem h skip small l = omega arith

pub settle_bytes-Settles :
    (h : Header) (b : ℕ) (skip num : ℤ)
    → h.block_size < 2 ^ 31
    → Settles h b skip num (settle_bytes h (pos b) skip num false)
unfolding settle_bytes
settle_bytes-Settles h b skip num small =
    go (leb h.n_block b) (ltb h.block_size (to_size_t skip)) (eq_ℤ num (pos 0))
      (ltb (room h skip) (to_size_t num)) refl refl refl refl
  where
    go :
        (past long all much : Bool)
        → leb h.n_block b ≡ past
        → ltb h.block_size (to_size_t skip) ≡ long
        → eq_ℤ num (pos 0) ≡ all
        → ltb (room h skip) (to_size_t num) ≡ much
        → Settles h b skip num (settle_bytes h (pos b) skip num false)
    go true _ _ _ p l a m = rw (p, settle_bytes) (inl (is_leb h.n_block b p))
    go false true _ _ p l a m =
        rw (p, l, settle_bytes) (inr (inl (ltb→lt h.block_size (to_size_t skip) l)))
    go false false true _ p l a m =
        let left = room_lem h skip small (not_ltb h.block_size (to_size_t skip) l) in
        let size = size_of_int (room h skip) (omega (arith, left)) in
        rw (p, l, a, settle_bytes)
          record {
            is_block = not_leb h.n_block b p;
            skipped = not_ltb h.block_size (to_size_t skip) l;
            fits = omega (arith, left, size, not_ltb h.block_size (to_size_t skip) l);
            count = rw (a) (size ∙ left);
          }
    go false false false true p l a m =
        rw (p, l, a, m, settle_bytes)
          (inr (
            inr (
              omega (
                arith,
                room_lem h skip small (not_ltb h.block_size (to_size_t skip) l),
                ltb→lt (room h skip) (to_size_t num) m,
              ))))
    go false false false false p l a m =
        rw (p, l, a, m, settle_bytes)
          record {
            is_block = not_leb h.n_block b p;
            skipped = not_ltb h.block_size (to_size_t skip) l;
            fits = omega (
              arith,
              room_lem h skip small (not_ltb h.block_size (to_size_t skip) l),
              not_ltb (room h skip) (to_size_t num) m,
              not_ltb h.block_size (to_size_t skip) l,
            );
            count = rw (a) refl;
          }

-- What is dumped of block `b` of the buffer at `d`: the bytes that are asked for, which are inside the
-- block, or nothing, as there are none such.
abbrev pub IsInBlock : ℕ → Header → ℕ → ℤ → ℤ → Dumped → Type 0
IsInBlock d h b skip num prints_stats = ⊥
IsInBlock d h b skip num refuses = IsRefused h b skip num
IsInBlock d h b skip num (writes a n) =
    (b < h.n_block)
    × (a ≡ d + h.header_size + b * h.block_size + to_size_t skip)
    × (n ≡ wanted h skip num)
    × (a + n ≤ d + h.header_size + b * h.block_size + h.block_size)

pub inside : (b n s : ℕ) → b < n → b * s + s ≤ n * s
inside b n s l = grind arith

pub whole : (b bs : ℕ) → b < 2 ^ 64 → b % 2 ^ 64 * bs ≡ b * bs
whole b bs l = ap (λ x. x * bs) (omega (arith, l))

module _ (d : ℕ) (h : Header) (c : Dump) (small : h.block_size < 2 ^ 31) (few : h.n_block < 2 ^ 31)
    (fits : d + h.header_size + h.n_block * h.block_size < 2 ^ 64) where
  pub block_address :
      (b : ℕ) (skip num given : ℤ)
      → IsSettled h b skip num given
      → ((d + to_size_t skip) % 2 ^ 64 + h.header_size + b % 2 ^ 64 * h.block_size) % 2 ^ 64
        ≡ d + h.header_size + b * h.block_size + to_size_t skip
  block_address b skip num given s =
      let i = inside b h.n_block h.block_size s.is_block in
      rw (whole b h.block_size (omega (arith, s.is_block))) omega (arith, s.skipped, i)

  dump_from-InBlock :
      (b : ℕ) (given : ℤ)
      → c.block ≡ pos b
      → IsSettled h b c.skip c.num given
      → IsInBlock d h b c.skip c.num (dump_from d h c given)
  unfolding dump_from
  dump_from-InBlock b given e s =
      rw (e, dump_from)
        (rw (block_address b c.skip c.num given s)
          (s.is_block, refl, s.count, omega (arith, s.fits)))

  -- Without -f, on a buffer of fewer than 2^31 blocks of less than 2^31 bytes that does not wrap around
  -- the address space: `dump` of a block prints no header fields; it writes the bytes of the block from
  -- `skip` on, as many as asked for, all that are left for 0, and none outside the block; or it refuses,
  -- and then there is no such block, or fewer bytes in it than are skipped or than are asked for
  -- behind them.
  pub dump-InBlock :
      (b : ℕ) → c.block ≡ pos b → c.force ≡ false → IsInBlock d h b c.skip c.num (dump d h c)
  unfolding dump
  dump-InBlock b e f = subst (IsInBlock d h b c.skip c.num) (sym past_stats) (
      go (settle_bytes h c.block c.skip c.num c.force)
        (rw (e, f) (settle_bytes-Settles h b c.skip c.num small)))
    where
      past_stats :
          dump d h c ≡ or_refuses (settle_bytes h c.block c.skip c.num c.force) (dump_from d h c)
      past_stats =
          ap
            (λ z.
              if no_block z
              then prints_stats
              else or_refuses (settle_bytes h c.block c.skip c.num c.force) (dump_from d h c))
            e

      go :
          (o : Option ℤ)
          → Settles h b c.skip c.num o
          → IsInBlock d h b c.skip c.num (or_refuses o (dump_from d h c))
      go none r = r
      go (some given) s = dump_from-InBlock b given e s
