-- ===== src/Databuf/Layout.antt =====
-- Where the blocks of a data buffer lie in its segment.
use hashpipe.Base.{ℕ, ◌+◌, ◌*◌, ◌^◌, ◌≤◌, ◌<◌, arith}
use hashpipe.Ipc.{Ipc}
use hashpipe.Databuf.{data_address, total_size}

block_end : (b i n : ℕ) → i < n → b * i + b ≤ b * n
block_end b i n h = grind arith

-- Where no address wraps: the first block begins behind the header, no block overlaps a later one,
-- and each lies inside the total size that the segment was made with.
data_address-disjoint :
    (k : Ipc) (w : k.World) (d i j : ℕ)
    → d + (k.header w d).header_size + (k.header w d).block_size * (k.header w d).n_block < 2 ^ 64
    → i < j
    → j < (k.header w d).n_block
    → (d + (k.header w d).header_size ≤ data_address k w d i)
      × (data_address k w d i + (k.header w d).block_size ≤ data_address k w d j)
      × (data_address k w d j + (k.header w d).block_size
          ≤ d
            + total_size
                (k.header w d).header_size
                (k.header w d).block_size
                (k.header w d).n_block)
unfolding data_address total_size
data_address-disjoint k w d i j fits lt in_range = omega (
  arith,
  block_end (k.header w d).block_size i j lt,
  block_end (k.header w d).block_size j (k.header w d).n_block in_range,
)
