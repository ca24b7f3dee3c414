-- ===== src/Sink/Ring.antt =====
-- The blocks of a buffer as a ring: what holds of its semaphores and contents between the steps of
-- the thread that fills it and of the thread that empties it.
use native.Mathlib.Nat.{div-add-mod', mod-add-mod}
use hashpipe.Base.{
  ℕ, ◌+◌, ◌*◌, ◌/◌, ◌%◌, ◌≤◌, ◌<◌, ◌≡◌, ◌≢◌, refl, ◌⊎◌, inl, inr, arith, ap, sym, ◌∙◌, dec_lt,
}
use hashpipe.Base.{update}
use hashpipe.Sink.{Place, top, processing}
use hashpipe.Sink.Pipeline.{Writer, wants, writes, wrote, put}

-- Two numbers less than `n` apart do not fall together round a ring of `n`.
mod-ne : (n j k : ℕ) → j < k → k < j + n → j % n ≢ k % n
mod-ne n j k lt near e = elim (dec_lt (j / n) (k / n)) [
  | yes p ↦ omega (arith, div-add-mod' j n, div-add-mod' k n, more p, e)
  | no p ↦ omega (arith, div-add-mod' j n, div-add-mod' k n, less p, e)
]
  where
    more : j / n < k / n → (j / n) * n + n ≤ (k / n) * n
    more p = grind arith

    less : ¬ (j / n < k / n) → (k / n) * n ≤ (j / n) * n
    less p = grind arith

add-mod_self : (n j : ℕ) → (j + n) % n ≡ j % n
add-mod_self n j = grind arith

next_mod : (n j : ℕ) → (j % n + 1) % n ≡ (j + 1) % n
next_mod n j = grind (arith, mod-add-mod)

-- `sent` blocks have been marked filled and `received` marked free, of which the contents were
-- `written` and `read`. The filled blocks are those from `received` to `sent`, round the ring.
pub record Inv {A : Type 0} (n : ℕ) (vals : ℕ → ℕ) (content : ℕ → A) (writer : Writer)
    (write_idx : ℕ) (place : Place) (block_idx sent : ℕ) (written : ℕ → A) (received : ℕ)
    (read : ℕ → A) : Type 0 where
  pub write_at : write_idx ≡ sent % n
  pub read_at : block_idx ≡ received % n
  pub behind : received ≤ sent
  pub room : sent ≤ received + n
  pub filled : (j : ℕ) → received ≤ j → j < sent → 0 < vals (j % n)
  pub empty : (j : ℕ) → sent ≤ j → j < received + n → vals (j % n) ≡ 0
  pub kept : (j : ℕ) → received ≤ j → j < sent → content (j % n) ≡ written j
  pub has_room : (writer ≡ wants) ⊎ (sent < received + n)
  pub is_written : (writer ≢ wrote) ⊎ (content write_idx ≡ written sent)
  pub has_block : (place ≢ processing) ⊎ (received < sent)
  pub in_order : (j : ℕ) → j < received → read j ≡ written j

module _ {A : Type 0} (n : ℕ) (pos : 0 < n) {vals : ℕ → ℕ} {content : ℕ → A} {writer : Writer}
    {write_idx : ℕ} {place : Place} {block_idx sent : ℕ} {written : ℕ → A} {received : ℕ}
    {read : ℕ → A}
    (v : Inv n vals content writer write_idx place block_idx sent written received read) where
  -- The upstream thread found its block free.
  pub found_free :
      vals write_idx ≡ 0
      → Inv n vals content writes write_idx place block_idx sent written received read
  found_free free = record {
    write_at = v.write_at;
    read_at = v.read_at;
    behind = v.behind;
    room = v.room;
    filled = v.filled;
    empty = v.empty;
    kept = v.kept;
    has_room = inr room_left;
    is_written = inl (λ e. cc);
    has_block = v.has_block;
    in_order = v.in_order;
  }
    where
      same : ¬ (sent < received + n) → vals (received % n) ≡ vals write_idx
      same p =
          ap vals (
            sym (add-mod_self n received)
            ∙ ap (λ j. j % n) (omega (arith, v.room))
            ∙ sym v.write_at)

      room_left : sent < received + n
      room_left = elim (dec_lt sent (received + n)) [
        | yes p ↦ p
        | no p ↦
            absurd
              (omega (arith, v.filled received (omega arith) (omega (arith, v.room)), same p, free))
      ]

  -- It writes its block.
  pub block_written :
      (x : A)
      → sent < received + n
      → Inv n vals
          (put content write_idx x)
          wrote
          write_idx
          place
          block_idx
          sent
          (put written sent x)
          received
          read
  block_written x left = record {
    write_at = v.write_at;
    read_at = v.read_at;
    behind = v.behind;
    room = v.room;
    filled = v.filled;
    empty = v.empty;
    kept = λ j p q. ground (arith, v.kept j p q, v.write_at, mod-ne n j sent q (omega arith));
    has_room = inr left;
    is_written = inr (ground arith);
    has_block = v.has_block;
    in_order = λ j p. ground (arith, v.in_order j p, v.behind);
  }

  -- It marks its block filled.
  pub marked_filled :
      sent < received + n
      → content write_idx ≡ written sent
      → Inv n
          (update vals write_idx 1)
          content
          wants
          ((write_idx + 1) % n)
          place
          block_idx
          (sent + 1)
          written
          received
          read
  marked_filled left is = record {
    write_at = ap (λ j. (j + 1) % n) v.write_at ∙ next_mod n sent;
    read_at = v.read_at;
    behind = omega (arith, v.behind);
    room = omega arith;
    filled = λ j p q. elim (dec_lt j sent) [
      | yes before ↦ ground (arith, v.filled j p before)
      | no after ↦ ground (arith, v.write_at, ap (λ i. i % n) (last j q after))
    ];
    empty = λ j p q. ground (
      arith,
      v.empty j (omega arith) q,
      v.write_at,
      mod-ne n sent j (omega arith) (omega (arith, v.behind)),
    );
    kept = λ j p q. elim (dec_lt j sent) [
      | yes before ↦ v.kept j p before
      | no after ↦
          ap (λ i. content (i % n)) (last j q after)
          ∙ ap content (sym v.write_at)
          ∙ is
          ∙ ap written (sym (last j q after))
    ];
    has_room = inl refl;
    is_written = inl (λ e. cc);
    has_block = ground (arith, v.has_block);
    in_order = v.in_order;
  }
    where
      last : (j : ℕ) → j < sent + 1 → ¬ (j < sent) → j ≡ sent
      last j q after = omega arith

  -- The sink thread found its block filled.
  pub found_filled :
      0 < vals block_idx
      → Inv n vals content writer write_idx processing block_idx sent written received read
  found_filled full = record {
    write_at = v.write_at;
    read_at = v.read_at;
    behind = v.behind;
    room = v.room;
    filled = v.filled;
    empty = v.empty;
    kept = v.kept;
    has_room = v.has_room;
    is_written = v.is_written;
    has_block = inr block;
    in_order = v.in_order;
  }
    where
      block : received < sent
      block = elim (dec_lt received sent) [
        | yes p ↦ p
        | no p ↦
            absurd
              (omega (arith, v.empty received (omega arith) (omega arith), ap vals v.read_at, full))
      ]

  -- It marks its block free.
  pub marked_free :
      received < sent
      → Inv n
          (update vals block_idx 0)
          content
          writer
          write_idx
          top
          ((block_idx + 1) % n)
          sent
          written
          (received + 1)
          (put read received (content block_idx))
  marked_free block = record {
    write_at = v.write_at;
    read_at = ap (λ j. (j + 1) % n) v.read_at ∙ next_mod n received;
    behind = omega (arith, block);
    room = omega (arith, v.room);
    filled = λ j p q. ground (
      arith,
      v.filled j (omega arith) q,
      v.read_at,
      mod-ne n received j (omega arith) (omega (arith, v.room)),
    );
    empty = λ j p q. elim (dec_lt j (received + n)) [
      | yes before ↦ ground (arith, v.empty j p before)
      | no after ↦
          ground (arith, v.read_at, add-mod_self n received, ap (λ i. i % n) (next j q after))
    ];
    kept = λ j p q. v.kept j (omega arith) q;
    has_room = ground (arith, v.has_room);
    is_written = v.is_written;
    has_block = inl (λ e. cc);
    in_order = λ j p. elim (dec_lt j received) [
      | yes before ↦ ground (arith, v.in_order j before)
      | no after ↦
          let e : j ≡ received = omega arith in
          ground (arith, v.kept received (omega arith) block, v.read_at, ap written e)
    ];
  }
    where
      next : (j : ℕ) → j < received + 1 + n → ¬ (j < received + n) → j ≡ received + n
      next j q after = omega arith

  -- Another step of the sink thread, or of neither.
  pub elsewhere :
      (q : Place)
      → q ≢ processing
      → Inv n vals content writer write_idx q block_idx sent written received read
  elsewhere q ne = record {
    write_at = v.write_at;
    read_at = v.read_at;
    behind = v.behind;
    room = v.room;
    filled = v.filled;
    empty = v.empty;
    kept = v.kept;
    has_room = v.has_room;
    is_written = v.is_written;
    has_block = inl ne;
    in_order = v.in_order;
  }
