-- ===== src/Sink/Fifo.antt =====
-- The pipeline is a first-in, first-out queue of at most as many blocks as the buffer has.
use hashpipe.Base.{
  ℕ, ◌+◌, ◌%◌, ◌≤◌, ◌<◌, ◌≡◌, ◌≢◌, refl, ◌⊎◌, inl, inr, arith, ap, sym, ◌∙◌, subst, true, dec_lt,
  none,
}
use hashpipe.Ipc.{Ipc, IsIpc}
use hashpipe.Databuf.{Status, hashpipe_ok, hashpipe_timeout, hashpipe_err_gen, hashpipe_err_sys}
use hashpipe.Databuf.Locks.{wait_free, wait_filled, set_free, set_filled}
use hashpipe.Databuf.Blocks.{sem, IsFilled, Verdict}
use hashpipe.Databuf.{Request}
use hashpipe.Databuf.Create.{IsReady}
use native.Mathlib.Nat.{mod-lt, mod-eq_of_lt}
use hashpipe.Sink.{
  Sink, shows_init, Place, top, waiting, processing, enter_loop, next_block, after_wait, after_set,
  step_at, step,
}
use hashpipe.Sink.Pipeline.{
  Pipeline, Step, write_wait, write_blocked, write_block, write_done, wants, put, sink_top,
  sink_wait, sink_free,
}
use hashpipe.Sink.Ring.{
  Inv, found_free, block_written, marked_filled, found_filled, marked_free, elsewhere,
}
use hashpipe.Sink.Calls.{
  Leaves, wait_free-Leaves, wait_free-IsFree, wait_free-timeout, wait_filled-Leaves,
  wait_filled-Verdict, set_free-Leaves, set_filled-Leaves,
}

or_left : {P Q : Type 0} → P → (¬ P) ⊎ Q → Q
or_left p (inl f) = absurd (f p)
or_left p (inr q) = q

-- The kernel lets the threads mark every block of the buffer, free and filled, at any time.
abbrev pub AlwaysMarks : Ipc → ℕ → ℕ → Type 0
AlwaysMarks k d n =
    (w : k.World) (b : ℕ)
    → (k.header w d).n_block ≡ n
    → b < n
    → ((set_free k w d b).0 ≡ hashpipe_ok) × ((set_filled k w d b).0 ≡ hashpipe_ok)

module _ (k : Ipc) (l : IsIpc k) where
  module _ {A : Type 0} (d n : ℕ) (pos : 0 < n) where
    -- The buffer at `d` has `n` blocks, and its semaphores and contents are in order.
    pub record IsValid (s : Pipeline A k) : Type 0 where
      pub blocks : (k.header s.world d).n_block ≡ n
      pub inv :
          Inv n
            (sem k s.world d)
            s.content
            s.writer
            s.write_idx
            s.sink.place
            s.sink.block_idx
            s.sent
            s.written
            s.received
            s.read

    moved :
        (w : k.World) {f : ℕ → ℕ} {w' : k.World}
        → (k.header w d).n_block ≡ n
        → Leaves k l w d f w'
        → (t : Pipeline A k) → t.world ≡ w'
        → Inv n f t.content t.writer t.write_idx t.sink.place t.sink.block_idx t.sent t.written
            t.received t.read
        → IsValid t
    moved w b m t e i = record {
      blocks = ap (λ w. (k.header w d).n_block) e ∙ ap (λ h. h.n_block) m.header ∙ b;
      inv =
          subst
            (λ f.
              Inv n f t.content t.writer t.write_idx t.sink.place t.sink.block_idx t.sent t.written
                t.received t.read)
            (sym (ap (λ w. sem k w d) e ∙ m.sems)) i;
    }

    -- What the sink thread's step makes of a system, and a place for it.
    abbrev sunk : Pipeline A k → Sink × k.World → Pipeline A k
    sunk s (q, w) = record s { world = w; sink = q }

    at_place :
        (s : Pipeline A k) (p : Place) (P : Sink × k.World → Type 0)
        → s.sink.place ≡ p
        → P (step_at k p true d s.sink s.world)
        → P (step k true d s.sink s.world)
    unfolding step
    at_place s p P e h = subst (λ q. P (step_at k q true d s.sink s.world)) (sym e) h

    waited-IsValid :
        (s : Pipeline A k) (r : Status) (w' : k.World)
        → IsValid s
        → Leaves k l s.world d (sem k s.world d) w'
        → Verdict IsFilled (sem k s.world d s.sink.block_idx) r
        → r ≢ hashpipe_err_sys
        → IsValid (sunk s (after_wait k d s.sink (r, w')))
    unfolding after_wait
    waited-IsValid s hashpipe_ok w' v m f ne =
        moved s.world v.blocks m _ refl (found_filled n pos v.inv f)
    waited-IsValid s hashpipe_timeout w' v m f ne =
        moved s.world v.blocks m _ refl (elsewhere n pos v.inv waiting (λ e. cc))
    waited-IsValid s hashpipe_err_gen w' v m f ne = absurd f
    waited-IsValid s hashpipe_err_sys w' v m f ne = absurd (ne refl)

    freed-IsValid :
        (s : Pipeline A k)
        → IsValid s
        → s.received < s.sent
        → (set_free k s.world d s.sink.block_idx).0 ≡ hashpipe_ok
        → IsValid (record (sunk s (after_set k d s.sink (set_free k s.world d s.sink.block_idx))) {
          received = s.received + 1;
          read = put s.read s.received (s.content s.sink.block_idx);
        })
    unfolding after_set next_block
    freed-IsValid s v block e =
        let m = set_free-Leaves k l s.world d s.sink.block_idx e in
        let same : (k.header (set_free k s.world d s.sink.block_idx).1 d).n_block ≡ n =
          ap (λ h. h.n_block) m.header ∙ v.blocks in
        record {
          blocks = same;
          inv =
              subst
                (λ c.
                  Inv n (sem k (set_free k s.world d s.sink.block_idx).1 d) s.content s.writer
                    s.write_idx top ((s.sink.block_idx + 1) % c) s.sent s.written (s.received + 1)
                    (put s.read s.received (s.content s.sink.block_idx)))
                (sym same)
                (subst
                  (λ f.
                    Inv n f s.content s.writer s.write_idx top ((s.sink.block_idx + 1) % n) s.sent
                      s.written (s.received + 1)
                      (put s.read s.received (s.content s.sink.block_idx)))
                  (sym m.sems) (marked_free n pos v.inv block));
        }

    can_write : (s : Pipeline A k) → IsValid s → s.writer ≢ wants → s.sent < s.received + n
    can_write s v ne = elim v.inv.has_room [ inl e ↦ absurd (ne e) | inr lt ↦ lt ]

    -- Every step of the two threads keeps the buffer in order.
    pub Step-IsValid :
        {s t : Pipeline A k} → AlwaysMarks k d n → Step k d n s t → IsValid s → IsValid t
    unfolding step_at enter_loop
    Step-IsValid {s} marks (write_wait p e) v =
        moved s.world v.blocks (wait_free-Leaves k l s.world d s.write_idx) _ refl
          (found_free n pos v.inv (wait_free-IsFree k l s.world d s.write_idx e))
    Step-IsValid {s} marks (write_blocked p e) v =
        moved s.world v.blocks (wait_free-Leaves k l s.world d s.write_idx) _ refl v.inv
    Step-IsValid {s} marks (write_block x p) v = record {
      blocks = v.blocks;
      inv = block_written n pos v.inv x (can_write s v (λ e. cc));
    }
    Step-IsValid {s} marks (write_done p) v =
        moved s.world v.blocks
          (set_filled-Leaves k l s.world d s.write_idx
            (marks s.world s.write_idx v.blocks
              (subst (λ i. i < n) (sym v.inv.write_at) (mod-lt s.sent pos))).1)
          _ refl (marked_filled n pos v.inv (can_write s v (λ q. cc)) (or_left p v.inv.is_written))
    Step-IsValid {s} marks (sink_top p) v =
        at_place s top (λ o. IsValid (sunk s o)) p
          (record { blocks = v.blocks; inv = elsewhere n pos v.inv waiting (λ e. cc) })
    Step-IsValid {s} marks (sink_wait p e) v =
        at_place s waiting (λ o. IsValid (sunk s o)) p
          (waited-IsValid s _ _ v (wait_filled-Leaves k l s.world d s.sink.block_idx)
            (wait_filled-Verdict k l s.world d s.sink.block_idx) e)
    Step-IsValid {s} marks (sink_free p) v =
        at_place s processing
          (λ o. IsValid (record (sunk s o) {
            received = s.received + 1;
            read = put s.read s.received (s.content s.sink.block_idx);
          }))
          p
          (freed-IsValid s v (or_left p v.inv.has_block)
            (marks s.world s.sink.block_idx v.blocks
              (subst (λ i. i < n) (sym v.inv.read_at) (mod-lt s.received pos))).0)

    -- Any number of steps, from a buffer that was just made.
    pub data Reach (s : Pipeline A k) : Pipeline A k → Type 0 where
      here : Reach s s
      then_ : {t u : Pipeline A k} → Reach s t → Step k d n t u → Reach s u

    abbrev pub start : k.World → (ℕ → A) → Pipeline A k
    start w content = record {
      world = w;
      content = content;
      writer = wants;
      write_idx = 0;
      sink = record { place = top; block_idx = 0; shown = shows_init; nulblkin = none };
      sent = 0;
      written = content;
      received = 0;
      read = content;
    }

    start-IsValid :
        (q : Request k) (w : k.World) (content : ℕ → A)
        → IsReady k l q w d
        → q.n_block ≡ n
        → IsValid (start w content)
    start-IsValid q w content r e = record {
      blocks = r.sizes.blocks ∙ e;
      inv = record {
        write_at = zero_mod;
        read_at = zero_mod;
        behind = omega arith;
        room = omega arith;
        filled = λ j a b. absurd (omega arith);
        empty = λ j a b. r.all_free (j % n) (omega (arith, mod-lt j pos, e));
        kept = λ j a b. absurd (omega arith);
        has_room = inl refl;
        is_written = inl (λ x. cc);
        has_block = inl (λ x. cc);
        in_order = λ j a. absurd (omega arith);
      };
    }
      where
        zero_mod : 0 ≡ 0 % n
        zero_mod = grind (arith, mod-eq_of_lt {n = 0} {m = n} pos)

    Reach-IsValid : {s t : Pipeline A k} → AlwaysMarks k d n → Reach s t → IsValid s → IsValid t
    Reach-IsValid marks here v = v
    Reach-IsValid marks (then_ r st) v = Step-IsValid marks st (Reach-IsValid marks r v)

    -- With a kernel that keeps the laws of `IsIpc` and always lets the threads mark the blocks of the
    -- buffer (no thread looks at whether it did), from a buffer as `create` returns it, and whatever the
    -- order in which the upstream thread and the sink thread make their steps: the sink thread
    -- receives the blocks that were written, in that order, none lost, doubled or overwritten before
    -- it is read, and never more than the buffer has blocks are under way.
    pub pipeline-fifo :
        (q : Request k) (w : k.World) (content : ℕ → A) {t : Pipeline A k}
        → AlwaysMarks k d n
        → IsReady k l q w d
        → q.n_block ≡ n
        → Reach (start w content) t
        → ((j : ℕ) → j < t.received → t.read j ≡ t.written j)
          × (t.received ≤ t.sent)
          × (t.sent ≤ t.received + n)
    pipeline-fifo q w content marks r e steps =
        let v = Reach-IsValid marks steps (start-IsValid q w content r e) in
        (v.inv.in_order, v.inv.behind, v.inv.room)

    -- With a kernel that keeps the laws of `IsIpc` and always lets the threads mark the blocks of the
    -- buffer, from a buffer as `create` returns it: the two threads never wait for each other. In every state that is reached, the upstream thread's wait
    -- for its block does not time out, or the sink thread's wait for its block does not.
    pub no_deadlock :
        (q : Request k) (w : k.World) (content : ℕ → A) {t : Pipeline A k}
        → AlwaysMarks k d n
        → IsReady k l q w d
        → q.n_block ≡ n
        → Reach (start w content) t
        → ((wait_free k t.world d t.write_idx).0 ≢ hashpipe_timeout)
          ⊎ ((wait_filled k t.world d t.sink.block_idx).0 ≢ hashpipe_timeout)
    no_deadlock q w content {t} marks r e steps = elim (dec_lt t.received t.sent) [
      | yes some_ ↦ inr λ x.
          subst (Verdict IsFilled (sem k t.world d t.sink.block_idx)) x
            (wait_filled-Verdict k l t.world d t.sink.block_idx)
            (omega (
              arith,
              v.inv.filled t.received (omega arith) some_,
              ap (sem k t.world d) v.inv.read_at,
            ))
      | no none_ ↦ inl λ x. wait_free-timeout k l t.world d t.write_idx x (
          ap (sem k t.world d) v.inv.write_at
          ∙ v.inv.empty t.sent (omega arith) (omega (arith, v.inv.behind)))
    ]
      where
        v : IsValid t
        v = Reach-IsValid marks steps (start-IsValid q w content r e)
