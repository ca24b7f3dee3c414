-- ===== src/Tools/CheckDatabuf/Swapped.antt =====
-- What -c makes.
use hashpipe.Base.{ℕ, ◌≤◌, ◌≡◌, refl, ap, ◌∙◌, sym, arith}
use hashpipe.Base.{true, false, Option, none, some, List, int_pattern, to_size_t, to_int}
use hashpipe.Ipc.{Ipc, IsIpc, databuf_bytes}
use hashpipe.IpcKey.{Env}
use hashpipe.Databuf.Create.{IsReady, request, create-IsReady}
use hashpipe.Tools.CheckDatabuf.{Check, create_asked, mebibytes, code_of, check}

module _ {W : Type 0} where
  returned : (r : Option ℕ × W) → (code_of r).0 ≡ 0 → (d : ℕ) × (r.0 ≡ some d)
  returned (none, w) e = absurd (omega (arith, e))
  returned (some d, w) e = (d, refl)

  world_of : (r : Option ℕ × W) → (code_of r).1 ≡ r.1
  world_of (none, w) = refl
  world_of (some d, w) = refl

module _ (k : Ipc) (l : IsIpc k) (env : Option (List ℕ) → Env) where
  -- A buffer whose header size is the number of blocks asked for, and whose number of blocks is the
  -- number of the buffer; its number is the header size.
  abbrev pub IsSwapped : Check → k.World → ℕ → k.World → Type 0
  IsSwapped c w d w' =
      (databuf_bytes ≤ to_size_t c.nblock)
      × IsReady k l
          (request k l (env c.keyfile) w (int_pattern c.instance_id)
            (int_pattern (to_int c.header_size)) (to_size_t c.nblock)
            (to_size_t (mebibytes c.blocksize)) (to_size_t c.db_id))
          w' d

  module _ (c : Check) (w : k.World) (asked : c.creates ≡ true) (goes : c.show_shmkey ≡ false) where
    -- On a kernel that keeps the laws of `IsIpc`, if the tool has read all its options without ending
    -- there (it ends with 0, and makes nothing, at -h or an unknown one), -c was given and -S was not,
    -- and it then ends with 0, there is a buffer, of free blocks, as hashpipe_databuf_create was
    -- asked for, but its header has as many bytes as -n gives blocks, which must be 96 or more, it has
    -- as many blocks as -d says, and its key is that of the buffer whose number is the header size.
    pub check-IsSwapped : (check k env c w).0 ≡ 0 → (d : ℕ) × IsSwapped c w d (check k env c w).1
    unfolding check create_asked
    check-IsSwapped e = rw (runs) (
        let (d, some_d) = returned (create_asked k env c w) (ap (λ r. r.0) (sym runs) ∙ e) in
        (
          d,
          rw (world_of (create_asked k env c w))
              (create-IsReady k l (env c.keyfile) w _ _ _ _ _ d some_d),
        ))
      where
        runs : check k env c w ≡ code_of (create_asked k env c w)
        runs = rw (check, goes, asked) refl
