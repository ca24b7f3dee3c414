-- ===== src/Databuf/Create.antt =====
-- What `hashpipe_databuf_create` promises when it returns a buffer, and what it leaves alone.
use mathlib.Core.Option.{some-injective}
use hashpipe.Base.{
  ℕ, zero, suc, ◌+◌, ◌%◌, ◌^◌, ◌≤◌, ◌<◌, ◌≡◌, refl, ◌⊎◌, inl, inr, arith, ◌==◌, ltb, Bool-cases,
}
use hashpipe.Base.{
  Bool, true, false, ◌&&◌, Option, none, some, get_or, replicate, length-replicate, ap, ◌∙◌, sym,
  subst, pos,
}
use hashpipe.Ipc.{Answer, ok, err, Ipc, IsIpc, Header, databuf_bytes}
use hashpipe.IpcKey.{Env, key_error, databuf_key}
use hashpipe.Databuf.{
  page_align, total_size, segment_key, Segment, get_segment, Request, size_mismatch, fill_header,
  after_setall, after_semget, after_lock, after_attach, after_segment, create,
}
use hashpipe.Databuf.Blocks.{sem}

-- Without a wrap of `size_t`, both page sizes round the total up to the next multiple.
pub page_align-bounds :
    (total : ℕ)
    → total + 2 ^ 30 ≤ 2 ^ 64
    → (page_align 30 total % 2 ^ 30 ≡ 0)
      × (total ≤ page_align 30 total)
      × (page_align 30 total < total + 2 ^ 30)
      × (page_align 21 total % 2 ^ 21 ≡ 0)
      × (total ≤ page_align 21 total)
      × (page_align 21 total < total + 2 ^ 21)
unfolding page_align
page_align-bounds total h = omega arith

get_or-replicate : (n j : ℕ) → get_or (replicate n 0) j 0 ≡ zero
get_or-replicate zero j = refl
get_or-replicate (suc n) zero = refl
get_or-replicate (suc n) (suc j) = get_or-replicate n j

module _ (k : Ipc) (l : IsIpc k) where
  -- The buffer at `d` has the sizes asked for.
  pub record HasSizes (q : Request k) (h : Header) : Type 0 where
    pub header_sizes : h.header_size ≡ q.header_size
    pub block_sizes : h.block_size ≡ q.block_size
    pub blocks : h.n_block ≡ q.n_block

  -- A buffer that is returned: it has the sizes asked for, and all its blocks are free.
  pub record IsReady (q : Request k) (w : k.World) (d : ℕ) : Type 0 where
    pub sizes : HasSizes q (k.header w d)
    pub all_free : (j : ℕ) → j < q.n_block → sem k w d j ≡ 0

  -- A result: NULL, or a buffer that is ready.
  abbrev pub Made : Request k → Option ℕ × k.World → Type 0
  Made q (none, w) = Unit
  Made q (some d, w) = IsReady q w d

  after_setall-Made :
      (q : Request k) (w : k.World) (d s : ℕ) (r : Answer (Unit {0})) (w' : k.World)
      → k.setall w (pos s) (replicate q.n_block 0) ≡ (r, w')
      → HasSizes q (k.header w d)
      → (k.header w d).semid ≡ pos s
      → Made q (after_setall k d (r, w'))
  unfolding after_setall
  after_setall-Made q w d s (err x) w' e h m = tt
  after_setall-Made q w d s (ok u) w' e h m = record {
    sizes = subst (λ z. HasSizes q z) (sym same) h;
    all_free = λ j lt.
        ap (λ z. k.value w' z.semid j) same
        ∙ ap (λ z. k.value w' z j) m
        ∙ ap (λ z. k.value z.1 (pos s) j) (sym e)
        ∙ l.value-setall w (pos s) _ j (ap (λ z. z.0) e)
            (omega (arith, length-replicate {A = ℕ} q.n_block 0))
        ∙ get_or-replicate q.n_block j;
  }
    where
      same : k.header w' d ≡ k.header w d
      same = ap (λ z. k.header z.1 d) (sym e) ∙ l.header-setall w d (pos s) _

  after_semget-Made :
      (q : Request k) (w : k.World) (d : ℕ) (r : Answer ℕ) (w' : k.World)
      → k.semget w q.key q.n_block ≡ (r, w')
      → HasSizes q (k.header w d)
      → Made q (after_semget k d q.n_block (r, w'))
  unfolding after_semget
  after_semget-Made q w d (err x) w' e h = tt
  after_semget-Made q w d (ok s) w' e h =
      after_setall-Made q _ d s _ _ refl (subst (λ z. HasSizes q z) (sym stored) kept)
        (ap (λ z. z.semid) stored)
    where
      same : k.header w' d ≡ k.header w d
      same = ap (λ z. k.header z.1 d) (sym e) ∙ l.header-semget w d q.key q.n_block

      kept : HasSizes q (record (k.header w' d) { semid = pos s })
      kept = record {
        header_sizes = ap (λ z. z.header_size) same ∙ h.header_sizes;
        block_sizes = ap (λ z. z.block_size) same ∙ h.block_sizes;
        blocks = ap (λ z. z.n_block) same ∙ h.blocks;
      }

      stored :
          k.header (k.store w' d (record (k.header w' d) { semid = pos s })) d
          ≡ record (k.header w' d) { semid = pos s }
      stored = l.header-store w' d _

  after_lock-Made :
      (newly : Bool) (i d : ℕ) (q : Request k) (w : k.World) (r : Answer (Unit {0})) (w' : k.World)
      → k.shm_lock w i ≡ (r, w')
      → ((newly ≡ true) ⊎ HasSizes q (k.header w d))
      → Made q (after_lock k newly i d q (r, w'))
  unfolding after_lock fill_header
  after_lock-Made newly i d q w (err x) w' e h = tt
  after_lock-Made true i d q w (ok u) w' e h =
      after_semget-Made q _ d _ _ refl
        (rw l.header-store (record { header_sizes = refl; block_sizes = refl; blocks = refl }))
  after_lock-Made false i d q w (ok u) w' e (inl n) = cc
  after_lock-Made false i d q w (ok u) w' e (inr h) =
      after_semget-Made q w' d _ _ refl
        (subst (λ z. HasSizes q z) (sym (l.header-shm_lock w d i) ∙ ap (λ z. k.header z.1 d) e) h)

  no_mismatch :
      (q : Request k) (h : Header)
      → size_mismatch k h q.header_size q.block_size q.n_block ≡ false
      → HasSizes q h
  no_mismatch q h e = record {
    header_sizes = ground arith;
    block_sizes = ground arith;
    blocks = ground arith;
  }

  after_attach-Made :
      (newly verify : Bool) (i : ℕ) (q : Request k) (r : Answer ℕ) (w : k.World)
      → ((newly ≡ true) ⊎ (verify ≡ true))
      → Made q (after_attach k newly verify i q (r, w))
  unfolding after_attach
  after_attach-Made newly verify i q (err x) w h = tt
  after_attach-Made newly verify i q (ok d) w h =
      elim (Bool-cases
        (verify && size_mismatch k (k.header w d) q.header_size q.block_size q.n_block)) [
          | inl bad ↦ rw bad tt
          | inr good ↦ rw good (after_lock-Made newly i d q w _ _ refl (verified good h))
        ]
    where
      and_false : (a b : Bool) → a ≡ true → (a && b) ≡ false → b ≡ false
      and_false a b e f = ground arith

      verified :
          (verify && size_mismatch k (k.header w d) q.header_size q.block_size q.n_block) ≡ false
          → ((newly ≡ true) ⊎ (verify ≡ true))
          → (newly ≡ true) ⊎ HasSizes q (k.header w d)
      verified good (inl n) = inl n
      verified good (inr v) = inr (no_mismatch q _ (and_false verify _ v good))

  -- A segment comes out of the calls of shmget(2) as new, or as one to verify.
  segment_known :
      (w : k.World) (key total i : ℕ)
      → (get_segment k w key total).shmid ≡ ok i
      → ((get_segment k w key total).newly_created ≡ true)
        ⊎ ((get_segment k w key total).verify_sizing ≡ true)
  unfolding get_segment
  segment_known w key total i h = ground arith

  after_segment-Made :
      (q : Request k) (seg : Segment k)
      → ((i : ℕ) → seg.shmid ≡ ok i → (seg.newly_created ≡ true) ⊎ (seg.verify_sizing ≡ true))
      → Made q (after_segment k q seg)
  unfolding after_segment
  after_segment-Made q seg h = go seg.shmid refl
    where
      go :
          (r : Answer ℕ)
          → seg.shmid ≡ r
          → Made q (elim r [
            | err e ↦ (none, seg.world)
            | ok i ↦ after_attach k seg.newly_created seg.verify_sizing i q (k.shmat seg.world i)
          ])
      go (err x) e = tt
      go (ok i) e = after_attach-Made seg.newly_created seg.verify_sizing i q _ _ (h i e)

  Made-some :
      (q : Request k) (out : Option ℕ × k.World) (d : ℕ)
      → Made q out
      → out.0 ≡ some d
      → IsReady q out.1 d
  Made-some q (none, w) d m e = cc
  Made-some q (some c, w) d m e = subst (λ x. IsReady q w x) (some-injective _ _ e) m

  module _ (env : Env) (w : k.World)
      (instance_id databuf_id header_size block_size n_block : ℕ) where
    abbrev pub request : Request k
    request = record {
      key = segment_key (databuf_key env instance_id) databuf_id;
      header_size = header_size;
      block_size = block_size;
      n_block = n_block;
    }

    abbrev pub created : Option ℕ × k.World
    created = create k env w instance_id databuf_id header_size block_size n_block

    -- Either nothing is done, or the sizes and the key are right and a segment is sought.
    pub create-cases :
        (created ≡ (none, w))
        ⊎ ((databuf_bytes ≤ header_size)
            × (created
                ≡ after_segment k request (
                    get_segment k w
                      (segment_key (databuf_key env instance_id) databuf_id)
                      (total_size header_size block_size n_block))))
    unfolding create
    create-cases = elim (Bool-cases (ltb header_size databuf_bytes)) [
      | inl short ↦ inl (rw short)
      | inr long ↦ elim (Bool-cases (databuf_key env instance_id == key_error)) [
        | inl bad ↦ inl (rw (long, bad))
        | inr good ↦ inr (ground arith, rw (long, good))
      ]
    ]

    -- With a kernel that keeps the laws of `IsIpc`, if a buffer is returned, new or existing, the
    -- header is at least as large as the code's own, the buffer has the sizes asked for, and every
    -- block of it is free.
    pub create-IsReady :
        (d : ℕ) → created.0 ≡ some d → (databuf_bytes ≤ header_size) × IsReady request created.1 d
    create-IsReady d h = elim create-cases [
      | inl nothing ↦ absurd (none_some (ap (λ o. o.0) nothing) h)
      | inr (long, e) ↦ (
        long,
        Made-some request created d (rw e (after_segment-Made request _ (segment_known w _ _))) h,
      )
    ]
      where
        none_some : created.0 ≡ none → created.0 ≡ some d → ⊥
        none_some p q = cc
