-- ===== src/IpcKey/ProjId.antt =====
-- The project numbers, and which instances share a key.
use hashpipe.Base.{ℕ, ◌+◌, ◌%◌, ◌<◌, ◌≡◌, refl, ◌↔◌, ◌≢◌, arith, bit_or, bit_and_mask, ◌==◌, ==_iff}
use hashpipe.Base.{every_below, every_below-holds, none, true, ap, ◌∙◌}
use hashpipe.IpcKey.{Env, keyfile, ipckey, databuf_proj_id, status_proj_id, databuf_key, status_key}

databuf_table : every_below (λ r. bit_or r 0x80 == r + 0x80) 64 ≡ true
unfolding every_below
databuf_table = refl

status_table : every_below (λ r. bit_or r 0x40 == r + 0x40) 64 ≡ true
unfolding every_below
status_table = refl

databuf_proj_id_lem : (i : ℕ) → databuf_proj_id i ≡ i % 64 + 128
unfolding databuf_proj_id
databuf_proj_id_lem i =
    ap (λ r. bit_or r 0x80) (bit_and_mask 6 i)
    ∙ (==_iff _ _).0 (every_below-holds _ 64 databuf_table (i % 64) (omega arith))

status_proj_id_lem : (i : ℕ) → status_proj_id i ≡ i % 64 + 64
unfolding status_proj_id
status_proj_id_lem i =
    ap (λ r. bit_or r 0x40) (bit_and_mask 6 i)
    ∙ (==_iff _ _).0 (every_below-holds _ 64 status_table (i % 64) (omega arith))

-- A project number fits the 8 bits that ftok(3) uses; two instances share one exactly when they
-- agree in their 6 low bits, and no data buffer's number is a status buffer's.
pub proj_id_partition :
    (i j : ℕ)
    → (databuf_proj_id i < 256)
      × (status_proj_id i < 256)
      × ((databuf_proj_id i ≡ databuf_proj_id j) ↔ (i % 64 ≡ j % 64))
      × ((status_proj_id i ≡ status_proj_id j) ↔ (i % 64 ≡ j % 64))
      × (databuf_proj_id i ≢ status_proj_id j)
proj_id_partition i j = omega (arith, databuf_proj_id_lem, status_proj_id_lem)

status_fits : (j : ℕ) → status_proj_id j < 256
status_fits j = omega (arith, status_proj_id_lem j)

databuf_key_unset :
    (env : Env) (i : ℕ)
    → env.getenv "HASHPIPE_DATABUF_KEY" ≡ none
    → databuf_key env i ≡ ipckey env (databuf_proj_id i)
unfolding databuf_key
databuf_key_unset env i d = ground arith

status_key_unset :
    (env : Env) (i : ℕ)
    → env.getenv "HASHPIPE_STATUS_KEY" ≡ none
    → status_key env i ≡ ipckey env (status_proj_id i)
unfolding status_key
status_key_unset env i d = ground arith

-- Where ftok(3) gives different keys to different project numbers of 8 bits, and neither key is
-- overridden, a data buffer's base key is never a status buffer's.
pub databuf_key-ne-status_key :
    (env : Env) (i j : ℕ)
    → ((p q : ℕ) → p < 256 → q < 256 → env.ftok (keyfile env) p ≡ env.ftok (keyfile env) q → p ≡ q)
    → env.getenv "HASHPIPE_DATABUF_KEY" ≡ none
    → env.getenv "HASHPIPE_STATUS_KEY" ≡ none
    → databuf_key env i ≢ status_key env j
unfolding ipckey
databuf_key-ne-status_key env i j inj d s =
    rw (databuf_key_unset env i d, status_key_unset env j s)
      λ e. let (p, q, _, _, ne) = proj_id_partition i j in ne (inj _ _ p (status_fits j) e)
