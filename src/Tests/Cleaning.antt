-- ===== src/Tests/Cleaning.antt =====
-- hashpipe_clean_shmem on a kernel whose segments are removed.
use hashpipe.Base.{
  ℕ, ◌+◌, ◌≡◌, refl, ap, ◌∙◌, subst, arith, ◌==◌, if◌then◌else◌, Bool-cases, inl, inr, ◌||◌,
}
use hashpipe.Base.{Bool, true, false, none, some, [], ◌∷◌, ℤ, pos, eq_ℤ, replicate}
use hashpipe.Ipc.{Answer, ok, err, enoent, Header, Ipc}
use hashpipe.IpcKey.{keyfile, ipckey, databuf_proj_id, status_proj_id, databuf_key, status_key}
use hashpipe.Databuf.{attach, segment_key}
use hashpipe.StatusBuf.{semname, default_name, name_suffix}
use hashpipe.StatusBuf.Attach.{StatusArea, status_attach, after_shmget, after_shmat, after_sem_open}
use hashpipe.Tools.Clean.{
  Clean, or_1, remove_sems, remove_segment, remove_buffer, remove_buffers, clear_buffer,
  clean_attached, clean_named,
}
use hashpipe.Tools.Clean.Gone.{IsAbsent, IsRemoving}
use hashpipe.Tools.Clean.Whole.{clean_named-gone}
use hashpipe.Tests.Buffers.{plain}
use hashpipe.Tests.Names.{one_value}

-- The keys that have a segment.
abbrev Keys : Type 0
Keys = ℕ → Bool

abbrev found_in : Bool → ℕ → Answer ℕ
found_in b key = if b then ok key else err enoent

abbrev header_at : ℕ → Header
header_at a = record {
  data_type = "unknown";
  header_size = 96;
  block_size = 4096;
  n_block = 4;
  shmid = pos a;
  semid = pos (a + 1);
}

abbrev without : Keys → ℤ → Keys
without w s j = if eq_ℤ s (pos j) then false else w j

-- A segment's key is its identifier and its address; a segment that is to be made is there.
abbrev kernel : Ipc
kernel = record {
  World = Keys;
  shmget = λ w key size fs. (elim fs [ [] ↦ found_in (w key) key | _ ∷ _ ↦ ok key ], w);
  shmat = λ w i. (ok i, w);
  shmdt = λ w a. (ok tt, w);
  shm_lock = λ w i. (ok tt, w);
  shm_rmid = λ w s. (ok tt, without w s);
  header = λ w a. header_at a;
  store = λ w a h. w;
  clear = λ w a n. w;
  semget = λ w key n. (ok key, w);
  sem_rmid = λ w s. (ok tt, w);
  value = λ w s j. 0;
  semtimedop = λ w s ops t. (ok tt, w);
  setval = λ w s i v. (ok tt, w);
  setall = λ w s vs. (ok tt, w);
  getval = λ w s i. ok 0;
  getall = λ w s n. ok (replicate n 0);
}

found_key : (b : Bool) (key i : ℕ) → found_in b key ≡ ok i → key ≡ i
found_key true key i e = cc
found_key false key i e = cc

without-IsAbsent :
    (w : Keys) (s : ℤ) (key : ℕ) → IsAbsent kernel w key → IsAbsent kernel (without w s) key
without-IsAbsent w s key a = elim (Bool-cases (eq_ℤ s (pos key))) [
  | inl it ↦ record {
    errno = enoent;
    answer = ap (λ b. found_in (if b then false else w key) key) it;
  }
  | inr other ↦ record {
    errno = a.errno;
    answer = ap (λ b. found_in (if b then false else w key) key) other ∙ a.answer;
  }
]

is_itself : (n : ℕ) → (n == n) ≡ true
is_itself n = ground arith

kernel-IsRemoving : IsRemoving kernel
kernel-IsRemoving = record {
  absent-shmget = λ w key key' a. a;
  absent-shmat = λ w key i a. a;
  absent-shm_rmid = λ w key s a. without-IsAbsent w s key a;
  absent-sem_rmid = λ w key s a. a;
  found-shmget = λ w key i f. f;
  found-shmat = λ w key i f. f;
  found-sem_rmid = λ w key i s f. f;
  header-sem_rmid = λ w a s. refl;
  removed = λ w key i f e. record {
    errno = enoent;
    answer =
        subst (λ x. found_in (without w (pos x) key) key ≡ err enoent) (found_key (w key) key i f)
          (ap (λ b. found_in (if b then false else w key) key) (is_itself key));
  };
}

-- Buffers 1 and 3 are there.
abbrev two_buffers : Keys
two_buffers key = key == 128 || key == 130

abbrev cleaning : Clean
cleaning = record { instance_id = pos 0; delete_status = false; keyfile = none }

abbrev unattached : StatusArea
unattached = record { instance_id = 0; shmid = pos 0; lock = none; buf = 0 }

abbrev cleaned : ℕ × Keys
cleaned =
    clean_named kernel (λ w a offs. 0) (λ w a b. w) (λ w name. (some 9, w)) (λ w name. (ok tt, w))
      one_value plain cleaning unattached two_buffers (47 ∷ 116 ∷ [], 0)

cleaned-code : cleaned.0 ≡ 0
unfolding clean_named clean_attached clear_buffer remove_buffers remove_buffer remove_sems
    remove_segment or_1 attach segment_key databuf_key ipckey keyfile databuf_proj_id status_attach
    after_shmget after_shmat after_sem_open semname default_name name_suffix status_key
    status_proj_id
cleaned-code = refl

clean_named-gone_example : (attach kernel plain cleaned.1 0 3).0 ≡ none
clean_named-gone_example =
    clean_named-gone kernel kernel-IsRemoving (λ w a offs. 0) (λ w a b. w) (λ w name. (some 9, w))
      (λ w name. (ok tt, w)) one_value plain cleaning (λ i a b w s f. (s, refl, refl)) unattached
      two_buffers (47 ∷ 116 ∷ []) 0 3 (omega arith) (omega arith) cleaned-code
