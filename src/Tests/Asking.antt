-- ===== src/Tests/Asking.antt =====
-- hashpipe_check_status on the kernel of Ipc/Table.
use hashpipe.Base.{ℕ, ◌≡◌, refl, ◌==◌, bit_and, Bool-cases, inl, inr}
use hashpipe.Base.{true, false, none, some, List, [], ◌∷◌, pos}
use hashpipe.Ipc.Table.{table}
use hashpipe.IpcKey.{keyfile, ipckey, status_proj_id, status_key, key_error}
use hashpipe.StatusBuf.{codes, semname, default_name, name_suffix}
use hashpipe.StatusBuf.Chkinit.{IsReady}
use hashpipe.StatusBuf.Attach.{
  exists, exists_answer, status_attach, after_shmget, after_shmat, after_sem_open,
}
use hashpipe.Tools.{Numbers}
use hashpipe.Tools.CheckStatus.{
  StatusOption, stat_string, stat_clear, Cards, Floats, asked_defaults, Shell, get_status_buffer,
  edit, show_or_clear, finish, check_status,
}
use hashpipe.Tools.CheckStatus.Ready.{
  IsCleanNow, number_of_instance, last_attach, searched, finish-IsReady,
}
use hashpipe.Tools.CheckStatus.Edits.{check_status-untouched}
use hashpipe.Tests.Buffers.{plain}
use hashpipe.Tests.Names.{one_value, one_value-IsFits}
use hashpipe.StatusBuf.Records.{find_end-zero}
use hashpipe.Tests.Threads.{bytes_at, put_bytes, open_lock, blank_kernel, area, bytes_at-put_bytes}

abbrev clearing : Shell table
clearing = record {
  asked = record asked_defaults { clears = true };
  area = area;
  world = record blank_kernel { there = λ _. true };
  printed = [];
}

finish-code :
    (finish table bytes_at put_bytes open_lock one_value
      (λ v. plain)
      (λ l. some (pos 1))
      clearing).0
    ≡ 0
unfolding finish get_status_buffer show_or_clear edit exists exists_answer status_attach
    after_shmget after_shmat after_sem_open semname default_name name_suffix status_key
    status_proj_id ipckey keyfile
finish-code = refl

clean_now :
    IsCleanNow table bytes_at put_bytes open_lock one_value
      (λ v. plain)
      one_value-IsFits
      bytes_at-put_bytes
      clearing
      (λ l. some (pos 1))
      (searched table bytes_at put_bytes open_lock one_value
        (λ v. plain)
        one_value-IsFits
        bytes_at-put_bytes
        clearing
        (λ l. some (pos 1))).1
unfolding exists exists_answer status_key status_proj_id ipckey keyfile
clean_now = λ h. absurd (h (find_end-zero _ (λ o. refl)))

finish-IsReady_example :
    IsReady one_value one_value-IsFits
      (number_of_instance table bytes_at put_bytes open_lock one_value
        (λ v. plain)
        one_value-IsFits
        bytes_at-put_bytes
        clearing
        (λ l. some (pos 1)))
      (bytes_at
        (finish table bytes_at put_bytes open_lock one_value
          (λ v. plain)
          (λ l. some (pos 1))
          clearing).1
        (last_attach table bytes_at put_bytes open_lock one_value
          (λ v. plain)
          one_value-IsFits
          bytes_at-put_bytes
          clearing
          (λ l. some (pos 1))
          (searched table bytes_at put_bytes open_lock one_value
            (λ v. plain)
            one_value-IsFits
            bytes_at-put_bytes
            clearing
            (λ l. some (pos 1))).1).1.buf)
finish-IsReady_example =
    finish-IsReady table bytes_at put_bytes open_lock one_value (λ v. plain) one_value-IsFits
      bytes_at-put_bytes clearing (λ l. some (pos 1)) refl clean_now finish-code

abbrev numbers : Numbers
numbers = record { atoi = λ v. pos 0; strtol = λ v. pos 0 }

abbrev no_floats : Floats
no_floats = record { atof = λ v. 0; to_float = λ x. x }

abbrev cards : Cards
cards = record {
  hputs = λ b key v. b;
  hputr4 = λ b key v. b;
  hputr8 = λ b key v. b;
  hputi4 = λ b key v. b;
  hdel = λ b key. b;
  hgets = λ b key. none;
  hgetr8 = λ b key. none;
}

abbrev unkeyed : List StatusOption
unkeyed = stat_string (codes "value") ∷ stat_clear ∷ []

no_buffer :
    (i : ℕ)
    → exists table bytes_at put_bytes open_lock one_value plain blank_kernel i
      ≡ (false, blank_kernel)
unfolding exists exists_answer
no_buffer i = elim (Bool-cases (status_key plain (bit_and i 0x3f) == key_error)) [
  | inl bad ↦ rw (exists, bad) refl
  | inr good ↦ rw (exists, good) refl
]

check_status-untouched_example :
    (check_status table bytes_at put_bytes open_lock one_value
      (λ v. plain)
      cards
      numbers
      no_floats
      (λ l. some (pos 1))
      area
      unkeyed
      blank_kernel).1
    ≡ blank_kernel
check_status-untouched_example =
    check_status-untouched table bytes_at put_bytes open_lock one_value (λ v. plain) cards numbers
      no_floats (λ l. some (pos 1)) area unkeyed blank_kernel (λ v i. no_buffer i) refl
