-- ===== src/Ibv/Init/Queues.antt =====
-- The completion queues and the queue pairs keep the context exact.
use hashpipe.Base.{ℕ, ◌+◌, ◌≡◌, ◌<◌, inr, refl, sym, subst, arith}
use hashpipe.Base.{Bool, true, false, Option, none, some}
use hashpipe.Ibv.Shutdown.{
  qps, send_cqs, recv_cqs, send_pkts, recv_pkts, send_sges, recv_sges, flows, dst_ips, Release,
  destroy_qp, destroy_send_cq, destroy_recv_cq, dereg_send_mr, dereg_recv_mr, destroy_recv_cc,
  dealloc_pd, close_device, free, munmap_send, munmap_recv, close_socket, Context, is_there,
}
use hashpipe.Ibv.Init.{
  Calls, Got, Progress, each_step, with_entry, all_null, create_send_cqs, create_recv_cqs,
  create_qps,
}
use hashpipe.Ibv.Init.Gain
use hashpipe.Ibv.Init.Gain.{IsCounted, IsAlike}
use hashpipe.Ibv.Init.Upto.{
  IsUpto, IsAfter, Always, and_next-IsAfter, test-IsAfter, acquire-IsAfter, acquire_entry-IsAfter,
  each_step-IsAfter, alike-IsUpto, next-IsAfter,
}

pub not_there : (o : Option (ℕ → Bool)) → is_there o ≡ false → o ≡ none
not_there none e = refl
not_there (some f) e = cc

pub IsCounted-free : (m : hashpipe.Ibv.Shutdown.Memory) → IsCounted (free m)
IsCounted-free m = record { not_send = λ e. omega (arith, e); not_recv = λ e. omega (arith, e) }

-- A loop over an array that is there, one entry for each queue pair.
abbrev IsArray : (Context → Option (ℕ → Bool)) → ℕ → Context → Type 0
IsArray field n c = (is_there (field c) ≡ true) × (c.nqp ≡ n)

abbrev HasArray : (Context → Option (ℕ → Bool)) → Context → Type 0
HasArray field c = is_there (field c) ≡ true

-- The loop behind the allocation of an array at place `m`.
entries-IsAfter :
    (field : Context → Option (ℕ → Bool)) (m : ℕ) (step : ℕ → Got → Progress) (g : Got)
    → ((j : ℕ) (h : Got)
        → j < g.context.nqp
        → IsUpto (IsArray field g.context.nqp) m j h
        → IsAfter (IsArray field g.context.nqp) m (j + 1) (step j h))
    → IsUpto (HasArray field) m 0 g
    → IsAfter Always (m + 1) 0 (each_step g.context.nqp 0 step g)
entries-IsAfter field m step g t u =
    next-IsAfter (m + 1)
      (each_step-IsAfter g.context.nqp 0 step g (λ j h l v. t j h (omega (arith, l)) v)
        (alike-IsUpto g g.context u (record { alike = λ r n. refl }) (u.keeps, refl)))
      (omega arith) (λ c p. tt)

module _ (k : Calls) where
  pub create_send_cqs-IsAfter :
      (g : Got) → IsUpto Always 3 0 g → IsAfter Always 5 0 (create_send_cqs k g)
  unfolding create_send_cqs
  create_send_cqs-IsAfter g u =
      and_next-IsAfter {P = HasArray (λ c. c.send_cq)}
        (acquire-IsAfter k (free send_cqs) (λ c. record c { send_cq = all_null }) g u refl
          (Gain.send_cq-IsGrown g.context (
            not_there _
              (u.later (free send_cqs) (IsCounted-free send_cqs) (inr (refl, omega arith)))))
          refl)
        (λ h v.
          entries-IsAfter (λ c. c.send_cq) 4 _ h
            (λ j h' l w.
              acquire_entry-IsAfter k (destroy_send_cq j)
                (λ c. record c { send_cq = some (with_entry c.send_cq j) }) h' w refl refl
                (Gain.send_cqs-IsGrown h'.context j (subst (λ n. j < n) (sym w.keeps.1) l)
                  w.keeps.0)
                (refl, w.keeps.1))
            v)

  pub create_recv_cqs-IsAfter :
      (g : Got) → IsUpto Always 5 0 g → IsAfter Always 7 0 (create_recv_cqs k g)
  unfolding create_recv_cqs
  create_recv_cqs-IsAfter g u =
      and_next-IsAfter {P = HasArray (λ c. c.recv_cq)}
        (acquire-IsAfter k (free recv_cqs) (λ c. record c { recv_cq = all_null }) g u refl
          (Gain.recv_cq-IsGrown g.context (
            not_there _
              (u.later (free recv_cqs) (IsCounted-free recv_cqs) (inr (refl, omega arith)))))
          refl)
        (λ h v.
          entries-IsAfter (λ c. c.recv_cq) 6 _ h
            (λ j h' l w.
              and_next-IsAfter {P = IsArray (λ c. c.recv_cq) h.context.nqp}
                (acquire_entry-IsAfter k (destroy_recv_cq j)
                  (λ c. record c { recv_cq = some (with_entry c.recv_cq j) }) h' w refl refl
                  (Gain.recv_cqs-IsGrown h'.context j (subst (λ n. j < n) (sym w.keeps.1) l)
                    w.keeps.0)
                  (refl, w.keeps.1))
                (λ h'' x. test-IsAfter (k.notify j) h'' x))
            v)

  pub create_qps-IsAfter : (g : Got) → IsUpto Always 7 0 g → IsAfter Always 9 0 (create_qps k g)
  unfolding create_qps
  create_qps-IsAfter g u =
      and_next-IsAfter {P = HasArray (λ c. c.qp)}
        (acquire-IsAfter k (free qps) (λ c. record c { qp = all_null }) g u refl
          (Gain.qp-IsGrown g.context
            (not_there _ (u.later (free qps) (IsCounted-free qps) (inr (refl, omega arith)))))
          refl)
        (λ h v.
          entries-IsAfter (λ c. c.qp) 8 _ h
            (λ j h' l w.
              and_next-IsAfter {P = IsArray (λ c. c.qp) h.context.nqp}
                (acquire_entry-IsAfter k (destroy_qp j)
                  (λ c. record c { qp = some (with_entry c.qp j) }) h' w refl refl
                  (Gain.qps-IsGrown h'.context j (subst (λ n. j < n) (sym w.keeps.1) l) w.keeps.0)
                  (refl, w.keeps.1))
                (λ h'' x. test-IsAfter (k.modify j) h'' x))
            v)
