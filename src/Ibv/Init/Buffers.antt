-- ===== src/Ibv/Init/Buffers.antt =====
-- The buffers keep the context exact.
use hashpipe.Base.{
  ℕ, ◌+◌, ◌*◌, ◌%◌, ◌^◌, ◌≡◌, inl, inr, refl, sym, ap, ◌∙◌, subst, arith, if◌then◌else◌, Bool-cases,
}
use hashpipe.Base.{Bool, true, false, ◌∷◌}
use hashpipe.Ibv.Shutdown.{
  send_pkts, recv_pkts, send_sges, recv_sges, Release, free, munmap_send, munmap_recv, Context,
}
use hashpipe.Ibv.Shutdown.Count.{same, count}
use hashpipe.Ibv.Init.{Calls, Got, goes, stops, map_send, map_recv, allocate, allocate_buffers}
use hashpipe.Ibv.Init.Gain
use hashpipe.Ibv.Init.Gain.{IsCounted, IsAlike}
use hashpipe.Ibv.Init.Upto.{
  IsUpto, IsAfter, Always, and_next-IsAfter, test-IsAfter, acquire-IsAfter, alike-IsExact,
  alike-IsUpto, next-IsAfter,
}

module _ (k : Calls) where
  -- Mapped memory is not counted.
  mapped :
      {P : Context → Type 0} (q : Release) (b : Bool) (g : Got) (c : Context) (n : ℕ)
      → ((r : Release) → IsCounted r → same r q ≡ false)
      → IsAlike g.context c
      → IsUpto P n 0 g
      → P c
      → IsAfter P n 0 (
          if b
          then goes (record { context = c; gained = q ∷ g.gained })
          else stops (record g { context = c }))
  unfolding count
  mapped q true g c n other a u p = record {
    is = record {
      exact = record {
        counts = λ r t.
            ap (λ b. (if b then 1 else 0) + count r g.gained) (other r t)
            ∙ omega (arith, (alike-IsExact g c u.exact a).counts r t);
      };
      later = (alike-IsUpto {P = Always} g c u a tt).later;
      keeps = p;
    };
  }
  mapped q false g c n other a u p = record { is = alike-IsExact g c u.exact a }

  not_mapped_send : (n : ℕ) (r : Release) → IsCounted r → same r (munmap_send n) ≡ false
  not_mapped_send n r c = ground (arith, c.not_send)

  not_mapped_recv : (n : ℕ) (r : Release) → IsCounted r → same r (munmap_recv n) ≡ false
  not_mapped_recv n r c = ground (arith, c.not_recv)

  -- The user does not manage the buffers.
  abbrev Own : Context → Type 0
  Own c = c.user_managed_flag ≡ false

  own_buffers : (g : Got) → IsUpto Own 9 0 g → IsAfter Always 13 0 (allocate k g)
  unfolding allocate map_send map_recv
  own_buffers g u =
      and_next-IsAfter {P = Own}
        (acquire-IsAfter k (free send_pkts) (λ c. record c { send_pkt_buf = true }) g u refl
          (Gain.send_pkts-IsGrown g.context u.keeps) u.keeps)
        (λ g u.
          and_next-IsAfter {P = Own}
            (acquire-IsAfter k (free recv_pkts) (λ c. record c { recv_pkt_buf = true }) g u refl
              (Gain.recv_pkts-IsGrown g.context u.keeps) u.keeps)
            (λ g u.
              and_next-IsAfter {P = Own}
                (acquire-IsAfter k (free send_sges) (λ c. record c { send_sge_buf = true }) g u refl
                  (Gain.send_sges-IsGrown g.context u.keeps) u.keeps)
                (λ g u.
                  and_next-IsAfter {P = Always}
                    (acquire-IsAfter k (free recv_sges) (λ c. record c { recv_sge_buf = true }) g u
                      refl (Gain.recv_sges-IsGrown g.context u.keeps) tt)
                    (λ g u.
                      and_next-IsAfter {P = Always}
                        (mapped
                          (munmap_send (g.context.send_pkt_num * g.context.pkt_size_max % 2 ^ 32))
                          (k.gives (
                            munmap_send (g.context.send_pkt_num * g.context.pkt_size_max % 2 ^ 32)))
                          g (record g.context { send_mr_buf = true }) 13
                          (λ r c.
                            not_mapped_send
                              (g.context.send_pkt_num * g.context.pkt_size_max % 2 ^ 32) r c)
                          (Gain.map_send-IsAlike g.context) u tt)
                        (λ g u.
                          and_next-IsAfter {P = Always} (test-IsAfter k.mlock_send g u) (λ g u.
                            and_next-IsAfter {P = Always}
                              (mapped
                                (munmap_recv
                                  (g.context.recv_pkt_num * g.context.pkt_size_max % 2 ^ 32))
                                (k.gives (
                                  munmap_recv
                                    (g.context.recv_pkt_num * g.context.pkt_size_max % 2 ^ 32)))
                                g (record g.context { recv_mr_buf = true }) 13
                                (λ r c.
                                  not_mapped_recv
                                    (g.context.recv_pkt_num * g.context.pkt_size_max % 2 ^ 32) r c)
                                (Gain.map_recv-IsAlike g.context) u tt)
                              (λ g u. test-IsAfter k.mlock_recv g u)))))))

  pub allocate_buffers-IsAfter :
      (g : Got) → IsUpto Always 9 0 g → IsAfter Always 13 0 (allocate_buffers k g)
  unfolding allocate_buffers
  allocate_buffers-IsAfter g u = elim (Bool-cases g.context.user_managed_flag) [
    | inl user ↦
        subst (IsAfter Always 13 0) (sym (chosen true user))
          (next-IsAfter 13 (record { is = u }) (omega arith) (λ c p. tt))
    | inr own ↦
        subst (IsAfter Always 13 0) (sym (chosen false own))
          (own_buffers g (alike-IsUpto g g.context u (record { alike = λ r n. refl }) own))
  ]
    where
      chosen :
          (b : Bool)
          → g.context.user_managed_flag ≡ b
          → allocate_buffers k g ≡ (if b then goes g else allocate k g)
      chosen b e = ap (λ x. if x then goes g else allocate k g) e
