-- ===== src/Ibv/Init/Balanced.antt =====
-- Whatever call fails, all that hashpipe_ibv_init acquired before is released.
use hashpipe.Base.{ℕ, ◌≡◌, ◌≢◌, ◌⊎◌, inl, inr, refl, sym, ap, ◌∙◌, arith, ◌&&◌, not, if◌then◌else◌}
use hashpipe.Base.{Bool, true, false, none, []}
use hashpipe.Ibv.Shutdown.{Release, leave, close_device, Context}
use hashpipe.Ibv.Shutdown.Count.{tag, count, one_if}
use hashpipe.Ibv.Shutdown.Once.{holds, shutdown-once}
use hashpipe.Ibv.Init.{
  Calls, Progress, goes, stops, gain, one_qp, lacks_buffers, reset, acquire_all, Result, not_begun,
  ended, ibv_init,
}
use hashpipe.Ibv.Init.Gain.{IsCounted, ctx-IsGrown}
use hashpipe.Ibv.Init.Upto.{IsUpto, StepIs, Always, gain-IsUpto, next_place}
use hashpipe.Ibv.Init.Stages.{acquire_all-IsAfter}

-- What was acquired is in the context of a call that returns 0, and is released by one that does not.
abbrev pub IsBalanced : Release → Result → Type 0
IsBalanced r t =
    ((t.code ≡ 0) × (t.released ≡ []) × (count r t.acquired ≡ one_if (holds t.left r)))
    ⊎ ((t.code ≢ 0) × (count r t.released ≡ count r t.acquired))

start-IsUpto :
    (c : Context)
    → c.ibv_flows ≡ none
    → c.flow_dst_ips ≡ none
    → IsUpto Always 1 0 (
        gain close_device
          (λ c. record c { ctx = true })
          (record { context = reset c; gained = [] }))
unfolding reset count
start-IsUpto c f d =
    next_place 0 1 1 _
      (gain-IsUpto {P = Always} 0 0 close_device (λ c. record c { ctx = true })
        (record { context = reset c; gained = [] }) first refl (omega arith) (ctx-IsGrown (reset c))
        tt)
      (omega arith) tt
  where
    empty : (r : Release) → IsCounted r → holds (reset c) r ≡ false
    empty r n = ground (arith, f, d, n.not_send, n.not_recv)

    first : IsUpto Always 0 0 (record { context = reset c; gained = [] })
    first = record {
      exact = record { counts = λ r n. ap one_if (sym (empty r n)) };
      later = λ r n l. empty r n;
      keeps = tt;
    }

module _ (k : Calls) (failing : Release → Bool) (r : Release) (releases : (ip : ℕ) → r ≢ leave ip)
    (not_send : tag r ≢ 11) (not_recv : tag r ≢ 12) where
  ended-IsBalanced : (s : Progress) → StepIs Always 18 0 s → IsBalanced r (ended failing s)
  unfolding ended
  ended-IsBalanced (goes g) u =
      inl (refl, refl, u.exact.counts r (record { not_send = not_send; not_recv = not_recv }))
  ended-IsBalanced (stops g) e = inr (
    λ z. omega (arith, z),
    shutdown-once failing g.context r releases
        ∙ sym (e.counts r (record { not_send = not_send; not_recv = not_recv })),
  )

  not_begun-IsBalanced : (c : Context) → IsBalanced r (not_begun c)
  not_begun-IsBalanced c = inr (λ z. omega (arith, z), refl)

  -- On a context whose ibv_flows and flow_dst_ips are NULL, which the function itself does not set, whatever
  -- calls succeed, then and in the clean-up, and for every call that releases something, but for leaving a
  -- group and for munmap(2): if the function returns 0, nothing was released, and the context holds what
  -- was acquired, each thing once; if it does not, each thing that was acquired has been released exactly
  -- once, and nothing else.
  pub ibv_init-IsBalanced :
      (c : Context)
      → c.ibv_flows ≡ none
      → c.flow_dst_ips ≡ none
      → IsBalanced r (ibv_init k failing c)
  unfolding ibv_init
  ibv_init-IsBalanced c f d =
      go ((one_qp c).user_managed_flag && lacks_buffers (one_qp c)) (not k.interface_info)
        (not (k.gives close_device))
    where
      begun : Progress
      begun = acquire_all k (
          gain close_device (λ c. record c { ctx = true })
            (record { context = reset (one_qp c); gained = [] }))

      go :
          (x y z : Bool)
          → IsBalanced r (
              if x
              then not_begun (one_qp c)
              else if y
              then not_begun (one_qp c)
              else if z
              then not_begun (reset (one_qp c))
              else ended failing begun)
      go true y z = not_begun-IsBalanced (one_qp c)
      go false true z = not_begun-IsBalanced (one_qp c)
      go false false true = not_begun-IsBalanced (reset (one_qp c))
      go false false false =
          ended-IsBalanced begun (acquire_all-IsAfter k _ (start-IsUpto (one_qp c) f d)).is
