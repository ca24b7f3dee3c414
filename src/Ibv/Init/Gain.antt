-- ===== src/Ibv/Init/Gain.antt =====
-- What a context holds once a field of it is set.
use hashpipe.Base.{ℕ, ◌≡◌, ◌≢◌, ◌<◌, arith, ◌||◌}
use hashpipe.Base.{true, false, none, some}
use hashpipe.Ibv.Shutdown.{
  Release, Context, close_device, dealloc_pd, destroy_recv_cc, destroy_send_cq, destroy_recv_cq,
  destroy_qp, dereg_send_mr, dereg_recv_mr, close_socket, free, send_cqs, recv_cqs, qps, send_pkts,
  recv_pkts, send_sges, recv_sges, flows, dst_ips, is_there,
}
use hashpipe.Ibv.Shutdown.Count.{tag, same}
use hashpipe.Ibv.Shutdown.Once.{holds}
use hashpipe.Ibv.Init.{with_entry, all_null}

-- The memory that is mapped is left aside: after a failure the field is MAP_FAILED.
pub record IsCounted (r : Release) : Type 0 where
  pub not_send : tag r ≢ 11
  pub not_recv : tag r ≢ 12

-- `c'` holds what `c` holds and what `q` releases.
pub record IsGrown (q : Release) (c c' : Context) : Type 0 where
  pub grown : (r : Release) → IsCounted r → holds c' r ≡ (same r q || holds c r)

pub record IsAlike (c c' : Context) : Type 0 where
  pub alike : (r : Release) → IsCounted r → holds c' r ≡ holds c r

module _ (c : Context) where
  pub ctx-IsGrown : IsGrown close_device c (record c { ctx = true })
  ctx-IsGrown = record { grown = λ r n. ground arith }

  pub pd-IsGrown : IsGrown dealloc_pd c (record c { pd = true })
  pd-IsGrown = record { grown = λ r n. ground arith }

  pub recv_cc-IsGrown : IsGrown destroy_recv_cc c (record c { recv_cc = true })
  recv_cc-IsGrown = record { grown = λ r n. ground arith }

  pub send_mr-IsGrown : IsGrown dereg_send_mr c (record c { send_mr = true })
  send_mr-IsGrown = record { grown = λ r n. ground arith }

  pub recv_mr-IsGrown : IsGrown dereg_recv_mr c (record c { recv_mr = true })
  recv_mr-IsGrown = record { grown = λ r n. ground arith }

  pub send_cq-IsGrown :
      c.send_cq ≡ none → IsGrown (free send_cqs) c (record c { send_cq = all_null })
  send_cq-IsGrown e = record { grown = λ r n. ground (arith, e) }

  pub recv_cq-IsGrown :
      c.recv_cq ≡ none → IsGrown (free recv_cqs) c (record c { recv_cq = all_null })
  recv_cq-IsGrown e = record { grown = λ r n. ground (arith, e) }

  pub qp-IsGrown : c.qp ≡ none → IsGrown (free qps) c (record c { qp = all_null })
  qp-IsGrown e = record { grown = λ r n. ground (arith, e) }

  pub flows-IsGrown :
      c.ibv_flows ≡ none → IsGrown (free flows) c (record c { ibv_flows = all_null })
  flows-IsGrown e = record { grown = λ r n. ground (arith, e) }

  pub dst_ips-IsGrown : IsGrown (free dst_ips) c (record c { flow_dst_ips = some (λ i. 0) })
  dst_ips-IsGrown = record { grown = λ r n. ground arith }

  pub socket-IsGrown :
      (s : ℕ)
      → c.mcast_subscriber ≡ none
      → IsGrown (close_socket s) c (record c { mcast_subscriber = some s })
  socket-IsGrown s e = record { grown = λ r n. ground (arith, e) }

  module _ (own : c.user_managed_flag ≡ false) where
    pub send_pkts-IsGrown : IsGrown (free send_pkts) c (record c { send_pkt_buf = true })
    send_pkts-IsGrown = record { grown = λ r n. ground (arith, own) }

    pub recv_pkts-IsGrown : IsGrown (free recv_pkts) c (record c { recv_pkt_buf = true })
    recv_pkts-IsGrown = record { grown = λ r n. ground (arith, own) }

    pub send_sges-IsGrown : IsGrown (free send_sges) c (record c { send_sge_buf = true })
    send_sges-IsGrown = record { grown = λ r n. ground (arith, own) }

    pub recv_sges-IsGrown : IsGrown (free recv_sges) c (record c { recv_sge_buf = true })
    recv_sges-IsGrown = record { grown = λ r n. ground (arith, own) }

  -- An entry of an array.
  module _ (i : ℕ) (below : i < c.nqp) where
    pub send_cqs-IsGrown :
        is_there c.send_cq ≡ true
        → IsGrown (destroy_send_cq i) c (record c { send_cq = some (with_entry c.send_cq i) })
    send_cqs-IsGrown e = record { grown = λ r n. ground (arith, e, below) }

    pub recv_cqs-IsGrown :
        is_there c.recv_cq ≡ true
        → IsGrown (destroy_recv_cq i) c (record c { recv_cq = some (with_entry c.recv_cq i) })
    recv_cqs-IsGrown e = record { grown = λ r n. ground (arith, e, below) }

    pub qps-IsGrown :
        is_there c.qp ≡ true → IsGrown (destroy_qp i) c (record c { qp = some (with_entry c.qp i) })
    qps-IsGrown e = record { grown = λ r n. ground (arith, e, below) }

  pub map_send-IsAlike : IsAlike c (record c { send_mr_buf = true })
  map_send-IsAlike = record { alike = λ r n. ground (arith, n.not_send) }

  pub map_recv-IsAlike : IsAlike c (record c { recv_mr_buf = true })
  map_recv-IsAlike = record { alike = λ r n. ground (arith, n.not_recv) }
