-- ===== src/Aggregator/Nic/Missing.antt =====
-- src/nccl_stats_aggregator.cc: a NIC that is made where the receive direction is not collected.
use gpuviz.Base.{◌≡◌, false, [], Bool-cases, inl, inr}
use gpuviz.Double.{DoubleOps}
use gpuviz.Params.{Env}
use gpuviz.Stats.{mask}
use gpuviz.Stats.Idx
use gpuviz.Connection.{is_bw_collection_enabled_in_bit_map}
use gpuviz.Aggregator.Nic.{NicStats, Constants, allocate_nic, allocate_nic_bw_aggregation_stats}

module _ {D : Type 0} ⦃o : DoubleOps D⦄ where
  pub allocate_nic-no_recv :
      (env : Env D) (k : Constants D) (speed : D) (nic : NicStats D)
      → is_bw_collection_enabled_in_bit_map k.distribution_collector_bitmap
          (mask Idx.recv_latency_sw)
          (mask Idx.recv_message_size)
        ≡ false
      → nic.nic_bw.at_1 ≡ []
      → (allocate_nic env k speed nic).nic_bw.at_1 ≡ []
  unfolding allocate_nic allocate_nic_bw_aggregation_stats
  allocate_nic-no_recv env k speed nic h e =
      elim (Bool-cases (
        is_bw_collection_enabled_in_bit_map k.distribution_collector_bitmap
          (mask Idx.send_latency_sw) (mask Idx.send_message_size))) [
            | inl s ↦ elim (Bool-cases k.variance_hist_collection_enabled) [
              | inl v ↦ rw (h, s, v) e
              | inr v ↦ rw (h, s, v) e
            ]
            | inr s ↦ rw (h, s) e
          ]
