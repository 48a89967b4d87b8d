-- ===== src/Aggregator/Interval/Missing.antt =====
-- src/nccl_stats_aggregator.cc: the end of an interval where the plugin asks for no distributions of
-- the receive direction.
use gpuviz.Base.{ℕ, ◌+◌, ◌<◌, ◌≡◌, ◌∙◌, ap, false, ◌&&◌, none, []}
use gpuviz.Double.{DoubleOps}
use gpuviz.Params.{Env}
use gpuviz.Stats.{mask, is_set}
use gpuviz.Stats.Idx
use gpuviz.Connection.{Connection, nccl_recv}
use gpuviz.Connection.Shape.{IsSized}
use gpuviz.Connection.Interval.{aggregate_bw_stats_from_last_interval}
use gpuviz.Connection.Interval.Missing.{missing_vector_faults, no_recv_lem, recv_type}
use gpuviz.Aggregator.Nic.{NicStats, Constants, allocate_nic}
use gpuviz.Aggregator.Nic.Missing.{allocate_nic-no_recv}
use gpuviz.Aggregator.Interval.{vectors_of}

module _ {D : Type 0} ⦃o : DoubleOps D⦄ where
  -- Where the plugin has not asked for both the latencies and the sizes of what is received, and some
  -- bucket of the interval has been used and is not carried over: the aggregation of the bytes that a
  -- connection has received accesses a vector of a new NIC past its end, since the connection has its
  -- vectors all the same.
  pub partial_bitmap_faults :
      (env : Env D) (k : Constants D) (speed : D) (nic : NicStats D) (c : Connection D) (unused : ℕ)
      → (is_set k.distribution_collector_bitmap (mask Idx.recv_latency_sw)
          && is_set k.distribution_collector_bitmap (mask Idx.recv_message_size))
        ≡ false
      → nic.nic_bw.at_1 ≡ []
      → IsSized k.bw_burst_count c
      → unused + c.carry_over_buckets < k.bw_burst_count
      → aggregate_bw_stats_from_last_interval c nccl_recv
          (vectors_of nccl_recv (allocate_nic env k speed nic))
          unused
        ≡ none
  partial_bitmap_faults env k speed nic c unused h e z u =
      let new = allocate_nic env k speed nic in
      ap
        (λ v.
          aggregate_bw_stats_from_last_interval c nccl_recv
            (record { bw = v; offered_load = new.offered_load.at_1; latency = new.latency }) unused)
        (allocate_nic-no_recv env k speed nic (no_recv_lem k.distribution_collector_bitmap h) e)
      ∙ missing_vector_faults k.bw_burst_count c nccl_recv Idx.recv_bandwidth unused
          new.offered_load.at_1 new.latency recv_type z u
