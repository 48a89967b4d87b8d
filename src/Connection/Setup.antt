-- ===== src/Connection/Setup.antt =====
-- src/nccl_stats_aggregator.cc: the constructors of `NcclStatsConnectionStatistics`, which differ in
-- the identifier alone, with `initDistributionMap` and `initBWCollectionBuckets`.
pub mod Valid
pub mod Ready
use Prim.Native.Nat.{bit_and}
use gpuviz.Base.{
  ℕ, Bool, ◌&&◌, Option, none, some, List, [], ◌∷◌, ltb, ◌==◌, if◌then◌else◌, set, replicate,
}
use gpuviz.Double.{DoubleOps}
use gpuviz.Bucketer
use gpuviz.Bucketer.{Bucketer}
use gpuviz.Params.{BucketerParams}
use gpuviz.Stats.{is_set, mask}
use gpuviz.Stats.Idx
use gpuviz.Connection.{BwStats, DistributionMap, Config, Connection}

-- The bucketer parameters that the constructor reads from the environment.
pub record HistogramParams (D : Type 0) : Type 0 where
  pub latency : BucketerParams D
  pub size : BucketerParams D
  pub bandwidth : BucketerParams D
  pub latency_variance : BucketerParams D

module _ {D : Type 0} ⦃o : DoubleOps D⦄ where
  pub new_bucketer : BucketerParams D → Option (Bucketer D)
  new_bucketer p = some (Bucketer.new p.max_buckets p.scale p.base)

  -- Entry `j` after the first loop, for `j` below `TotalDistributionType`.
  pub init_slot : HistogramParams D → ℕ → ℕ → Option (Bucketer D)
  unfolding new_bucketer
  init_slot p bitmap j =
      if bit_and bitmap (mask j) == 0
      then none
      else if ltb j Idx.send_message_size
      then new_bucketer p.latency
      else new_bucketer p.size

  -- The test of the send direction names `SendMessageSize` twice.
  pub init_send_bandwidth : HistogramParams D → ℕ → Bool → DistributionMap D → DistributionMap D
  unfolding new_bucketer
  init_send_bandwidth p bitmap variance m =
      if is_set bitmap (mask Idx.send_message_size) && is_set bitmap (mask Idx.send_message_size)
      then (let m' = set m Idx.send_bandwidth (new_bucketer p.bandwidth) in
          if variance then set m' Idx.latency_variance (new_bucketer p.latency_variance) else m')
      else m

  pub init_recv_bandwidth : HistogramParams D → ℕ → DistributionMap D → DistributionMap D
  unfolding new_bucketer
  init_recv_bandwidth p bitmap m =
      if is_set bitmap (mask Idx.recv_latency_sw) && is_set bitmap (mask Idx.recv_message_size)
      then set m Idx.recv_bandwidth (new_bucketer p.bandwidth)
      else m

  pub init_distribution_map : HistogramParams D → ℕ → Bool → Bool → DistributionMap D
  unfolding init_slot init_send_bandwidth init_recv_bandwidth
  init_distribution_map p bitmap bw variance =
      let slot = init_slot p bitmap in
      let m =
        slot 0
        ∷ slot 1
        ∷ slot 2
        ∷ slot 3
        ∷ slot 4
        ∷ slot 5
        ∷ slot 6
        ∷ none
        ∷ none
        ∷ none
        ∷ none
        ∷ [] in
      if bw then init_recv_bandwidth p bitmap (init_send_bandwidth p bitmap variance m) else m

  -- `start_time_milliseconds` is left unset where bandwidth is not collected; nothing reads it then.
  pub init_bw_collection_buckets : ℕ → Bool → Bool → BwStats D
  init_bw_collection_buckets bw_burst_count bw variance = record {
    start_time_milliseconds = 0;
    bw = record { at_0 = zeros; at_1 = zeros };
    offered_load = record { at_0 = loads; at_1 = loads };
    latency = if bw && variance then replicate bw_burst_count (o.of_nat 0) else [];
  }
    where
      zeros : List D
      zeros = if bw then replicate bw_burst_count (o.of_nat 0) else []

      loads : List ℕ
      loads = if bw then replicate bw_burst_count 0 else []

  pub new : HistogramParams D → Config D → ℕ → Connection D
  unfolding init_distribution_map init_bw_collection_buckets
  new p c bw_burst_count =
      let m =
        init_distribution_map p c.distribution_collector_bitmap c.bw_hist_collection_enabled
          c.variance_hist_collection_enabled in
      let s =
        init_bw_collection_buckets bw_burst_count c.bw_hist_collection_enabled
          c.variance_hist_collection_enabled in
      record {
        config = c;
        generation = 0;
        generation_bw = 0;
        generation_for_reporter_read = 0;
        generation_bw_for_reporter_read = 0;
        distribution_map = record { at_0 = m; at_1 = m };
        bw_stats = record { at_0 = s; at_1 = s };
      }
