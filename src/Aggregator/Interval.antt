-- ===== src/Aggregator/Interval.antt =====
-- src/nccl_stats_aggregator.cc: `processHighFrequencyTelemetry`, the end of a high-frequency interval.
-- The clocks are arguments: `now` in milliseconds since some point, and `wall` since 1970. A number of
-- buckets is a `uint64_t`.
pub mod Swaps
pub mod Served
pub mod Safety
pub mod Missing
use Prim.Native.String.{String}
use gpuviz.Base.{
  ℕ, ◌+◌, ◌/◌, Bool, true, false, ◌==◌, ltb, Option, none, some, List, [], ◌∷◌, map, if◌then◌else◌,
}
use gpuviz.Base.Words.{add_u64, sub_u64}
use gpuviz.Base.Faults.{◌>>=◌}
use gpuviz.Double.{DoubleOps}
use gpuviz.Connection.{Connection, at, put}
use gpuviz.Connection.Interval.{
  NicVectors, swap_state_for_bw_stats_and_initialize_time, aggregate_bw_stats_from_last_interval,
  aggregate_variance_stats,
}
use gpuviz.MsecBandwidth.{find, insert, register_current_time_in_milliseconds}
use gpuviz.Aggregator.{Aggregator}
use gpuviz.Aggregator.Nic.{
  NicStats, Constants, aggregate_nic_stats_in_histogram, zero_out_nic, nccl_nic_send, nccl_nic_recv,
}

module _ {D : Type 0} where
  -- The buckets that no transaction can have reached.
  pub unused_buckets_of : Constants D → ℕ → ℕ → ℕ
  unused_buckets_of k bw_collection_start_time_milliseconds now =
      let duration = sub_u64 now bw_collection_start_time_milliseconds in
      let num_of_buckets_used = add_u64 (duration / k.bw_bucket_time_in_milliseconds) 1 in
      let unused_buckets =
        if ltb num_of_buckets_used k.bw_burst_count
        then sub_u64 k.bw_burst_count num_of_buckets_used
        else 0 in
      if bw_collection_start_time_milliseconds == 0 then k.bw_burst_count else unused_buckets

  pub new_start_time : Constants D → ℕ → ℕ
  new_start_time k now = sub_u64 now k.max_expected_latency_per_tx_milliseconds

  -- The first loop, over all connections.
  pub swap_all : ℕ → ℕ → List (ℕ × Connection D) → Option (List (ℕ × Connection D))
  swap_all start_time unused_buckets [] = some []
  swap_all start_time unused_buckets ((key, c) ∷ cs) = do
    c' ← swap_state_for_bw_stats_and_initialize_time c start_time unused_buckets
    cs' ← swap_all start_time unused_buckets cs
    some ((key, c') ∷ cs')

module _ {D : Type 0} ⦃o : DoubleOps D⦄ where
  abbrev pub vectors_of : ℕ → NicStats D → NicVectors D
  vectors_of direction nic = record {
    bw = at nic.nic_bw direction;
    offered_load = at nic.offered_load direction;
    latency = nic.latency;
  }

  abbrev pub put_vectors : ℕ → NicVectors D → NicStats D → NicStats D
  put_vectors direction v nic = record nic {
    nic_bw = put nic.nic_bw direction v.bw;
    offered_load = put nic.offered_load direction v.offered_load;
    latency = v.latency;
  }

  -- The inner loop of the second loop, over the two directions.
  pub aggregate_connection : ℕ → NicStats D → Connection D → Option (NicStats D × Connection D)
  aggregate_connection unused_buckets nic c = do
    (v, c') ←
        aggregate_bw_stats_from_last_interval c nccl_nic_send (vectors_of nccl_nic_send nic)
          unused_buckets
    let nic' = put_vectors nccl_nic_send v nic
    (v', c'') ←
        aggregate_bw_stats_from_last_interval c' nccl_nic_recv (vectors_of nccl_nic_recv nic')
          unused_buckets
    some (put_vectors nccl_nic_recv v' nic', c'')

  -- The second loop. A NIC that is not in the map is a null pointer.
  pub aggregate_all :
      ℕ
      → List (String × NicStats D)
      → List (ℕ × Connection D)
      → Option (List (String × NicStats D) × List (ℕ × Connection D))
  aggregate_all unused_buckets nics [] = some (nics, [])
  aggregate_all unused_buckets nics ((key, c) ∷ cs) = do
    nic ← find c.connection_id.local_nic_ip nics
    (nic', c') ← aggregate_connection unused_buckets nic c
    (nics', cs') ← aggregate_all unused_buckets (insert c.connection_id.local_nic_ip nic' nics) cs
    some (nics', (key, c') ∷ cs')

  -- The third loop.
  pub variance_all :
      ℕ → List (String × NicStats D) → List (ℕ × Connection D) → Option (List (ℕ × Connection D))
  variance_all unused_buckets nics [] = some []
  variance_all unused_buckets nics ((key, c) ∷ cs) = do
    nic ← find c.connection_id.local_nic_ip nics
    c' ← aggregate_variance_stats c nic.offered_load.at_0 unused_buckets
    cs' ← variance_all unused_buckets nics cs
    some ((key, c') ∷ cs')

  abbrev pub variance_if :
      Bool
      → ℕ
      → List (String × NicStats D)
      → List (ℕ × Connection D)
      → Option (List (ℕ × Connection D))
  variance_if false unused_buckets nics cs = some cs
  variance_if true unused_buckets nics cs = variance_all unused_buckets nics cs

  -- `zeroOutNicStats`.
  pub zero_out_nic_stats : List (String × NicStats D) → List (String × NicStats D)
  zero_out_nic_stats =
      map {A = String × NicStats D} {B = String × NicStats D} λ (ip, nic). (ip, zero_out_nic nic)

  -- `processHighFrequencyTelemetry`, where bandwidth is collected.
  pub process_interval : {L : Type 0} → ℕ → ℕ → Aggregator D L → Option (Aggregator D L)
  process_interval now wall a = do
    let k = a.constants
    let msec =
        if k.msec_bw_output_enabled
        then register_current_time_in_milliseconds wall now a.msec_bw
        else a.msec_bw
    let unused_buckets = unused_buckets_of k a.bw_collection_start_time_milliseconds now
    let start_time = new_start_time k now
    swapped ← swap_all start_time unused_buckets a.connection_handlers_map
    (nics, aggregated) ← aggregate_all unused_buckets a.nic_bw_map swapped
    live ← variance_if k.variance_hist_collection_enabled unused_buckets nics aggregated
    (carry, nics', msec') ←
        aggregate_nic_stats_in_histogram k a.rates unused_buckets
          (a.carry_over_bytes_from_last_generation, nics, msec)
    some (record a {
      bw_collection_start_time_milliseconds = start_time;
      connection_handlers_map = live;
      nic_bw_map = zero_out_nic_stats nics';
      carry_over_bytes_from_last_generation = carry;
      msec_bw = msec';
    })

  pub process_high_frequency_telemetry :
      {L : Type 0} → ℕ → ℕ → Aggregator D L → Option (Aggregator D L)
  process_high_frequency_telemetry now wall a =
      if a.constants.bw_hist_collection_enabled then process_interval now wall a else some a
