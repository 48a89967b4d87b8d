-- ===== src/Connection/Tests.antt =====
-- Runs of src/nccl_stats_aggregator.cc over whole numbers: two buckets of a millisecond, one of them
-- carried over.
use gpuviz.Base.{ℕ, ◌+◌, ◌<◌, ◌≡◌, refl, true, false, none, some, [], ◌∷◌, arith, get_or}
use gpuviz.Base.Words.{add_u64, u64_mod}
use gpuviz.Double.{whole_ops}
use gpuviz.Stats.{PluginType, OpType, LatencyType, OperationMetric}
use gpuviz.Connection.{
  get_latency_distribution_type, get_size_distribution_type, get_current_bw_write_index,
}
use gpuviz.Connection.Notify.{notify_operation_measurement}
use gpuviz.Connection.Notify.Samples.{Recordable, AllHeld, IsNotified, first_refusal}
use gpuviz.Connection.Notify.Operation.{samples_of, notify_operation_measurement-IsNotified}
use gpuviz.Stats.Idx
use gpuviz.Bucketer
use gpuviz.Bucketer.{Bucketer, submit_all}
use gpuviz.Bucketer.Counts.{submit_all-nil}
use gpuviz.Connection.Report.{
  get_read_bucket_idx_and_swap_generation, get_connection_stats_from_read_bucket, reset_read_bucket,
}
use gpuviz.Connection.Report.Samples.{Halves, submit_samples, report-Halves}
use gpuviz.Connection.{
  BwStats, Config, Connection, DistributionMap, IsMirrored, nccl_send, nccl_recv,
  get_bw_distribution_type, get_current_write_distribution_map_index,
  get_current_bw_read_index_unlocked, get_bw_vec_valid_limit,
}
use gpuviz.Connection.Identifier.{ConnectionIdentifier, nvl_conn}
use gpuviz.Connection.Histograms.{Holds}
use gpuviz.Connection.Message.{
  get_connection_stats_proto_from_read_bucket, populate_nccl_stats_connection_identifier,
  assign_nccl_stats_connection,
}
use gpuviz.Connection.Message.Sizes.{reported, proto-reported}
use gpuviz.Message.{empty_stats, empty_identifier, empty_connection}
use gpuviz.Params.{BucketerParams}
use gpuviz.Connection.Setup
use gpuviz.Connection.Setup.{HistogramParams}
use gpuviz.Connection.Setup.Valid.{new-IsSized}
use gpuviz.Connection.Shape.{HasSize, IsSized}
use gpuviz.Connection.Notify.{start_idx, end_idx, update_bw_and_latency_stats}
use gpuviz.Connection.Notify.Window.{window_in_time, window_before_start}
use gpuviz.Connection.Notify.Effect.{IsRecorded, update_bw-IsRecorded}
use gpuviz.Connection.Interval.{
  NicVectors, carry_over, swap_state_for_bw_stats_and_initialize_time,
  aggregate_bw_stats_in_histogram, aggregate_bw_stats_from_last_interval,
}
use gpuviz.Connection.Interval.Swap.{carry_over_fault, swap-IsSwapped}
use gpuviz.Connection.Interval.Sums.{NicHasSize, IsSum, IsAggregated, aggregate-IsAggregated}
use gpuviz.Connection.Interval.Directions.{open_map, bandwidths_of_zeros, receive_bytes_lost}

abbrev identifier : ConnectionIdentifier
identifier = record {
  nccl_plugin_type = PluginType.net_plugin;
  nccl_plugin_name = "net";
  gpu_pci_addr = "";
  gpu_uuid = "";
  connection = nvl_conn;
  is_nvl_telemetry = false;
  channel_id = 0;
  local_nic_ip = "";
  remote_endpoint = "";
  local_endpoint = "";
  collective_type = "";
  collective_algorithm = "";
  description = "";
}

abbrev two_buckets : Config ℕ
two_buckets = record {
  connection_id = identifier;
  bw_bucket_time_in_milliseconds = 1;
  carry_over_buckets = 1;
  distribution_collector_bitmap = 127;
  baseline_latency_in_ns = 1;
  target_bw_per_nic_in_bits_per_sec = 1;
  bw_hist_collection_enabled = true;
  variance_hist_collection_enabled = true;
}

abbrev half : BwStats ℕ
half = record {
  start_time_milliseconds = 100;
  bw = record { at_0 = 4 ∷ 5 ∷ []; at_1 = 6 ∷ 7 ∷ [] };
  offered_load = record { at_0 = 4 ∷ 5 ∷ []; at_1 = 6 ∷ 7 ∷ [] };
  latency = 2 ∷ 3 ∷ [];
}

abbrev empty : Bucketer ℕ
empty = record {
  count = 0;
  sum = 0;
  min = u64_mod;
  max = 0;
  max_bucket = 2;
  scale = 1;
  base = 1;
  one_over_log_of_base = 1;
  buckets = record { upper_bound = 1; count = 0 } ∷ [];
}

abbrev histograms : DistributionMap ℕ
histograms =
    none ∷ none ∷ none ∷ none ∷ none ∷ none ∷ none ∷ some empty ∷ some empty ∷ none ∷ none ∷ []

abbrev connection : Connection ℕ
connection = record {
  config = two_buckets;
  generation = 0;
  generation_bw = 0;
  generation_for_reporter_read = 0;
  generation_bw_for_reporter_read = 0;
  distribution_map = record { at_0 = histograms; at_1 = histograms };
  bw_stats = record { at_0 = half; at_1 = half };
}

abbrev nic : NicVectors ℕ
nic = record { bw = 0 ∷ 0 ∷ []; offered_load = 0 ∷ 0 ∷ []; latency = 0 ∷ 0 ∷ [] }

half-HasSize : HasSize 2 true half
half-HasSize = record {
  send = refl;
  recv = refl;
  send_load = refl;
  recv_load = refl;
  latency = λ _. refl;
}

connection-IsMirrored : IsMirrored connection
connection-IsMirrored = record { hist = refl; bw = refl }

connection-IsSized : IsSized 2 connection
connection-IsSized = record {
  half_0 = half-HasSize;
  half_1 = half-HasSize;
  carried = omega arith;
  fits = omega arith;
}

nic-NicHasSize : NicHasSize 2 true nic
nic-NicHasSize = record { bw = refl; load = refl; latency = λ _. refl }

carry_over_fault_example : carry_over {D = ℕ} 3 0 (4 ∷ 5 ∷ []) (0 ∷ 0 ∷ []) ≡ none
carry_over_fault_example =
    carry_over_fault {D = ℕ} 0 3 0 (4 ∷ 5 ∷ []) (0 ∷ 0 ∷ []) (omega arith) (omega arith)

swap-IsSwapped_example :
    (swap_state_for_bw_stats_and_initialize_time connection 200 0
      ≡ some
          (swap-IsSwapped 0 2 connection 200 0 connection-IsMirrored
            (omega arith)
            connection-IsSized
            (omega arith)).0)
swap-IsSwapped_example =
    (swap-IsSwapped 0 2 connection 200 0 connection-IsMirrored (omega arith) connection-IsSized
      (omega arith)).1

window_in_time_example : (end_idx 1 103 100 9 ≡ 4) × (start_idx 1 103 100 2000000 ≡ 1)
window_in_time_example =
    window_in_time 1 103 100 2000000 9 (omega arith) (omega arith) (omega arith) (omega arith)

window_before_start_example : (start_idx 1 95 100 2000000 ≡ 0) × (end_idx 1 95 100 9 ≡ 9)
window_before_start_example =
    window_before_start 1 95 100 2000000 9 (omega arith) (omega arith) (omega arith) (omega arith)
      (omega arith)

update_bw-IsRecorded_example :
    (s' : BwStats ℕ) × (update_bw_and_latency_stats ⦃o = whole_ops⦄ connection half 10 1000000
        nccl_send 101
      ≡ some s')
    × HasSize 2 true s'
    × IsRecorded ⦃o = whole_ops⦄ connection 2 10 1000000 nccl_send 101 half s'
update_bw-IsRecorded_example =
    update_bw-IsRecorded ⦃o = whole_ops⦄ 2 connection half 10 1000000 nccl_send 101 half-HasSize
      (omega arith) (omega arith)

aggregate-IsAggregated_example :
    (nic' : NicVectors ℕ) × (c' : Connection ℕ) × (aggregate_bw_stats_in_histogram ⦃o = whole_ops⦄
        connection 1 nccl_recv nic 0
      ≡ some (nic', c'))
    × IsAggregated ⦃o = whole_ops⦄ half 2 nccl_recv Idx.recv_bandwidth 0 empty nic nic' connection
        c'
unfolding get_bw_distribution_type get_current_write_distribution_map_index
aggregate-IsAggregated_example =
    aggregate-IsAggregated ⦃o = whole_ops⦄ 2 connection 1 nccl_recv Idx.recv_bandwidth 0 empty nic
      connection-IsSized (omega arith) refl nic-NicHasSize refl

send_held : Holds (open_map ⦃o = whole_ops⦄ connection) Idx.send_bandwidth empty
unfolding get_current_write_distribution_map_index
send_held = refl

recv_held : Holds (open_map ⦃o = whole_ops⦄ connection) Idx.recv_bandwidth empty
unfolding get_current_write_distribution_map_index
recv_held = refl

receive_bytes_lost_example :
    (nic' : NicVectors ℕ) × (c1 : Connection ℕ) × (nic_recv' : NicVectors ℕ) × (c2 : Connection ℕ)
    × (aggregate_bw_stats_from_last_interval ⦃o = whole_ops⦄ connection nccl_send nic 0
        ≡ some (nic', c1))
    × (aggregate_bw_stats_from_last_interval ⦃o = whole_ops⦄ c1 nccl_recv nic 0
        ≡ some (nic_recv', c2))
    × IsSum ⦃o = whole_ops⦄ (4 ∷ 5 ∷ []) (4 ∷ 5 ∷ []) (2 ∷ 3 ∷ []) true 1 nic nic'
    × ((j : ℕ)
        → j < 1
        → (get_or nic_recv'.bw j 0 ≡ get_or nic.bw j 0 + 0)
          × (get_or nic_recv'.offered_load j 0 ≡ add_u64 (get_or nic.offered_load j 0) 0))
    × Holds
        (open_map ⦃o = whole_ops⦄ c2)
        Idx.recv_bandwidth
        (submit_all ⦃o = whole_ops⦄ empty (bandwidths_of_zeros ⦃o = whole_ops⦄ 1 1 (6 ∷ 7 ∷ [])))
unfolding get_current_bw_read_index_unlocked get_bw_vec_valid_limit
receive_bytes_lost_example =
    receive_bytes_lost ⦃o = whole_ops⦄ 2 connection 0 empty empty nic nic connection-IsSized
      (omega arith) nic-NicHasSize nic-NicHasSize send_held recv_held

-- Every histogram is there.
abbrev full : DistributionMap ℕ
full = some empty ∷ some empty ∷ some empty ∷ some empty ∷ some empty ∷ some empty ∷ some empty ∷ []

abbrev full_connection : Connection ℕ
full_connection = record connection { distribution_map = record { at_0 = full; at_1 = full } }

full_connection-Recordable : Recordable ⦃o = whole_ops⦄ 2 full_connection
full_connection-Recordable h = record {
  half_0 = half-HasSize;
  half_1 = half-HasSize;
  carried = omega arith;
  fits = omega arith;
}

-- A chunk of 10 bytes with a latency that is taken, and one that is refused.
abbrev chunk : OperationMetric
chunk = record {
  type = OpType.chunk_send;
  collective_id = 0;
  op_id = 0;
  op_sz = 10;
  op_start_time = 0;
  measurements =
      record { latency_type = LatencyType.software; latency_in_nanoseconds = 1000000 }
      ∷ record { latency_type = LatencyType.recv_ready; latency_in_nanoseconds = 5 }
      ∷ [];
}

full-AllHeld : AllHeld ⦃o = whole_ops⦄ OpType.chunk_send full
unfolding get_latency_distribution_type
full-AllHeld LatencyType.software t g = let e : 0 ≡ t = cc in rw (← e) (empty, refl)
full-AllHeld LatencyType.net_hw t g = let e : 2 ≡ t = cc in rw (← e) (empty, refl)
full-AllHeld LatencyType.recv_ready t g = absurd cc

notify_operation_measurement-IsNotified_example :
    (c' : Connection ℕ) × (notify_operation_measurement ⦃o = whole_ops⦄ full_connection 101 chunk
      ≡ some (first_refusal OpType.chunk_send chunk.measurements, c'))
    × IsNotified ⦃o = whole_ops⦄ 2 0 0 (samples_of ⦃o = whole_ops⦄ 5 chunk) full_connection c'
unfolding get_size_distribution_type get_current_write_distribution_map_index
    get_current_bw_write_index
notify_operation_measurement-IsNotified_example =
    notify_operation_measurement-IsNotified ⦃o = whole_ops⦄ 2 full_connection 101 chunk 5
      (omega arith) full_connection-Recordable refl (empty, refl) full-AllHeld

-- Histograms of five buckets, with no sample and with one.
abbrev new_histograms : DistributionMap ℕ
new_histograms = some (Bucketer.new ⦃o = whole_ops⦄ 4 1 1) ∷ []

abbrev used_histograms : DistributionMap ℕ
used_histograms =
    some (submit_all ⦃o = whole_ops⦄ (Bucketer.new ⦃o = whole_ops⦄ 4 1 1) (3 ∷ [])) ∷ []

abbrev new_connection : Connection ℕ
new_connection = record connection {
  distribution_map = record { at_0 = used_histograms; at_1 = new_histograms };
}

new_connection-Halves :
    Halves ⦃o = whole_ops⦄ 0 (Bucketer.new ⦃o = whole_ops⦄ 4 1 1) [] (3 ∷ []) new_connection
unfolding get_current_write_distribution_map_index
new_connection-Halves = record {
  written = refl;
  other = rw (submit_all-nil ⦃o = whole_ops⦄ (Bucketer.new ⦃o = whole_ops⦄ 4 1 1)) refl;
  mirrored = refl;
  bound = omega arith;
}

report-Halves_example :
    let b = Bucketer.new ⦃o = whole_ops⦄ 4 1 1 in
    let (idx, c1) = get_read_bucket_idx_and_swap_generation new_connection in
    (c2 : Connection ℕ) × (c3 : Connection ℕ) × (submit_samples ⦃o = whole_ops⦄ 0 (7 ∷ 8 ∷ []) c1
      ≡ some c2)
    × (submit_samples ⦃o = whole_ops⦄ 0 (9 ∷ []) c2 ≡ some c3)
    × Holds (get_connection_stats_from_read_bucket idx c2) 0 (submit_all ⦃o = whole_ops⦄ b (3 ∷ []))
    × Halves ⦃o = whole_ops⦄ 0 b [] (7 ∷ 8 ∷ 9 ∷ []) (reset_read_bucket ⦃o = whole_ops⦄ idx c3)
report-Halves_example =
    report-Halves ⦃o = whole_ops⦄ 0 4 1 1 (3 ∷ []) (7 ∷ 8 ∷ []) (9 ∷ []) new_connection
      new_connection-Halves

abbrev bucketer_params : BucketerParams ℕ
bucketer_params = record { max_buckets = 4; scale = 1; base = 1 }

abbrev histogram_params : HistogramParams ℕ
histogram_params = record {
  latency = bucketer_params;
  size = bucketer_params;
  bandwidth = bucketer_params;
  latency_variance = bucketer_params;
}

new-IsSized_example :
    let c = Setup.new ⦃o = whole_ops⦄ histogram_params two_buckets 9 in
    IsMirrored c × IsSized 9 c × (c.distribution_map.at_0 ≡ c.distribution_map.at_1)
new-IsSized_example =
    new-IsSized ⦃o = whole_ops⦄ histogram_params two_buckets 9 refl (omega arith) (omega arith)

abbrev latency_and_size : DistributionMap ℕ
latency_and_size =
    some (record empty { count = 1; sum = 3; min = 3; max = 3 })
    ∷ none
    ∷ none
    ∷ none
    ∷ none
    ∷ some (record empty { count = 1; sum = 4; min = 4; max = 4 })
    ∷ []

proto-reported_example :
    get_connection_stats_proto_from_read_bucket ⦃o = whole_ops⦄ identifier 1 2 1000 latency_and_size
      empty_stats
    ≡ some (record {
      connection_id =
          some
            (record (populate_nccl_stats_connection_identifier PluginType.net_plugin "net" "" "" 1 2
              empty_identifier) {
                connection = some (assign_nccl_stats_connection identifier empty_connection);
              });
      time_stamp = some 1000;
      histogram = reported ⦃o = whole_ops⦄ latency_and_size;
    })
proto-reported_example = proto-reported ⦃o = whole_ops⦄ identifier 1 2 1000 latency_and_size
