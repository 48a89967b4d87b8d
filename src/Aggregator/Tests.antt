-- ===== src/Aggregator/Tests.antt =====
-- Runs of src/nccl_stats_aggregator.cc over whole numbers: one NIC with two buckets of a millisecond, of
-- which none is carried over, and two connections.
use gpuviz.Base.{
  ℕ, suc, if◌then◌else◌, ◌+◌, ◌≡◌, refl, true, false, none, some, List, [], ◌∷◌, ◌++◌, arith,
  Option, map,
}
use gpuviz.Base.Words.{u64_mod}
use gpuviz.Double.{whole_ops, whole_ops-IsStrictOrder}
use gpuviz.Stats.{PluginType}
use gpuviz.Bucketer.{Bucketer, submit_all}
use gpuviz.Connection.{BwStats, Config, Connection}
use gpuviz.Connection.Identifier.{ConnectionIdentifier, nvl_conn, conn_type}
use gpuviz.Message.{ConnectionStats}
use gpuviz.Executor.{AllStats}
use gpuviz.MsecBandwidth.{MsecBandwidth}
use gpuviz.Aggregator.{
  Aggregator, new, new_constants, add_connection, delete_connection, get_number_of_connections,
}
use gpuviz.Aggregator.Nic.{
  NicStats, Constants, Rates, limit_bytes, nccl_nic_send, calculate_and_update_histogram,
}
use gpuviz.Aggregator.Nic.Rounds.{Ready, bandwidth}
use gpuviz.Aggregator.Nic.Smoothing.{
  IsSmoothed, smoothed_nic, calculate_and_update_histogram-IsSmoothed,
}
use gpuviz.Aggregator.Queues.{empty_queues, Call, log, event, read, calls}
use text.Mathlib.Text.{◌==◌ as str_eq}
use gpuviz.Params.{Env}
use gpuviz.Params.Settings.{
  is_bandwidth_histogram_collection_enabled, is_millisecond_bandwidth_output_enabled,
  get_max_expected_latency_per_tx_in_milliseconds, get_bandwidth_bucket_time_in_milliseconds,
  get_bandwidth_burst_bucket_count, get_jitter_bandwidth_bucket_count,
}
use gpuviz.Base.Int.{pos}
use gpuviz.Connection.{nccl_recv, at}
use gpuviz.Connection.Interval.{aggregate_bw_stats_from_last_interval}
use gpuviz.Aggregator.Nic.{allocate_nic}
use gpuviz.Aggregator.Interval.{vectors_of}
use gpuviz.Aggregator.Interval.Missing.{partial_bitmap_faults}
use gpuviz.Aggregator.Calls.{call, add, interval}
use gpuviz.Aggregator.Calls.Settings.{IsWorkable}
use gpuviz.Aggregator.Calls.Safety.{Reachable, started, called, calls-IsOperable}
use gpuviz.Aggregator.Interval.Safety.{IsOperable}
use gpuviz.Aggregator.Queues.Bounded.{
  Represents, empty_queues-Represents, spec_calls, calls-Represents,
}
use gpuviz.Aggregator.Telemetry.{read_telemetry}
use gpuviz.Aggregator.Telemetry.Nics.{IsComplete-off}
use gpuviz.Aggregator.Telemetry.Reports.{nics_told, connections_told, handles}
use gpuviz.Aggregator.Nic.Conserved.{total_value, calculate_and_update_histogram-conserves}
use gpuviz.Aggregator.Telemetry.Deletion.{delete_connection-IsRead}
use gpuviz.Connection.Shape.{HasSize}
use gpuviz.Aggregator.Interval.Swaps.{IsUsable}

abbrev whole : ℕ → ℕ
whole n = n

abbrev constants : Constants ℕ
constants = record {
  bw_burst_count = 2;
  bw_bucket_time_in_milliseconds = 1;
  max_expected_latency_per_tx_milliseconds = 0;
  carry_over_buckets = 0;
  distribution_collector_bitmap = 127;
  bw_hist_collection_enabled = true;
  baseline_latency_in_ns = 1;
  variance_hist_collection_enabled = false;
  msec_bw_output_enabled = false;
}

abbrev rates : Rates ℕ
rates = record {
  nic_speed = 200;
  empr_nic_speed = 200;
  nic_speed_init = true;
  target_bw_per_nic_in_bits_per_sec = 1;
  max_bytes_per_bucket = 5;
}

abbrev empty : Bucketer ℕ
empty = record {
  count = 0;
  sum = 0;
  min = u64_mod;
  max = 0;
  max_bucket = 2;
  scale = 1;
  base = 1;
  one_over_log_of_base = 1;
  buckets = record { upper_bound = 1; count = 0 } ∷ [];
}

abbrev nic : NicStats ℕ
nic = record {
  nccl_plugin_type = PluginType.net_plugin;
  nccl_plugin_name = "net-ib";
  gpu_pci_addr = "";
  nic_ip = "10.0.0.1";
  conn_type = conn_type nvl_conn;
  nic_bw = record { at_0 = 7 ∷ 1 ∷ []; at_1 = 0 ∷ 0 ∷ [] };
  offered_load = record { at_0 = 0 ∷ 0 ∷ []; at_1 = 0 ∷ 0 ∷ [] };
  latency = 0 ∷ 0 ∷ [];
  nic_bw_stats = record { at_0 = some empty; at_1 = some empty };
  nic_bw_variance_stats = none;
  nic_latency_variance_stats = none;
}

abbrev msec : MsecBandwidth ℕ
msec = record {
  enabled = false;
  current_time = 0;
  batch_size_in_msec = 1;
  batch_size_in_samples = 1;
  bucket_size_in_msec = 1;
  batches = [];
  ip_address_to_nic_data_map = [];
  current_batch = 0;
  next_batch = 0;
  batch_times_set = false;
  pid = "1";
  num_rotations = 0;
  out_is_open = false;
  out = [];
  last_rotation_time = 0;
  file_rot_interval = 0;
  time_diff = 0;
}

nic-Ready : Ready ⦃o = whole_ops⦄ false 2 nic
nic-Ready = record {
  load = λ _. omega arith;
  latency = λ _. omega arith;
  bw_variance = λ h. cc;
  latency_variance = λ h. cc;
}

calculate_and_update_histogram-IsSmoothed_example :
    (nic' : NicStats ℕ) × (calculate_and_update_histogram ⦃o = whole_ops⦄ constants rates 0
        nccl_nic_send
        (0, nic, msec)
      ≡ some ((smoothed_nic ⦃o = whole_ops⦄ constants rates 2 nccl_nic_send 0 0 nic).1, nic', msec))
    × IsSmoothed ⦃o = whole_ops⦄ constants rates 2 nccl_nic_send 0 0 empty nic nic'
calculate_and_update_histogram-IsSmoothed_example =
    calculate_and_update_histogram-IsSmoothed ⦃o = whole_ops⦄ constants rates 2 0 nccl_nic_send 0
      nic msec msec empty whole_ops-IsStrictOrder refl (omega arith) (omega arith) refl nic-Ready
      refl

-- A bucket may hold 5 bytes: two of the 7 go to the next.
calculate_and_update_histogram-conserves_example :
    (ys : List ℕ) × (last : ℕ) × (nic' : NicStats ℕ) × (calculate_and_update_histogram
        ⦃o = whole_ops⦄ constants rates 0 nccl_nic_send
        (0, nic, msec)
      ≡ some (last, nic', msec))
    × (at nic'.nic_bw_stats nccl_nic_send
        ≡ some (submit_all ⦃o = whole_ops⦄ empty (map (bandwidth ⦃o = whole_ops⦄ constants) ys)))
    × (total_value ⦃o = whole_ops⦄ whole ys + whole last ≡ 8)
unfolding limit_bytes
calculate_and_update_histogram-conserves_example =
    calculate_and_update_histogram-conserves ⦃o = whole_ops⦄ whole constants rates 2 0 nccl_nic_send
      0 nic msec msec empty whole_ops-IsStrictOrder refl (refl, (λ h. refl), (refl, (λ h. cc), tt))
      refl (omega arith) (omega arith) refl nic-Ready refl

-- An entry of the log is a number, which is its size; an event can be parsed if it is not empty.
abbrev parse : List ℕ → Option ℕ
parse [] = none
parse (x ∷ xs) = some x

abbrev five_calls : List (Call ℕ)
five_calls = log 3 ∷ event (8 ∷ 9 ∷ []) ∷ event [] ∷ log 4 ∷ read ∷ []

calls-Represents_example :
    ((calls whole parse 1 five_calls (empty_queues 5)).0
      ≡ (spec_calls whole parse 1 5 five_calls (record { logs = []; events = [] })).0)
    × Represents whole 5
        (calls whole parse 1 five_calls (empty_queues 5)).1
        (spec_calls whole parse 1 5 five_calls (record { logs = []; events = [] })).1
calls-Represents_example =
    calls-Represents whole parse 1 5 five_calls (empty_queues 5) (record { logs = []; events = [] })
      (omega arith) (omega arith, (omega arith, (omega arith, (omega arith, (tt, tt)))))
      (empty_queues-Represents whole 5)

abbrev identifier : ConnectionIdentifier
identifier = record {
  nccl_plugin_type = PluginType.net_plugin;
  nccl_plugin_name = "net-ib";
  gpu_pci_addr = "";
  gpu_uuid = "";
  connection = nvl_conn;
  is_nvl_telemetry = false;
  channel_id = 0;
  local_nic_ip = "10.0.0.1";
  remote_endpoint = "";
  local_endpoint = "";
  collective_type = "";
  collective_algorithm = "";
  description = "";
}

abbrev config : Config ℕ
config = record {
  connection_id = identifier;
  bw_bucket_time_in_milliseconds = 1;
  carry_over_buckets = 0;
  distribution_collector_bitmap = 127;
  baseline_latency_in_ns = 1;
  target_bw_per_nic_in_bits_per_sec = 1;
  bw_hist_collection_enabled = true;
  variance_hist_collection_enabled = false;
}

abbrev half : BwStats ℕ
half = record {
  start_time_milliseconds = 100;
  bw = record { at_0 = 4 ∷ 5 ∷ []; at_1 = 6 ∷ 7 ∷ [] };
  offered_load = record { at_0 = 4 ∷ 5 ∷ []; at_1 = 6 ∷ 7 ∷ [] };
  latency = 2 ∷ 3 ∷ [];
}

abbrev connection : Connection ℕ
connection = record {
  config = config;
  generation = 0;
  generation_bw = 0;
  generation_for_reporter_read = 0;
  generation_bw_for_reporter_read = 0;
  distribution_map = record { at_0 = some empty ∷ none ∷ []; at_1 = some empty ∷ none ∷ [] };
  bw_stats = record { at_0 = half; at_1 = half };
}

abbrev aggregator : Aggregator ℕ ℕ
aggregator = record {
  constants = constants;
  rates = rates;
  connection_handlers_map = (7, connection) ∷ (9, connection) ∷ [];
  to_be_deleted_list = [];
  bw_collection_start_time_milliseconds = 100;
  carry_over_bytes_from_last_generation = 0;
  nic_bw_map = ("10.0.0.1", nic) ∷ [];
  queues = empty_queues 5;
  msec_bw = msec;
  plugin_major = 1;
  plugin_minor = 2;
}

delete_connection-IsRead_example :
    (a1 a2 : Aggregator ℕ ℕ) × (stats : AllStats ℕ (ConnectionStats ℕ) ℕ) × (delete_connection 9
        aggregator
      ≡ some a1)
    × (suc (get_number_of_connections a1) ≡ get_number_of_connections aggregator)
    × (read_telemetry ⦃o = whole_ops⦄ whole parse 1 1000 a1 ≡ some (stats, a2))
    × (stats.conn_stats
        ≡ nics_told ⦃o = whole_ops⦄ 1000 aggregator
          ++ (connections_told ⦃o = whole_ops⦄ 1000 aggregator ((7, connection) ∷ [])
              ++ connections_told ⦃o = whole_ops⦄ 1000 aggregator ((9, connection) ∷ [])))
    × (handles ⦃o = whole_ops⦄ a2 ≡ 7 ∷ [])
    × (a2.to_be_deleted_list ≡ [])
delete_connection-IsRead_example =
    delete_connection-IsRead ⦃o = whole_ops⦄ whole parse 1 1000 9 connection aggregator
      ((7, connection) ∷ []) [] refl (refl, tt) (IsComplete-off ⦃o = whole_ops⦄ nic, tt)

half-HasSize : HasSize 2 false half
half-HasSize = record {
  send = refl;
  recv = refl;
  send_load = refl;
  recv_load = refl;
  latency = λ h. cc;
}

connection-IsUsable : IsUsable 2 1 connection
connection-IsUsable = record {
  mirrored = record { hist = refl; bw = refl };
  generation = omega arith;
  sized = record {
    half_0 = half-HasSize;
    half_1 = half-HasSize;
    carried = omega arith;
    fits = omega arith;
  };
  small = omega arith;
}

-- Bandwidth is collected; else nothing is set.
abbrev collecting : Env ℕ
collecting = record {
  getenv = λ name.
      if str_eq name "NCCL_GPUVIZ_BANDWIDTH_HISTOGRAM_COLLECTION_ENABLE" then some "1" else none;
  simple_atoi64 = λ str. some (pos 1);
  simple_atoi32 = λ str. some (pos 1);
  simple_atod = λ str. some 1;
}

collecting-IsWorkable : IsWorkable ⦃o = whole_ops⦄ collecting 127
unfolding is_bandwidth_histogram_collection_enabled is_millisecond_bandwidth_output_enabled
    get_max_expected_latency_per_tx_in_milliseconds get_bandwidth_bucket_time_in_milliseconds
    get_bandwidth_burst_bucket_count get_jitter_bandwidth_bucket_count
collecting-IsWorkable = record {
  enabled = refl;
  bits = record { send_latency = refl; send_size = refl; recv_latency = refl; recv_size = refl };
  no_msec_output = refl;
  carried = omega arith;
}

abbrev fresh : Aggregator ℕ ℕ
fresh = new ⦃o = whole_ops⦄ collecting 127 msec

abbrev one_added : Aggregator ℕ ℕ
one_added =
    elim (add_connection ⦃o = whole_ops⦄ whole 1 collecting 7 (some "net") identifier fresh)
      as (λ _. Aggregator ℕ ℕ) [ none ↦ fresh | some a ↦ a ]

one_added-Reachable : Reachable ⦃o = whole_ops⦄ {E = ℕ} whole 1 1 parse collecting 127 one_added
unfolding call add_connection
one_added-Reachable = called (started msec) (add 7 (some "net") identifier) tt refl

calls-IsOperable_example :
    (a' : Aggregator ℕ ℕ) × (call ⦃o = whole_ops⦄ {E = ℕ} whole 1 1 parse collecting
        (interval 200 0)
        one_added
      ≡ some a')
    × IsOperable ⦃o = whole_ops⦄ a'
    × (a'.constants ≡ new_constants ⦃o = whole_ops⦄ collecting 127)
calls-IsOperable_example =
    calls-IsOperable ⦃o = whole_ops⦄ {E = ℕ} whole 1 1 parse collecting 127 one_added
      (interval 200 0) collecting-IsWorkable one_added-Reachable tt

-- The plugin asks for what is sent alone.
abbrev sent_alone : Constants ℕ
sent_alone = record constants { distribution_collector_bitmap = 33 }

abbrev new_nic : NicStats ℕ
new_nic = record nic { nic_bw = record { at_0 = []; at_1 = [] } }

partial_bitmap_faults_example :
    aggregate_bw_stats_from_last_interval ⦃o = whole_ops⦄ connection nccl_recv
      (vectors_of ⦃o = whole_ops⦄ nccl_recv
        (allocate_nic ⦃o = whole_ops⦄ collecting sent_alone 200 new_nic))
      1
    ≡ none
partial_bitmap_faults_example =
    partial_bitmap_faults ⦃o = whole_ops⦄ collecting sent_alone 200 new_nic connection 1 refl refl
      connection-IsUsable.sized (omega arith)
