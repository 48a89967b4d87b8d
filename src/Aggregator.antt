-- ===== src/Aggregator.antt =====
-- src/nccl_stats_aggregator.cc and .h: the state of `NcclStatsAggregator`, its constructor, and the
-- calls that add and delete a connection. A handle is the address of the connection, a number that the
-- allocator gives; a map is a list of pairs, in the order in which it is run through. The log function
-- is not modelled; the entry that a log message leaves is an argument.
pub mod Nic
pub mod Queues
pub mod Telemetry
pub mod Interval
pub mod Calls
mod Tests
use Prim.Native.String.{String}
use text.Mathlib.Text.{◌==◌ as str_eq, starts_with}
use gpuviz.Base.{
  ℕ, zero, ◌+◌, ◌*◌, ◌/◌, Bool, true, false, ◌||◌, ◌==◌, Option, none, some, List, [], ◌∷◌, ◌++◌,
  length, if◌then◌else◌,
}
use gpuviz.Base.Words.{u64_mod, add_u64}
use gpuviz.Base.Int.{ℤ, ◌+ℤ◌, of_i64}
use gpuviz.Base.Faults.{◌>>=◌, Status, ok, internal}
use gpuviz.Double.{DoubleOps}
use gpuviz.Params.{Env}
use gpuviz.Params.Settings.{
  get_bandwidth_burst_bucket_count, get_jitter_bandwidth_bucket_count,
  get_bandwidth_bucket_time_in_milliseconds, get_max_expected_latency_per_tx_in_milliseconds,
  is_bandwidth_histogram_collection_enabled, is_variance_detection_enabled,
  is_millisecond_bandwidth_output_enabled, get_non_aggregated_data_size_cap,
}
use gpuviz.Params.Buckets.{
  get_baseline_latency_in_nanosec, get_max_and_target_bw_per_nic_in_bits_per_sec,
  get_bucketer_params_for_latency_histogram, get_bucketer_params_for_size_histogram,
  get_bucketer_params_for_bw_histogram, get_bucketer_params_for_nic_latency_variance_histogram,
}
use gpuviz.Connection.{Connection, Config}
use gpuviz.Connection.Identifier.{ConnectionIdentifier, conn_type}
use gpuviz.Connection.Setup
use gpuviz.Connection.Setup.{HistogramParams}
use gpuviz.MsecBandwidth.{MsecBandwidth, find, insert, allocate_buffer_for_nic}
use Nic.{NicStats, Constants, Rates, allocate_nic}
use Queues.{EventQueues, empty_queues, add_log_msg}

pub record Aggregator (D L : Type 0) : Type 0 where
  pub constants : Constants D
  pub rates : Rates D
  pub connection_handlers_map : List (ℕ × Connection D)
  pub to_be_deleted_list : List (ℕ × Connection D)
  pub bw_collection_start_time_milliseconds : ℕ
  pub carry_over_bytes_from_last_generation : D
  pub nic_bw_map : List (String × NicStats D)
  pub queues : EventQueues L
  pub msec_bw : MsecBandwidth D
  pub plugin_major : ℕ
  pub plugin_minor : ℕ

module _ {D : Type 0} ⦃o : DoubleOps D⦄ where
  -- The constructor's initialisers. The time of a bucket is positive.
  pub new_constants : Env D → ℕ → Constants D
  new_constants env bitmap =
      let bucket_time = of_i64 (get_bandwidth_bucket_time_in_milliseconds env) in
      let max_latency = of_i64 (get_max_expected_latency_per_tx_in_milliseconds env) in
      record {
        bw_burst_count =
            of_i64 (get_bandwidth_burst_bucket_count env +ℤ get_jitter_bandwidth_bucket_count env);
        bw_bucket_time_in_milliseconds = bucket_time;
        max_expected_latency_per_tx_milliseconds = max_latency;
        carry_over_buckets = max_latency / bucket_time;
        distribution_collector_bitmap = bitmap;
        bw_hist_collection_enabled = is_bandwidth_histogram_collection_enabled env;
        baseline_latency_in_ns = get_baseline_latency_in_nanosec env;
        variance_hist_collection_enabled = is_variance_detection_enabled env;
        msec_bw_output_enabled = is_millisecond_bandwidth_output_enabled env;
      }

  pub new : {L : Type 0} → Env D → ℕ → MsecBandwidth D → Aggregator D L
  new env bitmap msec = record {
    constants = new_constants env bitmap;
    rates = record {
      nic_speed = o.of_nat 0;
      empr_nic_speed = o.of_nat 0;
      nic_speed_init = false;
      target_bw_per_nic_in_bits_per_sec = o.of_nat 0;
      max_bytes_per_bucket = o.of_nat 0;
    };
    connection_handlers_map = [];
    to_be_deleted_list = [];
    bw_collection_start_time_milliseconds = 0;
    carry_over_bytes_from_last_generation = o.of_nat 0;
    nic_bw_map = [];
    queues = empty_queues (get_non_aggregated_data_size_cap env);
    msec_bw = msec;
    plugin_major = 0;
    plugin_minor = 0;
  }

  -- The speeds of the NIC that belong to a plugin's name.
  pub init_speeds : String → Rates D → Rates D
  init_speeds nccl_plugin_name r =
      if starts_with nccl_plugin_name "profiler" || str_eq nccl_plugin_name "net-ib"
      then record r {
        nic_speed_init = true;
        nic_speed = o.of_nat 400;
        empr_nic_speed = o.of_nat 385;
      }
      else record r {
        nic_speed_init = if str_eq nccl_plugin_name "FasTrak" then true else r.nic_speed_init;
        nic_speed = o.of_nat 200;
        empr_nic_speed = o.of_nat 200;
      }

  pub init_rates : Env D → ℕ → String → Rates D → Rates D
  init_rates env bucket_time nccl_plugin_name r =
      let r1 = init_speeds nccl_plugin_name r in
      let (max_bw, target_bw) =
        get_max_and_target_bw_per_nic_in_bits_per_sec env r1.nic_speed r1.empr_nic_speed in
      record r1 {
        target_bw_per_nic_in_bits_per_sec = target_bw;
        max_bytes_per_bucket = o.div (o.mul max_bw (o.of_nat bucket_time)) (o.of_nat (8 * 1000));
      }

  module _ {L : Type 0} where
    -- `InitConstants`; `warning` is the log entry for a plugin whose speed is not known.
    pub init_constants : (L → ℕ) → L → Env D → String → Aggregator D L → Aggregator D L
    init_constants space_used warning env nccl_plugin_name a =
        let known = starts_with nccl_plugin_name "profiler" || str_eq nccl_plugin_name "net-ib" in
        if a.rates.nic_speed_init then a else record a {
          rates =
              init_rates env a.constants.bw_bucket_time_in_milliseconds nccl_plugin_name a.rates;
          queues = if known then a.queues else add_log_msg space_used warning a.queues;
        }

    -- `allocateBWStats`.
    pub allocate_bw_stats : Env D → ConnectionIdentifier → Aggregator D L → Aggregator D L
    allocate_bw_stats env c a =
        let nic : NicStats D = record {
          nccl_plugin_type = c.nccl_plugin_type;
          nccl_plugin_name = c.nccl_plugin_name;
          gpu_pci_addr = c.gpu_pci_addr;
          nic_ip = c.local_nic_ip;
          conn_type = conn_type c.connection;
          nic_bw = record { at_0 = []; at_1 = [] };
          offered_load = record { at_0 = []; at_1 = [] };
          latency = [];
          nic_bw_stats = record { at_0 = none; at_1 = none };
          nic_bw_variance_stats = none;
          nic_latency_variance_stats = none;
        } in
        if a.constants.bw_hist_collection_enabled
        then record a {
          nic_bw_map =
              insert c.local_nic_ip (allocate_nic env a.constants a.rates.nic_speed nic)
                a.nic_bw_map;
          msec_bw =
              if a.constants.msec_bw_output_enabled
              then allocate_buffer_for_nic c.local_nic_ip a.msec_bw
              else a.msec_bw;
        }
        else a

    -- The members that a new connection gets.
    pub config_of : ConnectionIdentifier → Aggregator D L → Config D
    config_of c a = record {
      connection_id = c;
      bw_bucket_time_in_milliseconds = a.constants.bw_bucket_time_in_milliseconds;
      carry_over_buckets = a.constants.carry_over_buckets;
      distribution_collector_bitmap = a.constants.distribution_collector_bitmap;
      baseline_latency_in_ns = a.constants.baseline_latency_in_ns;
      target_bw_per_nic_in_bits_per_sec = a.rates.target_bw_per_nic_in_bits_per_sec;
      bw_hist_collection_enabled = a.constants.bw_hist_collection_enabled;
      variance_hist_collection_enabled = a.constants.variance_hist_collection_enabled;
    }

    pub histogram_params_of : Env D → Aggregator D L → HistogramParams D
    histogram_params_of env a = record {
      latency = get_bucketer_params_for_latency_histogram env;
      size = get_bucketer_params_for_size_histogram env;
      bandwidth = get_bucketer_params_for_bw_histogram env a.rates.nic_speed;
      latency_variance = get_bucketer_params_for_nic_latency_variance_histogram env;
    }

    -- `addConnection` and `addConnectionV4`; `key` is the address of the new object, the optional text is
    -- the plugin's pointer to its name, and `c` the copied identifier. The pointer goes to
    -- `InitConstants` as a `string_view`, which reads the text: a null pointer is a fault.
    pub add_connection :
        (L → ℕ)
        → L
        → Env D
        → ℕ
        → Option String
        → ConnectionIdentifier
        → Aggregator D L
        → Option (Aggregator D L)
    add_connection space_used warning env key none c a = none
    add_connection space_used warning env key (some nccl_plugin_name) c a =
        let a1 = init_constants space_used warning env nccl_plugin_name a in
        let handle =
          Setup.new (histogram_params_of env a1) (config_of c a1) a1.constants.bw_burst_count in
        let a2 = elim (find c.local_nic_ip a1.nic_bw_map) as (λ _. Aggregator D L) [
          | none ↦ allocate_bw_stats env c a1
          | some _ ↦ a1
        ] in
        some (record a2 { connection_handlers_map = (key, handle) ∷ a2.connection_handlers_map })

-- The entry of a map that has a key, and the map without it.
pub extract :
    {D : Type 0} → ℕ → List (ℕ × Connection D) → Option (Connection D × List (ℕ × Connection D))
extract key [] = none
extract key ((k, c) ∷ m) =
    let rest = extract key m in
    if k == key then some (c, m) else rest >>= λ r. some (r.0, (k, c) ∷ r.1)

module _ {D L : Type 0} where
  -- `deleteConnection`. With an unknown handle the code puts a null pointer into the list, which the
  -- next read follows; here that is a fault at once.
  pub delete_connection : ℕ → Aggregator D L → Option (Aggregator D L)
  delete_connection key a = do
    (c, m) ← extract key a.connection_handlers_map
    some (record a {
      connection_handlers_map = m;
      to_be_deleted_list = a.to_be_deleted_list ++ ((key, c) ∷ []);
    })

  pub get_number_of_connections : Aggregator D L → ℕ
  get_number_of_connections a = length a.connection_handlers_map

  pub set_plugin_version : ℕ → ℕ → Aggregator D L → Aggregator D L
  set_plugin_version major minor a = record a { plugin_major = major; plugin_minor = minor }

  -- `clean`, where `free` says that the lock could be taken; `warning` is the entry for connections
  -- that are still open.
  pub clean : (L → ℕ) → L → Bool → Aggregator D L → Status × Aggregator D L
  clean space_used warning free a =
      if free
      then (
        ok,
        (if length a.connection_handlers_map == 0 then a else record a {
          connection_handlers_map = [];
          queues = add_log_msg space_used warning a.queues;
        }),
      )
      else (internal, a)
