-- ===== src/Connection/Message.antt =====
-- src/nccl_stats_aggregator.cc: `getConnectionStatsProtoFromReadBucket`, with the functions of
-- `utils::ncclaggregator` that it calls: the half of the histograms that is read becomes a message.
-- The time stamp is an argument, and the plugin's version is a pair of numbers.
pub mod Sizes
use Prim.Native.String.{String}
use gpuviz.Base.{
  ℕ, zero, suc, ◌+◌, ◌-◌, Bool, not, ◌&&◌, ◌||◌, ◌==◌, Option, none, some, List, [], ◌∷◌, ◌++◌,
  length, get_elem?, modify, if◌then◌else◌, true, false,
}
use gpuviz.Base.Faults.{◌>>=◌}
use gpuviz.Double.{DoubleOps}
use gpuviz.Bucketer
use gpuviz.Bucketer.{Bucketer}
use gpuviz.Bucketer.Counts.{total}
use gpuviz.Stats.{PluginType}
use gpuviz.Stats.Idx
use gpuviz.Message.{
  StatsDistribution, TcpMessage, RdmaMessage, ProfilerMessage, ConnectionMessage, PluginVersion,
  IdentifierMessage, ConnectionStats, empty_distribution, empty_profiler, empty_connection,
  empty_identifier,
}
use gpuviz.Connection.{DistributionMap}
use gpuviz.Connection.Identifier.{
  ConnectionIdentifier, StatsConnection, nvl_conn, pci_conn, tcp_conn, rdma_conn, profiler_conn,
  ProfilerConnection, conn_type,
}

abbrev pub is_empty_text : String → Bool
is_empty_text String.[] = true
is_empty_text (String.◌∷◌ c s) = false

pub populate_nccl_stats_connection_identifier :
    PluginType → String → String → String → ℕ → ℕ → IdentifierMessage → IdentifierMessage
populate_nccl_stats_connection_identifier plugin_type name pci uuid major minor m = record m {
  nccl_plugin_type = some plugin_type;
  nccl_plugin_name = some name;
  gpu_pci_addr = some pci;
  gpu_uuid = if is_empty_text uuid then m.gpu_uuid else some uuid;
  plugin_version =
      if not (major == 0) || not (minor == 0)
      then some (record { major = major; minor = minor })
      else m.plugin_version;
}

pub assign_nccl_stats_rdma_connection : ConnectionIdentifier → ℕ → ℕ → RdmaMessage
assign_nccl_stats_rdma_connection c local_qpn remote_qpn = record {
  local_endpoint = some c.local_endpoint;
  local_qpn = some local_qpn;
  remote_endpoint = some c.remote_endpoint;
  remote_qpn = some remote_qpn;
}

pub assign_nccl_stats_tcp_connection : ConnectionIdentifier → TcpMessage
assign_nccl_stats_tcp_connection c = record {
  local_endpoint = some c.local_endpoint;
  remote_endpoint = some c.remote_endpoint;
}

pub assign_nccl_stats_profiler_connection :
    ConnectionIdentifier → ProfilerConnection → ProfilerMessage
assign_nccl_stats_profiler_connection c p = record {
  local_network_endpoint = some c.local_endpoint;
  local_comm_hash = some p.local_comm_hash;
  local_rank = some p.local_rank;
  remote_or_root_rank = some p.remote_or_root_rank;
  collective_type = some c.collective_type;
  collective_algorithm = some c.collective_algorithm;
  description = some c.description;
  is_nvl_telemetry = some c.is_nvl_telemetry;
  channel_id = some c.channel_id;
}

pub assign_nccl_stats_connection : ConnectionIdentifier → ConnectionMessage → ConnectionMessage
unfolding assign_nccl_stats_rdma_connection assign_nccl_stats_tcp_connection
    assign_nccl_stats_profiler_connection
assign_nccl_stats_connection c m =
    let m' = record m { conn_type = some (conn_type c.connection) } in
    elim c.connection [
      | nvl_conn ↦ m'
      | pci_conn ↦ m'
      | tcp_conn _ _ ↦ record m' { tcp_conn = some (assign_nccl_stats_tcp_connection c) }
      | rdma_conn _ local_qpn _ remote_qpn ↦ record m' {
        rdma_conn = some (assign_nccl_stats_rdma_connection c local_qpn remote_qpn);
      }
      | profiler_conn p ↦ record m' {
        profiler_conn = some (assign_nccl_stats_profiler_connection c p);
      }
    ]

module _ {D : Type 0} ⦃o : DoubleOps D⦄ where
  -- The new message and the index of the histogram, `none` for -1. `.value()` of a missing value
  -- throws, which is a fault.
  pub populate_stats_distribution_with_distribution_bucketer :
      ConnectionStats D → Bucketer D → ℕ → Option (ConnectionStats D × Option ℕ)
  populate_stats_distribution_with_distribution_bucketer m b distribution_type =
      elim (Bucketer.get_sample_submitted b) [
        | false ↦ some (m, none)
        | true ↦ (do
          max ← Bucketer.get_max b
          min ← Bucketer.get_min b
          avg ← Bucketer.get_avg b
          let counts = Bucketer.get_bucket_counts b
          let d : StatsDistribution D = record {
            dist_type = some distribution_type;
            min = some min;
            max = some max;
            avg = some avg;
            num_samples = some (total counts);
            scale_factor = some b.scale;
            base = some b.base;
            max_bucket = some (o.to_nat b.max_bucket);
            bucket_counts = counts;
            min_msg_size_bucket = none;
            max_msg_size_bucket = none;
          }
          let m' : ConnectionStats D = record m { histogram = m.histogram ++ (d ∷ []) }
          some (m', some (length m'.histogram - 1)))
      ]

  -- The loop over the types from `i` on, with `msg_size_hist_index` and `lat_histogram_index`.
  pub add_histograms :
      ℕ
      → DistributionMap D
      → ConnectionStats D × Option ℕ × Option ℕ
      → Option (ConnectionStats D × Option ℕ × Option ℕ)
  add_histograms i [] s = some s
  add_histograms i (none ∷ map) s = add_histograms (suc i) map s
  add_histograms i (some b ∷ map) (m, msg_size_hist_index, lat_histogram_index) =
      populate_stats_distribution_with_distribution_bucketer m b i >>= λ r.
      add_histograms (suc i) map (
        r.0,
        (if i == Idx.send_message_size then r.1 else msg_size_hist_index),
        (if i == Idx.send_latency_sw then r.1 else lat_histogram_index),
      )

  -- A `double` field that is not set reads as zero; a `uint32` field is set from a `double`.
  abbrev pub size_field : Option D → ℕ
  size_field none = 0
  size_field (some x) = o.to_u32 x

  -- The smallest and largest message size go into the histogram of latencies.
  pub ingest_message_sizes : ConnectionStats D → Option ℕ → Option ℕ → Option (ConnectionStats D)
  ingest_message_sizes m (some size_index) (some lat_index) = do
    sizes ← get_elem? m.histogram size_index
    lat ← get_elem? m.histogram lat_index
    some (record m {
      histogram = modify m.histogram lat_index λ d. record d {
        min_msg_size_bucket = some (size_field sizes.min);
        max_msg_size_bucket = some (size_field sizes.max);
      };
    })
  ingest_message_sizes m none lat_index = some m
  ingest_message_sizes m (some size_index) none = some m

  pub get_connection_stats_proto_from_read_bucket :
      ConnectionIdentifier
      → ℕ
      → ℕ
      → ℕ
      → DistributionMap D
      → ConnectionStats D
      → Option (ConnectionStats D)
  get_connection_stats_proto_from_read_bucket c plugin_major plugin_minor now map m = do
    let id =
        populate_nccl_stats_connection_identifier c.nccl_plugin_type c.nccl_plugin_name
          c.gpu_pci_addr c.gpu_uuid plugin_major plugin_minor empty_identifier
    let id' = record id { connection = some (assign_nccl_stats_connection c empty_connection) }
    (m', size_index, lat_index) ←
        add_histograms 0 map
          (record m { connection_id = some id'; time_stamp = some now }, none, none)
    ingest_message_sizes m' size_index lat_index
