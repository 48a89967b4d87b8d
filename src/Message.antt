-- ===== src/Message.antt =====
-- src/proto/nccl_telemetry_proto.proto: the messages that the aggregator fills and the reporter filters.
-- An optional field is an `Option`, and a repeated one is a list. The conversions of a `double` to
-- an integer field are those of the type of doubles.
use Prim.Native.String.{String}
use gpuviz.Base.{ℕ, Bool, Option, none, List, []}
use gpuviz.Stats.{ConnectionType, PluginType}

pub record StatsDistribution (D : Type 0) : Type 0 where
  pub dist_type : Option ℕ
  pub min : Option D
  pub max : Option D
  pub avg : Option D
  pub num_samples : Option ℕ
  pub scale_factor : Option D
  pub base : Option D
  pub max_bucket : Option ℕ
  pub bucket_counts : List ℕ
  pub min_msg_size_bucket : Option ℕ
  pub max_msg_size_bucket : Option ℕ

-- `ncclStatsTCPConnection`.
pub record TcpMessage : Type 0 where
  pub local_endpoint : Option String
  pub remote_endpoint : Option String

-- `ncclStatsRDMAConnection`.
pub record RdmaMessage : Type 0 where
  pub local_endpoint : Option String
  pub local_qpn : Option ℕ
  pub remote_endpoint : Option String
  pub remote_qpn : Option ℕ

-- `ncclStatsProfilerPluginConnection`.
pub record ProfilerMessage : Type 0 where
  pub local_network_endpoint : Option String
  pub local_comm_hash : Option ℕ
  pub local_rank : Option ℕ
  pub remote_or_root_rank : Option ℕ
  pub collective_type : Option String
  pub collective_algorithm : Option String
  pub description : Option String
  pub is_nvl_telemetry : Option Bool
  pub channel_id : Option ℕ

-- `ncclStatsConnection`.
pub record ConnectionMessage : Type 0 where
  pub conn_type : Option ConnectionType
  pub tcp_conn : Option TcpMessage
  pub rdma_conn : Option RdmaMessage
  pub profiler_conn : Option ProfilerMessage

pub record PluginVersion : Type 0 where
  pub major : ℕ
  pub minor : ℕ

-- `ConnectionIdentifier`.
pub record IdentifierMessage : Type 0 where
  pub connection : Option ConnectionMessage
  pub nccl_plugin_type : Option PluginType
  pub nccl_plugin_name : Option String
  pub gpu_pci_addr : Option String
  pub plugin_version : Option PluginVersion
  pub gpu_uuid : Option String

-- `ConnectionStats`. The time stamp is the number that the clock gives.
pub record ConnectionStats (D : Type 0) : Type 0 where
  pub connection_id : Option IdentifierMessage
  pub time_stamp : Option ℕ
  pub histogram : List (StatsDistribution D)

-- New messages.
abbrev pub empty_distribution : {D : Type 0} → StatsDistribution D
empty_distribution = record {
  dist_type = none;
  min = none;
  max = none;
  avg = none;
  num_samples = none;
  scale_factor = none;
  base = none;
  max_bucket = none;
  bucket_counts = [];
  min_msg_size_bucket = none;
  max_msg_size_bucket = none;
}

abbrev pub empty_profiler : ProfilerMessage
empty_profiler = record {
  local_network_endpoint = none;
  local_comm_hash = none;
  local_rank = none;
  remote_or_root_rank = none;
  collective_type = none;
  collective_algorithm = none;
  description = none;
  is_nvl_telemetry = none;
  channel_id = none;
}

abbrev pub empty_connection : ConnectionMessage
empty_connection = record {
  conn_type = none;
  tcp_conn = none;
  rdma_conn = none;
  profiler_conn = none;
}

abbrev pub empty_identifier : IdentifierMessage
empty_identifier = record {
  connection = none;
  nccl_plugin_type = none;
  nccl_plugin_name = none;
  gpu_pci_addr = none;
  plugin_version = none;
  gpu_uuid = none;
}

abbrev pub empty_stats : {D : Type 0} → ConnectionStats D
empty_stats = record { connection_id = none; time_stamp = none; histogram = [] }
