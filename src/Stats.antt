-- ===== src/Stats.antt =====
-- src/nccl_stats.h and the enumeration of src/proto/nccl_telemetry_proto.proto: what a NCCL plugin
-- reports. C strings of a connection identifier are optional texts, a socket address is the pair of
-- texts that `ConvertSockaddrStorageToString` gives. The structure of function pointers is not
-- modelled, and handles are identifiers.
pub mod Idx
use Prim.Native.Nat.{bit_and}
use Prim.Native.String.{String}
use gpuviz.Base.{ℕ, Bool, Option, List, ◌^◌, ◌==◌, not}

pub data ConnectionType : Type 0 where
  nvl pci tcp rdma profiler_plugin : ConnectionType

pub data PluginType : Type 0 where
  net_plugin coll_net_plugin profiler : PluginType

pub data LatencyType : Type 0 where
  software net_hw recv_ready : LatencyType

pub record LatencyMeasurement : Type 0 where
  pub latency_type : LatencyType
  pub latency_in_nanoseconds : ℕ

pub data OpType : Type 0 where
  chunk_send chunk_recv collective msg_send msg_recv : OpType

-- `num_measurements` is the length of the list.
pub record OperationMetric : Type 0 where
  pub type : OpType
  pub collective_id : ℕ
  pub op_id : ℕ
  pub op_sz : ℕ
  pub op_start_time : ℕ
  pub measurements : List LatencyMeasurement

-- `TotalDistributionType` of the plugins and `protoTotalDistributionType`.
abbrev pub total_distribution_type : ℕ
total_distribution_type = 7

abbrev pub proto_total_distribution_type : ℕ
proto_total_distribution_type = 11

-- `1 << idx`.
abbrev pub mask : ℕ → ℕ
mask idx = 2 ^ idx

-- `IS_SET(val, mask)`.
abbrev pub is_set : ℕ → ℕ → Bool
is_set val m = bit_and val m == m

-- `ncclTelemetryMode`.
pub data TelemetryMode : Type 0 where
  off reserved write_on_local_disk_only upload_only_controlled_by_mds : TelemetryMode
  both_write_and_upload_controlled_by_mds undefined : TelemetryMode
