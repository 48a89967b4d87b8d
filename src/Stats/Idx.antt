-- ===== src/Stats/Idx.antt =====
-- src/nccl_stats.h, `ncclStatsDistributionIdx`, and `DistType` of src/proto/nccl_telemetry_proto.proto.
-- The indices of the distributions; the plugins' enumeration and the protocol's agree up to 6.
use gpuviz.Base.{ℕ}

abbrev pub send_latency_sw : ℕ
send_latency_sw = 0

abbrev pub recv_latency_sw : ℕ
recv_latency_sw = 1

abbrev pub send_latency_net_hw : ℕ
send_latency_net_hw = 2

abbrev pub recv_latency_net_hw : ℕ
recv_latency_net_hw = 3

abbrev pub recv_ready_latency : ℕ
recv_ready_latency = 4

abbrev pub send_message_size : ℕ
send_message_size = 5

abbrev pub recv_message_size : ℕ
recv_message_size = 6

abbrev pub send_bandwidth : ℕ
send_bandwidth = 7

abbrev pub recv_bandwidth : ℕ
recv_bandwidth = 8

abbrev pub bandwidth_variance : ℕ
bandwidth_variance = 9

abbrev pub latency_variance : ℕ
latency_variance = 10
