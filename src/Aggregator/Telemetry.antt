-- ===== src/Aggregator/Telemetry.antt =====
-- src/nccl_stats_aggregator.cc: `readTelemetry`, with what it reads of the NICs. A connection is read
-- by `readStatsFromLastInterval`, whose status is always OK. The time and the parsing of events are
-- arguments.
pub mod Nics
pub mod Reports
pub mod Deletion
pub mod Safety
use Prim.Native.String.{String}
use gpuviz.Base.{ℕ, Bool, true, false, Option, none, some, List, [], ◌∷◌, ◌++◌, ◌==◌, if◌then◌else◌}
use gpuviz.Base.Faults.{◌>>=◌}
use gpuviz.Double.{DoubleOps}
use gpuviz.Bucketer
use gpuviz.Bucketer.{Bucketer}
use gpuviz.Stats.{ConnectionType}
use gpuviz.Stats.Idx
use gpuviz.Message.{
  ConnectionMessage, ConnectionStats, TcpMessage, RdmaMessage, IdentifierMessage, empty_connection,
  empty_identifier, empty_profiler, empty_stats,
}
use gpuviz.Connection.{Connection}
use gpuviz.Connection.Message.{
  populate_nccl_stats_connection_identifier, populate_stats_distribution_with_distribution_bucketer,
  get_connection_stats_proto_from_read_bucket,
}
use gpuviz.Connection.Report.{
  get_read_bucket_idx_and_swap_generation, get_connection_stats_from_read_bucket, reset_read_bucket,
}
use gpuviz.Executor.{AllStats}
use gpuviz.Aggregator.{Aggregator}
use gpuviz.Aggregator.Nic.{NicStats, nccl_nic_send}
use gpuviz.Aggregator.Queues.{read_queues}

-- `assignNicNcclStatsConnection`.
pub assign_nic_nccl_stats_connection :
    ConnectionType → String → ConnectionMessage → ConnectionMessage
assign_nic_nccl_stats_connection t nic_ip m =
    let m' : ConnectionMessage = record m { conn_type = some t } in
    elim t [
      | ConnectionType.nvl ↦ m'
      | ConnectionType.pci ↦ m'
      | ConnectionType.tcp ↦ record m' {
        tcp_conn = some (record { local_endpoint = some nic_ip; remote_endpoint = none });
      }
      | ConnectionType.rdma ↦ record m' {
        rdma_conn = some (record {
          local_endpoint = some nic_ip;
          local_qpn = none;
          remote_endpoint = none;
          remote_qpn = none;
        });
      }
      | ConnectionType.profiler_plugin ↦ record m' {
        profiler_conn = some (record empty_profiler { local_network_endpoint = some nic_ip });
      }
    ]

module _ {D : Type 0} where
  -- `readNicConnectionDetails`.
  unfoldable pub read_nic_connection_details :
      ℕ → ℕ → ℕ → NicStats D → String → ConnectionStats D → ConnectionStats D
  read_nic_connection_details plugin_major plugin_minor now nic nic_ip m = record m {
    connection_id =
        some
          (record (populate_nccl_stats_connection_identifier nic.nccl_plugin_type
            nic.nccl_plugin_name nic.gpu_pci_addr "" plugin_major plugin_minor empty_identifier) {
              connection =
                  some (assign_nic_nccl_stats_connection nic.conn_type nic_ip empty_connection);
            });
    time_stamp = some now;
  }

module _ {D : Type 0} ⦃o : DoubleOps D⦄ where
  -- One round of the loop of `readNicDistributions`: the message, and the histogram after its reset.
  pub read_and_reset :
      Option (Bucketer D) → ℕ → ConnectionStats D → Option (ConnectionStats D × Option (Bucketer D))
  read_and_reset none dist_type m = none
  read_and_reset (some b) dist_type m = do
    (m', index) ← populate_stats_distribution_with_distribution_bucketer m b dist_type
    some (m', some (Bucketer.reset b))

  pub read_nic_send :
      Bool → NicStats D → ConnectionStats D → Option (ConnectionStats D × NicStats D)
  read_nic_send variance nic m = do
    (m1, b) ← read_and_reset nic.nic_bw_stats.at_0 Idx.send_bandwidth m
    let nic1 : NicStats D = record nic { nic_bw_stats = record nic.nic_bw_stats { at_0 = b } }
    if variance
        then (do
          (m2, v) ← read_and_reset nic.nic_bw_variance_stats Idx.bandwidth_variance m1
          (m3, l) ← read_and_reset nic.nic_latency_variance_stats Idx.latency_variance m2
          some (m3, record nic1 { nic_bw_variance_stats = v; nic_latency_variance_stats = l }))
        else some (m1, nic1)

  pub read_nic_recv : NicStats D → ConnectionStats D → Option (ConnectionStats D × NicStats D)
  read_nic_recv nic m = do
    (m1, b) ← read_and_reset nic.nic_bw_stats.at_1 Idx.recv_bandwidth m
    some (m1, record nic { nic_bw_stats = record nic.nic_bw_stats { at_1 = b } })

  -- `readNicDistributions`.
  pub read_nic_distributions :
      Bool → ℕ → NicStats D → ConnectionStats D → Option (ConnectionStats D × NicStats D)
  read_nic_distributions variance direction nic m =
      if direction == nccl_nic_send then read_nic_send variance nic m else read_nic_recv nic m

  abbrev pub if_there :
      Option (Bucketer D)
      → Option (ConnectionStats D × NicStats D)
      → ConnectionStats D × NicStats D
      → Option (ConnectionStats D × NicStats D)
  if_there none r s = some s
  if_there (some _) r s = r

  -- One round of the loop of `readNicStats`.
  pub read_nic : Bool → ℕ → ℕ → ℕ → String → NicStats D → Option (ConnectionStats D × NicStats D)
  read_nic variance plugin_major plugin_minor now nic_ip nic = do
    let m = read_nic_connection_details plugin_major plugin_minor now nic nic_ip empty_stats
    (m1, nic1) ← if_there nic.nic_bw_stats.at_0 (read_nic_distributions variance 0 nic m) (m, nic)
    if_there nic1.nic_bw_stats.at_1 (read_nic_distributions variance 1 nic1 m1) (m1, nic1)

  -- `readNicStats`.
  pub read_nic_stats :
      Bool
      → ℕ
      → ℕ
      → ℕ
      → List (String × NicStats D)
      → Option (List (ConnectionStats D) × List (String × NicStats D))
  read_nic_stats variance plugin_major plugin_minor now [] = some ([], [])
  read_nic_stats variance plugin_major plugin_minor now ((ip, nic) ∷ nics) = do
    (m, nic') ← read_nic variance plugin_major plugin_minor now ip nic
    (ms, nics') ← read_nic_stats variance plugin_major plugin_minor now nics
    some (m ∷ ms, (ip, nic') ∷ nics')

  -- `readStatsFromLastInterval`, into a new message.
  pub read_connection : ℕ → ℕ → ℕ → Connection D → Option (ConnectionStats D × Connection D)
  read_connection plugin_major plugin_minor now c = do
    let (idx, c') = get_read_bucket_idx_and_swap_generation c
    m ←
        get_connection_stats_proto_from_read_bucket c.connection_id plugin_major plugin_minor now
          (get_connection_stats_from_read_bucket idx c') empty_stats
    some (m, reset_read_bucket idx c')

  pub read_connections :
      ℕ
      → ℕ
      → ℕ
      → List (ℕ × Connection D)
      → Option (List (ConnectionStats D) × List (ℕ × Connection D))
  read_connections plugin_major plugin_minor now [] = some ([], [])
  read_connections plugin_major plugin_minor now ((key, c) ∷ cs) = do
    (m, c') ← read_connection plugin_major plugin_minor now c
    (ms, cs') ← read_connections plugin_major plugin_minor now cs
    some (m ∷ ms, (key, c') ∷ cs')

  -- `readTelemetry`. The connections that wait to be deleted are read and released.
  pub read_telemetry :
      {L E : Type 0}
      → (L → ℕ)
      → (List ℕ → Option E)
      → L
      → ℕ
      → Aggregator D L
      → Option (AllStats L (ConnectionStats D) E × Aggregator D L)
  read_telemetry space_used parse failed now a = do
    (nic_stats, nics) ←
        read_nic_stats a.constants.variance_hist_collection_enabled a.plugin_major a.plugin_minor
          now a.nic_bw_map
    (live_stats, live) ←
        read_connections a.plugin_major a.plugin_minor now a.connection_handlers_map
    (last_stats, released) ← read_connections a.plugin_major a.plugin_minor now a.to_be_deleted_list
    let ((logs, events), queues) = read_queues space_used parse failed a.queues
    some (
      record {
        events_log = logs;
        conn_stats = nic_stats ++ (live_stats ++ last_stats);
        events = events;
        source_process_identifier = "";
        upload_index = 0;
      },
      record a {
        nic_bw_map = nics;
        connection_handlers_map = live;
        to_be_deleted_list = [];
        queues = queues;
      },
    )
