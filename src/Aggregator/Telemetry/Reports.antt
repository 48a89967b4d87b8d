-- ===== src/Aggregator/Telemetry/Reports.antt =====
-- src/nccl_stats_aggregator.cc: what a read reports of the connections and of the NICs.
use Prim.Native.String.{String}
use gpuviz.Base.{ℕ, ◌≡◌, refl, ap, Bool, Option, some, List, [], ◌∷◌, ◌++◌, map, All}
use gpuviz.Double.{DoubleOps}
use gpuviz.Bucketer.{Bucketer}
use gpuviz.Message.{ConnectionStats, empty_identifier, empty_connection}
use gpuviz.Connection.{Connection, at, get_current_write_distribution_map_index}
use gpuviz.Connection.Message.{
  populate_nccl_stats_connection_identifier, assign_nccl_stats_connection,
}
use gpuviz.Connection.Message.Sizes.{reported, proto-reported}
use gpuviz.Connection.Report.{get_read_bucket_idx_and_swap_generation, reset_read_bucket}
use gpuviz.Connection.Report.Samples.{read_half}
use gpuviz.Executor.{AllStats}
use gpuviz.Aggregator.{Aggregator}
use gpuviz.Aggregator.Nic.{NicStats}
use gpuviz.Aggregator.Queues.{read_queues}
use gpuviz.Aggregator.Telemetry.Nics.{IsComplete, told_nic, read_nic_lem}
use gpuviz.Aggregator.Queues.Bounded.{read_logs_first}
use gpuviz.Aggregator.Telemetry.{read_nic_stats, read_connection, read_connections, read_telemetry}

module _ {D : Type 0} ⦃o : DoubleOps D⦄ where
  -- The half of the histograms of a connection that the plugin writes until the read.
  abbrev pub written : Connection D → List (Option (Bucketer D))
  written c = at c.distribution_map (get_current_write_distribution_map_index c)

  -- What a message tells of a connection.
  pub told : ℕ → ℕ → ℕ → ℕ × Connection D → ConnectionStats D
  told plugin_major plugin_minor now (key, c) = record {
    connection_id =
        some
          (record (populate_nccl_stats_connection_identifier c.connection_id.nccl_plugin_type
            c.connection_id.nccl_plugin_name c.connection_id.gpu_pci_addr c.connection_id.gpu_uuid
            plugin_major plugin_minor empty_identifier) {
              connection = some (assign_nccl_stats_connection c.connection_id empty_connection);
            });
    time_stamp = some now;
    histogram = reported (written c);
  }

  -- A connection after it has been read.
  unfoldable pub after_read : Connection D → Connection D
  after_read c =
      let (idx, c') = get_read_bucket_idx_and_swap_generation c in reset_read_bucket idx c'

  read_connection_lem :
      (plugin_major plugin_minor now key : ℕ) (c : Connection D)
      → read_connection plugin_major plugin_minor now c
        ≡ some (told plugin_major plugin_minor now (key, c), after_read c)
  unfolding read_connection told after_read
  read_connection_lem plugin_major plugin_minor now key c =
      simp (read_half c, proto-reported c.connection_id plugin_major plugin_minor now (written c))

  pub read_connections_lem :
      (plugin_major plugin_minor now : ℕ) (cs : List (ℕ × Connection D))
      → read_connections plugin_major plugin_minor now cs
        ≡ some (
          map (told plugin_major plugin_minor now) cs,
          map {A = ℕ × Connection D} {B = ℕ × Connection D} (λ (k, c). (k, after_read c)) cs,
        )
  unfolding read_connections
  read_connections_lem plugin_major plugin_minor now [] = refl
  read_connections_lem plugin_major plugin_minor now ((key, c) ∷ cs) = simp (
    read_connection_lem plugin_major plugin_minor now key c,
    read_connections_lem plugin_major plugin_minor now cs,
  )

  -- Every NIC of the map is complete.
  abbrev pub AllComplete : Bool → List (String × NicStats D) → Type 0
  AllComplete variance nics = All (λ e. IsComplete variance e.1) nics

  read_nic_stats_lem :
      (variance : Bool) (plugin_major plugin_minor now : ℕ) (nics : List (String × NicStats D))
      → AllComplete variance nics
      → (nics' : List (String × NicStats D)) × (read_nic_stats variance plugin_major plugin_minor
            now nics
          ≡ some (map (told_nic variance plugin_major plugin_minor now) nics, nics'))
        × (map (λ e. e.0) nics' ≡ map (λ e. e.0) nics)
  unfolding read_nic_stats
  read_nic_stats_lem variance plugin_major plugin_minor now [] h = ([], refl, refl)
  read_nic_stats_lem variance plugin_major plugin_minor now ((ip, nic) ∷ nics) (k, h) =
      let (nic', e, z0, z1) = read_nic_lem variance plugin_major plugin_minor now ip nic k in
      let (nics', f, g) = read_nic_stats_lem variance plugin_major plugin_minor now nics h in
      ((ip, nic') ∷ nics', simp (e, f), ap (λ l. ip ∷ l) g)

  module _ {L : Type 0} where
    abbrev pub nics_told : ℕ → Aggregator D L → List (ConnectionStats D)
    nics_told now a =
        map
          (told_nic a.constants.variance_hist_collection_enabled a.plugin_major a.plugin_minor now)
          a.nic_bw_map

    abbrev pub connections_told :
        ℕ → Aggregator D L → List (ℕ × Connection D) → List (ConnectionStats D)
    connections_told now a cs = map (told a.plugin_major a.plugin_minor now) cs

    abbrev pub handles : Aggregator D L → List ℕ
    handles a = map (λ e. e.0) a.connection_handlers_map

    -- What a read does to the aggregator, and what it tells.
    pub record IsRead {E : Type 0} (now : ℕ) (a a' : Aggregator D L)
        (stats : AllStats L (ConnectionStats D) E) : Type 0 where
      pub conn_stats :
          stats.conn_stats
          ≡ nics_told now a
            ++ (connections_told now a a.connection_handlers_map
                ++ connections_told now a a.to_be_deleted_list)
      pub events_log : stats.events_log ≡ a.queues.log_messages
      pub released : a'.to_be_deleted_list ≡ []
      pub live :
          a'.connection_handlers_map
          ≡ map {A = ℕ × Connection D} {B = ℕ × Connection D}
              (λ (k, c). (k, after_read c))
              a.connection_handlers_map
      pub nics : map (λ e. e.0) a'.nic_bw_map ≡ map (λ e. e.0) a.nic_bw_map

  module _ {L E : Type 0} (space_used : L → ℕ) (parse : List ℕ → Option E) (failed : L) where
    -- A read does not fault if the NICs' histograms are complete: it tells each NIC once, then each
    -- live connection and then each that waits to be deleted; these are released, and of the others
    -- the half that was read is reset.
    pub read_telemetry-IsRead :
        (now : ℕ) (a : Aggregator D L)
        → AllComplete a.constants.variance_hist_collection_enabled a.nic_bw_map
        → (stats : AllStats L (ConnectionStats D) E) × (a' : Aggregator D L) × (read_telemetry
              space_used parse failed now a
            ≡ some (stats, a'))
          × IsRead now a a' stats
    unfolding read_telemetry
    read_telemetry-IsRead now a h =
        let (nics', e, g) =
          read_nic_stats_lem a.constants.variance_hist_collection_enabled a.plugin_major
            a.plugin_minor now a.nic_bw_map h in
        let f = read_connections_lem a.plugin_major a.plugin_minor now a.connection_handlers_map in
        let z = read_connections_lem a.plugin_major a.plugin_minor now a.to_be_deleted_list in
        let ((logs, events), queues) = read_queues space_used parse failed a.queues in
        (
          record {
            events_log = logs;
            conn_stats =
                nics_told now a
                ++ (connections_told now a a.connection_handlers_map
                    ++ connections_told now a a.to_be_deleted_list);
            events = events;
            source_process_identifier = "";
            upload_index = 0;
          },
          record a {
            nic_bw_map = nics';
            connection_handlers_map =
                map {A = ℕ × Connection D} {B = ℕ × Connection D} (λ (k, c). (k, after_read c))
                  a.connection_handlers_map;
            to_be_deleted_list = [];
            queues = queues;
          },
          simp (e, f, z),
          record {
            conn_stats = refl;
            events_log = read_logs_first space_used parse failed a.queues;
            released = refl;
            live = refl;
            nics = g;
          },
        )
