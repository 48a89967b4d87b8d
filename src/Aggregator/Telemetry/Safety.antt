-- ===== src/Aggregator/Telemetry/Safety.antt =====
-- src/nccl_stats_aggregator.cc: `readTelemetry` keeps what the end of an interval asks for.
use Prim.Native.String.{String}
use gpuviz.Base.{ℕ, ◌≡◌, refl, ap, Bool, true, false, Option, some, List, [], ◌∷◌, ◌++◌, map}
use gpuviz.Double.{DoubleOps}
use gpuviz.Bucketer
use gpuviz.Bucketer.{Bucketer}
use gpuviz.Stats.Idx
use gpuviz.Message.{ConnectionStats, empty_stats}
use gpuviz.Connection.{Connection, put}
use gpuviz.Connection.Interval.Ready.{collects}
use gpuviz.Connection.Message.Sizes.{entry, extend}
use gpuviz.Connection.Report.Ready.{read-IsReady}
use gpuviz.Executor.{AllStats}
use gpuviz.Aggregator.{Aggregator}
use gpuviz.Aggregator.Queues.{read_queues}
use gpuviz.Aggregator.Nic.{NicStats}
use gpuviz.Aggregator.Nic.Addresses.{addresses}
use gpuviz.Aggregator.Nic.Ready.{NicReady, AllReady, put_all}
use gpuviz.Aggregator.Interval.Served.{AllServed, serve}
use gpuviz.Aggregator.Interval.Safety.{IsOperable}
use gpuviz.Aggregator.Telemetry.{
  if_there, read_nic_send, read_nic_recv, read_nic_distributions, read_nic_connection_details,
  read_nic, read_nic_stats, read_telemetry,
}
use gpuviz.Aggregator.Telemetry.Nics.{read_and_reset_lem}
use gpuviz.Aggregator.Telemetry.Reports.{after_read, connections_told, read_connections_lem}

module _ {D : Type 0} ⦃o : DoubleOps D⦄ where
  replace_hist :
      (n : ℕ) (v : Bool) (nic : NicStats D) (direction : ℕ) (b : Bucketer D)
      → NicReady n v nic
      → NicReady n v (record nic { nic_bw_stats = put nic.nic_bw_stats direction (some b) })
  replace_hist n v nic direction b r = record {
    bw = r.bw;
    load = r.load;
    hist =
        put_all (λ p. (b : Bucketer D) × (p ≡ some b)) nic.nic_bw_stats direction (some b) (b, refl)
          r.hist;
    latency = r.latency;
    bw_variance = r.bw_variance;
    latency_variance = r.latency_variance;
  }

  read_send-NicReady :
      (n : ℕ) (v : Bool) (nic : NicStats D) (m : ConnectionStats D)
      → NicReady n v nic
      → (m' : ConnectionStats D) × (nic' : NicStats D) × (if_there nic.nic_bw_stats.at_0
            (read_nic_send v nic m)
            (m, nic)
          ≡ some (m', nic'))
        × NicReady n v nic'
  unfolding read_nic_send
  read_send-NicReady n false nic m r =
      let (b, h) = r.hist 0 in
      (
        extend m (entry b Idx.send_bandwidth),
        record nic { nic_bw_stats = put nic.nic_bw_stats 0 (some (Bucketer.reset b)) },
        simp (h, read_and_reset_lem b Idx.send_bandwidth m),
        replace_hist n false nic 0 (Bucketer.reset b) r,
      )
  read_send-NicReady n true nic m r =
      let (b, h) = r.hist 0 in
      let (v, hv) = r.bw_variance refl in
      let (l, hl) = r.latency_variance refl in
      let m1 = extend m (entry b Idx.send_bandwidth) in
      let m2 = extend m1 (entry v Idx.bandwidth_variance) in
      let r' = replace_hist n true nic 0 (Bucketer.reset b) r in
      (
        extend m2 (entry l Idx.latency_variance),
        record nic {
          nic_bw_stats = put nic.nic_bw_stats 0 (some (Bucketer.reset b));
          nic_bw_variance_stats = some (Bucketer.reset v);
          nic_latency_variance_stats = some (Bucketer.reset l);
        },
        simp (
          h,
          read_and_reset_lem b Idx.send_bandwidth m,
          hv,
          read_and_reset_lem v Idx.bandwidth_variance m1,
          hl,
          read_and_reset_lem l Idx.latency_variance m2,
        ),
        record {
          bw = r'.bw;
          load = r'.load;
          hist = r'.hist;
          latency = r'.latency;
          bw_variance = λ e. (Bucketer.reset v, refl);
          latency_variance = λ e. (Bucketer.reset l, refl);
        },
      )

  read_recv-NicReady :
      (n : ℕ) (v : Bool) (nic : NicStats D) (m : ConnectionStats D)
      → NicReady n v nic
      → (m' : ConnectionStats D) × (nic' : NicStats D) × (if_there nic.nic_bw_stats.at_1
            (read_nic_recv nic m)
            (m, nic)
          ≡ some (m', nic'))
        × NicReady n v nic'
  unfolding read_nic_recv
  read_recv-NicReady n v nic m r =
      let (b, h) = r.hist 1 in
      (
        extend m (entry b Idx.recv_bandwidth),
        record nic { nic_bw_stats = put nic.nic_bw_stats 1 (some (Bucketer.reset b)) },
        simp (h, read_and_reset_lem b Idx.recv_bandwidth m),
        replace_hist n v nic 1 (Bucketer.reset b) r,
      )

  read_nic-NicReady :
      (n : ℕ) (v : Bool) (major minor now : ℕ) (ip : String) (nic : NicStats D)
      → NicReady n v nic
      → (m : ConnectionStats D) × (nic' : NicStats D) × (read_nic v major minor now ip nic
          ≡ some (m, nic'))
        × NicReady n v nic'
  unfolding read_nic read_nic_distributions
  read_nic-NicReady n v major minor now ip nic r =
      let m = read_nic_connection_details major minor now nic ip empty_stats in
      let (m1, nic1, e1, r1) = read_send-NicReady n v nic m r in
      let (m2, nic2, e2, r2) = read_recv-NicReady n v nic1 m1 r1 in (m2, nic2, simp (e1, e2), r2)

  read_nic_stats-AllReady :
      (n : ℕ) (v : Bool) (major minor now : ℕ) (nics : List (String × NicStats D))
      → AllReady n v nics
      → (ms : List (ConnectionStats D)) × (nics' : List (String × NicStats D)) × (read_nic_stats v
            major minor now nics
          ≡ some (ms, nics'))
        × AllReady n v nics'
        × (addresses nics' ≡ addresses nics)
  unfolding read_nic_stats
  read_nic_stats-AllReady n v major minor now [] r = ([], [], refl, tt, refl)
  read_nic_stats-AllReady n v major minor now ((ip, nic) ∷ nics) (r, rs) =
      let (m, nic', e, r') = read_nic-NicReady n v major minor now ip nic r in
      let (ms, nics', es, rs', a) = read_nic_stats-AllReady n v major minor now nics rs in
      (m ∷ ms, (ip, nic') ∷ nics', simp (e, es), (r', rs'), ap (λ l. ip ∷ l) a)

  after_read-AllServed :
      (n carry : ℕ) (w : ℕ → Bool) (v : Bool) (ips : List String) (cs : List (ℕ × Connection D))
      → AllServed n carry w v ips cs
      → AllServed n carry w v ips
          (map {A = ℕ × Connection D} {B = ℕ × Connection D} (λ (k, c). (k, after_read c)) cs)
  unfolding after_read
  after_read-AllServed n carry w v ips [] s = tt
  after_read-AllServed n carry w v ips ((key, c) ∷ cs) (s, ss) =
      let (r, k) = read-IsReady n carry w v c s.ready in
      (serve c (after_read c) s r k, after_read-AllServed n carry w v ips cs ss)

  module _ {L E : Type 0} (space_used : L → ℕ) (parse : List ℕ → Option E) (failed : L) where
    pub read_telemetry-IsOperable :
        (now : ℕ) (a : Aggregator D L)
        → IsOperable a
        → (stats : AllStats L (ConnectionStats D) E) × (a' : Aggregator D L) × (read_telemetry
              space_used parse failed now a
            ≡ some (stats, a'))
          × IsOperable a'
          × (a'.constants ≡ a.constants)
    unfolding read_telemetry
    read_telemetry-IsOperable now a p =
        let k = a.constants in
        let n = k.bw_burst_count in
        let v = k.variance_hist_collection_enabled in
        let w = collects k.distribution_collector_bitmap in
        let (ms, nics', e, r, same) =
          read_nic_stats-AllReady n v a.plugin_major a.plugin_minor now a.nic_bw_map p.nics in
        let f = read_connections_lem a.plugin_major a.plugin_minor now a.connection_handlers_map in
        let z = read_connections_lem a.plugin_major a.plugin_minor now a.to_be_deleted_list in
        let ((logs, events), queues) = read_queues space_used parse failed a.queues in
        let s =
          after_read-AllServed n k.carry_over_buckets w v (addresses a.nic_bw_map)
            a.connection_handlers_map p.connections in
        (
          record {
            events_log = logs;
            conn_stats =
                ms
                ++ (connections_told now a a.connection_handlers_map
                    ++ connections_told now a a.to_be_deleted_list);
            events = events;
            source_process_identifier = "";
            upload_index = 0;
          },
          record a {
            nic_bw_map = nics';
            connection_handlers_map =
                map {A = ℕ × Connection D} {B = ℕ × Connection D} (λ (k, c). (k, after_read c))
                  a.connection_handlers_map;
            to_be_deleted_list = [];
            queues = queues;
          },
          simp (e, f, z),
          record { sound = p.sound; nics = r; connections = rw same s },
          refl,
        )
