-- ===== src/Aggregator/Telemetry/Nics.antt =====
-- src/nccl_stats_aggregator.cc: what a read reports of a NIC, and that it resets what it reports.
use mathlib.Core.List.{append-nil}
use Prim.Native.String.{String}
use gpuviz.Base.{
  ℕ, ◌≡◌, ◌∙◌, refl, Bool, true, false, Option, none, some, List, [], ◌++◌, if◌then◌else◌,
}
use gpuviz.Double.{DoubleOps}
use gpuviz.Bucketer
use gpuviz.Bucketer.{Bucketer}
use gpuviz.Stats.Idx
use gpuviz.Message.{IdentifierMessage, StatsDistribution, ConnectionStats, empty_stats}
use gpuviz.Connection.Message.Sizes.{entry, extend, populate_lem}
use gpuviz.Aggregator.Nic.{NicStats}
use gpuviz.Aggregator.Telemetry.{
  if_there, read_and_reset, read_nic_send, read_nic_recv, read_nic_connection_details,
  read_nic_distributions, read_nic,
}

module _ {D : Type 0} ⦃o : DoubleOps D⦄ where
  -- Where the histogram of bandwidth sent is there and variance is detected, so are the two others.
  pub IsComplete : Bool → NicStats D → Type 0
  IsComplete variance nic =
      (b : Bucketer D)
      → nic.nic_bw_stats.at_0 ≡ some b
      → variance ≡ true
      → ((v : Bucketer D) × (nic.nic_bw_variance_stats ≡ some v))
        × ((l : Bucketer D) × (nic.nic_latency_variance_stats ≡ some l))

  -- Without variance, every NIC is complete.
  pub IsComplete-off : (nic : NicStats D) → IsComplete false nic
  unfolding IsComplete
  IsComplete-off nic = λ b h v. cc

  abbrev pub pointer_entry : Option (Bucketer D) → ℕ → List (StatsDistribution D)
  pointer_entry none t = []
  pointer_entry (some b) t = entry b t

  abbrev pub reset_pointer : Option (Bucketer D) → Option (Bucketer D)
  reset_pointer none = none
  reset_pointer (some b) = some (Bucketer.reset b)

  -- The histograms that a read tells of a NIC: bandwidth sent, with the variances, and received.
  pub nic_histograms : Bool → NicStats D → List (StatsDistribution D)
  nic_histograms variance nic =
      let sent = pointer_entry nic.nic_bw_stats.at_0 Idx.send_bandwidth in
      let variances =
        (sent ++ pointer_entry nic.nic_bw_variance_stats Idx.bandwidth_variance)
        ++ pointer_entry nic.nic_latency_variance_stats Idx.latency_variance in
      (elim nic.nic_bw_stats.at_0 as (λ _. List (StatsDistribution D)) [
        | none ↦ []
        | some _ ↦ if variance then variances else sent
      ])
      ++ pointer_entry nic.nic_bw_stats.at_1 Idx.recv_bandwidth

  pub read_and_reset_lem :
      (b : Bucketer D) (dist_type : ℕ) (m : ConnectionStats D)
      → read_and_reset (some b) dist_type m
        ≡ some (extend m (entry b dist_type), some (Bucketer.reset b))
  unfolding read_and_reset
  read_and_reset_lem b dist_type m = simp (populate_lem m b dist_type)

  read_recv_lem :
      (nic : NicStats D) (p : Option (Bucketer D)) (m : ConnectionStats D)
      → nic.nic_bw_stats.at_1 ≡ p
      → (nic' : NicStats D) × (if_there nic.nic_bw_stats.at_1 (read_nic_recv nic m) (m, nic)
          ≡ some (extend m (pointer_entry p Idx.recv_bandwidth), nic'))
        × (nic'.nic_bw_stats.at_1 ≡ reset_pointer p)
        × (nic'.nic_bw_stats.at_0 ≡ nic.nic_bw_stats.at_0)
  unfolding read_nic_recv
  read_recv_lem nic none m h = (nic, simp (h, append-nil m.histogram), h, refl)
  read_recv_lem nic (some b) m h = (
    record nic { nic_bw_stats = record nic.nic_bw_stats { at_1 = some (Bucketer.reset b) } },
    simp (h, read_and_reset_lem b Idx.recv_bandwidth m),
    refl,
    refl,
  )

  abbrev started : Option IdentifierMessage → Option ℕ → ConnectionStats D
  started id now = record { connection_id = id; time_stamp = now; histogram = [] }

  -- The part of the NIC's histograms that is read first.
  abbrev without_recv : NicStats D → NicStats D
  without_recv nic = record nic { nic_bw_stats = record nic.nic_bw_stats { at_1 = none } }

  read_send_lem :
      (variance : Bool) (nic : NicStats D) (p : Option (Bucketer D)) (id : Option IdentifierMessage)
      (now : Option ℕ)
      → nic.nic_bw_stats.at_0 ≡ p
      → IsComplete variance nic
      → (nic' : NicStats D) × (if_there nic.nic_bw_stats.at_0
            (read_nic_send variance nic (started id now))
            (started id now, nic)
          ≡ some (extend (started id now) (nic_histograms variance (without_recv nic)), nic'))
        × (nic'.nic_bw_stats.at_0 ≡ reset_pointer p)
        × (nic'.nic_bw_stats.at_1 ≡ nic.nic_bw_stats.at_1)
  unfolding read_nic_send IsComplete nic_histograms
  read_send_lem variance nic none id now h k = (nic, simp (h), h, refl)
  read_send_lem false nic (some b) id now h k = (
    record nic { nic_bw_stats = record nic.nic_bw_stats { at_0 = some (Bucketer.reset b) } },
    simp (h, read_and_reset_lem b Idx.send_bandwidth (started id now), append-nil),
    refl,
    refl,
  )
  read_send_lem true nic (some b) id now h k =
      let ((v, ev), (l, el)) = k b h refl in
      let m1 = extend (started id now) (entry b Idx.send_bandwidth) in
      let m2 = extend m1 (entry v Idx.bandwidth_variance) in
      (
        record nic {
          nic_bw_stats = record nic.nic_bw_stats { at_0 = some (Bucketer.reset b) };
          nic_bw_variance_stats = some (Bucketer.reset v);
          nic_latency_variance_stats = some (Bucketer.reset l);
        },
        simp (
          h,
          read_and_reset_lem b Idx.send_bandwidth (started id now),
          ev,
          read_and_reset_lem v Idx.bandwidth_variance m1,
          el,
          read_and_reset_lem l Idx.latency_variance m2,
          append-nil,
        ),
        refl,
        refl,
      )

  -- What a message tells of a NIC.
  pub told_nic : Bool → ℕ → ℕ → ℕ → String × NicStats D → ConnectionStats D
  told_nic variance plugin_major plugin_minor now (ip, nic) =
      record (read_nic_connection_details plugin_major plugin_minor now nic ip empty_stats) {
        histogram = nic_histograms variance nic;
      }

  histograms_lem :
      (variance : Bool) (nic : NicStats D)
      → nic_histograms variance (without_recv nic)
          ++ pointer_entry nic.nic_bw_stats.at_1 Idx.recv_bandwidth
        ≡ nic_histograms variance nic
  unfolding nic_histograms
  histograms_lem variance nic = simp (append-nil)

  pub read_nic_lem :
      (variance : Bool) (plugin_major plugin_minor now : ℕ) (ip : String) (nic : NicStats D)
      → IsComplete variance nic
      → (nic' : NicStats D) × (read_nic variance plugin_major plugin_minor now ip nic
          ≡ some (told_nic variance plugin_major plugin_minor now (ip, nic), nic'))
        × (nic'.nic_bw_stats.at_0 ≡ reset_pointer nic.nic_bw_stats.at_0)
        × (nic'.nic_bw_stats.at_1 ≡ reset_pointer nic.nic_bw_stats.at_1)
  unfolding read_nic told_nic read_nic_distributions read_nic_connection_details
  read_nic_lem variance plugin_major plugin_minor now ip nic k =
      let details = read_nic_connection_details plugin_major plugin_minor now nic ip empty_stats in
      let (n1, e1, z0, s1) =
        read_send_lem variance nic nic.nic_bw_stats.at_0 details.connection_id details.time_stamp
          refl k in
      let m1 =
        extend (started details.connection_id details.time_stamp)
          (nic_histograms variance (without_recv nic)) in
      let (n2, e2, z1, s0) = read_recv_lem n1 nic.nic_bw_stats.at_1 m1 s1 in
      (n2, simp (e1, e2, histograms_lem variance nic), s0 ∙ z0, z1)
