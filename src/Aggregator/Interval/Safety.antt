-- ===== src/Aggregator/Interval/Safety.antt =====
-- src/nccl_stats_aggregator.cc: what `processHighFrequencyTelemetry` asks of the aggregator.
use Prim.Native.String.{String}
use gpuviz.Base.{
  ℕ, ◌+◌, ◌<◌, ◌≤◌, ◌≡◌, ◌∙◌, refl, ap, Bool, true, false, some, List, [], ◌∷◌, arith, Bool-cases,
  inl, inr, if◌then◌else◌, ◌==◌, ltb, ◌/◌,
}
use gpuviz.Base.Words.{u64_mod, add_u64, sub_u64}
use gpuviz.Double.{DoubleOps}
use gpuviz.Connection.{Connection}
use gpuviz.Connection.Interval.Ready.{collects}
use gpuviz.Connection.Setup.Ready.{HasBits}
use gpuviz.MsecBandwidth.{register_current_time_in_milliseconds}
use gpuviz.Aggregator.{Aggregator}
use gpuviz.Aggregator.Nic.{NicStats, Constants}
use gpuviz.Aggregator.Nic.Addresses.{addresses}
use gpuviz.Aggregator.Nic.Ready.{AllReady, zero_out_nic-NicReady}
use gpuviz.Aggregator.Nic.Safety.{aggregate_nic_stats-AllReady}
use gpuviz.Aggregator.Interval.{
  process_interval, unused_buckets_of, new_start_time, zero_out_nic_stats,
  process_high_frequency_telemetry,
}
use gpuviz.Aggregator.Interval.Served.{
  AllServed, swap_all-AllServed, aggregate_all-AllServed, variance_if-AllServed,
}

module _ {D : Type 0} ⦃o : DoubleOps D⦄ where
  zero_out_nic_stats-AllReady :
      (n : ℕ) (v : Bool) (nics : List (String × NicStats D))
      → AllReady n v nics
      → AllReady n v (zero_out_nic_stats nics)
        × (addresses (zero_out_nic_stats nics) ≡ addresses nics)
  unfolding zero_out_nic_stats
  zero_out_nic_stats-AllReady n v [] r = (tt, refl)
  zero_out_nic_stats-AllReady n v ((ip, nic) ∷ nics) (r, rs) =
      let (ih, a) = zero_out_nic_stats-AllReady n v nics rs in
      ((zero_out_nic-NicReady n v nic r, ih), ap (λ l. ip ∷ l) a)

  unused_buckets_of-le :
      (k : Constants D) (start now : ℕ)
      → k.bw_burst_count < u64_mod
      → unused_buckets_of k start now ≤ k.bw_burst_count
  unfolding unused_buckets_of
  unused_buckets_of-le k start now h =
      let used = add_u64 (sub_u64 now start / k.bw_bucket_time_in_milliseconds) 1 in
      elim (Bool-cases (start == 0)) [
        | inl e ↦ rw e (omega arith)
        | inr e ↦ elim (Bool-cases (ltb used k.bw_burst_count)) [
          | inl f ↦ rw (e, f) (ground arith)
          | inr f ↦ rw (e, f) (omega arith)
        ]
      ]

  -- Settings under which the aggregator works. Bandwidth is collected, from all that it is made of, and
  -- there is no output by the millisecond; the vectors have a bucket, and room for those that are
  -- carried over, without an overflow.
  pub record IsSound (k : Constants D) : Type 0 where
    pub enabled : k.bw_hist_collection_enabled ≡ true
    pub bits : HasBits k.distribution_collector_bitmap
    pub no_msec_output : k.msec_bw_output_enabled ≡ false
    pub buckets : 0 < k.bw_burst_count
    pub carried : k.carry_over_buckets ≤ k.bw_burst_count
    pub fits : k.bw_burst_count + k.carry_over_buckets < u64_mod

  -- What an interval asks of the aggregator: sound settings, and that every NIC has its vectors and
  -- histograms, and every connection too, and its NIC.
  pub record IsOperable {L : Type 0} (a : Aggregator D L) : Type 0 where
    pub sound : IsSound a.constants
    pub nics :
        AllReady a.constants.bw_burst_count a.constants.variance_hist_collection_enabled
          a.nic_bw_map
    pub connections :
        AllServed a.constants.bw_burst_count a.constants.carry_over_buckets
          (collects a.constants.distribution_collector_bitmap)
          a.constants.variance_hist_collection_enabled
          (addresses a.nic_bw_map)
          a.connection_handlers_map

  abbrev pub handles : List (ℕ × Connection D) → List ℕ
  handles [] = []
  handles ((key, c) ∷ cs) = key ∷ handles cs

  -- The end of an interval does not fault in an operable aggregator, whatever the clocks say, and leaves
  -- an operable one with the same settings.
  pub process-IsOperable :
      {L : Type 0} (now wall : ℕ) (a : Aggregator D L)
      → IsOperable a
      → (a' : Aggregator D L) × (process_high_frequency_telemetry now wall a ≡ some a')
        × IsOperable a'
        × (a'.constants ≡ a.constants)
        × (a'.bw_collection_start_time_milliseconds ≡ new_start_time a.constants now)
  unfolding process_high_frequency_telemetry process_interval
  process-IsOperable now wall a p =
      let k = a.constants in
      let n = k.bw_burst_count in
      let w = collects k.distribution_collector_bitmap in
      let v = k.variance_hist_collection_enabled in
      let start = new_start_time k now in
      let unused = unused_buckets_of k a.bw_collection_start_time_milliseconds now in
      let small : unused + k.carry_over_buckets < u64_mod = omega (
        arith,
        unused_buckets_of-le k a.bw_collection_start_time_milliseconds now
            (omega (arith, p.sound.fits)),
        p.sound.fits,
      ) in
      let msec =
        if k.msec_bw_output_enabled
        then register_current_time_in_milliseconds wall now a.msec_bw
        else a.msec_bw in
      let ips = addresses a.nic_bw_map in
      let (cs1, e1, s1) =
        swap_all-AllServed n k.carry_over_buckets w v ips start unused a.connection_handlers_map
          small p.connections in
      let (nics2, cs2, e2, a2, r2, s2) =
        aggregate_all-AllServed n k.carry_over_buckets w v ips unused a.nic_bw_map cs1 small refl
          p.nics s1 in
      let (cs3, e3, s3) =
        variance_if-AllServed n k.carry_over_buckets w v ips unused nics2 cs2 small a2 r2 s2 in
      let (last, nics4, e4, r4, a4) =
        aggregate_nic_stats-AllReady k a.rates n unused a.carry_over_bytes_from_last_generation
          nics2 msec (omega (arith, p.sound.fits)) small p.sound.no_msec_output r2 in
      let (r5, a5) = zero_out_nic_stats-AllReady n v nics4 r4 in
      let same : addresses (zero_out_nic_stats nics4) ≡ ips = a5 ∙ a4 ∙ a2 in
      (
        record a {
          bw_collection_start_time_milliseconds = start;
          connection_handlers_map = cs3;
          nic_bw_map = zero_out_nic_stats nics4;
          carry_over_bytes_from_last_generation = last;
          msec_bw = msec;
        },
        ap (λ b. if b then process_interval now wall a else some a) p.sound.enabled
            ∙ simp (e1, e2, e3, e4),
        record { sound = p.sound; nics = r5; connections = rw same s3 },
        refl,
        refl,
      )
