-- ===== src/Aggregator/Nic/Safety.antt =====
-- src/nccl_stats_aggregator.cc: the smoothing of a NIC's buckets does not fault, and keeps what the end
-- of an interval asks of a NIC.
use Prim.Native.String.{String}
use gpuviz.Base.{
  ℕ, ◌+◌, ◌<◌, ◌≤◌, ◌≡◌, ◌∙◌, refl, ap, Bool, true, false, ◌==◌, Option, some, List, [], ◌∷◌, map,
  take, length, get_or, modify, length-map, length-modify, if◌then◌else◌, arith,
}
use gpuviz.Base.{and_left}
use gpuviz.Base.Words.{u64_mod}
use gpuviz.Base.Faults.{◌>>=◌, update_lem, for_range, for_range_inv, get_elem?_lem}
use gpuviz.Double.{DoubleOps}
use gpuviz.Bucketer
use gpuviz.Bucketer.{Bucketer}
use gpuviz.Connection.{at, put, get_bw_vec_valid_limit}
use gpuviz.Connection.Interval.{zeros_like}
use gpuviz.Connection.Interval.Swap.{get_bw_vec_valid_limit_lem}
use gpuviz.MsecBandwidth.{MsecBandwidth, copy_over_bandwidth_stats}
use gpuviz.Aggregator.Nic.{
  NicStats, Constants, Rates, limit_bytes, smooth_bucket, detect_if, submit_to_pointer,
  calculate_and_update_histogram, calculate_if, aggregate_nic, aggregate_nic_stats_in_histogram,
  nccl_nic_send, nccl_nic_recv,
}
use gpuviz.Aggregator.Nic.Addresses.{addresses}
use gpuviz.Aggregator.Nic.Rounds.{Ready, detect_lem, wants, bandwidth}
use gpuviz.Aggregator.Nic.Ready.{put_all, NicReady, AllReady}

module _ {D : Type 0} ⦃o : DoubleOps D⦄ where
  NicReady-Ready : (n : ℕ) (v : Bool) (nic : NicStats D) → NicReady n v nic → Ready v n nic
  NicReady-Ready n v nic r = record {
    load = λ e. omega (arith, r.load 0);
    latency = λ e. omega (arith, r.latency e);
    bw_variance = r.bw_variance;
    latency_variance = r.latency_variance;
  }

  Ready-implied :
      (v w : Bool) (n : ℕ) (nic : NicStats D)
      → (v ≡ true → w ≡ true)
      → Ready w n nic
      → Ready v n nic
  Ready-implied v w n nic h r = record {
    load = λ e. r.load (h e);
    latency = λ e. r.latency (h e);
    bw_variance = λ e. r.bw_variance (h e);
    latency_variance = λ e. r.latency_variance (h e);
  }

  detect-Ready :
      (v wanted : Bool) (k : Constants D) (target : D) (nic : NicStats D) (bw : D) (i n : ℕ)
      → (wanted ≡ true → v ≡ true)
      → Ready v n nic
      → i < n
      → (b l : Option (Bucketer D)) × (detect_if wanted k target nic bw i
          ≡ some (record nic { nic_bw_variance_stats = b; nic_latency_variance_stats = l }))
        × Ready v n (record nic { nic_bw_variance_stats = b; nic_latency_variance_stats = l })
  detect-Ready v false k target nic bw i n h r lt =
      (nic.nic_bw_variance_stats, nic.nic_latency_variance_stats, refl, r)
  detect-Ready v true k target nic bw i n h r lt =
      let (b, l, e, r') = detect_lem true k target nic bw i n (Ready-implied true v n nic h r) lt in
      (
        b,
        l,
        e,
        Ready-implied v true n
            (record nic { nic_bw_variance_stats = b; nic_latency_variance_stats = l }) (λ _. refl)
            r',
      )

  -- One round of the loop.
  smooth_round :
      (k : Constants D) (rates : Rates D) (direction n : ℕ) (i : ℕ) (s : D × NicStats D)
      → i < n
      → NicReady n k.variance_hist_collection_enabled s.1
      → (t : D × NicStats D) × (smooth_bucket k rates direction i s ≡ some t)
        × NicReady n k.variance_hist_collection_enabled t.1
  unfolding smooth_bucket submit_to_pointer
  smooth_round k rates direction n i (carry, nic) h r =
      let v = k.variance_hist_collection_enabled in
      let xs = at nic.nic_bw direction in
      let x = get_or xs i (o.of_nat 0) in
      let g = get_elem?_lem xs i (o.of_nat 0) (omega (arith, r.bw direction)) in
      let (bytes, last) = limit_bytes rates.max_bytes_per_bucket (o.add x carry) in
      let vec = modify xs i (λ _. bytes) in
      let u = update_lem xs i (λ _. bytes) (omega (arith, r.bw direction)) in
      let nic1 : NicStats D = record nic { nic_bw = put nic.nic_bw direction vec } in
      let r1 = NicReady-Ready n v nic r in
      let r2 : Ready v n nic1 = record {
        load = r1.load;
        latency = r1.latency;
        bw_variance = r1.bw_variance;
        latency_variance = r1.latency_variance;
      } in
      let (vb, vl, e, r3) =
        detect-Ready v (wants k direction) k rates.target_bw_per_nic_in_bits_per_sec nic1
          (bandwidth k bytes) i n (and_left v (direction == nccl_nic_send)) r2 h in
      let (b, hb) = r.hist direction in
      let b' = Bucketer.submit b (bandwidth k bytes) in
      (
        (
          last,
          record nic1 {
            nic_bw_variance_stats = vb;
            nic_latency_variance_stats = vl;
            nic_bw_stats = put nic.nic_bw_stats direction (some b');
          },
        ),
        simp (g, u, e, hb),
        record {
          bw =
              put_all (λ ys. length ys ≡ n) nic.nic_bw direction vec
                (length-modify xs i (λ _. bytes) ∙ r.bw direction) r.bw;
          load = r.load;
          hist =
              put_all (λ p. (b : Bucketer D) × (p ≡ some b)) nic.nic_bw_stats direction (some b')
                (b', refl) r.hist;
          latency = r.latency;
          bw_variance = r3.bw_variance;
          latency_variance = r3.latency_variance;
        },
      )

  -- A direction whose buckets have been zeroed.
  zeroed : ℕ → NicStats D → NicStats D
  zeroed direction nic = record nic {
    nic_bw = put nic.nic_bw direction (zeros_like (at nic.nic_bw direction));
    offered_load = put nic.offered_load direction (map (λ _. 0) (at nic.offered_load direction));
  }

  zeroed-NicReady :
      (n direction : ℕ) (v : Bool) (nic : NicStats D)
      → NicReady n v nic
      → NicReady n v (zeroed direction nic)
  unfolding zeroed
  zeroed-NicReady n direction v nic r = record {
    bw =
        put_all (λ ys. length ys ≡ n) nic.nic_bw direction (zeros_like (at nic.nic_bw direction))
          (length-map (at nic.nic_bw direction) (λ _. o.of_nat 0) ∙ r.bw direction) r.bw;
    load =
        put_all (λ ys. length ys ≡ n) nic.offered_load direction
          (map (λ _. 0) (at nic.offered_load direction))
          (length-map (at nic.offered_load direction) (λ _. 0) ∙ r.load direction) r.load;
    hist = r.hist;
    latency = r.latency;
    bw_variance = r.bw_variance;
    latency_variance = r.latency_variance;
  }

  calculate_steps :
      (k : Constants D) (rates : Rates D) (unused direction end : ℕ) (carry last : D)
      (nic nic1 : NicStats D) (msec : MsecBandwidth D)
      → get_bw_vec_valid_limit k.carry_over_buckets unused (length (at nic.nic_bw direction)) ≡ end
      → for_range end 0 (smooth_bucket k rates direction) (carry, nic) ≡ some (last, nic1)
      → ((samples : List D)
          → (if k.msec_bw_output_enabled
              then copy_over_bandwidth_stats direction nic1.nic_ip samples msec
              else some msec)
            ≡ some msec)
      → calculate_and_update_histogram k rates unused direction (carry, nic, msec)
        ≡ some (last, zeroed direction nic1, msec)
  unfolding calculate_and_update_histogram zeroed
  calculate_steps k rates unused direction end carry last nic nic1 msec hl hr hm =
      simp (hl, hr, hm (take end (at nic1.nic_bw direction)))

  pub calculate-NicReady :
      (k : Constants D) (rates : Rates D) (n unused direction : ℕ) (carry : D) (nic : NicStats D)
      (msec : MsecBandwidth D)
      → n < u64_mod
      → unused + k.carry_over_buckets < u64_mod
      → k.msec_bw_output_enabled ≡ false
      → NicReady n k.variance_hist_collection_enabled nic
      → (last : D) × (nic' : NicStats D) × (calculate_and_update_histogram k rates unused direction
            (carry, nic, msec)
          ≡ some (last, nic', msec))
        × NicReady n k.variance_hist_collection_enabled nic'
  calculate-NicReady k rates n unused direction carry nic msec hs hu hm r =
      let v = k.variance_hist_collection_enabled in
      let size = length (at nic.nic_bw direction) in
      let end = get_bw_vec_valid_limit k.carry_over_buckets unused size in
      let limit =
        get_bw_vec_valid_limit_lem k.carry_over_buckets unused size hu
          (omega (arith, r.bw direction)) in
      let le : end ≤ n = omega (arith, limit, r.bw direction) in
      let ((last, nic1), e, r1) =
        for_range_inv {S = D × NicStats D} (λ i s. NicReady n v s.1)
          (smooth_bucket k rates direction) end
          (λ i s h q. smooth_round k rates direction n i s (omega arith) q) end 0 (carry, nic)
          (omega arith) r in
      (
        last,
        zeroed direction nic1,
        calculate_steps k rates unused direction end carry last nic nic1 msec refl e (λ samples.
            ap
              (λ b.
                if b
                then copy_over_bandwidth_stats direction nic1.nic_ip samples msec
                else some msec)
              hm),
        zeroed-NicReady n direction v nic1 r1,
      )

  pub aggregate_nic-NicReady :
      (k : Constants D) (rates : Rates D) (n unused : ℕ) (carry : D) (nic : NicStats D)
      (msec : MsecBandwidth D)
      → n < u64_mod
      → unused + k.carry_over_buckets < u64_mod
      → k.msec_bw_output_enabled ≡ false
      → NicReady n k.variance_hist_collection_enabled nic
      → (last : D) × (nic' : NicStats D) × (aggregate_nic k rates unused (carry, nic, msec)
          ≡ some (last, nic', msec))
        × NicReady n k.variance_hist_collection_enabled nic'
  unfolding aggregate_nic
  aggregate_nic-NicReady k rates n unused carry nic msec hs hu hm r =
      let (b0, h0) = r.hist 0 in
      let (b1, h1) = r.hist 1 in
      let (c1, nic1, e1, r1) =
        calculate-NicReady k rates n unused nccl_nic_send carry nic msec hs hu hm r in
      let (c2, nic2, e2, r2) =
        calculate-NicReady k rates n unused nccl_nic_recv c1 nic1 msec hs hu hm r1 in
      (
        c2,
        nic2,
        ap
              (λ p. calculate_if p k rates unused nccl_nic_send (carry, nic, msec) >>= λ sent.
                calculate_if nic.nic_bw_stats.at_1 k rates unused nccl_nic_recv sent)
              h0
            ∙ ap
                (λ p. p >>= λ sent.
                  calculate_if nic.nic_bw_stats.at_1 k rates unused nccl_nic_recv sent)
                e1
            ∙ ap (λ p. calculate_if p k rates unused nccl_nic_recv (c1, nic1, msec)) h1
            ∙ e2,
        r2,
      )

  pub aggregate_nic_stats-AllReady :
      (k : Constants D) (rates : Rates D) (n unused : ℕ) (carry : D)
      (nics : List (String × NicStats D)) (msec : MsecBandwidth D)
      → n < u64_mod
      → unused + k.carry_over_buckets < u64_mod
      → k.msec_bw_output_enabled ≡ false
      → AllReady n k.variance_hist_collection_enabled nics
      → (last : D) × (nics' : List (String × NicStats D)) × (aggregate_nic_stats_in_histogram k
            rates unused
            (carry, nics, msec)
          ≡ some (last, nics', msec))
        × AllReady n k.variance_hist_collection_enabled nics'
        × (addresses nics' ≡ addresses nics)
  unfolding aggregate_nic_stats_in_histogram
  aggregate_nic_stats-AllReady k rates n unused carry [] msec hs hu hm r =
      (carry, [], refl, tt, refl)
  aggregate_nic_stats-AllReady k rates n unused carry ((ip, nic) ∷ nics) msec hs hu hm (r, rs) =
      let (c1, nic', e, r') = aggregate_nic-NicReady k rates n unused carry nic msec hs hu hm r in
      let (c2, nics', es, rs', a) =
        aggregate_nic_stats-AllReady k rates n unused c1 nics msec hs hu hm rs in
      (c2, (ip, nic') ∷ nics', simp (e, es), (r', rs'), ap (λ l. ip ∷ l) a)
