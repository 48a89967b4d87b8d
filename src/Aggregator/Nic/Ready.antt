-- ===== src/Aggregator/Nic/Ready.antt =====
-- src/nccl_stats_aggregator.cc: what the end of an interval asks of a NIC, and that a new NIC has it.
use Prim.Native.String.{String}
use gpuviz.Base.{
  ℕ, ◌≡◌, ◌∙◌, refl, Bool, true, false, ◌==◌, Option, some, List, All, length, length-map,
  length-replicate, replicate, Bool-cases, inl, inr,
}
use gpuviz.Params.{Env, BucketerParams}
use gpuviz.Params.Buckets.{
  get_bucketer_params_for_nic_bw_histogram, get_bucketer_params_for_nic_bw_variance_histogram,
  get_bucketer_params_for_nic_latency_variance_histogram,
}
use gpuviz.Stats.{mask}
use gpuviz.Stats.Idx
use gpuviz.Double.{DoubleOps}
use gpuviz.Bucketer
use gpuviz.Bucketer.{Bucketer}
use gpuviz.Connection.{is_bw_collection_enabled_in_bit_map, Two, at, put}
use gpuviz.Connection.Setup.Ready.{HasBits, HasBits-enabled}
use gpuviz.Aggregator.Nic.{
  new_pointer, allocate_nic, allocate_nic_bw_aggregation_stats, NicStats, Constants, zero_out_nic,
}

module _ {A : Type 0} (P : A → Type 0) where
  -- What holds of both entries holds of both when one is replaced.
  pub put_all :
      (t : Two A) (i : ℕ) (a : A) → P a → ((j : ℕ) → P (at t j)) → (j : ℕ) → P (at (put t i a) j)
  put_all t i a h k j = elim (Bool-cases (i == 0)) [
    | inl e ↦ elim (Bool-cases (j == 0)) [ inl f ↦ rw (e, f) h | inr f ↦ rw (e, f) (k 1) ]
    | inr e ↦ elim (Bool-cases (j == 0)) [ inl f ↦ rw (e, f) (k 0) | inr f ↦ rw (e, f) h ]
  ]

both : {A : Type 0} (P : A → Type 0) (t : Two A) → P t.at_0 → P t.at_1 → (j : ℕ) → P (at t j)
both P t h k j = elim (Bool-cases (j == 0)) [ inl e ↦ rw e h | inr e ↦ rw e k ]

module _ {D : Type 0} ⦃o : DoubleOps D⦄ where
  -- Both directions have a vector of `n` buckets and a histogram, and where variance is detected there
  -- are latencies and the two histograms of variance.
  pub record NicReady (n : ℕ) (variance : Bool) (nic : NicStats D) : Type 0 where
    pub bw : (i : ℕ) → length (at nic.nic_bw i) ≡ n
    pub load : (i : ℕ) → length (at nic.offered_load i) ≡ n
    pub hist : (i : ℕ) → (b : Bucketer D) × (at nic.nic_bw_stats i ≡ some b)
    pub latency : variance ≡ true → length nic.latency ≡ n
    pub bw_variance : variance ≡ true → (b : Bucketer D) × (nic.nic_bw_variance_stats ≡ some b)
    pub latency_variance :
        variance ≡ true → (b : Bucketer D) × (nic.nic_latency_variance_stats ≡ some b)

  -- The NICs, under the same addresses.
  abbrev pub AllReady : ℕ → Bool → List (String × NicStats D) → Type 0
  AllReady n v nics = All (λ e. NicReady n v e.1) nics

  pub zero_out_nic-NicReady :
      (n : ℕ) (v : Bool) (nic : NicStats D) → NicReady n v nic → NicReady n v (zero_out_nic nic)
  unfolding zero_out_nic
  zero_out_nic-NicReady n v nic r = record {
    bw = λ j. elim (Bool-cases (j == 0)) [
      | inl e ↦ rw e (length-map nic.nic_bw.at_0 (λ _. o.of_nat 0) ∙ r.bw 0)
      | inr e ↦ rw e (length-map nic.nic_bw.at_1 (λ _. o.of_nat 0) ∙ r.bw 1)
    ];
    load = λ j. elim (Bool-cases (j == 0)) [
      | inl e ↦ rw e (length-map nic.offered_load.at_0 (λ _. 0) ∙ r.load 0)
      | inr e ↦ rw e (length-map nic.offered_load.at_1 (λ _. 0) ∙ r.load 1)
    ];
    hist = r.hist;
    latency = λ e. length-map nic.latency (λ _. o.of_nat 0) ∙ r.latency e;
    bw_variance = r.bw_variance;
    latency_variance = r.latency_variance;
  }

  new_pointer-some : (p : BucketerParams D) → (b : Bucketer D) × (new_pointer p ≡ some b)
  new_pointer-some p = (Bucketer.new p.max_buckets p.scale p.base, refl)

  -- A new NIC, under the settings of the aggregator.
  allocated :
      (env : Env D) (k : Constants D) (speed : D) (nic : NicStats D) (v : Bool)
      → is_bw_collection_enabled_in_bit_map k.distribution_collector_bitmap
          (mask Idx.send_latency_sw)
          (mask Idx.send_message_size)
        ≡ true
      → is_bw_collection_enabled_in_bit_map k.distribution_collector_bitmap
          (mask Idx.recv_latency_sw)
          (mask Idx.recv_message_size)
        ≡ true
      → k.variance_hist_collection_enabled ≡ v
      → NicReady k.bw_burst_count v (allocate_nic env k speed nic)
  unfolding allocate_nic allocate_nic_bw_aggregation_stats
  allocated env k speed nic true hs hr hv =
      let n = k.bw_burst_count in
      let p = get_bucketer_params_for_nic_bw_histogram env speed in
      let q = get_bucketer_params_for_nic_bw_variance_histogram env speed in
      let l = get_bucketer_params_for_nic_latency_variance_histogram env in
      let zs : List D = replicate n (o.of_nat 0) in
      let ns : List ℕ = replicate n 0 in
      let z = length-replicate n (o.of_nat 0) in
      let b = new_pointer-some p in
      rw (hs, hr, hv)
        (record {
          bw = both {A = List D} (λ ys. length ys ≡ n) (record { at_0 = zs; at_1 = zs }) z z;
          load =
              both {A = List ℕ} (λ ys. length ys ≡ n) (record { at_0 = ns; at_1 = ns })
                (length-replicate {A = ℕ} n 0) (length-replicate {A = ℕ} n 0);
          hist =
              both {A = Option (Bucketer D)} (λ p. (b : Bucketer D) × (p ≡ some b))
                (record { at_0 = new_pointer p; at_1 = new_pointer p }) b b;
          latency = λ e. z;
          bw_variance = λ e. new_pointer-some q;
          latency_variance = λ e. new_pointer-some l;
        })
  allocated env k speed nic false hs hr hv =
      let n = k.bw_burst_count in
      let p = get_bucketer_params_for_nic_bw_histogram env speed in
      let zs : List D = replicate n (o.of_nat 0) in
      let ns : List ℕ = replicate n 0 in
      let z = length-replicate n (o.of_nat 0) in
      let b = new_pointer-some p in
      rw (hs, hr, hv)
        (record {
          bw = both {A = List D} (λ ys. length ys ≡ n) (record { at_0 = zs; at_1 = zs }) z z;
          load =
              both {A = List ℕ} (λ ys. length ys ≡ n) (record { at_0 = ns; at_1 = ns })
                (length-replicate {A = ℕ} n 0) (length-replicate {A = ℕ} n 0);
          hist =
              both {A = Option (Bucketer D)} (λ p. (b : Bucketer D) × (p ≡ some b))
                (record { at_0 = new_pointer p; at_1 = new_pointer p }) b b;
          latency = λ e. cc;
          bw_variance = λ e. cc;
          latency_variance = λ e. cc;
        })

  pub allocate_nic-NicReady :
      (env : Env D) (k : Constants D) (speed : D) (nic : NicStats D)
      → HasBits k.distribution_collector_bitmap
      → NicReady k.bw_burst_count k.variance_hist_collection_enabled (allocate_nic env k speed nic)
  allocate_nic-NicReady env k speed nic h =
      let (hs, hr) = HasBits-enabled k.distribution_collector_bitmap h in
      allocated env k speed nic k.variance_hist_collection_enabled hs hr refl
