-- ===== src/Aggregator/Nic/Rounds.antt =====
-- src/nccl_stats_aggregator.cc: one round of the loop of `calculateAndUpdateHistogram`.
use mathlib.Core.List.{append_assoc}
use gpuviz.Base.{
  ℕ, ◌≤◌, ◌<◌, ◌≡◌, ◌∙◌, refl, sym, Bool, true, false, ◌&&◌, ◌==◌, Option, some, List, [], ◌∷◌,
  ◌++◌, length, get_elem?, get_elem?-middle, get_or, Bool-cases, inl, inr, arith,
}
use gpuviz.Base.Faults.{update-middle, get_elem?_lem}
use gpuviz.Double.{DoubleOps}
use gpuviz.Bucketer
use gpuviz.Bucketer.{Bucketer, submit_all}
use gpuviz.Connection.{at, put, calculate_bw_per_bucket_in_bits_per_sec}
use gpuviz.Connection.Shape.{at-put}
use gpuviz.Aggregator.Nic.{
  NicStats, Constants, Rates, limit_bytes, smooth_bucket, detect_if, nccl_nic_send,
  detect_and_update_variance_histograms, submit_to_pointer, submit_if_positive, bandwidth_variance,
}
use gpuviz.Connection.Interval.{latency_variance}

module _ {D : Type 0} ⦃o : DoubleOps D⦄ where
  -- Where variance is detected, the vectors and the histograms that it reads are there.
  pub record Ready (wanted : Bool) (m : ℕ) (nic : NicStats D) : Type 0 where
    pub load : wanted ≡ true → m ≤ length nic.offered_load.at_0
    pub latency : wanted ≡ true → m ≤ length nic.latency
    pub bw_variance : wanted ≡ true → (b : Bucketer D) × (nic.nic_bw_variance_stats ≡ some b)
    pub latency_variance :
        wanted ≡ true → (b : Bucketer D) × (nic.nic_latency_variance_stats ≡ some b)

  submit_if_positive_lem :
      (p : Option (Bucketer D)) (b : Bucketer D) (v : D)
      → p ≡ some b
      → (b' : Bucketer D) × (submit_if_positive p v ≡ some (some b'))
  unfolding submit_to_pointer
  submit_if_positive_lem p b v h = elim (Bool-cases (o.lt (o.of_nat 0) v)) [
    | inl e ↦ (Bucketer.submit b v, rw (e, h) refl)
    | inr e ↦ (b, rw (e, h) refl)
  ]

  detect_steps :
      (k : Constants D) (target : D) (nic : NicStats D) (bw : D) (i load : ℕ) (x : D)
      (b l : Option (Bucketer D))
      → get_elem? nic.offered_load.at_0 i ≡ some load
      → get_elem? nic.latency i ≡ some x
      → submit_if_positive nic.nic_bw_variance_stats
          (bandwidth_variance k.bw_bucket_time_in_milliseconds target load bw)
        ≡ some b
      → submit_if_positive nic.nic_latency_variance_stats
          (latency_variance k.baseline_latency_in_ns target load x)
        ≡ some l
      → detect_if true k target nic bw i
        ≡ some (record nic { nic_bw_variance_stats = b; nic_latency_variance_stats = l })
  unfolding detect_and_update_variance_histograms
  detect_steps k target nic bw i load x b l e f g h = simp (e, f, g, h)

  pub detect_lem :
      (wanted : Bool) (k : Constants D) (target : D) (nic : NicStats D) (bw : D) (i m : ℕ)
      → Ready wanted m nic
      → i < m
      → (b l : Option (Bucketer D)) × (detect_if wanted k target nic bw i
          ≡ some (record nic { nic_bw_variance_stats = b; nic_latency_variance_stats = l }))
        × Ready wanted m (record nic { nic_bw_variance_stats = b; nic_latency_variance_stats = l })
  detect_lem false k target nic bw i m r h =
      (nic.nic_bw_variance_stats, nic.nic_latency_variance_stats, refl, r)
  detect_lem true k target nic bw i m r h =
      let (b0, eb) = r.bw_variance refl in
      let (l0, el) = r.latency_variance refl in
      let load = get_or nic.offered_load.at_0 i 0 in
      let x = get_or nic.latency i (o.of_nat 0) in
      let (b, fb) =
        submit_if_positive_lem nic.nic_bw_variance_stats b0
          (bandwidth_variance k.bw_bucket_time_in_milliseconds target load bw) eb in
      let (l, fl) =
        submit_if_positive_lem nic.nic_latency_variance_stats l0
          (latency_variance k.baseline_latency_in_ns target load x) el in
      (
        some b,
        some l,
        detect_steps k target nic bw i load x (some b) (some l)
            (get_elem?_lem nic.offered_load.at_0 i 0 (omega (arith, r.load refl)))
            (get_elem?_lem nic.latency i (o.of_nat 0) (omega (arith, r.latency refl))) fb fl,
        record {
          load = r.load;
          latency = r.latency;
          bw_variance = λ _. (b, refl);
          latency_variance = λ _. (l, refl);
        },
      )

  -- What a round keeps.
  pub record Kept (direction : ℕ) (nic nic' : NicStats D) : Type 0 where
    pub load : nic'.offered_load ≡ nic.offered_load
    pub latency : nic'.latency ≡ nic.latency
    pub ip : nic'.nic_ip ≡ nic.nic_ip

  pub Kept-trans :
      (direction : ℕ) (a b c : NicStats D)
      → Kept direction a b
      → Kept direction b c
      → Kept direction a c
  Kept-trans direction a b c p q = record {
    load = q.load ∙ p.load;
    latency = q.latency ∙ p.latency;
    ip = q.ip ∙ p.ip;
  }

  abbrev pub wants : Constants D → ℕ → Bool
  wants k direction = k.variance_hist_collection_enabled && direction == nccl_nic_send

  abbrev pub bandwidth : Constants D → D → D
  bandwidth k y = calculate_bw_per_bucket_in_bits_per_sec y k.bw_bucket_time_in_milliseconds

  -- A round limits the bytes of its bucket, carries over the rest, and submits the bandwidth.
  pub smooth_step :
      (k : Constants D) (rates : Rates D) (direction m : ℕ) (carry : D) (nic : NicStats D)
      (done rest : List D) (x : D) (b : Bucketer D)
      → at nic.nic_bw direction ≡ done ++ x ∷ rest
      → at nic.nic_bw_stats direction ≡ some b
      → Ready (wants k direction) m nic
      → length done < m
      → let (y, c) = limit_bytes rates.max_bytes_per_bucket (o.add x carry) in
        (nic' : NicStats D) × (smooth_bucket k rates direction (length done) (carry, nic)
          ≡ some (c, nic'))
        × (at nic'.nic_bw direction ≡ (done ++ (y ∷ [])) ++ rest)
        × (at nic'.nic_bw_stats direction ≡ some (Bucketer.submit b (bandwidth k y)))
        × Ready (wants k direction) m nic'
        × Kept direction nic nic'
  unfolding smooth_bucket submit_to_pointer
  smooth_step k rates direction m carry nic done rest x b hv hb r h =
      let (y, c) = limit_bytes rates.max_bytes_per_bucket (o.add x carry) in
      let vec = done ++ y ∷ rest in
      let nic1 : NicStats D = record nic { nic_bw = put nic.nic_bw direction vec } in
      let r1 : Ready (wants k direction) m nic1 = record {
        load = r.load;
        latency = r.latency;
        bw_variance = r.bw_variance;
        latency_variance = r.latency_variance;
      } in
      let (vb, vl, e, r2) =
        detect_lem (wants k direction) k rates.target_bw_per_nic_in_bits_per_sec nic1
          (bandwidth k y) (length done) m r1 h in
      let u = update-middle done rest x (λ _. y) in
      let g = get_elem?-middle done rest x in
      let nic2 : NicStats D = record nic1 {
        nic_bw_variance_stats = vb;
        nic_latency_variance_stats = vl;
      } in
      let b' = Bucketer.submit b (bandwidth k y) in
      (
        record nic2 { nic_bw_stats = put nic.nic_bw_stats direction (some b') },
        simp (hv, g, u, e, hb),
        at-put nic.nic_bw direction vec ∙ sym (append_assoc done (y ∷ []) rest),
        at-put nic.nic_bw_stats direction (some b'),
        record {
          load = r2.load;
          latency = r2.latency;
          bw_variance = r2.bw_variance;
          latency_variance = r2.latency_variance;
        },
        record { load = refl; latency = refl; ip = refl },
      )
