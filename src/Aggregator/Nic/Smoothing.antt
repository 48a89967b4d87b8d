-- ===== src/Aggregator/Nic/Smoothing.antt =====
-- src/nccl_stats_aggregator.cc, `calculateAndUpdateHistogram`: how the bytes of a NIC's buckets are
-- limited to what the NIC can send, and what the next buckets get.
use mathlib.Core.List.{append_assoc}
use gpuviz.Base.{
  ℕ, suc, ◌+◌, ◌≤◌, ◌<◌, ◌≡◌, ◌∙◌, refl, sym, ap, false, some, List, [], ◌∷◌, ◌++◌, map, length,
  take, drop, All, length-append, if◌then◌else◌, Bool-cases, inl, inr, arith,
}
use gpuviz.Base.Faults.{for_range, for_range-zero, for_range-suc}
use gpuviz.Double.{DoubleOps, IsStrictOrder}
use gpuviz.Bucketer
use gpuviz.Bucketer.{Bucketer, submit_all}
use gpuviz.Connection.{at, put}
use gpuviz.Connection.Shape.{at-put}
use gpuviz.Aggregator.Nic.{NicStats, Constants, Rates, limit_bytes, smooth_bucket}
use gpuviz.Bucketer.Counts.{submit_all-nil, submit_all-cons}
use gpuviz.Base.{◌-◌, length-take, length-drop, take-append, take-append-drop, length-map}
use gpuviz.Base.Words.{u64_mod}
use gpuviz.Connection.{get_bw_vec_valid_limit}
use gpuviz.Connection.Interval.{zeros_like}
use gpuviz.Connection.Interval.Swap.{get_bw_vec_valid_limit_lem}
use gpuviz.MsecBandwidth.{MsecBandwidth, copy_over_bandwidth_stats}
use gpuviz.Aggregator.Nic.{calculate_and_update_histogram}
use gpuviz.Aggregator.Nic.Rounds.{Ready, Kept, Kept-trans, wants, bandwidth, smooth_step}

module _ {D : Type 0} ⦃o : DoubleOps D⦄ where
  -- The bytes of the buckets after smoothing, and those carried over past the last.
  unfoldable pub smoothed : D → D → List D → List D × D
  smoothed max carry [] = ([], carry)
  smoothed max carry (x ∷ xs) =
      let (y, c) = limit_bytes max (o.add x carry) in
      let (ys, last) = smoothed max c xs in (y ∷ ys, last)

  -- No bucket holds more than it may.
  pub smoothed-All :
      IsStrictOrder o
      → (max carry : D) (xs : List D) → All (λ y. o.lt max y ≡ false) (smoothed max carry xs).0
  unfolding smoothed limit_bytes
  smoothed-All s max carry [] = tt
  smoothed-All s max carry (b ∷ xs) = elim (Bool-cases (o.lt max (o.add b carry))) [
    | inl over ↦ rw over (s.lt_irrefl max, smoothed-All s max (o.sub (o.add b carry) max) xs)
    | inr fits ↦ rw fits (fits, smoothed-All s max (o.of_nat 0) xs)
  ]

  pub length-smoothed : (max carry : D) (xs : List D) → length (smoothed max carry xs).0 ≡ length xs
  unfolding smoothed
  length-smoothed max carry [] = refl
  length-smoothed max carry (b ∷ xs) =
      ap suc (length-smoothed max (limit_bytes max (o.add b carry)).1 xs)

  -- The loop over `xs`, with what stands before and after them in the vector.
  smooth_loop :
      (k : Constants D) (rates : Rates D) (direction m : ℕ) (carry : D) (nic : NicStats D)
      (done xs rest : List D) (b : Bucketer D)
      → at nic.nic_bw direction ≡ done ++ (xs ++ rest)
      → at nic.nic_bw_stats direction ≡ some b
      → Ready (wants k direction) m nic
      → length done + length xs ≤ m
      → let (ys, last) = smoothed rates.max_bytes_per_bucket carry xs in
        (nic' : NicStats D) × (for_range
            (length xs)
            (length done)
            (smooth_bucket k rates direction)
            (carry, nic)
          ≡ some (last, nic'))
        × (at nic'.nic_bw direction ≡ done ++ (ys ++ rest))
        × (at nic'.nic_bw_stats direction ≡ some (submit_all b (map (bandwidth k) ys)))
        × Ready (wants k direction) m nic'
        × Kept direction nic nic'
  unfolding smoothed
  smooth_loop k rates direction m carry nic done [] rest b hv hb r h = (
    nic,
    for_range-zero (length done) (smooth_bucket k rates direction) (carry, nic),
    hv,
    hb ∙ ap some (sym (submit_all-nil b)),
    r,
    record { load = refl; latency = refl; ip = refl },
  )
  smooth_loop k rates direction m carry nic done (x ∷ xs) rest b hv hb r h =
      let (y, c) = limit_bytes rates.max_bytes_per_bucket (o.add x carry) in
      let (nic1, e1, v1, b1, r1, k1) =
        smooth_step k rates direction m carry nic done (xs ++ rest) x b hv hb r (omega arith) in
      let n = length-append done (y ∷ []) in
      let (nic2, e2, v2, b2, r2, k2) =
        smooth_loop k rates direction m c nic1 (done ++ (y ∷ [])) xs rest
          (Bucketer.submit b (bandwidth k y)) v1 b1 r1 (omega (arith, n)) in
      let ys = (smoothed rates.max_bytes_per_bucket c xs).0 in
      (
        nic2,
        for_range-suc (length xs) (length done) (smooth_bucket k rates direction) (carry, nic)
              (c, nic1) e1
            ∙ rw (sym n) e2,
        v2 ∙ append_assoc done (y ∷ []) (ys ++ rest),
        b2 ∙ ap some (sym (submit_all-cons b (bandwidth k y) (map (bandwidth k) ys))),
        r2,
        Kept-trans direction nic nic1 nic2 k1 k2,
      )

  -- How many buckets of a direction are smoothed.
  abbrev pub limit_of : Constants D → ℕ → ℕ → ℕ
  limit_of k n unused_buckets = n - (unused_buckets + k.carry_over_buckets)

  -- The bytes of the buckets after smoothing, and those carried over.
  abbrev pub smoothed_nic : Constants D → Rates D → ℕ → ℕ → ℕ → D → NicStats D → List D × D
  smoothed_nic k rates n direction unused_buckets carry nic =
      smoothed rates.max_bytes_per_bucket carry
        (take (limit_of k n unused_buckets) (at nic.nic_bw direction))

  -- What `calculateAndUpdateHistogram` has done to direction `direction` of a NIC.
  pub record IsSmoothed (k : Constants D) (rates : Rates D) (n direction unused : ℕ) (carry : D)
      (b : Bucketer D) (nic nic' : NicStats D) : Type 0 where
    pub histogram :
        at nic'.nic_bw_stats direction
        ≡ some
            (submit_all b (map (bandwidth k) (smoothed_nic k rates n direction unused carry nic).0))
    pub number : length (smoothed_nic k rates n direction unused carry nic).0 ≡ limit_of k n unused
    pub capped :
        All
          (λ y. o.lt rates.max_bytes_per_bucket y ≡ false)
          (smoothed_nic k rates n direction unused carry nic).0
    pub size : length (at nic'.nic_bw direction) ≡ n
    pub zeroed : All (λ y. y ≡ o.of_nat 0) (at nic'.nic_bw direction)

  zeros_like-All : (xs : List D) → All (λ y. y ≡ o.of_nat 0) (zeros_like xs)
  zeros_like-All [] = tt
  zeros_like-All (x ∷ xs) = (refl, zeros_like-All xs)

  zeroed_by :
      {xs ys : List D} → xs ≡ ys → All (λ y. y ≡ o.of_nat 0) ys → All (λ y. y ≡ o.of_nat 0) xs
  zeroed_by e h = rw e h

  calculate_steps :
      (k : Constants D) (rates : Rates D) (unused direction end : ℕ) (carry last : D)
      (nic nic1 : NicStats D) (msec msec' : MsecBandwidth D) (ys rest : List D)
      → get_bw_vec_valid_limit k.carry_over_buckets unused (length (at nic.nic_bw direction)) ≡ end
      → for_range end 0 (smooth_bucket k rates direction) (carry, nic) ≡ some (last, nic1)
      → at nic1.nic_bw direction ≡ ys ++ rest
      → length ys ≡ end
      → (if k.msec_bw_output_enabled
          then copy_over_bandwidth_stats direction nic1.nic_ip ys msec
          else some msec)
        ≡ some msec'
      → calculate_and_update_histogram k rates unused direction (carry, nic, msec)
        ≡ some (
          last,
          record nic1 {
            nic_bw = put nic1.nic_bw direction (zeros_like (at nic1.nic_bw direction));
            offered_load =
                put nic1.offered_load direction (map (λ _. 0) (at nic1.offered_load direction));
          },
          msec',
        )
  unfolding calculate_and_update_histogram
  calculate_steps k rates unused direction end carry last nic nic1 msec msec' ys rest hl hr hv hn
        hm =
      let t : take end (at nic1.nic_bw direction) ≡ ys = rw (hv, sym hn) (take-append ys rest) in
      simp (hl, hr, t, hm)

  -- Where < is a strict order, the histogram is there, and also what the detection of variance reads,
  -- and the millisecond output takes the data, the loop does not fault: every bucket that is neither
  -- unused nor carried over gets its bytes and those carried over to it, as far as the NIC can send
  -- them, and the rest goes to the next bucket; the bandwidths of these buckets are submitted in
  -- order, and the vector is zeroed.
  pub calculate_and_update_histogram-IsSmoothed :
      (k : Constants D) (rates : Rates D) (n unused direction : ℕ) (carry : D) (nic : NicStats D)
      (msec msec' : MsecBandwidth D) (b : Bucketer D)
      → IsStrictOrder o
      → length (at nic.nic_bw direction) ≡ n
      → n < u64_mod
      → unused + k.carry_over_buckets < u64_mod
      → at nic.nic_bw_stats direction ≡ some b
      → Ready (wants k direction) n nic
      → (if k.msec_bw_output_enabled
          then copy_over_bandwidth_stats direction nic.nic_ip
              (smoothed_nic k rates n direction unused carry nic).0
              msec
          else some msec)
        ≡ some msec'
      → (nic' : NicStats D) × (calculate_and_update_histogram k rates unused direction
            (carry, nic, msec)
          ≡ some ((smoothed_nic k rates n direction unused carry nic).1, nic', msec'))
        × IsSmoothed k rates n direction unused carry b nic nic'
  calculate_and_update_histogram-IsSmoothed k rates n unused direction carry nic msec msec' b st hn
        hs hu hb r hm =
      let vec = at nic.nic_bw direction in
      let end = limit_of k n unused in
      let xs = take end vec in
      let max = rates.max_bytes_per_bucket in
      let ys = (smoothed max carry xs).0 in
      let lx : length xs ≡ end = omega (arith, length-take end vec) in
      let ly : length ys ≡ end = length-smoothed max carry xs ∙ lx in
      let le : get_bw_vec_valid_limit k.carry_over_buckets unused (length vec) ≡ end =
        rw hn (get_bw_vec_valid_limit_lem k.carry_over_buckets unused n hu hs) in
      let (nic1, e1, v1, b1, r1, k1) =
        smooth_loop k rates direction n carry nic [] xs (drop end vec) b
          (sym (take-append-drop end vec)) hb r (omega (arith, lx)) in
      let loop : for_range end 0 (smooth_bucket k rates direction) (carry, nic)
          ≡ some ((smoothed max carry xs).1, nic1) =
        ap (λ z. for_range z 0 (smooth_bucket k rates direction) (carry, nic)) (sym lx) ∙ e1 in
      let same : length (at nic1.nic_bw direction) ≡ n =
        ap length v1 ∙ omega (arith, length-append ys (drop end vec), length-drop end vec) in
      let nic' : NicStats D = record nic1 {
        nic_bw = put nic1.nic_bw direction (zeros_like (at nic1.nic_bw direction));
        offered_load =
            put nic1.offered_load direction (map (λ _. 0) (at nic1.offered_load direction));
      } in
      let z = at-put nic1.nic_bw direction (zeros_like (at nic1.nic_bw direction)) in
      (
        nic',
        calculate_steps k rates unused direction end carry (smoothed max carry xs).1 nic nic1 msec
            msec' ys (drop end vec) le loop v1 ly
            (ap
                (λ ip.
                  if k.msec_bw_output_enabled
                  then copy_over_bandwidth_stats direction ip ys msec
                  else some msec)
                k1.ip
              ∙ hm),
        record {
          histogram = b1;
          number = ly;
          capped = smoothed-All st max carry xs;
          size = ap length z ∙ length-map (at nic1.nic_bw direction) (λ _. o.of_nat 0) ∙ same;
          zeroed = zeroed_by z (zeros_like-All (at nic1.nic_bw direction));
        },
      )
