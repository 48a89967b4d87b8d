-- ===== src/Aggregator/Nic/Conserved.antt =====
-- src/nccl_stats_aggregator.cc, `calculateAndUpdateHistogram`: the bytes before and after smoothing.
use gpuviz.Base.{
  ℕ, ◌+◌, ◌<◌, ◌≡◌, refl, true, some, List, [], ◌∷◌, map, length, take, if◌then◌else◌, Bool-cases,
  inl, inr, arith,
}
use gpuviz.Base.Words.{u64_mod}
use gpuviz.Double.{DoubleOps, IsStrictOrder}
use gpuviz.Bucketer.{Bucketer, submit_all}
use gpuviz.Connection.{at}
use gpuviz.MsecBandwidth.{MsecBandwidth, copy_over_bandwidth_stats}
use gpuviz.Aggregator.Nic.{NicStats, Constants, Rates, limit_bytes, calculate_and_update_histogram}
use gpuviz.Aggregator.Nic.Rounds.{Ready, wants, bandwidth}
use gpuviz.Aggregator.Nic.Smoothing.{
  smoothed, limit_of, smoothed_nic, calculate_and_update_histogram-IsSmoothed,
}

module _ {D : Type 0} ⦃o : DoubleOps D⦄ (value : D → ℕ) where
  abbrev pub total_value : List D → ℕ
  total_value [] = 0
  total_value (x ∷ xs) = value x + total_value xs

  -- The sums and differences that the loop computes on these buckets are exact, where `value` tells
  -- the bytes in a double: so they are while they are whole numbers up to 2^53.
  abbrev pub IsExactRun : D → D → List D → Type 0
  IsExactRun max carry [] = Unit {0}
  IsExactRun max carry (x ∷ xs) =
      (value (o.add x carry) ≡ value x + value carry)
      × (o.lt max (o.add x carry) ≡ true
          → value (o.sub (o.add x carry) max) + value max ≡ value (o.add x carry))
      × IsExactRun max (limit_bytes max (o.add x carry)).1 xs

  limit_value :
      (max y : D)
      → value (o.of_nat 0) ≡ 0
      → (o.lt max y ≡ true → value (o.sub y max) + value max ≡ value y)
      → value (limit_bytes max y).0 + value (limit_bytes max y).1 ≡ value y
  unfolding limit_bytes
  limit_value max y z h = elim (Bool-cases (o.lt max y)) [
    | inl over ↦ rw over (omega (arith, h over))
    | inr fits ↦ rw fits (omega (arith, z))
  ]

  smoothed-total :
      (max carry : D) (xs : List D)
      → value (o.of_nat 0) ≡ 0
      → IsExactRun max carry xs
      → let (ys, last) = smoothed max carry xs in
        total_value ys + value last ≡ total_value xs + value carry
  unfolding smoothed
  smoothed-total max carry [] z h = refl
  smoothed-total max carry (x ∷ xs) z (sum, rest, h) =
      let y = o.add x carry in
      omega (arith, sum, limit_value max y z rest, smoothed-total max (limit_bytes max y).1 xs z h)

  -- Where < is a strict order, the loop finds the histogram and what else it reads, the millisecond
  -- output takes the data, and the sums and differences that the loop computes on these buckets are
  -- exact: it submits the bandwidths of the buckets after smoothing, and their bytes with those that
  -- are carried on past the last bucket are the bytes of the buckets before, with those that were
  -- carried over to the first.
  pub calculate_and_update_histogram-conserves :
      (k : Constants D) (rates : Rates D) (n unused direction : ℕ) (carry : D) (nic : NicStats D)
      (msec msec' : MsecBandwidth D) (b : Bucketer D)
      → IsStrictOrder o
      → value (o.of_nat 0) ≡ 0
      → IsExactRun rates.max_bytes_per_bucket carry
          (take (limit_of k n unused) (at nic.nic_bw direction))
      → length (at nic.nic_bw direction) ≡ n
      → n < u64_mod
      → unused + k.carry_over_buckets < u64_mod
      → at nic.nic_bw_stats direction ≡ some b
      → Ready (wants k direction) n nic
      → (if k.msec_bw_output_enabled
          then copy_over_bandwidth_stats direction nic.nic_ip
              (smoothed_nic k rates n direction unused carry nic).0
              msec
          else some msec)
        ≡ some msec'
      → (ys : List D) × (last : D) × (nic' : NicStats D) × (calculate_and_update_histogram k rates
            unused direction
            (carry, nic, msec)
          ≡ some (last, nic', msec'))
        × (at nic'.nic_bw_stats direction ≡ some (submit_all b (map (bandwidth k) ys)))
        × (total_value ys + value last
            ≡ total_value (take (limit_of k n unused) (at nic.nic_bw direction)) + value carry)
  calculate_and_update_histogram-conserves k rates n unused direction carry nic msec msec' b st z h
        hn hs hu hb r hm =
      let (nic', e, s) =
        calculate_and_update_histogram-IsSmoothed k rates n unused direction carry nic msec msec' b
          st hn hs hu hb r hm in
      let (ys, last) = smoothed_nic k rates n direction unused carry nic in
      (
        ys,
        last,
        nic',
        e,
        s.histogram,
        smoothed-total rates.max_bytes_per_bucket carry
            (take (limit_of k n unused) (at nic.nic_bw direction)) z h,
      )
