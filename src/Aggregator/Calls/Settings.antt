-- ===== src/Aggregator/Calls/Settings.antt =====
-- src/nccl_stats_aggregator.cc, the constructor: which settings of src/params.cc the aggregator works
-- under.
use gpuviz.Base.{ℕ, ◌+◌, ◌/◌, ◌<◌, ◌≤◌, ◌≡◌, ◌∙◌, refl, ap, true, false, arith}
use gpuviz.Base.Int.{ℤ, pos, negsuc, ◌+ℤ◌, of_i64}
use gpuviz.Base.Words.{u64_mod}
use gpuviz.Double.{DoubleOps}
use gpuviz.Params.{Env}
use gpuviz.Params.Settings.{
  get_bandwidth_burst_bucket_count, get_jitter_bandwidth_bucket_count,
  get_bandwidth_bucket_time_in_milliseconds, get_max_expected_latency_per_tx_in_milliseconds,
  is_bandwidth_histogram_collection_enabled, is_millisecond_bandwidth_output_enabled,
}
use gpuviz.Params.Settings.Ranges.{Within, settings-Within}
use gpuviz.Connection.Setup.Ready.{HasBits}
use gpuviz.Aggregator.{new_constants}
use gpuviz.Aggregator.Interval.Safety.{IsSound}

Within-pos :
    (low high : ℕ) (z : ℤ)
    → Within (pos low) (pos high) z
    → (n : ℕ) × (z ≡ pos n) × (low ≤ n) × (n ≤ high)
Within-pos low high (pos n) h = (n, refl, omega arith, omega arith)
Within-pos low high (negsuc n) h = absurd (omega arith)

sum_lem : (m n : ℕ) → m + n < u64_mod → of_i64 (pos m +ℤ pos n) ≡ m + n
sum_lem m n h = ground arith

module _ {D : Type 0} ⦃o : DoubleOps D⦄ where
  -- The settings under which no call faults: bandwidth is collected, and the plugin asks for all that it
  -- is made of, the output by the millisecond is off, and no more buckets are carried over than the
  -- vectors have.
  pub record IsWorkable (env : Env D) (bitmap : ℕ) : Type 0 where
    pub enabled : is_bandwidth_histogram_collection_enabled env ≡ true
    pub bits : HasBits bitmap
    pub no_msec_output : is_millisecond_bandwidth_output_enabled env ≡ false
    pub carried :
        of_i64 (get_max_expected_latency_per_tx_in_milliseconds env)
          / of_i64 (get_bandwidth_bucket_time_in_milliseconds env)
        ≤ of_i64 (get_bandwidth_burst_bucket_count env +ℤ get_jitter_bandwidth_bucket_count env)

  pub new_constants-IsSound :
      (env : Env D) (bitmap : ℕ) → IsWorkable env bitmap → IsSound (new_constants env bitmap)
  unfolding new_constants
  new_constants-IsSound env bitmap h =
      let (_, _, _, burst, jitter, _, _, _, _, _) = settings-Within env in
      let (m, em, lm, hm) = Within-pos 1 1000 (get_bandwidth_burst_bucket_count env) burst in
      let (n, en, ln, hn) = Within-pos 0 100 (get_jitter_bandwidth_bucket_count env) jitter in
      let total : of_i64
            (get_bandwidth_burst_bucket_count env +ℤ get_jitter_bandwidth_bucket_count env)
          ≡ m + n =
        ap (λ z. of_i64 (z +ℤ get_jitter_bandwidth_bucket_count env)) em
        ∙ ap (λ z. of_i64 (pos m +ℤ z)) en
        ∙ sum_lem m n (omega arith) in
      record {
        enabled = h.enabled;
        bits = h.bits;
        no_msec_output = h.no_msec_output;
        buckets = omega (arith, total);
        carried = h.carried;
        fits = omega (arith, total, h.carried);
      }
