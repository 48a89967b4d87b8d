-- ===== src/Connection/Notify/Window.antt =====
-- src/nccl_stats_aggregator.cc: which buckets a transaction touches in `updateBwAndLatencyStats`.
use Prim.Native.Nat.{min, ◌-◌}
use gpuviz.Base.{ℕ, suc, ◌+◌, ◌/◌, ◌*◌, ◌^◌, ◌<◌, ◌≤◌, ◌≡◌, ◌∙◌, arith}
use gpuviz.Base.Int.{sub_ℕ, pos, negsuc, ◌+ℤ◌, ◌-ℤ◌, max_ℤ, quot_ℤ, to_i64, of_i64}
use native.Mathlib.Decide.{dec_le}
use gpuviz.Base.Words.{sub_u64, u64_mod}
use gpuviz.Connection.Notify.{start_idx, end_idx}

-- The last bucket is `n - 1`, and no window reaches past it.
pub end_idx-le : (bucket_time reported start n : ℕ) → end_idx bucket_time reported start n ≤ n
unfolding end_idx
end_idx-le bucket_time reported start n = omega arith

elapsed_in_time :
    (reported start : ℕ)
    → start ≤ reported
    → reported < 2 ^ 63
    → to_i64 (sub_u64 reported start) ≡ pos (reported - start)
elapsed_in_time reported start h k = ground arith

to_i64-pos : (a : ℕ) → a < 2 ^ 63 → to_i64 a ≡ pos a
to_i64-pos a h = ground arith

sub_le : (e l : ℕ) → l ≤ e → pos e -ℤ pos l ≡ pos (e - l)
sub_le e l h = ground arith

sub_gt : (e l : ℕ) → e < l → pos e -ℤ pos l ≡ negsuc (l - e - 1)
sub_gt e l h = ground arith

max_pos : (q : ℕ) → q < u64_mod → of_i64 (max_ℤ (pos q) (pos 0)) ≡ q
max_pos q h = ground arith

max_neg : (m : ℕ) → of_i64 (max_ℤ (sub_ℕ 0 m) (pos 0)) ≡ 0
max_neg m = ground arith

div_le : (a n : ℕ) → 0 < n → a / n ≤ a
div_le a n h = grind arith

-- The quotient of a difference, from 0 on.
clipped_quotient :
    (e l n : ℕ)
    → 0 < n
    → e < 2 ^ 63
    → of_i64 (max_ℤ (quot_ℤ (pos e -ℤ pos l) n) (pos 0)) ≡ (e - l) / n
clipped_quotient e l n h k = elim (dec_le l e) [
  | yes p ↦ rw (sub_le e l p) (max_pos ((e - l) / n) (omega (arith, div_le (e - l) n h)))
  | no p ↦
      let zero_diff : e - l ≡ 0 = omega arith in
      rw (sub_gt e l (omega arith), zero_diff)
        (max_neg (suc (l - e - 1) / n) ∙ omega (arith, div_le 0 n h))
]

-- For a transaction that was reported after the start of the interval, and before times of 2^63, the
-- window ends with the bucket of the report, or with the last one, and starts with the bucket in
-- which the transaction began, or with the first one where it began before the interval.
pub window_in_time :
    (bucket_time reported start latency_in_ns n : ℕ)
    → 0 < bucket_time
    → start ≤ reported
    → reported < 2 ^ 63 - 1
    → latency_in_ns < u64_mod
    → (end_idx bucket_time reported start n ≡ min ((reported - start) / bucket_time + 1) n)
      × (start_idx bucket_time reported start latency_in_ns
          ≡ (reported - start - latency_in_ns / 1000000) / bucket_time)
unfolding end_idx start_idx
window_in_time bucket_time reported start latency_in_ns n h k l m =
    let short : latency_in_ns / 1000000 < 2 ^ 63 = omega arith in
    (
      rw (elapsed_in_time reported start k (omega arith)) (ground arith),
      rw
          (
            elapsed_in_time reported start k (omega arith),
            to_i64-pos (latency_in_ns / 1000000) short,
          )
          (clipped_quotient (reported - start) (latency_in_ns / 1000000) bucket_time h
            (omega arith)),
    )

neg_sub : (k l : ℕ) → negsuc k -ℤ pos l ≡ negsuc (k + l)
neg_sub k l = ground arith

clipped_negative : (k l n : ℕ) → of_i64 (max_ℤ (quot_ℤ (negsuc k -ℤ pos l) n) (pos 0)) ≡ 0
clipped_negative k l n = rw (neg_sub k l) (max_neg (suc (k + l) / n))

before_start : (m n : ℕ) → 2 ≤ m → m < 2 ^ 63 → n < 2 ^ 63 → min (of_i64 (sub_ℕ 0 m +ℤ pos 1)) n ≡ n
before_start m n h k l = ground arith

elapsed_before :
    (reported start : ℕ)
    → reported < start
    → start < 2 ^ 63
    → to_i64 (sub_u64 reported start) ≡ negsuc (start - reported - 1)
elapsed_before reported start h k = ground arith

two_buckets : (a n : ℕ) → 0 < n → 2 * n ≤ a → 2 ≤ a / n
two_buckets a n h k = grind arith

-- A transaction that is reported two buckets or more before the start of the interval, as it can be
-- when the swap comes between the reading of the clock and the lock, falls into every bucket of the
-- interval: `end_idx` is a negative number read as `uint64_t`.
pub window_before_start :
    (bucket_time reported start latency_in_ns n : ℕ)
    → 0 < bucket_time
    → reported + 2 * bucket_time ≤ start
    → start < 2 ^ 63
    → latency_in_ns < u64_mod
    → n < 2 ^ 63
    → (start_idx bucket_time reported start latency_in_ns ≡ 0)
      × (end_idx bucket_time reported start n ≡ n)
unfolding end_idx start_idx
window_before_start bucket_time reported start latency_in_ns n h k l m hn =
    let short : latency_in_ns / 1000000 < 2 ^ 63 = omega arith in
    let suc_pred : suc (start - reported - 1) ≡ start - reported = omega arith in
    (
      rw (elapsed_before reported start (omega arith) l, to_i64-pos (latency_in_ns / 1000000) short)
          (clipped_negative (start - reported - 1) (latency_in_ns / 1000000) bucket_time),
      rw (elapsed_before reported start (omega arith) l, suc_pred)
          (before_start ((start - reported) / bucket_time) n
            (two_buckets (start - reported) bucket_time h (omega arith))
            (omega (arith, div_le (start - reported) bucket_time h)) hn),
    )
