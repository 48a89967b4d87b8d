-- ===== src/Bucketer.antt =====
-- src/distribution_bucketer.cc and .h: an exponential histogram, `DistributionBucketer`.
-- `int64_t count_` and the bucket counts are numbers: an overflow, which C++ leaves undefined, would
-- take 2^63 samples. A size is a `size_t`, its arithmetic modulo 2^64. `Dump` is not modelled.
pub mod Counts
pub mod Extremes
pub mod Lifecycle
pub mod Summary
mod Tests
use gpuviz.Base.{
  ℕ, zero, suc, ◌+◌, Bool, List, [], ◌∷◌, map, Option, none, some, ltb, if◌then◌else◌, length,
  modify,
}
use gpuviz.Base.Words.{sub_u64}
use gpuviz.Double.{DoubleOps, fmax}

pub record Bucket (D : Type 0) : Type 0 where
  pub upper_bound : D
  pub count : ℕ

pub record Bucketer (D : Type 0) : Type 0 where
  pub count : ℕ
  pub sum : D
  pub min : D
  pub max : D
  pub max_bucket : D
  pub scale : D
  pub base : D
  pub one_over_log_of_base : D
  pub buckets : List (Bucket D)

module _ {D : Type 0} where
  pub get_bucket_counts : Bucketer D → List ℕ
  get_bucket_counts b = map (λ k. k.count) b.buckets

  pub get_bucket_bounds : Bucketer D → List D
  get_bucket_bounds b = map (λ k. k.upper_bound) b.buckets

  pub get_sample_submitted : Bucketer D → Bool
  get_sample_submitted b = ltb 0 b.count

  pub get_min : Bucketer D → Option D
  get_min b = if ltb 0 b.count then some b.min else none

  pub get_max : Bucketer D → Option D
  get_max b = if ltb 0 b.count then some b.max else none

  abbrev pub count_one : Bucket D → Bucket D
  count_one k = record k { count = suc k.count }

  abbrev pub clear_count : Bucket D → Bucket D
  clear_count k = record k { count = 0 }

module _ {D : Type 0} ⦃o : DoubleOps D⦄ where
  pub get_avg : Bucketer D → Option D
  get_avg b = if ltb 0 b.count then some (o.div b.sum (o.of_nat b.count)) else none

  pub ceiling_but_integers_gain_one : D → D
  ceiling_but_integers_gain_one num = o.floor (o.add num (o.of_nat 1))

  -- The constructor's loop: `n` buckets from number `i` on.
  pub make_buckets : ℕ → ℕ → D → D → List (Bucket D)
  make_buckets zero i base scale = []
  make_buckets (suc n) i base scale =
      record { upper_bound = o.mul (o.pow base (o.of_nat i)) scale; count = 0 }
      ∷ make_buckets n (i + 1) base scale

  pub bucket_total : D → D → D → ℕ
  bucket_total max_bucket scale base = o.to_nat (
      o.add (o.ceil (o.mul (o.log (o.div max_bucket scale)) (o.div (o.of_nat 1) (o.log base))))
        (o.of_nat 1))

  pub new : D → D → D → Bucketer D
  unfolding bucket_total
  new max_bucket scale base = record {
    count = 0;
    sum = o.of_nat 0;
    min = o.largest;
    max = o.lowest;
    max_bucket = max_bucket;
    scale = scale;
    base = base;
    one_over_log_of_base = o.div (o.of_nat 1) (o.log base);
    buckets = make_buckets (bucket_total max_bucket scale base) 0 base scale;
  }

  -- The index of the bucket of a sample, before it is limited to the last bucket.
  pub raw_index : Bucketer D → D → ℕ
  unfolding ceiling_but_integers_gain_one
  raw_index b sample = o.to_nat (
      fmax (o.of_nat 0) (
        ceiling_but_integers_gain_one
          (o.mul (o.log (o.div sample b.scale)) b.one_over_log_of_base)))

  pub bucket_index : Bucketer D → D → ℕ
  bucket_index b sample =
      let size = length b.buckets in
      if ltb (raw_index b sample) size then raw_index b sample else sub_u64 size 1

  pub submit : Bucketer D → D → Bucketer D
  submit b sample = record b {
    count = suc b.count;
    sum = o.add b.sum sample;
    min = if o.lt sample b.min then sample else b.min;
    max = if o.lt b.max sample then sample else b.max;
    buckets = modify b.buckets (bucket_index b sample) count_one;
  }

  pub reset : Bucketer D → Bucketer D
  reset b = record b {
    count = 0;
    sum = o.of_nat 0;
    min = o.largest;
    max = o.lowest;
    buckets = map clear_count b.buckets;
  }

  -- A client's samples, the oldest first.
  pub submit_all : Bucketer D → List D → Bucketer D
  submit_all b [] = b
  submit_all b (x ∷ xs) = submit_all (submit b x) xs
