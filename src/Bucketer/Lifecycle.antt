-- ===== src/Bucketer/Lifecycle.antt =====
-- The constructor and `Reset` of src/distribution_bucketer.cc.
use gpuviz.Base.{
  ℕ, zero, suc, ◌+◌, ◌<◌, ◌≡◌, refl, ap, sym, ◌∙◌, List, [], ◌∷◌, map, length, modify, arith, none,
  false,
}
use gpuviz.Base.Words.{u64_mod}
use gpuviz.Double.{DoubleOps}
use gpuviz.Bucketer.{
  Bucket, Bucketer, count_one, clear_count, make_buckets, bucket_total, bucket_index, new, submit,
  reset, submit_all, get_bucket_counts, get_sample_submitted, get_min, get_max, get_avg,
}
use gpuviz.Bucketer.Counts.{IsValid, total-clear, total}

module _ {D : Type 0} where
  clear-modify :
      (ks : List (Bucket D)) (i : ℕ) → map clear_count (modify ks i count_one) ≡ map clear_count ks
  clear-modify [] i = refl
  clear-modify (k ∷ ks) zero = refl
  clear-modify (k ∷ ks) (suc i) = ap (◌∷◌ (clear_count k)) (clear-modify ks i)

module _ {D : Type 0} ⦃o : DoubleOps D⦄ where
  clear-make_buckets :
      (n i : ℕ) (base scale : D)
      → map clear_count (make_buckets n i base scale) ≡ make_buckets n i base scale
  unfolding make_buckets
  clear-make_buckets zero i base scale = refl
  clear-make_buckets (suc n) i base scale =
      ap (◌∷◌ (record { upper_bound = o.mul (o.pow base (o.of_nat i)) scale; count = 0 }))
        (clear-make_buckets n (i + 1) base scale)

  length-make_buckets : (n i : ℕ) (base scale : D) → length (make_buckets n i base scale) ≡ n
  unfolding make_buckets
  length-make_buckets zero i base scale = refl
  length-make_buckets (suc n) i base scale = ap suc (length-make_buckets n (i + 1) base scale)

  reset-submit : (b : Bucketer D) (x : D) → reset (submit b x) ≡ reset b
  unfolding reset submit
  reset-submit b x = ground (arith, clear-modify b.buckets (bucket_index b x))

  reset-submit_all : (b : Bucketer D) (xs : List D) → reset (submit_all b xs) ≡ reset b
  unfolding submit_all
  reset-submit_all b [] = refl
  reset-submit_all b (x ∷ xs) = reset-submit_all (submit b x) xs ∙ reset-submit b x

  reset-new : (m s c : D) → reset (new m s c) ≡ new m s c
  unfolding reset new
  reset-new m s c = ground (arith, clear-make_buckets (bucket_total m s c) 0 c s)

  -- `Reset` forgets every sample: whatever was submitted to a new bucketer, after `Reset` it is the
  -- new bucketer again.
  pub reset-submit_all-new :
      (max_bucket scale base : D) (xs : List D)
      → reset (submit_all (new max_bucket scale base) xs) ≡ new max_bucket scale base
  reset-submit_all-new m s c xs = reset-submit_all (new m s c) xs ∙ reset-new m s c

  -- A bucketer is well formed once the constructor has found room for a bucket, in a `size_t`; it
  -- then has that number of buckets and no sample, and none of `GetMin`, `GetMax`, `GetAvg` answers.
  pub new-IsValid :
      (max_bucket scale base : D)
      → 0 < bucket_total max_bucket scale base
      → bucket_total max_bucket scale base < u64_mod
      → let b = new max_bucket scale base in
        IsValid b
        × (length b.buckets ≡ bucket_total max_bucket scale base)
        × (get_sample_submitted b ≡ false)
        × (get_min b ≡ none)
        × (get_max b ≡ none)
        × (get_avg b ≡ none)
  unfolding new get_sample_submitted get_min get_max get_avg get_bucket_counts
  new-IsValid m s c h k = (
    record {
      some_bucket = omega (arith, length-make_buckets (bucket_total m s c) 0 c s);
      fits = omega (arith, length-make_buckets (bucket_total m s c) 0 c s);
      counted =
          ap (λ ks. total (map (λ (k : Bucket D). k.count) ks))
            (sym (clear-make_buckets (bucket_total m s c) 0 c s))
          ∙ total-clear (make_buckets (bucket_total m s c) 0 c s);
    },
    length-make_buckets (bucket_total m s c) 0 c s,
    refl,
    refl,
    refl,
    refl,
  )
