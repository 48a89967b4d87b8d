-- ===== src/Bucketer/Tests.antt =====
-- Runs of src/distribution_bucketer.cc over whole numbers.
use gpuviz.Base.{ℕ, ◌≡◌, refl, List, [], ◌∷◌, arith}
use gpuviz.Double.{whole_ops, whole_ops-IsStrictOrder}
use gpuviz.Bucketer.{
  Bucketer, new, submit, submit_all, get_bucket_counts, bucket_index, bucket_total, raw_index,
  make_buckets, reset,
}
use gpuviz.Bucketer.Counts.{IsValid, submit_all-counts}
use gpuviz.Bucketer.Extremes.{NoneBelow, submit_all-extremes}
use gpuviz.Bucketer.Lifecycle.{new-IsValid, reset-submit_all-new}

-- Five buckets of scale 1; over whole numbers `log` is the identity here.
abbrev five : Bucketer ℕ
five = new ⦃o = whole_ops⦄ 4 1 1

abbrev samples : List ℕ
samples = 1 ∷ 0 ∷ 90 ∷ 1 ∷ []

five_counts : get_bucket_counts (submit_all ⦃o = whole_ops⦄ five samples) ≡ 0 ∷ 1 ∷ 2 ∷ 0 ∷ 1 ∷ []
unfolding new submit_all submit get_bucket_counts make_buckets bucket_total bucket_index raw_index
five_counts = refl

five-IsValid : IsValid five
unfolding bucket_total
five-IsValid = (new-IsValid ⦃o = whole_ops⦄ 4 1 1 (omega arith) (omega arith)).0

submit_all-counts_example : IsValid (submit_all ⦃o = whole_ops⦄ five samples)
submit_all-counts_example = (submit_all-counts ⦃o = whole_ops⦄ five samples five-IsValid).0

submit_all-extremes_example :
    NoneBelow ⦃o = whole_ops⦄ (submit_all ⦃o = whole_ops⦄ five samples).min samples
submit_all-extremes_example =
    (submit_all-extremes ⦃o = whole_ops⦄ whole_ops-IsStrictOrder five samples).0

reset-submit_all-new_example :
    reset ⦃o = whole_ops⦄ (submit_all ⦃o = whole_ops⦄ five samples) ≡ five
reset-submit_all-new_example = reset-submit_all-new ⦃o = whole_ops⦄ 4 1 1 samples
