-- ===== src/Bucketer/Summary.antt =====
-- src/distribution_bucketer.cc: what a bucketer answers once it has a sample.
use gpuviz.Base.{◌≡◌, true, some}
use gpuviz.Double.{DoubleOps}
use gpuviz.Bucketer.{Bucketer, get_sample_submitted, get_min, get_max, get_avg}

module _ {D : Type 0} (b : Bucketer D) (sampled : get_sample_submitted b ≡ true) where
  pub get_min-submitted : get_min b ≡ some b.min
  unfolding get_min get_sample_submitted
  get_min-submitted = rw sampled

  pub get_max-submitted : get_max b ≡ some b.max
  unfolding get_max get_sample_submitted
  get_max-submitted = rw sampled

module _ {D : Type 0} ⦃o : DoubleOps D⦄ (b : Bucketer D)
    (sampled : get_sample_submitted b ≡ true) where
  pub get_avg-submitted : get_avg b ≡ some (o.div b.sum (o.of_nat b.count))
  unfolding get_avg get_sample_submitted
  get_avg-submitted = rw sampled
