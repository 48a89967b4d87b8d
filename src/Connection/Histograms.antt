-- ===== src/Connection/Histograms.antt =====
-- src/nccl_stats_aggregator.cc: what one `Submit` does to a connection's array of bucketers.
use gpuviz.Base.{
  ℕ, ◌≡◌, ◌≢◌, refl, Option, none, some, length, get_elem?, modify, length-modify, arith,
}
use gpuviz.Base.Faults.{update_lem, get_elem?-modify, get_elem?-modify_self, lt_of_get_elem?}
use gpuviz.Double.{DoubleOps}
use gpuviz.Bucketer
use gpuviz.Bucketer.{Bucketer}
use gpuviz.Connection.{DistributionMap, submit_to}

module _ {D : Type 0} where
  -- Entry `idx` holds the bucketer `b`.
  abbrev pub Holds : DistributionMap D → ℕ → Bucketer D → Type 0
  Holds m idx b = get_elem? m idx ≡ some (some b)

  -- Every entry but `idx` is as it was.
  pub record SameBut (idx : ℕ) (m m' : DistributionMap D) : Type 0 where
    pub length_same : length m' ≡ length m
    pub others : (j : ℕ) → idx ≢ j → get_elem? m' j ≡ get_elem? m j

  pub SameBut-refl : (idx : ℕ) (m : DistributionMap D) → SameBut idx m m
  SameBut-refl idx m = record { length_same = refl; others = λ j h. refl }

  pub SameBut-trans :
      (idx : ℕ) (m m' m'' : DistributionMap D)
      → SameBut idx m m'
      → SameBut idx m' m''
      → SameBut idx m m''
  SameBut-trans idx m m' m'' p q = record {
    length_same = omega (arith, p.length_same, q.length_same);
    others = λ j h. cc (p.others j h, q.others j h);
  }

module _ {D : Type 0} ⦃o : DoubleOps D⦄ where
  -- A submission to a bucketer that is there does not fault, and changes that bucketer alone.
  pub submit_to-Holds :
      (m : DistributionMap D) (idx : ℕ) (x : D) (b : Bucketer D)
      → Holds m idx b
      → (m' : DistributionMap D) × (submit_to m idx x ≡ some m')
        × Holds m' idx (Bucketer.submit b x)
        × SameBut idx m m'
  unfolding submit_to
  submit_to-Holds m idx x b h =
      let f : Option (Bucketer D) → Option (Bucketer D) = λ _. some (Bucketer.submit b x) in
      (
        modify m idx f,
        rw h (update_lem m idx f (lt_of_get_elem? m idx h)),
        get_elem?-modify_self m idx f h,
        record {
          length_same = length-modify m idx f;
          others = λ j ne. get_elem?-modify m idx j f ne;
        },
      )

  -- A null pointer is a fault.
  pub submit_to_null :
      (m : DistributionMap D) (idx : ℕ) (x : D)
      → get_elem? m idx ≡ some none
      → submit_to m idx x ≡ none
  unfolding submit_to
  submit_to_null m idx x h = rw h
