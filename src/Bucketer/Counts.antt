-- ===== src/Bucketer/Counts.antt =====
-- What the bucket counts of src/distribution_bucketer.cc say of the samples submitted.
use gpuviz.Base.{
  ℕ, zero, suc, ◌+◌, ◌<◌, ◌≡◌, refl, List, [], ◌∷◌, ◌++◌, map, ◌==◌, if◌then◌else◌, length, modify,
  get_or, ◌∙◌, length-modify, arith,
}
use gpuviz.Base.Words.{u64_mod}
use gpuviz.Double.{DoubleOps}
use gpuviz.Bucketer.{
  Bucket, Bucketer, get_bucket_counts, count_one, clear_count, raw_index, bucket_index, submit,
  submit_all,
}

abbrev pub total : List ℕ → ℕ
total [] = 0
total (n ∷ ns) = n + total ns

module _ {D : Type 0} where
  abbrev pub counts : List (Bucket D) → List ℕ
  counts = map (λ k. k.count)

  total-modify :
      (ks : List (Bucket D)) (i : ℕ)
      → i < length ks
      → total (counts (modify ks i count_one)) ≡ suc (total (counts ks))
  total-modify [] i h = elim h [ ]
  total-modify (k ∷ ks) zero h = omega arith
  total-modify (k ∷ ks) (suc i) h = omega (arith, total-modify ks i (omega arith))

  pub total-clear : (ks : List (Bucket D)) → total (counts (map clear_count ks)) ≡ 0
  total-clear [] = refl
  total-clear (k ∷ ks) = omega (arith, total-clear ks)

  -- There is a bucket, a `size_t` counts them, and the counts add up to `count_`.
  pub record IsValid (b : Bucketer D) : Type 0 where
    pub some_bucket : 0 < length b.buckets
    pub fits : length b.buckets < u64_mod
    pub counted : total (get_bucket_counts b) ≡ b.count

module _ {D : Type 0} ⦃o : DoubleOps D⦄ where
  -- The write of `Submit` is in bounds.
  pub bucket_index-lt : (b : Bucketer D) (x : D) → IsValid b → bucket_index b x < length b.buckets
  unfolding bucket_index
  bucket_index-lt b x v = ground (arith, v.some_bucket, v.fits)

  -- `Submit` writes inside the bucket vector, keeps the number of buckets, and the bucket counts still
  -- add up to the number of samples, which has grown by one.
  pub submit-IsValid :
      (b : Bucketer D) (x : D)
      → IsValid b
      → IsValid (submit b x)
        × ((submit b x).count ≡ suc b.count)
        × (bucket_index b x < length b.buckets)
  unfolding submit get_bucket_counts
  submit-IsValid b x v = (
    record {
      some_bucket =
          omega (arith, length-modify b.buckets (bucket_index b x) count_one, v.some_bucket);
      fits = omega (arith, length-modify b.buckets (bucket_index b x) count_one, v.fits);
      counted =
          omega
            (arith, total-modify b.buckets (bucket_index b x) (bucket_index-lt b x v), v.counted);
    },
    refl,
    bucket_index-lt b x v,
  )

  bucket_index-submit : (b : Bucketer D) (x y : D) → bucket_index (submit b x) y ≡ bucket_index b y
  unfolding submit bucket_index raw_index
  bucket_index-submit b x y = rw (length-modify b.buckets (bucket_index b x) count_one)

  -- How many of the samples belong to bucket `i`.
  pub hits : Bucketer D → ℕ → List D → ℕ
  hits b i [] = 0
  hits b i (x ∷ xs) = (if bucket_index b x == i then 1 else 0) + hits b i xs

  hits-submit :
      (b : Bucketer D) (i : ℕ) (x : D) (ys : List D) → hits (submit b x) i ys ≡ hits b i ys
  unfolding hits
  hits-submit b i x [] = refl
  hits-submit b i x (y ∷ ys) = rw (bucket_index-submit b x y, hits-submit b i x ys)

  get_or-modify :
      (ks : List (Bucket D)) (j i : ℕ)
      → j < length ks
      → get_or (counts (modify ks j count_one)) i 0
        ≡ (if j == i then 1 else 0) + get_or (counts ks) i 0
  get_or-modify [] j i h = elim h [ ]
  get_or-modify (k ∷ ks) zero zero h = ground arith
  get_or-modify (k ∷ ks) zero (suc i) h = ground arith
  get_or-modify (k ∷ ks) (suc j) zero h = ground arith
  get_or-modify (k ∷ ks) (suc j) (suc i) h = ground (arith, get_or-modify ks j i)

  count_at-submit :
      (b : Bucketer D) (x : D) (i : ℕ)
      → IsValid b
      → get_or (get_bucket_counts (submit b x)) i 0
        ≡ (if bucket_index b x == i then 1 else 0) + get_or (get_bucket_counts b) i 0
  unfolding submit get_bucket_counts
  count_at-submit b x i v = get_or-modify b.buckets (bucket_index b x) i (bucket_index-lt b x v)

  length-buckets-submit : (b : Bucketer D) (x : D) → length (submit b x).buckets ≡ length b.buckets
  unfolding submit
  length-buckets-submit b x = length-modify b.buckets (bucket_index b x) count_one

  pub submit_all-nil : (b : Bucketer D) → submit_all b [] ≡ b
  unfolding submit_all
  submit_all-nil b = refl

  pub submit_all-cons :
      (b : Bucketer D) (x : D) (xs : List D) → submit_all b (x ∷ xs) ≡ submit_all (submit b x) xs
  unfolding submit_all
  submit_all-cons b x xs = refl

  pub submit_all-snoc :
      (b : Bucketer D) (xs : List D) (x : D)
      → submit_all b (xs ++ (x ∷ [])) ≡ submit (submit_all b xs) x
  unfolding submit_all
  submit_all-snoc b [] x = refl
  submit_all-snoc b (y ∷ ys) x = submit_all-snoc (submit b y) ys x

  -- After any samples, the count of each bucket has grown by the number of samples that belong to
  -- it, the number of buckets has not changed, the bucket counts still add up to the number of
  -- samples, which has grown by the length of the list.
  pub submit_all-counts :
      (b : Bucketer D) (xs : List D)
      → IsValid b
      → IsValid (submit_all b xs)
        × ((i : ℕ)
            → get_or (get_bucket_counts (submit_all b xs)) i 0
              ≡ hits b i xs + get_or (get_bucket_counts b) i 0)
        × (length (submit_all b xs).buckets ≡ length b.buckets)
        × ((submit_all b xs).count ≡ length xs + b.count)
  unfolding submit_all hits
  submit_all-counts b [] v = (v, λ i. omega arith, refl, omega arith)
  submit_all-counts b (x ∷ xs) v =
      let ih = submit_all-counts (submit b x) xs (submit-IsValid b x v).0 in
      (
        ih.0,
        λ i. omega (arith, ih.1 i, hits-submit b i x xs, count_at-submit b x i v),
        ih.2 ∙ length-buckets-submit b x,
        omega (arith, ih.3, (submit-IsValid b x v).1),
      )

  pub submit_all-append :
      (b : Bucketer D) (xs ys : List D) → submit_all b (xs ++ ys) ≡ submit_all (submit_all b xs) ys
  unfolding submit_all
  submit_all-append b [] ys = refl
  submit_all-append b (x ∷ xs) ys = submit_all-append (submit b x) xs ys
