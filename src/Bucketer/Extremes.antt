-- ===== src/Bucketer/Extremes.antt =====
-- The minimum and maximum that src/distribution_bucketer.cc keeps.
use gpuviz.Base.{◌≡◌, refl, List, [], ◌∷◌, true, false, ◌⊎◌, inl, Bool-cases, All, arith}
use gpuviz.Double.{DoubleOps, IsStrictOrder}
use gpuviz.Bucketer.{Bucketer, submit, submit_all}

abbrev pub Among : {D : Type 0} → D → List D → Type 0
Among x [] = ⊥
Among x (y ∷ ys) = (x ≡ y) ⊎ Among x ys

module _ {D : Type 0} ⦃o : DoubleOps D⦄ where
  -- `new` is `old` or below it.
  abbrev AtMost : D → D → Type 0
  AtMost new old = (new ≡ old) ⊎ (o.lt new old ≡ true)

  -- `m` is at most each of the samples, as `<` says it.
  abbrev pub NoneBelow : D → List D → Type 0
  NoneBelow m = All (λ x. o.lt x m ≡ false)

  abbrev pub NoneAbove : D → List D → Type 0
  NoneAbove m = All (λ x. o.lt m x ≡ false)

  module _ (s : IsStrictOrder o) where
    AtMost-trans : (a b c : D) → AtMost a b → AtMost b c → AtMost a c
    AtMost-trans a b c p q = ground (arith, s.lt_trans a b c)

    -- A sample that is not below `b` is not below what is at most `b`.
    not_below : (x a b : D) → AtMost a b → o.lt x b ≡ false → o.lt x a ≡ false
    not_below x a b p h = ground (arith, s.lt_trans x a b, Bool-cases (o.lt x a))

    not_above : (x a b : D) → AtMost b a → o.lt b x ≡ false → o.lt a x ≡ false
    not_above x a b p h = ground (arith, s.lt_trans b a x, Bool-cases (o.lt a x))

    submit_min :
        (b : Bucketer D) (x : D)
        → AtMost (submit b x).min b.min
          × (o.lt x (submit b x).min ≡ false)
          × (((submit b x).min ≡ b.min) ⊎ ((submit b x).min ≡ x))
    unfolding submit
    submit_min b x = ground (arith, s.lt_irrefl x)

    submit_max :
        (b : Bucketer D) (x : D)
        → AtMost b.max (submit b x).max
          × (o.lt (submit b x).max x ≡ false)
          × (((submit b x).max ≡ b.max) ⊎ ((submit b x).max ≡ x))
    unfolding submit
    submit_max b x = ground (arith, s.lt_irrefl x)

    all_min :
        (b : Bucketer D) (xs : List D)
        → AtMost (submit_all b xs).min b.min
          × NoneBelow (submit_all b xs).min xs
          × (((submit_all b xs).min ≡ b.min) ⊎ Among (submit_all b xs).min xs)
    unfolding submit_all
    all_min b [] = (inl refl, tt, inl refl)
    all_min b (x ∷ xs) =
        let ih = all_min (submit b x) xs in
        let here = submit_min b x in
        (
          AtMost-trans _ _ _ ih.0 here.0,
          (not_below x _ _ ih.0 here.1, ih.1),
          ground (arith, ih.2, here.2),
        )

    all_max :
        (b : Bucketer D) (xs : List D)
        → AtMost b.max (submit_all b xs).max
          × NoneAbove (submit_all b xs).max xs
          × (((submit_all b xs).max ≡ b.max) ⊎ Among (submit_all b xs).max xs)
    unfolding submit_all
    all_max b [] = (inl refl, tt, inl refl)
    all_max b (x ∷ xs) =
        let ih = all_max (submit b x) xs in
        let here = submit_max b x in
        (
          AtMost-trans _ _ _ here.0 ih.0,
          (not_above x _ _ ih.0 here.1, ih.1),
          ground (arith, ih.2, here.2),
        )

    -- Where `<` is a strict order: after any samples none of them is below `min_` and none above
    -- `max_`, and each of the two is its former value or one of the samples.
    pub submit_all-extremes :
        (b : Bucketer D) (xs : List D)
        → NoneBelow (submit_all b xs).min xs
          × NoneAbove (submit_all b xs).max xs
          × (((submit_all b xs).min ≡ b.min) ⊎ Among (submit_all b xs).min xs)
          × (((submit_all b xs).max ≡ b.max) ⊎ Among (submit_all b xs).max xs)
    submit_all-extremes b xs =
        ((all_min b xs).1, (all_max b xs).1, (all_min b xs).2, (all_max b xs).2)
