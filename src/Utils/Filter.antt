-- ===== src/Utils/Filter.antt =====
-- src/utils.cc: `RemoveIf` against the filter of a list.
use mathlib.Core.List.{append_assoc, append-nil}
use gpuviz.Base.{
  ℕ, zero, suc, ◌+◌, ◌-◌, ◌≡◌, ◌∙◌, refl, sym, ap, Bool, false, ◌==◌, some, List, [], ◌∷◌, ◌++◌,
  map, length, get_elem?, set, take, length-append, if◌then◌else◌, arith, Bool-cases, inl, inr, ◌⊎◌,
  ==_refl,
}
use gpuviz.Base.Faults.{for_range, for_range-zero, for_range-suc}
use gpuviz.Message.{ConnectionStats}
use gpuviz.Utils.{
  swap, first_removed, scan_entry, remove_if, is_unwanted, filter_histograms_by_dist_type,
}

module _ {T : Type 0} where
  -- The entries that do not satisfy `pr`, in order.
  pub keep : (T → Bool) → List T → List T
  keep pr [] = []
  keep pr (x ∷ xs) = if pr x then keep pr xs else x ∷ keep pr xs

  get_elem?-append :
      (xs ys : List T) (n : ℕ) → n ≡ length xs → get_elem? (xs ++ ys) n ≡ get_elem? ys 0
  get_elem?-append [] ys zero h = refl
  get_elem?-append [] ys (suc n) h = absurd (omega arith)
  get_elem?-append (x ∷ xs) ys zero h = absurd (omega arith)
  get_elem?-append (x ∷ xs) ys (suc n) h = get_elem?-append xs ys n (omega arith)

  set-append :
      (xs ys : List T) (n : ℕ) (v : T) → n ≡ length xs → set (xs ++ ys) n v ≡ xs ++ set ys 0 v
  set-append [] ys zero v h = refl
  set-append [] ys (suc n) v h = absurd (omega arith)
  set-append (x ∷ xs) ys zero v h = absurd (omega arith)
  set-append (x ∷ xs) ys (suc n) v h = ap (λ l. x ∷ l) (set-append xs ys n v (omega arith))

  take-append : (xs ys : List T) (n : ℕ) → n ≡ length xs → take n (xs ++ ys) ≡ xs
  take-append [] ys zero h = refl
  take-append [] ys (suc n) h = absurd (omega arith)
  take-append (x ∷ xs) ys zero h = absurd (omega arith)
  take-append (x ∷ xs) ys (suc n) h = ap (λ l. x ∷ l) (take-append xs ys n (omega arith))

  rotate : List T → List T
  rotate [] = []
  rotate (x ∷ xs) = xs ++ (x ∷ [])

  length-rotate : (xs : List T) → length (rotate xs) ≡ length xs
  unfolding rotate
  length-rotate [] = refl
  length-rotate (x ∷ xs) = omega (arith, length-append xs (x ∷ []))

  get_past :
      (kept out rest : List T) (x : T) (scan : ℕ)
      → scan ≡ length kept + length out
      → get_elem? (kept ++ (out ++ x ∷ rest)) scan ≡ some x
  get_past kept out rest x scan h =
      ap (λ a. get_elem? a scan) (sym (append_assoc kept out (x ∷ rest)))
      ∙ get_elem?-append (kept ++ out) (x ∷ rest) scan (omega (arith, length-append kept out))

  set_past :
      (kept out rest : List T) (x v : T) (scan : ℕ)
      → scan ≡ length kept + length out
      → set (kept ++ (out ++ x ∷ rest)) scan v ≡ kept ++ (out ++ v ∷ rest)
  set_past kept out rest x v scan h =
      ap (λ a. set a scan v) (sym (append_assoc kept out (x ∷ rest)))
      ∙ set-append (kept ++ out) (x ∷ rest) scan v (omega (arith, length-append kept out))
      ∙ append_assoc kept out (v ∷ rest)

  -- The kept entries come first, then those that are out, then those not yet scanned.
  swap_lem :
      (kept out rest : List T) (x : T) (scan : ℕ)
      → scan ≡ length kept + length out
      → swap (kept ++ (out ++ x ∷ rest)) scan (length kept)
        ≡ some ((kept ++ (x ∷ [])) ++ (rotate out ++ rest))
  unfolding swap rotate
  swap_lem kept [] rest x scan h =
      let e = get_past kept [] rest x scan h in
      let f = get_past kept [] rest x (length kept) (omega arith) in
      let g = set_past kept [] rest x x scan h in
      let k = set_past kept [] rest x x (length kept) (omega arith) in
      rw (e, f, g, k) (simp (append_assoc))
  swap_lem kept (j ∷ js) rest x scan h =
      let e = get_past kept (j ∷ js) rest x scan h in
      let f = get_elem?-append kept (j ∷ (js ++ x ∷ rest)) (length kept) refl in
      let g = set_past kept (j ∷ js) rest x j scan h in
      let k = set-append kept (j ∷ (js ++ j ∷ rest)) (length kept) x refl in
      rw (e, f, g, k) (simp (append_assoc))

  -- The second loop, once `kept` and the removed `out` stand before the entries not yet scanned.
  scan_lem :
      (pr : T → Bool) (kept out rest : List T) (scan : ℕ)
      → scan ≡ length kept + length out
      → (out' : List T) × (for_range
            (length rest)
            scan
            (scan_entry pr)
            (kept ++ (out ++ rest), length kept)
          ≡ some ((kept ++ keep pr rest) ++ out', length (kept ++ keep pr rest)))
  unfolding scan_entry keep
  scan_lem pr kept out [] scan h = (out, for_range-zero scan (scan_entry pr) _ ∙ simp (append-nil))
  scan_lem pr kept out (x ∷ rest) scan h =
      let e = get_past kept out rest x scan h in
      elim (Bool-cases (pr x)) [
        | inl gone ↦
            (let (os, r) =
                scan_lem pr kept (out ++ (x ∷ [])) rest (scan + 1)
                  (omega (arith, length-append out (x ∷ []))) in
              (
                os,
                for_range-suc (length rest) scan (scan_entry pr) _ _ (rw (e, gone) refl)
                    ∙ ap
                        (λ a.
                          for_range (length rest) (scan + 1) (scan_entry pr)
                            (kept ++ a, length kept))
                        (sym (append_assoc out (x ∷ []) rest))
                    ∙ rw gone r,
              ))
        | inr stays ↦
            (let n : length kept + 1 ≡ length (kept ++ (x ∷ [])) =
                omega (arith, length-append kept (x ∷ [])) in
              let (os, r) =
                scan_lem pr (kept ++ (x ∷ [])) (rotate out) rest (scan + 1)
                  (omega (arith, length-rotate out)) in
              (
                os,
                for_range-suc (length rest) scan (scan_entry pr) _
                      ((kept ++ (x ∷ [])) ++ (rotate out ++ rest), length kept + 1)
                      (rw (e, stays, swap_lem kept out rest x scan h) refl)
                    ∙ rw (stays, n) (r ∙ simp (append_assoc)),
              ))
      ]

  -- Where the first loop stops: past the end, or at the first entry that goes.
  record Stops (pr : T → Bool) (array : List T) : Type 0 where
    kept : List T
    first : T
    rest : List T
    splits : array ≡ kept ++ first ∷ rest
    stops : first_removed pr array ≡ length kept
    keeps : keep pr array ≡ kept ++ keep pr rest

  first_removed_lem :
      (pr : T → Bool) (array : List T)
      → ((first_removed pr array ≡ length array) × (keep pr array ≡ array)) ⊎ Stops pr array
  unfolding first_removed keep
  first_removed_lem pr [] = inl (refl, refl)
  first_removed_lem pr (x ∷ xs) = elim (Bool-cases (pr x)) [
    | inl gone ↦ inr (record {
      kept = [];
      first = x;
      rest = xs;
      splits = refl;
      stops = rw gone refl;
      keeps = rw gone refl;
    })
    | inr stays ↦ elim (first_removed_lem pr xs) [
      | inl (n, e) ↦ inl (rw stays (ap suc n), rw stays (ap (λ l. x ∷ l) e))
      | inr s ↦ inr (record {
        kept = x ∷ s.kept;
        first = s.first;
        rest = s.rest;
        splits = ap (λ l. x ∷ l) s.splits;
        stops = rw stays (ap suc s.stops);
        keeps = rw stays (ap (λ l. x ∷ l) s.keeps);
      })
    ]
  ]

  stops-lt : (kept rest : List T) (x : T) → (length kept == length (kept ++ x ∷ rest)) ≡ false
  stops-lt kept rest x = ground (arith, length-append kept (x ∷ rest))

  -- The loops of `RemoveIf` never access the array past its end, and leave the entries that do not
  -- satisfy the predicate, all of them and in their order; the result is how many have gone.
  pub remove_if-keep :
      (pr : T → Bool) (array : List T)
      → remove_if pr array ≡ some (keep pr array, length array - length (keep pr array))
  unfolding remove_if
  remove_if-keep pr array = elim (first_removed_lem pr array) [
    | inl (n, e) ↦
        (let z : length array - length array ≡ 0 = omega arith in
          rw (n, ==_refl (length array), e, z) refl)
    | inr s ↦
        (let (out, r) =
            scan_lem pr s.kept (s.first ∷ []) s.rest (length s.kept + 1) (omega arith) in
          let left : length (s.kept ++ s.first ∷ s.rest) - (length s.kept + 1) ≡ length s.rest =
            omega (arith, length-append s.kept (s.first ∷ s.rest)) in
          rw
            (
              s.stops,
              s.keeps,
              s.splits,
              stops-lt s.kept s.rest s.first,
              left,
              r,
              take-append (s.kept ++ keep pr s.rest) out (length (s.kept ++ keep pr s.rest)) refl,
            )
            refl)
  ]

module _ {D : Type 0} where
  -- Filtering a message keeps every connection, and of its histograms those of a listed type, in order.
  pub filter-keep :
      (dist_types : List ℕ) (cs : List (ConnectionStats D))
      → filter_histograms_by_dist_type dist_types cs
        ≡ some (
            map {A = ConnectionStats D}
              (λ c. record c { histogram = keep (is_unwanted dist_types) c.histogram })
              cs)
  unfolding filter_histograms_by_dist_type
  filter-keep dist_types [] = refl
  filter-keep dist_types (c ∷ cs) =
      rw (remove_if-keep (is_unwanted dist_types) c.histogram, filter-keep dist_types cs) refl
