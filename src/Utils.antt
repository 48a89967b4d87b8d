-- ===== src/Utils.antt =====
-- src/utils.cc: the removal of histograms that are not to be uploaded, in place. The clocks, the
-- process identifier and the request to the metadata server are input and output, and not modelled.
pub mod Filter
mod Tests
use gpuviz.Base.{
  ℕ, zero, suc, ◌+◌, ◌-◌, Bool, true, false, not, ◌||◌, ◌==◌, Option, none, some, List, [], ◌∷◌,
  length, get_elem?, set, take, if◌then◌else◌,
}
use gpuviz.Base.Faults.{◌>>=◌, for_range}
use gpuviz.Message.{StatsDistribution, ConnectionStats}

module _ {T : Type 0} where
  -- `std::swap(array[i], array[j])`.
  pub swap : List T → ℕ → ℕ → Option (List T)
  swap array i j = do x ← get_elem? array i; y ← get_elem? array j; some (set (set array i y) j x)

  -- `while (write < end && !pr(*write)) ++write`.
  pub first_removed : (T → Bool) → List T → ℕ
  first_removed pr [] = 0
  first_removed pr (x ∷ xs) = let next = suc (first_removed pr xs) in if pr x then 0 else next

  -- One round of the second loop, on the array and `write`.
  pub scan_entry : (T → Bool) → ℕ → List T × ℕ → Option (List T × ℕ)
  scan_entry pr scan (array, write) = do
    x ← get_elem? array scan
    let swapped = (do array' ← swap array scan write; some (array', write + 1))
    if pr x then some (array, write) else swapped

  -- `RemoveIf`, with `Truncate`: the array that is left, and how many entries have gone.
  pub remove_if : (T → Bool) → List T → Option (List T × ℕ)
  remove_if pr array =
      let write = first_removed pr array in
      if write == length array then some (array, 0) else (do
        (array', write') ←
            for_range (length array - (write + 1)) (write + 1) (scan_entry pr) (array, write)
        some (take write' array', length array - write'))

abbrev pub is_listed : ℕ → List ℕ → Bool
is_listed a [] = false
is_listed a (b ∷ bs) = a == b || is_listed a bs

module _ {D : Type 0} where
  -- The predicate of `filterHistogramsByDistType`; the set of types is a list.
  pub is_unwanted : List ℕ → StatsDistribution D → Bool
  is_unwanted dist_types entry = elim entry.dist_type [
    | none ↦ true
    | some t ↦ not (is_listed t dist_types)
  ]

  pub filter_histograms_by_dist_type :
      List ℕ → List (ConnectionStats D) → Option (List (ConnectionStats D))
  filter_histograms_by_dist_type dist_types [] = some []
  filter_histograms_by_dist_type dist_types (c ∷ cs) = do
    (kept, removed) ← remove_if (is_unwanted dist_types) c.histogram
    rest ← filter_histograms_by_dist_type dist_types cs
    some (record c { histogram = kept } ∷ rest)
