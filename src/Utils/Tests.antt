-- ===== src/Utils/Tests.antt =====
-- The theorems on the removal of histograms at concrete inputs, and runs of the definitions.
use gpuviz.Base.{ℕ, ◌≡◌, refl, some, List, [], ◌∷◌, ltb, length, ◌-◌}
use gpuviz.Base.Faults.{for_range}
use gpuviz.Utils.{swap, first_removed, scan_entry, remove_if}
use gpuviz.Utils.Filter.{keep, remove_if-keep}

abbrev entries : List ℕ
entries = 7 ∷ 2 ∷ 8 ∷ 9 ∷ 1 ∷ 3 ∷ []

remove_if_run : remove_if (λ n. ltb n 5) entries ≡ some (7 ∷ 8 ∷ 9 ∷ [], 3)
unfolding remove_if first_removed scan_entry swap for_range
remove_if_run = refl

remove_if-keep_example :
    remove_if (λ n. ltb n 5) entries
    ≡ some (keep (λ n. ltb n 5) entries, length entries - length (keep (λ n. ltb n 5) entries))
remove_if-keep_example = remove_if-keep (λ n. ltb n 5) entries
