-- ===== src/Aggregator/Nic/Addresses.antt =====
-- src/nccl_stats_aggregator.cc: `nic_bw_map_`, a map from addresses, and what insertion and lookup do.
use Prim.Native.String.{String}
use mathlib.Core.Path.{subst}
use mathlib.Core.Option.{some-injective}
use text.Mathlib.Text.{◌==◌ as str_eq}
use text.Mathlib.TextEquality.{eq_iff}
use text.Mathlib.TextPositions.{eq_refl}
use gpuviz.Base.{
  ◌≡◌, ◌∙◌, refl, sym, ap, Bool, true, false, some, List, [], ◌∷◌, All, Bool-cases, inl, inr,
  if◌then◌else◌,
}
use gpuviz.MsecBandwidth.{find, insert}

abbrev pub has : String → List String → Bool
has ip [] = false
has ip (j ∷ js) = if str_eq j ip then true else has ip js

module _ {V : Type 0} where
  abbrev pub addresses : List (String × V) → List String
  addresses [] = []
  addresses ((ip, v) ∷ m) = ip ∷ addresses m

  pub find_lem :
      (ip : String) (m : List (String × V))
      → has ip (addresses m) ≡ true
      → (v : V) × (find ip m ≡ some v)
  find_lem ip [] h = cc
  find_lem ip ((j, v) ∷ m) h = elim (Bool-cases (str_eq j ip)) [
    | inl e ↦ (v, rw e refl)
    | inr e ↦
        (let (w, f) =
            find_lem ip m (ap (λ b. if b then true else has ip (addresses m)) (sym e) ∙ h) in
          (w, ap (λ b. if b then some v else find ip m) e ∙ f))
  ]

  pub has_of_find :
      (ip : String) (m : List (String × V)) (v : V)
      → find ip m ≡ some v
      → has ip (addresses m) ≡ true
  has_of_find ip [] v h = cc
  has_of_find ip ((j, w) ∷ m) v h = elim (Bool-cases (str_eq j ip)) [
    | inl e ↦ rw e refl
    | inr e ↦ rw e (has_of_find ip m v (ap (λ b. if b then some w else find ip m) (sym e) ∙ h))
  ]

  -- What is there keeps its place.
  pub addresses-insert :
      (ip : String) (v : V) (m : List (String × V))
      → has ip (addresses m) ≡ true
      → addresses (insert ip v m) ≡ addresses m
  addresses-insert ip v [] h = cc
  addresses-insert ip v ((j, w) ∷ m) h = elim (Bool-cases (str_eq j ip)) [
    | inl e ↦ rw e (ap (λ k. k ∷ addresses m) (sym ((eq_iff j ip).0 e)))
    | inr e ↦ rw e (
        ap (λ l. j ∷ l)
          (addresses-insert ip v m
            (ap (λ b. if b then true else has ip (addresses m)) (sym e) ∙ h)))
  ]

  -- What is inserted is there, and nothing else has gone.
  pub has-insert :
      (ip : String) (v : V) (m : List (String × V)) → has ip (addresses (insert ip v m)) ≡ true
  has-insert ip v [] = rw (eq_refl ip) refl
  has-insert ip v ((j, w) ∷ m) = elim (Bool-cases (str_eq j ip)) [
    | inl e ↦ rw e (rw (eq_refl ip) refl)
    | inr e ↦ rw e (rw e (has-insert ip v m))
  ]

  pub has-insert_of_has :
      (k ip : String) (v : V) (m : List (String × V))
      → has k (addresses m) ≡ true
      → has k (addresses (insert ip v m)) ≡ true
  has-insert_of_has k ip v [] h = cc
  has-insert_of_has k ip v ((j, w) ∷ m) h = elim (Bool-cases (str_eq j ip)) [
    | inl e ↦ rw e (rw (← (eq_iff j ip).0 e) h)
    | inr e ↦ elim (Bool-cases (str_eq j k)) [
      | inl f ↦ rw e (rw f refl)
      | inr f ↦ rw e (
          rw f (
            has-insert_of_has k ip v m
              (ap (λ b. if b then true else has k (addresses m)) (sym f) ∙ h)))
    ]
  ]

  module _ (P : V → Type 0) where
    pub insert-All :
        (ip : String) (v : V) (m : List (String × V))
        → P v
        → All (λ e. P e.1) m
        → All (λ e. P e.1) (insert ip v m)
    insert-All ip v [] h k = (h, tt)
    insert-All ip v ((j, w) ∷ m) h (k, ks) = elim (Bool-cases (str_eq j ip)) [
      | inl e ↦ rw e (h, ks)
      | inr e ↦ rw e (k, insert-All ip v m h ks)
    ]

    pub find-All :
        (ip : String) (v : V) (m : List (String × V))
        → find ip m ≡ some v
        → All (λ e. P e.1) m
        → P v
    find-All ip v [] h k = cc
    find-All ip v ((j, w) ∷ m) h (k, ks) = elim (Bool-cases (str_eq j ip)) [
      | inl e ↦
          subst P (some-injective w v (ap (λ b. if b then some w else find ip m) (sym e) ∙ h)) k
      | inr e ↦ find-All ip v m (ap (λ b. if b then some w else find ip m) (sym e) ∙ h) ks
    ]
