-- ===== src/Base/Faults.antt =====
-- Code that may fault. `none` stands for what C++ leaves undefined: a null pointer is followed, or a
-- vector is accessed past its end. `absl::Status` is a value of its own.
use Prim.Native.Nat.{ℕ, zero, suc, ◌+◌, ◌<◌, ◌≤◌}
use mathlib.Core.Path.{◌≡◌, refl, ap}
use mathlib.Core.Logic.{◌≢◌}
use mathlib.Core.Option.{Option, none, some}
use mathlib.Core.List.{List, [], ◌∷◌, ◌++◌}
use native.Mathlib.Omega.{arith}
use native.Mathlib.Decide.{dec_lt}
use mathlib.Core.Logic.{◌⊎◌, inl, inr}
use gpuviz.Base.Booleans.{Option-cases, ◌==◌, if◌then◌else◌}
use gpuviz.Base.Lists.{length, get_elem?, get_or, modify}

infixl 5 ◌>>=◌
abbrev pub ◌>>=◌ {ℓ κ} : {A : Type ℓ} {B : Type κ} → Option A → (A → Option B) → Option B
none >>= f = none
some a >>= f = f a

-- The status codes of the repository's `absl::Status` values.
pub data Status : Type 0 where
  ok invalid_argument internal data_loss failed_precondition : Status

-- `absl::StatusOr`.
pub data StatusOr {ℓ} (A : Type ℓ) : Type ℓ where
  value : A → StatusOr A
  status : Status → StatusOr A

pub StatusOr-cases {ℓ} :
    {A : Type ℓ} (c : StatusOr A) → ((a : A) × (c ≡ value a)) ⊎ ((e : Status) × (c ≡ status e))
StatusOr-cases (value a) = inl (a, refl)
StatusOr-cases (status e) = inr (e, refl)

-- for (i = start; i < start + n; i++) s = body(i, s)
unfoldable pub for_range {ℓ} : {S : Type ℓ} → ℕ → ℕ → (ℕ → S → Option S) → S → Option S
for_range zero i body s = some s
for_range (suc n) i body s = elim (body i s) [ none ↦ none | some s' ↦ for_range n (i + 1) body s' ]

pub for_range-zero {ℓ} :
    {S : Type ℓ} (i : ℕ) (body : ℕ → S → Option S) (s : S) → for_range zero i body s ≡ some s
unfolding for_range
for_range-zero i body s = refl

pub for_range-suc {ℓ} :
    {S : Type ℓ} (n i : ℕ) (body : ℕ → S → Option S) (s t : S)
    → body i s ≡ some t
    → for_range (suc n) i body s ≡ for_range n (i + 1) body t
unfolding for_range
for_range-suc n i body s t h = rw (h, for_range)

-- A loop whose body keeps `P` and does not fault ends, with `P`.
pub for_range_inv {ℓ κ} :
    {S : Type ℓ} (P : ℕ → S → Type κ) (body : ℕ → S → Option S) (end : ℕ)
    → ((i : ℕ) (s : S) → i < end → P i s → (t : S) × (body i s ≡ some t) × P (i + 1) t)
    → (n i : ℕ) (s : S) → i + n ≡ end
    → P i s
    → (t : S) × (for_range n i body s ≡ some t) × P end t
unfolding for_range
for_range_inv P body end keep zero i s e h = (s, refl, (let e' : end ≡ i = omega arith in rw e' h))
for_range_inv P body end keep (suc n) i s e h =
    let step = keep i s (omega arith) h in
    let rest = for_range_inv P body end keep n (i + 1) step.0 (omega arith) step.2 in
    (rest.0, rw (step.1, for_range) rest.1, rest.2)

-- `xs[i] = f(xs[i])`, which faults past the end.
abbrev pub update {ℓ} : {A : Type ℓ} → List A → ℕ → (A → A) → Option (List A)
update [] i f = none
update (x ∷ xs) zero f = some (f x ∷ xs)
update (x ∷ xs) (suc i) f = update xs i f >>= λ ys. some (x ∷ ys)

module _ {ℓ} {A : Type ℓ} where
  pub update_lem :
      (xs : List A) (i : ℕ) (f : A → A) → i < length xs → update xs i f ≡ some (modify xs i f)
  update_lem [] i f h = elim h [ ]
  update_lem (x ∷ xs) zero f h = refl
  update_lem (x ∷ xs) (suc i) f h = rw (update_lem xs i f (omega arith))

  pub get_elem?_lem :
      (xs : List A) (i : ℕ) (d : A) → i < length xs → get_elem? xs i ≡ some (get_or xs i d)
  get_elem?_lem [] i d h = elim h [ ]
  get_elem?_lem (x ∷ xs) zero d h = refl
  get_elem?_lem (x ∷ xs) (suc i) d h = get_elem?_lem xs i d (omega arith)

  pub get_or-modify :
      (xs : List A) (i j : ℕ) (f : A → A) (d : A)
      → i < length xs
      → get_or (modify xs i f) j d ≡ (if i == j then f (get_or xs j d) else get_or xs j d)
  get_or-modify [] i j f d h = elim h [ ]
  get_or-modify (x ∷ xs) zero zero f d h = ground arith
  get_or-modify (x ∷ xs) zero (suc j) f d h = ground arith
  get_or-modify (x ∷ xs) (suc i) zero f d h = ground arith
  get_or-modify (x ∷ xs) (suc i) (suc j) f d h = ground (arith, get_or-modify xs i j f d)

  pub get_elem?-modify :
      (xs : List A) (i j : ℕ) (f : A → A) → i ≢ j → get_elem? (modify xs i f) j ≡ get_elem? xs j
  get_elem?-modify [] i j f h = refl
  get_elem?-modify (x ∷ xs) zero zero f h = absurd (h refl)
  get_elem?-modify (x ∷ xs) zero (suc j) f h = refl
  get_elem?-modify (x ∷ xs) (suc i) zero f h = refl
  get_elem?-modify (x ∷ xs) (suc i) (suc j) f h = get_elem?-modify xs i j f (λ e. h (ap suc e))

  pub get_elem?-modify_self :
      (xs : List A) (i : ℕ) (f : A → A) {a : A}
      → get_elem? xs i ≡ some a
      → get_elem? (modify xs i f) i ≡ some (f a)
  get_elem?-modify_self [] i f h = cc
  get_elem?-modify_self (x ∷ xs) zero f h = ground arith
  get_elem?-modify_self (x ∷ xs) (suc i) f h = get_elem?-modify_self xs i f h

  pub get_elem?_past : (xs : List A) (i : ℕ) → length xs ≤ i → get_elem? xs i ≡ none
  get_elem?_past [] i h = refl
  get_elem?_past (x ∷ xs) zero h = absurd (omega arith)
  get_elem?_past (x ∷ xs) (suc i) h = get_elem?_past xs i (omega arith)

  -- What is there stands within the length.
  pub lt_of_get_elem? : (xs : List A) (i : ℕ) {a : A} → get_elem? xs i ≡ some a → i < length xs
  lt_of_get_elem? [] i h = cc
  lt_of_get_elem? (x ∷ xs) zero h = omega arith
  lt_of_get_elem? (x ∷ xs) (suc i) h = omega (arith, lt_of_get_elem? xs i h)

for_range_fault_step {ℓ} :
    {S : Type ℓ} (body : ℕ → S → Option S) (n i : ℕ) (s : S)
    → ((t : S) → for_range n (i + 1) body t ≡ none)
    → for_range (suc n) i body s ≡ none
unfolding for_range
for_range_fault_step body n i s rest = elim (Option-cases (body i s)) [
  | inl e ↦ rw (e, for_range)
  | inr (t, e) ↦ rw (e, for_range) (rest t)
]

-- A loop whose rounds can succeed only below `bound` faults when it goes on past it.
pub for_range_fault {ℓ} :
    {S : Type ℓ} (body : ℕ → S → Option S) (bound : ℕ)
    → ((i : ℕ) (s : S) → bound ≤ i → body i s ≡ none)
    → (n i : ℕ) (s : S) → bound < i + n
    → i ≤ bound
    → for_range n i body s ≡ none
unfolding for_range
for_range_fault body bound stop zero i s h k = absurd (omega arith)
for_range_fault body bound stop (suc n) i s h k = elim (dec_lt i bound) [
  | yes below ↦
      for_range_fault_step body n i s
        (λ t. for_range_fault body bound stop n (i + 1) t (omega arith) (omega arith))
  | no past ↦ rw (stop i s (omega arith), for_range)
]

pub update-middle {ℓ} :
    {A : Type ℓ} (xs ys : List A) (x : A) (f : A → A)
    → update (xs ++ x ∷ ys) (length xs) f ≡ some (xs ++ f x ∷ ys)
update-middle [] ys x f = refl
update-middle (z ∷ xs) ys x f = rw (update-middle xs ys x f) refl
