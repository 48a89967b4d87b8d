-- ===== src/Executor/Split/Chunks.antt =====
-- src/nccl_stats_uploader_executor.cc: the entries that stand in each chunk, and what one entry adds.
use mathlib.Core.List.{append-nil}
use Prim.Native.String.{String}
use gpuviz.Base.{
  ℕ, ◌<◌, ◌≤◌, ◌≡◌, refl, sym, ap, ◌∙◌, List, [], ◌∷◌, ◌++◌, ltb, not, ◌&&◌, ◌==◌, inl, inr,
  Bool-cases, Bool, true, false, length, arith, zero, suc, modify, get_or, if_both, if◌then◌else◌,
}
use gpuviz.Base.Faults.{get_or-modify}
use gpuviz.Base.Words.{add_u64}
use gpuviz.Executor.{
  AllStats, SplitState, empty_message, add_sub_message_to_q, move_to, split_entry, split_entries,
}

length-snoc : {A : Type 0} (xs : List A) (x : A) → length (xs ++ (x ∷ [])) ≡ suc (length xs)
length-snoc [] x = refl
length-snoc (y ∷ xs) x = omega (arith, length-snoc xs x)

length-modify : {A : Type 0} (xs : List A) (i : ℕ) (f : A → A) → length (modify xs i f) ≡ length xs
length-modify [] i f = refl
length-modify (x ∷ xs) zero f = refl
length-modify (x ∷ xs) (suc i) f = omega (arith, length-modify xs i f)

module _ {A B : Type 0} (f : A → B) (d : A) where
  -- One element more, which reads as the default does.
  get_or-default :
      (xs : List A) (x : A) (j : ℕ)
      → f x ≡ f d
      → f (get_or (xs ++ (x ∷ [])) j d) ≡ f (get_or xs j d)
  get_or-default [] x zero h = h
  get_or-default [] x (suc j) h = refl
  get_or-default (y ∷ xs) x zero h = refl
  get_or-default (y ∷ xs) x (suc j) h = get_or-default xs x j h

  -- Another last element that reads the same.
  get_or-same :
      (xs : List A) (x x' : A) (j : ℕ)
      → f x' ≡ f x
      → f (get_or (xs ++ (x' ∷ [])) j d) ≡ f (get_or (xs ++ (x ∷ [])) j d)
  get_or-same [] x x' zero h = h
  get_or-same [] x x' (suc j) h = refl
  get_or-same (y ∷ xs) x x' zero h = refl
  get_or-same (y ∷ xs) x x' (suc j) h = get_or-same xs x x' j h

module _ {A : Type 0} (g : A → A) where
  modify-last : (xs : List A) (x : A) → modify (xs ++ (x ∷ [])) (length xs) g ≡ xs ++ (g x ∷ [])
  modify-last [] x = refl
  modify-last (y ∷ xs) x = ap (λ ys. y ∷ ys) (modify-last xs x)

  modify-init :
      (xs : List A) (x : A) (i : ℕ)
      → i < length xs
      → modify (xs ++ (x ∷ [])) i g ≡ modify xs i g ++ (x ∷ [])
  modify-init [] x i h = elim h [ ]
  modify-init (y ∷ xs) x zero h = refl
  modify-init (y ∷ xs) x (suc i) h = ap (λ ys. y ∷ ys) (modify-init xs x i (omega arith))

module _ {L C E : Type 0} where
  -- The chunks of the queue and the open one.
  unfoldable pub chunks : SplitState L C E → List (AllStats L C E)
  chunks s = s.q ++ (s.sub_m ∷ [])

  chunks-move :
      (d : ℕ) (append : AllStats L C E → AllStats L C E) (s : SplitState L C E)
      → d ≤ length s.q
      → chunks (move_to d append s) ≡ modify (chunks s) d append
  unfolding chunks move_to
  chunks-move d append s h = elim (Bool-cases (d == length s.q)) [
    | inl e ↦
        let k : d ≡ length s.q = ground arith in
        rw e (
          sym
            (ap (λ i. modify (s.q ++ (s.sub_m ∷ [])) i append) k ∙ modify-last append s.q s.sub_m))
    | inr e ↦ rw e (sym (modify-init append s.q s.sub_m d (ground arith)))
  ]

  length-move :
      (d : ℕ) (append : AllStats L C E → AllStats L C E) (s : SplitState L C E)
      → length (move_to d append s).q ≡ length s.q
  unfolding move_to
  length-move d append s =
      if_both {A = SplitState L C E} (λ t. length t.q ≡ length s.q) (d == length s.q) refl
        (length-modify s.q d append)

  pub flush-longer :
      (p : String) (s : SplitState L C E) → length (add_sub_message_to_q p s).q ≡ suc (length s.q)
  unfolding add_sub_message_to_q
  flush-longer p s = length-snoc s.q _

  -- The queue never gets shorter, so that the destination stays within the chunks.
  grows-entry :
      (p : String) (limit d : ℕ) (append : AllStats L C E → AllStats L C E) (size : ℕ)
      (s : SplitState L C E)
      → length s.q ≤ length (split_entry p limit d append size s).q
  unfolding split_entry
  grows-entry p limit d append size s =
      let full =
        not (s.current_cumulative_size == 0)
        && ltb limit (add_u64 s.current_cumulative_size size) in
      let s' = if full then add_sub_message_to_q p s else s in
      let grown : length s.q ≤ length s'.q =
        if_both {A = SplitState L C E} (λ t. length s.q ≤ length t.q) full
          (omega (arith, flush-longer p s)) (omega arith) in
      omega (arith, grown, length-move d append s')

  pub grows :
      {T : Type 0} (p : String) (limit d : ℕ) (append : T → AllStats L C E → AllStats L C E)
      (size : T → ℕ) (xs : List T) (s : SplitState L C E)
      → length s.q ≤ length (split_entries p limit d append size xs s).q
  unfolding split_entries
  grows p limit d append size [] s = omega arith
  grows p limit d append size (x ∷ xs) s =
      let rest = split_entries p limit d append size xs s in
      omega
        (arith, grows p limit d append size xs s, grows-entry p limit d (append x) (size x) rest)

module _ {L C E T : Type 0} (f : AllStats L C E → List T) where
  -- `f` reads one of the repeated fields.
  pub record IsField : Type 0 where
    pub empty : f empty_message ≡ []
    pub kept :
        (m : AllStats L C E) (process_identifier : String) (index : ℕ)
        → f (record m { source_process_identifier = process_identifier; upload_index = index })
          ≡ f m

  -- The entries of the field that stand in the chunk at a place.
  unfoldable pub at : SplitState L C E → ℕ → List T
  at s j = f (get_or (chunks s) j empty_message)

  at-flush :
      (p : String) (s : SplitState L C E) (j : ℕ)
      → IsField
      → at (add_sub_message_to_q p s) j ≡ at s j
  unfolding at chunks add_sub_message_to_q
  at-flush p s j h =
      let m = record s.sub_m { source_process_identifier = p; upload_index = s.index } in
      get_or-default f empty_message (s.q ++ (m ∷ [])) empty_message j refl
      ∙ get_or-same f empty_message s.q s.sub_m m j (h.kept s.sub_m p s.index)

  -- In the queue, once the open chunk is in it.
  pub at-queue :
      (p : String) (s : SplitState L C E) (j : ℕ)
      → IsField
      → f (get_or (add_sub_message_to_q p s).q j empty_message) ≡ at s j
  unfolding at chunks add_sub_message_to_q
  at-queue p s j h =
      let m = record s.sub_m { source_process_identifier = p; upload_index = s.index } in
      get_or-same f empty_message s.q s.sub_m m j (h.kept s.sub_m p s.index)

  appended :
      (b : Bool) (append : AllStats L C E → AllStats L C E) (m : AllStats L C E) (ys : List T)
      → f (append m) ≡ f m ++ ys
      → f (if b then append m else m) ≡ f m ++ (if b then ys else [])
  appended true append m ys h = h
  appended false append m ys h = sym (append-nil (f m))

  at-move :
      (d : ℕ) (append : AllStats L C E → AllStats L C E) (s : SplitState L C E) (j : ℕ)
      (ys : List T)
      → d ≤ length s.q
      → ((m : AllStats L C E) → f (append m) ≡ f m ++ ys)
      → at (move_to d append s) j ≡ at s j ++ (if d == j then ys else [])
  unfolding at chunks
  at-move d append s j ys h k =
      ap (λ ms. f (get_or ms j empty_message)) (chunks-move d append s h)
      ∙ ap f (
          get_or-modify (chunks s) d j append empty_message
            (omega (arith, length-snoc s.q s.sub_m)))
      ∙ appended (d == j) append (get_or (chunks s) j empty_message) ys
          (k (get_or (chunks s) j empty_message))

  pub at-entry :
      (p : String) (limit d : ℕ) (append : AllStats L C E → AllStats L C E) (size : ℕ)
      (s : SplitState L C E) (j : ℕ) (ys : List T)
      → IsField
      → d ≤ length s.q
      → ((m : AllStats L C E) → f (append m) ≡ f m ++ ys)
      → at (split_entry p limit d append size s) j ≡ at s j ++ (if d == j then ys else [])
  unfolding split_entry at chunks
  at-entry p limit d append size s j ys h l k =
      let full =
        not (s.current_cumulative_size == 0)
        && ltb limit (add_u64 s.current_cumulative_size size) in
      let s' = if full then add_sub_message_to_q p s else s in
      let longer : d ≤ length s'.q =
        if_both {A = SplitState L C E} (λ t. d ≤ length t.q) full (omega (arith, flush-longer p s))
          l in
      let same : at s' j ≡ at s j =
        if_both {A = SplitState L C E} (λ t. at t j ≡ at s j) full (at-flush p s j h) refl in
      at-move d append s' j ys longer k ∙ ap (λ zs. zs ++ (if d == j then ys else [])) same
