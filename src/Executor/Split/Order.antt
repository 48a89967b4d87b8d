-- ===== src/Executor/Split/Order.antt =====
-- src/nccl_stats_uploader_executor.cc: the chunks in which the entries of a message stand.
use mathlib.Core.List.{append_assoc, append-nil, reverse-cons}
use Prim.Native.String.{String}
use gpuviz.Base.{
  ℕ, ◌<◌, ◌≤◌, ◌≡◌, refl, sym, ap, ◌∙◌, List, [], ◌∷◌, ◌++◌, reverse, ◌==◌, Bool, true, false,
  length, arith, zero, suc, get_or, if◌then◌else◌,
}
use gpuviz.Executor.{
  AllStats, ByteSize, SplitState, empty_message, add_log, add_stats, add_event, split_entries,
  split_field, split_all_stats_message_into_q,
}
use gpuviz.Executor.Split.Chunks.{chunks, IsField, at, at-entry, at-queue, grows, flush-longer}

joined :
    {T : Type 0} (b : Bool) (before : List T) (xs : List T) (x : T)
    → (before ++ (if b then reverse xs else [])) ++ (if b then x ∷ [] else [])
      ≡ before ++ (if b then reverse (x ∷ xs) else [])
joined true before xs x =
    append_assoc before (reverse xs) (x ∷ []) ∙ ap (λ zs. before ++ zs) (sym (reverse-cons x xs))
joined false before xs x = append-nil (before ++ [])

module _ {L C E T : Type 0} (f : AllStats L C E → List T) where
  -- The chunk at place `d` has these entries, and no other chunk has any.
  abbrev pub StandsIn : ℕ → List T → List (AllStats L C E) → Type 0
  StandsIn d xs q =
      (d < length q) × ((j : ℕ) → f (get_or q j empty_message) ≡ (if d == j then xs else []))

  -- The field that the entries belong to.
  at-entries :
      (p : String) (limit d : ℕ) (append : T → AllStats L C E → AllStats L C E) (size : T → ℕ)
      (xs : List T) (s : SplitState L C E) (j : ℕ)
      → IsField f
      → d ≤ length s.q
      → ((x : T) (m : AllStats L C E) → f (append x m) ≡ f m ++ (x ∷ []))
      → at f (split_entries p limit d append size xs s) j
        ≡ at f s j ++ (if d == j then reverse xs else [])
  unfolding split_entries
  at-entries p limit d append size [] s j h l k =
      sym (append-nil (at f s j)) ∙ ap (λ zs. at f s j ++ zs) (ground arith)
  at-entries p limit d append size (x ∷ xs) s j h l k =
      at-entry f p limit d (append x) (size x) (split_entries p limit d append size xs s) j (x ∷ [])
        h (omega (arith, grows p limit d append size xs s)) (k x)
      ∙ ap (λ zs. zs ++ (if d == j then x ∷ [] else []))
          (at-entries p limit d append size xs s j h l k)
      ∙ joined (d == j) (at f s j) xs x

  -- Another field.
  at-other :
      {U : Type 0} (p : String) (limit d : ℕ) (append : U → AllStats L C E → AllStats L C E)
      (size : U → ℕ) (xs : List U) (s : SplitState L C E) (j : ℕ)
      → IsField f
      → d ≤ length s.q
      → ((x : U) (m : AllStats L C E) → f (append x m) ≡ f m)
      → at f (split_entries p limit d append size xs s) j ≡ at f s j
  unfolding split_entries
  at-other p limit d append size [] s j h l k = refl
  at-other p limit d append size (x ∷ xs) s j h l k =
      at-entry f p limit d (append x) (size x) (split_entries p limit d append size xs s) j [] h
        (omega (arith, grows p limit d append size xs s)) (λ m. k x m ∙ sym (append-nil (f m)))
      ∙ nothing_added (d == j) (at f (split_entries p limit d append size xs s) j)
      ∙ at-other p limit d append size xs s j h l k
    where
      nothing_added : (b : Bool) (ys : List T) → ys ++ (if b then [] else []) ≡ ys
      nothing_added true ys = append-nil ys
      nothing_added false ys = append-nil ys

module _ {L C E : Type 0} where
  abbrev begin : ℕ → SplitState L C E
  begin index = record { q = []; sub_m = empty_message; current_cumulative_size = 0; index = index }

  at-begin :
      {T : Type 0} (f : AllStats L C E → List T) (index j : ℕ)
      → IsField f
      → at f (begin index) j ≡ []
  unfolding at chunks
  at-begin f index zero h = h.empty
  at-begin f index (suc j) h = h.empty

  logs-IsField : IsField {L = L} {C = C} {E = E} (λ m. m.events_log)
  logs-IsField = record { empty = refl; kept = λ m a b. refl }

  stats-IsField : IsField {L = L} {C = C} {E = E} (λ m. m.conn_stats)
  stats-IsField = record { empty = refl; kept = λ m a b. refl }

  events-IsField : IsField {L = L} {C = C} {E = E} (λ m. m.events)
  events-IsField = record { empty = refl; kept = λ m a b. refl }

  -- Whatever the limit on bytes, the log entries all stand in the first chunk, the connection
  -- statistics all in one chunk, and the events all in one chunk, which is not before that of the
  -- statistics; in each of them in reverse order. No entry is lost or added, and no field is divided.
  pub split-keeps_entries :
      (byte_size : ByteSize L C E) (p : String) (index limit : ℕ) (msg : AllStats L C E)
      → let q = (split_all_stats_message_into_q byte_size p index limit msg).0 in
        (i : ℕ) × (k : ℕ) × (i ≤ k)
        × StandsIn (λ m. m.events_log) 0 (reverse msg.events_log) q
        × StandsIn (λ m. m.conn_stats) i (reverse msg.conn_stats) q
        × StandsIn (λ m. m.events) k (reverse msg.events) q
  unfolding split_all_stats_message_into_q split_field
  split-keeps_entries byte_size p index limit msg =
      let s1 = split_entries p limit 0 add_log byte_size.log msg.events_log (begin index) in
      let i = length s1.q in
      let s2 = split_entries p limit i add_stats byte_size.stats msg.conn_stats s1 in
      let k = length s2.q in
      let s3 = split_entries p limit k add_event byte_size.event msg.events s2 in
      let g2 = grows p limit i add_stats byte_size.stats msg.conn_stats s1 in
      let g3 = grows p limit k add_event byte_size.event msg.events s2 in
      let n = flush-longer p s3 in
      (
        i,
        k,
        g2,
        (
          omega (arith, n),
          λ j.
              at-queue (λ m. m.events_log) p s3 j logs-IsField
              ∙ at-other (λ m. m.events_log) p limit k add_event byte_size.event msg.events s2 j
                  logs-IsField (omega arith) (λ x m. refl)
              ∙ at-other (λ m. m.events_log) p limit i add_stats byte_size.stats msg.conn_stats s1 j
                  logs-IsField (omega arith) (λ x m. refl)
              ∙ at-entries (λ m. m.events_log) p limit 0 add_log byte_size.log msg.events_log
                  (begin index) j logs-IsField (omega arith) (λ x m. refl)
              ∙ ap (λ zs. zs ++ (if 0 == j then reverse msg.events_log else []))
                  (at-begin (λ m. m.events_log) index j logs-IsField),
        ),
        (
          omega (arith, n, g2, g3),
          λ j.
              at-queue (λ m. m.conn_stats) p s3 j stats-IsField
              ∙ at-other (λ m. m.conn_stats) p limit k add_event byte_size.event msg.events s2 j
                  stats-IsField (omega arith) (λ x m. refl)
              ∙ at-entries (λ m. m.conn_stats) p limit i add_stats byte_size.stats msg.conn_stats s1
                  j stats-IsField (omega arith) (λ x m. refl)
              ∙ ap (λ zs. zs ++ (if i == j then reverse msg.conn_stats else []))
                  (at-other (λ m. m.conn_stats) p limit 0 add_log byte_size.log msg.events_log
                      (begin index) j stats-IsField (omega arith) (λ x m. refl)
                    ∙ at-begin (λ m. m.conn_stats) index j stats-IsField),
        ),
        (
          omega (arith, n, g3),
          λ j.
              at-queue (λ m. m.events) p s3 j events-IsField
              ∙ at-entries (λ m. m.events) p limit k add_event byte_size.event msg.events s2 j
                  events-IsField (omega arith) (λ x m. refl)
              ∙ ap (λ zs. zs ++ (if k == j then reverse msg.events else []))
                  (at-other (λ m. m.events) p limit i add_stats byte_size.stats msg.conn_stats s1 j
                      events-IsField (omega arith) (λ x m. refl)
                    ∙ at-other (λ m. m.events) p limit 0 add_log byte_size.log msg.events_log
                        (begin index) j events-IsField (omega arith) (λ x m. refl)
                    ∙ at-begin (λ m. m.events) index j events-IsField),
        ),
      )
