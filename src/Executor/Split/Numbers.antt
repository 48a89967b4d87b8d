-- ===== src/Executor/Split/Numbers.antt =====
-- src/nccl_stats_uploader_executor.cc: the process identifier and the `upload_index` of each chunk.
use Prim.Native.String.{String}
use gpuviz.Base.{
  ℕ, ◌<◌, ◌≡◌, refl, sym, ap, ◌∙◌, List, [], ◌∷◌, ◌++◌, ltb, not, ◌&&◌, ◌==◌, length, arith, zero,
  suc, modify, if_both, if◌then◌else◌,
}
use gpuviz.Base.Words.{add_u64}
use gpuviz.Executor.{
  AllStats, ByteSize, SplitState, empty_message, add_log, add_stats, add_event,
  add_sub_message_to_q, move_to, split_entry, split_entries, split_field,
  split_all_stats_message_into_q,
}

snoc-positive : {A : Type 0} (xs : List A) (x : A) → 0 < length (xs ++ (x ∷ []))
snoc-positive [] x = omega arith
snoc-positive (y ∷ xs) x = omega arith

module _ {L C E : Type 0} where
  -- The chunks bear the process identifier, and the indices from `start` on, one after the other and
  -- modulo 2^64; `end` is the next index.
  abbrev pub Numbered : String → ℕ → ℕ → List (AllStats L C E) → Type 0
  Numbered p start end [] = start ≡ end
  Numbered p start end (m ∷ ms) =
      (m.source_process_identifier ≡ p)
      × (m.upload_index ≡ start)
      × Numbered p (add_u64 start 1) end ms

  Numbered-snoc :
      (p : String) (start end : ℕ) (q : List (AllStats L C E)) (m : AllStats L C E)
      → Numbered p start end q
      → m.source_process_identifier ≡ p
      → m.upload_index ≡ end
      → Numbered p start (add_u64 end 1) (q ++ (m ∷ []))
  Numbered-snoc p start end [] m h i k = (i, k ∙ sym h, ap (λ n. add_u64 n 1) h)
  Numbered-snoc p start end (x ∷ q) m (a, b, h) i k =
      (a, b, Numbered-snoc p (add_u64 start 1) end q m h i k)

  Numbered-flush :
      (p : String) (start : ℕ) (s : SplitState L C E)
      → Numbered p start s.index s.q
      → Numbered p start (add_sub_message_to_q p s).index (add_sub_message_to_q p s).q
  unfolding add_sub_message_to_q
  Numbered-flush p start s h = Numbered-snoc p start s.index s.q _ h refl refl

  -- Entries that are moved into a queued chunk leave the numbers alone.
  Stamped : (AllStats L C E → AllStats L C E) → Type 0
  Stamped append =
      (m : AllStats L C E)
      → ((append m).source_process_identifier ≡ m.source_process_identifier)
        × ((append m).upload_index ≡ m.upload_index)

  Numbered-modify :
      (p : String) (start end i : ℕ) (append : AllStats L C E → AllStats L C E)
      (q : List (AllStats L C E))
      → Stamped append
      → Numbered p start end q
      → Numbered p start end (modify q i append)
  unfolding Stamped
  Numbered-modify p start end i append [] k h = h
  Numbered-modify p start end zero append (m ∷ q) k (a, b, h) = ((k m).0 ∙ a, (k m).1 ∙ b, h)
  Numbered-modify p start end (suc i) append (m ∷ q) k (a, b, h) =
      (a, b, Numbered-modify p (add_u64 start 1) end i append q k h)

  Numbered-move :
      (p : String) (start d : ℕ) (append : AllStats L C E → AllStats L C E) (s : SplitState L C E)
      → Stamped append
      → Numbered p start s.index s.q
      → Numbered p start (move_to d append s).index (move_to d append s).q
  unfolding move_to
  Numbered-move p start d append s k h =
      if_both {A = SplitState L C E} (λ t. Numbered p start t.index t.q) (d == length s.q) h
        (Numbered-modify p start s.index d append s.q k h)

  Numbered-entry :
      (p : String) (start limit d : ℕ) (append : AllStats L C E → AllStats L C E) (size : ℕ)
      (s : SplitState L C E)
      → Stamped append
      → Numbered p start s.index s.q
      → let s' = split_entry p limit d append size s in Numbered p start s'.index s'.q
  unfolding split_entry
  Numbered-entry p start limit d append size s k h =
      let full =
        not (s.current_cumulative_size == 0)
        && ltb limit (add_u64 s.current_cumulative_size size) in
      let s' = if full then add_sub_message_to_q p s else s in
      Numbered-move p start d append s' k (
        if_both {A = SplitState L C E} (λ t. Numbered p start t.index t.q) full
          (Numbered-flush p start s h) h)

  Numbered-entries :
      {T : Type 0} (p : String) (start limit d : ℕ) (append : T → AllStats L C E → AllStats L C E)
      (size : T → ℕ) (xs : List T) (s : SplitState L C E)
      → ((x : T) → Stamped (append x))
      → Numbered p start s.index s.q
      → let s' = split_entries p limit d append size xs s in Numbered p start s'.index s'.q
  unfolding split_entries
  Numbered-entries p start limit d append size [] s k h = h
  Numbered-entries p start limit d append size (x ∷ xs) s k h =
      Numbered-entry p start limit d (append x) (size x) (split_entries p limit d append size xs s)
        (k x) (Numbered-entries p start limit d append size xs s k h)

  -- The chunks bear the identifier of the process and consecutive upload indices modulo 2^64, from
  -- `index_` on, and the index that is left is the next one. There is always a chunk: for a message
  -- without entries it is the heart beat.
  pub split-Numbered :
      (byte_size : ByteSize L C E) (p : String) (index limit : ℕ) (msg : AllStats L C E)
      → let (q, next) = split_all_stats_message_into_q byte_size p index limit msg in
        Numbered p index next q × (0 < length q)
  unfolding split_all_stats_message_into_q split_field add_sub_message_to_q Stamped
  split-Numbered byte_size p index limit msg =
      let start : SplitState L C E = record {
        q = [];
        sub_m = empty_message;
        current_cumulative_size = 0;
        index = index;
      } in
      let s1 = split_field p limit add_log byte_size.log msg.events_log start in
      let s2 = split_field p limit add_stats byte_size.stats msg.conn_stats s1 in
      let s3 = split_field p limit add_event byte_size.event msg.events s2 in
      (
        Numbered-flush p index s3 (
            Numbered-entries p index limit (length s2.q) add_event byte_size.event msg.events s2
              (λ x m. (refl, refl))
              (Numbered-entries p index limit (length s1.q) add_stats byte_size.stats msg.conn_stats
                s1 (λ x m. (refl, refl))
                (Numbered-entries p index limit 0 add_log byte_size.log msg.events_log start
                  (λ x m. (refl, refl)) refl))),
        snoc-positive s3.q _,
      )
