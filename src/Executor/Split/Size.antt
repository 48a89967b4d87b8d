-- ===== src/Executor/Split/Size.antt =====
-- src/nccl_stats_uploader_executor.cc: the sizes of the chunks against the limit on bytes.
use mathlib.Core.List.{reverse-cons}
use Prim.Native.String.{String}
use gpuviz.Base.{
  ℕ, ◌+◌, ◌<◌, ◌≡◌, refl, ap, ◌∙◌, List, [], ◌∷◌, ◌++◌, reverse, ◌==◌, ◌⊎◌, inl, inr, length, arith,
  get_or, if_true,
}
use gpuviz.Executor.{AllStats, ByteSize, empty_message, split_all_stats_message_into_q}
use gpuviz.Executor.Split.Order.{StandsIn, split-keeps_entries}

abbrev pub total_of : {T : Type 0} → (T → ℕ) → List T → ℕ
total_of size [] = 0
total_of size (x ∷ xs) = size x + total_of size xs

total_of-snoc :
    {T : Type 0} (size : T → ℕ) (xs : List T) (x : T)
    → total_of size (xs ++ (x ∷ [])) ≡ total_of size xs + size x
total_of-snoc size [] x = omega arith
total_of-snoc size (y ∷ xs) x = omega (arith, total_of-snoc size xs x)

total_of-reverse :
    {T : Type 0} (size : T → ℕ) (xs : List T) → total_of size (reverse xs) ≡ total_of size xs
total_of-reverse size [] = refl
total_of-reverse size (x ∷ xs) =
    ap (total_of size) (reverse-cons x xs)
    ∙ omega (arith, total_of-snoc size (reverse xs) x, total_of-reverse size xs)

module _ {L C E : Type 0} (byte_size : ByteSize L C E) where
  -- The sizes of the entries of a message together.
  abbrev pub weight : AllStats L C E → ℕ
  weight m =
      total_of byte_size.log m.events_log
      + total_of byte_size.stats m.conn_stats
      + total_of byte_size.event m.events

  -- A chunk of the queue whose entries alone are larger than the limit.
  abbrev pub Exceeds : ℕ → List (AllStats L C E) → Type 0
  Exceeds limit q = (j : ℕ) × (j < length q) × (limit < weight (get_or q j empty_message))

  -- The chunk where all entries of a field stand has at least their size.
  total_in :
      {T : Type 0} (f : AllStats L C E → List T) (size : T → ℕ) (xs : List T) (d : ℕ)
      (q : List (AllStats L C E))
      → StandsIn f d (reverse xs) q
      → total_of size (f (get_or q d empty_message)) ≡ total_of size xs
  total_in f size xs d q h =
      ap (total_of size)
        (h.1 d ∙ if_true (λ ys. ys ≡ reverse xs) (d == d) (ground arith) (reverse xs) [] refl)
      ∙ total_of-reverse size xs

  -- Where the entries of one field are together larger than the limit, however small each of them is,
  -- some chunk is larger than the limit.
  pub split-Exceeds :
      (p : String) (index limit : ℕ) (msg : AllStats L C E)
      → (limit < total_of byte_size.log msg.events_log)
        ⊎ ((limit < total_of byte_size.stats msg.conn_stats)
            ⊎ (limit < total_of byte_size.event msg.events))
      → Exceeds limit (split_all_stats_message_into_q byte_size p index limit msg).0
  split-Exceeds p index limit msg h =
      let q = (split_all_stats_message_into_q byte_size p index limit msg).0 in
      let (i, k, _, logs, stats, events) = split-keeps_entries byte_size p index limit msg in
      elim h [
        | inl n ↦ (
          0,
          logs.0,
          omega (arith, n, total_in (λ m. m.events_log) byte_size.log msg.events_log 0 q logs),
        )
        | inr (inl n) ↦ (
          i,
          stats.0,
          omega (arith, n, total_in (λ m. m.conn_stats) byte_size.stats msg.conn_stats i q stats),
        )
        | inr (inr n) ↦ (
          k,
          events.0,
          omega (arith, n, total_in (λ m. m.events) byte_size.event msg.events k q events),
        )
      ]
