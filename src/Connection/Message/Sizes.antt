-- ===== src/Connection/Message/Sizes.antt =====
-- src/nccl_stats_aggregator.cc: the histograms of a connection's message.
use mathlib.Core.List.{append_assoc, append-nil}
use gpuviz.Base.{
  ℕ, zero, suc, ◌+◌, ◌-◌, ◌≡◌, ◌∙◌, refl, sym, ◌<◌, true, false, ◌==◌, Option, none, some, List, [],
  ◌∷◌, ◌++◌, length, get_elem?, get_elem?-middle, length-append, if◌then◌else◌, arith, Bool-cases,
  inl, inr,
}
use gpuviz.Base.Faults.{◌>>=◌}
use gpuviz.Double.{DoubleOps}
use gpuviz.Bucketer.{Bucketer, get_sample_submitted, get_bucket_counts}
use gpuviz.Bucketer.Counts.{total}
use gpuviz.Bucketer.Summary.{get_min-submitted, get_max-submitted, get_avg-submitted}
use gpuviz.Message.{
  StatsDistribution, ConnectionStats, IdentifierMessage, empty_connection, empty_identifier,
  empty_stats,
}
use gpuviz.Connection.{DistributionMap}
use gpuviz.Connection.Identifier.{ConnectionIdentifier}
use gpuviz.Connection.Message.{
  populate_stats_distribution_with_distribution_bucketer, add_histograms, ingest_message_sizes,
  get_connection_stats_proto_from_read_bucket, populate_nccl_stats_connection_identifier,
  assign_nccl_stats_connection,
}

module _ {D : Type 0} ⦃o : DoubleOps D⦄ where
  -- What a message tells of a bucketer.
  abbrev pub described : Bucketer D → ℕ → StatsDistribution D
  described b i = record {
    dist_type = some i;
    min = some b.min;
    max = some b.max;
    avg = some (o.div b.sum (o.of_nat b.count));
    num_samples = some (total (get_bucket_counts b));
    scale_factor = some b.scale;
    base = some b.base;
    max_bucket = some (o.to_nat b.max_bucket);
    bucket_counts = get_bucket_counts b;
    min_msg_size_bucket = none;
    max_msg_size_bucket = none;
  }

  abbrev pub entry : Bucketer D → ℕ → List (StatsDistribution D)
  entry b i = if get_sample_submitted b then described b i ∷ [] else []

  -- The bucketers that have a sample, in the order of their types, from type `i` on.
  pub listed : ℕ → DistributionMap D → List (StatsDistribution D)
  listed i [] = []
  listed i (none ∷ map) = listed (suc i) map
  listed i (some b ∷ map) = entry b i ++ listed (suc i) map

  -- The bucketer of a type, if it has a sample.
  pub sampled : ℕ → DistributionMap D → Option (Bucketer D)
  sampled j map = do p ← get_elem? map j; b ← p; if get_sample_submitted b then some b else none

  abbrev pub with_sizes : Option (Bucketer D) → StatsDistribution D → StatsDistribution D
  with_sizes none d = d
  with_sizes (some b) d = record d {
    min_msg_size_bucket = some (o.to_u32 b.min);
    max_msg_size_bucket = some (o.to_u32 b.max);
  }

  -- The histograms of a message: software latency of sending, which is of type 0, bears the range of
  -- the sizes sent.
  pub reported : DistributionMap D → List (StatsDistribution D)
  reported [] = []
  reported (none ∷ map) = listed 1 map
  reported (some b ∷ map) =
      (if get_sample_submitted b then with_sizes (sampled 4 map) (described b 0) ∷ [] else [])
      ++ listed 1 map

  abbrev pub extend : ConnectionStats D → List (StatsDistribution D) → ConnectionStats D
  extend m l = record m { histogram = m.histogram ++ l }

  pub populate_lem :
      (m : ConnectionStats D) (b : Bucketer D) (i : ℕ)
      → populate_stats_distribution_with_distribution_bucketer m b i
        ≡ some (
          extend m (entry b i),
          if get_sample_submitted b then some (length m.histogram) else none,
        )
  unfolding populate_stats_distribution_with_distribution_bucketer
  populate_lem m b i = elim (Bool-cases (get_sample_submitted b)) [
    | inl e ↦
        (let n : length (m.histogram ++ (described b i ∷ [])) - 1 ≡ length m.histogram =
            omega (arith, length-append m.histogram (described b i ∷ [])) in
          rw
            (
              e,
              populate_stats_distribution_with_distribution_bucketer,
              get_max-submitted b e,
              get_min-submitted b e,
              get_avg-submitted b e,
              n,
            )
            refl)
    | inr e ↦
        rw (e, populate_stats_distribution_with_distribution_bucketer, append-nil m.histogram) refl
  ]

  -- From type 6 on, no index changes.
  rest_lem :
      (i : ℕ) (map : DistributionMap D) (m : ConnectionStats D) (s l : Option ℕ)
      → 5 < i
      → add_histograms i map (m, s, l) ≡ some (extend m (listed i map), s, l)
  unfolding add_histograms listed
  rest_lem i [] m s l h = rw (append-nil m.histogram) refl
  rest_lem i (none ∷ map) m s l h = rest_lem (suc i) map m s l (omega arith)
  rest_lem i (some b ∷ map) m s l h =
      let e5 : (i == 5) ≡ false = ground arith in
      let e0 : (i == 0) ≡ false = ground arith in
      rw (populate_lem m b i, e5, e0)
        (rest_lem (suc i) map (extend m (entry b i)) s l (omega arith)
          ∙ rw (append_assoc m.histogram (entry b i) (listed (suc i) map)) refl)

  -- What an index of the list of histograms stands for.
  abbrev IsAt : Option ℕ → Option (Bucketer D) → List (StatsDistribution D) → Type 0
  IsAt none none ds = Unit {0}
  IsAt none (some b) ds = ⊥
  IsAt (some k) none ds = ⊥
  IsAt (some k) (some b) ds = get_elem? ds k ≡ some (described b 5)

  -- From a type up to 5 on: the index is that of the histogram of sizes sent, if there is one.
  sizes_lem :
      (j i : ℕ) (map : DistributionMap D) (m : ConnectionStats D) (l : Option ℕ)
      → j + i ≡ 5
      → 0 < i
      → (s : Option ℕ) × (add_histograms i map (m, none, l) ≡ some (extend m (listed i map), s, l))
        × IsAt s (sampled j map) (m.histogram ++ listed i map)
  unfolding add_histograms listed sampled
  sizes_lem j i [] m l h p = (none, rw (append-nil m.histogram) refl, tt)
  sizes_lem zero i (none ∷ map) m l h p = (none, rest_lem (suc i) map m none l (omega arith), tt)
  sizes_lem (suc j) i (none ∷ map) m l h p = sizes_lem j (suc i) map m l (omega arith) (omega arith)
  sizes_lem zero i (some b ∷ map) m l h p =
      let e5 : (i == 5) ≡ true = ground arith in
      let e0 : (i == 0) ≡ false = ground arith in
      let i5 : i ≡ 5 = omega arith in
      let s : Option ℕ = if get_sample_submitted b then some (length m.histogram) else none in
      (
        s,
        rw (populate_lem m b i, e5, e0)
            (rest_lem (suc i) map (extend m (entry b i)) s l (omega arith)
              ∙ rw (append_assoc m.histogram (entry b i) (listed (suc i) map)) refl),
        elim (Bool-cases (get_sample_submitted b)) [
          | inl e ↦ rw (e, i5) (get_elem?-middle m.histogram (listed 6 map) (described b 5))
          | inr e ↦ rw e tt
        ],
      )
  sizes_lem (suc j) i (some b ∷ map) m l h p =
      let e5 : (i == 5) ≡ false = ground arith in
      let e0 : (i == 0) ≡ false = ground arith in
      let (s, e, found) =
        sizes_lem j (suc i) map (extend m (entry b i)) l (omega arith) (omega arith) in
      let r = append_assoc m.histogram (entry b i) (listed (suc i) map) in
      (s, rw (populate_lem m b i, e5, e0) (e ∙ rw r refl), rw (sym r) found)

  -- The range of sizes is written into the first histogram.
  ingest_lem :
      (m : ConnectionStats D) (d : StatsDistribution D) (ds : List (StatsDistribution D))
      (s : Option ℕ) (b : Option (Bucketer D))
      → m.histogram ≡ d ∷ ds
      → IsAt s b (d ∷ ds)
      → ingest_message_sizes m s (some 0) ≡ some (record m { histogram = with_sizes b d ∷ ds })
  unfolding ingest_message_sizes
  ingest_lem m d ds none none h p = rw (sym h) refl
  ingest_lem m d ds none (some b) h p = elim p [ ]
  ingest_lem m d ds (some k) none h p = elim p [ ]
  ingest_lem m d ds (some k) (some b) h p = rw (h, p) refl

  no_latency_lem : (m : ConnectionStats D) (s : Option ℕ) → ingest_message_sizes m s none ≡ some m
  unfolding ingest_message_sizes
  no_latency_lem m none = refl
  no_latency_lem m (some k) = refl

  histograms_lem :
      (id : Option IdentifierMessage) (now : Option ℕ) (map : DistributionMap D)
      → (add_histograms 0 map
            (record { connection_id = id; time_stamp = now; histogram = [] }, none, none)
          >>= λ r. ingest_message_sizes r.0 r.1 r.2)
        ≡ some (record { connection_id = id; time_stamp = now; histogram = reported map })
  unfolding add_histograms reported
  histograms_lem id now [] = no_latency_lem _ none
  histograms_lem id now (none ∷ map) =
      let (s, e, found) =
        sizes_lem 4 1 map (record { connection_id = id; time_stamp = now; histogram = [] }) none
          (omega arith) (omega arith) in
      rw e (no_latency_lem _ s)
  histograms_lem id now (some b ∷ map) =
      let m : ConnectionStats D = record { connection_id = id; time_stamp = now; histogram = [] } in
      elim (Bool-cases (get_sample_submitted b)) [
        | inl y ↦
            (let (s, e, found) =
                sizes_lem 4 1 map (extend m (described b 0 ∷ [])) (some 0) (omega arith)
                  (omega arith) in
              rw (populate_lem m b 0, y, e)
                (ingest_lem (record m { histogram = described b 0 ∷ listed 1 map }) (described b 0)
                  (listed 1 map) s (sampled 4 map) refl found))
        | inr n ↦
            (let (s, e, found) = sizes_lem 4 1 map (extend m []) none (omega arith) (omega arith) in
              rw (populate_lem m b 0, n, e) (no_latency_lem _ s))
      ]

  -- The message bears the identifier, the time and, in the order of their types, the histograms that
  -- have a sample; that of the software latency of sending bears the smallest and the largest of the
  -- sizes sent, each converted to a `uint32_t`, if there are any. No missing value is read and no
  -- index is out of range.
  pub proto-reported :
      (c : ConnectionIdentifier) (plugin_major plugin_minor now : ℕ) (map : DistributionMap D)
      → get_connection_stats_proto_from_read_bucket c plugin_major plugin_minor now map empty_stats
        ≡ some (record {
          connection_id =
              some
                (record (populate_nccl_stats_connection_identifier c.nccl_plugin_type
                  c.nccl_plugin_name c.gpu_pci_addr c.gpu_uuid plugin_major plugin_minor
                  empty_identifier) {
                    connection = some (assign_nccl_stats_connection c empty_connection);
                  });
          time_stamp = some now;
          histogram = reported map;
        })
  unfolding get_connection_stats_proto_from_read_bucket
  proto-reported c plugin_major plugin_minor now map = histograms_lem _ (some now) map
