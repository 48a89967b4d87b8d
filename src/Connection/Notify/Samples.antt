-- ===== src/Connection/Notify/Samples.antt =====
-- src/nccl_stats_aggregator.cc: which samples `notifyOperationMeasurement` submits to which histogram,
-- and what else of a connection it may change.
use Prim.Native.Nat.{◌-◌}
use gpuviz.Base.{
  ℕ, ◌<◌, ◌≡◌, ◌≢◌, refl, sym, ap, ◌∙◌, true, false, ◌&&◌, some, List, [], ◌∷◌, ◌++◌, arith, ◌==◌,
  ==→eq, if◌then◌else◌, inl, inr, Bool-cases,
}
use gpuviz.Base.Words.{u64_mod}
use gpuviz.Base.Faults.{StatusOr-cases, Status, ok, value, status}
use gpuviz.Double.{DoubleOps}
use gpuviz.Bucketer.{Bucketer, submit, submit_all}
use gpuviz.Bucketer.Counts.{submit_all-nil, submit_all-cons, submit_all-append}
use gpuviz.Stats.{OpType, LatencyType, LatencyMeasurement}
use gpuviz.Connection.{
  at, put, BwStats, Connection, DistributionMap, submit_to, get_latency_distribution_type,
}
use gpuviz.Connection.Shape.{IsSized, at-HasSize, put-HasSize, at-put, put-put, put-at}
use gpuviz.Connection.Histograms.{Holds, submit_to-Holds}
use gpuviz.Connection.Notify.{direction_of, update_bw, notify_measurements}
use gpuviz.Base.{and_left}
use gpuviz.Connection.Notify.Effect.{update_bw-IsRecorded}

some_inj : {A : Type 0} (a b : A) → some (some a) ≡ some (some b) → a ≡ b
some_inj a b h = cc

false_ne : (t j : ℕ) → (t == j) ≡ false → t ≢ j
false_ne t j h = ground arith

-- What the loop returns: the status of the first measurement that is refused.
pub first_refusal : OpType → List LatencyMeasurement → Status
first_refusal type [] = ok
first_refusal type (m ∷ ms) = elim (get_latency_distribution_type type m.latency_type) [
  | status e ↦ e
  | value t ↦ first_refusal type ms
]

first_refusal_cons :
    (type : OpType) (t : ℕ) (m : LatencyMeasurement) (ms : List LatencyMeasurement)
    → get_latency_distribution_type type m.latency_type ≡ value t
    → first_refusal type (m ∷ ms) ≡ first_refusal type ms
unfolding first_refusal
first_refusal_cons type t m ms f = rw (f, first_refusal) refl

module _ {D : Type 0} ⦃o : DoubleOps D⦄ where
  abbrev pub Held : DistributionMap D → ℕ → Type 0
  Held m idx = (b : Bucketer D) × Holds m idx b

  -- The latencies that an operation's measurements submit to histogram `idx`, up to the first that is
  -- refused.
  pub latencies : OpType → ℕ → List LatencyMeasurement → List D
  latencies type idx [] = []
  latencies type idx (m ∷ ms) = elim (get_latency_distribution_type type m.latency_type) [
    | status e ↦ []
    | value t ↦
        (if t == idx then o.of_nat m.latency_in_nanoseconds ∷ [] else []) ++ latencies type idx ms
  ]

  -- Bandwidth is recorded in vectors of `n` buckets, where it is collected.
  abbrev pub Recordable : ℕ → Connection D → Type 0
  Recordable n c = c.bw_hist_collection_enabled ≡ true → IsSized n c

  -- `c'` is `c` with other contents of half `idx` of the histograms, and of half `idx_bw` of the
  -- bandwidth. The histograms of half `idx` have taken the samples that `samples` gives for each.
  pub record IsNotified (n idx idx_bw : ℕ) (samples : ℕ → List D) (c c' : Connection D)
      : Type 0 where
    pub frame : c' ≡ record c {
      distribution_map = put c.distribution_map idx (at c'.distribution_map idx);
      bw_stats = put c.bw_stats idx_bw (at c'.bw_stats idx_bw);
    }
    pub histograms :
        (j : ℕ) (b : Bucketer D)
        → Holds (at c.distribution_map idx) j b
        → Holds (at c'.distribution_map idx) j (submit_all b (samples j))
    pub recordable : Recordable n c'

  update_bw-total :
      (n : ℕ) (c : Connection D) (sz latency_in_ns distribution_type idx_bw reported : ℕ)
      → 0 < n
      → Recordable n c
      → (c' : Connection D) × (update_bw c sz latency_in_ns distribution_type idx_bw reported
          ≡ some c')
        × (c' ≡ record c { bw_stats = put c.bw_stats idx_bw (at c'.bw_stats idx_bw) })
        × Recordable n c'
  unfolding update_bw
  update_bw-total n c sz latency_in_ns t idx_bw reported hn hr =
      let direction = direction_of t in
      elim (Bool-cases
        (c.bw_hist_collection_enabled && (if direction == u64_mod - 1 then false else true))) [
          | inl e ↦
              let z = hr (and_left _ _ e) in
              let r =
                update_bw-IsRecorded n c (at c.bw_stats idx_bw) sz latency_in_ns direction reported
                  (at-HasSize n c idx_bw z) hn z.fits in
              let sizes =
                put-HasSize n c.variance_hist_collection_enabled c.bw_stats idx_bw r.0 z.half_0
                  z.half_1 r.2 in
              (
                record c { bw_stats = put c.bw_stats idx_bw r.0 },
                rw (e, r.1),
                rw (at-put c.bw_stats idx_bw r.0),
                λ _. record {
                  half_0 = sizes.0;
                  half_1 = sizes.1;
                  carried = z.carried;
                  fits = z.fits;
                },
              )
          | inr e ↦ (c, rw e, rw (put-at c.bw_stats idx_bw), hr)
        ]

  -- A submission where the bucketer is there, seen from every histogram.
  pub submit_to-all :
      (m : DistributionMap D) (t : ℕ) (x : D)
      → Held m t
      → (m' : DistributionMap D) × (submit_to m t x ≡ some m')
        × ((j : ℕ) (b : Bucketer D)
            → Holds m j b
            → Holds m' j (submit_all b (if t == j then x ∷ [] else [])))
  submit_to-all m t x (b0, h) =
      let (m', e, held, same) = submit_to-Holds m t x b0 h in
      (
        m',
        e,
        λ j b k. elim (Bool-cases (t == j)) [
          | inl f ↦
              let j_is_t : t ≡ j = ==→eq t j f in
              let same_b : b0 ≡ b = some_inj b0 b (sym h ∙ rw j_is_t k) in
              rw (f, submit_all-cons b x [], submit_all-nil (submit b x))
                (rw (← j_is_t, ← same_b) held)
          | inr f ↦ rw (f, submit_all-nil b) (same.others j (λ g. false_ne t j f g) ∙ k)
        ],
      )

  pub Held-kept :
      (m m' : DistributionMap D) (samples : ℕ → List D)
      → ((j : ℕ) (b : Bucketer D) → Holds m j b → Holds m' j (submit_all b (samples j)))
      → (j : ℕ) → Held m j
      → Held m' j
  Held-kept m m' samples f j (b, h) = (submit_all b (samples j), f j b h)

  -- What a measurement does before the next one: `c1` has the new histograms, `c2` also the bandwidth.
  pub record Measured (n idx idx_bw t : ℕ) (x : D) (map' : DistributionMap D) (c c2 : Connection D)
      : Type 0 where
    pub after : c2 ≡ record c {
      distribution_map = put c.distribution_map idx map';
      bw_stats = put c.bw_stats idx_bw (at c2.bw_stats idx_bw);
    }
    pub histograms :
        (j : ℕ) (b : Bucketer D)
        → Holds (at c.distribution_map idx) j b
        → Holds map' j (submit_all b (if t == j then x ∷ [] else []))
    pub recordable : Recordable n c2

  -- Two changes of the same halves are one.
  frame_step :
      (c c2 c3 : Connection D) (idx idx_bw : ℕ) (map' : DistributionMap D) (s : BwStats D)
      → c2 ≡ record c {
        distribution_map = put c.distribution_map idx map';
        bw_stats = put c.bw_stats idx_bw s;
      }
      → c3 ≡ record c2 {
        distribution_map = put c2.distribution_map idx (at c3.distribution_map idx);
        bw_stats = put c2.bw_stats idx_bw (at c3.bw_stats idx_bw);
      }
      → c3 ≡ record c {
        distribution_map = put c.distribution_map idx (at c3.distribution_map idx);
        bw_stats = put c.bw_stats idx_bw (at c3.bw_stats idx_bw);
      }
  frame_step c c2 c3 idx idx_bw map' s e f =
      let g : Connection D → Connection D = λ z. record z {
        distribution_map = put z.distribution_map idx (at c3.distribution_map idx);
        bw_stats = put z.bw_stats idx_bw (at c3.bw_stats idx_bw);
      } in
      f
      ∙ ap g e
      ∙ rw
          (
            put-put c.distribution_map idx map' (at c3.distribution_map idx),
            put-put c.bw_stats idx_bw s (at c3.bw_stats idx_bw),
          )
          refl

  measured :
      (n : ℕ) (c : Connection D) (sz latency t idx idx_bw reported : ℕ)
      → 0 < n
      → Recordable n c
      → Held (at c.distribution_map idx) t
      → (m' : DistributionMap D) × (c2 : Connection D) × (submit_to
            (at c.distribution_map idx)
            t
            (o.of_nat latency)
          ≡ some m')
        × (update_bw
              (record c { distribution_map = put c.distribution_map idx m' })
              sz
              latency
              t
              idx_bw
              reported
            ≡ some c2)
        × Measured n idx idx_bw t (o.of_nat latency) m' c c2
  measured n c sz latency t idx idx_bw reported hn hr held =
      let (m', e, hist) = submit_to-all (at c.distribution_map idx) t (o.of_nat latency) held in
      let c1 = record c { distribution_map = put c.distribution_map idx m' } in
      let recordable : Recordable n c1 = λ w.
        let z = hr w in
        record { half_0 = z.half_0; half_1 = z.half_1; carried = z.carried; fits = z.fits } in
      let (c2, f, after, r2) = update_bw-total n c1 sz latency t idx_bw reported hn recordable in
      (m', c2, e, f, record { after = after; histograms = hist; recordable = r2 })

  -- The histograms of every latency that an operation of this kind can report are there.
  abbrev pub AllHeld : OpType → DistributionMap D → Type 0
  AllHeld type m =
      (l : LatencyType) (t : ℕ) → get_latency_distribution_type type l ≡ value t → Held m t

  pub map_after :
      (c c2 : Connection D) (idx idx_bw : ℕ) (m' : DistributionMap D)
      → c2 ≡ record c {
        distribution_map = put c.distribution_map idx m';
        bw_stats = put c.bw_stats idx_bw (at c2.bw_stats idx_bw);
      }
      → at c2.distribution_map idx ≡ m'
  map_after c c2 idx idx_bw m' e =
      ap (λ (z : Connection D). at z.distribution_map idx) e ∙ at-put c.distribution_map idx m'

  pub one_more :
      (n idx idx_bw t : ℕ) (x : D) (rest : ℕ → List D) (map' : DistributionMap D)
      (c c2 c3 : Connection D)
      → Measured n idx idx_bw t x map' c c2
      → IsNotified n idx idx_bw rest c2 c3
      → IsNotified n idx idx_bw (λ j. (if t == j then x ∷ [] else []) ++ rest j) c c3
  one_more n idx idx_bw t x rest map' c c2 c3 a b = record {
    frame = frame_step c c2 c3 idx idx_bw map' (at c2.bw_stats idx_bw) a.after b.frame;
    histograms = λ j k h.
        let one = if t == j then x ∷ [] else [] in
        rw (submit_all-append k one (rest j)) (
          b.histograms j (submit_all k one)
            (rw (map_after c c2 idx idx_bw map' a.after) (a.histograms j k h)));
    recordable = b.recordable;
  }

  nothing_more :
      (n idx idx_bw : ℕ) (samples : ℕ → List D) (c : Connection D)
      → ((j : ℕ) → samples j ≡ [])
      → Recordable n c
      → IsNotified n idx idx_bw samples c c
  nothing_more n idx idx_bw samples c h r = record {
    frame = rw (put-at c.distribution_map idx, put-at c.bw_stats idx_bw) refl;
    histograms = λ j b k. rw (h j, submit_all-nil b) k;
    recordable = r;
  }

  notify_one :
      (type : OpType) (sz t idx idx_bw reported : ℕ) (m : LatencyMeasurement)
      (ms : List LatencyMeasurement) (c c2 : Connection D) (m' : DistributionMap D)
      → get_latency_distribution_type type m.latency_type ≡ value t
      → submit_to (at c.distribution_map idx) t (o.of_nat m.latency_in_nanoseconds) ≡ some m'
      → update_bw
          (record c { distribution_map = put c.distribution_map idx m' })
          sz
          m.latency_in_nanoseconds
          t
          idx_bw
          reported
        ≡ some c2
      → notify_measurements type sz idx idx_bw reported (m ∷ ms) c
        ≡ notify_measurements type sz idx idx_bw reported ms c2
  unfolding notify_measurements
  notify_one type sz t idx idx_bw reported m ms c c2 m' f e1 e2 =
      rw (f, notify_measurements) (rw (e1, e2) refl)

  latencies_cons :
      (type : OpType) (t j : ℕ) (m : LatencyMeasurement) (ms : List LatencyMeasurement)
      → get_latency_distribution_type type m.latency_type ≡ value t
      → latencies type j (m ∷ ms)
        ≡ (if t == j then o.of_nat m.latency_in_nanoseconds ∷ [] else []) ++ latencies type j ms
  unfolding latencies
  latencies_cons type t j m ms f = rw (f, latencies) refl

  same_samples :
      (n idx idx_bw : ℕ) (samples samples' : ℕ → List D) (c c' : Connection D)
      → ((j : ℕ) → samples j ≡ samples' j)
      → IsNotified n idx idx_bw samples' c c'
      → IsNotified n idx idx_bw samples c c'
  same_samples n idx idx_bw samples samples' c c' h a = record {
    frame = a.frame;
    histograms = λ j b k. rw (h j) (a.histograms j b k);
    recordable = a.recordable;
  }

  -- The loop over the measurements.
  pub notify_measurements-IsNotified :
      (type : OpType) (n sz idx idx_bw reported : ℕ) (ms : List LatencyMeasurement)
      (c : Connection D)
      → 0 < n
      → Recordable n c
      → AllHeld type (at c.distribution_map idx)
      → (c' : Connection D) × (notify_measurements type sz idx idx_bw reported ms c
          ≡ some (first_refusal type ms, c'))
        × IsNotified n idx idx_bw (λ j. latencies type j ms) c c'
  unfolding notify_measurements first_refusal latencies
  notify_measurements-IsNotified type n sz idx idx_bw reported [] c hn hr held =
      (c, refl, nothing_more n idx idx_bw (λ j. []) c (λ j. refl) hr)
  notify_measurements-IsNotified type n sz idx idx_bw reported (m ∷ ms) c hn hr held =
      elim (StatusOr-cases (get_latency_distribution_type type m.latency_type)) [
        | inr (e, f) ↦ (
          c,
          rw (f, notify_measurements, first_refusal) refl,
          nothing_more n idx idx_bw (λ j. latencies type j (m ∷ ms)) c (λ j. rw (f, latencies) refl)
              hr,
        )
        | inl (t, f) ↦
            let (m', c2, e1, e2, done) =
              measured n c sz m.latency_in_nanoseconds t idx idx_bw reported hn hr
                (held m.latency_type t f) in
            let held2 : AllHeld type (at c2.distribution_map idx) = λ l u g.
              rw (map_after c c2 idx idx_bw m' done.after) (
                Held-kept (at c.distribution_map idx) m'
                  (λ j. if t == j then o.of_nat m.latency_in_nanoseconds ∷ [] else [])
                  done.histograms u (held l u g)) in
            let (c3, e3, rest) =
              notify_measurements-IsNotified type n sz idx idx_bw reported ms c2 hn done.recordable
                held2 in
            (
              c3,
              notify_one type sz t idx idx_bw reported m ms c c2 m' f e1 e2
                  ∙ e3
                  ∙ ap (λ r. some (r, c3)) (sym (first_refusal_cons type t m ms f)),
              same_samples n idx idx_bw _ _ c c3 (λ j. latencies_cons type t j m ms f)
                  (one_more n idx idx_bw t (o.of_nat m.latency_in_nanoseconds)
                    (λ j. latencies type j ms) m' c c2 c3 done rest),
            )
      ]
