-- ===== src/Connection/Report/Samples.antt =====
-- src/nccl_stats_aggregator.cc: no sample is lost or reported twice, also where the plugin submits
-- samples while the reporter reads.
use mathlib.Core.List.{append-nil, append_assoc}
use gpuviz.Base.{
  zero, suc, ◌++◌, ℕ, ◌-◌, ◌%◌, ◌<◌, ◌≡◌, refl, sym, ap, ◌∙◌, Option, some, List, [], ◌∷◌, map,
  arith,
}
use gpuviz.Base.Words.{add_u64, u64_mod}
use gpuviz.Base.Faults.{◌>>=◌}
use gpuviz.Double.{DoubleOps}
use gpuviz.Bucketer
use gpuviz.Bucketer.{Bucketer, submit, submit_all}
use gpuviz.Bucketer.Lifecycle.{reset-submit_all-new}
use gpuviz.Bucketer.Counts.{submit_all-nil, submit_all-snoc}
use gpuviz.Connection.{
  Two, at, put, Connection, DistributionMap, submit_to, get_current_write_distribution_map_index,
}
use gpuviz.Connection.Histograms.{Holds, submit_to-Holds}
use gpuviz.Connection.Shape.{at-put}
use gpuviz.Connection.Report.{
  get_read_bucket_idx_and_swap_generation, get_connection_stats_from_read_bucket, reset_entry,
  reset_read_bucket,
}

two_halves :
    {A : Type 0} (t : Two A) (w : ℕ) (a : A) → w < 2 → at (put t w a) (1 - w) ≡ at t (1 - w)
two_halves t w a h = ground arith

two_halves' : {A : Type 0} (t : Two A) (w : ℕ) (a : A) → w < 2 → at (put t (1 - w) a) w ≡ at t w
two_halves' t w a h = ground arith

other_index : (w : ℕ) → w < u64_mod → add_u64 w 1 % 2 ≡ 1 - w % 2
other_index w h = omega arith

twice : (w : ℕ) → w < 2 → 1 - (1 - w) ≡ w
twice w h = omega arith

module _ {D : Type 0} ⦃o : DoubleOps D⦄ where
  -- The plugin's submissions of samples to histogram `j`, in the half that is written.
  pub submit_samples : ℕ → List D → Connection D → Option (Connection D)
  submit_samples j [] c = some c
  submit_samples j (x ∷ xs) c =
      let w = get_current_write_distribution_map_index c in
      submit_to (at c.distribution_map w) j x >>= λ m.
      submit_samples j xs (record c { distribution_map = put c.distribution_map w m })

  abbrev pub write_index : Connection D → ℕ
  write_index c = get_current_write_distribution_map_index c

  -- Of histogram `j`, the half that is written holds the samples `new`, the other half `old`.
  pub record Halves (j : ℕ) (b : Bucketer D) (old new : List D) (c : Connection D) : Type 0 where
    pub written : Holds (at c.distribution_map (write_index c)) j (submit_all b new)
    pub other : Holds (at c.distribution_map (1 - write_index c)) j (submit_all b old)
    pub mirrored : c.generation_for_reporter_read ≡ c.generation
    pub bound : c.generation < u64_mod

  index-lt : (c : Connection D) → write_index c < 2
  unfolding get_current_write_distribution_map_index
  index-lt c = omega arith

  pub map-Holds :
      (m : DistributionMap D) (j : ℕ) (b : Bucketer D)
      → Holds m j b
      → Holds (map reset_entry m) j (Bucketer.reset b)
  map-Holds [] zero b h = absurd cc
  map-Holds [] (suc j) b h = absurd cc
  map-Holds (e ∷ m) zero b h = let g : e ≡ some b = cc in rw g refl
  map-Holds (e ∷ m) (suc j) b h = map-Holds m j b h

  swap-Halves :
      (j : ℕ) (b : Bucketer D) (old new : List D) (c : Connection D)
      → Halves j b old new c
      → let (idx, c') = get_read_bucket_idx_and_swap_generation c in
        Halves j b new old c' × (idx ≡ 1 - write_index c')
  unfolding get_read_bucket_idx_and_swap_generation get_current_write_distribution_map_index
  swap-Halves j b old new c h =
      let flip : add_u64 c.generation 1 % 2 ≡ 1 - c.generation_for_reporter_read % 2 =
        other_index c.generation h.bound ∙ ap (λ g. 1 - g % 2) (sym h.mirrored) in
      let back = twice (c.generation_for_reporter_read % 2) (omega arith) in
      (
        record {
          written = rw flip h.other;
          other = rw (flip, back) h.written;
          mirrored = refl;
          bound = omega arith;
        },
        rw (flip, back) refl,
      )

  submit-Halves :
      (j : ℕ) (b : Bucketer D) (old new xs : List D) (c : Connection D)
      → Halves j b old new c
      → (c' : Connection D) × (submit_samples j xs c ≡ some c')
        × Halves j b old (new ++ xs) c'
        × (write_index c' ≡ write_index c)
  unfolding submit_samples get_current_write_distribution_map_index
  submit-Halves j b old new [] c h = (c, refl, rw (append-nil new) h, refl)
  submit-Halves j b old new (x ∷ xs) c h =
      let w = write_index c in
      let (m, e, held, same) =
        submit_to-Holds (at c.distribution_map w) j x (submit_all b new) h.written in
      let c1 = record c { distribution_map = put c.distribution_map w m } in
      let h1 : Halves j b old (new ++ (x ∷ [])) c1 = record {
        written = rw (at-put c.distribution_map w m, submit_all-snoc b new x) held;
        other = rw (two_halves c.distribution_map w m (index-lt c)) h.other;
        mirrored = h.mirrored;
        bound = h.bound;
      } in
      let (c', e', h', i') = submit-Halves j b old (new ++ (x ∷ [])) xs c1 h1 in
      (c', rw e e', rw (sym (append_assoc new (x ∷ []) xs)) h', i')

  reset-Halves :
      (j : ℕ) (b : Bucketer D) (old new : List D) (c : Connection D)
      → ((zs : List D) → Bucketer.reset (submit_all b zs) ≡ b)
      → Halves j b old new c
      → Halves j b [] new (reset_read_bucket (1 - write_index c) c)
  unfolding reset_read_bucket get_current_write_distribution_map_index
  reset-Halves j b old new c fresh h =
      let w = write_index c in
      let m = map reset_entry (at c.distribution_map (1 - w)) in
      record {
        written = rw (two_halves' c.distribution_map w m (index-lt c)) h.written;
        other =
            rw (at-put c.distribution_map (1 - w) m, submit_all-nil b, ← fresh old)
              (map-Holds (at c.distribution_map (1 - w)) j (submit_all b old) h.other);
        mirrored = h.mirrored;
        bound = h.bound;
      }

  -- A round of the reporter, in which the plugin submits the samples `ys` between the swap and the
  -- reading and `zs` between the reading and the reset. For a histogram in which `pending` were
  -- submitted since the last round, no step faults, also where the generation wraps around; the message
  -- is made from a bucketer with just the samples `pending`; and after the round `ys` and `zs`, and no
  -- others, are pending in the same way. So no sample is lost, and none is reported twice.
  pub report-Halves :
      (j : ℕ) (max_bucket scale base : D) (pending ys zs : List D) (c : Connection D)
      → Halves j (Bucketer.new max_bucket scale base) [] pending c
      → let (idx, c1) = get_read_bucket_idx_and_swap_generation c in
        (c2 : Connection D) × (c3 : Connection D) × (submit_samples j ys c1 ≡ some c2)
        × (submit_samples j zs c2 ≡ some c3)
        × Holds
            (get_connection_stats_from_read_bucket idx c2)
            j
            (submit_all (Bucketer.new max_bucket scale base) pending)
        × Halves j (Bucketer.new max_bucket scale base) [] (ys ++ zs) (reset_read_bucket idx c3)
  unfolding get_connection_stats_from_read_bucket
  report-Halves j max_bucket scale base pending ys zs c h =
      let b = Bucketer.new max_bucket scale base in
      let swapped = get_read_bucket_idx_and_swap_generation c in
      let (h1, i1) = swap-Halves j b [] pending c h in
      let (c2, e2, h2, i2) = submit-Halves j b pending [] ys swapped.1 h1 in
      let (c3, e3, h3, i3) = submit-Halves j b pending ys zs c2 h2 in
      (
        c2,
        c3,
        e2,
        e3,
        rw (i1, ← i2) h2.other,
        rw (i1, ← i2, ← i3)
            (reset-Halves j b pending (ys ++ zs) c3 (reset-submit_all-new max_bucket scale base)
              h3),
      )

-- The half that is read is the one that was written until the swap.
pub read_half :
    {D : Type 0} (c : Connection D)
    → let (idx, c') = get_read_bucket_idx_and_swap_generation c in
      get_connection_stats_from_read_bucket idx c'
      ≡ at c.distribution_map (get_current_write_distribution_map_index c)
unfolding get_read_bucket_idx_and_swap_generation get_connection_stats_from_read_bucket
read_half c = refl
