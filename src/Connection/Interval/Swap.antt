-- ===== src/Connection/Interval/Swap.antt =====
-- src/nccl_stats_aggregator.cc: the double buffer of bandwidth and the buckets that are carried over.
use gpuviz.Base.{
  ℕ, ◌+◌, ◌-◌, ◌%◌, ◌<◌, ◌≤◌, ◌≡◌, ◌≢◌, ◌∙◌, ap, refl, none, some, List, length, get_or, modify,
  length-modify, arith, ltb, if◌then◌else◌,
}
use native.Mathlib.Nat.{add_comm}
use gpuviz.Base.Words.{u64_mod, add_u64}
use gpuviz.Base.Faults.{
  for_range, for_range_inv, for_range_fault, get_elem?_past, update_lem, get_elem?_lem,
  get_or-modify,
}
use gpuviz.Connection.{
  Two, at, BwStats, Connection, IsMirrored, get_bw_vec_valid_limit, get_current_bw_write_index,
  get_current_bw_write_index_unlocked, get_current_bw_read_index_unlocked,
}
use gpuviz.Connection.Shape.{IsSized, at-HasSize, put-HasSize}
use gpuviz.Connection.Interval.{
  carry_bucket, carry_over, next_generation, swap_state_for_bw_stats_and_initialize_time,
}

-- The limit leaves out the unused buckets and those that are carried over, or is 0 where there are
-- no others.
pub get_bw_vec_valid_limit_lem :
    (carry unused size : ℕ)
    → unused + carry < u64_mod
    → size < u64_mod
    → get_bw_vec_valid_limit carry unused size ≡ size - (unused + carry)
unfolding get_bw_vec_valid_limit
get_bw_vec_valid_limit_lem carry unused size h k = ground arith

module _ {D : Type 0} (d : D) where
  -- Bucket `j` of the new vector after the first `i` rounds of the loop.
  record Copied (start : ℕ) (old new : List D) (i : ℕ) (s : List D) : Type 0 where
    same_length : length s ≡ length new
    bucket : (j : ℕ) → get_or s j d ≡ (if ltb j i then get_or old (j + start) d else get_or new j d)

  copy_round :
      (start carry : ℕ) (old new : List D)
      → start + carry ≤ length old
      → carry ≤ length new
      → (i : ℕ) (s : List D) → i < carry
      → Copied start old new i s
      → (t : List D) × (carry_bucket old start i s ≡ some t) × Copied start old new (i + 1) t
  copy_round start carry old new ho hn i s h c =
      let x = get_or old (i + start) d in
      (
        modify s i (λ _. x),
        rw (get_elem?_lem old (i + start) d (omega arith))
            (update_lem s i (λ _. x) (omega (arith, c.same_length))),
        record {
          same_length = omega (arith, length-modify s i (λ _. x), c.same_length);
          bucket = λ j. ground (arith, get_or-modify s i j (λ _. x) d, c.bucket j, c.same_length);
        },
      )

  -- Where the carried buckets fit both vectors the loop does not fault. It fills the first `carry`
  -- buckets of the new vector from the old one, from `start` on, and leaves the others.
  carry_loop :
      (start carry : ℕ) (old new : List D)
      → start + carry ≤ length old
      → carry ≤ length new
      → (t : List D) × (for_range carry 0 (carry_bucket old start) new ≡ some t)
        × Copied start old new carry t
  carry_loop start carry old new ho hn =
      for_range_inv (Copied start old new) (carry_bucket old start) carry
        (copy_round start carry old new ho hn) carry 0 new (omega arith)
        (record { same_length = refl; bucket = λ j. ground arith })

module _ {D : Type 0} (d : D) where
  -- `t` is what the carry-over makes of the vector `new`.
  pub record CarriesOver (carry unused : ℕ) (old new t : List D) : Type 0 where
    pub same_length : length t ≡ length new
    pub kept :
        (j : ℕ)
        → j < carry
        → get_or t j d ≡ get_or old (get_bw_vec_valid_limit carry unused (length old) + j) d
    pub untouched : (j : ℕ) → carry ≤ j → get_or t j d ≡ get_or new j d
    -- The buckets below the limit, which are aggregated, are those neither carried over nor unused.
    pub limit : get_bw_vec_valid_limit carry unused (length old) ≡ length old - (unused + carry)

  -- Where the carried buckets fit both vectors the carry-over does not fault. The first `carry`
  -- buckets of the new vector come from the old one, from the aggregation limit on, in order; the
  -- others are kept; and the limit leaves out just the carried and the unused buckets.
  pub carry_over-CarriesOver :
      (carry unused : ℕ) (old new : List D)
      → carry ≤ length old
      → carry ≤ length new
      → unused + carry < u64_mod
      → length old < u64_mod
      → (t : List D) × (carry_over carry unused old new ≡ some t)
        × CarriesOver carry unused old new t
  unfolding carry_over
  carry_over-CarriesOver carry unused old new ho hn hu hl =
      let limit = get_bw_vec_valid_limit carry unused (length old) in
      let limit_eq = get_bw_vec_valid_limit_lem carry unused (length old) hu hl in
      let loop = carry_loop d limit carry old new (omega (arith, limit_eq)) hn in
      let copied = loop.2 in
      (
        loop.0,
        loop.1,
        record {
          same_length = copied.same_length;
          kept = λ j h. ground (arith, copied.bucket j, add_comm j limit);
          untouched = λ j h. ground (arith, copied.bucket j);
          limit = limit_eq;
        },
      )

  -- Where more buckets are to be carried than the old vector has, it faults.
  pub carry_over_fault :
      (carry unused : ℕ) (old new : List D)
      → length old < carry
      → unused + carry < u64_mod
      → carry_over carry unused old new ≡ none
  unfolding carry_over
  carry_over_fault carry unused old new h hu =
      for_range_fault (carry_bucket old (get_bw_vec_valid_limit carry unused (length old)))
        (length old)
        (λ i s p.
          rw (
            get_elem?_past old (i + get_bw_vec_valid_limit carry unused (length old))
              (omega arith)))
        carry 0 new (omega arith) (omega arith)

module _ {D : Type 0} where
  abbrev pub write_half : Connection D → BwStats D
  write_half c = at c.bw_stats (get_current_bw_write_index c)

  abbrev pub read_half : Connection D → BwStats D
  read_half c = at c.bw_stats (get_current_bw_read_index_unlocked c)

  -- `c'` is `c` after a swap at `start`: the halves have changed places, and all else is kept.
  pub record IsSwapped (start : ℕ) (c c' : Connection D) : Type 0 where
    pub mirrored : IsMirrored c'
    pub bounded : c'.generation_bw < u64_mod
    pub disjoint : get_current_bw_write_index c' ≢ get_current_bw_read_index_unlocked c'
    pub now_read : read_half c' ≡ write_half c
    pub started : (write_half c').start_time_milliseconds ≡ start
    pub loads : (write_half c').offered_load ≡ (read_half c).offered_load
    pub latencies : (write_half c').latency ≡ (read_half c).latency
    pub histograms : c'.distribution_map ≡ c.distribution_map
    pub config_kept : c'.config ≡ c.config

  next_generation-IsSwapped :
      (c : Connection D) (start : ℕ) (send recv : List D)
      → IsMirrored c
      → c.generation_bw < u64_mod
      → IsSwapped start c (next_generation c start send recv)
        × ((write_half (next_generation c start send recv)).bw
            ≡ record { at_0 = send; at_1 = recv })
        × (add_u64 c.generation_bw 1 % 2 ≡ get_current_bw_read_index_unlocked c)
  unfolding next_generation get_current_bw_write_index get_current_bw_read_index_unlocked
  next_generation-IsSwapped c start send recv v h = (
    record {
      mirrored = record { hist = v.hist; bw = refl };
      bounded = omega arith;
      disjoint = omega arith;
      now_read = ground arith;
      started = ground arith;
      loads = ground arith;
      latencies = ground arith;
      histograms = refl;
      config_kept = refl;
    },
    ground arith,
    omega arith,
  )

  write_index_unlocked :
      (c : Connection D)
      → IsMirrored c
      → get_current_bw_write_index_unlocked c ≡ get_current_bw_write_index c
  unfolding get_current_bw_write_index_unlocked get_current_bw_write_index
  write_index_unlocked c v = rw v.bw

  next_generation-IsSized :
      (n : ℕ) (c : Connection D) (start : ℕ) (send recv : List D)
      → IsSized n c
      → length send ≡ n
      → length recv ≡ n
      → IsSized n (next_generation c start send recv)
  unfolding next_generation
  next_generation-IsSized n c start send recv z hs hr =
      let new = add_u64 c.generation_bw 1 % 2 in
      let old_size = at-HasSize n c new z in
      let sizes =
        put-HasSize n c.variance_hist_collection_enabled c.bw_stats new _ z.half_0 z.half_1
          (record {
            send = hs;
            recv = hr;
            send_load = old_size.send_load;
            recv_load = old_size.recv_load;
            latency = old_size.latency;
          }) in
      record { half_0 = sizes.0; half_1 = sizes.1; carried = z.carried; fits = z.fits }

  swap_parts :
      (d : D) (n : ℕ) (c : Connection D) (start unused : ℕ) (i j : ℕ)
      → IsSized n c
      → unused + c.carry_over_buckets < u64_mod
      → let old = at c.bw_stats i in
        let new = at c.bw_stats j in
        let carry = c.carry_over_buckets in
        (send : List D) × (recv : List D) × (carry_over carry unused old.bw.at_0 new.bw.at_0
          ≡ some send)
        × (carry_over carry unused old.bw.at_1 new.bw.at_1 ≡ some recv)
        × CarriesOver d carry unused old.bw.at_0 new.bw.at_0 send
        × CarriesOver d carry unused old.bw.at_1 new.bw.at_1 recv
  swap_parts d n c start unused i j z h =
      let old = at-HasSize n c i z in
      let new = at-HasSize n c j z in
      let send =
        carry_over-CarriesOver d c.carry_over_buckets unused (at c.bw_stats i).bw.at_0
          (at c.bw_stats j).bw.at_0 (omega (arith, old.send, z.carried))
          (omega (arith, new.send, z.carried)) h (omega (arith, old.send, z.fits)) in
      let recv =
        carry_over-CarriesOver d c.carry_over_buckets unused (at c.bw_stats i).bw.at_1
          (at c.bw_stats j).bw.at_1 (omega (arith, old.recv, z.carried))
          (omega (arith, new.recv, z.carried)) h (omega (arith, old.recv, z.fits)) in
      (send.0, recv.0, send.1, recv.1, send.2, recv.2)

  -- The swap at the end of an interval does not fault, whatever the generation, also where it wraps
  -- around. The half that was written is the one that is read, and unchanged; the other half is
  -- written from now on, under the new start time. In both directions its first buckets are those
  -- that the read half holds from the limit on up to which it is aggregated, and its other buckets are kept. All vectors keep their sizes.
  pub swap-IsSwapped :
      (d : D) (n : ℕ) (c : Connection D) (start unused : ℕ)
      → IsMirrored c
      → c.generation_bw < u64_mod
      → IsSized n c
      → unused + c.carry_over_buckets < u64_mod
      → (c' : Connection D) × (swap_state_for_bw_stats_and_initialize_time c start unused ≡ some c')
        × IsSwapped start c c'
        × IsSized n c'
        × CarriesOver d c.carry_over_buckets unused
            (write_half c).bw.at_0
            (read_half c).bw.at_0
            (write_half c').bw.at_0
        × CarriesOver d c.carry_over_buckets unused
            (write_half c).bw.at_1
            (read_half c).bw.at_1
            (write_half c').bw.at_1
  unfolding swap_state_for_bw_stats_and_initialize_time
  swap-IsSwapped d n c start unused v g z h =
      let (send, recv, es, er, ks, kr) =
        swap_parts d n c start unused (get_current_bw_write_index c)
          (get_current_bw_read_index_unlocked c) z h in
      let facts = next_generation-IsSwapped c start send recv v g in
      (
        next_generation c start send recv,
        rw (write_index_unlocked c v, facts.2, es, er),
        facts.0,
        next_generation-IsSized n c start send recv z
            (ks.same_length ∙ (at-HasSize n c (get_current_bw_read_index_unlocked c) z).send)
            (kr.same_length ∙ (at-HasSize n c (get_current_bw_read_index_unlocked c) z).recv),
        rw (ap (λ (t : Two (List D)). t.at_0) facts.1) ks,
        rw (ap (λ (t : Two (List D)). t.at_1) facts.1) kr,
      )
