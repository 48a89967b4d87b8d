-- ===== src/Aggregator/Interval/Swaps.antt =====
-- src/nccl_stats_aggregator.cc: the first loop of `processHighFrequencyTelemetry`, over all connections.
use gpuviz.Base.{ℕ, ◌+◌, ◌<◌, ◌≡◌, refl, some, List, [], ◌∷◌, All}
use gpuviz.Base.Words.{u64_mod}
use gpuviz.Connection.{Connection, IsMirrored}
use gpuviz.Connection.Shape.{IsSized}
use gpuviz.Connection.Interval.Swap.{IsSwapped, write_half, swap-IsSwapped}
use gpuviz.Aggregator.Interval.{swap_all}

module _ {D : Type 0} where
  -- What a swap asks of a connection.
  pub record IsUsable (n unused : ℕ) (c : Connection D) : Type 0 where
    pub mirrored : IsMirrored c
    pub generation : c.generation_bw < u64_mod
    pub sized : IsSized n c
    pub small : unused + c.carry_over_buckets < u64_mod

  abbrev pub AllUsable : ℕ → ℕ → List (ℕ × Connection D) → Type 0
  AllUsable n unused cs = All (λ e. IsUsable n unused e.1) cs

  -- The same handles, in order, and every connection swapped.
  abbrev pub AllSwapped : ℕ → ℕ → List (ℕ × Connection D) → List (ℕ × Connection D) → Type 0
  AllSwapped n start [] [] = Unit {0}
  AllSwapped n start [] (e ∷ es) = ⊥
  AllSwapped n start (e ∷ es) [] = ⊥
  AllSwapped n start ((key, c) ∷ cs) ((key', c') ∷ cs') =
      ((key' ≡ key) × IsSwapped start c c' × IsSized n c') × AllSwapped n start cs cs'

  -- Where every connection is usable, the loop over all of them does not fault, and each of them, under
  -- its old handle, has changed its halves: all of them collect from the one start of the new
  -- interval on, the half that each has written so far is the one that is aggregated, and their
  -- vectors keep their size.
  pub swap_all-AllSwapped :
      (d : D) (n start unused : ℕ) (cs : List (ℕ × Connection D))
      → AllUsable n unused cs
      → (cs' : List (ℕ × Connection D)) × (swap_all start unused cs ≡ some cs')
        × AllSwapped n start cs cs'
        × All (λ e. (write_half e.1).start_time_milliseconds ≡ start) cs'
  unfolding swap_all
  swap_all-AllSwapped d n start unused [] h = ([], refl, tt, tt)
  swap_all-AllSwapped d n start unused ((key, c) ∷ cs) (u, h) =
      let (c', e, s, z, _, _) =
        swap-IsSwapped d n c start unused u.mirrored u.generation u.sized u.small in
      let (cs', es, ss, ts) = swap_all-AllSwapped d n start unused cs h in
      ((key, c') ∷ cs', simp (e, es), ((refl, s, z), ss), (s.started, ts))
