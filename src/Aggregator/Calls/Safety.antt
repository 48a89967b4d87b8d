-- ===== src/Aggregator/Calls/Safety.antt =====
-- src/nccl_stats_aggregator.cc: an aggregator stays operable through all calls of its life.
use mathlib.Core.Path.{subst}
use mathlib.Core.Option.{some-injective}
use gpuviz.Base.{ℕ, ◌≡◌, ◌∙◌, refl, sym, Option, none, some, List}
use gpuviz.Double.{DoubleOps}
use gpuviz.Params.{Env}
use gpuviz.Connection.Interval.Ready.{collects}
use gpuviz.Connection.Notify.Ready.{IsLegal}
use gpuviz.MsecBandwidth.{MsecBandwidth}
use gpuviz.Aggregator.{Aggregator, new, new_constants}
use gpuviz.Aggregator.Nic.Addresses.{addresses}
use gpuviz.Aggregator.Interval.Safety.{IsSound, IsOperable, process-IsOperable}
use gpuviz.Aggregator.Telemetry.Safety.{read_telemetry-IsOperable}
use gpuviz.Aggregator.Calls.Settings.{IsWorkable, new_constants-IsSound}
use gpuviz.Aggregator.Calls.{Call, add, delete, notify, interval, read, call}
use gpuviz.Aggregator.Calls.Connections.{
  IsLive, add_connection-IsOperable, delete_connection-IsOperable, notify_by-AllServed,
}

module _ {D : Type 0} ⦃o : DoubleOps D⦄ {L : Type 0} where
  -- What a plugin keeps to: it has a name, calls by the handles of live connections, and reports what
  -- belongs to the distributions that it asked for.
  abbrev pub Legal : Call → Aggregator D L → Type 0
  Legal (add key none c) a = ⊥
  Legal (add key (some name) c) a = Unit {0}
  Legal (delete key) a = IsLive key a.connection_handlers_map
  Legal (notify key now m) a =
      IsLive key a.connection_handlers_map
      × IsLegal (collects a.constants.distribution_collector_bitmap) m.type
  Legal (interval now wall) a = Unit {0}
  Legal (read now) a = Unit {0}

  module _ {E : Type 0} (space_used : L → ℕ) (warning failed : L) (parse : List ℕ → Option E)
      (env : Env D) where
    -- The states of an aggregator that has been made for a bitmap.
    pub data Reachable (bitmap : ℕ) : Aggregator D L → Type 0 where
      started : (msec : MsecBandwidth D) → Reachable bitmap (new env bitmap msec)
      called :
          {a a' : Aggregator D L}
          → Reachable bitmap a
          → (x : Call) → Legal x a
          → call space_used warning failed parse env x a ≡ some a'
          → Reachable bitmap a'

    call-IsOperable :
        (x : Call) (a : Aggregator D L)
        → IsOperable a
        → Legal x a
        → (a' : Aggregator D L) × (call space_used warning failed parse env x a ≡ some a')
          × IsOperable a'
          × (a'.constants ≡ a.constants)
    unfolding call
    call-IsOperable (add key none c) a p l = elim l [ ]
    call-IsOperable (add key (some name) c) a p l =
        add_connection-IsOperable space_used warning env key name c a p
    call-IsOperable (delete key) a p l = delete_connection-IsOperable key a p l
    call-IsOperable (notify key now m) a p (live, legal) =
        let k = a.constants in
        let (cs, e, s) =
          notify_by-AllServed k.bw_burst_count k.carry_over_buckets
            (collects k.distribution_collector_bitmap) k.variance_hist_collection_enabled
            (addresses a.nic_bw_map) key now m a.connection_handlers_map p.sound.buckets legal live
            p.connections in
        (
          record a { connection_handlers_map = cs },
          simp (e),
          record { sound = p.sound; nics = p.nics; connections = s },
          refl,
        )
    call-IsOperable (interval now wall) a p l =
        let (a', e, q, k, _) = process-IsOperable now wall a p in (a', e, q, k)
    call-IsOperable (read now) a p l =
        let (stats, a', e, q, k) =
          read_telemetry-IsOperable {E = E} space_used parse failed now a p in
        (a', simp (e), q, k)

    Reachable-IsOperable :
        (bitmap : ℕ) (a : Aggregator D L)
        → IsSound (new_constants env bitmap)
        → Reachable bitmap a
        → IsOperable a × (a.constants ≡ new_constants env bitmap)
    unfolding new
    Reachable-IsOperable bitmap a s (started msec) =
        (record { sound = s; nics = tt; connections = tt }, refl)
    Reachable-IsOperable bitmap a s (called {a = a0} r x l e) =
        let (p, k) = Reachable-IsOperable bitmap a0 s r in
        let (a', f, q, k') = call-IsOperable x a0 p l in
        let same : a' ≡ a = some-injective a' a (sym f ∙ e) in
        subst (λ b. IsOperable b × (b.constants ≡ new_constants env bitmap)) same (q, k' ∙ k)

    -- Where bandwidth is collected and the plugin asks for all that it is made of, the output by the
    -- millisecond is off, and no more buckets are carried over than the vectors have: whatever calls an
    -- aggregator has seen since it was made, the next call returns, if the plugin has a name, calls by the
    -- handle of a live connection and reports what belongs to the distributions that it asked for. It
    -- follows no null pointer to a name, a connection, a NIC or a histogram, and accesses no vector of
    -- bandwidths, loads or latencies past its end, whatever the clocks say; every NIC and every
    -- connection still has its vectors and histograms; and the settings stay as they were. What happens
    -- inside a histogram, when it is made or gets a sample, is not covered.
    pub calls-IsOperable :
        (bitmap : ℕ) (a : Aggregator D L) (x : Call)
        → IsWorkable env bitmap
        → Reachable bitmap a
        → Legal x a
        → (a' : Aggregator D L) × (call space_used warning failed parse env x a ≡ some a')
          × IsOperable a'
          × (a'.constants ≡ new_constants env bitmap)
    calls-IsOperable bitmap a x h r l =
        let (p, k) = Reachable-IsOperable bitmap a (new_constants-IsSound env bitmap h) r in
        let (a', e, q, k') = call-IsOperable x a p l in (a', e, q, k' ∙ k)
