-- ===== src/Aggregator/Calls/Connections.antt =====
-- src/nccl_stats_aggregator.cc: the calls of a plugin keep what the end of an interval asks for.
use Prim.Native.String.{String}
use mathlib.Core.Path.{subst}
use gpuviz.Base.{
  ℕ, ◌<◌, ◌≡◌, ◌∙◌, refl, sym, ap, Bool, true, ◌==◌, Option, none, some, List, [], ◌∷◌, ◌++◌, arith,
  if_both, Bool-cases, ◌⊎◌, inl, inr,
}
use gpuviz.Base.{if_true}
use gpuviz.Double.{DoubleOps}
use gpuviz.Params.{Env}
use gpuviz.Stats.{OperationMetric}
use gpuviz.Connection.{Connection}
use gpuviz.Connection.Identifier.{ConnectionIdentifier}
use gpuviz.Connection.Interval.Ready.{collects, IsReady}
use gpuviz.Connection.Setup
use gpuviz.Connection.Setup.Ready.{new-IsReady}
use gpuviz.Connection.Notify.Ready.{IsLegal, notify-IsReady}
use gpuviz.MsecBandwidth.{find}
use gpuviz.Aggregator.{
  Aggregator, init_constants, allocate_bw_stats, config_of, histogram_params_of, add_connection,
  extract, delete_connection,
}
use gpuviz.Aggregator.Nic.{NicStats}
use gpuviz.Aggregator.Nic.Addresses.{
  has, addresses, has_of_find, has-insert, has-insert_of_has, insert-All,
}
use gpuviz.Aggregator.Nic.Ready.{NicReady, allocate_nic-NicReady}
use gpuviz.Aggregator.Interval.Served.{AllServed, serve}
use gpuviz.Aggregator.Interval.Safety.{IsSound, IsOperable}
use gpuviz.Aggregator.Calls.{notify_by}

-- A handle is among those of the live connections.
abbrev pub IsLive : {D : Type 0} → ℕ → List (ℕ × Connection D) → Type 0
IsLive key [] = ⊥
IsLive key ((k, c) ∷ cs) = (k ≡ key) ⊎ IsLive key cs

module _ {D : Type 0} ⦃o : DoubleOps D⦄ where
  -- More NICs serve the same connections.
  more_nics :
      (n carry : ℕ) (w : ℕ → Bool) (v : Bool) (ips jps : List String) (cs : List (ℕ × Connection D))
      → ((ip : String) → has ip ips ≡ true → has ip jps ≡ true)
      → AllServed n carry w v ips cs
      → AllServed n carry w v jps cs
  more_nics n carry w v ips jps [] f s = tt
  more_nics n carry w v ips jps ((key, c) ∷ cs) f (s, ss) = (
    record { ready = s.ready; nic_there = f c.connection_id.local_nic_ip s.nic_there },
    more_nics n carry w v ips jps cs f ss,
  )

  module _ {L : Type 0} where
    init_constants-IsOperable :
        (space_used : L → ℕ) (warning : L) (env : Env D) (name : String) (a : Aggregator D L)
        → IsOperable a
        → IsOperable (init_constants space_used warning env name a)
          × ((init_constants space_used warning env name a).constants ≡ a.constants)
    unfolding init_constants
    init_constants-IsOperable space_used warning env name a p =
        if_both {A = Aggregator D L} (λ b. IsOperable b × (b.constants ≡ a.constants))
          a.rates.nic_speed_init (p, refl)
          (record { sound = p.sound; nics = p.nics; connections = p.connections }, refl)

    allocate_bw_stats-IsOperable :
        (env : Env D) (c : ConnectionIdentifier) (a : Aggregator D L)
        → IsOperable a
        → IsOperable (allocate_bw_stats env c a)
          × ((allocate_bw_stats env c a).constants ≡ a.constants)
          × (has c.local_nic_ip (addresses (allocate_bw_stats env c a).nic_bw_map) ≡ true)
    unfolding allocate_bw_stats
    allocate_bw_stats-IsOperable env c a p =
        let k = a.constants in
        let ip = c.local_nic_ip in
        if_true {A = Aggregator D L}
          (λ b. IsOperable b × (b.constants ≡ k) × (has ip (addresses b.nic_bw_map) ≡ true))
          k.bw_hist_collection_enabled p.sound.enabled _ _
          (
            record {
              sound = p.sound;
              nics =
                  insert-All (NicReady k.bw_burst_count k.variance_hist_collection_enabled) ip _
                    a.nic_bw_map (allocate_nic-NicReady env k a.rates.nic_speed _ p.sound.bits)
                    p.nics;
              connections =
                  more_nics k.bw_burst_count k.carry_over_buckets
                    (collects k.distribution_collector_bitmap) k.variance_hist_collection_enabled
                    (addresses a.nic_bw_map) _ a.connection_handlers_map
                    (λ j h. has-insert_of_has j ip _ a.nic_bw_map h) p.connections;
            },
            refl,
            has-insert ip _ a.nic_bw_map,
          )

    -- The NIC of a new connection is there, or it is made.
    with_nic-IsOperable :
        (env : Env D) (c : ConnectionIdentifier) (a : Aggregator D L) (p : Option (NicStats D))
        → find c.local_nic_ip a.nic_bw_map ≡ p
        → IsOperable a
        → let a' = elim p as (λ _. Aggregator D L) [
          | none ↦ allocate_bw_stats env c a
          | some _ ↦ a
        ] in
          IsOperable a'
          × (a'.constants ≡ a.constants)
          × (has c.local_nic_ip (addresses a'.nic_bw_map) ≡ true)
    with_nic-IsOperable env c a none h w = allocate_bw_stats-IsOperable env c a w
    with_nic-IsOperable env c a (some nic) h w =
        (w, refl, has_of_find c.local_nic_ip a.nic_bw_map nic h)

    -- A connection more.
    one_more :
        (env : Env D) (key : ℕ) (c : ConnectionIdentifier) (a1 a2 : Aggregator D L)
        → IsSound a1.constants
        → IsOperable a2
        → a2.constants ≡ a1.constants
        → has c.local_nic_ip (addresses a2.nic_bw_map) ≡ true
        → let handle =
            Setup.new (histogram_params_of env a1) (config_of c a1) a1.constants.bw_burst_count in
          IsOperable
            (record a2 { connection_handlers_map = (key, handle) ∷ a2.connection_handlers_map })
    unfolding config_of
    one_more env key c a1 a2 s p same h =
        let k = a1.constants in
        let (r, e) =
          new-IsReady (histogram_params_of env a1) (config_of c a1) k.bw_burst_count s.enabled
            s.carried (omega (arith, s.fits)) s.bits in
        let ips = addresses a2.nic_bw_map in
        record {
          sound = p.sound;
          nics = p.nics;
          connections = (
            record {
              ready =
                  subst
                    (λ q.
                      IsReady q.bw_burst_count q.carry_over_buckets
                        (collects q.distribution_collector_bitmap)
                        q.variance_hist_collection_enabled
                        (Setup.new (histogram_params_of env a1) (config_of c a1) k.bw_burst_count))
                    (sym same) r;
              nic_there = ap (λ q. has q.connection_id.local_nic_ip ips) e ∙ h;
            },
            p.connections,
          );
        }

    -- Adding a connection, whichever it is, by a plugin that has a name.
    pub add_connection-IsOperable :
        (space_used : L → ℕ) (warning : L) (env : Env D) (key : ℕ) (name : String)
        (c : ConnectionIdentifier) (a : Aggregator D L)
        → IsOperable a
        → (a' : Aggregator D L) × (add_connection space_used warning env key (some name) c a
            ≡ some a')
          × IsOperable a'
          × (a'.constants ≡ a.constants)
    unfolding add_connection
    add_connection-IsOperable space_used warning env key name c a p =
        let a1 = init_constants space_used warning env name a in
        let (p1, k1) = init_constants-IsOperable space_used warning env name a p in
        let (p2, k2, h) =
          with_nic-IsOperable env c a1 (find c.local_nic_ip a1.nic_bw_map) refl p1 in
        (_, refl, one_more env key c a1 _ p1.sound p2 k2 h, k2 ∙ k1)

  -- Taking out a connection that is there.
  extract-AllServed :
      (n carry : ℕ) (w : ℕ → Bool) (v : Bool) (ips : List String) (key : ℕ)
      (cs : List (ℕ × Connection D))
      → IsLive key cs
      → AllServed n carry w v ips cs
      → (c : Connection D) × (cs' : List (ℕ × Connection D)) × (extract key cs ≡ some (c, cs'))
        × AllServed n carry w v ips cs'
  unfolding extract
  extract-AllServed n carry w v ips key [] l s = elim l [ ]
  extract-AllServed n carry w v ips key ((k, c) ∷ cs) l (s, ss) = elim (Bool-cases (k == key)) [
    | inl e ↦ (c, cs, rw e refl, ss)
    | inr e ↦ elim l [
      | inl f ↦ absurd (ground arith)
      | inr f ↦
          let (d, cs', g, ts) = extract-AllServed n carry w v ips key cs f ss in
          (d, (k, c) ∷ cs', rw (e, g) refl, (s, ts))
    ]
  ]

  pub delete_connection-IsOperable :
      {L : Type 0} (key : ℕ) (a : Aggregator D L)
      → IsOperable a
      → IsLive key a.connection_handlers_map
      → (a' : Aggregator D L) × (delete_connection key a ≡ some a')
        × IsOperable a'
        × (a'.constants ≡ a.constants)
  unfolding delete_connection
  delete_connection-IsOperable key a p l =
      let k = a.constants in
      let (c, m, e, s) =
        extract-AllServed k.bw_burst_count k.carry_over_buckets
          (collects k.distribution_collector_bitmap) k.variance_hist_collection_enabled
          (addresses a.nic_bw_map) key a.connection_handlers_map l p.connections in
      (
        record a {
          connection_handlers_map = m;
          to_be_deleted_list = a.to_be_deleted_list ++ ((key, c) ∷ []);
        },
        simp (e),
        record { sound = p.sound; nics = p.nics; connections = s },
        refl,
      )

  -- An operation on a connection that is there.
  pub notify_by-AllServed :
      (n carry : ℕ) (w : ℕ → Bool) (v : Bool) (ips : List String) (key now : ℕ)
      (m : OperationMetric) (cs : List (ℕ × Connection D))
      → 0 < n
      → IsLegal w m.type
      → IsLive key cs
      → AllServed n carry w v ips cs
      → (cs' : List (ℕ × Connection D)) × (notify_by key now m cs ≡ some cs')
        × AllServed n carry w v ips cs'
  unfolding notify_by
  notify_by-AllServed n carry w v ips key now m [] hn g l s = elim l [ ]
  notify_by-AllServed n carry w v ips key now m ((k, c) ∷ cs) hn g l (s, ss) =
      elim (Bool-cases (k == key)) [
        | inl e ↦
            let (t, c', f, r, q) = notify-IsReady n carry w v c now m hn s.ready g in
            ((k, c') ∷ cs, rw (e, f) refl, (serve c c' s r q, ss))
        | inr e ↦ elim l [
          | inl f ↦ absurd (ground arith)
          | inr f ↦
              let (cs', h, ts) = notify_by-AllServed n carry w v ips key now m cs hn g f ss in
              ((k, c) ∷ cs', rw (e, h) refl, (s, ts))
        ]
      ]
