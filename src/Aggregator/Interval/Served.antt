-- ===== src/Aggregator/Interval/Served.antt =====
-- src/nccl_stats_aggregator.cc: the three loops of `processHighFrequencyTelemetry` over the connections
-- do not fault, and keep what they ask for.
use Prim.Native.String.{String}
use gpuviz.Base.{
  ℕ, ◌+◌, ◌<◌, ◌≡◌, ◌∙◌, refl, ap, Bool, true, false, some, List, [], ◌∷◌, All, length,
}
use gpuviz.Base.Words.{u64_mod}
use gpuviz.Double.{DoubleOps}
use gpuviz.Connection.{Connection}
use gpuviz.Connection.Interval.{NicVectors}
use gpuviz.Connection.Interval.Sums.{NicHasSize}
use gpuviz.Connection.Interval.Ready.{IsReady}
use gpuviz.Connection.Interval.Safety.{
  swap-IsReady, aggregate_send-IsReady, aggregate_recv-IsReady, variance-IsReady,
}
use gpuviz.MsecBandwidth.{insert}
use gpuviz.Aggregator.Nic.{NicStats}
use gpuviz.Aggregator.Nic.Addresses.{
  has, addresses, find_lem, addresses-insert, insert-All, find-All,
}
use gpuviz.Aggregator.Nic.Ready.{NicReady, AllReady, put_all}
use gpuviz.Aggregator.Interval.{
  swap_all, vectors_of, put_vectors, aggregate_connection, aggregate_all, variance_all, variance_if,
}

module _ {D : Type 0} ⦃o : DoubleOps D⦄ where
  vectors_of-NicHasSize :
      (n direction : ℕ) (v : Bool) (nic : NicStats D)
      → NicReady n v nic
      → NicHasSize n v (vectors_of direction nic)
  vectors_of-NicHasSize n direction v nic r = record {
    bw = r.bw direction;
    load = r.load direction;
    latency = r.latency;
  }

  put_vectors-NicReady :
      (n direction : ℕ) (v : Bool) (nic : NicStats D) (vec : NicVectors D)
      → NicReady n v nic
      → NicHasSize n v vec
      → NicReady n v (put_vectors direction vec nic)
  put_vectors-NicReady n direction v nic vec r z = record {
    bw = put_all (λ ys. length ys ≡ n) nic.nic_bw direction vec.bw z.bw r.bw;
    load = put_all (λ ys. length ys ≡ n) nic.offered_load direction vec.offered_load z.load r.load;
    hist = r.hist;
    latency = z.latency;
    bw_variance = r.bw_variance;
    latency_variance = r.latency_variance;
  }

  -- A connection and its NIC.
  aggregate_connection-IsReady :
      (n carry unused : ℕ) (w : ℕ → Bool) (v : Bool) (nic : NicStats D) (c : Connection D)
      → unused + carry < u64_mod
      → NicReady n v nic
      → IsReady n carry w v c
      → (nic' : NicStats D) × (c' : Connection D) × (aggregate_connection unused nic c
          ≡ some (nic', c'))
        × NicReady n v nic'
        × IsReady n carry w v c'
        × (c'.config ≡ c.config)
  unfolding aggregate_connection
  aggregate_connection-IsReady n carry unused w v nic c h rn rc =
      let (vec, c1, e1, z1, r1, k1) =
        aggregate_send-IsReady n carry w v c unused (vectors_of 0 nic) rc h
          (vectors_of-NicHasSize n 0 v nic rn) in
      let nic1 = put_vectors 0 vec nic in
      let rn1 = put_vectors-NicReady n 0 v nic vec rn z1 in
      let (vec', c2, e2, z2, r2, k2) =
        aggregate_recv-IsReady n carry w v c1 unused (vectors_of 1 nic1) r1 h
          (vectors_of-NicHasSize n 1 v nic1 rn1) in
      (
        put_vectors 1 vec' nic1,
        c2,
        simp (e1, e2),
        put_vectors-NicReady n 1 v nic1 vec' rn1 z2,
        r2,
        k2 ∙ k1,
      )

  -- What the loops ask of a connection: it is ready, and its NIC is among those of these addresses.
  pub record IsServed (n carry : ℕ) (w : ℕ → Bool) (v : Bool) (ips : List String) (c : Connection D)
      : Type 0 where
    pub ready : IsReady n carry w v c
    pub nic_there : has c.connection_id.local_nic_ip ips ≡ true

  abbrev pub AllServed : ℕ → ℕ → (ℕ → Bool) → Bool → List String → List (ℕ × Connection D) → Type 0
  AllServed n carry w v ips cs = All (λ e. IsServed n carry w v ips e.1) cs

  pub serve :
      {n carry : ℕ} {w : ℕ → Bool} {v : Bool} {ips : List String} (c c' : Connection D)
      → IsServed n carry w v ips c
      → IsReady n carry w v c'
      → c'.config ≡ c.config
      → IsServed n carry w v ips c'
  serve {ips = ips} c c' s r k = record {
    ready = r;
    nic_there = ap (λ k. has k.connection_id.local_nic_ip ips) k ∙ s.nic_there;
  }

  pub swap_all-AllServed :
      (n carry : ℕ) (w : ℕ → Bool) (v : Bool) (ips : List String) (start unused : ℕ)
      (cs : List (ℕ × Connection D))
      → unused + carry < u64_mod
      → AllServed n carry w v ips cs
      → (cs' : List (ℕ × Connection D)) × (swap_all start unused cs ≡ some cs')
        × AllServed n carry w v ips cs'
  unfolding swap_all
  swap_all-AllServed n carry w v ips start unused [] h s = ([], refl, tt)
  swap_all-AllServed n carry w v ips start unused ((key, c) ∷ cs) h (s, ss) =
      let (c', e, r, k) = swap-IsReady (o.of_nat 0) n carry w v c start unused s.ready h in
      let (cs', es, ts) = swap_all-AllServed n carry w v ips start unused cs h ss in
      ((key, c') ∷ cs', simp (e, es), (serve c c' s r k, ts))

  pub aggregate_all-AllServed :
      (n carry : ℕ) (w : ℕ → Bool) (v : Bool) (ips : List String) (unused : ℕ)
      (nics : List (String × NicStats D)) (cs : List (ℕ × Connection D))
      → unused + carry < u64_mod
      → addresses nics ≡ ips
      → AllReady n v nics
      → AllServed n carry w v ips cs
      → (nics' : List (String × NicStats D)) × (cs' : List (ℕ × Connection D)) × (aggregate_all
            unused nics cs
          ≡ some (nics', cs'))
        × (addresses nics' ≡ ips)
        × AllReady n v nics'
        × AllServed n carry w v ips cs'
  unfolding aggregate_all
  aggregate_all-AllServed n carry w v ips unused nics [] h a rn s = (nics, [], refl, a, rn, tt)
  aggregate_all-AllServed n carry w v ips unused nics ((key, c) ∷ cs) h a rn (s, ss) =
      let ip = c.connection_id.local_nic_ip in
      let there : has ip (addresses nics) ≡ true = ap (has ip) a ∙ s.nic_there in
      let (nic, f) = find_lem ip nics there in
      let (nic', c', e, r', rc, k) =
        aggregate_connection-IsReady n carry unused w v nic c h
          (find-All (NicReady n v) ip nic nics f rn) s.ready in
      let (nics', cs', es, a', rn', ts) =
        aggregate_all-AllServed n carry w v ips unused (insert ip nic' nics) cs h
          (addresses-insert ip nic' nics there ∙ a) (insert-All (NicReady n v) ip nic' nics r' rn)
          ss in
      (nics', (key, c') ∷ cs', simp (f, e, es), a', rn', (serve c c' s rc k, ts))

  variance_all-AllServed :
      (n carry : ℕ) (w : ℕ → Bool) (v : Bool) (ips : List String) (unused : ℕ)
      (nics : List (String × NicStats D)) (cs : List (ℕ × Connection D))
      → unused + carry < u64_mod
      → v ≡ true
      → addresses nics ≡ ips
      → AllReady n v nics
      → AllServed n carry w v ips cs
      → (cs' : List (ℕ × Connection D)) × (variance_all unused nics cs ≡ some cs')
        × AllServed n carry w v ips cs'
  unfolding variance_all
  variance_all-AllServed n carry w v ips unused nics [] h hv a rn s = ([], refl, tt)
  variance_all-AllServed n carry w v ips unused nics ((key, c) ∷ cs) h hv a rn (s, ss) =
      let ip = c.connection_id.local_nic_ip in
      let (nic, f) = find_lem ip nics (ap (has ip) a ∙ s.nic_there) in
      let (c', e, r, k) =
        variance-IsReady n carry w v c nic.offered_load.at_0 unused s.ready h hv
          ((find-All (NicReady n v) ip nic nics f rn).load 0) in
      let (cs', es, ts) = variance_all-AllServed n carry w v ips unused nics cs h hv a rn ss in
      ((key, c') ∷ cs', simp (f, e, es), (serve c c' s r k, ts))

  pub variance_if-AllServed :
      (n carry : ℕ) (w : ℕ → Bool) (v : Bool) (ips : List String) (unused : ℕ)
      (nics : List (String × NicStats D)) (cs : List (ℕ × Connection D))
      → unused + carry < u64_mod
      → addresses nics ≡ ips
      → AllReady n v nics
      → AllServed n carry w v ips cs
      → (cs' : List (ℕ × Connection D)) × (variance_if v unused nics cs ≡ some cs')
        × AllServed n carry w v ips cs'
  variance_if-AllServed n carry w false ips unused nics cs h a rn s = (cs, refl, s)
  variance_if-AllServed n carry w true ips unused nics cs h a rn s =
      variance_all-AllServed n carry w true ips unused nics cs h refl a rn s
