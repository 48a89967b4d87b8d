-- ===== src/Aggregator/Telemetry/Deletion.antt =====
-- src/nccl_stats_aggregator.cc: a connection that is deleted is told of once more, and then released.
use gpuviz.Base.{
  ℕ, suc, ◌≡◌, ◌∙◌, refl, ap, false, ◌==◌, Option, some, List, [], ◌∷◌, ◌++◌, map, length,
  length-append, All, arith, ==_refl,
}
use gpuviz.Double.{DoubleOps}
use gpuviz.Message.{ConnectionStats}
use gpuviz.Connection.{Connection}
use gpuviz.Executor.{AllStats}
use gpuviz.Aggregator.{Aggregator, extract, delete_connection, get_number_of_connections}
use gpuviz.Aggregator.Telemetry.{read_telemetry}
use gpuviz.Aggregator.Telemetry.Reports.{
  AllComplete, after_read, handles, nics_told, connections_told, read_telemetry-IsRead,
}

module _ {D : Type 0} where
  -- A handle that is there is found.
  extract_lem :
      (key : ℕ) (m : List (ℕ × Connection D)) {c : Connection D}
      (before after : List (ℕ × Connection D))
      → m ≡ before ++ (key, c) ∷ after
      → All (λ e. (e.0 == key) ≡ false) before
      → extract key m ≡ some (c, before ++ after)
  unfolding extract
  extract_lem key m [] after h n = rw (h, ==_refl key) refl
  extract_lem key m ((k, d) ∷ before) after h (n, ns) =
      rw (h, n, extract_lem key (before ++ (key, _) ∷ after) before after refl ns) refl

module _ {D : Type 0} ⦃o : DoubleOps D⦄ {L E : Type 0} (space_used : L → ℕ)
    (parse : List ℕ → Option E) (failed : L) where
  handles_after :
      (m : List (ℕ × Connection D))
      → map
          (λ e. e.0)
          (map {A = ℕ × Connection D} {B = ℕ × Connection D} (λ (k, c). (k, after_read c)) m)
        ≡ map (λ e. e.0) m
  handles_after [] = refl
  handles_after ((k, c) ∷ m) = ap (λ l. k ∷ l) (handles_after m)

  -- Deleting a connection takes it out of the live ones. The next read tells of it last, as it stands,
  -- and releases it; after that read the live connections are the others, and none waits to be
  -- deleted.
  pub delete_connection-IsRead :
      (now key : ℕ) (c : Connection D) (a : Aggregator D L) (before after : List (ℕ × Connection D))
      → a.connection_handlers_map ≡ before ++ (key, c) ∷ after
      → All (λ e. (e.0 == key) ≡ false) before
      → AllComplete a.constants.variance_hist_collection_enabled a.nic_bw_map
      → (a1 a2 : Aggregator D L) × (stats : AllStats L (ConnectionStats D) E) × (delete_connection
            key a
          ≡ some a1)
        × (suc (get_number_of_connections a1) ≡ get_number_of_connections a)
        × (read_telemetry space_used parse failed now a1 ≡ some (stats, a2))
        × (stats.conn_stats
            ≡ nics_told now a
              ++ (connections_told now a (before ++ after)
                  ++ connections_told now a (a.to_be_deleted_list ++ ((key, c) ∷ []))))
        × (handles a2 ≡ map (λ e. e.0) (before ++ after))
        × (a2.to_be_deleted_list ≡ [])
  unfolding delete_connection get_number_of_connections
  delete_connection-IsRead now key c a before after h n k =
      let a1 : Aggregator D L = record a {
        connection_handlers_map = before ++ after;
        to_be_deleted_list = a.to_be_deleted_list ++ ((key, c) ∷ []);
      } in
      let (stats, a2, e, r) = read_telemetry-IsRead space_used parse failed now a1 k in
      (
        a1,
        a2,
        stats,
        rw (extract_lem key a.connection_handlers_map before after h n) refl,
        omega (
          arith,
          ap length h,
          length-append before after,
          length-append before ((key, c) ∷ after),
        ),
        e,
        r.conn_stats,
        ap (map (λ e. e.0)) r.live ∙ handles_after (before ++ after),
        r.released,
      )
