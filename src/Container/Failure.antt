-- ===== src/Container/Failure.antt =====
-- src/nccl_stats_container.cc: the container after an initialisation that has failed.
use gpuviz.Base.{ℕ, ◌-◌, ◌≡◌, ◌≢◌, ◌∙◌, refl, ap, Option, some}
use gpuviz.Base.Words.{u64_mod}
use gpuviz.Base.Faults.{Status, ok}
use gpuviz.Stats.{TelemetryMode}
use gpuviz.Container.{
  nccl_success, nccl_invalid_argument, Internal, Singleton, greet, get_instance, init_v1, destroy,
  peek_instance, drop_instance,
}
use gpuviz.Container.Steps.{singleton, share-wraps, init_lem, get_more}

module _ {I : Type 0} where
  module _ {C M : Type 0} (internal : Internal I C M) where
    get_failed :
        (t : Status) (p : Option I) (b bitmap : ℕ) (mode : TelemetryMode)
        → t ≢ ok
        → (internal.init mode (internal.create bitmap)).0 ≡ t
        → get_instance internal bitmap (singleton p 0 b mode)
          ≡ (t, singleton (some (internal.init mode (internal.create bitmap)).1) 0 b mode)
    unfolding get_instance
    get_failed ok p b bitmap mode n h = elim (n refl) [ ]
    get_failed t p b bitmap mode n h =
        rw (h, get_instance)
          (ap (λ z. (z, singleton (some (internal.init mode (internal.create bitmap)).1) 0 b mode))
            h)

    greet_failed :
        (t : Status) (s : Singleton I)
        → t ≢ ok
        → greet internal (t, s) ≡ some (nccl_invalid_argument, s)
    greet_failed ok s n = elim (n refl) [ ]
    greet_failed t s n = refl

    -- If the object does not start, the caller gets an error, but the object stays, with a count of 0.
    -- A return then makes the count wrap around and does not release the object, and the next caller
    -- who comes with the old bitmap is told that all is well, though nothing was started, while the
    -- count is 0 again.
    pub failed_then_released :
        (p : Option I) (b bitmap : ℕ) (mode : TelemetryMode)
        → (internal.init mode (internal.create bitmap)).0 ≢ ok
        → (s1 s2 s3 : Singleton I) × (i j : I) × (init_v1 internal bitmap (singleton p 0 b mode)
            ≡ some (nccl_invalid_argument, s1))
          × (s1 ≡ singleton (some i) 0 b mode)
          × (destroy internal s1 ≡ (nccl_success, s2))
          × (s2 ≡ singleton (some (internal.flush_telemetry i)) (u64_mod - 1) b mode)
          × (init_v1 internal b s2 ≡ some (nccl_success, s3))
          × (s3 ≡ singleton (some j) 0 b mode)
    unfolding destroy peek_instance drop_instance
    failed_then_released p b bitmap mode n =
        let t = (internal.init mode (internal.create bitmap)).0 in
        let i = (internal.init mode (internal.create bitmap)).1 in
        let i2 = internal.flush_telemetry i in
        (
          singleton (some i) 0 b mode,
          singleton (some i2) (u64_mod - 1) b mode,
          singleton (some (internal.add_log_msg i2)) 0 b mode,
          i,
          internal.add_log_msg i2,
          init_lem internal bitmap (singleton p 0 b mode) (get_failed t p b bitmap mode n refl)
              ∙ greet_failed t (singleton (some i) 0 b mode) n,
          refl,
          refl,
          refl,
          init_lem internal b (singleton (some i2) (u64_mod - 1) b mode)
              (get_more internal (some i2) (u64_mod - 2) b b mode ∙ share-wraps (some i2) b mode),
          refl,
        )
