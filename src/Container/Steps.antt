-- ===== src/Container/Steps.antt =====
-- src/nccl_stats_container.cc: what each call does, by who holds the container.
use gpuviz.Base.{
  ℕ, suc, ◌-◌, ◌<◌, ◌≡◌, ◌∙◌, refl, ap, false, ◌==◌, ==_refl, Option, none, some, arith,
}
use gpuviz.Base.Words.{u64_mod, add_u64, sub_u64}
use gpuviz.Base.Faults.{Status, ok, invalid_argument}
use gpuviz.Stats.{TelemetryMode}
use gpuviz.Container.{
  nccl_success, nccl_invalid_argument, Internal, Singleton, greet, share, get_instance, init_v1,
  destroy, peek_instance, drop_instance,
}

module _ {I : Type 0} where
  abbrev pub singleton : Option I → ℕ → ℕ → TelemetryMode → Singleton I
  singleton p n b mode = record {
    container_internal = p;
    ref_cnt = n;
    distribution_collector_bitmap = b;
    default_telemetry_mode = mode;
  }

  share-same :
      (p : Option I) (n b : ℕ) (mode : TelemetryMode)
      → suc n < u64_mod
      → share b (singleton p n b mode) ≡ (ok, singleton p (suc n) b mode)
  unfolding share
  share-same p n b mode h =
      let m : add_u64 n 1 ≡ suc n = omega arith in
      rw (==_refl b) (ap (λ k. (ok, singleton p k b mode)) m)

  pub share-wraps :
      (p : Option I) (b : ℕ) (mode : TelemetryMode)
      → share b (singleton p (u64_mod - 1) b mode) ≡ (ok, singleton p 0 b mode)
  unfolding share
  share-wraps p b mode = rw (==_refl b) refl

  share-other :
      (p : Option I) (n b bitmap : ℕ) (mode : TelemetryMode)
      → (b == bitmap) ≡ false
      → share bitmap (singleton p n b mode) ≡ (invalid_argument, singleton p n b mode)
  unfolding share
  share-other p n b bitmap mode h = rw h refl

  module _ {C M : Type 0} (internal : Internal I C M) where
    -- The object with a bitmap starts, in every mode.
    abbrev pub Starts : Type 0
    Starts =
        (mode : TelemetryMode) (bitmap : ℕ) → (internal.init mode (internal.create bitmap)).0 ≡ ok

    pub init_lem :
        (bitmap : ℕ) (s : Singleton I) {t : Status × Singleton I}
        → get_instance internal bitmap s ≡ t
        → init_v1 internal bitmap s ≡ greet internal t
    unfolding init_v1
    init_lem bitmap s h = ap (greet internal) h

    get_first :
        (b bitmap : ℕ) (mode : TelemetryMode)
        → Starts
        → get_instance internal bitmap (singleton none 0 b mode)
          ≡ (ok, singleton (some (internal.init mode (internal.create bitmap)).1) 1 bitmap mode)
    unfolding get_instance
    get_first b bitmap mode starts =
        rw (starts mode bitmap, get_instance)
          (share-same (some (internal.init mode (internal.create bitmap)).1) 0 bitmap mode
            (omega arith))

    pub get_more :
        (p : Option I) (n b bitmap : ℕ) (mode : TelemetryMode)
        → get_instance internal bitmap (singleton p (suc n) b mode)
          ≡ share bitmap (singleton p (suc n) b mode)
    unfolding get_instance
    get_more p n b bitmap mode =
        let e : (suc n == 0) ≡ false = ground arith in rw (e, get_instance) refl

    pub acquire_first :
        (b bitmap : ℕ) (mode : TelemetryMode)
        → Starts
        → init_v1 internal bitmap (singleton none 0 b mode)
          ≡ some (
            nccl_success,
            singleton
                (some (internal.add_log_msg (internal.init mode (internal.create bitmap)).1))
                1
                bitmap
                mode,
          )
    unfolding peek_instance
    acquire_first b bitmap mode starts =
        init_lem bitmap (singleton none 0 b mode) (get_first b bitmap mode starts)

    pub acquire_same :
        (i : I) (n b : ℕ) (mode : TelemetryMode)
        → suc (suc n) < u64_mod
        → init_v1 internal b (singleton (some i) (suc n) b mode)
          ≡ some (nccl_success, singleton (some (internal.add_log_msg i)) (suc (suc n)) b mode)
    unfolding peek_instance
    acquire_same i n b mode h =
        init_lem b (singleton (some i) (suc n) b mode)
          (get_more (some i) n b b mode ∙ share-same (some i) (suc n) b mode h)

    pub acquire_other :
        (i : I) (n b bitmap : ℕ) (mode : TelemetryMode)
        → (b == bitmap) ≡ false
        → init_v1 internal bitmap (singleton (some i) (suc n) b mode)
          ≡ some (nccl_invalid_argument, singleton (some i) (suc n) b mode)
    acquire_other i n b bitmap mode h =
        init_lem bitmap (singleton (some i) (suc n) b mode)
          (get_more (some i) n b bitmap mode ∙ share-other (some i) (suc n) b bitmap mode h)

    pub release_nobody :
        (b : ℕ) (mode : TelemetryMode)
        → destroy internal (singleton none 0 b mode) ≡ (nccl_success, singleton none 0 b mode)
    unfolding destroy peek_instance
    release_nobody b mode = refl

    pub release_last :
        (i : I) (b : ℕ) (mode : TelemetryMode)
        → destroy internal (singleton (some i) 1 b mode) ≡ (nccl_success, singleton none 0 b mode)
    unfolding destroy peek_instance drop_instance
    release_last i b mode = refl

    pub release_one :
        (i : I) (n b : ℕ) (mode : TelemetryMode)
        → suc (suc n) < u64_mod
        → destroy internal (singleton (some i) (suc (suc n)) b mode)
          ≡ (nccl_success, singleton (some (internal.flush_telemetry i)) (suc n) b mode)
    unfolding destroy peek_instance drop_instance
    release_one i n b mode h =
        let m : sub_u64 (suc (suc n)) 1 ≡ suc n = omega arith in
        let e : (suc n == 0) ≡ false = ground arith in rw (m, e) refl
