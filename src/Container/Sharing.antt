-- ===== src/Container/Sharing.antt =====
-- src/nccl_stats_container.cc: the container is there as long as somebody holds it.
use gpuviz.Base.{
  ℕ, zero, suc, ◌+◌, ◌<◌, ◌≡◌, ◌∙◌, refl, sym, ap, ==→eq, ◌==◌, Option, none, some, List, [], ◌∷◌,
  length, if◌then◌else◌, Bool-cases, inl, inr, arith,
}
use gpuviz.Base.Words.{u64_mod}
use gpuviz.Base.Faults.{◌>>=◌}
use gpuviz.Stats.{TelemetryMode}
use gpuviz.Container.{
  NcclResult, nccl_success, nccl_invalid_argument, Internal, Singleton, init_v1, destroy,
}
use gpuviz.Container.Steps.{
  singleton, Starts, acquire_first, acquire_same, acquire_other, release_nobody, release_last,
  release_one,
}

-- A caller takes the container, with its bitmap, or gives it back.
pub data Call : Type 0 where
  acquire : ℕ → Call
  release : Call

-- Who holds the container: nobody, or one more than a number of callers, all with one bitmap.
pub data Held : Type 0 where
  nobody : Held
  held : ℕ → ℕ → Held

abbrev pub holders : Held → ℕ
holders nobody = 0
holders (held n bitmap) = suc n

pub spec_call : Call → Held → NcclResult × Held
spec_call (acquire bitmap) nobody = (nccl_success, held 0 bitmap)
spec_call (acquire bitmap) (held n b) =
    if b == bitmap then (nccl_success, held (suc n) b) else (nccl_invalid_argument, held n b)
spec_call release nobody = (nccl_success, nobody)
spec_call release (held zero b) = (nccl_success, nobody)
spec_call release (held (suc n) b) = (nccl_success, held n b)

pub spec_calls : List Call → Held → List NcclResult × Held
spec_calls [] h = ([], h)
spec_calls (c ∷ cs) h =
    let (r, h1) = spec_call c h in let (rs, h2) = spec_calls cs h1 in (r ∷ rs, h2)

module _ {I : Type 0} where
  -- What the singleton is while it is held so.
  pub IsHeld : Held → Singleton I → Type 0
  IsHeld nobody s = (b : ℕ) × (mode : TelemetryMode) × (s ≡ singleton none 0 b mode)
  IsHeld (held n b) s = (i : I) × (mode : TelemetryMode) × (s ≡ singleton (some i) (suc n) b mode)

  module _ {C M : Type 0} (internal : Internal I C M) where
    pub call : Call → Singleton I → Option (NcclResult × Singleton I)
    call (acquire bitmap) s = init_v1 internal bitmap s
    call release s = some (destroy internal s)

    pub calls : List Call → Singleton I → Option (List NcclResult × Singleton I)
    calls [] s = some ([], s)
    calls (c ∷ cs) s = do (r, s1) ← call c s; (rs, s2) ← calls cs s1; some (r ∷ rs, s2)

    call-IsHeld :
        (c : Call) (h : Held) (s : Singleton I)
        → Starts internal
        → holders h + 1 < u64_mod
        → IsHeld h s
        → (s1 : Singleton I) × (call c s ≡ some ((spec_call c h).0, s1))
          × IsHeld (spec_call c h).1 s1
          × ((holders (spec_call c h).1) < holders h + 2)
    unfolding call spec_call IsHeld
    call-IsHeld (acquire bitmap) nobody s starts m (b, mode, e) = (
      singleton (some (internal.add_log_msg (internal.init mode (internal.create bitmap)).1)) 1
          bitmap mode,
      ap (init_v1 internal bitmap) e ∙ acquire_first internal b bitmap mode starts,
      (internal.add_log_msg (internal.init mode (internal.create bitmap)).1, mode, refl),
      omega arith,
    )
    call-IsHeld (acquire bitmap) (held n b) s starts m (i, mode, e) =
        elim (Bool-cases (b == bitmap)) [
          | inl y ↦
              (let p : bitmap ≡ b = sym (==→eq b bitmap y) in
                rw y (
                  singleton (some (internal.add_log_msg i)) (suc (suc n)) b mode,
                  ap (init_v1 internal bitmap) e
                      ∙ ap (λ z. init_v1 internal z (singleton (some i) (suc n) b mode)) p
                      ∙ acquire_same internal i n b mode (omega arith),
                  (internal.add_log_msg i, mode, refl),
                  omega arith,
                ))
          | inr y ↦ rw y (
            singleton (some i) (suc n) b mode,
            ap (init_v1 internal bitmap) e ∙ acquire_other internal i n b bitmap mode y,
            (i, mode, refl),
            omega arith,
          )
        ]
    call-IsHeld release nobody s starts m (b, mode, e) = (
      singleton none 0 b mode,
      ap (λ z. some (destroy internal z)) e ∙ ap some (release_nobody internal b mode),
      (b, mode, refl),
      omega arith,
    )
    call-IsHeld release (held zero b) s starts m (i, mode, e) = (
      singleton none 0 b mode,
      ap (λ z. some (destroy internal z)) e ∙ ap some (release_last internal i b mode),
      (b, mode, refl),
      omega arith,
    )
    call-IsHeld release (held (suc n) b) s starts m (i, mode, e) = (
      singleton (some (internal.flush_telemetry i)) (suc n) b mode,
      ap (λ z. some (destroy internal z)) e
          ∙ ap some (release_one internal i n b mode (omega arith)),
      (internal.flush_telemetry i, mode, refl),
      omega arith,
    )

    -- If the object always starts, then in any sequence of takings and returns, too short for the count
    -- to wrap around, no null pointer is followed and every caller sees what a plain list of holders
    -- would show: whoever comes first makes the object, and sets the bitmap; others get it only with
    -- the same bitmap; it is there exactly as long as somebody holds it; and a return that nobody
    -- is entitled to changes nothing.
    pub calls-IsHeld :
        (cs : List Call) (h : Held) (s : Singleton I)
        → Starts internal
        → holders h + length cs < u64_mod
        → IsHeld h s
        → (s' : Singleton I) × (calls cs s ≡ some ((spec_calls cs h).0, s'))
          × IsHeld (spec_calls cs h).1 s'
    unfolding calls spec_calls
    calls-IsHeld [] h s starts m k = (s, refl, k)
    calls-IsHeld (c ∷ cs) h s starts m k =
        let (s1, e1, k1, n) = call-IsHeld c h s starts (omega arith) k in
        let (s2, e2, k2) = calls-IsHeld cs (spec_call c h).1 s1 starts (omega arith) k1 in
        (s2, simp (e1, e2), k2)

-- A new singleton is held by nobody.
pub singleton-IsHeld :
    (I : Type 0) (b : ℕ) (mode : TelemetryMode) → IsHeld {I = I} nobody (singleton none 0 b mode)
unfolding IsHeld
singleton-IsHeld I b mode = (b, mode, refl)
