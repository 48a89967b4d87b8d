-- ===== src/Reporter/Schedule.antt =====
-- src/nccl_stats_reporter.cc: the reporter's callbacks and when they are called. Times and durations are
-- numbers on the monotonic clock. A callback is a name, and what a call of it does to the state is an
-- argument. `absl::InfiniteFuture` and an infinite duration are `none`.
pub mod Rounds
use gpuviz.Base.{
  ℕ, zero, suc, ◌+◌, ◌-◌, Bool, true, false, leb, ltb, Option, none, some, List, [], ◌∷◌, ◌++◌,
  if◌then◌else◌,
}

-- `callback_struct`.
pub record Callback (C : Type 0) : Type 0 where
  pub time_to_invoke : ℕ
  pub callback : C
  pub invoke_interval : ℕ

-- `std::min(min_so_far, time)`.
abbrev pub earlier : Option ℕ → ℕ → Option ℕ
earlier none time = some time
earlier (some m) time = if ltb time m then some time else some m

unfoldable pub duration_to_next_call : Option ℕ → ℕ → Option ℕ
duration_to_next_call none time_now = none
duration_to_next_call (some m) time_now = if ltb m time_now then some 0 else some (m - time_now)

module _ {C : Type 0} where
  -- `registerCallbackStruct`.
  pub register_callback_struct : ℕ → ℕ → C → List (Callback C) → List (Callback C)
  register_callback_struct current_time time_interval callback cbs =
      cbs
      ++ (record {
        time_to_invoke = current_time + time_interval;
        callback = callback;
        invoke_interval = time_interval;
      }
          ∷ [])

  abbrev pub is_due : ℕ → Callback C → Bool
  is_due current_time cb = leb cb.time_to_invoke current_time

  abbrev pub next_time : ℕ → Callback C → Callback C
  next_time current_time cb =
      if is_due current_time cb
      then record cb { time_to_invoke = current_time + cb.invoke_interval }
      else cb

  -- The loop over the callbacks, with what the clock says at each of them.
  unfoldable pub invoke_callbacks :
      {S : Type 0}
      → (C → S → S)
      → (ℕ → ℕ)
      → ℕ
      → Option ℕ
      → List (Callback C)
      → S
      → List (Callback C) × S × Option ℕ
  invoke_callbacks run clock i min_so_far [] s = ([], s, min_so_far)
  invoke_callbacks run clock i min_so_far (cb ∷ cbs) s =
      let cb' = next_time (clock i) cb in
      let s' = if is_due (clock i) cb then run cb.callback s else s in
      let (cbs', s'', min) =
        invoke_callbacks run clock (suc i) (earlier min_so_far cb'.time_to_invoke) cbs s' in
      (cb' ∷ cbs', s'', min)

  -- `invokeCallbacksAndReturnDurationtoNextCallback`, with the clock after the loop.
  unfoldable pub invoke_callbacks_and_return_duration_to_next_callback :
      {S : Type 0}
      → (C → S → S)
      → (ℕ → ℕ)
      → ℕ
      → List (Callback C)
      → S
      → List (Callback C) × S × Option ℕ
  invoke_callbacks_and_return_duration_to_next_callback run clock time_now cbs s =
      let (cbs', s', min_so_far) = invoke_callbacks run clock 0 none cbs s in
      (cbs', s', duration_to_next_call min_so_far time_now)
