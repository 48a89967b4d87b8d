-- ===== src/Reporter/Reports.antt =====
-- src/nccl_stats_reporter.cc with src/utils.cc and src/nccl_stats_uploader_executor.cc: what becomes of
-- the telemetry that `readAndReportTelemetry` reads.
use Prim.Native.String.{String}
use gpuviz.Base.{
  ℕ, ◌≡◌, ◌≢◌, ◌∙◌, refl, sym, ap, true, false, Option, none, some, List, [], ◌∷◌, map,
  if◌then◌else◌, if_both, not, inl, inr, ◌⊎◌,
}
use gpuviz.Base.Faults.{◌>>=◌, Status, ok, value}
use gpuviz.Params.{Env}
use gpuviz.Params.Settings.{is_bandwidth_histogram_collection_enabled}
use gpuviz.Message.{ConnectionStats}
use gpuviz.Executor.{AllStats, ByteSize}
use gpuviz.Executor.Loop.{Executor}
use gpuviz.Executor.Loop.Accepts.{
  chunks, update_queue-empty, upload_finished-empty, upload_finished-busy,
}
use gpuviz.Utils.{is_unwanted}
use gpuviz.Utils.Filter.{keep, filter-keep}
use gpuviz.Reporter.{
  TelemetryProvider, Reporter, Outside, get_file_name, is_rotation_due, write_to_disk,
  rotate_if_due, rotate_logs, should_read_telemetry, upload_to, upload, no_executor_or_finished,
  read_and_report_telemetry, flush_telemetry, process_high_frequency_telemetry,
}

module _ {D L E : Type 0} where
  -- The message without the histograms that are not to be uploaded.
  abbrev pub filtered : List ℕ → AllStats L (ConnectionStats D) E → AllStats L (ConnectionStats D) E
  filtered types m = record m {
    conn_stats =
        map {A = ConnectionStats D}
          (λ c. record c { histogram = keep (is_unwanted types) c.histogram }) m.conn_stats;
  }

module _ {P D L E : Type 0} where
  -- A change that leaves the executor and the mode alone.
  record Keeps (r r' : Reporter P D L E) : Type 0 where
    executor : r'.upload_executor ≡ r.upload_executor
    mode : r'.report_mode ≡ r.report_mode

  module _ (provider : TelemetryProvider P L (ConnectionStats D) E) (w : Outside L) where
    get_file_name-Keeps : (r : Reporter P D L E) → Keeps r (get_file_name w r).1
    unfolding get_file_name
    get_file_name-Keeps r =
        if_both (λ (t : String × Reporter P D L E). Keeps r t.1) (not r.out_is_open)
          (record { executor = refl; mode = refl }) (record { executor = refl; mode = refl })

    rotate_logs-Keeps : (r : Reporter P D L E) → Keeps r (rotate_logs provider w r).1
    unfolding rotate_logs
    rotate_logs-Keeps r =
        let k = get_file_name-Keeps r in
        if_both (λ (t : Status × Reporter P D L E). Keeps r t.1)
          (not r.report_mode.write_local_disk) (record { executor = refl; mode = refl })
          (if_both (λ (t : Status × Reporter P D L E). Keeps r t.1) (not w.opened)
            (record { executor = k.executor; mode = k.mode })
            (record { executor = k.executor; mode = k.mode }))

    logged_or_not :
        (r x y : Reporter P D L E) (s : Status)
        → Keeps r x
        → Keeps r y
        → Keeps r (elim s as (λ _. Reporter P D L E) [ ok ↦ x | _ ↦ y ])
    logged_or_not r x y ok h k = h
    logged_or_not r x y _ h k = k

    rotate_if_due-Keeps :
        (env : Env D) (r : Reporter P D L E) → Keeps r (rotate_if_due provider env w r)
    unfolding rotate_if_due
    rotate_if_due-Keeps env r =
        let r0 : Reporter P D L E = record r { log_file_time = w.now } in
        let k = rotate_logs-Keeps r0 in
        let (s, r1) = rotate_logs provider w r0 in
        let same : Keeps r r1 = record { executor = k.executor; mode = k.mode } in
        let logged : Keeps r
            (record r1 { provider = provider.add_log_msg w.log_entry r1.provider }) =
          record { executor = k.executor; mode = k.mode } in
        if_both (Keeps r) (is_rotation_due env w.now r.log_file_time) {y = r}
          (logged_or_not r r1
            (record r1 { provider = provider.add_log_msg w.log_entry r1.provider }) s same logged)
          (record { executor = refl; mode = refl })

    write_to_disk-Keeps :
        (env : Env D) (m : AllStats L (ConnectionStats D) E) (r : Reporter P D L E)
        → Keeps r (write_to_disk provider env w m r)
    unfolding write_to_disk
    write_to_disk-Keeps env m r =
        let k = rotate_if_due-Keeps env r in
        if_both (Keeps r) r.report_mode.write_local_disk
          (if_both (Keeps r) (rotate_if_due provider env w r).out_is_open
            (record { executor = k.executor; mode = k.mode }) k)
          (record { executor = refl; mode = refl })

module _ {P D L E : Type 0} (provider : TelemetryProvider P L (ConnectionStats D) E)
    (byte_size : ByteSize L (ConnectionStats D) E) (max_size : ℕ) (start_entry : L)
    (w : Outside L) where
  -- The executor with the chunks of a message in its queue.
  abbrev pub queued :
      Executor L (ConnectionStats D) E
      → AllStats L (ConnectionStats D) E
      → Executor L (ConnectionStats D) E
  queued e m =
      let (q, index) = chunks e byte_size max_size start_entry m in
      record e { q = map some q; index = index }

  upload_to-some :
      (e : Executor L (ConnectionStats D) E) (m : AllStats L (ConnectionStats D) E)
      (r : Reporter P D L E)
      → e.has_uploader ≡ true
      → e.q ≡ []
      → upload_to provider byte_size max_size start_entry w (some e) m r
        ≡ some (record r {
          upload_executor = some (queued e (filtered r.report_mode.dist_types_to_upload m));
        })
  unfolding upload_to
  upload_to-some e m r uploader q = simp (
    filter-keep r.report_mode.dist_types_to_upload m.conn_stats,
    update_queue-empty e uploader byte_size max_size start_entry
        (filtered r.report_mode.dist_types_to_upload m) q,
  )

  upload_lem :
      (p : Option (Executor L (ConnectionStats D) E)) (m : AllStats L (ConnectionStats D) E)
      (r : Reporter P D L E)
      → r.upload_executor ≡ p
      → upload provider byte_size max_size start_entry w m r
        ≡ upload_to provider byte_size max_size start_entry w p m r
  unfolding upload
  upload_lem p m r h = ap (λ x. upload_to provider byte_size max_size start_entry w x m r) h

  module _ (env : Env D) (r : Reporter P D L E) where
    should_read_lem :
        (p : Option (Executor L (ConnectionStats D) E))
        → r.upload_executor ≡ p
        → should_read_telemetry r ≡ no_executor_or_finished p
    unfolding should_read_telemetry
    should_read_lem p h = ap no_executor_or_finished h

    abbrev pub report : Option (Reporter P D L E)
    report = read_and_report_telemetry provider env byte_size max_size start_entry w r

    pub report_not : should_read_telemetry r ≡ false → report ≡ some r
    unfolding read_and_report_telemetry
    report_not h = rw (h, read_and_report_telemetry) refl

    report_value :
        (m : AllStats L (ConnectionStats D) E)
        → should_read_telemetry r ≡ true
        → (provider.read_telemetry r.provider).0 ≡ value m
        → report
          ≡ upload provider byte_size max_size start_entry w m (
              write_to_disk provider env w m
                (record r { provider = (provider.read_telemetry r.provider).1 }))
    unfolding read_and_report_telemetry
    report_value m h k = rw (h, k, read_and_report_telemetry) refl

    -- With a live uploader, a running executor and a provider that answers, no telemetry is lost: while
    -- the queue is not empty, nothing is read, and the reporter is left as it is; where the queue is
    -- empty, the telemetry is read, and the chunks of it become the queue, all of it but for the
    -- histograms that are not to be uploaded.
    pub report_keeps :
        (e : Executor L (ConnectionStats D) E) (m : AllStats L (ConnectionStats D) E)
        → r.upload_executor ≡ some e
        → e.has_uploader ≡ true
        → e.uploader_is_dead ≡ false
        → e.shutdown ≡ false
        → (provider.read_telemetry r.provider).0 ≡ value m
        → ((e.q ≢ []) × (report ≡ some r))
          ⊎ ((r' : Reporter P D L E) × (report ≡ some r')
              × (e.q ≡ [])
              × (r'.upload_executor
                  ≡ some (queued e (filtered r.report_mode.dist_types_to_upload m))))
    report_keeps e m h uploader alive running read = by_queue e.q refl
      where
        by_queue :
            (q : List (Option (AllStats L (ConnectionStats D) E)))
            → e.q ≡ q
            → ((e.q ≢ []) × (report ≡ some r))
              ⊎ ((r' : Reporter P D L E) × (report ≡ some r')
                  × (e.q ≡ [])
                  × (r'.upload_executor
                      ≡ some (queued e (filtered r.report_mode.dist_types_to_upload m))))
        by_queue (x ∷ xs) q = inl (
          λ h. absurd cc,
          report_not
              (should_read_lem (some e) h ∙ upload_finished-busy e uploader x xs q alive running),
        )
        by_queue [] q =
            let r0 : Reporter P D L E = record r {
              provider = (provider.read_telemetry r.provider).1;
            } in
            let k = write_to_disk-Keeps provider w env m r0 in
            let r1 = write_to_disk provider env w m r0 in
            inr (
              record r1 {
                upload_executor = some (queued e (filtered r1.report_mode.dist_types_to_upload m));
              },
              report_value m (should_read_lem (some e) h ∙ upload_finished-empty e uploader q alive)
                    read
                  ∙ upload_lem (some e) m r1 (k.executor ∙ h)
                  ∙ upload_to-some e m r1 uploader q,
              q,
              ap (λ mode. some (queued e (filtered mode.dist_types_to_upload m))) k.mode,
            )

    -- Without an executor, and without writing to the disk, the telemetry is read and dropped.
    pub report_drops :
        (m : AllStats L (ConnectionStats D) E)
        → r.upload_executor ≡ none
        → r.report_mode.write_local_disk ≡ false
        → (provider.read_telemetry r.provider).0 ≡ value m
        → report ≡ some (record r { provider = (provider.read_telemetry r.provider).1 })
    unfolding write_to_disk upload_to
    report_drops m h disk read =
        let r0 : Reporter P D L E = record r {
          provider = (provider.read_telemetry r.provider).1;
        } in
        report_value m (should_read_lem none h) read
        ∙ ap (upload provider byte_size max_size start_entry w m) (simp (disk))
        ∙ upload_lem none m r0 h

    executor_of : Option (Reporter P D L E) → Option (Executor L (ConnectionStats D) E)
    executor_of none = none
    executor_of (some r') = r'.upload_executor

    stopped_lem :
        (x : Option (Reporter P D L E)) (r' : Reporter P D L E)
        → (x >>= λ r2. some (record r2 { upload_executor = none })) ≡ some r'
        → r'.upload_executor ≡ none
    unfolding executor_of
    stopped_lem none r' h = cc
    stopped_lem (some r2) r' h = sym (ap executor_of h)

    -- The reporter after `flushTelemetry`, if that does not fault.
    abbrev pub flushed : Option (Reporter P D L E)
    flushed = flush_telemetry provider env byte_size max_size start_entry w r

    flushed-none : (r' : Reporter P D L E) → flushed ≡ some r' → r'.upload_executor ≡ none
    unfolding flush_telemetry
    flushed-none r' h =
        stopped_lem
          (read_and_report_telemetry provider env byte_size max_size start_entry w (
            if is_bandwidth_histogram_collection_enabled env
            then process_high_frequency_telemetry provider r
            else r))
          r' h

module _ {P D L E : Type 0} (provider : TelemetryProvider P L (ConnectionStats D) E)
    (byte_size : ByteSize L (ConnectionStats D) E) (max_size : ℕ) (start_entry : L) (w : Outside L)
    (env : Env D) (r : Reporter P D L E) where
  -- A flush ends the uploading for good: a report after it, if nothing is written to the disk, reads
  -- the telemetry from the provider and keeps none of it; the reporter is as before but for the
  -- state of the provider.
  pub flush_then_drop :
      (r' : Reporter P D L E) (w' : Outside L) (m : AllStats L (ConnectionStats D) E)
      → flushed provider byte_size max_size start_entry w env r ≡ some r'
      → r'.report_mode.write_local_disk ≡ false
      → (provider.read_telemetry r'.provider).0 ≡ value m
      → report provider byte_size max_size start_entry w' env r'
        ≡ some (record r' { provider = (provider.read_telemetry r'.provider).1 })
  flush_then_drop r' w' m h disk read =
      report_drops provider byte_size max_size start_entry w' env r' m
        (flushed-none provider byte_size max_size start_entry w env r r' h) disk read
