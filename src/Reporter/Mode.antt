-- ===== src/Reporter/Mode.antt =====
-- src/nccl_stats_reporter.cc: `DetermineReportMode`, which decides from the settings whether telemetry
-- is written to the local disk and which histograms are uploaded. A set of types is a list.
use Prim.Native.String.{String}
use text.Mathlib.Text.{◌==◌ as str_eq}
use gpuviz.Base.{ℕ, ◌≡◌, ◌≢◌, refl, Bool, true, false, List, [], ◌∷◌, if◌then◌else◌, inl, inr, ◌⊎◌}
use gpuviz.Base.Faults.{Status, ok, failed_precondition}
use gpuviz.Params.{Env}
use gpuviz.Params.Settings.{
  get_plugin_telemetry_mode, is_send_latency_upload_enabled, is_recv_latency_upload_enabled,
  is_send_message_size_upload_enabled, is_recv_message_size_upload_enabled,
  is_send_bandwidth_upload_enabled, is_recv_bandwidth_upload_enabled,
  is_bandwidth_variance_upload_enabled, is_latency_variance_upload_enabled,
}
use gpuviz.Stats.{
  TelemetryMode, off, reserved, write_on_local_disk_only, upload_only_controlled_by_mds,
  both_write_and_upload_controlled_by_mds, undefined,
}
use gpuviz.Stats.Idx

pub record ReportMode : Type 0 where
  pub write_local_disk : Bool
  pub dist_types_to_upload : List ℕ

-- `DetermineWriteOnDiskBehavior`, for the mode that the settings give. The log messages are left out.
pub determine_write_on_disk_behavior : TelemetryMode → ReportMode → Status × ReportMode
determine_write_on_disk_behavior off r = (failed_precondition, r)
determine_write_on_disk_behavior reserved r = (ok, record r { write_local_disk = false })
determine_write_on_disk_behavior undefined r = (ok, record r { write_local_disk = false })
determine_write_on_disk_behavior upload_only_controlled_by_mds r =
    (ok, record r { write_local_disk = false })
determine_write_on_disk_behavior write_on_local_disk_only r =
    (ok, record r { write_local_disk = true })
determine_write_on_disk_behavior both_write_and_upload_controlled_by_mds r =
    (ok, record r { write_local_disk = true })

abbrev pub is_disk_only : TelemetryMode → Bool
is_disk_only write_on_local_disk_only = true
is_disk_only _ = false

-- `if (enabled) dist_types_to_upload.insert(t)`.
abbrev pub insert_if : Bool → ℕ → List ℕ → List ℕ
insert_if enabled t ts = if enabled then t ∷ ts else ts

module _ {D : Type 0} (env : Env D) where
  pub upload_types : List ℕ
  upload_types = insert_if (is_latency_variance_upload_enabled env) Idx.latency_variance (
      insert_if (is_bandwidth_variance_upload_enabled env) Idx.bandwidth_variance (
        insert_if (is_recv_bandwidth_upload_enabled env) Idx.recv_bandwidth (
          insert_if (is_send_bandwidth_upload_enabled env) Idx.send_bandwidth (
            insert_if (is_recv_message_size_upload_enabled env) Idx.recv_message_size (
              insert_if (is_send_message_size_upload_enabled env) Idx.send_message_size (
                insert_if (is_recv_latency_upload_enabled env) Idx.recv_latency_sw
                  (insert_if (is_send_latency_upload_enabled env) Idx.send_latency_sw [])))))))

  -- `DetermineUploadBehavior`, with the override that only tests set.
  pub determine_upload_behavior : String → ReportMode → ReportMode
  determine_upload_behavior uploader_opt_in_override r = record r {
    dist_types_to_upload =
        if is_disk_only (get_plugin_telemetry_mode env)
        then []
        else if str_eq uploader_opt_in_override "off"
        then []
        else upload_types;
  }

  -- `DetermineReportMode`.
  pub determine_report_mode : String → ReportMode → Status × ReportMode
  determine_report_mode uploader_opt_in_override r =
      let (s, r') = determine_write_on_disk_behavior (get_plugin_telemetry_mode env) r in
      elim s [ ok ↦ (ok, determine_upload_behavior uploader_opt_in_override r') | e ↦ (e, r') ]

abbrev pub initial_mode : ReportMode
initial_mode = record { write_local_disk = false; dist_types_to_upload = [] }

-- What the user has asked for by the mode.
pub wants_disk : TelemetryMode → Bool
wants_disk write_on_local_disk_only = true
wants_disk both_write_and_upload_controlled_by_mds = true
wants_disk _ = false

-- What a decision on the mode `m` says.
abbrev pub Decides : TelemetryMode → Status × ReportMode → Type 0
Decides m (s, r) =
    ((s ≡ failed_precondition) × (m ≡ off))
    ⊎ ((s ≡ ok)
        × (m ≢ off)
        × (r.write_local_disk ≡ wants_disk m)
        × (m ≡ write_on_local_disk_only → r.dist_types_to_upload ≡ []))

module _ {D : Type 0} (env : Env D) where
  decides_lem :
      (m : TelemetryMode) (override : String)
      → Decides m (
          let (s, r) = determine_write_on_disk_behavior m initial_mode in
          elim s as (λ _. Status × ReportMode) [
            | ok ↦ (
              ok,
              record r {
                dist_types_to_upload =
                    if is_disk_only m
                    then []
                    else if str_eq override "off"
                    then []
                    else upload_types env;
              },
            )
            | e ↦ (e, r)
          ])
  unfolding determine_write_on_disk_behavior wants_disk
  decides_lem off override = inl (refl, refl)
  decides_lem reserved override = inr (refl, λ h. cc, refl, λ h. cc)
  decides_lem write_on_local_disk_only override = inr (refl, λ h. cc, refl, λ h. refl)
  decides_lem upload_only_controlled_by_mds override = inr (refl, λ h. cc, refl, λ h. cc)
  decides_lem both_write_and_upload_controlled_by_mds override = inr (refl, λ h. cc, refl, λ h. cc)
  decides_lem undefined override = inr (refl, λ h. cc, refl, λ h. cc)

  -- For any environment: the initialisation fails exactly in the mode off; else telemetry is written to
  -- the disk exactly in the two modes that say so, and nothing is uploaded in the mode that keeps it
  -- on the disk.
  pub determine_report_mode-Decides :
      (override : String)
      → Decides (get_plugin_telemetry_mode env) (determine_report_mode env override initial_mode)
  unfolding determine_report_mode determine_upload_behavior
  determine_report_mode-Decides override = decides_lem (get_plugin_telemetry_mode env) override
