-- ===== src/MsecBandwidth.antt =====
-- src/millisecond_bandwidth_output.cc and .h: the buffer of batches in which the bandwidth of each
-- NIC is kept by the millisecond, and its writing to a file. A vector that is accessed past its end,
-- a null pointer that is followed and a division by zero are a fault, `none`. What is written to the
-- file is a list of messages, and the names of files are not modelled.
-- A pointer of `ip_address_to_nic_data_map_[ip][k]` goes to the data of the NIC in batch `k`, and is
-- its position there. `int32_t` batch numbers are numbers: they stay below the size of the buffer.
mod Tests
use Prim.Native.String.{String}
use text.Mathlib.Text.{◌==◌ as str_eq}
use gpuviz.Base.{
  ℕ, zero, suc, ◌+◌, ◌-◌, ◌*◌, ◌/◌, ◌%◌, Bool, true, false, ◌&&◌, ◌==◌, ltb, Option, none, some,
  List, [], ◌∷◌, ◌++◌, map, length, get_elem?, set, take, replicate, if◌then◌else◌,
}
use gpuviz.Base.Words.{add_u64, sub_u64}
use gpuviz.Base.Faults.{◌>>=◌, update, for_range}
use gpuviz.Base.Int.{of_i64}
use gpuviz.Double.{DoubleOps}
use gpuviz.Params.{Env}
use gpuviz.Params.Settings.{
  is_millisecond_bandwidth_output_enabled, get_millisecond_bandwidth_output_batch_size,
  get_bandwidth_bucket_time_in_milliseconds, get_millisecond_bandwidth_output_rotation_rate,
  get_millisecond_bandwidth_output_interval_in_milliseconds,
}

-- `NicData` and `Batch` of src/proto/millisecond_bw_file_format.proto.
pub record NicData (D : Type 0) : Type 0 where
  pub ip_address : String
  pub tx_bandwidth_data : List D
  pub rx_bandwidth_data : List D

pub record Batch (D : Type 0) : Type 0 where
  pub time_stamp : Option ℕ
  pub process_id : String
  pub nic_data : List (NicData D)

pub record MsecBandwidth (D : Type 0) : Type 0 where
  pub enabled : Bool
  pub current_time : ℕ
  pub batch_size_in_msec : ℕ
  pub batch_size_in_samples : ℕ
  pub bucket_size_in_msec : ℕ
  pub batches : List (Batch D)
  pub ip_address_to_nic_data_map : List (String × List ℕ)
  pub current_batch : ℕ
  pub next_batch : ℕ
  pub batch_times_set : Bool
  pub pid : String
  pub num_rotations : ℕ
  pub out_is_open : Bool
  pub out : List (List (Batch D))
  pub last_rotation_time : ℕ
  pub file_rot_interval : ℕ
  pub time_diff : ℕ

abbrev pub find {ℓ} : {V : Type ℓ} → String → List (String × V) → Option V
find k [] = none
find k ((j, v) ∷ m) = if str_eq j k then some v else find k m

abbrev pub insert {ℓ} : {V : Type ℓ} → String → V → List (String × V) → List (String × V)
insert k v [] = (k, v) ∷ []
insert k v ((j, w) ∷ m) = if str_eq j k then (k, v) ∷ m else (j, w) ∷ insert k v m

abbrev pub or_empty_vector : Option (List ℕ) → List ℕ
or_empty_vector none = []
or_empty_vector (some p) = p

module _ {D : Type 0} ⦃o : DoubleOps D⦄ where
  pub new_nic_data : String → ℕ → NicData D
  new_nic_data ip samples = record {
    ip_address = ip;
    tx_bandwidth_data = replicate samples (o.of_nat 0);
    rx_bandwidth_data = replicate samples (o.of_nat 0);
  }

  -- The constructor, at the time `now`; the interval is divided by the size of a batch, as integers,
  -- and the quotient is multiplied by 1.5.
  pub new : Env D → ℕ → String → Bool → MsecBandwidth D
  new env now pid opened =
      let enabled = is_millisecond_bandwidth_output_enabled env in
      let batch_size = of_i64 (get_millisecond_bandwidth_output_batch_size env) in
      let bucket_size = of_i64 (get_bandwidth_bucket_time_in_milliseconds env) in
      let interval = of_i64 (get_millisecond_bandwidth_output_interval_in_milliseconds env) in
      let no_data : Batch D = record { time_stamp = none; process_id = ""; nic_data = [] } in
      record {
        enabled = enabled;
        current_time = 0;
        batch_size_in_msec = batch_size;
        batch_size_in_samples = batch_size / bucket_size;
        bucket_size_in_msec = bucket_size;
        batches = if enabled then replicate (interval / batch_size * 3 / 2) no_data else [];
        ip_address_to_nic_data_map = [];
        current_batch = 0;
        next_batch = 0;
        batch_times_set = false;
        pid = pid;
        num_rotations = 0;
        out_is_open = enabled && opened;
        out = [];
        last_rotation_time = now;
        file_rot_interval = of_i64 (get_millisecond_bandwidth_output_rotation_rate env);
        time_diff = 0;
      }

  pub allocate_buffer_for_nic : String → MsecBandwidth D → MsecBandwidth D
  allocate_buffer_for_nic ip m = record m {
    batches =
        map {A = Batch D} {B = Batch D}
          (λ b. record b {
            process_id = m.pid;
            nic_data = b.nic_data ++ (new_nic_data ip m.batch_size_in_samples ∷ []);
          })
          m.batches;
    ip_address_to_nic_data_map =
        insert ip (map {A = Batch D} {B = ℕ} (λ b. length b.nic_data) m.batches)
          m.ip_address_to_nic_data_map;
  }

  -- `RegisterCurrentTimeInMilliseconds`; `time_diff_` is an `int64_t` as a bit pattern, and `now` is
  -- what the wall clock says.
  pub register_current_time_in_milliseconds : ℕ → ℕ → MsecBandwidth D → MsecBandwidth D
  register_current_time_in_milliseconds now current_time m =
      let diff = if m.time_diff == 0 then sub_u64 now current_time else m.time_diff in
      record m {
        time_diff = diff;
        current_time = add_u64 diff current_time;
        batch_times_set = false;
        current_batch = m.next_batch;
      }

  pub put_sample : ℕ → ℕ → D → NicData D → Option (NicData D)
  put_sample direction offset datum d =
      if direction == 0
      then (do
        v ← update d.tx_bandwidth_data offset (λ _. datum)
        some (record d { tx_bandwidth_data = v }))
      else (do
        v ← update d.rx_bandwidth_data offset (λ _. datum)
        some (record d { rx_bandwidth_data = v }))

  -- `ip_address_to_nic_data_map_[nic_ip][batch_index]->mutable_..x_bandwidth_data()->Set(offset, datum)`
  pub write_sample : ℕ → List ℕ → ℕ → ℕ → D → List (Batch D) → Option (List (Batch D))
  write_sample direction pointers batch_index offset datum batches = do
    position ← get_elem? pointers batch_index
    b ← get_elem? batches batch_index
    d ← get_elem? b.nic_data position
    d' ← put_sample direction offset datum d
    some (set batches batch_index (record b { nic_data = set b.nic_data position d' }))

  -- The loop over the samples, with `batch_index` and `offset_within_batch`.
  pub copy_samples : ℕ → List ℕ → ℕ → ℕ → ℕ → List D → List (Batch D) → Option (List (Batch D) × ℕ)
  copy_samples direction pointers size batch_index offset [] batches = some (batches, batch_index)
  copy_samples direction pointers size batch_index offset (x ∷ xs) batches =
      write_sample direction pointers batch_index offset x batches >>= λ batches'.
      copy_samples direction pointers size (batch_index + (offset + 1) / size) ((offset + 1) % size)
        xs batches'

  -- The time stamps of the batches from `starting_batch` to `batch_index`.
  pub set_times : ℕ → ℕ → ℕ → ℕ → List (Batch D) → Option (List (Batch D))
  set_times first_batch_time_stamp batch_size_in_msec starting_batch batch_index =
      for_range (batch_index + 1 - starting_batch) starting_batch λ i batches. update batches i λ b.
        record b {
          time_stamp = some (first_batch_time_stamp + (i - starting_batch) * batch_size_in_msec);
        }

  abbrev pub set_missing_times : Bool → ℕ → ℕ → ℕ → ℕ → List (Batch D) → Option (List (Batch D))
  set_missing_times true first size starting_batch batch_index batches = some batches
  set_missing_times false first size starting_batch batch_index batches =
      set_times first size starting_batch batch_index batches

  -- `CopyOverBandwidthStats`. The pointers of an unknown NIC are an empty vector.
  pub copy_over_bandwidth_stats : ℕ → String → List D → MsecBandwidth D → Option (MsecBandwidth D)
  copy_over_bandwidth_stats direction nic_ip samples m = elim (m.batch_size_in_samples == 0) [
    | true ↦ none
    | false ↦ (do
      let milliseconds = m.current_time % 1000
      let offset = (milliseconds / m.bucket_size_in_msec) % m.batch_size_in_samples
      let pointers = or_empty_vector (find nic_ip m.ip_address_to_nic_data_map)
      (batches, batch_index) ←
          copy_samples direction pointers m.batch_size_in_samples m.current_batch offset samples
            m.batches
      let first_time = m.current_time - milliseconds % m.batch_size_in_msec
      batches' ←
          set_missing_times m.batch_times_set first_time m.batch_size_in_msec m.current_batch
            batch_index batches
      some (record m { batches = batches'; next_batch = batch_index; batch_times_set = true }))
  ]

  pub zero_out_nic_data : ℕ → Batch D → Batch D
  zero_out_nic_data samples b = record b {
    nic_data =
        map {A = NicData D} {B = NicData D} (λ d. new_nic_data d.ip_address samples) b.nic_data;
  }

  -- The first samples of a vector, element by element.
  pub copy_vector : ℕ → List D → List D → Option (List D)
  copy_vector samples src dest =
      for_range samples 0 (λ i v. get_elem? src i >>= λ x. update v i (λ _. x)) dest

  -- The data of the current batch go to the first batch, through the pointers.
  pub copy_to_first :
      ℕ → List (String × List ℕ) → List (NicData D) → List (Batch D) → Option (List (Batch D))
  copy_to_first samples pointers [] batches = some batches
  copy_to_first samples pointers (src ∷ rest) batches =
      (do
        p ← find src.ip_address pointers
        position ← get_elem? p 0
        b ← get_elem? batches 0
        d ← get_elem? b.nic_data position
        tx ← copy_vector samples src.tx_bandwidth_data d.tx_bandwidth_data
        rx ← copy_vector samples src.rx_bandwidth_data d.rx_bandwidth_data
        let d' : NicData D = record d { tx_bandwidth_data = tx; rx_bandwidth_data = rx }
        some (set batches 0 (record b { nic_data = set b.nic_data position d' })))
      >>= copy_to_first samples pointers rest

  -- `RotateLogs`, where `opened` says whether the new file could be opened.
  pub rotate_logs : Bool → MsecBandwidth D → MsecBandwidth D
  rotate_logs opened m = record m {
    num_rotations = if m.out_is_open then suc m.num_rotations else m.num_rotations;
    out_is_open = opened;
  }

  abbrev pub rotate_if_due : ℕ → Bool → MsecBandwidth D → MsecBandwidth D
  rotate_if_due now opened m =
      if ltb 0 m.file_rot_interval && ltb m.file_rot_interval (now - m.last_rotation_time)
      then record (rotate_logs opened m) { last_rotation_time = now }
      else m

  abbrev zero_first : ℕ → ℕ → List (Batch D) → List (Batch D)
  zero_first samples zero bs = bs
  zero_first samples (suc n) [] = []
  zero_first samples (suc n) (b ∷ bs) = zero_out_nic_data samples b ∷ zero_first samples n bs

  -- `SaveBandwidthStats`.
  pub save_bandwidth_stats : ℕ → Bool → Bool → MsecBandwidth D → Option (MsecBandwidth D)
  save_bandwidth_stats now opened include_incomplete m =
      let m1 = rotate_if_due now opened m in
      let wanted = if include_incomplete then m1.current_batch + 1 else m1.current_batch in
      let upper_limit = if ltb wanted (length m1.batches) then wanted else length m1.batches in
      let m2 = record m1 {
        out = if m1.out_is_open then m1.out ++ (take upper_limit m1.batches ∷ []) else m1.out;
      } in
      elim include_incomplete [
        | true ↦ some m2
        | false ↦ (do
          let zeroed = zero_first m2.batch_size_in_samples upper_limit m2.batches
          current ← get_elem? zeroed upper_limit
          batches ←
              copy_to_first m2.batch_size_in_samples m2.ip_address_to_nic_data_map current.nic_data
                zeroed
          batches' ← update batches upper_limit (zero_out_nic_data m2.batch_size_in_samples)
          some (record m2 { batches = batches'; current_batch = 0; next_batch = 0 }))
      ]

  -- `CloseOutBandwidthStats`.
  pub close_out_bandwidth_stats : ℕ → Bool → MsecBandwidth D → Option (MsecBandwidth D)
  close_out_bandwidth_stats now opened m = elim m.enabled [
    | false ↦ some m
    | true ↦ (do
      m' ← save_bandwidth_stats now opened true m
      some (record m' { out_is_open = false; enabled = false }))
  ]
