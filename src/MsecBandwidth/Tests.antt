-- ===== src/MsecBandwidth/Tests.antt =====
-- Runs of src/millisecond_bandwidth_output.cc over whole numbers: two batches of two samples, one NIC.
use gpuviz.Base.{ℕ, ◌≡◌, refl, true, false, none, some, List, [], ◌∷◌, map, Option}
use gpuviz.Base.Faults.{◌>>=◌, for_range}
use gpuviz.Double.{whole_ops}
use gpuviz.MsecBandwidth.{
  MsecBandwidth, Batch, NicData, new_nic_data, copy_over_bandwidth_stats, copy_samples,
  write_sample, put_sample, set_times, save_bandwidth_stats, zero_out_nic_data, copy_to_first,
  copy_vector, rotate_logs,
}

abbrev empty_batch : Batch ℕ
empty_batch = record {
  time_stamp = none;
  process_id = "1";
  nic_data =
      record {
        ip_address = "10.0.0.1";
        tx_bandwidth_data = 0 ∷ 0 ∷ [];
        rx_bandwidth_data = 0 ∷ 0 ∷ [];
      }
      ∷ [];
}

abbrev start : MsecBandwidth ℕ
start = record {
  enabled = true;
  current_time = 4000;
  batch_size_in_msec = 20;
  batch_size_in_samples = 2;
  bucket_size_in_msec = 10;
  batches = empty_batch ∷ empty_batch ∷ [];
  ip_address_to_nic_data_map = ("10.0.0.1", 0 ∷ 0 ∷ []) ∷ [];
  current_batch = 0;
  next_batch = 0;
  batch_times_set = false;
  pid = "1";
  num_rotations = 0;
  out_is_open = true;
  out = [];
  last_rotation_time = 0;
  file_rot_interval = 0;
  time_diff = 0;
}

-- What has been sent, batch by batch.
abbrev sent : MsecBandwidth ℕ → List (Option ℕ × List (List ℕ))
sent m =
    map {A = Batch ℕ} {B = Option ℕ × List (List ℕ)}
      (λ b. (b.time_stamp, map {A = NicData ℕ} {B = List ℕ} (λ d. d.tx_bandwidth_data) b.nic_data))
      m.batches

abbrev told : Option (MsecBandwidth ℕ) → List (Option ℕ × List (List ℕ)) × ℕ
told none = ([], 0)
told (some m) = (sent m, m.next_batch)

abbrev written : Option (MsecBandwidth ℕ) → List (List (Batch ℕ))
written none = []
written (some m) = m.out

-- Three samples fill the first batch and begin the second.
three_samples :
    told (copy_over_bandwidth_stats ⦃o = whole_ops⦄ 0 "10.0.0.1" (7 ∷ 8 ∷ 9 ∷ []) start)
    ≡ ((some 4000, (7 ∷ 8 ∷ []) ∷ []) ∷ (some 4020, (9 ∷ 0 ∷ []) ∷ []) ∷ [], 1)
unfolding copy_over_bandwidth_stats copy_samples write_sample put_sample set_times for_range
three_samples = refl

-- Samples past the last batch are a fault.
five_samples :
    copy_over_bandwidth_stats ⦃o = whole_ops⦄ 0 "10.0.0.1" (7 ∷ 8 ∷ 9 ∷ 10 ∷ 11 ∷ []) start ≡ none
unfolding copy_over_bandwidth_stats copy_samples write_sample put_sample set_times for_range
five_samples = refl

-- If the current batch is still the first, no batch is written, and the samples are zeroed.
abbrev saved : Option (MsecBandwidth ℕ)
saved = copy_over_bandwidth_stats ⦃o = whole_ops⦄ 0 "10.0.0.1" (7 ∷ []) start >>= λ m.
    save_bandwidth_stats ⦃o = whole_ops⦄ 10 true false m

first_batch_zeroed :
    ((told saved).0 ≡ (some 4000, (0 ∷ 0 ∷ []) ∷ []) ∷ (none, (0 ∷ 0 ∷ []) ∷ []) ∷ [])
    × (written saved ≡ [] ∷ [])
unfolding copy_over_bandwidth_stats copy_samples write_sample put_sample set_times for_range
    save_bandwidth_stats zero_out_nic_data copy_to_first copy_vector rotate_logs new_nic_data
first_batch_zeroed = (refl, refl)
