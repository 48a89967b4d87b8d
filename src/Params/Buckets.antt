-- ===== src/Params/Buckets.antt =====
-- src/params.cc: the parameters of the histograms. A literal such as 1.2 is the quotient of 12 and 10,
-- which is the same `double`; `nic_speed` is in gigabits per second.
use Prim.Native.String.{String}
use gpuviz.Base.{ℕ, ◌≡◌, ◌⊎◌, inl, inr, refl, false, Bool-cases, if◌then◌else◌}
use gpuviz.Double.{DoubleOps}
use gpuviz.Params.{Env, BucketerParams, read_double_from_env}

-- The arguments for one of the three values: its variable, its bounds and its default.
pub record Setting (D : Type 0) : Type 0 where
  pub env_var_name : String
  pub min_val : D
  pub max_val : D
  pub default_val : D

module _ {D : Type 0} ⦃o : DoubleOps D⦄ where
  pub read_setting : Env D → Setting D → D
  unfolding read_double_from_env
  read_setting env s =
      read_double_from_env env s.env_var_name s.min_val s.max_val s.default_val s.default_val

  pub get_bucket_params : Env D → Setting D → Setting D → Setting D → BucketerParams D
  unfolding read_setting
  get_bucket_params env max_buckets_setting scale_setting base_setting =
      let max_buckets_read = read_setting env max_buckets_setting in
      let scale_read = read_setting env scale_setting in
      let swapped = o.le max_buckets_read scale_read in
      let max_buckets = if swapped then max_buckets_setting.default_val else max_buckets_read in
      let scale = if swapped then scale_setting.default_val else scale_read in
      let base_read = read_setting env base_setting in
      let base_above_one =
        if o.le base_read (o.of_nat 1) then base_setting.default_val else base_read in
      let base =
        if o.le (o.div max_buckets scale) base_above_one
        then base_setting.default_val
        else base_above_one in
      record { max_buckets = max_buckets; scale = scale; base = base }

  abbrev giga_bits : D → D
  giga_bits nic_speed = o.mul nic_speed (o.of_nat 1000000000)

  -- A setting with the bounds that most have, from `min_val` to the largest double.
  abbrev pub from_min : String → ℕ → D → Setting D
  from_min name min_val default_val = record {
    env_var_name = name;
    min_val = o.of_nat min_val;
    max_val = o.largest;
    default_val = default_val;
  }

  abbrev pub base_default : D
  base_default = o.div (o.of_nat 12) (o.of_nat 10)

  pub get_bucketer_params_for_latency_histogram : Env D → BucketerParams D
  unfolding get_bucket_params
  get_bucketer_params_for_latency_histogram env =
      get_bucket_params env
        (from_min "NCCL_GPUVIZ_GET_MAX_BUCKETS_LATENCY_HISTOGRAM_IN_NANOSECONDS" 1
          (o.of_nat 1000000000))
        (from_min "NCCL_GPUVIZ_GET_SCALE_LATENCY_HISTOGRAM_IN_NANOSECONDS" 1 (o.of_nat 100))
        (from_min "NCCL_GPUVIZ_BUCKET_BASE_LATENCY_HISTOGRAM" 1 base_default)

  pub get_bucketer_params_for_size_histogram : Env D → BucketerParams D
  unfolding get_bucket_params
  get_bucketer_params_for_size_histogram env =
      get_bucket_params env
        (from_min "NCCL_GPUVIZ_GET_MAX_BUCKETS_SIZE_HISTOGRAM_IN_BYTES" 1 (o.of_nat 10000000))
        (from_min "NCCL_GPUVIZ_GET_SCALE_SIZE_HISTOGRAM_IN_BYTES" 1 (o.of_nat 1))
        (from_min "NCCL_GPUVIZ_BUCKET_BASE_SIZE_HISTOGRAM" 1 base_default)

  pub get_bucketer_params_for_bw_histogram : Env D → D → BucketerParams D
  unfolding get_bucket_params
  get_bucketer_params_for_bw_histogram env nic_speed =
      get_bucket_params env
        (from_min "NCCL_GPUVIZ_GET_MAX_BUCKETS_BW_HISTOGRAM_IN_BITS_PER_SEC" 1
          (giga_bits nic_speed))
        (from_min "NCCL_GPUVIZ_GET_SCALE_BW_HISTOGRAM_IN_BITS_PER_SEC" 1 (o.of_nat 1))
        (from_min "NCCL_GPUVIZ_BUCKET_BASE_BW_HISTOGRAM" 1 base_default)

  pub get_bucketer_params_for_nic_bw_histogram : Env D → D → BucketerParams D
  unfolding get_bucket_params
  get_bucketer_params_for_nic_bw_histogram env nic_speed =
      get_bucket_params env
        (from_min "NCCL_GPUVIZ_GET_MAX_BUCKETS_NIC_BW_HISTOGRAM_IN_BITS_PER_SEC" 1
          (giga_bits nic_speed))
        (from_min "NCCL_GPUVIZ_GET_SCALE_NIC_BW_HISTOGRAM_IN_BITS_PER_SEC" 1 (o.of_nat 1))
        (from_min "NCCL_GPUVIZ_BUCKET_BASE_NIC_BW_HISTOGRAM" 1 base_default)

  pub get_bucketer_params_for_nic_bw_variance_histogram : Env D → D → BucketerParams D
  unfolding get_bucket_params
  get_bucketer_params_for_nic_bw_variance_histogram env nic_speed =
      get_bucket_params env
        (from_min "NCCL_GPUVIZ_GET_MAX_BUCKETS_NIC_BW_VARIANCE_HISTOGRAM_IN_BITS_PER_SEC" 0
          (giga_bits nic_speed))
        (from_min "NCCL_GPUVIZ_GET_SCALE_NIC_BW_VARIANCE_HISTOGRAM_IN_BITS_PER_SEC" 0 (o.of_nat 1))
        (from_min "NCCL_GPUVIZ_BUCKET_BASE_NIC_BW_VARIANCE_HISTOGRAM" 1 base_default)

  pub get_bucketer_params_for_nic_latency_variance_histogram : Env D → BucketerParams D
  unfolding get_bucket_params
  get_bucketer_params_for_nic_latency_variance_histogram env =
      get_bucket_params env
        (from_min "NCCL_GPUVIZ_GET_MAX_BUCKETS_NIC_LATENCY_VARIANCE_HISTOGRAM_IN_NANOSECONDS" 1
          (o.of_nat 1000000000))
        (from_min "NCCL_GPUVIZ_GET_SCALE_NIC_LATENCY_VARIANCE_HISTOGRAM_IN_NANOSECONDS" 1
          (o.of_nat 100))
        (from_min "NCCL_GPUVIZ_BUCKET_BASE_NIC_LATENCY_VARIANCE_HISTOGRAM" 1 base_default)

  pub get_baseline_latency_in_nanosec : Env D → D
  unfolding read_double_from_env
  get_baseline_latency_in_nanosec env =
      read_double_from_env env "NCCL_GPUVIZ_BASELINE_LATENCY_IN_NANOSECOND" o.smallest_positive
        o.largest (o.of_nat 10000) (o.of_nat 10000)

  -- The pair of the maximal and the target bandwidth.
  pub get_max_and_target_bw_per_nic_in_bits_per_sec : Env D → D → D → D × D
  unfolding read_double_from_env
  get_max_and_target_bw_per_nic_in_bits_per_sec env nic_speed empr_nic_speed =
      let max_bw =
        read_double_from_env env "NCCL_GPUVIZ_MAX_BW_PER_NIC_IN_BITS_PER_SEC" (o.of_nat 1) o.largest
          (giga_bits nic_speed) (giga_bits nic_speed) in
      (
        max_bw,
        read_double_from_env env "NCCL_GPUVIZ_TARGET_BW_PER_NIC_IN_BITS_PER_SEC" (o.of_nat 1) max_bw
            (giga_bits empr_nic_speed) (giga_bits empr_nic_speed),
      )

  -- For any environment: if the defaults of `max_buckets` and `scale` are in order and the default of
  -- `base` is above 1, so are the values returned. The base is below the quotient of the two, or it is
  -- the default.
  pub get_bucket_params-in_order :
      (env : Env D) (max_buckets scale base : Setting D)
      → o.le max_buckets.default_val scale.default_val ≡ false
      → o.le base.default_val (o.of_nat 1) ≡ false
      → let p = get_bucket_params env max_buckets scale base in
        (o.le p.max_buckets p.scale ≡ false)
        × (o.le p.base (o.of_nat 1) ≡ false)
        × ((o.le (o.div p.max_buckets p.scale) p.base ≡ false) ⊎ (p.base ≡ base.default_val))
  unfolding get_bucket_params
  get_bucket_params-in_order env max_buckets scale base hm hb = (
    order (read_setting env max_buckets) (read_setting env scale),
    above_one (read_setting env base) _,
    below_quotient (read_setting env base) _,
  )
    where
      order :
          (m s : D)
          → let c = o.le m s in
            o.le (if c then max_buckets.default_val else m) (if c then scale.default_val else s)
            ≡ false
      order m s = elim (Bool-cases (o.le m s)) [ inl e ↦ rw e hm | inr e ↦ rw (e, e) ]

      above_one :
          (b q : D)
          → let b' = if o.le b (o.of_nat 1) then base.default_val else b in
            o.le (if o.le q b' then base.default_val else b') (o.of_nat 1) ≡ false
      above_one b q = elim (Bool-cases (o.le b (o.of_nat 1))) [
        | inl e ↦ elim (Bool-cases (o.le q base.default_val)) [
          | inl f ↦ rw (e, f) hb
          | inr f ↦ rw (e, f) hb
        ]
        | inr e ↦ elim (Bool-cases (o.le q b)) [ inl f ↦ rw (e, f) hb | inr f ↦ rw (e, f) e ]
      ]

      below_quotient :
          (b q : D)
          → let b' = if o.le b (o.of_nat 1) then base.default_val else b in
            let r = if o.le q b' then base.default_val else b' in
            (o.le q r ≡ false) ⊎ (r ≡ base.default_val)
      below_quotient b q = elim (Bool-cases (o.le b (o.of_nat 1))) [
        | inl e ↦ elim (Bool-cases (o.le q base.default_val)) [
          | inl f ↦ rw (e, f) (inr refl)
          | inr f ↦ rw (e, f) (inr refl)
        ]
        | inr e ↦ elim (Bool-cases (o.le q b)) [
          | inl f ↦ rw (e, f) (inr refl)
          | inr f ↦ rw (e, f) (inl f)
        ]
      ]
