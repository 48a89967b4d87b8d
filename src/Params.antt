-- ===== src/Params.antt =====
-- src/params.h and src/params.cc: what the environment configures. `getenv` and the parsers of absl
-- are parameters. An `int64_t` or `int32_t` is an integer of the range that its parser keeps to.
pub mod Settings
pub mod Buckets
mod Tests
use Prim.Native.String.{String, len}
use gpuviz.Base.{ℕ, Bool, false, Option, none, some, ◌==◌, ◌&&◌, not, if◌then◌else◌}
use gpuviz.Base.Int.{ℤ, pos, leb_ℤ}
use gpuviz.Double.{DoubleOps}

-- `getenv`, `absl::SimpleAtoi` for the two widths, and `absl::SimpleAtod`.
pub record Env (D : Type 0) : Type 0 where
  pub getenv : String → Option String
  pub simple_atoi64 : String → Option ℤ
  pub simple_atoi32 : String → Option ℤ
  pub simple_atod : String → Option D

-- `NumericParam`; `fallback` is the value that the function gives, if there is one.
pub record NumericParam (T : Type 0) : Type 0 where
  pub env_name : String
  pub min : T
  pub max : T
  pub default_value : T
  pub wrong_input_value : T
  pub fallback : Option T

-- `BucketerParams`.
pub record BucketerParams (D : Type 0) : Type 0 where
  pub max_buckets : D
  pub scale : D
  pub base : D

-- The test that all the readers make of a variable that is set: a value within its bounds, or none.
pub valid_value : {T : Type 0} → (T → T → Bool) → (String → Option T) → String → T → T → Option T
valid_value le parse str min max = if len str == 0 then none else elim (parse str) [
  | none ↦ none
  | some value ↦ if le min value && le value max then some value else none
]

abbrev pub value_or : {T : Type 0} → Option T → T → T
value_or none d = d
value_or (some v) d = v

-- `ReadNumericFromEnv`, for a type with its order and its parser.
pub read_numeric_from_env :
    {D T : Type 0} → (T → T → Bool) → (String → Option T) → Env D → NumericParam T → T
unfolding valid_value
read_numeric_from_env le parse env param = elim (env.getenv param.env_name) [
  | none ↦ value_or param.fallback param.default_value
  | some str ↦ value_or (valid_value le parse str param.min param.max) param.wrong_input_value
]

pub read_int_from_env : {D : Type 0} → Env D → String → ℤ → ℤ → ℤ → ℤ → ℤ
unfolding valid_value
read_int_from_env env env_name min_value max_value default_value wrong_input_value =
    elim (env.getenv env_name) [
      | none ↦ default_value
      | some str ↦
          value_or (valid_value leb_ℤ env.simple_atoi64 str min_value max_value) wrong_input_value
    ]

-- A `bool` is 0 or 1.
pub read_bool_from_env : {D : Type 0} → Env D → String → Bool → Bool
unfolding read_int_from_env
read_bool_from_env env env_name default_value =
    let d = if default_value then pos 1 else pos 0 in
    not (is_zero (read_int_from_env env env_name (pos 0) (pos 1) d d))
  where
    is_zero : ℤ → Bool
    is_zero (pos n) = n == 0
    is_zero _ = false

pub read_int_from_env_with_fallback_function : {D : Type 0} → Env D → String → ℤ → ℤ → ℤ
read_int_from_env_with_fallback_function env env_name min_value fallback =
    elim (env.getenv env_name) [
      | none ↦ fallback
      | some str ↦ if len str == 0 then fallback else elim (env.simple_atoi64 str) [
        | none ↦ fallback
        | some value ↦ if leb_ℤ min_value value then value else fallback
      ]
    ]

module _ {D : Type 0} ⦃o : DoubleOps D⦄ where
  pub read_double_from_env : Env D → String → D → D → D → D → D
  unfolding valid_value
  read_double_from_env env env_name min_value max_value default_value wrong_input_value =
      elim (env.getenv env_name) [
        | none ↦ default_value
        | some str ↦
            value_or (valid_value o.le env.simple_atod str min_value max_value) wrong_input_value
      ]
