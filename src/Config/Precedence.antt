-- ===== src/Config/Precedence.antt =====
-- The precedence of the sources of a setting: environment, flag, file, default.
use metrics_alerting_service.Prelude.{String, ◌≡◌, Bool, Option, none, some, arith}
use metrics_alerting_service.Errors.{Result, ok, err}
use metrics_alerting_service.Config.{
  ℤ, Os, from_file, seconds_from_file, from_env, int_from_env, bool_from_env, is_set, or_default,
}

-- The first of three sources that is there, or the default.
abbrev pub pick {ℓ} : {A : Type ℓ} → Option A → Option A → Option A → A → A
pick (some env) flag file d = env
pick none (some flag) file d = flag
pick none none (some file) d = file
pick none none none d = d

-- A number or a truth value in the environment, if it parses.
abbrev pub env_int : Os → String → Option ℤ
env_int os name = elim (os.lookup_env name) [ some v ↦ os.atoi v | none ↦ none ]

abbrev pub env_bool : Os → String → Option Bool
env_bool os name = elim (os.lookup_env name) [ some v ↦ os.parse_bool v | none ↦ none ]

abbrev value_of {ℓ} : {A : Type ℓ} → Result A → Option A
value_of (ok a) = some a
value_of (err e) = none

-- A duration in the file, in seconds.
abbrev pub file_seconds : Os → Option String → Option ℤ
file_seconds os none = none
file_seconds os (some text) = value_of (os.parse_duration_seconds text)

module _ (os : Os) (name : String) where
  pub from_env-pick :
      (flag file : Option String) (d : String)
      → from_env os name (from_file file (is_set flag) (or_default flag d))
        ≡ pick (os.lookup_env name) flag file d
  from_env-pick flag file d = ground arith

  pub bool_from_env-pick :
      (flag file : Option Bool) (d : Bool)
      → bool_from_env os name (from_file file (is_set flag) (or_default flag d))
        ≡ pick (env_bool os name) flag file d
  bool_from_env-pick flag file d = ground arith

  pub int_from_env-pick :
      (flag file : Option ℤ) (d : ℤ)
      → int_from_env os name (from_file file (is_set flag) (or_default flag d))
        ≡ pick (env_int os name) flag file d
  int_from_env-pick flag file d = ground arith

  pub seconds-pick :
      (flag : Option ℤ) (file : Option String) (d n : ℤ)
      → seconds_from_file os file (is_set flag) (or_default flag d) ≡ ok n
      → int_from_env os name n ≡ pick (env_int os name) flag (file_seconds os file) d
  seconds-pick flag file d n h = ground arith
