-- ===== src/Config.antt =====
-- internal/config/file.go: the parts that the two configurations share. The environment, the set of
-- flags given on the command line and the file are parameters.
pub mod Precedence
pub mod Agent
pub mod Server
pub mod Tests
use metrics_alerting_service.Prelude.{
  ℕ, zero, suc, String, ◌==◌, Bool, true, false, Option, none, some, not, if◌then◌else◌,
}
use metrics_alerting_service.Errors.{Error, Result, ok, err}

-- A Go `int`. `negsuc n` is -(n + 1).
pub data ℤ : Type 0 where
  pos : ℕ → ℤ
  negsuc : ℕ → ℤ

-- n <= 0
abbrev pub is_nonpositive : ℤ → Bool
is_nonpositive (pos zero) = true
is_nonpositive (pos (suc n)) = false
is_nonpositive (negsuc n) = true

-- `os.LookupEnv`, `strconv.Atoi`, `strconv.ParseBool`, and `time.ParseDuration` followed by
-- `int(d.Seconds())`.
pub record Os : Type 0 where
  pub lookup_env : String → Option String
  pub atoi : String → Option ℤ
  pub parse_bool : String → Option Bool
  pub parse_duration_seconds : String → Result ℤ

-- `resolveConfigPath`: the variable CONFIG, also if it is empty, before the flag
unfoldable pub resolve_config_path : Os → String → String
resolve_config_path os flag_value = elim (os.lookup_env "CONFIG") [ some v ↦ v | none ↦ flag_value ]

-- `loadConfigFile`: an empty path is no file; `read` reads and decodes the file at a path
unfoldable pub load_config_file {ℓ} : {A : Type ℓ} → (String → Result A) → A → String → Result A
load_config_file read empty path = if path == "" then ok empty else read path

-- `if fc.X != nil && !set[flag] { cfg.X = *fc.X }`
abbrev pub from_file {ℓ} : {A : Type ℓ} → Option A → Bool → A → A
from_file none is_flag old = old
from_file (some v) is_flag old = if is_flag then old else v

-- the same for a duration, which has to parse unless the flag is set
abbrev pub seconds_from_file : Os → Option String → Bool → ℤ → Result ℤ
seconds_from_file os none is_flag old = ok old
seconds_from_file os (some v) is_flag old = if is_flag then ok old else os.parse_duration_seconds v

-- `if v, ok := os.LookupEnv(name); ok { cfg.X = v }`
abbrev pub from_env : Os → String → String → String
from_env os name old = elim (os.lookup_env name) [ some v ↦ v | none ↦ old ]

abbrev pub parsed_or {ℓ} : {A : Type ℓ} → Option A → A → A
parsed_or none old = old
parsed_or (some v) old = v

-- the same for a number and a truth value: one that does not parse is ignored
abbrev pub int_from_env : Os → String → ℤ → ℤ
int_from_env os name old = elim (os.lookup_env name) [
  | some v ↦ parsed_or (os.atoi v) old
  | none ↦ old
]

abbrev pub bool_from_env : Os → String → Bool → Bool
bool_from_env os name old = elim (os.lookup_env name) [
  | some v ↦ parsed_or (os.parse_bool v) old
  | none ↦ old
]

abbrev pub is_set {ℓ} : {A : Type ℓ} → Option A → Bool
is_set none = false
is_set (some v) = true

abbrev pub or_default {ℓ} : {A : Type ℓ} → Option A → A → A
or_default none d = d
or_default (some v) d = v
