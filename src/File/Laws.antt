-- ===== src/File/Laws.antt =====
-- What the file storage relies on: the documented behaviour of `os`, of `encoding/json` and of
-- `range` over a map.
use metrics_alerting_service.Prelude.{
  ℕ, String, ◌≡◌, ◌≢◌, Bool, true, false, ◌&&◌, Option, none, some, List, [], ◌∷◌, ◌==◌,
  if◌then◌else◌,
}
use metrics_alerting_service.Dict.{Dict, Enumerates}
use metrics_alerting_service.Model.{Metrics, is_finite}
use metrics_alerting_service.Errors.{Error, ok, err}
use metrics_alerting_service.File.{FileSystem, Codec}

-- The contents of a file, if it exists, and what each call does to them. Nothing is said of a file
-- whose write or removal failed.
pub record FileSystemLaws {B W : Type 0} (fs : FileSystem B W) : Type 0 where
  pub empty : B
  pub contents : W → String → Option B
  pub create_temp_new : (d t : String) (w : W) → (fs.create_temp d w).0 ≡ ok t → contents w t ≡ none
  pub create_temp_ok :
      (d t : String) (w : W) (j : String)
      → (fs.create_temp d w).0 ≡ ok t
      → contents (fs.create_temp d w).1 j ≡ (if t == j then some empty else contents w j)
  pub create_temp_err :
      (d : String) (e : Error) (w : W) (j : String)
      → (fs.create_temp d w).0 ≡ err e
      → contents (fs.create_temp d w).1 j ≡ contents w j
  pub write_ok :
      (t : String) (new : B) (w : W)
      → contents w t ≡ some empty
      → (fs.write t new w).0 ≡ none
      → contents (fs.write t new w).1 t ≡ some new
  pub write_other :
      (t j : String) (new : B) (w : W) → t ≢ j → contents (fs.write t new w).1 j ≡ contents w j
  pub close_lem : (t j : String) (w : W) → contents (fs.close t w).1 j ≡ contents w j
  pub remove_other : (t j : String) (w : W) → t ≢ j → contents (fs.remove t w).1 j ≡ contents w j
  pub rename_ok :
      (t f : String) (w : W)
      → (fs.rename t f w).0 ≡ none
      → contents (fs.rename t f w).1 f ≡ contents w t
  pub rename_err :
      (t f : String) (e : Error) (w : W) (j : String)
      → (fs.rename t f w).0 ≡ some e
      → contents (fs.rename t f w).1 j ≡ contents w j
  pub read_file_lem :
      (f : String) (b : B) (w : W) → contents w f ≡ some b → (fs.read_file f w).0 ≡ ok b

-- JSON has no infinity and no NaN.
abbrev pub is_encodable : Metrics → Bool
is_encodable m = elim m.value [ none ↦ true | some v ↦ is_finite v ]

abbrev pub are_encodable : List Metrics → Bool
are_encodable [] = true
are_encodable (m ∷ ms) = is_encodable m && are_encodable ms

-- Encoding fails exactly on a value that JSON cannot hold, and what was encoded is decoded.
pub record CodecLaws {B : Type 0} (json : Codec B) : Type 0 where
  pub unsupported : Error
  pub marshal_ok :
      (ms : List Metrics) → are_encodable ms ≡ true → (b : B) × (json.marshal ms ≡ ok b)
  pub marshal_err :
      (ms : List Metrics) → are_encodable ms ≡ false → json.marshal ms ≡ err unsupported
  pub unmarshal-marshal :
      (ms : List Metrics) (b : B) → json.marshal ms ≡ ok b → json.unmarshal b ≡ ok ms

-- `range` goes through every entry once, in some order.
abbrev pub IsRange : (Dict ℕ → Dict ℕ) → Type 0
IsRange range = (m : Dict ℕ) → Enumerates (range m) m
