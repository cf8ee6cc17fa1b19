-- ===== src/File/Example.antt =====
-- A file system, a codec and an order of `range` that keep the laws: files are a function, a text is
-- the list of metrics that it encodes, and `range` goes in the order of first insertion.
use metrics_alerting_service.Prelude.{
  String, ◌≡◌, refl, Option, none, some, List, [], ◌∷◌, ◌==◌, eq_iff, eq_refl, if◌then◌else◌, arith,
  ℕ,
}
use metrics_alerting_service.Dict.{Dict, get, HasUniqueKeys, Enumerates}
use metrics_alerting_service.Model.{Metrics}
use metrics_alerting_service.Errors.{Error, other, Result, ok, err}
use metrics_alerting_service.File.{FileSystem, Codec}
use metrics_alerting_service.File.Laws.{FileSystemLaws, CodecLaws, are_encodable}

abbrev pub Text : Type 0
Text = List Metrics

abbrev pub Files : Type 0
Files = String → Option Text

abbrev pub set_file : String → Option Text → Files → Files
set_file t x w j = if t == j then x else w j

abbrev create : Option Text → Files → Result String × Files
create none w = (ok "tmp", set_file "tmp" (some []) w)
create (some _) w = (err (other "file exists"), w)

abbrev overwrite : Option Text → String → Text → Files → Option Error × Files
overwrite none t new w = (some (other "no such file"), w)
overwrite (some _) t new w = (none, set_file t (some new) w)

abbrev move : Option Text → String → String → Files → Option Error × Files
move none t f w = (some (other "no such file"), w)
move (some x) t f w = (none, set_file f (some x) (set_file t none w))

abbrev read : Option Text → Result Text
read none = err (other "no such file")
read (some x) = ok x

abbrev pub files : FileSystem Text Files
files = record {
  dir = λ f. "/tmp";
  create_temp = λ d w. create (w "tmp") w;
  write = λ t new w. overwrite (w t) t new w;
  close = λ t w. (none, w);
  remove = λ t w. (none, set_file t none w);
  rename = λ t f w. move (w t) t f w;
  read_file = λ f w. (read (w f), w);
}

pub files_laws : FileSystemLaws files
files_laws = record {
  empty = [];
  contents = λ w j. w j;
  create_temp_new = λ d t w h. ground arith;
  create_temp_ok = λ d t w j h. ground arith;
  create_temp_err = λ d e w j h. ground arith;
  write_ok = λ t new w h e. ground (arith, eq_refl t);
  write_other = λ t j new w h. ground (arith, eq_iff t j);
  close_lem = λ t j w. refl;
  remove_other = λ t j w h. ground (arith, eq_iff t j);
  rename_ok = λ t f w h. ground (arith, eq_refl f);
  rename_err = λ t f e w j h. ground arith;
  read_file_lem = λ f b w h. ground arith;
}

pub contents-files : (w : Files) (j : String) → files_laws.contents w j ≡ w j
unfolding files_laws
contents-files w j = refl

abbrev pub codec : Codec Text
codec = record {
  marshal = λ ms. if are_encodable ms then ok ms else err (other "unsupported value");
  unmarshal = λ b. ok b;
}

pub codec_laws : CodecLaws codec
codec_laws = record {
  unsupported = other "unsupported value";
  marshal_ok = λ ms h. (ms, ground arith);
  marshal_err = λ ms h. ground arith;
  unmarshal-marshal = λ ms b h. ground arith;
}

without : String → Dict ℕ → Dict ℕ
without k [] = []
without k ((j, v) ∷ m) = let rest = without k m in if j == k then rest else (j, v) ∷ rest

get-without : (k j : String) (m : Dict ℕ) → get j (without k m) ≡ (if k == j then none else get j m)
unfolding get without
get-without k j [] = ground arith
get-without k j ((i, v) ∷ m) = ground (arith, get-without k j m, eq_iff i k, eq_iff i j, eq_iff k j)

without_unique : (k : String) (m : Dict ℕ) → HasUniqueKeys m → HasUniqueKeys (without k m)
unfolding without
without_unique k [] u = tt
without_unique k ((j, v) ∷ m) u =
    ground (arith, without_unique k m u.1, get-without k j m, eq_iff k j)

-- each key once, with the value that `get` finds
unfoldable pub in_order : Dict ℕ → Dict ℕ
unfolding without
in_order [] = []
in_order ((k, v) ∷ m) = (k, v) ∷ without k (in_order m)

in_order_unique : (m : Dict ℕ) → HasUniqueKeys (in_order m)
unfolding in_order
in_order_unique [] = tt
in_order_unique ((k, v) ∷ m) = (
  rw (get-without k k (in_order m), eq_refl k),
  without_unique k (in_order m) (in_order_unique m),
)

get-in_order : (k : String) (m : Dict ℕ) → get k (in_order m) ≡ get k m
unfolding in_order get
get-in_order k [] = refl
get-in_order k ((j, v) ∷ m) = ground (arith, get-without j k (in_order m), get-in_order k m)

pub in_order-Enumerates : (m : Dict ℕ) → Enumerates (in_order m) m
in_order-Enumerates m = record { unique = in_order_unique m; same = λ k. get-in_order k m }
