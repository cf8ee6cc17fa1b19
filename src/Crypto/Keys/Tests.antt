-- ===== src/Crypto/Keys/Tests.antt =====
-- Keys in files: a file holds the bytes of its block, and the one pair of keys is 1 and 2.
use metrics_alerting_service.Prelude.{
  ℕ, String, ◌≡◌, ◌≢◌, refl, ap, sym, ◌∙◌, Option, none, some, [], ◌∷◌, eq_iff, eq_refl, arith,
}
use metrics_alerting_service.Errors.{Error, Result, ok, err, Bytes, malformed}
use metrics_alerting_service.Dict.{Dict, get, put, get-put}
use metrics_alerting_service.Crypto.Keys.{Key, rsa, X509, Files}
use metrics_alerting_service.Crypto.Keys.Loaded.{FilesLaws}

abbrev pub first_byte : Bytes → Result ℕ
first_byte [] = err malformed
first_byte (b ∷ bs) = ok b

abbrev pub as_key : Result ℕ → Result (Key ℕ)
as_key (err e) = err e
as_key (ok k) = ok (rsa k)

abbrev pub x509 : X509 ℕ ℕ
x509 = record {
  parse_pkix_public_key = λ b. as_key (first_byte b);
  parse_pkcs1_public_key = first_byte;
  parse_pkcs8_private_key = λ b. as_key (first_byte b);
  parse_pkcs1_private_key = first_byte;
  marshal_pkcs8_private_key = λ k. ok (k ∷ []);
  marshal_pkix_public_key = λ k. ok (k ∷ []);
}

abbrev pub or_missing : Option Bytes → Result Bytes
or_missing none = err malformed
or_missing (some b) = ok b

abbrev pub files : Files ℕ ℕ (Dict Bytes)
files = record {
  read_file = λ path s. or_missing (get path s);
  open_file = λ path perm s. (none, put path [] s);
  encode = λ path b s. (none, put path b.bytes s);
  close = λ path s. (none, s);
  decode = λ text. some (record { block_type = ""; bytes = text });
  generate_key = λ bits s. (ok 2, s);
  public_key = λ k. 1;
}

get-put_same : (k : String) (v : Bytes) (m : Dict Bytes) → get k (put k v m) ≡ some v
get-put_same k v m = ground (arith, get-put k k v m, eq_refl k)

get-put_other : (k j : String) (v : Bytes) (m : Dict Bytes) → k ≢ j → get j (put k v m) ≡ get j m
get-put_other k j v m ne = ground (arith, get-put k j v m, eq_iff k j, ne)

marshalled :
    (k : ℕ) (der : Bytes)
    → Path (Result Bytes) (ok (k ∷ [])) (ok der)
    → as_key (first_byte der) ≡ ok (rsa k)
marshalled k der h = ap (λ (r : Result Bytes). as_key (first_of r)) (sym h)
  where
    first_of : Result Bytes → Result ℕ
    first_of (ok b) = first_byte b
    first_of (err e) = err e

pub laws : FilesLaws x509 files
laws = record {
  written = λ path b perm s s1 s2 s3 o e c. (
    b.bytes,
    record { block_type = ""; bytes = b.bytes },
    ap (λ (x : Option Error × Dict Bytes). or_missing (get path x.1)) (sym (e ∙ c))
        ∙ ap or_missing (get-put_same path b.bytes s1),
    refl,
    refl,
  );
  opened_elsewhere = λ path q perm s ne. ap or_missing (get-put_other path q [] s ne);
  encoded_elsewhere = λ path q b s ne. ap or_missing (get-put_other path q b.bytes s ne);
  closed_elsewhere = λ path q s ne. refl;
  pkcs8 = marshalled;
  pkix = marshalled;
}

abbrev disk : Dict Bytes
disk = ("private.pem", 2 ∷ []) ∷ ("public.pem", 1 ∷ []) ∷ []

abbrev priv_path : String
priv_path = "private.pem"

abbrev pub_path : String
pub_path = "public.pem"
