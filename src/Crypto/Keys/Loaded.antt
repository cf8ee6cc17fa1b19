-- ===== src/Crypto/Keys/Loaded.antt =====
-- The files that keygen writes are the ones that the server and the agent load.
use metrics_alerting_service.Prelude.{ℕ, String, ◌≡◌, ◌≢◌, refl, ap, sym, ◌∙◌, Option, none, some}
use metrics_alerting_service.Errors.{Error, ok, Bytes}
use metrics_alerting_service.Crypto.Keys.{
  Block, rsa, X509, Files, first_block, read_pem, joined, encoded, opened, write_pem,
}

module _ {Pub Priv S : Type 0} (x509 : X509 Pub Priv) (files : Files Pub Priv S) where
  -- What is relied on in the libraries: a file that was opened, encoded to and closed without an error
  -- holds the block, writing to a path leaves the other paths alone, and what crypto/x509 marshals it
  -- parses.
  pub record FilesLaws : Type 0 where
    pub written :
        (path : String) (b : Block) (perm : ℕ) (s s1 s2 s3 : S)
        → files.open_file path perm s ≡ (none, s1)
        → files.encode path b s1 ≡ (none, s2)
        → files.close path s2 ≡ (none, s3)
        → (text : Bytes) × (b' : Block) × (files.read_file path s3 ≡ ok text)
          × (files.decode text ≡ some b')
          × (b'.bytes ≡ b.bytes)
    pub opened_elsewhere :
        (path q : String) (perm : ℕ) (s : S)
        → path ≢ q
        → files.read_file q (files.open_file path perm s).1 ≡ files.read_file q s
    pub encoded_elsewhere :
        (path q : String) (b : Block) (s : S)
        → path ≢ q
        → files.read_file q (files.encode path b s).1 ≡ files.read_file q s
    pub closed_elsewhere :
        (path q : String) (s : S)
        → path ≢ q
        → files.read_file q (files.close path s).1 ≡ files.read_file q s
    pub pkcs8 :
        (k : Priv) (der : Bytes)
        → x509.marshal_pkcs8_private_key k ≡ ok der
        → x509.parse_pkcs8_private_key der ≡ ok (rsa k)
    pub pkix :
        (k : Pub) (der : Bytes)
        → x509.marshal_pkix_public_key k ≡ ok der
        → x509.parse_pkix_public_key der ≡ ok (rsa k)

  joined-none :
      (r : Option Error) (c : Option Error × S) {s : S}
      → joined x509 files r c ≡ (none, s)
      → (r ≡ none) × (c ≡ (none, s))
  unfolding joined
  joined-none none (e, s') h = (refl, h)
  joined-none (some e) (e', s') h = cc

  encoded-none :
      (path : String) (r : Option Error × S) {s : S}
      → encoded x509 files path r ≡ (none, s)
      → (s2 : S) × (r ≡ (none, s2)) × (files.close path s2 ≡ (none, s))
  unfolding encoded
  encoded-none path (e, s2) h =
      let (n, c) = joined-none e (files.close path s2) h in
      (s2, ap (λ (x : Option Error). (x, s2)) n, c)

  opened-none :
      (path : String) (b : Block) (r : Option Error × S) {s : S}
      → opened x509 files path b r ≡ (none, s)
      → (s1 : S) × (r ≡ (none, s1)) × (encoded x509 files path (files.encode path b s1) ≡ (none, s))
  unfolding opened
  opened-none path b (some e, s1) h = cc
  opened-none path b (none, s1) h = (s1, refl, h)

  -- Reading the PEM file at `path` gives a block with the bytes `der`.
  abbrev pub Holds : String → Bytes → S → Type 0
  Holds path der s = (b : Block) × (read_pem x509 files path s ≡ ok b) × (b.bytes ≡ der)

  module _ (laws : FilesLaws) where
    pub write_pem-Holds :
        (path ty : String) (der : Bytes) (perm : ℕ) (s : S) {s' : S}
        → write_pem x509 files path ty der perm s ≡ (none, s')
        → Holds path der s'
    unfolding write_pem read_pem first_block
    write_pem-Holds path ty der perm s {s'} h =
        let b : Block = record { block_type = ty; bytes = der } in
        let (s1, o, h1) = opened-none path b (files.open_file path perm s) h in
        let (s2, e, c) = encoded-none path (files.encode path b s1) h1 in
        let (text, b', r, d, same) = laws.written path b perm s s1 s2 s' o e c in
        (b', rw (r, d), same)

    pub write_pem-elsewhere :
        (path q ty : String) (der : Bytes) (perm : ℕ) (s : S) {s' : S}
        → write_pem x509 files path ty der perm s ≡ (none, s')
        → path ≢ q
        → files.read_file q s' ≡ files.read_file q s
    unfolding write_pem
    write_pem-elsewhere path q ty der perm s {s'} h ne =
        let b : Block = record { block_type = ty; bytes = der } in
        let (s1, o, h1) = opened-none path b (files.open_file path perm s) h in
        let (s2, e, c) = encoded-none path (files.encode path b s1) h1 in
        ap (λ (x : Option Error × S). files.read_file q x.1) (sym c)
        ∙ laws.closed_elsewhere path q s2 ne
        ∙ ap (λ (x : Option Error × S). files.read_file q x.1) (sym e)
        ∙ laws.encoded_elsewhere path q b s1 ne
        ∙ ap (λ (x : Option Error × S). files.read_file q x.1) (sym o)
        ∙ laws.opened_elsewhere path q perm s ne
