-- ===== src/Server/Startup/Guarded.antt =====
-- A server that has started is guarded as its configuration says.
use mathlib.Core.Bool.{true≢false}
use metrics_alerting_service.Prelude.{
  String, ◌≡◌, ◌≢◌, refl, sym, ap, ◌∙◌, Bool, true, false, ◌||◌, Option, none, some, ◌==◌, eq_iff,
  if◌then◌else◌, ◌⊎◌, inl, inr,
}
use metrics_alerting_service.Errors.{Result, ok, err, >>=-eq-ok}
use metrics_alerting_service.Config.Server.{ServerConfig}
use metrics_alerting_service.Server.Startup.{
  Libs, GrpcServer, Parts, set_value, when_set, listening, with_creds, secure_grpc, grpc_part,
  with_grpc, startup,
}

not_empty : (s : String) → (s == "") ≡ false → s ≢ ""
not_empty s h e = absurd (true≢false (sym ((eq_iff s "").1 e) ∙ h))

or-false : (a b : Bool) → (a || b) ≡ false → (a ≡ false) × (b ≡ false)
or-false true b h = cc
or-false false b h = (refl, h)

if-err :
    {A : Type 0} (b : Bool) (e : Result A) (y : Result A) (t : A)
    → (e ≡ ok t → ⊥)
    → (if b then e else y) ≡ ok t
    → (b ≡ false) × (y ≡ ok t)
if-err true e y t n h = absurd (n h)
if-err false e y t n h = (refl, h)

if-ok :
    {A : Type 0} (b : Bool) (x : A) (y : Result A) (t : A)
    → (if b then ok x else y) ≡ ok t
    → ((b ≡ true) × (t ≡ x)) ⊎ ((b ≡ false) × (y ≡ ok t))
if-ok true x y t h = inl (refl, cc)
if-ok false x y t h = inr (refl, h)

-- The value is there just if its text is not empty, and is then what `f` made of the text.
abbrev pub IsWhenSet : {A : Type 0} → String → (String → Result A) → Option A → Type 0
IsWhenSet {A} s f o = ((s ≡ "") × (o ≡ none)) ⊎ ((a : A) × (s ≢ "") × (f s ≡ ok a) × (o ≡ some a))

set_value-ok :
    {A : Type 0} (r : Result A) (o : Option A)
    → set_value r ≡ ok o
    → (a : A) × (r ≡ ok a) × (o ≡ some a)
unfolding set_value
set_value-ok (ok a) o h = (a, refl, cc)
set_value-ok (err e) o h = cc

when_set-ok :
    {A : Type 0} (s : String) (f : String → Result A) (o : Option A)
    → when_set s f ≡ ok o
    → IsWhenSet s f o
unfolding when_set
when_set-ok {A} s f o h = elim (if-ok (s == "") none (set_value (f s)) o h) [
  | inl (c, e) ↦ inl ((eq_iff s "").0 c, e)
  | inr (c, e) ↦ let (a, r, same) = set_value-ok (f s) o e in inr (a, not_empty s c, r, same)
]

module _ {Priv Subnet Creds Listener : Type 0} (libs : Libs Priv Subnet Creds Listener) where
  -- No server of gRPC without an address; with one a server under TLS, with the certificate and the key that
  -- are given, behind the interceptor for the trusted subnet.
  abbrev pub IsGrpcFor :
      ServerConfig → Option Subnet → Option (GrpcServer Subnet Creds Listener) → Type 0
  IsGrpcFor cfg trusted o =
      ((cfg.grpc_address ≡ "") × (o ≡ none))
      ⊎ ((cfg.grpc_address ≢ "")
          × (creds : Creds) × (lis : Listener) × (cfg.grpc_cert_file ≢ "")
          × (cfg.grpc_key_file ≢ "")
          × (libs.server_tls cfg.grpc_cert_file cfg.grpc_key_file ≡ ok creds)
          × (libs.listen cfg.grpc_address ≡ ok lis)
          × (o ≡ some (record { creds = creds; listener = lis; interceptor = trusted })))

  listening-ok :
      (trusted : Option Subnet) (creds : Creds) (r : Result Listener)
      (o : Option (GrpcServer Subnet Creds Listener))
      → listening libs trusted creds r ≡ ok o
      → (lis : Listener) × (r ≡ ok lis)
        × (o ≡ some (record { creds = creds; listener = lis; interceptor = trusted }))
  unfolding listening
  listening-ok trusted creds (ok lis) o h = (lis, refl, cc)
  listening-ok trusted creds (err e) o h = cc

  with_creds-ok :
      (cfg : ServerConfig) (trusted : Option Subnet) (r : Result Creds)
      (o : Option (GrpcServer Subnet Creds Listener))
      → with_creds libs cfg trusted r ≡ ok o
      → (creds : Creds) × (r ≡ ok creds)
        × (listening libs trusted creds (libs.listen cfg.grpc_address) ≡ ok o)
  unfolding with_creds
  with_creds-ok cfg trusted (ok creds) o h = (creds, refl, h)
  with_creds-ok cfg trusted (err e) o h = cc

  grpc_part-ok :
      (cfg : ServerConfig) (trusted : Option Subnet) (o : Option (GrpcServer Subnet Creds Listener))
      → grpc_part libs cfg trusted ≡ ok o
      → IsGrpcFor cfg trusted o
  unfolding grpc_part secure_grpc
  grpc_part-ok cfg trusted o h =
      elim (if-ok (cfg.grpc_address == "") none (secure_grpc libs cfg trusted) o h) [
        | inl (c, e) ↦ inl ((eq_iff cfg.grpc_address "").0 c, e)
        | inr (c, e) ↦
            let (f, e') =
              if-err (cfg.grpc_cert_file == "" || (cfg.grpc_key_file == "")) _
                (with_creds libs cfg trusted (libs.server_tls cfg.grpc_cert_file cfg.grpc_key_file))
                o (λ x. cc) e in
            let (n, k) = or-false (cfg.grpc_cert_file == "") (cfg.grpc_key_file == "") f in
            let (creds, t, l) =
              with_creds-ok cfg trusted (libs.server_tls cfg.grpc_cert_file cfg.grpc_key_file) o
                e' in
            let (lis, r, same) = listening-ok trusted creds (libs.listen cfg.grpc_address) o l in
            inr (
              not_empty cfg.grpc_address c,
              creds,
              lis,
              not_empty cfg.grpc_cert_file n,
              not_empty cfg.grpc_key_file k,
              t,
              r,
              same,
            )
      ]

  with_grpc-ok :
      (sk : Option Priv) (trusted : Option Subnet)
      (r : Result (Option (GrpcServer Subnet Creds Listener)))
      (parts : Parts Priv Subnet Creds Listener)
      → with_grpc libs sk trusted r ≡ ok parts
      → (r ≡ ok parts.grpc_server) × (sk ≡ parts.private_key) × (trusted ≡ parts.trusted_net)
  unfolding with_grpc
  with_grpc-ok sk trusted (ok g) parts h = (
    ap ok (ap (λ (p : Parts Priv Subnet Creds Listener). p.grpc_server) (same h)),
    ap (λ (p : Parts Priv Subnet Creds Listener). p.private_key) (same h),
    ap (λ (p : Parts Priv Subnet Creds Listener). p.trusted_net) (same h),
  )
    where
      same : {x : Parts Priv Subnet Creds Listener} → ok x ≡ ok parts → x ≡ parts
      same e = cc
  with_grpc-ok sk trusted (err e) parts h = cc

  -- When the start ends without an error: bodies are decrypted just if the path of a key is given, with
  -- the key of that file; the subnet check is there just if a subnet is given, with the subnet that its
  -- text parses to; and a server of gRPC is there just if it has an address, under TLS with the files
  -- that are given, and behind the same subnet check as HTTP.
  pub startup-IsGuarded :
      (cfg : ServerConfig) (parts : Parts Priv Subnet Creds Listener)
      → startup libs cfg ≡ ok parts
      → (IsWhenSet cfg.crypto_key libs.load_private_key parts.private_key)
        × (IsWhenSet cfg.trusted_subnet libs.parse_cidr parts.trusted_net)
        × (IsGrpcFor cfg parts.trusted_net parts.grpc_server)
  unfolding startup
  startup-IsGuarded cfg parts h =
      let (sk, k, h1) = >>=-eq-ok (when_set cfg.crypto_key libs.load_private_key) _ h in
      let (trusted, t, h2) = >>=-eq-ok (when_set cfg.trusted_subnet libs.parse_cidr) _ h1 in
      let (g, s, n) = with_grpc-ok sk trusted (grpc_part libs cfg trusted) parts h2 in
      (
        when_set-ok cfg.crypto_key libs.load_private_key parts.private_key (k ∙ ap ok s),
        when_set-ok cfg.trusted_subnet libs.parse_cidr parts.trusted_net (t ∙ ap ok n),
        grpc_part-ok cfg parts.trusted_net parts.grpc_server (ap (grpc_part libs cfg) (sym n) ∙ g),
      )
