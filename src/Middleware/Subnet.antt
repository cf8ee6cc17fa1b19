-- ===== src/Middleware/Subnet.antt =====
-- internal/trustedsubnet: requests from outside the trusted subnet are refused, over HTTP by
-- `Middleware` and over gRPC by `UnaryInterceptor`. `net.ParseIP` and `IPNet.Contains` are
-- parameters.
use metrics_alerting_service.Prelude.{
  String, ◌≡◌, refl, ap, Bool, true, false, Option, none, some, List, [], ◌∷◌, ◌⊎◌, inl, inr,
  if◌then◌else◌,
}
use metrics_alerting_service.Http.{Request, Handler, Net}
use metrics_alerting_service.Grpc.{Code, permission_denied}

-- `md.Get(key)[0]`, or "" for a key without values
first_value : List String → String
first_value [] = ""
first_value (v ∷ vs) = v

-- The metadata of an incoming context, if it has any.
unfoldable pub real_ip_from_metadata : Option (String → List String) → String
unfolding first_value
real_ip_from_metadata none = ""
real_ip_from_metadata (some md) = first_value (md "x-real-ip")

module _ {Ip Subnet : Type 0} (parse_ip : String → Option Ip) (contains : Subnet → Ip → Bool) where
  contains_parsed : Subnet → Option Ip → Bool
  contains_parsed subnet none = false
  contains_parsed subnet (some ip) = contains subnet ip

  unfoldable pub allowed : Subnet → String → Bool
  unfolding contains_parsed
  allowed subnet ip_str = contains_parsed subnet (parse_ip ip_str)

  unfoldable pub trusted_subnet : {B S : Type 0} → Net B → Option Subnet → Handler B S → Handler B S
  trusted_subnet net none next r s = next r s
  trusted_subnet net (some subnet) next r s =
      if allowed subnet (r.header "X-Real-IP") then next r s else (net.error "untrusted IP" 403, s)

  unfoldable pub unary_interceptor :
      {Q S : Type 0}
      → Option Subnet
      → Option (String → List String)
      → (Q → S → Code × S)
      → Q
      → S
      → Code × S
  unary_interceptor none md next req s = next req s
  unary_interceptor (some subnet) md next req s =
      if allowed subnet (real_ip_from_metadata md) then next req s else (permission_denied, s)

  contains_parsed-true :
      (subnet : Subnet) (o : Option Ip)
      → contains_parsed subnet o ≡ true
      → (ip : Ip) × (o ≡ some ip) × (contains subnet ip ≡ true)
  unfolding contains_parsed
  contains_parsed-true subnet none h = cc
  contains_parsed-true subnet (some ip) h = (ip, refl, h)

  -- Either branch of a guard: the guarded result under a true test, the refusal under a false one.
  guarded :
      {R : Type 0} (b : Bool) (x y : R)
      → ((b ≡ true) × ((if b then x else y) ≡ x)) ⊎ ((b ≡ false) × ((if b then x else y) ≡ y))
  guarded true x y = inl (refl, refl)
  guarded false x y = inr (refl, refl)

  -- Behind a trusted subnet a request is either passed on unchanged, and then its X-Real-IP parses to
  -- an address of the subnet, or answered with "untrusted IP" and 403, with no change of the state.
  pub trusted_subnet_safe :
      {B S : Type 0} (net : Net B) (subnet : Subnet) (next : Handler B S) (r : Request B) (s : S)
      → ((ip : Ip) × (parse_ip (r.header "X-Real-IP") ≡ some ip)
          × (contains subnet ip ≡ true)
          × (trusted_subnet net (some subnet) next r s ≡ next r s))
        ⊎ (trusted_subnet net (some subnet) next r s ≡ (net.error "untrusted IP" 403, s))
  unfolding trusted_subnet allowed
  trusted_subnet_safe net subnet next r s =
      elim (guarded (allowed subnet (r.header "X-Real-IP")) (next r s)
        (net.error "untrusted IP" 403, s)) [
          | inl (h, e) ↦
              let (ip, p, c) = contains_parsed-true subnet (parse_ip (r.header "X-Real-IP")) h in
              inl (ip, p, c, e)
          | inr (h, e) ↦ inr e
        ]

  -- The interceptor of gRPC decides as the HTTP middleware does: for the same subnet and the same
  -- address in the header and in the metadata, one passes the call on exactly if the other does.
  pub interceptor-agrees :
      {B Q S : Type 0} (net : Net B) (subnet : Option Subnet) (md : Option (String → List String))
      (r : Request B) (next : Handler B S) (rpc : Q → S → Code × S) (req : Q) (s : S)
      → real_ip_from_metadata md ≡ r.header "X-Real-IP"
      → ((trusted_subnet net subnet next r s ≡ next r s)
          × (unary_interceptor subnet md rpc req s ≡ rpc req s))
        ⊎ ((trusted_subnet net subnet next r s ≡ (net.error "untrusted IP" 403, s))
            × (unary_interceptor subnet md rpc req s ≡ (permission_denied, s)))
  unfolding trusted_subnet unary_interceptor
  interceptor-agrees net none md r next rpc req s h = inl (refl, refl)
  interceptor-agrees net (some subnet) md r next rpc req s h =
      both (allowed subnet (r.header "X-Real-IP")) (allowed subnet (real_ip_from_metadata md))
        (ap (allowed subnet) h)
    where
      both :
          {X Y : Type 0} (b c : Bool) {x x' : X} {y y' : Y}
          → c ≡ b
          → (((if b then x else x') ≡ x) × ((if c then y else y') ≡ y))
            ⊎ (((if b then x else x') ≡ x') × ((if c then y else y') ≡ y'))
      both true true e = inl (refl, refl)
      both false false e = inr (refl, refl)
      both true false e = cc
      both false true e = cc
