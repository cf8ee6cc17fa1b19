-- ===== src/Crypto/Certs/Hosts.antt =====
-- The names in the certificate of the server.
use mathlib.Core.List.{Memᴰ}
use mathlib.Core.Bool.{true≢false}
use metrics_alerting_service.Prelude.{
  ℕ, String, ◌≡◌, ◌≢◌, refl, Bool, true, false, Option, none, some, List, [], ◌∷◌, ◌++◌, ◌==◌,
  eq_iff, ◌⊎◌, ◌↔◌, inl, inr, if_elim, sym, if◌then◌else◌,
}
use metrics_alerting_service.Crypto.Keys.{X509, Files}
use metrics_alerting_service.Crypto.Certs.{
  CertLib, Options, Template, add_san, add_host, add_hosts, server_template,
}

module _ {A : Type 0} where
  Memᴰ-append : {y : A} (xs ys : List A) → Memᴰ y xs → Memᴰ y (xs ++ ys)
  Memᴰ-append [] ys m = elim m [ ]
  Memᴰ-append (x ∷ xs) ys (Memᴰ.head e) = Memᴰ.head e
  Memᴰ-append (x ∷ xs) ys (Memᴰ.tail m) = Memᴰ.tail (Memᴰ-append xs ys m)

  Memᴰ-append_last : (xs : List A) (y : A) → Memᴰ y (xs ++ y ∷ [])
  Memᴰ-append_last [] y = Memᴰ.head refl
  Memᴰ-append_last (x ∷ xs) y = Memᴰ.tail (Memᴰ-append_last xs y)

module _ {Pub Priv Ip Cert S : Type 0} (x509 : X509 Pub Priv) (files : Files Pub Priv S)
    (lib : CertLib Pub Priv Ip Cert S) where
  -- a host stands among the addresses if it parses to one, and otherwise among the names
  abbrev pub IsNamed : String → Template Ip → Type 0
  IsNamed h t =
      ((ip : Ip) × (lib.parse_ip h ≡ some ip) × Memᴰ ip t.ip_addresses)
      ⊎ ((lib.parse_ip h ≡ none) × Memᴰ h t.dns_names)

  add_san-keeps :
      (k h : String) (o : Option Ip) (t : Template Ip)
      → IsNamed k t
      → IsNamed k (add_san x509 files lib h o t)
  unfolding add_san
  add_san-keeps k h (some i) t (inl (ip, e, m)) = inl (ip, e, Memᴰ-append t.ip_addresses (i ∷ []) m)
  add_san-keeps k h (some i) t (inr (e, m)) = inr (e, m)
  add_san-keeps k h none t (inl (ip, e, m)) = inl (ip, e, m)
  add_san-keeps k h none t (inr (e, m)) = inr (e, Memᴰ-append t.dns_names (h ∷ []) m)

  add_host-keeps :
      (k h : String) (t : Template Ip) → IsNamed k t → IsNamed k (add_host x509 files lib h t)
  unfolding add_host
  add_host-keeps k h t n = if_elim (IsNamed k) (h == "") n (add_san-keeps k h (lib.parse_ip h) t n)

  add_hosts-keeps :
      (k : String) (hs : List String) (t : Template Ip)
      → IsNamed k t
      → IsNamed k (add_hosts x509 files lib hs t)
  unfolding add_hosts
  add_hosts-keeps k [] t n = n
  add_hosts-keeps k (h ∷ hs) t n =
      add_hosts-keeps k hs (add_host x509 files lib (lib.trim_space h) t)
        (add_host-keeps k (lib.trim_space h) t n)

  add_san-names :
      (h : String) (o : Option Ip) (t : Template Ip)
      → lib.parse_ip h ≡ o
      → IsNamed h (add_san x509 files lib h o t)
  unfolding add_san
  add_san-names h (some ip) t e = inl (ip, e, Memᴰ-append_last t.ip_addresses ip)
  add_san-names h none t e = inr (e, Memᴰ-append_last t.dns_names h)

  add_host-names : (h : String) (t : Template Ip) → h ≢ "" → IsNamed h (add_host x509 files lib h t)
  unfolding add_host
  add_host-names h t n = by_test (h == "") (λ e. (eq_iff h "").0 e)
    where
      by_test :
          (b : Bool)
          → (b ≡ true → h ≡ "")
          → IsNamed h (if b then t else add_san x509 files lib h (lib.parse_ip h) t)
      by_test true e = absurd (n (e refl))
      by_test false e = add_san-names h (lib.parse_ip h) t refl

  -- Each part of a list of hosts that is not blank is named: it stands among the addresses if it parses to
  -- one, and otherwise among the DNS names.
  abbrev pub AreNamed : List String → Template Ip → Type 0
  AreNamed [] t = Unit
  AreNamed (h ∷ hs) t = ((lib.trim_space h ≡ "") ⊎ IsNamed (lib.trim_space h) t) × AreNamed hs t

  add_hosts-AreNamed :
      (hs : List String) (t : Template Ip) → AreNamed hs (add_hosts x509 files lib hs t)
  unfolding add_hosts
  add_hosts-AreNamed [] t = tt
  add_hosts-AreNamed (h ∷ hs) t =
      (by_test (lib.trim_space h == "") (eq_iff (lib.trim_space h) ""), add_hosts-AreNamed hs next)
    where
      next : Template Ip
      next = add_host x509 files lib (lib.trim_space h) t

      by_test :
          (b : Bool)
          → (b ≡ true ↔ lib.trim_space h ≡ "")
          → (lib.trim_space h ≡ "") ⊎ IsNamed (lib.trim_space h) (add_hosts x509 files lib hs next)
      by_test true e = inl (e.0 refl)
      by_test false e = inr (
          add_hosts-keeps (lib.trim_space h) hs next
            (add_host-names (lib.trim_space h) t (λ blank. absurd (true≢false (sym (e.1 blank))))))

  -- the flags of a template that the loop over the hosts does not touch
  abbrev IsForServer : Template Ip → Type 0
  IsForServer t = (t.server_auth ≡ true) × (t.is_ca ≡ false)

  add_host-IsForServer :
      (h : String) (t : Template Ip) → IsForServer t → IsForServer (add_host x509 files lib h t)
  unfolding add_host add_san
  add_host-IsForServer h t w = if_elim IsForServer (h == "") w (added (lib.parse_ip h))
    where
      added : (o : Option Ip) → IsForServer (add_san x509 files lib h o t)
      added (some ip) = w
      added none = w

  add_hosts-IsForServer :
      (hs : List String) (t : Template Ip)
      → IsForServer t
      → IsForServer (add_hosts x509 files lib hs t)
  unfolding add_hosts
  add_hosts-IsForServer [] t w = w
  add_hosts-IsForServer (h ∷ hs) t w =
      add_hosts-IsForServer hs (add_host x509 files lib (lib.trim_space h) t)
        (add_host-IsForServer (lib.trim_space h) t w)

  -- The template of the server's certificate is for the authentication of a server and not for a CA, and
  -- it names each host of the option `-host`.
  pub server_template-names :
      (o : Options) (serial : ℕ)
      → let t = server_template x509 files lib o serial in
        (t.server_auth ≡ true) × (t.is_ca ≡ false) × AreNamed (lib.split o.hosts) t
  unfolding server_template
  server_template-names o serial =
      let flags = add_hosts-IsForServer (lib.split o.hosts) _ (refl, refl) in
      (flags.0, flags.1, add_hosts-AreNamed (lib.split o.hosts) _)
