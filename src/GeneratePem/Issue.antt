-- ===== src/GeneratePem/Issue.antt =====
-- What the certificates are issued for.
use mysql8_audit_proxy.Base.{
  ℕ, ◌≡◌, refl, sym, ap, ◌∙◌, true, false, codes, Option, none, some, List, [], ◌∷◌, ◌++◌, Text,
  split, Result, ok, err, append-nil, append_assoc,
}
use mysql8_audit_proxy.GeneratePem.{
  Config, Pems, KeyKind, is_rsa, key_kind, KeyUsage, Template, base_template, Crypto, GenerateError,
  key_failed, serial_failed, and_then, by_address, add_hosts, server_template, ca_template,
  generate_pems, with_ca, issue, prepare, generate,
}

-- A result that is used without an error.
and_then-ok :
    {E F A B : Type 0} (r : Result E A) (failed : E → F) (f : A → Result F B) (b : B)
    → and_then r failed f ≡ ok b
    → (a : A) × (r ≡ ok a) × (f a ≡ ok b)
and_then-ok (ok a) failed f b h = (a, refl, h)
and_then-ok (err e) failed f b h = cc

ok_or : {E A : Type 0} → A → Result E A → A
ok_or other (ok a) = a
ok_or other (err e) = other

ok-injective : {E A : Type 0} (a b : A) → Path (Result E A) (ok a) (ok b) → a ≡ b
unfolding ok_or
ok-injective a b h = ap (ok_or a) h

module _ {E Key Ip : Type 0} (crypto : Crypto E Key Ip) where
  -- The hosts that are addresses, and those that are not.
  abbrev pub cons_address : Option Ip → List Ip → List Ip
  cons_address none ips = ips
  cons_address (some ip) ips = ip ∷ ips

  abbrev pub addresses : List Text → List Ip
  addresses [] = []
  addresses (h ∷ hosts) = cons_address (crypto.parse_ip h) (addresses hosts)

  abbrev pub cons_name : Text → Option Ip → List Text → List Text
  cons_name h none names = h ∷ names
  cons_name h (some ip) names = names

  abbrev pub names : List Text → List Text
  names [] = []
  names (h ∷ hosts) = cons_name h (crypto.parse_ip h) (names hosts)

  by_address-ip :
      (t : Template Ip) (h : Text) (o : Option Ip) (ips : List Ip)
      → (by_address crypto t h o).ip_addresses ++ ips ≡ t.ip_addresses ++ cons_address o ips
  by_address-ip t h none ips = refl
  by_address-ip t h (some ip) ips = append_assoc t.ip_addresses (ip ∷ []) ips

  by_address-dns :
      (t : Template Ip) (h : Text) (o : Option Ip) (ns : List Text)
      → (by_address crypto t h o).dns_names ++ ns ≡ t.dns_names ++ cons_name h o ns
  by_address-dns t h none ns = append_assoc t.dns_names (h ∷ []) ns
  by_address-dns t h (some ip) ns = refl

  -- Besides the hosts nothing changes.
  pub record AddsHosts (t : Template Ip) (hosts : List Text) (t' : Template Ip) : Type 0 where
    pub ips : t'.ip_addresses ≡ t.ip_addresses ++ addresses hosts
    pub dns : t'.dns_names ≡ t.dns_names ++ names hosts
    pub same_usage : t'.key_usage ≡ t.key_usage
    pub same_ca : t'.is_ca ≡ t.is_ca

  by_address-same :
      (t : Template Ip) (h : Text) (o : Option Ip)
      → ((by_address crypto t h o).key_usage ≡ t.key_usage)
        × ((by_address crypto t h o).is_ca ≡ t.is_ca)
  by_address-same t h none = (refl, refl)
  by_address-same t h (some ip) = (refl, refl)

  add_hosts-AddsHosts :
      (hosts : List Text) (t : Template Ip) → AddsHosts t hosts (add_hosts crypto t hosts)
  unfolding add_hosts
  add_hosts-AddsHosts [] t = record {
    ips = sym (append-nil t.ip_addresses);
    dns = sym (append-nil t.dns_names);
    same_usage = refl;
    same_ca = refl;
  }
  add_hosts-AddsHosts (h ∷ hosts) t =
      let o = crypto.parse_ip h in
      let k = add_hosts-AddsHosts hosts (by_address crypto t h o) in
      let (usage, ca) = by_address-same t h o in
      record {
        ips = k.ips ∙ by_address-ip t h o (addresses hosts);
        dns = k.dns ∙ by_address-dns t h o (names hosts);
        same_usage = k.same_usage ∙ usage;
        same_ca = k.same_ca ∙ ca;
      }

  -- The pems of a key and of a certificate for a template, which the owner of `parent` has signed.
  pub record Certified (template parent : Template Ip) (key : Key) (pems : Pems) : Type 0 where
    pub der : Text
    pub signed : crypto.create_certificate template parent key ≡ ok der
    pub cert_pem : crypto.pem_encode (codes "CERTIFICATE") der ≡ ok pems.cert
    pub private : Text
    pub private_key : crypto.marshal_private key ≡ ok private
    pub private_pem : crypto.pem_encode (codes "PRIVATE KEY") private ≡ ok pems.key
    pub public : Text
    pub public_key : crypto.marshal_public key ≡ ok public
    pub public_pem : crypto.pem_encode (codes "PUBLIC KEY") public ≡ ok pems.public

  generate_pems-Certified :
      (template parent : Template Ip) (key : Key) (pems : Pems)
      → generate_pems crypto template parent key ≡ ok pems
      → Certified template parent key pems
  unfolding generate_pems
  generate_pems-Certified template parent key pems h =
      let (der, signed, h1) = and_then-ok _ _ _ _ h in
      let (cert, cert_pem, h2) = and_then-ok _ _ _ _ h1 in
      let (private, private_key, h3) = and_then-ok _ _ _ _ h2 in
      let (key_pem, private_pem, h4) = and_then-ok _ _ _ _ h3 in
      let (public, public_key, h5) = and_then-ok _ _ _ _ h4 in
      let (last, public_pem, h6) = and_then-ok _ _ _ _ h5 in
      let same : record { cert = cert; key = key_pem; public = last } ≡ pems =
        ok-injective {E = GenerateError E} _ _ h6 in
      record {
        der = der;
        signed = signed;
        cert_pem = cert_pem ∙ ap (λ (q : Pems). ok q.cert) same;
        private = private;
        private_key = private_key;
        private_pem = private_pem ∙ ap (λ (q : Pems). ok q.key) same;
        public = public;
        public_key = public_key;
        public_pem = public_pem ∙ ap (λ (q : Pems). ok q.public) same;
      }

  -- The two certificates: for the hosts of the configuration, with the key that it asks for, the
  -- authority's signed by itself and the server's by the authority.
  pub record Issued (c : Config) (now : ℕ) (ca server : Pems) : Type 0 where
    pub kind : KeyKind
    pub key : Key
    pub serial : ℕ
    pub template : Template Ip
    pub known : key_kind c ≡ some kind
    pub drawn : crypto.generate_key kind ≡ ok key
    pub numbered : crypto.serial ≡ ok serial
    pub ips : template.ip_addresses ≡ addresses (split b',' c.host)
    pub dns : template.dns_names ≡ names (split b',' c.host)
    pub no_authority : template.is_ca ≡ false
    pub no_signing : template.key_usage.cert_sign ≡ false
    pub enciphers : template.key_usage.key_encipherment ≡ is_rsa kind
    pub authority : Template Ip
    pub like_server : authority ≡ record template {
      is_ca = true;
      key_usage = record template.key_usage { cert_sign = true };
    }
    pub by_itself : Certified authority authority key ca
    pub by_authority : Certified template authority key server

  with_ca-none :
      (a b : Result (GenerateError E) Pems) (ca server : Pems)
      → with_ca crypto a b ≡ (ca, server, none)
      → (a ≡ ok ca) × (b ≡ ok server)
  with_ca-none (err e) b ca server h = cc
  with_ca-none (ok ca') (err e) ca server h = cc
  with_ca-none (ok ca') (ok server') ca server h = (cc, cc)

  prepare-ok :
      (c : Config) (o : Option KeyKind) (kind : KeyKind) (key : Key) (serial : ℕ)
      → prepare crypto c o ≡ ok (kind, key, serial)
      → (o ≡ some kind) × (crypto.generate_key kind ≡ ok key) × (crypto.serial ≡ ok serial)
  unfolding prepare
  prepare-ok c none kind key serial h = cc
  prepare-ok c (some k) kind key serial h = by_key (crypto.generate_key k) crypto.serial refl refl h
    where
      by_key :
          (r : Result E Key) (s : Result E ℕ)
          → crypto.generate_key k ≡ r
          → crypto.serial ≡ s
          → and_then {B = KeyKind × Key × ℕ} r key_failed (λ key.
            and_then {B = KeyKind × Key × ℕ} s serial_failed (λ serial. ok (k, key, serial)))
            ≡ ok (kind, key, serial)
          → (some k ≡ some kind) × (crypto.generate_key kind ≡ ok key) × (crypto.serial ≡ ok serial)
      by_key (err e) s p q h = cc
      by_key (ok x) (err e) p q h = cc
      by_key (ok x) (ok y) p q h = (cc, cc, cc)

  issue-Issued :
      (c : Config) (now : ℕ) (ca server : Pems) (r : Result (GenerateError E) (KeyKind × Key × ℕ))
      → prepare crypto c (key_kind c) ≡ r
      → issue crypto c now r ≡ (ca, server, none)
      → Issued c now ca server
  unfolding server_template ca_template
  issue-Issued c now ca server (err e) q h = cc
  issue-Issued c now ca server (ok (kind, key, serial)) q h =
      let (known, drawn, numbered) = prepare-ok c (key_kind c) kind key serial q in
      let (self, signed) = with_ca-none _ _ ca server h in
      let k = add_hosts-AddsHosts (split b',' c.host) (base_template crypto c kind now serial) in
      record {
        kind = kind;
        key = key;
        serial = serial;
        template = server_template crypto c kind now serial;
        known = known;
        drawn = drawn;
        numbered = numbered;
        ips = k.ips;
        dns = k.dns;
        no_authority = k.same_ca;
        no_signing = ap (λ (u : KeyUsage). u.cert_sign) k.same_usage;
        enciphers = ap (λ (u : KeyUsage). u.key_encipherment) k.same_usage;
        authority = ca_template crypto (server_template crypto c kind now serial);
        like_server = refl;
        by_itself = generate_pems-Certified _ _ key ca self;
        by_authority = generate_pems-Certified _ _ key server signed;
      }

  -- If `Generate` returns no error, the configuration names a key that could be generated, and there
  -- are two certificates with this key: the server's is for the hosts of the configuration, each as
  -- an address or as a name, signs no others, enciphers keys just if the key is an RSA key, and is
  -- signed by the authority, whose own is signed by itself and may sign others; and the pems are those
  -- of these certificates and of the key's two halves.
  pub generate-Issued :
      (c : Config) (now : ℕ) (ca server : Pems)
      → generate crypto c now ≡ (ca, server, none)
      → Issued c now ca server
  unfolding generate
  generate-Issued c now ca server h =
      issue-Issued c now ca server (prepare crypto c (key_kind c)) refl h
