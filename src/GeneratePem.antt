-- ===== src/GeneratePem.antt =====
-- pkg/generatepem/generatepem.go: the certificates of the proxy and of the authority that signs them. The
-- random source, the certificates' encoding and the PEM format are parameters.
pub mod Issue
pub mod Runs
use mysql8_audit_proxy.Base.{
  ℕ, ◌+◌, ◌*◌, Bool, true, false, Option, none, some, List, [], ◌∷◌, ◌++◌, Text, codes, split,
  text_eq, if◌then◌else◌, Result, ok, err,
}

-- `Config`.
pub record Config : Type 0 where
  pub host : Text
  pub valid_for : ℕ
  pub rsa_bits : ℕ
  pub ecdsa_curve : Text
  pub ed25519_key : Bool

pub record Pems : Type 0 where
  pub cert : Text
  pub key : Text
  pub public : Text

abbrev pub no_pems : Pems
no_pems = record { cert = []; key = []; public = [] }

pub data Curve : Type 0 where
  p224 p256 p384 p521 : Curve

-- The key that is generated.
pub data KeyKind : Type 0 where
  rsa : ℕ → KeyKind
  ecdsa : Curve → KeyKind
  ed25519 : KeyKind

abbrev pub named_curve : Text → Option KeyKind
named_curve c =
    if text_eq c (codes "P224")
    then some (ecdsa p224)
    else (if text_eq c (codes "P256")
        then some (ecdsa p256)
        else (if text_eq c (codes "P384")
            then some (ecdsa p384)
            else (if text_eq c (codes "P521") then some (ecdsa p521) else none)))

-- The `switch` on the curve; `none` is an unrecognized one.
unfoldable pub key_kind : Config → Option KeyKind
key_kind c =
    let without_curve = if c.ed25519_key then ed25519 else rsa c.rsa_bits in
    if text_eq c.ecdsa_curve [] then some without_curve else named_curve c.ecdsa_curve

-- The type assertion `priv.(*rsa.PrivateKey)`.
abbrev pub is_rsa : KeyKind → Bool
is_rsa (rsa bits) = true
is_rsa (ecdsa curve) = false
is_rsa ed25519 = false

pub record KeyUsage : Type 0 where
  pub digital_signature : Bool
  pub key_encipherment : Bool
  pub cert_sign : Bool

-- The fields of `x509.Certificate` that differ; times are in seconds.
pub record Template (Ip : Type 0) : Type 0 where
  pub serial_number : ℕ
  pub not_before : ℕ
  pub not_after : ℕ
  pub key_usage : KeyUsage
  pub ip_addresses : List Ip
  pub dns_names : List Text
  pub is_ca : Bool

-- The step that failed, and its error.
pub data GenerateError (E : Type 0) : Type 0 where
  unrecognized_curve : Text → GenerateError E
  key_failed serial_failed certificate_failed cert_pem_failed private_failed key_pem_failed
        public_failed public_pem_failed :
      E → GenerateError E

-- What the code calls: random numbers, the parsing of addresses, and the encodings. A private key has a
-- public one.
pub record Crypto (E Key Ip : Type 0) : Type 0 where
  pub generate_key : KeyKind → Result E Key
  pub serial : Result E ℕ
  pub parse_ip : Text → Option Ip
  pub create_certificate : Template Ip → Template Ip → Key → Result E Text
  pub marshal_private : Key → Result E Text
  pub marshal_public : Key → Result E Text
  pub pem_encode : Text → Text → Result E Text

-- An early return.
abbrev pub and_then : {E F A B : Type 0} → Result E A → (E → F) → (A → Result F B) → Result F B
and_then (ok a) failed f = f a
and_then (err e) failed f = err (failed e)

module _ {E Key Ip : Type 0} (crypto : Crypto E Key Ip) where
  abbrev pub by_address : Template Ip → Text → Option Ip → Template Ip
  by_address t h (some ip) = record t { ip_addresses = t.ip_addresses ++ (ip ∷ []) }
  by_address t h none = record t { dns_names = t.dns_names ++ (h ∷ []) }

  -- The loop over the hosts.
  unfoldable pub add_hosts : Template Ip → List Text → Template Ip
  add_hosts t [] = t
  add_hosts t (h ∷ hosts) = add_hosts (by_address t h (crypto.parse_ip h)) hosts

  -- The template before the loop. That the days are fewer than a `time.Duration` can count is assumed.
  abbrev pub base_template : Config → KeyKind → ℕ → ℕ → Template Ip
  base_template c kind now serial = record {
    serial_number = serial;
    not_before = now;
    not_after = now + c.valid_for * 24 * 3600;
    key_usage = record {
      digital_signature = true;
      key_encipherment = is_rsa kind;
      cert_sign = false;
    };
    ip_addresses = [];
    dns_names = [];
    is_ca = false;
  }

  unfoldable pub server_template : Config → KeyKind → ℕ → ℕ → Template Ip
  unfolding add_hosts
  server_template c kind now serial =
      add_hosts (base_template c kind now serial) (split b',' c.host)

  unfoldable pub ca_template : Template Ip → Template Ip
  ca_template t = record t { is_ca = true; key_usage = record t.key_usage { cert_sign = true } }

  unfoldable pub generate_pems : Template Ip → Template Ip → Key → Result (GenerateError E) Pems
  generate_pems template ca key =
      and_then (crypto.create_certificate template ca key) certificate_failed (λ der.
        and_then (crypto.pem_encode (codes "CERTIFICATE") der) cert_pem_failed (λ cert.
          and_then (crypto.marshal_private key) private_failed (λ private.
            and_then (crypto.pem_encode (codes "PRIVATE KEY") private) key_pem_failed (λ key_pem.
              and_then (crypto.marshal_public key) public_failed (λ public.
                and_then (crypto.pem_encode (codes "PUBLIC KEY") public) public_pem_failed
                  (λ public_pem.
                    ok (record { cert = cert; key = key_pem; public = public_pem })))))))

  -- The authority's pems, the server's, and the error. What the second call returns is passed on.
  abbrev pub with_ca :
      Result (GenerateError E) Pems
      → Result (GenerateError E) Pems
      → Pems × Pems × Option (GenerateError E)
  with_ca (err e) server = (no_pems, no_pems, some e)
  with_ca (ok ca) (err e) = (ca, no_pems, some e)
  with_ca (ok ca) (ok server) = (ca, server, none)

  abbrev pub issue :
      Config
      → ℕ
      → Result (GenerateError E) (KeyKind × Key × ℕ)
      → Pems × Pems × Option (GenerateError E)
  issue c now (err e) = (no_pems, no_pems, some e)
  issue c now (ok (kind, key, serial)) =
      let template = server_template c kind now serial in
      let ca = ca_template template in
      with_ca (generate_pems ca ca key) (generate_pems template ca key)

  unfoldable pub prepare : Config → Option KeyKind → Result (GenerateError E) (KeyKind × Key × ℕ)
  prepare c none = err (unrecognized_curve c.ecdsa_curve)
  prepare c (some kind) =
      and_then (crypto.generate_key kind) key_failed
        (λ key. and_then crypto.serial serial_failed (λ serial. ok (kind, key, serial)))

  -- `Generate` at the time `now`.
  unfoldable pub generate : Config → ℕ → Pems × Pems × Option (GenerateError E)
  unfolding key_kind prepare server_template ca_template generate_pems
  generate c now = issue c now (prepare c (key_kind c))
