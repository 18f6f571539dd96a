-- ===== src/GeneratePem/Runs.antt =====
-- Certificates for a name and an address.
use mysql8_audit_proxy.Base.{
  ◌≡◌, refl, false, none, some, [], ◌++◌, Text, codes, split, text_eq, if◌then◌else◌, ok,
}
use mysql8_audit_proxy.GeneratePem.{
  Config, Pems, KeyKind, key_kind, Crypto, add_hosts, server_template, ca_template, generate_pems,
  prepare, generate,
}
use mysql8_audit_proxy.GeneratePem.Issue.{Issued, generate-Issued}

abbrev pub config : Config
config = record {
  host = codes "localhost,::1";
  valid_for = 10000;
  rsa_bits = 2048;
  ecdsa_curve = [];
  ed25519_key = false;
}

abbrev pub crypto : Crypto (Unit {0}) KeyKind Text
crypto = record {
  generate_key = λ kind. ok kind;
  serial = ok 1;
  parse_ip = λ h. if text_eq h (codes "::1") then some h else none;
  create_certificate = λ t ca key. ok (if t.is_ca then codes "ca" else codes "server");
  marshal_private = λ key. ok (codes "private");
  marshal_public = λ key. ok (codes "public");
  pem_encode = λ type b. ok (type ++ b);
}

abbrev pub ca_pems : Pems
ca_pems = record {
  cert = codes "CERTIFICATEca";
  key = codes "PRIVATE KEYprivate";
  public = codes "PUBLIC KEYpublic";
}

abbrev pub server_pems : Pems
server_pems = record ca_pems { cert = codes "CERTIFICATEserver" }

pub generated : generate crypto config 0 ≡ (ca_pems, server_pems, none)
unfolding generate key_kind prepare server_template add_hosts ca_template generate_pems split
    text_eq
generated = refl

generate-Issued_example : Issued crypto config 0 ca_pems server_pems
generate-Issued_example = generate-Issued crypto config 0 ca_pems server_pems generated
