-- ===== src/ClientSess/Capability/Names.antt =====
-- The names that `PrintCapability` prints.
use mysql8_audit_proxy.Base.{
  ℕ, zero, suc, ◌+◌, ◌*◌, ◌/◌, ◌%◌, ◌^◌, ◌<◌, ◌≡◌, refl, sym, ap, ◌∙◌, true, false, Bool-cases, inl,
  inr, List, [], ◌∷◌, ◌++◌, map, Text, length, codes, ◌==◌, if◌then◌else◌, arith,
}
use mysql8_audit_proxy.ClientSess.{join}
use mysql8_audit_proxy.ClientSess.Capability.{Flag, flags, name_of, field_name, print_capability}
use mysql8_audit_proxy.ClientSess.Capability.Fields.{ones, power, double, fields_of-ones}

-- The flags have the digits of a number for their values, one after the other.
abbrev pub AreDigits : (Flag → ℕ) → ℕ → List Flag → Type 0
AreDigits value_of k [] = Unit
AreDigits value_of k (f ∷ fs) = (value_of f ≡ 2 ^ k) × AreDigits value_of (suc k) fs

-- Of the names of the digits, from the lowest one on, those whose digit is set.
abbrev pub names_set : List Text → ℕ → List Text
names_set [] c = []
names_set (name ∷ names) c =
    let higher = names_set names (c / 2) in if c % 2 == 1 then name ∷ higher else higher

-- The names of the 32 flags in the order of their digits.
abbrev pub capability_names : List Text
capability_names =
    codes "CLIENT_LONG_PASSWORD"
    ∷ codes "CLIENT_FOUND_ROWS"
    ∷ codes "CLIENT_LONG_FLAG"
    ∷ codes "CLIENT_CONNECT_WITH_DB"
    ∷ codes "CLIENT_NO_SCHEMA"
    ∷ codes "CLIENT_COMPRESS"
    ∷ codes "CLIENT_ODBC"
    ∷ codes "CLIENT_LOCAL_FILES"
    ∷ codes "CLIENT_IGNORE_SPACE"
    ∷ codes "CLIENT_PROTOCOL_41"
    ∷ codes "CLIENT_INTERACTIVE"
    ∷ codes "CLIENT_SSL"
    ∷ codes "CLIENT_IGNORE_SIGPIPE"
    ∷ codes "CLIENT_TRANSACTIONS"
    ∷ codes "CLIENT_RESERVED"
    ∷ codes "CLIENT_SECURE_CONNECTION"
    ∷ codes "CLIENT_MULTI_STATEMENTS"
    ∷ codes "CLIENT_MULTI_RESULTS"
    ∷ codes "CLIENT_PS_MULTI_RESULTS"
    ∷ codes "CLIENT_PLUGIN_AUTH"
    ∷ codes "CLIENT_CONNECT_ATTRS"
    ∷ codes "CLIENT_PLUGIN_AUTH_LENENC_CLIENT_DATA"
    ∷ codes "CLIENT_CAN_HANDLE_EXPIRED_PASSWORDS"
    ∷ codes "CLIENT_SESSION_TRACK"
    ∷ codes "CLIENT_DEPRECATE_EOF"
    ∷ codes "CLIENT_OPTIONAL_RESULTSET_METADATA"
    ∷ codes "CLIENT_ZSTD_COMPRESSION_ALGORITHM"
    ∷ codes "CLIENT_QUERY_ATTRIBUTES"
    ∷ codes "MULTI_FACTOR_AUTHENTICATION"
    ∷ codes "CLIENT_CAPABILITY_EXTENSION"
    ∷ codes "CLIENT_SSL_VERIFY_SERVER_CERT"
    ∷ codes "CLIENT_REMEMBER_OPTIONS"
    ∷ []

-- A multiple of a flag's value by an even number is not that value.
not_lowest : (p v : ℕ) → 0 < p → (p * (2 * v) == p) ≡ false
not_lowest p zero h = ground arith
not_lowest p (suc v) h =
    let more : p * (2 * suc v) ≡ p + p + p * (2 * v) = omega arith in ground arith

power_pos : (k : ℕ) → 0 < 2 ^ k
power_pos zero = omega arith
power_pos (suc k) = omega (arith, power k, power_pos k)

lowest : (p : ℕ) → (p * 1 == p) ≡ true
lowest p = ground arith

module _ (value_of : Flag → ℕ) where
  field_name-same :
      (k : ℕ) (f : Flag) (fs : List Flag)
      → value_of f ≡ 2 ^ k
      → field_name value_of (f ∷ fs) (2 ^ k * 1) ≡ name_of f
  unfolding field_name
  field_name-same k f fs h = rw (h, lowest (2 ^ k)) refl

  field_name-other :
      (k : ℕ) (f : Flag) (fs : List Flag) (v : ℕ)
      → value_of f ≡ 2 ^ k
      → field_name value_of (f ∷ fs) (2 ^ k * (2 * v)) ≡ field_name value_of fs (2 ^ suc k * v)
  unfolding field_name
  field_name-other k f fs v h =
      rw (h, not_lowest (2 ^ k) v (power_pos k))
        (ap (field_name value_of fs) (twice (2 ^ k) v ∙ ap (λ p. p * v) (sym (power k))))
    where
      twice : (p v : ℕ) → p * (2 * v) ≡ (2 * p) * v
      twice p v = omega arith

  field_name-others :
      (k : ℕ) (f : Flag) (fs : List Flag) (vs : List ℕ)
      → value_of f ≡ 2 ^ k
      → map (λ v. field_name value_of (f ∷ fs) (2 ^ k * v)) (map double vs)
        ≡ map (λ v. field_name value_of fs (2 ^ suc k * v)) vs
  field_name-others k f fs [] h = refl
  field_name-others k f fs (v ∷ vs) h =
      ap (λ name. name ∷ map (λ v. field_name value_of (f ∷ fs) (2 ^ k * v)) (map double vs))
        (field_name-other k f fs v h)
      ∙ ap (λ names. field_name value_of fs (2 ^ suc k * v) ∷ names) (field_name-others k f fs vs h)

  field_name-names_set :
      (fs : List Flag) (k c : ℕ)
      → AreDigits value_of k fs
      → map (λ v. field_name value_of fs (2 ^ k * v)) (ones (length fs) c)
        ≡ names_set (map name_of fs) c
  field_name-names_set [] k c h = refl
  field_name-names_set (f ∷ fs) k c (is, digits) =
      let further =
        field_name-others k f fs (ones (length fs) (c / 2)) is
        ∙ field_name-names_set fs (suc k) (c / 2) digits in
      elim (Bool-cases (c % 2 == 1)) [
        | inl q ↦ rw q (
            ap
              (λ name.
                name
                ∷ map (λ v. field_name value_of (f ∷ fs) (2 ^ k * v))
                    (map double (ones (length fs) (c / 2))))
              (field_name-same k f fs is)
            ∙ ap (λ names. name_of f ∷ names) further)
        | inr q ↦ rw q further
      ]

  map-times_one :
      (fs : List Flag) (vs : List ℕ)
      → map (field_name value_of fs) vs ≡ map (λ v. field_name value_of fs (2 ^ 0 * v)) vs
  map-times_one fs [] = refl
  map-times_one fs (v ∷ vs) =
      let same : v ≡ 2 ^ 0 * v = omega arith in
      ap (λ x. field_name value_of fs x ∷ map (field_name value_of fs) vs) same
      ∙ ap (λ names. field_name value_of fs (2 ^ 0 * v) ∷ names) (map-times_one fs vs)

-- Of a capability of 32 bits the names of the flags that are set are printed, and no others, from the
-- lowest on; 32 rounds are enough for the loop. The constants have the values of the protocol,
-- one bit each in this order.
pub print_capability-names_set :
    (value_of : Flag → ℕ) (c : ℕ)
    → AreDigits value_of 0 flags
    → c < 2 ^ 32
    → print_capability value_of c
      ≡ codes "capabilitystring: " ++ join (codes "|") (names_set capability_names c)
unfolding print_capability
print_capability-names_set value_of c digits h =
    ap (λ names. codes "capabilitystring: " ++ join (codes "|") names)
      (ap (map (field_name value_of flags)) (fields_of-ones c h)
        ∙ map-times_one value_of flags (ones 32 c)
        ∙ field_name-names_set value_of flags 0 c digits)
