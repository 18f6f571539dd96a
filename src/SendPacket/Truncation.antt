-- ===== src/SendPacket/Truncation.antt =====
-- What `DecodePacket` does where the input ends inside a record.
use mysql8_audit_proxy.Base.{
  ℕ, zero, suc, ◌≡◌, ◌≢◌, refl, sym, ap, ◌∙◌, [], ◌∷◌, ◌++◌, Text, take-append_le, drop-append_le,
  Result, ok, err, append-nil, arith, length-append,
}
use mysql8_audit_proxy.Base.Action.{Action, ◌>>=◌, ◌>>◌, proceed}
use mysql8_audit_proxy.SendPacket.{
  SendPacket, ReadError, Decoder, Decoding, read_full, binary_read, number_read, filled, assign,
  assigned, resized, fill, read_bytes, decode_packet,
}
use mysql8_audit_proxy.SendPacket.Encoding.{encoding}
use mysql8_audit_proxy.SendPacket.RoundTrip.{IsEncodable, decode_packet-encoding}

-- An action that succeeds does the same, and leaves the rest, if the input goes on.
module _ {S : Type 0} (grow : S → S) where
  abbrev pub Extends : {A : Type 0} → Action ReadError S A → Type 0
  Extends {A} m = (s s' : S) (a : A) → m s ≡ (ok a, s') → m (grow s) ≡ (ok a, grow s')

  module _ {A B : Type 0} where
    proceed-grow :
        (r : Result ReadError A × S) (q : Result ReadError A × S) (f : A → Action ReadError S B)
        (s' : S) (b : B)
        → ((a : A) (s : S) → r ≡ (ok a, s) → q ≡ (ok a, grow s))
        → ((a : A) → Extends (f a))
        → proceed r f ≡ (ok b, s')
        → proceed q f ≡ (ok b, grow s')
    proceed-grow (ok a, s) q f s' b hq hf e = rw (hq a s refl) (hf a s s' b e)
    proceed-grow (err x, s) q f s' b hq hf e = cc

    Extends-bind :
        (m : Action ReadError S A) (f : A → Action ReadError S B)
        → Extends m
        → ((a : A) → Extends (f a))
        → Extends (m >>= f)
    Extends-bind m f hm hf s s' b e =
        proceed-grow (m s) (m (grow s)) f s' b (λ a t p. hm s t a p) hf e

module _ (more : Text) where
  abbrev longer : Decoder → Decoder
  longer d = record d { src = d.src ++ more }

  read_full-append_ok :
      (n : ℕ) (src bs rest : Text)
      → read_full n src ≡ (ok bs, rest)
      → read_full n (src ++ more) ≡ (ok bs, rest ++ more)
  unfolding read_full
  read_full-append_ok zero src bs rest e = ground arith
  read_full-append_ok (suc n) [] bs rest e = cc
  read_full-append_ok (suc n) (b ∷ src) bs rest e =
      ground (arith, take-append_le n src more, drop-append_le n src more, length-append src more)

  number_read-longer :
      (n : ℕ) (d s' : Decoder) (r : Result ReadError Text × Text) (v : ℕ)
      → read_full n d.src ≡ r
      → number_read d.buf r ≡ (ok v, s')
      → number_read d.buf (read_full n (d.src ++ more)) ≡ (ok v, longer s')
  number_read-longer n d s' (ok bs, rest) v p e =
      rw (read_full-append_ok n d.src bs rest p) (ap (λ r. (r.0, longer r.1)) e)
  number_read-longer n d s' (err x, rest) v p e = cc

  filled-longer :
      (n : ℕ) (d s' : Decoder) (r : Result ReadError Text × Text) (b : Text)
      → read_full n d.src ≡ r
      → filled d r ≡ (ok b, s')
      → filled (longer d) (read_full n (d.src ++ more)) ≡ (ok b, longer s')
  filled-longer n d s' (ok bs, rest) b p e =
      rw (read_full-append_ok n d.src bs rest p) (ap (λ r. (r.0, longer r.1)) e)
  filled-longer n d s' (err x, rest) b p e = cc

  binary_read-Extends : (n : ℕ) → Extends longer (binary_read n)
  unfolding binary_read
  binary_read-Extends n d s' v e = number_read-longer n d s' (read_full n d.src) v refl e

  fill-Extends : (n : ℕ) → Extends longer (fill n)
  unfolding fill
  fill-Extends n d s' b e = filled-longer n d s' (read_full n d.src) b refl e

  read_bytes-Extends : Extends longer read_bytes
  unfolding read_bytes
  read_bytes-Extends =
      Extends-bind longer (binary_read 4) _ (binary_read-Extends 4)
        (λ len d s' b e. fill-Extends len (record d { buf = resized len d.buf }) s' b e)

  abbrev longer_input : Decoding → Decoding
  longer_input s = record s { decoder = longer s.decoder }

  assigned-longer :
      {A : Type 0} (p : SendPacket) (f : SendPacket → A → SendPacket)
      (r q : Result ReadError A × Decoder) (s' : Decoding) (u : Unit {0})
      → ((a : A) (d : Decoder) → r ≡ (ok a, d) → q ≡ (ok a, longer d))
      → assigned p f r ≡ (ok u, s')
      → assigned p f q ≡ (ok u, longer_input s')
  assigned-longer p f (ok a, d) q s' u h e = rw (h a d refl) (ap (λ r. (r.0, longer_input r.1)) e)
  assigned-longer p f (err x, d) q s' u h e = cc

  assign-Extends :
      {A : Type 0} (f : SendPacket → A → SendPacket) (m : Action ReadError Decoder A)
      → Extends longer m
      → Extends longer_input (assign f m)
  assign-Extends f m h s s' u e =
      assigned-longer s.packet f (m s.decoder) (m (longer s.decoder)) s' u
        (λ a d p. h s.decoder d a p) e

  then-Extends :
      (m n : Action ReadError Decoding (Unit {0}))
      → Extends longer_input m
      → Extends longer_input n
      → Extends longer_input (m >> n)
  then-Extends m n hm hn = Extends-bind longer_input m (λ _. n) hm (λ _. hn)

  decode_packet-Extends : Extends longer_input decode_packet
  unfolding decode_packet
  decode_packet-Extends = then-Extends _ _ (assign-Extends _ _ (binary_read-Extends 8)) (
      then-Extends _ _ (assign-Extends _ _ (binary_read-Extends 4)) (
        then-Extends _ _ (string _) (
          then-Extends _ _ (string _) (
            then-Extends _ _ (string _) (
              then-Extends _ _ (string _)
                (then-Extends _ _ (string _) (then-Extends _ _ (string _) (string _))))))))
    where
      string : (f : SendPacket → Text → SendPacket) → Extends longer_input (assign f read_bytes)
      string f = assign-Extends f read_bytes read_bytes-Extends

pub append-ne-nil : (xs : Text) (y : ℕ) (ys : Text) → xs ++ (y ∷ ys) ≢ []
append-ne-nil [] y ys e = cc
append-ne-nil (x ∷ xs) y ys e = cc

abbrev pub input : SendPacket → Text → Text → Decoding
input old buf src = record { packet = old; decoder = record { buf = buf; src = src } }

-- Decoding fails on every proper prefix of the encoding of a packet whose values fit their fields.
pub decode_packet_truncated :
    (p old : SendPacket) (buf front back : Text) (x : ℕ)
    → IsEncodable p
    → encoding p ≡ front ++ (x ∷ back)
    → (decode_packet (input old buf front)).0 ≢ ok tt
decode_packet_truncated p old buf front back x h e ok_at =
    let s = (decode_packet (input old buf front)).1 in
    let whole : decode_packet (input old buf (front ++ (x ∷ back)))
        ≡ (ok tt, longer_input (x ∷ back) s) =
      decode_packet-Extends (x ∷ back) (input old buf front) s tt (ap (λ r. (r, s)) ok_at) in
    let full = decode_packet-encoding p old buf [] h in
    let same : front ++ (x ∷ back) ≡ encoding p ++ [] = sym e ∙ sym (append-nil (encoding p)) in
    append-ne-nil s.decoder.src x back (
      ap (λ r. r.1.decoder.src) (sym whole ∙ ap (λ t. decode_packet (input old buf t)) same ∙ full))
