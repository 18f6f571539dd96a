-- ===== src/SendPacket/Progress.antt =====
-- How much of its input `DecodePacket` takes.
use mysql8_audit_proxy.Base.{
  ℕ, zero, suc, ◌+◌, ◌≤◌, ◌≡◌, refl, ap, [], ◌∷◌, Text, length, Result, ok, err, arith, length-drop,
}
use mysql8_audit_proxy.Base.Action.{Action, ◌>>=◌, ◌>>◌, proceed}
use mysql8_audit_proxy.SendPacket.{
  SendPacket, ReadError, Decoder, Decoding, read_full, binary_read, number_read, filled, assign,
  assigned, resized, fill, read_bytes, decode_packet,
}

-- An action that succeeds takes `k` bytes at least from what is left of the input.
module _ {S : Type 0} (left : S → ℕ) where
  abbrev pub Takes : {A : Type 0} → ℕ → Action ReadError S A → Type 0
  Takes {A} k m = (s s' : S) (a : A) → m s ≡ (ok a, s') → left s' + k ≤ left s

  module _ {A B : Type 0} where
    proceed-left :
        (r : Result ReadError A × S) (f : A → Action ReadError S B) (s' : S) (b : B) (k j n : ℕ)
        → ((a : A) (s : S) → r ≡ (ok a, s) → left s + k ≤ n)
        → ((a : A) → Takes j (f a))
        → proceed r f ≡ (ok b, s')
        → left s' + (k + j) ≤ n
    proceed-left (ok a, s) f s' b k j n hr hf e = omega (arith, hr a s refl, hf a s s' b e)
    proceed-left (err x, s) f s' b k j n hr hf e = cc

    Takes-bind :
        (k j : ℕ) (m : Action ReadError S A) (f : A → Action ReadError S B)
        → Takes k m
        → ((a : A) → Takes j (f a))
        → Takes (k + j) (m >>= f)
    Takes-bind k j m f hm hf s s' b e =
        proceed-left (m s) f s' b k j (left s) (λ a t p. hm s t a p) hf e

abbrev pub src_length : Decoder → ℕ
src_length d = length d.src

abbrev pub input_length : Decoding → ℕ
input_length s = length s.decoder.src

read_full-length :
    (n : ℕ) (src bs rest : Text) → read_full n src ≡ (ok bs, rest) → length rest + n ≤ length src
unfolding read_full
read_full-length zero src bs rest e = ground arith
read_full-length (suc n) [] bs rest e = cc
read_full-length (suc n) (b ∷ src) bs rest e = ground (arith, length-drop n src)

number_read-length :
    (n : ℕ) (d s' : Decoder) (r : Result ReadError Text × Text) (v : ℕ)
    → read_full n d.src ≡ r
    → number_read d.buf r ≡ (ok v, s')
    → src_length s' + n ≤ src_length d
number_read-length n d s' (ok bs, rest) v p e =
    omega (arith, read_full-length n d.src bs rest p, ap (λ r. src_length r.1) e)
number_read-length n d s' (err x, rest) v p e = cc

filled-length :
    (n : ℕ) (d s' : Decoder) (r : Result ReadError Text × Text) (b : Text)
    → read_full n d.src ≡ r
    → filled d r ≡ (ok b, s')
    → src_length s' + n ≤ src_length d
filled-length n d s' (ok bs, rest) b p e =
    omega (arith, read_full-length n d.src bs rest p, ap (λ r. src_length r.1) e)
filled-length n d s' (err x, rest) b p e = cc

binary_read-Takes : (n : ℕ) → Takes src_length n (binary_read n)
unfolding binary_read
binary_read-Takes n d s' v e = number_read-length n d s' (read_full n d.src) v refl e

read_bytes-Takes : Takes src_length 4 (read_bytes)
unfolding read_bytes fill
read_bytes-Takes =
    Takes-bind src_length 4 0 (binary_read 4) _ (binary_read-Takes 4) (λ len d s' b e.
      omega (arith, filled-length len (record d { buf = resized len d.buf }) s' _ b refl e))

assigned-length :
    {A : Type 0} (k n : ℕ) (p : SendPacket) (f : SendPacket → A → SendPacket)
    (r : Result ReadError A × Decoder) (s' : Decoding) (u : Unit {0})
    → ((a : A) (d : Decoder) → r ≡ (ok a, d) → src_length d + k ≤ n)
    → assigned p f r ≡ (ok u, s')
    → input_length s' + k ≤ n
assigned-length k n p f (ok a, d) s' u h e = omega (arith, h a d refl, ap (λ r. input_length r.1) e)
assigned-length k n p f (err x, d) s' u h e = cc

assign-Takes :
    {A : Type 0} (k : ℕ) (f : SendPacket → A → SendPacket) (m : Action ReadError Decoder A)
    → Takes src_length k m
    → Takes input_length k (assign f m)
assign-Takes k f m h s s' u e =
    assigned-length k (input_length s) s.packet f (m s.decoder) s' u (λ a d p. h s.decoder d a p) e

string : (f : SendPacket → Text → SendPacket) → Takes input_length 4 (assign f read_bytes)
string f = assign-Takes 4 f read_bytes read_bytes-Takes

and_then :
    (k j : ℕ) (m n : Action ReadError Decoding (Unit {0}))
    → Takes input_length k m
    → Takes input_length j n
    → Takes input_length (k + j) (m >> n)
and_then k j m n hm hn = Takes-bind input_length k j m (λ _. n) hm (λ _. hn)

decode_packet-Takes : Takes input_length 40 decode_packet
unfolding decode_packet
decode_packet-Takes = and_then 8 32 _ _ (assign-Takes 8 _ _ (binary_read-Takes 8)) (
    and_then 4 28 _ _ (assign-Takes 4 _ _ (binary_read-Takes 4)) (
      and_then 4 24 _ _ (string _) (
        and_then 4 20 _ _ (string _) (
          and_then 4 16 _ _ (string _) (
            and_then 4 12 _ _ (string _)
              (and_then 4 8 _ _ (string _) (and_then 4 4 _ _ (string _) (string _))))))))

-- A record that is decoded takes 40 bytes at least from the input: two numbers and seven lengths.
pub decode_packet-input_length :
    (s s' : Decoding) → decode_packet s ≡ (ok tt, s') → input_length s' + 40 ≤ input_length s
decode_packet-input_length s s' e = decode_packet-Takes s s' tt e
