-- ===== src/Domain/Ids/Crockford.antt =====
-- `encode_crockford` and `decode_crockford`, one after the other.
use growtrics_challenge.Common.{
  ℕ, zero, suc, ◌+◌, ◌*◌, ◌/◌, ◌%◌, ◌^◌, ◌<◌, ◌≡◌, refl, ap, ◌∙◌, sym, Bool, true, false, Option,
  none, some, List, [], ◌∷◌, map, length, All, arith, ltb, ◌==◌, Bool-cases, Option-cases, inl, inr,
  ==_iff, lt→ltb, ◌&&◌,
}
use mathlib.Core.List.{append-nil}
use native.Mathlib.Nat.{zero-mul, zero-add}
use growtrics_challenge.Common.Text.{Str}
use growtrics_challenge.Effects.{ok, Result-cases}
use growtrics_challenge.Effects.Pure.{◌>>=◌}
use growtrics_challenge.Domain.Ids.{
  alphabet_char, alphabet_index, from_bytes, to_bytes, encode_loop, encode_crockford, decode_loop,
  decode_crockford, all_chars, is_body_char, index_from, char_at, crockford_alphabet,
}
use growtrics_challenge.Domain.Ids.Radix.{
  digits, undigits, length-digits, undigits-digits, digits-undigits, digits-small, undigits-lt,
}

-- Bytes are digits in base 256.
from_bytes-undigits : (value : ℕ) (bs : List ℕ) → from_bytes value bs ≡ undigits 256 value bs
unfolding from_bytes undigits
from_bytes-undigits value [] = refl
from_bytes-undigits value (b ∷ bs) = from_bytes-undigits (value * 256 + b) bs

to_bytes-digits : (n value : ℕ) (out : List ℕ) → to_bytes n value out ≡ digits 256 n value out
unfolding to_bytes digits
to_bytes-digits zero value out = refl
to_bytes-digits (suc n) value out = to_bytes-digits n (value / 256) ((value % 256) ∷ out)

-- Characters are digits in base 32.
encode_loop-digits :
    (n value : ℕ) (out : List ℕ)
    → encode_loop n value (map alphabet_char out) ≡ map alphabet_char (digits 32 n value out)
unfolding encode_loop digits
encode_loop-digits zero value out = refl
encode_loop-digits (suc n) value out = encode_loop-digits n (value / 32) ((value % 32) ∷ out)

-- A test that every index below a bound passes, and what it tells of one index.
passes : (ℕ → Bool) → ℕ → Bool
passes test zero = true
passes test (suc top) = passes test top && test top

test_of_passes :
    (test : ℕ → Bool) (bound i : ℕ) → i < bound → passes test bound ≡ true → test i ≡ true
unfolding passes
test_of_passes test zero i small h = absurd (omega arith)
test_of_passes test (suc top) i small h = ground (arith, test_of_passes test top i)

abbrev is_index : ℕ → Option ℕ → Bool
is_index i none = false
is_index i (some j) = j == i

is_index-some : (i : ℕ) (o : Option ℕ) → is_index i o ≡ true → o ≡ some i
is_index-some i none h = cc
is_index-some i (some j) h = ground arith

index_table : passes (λ i. is_index i (alphabet_index (alphabet_char i))) 32 ≡ true
unfolding passes alphabet_index alphabet_char
index_table = refl

index-char : (i : ℕ) → i < 32 → alphabet_index (alphabet_char i) ≡ some i
index-char i h = is_index-some i _ (test_of_passes _ 32 i h index_table)

body_table : passes (λ i. is_body_char (alphabet_char i)) 32 ≡ true
unfolding passes is_body_char alphabet_char
body_table = refl

-- What `index_from` finds stands at that place.
index_from-char :
    (cs : Str) (k c i : ℕ)
    → index_from k cs c ≡ some i
    → (n : ℕ) × (i ≡ k + n) × (n < length cs) × (char_at cs n ≡ c)
index_from-char [] k c i h = cc
index_from-char (x ∷ xs) k c i h = elim (Bool-cases (x == c)) [
  | inl e ↦ (0, ground arith, omega arith, ground arith)
  | inr e ↦
      let (n, at, small, char) = index_from-char xs (suc k) c i (rw e at h) in
      (suc n, omega arith, omega arith, char)
]

-- The only characters with an index are those of the alphabet.
char-index : (c i : ℕ) → alphabet_index c ≡ some i → (alphabet_char i ≡ c) × (i < 32)
unfolding alphabet_index alphabet_char
char-index c i h =
    let (n, at, small, char) = index_from-char crockford_alphabet 0 c i h in
    let e : i ≡ n = omega arith in (rw e char, rw e small)

decode_loop-map :
    (ds : List ℕ) (value : ℕ)
    → All (λ d. d < 32) ds
    → decode_loop value (map alphabet_char ds) ≡ ok (undigits 32 value ds)
unfolding decode_loop undigits
decode_loop-map [] value h = refl
decode_loop-map (d ∷ ds) value h =
    rw (index-char d h.0, decode_loop) (decode_loop-map ds (value * 32 + d) h.1)

-- A text that decodes is the image of digits with its value.
decode_loop-eq-ok :
    (cs : Str) (value v : ℕ)
    → decode_loop value cs ≡ ok v
    → (ds : List ℕ) × (cs ≡ map alphabet_char ds)
      × All (λ d. d < 32) ds
      × (v ≡ undigits 32 value ds)
unfolding decode_loop undigits
decode_loop-eq-ok [] value v h = ([], refl, tt, ground arith)
decode_loop-eq-ok (c ∷ cs) value v h = elim (Option-cases (alphabet_index c)) [
  | inl e ↦ absurd (ground arith)
  | inr (d, e) ↦
      let (ds, image, small, val) =
        decode_loop-eq-ok cs (value * 32 + d) v (rw (e, decode_loop) at h) in
      let (char, lt) = char-index c d e in (d ∷ ds, cc, (lt, small), val)
]

length-map : (f : ℕ → ℕ) (l : List ℕ) → length (map f l) ≡ length l
length-map f [] = refl
length-map f (x ∷ l) = ap suc (length-map f l)

-- The characters of an encoded value are those of the patterns' class.
all_chars-map :
    (ds : List ℕ) → All (λ d. d < 32) ds → all_chars is_body_char (map alphabet_char ds) ≡ true
all_chars-map [] h = refl
all_chars-map (d ∷ ds) h =
    rw (test_of_passes (λ i. is_body_char (alphabet_char i)) 32 d h.0 body_table)
      (all_chars-map ds h.1)

decode-ok :
    (s : Str) (v : ℕ)
    → length s ≡ 26
    → decode_loop 0 s ≡ ok v
    → v < 2 ^ 128
    → decode_crockford s ≡ ok (to_bytes 16 v [])
unfolding decode_crockford
decode-ok s v l d h = rw ((==_iff (length s) 26).1 l, d, lt→ltb v (2 ^ 128) h) refl

-- Sixteen bytes are the digits of their value.
to_bytes-undigits :
    (raw : List ℕ)
    → length raw ≡ 16
    → All (λ b. b < 256) raw
    → to_bytes 16 (undigits 256 0 raw) [] ≡ raw
unfolding digits
to_bytes-undigits raw sixteen bytes =
    to_bytes-digits 16 (undigits 256 0 raw) []
    ∙ (rw sixteen at (digits-undigits {b = 256} (omega arith) raw 0 0 [] bytes))
    ∙ append-nil raw

module _ (raw : List ℕ) (sixteen : length raw ≡ 16) where
  body : List ℕ
  body = digits 32 26 (undigits 256 0 raw) []

  encode-body : encode_crockford raw ≡ ok (map alphabet_char body)
  unfolding encode_crockford body
  encode-body =
      rw ((==_iff (length raw) 16).1 sixteen)
        (ap ok (rw (from_bytes-undigits 0 raw) (encode_loop-digits 26 (undigits 256 0 raw) [])))

  body-small : All (λ d. d < 32) body
  unfolding body
  body-small = digits-small (omega arith) 26 (undigits 256 0 raw) [] tt

  length-body : length (map alphabet_char body) ≡ 26
  unfolding body
  length-body = length-map alphabet_char _ ∙ length-digits 32 26 (undigits 256 0 raw) []

  -- Sixteen bytes encode to 26 characters of the class that the id patterns allow.
  pub encode_crockford-body :
      (s : Str) × (encode_crockford raw ≡ ok s)
      × (length s ≡ 26)
      × (all_chars is_body_char s ≡ true)
  encode_crockford-body =
      (map alphabet_char body, encode-body, length-body, all_chars-map body body-small)

  module _ (bytes : All (λ b. b < 256) raw) where
    value-lt : undigits 256 0 raw < 2 ^ 128
    value-lt = rw sixteen at (undigits-lt {b = 256} (omega arith) raw 0 0 bytes (omega arith))

    value-body : undigits 32 0 body ≡ undigits 256 0 raw
    unfolding body undigits
    value-body =
        undigits-digits {b = 32} (omega arith) 26 (undigits 256 0 raw) 0 []
          (omega (arith, value-lt))
        ∙ rw (zero-mul, zero-add) refl

    -- Sixteen bytes encoded and decoded are the bytes again.
    pub decode-encode : (encode_crockford raw >>= decode_crockford) ≡ ok raw
    decode-encode = rw encode-body (
        decode-ok (map alphabet_char body) (undigits 256 0 raw) length-body
          (decode_loop-map body 0 body-small ∙ ap ok value-body) value-lt
        ∙ ap ok (to_bytes-undigits raw sixteen bytes))

decode-eq-ok :
    (s : Str) (raw : List ℕ)
    → decode_crockford s ≡ ok raw
    → (v : ℕ) × (length s ≡ 26)
      × (decode_loop 0 s ≡ ok v)
      × (v < 2 ^ 128)
      × (raw ≡ to_bytes 16 v [])
unfolding decode_crockford
decode-eq-ok s raw h = elim (Bool-cases (length s == 26)) [
  | inr e ↦ absurd (ground arith)
  | inl e ↦ elim (Result-cases (decode_loop 0 s)) [
    | inr (x, d) ↦ absurd (ground arith)
    | inl (v, d) ↦ elim (Bool-cases (ltb v (2 ^ 128))) [
      | inl lt ↦ (v, ground arith, d, ground arith, ground arith)
      | inr ge ↦ absurd (ground arith)
    ]
  ]
]

length-to_bytes : (v : ℕ) → length (to_bytes 16 v []) ≡ 16
length-to_bytes v = ap length (to_bytes-digits 16 v []) ∙ length-digits 256 16 v []

undigits-to_bytes : (v : ℕ) → v < 2 ^ 128 → undigits 256 0 (to_bytes 16 v []) ≡ v
unfolding undigits
undigits-to_bytes v h =
    ap (undigits 256 0) (to_bytes-digits 16 v [])
    ∙ undigits-digits {b = 256} (omega arith) 16 v 0 [] (omega arith)
    ∙ rw (zero-mul, zero-add) refl

encode-to_bytes :
    (v : ℕ)
    → v < 2 ^ 128
    → encode_crockford (to_bytes 16 v []) ≡ ok (map alphabet_char (digits 32 26 v []))
unfolding body
encode-to_bytes v h =
    encode-body (to_bytes 16 v []) (length-to_bytes v)
    ∙ ap (λ x. ok (map alphabet_char (digits 32 26 x []))) (undigits-to_bytes v h)

-- A text that decodes is the encoding of the bytes it decodes to, so each id has one spelling.
pub encode-decode :
    (s : Str) (raw : List ℕ) → decode_crockford s ≡ ok raw → encode_crockford raw ≡ ok s
unfolding digits
encode-decode s raw h =
    let (v, len, loop, lt, bytes) = decode-eq-ok s raw h in
    let (ds, image, small, val) = decode_loop-eq-ok s 0 v loop in
    let count : length ds ≡ 26 = sym (length-map alphabet_char ds) ∙ ap length (sym image) ∙ len in
    let back : digits 32 26 v [] ≡ ds =
      ap (λ x. digits 32 26 x []) val
      ∙ (rw count at (digits-undigits {b = 32} (omega arith) ds 0 0 [] small))
      ∙ append-nil ds in
    ap encode_crockford bytes
    ∙ encode-to_bytes v lt
    ∙ ap (λ l. ok (map alphabet_char l)) back
    ∙ ap ok (sym image)
