-- ===== src/Delta/Base64.antt =====
-- Python's `base64.b64encode(data).decode('ascii')` and `base64.b64decode(text, validate=True)`.
use tiny_agent.Base.{
  ℕ, ◌+◌, ◌-◌, ◌*◌, ◌/◌, ◌%◌, ◌<◌, ◌≡◌, refl, ◌∙◌, ◌&&◌, List, [], ◌∷◌, if◌then◌else◌, leb, ltb,
  ◌==◌, Bytes, IsBytes, Result, ok, err, decode_error, ◌>>=◌, arith,
}

-- The alphabet: A-Z, a-z, 0-9, + and /.
letter : ℕ → ℕ
letter v =
    if ltb v 26
    then v + b'A'
    else if ltb v 52
    then v - 26 + b'a'
    else if ltb v 62
    then v - 52 + b'0'
    else if v == 62
    then b'+'
    else b'/'

sextet : ℕ → Result ℕ
sextet c =
    if leb b'A' c && leb c b'Z'
    then ok (c - b'A')
    else if leb b'a' c && leb c b'z'
    then ok (c - b'a' + 26)
    else if leb b'0' c && leb c b'9'
    then ok (c - b'0' + 52)
    else if c == b'+'
    then ok 62
    else if c == b'/'
    then ok 63
    else err (decode_error "Only base64 data is allowed")

unfoldable pub b64encode : Bytes → List ℕ
unfolding letter
b64encode [] = []
b64encode (a ∷ []) = letter (a / 4) ∷ letter (a % 4 * 16) ∷ b'=' ∷ b'=' ∷ []
b64encode (a ∷ b ∷ []) =
    letter (a / 4) ∷ letter (a % 4 * 16 + b / 16) ∷ letter (b % 16 * 4) ∷ b'=' ∷ []
b64encode (a ∷ b ∷ c ∷ rest) =
    letter (a / 4)
    ∷ letter (a % 4 * 16 + b / 16)
    ∷ letter (b % 16 * 4 + c / 64)
    ∷ letter (c % 64)
    ∷ b64encode rest

-- A group of four letters; the group that ends the text may be padded.
pub data Padding : Type 0 where
  unpadded one_pad two_pads : Padding

padding : ℕ → ℕ → List ℕ → Padding
padding y z (c ∷ rest) = unpadded
padding y z [] = if z == b'=' then (if y == b'=' then two_pads else one_pad) else unpadded

-- The bytes of a group, before those of the groups that follow it.
decode_group : ℕ → ℕ → ℕ → ℕ → Result Bytes → Padding → Result Bytes
unfolding sextet
decode_group w x y z more unpadded = do
  i ← sextet w
  j ← sextet x
  k ← sextet y
  l ← sextet z
  bytes ← more
  ok ((i * 4 + j / 16) ∷ (j % 16 * 16 + k / 4) ∷ (k % 4 * 64 + l) ∷ bytes)
decode_group w x y z more one_pad = do
  i ← sextet w
  j ← sextet x
  k ← sextet y
  ok ((i * 4 + j / 16) ∷ (j % 16 * 16 + k / 4) ∷ [])
decode_group w x y z more two_pads = do i ← sextet w; j ← sextet x; ok ((i * 4 + j / 16) ∷ [])

unfoldable pub b64decode : List ℕ → Result Bytes
unfolding decode_group padding
b64decode [] = ok []
b64decode (w ∷ x ∷ y ∷ z ∷ rest) = decode_group w x y z (b64decode rest) (padding y z rest)
b64decode _ = err (decode_error "Incorrect padding")

sextet-letter : (v : ℕ) → v < 64 → sextet (letter v) ≡ ok v
unfolding sextet letter
sextet-letter v h = ground arith

padding-letter : (y v : ℕ) (rest : List ℕ) → padding y (letter v) rest ≡ unpadded
unfolding padding letter
padding-letter y v [] = ground arith
padding-letter y v (c ∷ rest) = refl

padding_one : (v : ℕ) → padding (letter v) b'=' [] ≡ one_pad
unfolding padding letter
padding_one v = ground arith

module _ (i j : ℕ) (hi : i < 64) (hj : j < 64) where
  decode_two_pads :
      (y z : ℕ) (more : Result Bytes)
      → decode_group (letter i) (letter j) y z more two_pads ≡ ok ((i * 4 + j / 16) ∷ [])
  unfolding decode_group
  decode_two_pads y z more = rw (sextet-letter i hi) (rw (sextet-letter j hj))

  decode_one_pad :
      (k z : ℕ) (more : Result Bytes)
      → k < 64
      → decode_group (letter i) (letter j) (letter k) z more one_pad
        ≡ ok ((i * 4 + j / 16) ∷ (j % 16 * 16 + k / 4) ∷ [])
  unfolding decode_group
  decode_one_pad k z more hk =
      rw (sextet-letter i hi) (rw (sextet-letter j hj) (rw (sextet-letter k hk)))

  decode_unpadded :
      (k l : ℕ) (bytes : Bytes)
      → k < 64
      → l < 64
      → decode_group (letter i) (letter j) (letter k) (letter l) (ok bytes) unpadded
        ≡ ok ((i * 4 + j / 16) ∷ (j % 16 * 16 + k / 4) ∷ (k % 4 * 64 + l) ∷ bytes)
  unfolding decode_group
  decode_unpadded k l bytes hk hl =
      rw (sextet-letter i hi)
        (rw (sextet-letter j hj) (rw (sextet-letter k hk) (rw (sextet-letter l hl))))

-- Decoding what was encoded gives the same bytes back.
pub b64decode-b64encode : (bytes : Bytes) → IsBytes bytes → b64decode (b64encode bytes) ≡ ok bytes
unfolding b64decode b64encode
b64decode-b64encode [] h = refl
b64decode-b64encode (a ∷ []) (p, h) =
    decode_two_pads (a / 4) (a % 4 * 16) (omega arith) (omega arith) b'=' b'=' (ok [])
    ∙ ground arith
b64decode-b64encode (a ∷ b ∷ []) (p, (q, h)) = rw padding_one (
    decode_one_pad (a / 4) (a % 4 * 16 + b / 16) (omega arith) (omega arith) (b % 16 * 4) b'='
      (ok []) (omega arith)
    ∙ ground arith)
b64decode-b64encode (a ∷ b ∷ c ∷ rest) (p, (q, (r, h))) = rw (b64decode-b64encode rest h) (
    rw padding-letter (
      decode_unpadded (a / 4) (a % 4 * 16 + b / 16) (omega arith) (omega arith)
        (b % 16 * 4 + c / 64) (c % 64) rest (omega arith) (omega arith)
      ∙ ground arith))
