-- ===== src/Tests/Codec.antt =====
-- base64url without padding as a function, with the facts that the model asks of the codec.
use singularis.Prelude.{
  ℕ, ◌+◌, ◌*◌, ◌-◌, ◌/◌, ◌%◌, ◌<◌, ◌≤◌, ◌≡◌, refl, ◌&&◌, Option, none, some, [], ◌∷◌, arith,
  if◌then◌else◌, leb, ltb, eqb, All, length, Text, Bytes, len, char_len, subst,
}
use singularis.Protocol.Message.{Base64, IsByte}

char_of : ℕ → ℕ
char_of d =
    if ltb d 26
    then d + 65
    else if ltb d 52
    then d + 71
    else if ltb d 62
    then d - 4
    else if eqb d 62
    then 45
    else 95

code_of : ℕ → Option ℕ
code_of c =
    if leb 65 c && leb c 90
    then some (c - 65)
    else if leb 97 c && leb c 122
    then some (c - 71)
    else if leb 48 c && leb c 57
    then some (c + 4)
    else if eqb c 45
    then some 62
    else if eqb c 95
    then some 63
    else none

code_of-char_of : (d : ℕ) → d < 64 → code_of (char_of d) ≡ some d
unfolding code_of char_of
code_of-char_of d h = ground arith

code_of-lt : (c d : ℕ) → code_of c ≡ some d → d < 64
unfolding code_of
code_of-lt c d h = ground arith

char_of-lt : (d : ℕ) → char_of d < 128
unfolding char_of
char_of-lt d = ground arith

abbrev bind : {A B : Type 0} → Option A → (A → Option B) → Option B
bind none f = none
bind (some a) f = f a

pub encode : Bytes → Text
encode [] = []
encode (a ∷ []) = char_of (a / 4) ∷ char_of (a % 4 * 16) ∷ []
encode (a ∷ b ∷ []) = char_of (a / 4) ∷ char_of (a % 4 * 16 + b / 16) ∷ char_of (b % 16 * 4) ∷ []
encode (a ∷ b ∷ c ∷ rest) =
    char_of (a / 4)
    ∷ char_of (a % 4 * 16 + b / 16)
    ∷ char_of (b % 16 * 4 + c / 64)
    ∷ char_of (c % 64)
    ∷ encode rest

one : Option ℕ → Option ℕ → Option Bytes
one (some w) (some x) = some ((w * 4 + x / 16) ∷ [])
one _ _ = none

two : Option ℕ → Option ℕ → Option ℕ → Option Bytes
two (some w) (some x) (some y) = some ((w * 4 + x / 16) ∷ (x % 16 * 16 + y / 4) ∷ [])
two _ _ _ = none

three : Option ℕ → Option ℕ → Option ℕ → Option ℕ → Option Bytes → Option Bytes
three (some w) (some x) (some y) (some z) (some rest) =
    some ((w * 4 + x / 16) ∷ (x % 16 * 16 + y / 4) ∷ (y % 4 * 64 + z) ∷ rest)
three _ _ _ _ _ = none

pub decode : Text → Option Bytes
unfolding one two three
decode [] = some []
decode (w ∷ []) = none
decode (w ∷ x ∷ []) = one (code_of w) (code_of x)
decode (w ∷ x ∷ y ∷ []) = two (code_of w) (code_of x) (code_of y)
decode (w ∷ x ∷ y ∷ z ∷ rest) = three (code_of w) (code_of x) (code_of y) (code_of z) (decode rest)

pub decode-encode : (b : Bytes) → All IsByte b → decode (encode b) ≡ some b
unfolding encode decode
decode-encode [] h = refl
decode-encode (a ∷ []) h = ground (arith, code_of-char_of (a / 4), code_of-char_of (a % 4 * 16))
decode-encode (a ∷ b ∷ []) h = ground (
  arith,
  code_of-char_of (a / 4),
  code_of-char_of (a % 4 * 16 + b / 16),
  code_of-char_of (b % 16 * 4),
)
decode-encode (a ∷ b ∷ c ∷ rest) h = ground (
  arith,
  code_of-char_of (a / 4),
  code_of-char_of (a % 4 * 16 + b / 16),
  code_of-char_of (b % 16 * 4 + c / 64),
  code_of-char_of (c % 64),
  decode-encode rest h.1.1.1,
)

some_path : {a b : Bytes} → some a ≡ some b → a ≡ b
some_path h = cc

one-bytes :
    (w x : Option ℕ)
    → ((d : ℕ) → w ≡ some d → d < 64)
    → ((d : ℕ) → x ≡ some d → d < 64)
    → (b : Bytes) → one w x ≡ some b
    → All IsByte b
unfolding one
one-bytes (some w) (some x) hw hx b h =
    subst (All IsByte) (some_path h) (omega (arith, hw w refl, hx x refl))
one-bytes none x hw hx b h = cc
one-bytes _ _ hw hx b h = cc

two-bytes :
    (w x y : Option ℕ)
    → ((d : ℕ) → w ≡ some d → d < 64)
    → ((d : ℕ) → x ≡ some d → d < 64)
    → ((d : ℕ) → y ≡ some d → d < 64)
    → (b : Bytes) → two w x y ≡ some b
    → All IsByte b
unfolding two
two-bytes (some w) (some x) (some y) hw hx hy b h =
    subst (All IsByte) (some_path h) (omega (arith, hw w refl, hx x refl, hy y refl))
two-bytes none x y hw hx hy b h = cc
two-bytes _ _ _ hw hx hy b h = cc

char_len-char_of : (d : ℕ) → char_len (char_of d) ≡ 1
unfolding char_of
char_len-char_of d = ground arith

three-bytes :
    (w x y z : Option ℕ) (r : Option Bytes)
    → ((d : ℕ) → w ≡ some d → d < 64)
    → ((d : ℕ) → x ≡ some d → d < 64)
    → ((d : ℕ) → y ≡ some d → d < 64)
    → ((d : ℕ) → z ≡ some d → d < 64)
    → ((b : Bytes) → r ≡ some b → All IsByte b)
    → (b : Bytes) → three w x y z r ≡ some b
    → All IsByte b
unfolding three
three-bytes (some w) (some x) (some y) (some z) (some r) hw hx hy hz hr b h =
    subst (All IsByte) (some_path h) (
      omega (arith, hw w refl, hx x refl),
      (omega (arith, hx x refl, hy y refl), (omega (arith, hy y refl, hz z refl), hr r refl)),
    )
three-bytes none x y z r hw hx hy hz hr b h = cc
three-bytes _ _ _ _ _ hw hx hy hz hr b h = cc

pub decode_bytes : (s : Text) (b : Bytes) → decode s ≡ some b → All IsByte b
unfolding decode
decode_bytes [] b h = subst (All IsByte) (some_path h) tt
decode_bytes (w ∷ []) b h = cc
decode_bytes (w ∷ x ∷ []) b h = one-bytes (code_of w) (code_of x) (code_of-lt w) (code_of-lt x) b h
decode_bytes (w ∷ x ∷ y ∷ []) b h =
    two-bytes (code_of w) (code_of x) (code_of y) (code_of-lt w) (code_of-lt x) (code_of-lt y) b h
decode_bytes (w ∷ x ∷ y ∷ z ∷ rest) b h =
    three-bytes (code_of w) (code_of x) (code_of y) (code_of z) (decode rest) (code_of-lt w)
      (code_of-lt x) (code_of-lt y) (code_of-lt z) (decode_bytes rest) b h

pub len-encode : (b : Bytes) → len (encode b) ≤ (length b + 2) / 3 * 4
unfolding encode len
len-encode [] = omega arith
len-encode (a ∷ []) = rw (char_len-char_of (a / 4), char_len-char_of (a % 4 * 16)) (omega arith)
len-encode (a ∷ b ∷ []) =
    rw
      (
        char_len-char_of (a / 4),
        char_len-char_of (a % 4 * 16 + b / 16),
        char_len-char_of (b % 16 * 4),
      )
      (omega arith)
len-encode (a ∷ b ∷ c ∷ rest) =
    rw
      (
        char_len-char_of (a / 4),
        char_len-char_of (a % 4 * 16 + b / 16),
        char_len-char_of (b % 16 * 4 + c / 64),
        char_len-char_of (c % 64),
      )
      (omega (arith, len-encode rest))

pub encode_empty : (b : Bytes) → encode b ≡ [] → b ≡ []
unfolding encode
encode_empty [] h = refl
encode_empty (a ∷ []) h = cc
encode_empty (a ∷ b ∷ []) h = cc
encode_empty (a ∷ b ∷ c ∷ rest) h = cc

unfoldable pub url_safe : Base64
unfolding encode decode char_of code_of
url_safe = record {
  encode = encode;
  decode = decode;
  decode-encode = decode-encode;
  decode_bytes = decode_bytes;
  len-encode = len-encode;
  encode_empty = encode_empty;
}
