-- ===== src/Tunnel/Hex.antt =====
-- Go's `encoding/hex` as pkg/tunnel/handshake.go calls it, and the verb `%x` of pkg/hub/tunnel_ws.go.
use mathlib.Core.Option.{some-injective}
use sshole.Base.{
  ℕ, ◌+◌, ◌-◌, ◌*◌, ◌/◌, ◌%◌, ◌≤◌, ◌<◌, ◌≡◌, refl, ◌⊎◌, inl, inr, ◌&&◌, Option, none, some, [], ◌∷◌,
  arith, Str, nat_eq, if◌then◌else◌, ltb, leb, length, All, Option-cases, subst,
}

-- The value of a hexadecimal digit, in either case.
unfoldable pub digit_value : ℕ → Option ℕ
digit_value c =
    if leb b'0' c && leb c b'9'
    then some (c - b'0')
    else if leb b'a' c && leb c b'f'
    then some (c - b'a' + 10)
    else if leb b'A' c && leb c b'F'
    then some (c - b'A' + 10)
    else none

-- `hex.DecodeString(s)`; `none` is an error (a byte that is no digit, or an odd length).
unfoldable pub decode_string : Str → Option Str
decode_string [] = some []
decode_string (a ∷ []) = none
decode_string (a ∷ b ∷ s) =
    let rest = decode_string s in
    elim (digit_value a) [
      | none ↦ none
      | some x ↦ elim (digit_value b) [
        | none ↦ none
        | some y ↦ elim rest [ none ↦ none | some bs ↦ some ((x * 16 + y) ∷ bs) ]
      ]
    ]

-- The lower-case digit of a value below 16.
unfoldable pub digit : ℕ → ℕ
digit n = if ltb n 10 then b'0' + n else b'a' + (n - 10)

-- `fmt.Sprintf("%x", bytes)`
unfoldable pub encode : Str → Str
unfolding digit
encode [] = []
encode (b ∷ bs) = digit (b / 16) ∷ digit (b % 16) ∷ encode bs

abbrev pub IsByte : ℕ → Type 0
IsByte b = b < 256

digit_value-digit : (n : ℕ) → n < 16 → digit_value (digit n) ≡ some n
unfolding digit_value digit
digit_value-digit n h = ground arith

-- Decoding undoes encoding, for any bytes.
pub decode_string-encode : (bs : Str) → All IsByte bs → decode_string (encode bs) ≡ some bs
unfolding decode_string encode
decode_string-encode [] h = refl
decode_string-encode (b ∷ bs) (hb, hs) =
    ground
      (arith, digit_value-digit (b / 16), digit_value-digit (b % 16), decode_string-encode bs hs)

pub length-encode : (bs : Str) → length (encode bs) ≡ length bs * 2
unfolding encode
length-encode [] = refl
length-encode (b ∷ bs) = omega (arith, length-encode bs)

pub length-decode_string :
    (s : Str) {bs : Str} → decode_string s ≡ some bs → length s ≡ length bs * 2
unfolding decode_string
length-decode_string [] h = ground arith
length-decode_string (a ∷ []) h = cc
length-decode_string (a ∷ b ∷ s) h = elim (Option-cases (decode_string s)) [
  | inl bad ↦ ground arith
  | inr (rest, good) ↦ ground (arith, length-decode_string s good)
]

digit_value_bound : (c : ℕ) {x : ℕ} → digit_value c ≡ some x → x < 16
unfolding digit_value
digit_value_bound c h = ground arith

-- What decodes is bytes.
pub decode_string-IsByte : (s : Str) {bs : Str} → decode_string s ≡ some bs → All IsByte bs
unfolding decode_string
decode_string-IsByte [] {bs} h = subst (All IsByte) (some-injective [] bs h) tt
decode_string-IsByte (a ∷ []) h = absurd (cc)
decode_string-IsByte (a ∷ b ∷ s) {bs} h = elim (Option-cases (decode_string s)) [
  | inl bad ↦ ground arith
  | inr (rest, good) ↦ elim (Option-cases (digit_value a)) [
    | inl bad ↦ ground arith
    | inr (x, ax) ↦ elim (Option-cases (digit_value b)) [
      | inl bad ↦ ground arith
      | inr (y, by) ↦ subst (All IsByte) (some-injective ((x * 16 + y) ∷ rest) bs (ground arith)) (
        omega (arith, digit_value_bound a ax, digit_value_bound b by),
        decode_string-IsByte s good,
      )
    ]
  ]
]

-- A digit as `%x` prints it.
abbrev pub IsLowerHex : ℕ → Type 0
IsLowerHex c = ((b'0' ≤ c) × (c ≤ b'9')) ⊎ ((b'a' ≤ c) × (c ≤ b'f'))

digit-digit_value : (c : ℕ) {x : ℕ} → IsLowerHex c → digit_value c ≡ some x → digit x ≡ c
unfolding digit_value digit
digit-digit_value c lower h = ground arith

-- Encoding undoes decoding, for text in lower case.
pub encode-decode_string :
    (s : Str) {bs : Str} → All IsLowerHex s → decode_string s ≡ some bs → encode bs ≡ s
unfolding decode_string encode
encode-decode_string [] lower h = ground arith
encode-decode_string (a ∷ []) lower h = cc
encode-decode_string (a ∷ b ∷ s) {bs} lower h = elim (Option-cases (decode_string s)) [
  | inl bad ↦ ground arith
  | inr (rest, good) ↦ elim (Option-cases (digit_value a)) [
    | inl bad ↦ ground arith
    | inr (x, ax) ↦ elim (Option-cases (digit_value b)) [
      | inl bad ↦ ground arith
      | inr (y, by) ↦
          subst (λ l. encode l ≡ a ∷ b ∷ s) (some-injective ((x * 16 + y) ∷ rest) bs (ground arith))
            (ground (
              arith,
              digit_value_bound a ax,
              digit_value_bound b by,
              digit-digit_value a lower.0 ax,
              digit-digit_value b lower.1.0 by,
              encode-decode_string s lower.1.1 good,
            ))
    ]
  ]
]
