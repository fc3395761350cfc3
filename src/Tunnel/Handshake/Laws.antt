-- ===== src/Tunnel/Handshake/Laws.antt =====
-- What the two ends of pkg/tunnel/handshake.go promise one another.
use sshole.Base.{
  ℕ, zero, suc, ◌+◌, ◌-◌, ◌*◌, ◌≡◌, refl, sym, ap, ◌∙◌, ◌↔◌, inl, inr, true, none, some, [], ◌∷◌,
  ◌++◌, arith, Str, nat_eq, length, take, drop, Option-cases, All, take-append-drop,
}
use mathlib.Core.Option.{none-ne-some}
use mathlib.Core.List.{append_cancel_left}
use sshole.Tunnel.Hex
use sshole.Tunnel.Hex.{
  decode_string, encode, IsLowerHex, length-decode_string, encode-decode_string,
}
use sshole.Tunnel.Handshake.{
  handshake_magic_size, handshake_sid_size, handshake_size, handshake_magic, copy_array, decode_32,
  without_dashes, frame, equal_bytes, session_id_to_16_bytes, build_handshake, validate_handshake,
  send_handshake, read_handshake,
}

length-copy_array : (n : ℕ) (src : Str) → length (copy_array n src) ≡ n
length-copy_array zero src = refl
length-copy_array (suc n) [] = ap suc (length-copy_array n [])
length-copy_array (suc n) (b ∷ src) = ap suc (length-copy_array n src)

-- An array of the right length is copied whole.
pub copy_array_whole : (n : ℕ) (src : Str) → length src ≡ n → copy_array n src ≡ src
copy_array_whole zero [] h = refl
copy_array_whole zero (b ∷ src) h = ground arith
copy_array_whole (suc n) [] h = ground arith
copy_array_whole (suc n) (b ∷ src) h = ap (λ l. b ∷ l) (copy_array_whole n src (omega arith))

-- The bytewise comparison decides equality.
pub equal_bytes_iff : (a b : Str) → (equal_bytes a b ≡ true) ↔ (a ≡ b)
unfolding equal_bytes
equal_bytes_iff [] [] = (λ _. refl, λ _. refl)
equal_bytes_iff [] (b ∷ bs) = (λ e. cc, λ e. cc)
equal_bytes_iff (a ∷ as') [] = (λ e. cc, λ e. cc)
equal_bytes_iff (a ∷ as') (b ∷ bs) = ground (arith, equal_bytes_iff as' bs)

decode_32-length : (s : Str) {b : Str} → decode_32 s ≡ some b → length b ≡ 16
unfolding decode_32
decode_32-length s h = ground arith

decode_32-decode_string :
    (s : Str) {b : Str} → decode_32 s ≡ some b → (decode_string s ≡ some b) × (length s ≡ 32)
unfolding decode_32
decode_32-decode_string s h = ground arith

-- 32 hexadecimal digits decode to 16 bytes.
decode_32_of_digits :
    (s : Str) {b : Str} → length s ≡ 32 → decode_string s ≡ some b → decode_32 s ≡ some b
unfolding decode_32
decode_32_of_digits s {b} l d = ground (arith, length-decode_string s d)

-- A dash is no hexadecimal digit, so what decodes has none.
without_dashes_decoded : (s : Str) {b : Str} → decode_string s ≡ some b → without_dashes s ≡ s
unfolding decode_string without_dashes Hex.digit_value
without_dashes_decoded [] h = refl
without_dashes_decoded (a ∷ []) h = cc
without_dashes_decoded (a ∷ c ∷ s) h = elim (Option-cases (decode_string s)) [
  | inl bad ↦ ground arith
  | inr (rest, good) ↦ ground (arith, without_dashes_decoded s good)
]

digit_value_lower : (c : ℕ) → IsLowerHex c → (x : ℕ) × (Hex.digit_value c ≡ some x)
unfolding Hex.digit_value
digit_value_lower c (inl d) = (c - b'0', ground arith)
digit_value_lower c (inr l) = (c - b'a' + 10, ground arith)

decode_string_lower :
    (n : ℕ) (s : Str)
    → length s ≡ n * 2
    → All IsLowerHex s
    → (bs : Str) × (decode_string s ≡ some bs)
unfolding decode_string
decode_string_lower n [] l h = ([], refl)
decode_string_lower n (a ∷ []) l h = absurd (omega arith)
decode_string_lower n (a ∷ b ∷ s) l h =
    let (x, ax) = digit_value_lower a h.0 in
    let (y, by) = digit_value_lower b h.1.0 in
    let (bs, e) = decode_string_lower (n - 1) s (omega arith) h.1.1 in
    ((x * 16 + y) ∷ bs, ground (arith, ax, by, e))

module _ (sum256 : Str → Str) where
  -- The three ways in which an id becomes bytes.
  session_id_cases :
      (P : Str → Type 0) (sid : Str)
      → ((b : Str) → decode_32 sid ≡ some b → P (copy_array 16 b))
      → ((b : Str) → decode_32 (without_dashes sid) ≡ some b → P (copy_array 16 b))
      → (decode_32 sid ≡ none
          → decode_32 (without_dashes sid) ≡ none
          → P (copy_array 16 (take handshake_sid_size (sum256 sid))))
      → P (session_id_to_16_bytes sum256 sid)
  unfolding session_id_to_16_bytes
  session_id_cases P sid plain dashed hashed = elim (Option-cases (decode_32 sid)) [
    | inr (b, e) ↦ rw (e, session_id_to_16_bytes) (plain b e)
    | inl e ↦ elim (Option-cases (decode_32 (without_dashes sid))) [
      | inr (b, e') ↦ rw (e, e', session_id_to_16_bytes) (dashed b e')
      | inl e' ↦ rw (e, e', session_id_to_16_bytes) (hashed e e')
    ]
  ]

  pub length-session_id_to_16_bytes : (sid : Str) → length (session_id_to_16_bytes sum256 sid) ≡ 16
  length-session_id_to_16_bytes sid =
      session_id_cases (λ bs. length bs ≡ 16) sid (λ b _. length-copy_array 16 b)
        (λ b _. length-copy_array 16 b) (λ _ _. length-copy_array 16 (take 16 (sum256 sid)))

  -- The frame is the magic and the session's bytes.
  pub build_handshake_parts :
      (sid : Str)
      → build_handshake sum256 sid ≡ handshake_magic ++ session_id_to_16_bytes sum256 sid
  unfolding build_handshake
  build_handshake_parts sid =
      ap (λ l. handshake_magic ++ l)
        (copy_array_whole 16 (session_id_to_16_bytes sum256 sid)
          (length-session_id_to_16_bytes sid))

  pub length-build_handshake : (sid : Str) → length (build_handshake sum256 sid) ≡ handshake_size
  length-build_handshake sid =
      rw (build_handshake_parts sid) (omega (arith, length-session_id_to_16_bytes sid))

  -- What a session's bytes are where the id is 32 hexadecimal digits, dashes aside.
  session_bytes_decode :
      (sid : Str) {bs : Str}
      → length (without_dashes sid) ≡ 32
      → decode_string (without_dashes sid) ≡ some bs
      → session_id_to_16_bytes sum256 sid ≡ bs
  session_bytes_decode sid {bs} l d =
      session_id_cases (λ x. x ≡ bs) sid
        (λ b e. ground (
          arith,
          decode_32-decode_string sid e,
          decode_32-length sid e,
          copy_array_whole 16 b,
          without_dashes_decoded sid (decode_32-decode_string sid e).0,
        ))
        (λ b e. ground (
          arith,
          decode_32-decode_string (without_dashes sid) e,
          decode_32-length (without_dashes sid) e,
          copy_array_whole 16 b,
        ))
        (λ _ e. absurd (none-ne-some bs (sym e ∙ decode_32_of_digits (without_dashes sid) l d)))

  -- For an id of 32 lower-case hexadecimal digits, dashes aside, the hexadecimal text of the sixteen
  -- bytes on the wire is the id without its dashes. So a UUID survives the handshake.
  pub encode-session_id_to_16_bytes :
      (sid : Str)
      → length (without_dashes sid) ≡ 32
      → All IsLowerHex (without_dashes sid)
      → encode (session_id_to_16_bytes sum256 sid) ≡ without_dashes sid
  encode-session_id_to_16_bytes sid l h =
      let (bs, e) = decode_string_lower 16 (without_dashes sid) l h in
      rw (session_bytes_decode sid l e) (encode-decode_string (without_dashes sid) h e)

  -- The hub accepts a first frame exactly if it is the one that the client builds for that session.
  pub validate_handshake_iff :
      (frame_data sid : Str)
      → (validate_handshake sum256 frame_data sid ≡ none)
        ↔ (frame_data ≡ build_handshake sum256 sid)
  unfolding validate_handshake
  validate_handshake_iff frame_data sid = rw (build_handshake_parts sid) (
    λ h. ground (
      arith,
      equal_bytes_iff (take handshake_magic_size frame_data) handshake_magic,
      equal_bytes_iff (drop handshake_magic_size frame_data) (session_id_to_16_bytes sum256 sid),
      take-append-drop handshake_magic_size frame_data,
    ),
    λ e. rw e (
        ground (
          arith,
          length-session_id_to_16_bytes sid,
          equal_bytes_iff handshake_magic handshake_magic,
          equal_bytes_iff (session_id_to_16_bytes sum256 sid) (session_id_to_16_bytes sum256 sid),
        )),
  )

  -- A frame sent for one session is accepted for another exactly if both have the same sixteen bytes.
  pub read_handshake-send_handshake :
      (sent expected : Str)
      → (read_handshake sum256
            (frame (send_handshake sum256 sent).0 (send_handshake sum256 sent).1)
            expected
          ≡ none)
        ↔ (session_id_to_16_bytes sum256 sent ≡ session_id_to_16_bytes sum256 expected)
  unfolding read_handshake send_handshake
  read_handshake-send_handshake sent expected =
      let iff = validate_handshake_iff (build_handshake sum256 sent) expected in
      (
        λ h.
            append_cancel_left handshake_magic _ _
              (sym (build_handshake_parts sent) ∙ iff.0 h ∙ build_handshake_parts expected),
        λ e. iff.1 (
            build_handshake_parts sent
            ∙ ap (λ l. handshake_magic ++ l) e
            ∙ sym (build_handshake_parts expected)),
      )
