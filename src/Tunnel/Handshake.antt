-- ===== src/Tunnel/Handshake.antt =====
-- pkg/tunnel/handshake.go: the 24 bytes that open a tunnel. The websocket is coder/websocket: what
-- a read returns is an argument. `sum256` is `sha256.Sum256`.
pub mod Laws
use sshole.Base.{
  ℕ, zero, suc, ◌+◌, ◌*◌, ◌/◌, ◌%◌, ◌^◌, ◌≡◌, Bool, true, false, ◌&&◌, Option, none, some, List, [],
  ◌∷◌, ◌++◌, Str, ◌==◌, nat_eq, if◌then◌else◌, length, take, drop, not,
}
use sshole.Base.Text.{codes}
use sshole.Tunnel.Hex.{decode_string}

abbrev pub handshake_magic_size : ℕ
handshake_magic_size = 8

abbrev pub handshake_sid_size : ℕ
handshake_sid_size = 16

abbrev pub handshake_size : ℕ
handshake_size = handshake_magic_size + handshake_sid_size

abbrev pub handshake_magic : Str
handshake_magic = codes "SSHOLE01"

pub record HandshakeHeader : Type 0 where
  pub magic : Str  -- [8]byte
  pub session : Str  -- [16]byte

-- `var out [n]byte; copy(out[:], src)`: at most n bytes, the rest zero.
abbrev pub copy_array : ℕ → Str → Str
copy_array zero src = []
copy_array (suc n) [] = 0 ∷ copy_array n []
copy_array (suc n) (b ∷ src) = b ∷ copy_array n src

-- `hex.DecodeString` of 32 digits, where its result has 16 bytes.
unfoldable pub decode_32 : Str → Option Str
decode_32 s =
    if length s == 32
    then elim (decode_string s) [ none ↦ none | some b ↦ if length b == 16 then some b else none ]
    else none

-- The loop that drops the dashes.
unfoldable pub without_dashes : Str → Str
without_dashes [] = []
without_dashes (c ∷ s) = let rest = without_dashes s in if c == b'-' then rest else c ∷ rest

-- `websocket.MessageType`, and what `ws.Read` returns.
pub data MessageType : Type 0 where
  text binary : MessageType

pub data ReadResult : Type 0 where
  read_failed : ReadResult
  frame : MessageType → Str → ReadResult

pub data HandshakeError : Type 0 where
  read_error expected_binary invalid_magic session_mismatch : HandshakeError
  invalid_size : ℕ → HandshakeError

unfoldable pub equal_bytes : Str → Str → Bool
equal_bytes [] [] = true
equal_bytes [] (b ∷ bs) = false
equal_bytes (a ∷ as') [] = false
equal_bytes (a ∷ as') (b ∷ bs) = a == b && equal_bytes as' bs

module _ (sum256 : Str → Str) where
  unfoldable pub session_id_to_16_bytes : Str → Str
  session_id_to_16_bytes sid = elim (decode_32 sid) [
    | some b ↦ copy_array 16 b
    | none ↦ elim (decode_32 (without_dashes sid)) [
      | some b ↦ copy_array 16 b
      | none ↦ copy_array 16 (take handshake_sid_size (sum256 sid))
    ]
  ]

  unfoldable pub build_handshake : Str → Str
  build_handshake sid =
      copy_array handshake_magic_size h.magic ++ copy_array handshake_sid_size h.session
    where
      h : HandshakeHeader
      h = record { magic = handshake_magic; session = session_id_to_16_bytes sid }

  -- `none` is a nil error.
  unfoldable pub validate_handshake : Str → Str → Option HandshakeError
  validate_handshake frame_data expected =
      if not (length frame_data == handshake_size)
      then some (invalid_size (length frame_data))
      else if not (equal_bytes (take handshake_magic_size frame_data) handshake_magic)
      then some invalid_magic
      else if not
          (equal_bytes (drop handshake_magic_size frame_data) (session_id_to_16_bytes expected))
      then some session_mismatch
      else none

  -- The frame that `ws.Write` is called with.
  unfoldable pub send_handshake : Str → MessageType × Str
  send_handshake sid = (binary, build_handshake sid)

  unfoldable pub read_handshake : ReadResult → Str → Option HandshakeError
  read_handshake read_failed expected = some read_error
  read_handshake (frame text frame_data) expected = some expected_binary
  read_handshake (frame binary frame_data) expected = validate_handshake frame_data expected

-- `binary.BigEndian.PutUint64` into 8 bytes: the lowest k bytes of v, the highest first.
abbrev big_endian : ℕ → ℕ → Str
big_endian zero v = []
big_endian (suc k) v = (v / 256 ^ k % 256) ∷ big_endian k v

unfoldable pub encode_uint64 : ℕ → Str
encode_uint64 v = big_endian 8 v
