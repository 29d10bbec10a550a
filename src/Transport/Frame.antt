-- ===== src/Transport/Frame.antt =====
-- core/transport/frame.go: the frames of the wire protocol. `checksum` (hash/crc32) is a parameter.
-- The writer and the reader are byte lists: what was written, and what is left to read. That the
-- connection breaks in the middle is a list that ends early.
mod Examples
pub mod RoundTrip
pub mod Errors
use lanos.Common.{
  ℕ, zero, suc, ◌+◌, ◌*◌, ◌/◌, ◌%◌, ◌^◌, Bool, true, false, not, ◌||◌, Option, none, some, List, [],
  ◌∷◌, ◌++◌, if◌then◌else◌, nat_eq, ◌==◌, ltb, leb, length, take, drop, Result, ok, err, ◌>>=◌,
  or_fail,
}

abbrev pub Bytes : Type 0
Bytes = List ℕ

abbrev pub frame_data : ℕ
frame_data = 1

abbrev pub frame_meta : ℕ
frame_meta = 2

abbrev pub frame_ack : ℕ
frame_ack = 3

abbrev pub frame_end : ℕ
frame_end = 4

abbrev pub frame_cancel : ℕ
frame_cancel = 5

abbrev pub frame_error : ℕ
frame_error = 6

abbrev pub frame_header_len : ℕ
frame_header_len = 16

-- 4 << 20 + 1024, where `<<` binds tighter.
abbrev pub max_payload_len : ℕ
max_payload_len = 4195328

pub data FrameError : Type 0 where
  crc_mismatch reserved_nonzero payload_too_large short_header short_payload : FrameError

-- `stream_id` is a `uint32` and `ftype` a `uint8`.
pub record Frame : Type 0 where
  pub stream_id : ℕ
  pub ftype : ℕ
  pub payload : Bytes

-- `binary.BigEndian.PutUint32`, in front of what follows.
abbrev pub put_uint32 : ℕ → Bytes → Bytes
put_uint32 v rest = (v / 16777216 % 256) ∷ (v / 65536 % 256) ∷ (v / 256 % 256) ∷ (v % 256) ∷ rest

abbrev pub byte_at : Bytes → ℕ → ℕ
byte_at [] i = 0
byte_at (b ∷ bs) zero = b
byte_at (b ∷ bs) (suc i) = byte_at bs i

-- `binary.BigEndian.Uint32` of the four bytes from `i` on.
abbrev pub uint32_at : Bytes → ℕ → ℕ
uint32_at h i =
    byte_at h i * 16777216 + byte_at h (i + 1) * 65536 + byte_at h (i + 2) * 256 + byte_at h (i + 3)

-- `io.ReadFull` of `n` bytes.
unfoldable pub read_full : Bytes → ℕ → Option (Bytes × Bytes)
read_full r n = if leb n (length r) then some (take n r, drop n r) else none

module _ (checksum : Bytes → ℕ) where
  -- The header: bytes 5, 6 and 15 stay 0.
  abbrev pub header : Frame → Bytes
  header f = put_uint32 f.stream_id (
      f.ftype
      ∷ 0
      ∷ 0
      ∷ put_uint32 (length f.payload % 2 ^ 32) (put_uint32 (checksum f.payload) (0 ∷ [])))

  unfoldable pub encode_frame : Frame → Result FrameError Bytes
  encode_frame f =
      if ltb max_payload_len (length f.payload)
      then err payload_too_large
      else ok (header f ++ f.payload)

  -- The part of `DecodeFrame` behind the header `h`; `r` is what follows it.
  unfoldable pub decode_payload : Bytes → Bytes → Result FrameError (Frame × Bytes)
  decode_payload h r =
      let n = uint32_at h 7 in
      let f : Frame = record { stream_id = uint32_at h 0; ftype = byte_at h 4; payload = [] } in
      if not (byte_at h 5 == 0) || not (byte_at h 6 == 0)
      then err reserved_nonzero
      else if ltb max_payload_len n
      then err payload_too_large
      else if ltb 0 n
      then elim (read_full r n) [
        | none ↦ err short_payload
        | some (p, rest) ↦
            if not (checksum p == uint32_at h 11)
            then err crc_mismatch
            else ok (record f { payload = p }, rest)
      ]
      else ok (f, r)

  unfoldable pub decode_frame : Bytes → Result FrameError (Frame × Bytes)
  decode_frame r = elim (read_full r frame_header_len) [
    | none ↦ err short_header
    | some (h, rest) ↦ decode_payload h rest
  ]
