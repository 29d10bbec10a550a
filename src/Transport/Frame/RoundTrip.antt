-- ===== src/Transport/Frame/RoundTrip.antt =====
-- Decoding what core/transport/frame.go encoded.
use lanos.Common.{
  ℕ, ◌+◌, ◌*◌, ◌/◌, ◌%◌, ◌^◌, ◌≤◌, ◌<◌, ◌≡◌, refl, some, [], ◌∷◌, ◌++◌, arith, nat_eq, length,
  take-append, drop-append, length-append, append_assoc, ok,
}
use lanos.Transport.Frame.{
  Bytes, Frame, max_payload_len, uint32_at, read_full, header, encode_frame, decode_payload,
  decode_frame,
}

pub read_full_append :
    (xs ys : Bytes) (n : ℕ) → n ≡ length xs → read_full (xs ++ ys) n ≡ some (xs, ys)
unfolding read_full
read_full_append xs ys n e =
    rw (e) (ground (arith, length-append xs ys, take-append xs ys, drop-append xs ys))

pub uint32_put :
    (v : ℕ)
    → v < 2 ^ 32
    → v / 16777216 % 256 * 16777216 + v / 65536 % 256 * 65536 + v / 256 % 256 * 256 + v % 256 ≡ v
uint32_put v h = omega arith

-- The values that a frame can hold.
pub record IsFrame (f : Frame) : Type 0 where
  pub id_fits : f.stream_id < 2 ^ 32
  pub type_fits : f.ftype < 256
  pub payload_fits : length f.payload ≤ max_payload_len

module _ (checksum : Bytes → ℕ) (checksum-lt : (p : Bytes) → checksum p < 2 ^ 32) where
  pub header_id : (f : Frame) → IsFrame f → uint32_at (header checksum f) 0 ≡ f.stream_id
  header_id f v = uint32_put f.stream_id v.id_fits

  pub header_len : (f : Frame) → IsFrame f → uint32_at (header checksum f) 7 ≡ length f.payload
  header_len f v = omega (arith, v.payload_fits)

  pub header_crc : (f : Frame) → uint32_at (header checksum f) 11 ≡ checksum f.payload
  header_crc f = uint32_put (checksum f.payload) (checksum-lt f.payload)

  decode_payload-header :
      (id t : ℕ) (p rest : Bytes)
      → let f : Frame = record { stream_id = id; ftype = t; payload = p } in
        IsFrame f → decode_payload checksum (header checksum f) (p ++ rest) ≡ ok (f, rest)
  unfolding decode_payload
  decode_payload-header id t [] rest v =
      rw (decode_payload, header_id (record { stream_id = id; ftype = t; payload = [] }) v) refl
  decode_payload-header id t (x ∷ p) rest v =
      let f : Frame = record { stream_id = id; ftype = t; payload = x ∷ p } in
      ground (
        arith,
        v.payload_fits,
        header_id f v,
        header_len f v,
        header_crc f,
        read_full_append (x ∷ p) rest (length (x ∷ p)) refl,
      )

  -- A frame within its bounds is encoded, and decoding what was written, with anything behind it,
  -- gives the frame back and leaves what is behind it. The checksum is below 2^32.
  pub decode_frame-encode_frame :
      (f : Frame) (rest : Bytes)
      → IsFrame f
      → (b : Bytes) × (encode_frame checksum f ≡ ok b)
        × (decode_frame checksum (b ++ rest) ≡ ok (f, rest))
  unfolding encode_frame decode_frame
  decode_frame-encode_frame f rest v = (
    header checksum f ++ f.payload,
    ground (arith, v.payload_fits),
    rw (append_assoc (header checksum f) f.payload rest) (
        rw (decode_frame, read_full_append (header checksum f) (f.payload ++ rest) 16 refl)
          (decode_payload-header f.stream_id f.ftype f.payload rest v)),
  )
