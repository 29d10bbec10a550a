-- ===== src/Transport/Frame/Examples.antt =====
-- Frames of core/transport/frame.go, and the theorems at them.
use lanos.Common.{
  ℕ, ◌+◌, ◌%◌, ◌^◌, ◌≤◌, ◌<◌, ◌≡◌, ◌⊎◌, refl, [], ◌∷◌, ◌++◌, arith, length, ok, err, take, drop,
}
use lanos.Transport.Frame.{
  Bytes, Frame, header, encode_frame, decode_frame, decode_payload, read_full, crc_mismatch,
  frame_header_len, max_payload_len, uint32_at, frame_data,
}
use lanos.Transport.Frame.RoundTrip.{IsFrame, decode_frame-encode_frame}
use lanos.Transport.Frame.Errors.{decode_frame-corrupted, decode_frame-ok}

-- In place of CRC32: the sum of the bytes.
abbrev sum_bytes : Bytes → ℕ
sum_bytes [] = 0
sum_bytes (b ∷ bs) = b + sum_bytes bs

abbrev sum32 : Bytes → ℕ
sum32 p = sum_bytes p % 2 ^ 32

sum32-lt : (p : Bytes) → sum32 p < 2 ^ 32
sum32-lt p = omega arith

abbrev hello : Frame
hello = record { stream_id = 258; ftype = frame_data; payload = 104 ∷ 105 ∷ [] }

hello-IsFrame : IsFrame hello
hello-IsFrame = record {
  id_fits = omega arith;
  type_fits = omega arith;
  payload_fits = omega arith;
}

decode_frame-encode_frame_example :
    (b : Bytes) × (encode_frame sum32 hello ≡ ok b)
    × (decode_frame sum32 (b ++ (9 ∷ [])) ≡ ok (hello, 9 ∷ []))
decode_frame-encode_frame_example =
    decode_frame-encode_frame sum32 sum32-lt hello (9 ∷ []) hello-IsFrame

decode_frame-corrupted_example :
    decode_frame sum32 (header sum32 hello ++ (104 ∷ 106 ∷ []) ++ (9 ∷ [])) ≡ err crc_mismatch
decode_frame-corrupted_example =
    decode_frame-corrupted sum32 sum32-lt hello (104 ∷ 106 ∷ []) (9 ∷ []) hello-IsFrame
      (omega arith) refl (λ e. absurd (omega (arith, e)))

abbrev wire : Bytes
wire = header sum32 hello ++ (104 ∷ 105 ∷ 9 ∷ [])

decodes : decode_frame sum32 wire ≡ ok (hello, 9 ∷ [])
unfolding decode_frame decode_payload read_full take drop
decodes = refl

decode_frame-ok_example :
    (h : Bytes) × (wire ≡ h ++ (hello.payload ++ (9 ∷ [])))
    × (length h ≡ frame_header_len)
    × (length hello.payload ≤ max_payload_len)
    × ((length hello.payload ≡ 0) ⊎ (sum32 hello.payload ≡ uint32_at h 11))
decode_frame-ok_example = decode_frame-ok sum32 wire hello (9 ∷ []) decodes

-- Without a payload the checksum field of the header is not looked at.
unchecked :
    decode_frame sum32 (0 ∷ 0 ∷ 0 ∷ 0 ∷ 4 ∷ 0 ∷ 0 ∷ 0 ∷ 0 ∷ 0 ∷ 0 ∷ 7 ∷ 7 ∷ 7 ∷ 7 ∷ 0 ∷ [])
    ≡ ok (record { stream_id = 0; ftype = 4; payload = [] }, [])
unfolding decode_frame decode_payload read_full take drop
unchecked = refl
