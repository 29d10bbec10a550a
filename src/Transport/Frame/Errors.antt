-- ===== src/Transport/Frame/Errors.antt =====
-- What core/transport/frame.go refuses, and what a decoded frame is known to be.
use lanos.Common.{
  ℕ, ◌^◌, ◌≤◌, ◌<◌, ◌≡◌, ◌≢◌, ◌⊎◌, refl, sym, ap, ◌∙◌, some, ◌++◌, arith, nat_eq, length,
  take-append-drop, length-take, Option-cases, inl, inr, ok, err,
}
use lanos.Transport.Frame.{
  Bytes, Frame, max_payload_len, frame_header_len, uint32_at, read_full, header, decode_payload,
  decode_frame, crc_mismatch,
}
use lanos.Transport.Frame.RoundTrip.{read_full_append, IsFrame, header_len, header_crc}

module _ (checksum : Bytes → ℕ) where
  decode_payload-corrupted :
      (checksum-lt : (p : Bytes) → checksum p < 2 ^ 32) (f : Frame) (p rest : Bytes)
      → IsFrame f
      → 0 < length p
      → length p ≡ length f.payload
      → checksum p ≢ checksum f.payload
      → decode_payload checksum (header checksum f) (p ++ rest) ≡ err crc_mismatch
  unfolding decode_payload
  decode_payload-corrupted checksum-lt f p rest v nonempty same differs = ground (
    arith,
    v.payload_fits,
    header_len checksum checksum-lt f v,
    header_crc checksum checksum-lt f,
    read_full_append p rest (length f.payload) (sym same),
    nat_eq.beq_iff (checksum p) (checksum f.payload),
  )

  -- Where the payload bytes of an encoded frame within its bounds were replaced by other bytes,
  -- as many and at least one, with another checksum, decoding fails with a CRC mismatch. The
  -- checksum is below 2^32.
  pub decode_frame-corrupted :
      (checksum-lt : (p : Bytes) → checksum p < 2 ^ 32) (f : Frame) (p rest : Bytes)
      → IsFrame f
      → 0 < length p
      → length p ≡ length f.payload
      → checksum p ≢ checksum f.payload
      → decode_frame checksum (header checksum f ++ p ++ rest) ≡ err crc_mismatch
  unfolding decode_frame
  decode_frame-corrupted checksum-lt f p rest v nonempty same differs =
      rw (decode_frame, read_full_append (header checksum f) (p ++ rest) 16 refl)
        (decode_payload-corrupted checksum-lt f p rest v nonempty same differs)

  read_full-some :
      (r : Bytes) (n : ℕ) (p rest : Bytes)
      → read_full r n ≡ some (p, rest)
      → (r ≡ p ++ rest) × (length p ≡ n)
  unfolding read_full
  read_full-some r n p rest e = ground (arith, take-append-drop n r, length-take n r)

  -- What is read for the payload: nothing where the header says 0.
  decode_payload-ok :
      (h r : Bytes) (f : Frame) (rest : Bytes)
      → decode_payload checksum h r ≡ ok (f, rest)
      → (r ≡ f.payload ++ rest)
        × (length f.payload ≤ max_payload_len)
        × ((length f.payload ≡ 0) ⊎ (checksum f.payload ≡ uint32_at h 11))
  unfolding decode_payload
  decode_payload-ok h r f rest e = elim (Option-cases (read_full r (uint32_at h 7))) [
    | inl e₁ ↦ ground arith
    | inr ((p, z), e₁) ↦ ground (
      arith,
      read_full-some r (uint32_at h 7) p z e₁,
      nat_eq.beq_iff (checksum p) (uint32_at h 11),
    )
  ]

  -- A frame that was decoded stood at the front of the input behind a header of 16 bytes, its payload
  -- is within the limit, and a payload that is not empty has the checksum of the header.
  pub decode_frame-ok :
      (r : Bytes) (f : Frame) (rest : Bytes)
      → decode_frame checksum r ≡ ok (f, rest)
      → (h : Bytes) × (r ≡ h ++ (f.payload ++ rest))
        × (length h ≡ frame_header_len)
        × (length f.payload ≤ max_payload_len)
        × ((length f.payload ≡ 0) ⊎ (checksum f.payload ≡ uint32_at h 11))
  unfolding decode_frame
  decode_frame-ok r f rest e = elim (Option-cases (read_full r frame_header_len)) [
    | inl e₁ ↦ absurd (ground arith)
    | inr ((h, z), e₁) ↦
        let (split, size) = read_full-some r frame_header_len h z e₁ in
        let (rest_split, limit, crc) = decode_payload-ok h z f rest (ground arith) in
        (h, split ∙ ap (λ x. h ++ x) rest_split, size, limit, crc)
  ]
