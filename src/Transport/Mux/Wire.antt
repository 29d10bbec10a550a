-- ===== src/Transport/Mux/Wire.antt =====
-- What core/transport/stream.go puts on the wire and what its read loop makes of it.
use lanos.Common.{
  ℕ, ◌^◌, ◌<◌, ◌≡◌, refl, sym, ap, ◌∙◌, Bool, false, Option, none, some, List, [], ◌∷◌, ◌++◌, arith,
  nat_eq, length, Result, ok, err, All, ◌>>=◌, zero, suc,
}
use mathlib.Core.Path.{subst}
use lanos.Common.Map.{lookup}
use lanos.Transport.Frame.{Bytes, Frame, encode_frame}
use lanos.Transport.Mux.{MuxError, bad_frame, HandshakeRole, Stream, Mux, shutdown, dispatch}
use lanos.Transport.Mux.Registry.{IsValid}
use lanos.Transport.Frame.{
  FrameError, decode_frame, short_header, payload_too_large, read_full, max_payload_len,
}
use lanos.Transport.Frame.RoundTrip.{IsFrame, decode_frame-encode_frame}
use lanos.Transport.Mux.{put_frame, write_frame, send_frame, serve}
use lanos.Transport.Mux.Registry.{IsValid}
use lanos.Transport.Mux.Shutdown.{Closed, shutdown_closes}

abbrev pub dispatch_all : Mux → Bool → List Frame → Option Mux
dispatch_all m pick_done [] = some m
dispatch_all m pick_done (f ∷ fs) = elim (dispatch m pick_done f) [
  | none ↦ none
  | some n ↦ dispatch_all n pick_done fs
]

abbrev pub shut_down_after : Option Mux → MuxError → Option Mux
shut_down_after none e = none
shut_down_after (some m) e = some (shutdown m e)

module _ (checksum : Bytes → ℕ) where
  send_frame_live :
      (m : Mux) (conn_fails : Bool) (ref t : ℕ) (p : Bytes) (st : Stream)
      → m.close_err ≡ none
      → lookup ref m.objects ≡ some st
      → st.close_err ≡ none
      → send_frame checksum m conn_fails ref t p
        ≡ put_frame m conn_fails
            (encode_frame checksum (record { stream_id = st.id; ftype = t; payload = p }))
  unfolding send_frame write_frame
  send_frame_live m conn_fails ref t p st c found live = ground (arith, c, found, live)

  -- Where the mux is open and the connection takes the bytes, a frame sent on an open stream,
  -- with the values of a frame within their bounds, goes onto the wire behind what was written;
  -- the peer decodes it to the type and the payload that were sent, under the ID of the stream.
  -- The checksum is below 2^32.
  pub send_frame-decode_frame :
      (checksum-lt : (p : Bytes) → checksum p < 2 ^ 32) (m : Mux) (ref t : ℕ) (p rest : Bytes)
      (st : Stream)
      → m.close_err ≡ none
      → lookup ref m.objects ≡ some st
      → st.close_err ≡ none
      → IsFrame (record { stream_id = st.id; ftype = t; payload = p })
      → (b : Bytes) × (send_frame checksum m false ref t p
          ≡ (record m { written = m.written ++ b }, none))
        × (decode_frame checksum (b ++ rest)
            ≡ ok (record { stream_id = st.id; ftype = t; payload = p }, rest))
  unfolding put_frame
  send_frame-decode_frame checksum-lt m ref t p rest st c found live v =
      let (b, written, back) =
        decode_frame-encode_frame checksum checksum-lt
          (record { stream_id = st.id; ftype = t; payload = p }) rest v in
      (b, send_frame_live m false ref t p st c found live ∙ ap (put_frame m false) written, back)

  -- On an open mux, sending a payload above the limit on an open stream fails, and closes every
  -- stream of the registry with the error.
  pub send_frame_too_large :
      (side : HandshakeRole) (m : Mux) (conn_fails : Bool) (ref t i other : ℕ) (p : Bytes)
      (st : Stream)
      → IsValid side m
      → m.close_err ≡ none
      → lookup ref m.objects ≡ some st
      → st.close_err ≡ none
      → max_payload_len < length p
      → lookup i m.streams ≡ some other
      → ((send_frame checksum m conn_fails ref t p).1 ≡ some (bad_frame payload_too_large))
        × Closed (send_frame checksum m conn_fails ref t p).0 other (bad_frame payload_too_large)
  unfolding put_frame encode_frame
  send_frame_too_large side m conn_fails ref t i other p st v c found live large at =
      let sent : send_frame checksum m conn_fails ref t p
          ≡ (shutdown m (bad_frame payload_too_large), some (bad_frame payload_too_large)) =
        send_frame_live m conn_fails ref t p st c found live ∙ ground (arith, large) in
      (
        ap (λ r. r.1) sent,
        subst (λ r. Closed r.0 other (bad_frame payload_too_large)) (sym sent)
            (shutdown_closes side m (bad_frame payload_too_large) i other v c at),
      )

  -- The bytes of the frames, one behind the other.
  abbrev pub encode_all : List Frame → Result FrameError Bytes
  encode_all [] = ok []
  encode_all (f ∷ fs) = encode_frame checksum f >>= (λ b. encode_all fs >>= (λ bs. ok (b ++ bs)))

  append_ok :
      (r : Result FrameError Bytes) (b bs : Bytes)
      → (r >>= (λ x. ok (b ++ x))) ≡ ok bs
      → (x : Bytes) × (r ≡ ok x) × (b ++ x ≡ bs)
  append_ok (ok x) b bs e = (x, refl, ground (arith, e))
  append_ok (err d) b bs e = absurd (cc e)

  encode_all-cons :
      (f : Frame) (fs : List Frame) (b bs : Bytes)
      → encode_frame checksum f ≡ ok b
      → encode_all (f ∷ fs) ≡ ok bs
      → (x : Bytes) × (encode_all fs ≡ ok x) × (b ++ x ≡ bs)
  encode_all-cons f fs b bs written e = append_ok (encode_all fs) b bs (rw (written) at e)

  serve_end :
      (k : ℕ) (m : Mux) (pick_done : Bool)
      → serve checksum (suc k) m pick_done [] ≡ some (shutdown m (bad_frame short_header))
  unfolding serve decode_frame read_full
  serve_end k m pick_done = refl

  serve_frame :
      (k : ℕ) (m : Mux) (pick_done : Bool) (r rest : Bytes) (f : Frame)
      → decode_frame checksum r ≡ ok (f, rest)
      → serve checksum (suc k) m pick_done r
        ≡ elim (dispatch m pick_done f) [ none ↦ none | some n ↦ serve checksum k n pick_done rest ]
  unfolding serve
  serve_frame k m pick_done r rest f e = rw (serve, e) refl

  each_dispatch :
      (k : ℕ) (pick_done : Bool) (fs : List Frame) (x : Bytes) (o : Option Mux)
      → ((n : Mux)
          → serve checksum k n pick_done x
            ≡ shut_down_after (dispatch_all n pick_done fs) (bad_frame short_header))
      → elim o [ none ↦ none | some n ↦ serve checksum k n pick_done x ]
        ≡ shut_down_after
            (elim o [ none ↦ none | some n ↦ dispatch_all n pick_done fs ])
            (bad_frame short_header)
  each_dispatch k pick_done fs x none h = refl
  each_dispatch k pick_done fs x (some n) h = h n

  -- On the encoding of frames within their bounds, with more fuel than frames and a checksum
  -- below 2^32, the read loop dispatches the frames in their order, waits where a dispatch waits,
  -- and shuts the mux down where the input ends.
  pub serve-encode_all :
      (checksum-lt : (p : Bytes) → checksum p < 2 ^ 32) (fs : List Frame) (bs : Bytes) (m : Mux)
      (pick_done : Bool) (fuel : ℕ)
      → All IsFrame fs
      → encode_all fs ≡ ok bs
      → length fs < fuel
      → serve checksum fuel m pick_done bs
        ≡ shut_down_after (dispatch_all m pick_done fs) (bad_frame short_header)
  unfolding serve
  serve-encode_all checksum-lt [] bs m pick_done zero v e lt = absurd (omega arith)
  serve-encode_all checksum-lt (f ∷ fs) bs m pick_done zero v e lt = absurd (omega arith)
  serve-encode_all checksum-lt [] bs m pick_done (suc k) v e lt =
      subst (λ x. serve checksum (suc k) m pick_done x ≡ some (shutdown m (bad_frame short_header)))
        (ground (arith, e)) (serve_end k m pick_done)
  serve-encode_all checksum-lt (f ∷ fs) bs m pick_done (suc k) v e lt =
      let (b, written, _) = decode_frame-encode_frame checksum checksum-lt f [] v.0 in
      let (x, tail, split) = encode_all-cons f fs b bs written e in
      let (b', written', back) = decode_frame-encode_frame checksum checksum-lt f x v.0 in
      let b_same : b' ≡ b = cc (written, written') in
      let same : b' ++ x ≡ bs = ap (λ y. y ++ x) b_same ∙ split in
      let front : decode_frame checksum bs ≡ ok (f, x) =
        subst (λ r. decode_frame checksum r ≡ ok (f, x)) same back in
      serve_frame k m pick_done bs x f front
      ∙ each_dispatch k pick_done fs x (dispatch m pick_done f)
          (λ n. serve-encode_all checksum-lt fs x n pick_done k v.1 tail (omega (arith, lt)))
