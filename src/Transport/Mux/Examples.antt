-- ===== src/Transport/Mux/Examples.antt =====
-- A connection of core/transport/stream.go, and the theorems at it.
use lanos.Common.{
  ℕ, ◌<◌, ◌^◌, ◌≡◌, ◌≢◌, refl, true, false, nat_eq, none, some, List, [], ◌∷◌, ◌++◌, arith, length,
  replicate, length-replicate, ok, All, ltb,
}
use lanos.Common.Map.{lookup, insert}
use lanos.Transport.Frame.{
  Bytes, Frame, frame_meta, frame_data, encode_frame, decode_frame, header, short_header,
}
use lanos.Transport.Mux.{
  mux_closed, eof, bad_frame, role_initiator, role_responder, Stream, Mux, new_mux, new_stream,
  close, close_all, refs_of, accept_buf, shutdown, open_stream, deliver, offer, dispatch,
  send_frame, serve,
}
use lanos.Transport.Mux.Registry.{IsValid}
use lanos.Transport.Mux.Steps.{Call, opens, receives, shuts, step, run, run-new_mux-IsValid}
use lanos.Transport.Mux.Shutdown.{Closed, shutdown_closes}
use lanos.Transport.Mux.Ids.{open_stream_displaces}
use lanos.Transport.Mux.Wire.{
  send_frame-decode_frame, encode_all, dispatch_all, shut_down_after, serve-encode_all,
}
use lanos.Transport.Frame.RoundTrip.{IsFrame}

abbrev no_sum : Bytes → ℕ
no_sum p = 0

no_sum-lt : (p : Bytes) → no_sum p < 2 ^ 32
no_sum-lt p = omega arith

abbrev opening : Frame
opening = record { stream_id = 1; ftype = frame_meta; payload = 5 ∷ [] }

abbrev more : Frame
more = record { stream_id = 1; ftype = frame_data; payload = 6 ∷ 7 ∷ [] }

-- The initiator opens a stream, and the peer opens another.
abbrev calls : List (Call no_sum)
calls = opens ∷ receives false opening ∷ []

abbrev busy : Mux
busy = run no_sum (new_mux role_initiator) calls

busy-IsValid : IsValid role_initiator busy
busy-IsValid = run-new_mux-IsValid no_sum role_initiator calls

abbrev own : Stream
own = record { id = 0; rcv_ch = []; close_err = none }

busy_open : busy.close_err ≡ none
unfolding run step new_mux new_stream open_stream dispatch offer deliver lookup insert
busy_open = refl

busy_own : lookup 0 busy.objects ≡ some own
unfolding run step new_mux new_stream open_stream dispatch offer deliver lookup insert
busy_own = refl

busy_theirs : lookup 1 busy.streams ≡ some 1
unfolding run step new_mux new_stream open_stream dispatch offer deliver lookup insert
busy_theirs = refl

run-new_mux-IsValid_example : IsValid role_initiator busy
run-new_mux-IsValid_example = run-new_mux-IsValid no_sum role_initiator calls

shutdown_closes_example : Closed (shutdown busy eof) 1 eof
shutdown_closes_example =
    shutdown_closes role_initiator busy eof 1 1 busy-IsValid busy_open busy_theirs

own-IsFrame : IsFrame (record { stream_id = own.id; ftype = frame_data; payload = 8 ∷ [] })
own-IsFrame = record { id_fits = omega arith; type_fits = omega arith; payload_fits = omega arith }

send_frame-decode_frame_example :
    (b : Bytes) × (send_frame no_sum busy false 0 frame_data (8 ∷ [])
      ≡ (record busy { written = busy.written ++ b }, none))
    × (decode_frame no_sum (b ++ (9 ∷ []))
        ≡ ok (record { stream_id = own.id; ftype = frame_data; payload = 8 ∷ [] }, 9 ∷ []))
send_frame-decode_frame_example =
    send_frame-decode_frame no_sum no_sum-lt busy 0 frame_data (8 ∷ []) (9 ∷ []) own busy_open
      busy_own refl own-IsFrame

-- Two frames of the peer.
both-AreFrames : All IsFrame (opening ∷ more ∷ [])
both-AreFrames = (
  record { id_fits = omega arith; type_fits = omega arith; payload_fits = omega arith },
  (record { id_fits = omega arith; type_fits = omega arith; payload_fits = omega arith }, tt),
)

abbrev peer_bytes : Bytes
peer_bytes = header no_sum opening ++ (5 ∷ []) ++ (header no_sum more ++ (6 ∷ 7 ∷ []))

peer_wrote : encode_all no_sum (opening ∷ more ∷ []) ≡ ok peer_bytes
unfolding encode_frame
peer_wrote = refl

serve-encode_all_example :
    serve no_sum 3 (new_mux role_initiator) false peer_bytes
    ≡ shut_down_after
        (dispatch_all (new_mux role_initiator) false (opening ∷ more ∷ []))
        (bad_frame short_header)
serve-encode_all_example =
    serve-encode_all no_sum no_sum-lt (opening ∷ more ∷ []) peer_bytes (new_mux role_initiator)
      false 3 both-AreFrames peer_wrote (omega arith)

-- More bytes than one frame takes.
unfoldable too_many : ℕ → Bytes
too_many n = replicate n 0

length-too_many : (n : ℕ) → length (too_many n) ≡ n
unfolding too_many
length-too_many n = length-replicate n 0

abbrev initiator_open : Mux
initiator_open = run no_sum (new_mux role_initiator) (opens ∷ [])

abbrev responder_open : Mux
responder_open = run no_sum (new_mux role_responder) (opens ∷ [])

opens_zero : open_stream (run no_sum (new_mux role_initiator) []) ≡ ok (initiator_open, 0)
unfolding run step new_mux new_stream open_stream
opens_zero = refl

opens_one : open_stream (run no_sum (new_mux role_responder) []) ≡ ok (responder_open, 0)
unfolding run step new_mux new_stream open_stream
opens_one = refl

abbrev theirs : Stream
theirs = record { id = 1; rcv_ch = []; close_err = none }

holds_zero : lookup 0 initiator_open.objects ≡ some own
unfolding run step new_mux new_stream open_stream lookup insert
holds_zero = refl

holds_one : lookup 0 responder_open.objects ≡ some theirs
unfolding run step new_mux new_stream open_stream lookup insert
holds_one = refl

-- A peer that uses an ID of the initiator's parity.
abbrev intruded : Mux
intruded =
    run no_sum (new_mux role_initiator) (receives false (record opening { stream_id = 0 }) ∷ [])

intruded_open : intruded.close_err ≡ none
unfolding run step new_mux new_stream dispatch offer deliver lookup insert
intruded_open = refl

intruded_taken : lookup intruded.next_id intruded.streams ≡ some 0
unfolding run step new_mux new_stream dispatch offer deliver lookup insert
intruded_taken = refl

intruded_next : 0 ≡ intruded.next_id
unfolding run step new_mux new_stream dispatch offer deliver lookup insert
intruded_next = refl

open_stream_displaces_example :
    (n : Mux) × (ref : ℕ) × (open_stream intruded ≡ ok (n, ref))
    × (lookup intruded.next_id n.streams ≡ some ref)
    × (ref ≢ 0)
    × (st : Stream) × (lookup 0 n.objects ≡ some st)
    × (st.close_err ≡ none)
    × (k : Mux) × (dispatch n false (record more { stream_id = 0 }) ≡ some k)
    × (lookup 0 k.objects ≡ some st)
    × (lookup ref k.objects
        ≡ some (record {
          id = intruded.next_id;
          rcv_ch = record more { stream_id = 0 } ∷ [];
          close_err = none;
        }))
    × (lookup intruded.next_id (close n 0 eof).streams ≡ none)
    × (su : Stream) × (lookup ref (close n 0 eof).objects ≡ some su)
    × (su.close_err ≡ none)
open_stream_displaces_example =
    open_stream_displaces role_initiator intruded 0 eof false (record more { stream_id = 0 })
      (run-new_mux-IsValid no_sum role_initiator
        (receives false (record opening { stream_id = 0 }) ∷ []))
      intruded_open intruded_taken intruded_next

abbrev shut : Mux
shut = run no_sum (new_mux role_initiator) (shuts mux_closed ∷ [])

shut_closed : shut.close_err ≡ some mux_closed
unfolding run step new_mux shutdown close_all refs_of
shut_closed = refl

shut_unknown : lookup 1 shut.streams ≡ none
unfolding run step new_mux shutdown close_all refs_of lookup
shut_unknown = refl

shut_room : ltb (length shut.accept_ch) accept_buf ≡ true
unfolding run step new_mux shutdown close_all refs_of
shut_room = refl
