-- ===== src/Transport/Mux.antt =====
-- core/transport/stream.go: the streams of one connection. A `*Stream` is a reference into
-- `objects`, since the registry, the accept channel and the callers share it. Every function is one
-- atomic step, and `none` means that the goroutine waits: the step is taken once it can be taken whole.
-- What a waiting `dispatch` has already put into the registry is not seen before that. Where a Go
-- `select` has several ready cases, the argument `pick_done` says whether it takes the `doneCh`
-- case. `checksum` is hash/crc32, and `conn_fails` says whether the connection refuses a write.
mod Examples
pub mod Registry
pub mod Steps
pub mod Shutdown
pub mod Ids
pub mod Wire
use lanos.Common.{
  ℕ, zero, suc, ◌+◌, ◌%◌, ◌^◌, Bool, true, false, not, ◌&&◌, ◌||◌, Option, none, some, List, [],
  ◌∷◌, ◌++◌, if◌then◌else◌, nat_eq, ◌==◌, ltb, length, Result, ok, err,
}
use lanos.Common.Map.{Map, lookup, insert, delete}
use lanos.Transport.Frame.{
  Bytes, Frame, FrameError, frame_data, frame_meta, frame_ack, frame_end, frame_cancel, frame_error,
  encode_frame, decode_frame,
}

pub data MuxError : Type 0 where
  mux_closed stream_closed eof write_failed : MuxError
  bad_frame : FrameError → MuxError

pub data HandshakeRole : Type 0 where
  role_initiator role_responder : HandshakeRole

abbrev pub frame_recv_buf : ℕ
frame_recv_buf = 128

-- The capacity of `acceptCh`.
abbrev pub accept_buf : ℕ
accept_buf = 16

-- `close_err` is `none` while the stream is open.
pub record Stream : Type 0 where
  pub id : ℕ
  pub rcv_ch : List Frame
  pub close_err : Option MuxError

-- `written` is what went onto the wire. `close_err` is `none` while the mux is open.
pub record Mux : Type 0 where
  pub role : HandshakeRole
  pub streams : Map ℕ ℕ
  pub next_id : ℕ
  pub close_err : Option MuxError
  pub accept_ch : List ℕ
  pub written : Bytes
  pub objects : Map ℕ Stream
  pub next_ref : ℕ

abbrev pub start_id : HandshakeRole → ℕ
start_id role_initiator = 0
start_id role_responder = 1

unfoldable pub new_mux : HandshakeRole → Mux
new_mux r = record {
  role = r;
  streams = [];
  next_id = start_id r;
  close_err = none;
  accept_ch = [];
  written = [];
  objects = [];
  next_ref = 0;
}

-- `newStream` and its entry in `m.streams`.
unfoldable pub new_stream : Mux → ℕ → Mux × ℕ
new_stream m i = (
  record m {
    streams = insert i m.next_ref m.streams;
    objects = insert m.next_ref (record { id = i; rcv_ch = []; close_err = none }) m.objects;
    next_ref = m.next_ref + 1;
  },
  m.next_ref,
)

abbrev pub close_stream : Mux → ℕ → Stream → MuxError → Mux
close_stream m ref st e = elim (st.close_err) [
  | some _ ↦ m
  | none ↦ record m {
    objects = insert ref (record st { close_err = some e }) m.objects;
    streams = delete st.id m.streams;
  }
]

-- `Stream.close`: the first call wins; it drops whatever is registered under the stream's ID.
unfoldable pub close : Mux → ℕ → MuxError → Mux
close m ref e = elim (lookup ref m.objects) [ none ↦ m | some st ↦ close_stream m ref st e ]

unfoldable pub close_all : Mux → List ℕ → MuxError → Mux
close_all m [] e = m
close_all m (ref ∷ refs) e = close_all (close m ref e) refs e

-- The streams of the registry.
unfoldable pub refs_of : Map ℕ ℕ → List ℕ
refs_of [] = []
refs_of ((i, ref) ∷ rest) = ref ∷ refs_of rest

-- `Mux.shutdown`.
unfoldable pub shutdown : Mux → MuxError → Mux
shutdown m e = elim (m.close_err) [
  | some _ ↦ m
  | none ↦ close_all (record m { close_err = some e }) (refs_of m.streams) e
]

-- `Mux.Open`.
unfoldable pub open_stream : Mux → Result MuxError (Mux × ℕ)
open_stream m = elim (m.close_err) [
  | some _ ↦ err mux_closed
  | none ↦ ok (new_stream (record m { next_id = (m.next_id + 2) % 2 ^ 32 }) m.next_id)
]

-- `Stream.deliver`.
unfoldable pub deliver : Mux → ℕ → Frame → Option Mux
deliver m ref f = elim (lookup ref m.objects) [
  | none ↦ some m
  | some st ↦ elim (st.close_err) [
    | some _ ↦ some m
    | none ↦
        if ltb (length st.rcv_ch) frame_recv_buf
        then some (record m {
          objects = insert ref (record st { rcv_ch = st.rcv_ch ++ f ∷ [] }) m.objects;
        })
        else none
  ]
]

-- The select of `dispatch` for the new stream `ref`, and the delivery of its first frame.
unfoldable pub offer : Mux → Bool → ℕ → Frame → Option Mux
offer m pick_done ref f =
    let done : Bool = elim (m.close_err) [ none ↦ false | some _ ↦ true ] in
    let room = ltb (length m.accept_ch) accept_buf in
    if done && (pick_done || not room)
    then some (close m ref mux_closed)
    else if room
    then deliver (record m { accept_ch = m.accept_ch ++ ref ∷ [] }) ref f
    else none

unfoldable pub dispatch : Mux → Bool → Frame → Option Mux
dispatch m pick_done f = elim (lookup f.stream_id m.streams) [
  | some ref ↦ deliver m ref f
  | none ↦
      if f.ftype == frame_meta
      then (let (n, ref) = new_stream m f.stream_id in offer n pick_done ref f)
      else some m
]

-- A `select` between a receive, which has `taken` ready, and `doneCh`, closed with an error.
unfoldable pub or_done {ℓ} :
    {A : Type ℓ} → Option (Mux × A) → Option MuxError → Bool → Option (Result MuxError (Mux × A))
or_done none none pick_done = none
or_done none (some e) pick_done = some (err e)
or_done (some t) none pick_done = some (ok t)
or_done (some t) (some e) pick_done = if pick_done then some (err e) else some (ok t)

abbrev pub take_ref : Mux → Option (Mux × ℕ)
take_ref m = elim (m.accept_ch) [
  | [] ↦ none
  | ref ∷ refs ↦ some (record m { accept_ch = refs }, ref)
]

-- `Mux.Accept`.
unfoldable pub accept : Mux → Bool → Option (Result MuxError (Mux × ℕ))
accept m pick_done = or_done (take_ref m) m.close_err pick_done

-- The frames that end a stream.
abbrev pub is_final : Frame → Bool
is_final f = f.ftype == frame_end || f.ftype == frame_cancel || f.ftype == frame_error

-- Taking the oldest buffered frame.
unfoldable pub take_frame : Mux → ℕ → Stream → Option (Mux × Frame)
take_frame m ref st = elim (st.rcv_ch) [
  | [] ↦ none
  | f ∷ fs ↦
      let n : Mux = record m { objects = insert ref (record st { rcv_ch = fs }) m.objects } in
      some ((if is_final f then close n ref stream_closed else n), f)
]

-- `Stream.RecvFrame`.
unfoldable pub recv_frame : Mux → Bool → ℕ → Option (Result MuxError (Mux × Frame))
recv_frame m pick_done ref = elim (lookup ref m.objects) [
  | none ↦ none
  | some st ↦ or_done (take_frame m ref st) st.close_err pick_done
]

-- `Mux.Close`.
unfoldable pub close_mux : Mux → Mux
close_mux m = shutdown m mux_closed

-- `Stream.Close`.
unfoldable pub close_local : Mux → ℕ → Mux
close_local m ref = close m ref stream_closed

-- `EncodeFrame` onto the connection, and what a failure does. `written` has the frames that were sent in
-- full: what a failed write may have sent of a frame is left out, since nothing is sent behind it.
unfoldable pub put_frame : Mux → Bool → Result FrameError Bytes → Mux × Option MuxError
put_frame m conn_fails (err e) = (shutdown m (bad_frame e), some (bad_frame e))
put_frame m true (ok b) = (shutdown m write_failed, some write_failed)
put_frame m false (ok b) = (record m { written = m.written ++ b }, none)

-- A teardown frame closes the local side once it is sent.
unfoldable pub close_sent : Mux × Option MuxError → ℕ → Mux × Option MuxError
close_sent (n, some e) ref = (n, some e)
close_sent (n, none) ref = (close n ref stream_closed, none)

module _ (checksum : Bytes → ℕ) where
  -- `Mux.writeFrame`: the mux afterwards, and the error.
  unfoldable pub write_frame : Mux → Bool → Frame → Mux × Option MuxError
  write_frame m conn_fails f = elim (m.close_err) [
    | some _ ↦ (m, some mux_closed)
    | none ↦ put_frame m conn_fails (encode_frame checksum f)
  ]

  -- `Stream.SendFrame`.
  unfoldable pub send_frame : Mux → Bool → ℕ → ℕ → Bytes → Mux × Option MuxError
  send_frame m conn_fails ref t p = elim (lookup ref m.objects) [
    | none ↦ (m, some stream_closed)
    | some st ↦ elim (st.close_err) [
      | some _ ↦ (m, some stream_closed)
      | none ↦ write_frame m conn_fails (record { stream_id = st.id; ftype = t; payload = p })
    ]
  ]

  unfoldable pub send_data : Mux → Bool → ℕ → Bytes → Mux × Option MuxError
  send_data m conn_fails ref p = send_frame m conn_fails ref frame_data p

  unfoldable pub send_meta : Mux → Bool → ℕ → Bytes → Mux × Option MuxError
  send_meta m conn_fails ref p = send_frame m conn_fails ref frame_meta p

  unfoldable pub send_ack : Mux → Bool → ℕ → Bytes → Mux × Option MuxError
  send_ack m conn_fails ref p = send_frame m conn_fails ref frame_ack p

  -- `SendEnd`, `SendCancel` and `SendError`, for the frame type `t` of each.
  unfoldable pub send_final : Mux → Bool → ℕ → ℕ → Bytes → Mux × Option MuxError
  send_final m conn_fails ref t p = close_sent (send_frame m conn_fails ref t p) ref

  -- `Mux.Serve` on the input `r`; the fuel is at least the number of frames in it, and one more.
  unfoldable pub serve : ℕ → Mux → Bool → Bytes → Option Mux
  serve zero m pick_done r = some m
  serve (suc k) m pick_done r = elim (decode_frame checksum r) [
    | err e ↦ some (shutdown m (bad_frame e))
    | ok (f, rest) ↦ elim (dispatch m pick_done f) [
      | none ↦ none
      | some n ↦ serve k n pick_done rest
    ]
  ]
