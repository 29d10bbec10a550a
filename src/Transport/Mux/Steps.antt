-- ===== src/Transport/Mux/Steps.antt =====
-- What the calls of core/transport/stream.go keep, in any order of the calls on one connection.
use lanos.Common.{
  ℕ, ◌+◌, ◌%◌, ◌^◌, ◌<◌, ◌≡◌, refl, sym, Bool, true, false, not, ◌&&◌, ◌||◌, Option, none, some,
  List, [], ◌∷◌, ◌++◌, arith, if◌then◌else◌, nat_eq, ◌==◌, ltb, length, Bool-cases, Option-cases,
  inl, inr, Result, ok, err,
}
use mathlib.Core.Path.{subst}
use mathlib.Core.Option.{some-injective}
use lanos.Common.Map.{lookup, insert}
use lanos.Transport.Frame.{Bytes, Frame, FrameError, encode_frame, frame_meta}
use lanos.Transport.Mux.{
  MuxError, mux_closed, stream_closed, bad_frame, write_failed, HandshakeRole, Stream, Mux,
  start_id, new_mux, new_stream, close, shutdown, open_stream, deliver, offer, dispatch, accept,
  or_done, take_ref, is_final, take_frame, recv_frame, put_frame, close_sent, write_frame,
  send_frame, send_final, frame_recv_buf, accept_buf,
}
use lanos.Transport.Mux.Registry.{
  IsValid, Registry-buffer, new_mux-IsValid, new_stream-IsValid, close-IsValid, shutdown-IsValid,
}

-- The state behind a call that may wait or fail: unchanged where it does.
abbrev pub settled : Mux → Option Mux → Mux
settled m none = m
settled m (some n) = n

abbrev pub returned {ℓ} : {A : Type ℓ} → Mux → Result MuxError (Mux × A) → Mux
returned m (err e) = m
returned m (ok r) = r.0

abbrev pub returned_now {ℓ} : {A : Type ℓ} → Mux → Option (Result MuxError (Mux × A)) → Mux
returned_now m none = m
returned_now m (some r) = returned m r

pub open_stream-closed :
    (m : Mux) (e : MuxError) → m.close_err ≡ some e → open_stream m ≡ err mux_closed
unfolding open_stream
open_stream-closed m e c = rw (open_stream, c) refl

module _ {side : HandshakeRole} where
  buffer-IsValid :
      (m : Mux) (ref : ℕ) (st : Stream) (fs : List Frame)
      → lookup ref m.objects ≡ some st
      → IsValid side m
      → IsValid side (record m { objects = insert ref (record st { rcv_ch = fs }) m.objects })
  buffer-IsValid m ref st fs found v = record {
    registry = Registry-buffer m.streams m.objects m.next_ref ref st fs v.registry found;
    parity = v.parity;
    wraps = v.wraps;
  }

  deliver-IsValid :
      (m : Mux) (ref : ℕ) (f : Frame) → IsValid side m → IsValid side (settled m (deliver m ref f))
  unfolding deliver
  deliver-IsValid m ref f v = elim (Option-cases (lookup ref m.objects)) [
    | inl n ↦ rw (deliver, n) v
    | inr (st, n) ↦ elim (Option-cases st.close_err) [
      | inr (e, c) ↦ rw (deliver, n, c) v
      | inl c ↦ elim (Bool-cases (ltb (length st.rcv_ch) frame_recv_buf)) [
        | inl room ↦ rw (deliver, n, c, room) (buffer-IsValid m ref st (st.rcv_ch ++ f ∷ []) n v)
        | inr full ↦ rw (deliver, n, c, full) v
      ]
    ]
  ]

  with_ids :
      (m : Mux) (i : ℕ)
      → i % 2 ≡ start_id side
      → i < 2 ^ 32
      → IsValid side m
      → IsValid side (record m { next_id = i })
  with_ids m i odd fits v = record { registry = v.registry; parity = odd; wraps = fits }

  open_stream-IsValid : (m : Mux) → IsValid side m → IsValid side (returned m (open_stream m))
  unfolding open_stream
  open_stream-IsValid m v = elim (Option-cases m.close_err) [
    | inr (e, c) ↦ subst (λ r. IsValid side (returned m r)) (sym (open_stream-closed m e c)) v
    | inl c ↦
        rw (open_stream, c)
          (new_stream-IsValid (record m { next_id = (m.next_id + 2) % 2 ^ 32 }) m.next_id
            (with_ids m ((m.next_id + 2) % 2 ^ 32) (omega (arith, v.parity)) (omega arith) v))
  ]

  -- The accept channel and the wire play no part.
  with_accept :
      (m : Mux) (refs : List ℕ) → IsValid side m → IsValid side (record m { accept_ch = refs })
  with_accept m refs v = record { registry = v.registry; parity = v.parity; wraps = v.wraps }

  with_written : (m : Mux) (b : Bytes) → IsValid side m → IsValid side (record m { written = b })
  with_written m b v = record { registry = v.registry; parity = v.parity; wraps = v.wraps }

  settled_from :
      (m n : Mux) (o : Option Mux)
      → IsValid side m
      → IsValid side (settled n o)
      → IsValid side (settled m o)
  settled_from m n none v w = v
  settled_from m n (some k) v w = w

  offer-IsValid :
      (m n : Mux) (pick_done : Bool) (ref : ℕ) (f : Frame)
      → IsValid side m
      → IsValid side n
      → IsValid side (settled m (offer n pick_done ref f))
  unfolding offer
  offer-IsValid m n pick_done ref f v w =
      let done : Bool = elim (n.close_err) [ none ↦ false | some _ ↦ true ] in
      let room = ltb (length n.accept_ch) accept_buf in
      elim (Bool-cases (done && (pick_done || not room))) [
        | inl gone ↦ rw (offer, gone) (close-IsValid n ref mux_closed w)
        | inr stays ↦ elim (Bool-cases room) [
          | inr full ↦ rw (offer, stays, full) v
          | inl free ↦
              rw (offer, stays, free)
                (settled_from m (record n { accept_ch = n.accept_ch ++ ref ∷ [] })
                  (deliver (record n { accept_ch = n.accept_ch ++ ref ∷ [] }) ref f) v
                  (deliver-IsValid (record n { accept_ch = n.accept_ch ++ ref ∷ [] }) ref f
                    (with_accept n (n.accept_ch ++ ref ∷ []) w)))
        ]
      ]

  dispatch-IsValid :
      (m : Mux) (pick_done : Bool) (f : Frame)
      → IsValid side m
      → IsValid side (settled m (dispatch m pick_done f))
  unfolding dispatch
  dispatch-IsValid m pick_done f v = elim (Option-cases (lookup f.stream_id m.streams)) [
    | inr (ref, known) ↦ rw (dispatch, known) (deliver-IsValid m ref f v)
    | inl unknown ↦ elim (Bool-cases (f.ftype == frame_meta)) [
      | inr other ↦ rw (dispatch, unknown, other) v
      | inl meta ↦
          rw (dispatch, unknown, meta)
            (offer-IsValid m (new_stream m f.stream_id).0 pick_done (new_stream m f.stream_id).1 f v
              (new_stream-IsValid m f.stream_id v))
    ]
  ]

  or_done-IsValid {ℓ} :
      {A : Type ℓ} (m : Mux) (taken : Option (Mux × A)) (c : Option MuxError) (pick_done : Bool)
      → IsValid side m
      → ((t : Mux × A) → taken ≡ some t → IsValid side t.0)
      → IsValid side (returned_now m (or_done taken c pick_done))
  unfolding or_done
  or_done-IsValid m none none pick_done v w = v
  or_done-IsValid m none (some e) pick_done v w = v
  or_done-IsValid m (some t) none pick_done v w = w t refl
  or_done-IsValid m (some t) (some e) true v w = v
  or_done-IsValid m (some t) (some e) false v w = w t refl

  take_ref-IsValid :
      (m : Mux) (refs : List ℕ) (t : Mux × ℕ)
      → IsValid side m
      → take_ref (record m { accept_ch = refs }) ≡ some t
      → IsValid side t.0
  take_ref-IsValid m [] t v e = absurd (cc e)
  take_ref-IsValid m (ref ∷ rest) t v e =
      subst (λ r. IsValid side r.0) (some-injective _ _ e) (with_accept m rest v)

  accept-IsValid :
      (m : Mux) (pick_done : Bool)
      → IsValid side m
      → IsValid side (returned_now m (accept m pick_done))
  unfolding accept
  accept-IsValid m pick_done v =
      or_done-IsValid m (take_ref m) m.close_err pick_done v
        (λ t e. take_ref-IsValid m m.accept_ch t v e)

  taken-IsValid :
      (m : Mux) (b : Bool) (ref : ℕ)
      → IsValid side m
      → IsValid side (if b then close m ref stream_closed else m)
  taken-IsValid m true ref v = close-IsValid m ref stream_closed v
  taken-IsValid m false ref v = v

  take_frame-IsValid :
      (m : Mux) (ref i : ℕ) (fs : List Frame) (c : Option MuxError) (t : Mux × Frame)
      → let st : Stream = record { id = i; rcv_ch = fs; close_err = c } in
        lookup ref m.objects ≡ some st
        → IsValid side m
        → take_frame m ref st ≡ some t
        → IsValid side t.0
  unfolding take_frame
  take_frame-IsValid m ref i [] c t found v e = absurd (cc e)
  take_frame-IsValid m ref i (f ∷ fs) c t found v e =
      let st : Stream = record { id = i; rcv_ch = f ∷ fs; close_err = c } in
      let n : Mux = record m { objects = insert ref (record st { rcv_ch = fs }) m.objects } in
      subst (λ r. IsValid side r.0) (some-injective _ _ e)
        (taken-IsValid n (is_final f) ref (buffer-IsValid m ref st fs found v))

  recv_frame-IsValid :
      (m : Mux) (pick_done : Bool) (ref : ℕ)
      → IsValid side m
      → IsValid side (returned_now m (recv_frame m pick_done ref))
  unfolding recv_frame
  recv_frame-IsValid m pick_done ref v = elim (Option-cases (lookup ref m.objects)) [
    | inl n ↦ rw (recv_frame, n) v
    | inr (st, n) ↦
        rw (recv_frame, n)
          (or_done-IsValid m (take_frame m ref st) st.close_err pick_done v
            (λ t e. take_frame-IsValid m ref st.id st.rcv_ch st.close_err t n v e))
  ]

  put_frame-IsValid :
      (m : Mux) (conn_fails : Bool) (r : Result FrameError Bytes)
      → IsValid side m
      → IsValid side (put_frame m conn_fails r).0
  unfolding put_frame
  put_frame-IsValid m conn_fails (err e) v = shutdown-IsValid m (bad_frame e) v
  put_frame-IsValid m true (ok b) v = shutdown-IsValid m write_failed v
  put_frame-IsValid m false (ok b) v = with_written m (m.written ++ b) v

  close_sent-IsValid :
      (r : Mux × Option MuxError) (ref : ℕ) → IsValid side r.0 → IsValid side (close_sent r ref).0
  unfolding close_sent
  close_sent-IsValid (n, some e) ref v = v
  close_sent-IsValid (n, none) ref v = close-IsValid n ref stream_closed v

module _ (checksum : Bytes → ℕ) where
  write_frame-IsValid :
      {side : HandshakeRole} (m : Mux) (conn_fails : Bool) (f : Frame)
      → IsValid side m
      → IsValid side (write_frame checksum m conn_fails f).0
  unfolding write_frame
  write_frame-IsValid m conn_fails f v = elim (Option-cases m.close_err) [
    | inr (e, c) ↦ simp (write_frame, c) v
    | inl c ↦ simp (write_frame, c) (put_frame-IsValid m conn_fails (encode_frame checksum f) v)
  ]

  send_frame-IsValid :
      {side : HandshakeRole} (m : Mux) (conn_fails : Bool) (ref t : ℕ) (p : Bytes)
      → IsValid side m
      → IsValid side (send_frame checksum m conn_fails ref t p).0
  unfolding send_frame
  send_frame-IsValid m conn_fails ref t p v = elim (Option-cases (lookup ref m.objects)) [
    | inl n ↦ simp (send_frame, n) v
    | inr (st, n) ↦ elim (Option-cases st.close_err) [
      | inr (e, c) ↦ simp (send_frame, n, c) v
      | inl c ↦
          simp (send_frame, n, c)
            (write_frame-IsValid m conn_fails (record { stream_id = st.id; ftype = t; payload = p })
              v)
    ]
  ]

  -- A call on one side of the connection, by the application or by the read loop.
  pub data Call : Type 0 where
    opens : Call
    receives : Bool → Frame → Call
    accepts : Bool → Call
    takes : Bool → ℕ → Call
    sends : Bool → ℕ → ℕ → Bytes → Call
    ends : Bool → ℕ → ℕ → Bytes → Call
    closes : ℕ → Call
    shuts : MuxError → Call

  -- What the call leaves behind: where it waits or fails without an effect, the same state.
  unfoldable pub step : Mux → Call → Mux
  step m opens = returned m (open_stream m)
  step m (receives pick_done f) = settled m (dispatch m pick_done f)
  step m (accepts pick_done) = returned_now m (accept m pick_done)
  step m (takes pick_done ref) = returned_now m (recv_frame m pick_done ref)
  step m (sends conn_fails ref t p) = (send_frame checksum m conn_fails ref t p).0
  step m (ends conn_fails ref t p) = (send_final checksum m conn_fails ref t p).0
  step m (closes ref) = close m ref stream_closed
  step m (shuts e) = shutdown m e

  unfoldable pub run : Mux → List Call → Mux
  run m [] = m
  run m (c ∷ cs) = run (step m c) cs

  pub step-IsValid :
      {side : HandshakeRole} (m : Mux) (c : Call) → IsValid side m → IsValid side (step m c)
  unfolding step send_final
  step-IsValid m opens v = open_stream-IsValid m v
  step-IsValid m (receives pick_done f) v = dispatch-IsValid m pick_done f v
  step-IsValid m (accepts pick_done) v = accept-IsValid m pick_done v
  step-IsValid m (takes pick_done ref) v = recv_frame-IsValid m pick_done ref v
  step-IsValid m (sends conn_fails ref t p) v = send_frame-IsValid m conn_fails ref t p v
  step-IsValid m (ends conn_fails ref t p) v =
      close_sent-IsValid (send_frame checksum m conn_fails ref t p) ref
        (send_frame-IsValid m conn_fails ref t p v)
  step-IsValid m (closes ref) v = close-IsValid m ref stream_closed v
  step-IsValid m (shuts e) v = shutdown-IsValid m e v

  run-IsValid :
      {side : HandshakeRole} (m : Mux) (cs : List Call) → IsValid side m → IsValid side (run m cs)
  unfolding run
  run-IsValid m [] v = v
  run-IsValid m (c ∷ cs) v = run-IsValid (step m c) cs (step-IsValid m c v)

  -- Whatever calls a mux has served, each ID of its registry stands for an open stream that knows
  -- this ID, every reference in use is below the next one, and the next ID is a uint32 of the
  -- parity of the role.
  pub run-new_mux-IsValid : (r : HandshakeRole) (cs : List Call) → IsValid r (run (new_mux r) cs)
  run-new_mux-IsValid r cs = run-IsValid (new_mux r) cs (new_mux-IsValid r)
