-- ===== src/Transport/Mux/Ids.antt =====
-- The stream IDs of core/transport/stream.go, and the registrations that go wrong.
use lanos.Common.{
  ℕ, ◌+◌, ◌%◌, ◌^◌, ◌≡◌, ◌≢◌, refl, sym, ap, ◌∙◌, true, false, none, some, List, [], ◌∷◌, ◌++◌,
  arith, Bool, nat_eq, ◌==◌, ltb, length, beq_refl, Option-cases, inl, inr, ok,
}
use mathlib.Core.Option.{some-injective}
use lanos.Common.Map.{lookup, insert, lookup-insert, lookup-delete}
use lanos.Transport.Frame.{Bytes, Frame, frame_meta}
use lanos.Transport.Mux.{
  MuxError, HandshakeRole, role_initiator, role_responder, Stream, Mux, new_mux, new_stream, close,
  shutdown, open_stream, deliver, offer, dispatch, accept_buf,
}
use lanos.Transport.Mux.Registry.{IsValid, close_found}
use lanos.Transport.Mux.Shutdown.{close_stream-live}
use lanos.Transport.Mux.Steps.{open_stream-closed, Call, run, run-new_mux-IsValid}

open_stream_live :
    (m : Mux)
    → m.close_err ≡ none
    → open_stream m ≡ ok (new_stream (record m { next_id = (m.next_id + 2) % 2 ^ 32 }) m.next_id)
unfolding open_stream
open_stream_live m c = ground (arith, c)

-- The ID of a new stream is `next_id`.
opened_id :
    (m n : Mux) (ref : ℕ) (st : Stream)
    → open_stream m ≡ ok (n, ref)
    → lookup ref n.objects ≡ some st
    → st.id ≡ m.next_id
unfolding new_stream
opened_id m n ref st h found = elim (Option-cases m.close_err) [
  | inr (e, c) ↦ absurd (cc (open_stream-closed m e c, h))
  | inl c ↦
      let fresh : Stream = record { id = m.next_id; rcv_ch = []; close_err = none } in
      let o = (new_stream (record m { next_id = (m.next_id + 2) % 2 ^ 32 }) m.next_id).0 in
      let at : lookup m.next_ref o.objects ≡ some st = cc (open_stream_live m c, h, found) in
      let back : lookup m.next_ref o.objects ≡ some fresh =
        ground (arith, lookup-insert m.next_ref m.next_ref fresh m.objects, beq_refl m.next_ref) in
      ap (λ s. s.id) (some-injective st fresh (sym at ∙ back))
]

module _ (checksum : Bytes → ℕ) where
  -- Whatever the two sides of a connection have done, a stream that the initiator opens and one that
  -- the responder opens have different IDs.
  pub open_stream_apart :
      (cs ds : List (Call checksum)) (m n : Mux) (i j : ℕ) (a b : Stream)
      → open_stream (run checksum (new_mux role_initiator) cs) ≡ ok (m, i)
      → open_stream (run checksum (new_mux role_responder) ds) ≡ ok (n, j)
      → lookup i m.objects ≡ some a
      → lookup j n.objects ≡ some b
      → a.id ≢ b.id
  open_stream_apart cs ds m n i j a b ha hb at_i at_j same =
      let va = run-new_mux-IsValid checksum role_initiator cs in
      let vb = run-new_mux-IsValid checksum role_responder ds in
      omega (
        arith,
        va.parity,
        vb.parity,
        same,
        opened_id (run checksum (new_mux role_initiator) cs) m i a ha at_i,
        opened_id (run checksum (new_mux role_responder) ds) n j b hb at_j,
      )

dispatch_known :
    (m : Mux) (pick_done : Bool) (f : Frame) (ref : ℕ)
    → lookup f.stream_id m.streams ≡ some ref
    → dispatch m pick_done f ≡ deliver m ref f
unfolding dispatch
dispatch_known m pick_done f ref found = rw (dispatch, found) refl

deliver_first :
    (m : Mux) (ref i : ℕ) (f : Frame)
    → let st : Stream = record { id = i; rcv_ch = []; close_err = none } in
      lookup ref m.objects ≡ some st
      → deliver m ref f
        ≡ some (record m { objects = insert ref (record st { rcv_ch = f ∷ [] }) m.objects })
unfolding deliver
deliver_first m ref i f found = ground (arith, found)

-- Where the peer has already opened a stream under the next ID, `Open` registers its own stream under
-- that ID: the peer's stream stays open, yet a frame with the ID that is dispatched next goes to the new
-- stream and leaves the peer's as it was, and closing the peer's stream takes the new one out of the
-- registry while that one is open.
pub open_stream_displaces :
    (side : HandshakeRole) (m : Mux) (old : ℕ) (e : MuxError) (pick_done : Bool) (f : Frame)
    → IsValid side m
    → m.close_err ≡ none
    → lookup m.next_id m.streams ≡ some old
    → f.stream_id ≡ m.next_id
    → (n : Mux) × (ref : ℕ) × (open_stream m ≡ ok (n, ref))
      × (lookup m.next_id n.streams ≡ some ref)
      × (ref ≢ old)
      × (st : Stream) × (lookup old n.objects ≡ some st)
      × (st.close_err ≡ none)
      × (k : Mux) × (dispatch n pick_done f ≡ some k)
      × (lookup old k.objects ≡ some st)
      × (lookup ref k.objects ≡ some (record { id = m.next_id; rcv_ch = f ∷ []; close_err = none }))
      × (lookup m.next_id (close n old e).streams ≡ none)
      × (su : Stream) × (lookup ref (close n old e).objects ≡ some su)
      × (su.close_err ≡ none)
unfolding new_stream
open_stream_displaces side m old e pick_done f v c taken aimed =
    let fresh : Stream = record { id = m.next_id; rcv_ch = []; close_err = none } in
    let filled : Stream = record { id = m.next_id; rcv_ch = f ∷ []; close_err = none } in
    let n = (new_stream (record m { next_id = (m.next_id + 2) % 2 ^ 32 }) m.next_id).0 in
    let (st, found, id, live) = v.registry.registered m.next_id old taken in
    let apart : m.next_ref == old ≡ false =
      ground (arith, v.registry.fresh old st found, nat_eq.beq_iff m.next_ref old) in
    let kept : lookup old n.objects ≡ some st =
      ground (arith, lookup-insert m.next_ref old fresh m.objects) in
    let held : lookup m.next_ref n.objects ≡ some fresh =
      ground (arith, lookup-insert m.next_ref m.next_ref fresh m.objects, beq_refl m.next_ref) in
    let at : lookup m.next_id n.streams ≡ some m.next_ref =
      ground (arith, lookup-insert m.next_id m.next_id m.next_ref m.streams, beq_refl m.next_id) in
    let closed = close_found n old st e kept ∙ close_stream-live n old st e live in
    (
      n,
      m.next_ref,
      open_stream_live m c,
      at,
      ground (arith, nat_eq.beq_iff m.next_ref old),
      st,
      kept,
      live,
      record n { objects = insert m.next_ref filled n.objects },
      dispatch_known n pick_done f m.next_ref (ap (λ i. lookup i n.streams) aimed ∙ at)
          ∙ deliver_first n m.next_ref m.next_id f held,
      ground (arith, apart, lookup-insert m.next_ref old filled n.objects, kept),
      ground (arith, lookup-insert m.next_ref m.next_ref filled n.objects, beq_refl m.next_ref),
      ap (λ k. lookup m.next_id k.streams) closed
          ∙ ground (arith, lookup-delete st.id m.next_id n.streams, id, beq_refl m.next_id),
      fresh,
      ap (λ k. lookup m.next_ref k.objects) closed
          ∙ ground (
            arith,
            apart,
            beq_refl m.next_ref,
            nat_eq.beq_iff old m.next_ref,
            nat_eq.beq_iff m.next_ref old,
            lookup-insert old m.next_ref (record st { close_err = some e }) n.objects,
            lookup-insert m.next_ref m.next_ref fresh m.objects,
          ),
      refl,
    )

dispatch_unknown :
    (m : Mux) (f : Frame)
    → lookup f.stream_id m.streams ≡ none
    → f.ftype ≡ frame_meta
    → dispatch m false f ≡ offer (new_stream m f.stream_id).0 false m.next_ref f
unfolding dispatch new_stream
dispatch_unknown m f unknown meta = ground (arith, unknown, meta, nat_eq.beq_iff f.ftype frame_meta)

offer_room :
    (m : Mux) (e : MuxError) (ref : ℕ) (f : Frame)
    → m.close_err ≡ some e
    → ltb (length m.accept_ch) accept_buf ≡ true
    → offer m false ref f ≡ deliver (record m { accept_ch = m.accept_ch ++ ref ∷ [] }) ref f
unfolding offer
offer_room m e ref f c room = ground (arith, c, room)

shutdown_again : (m : Mux) (e d : MuxError) → m.close_err ≡ some e → shutdown m d ≡ m
unfolding shutdown
shutdown_again m e d c = ground (arith, c)

-- Where there is room in the accept channel, a META frame for an unknown stream that is
-- dispatched after the shutdown can register a stream that is open: no later shutdown closes it.
pub dispatch_late :
    (m : Mux) (e d : MuxError) (f : Frame)
    → m.close_err ≡ some e
    → lookup f.stream_id m.streams ≡ none
    → f.ftype ≡ frame_meta
    → ltb (length m.accept_ch) accept_buf ≡ true
    → (n : Mux) × (st : Stream) × (dispatch m false f ≡ some n)
      × (lookup m.next_ref (shutdown n d).objects ≡ some st)
      × (st.close_err ≡ none)
unfolding new_stream
dispatch_late m e d f c unknown meta room =
    let fresh : Stream = record { id = f.stream_id; rcv_ch = []; close_err = none } in
    let first : Stream = record fresh { rcv_ch = f ∷ [] } in
    let k : Mux = (new_stream m f.stream_id).0 in
    let o : Mux = record k { accept_ch = m.accept_ch ++ m.next_ref ∷ [] } in
    let n : Mux = record o { objects = insert m.next_ref first o.objects } in
    let at : lookup m.next_ref o.objects ≡ some fresh =
      ground (arith, lookup-insert m.next_ref m.next_ref fresh m.objects, beq_refl m.next_ref) in
    (
      n,
      first,
      dispatch_unknown m f unknown meta
          ∙ offer_room k e m.next_ref f c room
          ∙ deliver_first o m.next_ref f.stream_id f at,
      ap (λ r. lookup m.next_ref r.objects) (shutdown_again n e d c)
          ∙ ground
              (arith, lookup-insert m.next_ref m.next_ref first o.objects, beq_refl m.next_ref),
      refl,
    )
