-- ===== src/Net/Conn/Pipe.antt =====
-- core/net/dial.go: `EncryptedConn` is a pipe of bytes.
use lanos.Common.{
  ℕ, ◌+◌, ◌*◌, ◌/◌, ◌%◌, ◌^◌, ◌≤◌, ◌≡◌, ◌≢◌, refl, sym, ap, ◌∙◌, Option, some, List, [], ◌∷◌, ◌++◌,
  arith, if◌then◌else◌, ltb, length, take, drop, length-take, take-append-drop, append_assoc,
  append-nil, Result, ok, err,
}
use mathlib.Core.Path.{subst}
use lanos.Transport.Frame.{Bytes, put_uint32, uint32_at, read_full}
use lanos.Transport.Frame.RoundTrip.{read_full_append, uint32_put}
use lanos.Net.Conn.{
  ReadError, frame_too_large, write_frame, frame_limit, body_read, read_body, read_frame,
  EncryptedConn, deliver, read_next, read_from, read, write,
}

-- The four bytes of a length, as they are read.
size_read :
    (m rest : Bytes)
    → length m ≤ frame_limit
    → uint32_at (put_uint32 (length m % 2 ^ 32) []) 0 ≡ length m
size_read m rest h =
    ap
      (λ v. v / 16777216 % 256 * 16777216 + v / 65536 % 256 * 65536 + v / 256 % 256 * 256 + v % 256)
      (small (length m) h)
    ∙ uint32_put (length m) (omega (arith, h))
  where
    small : (n : ℕ) → n ≤ frame_limit → n % 2 ^ 32 ≡ n
    small n k = omega (arith, k)

header_read :
    (m rest : Bytes)
    → read_full (write_frame m ++ rest) 4 ≡ some (put_uint32 (length m % 2 ^ 32) [], m ++ rest)
unfolding write_frame
header_read m rest = read_full_append (put_uint32 (length m % 2 ^ 32) []) (m ++ rest) 4 refl

body_ok :
    (m rest : Bytes) (n : ℕ) → n ≡ length m → body_read (read_full (m ++ rest) n) ≡ ok (m, rest)
unfolding body_read
body_ok m rest n e = ap body_read (read_full_append m rest n e)

-- A message put on the connection is read as that message.
read_frame-write_frame :
    (m rest : Bytes) → length m ≤ frame_limit → read_frame (write_frame m ++ rest) ≡ ok (m, rest)
unfolding read_frame read_body
read_frame-write_frame m rest h =
    ap read_body (header_read m rest)
    ∙ fits (uint32_at (put_uint32 (length m % 2 ^ 32) []) 0) (size_read m rest h)
  where
    fits :
        (n : ℕ)
        → n ≡ length m
        → (if ltb frame_limit n then err frame_too_large else body_read (read_full (m ++ rest) n))
          ≡ ok (m, rest)
    fits n e = ground (arith, e, h, body_ok m rest n e)

module _ {S : Type 0} (encrypt decrypt : S → Bytes → Option (S × Bytes))
    (inverse : (s t : S) (b ct : Bytes)
      → encrypt s b ≡ some (t, ct)
      → decrypt s ct ≡ some (t, b)) where
  -- What stands on the connection: the messages, encrypted one after the other from a state on up to
  -- the sender's state, each within the limit of a frame.
  pub data Carries (sender : S) : S → Bytes → List Bytes → Type 0 where
    nothing : Carries sender sender [] []
    message :
        {s t : S} {b ct w : Bytes} {bs : List Bytes}
        → encrypt s b ≡ some (t, ct)
        → length ct ≤ frame_limit
        → Carries sender t w bs
        → Carries sender s (write_frame ct ++ w) (b ∷ bs)

  abbrev pub concat : List Bytes → Bytes
  concat [] = []
  concat (b ∷ bs) = b ++ concat bs

  -- A message that is written stands behind the others.
  pub write-Carries :
      (sender next s : S) (w b ct : Bytes) (bs : List Bytes)
      → Carries sender s w bs
      → encrypt sender b ≡ some (next, ct)
      → length ct ≤ frame_limit
      → (write encrypt sender b ≡ some (next, write_frame ct))
        × Carries next s (w ++ write_frame ct) (bs ++ b ∷ [])
  unfolding write
  write-Carries sender next s w b ct bs h e k = (rw (write, e) refl, behind s w bs h)
    where
      behind :
          (s' : S) (w' : Bytes) (bs' : List Bytes)
          → Carries sender s' w' bs'
          → Carries next s' (w' ++ write_frame ct) (bs' ++ b ∷ [])
      behind s' w' bs' nothing =
          subst (λ x. Carries next sender x (b ∷ [])) (append-nil (write_frame ct))
            (message e k nothing)
      behind s' w' bs' (message {ct = first} {w = v} {bs = later} e' k' rest) =
          subst (λ x. Carries next s' x (bs' ++ b ∷ []))
            (sym (append_assoc (write_frame first) v (write_frame ct)))
            (message e' k' (behind _ v later rest))

  -- A read that gives `out` of what is to come.
  abbrev Serves : S → ℕ → Result ReadError (EncryptedConn S × Bytes) → Bytes → Type 0
  Serves sender n r pending =
      (d : EncryptedConn S) × (out : Bytes) × (rest : List Bytes) × (r ≡ ok (d, out))
      × Carries sender d.recv_cs d.wire rest
      × (length out ≤ n)
      × (out ++ (d.buf ++ concat rest) ≡ pending)

  take_bound : (k : ℕ) (b : Bytes) → length (take k b) ≤ k
  take_bound k b = omega (arith, length-take k b)

  rejoin : (k : ℕ) (b t : Bytes) → take k b ++ (drop k b ++ t) ≡ b ++ t
  rejoin k b t =
      sym (append_assoc (take k b) (drop k b) t) ∙ ap (λ x. x ++ t) (take-append-drop k b)

  read_message :
      (sender : S) (n : ℕ) (w : Bytes) (s : S) (bs : List Bytes)
      → Carries sender s w bs
      → concat bs ≢ []
      → Serves sender n (read_next decrypt n s (read_frame w)) (concat bs)
  unfolding read_next deliver
  read_message sender n w s bs nothing more = absurd (more refl)
  read_message sender n w s bs (message {t = t} {b = b} {ct = ct} {w = v} {bs = later} e k rest)
        more =
      (
        record { wire = v; recv_cs = t; buf = drop n b },
        take n b,
        later,
        ap (read_next decrypt n s) (read_frame-write_frame ct v k)
            ∙ ap (deliver decrypt n v) (inverse s t b ct e),
        rest,
        take_bound n b,
        rejoin n b (concat later),
      )

  read_buffered :
      (sender : S) (n : ℕ) (c : EncryptedConn S) (buf : Bytes) (bs : List Bytes)
      → Carries sender c.recv_cs c.wire bs
      → buf ++ concat bs ≢ []
      → Serves sender n (read_from decrypt n c buf) (buf ++ concat bs)
  unfolding read_from
  read_buffered sender n c [] bs h more = read_message sender n c.wire c.recv_cs bs h more
  read_buffered sender n c (b ∷ buf) bs h more = (
    record c { buf = drop n (b ∷ buf) },
    take n (b ∷ buf),
    bs,
    refl,
    h,
    take_bound n (b ∷ buf),
    rejoin n (b ∷ buf) (concat bs),
  )

  -- `Read` of a connection that carries messages, with at least one byte to come, succeeds with at
  -- most `n` bytes; the connection then carries the messages that are left, and the bytes read,
  -- followed by what is still to come, are what was to come before.
  pub read_pipe :
      (sender : S) (n : ℕ) (c : EncryptedConn S) (bs : List Bytes)
      → Carries sender c.recv_cs c.wire bs
      → c.buf ++ concat bs ≢ []
      → (d : EncryptedConn S) × (out : Bytes) × (rest : List Bytes) × (read decrypt n c
          ≡ ok (d, out))
        × Carries sender d.recv_cs d.wire rest
        × (length out ≤ n)
        × (out ++ (d.buf ++ concat rest) ≡ c.buf ++ concat bs)
  unfolding read
  read_pipe sender n c bs h more = read_buffered sender n c c.buf bs h more
