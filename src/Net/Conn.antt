-- ===== src/Net/Conn.antt =====
-- core/net/dial.go: `EncryptedConn` and its frames. The cipher states of the noise library are
-- parameters: a state and what it makes of a message, `none` for an error.
pub mod Pipe
mod Examples
use lanos.Common.{
  ℕ, ◌+◌, ◌*◌, ◌%◌, ◌^◌, Bool, true, false, Option, none, some, List, [], ◌∷◌, ◌++◌, if◌then◌else◌,
  ltb, length, take, drop, Result, ok, err,
}
use lanos.Transport.Frame.{Bytes, put_uint32, uint32_at, read_full}

pub data ReadError : Type 0 where
  no_header frame_too_large no_body decrypt_failed : ReadError

unfoldable pub write_frame : Bytes → Bytes
write_frame m = put_uint32 (length m % 2 ^ 32) m

abbrev pub frame_limit : ℕ
frame_limit = 16777216

unfoldable pub body_read : Option (Bytes × Bytes) → Result ReadError (Bytes × Bytes)
body_read none = err no_body
body_read (some r) = ok r

unfoldable pub read_body : Option (Bytes × Bytes) → Result ReadError (Bytes × Bytes)
read_body none = err no_header
read_body (some (h, rest)) =
    if ltb frame_limit (uint32_at h 0)
    then err frame_too_large
    else body_read (read_full rest (uint32_at h 0))

-- `readFrame`: the frame, and what is left of the connection's bytes.
unfoldable pub read_frame : Bytes → Result ReadError (Bytes × Bytes)
read_frame r = read_body (read_full r 4)

-- The receiving side: `wire` is what is still to be read of the connection.
pub record EncryptedConn (S : Type 0) : Type 0 where
  pub wire : Bytes
  pub recv_cs : S
  pub buf : Bytes

module _ {S : Type 0} (decrypt : S → Bytes → Option (S × Bytes)) where
  unfoldable pub deliver :
      ℕ → Bytes → Option (S × Bytes) → Result ReadError (EncryptedConn S × Bytes)
  deliver n rest none = err decrypt_failed
  deliver n rest (some (s, plain)) =
      ok (record { wire = rest; recv_cs = s; buf = drop n plain }, take n plain)

  unfoldable pub read_next :
      ℕ → S → Result ReadError (Bytes × Bytes) → Result ReadError (EncryptedConn S × Bytes)
  read_next n s (err e) = err e
  read_next n s (ok (frame, rest)) = deliver n rest (decrypt s frame)

  -- `Read` into a slice of `n` bytes, for what is buffered.
  unfoldable pub read_from :
      ℕ → EncryptedConn S → Bytes → Result ReadError (EncryptedConn S × Bytes)
  read_from n c [] = read_next n c.recv_cs (read_frame c.wire)
  read_from n c (b ∷ bs) = ok (record c { buf = drop n (b ∷ bs) }, take n (b ∷ bs))

  unfoldable pub read : ℕ → EncryptedConn S → Result ReadError (EncryptedConn S × Bytes)
  read n c = read_from n c c.buf

module _ {S : Type 0} (encrypt : S → Bytes → Option (S × Bytes)) where
  -- `Write` on a connection that takes all bytes: the new state, and what is put on the connection.
  unfoldable pub write : S → Bytes → Option (S × Bytes)
  write s b = elim (encrypt s b) [ none ↦ none | some (t, ct) ↦ some (t, write_frame ct) ]
