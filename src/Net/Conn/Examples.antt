-- ===== src/Net/Conn/Examples.antt =====
-- A connection of core/net/dial.go, for a cipher that counts its messages and changes no byte.
use lanos.Common.{ℕ, suc, ◌≤◌, ◌≡◌, ◌≢◌, refl, Option, some, List, [], ◌∷◌, ◌++◌, length, ok, arith}
use lanos.Transport.Frame.{Bytes}
use lanos.Net.Conn.{EncryptedConn, write_frame, read}
use lanos.Net.Conn.Pipe.{Carries, nothing, message, concat, read_pipe}

abbrev plain : ℕ → Bytes → Option (ℕ × Bytes)
plain s b = some (suc s, b)

plain_inverse : (s t : ℕ) (b ct : Bytes) → plain s b ≡ some (t, ct) → plain s ct ≡ some (t, b)
plain_inverse s t b ct e = cc e

abbrev hello : Bytes
hello = 104 ∷ 105 ∷ []

abbrev conn : EncryptedConn ℕ
conn = record { wire = write_frame hello ++ []; recv_cs = 0; buf = [] }

hello-Carries : Carries plain plain plain_inverse 1 0 (write_frame hello ++ []) (hello ∷ [])
hello-Carries = message refl (omega arith) nothing

not_empty : hello ≢ []
not_empty e = absurd (cc e)

read_pipe_example :
    (d : EncryptedConn ℕ) × (out : Bytes) × (rest : List Bytes) × (read plain 1 conn ≡ ok (d, out))
    × Carries plain plain plain_inverse 1 d.recv_cs d.wire rest
    × (length out ≤ 1)
    × (out ++ (d.buf ++ concat plain plain plain_inverse rest) ≡ hello)
read_pipe_example =
    read_pipe plain plain plain_inverse 1 1 conn (hello ∷ []) hello-Carries not_empty
