-- ===== src/Identity/Hex.antt =====
-- Go's `hex.EncodeToString` and `hex.DecodeString`, on lists of bytes and of code points.
use lanos.Common.{
  ℕ, ◌+◌, ◌-◌, ◌*◌, ◌/◌, ◌%◌, ◌<◌, ◌≡◌, refl, ap, ◌&&◌, Option, none, some, List, [], ◌∷◌, arith,
  if◌then◌else◌, leb, All,
}
use lanos.Common.Text.{Text}

unfoldable pub digit : ℕ → ℕ
digit n = if leb n 9 then 48 + n else 87 + n

-- A digit in either case.
unfoldable pub digit_value : ℕ → Option ℕ
digit_value c =
    if leb 48 c && leb c 57
    then some (c - 48)
    else if leb 97 c && leb c 102
    then some (c - 87)
    else if leb 65 c && leb c 70
    then some (c - 55)
    else none

unfoldable pub encode : List ℕ → Text
encode [] = []
encode (b ∷ bs) = digit (b / 16) ∷ digit (b % 16) ∷ encode bs

abbrev pub byte_of : Option ℕ → Option ℕ → Option (List ℕ) → Option (List ℕ)
byte_of (some h) (some l) (some bs) = some ((h * 16 + l) ∷ bs)
byte_of _ _ _ = none

unfoldable pub decode : Text → Option (List ℕ)
decode [] = some []
decode (c ∷ []) = none
decode (c ∷ d ∷ s) = byte_of (digit_value c) (digit_value d) (decode s)

digit_value-digit : (n : ℕ) → n < 16 → digit_value (digit n) ≡ some n
unfolding digit_value digit
digit_value-digit n h = ground arith

-- Decoding undoes encoding.
pub decode-encode : (bs : List ℕ) → All (λ b. b < 256) bs → decode (encode bs) ≡ some bs
unfolding decode encode
decode-encode [] h = refl
decode-encode (b ∷ bs) (h, hs) =
    rw
      (
        digit_value-digit (b / 16) (omega (arith, h)),
        digit_value-digit (b % 16) (omega arith),
        decode-encode bs hs,
      )
      (ap (λ n. some (n ∷ bs)) (omega arith))
