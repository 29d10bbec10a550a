-- ===== src/Transfer/Chunk/Pieces.antt =====
-- The chunks of a file, described without the reader: `k` pieces of `chunk_size` bytes in a row.
use Prim.Native.Nat.{min}
use mathlib.Core.Option.{some-injective}
use lanos.Common.{
  ℕ, zero, suc, ◌+◌, ◌-◌, ◌*◌, ◌/◌, ◌≤◌, ◌≡◌, refl, sym, ap, ◌∙◌, some, List, [], ◌∷◌, ◌++◌, arith,
  if◌then◌else◌, nat_eq, ltb, length, get_elem?, take, drop, length-take, length-drop,
  take-append-drop,
}
use lanos.Transfer.Chunk.{Bytes, chunk_size}

unfoldable pub pieces : ℕ → Bytes → List Bytes
pieces zero b = []
pieces (suc k) b = take chunk_size b ∷ pieces k (drop chunk_size b)

abbrev pub concat : List Bytes → Bytes
concat [] = []
concat (b ∷ bs) = b ++ concat bs

-- How many pieces `n` bytes make.
abbrev pub piece_count : ℕ → ℕ
piece_count n = (n + chunk_size - 1) / chunk_size

pub drop_all : (n : ℕ) (b : Bytes) → length b ≤ n → drop n b ≡ []
unfolding drop
drop_all zero [] h = refl
drop_all zero (x ∷ b) h = elim h [ ]
drop_all (suc n) [] h = refl
drop_all (suc n) (x ∷ b) h = drop_all n b (omega arith)

pub take_all : (n : ℕ) (b : Bytes) → length b ≤ n → take n b ≡ b
unfolding take
take_all zero [] h = refl
take_all zero (x ∷ b) h = elim h [ ]
take_all (suc n) [] h = refl
take_all (suc n) (x ∷ b) h = ap (λ (t : Bytes). x ∷ t) (take_all n b (omega arith))

pub length-pieces : (k : ℕ) (b : Bytes) → length (pieces k b) ≡ k
unfolding pieces
length-pieces zero b = refl
length-pieces (suc k) b = ap suc (length-pieces k (drop chunk_size b))

-- Enough pieces make the whole file.
pub concat-pieces : (k : ℕ) (b : Bytes) → length b ≤ k * chunk_size → concat (pieces k b) ≡ b
unfolding pieces
concat-pieces zero [] h = refl
concat-pieces zero (x ∷ b) h = absurd (omega arith)
concat-pieces (suc k) b h =
    ap (◌++◌ (take chunk_size b))
      (concat-pieces k (drop chunk_size b) (omega (arith, length-drop chunk_size b)))
    ∙ take-append-drop chunk_size b

-- What a piece that starts with `n` bytes to go takes.
abbrev pub piece_size : ℕ → ℕ
piece_size n = if ltb n chunk_size then n else chunk_size

piece_size-min : (n : ℕ) → min chunk_size n ≡ piece_size n
piece_size-min n = ground arith

-- The size of piece `i`.
pub length-get_elem?-pieces :
    (k : ℕ) (b : Bytes) (i : ℕ) (p : Bytes)
    → get_elem? (pieces k b) i ≡ some p
    → length p ≡ piece_size (length b - i * chunk_size)
unfolding pieces
length-get_elem?-pieces zero b i p h = cc
length-get_elem?-pieces (suc k) b zero p h =
    sym (ap length (some-injective _ _ h))
    ∙ length-take chunk_size b
    ∙ piece_size-min (length b)
    ∙ ap piece_size {x = length b} {y = length b - 0 * chunk_size} (omega arith)
length-get_elem?-pieces (suc k) b (suc i) p h =
    length-get_elem?-pieces k (drop chunk_size b) i p h
    ∙ ap piece_size {x = length (drop chunk_size b) - i * chunk_size}
        {y = length b - suc i * chunk_size} (omega (arith, length-drop chunk_size b))
