-- ===== src/Transfer/Chunk/Reader.antt =====
-- What the sender of core/transfer/chunk.go reads: the pieces of the file, in order.
use mathlib.Core.List.{map}
use lanos.Common.{
  ℕ, zero, suc, ◌+◌, ◌-◌, ◌≤◌, ◌<◌, ◌^◌, ◌≡◌, refl, sym, ap, ◌∙◌, false, some, List, [], ◌∷◌, ◌++◌,
  arith, nat_eq, ◌==◌, ltb, length, take, drop, length-drop, append-nil, append_assoc, Bool-cases,
  inl, inr, Result, ok, err, String,
}
use lanos.Common.Int.{pos}
use lanos.Transfer.Chunk.{
  Bytes, chunk_size, chunk_count, ChunkError, end_of_file, read_failed, ChunkReader, ChunkResult,
  Manifest, new_chunk_reader, read_full, next_size, next, build_loop, build_manifest,
}
use lanos.Transfer.Chunk.Pieces.{pieces, piece_count, take_all, drop_all}

-- For sizes that an `int64` sum can round up, the number of chunks is the number of pieces.
pub chunk_count_lem : (n : ℕ) → n + chunk_size ≤ 2 ^ 63 → chunk_count (pos n) ≡ pos (piece_count n)
unfolding chunk_count
chunk_count_lem n h = ground arith

read_full_enough : (f : Bytes) (n : ℕ) → n ≤ length f → read_full f n ≡ some (take n f, drop n f)
unfolding read_full
read_full_enough f n h = ground arith

-- The first piece, where there is one, and what is left.
read_full_piece :
    (f : Bytes) → read_full f (next_size (length f)) ≡ some (take chunk_size f, drop chunk_size f)
read_full_piece f = elim (Bool-cases (ltb (length f) chunk_size)) [
  | inl e ↦
      rw
        (
          e,
          read_full_enough f (length f) (omega arith),
          take_all (length f) f (omega arith),
          drop_all (length f) f (omega arith),
          take_all chunk_size f (ground arith),
          drop_all chunk_size f (ground arith),
        )
        refl
  | inr e ↦ rw (e, read_full_enough f chunk_size (ground arith)) refl
]

-- One piece more for the bytes behind the first.
piece_count_step : (n : ℕ) → (n == 0) ≡ false → piece_count n ≡ suc (piece_count (n - next_size n))
piece_count_step n h = ground arith

left_over : (f : Bytes) → length f - next_size (length f) ≡ length (drop chunk_size f)
left_over f = ground (arith, length-drop chunk_size f)

next_size_zero : (n : ℕ) → (next_size n == 0) ≡ (n == 0)
next_size_zero n = ground arith

pieces_step :
    (f : Bytes)
    → (length f == 0) ≡ false
    → pieces (piece_count (length f)) f
      ≡ take chunk_size f ∷ pieces (piece_count (length (drop chunk_size f))) (drop chunk_size f)
unfolding pieces
pieces_step f e = rw (piece_count_step (length f) e, left_over f)

module _ (sha256_hex : Bytes → String) where
  build_loop-pieces :
      (fuel : ℕ) (f : Bytes) (hashes : List String)
      → length f < fuel
      → build_loop sha256_hex fuel f (length f) hashes
        ≡ ok (hashes ++ map sha256_hex (pieces (piece_count (length f)) f))
  unfolding build_loop
  build_loop-pieces zero f hashes h = elim h [ ]
  build_loop-pieces (suc fuel) [] hashes h = unfold pieces in ap ok (sym (append-nil hashes))
  build_loop-pieces (suc fuel) (x ∷ f) hashes h =
      let b : Bytes = x ∷ f in
      let some_left : (length b == 0) ≡ false = ground arith in
      rw
        (
          build_loop,
          next_size_zero (length b),
          some_left,
          read_full_piece b,
          left_over b,
          pieces_step b some_left,
        )
        (build_loop-pieces fuel (drop chunk_size b)
            (hashes ++ (sha256_hex (take chunk_size b) ∷ []))
            (omega (arith, length-drop chunk_size b))
          ∙ ap ok (append_assoc hashes _ _))

  -- The manifest that describes `content`.
  abbrev pub manifest_of : String → String → Bytes → Manifest
  manifest_of task_id file_name content = record {
    task_id = task_id;
    file_name = file_name;
    total_size = pos (length content);
    chunk_count = pos (piece_count (length content));
    chunk_hashes = map sha256_hex (pieces (piece_count (length content)) content);
  }

  length-hashes : (k : ℕ) (b : Bytes) → length (map sha256_hex (pieces k b)) ≡ k
  unfolding pieces
  length-hashes zero b = refl
  length-hashes (suc k) b = ap suc (length-hashes k (drop chunk_size b))

  -- On a file that keeps the size `Stat` gave, `BuildManifest` succeeds, and lists the hash of each
  -- piece of the file in order, and their number.
  pub build_manifest-pieces :
      (content : Bytes) (task_id file_name : String)
      → build_manifest sha256_hex (new_chunk_reader content (length content)) task_id file_name
        ≡ ok (manifest_of task_id file_name content)
  unfolding build_manifest new_chunk_reader
  build_manifest-pieces content task_id file_name =
      rw
        (
          build_manifest,
          build_loop-pieces (suc (length content)) content [] (omega arith),
          length-hashes (piece_count (length content)) content,
        )
        refl

  -- `Next` called until `io.EOF`.
  pub read_all : ℕ → ChunkReader → Result ChunkError (List ChunkResult)
  read_all zero r = err read_failed
  read_all (suc fuel) r = elim (next sha256_hex r) [
    | err end_of_file ↦ ok []
    | err e ↦ err e
    | ok (c, r') ↦ elim (read_all fuel r') [ err e ↦ err e | ok cs ↦ ok (c ∷ cs) ]
  ]

  -- The results for `ps`, numbered from `i`.
  abbrev pub numbered : ℕ → List Bytes → List ChunkResult
  numbered i [] = []
  numbered i (p ∷ ps) = record { idx = i; content = p; sha256 = sha256_hex p } ∷ numbered (i + 1) ps

  next_empty :
      (i total : ℕ) (f : Bytes)
      → next sha256_hex (record { f = f; idx = i; remaining = 0; total = total }) ≡ err end_of_file
  unfolding next
  next_empty i total f = refl

  next_piece :
      (i total : ℕ) (f : Bytes)
      → (length f == 0) ≡ false
      → next sha256_hex (record { f = f; idx = i; remaining = length f; total = total })
        ≡ ok (
          record { idx = i; content = take chunk_size f; sha256 = sha256_hex (take chunk_size f) },
          record {
            f = drop chunk_size f;
            idx = i + 1;
            remaining = length (drop chunk_size f);
            total = total;
          },
        )
  unfolding next
  next_piece i total f e = rw (next, e, read_full_piece f, left_over f) refl

  read_all-numbered :
      (fuel i total : ℕ) (f : Bytes)
      → length f < fuel
      → read_all fuel (record { f = f; idx = i; remaining = length f; total = total })
        ≡ ok (numbered i (pieces (piece_count (length f)) f))
  unfolding read_all
  read_all-numbered zero i total f h = elim h [ ]
  read_all-numbered (suc fuel) i total [] h = rw (read_all, next_empty) (unfold pieces in refl)
  read_all-numbered (suc fuel) i total (x ∷ f) h =
      let b : Bytes = x ∷ f in
      let some_left : (length b == 0) ≡ false = ground arith in
      rw
        (
          read_all,
          next_piece i total b some_left,
          read_all-numbered fuel (i + 1) total (drop chunk_size b)
              (omega (arith, length-drop chunk_size b)),
          pieces_step b some_left,
        )
        refl

  -- `Next` called until `io.EOF` gives the pieces of the file in order, numbered from 0, each with
  -- its hash; more rounds than the file has bytes are enough.
  pub read_all-pieces :
      (content : Bytes)
      → read_all (suc (length content)) (new_chunk_reader content (length content))
        ≡ ok (numbered 0 (pieces (piece_count (length content)) content))
  unfolding new_chunk_reader
  read_all-pieces content =
      read_all-numbered (suc (length content)) 0 (length content) content (omega arith)
