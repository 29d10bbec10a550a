-- ===== src/Transfer/Chunk/RoundTrip.antt =====
-- core/transfer/chunk.go from end to end: a file cut by the sender, delivered in any order, and
-- assembled by the receiver.
use mathlib.Core.List.{Memᴰ}
use mathlib.Core.Path.{subst}
use lanos.Common.{
  ℕ, zero, suc, ◌+◌, ◌*◌, ◌≤◌, ◌<◌, ◌≡◌, ◌≢◌, refl, sym, ap, ◌∙◌, Bool, true, false, String, none,
  some, List, [], ◌∷◌, ◌++◌, arith, nat_eq, string_eq, length, get_elem?, replicate, All,
  append-nil, append_assoc, length-replicate, ok,
}
use lanos.Common.Int.{pos}
use lanos.Common.Map.{Map, lookup}
use lanos.Transfer.Chunk.{
  Bytes, chunk_size, ChunkWriter, Disk, Manifest, count_true, load_meta, new_chunk_writer,
  assemble_loop, assemble,
}
use lanos.Transfer.Chunk.Pieces.{pieces, piece_count, concat, concat-pieces, length-pieces}
use lanos.Transfer.Chunk.Delivery.{announced, Holds, deliver, deliver-AllDelivered}

-- Nothing of the task is on the disk yet.
abbrev pub empty_disk : Disk
empty_disk = record { chunks = []; meta = none }

abbrev pub fresh_writer : ℕ → Manifest → ChunkWriter
fresh_writer n m = record { manifest = m; received = replicate n false; received_n = 0 }

count_true-replicate : (n : ℕ) → count_true (replicate n false) ≡ 0
count_true-replicate zero = refl
count_true-replicate (suc n) = count_true-replicate n

unmarked-replicate : (n i : ℕ) → get_elem? (replicate n false) i ≢ some true
unmarked-replicate zero i h = cc
unmarked-replicate (suc n) zero h = cc
unmarked-replicate (suc n) (suc i) h = unmarked-replicate n i h

count_all_true :
    (bs : List Bool)
    → ((i : ℕ) → i < length bs → get_elem? bs i ≡ some true)
    → count_true bs ≡ length bs
count_all_true [] h = refl
count_all_true (true ∷ bs) h = ap suc (count_all_true bs (λ i lt. h (suc i) (omega arith)))
count_all_true (false ∷ bs) h = absurd (cc (h 0 (omega arith)))

next_index : (i j : ℕ) → i + suc j ≡ (i + 1) + j
next_index i j = omega arith

pub assemble_loop-concat :
    (ps : List Bytes) (i : ℕ) (m : Map ℕ Bytes) (out : Bytes)
    → ((j : ℕ) (p : Bytes) → get_elem? ps j ≡ some p → lookup (i + j) m ≡ some p)
    → assemble_loop (length ps) i m out ≡ ok (out ++ concat ps)
unfolding assemble_loop
assemble_loop-concat [] i m out h = ap ok (sym (append-nil out))
assemble_loop-concat (p ∷ ps) i m out h =
    let same : i + 0 ≡ i = omega arith in
    let first : lookup i m ≡ some p = subst (λ k. lookup k m ≡ some p) same (h 0 p refl) in
    let shift = λ (j : ℕ). next_index i j in
    rw (assemble_loop, first)
      (assemble_loop-concat ps (i + 1) m (out ++ p)
          (λ j q e. subst (λ k. lookup k m ≡ some q) (shift j) (h (suc j) q e))
        ∙ ap ok (append_assoc out p (concat ps)))

get_elem?-lt : {A : Type 0} (xs : List A) (i : ℕ) (a : A) → get_elem? xs i ≡ some a → i < length xs
get_elem?-lt [] i a h = cc
get_elem?-lt (x ∷ xs) zero a h = omega arith
get_elem?-lt (x ∷ xs) (suc i) a h = omega (arith, get_elem?-lt xs i a h)

pub assemble_complete :
    (cw : ChunkWriter) (d : Disk) (n : ℕ) (out : Bytes)
    → cw.manifest.chunk_count ≡ pos n
    → cw.received_n ≡ n
    → assemble_loop n 0 d.chunks [] ≡ ok out
    → cw.manifest.total_size ≡ pos (length out)
    → assemble cw d ≡ ok out
unfolding assemble
assemble_complete cw d n out c r l t = ground (arith, c, r, l, t)

enough_pieces : (n : ℕ) → n ≤ piece_count n * chunk_size
enough_pieces n = omega arith

module _ (sha256_hex : Bytes → String) (task_id file_name : String) (content : Bytes) where
  abbrev total : ℕ
  total = piece_count (length content)

  assemble-Holds :
      (cw : ChunkWriter) (d : Disk)
      → Holds sha256_hex task_id file_name content cw d
      → ((i : ℕ) → i < total → get_elem? cw.received i ≡ some true)
      → assemble cw d ≡ ok content
  assemble-Holds cw d v all =
      let counted : cw.received_n ≡ total =
        v.counted ∙ count_all_true cw.received (λ i lt. all i (rw (← v.marks) lt)) ∙ v.marks in
      let joined : assemble_loop total 0 d.chunks [] ≡ ok content =
        ap (λ n. assemble_loop n 0 d.chunks []) (sym (length-pieces total content))
        ∙ assemble_loop-concat (pieces total content) 0 d.chunks [] at_zero
        ∙ ap ok (concat-pieces total content (enough_pieces (length content))) in
      assemble_complete cw d total content (ap Manifest.chunk_count v.same_manifest) counted joined
        (ap Manifest.total_size v.same_manifest)
    where
      at_zero :
          (j : ℕ) (p : Bytes)
          → get_elem? (pieces total content) j ≡ some p
          → lookup (0 + j) d.chunks ≡ some p
      at_zero j p e =
          let lt : j < total =
            omega (arith, get_elem?-lt (pieces total content) j p e, length-pieces total content) in
          let same : j ≡ 0 + j = omega arith in
          subst (λ k. lookup k d.chunks ≡ some p) same (v.stored j (all j lt) ∙ e)

  start-Holds :
      Holds sha256_hex task_id file_name content
        (fresh_writer total (announced sha256_hex task_id file_name content))
        empty_disk
  start-Holds = record {
    same_manifest = refl;
    marks = length-replicate total false;
    counted = sym (count_true-replicate total);
    stored = λ i e. absurd (unmarked-replicate total i e);
  }

  -- A receiver with no files of the task yet makes a writer for the manifest of `content`. Then,
  -- whatever the order in which the chunks are delivered, and however often each, if each is
  -- delivered at least once and every system call succeeds, all calls of `WriteChunk` succeed and
  -- `Assemble` gives `content` back.
  pub assemble-deliver :
      (order : List ℕ)
      → All (λ i. i < total) order
      → ((i : ℕ) → i < total → Memᴰ i order)
      → (cw cw' : ChunkWriter) × (d' : Disk) × (new_chunk_writer empty_disk
            (announced sha256_hex task_id file_name content)
          ≡ some cw)
        × (deliver sha256_hex task_id file_name content cw empty_disk order ≡ some (cw', d'))
        × (assemble cw' d' ≡ ok content)
  unfolding new_chunk_writer load_meta
  assemble-deliver order inside covers =
      let start : ChunkWriter =
        fresh_writer total (announced sha256_hex task_id file_name content) in
      let r =
        deliver-AllDelivered sha256_hex task_id file_name content start empty_disk order start-Holds
          inside in
      (
        start,
        r.cw',
        r.d',
        refl,
        r.returned,
        assemble-Holds r.cw' r.d' r.holds (λ i lt. r.marked i (covers i lt)),
      )
