-- ===== src/Transfer/Chunk/Delivery.antt =====
-- The chunks of one file arrive at the receiver of core/transfer/chunk.go, in any order.
use mathlib.Core.List.{map, Memᴰ}
use lanos.Common.{
  ℕ, zero, suc, ◌-◌, ◌*◌, ◌<◌, ◌≡◌, refl, sym, ap, ◌∙◌, inl, inr, true, false, String, Option, none,
  some, List, [], ◌∷◌, arith, nat_eq, string_eq, ◌==◌, length, get_elem?, set, Bool-cases,
  length-set, beq_refl, All,
}
use lanos.Common.Int.{pos}
use lanos.Common.Map.{lookup, insert, lookup-insert}
use lanos.Transfer.Chunk.{
  whole, Bytes, chunk_size, ChunkWriter, Disk, Manifest, Writes, Outcome, panics, returns,
  count_true, expected_size, save, write_at, write_chunk,
}
use lanos.Transfer.Chunk.Pieces.{
  pieces, piece_count, length-pieces, length-get_elem?-pieces, piece_size,
}
use lanos.Transfer.Chunk.Reader.{manifest_of}
use lanos.Transfer.Chunk.Writer.{count_true-set, get_elem?-set, get_elem?-some}

-- Every call of the operating system succeeds.
abbrev pub good : Writes
good = record { file = whole; meta_saved = true }

expected_piece_size :
    (len i : ℕ)
    → i < piece_count len
    → expected_size (pos len) (piece_count len) i ≡ piece_size (len - i * chunk_size)
unfolding expected_size
expected_piece_size len i h = ground arith

module _ (sha256_hex : Bytes → String) (task_id file_name : String) (content : Bytes) where
  abbrev pub chunks : List Bytes
  chunks = pieces (piece_count (length content)) content

  abbrev pub announced : Manifest
  announced = manifest_of sha256_hex task_id file_name content

  -- What the receiver holds while it gets the chunks of `content`.
  pub record Holds (cw : ChunkWriter) (d : Disk) : Type 0 where
    pub same_manifest : cw.manifest ≡ announced
    pub marks : length cw.received ≡ piece_count (length content)
    pub counted : cw.received_n ≡ count_true cw.received
    pub stored :
        (i : ℕ) → get_elem? cw.received i ≡ some true → lookup i d.chunks ≡ get_elem? chunks i

  get_elem?-hashes :
      (ps : List Bytes) (i : ℕ) (p : Bytes)
      → get_elem? ps i ≡ some p
      → get_elem? (map sha256_hex ps) i ≡ some (sha256_hex p)
  get_elem?-hashes [] i p h = cc
  get_elem?-hashes (q ∷ ps) zero p h =
      ap (λ (b : Option Bytes). elim b [ none ↦ none | some c ↦ some (sha256_hex c) ]) h
  get_elem?-hashes (q ∷ ps) (suc i) p h = get_elem?-hashes ps i p h

  -- The call that delivers chunk `i`.
  abbrev deliver_one : ChunkWriter → Disk → ℕ → Bytes → Outcome
  deliver_one cw d i p = write_chunk sha256_hex cw d (pos i) p good

  -- The outcome of a delivery: nothing is lost, and chunk `i` is marked.
  record Delivered (cw : ChunkWriter) (d : Disk) (i : ℕ) (p : Bytes) : Type 0 where
    cw' : ChunkWriter
    d' : Disk
    returned : deliver_one cw d i p ≡ returns cw' d' none
    holds : Holds cw' d'
    marked : get_elem? cw'.received i ≡ some true
    kept : (j : ℕ) → get_elem? cw.received j ≡ some true → get_elem? cw'.received j ≡ some true

  deliver_marked :
      (cw : ChunkWriter) (d : Disk) (i : ℕ) (p : Bytes)
      → Holds cw d
      → i < piece_count (length content)
      → get_elem? cw.received i ≡ some true
      → deliver_one cw d i p ≡ returns cw d none
  unfolding write_chunk write_at
  deliver_marked cw d i p v lt m = ground (arith, v.same_manifest, m)

  -- A chunk that is not there yet passes every check.
  deliver_new :
      (cw : ChunkWriter) (d : Disk) (i : ℕ) (p : Bytes)
      → Holds cw d
      → i < piece_count (length content)
      → get_elem? cw.received i ≡ some false
      → get_elem? chunks i ≡ some p
      → deliver_one cw d i p ≡ save cw d i p good
  unfolding write_chunk write_at
  deliver_new cw d i p v lt m q = ground (
    arith,
    v.same_manifest,
    m,
    get_elem?-hashes chunks i p q,
    string_eq.beq_iff (sha256_hex p) (sha256_hex p),
    expected_piece_size (length content) i lt,
    length-get_elem?-pieces (piece_count (length content)) content i p q,
  )

  saved :
      (cw : ChunkWriter) (d : Disk) (i : ℕ) (p : Bytes)
      → save cw d i p good
        ≡ returns
            (record cw { received = set cw.received i true; received_n = suc cw.received_n })
            (record {
              chunks = insert i p d.chunks;
              meta = some (record { manifest = cw.manifest; received = set cw.received i true });
            })
            none
  unfolding save
  saved cw d i p = refl

  new_Delivered :
      (cw : ChunkWriter) (d : Disk) (i : ℕ) (p : Bytes)
      → Holds cw d
      → i < piece_count (length content)
      → get_elem? cw.received i ≡ some false
      → get_elem? chunks i ≡ some p
      → Delivered cw d i p
  new_Delivered cw d i p v lt m q =
      let now = λ (j : ℕ). get_elem?-set cw.received i j (omega (arith, v.marks)) in
      record {
        cw' = record cw { received = set cw.received i true; received_n = suc cw.received_n };
        d' = record {
          chunks = insert i p d.chunks;
          meta = some (record { manifest = cw.manifest; received = set cw.received i true });
        };
        returned = deliver_new cw d i p v lt m q ∙ saved cw d i p;
        holds = record {
          same_manifest = v.same_manifest;
          marks = length-set cw.received i true ∙ v.marks;
          counted = omega (arith, v.counted, count_true-set cw.received i m);
          stored = λ j e. elim (Bool-cases (i == j)) [
            | inl same ↦
                rw (lookup-insert, same)
                  (sym q ∙ ap (get_elem? chunks) ((nat_eq.beq_iff i j).0 same))
            | inr other ↦ rw (lookup-insert, other) (v.stored j (rw (now j, other) at e))
          ];
        };
        marked = rw (now i, beq_refl i) refl;
        kept = λ j e. ground (arith, now j, e);
      }

  deliver_one-Delivered :
      (cw : ChunkWriter) (d : Disk) (i : ℕ) (p : Bytes)
      → Holds cw d
      → i < piece_count (length content)
      → get_elem? chunks i ≡ some p
      → Delivered cw d i p
  deliver_one-Delivered cw d i p v lt q =
      let (mark, e) = get_elem?-some cw.received i (omega (arith, v.marks)) in
      elim (Bool-cases mark) [
        | inl t ↦
            let m : get_elem? cw.received i ≡ some true = e ∙ ap some t in
            record {
              cw' = cw;
              d' = d;
              returned = deliver_marked cw d i p v lt m;
              holds = v;
              marked = m;
              kept = λ j k. k;
            }
        | inr f ↦ new_Delivered cw d i p v lt (e ∙ ap some f) q
      ]

  -- Deliver the chunks with these numbers, one after the other; `none` where a call fails.
  pub deliver : ChunkWriter → Disk → List ℕ → Option (ChunkWriter × Disk)
  deliver cw d [] = some (cw, d)
  deliver cw d (i ∷ is) = elim (get_elem? chunks i) [
    | none ↦ none
    | some p ↦ elim (deliver_one cw d i p) [
      | panics ↦ none
      | returns cw' d' (some e) ↦ none
      | returns cw' d' none ↦ deliver cw' d' is
    ]
  ]

  -- The state after a delivery, and what is marked in it.
  pub record AllDelivered (cw : ChunkWriter) (d : Disk) (is : List ℕ) : Type 0 where
    pub cw' : ChunkWriter
    pub d' : Disk
    pub returned : deliver cw d is ≡ some (cw', d')
    pub holds : Holds cw' d'
    pub marked : (i : ℕ) → Memᴰ i is → get_elem? cw'.received i ≡ some true
    pub kept : (j : ℕ) → get_elem? cw.received j ≡ some true → get_elem? cw'.received j ≡ some true

  pub deliver-AllDelivered :
      (cw : ChunkWriter) (d : Disk) (is : List ℕ)
      → Holds cw d
      → All (λ i. i < piece_count (length content)) is
      → AllDelivered cw d is
  unfolding deliver
  deliver-AllDelivered cw d [] v lt = record {
    cw' = cw;
    d' = d;
    returned = refl;
    holds = v;
    marked = λ i m. elim m [ ];
    kept = λ j e. e;
  }
  deliver-AllDelivered cw d (i ∷ is) v lt =
      let (p, q) =
        get_elem?-some chunks i
          (omega (arith, lt.0, length-pieces (piece_count (length content)) content)) in
      let one = deliver_one-Delivered cw d i p v lt.0 q in
      let rest = deliver-AllDelivered one.cw' one.d' is one.holds lt.1 in
      record {
        cw' = rest.cw';
        d' = rest.d';
        returned = rw (deliver, q, one.returned) rest.returned;
        holds = rest.holds;
        marked = λ j m. marked_either i is j rest.cw' (rest.kept i one.marked) rest.marked m;
        kept = λ j e. rest.kept j (one.kept j e);
      }
    where
      marked_either :
          (i : ℕ) (is : List ℕ) (j : ℕ) (cw' : ChunkWriter)
          → get_elem? cw'.received i ≡ some true
          → ((k : ℕ) → Memᴰ k is → get_elem? cw'.received k ≡ some true)
          → Memᴰ j (i ∷ is)
          → get_elem? cw'.received j ≡ some true
      marked_either i is j cw' now later (Memᴰ.head e) = rw e now
      marked_either i is j cw' now later (Memᴰ.tail m) = later j m
