-- ===== src/Transfer/Chunk/Writer.antt =====
-- What the receiver of core/transfer/chunk.go keeps, whatever arrives and whatever write fails.
use lanos.Common.{
  ◌⊎◌, ℕ, zero, suc, ◌<◌, ◌≡◌, refl, sym, ap, ◌∙◌, inl, inr, Bool, true, false, String, some, List,
  [], ◌∷◌, arith, if◌then◌else◌, nat_eq, string_eq, ◌==◌, ltb, length, get_elem?, set, Bool-cases,
  length-set,
}
use lanos.Common.Int.{ℤ, pos, negsuc}
use lanos.Common.Map.{lookup, insert, lookup-insert}
use lanos.Transfer.Chunk.{
  FileWrite, whole, unopened, cut, Bytes, ChunkWriter, Disk, Manifest, Writes, Outcome, panics,
  returns, count_true, expected_size, save, write_at, write_chunk,
}

file_cases : (f : FileWrite) → (f ≡ whole) ⊎ (f ≡ unopened) ⊎ (junk : Bytes) × (f ≡ cut junk)
file_cases whole = inl refl
file_cases unopened = inr (inl refl)
file_cases (cut junk) = inr (inr (junk, refl))

module _ (sha256_hex : Bytes → String) where
  -- Chunk `i` lies on the disk with the hash and the size that the manifest gives.
  pub record IsStored (m : Manifest) (n : ℕ) (d : Disk) (i : ℕ) : Type 0 where
    pub content : Bytes
    pub on_disk : lookup i d.chunks ≡ some content
    pub hash_ok : get_elem? m.chunk_hashes i ≡ some (sha256_hex content)
    pub size_ok : length content ≡ expected_size m.total_size n i

  -- The manifest announces `n` chunks, with a hash for each; every chunk that is marked as received
  -- is stored, and the count is the number of marks.
  pub record IsSound (n : ℕ) (cw : ChunkWriter) (d : Disk) : Type 0 where
    pub announced : cw.manifest.chunk_count ≡ pos n
    pub hashes : length cw.manifest.chunk_hashes ≡ n
    pub marks : length cw.received ≡ n
    pub counted : cw.received_n ≡ count_true cw.received
    pub stored : (i : ℕ) → get_elem? cw.received i ≡ some true → IsStored cw.manifest n d i

  -- The call returns, and what it returns is sound.
  abbrev pub ReturnsSound : ℕ → Outcome → Type 0
  ReturnsSound n panics = ⊥
  ReturnsSound n (returns cw d e) = IsSound n cw d

pub count_true-set :
    (bs : List Bool) (i : ℕ)
    → get_elem? bs i ≡ some false
    → count_true (set bs i true) ≡ suc (count_true bs)
count_true-set [] i h = cc
count_true-set (true ∷ bs) zero h = cc
count_true-set (false ∷ bs) zero h = refl
count_true-set (true ∷ bs) (suc i) h = ap suc (count_true-set bs i h)
count_true-set (false ∷ bs) (suc i) h = count_true-set bs i h

pub get_elem?-set :
    (bs : List Bool) (i j : ℕ)
    → i < length bs
    → get_elem? (set bs i true) j ≡ (if i == j then some true else get_elem? bs j)
get_elem?-set [] i j h = elim h [ ]
get_elem?-set (b ∷ bs) zero zero h = refl
get_elem?-set (b ∷ bs) zero (suc j) h = ground arith
get_elem?-set (b ∷ bs) (suc i) zero h = ground arith
get_elem?-set (b ∷ bs) (suc i) (suc j) h = ground (arith, get_elem?-set bs i j)

pub get_elem?-some {ℓ} :
    {A : Type ℓ} (xs : List A) (i : ℕ) → i < length xs → (a : A) × (get_elem? xs i ≡ some a)
get_elem?-some [] i h = elim h [ ]
get_elem?-some (x ∷ xs) zero h = (x, refl)
get_elem?-some (x ∷ xs) (suc i) h = get_elem?-some xs i (omega arith)

module _ (sha256_hex : Bytes → String) where
  IsStored-other :
      (m : Manifest) (n : ℕ) (d d' : Disk) (i j : ℕ) (b : Bytes)
      → IsStored sha256_hex m n d j
      → (i == j) ≡ false
      → d'.chunks ≡ insert i b d.chunks
      → IsStored sha256_hex m n d' j
  IsStored-other m n d d' i j b s e q = record {
    content = s.content;
    on_disk = rw (q, lookup-insert, e) s.on_disk;
    hash_ok = s.hash_ok;
    size_ok = s.size_ok;
  }

  -- A failed write of an unmarked chunk harms no marked one.
  junk-IsSound :
      (n i : ℕ) (cw : ChunkWriter) (d : Disk) (junk : Bytes)
      → IsSound sha256_hex n cw d
      → get_elem? cw.received i ≡ some false
      → IsSound sha256_hex n cw (record d { chunks = insert i junk d.chunks })
  junk-IsSound n i cw d junk v unmarked = record {
    announced = v.announced;
    hashes = v.hashes;
    marks = v.marks;
    counted = v.counted;
    stored = λ j marked.
        IsStored-other cw.manifest n d _ i j junk (v.stored j marked)
          (unmarked_ne cw.received i j unmarked marked) refl;
  }
    where
      unmarked_ne :
          (bs : List Bool) (i j : ℕ)
          → get_elem? bs i ≡ some false
          → get_elem? bs j ≡ some true
          → (i == j) ≡ false
      unmarked_ne bs i j u t = elim (Bool-cases (i == j)) [
        | inl e ↦ absurd (cc (u, t, (nat_eq.beq_iff i j).0 e))
        | inr e ↦ e
      ]

  marked-IsSound :
      (n i : ℕ) (cw : ChunkWriter) (d d' : Disk) (content : Bytes)
      → IsSound sha256_hex n cw d
      → i < n
      → get_elem? cw.received i ≡ some false
      → get_elem? cw.manifest.chunk_hashes i ≡ some (sha256_hex content)
      → length content ≡ expected_size cw.manifest.total_size n i
      → d'.chunks ≡ insert i content d.chunks
      → IsSound sha256_hex n
          (record cw { received = set cw.received i true; received_n = suc cw.received_n })
          d'
  marked-IsSound n i cw d d' content v lt unmarked hash size q = record {
    announced = v.announced;
    hashes = v.hashes;
    marks = length-set cw.received i true ∙ v.marks;
    counted = omega (arith, v.counted, count_true-set cw.received i unmarked);
    stored = λ j marked. elim (Bool-cases (i == j)) [
      | inl e ↦ record {
        content = content;
        on_disk = rw (q, lookup-insert, e) refl;
        hash_ok = rw (← (nat_eq.beq_iff i j).0 e) hash;
        size_ok = rw (← (nat_eq.beq_iff i j).0 e) size;
      }
      | inr e ↦
          IsStored-other cw.manifest n d d' i j content
            (v.stored j (rw (get_elem?-set cw.received i j (omega (arith, v.marks)), e) at marked))
            e q
    ];
  }

  save-IsSound :
      (n i : ℕ) (cw : ChunkWriter) (d : Disk) (content : Bytes) (w : Writes)
      → IsSound sha256_hex n cw d
      → i < n
      → get_elem? cw.received i ≡ some false
      → get_elem? cw.manifest.chunk_hashes i ≡ some (sha256_hex content)
      → length content ≡ expected_size cw.manifest.total_size n i
      → ReturnsSound sha256_hex n (save cw d i content w)
  unfolding save
  save-IsSound n i cw d content w v lt unmarked hash size = elim (file_cases w.file) [
    | inr (inl e) ↦ rw (save, e) v
    | inr (inr (junk, e)) ↦ rw (save, e) (junk-IsSound n i cw d junk v unmarked)
    | inl e ↦ elim (Bool-cases w.meta_saved) [
      | inl s ↦ rw (save, e, s) (marked-IsSound n i cw d _ content v lt unmarked hash size refl)
      | inr s ↦ rw (save, e, s) (marked-IsSound n i cw d _ content v lt unmarked hash size refl)
    ]
  ]

  write_at-IsSound :
      (n i : ℕ) (cw : ChunkWriter) (d : Disk) (content : Bytes) (w : Writes)
      → IsSound sha256_hex n cw d
      → i < n
      → ReturnsSound sha256_hex n (write_at sha256_hex cw d n i content w)
  unfolding write_at
  write_at-IsSound n i cw d content w v lt =
      let (mark, e) = get_elem?-some cw.received i (omega (arith, v.marks)) in
      let (h, q) = get_elem?-some cw.manifest.chunk_hashes i (omega (arith, v.hashes)) in
      elim (Bool-cases mark) [
        | inl t ↦ rw (write_at, e, t) v
        | inr f ↦ elim (Bool-cases (sha256_hex content == h)) [
          | inr bad ↦ rw (write_at, e, f, q, bad) v
          | inl good ↦
              elim (Bool-cases (length content == expected_size cw.manifest.total_size n i)) [
                | inr wrong ↦ rw (write_at, e, f, q, good, wrong) v
                | inl fits ↦
                    rw (write_at, e, f, q, good, fits)
                      (save-IsSound n i cw d content w v lt (e ∙ ap some f)
                        (q ∙ ap some (sym ((string_eq.beq_iff _ h).0 good)))
                        ((nat_eq.beq_iff _ _).0 fits))
              ]
        ]
      ]

  -- On a sound writer `WriteChunk` returns, without a panic, for every index and content and
  -- however its two writes end; afterwards every chunk that is marked as received still lies on the
  -- disk with the hash and the size that the manifest gives, and the count is the number of marks.
  pub write_chunk-IsSound :
      (n : ℕ) (cw : ChunkWriter) (d : Disk) (idx : ℤ) (content : Bytes) (w : Writes)
      → IsSound sha256_hex n cw d
      → ReturnsSound sha256_hex n (write_chunk sha256_hex cw d idx content w)
  unfolding write_chunk
  write_chunk-IsSound n cw d (negsuc i) content w v = v
  write_chunk-IsSound n cw d (pos i) content w v = elim (Bool-cases (ltb i n)) [
    | inl e ↦
        rw (write_chunk, v.announced, e) (write_at-IsSound n i cw d content w v (ground arith))
    | inr e ↦ rw (write_chunk, v.announced, e) v
  ]
