-- ===== src/Transfer/Chunk.antt =====
-- core/transfer/chunk.go: a file in chunks of 4 MiB, each with its SHA256.
-- `sha256_hex` (crypto/sha256 and encoding/hex) is a parameter. The files of one task are a record;
-- whether a call of the operating system succeeds is an argument. Directories are not modelled.
mod Examples
pub mod Pieces
pub mod Reader
pub mod Writer
pub mod Delivery
pub mod RoundTrip
pub mod Resume
use lanos.Common.{
  ℕ, zero, suc, ◌+◌, ◌-◌, ◌*◌, ◌/◌, ◌^◌, Bool, true, false, not, String, Option, none, some, List,
  [], ◌∷◌, ◌++◌, if◌then◌else◌, string_eq, nat_eq, ◌==◌, ltb, leb, length, get_elem?, set, take,
  drop, replicate, Result, ok, err,
}
use lanos.Common.Int.{ℤ, pos, negsuc}
use lanos.Common.Map.{Map, lookup, insert}

abbrev pub Bytes : Type 0
Bytes = List ℕ

-- 4 << 20.
abbrev pub chunk_size : ℕ
chunk_size = 4194304

pub data ChunkError : Type 0 where
  chunk_index chunk_hash chunk_size_wrong incomplete end_of_file read_failed write_failed
        meta_failed open_failed assembled_size :
      ChunkError

pub record Manifest : Type 0 where
  pub task_id : String
  pub file_name : String
  pub total_size : ℤ
  pub chunk_count : ℤ
  pub chunk_hashes : List String

-- -n.
abbrev pub negate : ℕ → ℤ
negate zero = pos 0
negate (suc n) = negsuc n

-- The sum is an `int64`, which wraps; `/` rounds towards 0.
unfoldable pub chunk_count : ℤ → ℤ
chunk_count (negsuc n) = pos 0
chunk_count (pos n) =
    let sum = n + chunk_size - 1 in
    if n == 0
    then pos 0
    else if ltb sum (2 ^ 63)
    then pos (sum / chunk_size)
    else negate ((2 ^ 64 - sum) / chunk_size)

-- `f` is what is left to read of the file.
pub record ChunkReader : Type 0 where
  pub f : Bytes
  pub idx : ℕ
  pub remaining : ℕ
  pub total : ℕ

pub record ChunkResult : Type 0 where
  pub idx : ℕ
  pub content : Bytes
  pub sha256 : String

-- The file was opened, and `Stat` gave its size.
unfoldable pub new_chunk_reader : Bytes → ℕ → ChunkReader
new_chunk_reader f size = record { f = f; idx = 0; remaining = size; total = size }

-- `io.ReadFull`: n bytes, or an error if there are fewer.
unfoldable pub read_full : Bytes → ℕ → Option (Bytes × Bytes)
read_full f n = if leb n (length f) then some (take n f, drop n f) else none

-- The size of the next chunk.
abbrev pub next_size : ℕ → ℕ
next_size remaining = if ltb remaining chunk_size then remaining else chunk_size

module _ (sha256_hex : Bytes → String) where
  unfoldable pub next : ChunkReader → Result ChunkError (ChunkResult × ChunkReader)
  unfolding read_full
  next r =
      let n = next_size r.remaining in
      if r.remaining == 0 then err end_of_file else elim (read_full r.f n) [
        | none ↦ err read_failed
        | some (b, rest) ↦ ok (
          record { idx = r.idx; content = b; sha256 = sha256_hex b },
          record r { f = rest; idx = r.idx + 1; remaining = r.remaining - n },
        )
      ]

  -- The loop of `BuildManifest`. Each round but the last takes a byte or more.
  unfoldable pub build_loop : ℕ → Bytes → ℕ → List String → Result ChunkError (List String)
  build_loop zero f remaining hashes = err read_failed
  build_loop (suc fuel) f remaining hashes =
      let n = next_size remaining in
      if n == 0 then ok hashes else elim (read_full f n) [
        | none ↦ err read_failed
        | some (b, rest) ↦ build_loop fuel rest (remaining - n) (hashes ++ (sha256_hex b ∷ []))
      ]

  unfoldable pub build_manifest : ChunkReader → String → String → Result ChunkError Manifest
  build_manifest r task_id file_name = elim (build_loop (suc r.remaining) r.f r.remaining []) [
    | err e ↦ err e
    | ok hashes ↦ ok (record {
      task_id = task_id;
      file_name = file_name;
      total_size = pos r.total;
      chunk_count = pos (length hashes);
      chunk_hashes = hashes;
    })
  ]

-- The persisted resume state.
pub record ChunkMeta : Type 0 where
  pub manifest : Manifest
  pub received : List Bool

-- The files of one task: `chunk_<idx>` and the .meta file.
pub record Disk : Type 0 where
  pub chunks : Map ℕ Bytes
  pub meta : Option ChunkMeta

pub record ChunkWriter : Type 0 where
  pub manifest : Manifest
  pub received : List Bool
  pub received_n : ℕ

abbrev pub count_true : List Bool → ℕ
count_true [] = 0
count_true (true ∷ bs) = suc (count_true bs)
count_true (false ∷ bs) = count_true bs

unfoldable pub load_meta : Disk → ChunkWriter → ChunkWriter
load_meta d cw = elim d.meta [
  | none ↦ cw
  | some m ↦
      if m.manifest.task_id == cw.manifest.task_id
      then (if length m.received == length cw.received
          then record cw {
            received = m.received;
            received_n = cw.received_n + count_true m.received;
          }
          else cw)
      else cw
]

-- `make` panics on a negative length.
unfoldable pub new_chunk_writer : Disk → Manifest → Option ChunkWriter
new_chunk_writer d manifest = elim manifest.chunk_count [
  | negsuc n ↦ none
  | pos n ↦
      some
        (load_meta d (record { manifest = manifest; received = replicate n false; received_n = 0 }))
]

unfoldable pub is_received : ChunkWriter → ℤ → Bool
is_received cw (negsuc n) = false
is_received cw (pos i) = elim (get_elem? cw.received i) [ none ↦ false | some b ↦ b ]

-- How a call of `os.WriteFile` ends: it fails before it opens the file, or leaves some bytes in it.
pub data FileWrite : Type 0 where
  whole : FileWrite
  unopened : FileWrite
  cut : Bytes → FileWrite

-- How the two writes of `WriteChunk` end.
-- The .meta file is written to another name first, so a failure leaves the old one.
pub record Writes : Type 0 where
  pub file : FileWrite
  pub meta_saved : Bool

-- A panic, or the writer and the files with the error.
pub data Outcome : Type 0 where
  panics : Outcome
  returns : ChunkWriter → Disk → Option ChunkError → Outcome

-- The size that chunk `i` of `n` must have: `rem > 0` of the code is `i * ChunkSize < total`.
unfoldable pub expected_size : ℤ → ℕ → ℕ → ℕ
expected_size (negsuc t) n i = chunk_size
expected_size (pos total) n i =
    if i + 1 == n
    then (if ltb (i * chunk_size) total then total - i * chunk_size else chunk_size)
    else chunk_size

unfoldable pub save : ChunkWriter → Disk → ℕ → Bytes → Writes → Outcome
save cw d i content w =
    let cw' : ChunkWriter = record cw {
      received = set cw.received i true;
      received_n = suc cw.received_n;
    } in
    let d' : Disk = record d { chunks = insert i content d.chunks } in
    let m : ChunkMeta = record { manifest = cw.manifest; received = set cw.received i true } in
    elim w.file [
      | unopened ↦ returns cw d (some write_failed)
      | cut junk ↦ returns cw (record d { chunks = insert i junk d.chunks }) (some write_failed)
      | whole ↦
          if w.meta_saved
          then returns cw' (record d' { meta = some m }) none
          else returns cw' d' (some meta_failed)
    ]

module _ (sha256_hex : Bytes → String) where
  -- `WriteChunk` for an index in range: two look-ups that may panic, then the checks.
  unfoldable pub write_at : ChunkWriter → Disk → ℕ → ℕ → Bytes → Writes → Outcome
  write_at cw d n i content w = elim (get_elem? cw.received i) [
    | none ↦ panics
    | some true ↦ returns cw d none
    | some false ↦ elim (get_elem? cw.manifest.chunk_hashes i) [
      | none ↦ panics
      | some h ↦
          if not (sha256_hex content == h)
          then returns cw d (some chunk_hash)
          else if not (length content == expected_size cw.manifest.total_size n i)
          then returns cw d (some chunk_size_wrong)
          else save cw d i content w
    ]
  ]

  unfoldable pub write_chunk : ChunkWriter → Disk → ℤ → Bytes → Writes → Outcome
  write_chunk cw d (negsuc i) content w = returns cw d (some chunk_index)
  write_chunk cw d (pos i) content w = elim cw.manifest.chunk_count [
    | negsuc n ↦ returns cw d (some chunk_index)
    | pos n ↦ if ltb i n then write_at cw d n i content w else returns cw d (some chunk_index)
  ]

-- The loop of `Assemble`: `k` chunks from chunk `i` on.
unfoldable pub assemble_loop : ℕ → ℕ → Map ℕ Bytes → Bytes → Result ChunkError Bytes
assemble_loop zero i chunks out = ok out
assemble_loop (suc k) i chunks out = elim (lookup i chunks) [
  | none ↦ err open_failed
  | some b ↦ assemble_loop k (i + 1) chunks (out ++ b)
]

-- The bytes of the assembled file. All calls of the operating system are taken to succeed, but
-- for the opening of a chunk that is not there.
unfoldable pub assemble : ChunkWriter → Disk → Result ChunkError Bytes
assemble cw d = elim cw.manifest.chunk_count [
  | negsuc n ↦ err incomplete
  | pos n ↦
      if not (cw.received_n == n) then err incomplete else elim (assemble_loop n 0 d.chunks []) [
        | err e ↦ err e
        | ok out ↦ elim cw.manifest.total_size [
          | negsuc t ↦ err assembled_size
          | pos t ↦ if length out == t then ok out else err assembled_size
        ]
      ]
]

unfoldable pub received_count : ChunkWriter → ℕ
received_count cw = cw.received_n

-- `ChunkReader.ChunkCount`.
unfoldable pub chunks_of : ChunkReader → ℤ
chunks_of r = chunk_count (pos r.total)

unfoldable pub cleanup : Disk → Disk
cleanup d = record { chunks = []; meta = none }
