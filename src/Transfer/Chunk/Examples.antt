-- ===== src/Transfer/Chunk/Examples.antt =====
-- A small file through core/transfer/chunk.go, and the theorems at it.
use mathlib.Core.List.{Memᴰ}
use mathlib.Core.List.Memᴰ.{head}
use lanos.Common.{
  ℕ, zero, suc, ◌+◌, ◌<◌, ◌≡◌, refl, true, false, String, string_eq, nat_eq, some, [], ◌∷◌, arith,
  get_elem?, ok, if◌then◌else◌, ◌==◌,
}
use lanos.Common.Int.{pos}
use lanos.Common.Map.{lookup}
use lanos.Transfer.Chunk.{
  whole, Bytes, Manifest, new_chunk_reader, build_manifest, ChunkMeta, Disk, ChunkWriter,
  new_chunk_writer, Writes, write_chunk, assemble,
}
use lanos.Transfer.Chunk.Pieces.{concat}
use lanos.Transfer.Chunk.Reader.{manifest_of, build_manifest-pieces}
use lanos.Transfer.Chunk.Writer.{IsStored, IsSound, ReturnsSound, write_chunk-IsSound}
use lanos.Transfer.Chunk.Delivery.{deliver, announced}
use lanos.Transfer.Chunk.RoundTrip.{empty_disk, assemble-deliver}
use lanos.Transfer.Chunk.Resume.{assemble_stale}

-- In place of SHA256: a name for the first byte.
abbrev first_hex : Bytes → String
first_hex [] = "e3"
first_hex (b ∷ bs) = if b == 1 then "4b" else "6e"

abbrev content : Bytes
content = 1 ∷ 2 ∷ 3 ∷ []

abbrev other_content : Bytes
other_content = 4 ∷ 5 ∷ 6 ∷ []

build_manifest-pieces_example :
    build_manifest first_hex (new_chunk_reader content 3) "t" "f"
    ≡ ok (manifest_of first_hex "t" "f" content)
build_manifest-pieces_example = build_manifest-pieces first_hex content "t" "f"

abbrev one_chunk : Manifest
one_chunk = record {
  task_id = "t";
  file_name = "f";
  total_size = pos 3;
  chunk_count = pos 1;
  chunk_hashes = "4b" ∷ [];
}

abbrev waiting : ChunkWriter
waiting = record { manifest = one_chunk; received = false ∷ []; received_n = 0 }

none_marked :
    (i : ℕ) → get_elem? (false ∷ []) i ≡ some true → IsStored first_hex one_chunk 1 empty_disk i
none_marked zero e = absurd (cc e)
none_marked (suc i) e = absurd (cc e)

waiting-IsSound : IsSound first_hex 1 waiting empty_disk
waiting-IsSound = record {
  announced = refl;
  hashes = refl;
  marks = refl;
  counted = refl;
  stored = none_marked;
}

abbrev all_succeed : Writes
all_succeed = record { file = whole; meta_saved = true }

write_chunk-IsSound_example :
    ReturnsSound first_hex 1 (write_chunk first_hex waiting empty_disk (pos 0) content all_succeed)
write_chunk-IsSound_example =
    write_chunk-IsSound first_hex 1 waiting empty_disk (pos 0) content all_succeed waiting-IsSound

only_first : (i : ℕ) → i < 1 → Memᴰ i (0 ∷ 0 ∷ [])
only_first i lt = head (omega arith)

assemble-deliver_example :
    (cw cw' : ChunkWriter) × (d' : Disk) × (new_chunk_writer empty_disk
        (announced first_hex "t" "f" content)
      ≡ some cw)
    × (deliver first_hex "t" "f" content cw empty_disk (0 ∷ 0 ∷ []) ≡ some (cw', d'))
    × (assemble cw' d' ≡ ok content)
assemble-deliver_example =
    assemble-deliver first_hex "t" "f" content (0 ∷ 0 ∷ []) (omega arith, (omega arith, tt))
      only_first

-- The files that an earlier transfer of other bytes left under the same task id.
abbrev left_meta : ChunkMeta
left_meta = record {
  manifest = record one_chunk { chunk_hashes = "6e" ∷ [] };
  received = true ∷ [];
}

abbrev left_disk : Disk
left_disk = record { chunks = (0, other_content) ∷ []; meta = some left_meta }

left_chunks :
    (i : ℕ) (p : Bytes)
    → get_elem? (other_content ∷ []) i ≡ some p
    → lookup (0 + i) left_disk.chunks ≡ some p
unfolding lookup
left_chunks zero p e = e
left_chunks (suc i) p e = absurd (cc e)

assemble_stale_example :
    (cw : ChunkWriter) × (new_chunk_writer left_disk one_chunk ≡ some cw)
    × (assemble cw left_disk ≡ ok (concat (other_content ∷ [])))
assemble_stale_example =
    assemble_stale one_chunk left_meta left_disk (other_content ∷ []) refl refl refl refl
      left_chunks refl refl
