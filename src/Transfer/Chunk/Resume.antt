-- ===== src/Transfer/Chunk/Resume.antt =====
-- The resume state that `loadMeta` of core/transfer/chunk.go adopts.
use lanos.Common.{
  ℕ, ◌+◌, ◌≡◌, sym, ap, ◌∙◌, false, some, List, [], arith, nat_eq, string_eq, length, get_elem?,
  length-replicate, ok,
}
use lanos.Common.Int.{pos}
use lanos.Common.Map.{lookup}
use lanos.Transfer.Chunk.{
  Bytes, ChunkWriter, ChunkMeta, Disk, Manifest, count_true, load_meta, new_chunk_writer, assemble,
}
use lanos.Transfer.Chunk.Pieces.{concat}
use lanos.Transfer.Chunk.RoundTrip.{fresh_writer, assemble_loop-concat, assemble_complete}

load_meta_adopts :
    (d : Disk) (m : ChunkMeta) (cw : ChunkWriter)
    → d.meta ≡ some m
    → m.manifest.task_id ≡ cw.manifest.task_id
    → length m.received ≡ length cw.received
    → load_meta d cw
      ≡ record cw { received = m.received; received_n = cw.received_n + count_true m.received }
unfolding load_meta
load_meta_adopts d m cw e t l =
    ground (arith, e, string_eq.beq_iff m.manifest.task_id cw.manifest.task_id)

new_writer :
    (d : Disk) (man : Manifest) (n : ℕ)
    → man.chunk_count ≡ pos n
    → new_chunk_writer d man ≡ some (load_meta d (fresh_writer n man))
unfolding new_chunk_writer
new_writer d man n e = ground (arith, e)

-- A resume state is adopted by its task id and its number of chunks alone: if an earlier transfer
-- under this task id got all its chunks, then for every manifest with this task id, as many chunks
-- and the same total size, `Assemble` gives the earlier file, whatever hashes the manifest lists.
pub assemble_stale :
    (man : Manifest) (m : ChunkMeta) (d : Disk) (old : List Bytes)
    → d.meta ≡ some m
    → m.manifest.task_id ≡ man.task_id
    → length m.received ≡ length old
    → count_true m.received ≡ length old
    → ((i : ℕ) (p : Bytes) → get_elem? old i ≡ some p → lookup (0 + i) d.chunks ≡ some p)
    → man.chunk_count ≡ pos (length old)
    → man.total_size ≡ pos (length (concat old))
    → (cw : ChunkWriter) × (new_chunk_writer d man ≡ some cw) × (assemble cw d ≡ ok (concat old))
assemble_stale man m d old e t l c on_disk count size =
    let cw : ChunkWriter = fresh_writer (length old) man in
    let adopted = load_meta_adopts d m cw e t (l ∙ sym (length-replicate (length old) false)) in
    (
      record cw { received = m.received; received_n = 0 + count_true m.received },
      new_writer d man (length old) count ∙ ap some adopted,
      assemble_complete
          (record cw { received = m.received; received_n = 0 + count_true m.received }) d
          (length old) (concat old) count (omega (arith, c))
          (assemble_loop-concat old 0 d.chunks [] on_disk) size,
    )
