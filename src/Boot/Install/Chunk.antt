-- ===== src/Boot/Install/Chunk.antt =====
-- boot/main.c: the chunk size that `copy_install_media` looks for.
use un_orion.Common.{
  ℕ, zero, suc, ◌+◌, ◌*◌, ◌%◌, ◌^◌, ◌≤◌, ◌<◌, ◌≡◌, inl, inr, ◌&&◌, Option, none, some, u64, ltb,
  ◌==◌, Bool-cases, done, arith,
}
use un_orion.Boot.Install.{find_chunk, install_chunk}

-- What the search may end with: no chunk, or one of at most 1 MiB in whole blocks of both disks.
pub data IsChunk (source_block target_block : ℕ) : Option ℕ → Type 0 where
  no_chunk : IsChunk source_block target_block none
  is_chunk :
      (chunk : ℕ)
      → install_chunk ≤ chunk
      → chunk ≤ 1024 * 1024
      → chunk % source_block ≡ 0
      → chunk % target_block ≡ 0
      → IsChunk source_block target_block (some chunk)

past_limit : (n : ℕ) → n ≤ 1024 * 1024 → 1024 * 1024 < 0 + n → ⊥
past_limit n h k = omega arith

pub find_chunk-IsChunk :
    (fuel source_block target_block chunk : ℕ)
    → 1 ≤ source_block
    → source_block < 2 ^ 32
    → install_chunk ≤ chunk
    → chunk ≤ 1024 * 1024
    → 1024 * 1024 < fuel + chunk
    → (r : Option ℕ) × (find_chunk fuel source_block target_block chunk ≡ done r)
      × IsChunk source_block target_block r
unfolding find_chunk
find_chunk-IsChunk zero sb tb chunk a b c d h = elim (past_limit chunk d h) [ ]
find_chunk-IsChunk (suc fuel) sb tb chunk a b c d h =
    elim (Bool-cases (chunk % sb == 0 && chunk % tb == 0)) [
      | inl y ↦ (some chunk, rw y, is_chunk chunk c d (ground arith) (ground arith))
      | inr n ↦
          let e : u64 (chunk + sb) ≡ chunk + sb = omega arith in
          elim (Bool-cases (ltb (1024 * 1024) (u64 (chunk + sb)))) [
            | inl y ↦ (none, rw (n, y), no_chunk)
            | inr m ↦
                let (r, f, g) =
                  find_chunk-IsChunk fuel sb tb (u64 (chunk + sb)) a b (omega arith) (ground arith)
                    (omega arith) in
                (r, rw (n, m) f, g)
          ]
    ]
