-- ===== src/Boot/Install/Copy.antt =====
-- boot/main.c: what `copy_install_media` puts on the target disk.
use native.Mathlib.Nat.{mul-mod_left, le-mul_of_pos_right}
use un_orion.Common.{
  ℕ, suc, ◌+◌, ◌*◌, ◌%◌, ◌^◌, ◌≤◌, ◌<◌, ◌≡◌, inl, inr, refl, sym, subst, ap, ◌∙◌, true, false, not,
  ◌||◌, Option, none, some, ◌++◌, Bytes, length, drop, u64, ◌==◌, Bool-cases, done, arith,
}
use un_orion.Boot.{efi_error, efi_unsupported, Media, BlockIo, Firmware}
use un_orion.Boot.Install.{
  media_bytes, install_chunk, find_chunk, copy_loop, copy_chunks, copy_media, copy_install_media,
}
use un_orion.Boot.Install.Overlay.{overlaid_all}
use un_orion.Boot.Install.Loop.{IsSource, IsTarget, IsLoop, IsCopying, copy_loop-overlaid}
use un_orion.Boot.Install.Chunk.{IsChunk, no_chunk, is_chunk, find_chunk-IsChunk}

module _ {W : Type 0} (sm tm : Media) (source target : BlockIo W) (image : Bytes)
    (disk : W → Bytes) where
  -- All services succeed.
  copy_chunks-done :
      (firmware : Firmware W) (chunk status : ℕ) (buffer : Bytes) (w w1 w2 w3 : W)
      → firmware.allocate_pool chunk w ≡ (0, buffer, w1)
      → copy_loop (suc (media_bytes sm)) source target sm tm chunk 0 0 (media_bytes sm) 0 buffer w1
        ≡ done (status, w2)
      → efi_error status ≡ false
      → target.flush_blocks w2 ≡ (0, w3)
      → copy_chunks firmware source target sm tm w (some chunk) ≡ done (0, firmware.free_pool w3)
  copy_chunks-done firmware chunk status buffer w w1 w2 w3 ea el ok ef = rw (ea, el, ok, ef)

  -- A copy ends with the whole image on the disk, or with no change of it.
  pub data Copied (before : Bytes) : ℕ → Bytes → Type 0 where
    refused : {status : ℕ} → efi_error status ≡ true → Copied before status before
    complete :
        {status : ℕ}
        → efi_error status ≡ false
        → Copied before status (image ++ drop (length image) before)

  media_bytes-exact :
      1 ≤ sm.block_size
      → length image ≡ (sm.last_block + 1) * sm.block_size
      → length image < 2 ^ 64
      → media_bytes sm ≡ length image
  media_bytes-exact a size fits =
      let h = le-mul_of_pos_right {m = sm.block_size} (sm.last_block + 1) a in
      let u : u64 (sm.last_block + 1) ≡ sm.last_block + 1 = omega (arith, h, size) in
      rw u (omega (arith, size))

  module _ (firmware : Firmware W) (reader : IsSource sm tm source target image disk)
      (writer : IsTarget sm tm source target image disk firmware) where
    copy_chunks-Copied :
        (r : Option ℕ) (w : W)
        → 1 ≤ sm.block_size
        → 1 ≤ tm.block_size
        → media_bytes sm ≡ length image
        → length image % sm.block_size ≡ 0
        → length image % tm.block_size ≡ 0
        → length image ≤ length (disk w)
        → IsChunk sm.block_size tm.block_size r
        → (status : ℕ) × (w' : W) × (copy_chunks firmware source target sm tm w r
            ≡ done (status, w'))
          × Copied (disk w) status (disk w')
    copy_chunks-Copied none w a b e hs ht room no_chunk = (efi_unsupported, w, refl, refused refl)
    copy_chunks-Copied (some chunk) w a b e hs ht room (is_chunk _ lo hi cs ct) =
        let (buffer, w1, ea, same) = writer.allocates chunk w in
        let k : IsLoop sm tm source target image disk chunk (disk w) = record {
          source_size = a;
          target_size = b;
          chunk_size = omega arith;
          source_blocks = cs;
          target_blocks = ct;
          small = omega (arith, e);
          room = room;
        } in
        let c : IsCopying sm tm source target image disk (disk w) 0 0 0 (media_bytes sm) w1 =
          record {
            together = omega (arith, e);
            source_whole = rw e hs;
            target_whole = rw e ht;
            source_at = omega arith;
            target_at = omega arith;
            stored = same;
          } in
        let (st, w2, el, ok, all) =
          copy_loop-overlaid sm tm source target image disk firmware reader writer (disk w) chunk k
            (suc (media_bytes sm)) 0 0 0 (media_bytes sm) 0 buffer w1 c refl (omega arith) in
        let (w3, ef, kept) = writer.flushes w2 in
        (
          0,
          firmware.free_pool w3,
          copy_chunks-done firmware chunk st buffer w w1 w2 w3 ea el ok ef,
          subst (Copied (disk w) 0)
              (sym (writer.frees w3 ∙ kept ∙ all ∙ overlaid_all image (disk w))) (complete refl),
        )

    copy_media-next :
        (w w' : W) (status : ℕ) (r : Option ℕ)
        → sm.block_size == 0 || tm.block_size == 0 ≡ false
        → not (media_bytes sm % tm.block_size == 0) ≡ false
        → find_chunk (2 ^ 20) sm.block_size tm.block_size install_chunk ≡ done r
        → copy_chunks firmware source target sm tm w r ≡ done (status, w')
        → copy_media firmware source target (some sm) (some tm) w ≡ done (status, w')
    unfolding copy_media
    copy_media-next w w' status r a b e f = rw (a, b, e) f

    copy_media-Copied :
        (w : W)
        → sm.block_size < 2 ^ 32
        → length image ≡ (sm.last_block + 1) * sm.block_size
        → length image < 2 ^ 64
        → length image ≤ length (disk w)
        → (status : ℕ) × (w' : W) × (copy_media firmware source target (some sm) (some tm) w
            ≡ done (status, w'))
          × Copied (disk w) status (disk w')
    unfolding copy_media
    copy_media-Copied w small size fits room =
        elim (Bool-cases (sm.block_size == 0 || tm.block_size == 0)) [
          | inl y ↦ (efi_unsupported, w, rw y, refused refl)
          | inr n ↦ elim (Bool-cases (not (media_bytes sm % tm.block_size == 0))) [
            | inl y ↦ (efi_unsupported, w, rw (n, y), refused refl)
            | inr whole ↦
                let a : 1 ≤ sm.block_size = ground arith in
                let b : 1 ≤ tm.block_size = ground arith in
                let e : media_bytes sm ≡ length image = media_bytes-exact a size fits in
                let hs : length image % sm.block_size ≡ 0 =
                  rw (size, mul-mod_left (sm.last_block + 1) sm.block_size) in
                let ht : length image % tm.block_size ≡ 0 = rw (sym e) (ground arith) in
                let (r, ec, c) =
                  find_chunk-IsChunk (2 ^ 20) sm.block_size tm.block_size install_chunk a small
                    (omega arith) (omega arith) (omega arith) in
                let (st, w', er, g) = copy_chunks-Copied r w a b e hs ht room c in
                (st, w', copy_media-next w w' st r n whole ec er, g)
          ]
        ]

    -- For a source whose reads deliver an image as long as its media says, below 2 ^ 64 bytes, with
    -- blocks of a 32-bit size, and a target that stores what is written and has room, over a firmware
    -- that gives a buffer, the copy returns, and then the target begins with the whole image and is as
    -- it was behind it, or the status is an error and the target has not changed.
    pub copy_install_media-Copied :
        (w : W)
        → source.media ≡ some sm
        → target.media ≡ some tm
        → sm.block_size < 2 ^ 32
        → length image ≡ (sm.last_block + 1) * sm.block_size
        → length image < 2 ^ 64
        → length image ≤ length (disk w)
        → (status : ℕ) × (w' : W) × (copy_install_media firmware (some source) (some target) w
            ≡ done (status, w'))
          × Copied (disk w) status (disk w')
    unfolding copy_install_media copy_media
    copy_install_media-Copied w es et small size fits room =
        let (st, w', e, g) = copy_media-Copied w small size fits room in
        (
          st,
          w',
          ap (λ m. copy_media firmware source target m target.media w) es
              ∙ ap (λ m. copy_media firmware source target (some sm) m w) et
              ∙ e,
          g,
        )
