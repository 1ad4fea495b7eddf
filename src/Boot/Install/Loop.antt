-- ===== src/Boot/Install/Loop.antt =====
-- boot/main.c: the loop of `copy_install_media`, over disks that do what UEFI says.
use un_orion.Common.{
  ℕ, zero, suc, ◌+◌, ◌-◌, ◌*◌, ◌/◌, ◌%◌, ◌^◌, ◌≤◌, ◌<◌, ◌≡◌, ◌≢◌, inl, inr, refl, ap, ◌∙◌, false,
  ◌++◌, Bytes, length, take, drop, u64, ltb, ◌==◌, if◌then◌else◌, Bool-cases, done, arith,
}
use un_orion.Boot.{efi_error, Media, BlockIo, Firmware}
use un_orion.Boot.Install.{copy_loop}
use un_orion.Boot.Install.Overlay.{
  no_turn, advance, whole_rest, overlaid, overlaid-length, overlaid-write,
}

module _ {W : Type 0} (sm tm : Media) (source target : BlockIo W) (image : Bytes)
    (disk : W → Bytes) where
  -- `ReadBlocks` of the source delivers the bytes of `image`.
  pub record IsSource : Type 0 where
    pub reads :
        (lba n : ℕ) (buffer : Bytes) (w : W)
        → n % sm.block_size ≡ 0
        → lba * sm.block_size + n ≤ length image
        → (buffer' : Bytes) × (source.read_blocks sm.media_id lba n buffer w ≡ (0, buffer', w))
          × (take n buffer' ≡ take n (drop (lba * sm.block_size) image))

  -- `WriteBlocks` of the target stores the bytes on `disk`, and `FlushBlocks` and the pool leave it.
  pub record IsTarget (firmware : Firmware W) : Type 0 where
    pub writes :
        (lba n : ℕ) (buffer : Bytes) (w : W)
        → n % tm.block_size ≡ 0
        → lba * tm.block_size + n ≤ length (disk w)
        → (w' : W) × (target.write_blocks tm.media_id lba n buffer w ≡ (0, w'))
          × (disk w'
              ≡ take (lba * tm.block_size) (disk w)
                ++ take n buffer
                ++ drop (lba * tm.block_size + n) (disk w))
    pub flushes : (w : W) → (w' : W) × (target.flush_blocks w ≡ (0, w')) × (disk w' ≡ disk w)
    pub allocates :
        (n : ℕ) (w : W)
        → (buffer : Bytes) × (w' : W) × (firmware.allocate_pool n w ≡ (0, buffer, w'))
          × (disk w' ≡ disk w)
    pub frees : (w : W) → disk (firmware.free_pool w) ≡ disk w

  -- The numbers that stay as they are in the loop.
  pub record IsLoop (chunk : ℕ) (old : Bytes) : Type 0 where
    pub source_size : 1 ≤ sm.block_size
    pub target_size : 1 ≤ tm.block_size
    pub chunk_size : 1 ≤ chunk
    pub source_blocks : chunk % sm.block_size ≡ 0
    pub target_blocks : chunk % tm.block_size ≡ 0
    pub small : length image < 2 ^ 64
    pub room : length image ≤ length old

  -- Of the image `d` bytes are copied, and `remaining` are not.
  pub record IsCopying (old : Bytes) (d source_lba target_lba remaining : ℕ) (w : W) : Type 0 where
    pub together : d + remaining ≡ length image
    pub source_whole : remaining % sm.block_size ≡ 0
    pub target_whole : remaining % tm.block_size ≡ 0
    pub source_at : source_lba * sm.block_size ≡ d
    pub target_at : target_lba * tm.block_size ≡ d
    pub stored : disk w ≡ overlaid d image old

  -- A turn in which both calls succeed.
  copy_loop-next :
      (chunk fuel n source_lba target_lba remaining status : ℕ) (buffer buffer' : Bytes) (w w' : W)
      → remaining == 0 ≡ false
      → (if ltb chunk remaining then chunk else remaining) ≡ n
      → source.read_blocks sm.media_id source_lba n buffer w ≡ (0, buffer', w)
      → target.write_blocks tm.media_id target_lba n buffer' w ≡ (0, w')
      → copy_loop
          (suc fuel)
          source
          target
          sm
          tm
          chunk
          source_lba
          target_lba
          remaining
          status
          buffer
          w
        ≡ copy_loop fuel source target sm tm chunk
            (u64 (source_lba + n / sm.block_size))
            (u64 (target_lba + n / tm.block_size))
            (remaining - n)
            0
            buffer'
            w'
  unfolding copy_loop
  copy_loop-next chunk fuel n sl tl r st buffer buffer' w w' z e er ew = rw (z, e, er, ew)

  module _ (firmware : Firmware W) (reader : IsSource) (writer : IsTarget firmware) (old : Bytes)
      (chunk : ℕ) (k : IsLoop chunk old) where
    turn_bytes :
        (remaining : ℕ)
        → remaining ≢ 0
        → (n : ℕ) × ((if ltb chunk remaining then chunk else remaining) ≡ n)
          × (1 ≤ n)
          × (n ≤ remaining)
          × ((b : ℕ) → chunk % b ≡ 0 → remaining % b ≡ 0 → n % b ≡ 0)
    turn_bytes remaining z = elim (Bool-cases (ltb chunk remaining)) [
      | inl y ↦ (chunk, rw y, k.chunk_size, ground arith, λ b h h'. h)
      | inr n ↦ (remaining, rw n, omega arith, omega arith, λ b h h'. h')
    ]

    -- One turn of the loop, for `n` bytes.
    turn-IsCopying :
        (d source_lba target_lba remaining n : ℕ) (buffer : Bytes) (w : W)
        → IsCopying old d source_lba target_lba remaining w
        → n ≤ remaining
        → n % sm.block_size ≡ 0
        → n % tm.block_size ≡ 0
        → (buffer' : Bytes) × (w' : W) × (source.read_blocks sm.media_id source_lba n buffer w
            ≡ (0, buffer', w))
          × (target.write_blocks tm.media_id target_lba n buffer' w ≡ (0, w'))
          × IsCopying old
              (d + n)
              (u64 (source_lba + n / sm.block_size))
              (u64 (target_lba + n / tm.block_size))
              (remaining - n)
              w'
    turn-IsCopying d sl tl r n buffer w c h ns nt =
        let (buffer', er, same) =
          reader.reads sl n buffer w ns (omega (arith, c.source_at, c.together)) in
        let (w', ew, now) = writer.writes tl n buffer' w nt (
          omega (
            arith,
            c.target_at,
            c.together,
            c.stored,
            overlaid-length d image old (omega (arith, c.together)) k.room,
            ap length c.stored,
            k.room,
          )) in
        (
          buffer',
          w',
          er,
          ew,
          record {
            together = omega (arith, c.together);
            source_whole = whole_rest sm.block_size r n c.source_whole ns;
            target_whole = whole_rest tm.block_size r n c.target_whole nt;
            source_at =
                advance sm.block_size sl n d k.source_size ns c.source_at
                  (omega (arith, c.together, k.small));
            target_at =
                advance tm.block_size tl n d k.target_size nt c.target_at
                  (omega (arith, c.together, k.small));
            stored =
                rw (now, same, c.source_at, c.target_at, c.stored)
                  (overlaid-write d n image old (omega (arith, c.together)) k.room);
          },
        )

    pub copy_loop-overlaid :
        (fuel d source_lba target_lba remaining status : ℕ) (buffer : Bytes) (w : W)
        → IsCopying old d source_lba target_lba remaining w
        → efi_error status ≡ false
        → remaining < fuel
        → (status' : ℕ) × (w' : W) × (copy_loop fuel source target sm tm chunk source_lba target_lba
              remaining status buffer w
            ≡ done (status', w'))
          × (efi_error status' ≡ false)
          × (disk w' ≡ overlaid (length image) image old)
    unfolding copy_loop
    copy_loop-overlaid zero d sl tl r st buf w c e f = elim (no_turn r f) [ ]
    copy_loop-overlaid (suc fuel) d sl tl r st buf w c e f = elim (Bool-cases (r == 0)) [
      | inl y ↦
          let z : d ≡ length image = ground (arith, c.together) in
          (st, w, rw y, e, c.stored ∙ ap (λ i. overlaid i image old) z)
      | inr n ↦
          let (b, eb, lo, hi, whole) = turn_bytes r (ground arith) in
          let (buf', w', er, ew, c') =
            turn-IsCopying d sl tl r b buf w c hi (whole _ k.source_blocks c.source_whole)
              (whole _ k.target_blocks c.target_whole) in
          let (st', w'', now, ok, all) =
            copy_loop-overlaid fuel (d + b) _ _ (r - b) 0 buf' w' c' refl (omega arith) in
          (st', w'', copy_loop-next chunk fuel b _ _ r st buf buf' w w' n eb er ew ∙ now, ok, all)
    ]
