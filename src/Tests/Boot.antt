-- ===== src/Tests/Boot.antt =====
-- An installation from a source of two blocks of two bytes to a target of six bytes, for boot/main.c.
use un_orion.Common.{
  ◌≤◌, ◌%◌, ◌+◌, ◌↔◌, inl, inr, ℕ, ◌+◌, ◌*◌, ◌^◌, ◌≡◌, refl, true, false, Option, none, some, [],
  ◌∷◌, ◌++◌, Bytes, take, drop, take-take, done, arith, ◌==◌, if◌then◌else◌,
}
use un_orion.Boot.{Media, BlockIo, Firmware}
use un_orion.Boot.Install.{is_target, find_single_install_target, copy_install_media}
use un_orion.Boot.Install.Target.{
  targets, only_one, is_target_iff, find_single_install_target-exact,
}
use un_orion.Boot.Offer.{offer_optical_install}
use un_orion.Boot.Offer.Consent.{IsYes, Keeps, offer_optical_install-keeps}
use un_orion.Boot.Install.Loop.{IsSource, IsTarget}
use un_orion.Boot.Install.Copy.{Copied, copy_install_media-Copied}

abbrev image : Bytes
image = 10 ∷ 11 ∷ 12 ∷ 13 ∷ []

abbrev cd : Media
cd = record {
  media_id = 1;
  media_present = true;
  logical_partition = false;
  read_only = true;
  block_size = 2;
  last_block = 1;
}

abbrev hard_disk : Media
hard_disk = record {
  media_id = 2;
  media_present = true;
  logical_partition = false;
  read_only = false;
  block_size = 1;
  last_block = 5;
}

-- The machine is what is on the target.
abbrev source : BlockIo Bytes
source = record {
  media = some cd;
  read_blocks = λ id lba n buffer w. (0, take n (drop (lba * 2) image), w);
  write_blocks = λ id lba n buffer w. (2 ^ 63 + 8, w);
  flush_blocks = λ w. (0, w);
}

abbrev target : BlockIo Bytes
target = record {
  media = some hard_disk;
  read_blocks = λ id lba n buffer w. (0, buffer, w);
  write_blocks =
      λ id lba n buffer w. (0, take (lba * 1) w ++ take n buffer ++ drop (lba * 1 + n) w);
  flush_blocks = λ w. (0, w);
}

abbrev status_of : ℕ → ℕ
status_of h = 0

abbrev io_of : ℕ → Option (BlockIo Bytes)
io_of h = if h == 1 then some source else if h == 2 then some target else none

abbrev firmware : Firmware Bytes
firmware = record {
  locate_block_handles = λ w. (0, 1 ∷ 2 ∷ 3 ∷ [], w);
  block_io = λ h w. (0, io_of h, w);
  loaded_image = λ w. (0, some 1, w);
  allocate_pool = λ n w. (0, [], w);
  free_pool = λ w. w;
  create_timer = λ w. (0, w);
  set_timer = λ n w. (0, w);
  close_timer = λ w. w;
  wait_for_event = λ w. (0, 1, w);
  read_key_stroke = λ w. (0, 0, w);
}

abbrev old : Bytes
old = 90 ∷ 91 ∷ 92 ∷ 93 ∷ 94 ∷ 95 ∷ []

disk : Bytes → Bytes
disk w = w

reader : IsSource cd hard_disk source target image (λ w. w)
reader = record {
  reads =
      λ lba n buffer w h k. (take n (drop (lba * 2) image), refl, take-take n n _ (omega arith));
}

writer : IsTarget cd hard_disk source target image (λ w. w) firmware
writer = record {
  writes = λ lba n buffer w h k. (_, refl, refl);
  flushes = λ w. (w, refl, refl);
  allocates = λ n w. ([], w, refl, refl);
  frees = λ w. refl;
}

copy_install_media-Copied_example :
    (status : ℕ) × (w' : Bytes) × (copy_install_media firmware (some source) (some target) old
      ≡ done (status, w'))
    × Copied cd hard_disk source target image (λ w. w) old status w'
copy_install_media-Copied_example =
    copy_install_media-Copied cd hard_disk source target image (λ w. w) firmware reader writer old
      refl refl (omega arith) (omega arith) (omega arith) (omega arith)

find_single_install_target-exact_example :
    find_single_install_target firmware 1 4 old
    ≡ only_one firmware status_of io_of 1 4 old
        (targets firmware status_of io_of 1 4 (1 ∷ 2 ∷ 3 ∷ []))
find_single_install_target-exact_example =
    find_single_install_target-exact firmware status_of io_of 1 4 (λ h w. refl) (1 ∷ 2 ∷ 3 ∷ []) old
      old 0 refl refl (omega arith)

is_target_iff_example : (is_target 4 hard_disk ≡ true) ↔ (
    (true ≡ true) × (false ≡ false) × (false ≡ false) × (1 ≤ 1) × (4 ≤ (5 + 1) * 1) × (4 % 1 ≡ 0))
is_target_iff_example = is_target_iff 4 hard_disk (omega arith) (omega arith)

zero_IsYes : ¬ IsYes 0
zero_IsYes (inl e) = omega arith
zero_IsYes (inr e) = omega arith

firmware-Keeps : Keeps firmware (λ w. w ≡ old)
firmware-Keeps = record {
  locates = λ w h. h;
  looks_up = λ n w h. h;
  loads = λ w h. h;
  frees = λ w h. h;
  creates = λ w h. h;
  sets = λ n w h. h;
  closes = λ w h. h;
  waits = λ w h. h;
  types = λ w h. h;
  no_yes = λ w. zero_IsYes;
}

offer_optical_install-keeps_example :
    (w' : Bytes) × (offer_optical_install firmware old ≡ done w') × (w' ≡ old)
offer_optical_install-keeps_example =
    offer_optical_install-keeps firmware (λ w. w ≡ old) firmware-Keeps old refl
