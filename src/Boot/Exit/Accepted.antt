-- ===== src/Boot/Exit/Accepted.antt =====
-- boot/main.c: which memory map the kernel gets from `exit_boot_services`.
use un_orion.Common.{ℕ, ◌+◌, ◌*◌, ◌≡◌, ◌≢◌, ◌<◌, false, u64}
use un_orion.Boot.{efi_error, efi_success, efi_invalid_parameter, efi_buffer_too_small}
use un_orion.Boot.Exit.{MapInfo, MapFields, Services, fields_of}

module _ {W : Type 0} (services : Services W) where
  -- The map that `GetMemoryMap` gave last is the one whose key `ExitBootServices` took.
  pub record IsAccepted (bi : MapFields) (w' : W) : Type 0 where
    pub map : ℕ
    pub capacity : ℕ
    pub before : W
    pub between : W
    pub status : ℕ
    pub info : MapInfo
    pub got_map : services.get_memory_map capacity map before ≡ (status, info, between)
    pub got_whole : efi_error status ≡ false
    pub exited : services.exit_services info.key between ≡ (efi_success, w')
    pub told : bi ≡ fields_of services map info

  pub data Exited : ℕ × MapFields × W → Type 0 where
    stayed : (status : ℕ) (bi : MapFields) (w : W) → status ≢ efi_success → Exited (status, bi, w)
    accepted : (bi : MapFields) (w : W) → IsAccepted bi w → Exited (efi_success, bi, w)

  abbrev pub larger_size : MapInfo → ℕ
  larger_size m = u64 (m.size + u64 (m.desc_size * 8))

  -- `rounds capacity w` bounds the rounds that the loop has to repeat: a buffer that is too small, or the
  -- refusal of the key that the call before gave, since the map has changed in between, uses one of them
  -- up. Of other keys nothing is said.
  pub record Settles (rounds : ℕ → W → ℕ) : Type 0 where
    pub enlarging :
        (capacity map : ℕ) (w : W)
        → (services.get_memory_map capacity map w).0 ≡ efi_buffer_too_small
        → efi_error
            (services.allocate_pool
              (larger_size (services.get_memory_map capacity map w).1)
              (services.get_memory_map capacity map w).2).0
          ≡ false
        → rounds (larger_size (services.get_memory_map capacity map w).1) (
            services.free_pool map
              (services.allocate_pool
                (larger_size (services.get_memory_map capacity map w).1)
                (services.get_memory_map capacity map w).2).2)
          < rounds capacity w
    pub stale :
        (capacity map : ℕ) (w : W)
        → efi_error (services.get_memory_map capacity map w).0 ≡ false
        → (services.exit_services
            (services.get_memory_map capacity map w).1.key
            (services.get_memory_map capacity map w).2).0
          ≡ efi_invalid_parameter
        → rounds capacity
            (services.exit_services
              (services.get_memory_map capacity map w).1.key
              (services.get_memory_map capacity map w).2).1
          < rounds capacity w
