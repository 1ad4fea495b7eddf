-- ===== src/Boot/Exit.antt =====
-- boot/main.c: `exit_boot_services`, the retry around the memory map.
pub mod Accepted
use un_orion.Common.{
  ℕ, zero, suc, ◌+◌, ◌*◌, Bool, not, ◌||◌, Option, none, some, u64, ◌==◌, if◌then◌else◌, Run, done,
  out_of_fuel, ◌>>=◌,
}
use un_orion.Boot.{efi_error, efi_success, efi_invalid_parameter, efi_buffer_too_small}

-- What `GetMemoryMap` gives back besides the status.
pub record MapInfo : Type 0 where
  pub size : ℕ
  pub key : ℕ
  pub desc_size : ℕ
  pub desc_version : ℕ

-- The four fields of `OrionBootInfo` that are set here.
pub record MapFields : Type 0 where
  pub memory_map : ℕ
  pub memory_map_size : ℕ
  pub memory_descriptor_size : ℕ
  pub memory_descriptor_version : ℕ

-- `get_memory_map` gets the size of the buffer and its address; a pool is its address.
pub record Services (W : Type 0) : Type 0 where
  pub get_memory_map : ℕ → ℕ → W → ℕ × MapInfo × W
  pub allocate_pool : ℕ → W → ℕ × ℕ × W
  pub free_pool : ℕ → W → W
  pub exit_services : ℕ → W → ℕ × W

module _ {W : Type 0} (services : Services W) where
  abbrev pub fields_of : ℕ → MapInfo → MapFields
  fields_of map m = record {
    memory_map = map;
    memory_map_size = m.size;
    memory_descriptor_size = m.desc_size;
    memory_descriptor_version = m.desc_version;
  }

  -- The `for` loop, over the buffer `map` of `map_capacity` bytes: the status, `*bi` and the machine.
  unfoldable pub exit_loop : ℕ → ℕ → ℕ → MapFields → W → Run (ℕ × MapFields × W)
  exit_loop zero map map_capacity bi w = out_of_fuel
  exit_loop (suc fuel) map map_capacity bi w =
      let (map_status, m, w1) = services.get_memory_map map_capacity map w in
      let larger_capacity = u64 (m.size + u64 (m.desc_size * 8)) in
      let (pool_status, larger, w2) = services.allocate_pool larger_capacity w1 in
      let enlarged = exit_loop fuel larger larger_capacity bi (services.free_pool map w2) in
      let (exit_status, w3) = services.exit_services m.key w1 in
      let again = exit_loop fuel map map_capacity (fields_of map m) w3 in
      if map_status == efi_buffer_too_small
      then (if efi_error pool_status then done (pool_status, bi, w2) else enlarged)
      else if efi_error map_status
      then done (map_status, bi, w1)
      else if exit_status == efi_success
      then done (efi_success, fields_of map m, w3)
      else if not (exit_status == efi_invalid_parameter)
      then done (exit_status, fields_of map m, w3)
      else again

  unfoldable pub exit_boot_services : ℕ → MapFields → W → Run (ℕ × MapFields × W)
  exit_boot_services fuel bi w =
      let (status, m, w1) = services.get_memory_map 0 0 w in
      let capacity = u64 (m.size + u64 (m.desc_size * 8)) in
      let (pool_status, map, w2) = services.allocate_pool capacity w1 in
      if not (status == efi_buffer_too_small) || m.desc_size == 0
      then done (status, bi, w1)
      else if efi_error pool_status
      then done (pool_status, bi, w2)
      else exit_loop fuel map capacity bi w2
