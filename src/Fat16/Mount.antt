-- ===== src/Fat16/Mount.antt =====
-- Mounting a FAT16 volume, `fat16_mount` of src/kernel/fs/fat16.c.
mod Tests
use szczupak_os.Fat16.Place.{IsValid}
use szczupak_os.Fat16.{read_sector, get16, Volume, Disk}
use native.Mathlib.Nat.{mul-le-mul_right}
use szczupak_os.Base.{
  ℕ, zero, suc, ◌+◌, ◌-◌, ◌*◌, ◌/◌, ◌%◌, ◌^◌, ◌≤◌, ◌<◌, min, ◌≡◌, refl, sym, ap, ap₂, ◌∙◌, subst,
  ◌≢◌, ◌↔◌, ◌⊎◌, inl, inr, Bool, true, false, not, ◌&&◌, ◌||◌, Option, none, some, List, [], ◌∷◌,
  ◌++◌, arith, ltb, leb, ◌==◌, if◌then◌else◌, ltb→lt, ltb→ge, lt→ltb, ge→ltb, leb→le, leb→gt,
  le→leb, gt→leb, ==→eq, ==→ne, eq→==, ne→==, tests, Bool-cases, Option-cases, if_elim, if_true,
  if_false, if_cases, some_inj, length, take, drop, get_or, length-append, length-take, take_nil,
  take_cons, take_zero, take_all, drop_nil, take-min, All, update, slice, update_self, update_ne,
  slice_eq, add16, add32, sub32, add64, sub64, mul64, page_size, align_down, align_up, max, bit_or,
  has_bit, bit_or_step, bit_or-zero, zero-bit_or, bit_or_frame, bit_or_odd, bit_or_half, Memory,
  read64, write64, read64-write64, write64_frame, read64_frame, read64-write64_ne, bit_or_128,
  AreBytes, read64-lt, write64-AreBytes, write64-read64,
}

-- The fields of `fat16_boot_sector_t` that the driver uses, at their places in the sector.
abbrev pub bytes_per_sector : (ℕ → ℕ) → ℕ
bytes_per_sector s = get16 s 11

abbrev pub boot_sectors_per_cluster : (ℕ → ℕ) → ℕ
boot_sectors_per_cluster s = s 13

abbrev pub reserved_sectors : (ℕ → ℕ) → ℕ
reserved_sectors s = get16 s 14

abbrev pub boot_num_fats : (ℕ → ℕ) → ℕ
boot_num_fats s = s 16

abbrev pub boot_root_entries : (ℕ → ℕ) → ℕ
boot_root_entries s = get16 s 17

abbrev pub boot_sectors_per_fat : (ℕ → ℕ) → ℕ
boot_sectors_per_fat s = get16 s 22

-- Whether the geometry in the boot sector is refused.
unfoldable pub invalid_geometry : (ℕ → ℕ) → Bool
invalid_geometry s =
    boot_sectors_per_cluster s == 0
    || (boot_num_fats s == 0 || (boot_sectors_per_fat s == 0 || boot_root_entries s == 0))

-- What `fat16_mount` stores.
unfoldable pub volume_of : (start_lba : ℕ) → (ℕ → ℕ) → Volume
volume_of start_lba s =
    let fat_start = add32 start_lba (reserved_sectors s) in
    let root_start = add32 fat_start (boot_num_fats s * boot_sectors_per_fat s) in
    record {
      start_lba = start_lba;
      fat_start = fat_start;
      root_start = root_start;
      data_start = add32 root_start ((boot_root_entries s * 32 + 511) / 512);
      root_entries = boot_root_entries s;
      sectors_per_cluster = boot_sectors_per_cluster s;
      sectors_per_fat = boot_sectors_per_fat s;
      num_fats = boot_num_fats s;
    }

-- `fat16_mount`: `gives` is whether `kmalloc` gives a block.
unfoldable pub fat16_mount : (gives : Bool) → (start_lba : ℕ) → Disk → Option Volume
fat16_mount gives start_lba d = elim (read_sector start_lba d) [
  | none ↦ none
  | some s ↦
      if not (bytes_per_sector s == 512)
      then none
      else if invalid_geometry s
      then none
      else if not gives
      then none
      else some (volume_of start_lba s)
]

-- A boot sector with sectors of 512 bytes and no empty region.
pub record IsBootSector (s : ℕ → ℕ) : Type 0 where
  pub bytes : (i : ℕ) → s i < 256
  pub sector_size : bytes_per_sector s ≡ 512
  pub some_sector : 0 < boot_sectors_per_cluster s
  pub some_table : 0 < boot_num_fats s
  pub some_fat_sector : 0 < boot_sectors_per_fat s
  pub some_entry : 0 < boot_root_entries s

-- The regions of a volume follow each other: the tables, the root directory and the clusters.
pub record HasRegions (v : Volume) : Type 0 where
  pub valid : IsValid v
  pub some_sector : 0 < v.sectors_per_cluster
  pub root_behind : v.root_start ≡ v.fat_start + v.num_fats * v.sectors_per_fat
  pub root_room : v.root_start * 512 + v.root_entries * 32 ≤ v.data_start * 512

volume_of-HasRegions :
    (start_lba : ℕ) (s : ℕ → ℕ)
    → IsBootSector s
    → start_lba + 2 ^ 25 ≤ 2 ^ 32
    → HasRegions (volume_of start_lba s)
unfolding volume_of get16
volume_of-HasRegions start_lba s boot room =
    let most =
      mul-le-mul_right {m = boot_num_fats s} {n = 255} (boot_sectors_per_fat s)
        (omega (arith, boot.bytes 16)) in
    let tables : boot_num_fats s * boot_sectors_per_fat s ≤ 255 * 65535 =
      omega (arith, most, boot.bytes 22, boot.bytes 23) in
    let reserved : reserved_sectors s < 65536 = omega (arith, boot.bytes 14, boot.bytes 15) in
    let entries : boot_root_entries s < 65536 = omega (arith, boot.bytes 17, boot.bytes 18) in
    let fat_start : add32 start_lba (reserved_sectors s) ≡ start_lba + reserved_sectors s =
      omega (arith, room, reserved) in
    record {
      valid = record {
        addressable = omega (arith, fat_start, tables, reserved, room);
        some_table = boot.some_table;
      };
      some_sector = boot.some_sector;
      root_behind = omega (arith, fat_start, tables, reserved, room);
      root_room = omega (arith, fat_start, tables, reserved, room, entries);
    }

invalid_geometry-IsBootSector : (s : ℕ → ℕ) → IsBootSector s → invalid_geometry s ≡ false
unfolding invalid_geometry
invalid_geometry-IsBootSector s boot =
    let a = ne→== (boot_sectors_per_cluster s) 0 (omega (arith, boot.some_sector)) in
    let b = ne→== (boot_num_fats s) 0 (omega (arith, boot.some_table)) in
    let c = ne→== (boot_sectors_per_fat s) 0 (omega (arith, boot.some_fat_sector)) in
    let e = ne→== (boot_root_entries s) 0 (omega (arith, boot.some_entry)) in rw (a, b, c, e) refl

-- `fat16_mount` of a disk whose sector at the start is a boot sector, where the start leaves room for
-- the tables below 2^32 and `kmalloc` gives a block, succeeds; in the volume the tables, the root
-- directory and the clusters follow each other without an overlap.
pub fat16_mount-HasRegions :
    (start_lba : ℕ) (d : Disk)
    → d.bad_read start_lba ≡ false
    → IsBootSector (d.sectors start_lba)
    → start_lba + 2 ^ 25 ≤ 2 ^ 32
    → (fat16_mount true start_lba d ≡ some (volume_of start_lba (d.sectors start_lba)))
      × HasRegions (volume_of start_lba (d.sectors start_lba))
unfolding fat16_mount
fat16_mount-HasRegions start_lba d readable boot room =
    let s = d.sectors start_lba in
    let size = eq→== (bytes_per_sector s) 512 boot.sector_size in
    let geometry = invalid_geometry-IsBootSector s boot in
    (rw (fat16_mount, readable, size, geometry) refl, volume_of-HasRegions start_lba s boot room)
