-- ===== src/Fat16.antt =====
-- FAT16 volumes: the file allocation table and its chains of clusters, in src/kernel/fs/fat16.c. The disk is a store of sectors, some of which may fail to be read or
-- written; a sector is a function from offsets to bytes.
pub mod Place
pub mod Table
pub mod Release
pub mod Freed
pub mod Allocate
pub mod File
pub mod Write
pub mod Name
pub mod Mount
mod Tests
use szczupak_os.Base.{
  ℕ, zero, suc, ◌+◌, ◌-◌, ◌*◌, ◌/◌, ◌%◌, ◌^◌, ◌≤◌, ◌<◌, min, ◌≡◌, refl, sym, ap, ap₂, ◌∙◌, subst,
  ◌≢◌, ◌↔◌, ◌⊎◌, inl, inr, Bool, true, false, not, ◌&&◌, ◌||◌, Option, none, some, List, [], ◌∷◌,
  ◌++◌, arith, ltb, leb, ◌==◌, if◌then◌else◌, ltb→lt, ltb→ge, lt→ltb, ge→ltb, leb→le, leb→gt,
  le→leb, gt→leb, ==→eq, ==→ne, eq→==, ne→==, tests, Bool-cases, Option-cases, if_elim, if_true,
  if_false, if_cases, some_inj, length, take, drop, get_or, length-append, length-take, take_nil,
  take_cons, take_zero, take_all, drop_nil, take-min, All, update, slice, update_self, update_ne,
  slice_eq, add16, add32, sub32, add64, sub64, mul64, page_size, align_down, align_up, max, bit_or,
  has_bit, bit_or_step, bit_or-zero, zero-bit_or, bit_or_frame, bit_or_odd, bit_or_half, Memory,
  read64, write64, read64-write64, write64_frame, read64_frame, read64-write64_ne, bit_or_128,
  AreBytes, read64-lt, write64-AreBytes, write64-read64,
}

-- What `ata_read_sector` and `ata_write_sector` reach.
pub record Disk : Type 0 where
  pub sectors : ℕ → ℕ → ℕ
  pub bad_read : ℕ → Bool
  pub bad_write : ℕ → Bool

-- `ata_read_sector`
abbrev pub read_sector : ℕ → Disk → Option (ℕ → ℕ)
read_sector lba d = if d.bad_read lba then none else some (d.sectors lba)

-- `ata_write_sector`
abbrev pub write_sector : ℕ → (ℕ → ℕ) → Disk → Bool × Disk
write_sector lba s d =
    if d.bad_write lba then (false, d) else (true, record d { sectors = update d.sectors lba s })

-- `fat16_data_t`
pub record Volume : Type 0 where
  pub start_lba : ℕ
  pub fat_start : ℕ
  pub root_start : ℕ
  pub data_start : ℕ
  pub root_entries : ℕ
  pub sectors_per_cluster : ℕ
  pub sectors_per_fat : ℕ
  pub num_fats : ℕ

-- `*(uint16_t*)&sector[i]`
unfoldable pub get16 : (ℕ → ℕ) → ℕ → ℕ
get16 s i = s i + 256 * s (i + 1)

unfoldable pub put16 : ℕ → (v : ℕ) → (ℕ → ℕ) → ℕ → ℕ
put16 i v s = update (update s i (v % 256)) (i + 1) (v / 256)

-- The sector of the first table that holds the entry of a cluster, and the place in it.
abbrev pub fat_sector : Volume → ℕ → ℕ
fat_sector v cluster = add32 v.fat_start (cluster * 2 / 512)

abbrev pub entry_offset : ℕ → ℕ
entry_offset cluster = cluster * 2 % 512

-- `fat16_read_fat_entry`
unfoldable pub read_fat_entry : Volume → (cluster : ℕ) → Disk → ℕ
read_fat_entry v cluster d =
    if ltb cluster 2 then 0 else elim (read_sector (fat_sector v cluster) d) [
      | none ↦ 0
      | some s ↦ get16 s (entry_offset cluster)
    ]

-- The loop of `fat16_write_fat_entry` at table `f`, with `n` left.
unfoldable pub write_fat_loop : (n f : ℕ) → Volume → (cluster value : ℕ) → Disk → Bool × Disk
write_fat_loop zero f v cluster value d = (true, d)
write_fat_loop (suc n) f v cluster value d =
    let lba = add32 (fat_sector v cluster) (f * v.sectors_per_fat) in
    elim (read_sector lba d) [
      | none ↦ (false, d)
      | some s ↦
          let (ok, d') = write_sector lba (put16 (entry_offset cluster) value s) d in
          elim ok [ true ↦ write_fat_loop n (f + 1) v cluster value d' | false ↦ (false, d') ]
    ]

-- `fat16_write_fat_entry`
unfoldable pub write_fat_entry : Volume → (cluster value : ℕ) → Disk → Bool × Disk
write_fat_entry v cluster value d =
    if ltb cluster 2 then (false, d) else write_fat_loop v.num_fats 0 v cluster value d

-- The first sector of a cluster of the data region.
abbrev pub first_sector : Volume → ℕ → ℕ
first_sector v cluster = add32 v.data_start ((cluster - 2) * v.sectors_per_cluster)

-- The loop of `fat16_allocate_cluster` that clears a cluster: sector `s`, with `n` left.
unfoldable pub zero_loop : (n s : ℕ) → (sector : ℕ) → Disk → Bool × Disk
zero_loop zero s sector d = (true, d)
zero_loop (suc n) s sector d =
    let (ok, d') = write_sector (add32 sector s) (λ _. 0) d in
    elim ok [ true ↦ zero_loop n (s + 1) sector d' | false ↦ (false, d') ]

-- What `fat16_allocate_cluster` does with the first free cluster.
unfoldable pub take_cluster : Volume → ℕ → Disk → ℕ × Disk
take_cluster v i d =
    let (ok, d1) = write_fat_entry v i 0xFFFF d in
    let (zeroed, d2) = zero_loop v.sectors_per_cluster 0 (first_sector v i) d1 in
    elim ok [ true ↦ (if zeroed then i else 0, d2) | false ↦ (0, d1) ]

-- The loop of `fat16_allocate_cluster` at cluster `i`, with `n` left.
unfoldable pub allocate_loop : (n i : ℕ) → Volume → Disk → ℕ × Disk
allocate_loop zero i v d = (0, d)
allocate_loop (suc n) i v d = elim (read_fat_entry v i d == 0) [
  | true ↦ take_cluster v i d
  | false ↦ allocate_loop n (i + 1) v d
]

-- `fat16_allocate_cluster`
unfoldable pub allocate_cluster : Volume → Disk → ℕ × Disk
allocate_cluster v d = allocate_loop (0xFFF0 - 2) 2 v d

-- Whether a cluster ends a chain: `cluster < 2 || cluster >= 0xFFF8`
abbrev pub ends : ℕ → Bool
ends cluster = ltb cluster 2 || leb 0xFFF8 cluster

-- The loop of `fat16_release_cluster_chain`, with `n` rounds left.
unfoldable pub release_loop : (n cluster : ℕ) → Volume → Disk → Bool × Disk
release_loop zero cluster v d = (false, d)
release_loop (suc n) cluster v d =
    let next = read_fat_entry v cluster d in
    elim (ends cluster) [
      | true ↦ (true, d)
      | false ↦
          let (ok, d') = write_fat_entry v cluster 0 d in
          elim ok [
            | true ↦ elim (next == cluster) [ true ↦ (true, d') | false ↦ release_loop n next v d' ]
            | false ↦ (false, d')
          ]
    ]

-- `fat16_release_cluster_chain`
unfoldable pub release_cluster_chain : (start : ℕ) → Volume → Disk → Bool × Disk
release_cluster_chain start v d = if ltb start 2 then (true, d) else release_loop 0x10000 start v d
