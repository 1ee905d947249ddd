-- ===== src/Fat16/Write.antt =====
-- Writing a file of a FAT16 volume, `fat16_write` of src/kernel/fs/fat16.c.
pub mod Place
pub mod Sectors
pub mod Loop
pub mod Overwrite
pub mod RoundTrip
use szczupak_os.Fat16.{
  write_fat_entry, write_sector, ends, read_sector, read_fat_entry, first_sector, allocate_cluster,
  Volume, Disk,
}
use szczupak_os.Fat16.File.{Node, blit, sector_offset, copy_size}
use szczupak_os.Base.{
  ℕ, zero, suc, ◌+◌, ◌-◌, ◌*◌, ◌/◌, ◌%◌, ◌^◌, ◌≤◌, ◌<◌, min, ◌≡◌, refl, sym, ap, ap₂, ◌∙◌, subst,
  ◌≢◌, ◌↔◌, ◌⊎◌, inl, inr, Bool, true, false, not, ◌&&◌, ◌||◌, Option, none, some, List, [], ◌∷◌,
  ◌++◌, arith, ltb, leb, ◌==◌, if◌then◌else◌, ltb→lt, ltb→ge, lt→ltb, ge→ltb, leb→le, leb→gt,
  le→leb, gt→leb, ==→eq, ==→ne, eq→==, ne→==, tests, Bool-cases, Option-cases, if_elim, if_true,
  if_false, if_cases, some_inj, length, take, drop, get_or, length-append, length-take, take_nil,
  take_cons, take_zero, take_all, drop_nil, take-min, All, update, slice, update_self, update_ne,
  slice_eq, add16, add32, sub32, add64, sub64, mul64, page_size, align_down, align_up, max, bit_or,
  has_bit, bit_or_step, bit_or-zero, zero-bit_or, bit_or_frame, bit_or_odd, bit_or_half, Memory,
  read64, write64, read64-write64, write64_frame, read64_frame, read64-write64_ne, bit_or_128,
  AreBytes, read64-lt, write64-AreBytes, write64-read64,
}

-- The step of `fat16_write` to the next cluster of the chain, which is allocated where the chain ends.
-- It fails with none.
unfoldable pub next_cluster : Volume → (current : ℕ) → Disk → Option ℕ × Disk
next_cluster v current d =
    let next = read_fat_entry v current d in
    elim (ends next) [
      | false ↦ (some next, d)
      | true ↦
          let (fresh, d1) = allocate_cluster v d in
          let (ok, d2) = write_fat_entry v current fresh d1 in
          if fresh == 0 then (none, d1) else if not ok then (none, d2) else (some fresh, d2)
    ]

-- The loop of `fat16_write` that passes over clusters, with `n` to pass.
unfoldable pub skip_clusters : (n : ℕ) (v : Volume) (current : ℕ) (d : Disk) → Option ℕ × Disk
skip_clusters zero v current d = (some current, d)
skip_clusters (suc n) v current d =
    let (next, d') = next_cluster v current d in
    elim next [ none ↦ (none, d') | some c ↦ skip_clusters n v c d' ]

-- The loop of `fat16_write` over the sectors of a cluster: sector `s`, with `n` left.
unfoldable pub write_sectors :
    (n s : ℕ) (first intra size : ℕ) (src : ℕ → ℕ) (d : Disk) (bytes_written : ℕ) → Bool × Disk × ℕ
write_sectors zero s first intra size src d bytes_written = (true, d, bytes_written)
write_sectors (suc n) s first intra size src d bytes_written = elim (ltb bytes_written size) [
  | false ↦ (true, d, bytes_written)
  | true ↦ elim (leb (s * 512 + 512) intra) [
    | true ↦ write_sectors n (s + 1) first intra size src d bytes_written
    | false ↦ elim (read_sector (add32 first s) d) [
      | none ↦ (false, d, bytes_written)
      | some sector ↦
          let offset = sector_offset intra s in
          let part = copy_size offset (size - bytes_written) in
          let (ok, d') =
            write_sector (add32 first s) (blit offset bytes_written part src sector) d in
          elim ok [
            | false ↦ (false, d', bytes_written)
            | true ↦ write_sectors n (s + 1) first intra size src d' (bytes_written + part)
          ]
    ]
  ]
]

-- The loop of `fat16_write` over the clusters: none when the rounds do not suffice.
unfoldable pub write_clusters :
    (rounds : ℕ) (v : Volume) (current intra size : ℕ) (src : ℕ → ℕ) (d : Disk) (bytes_written : ℕ)
    → Option (Bool × Disk)
write_clusters zero v current intra size src d bytes_written = none
write_clusters (suc n) v current intra size src d bytes_written = elim (ltb bytes_written size) [
  | false ↦ some (true, d)
  | true ↦
      let (ok, d1, written) =
        write_sectors v.sectors_per_cluster 0 (first_sector v current) intra size src d
          bytes_written in
      elim ok [
        | false ↦ some (false, d1)
        | true ↦ elim (leb size written) [
          | true ↦ some (true, d1)
          | false ↦
              let (next, d2) = next_cluster v current d1 in
              elim next [
                | none ↦ some (false, d2)
                | some c ↦ write_clusters n v c 0 size src d2 written
              ]
        ]
      ]
]

-- `fat16_write` once the file has a first cluster.
unfoldable pub write_from :
    Volume → Node → (cluster offset size : ℕ) → (src : ℕ → ℕ) → Disk → Option (Bool × Node × Disk)
write_from v node cluster offset size src d =
    let cluster_size = v.sectors_per_cluster * 512 in
    let (current, d1) = skip_clusters (offset / cluster_size) v cluster d in
    elim current [
      | none ↦ some (false, node, d1)
      | some c ↦ elim (write_clusters (size + 1) v c (offset % cluster_size) size src d1 0) [
        | none ↦ none
        | some r ↦ some (
          r.0,
          (if r.0 && ltb node.size (offset + size)
              then record node { size = offset + size }
              else node),
          r.1,
        )
      ]
    ]

-- `fat16_write`
unfoldable pub fat16_write :
    Volume → Node → (offset size : ℕ) → (src : ℕ → ℕ) → Disk → Option (Bool × Node × Disk)
fat16_write v node offset size src d =
    let cluster = node.fs_data % 2 ^ 16 in
    let (fresh, d1) = allocate_cluster v d in
    if not node.is_file
    then some (false, node, d)
    else if size == 0
    then some (true, node, d)
    else if ltb (add64 offset size) offset
    then some (false, node, d)
    else if v.sectors_per_cluster * 512 == 0
    then some (false, node, d)
    else elim (ltb cluster 2) [
      | false ↦ write_from v node cluster offset size src d
      | true ↦ elim (fresh == 0) [
        | true ↦ some (false, node, d1)
        | false ↦ write_from v (record node { fs_data = fresh }) fresh offset size src d1
      ]
    ]
