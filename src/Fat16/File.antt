-- ===== src/Fat16/File.antt =====
-- Reading a file of a FAT16 volume, `fat16_read` of src/kernel/fs/fat16.c.
pub mod Position
pub mod Sectors
pub mod Read
use szczupak_os.Fat16.{read_fat_entry, first_sector, read_sector, ends, Volume, Disk}
use szczupak_os.Base.{
  ℕ, zero, suc, ◌+◌, ◌-◌, ◌*◌, ◌/◌, ◌%◌, ◌^◌, ◌≤◌, ◌<◌, min, ◌≡◌, refl, sym, ap, ap₂, ◌∙◌, subst,
  ◌≢◌, ◌↔◌, ◌⊎◌, inl, inr, Bool, true, false, not, ◌&&◌, ◌||◌, Option, none, some, List, [], ◌∷◌,
  ◌++◌, arith, ltb, leb, ◌==◌, if◌then◌else◌, ltb→lt, ltb→ge, lt→ltb, ge→ltb, leb→le, leb→gt,
  le→leb, gt→leb, ==→eq, ==→ne, eq→==, ne→==, tests, Bool-cases, Option-cases, if_elim, if_true,
  if_false, if_cases, some_inj, length, take, drop, get_or, length-append, length-take, take_nil,
  take_cons, take_zero, take_all, drop_nil, take-min, All, update, slice, update_self, update_ne,
  slice_eq, add16, add32, sub32, add64, sub64, mul64, page_size, align_down, align_up, max, bit_or,
  has_bit, bit_or_step, bit_or-zero, zero-bit_or, bit_or_frame, bit_or_odd, bit_or_half, Memory,
  read64, write64, read64-write64, write64_frame, read64_frame, read64-write64_ne, bit_or_128,
  AreBytes, read64-lt, write64-AreBytes, write64-read64,
}

-- The fields of `vfs_node_t` that the driver uses.
pub record Node : Type 0 where
  pub is_file : Bool
  pub size : ℕ
  pub fs_data : ℕ

-- `memcpy(to + at, from + start, n)` between two objects
abbrev pub blit : (at start n : ℕ) → (from to : ℕ → ℕ) → ℕ → ℕ
blit at start n from to x = if leb at x && ltb x (at + n) then from (start + (x - at)) else to x

-- Where the part of a sector that is wanted starts: `intra` is the place in the cluster.
unfoldable pub sector_offset : (intra s : ℕ) → ℕ
sector_offset intra s = if ltb (s * 512) intra then intra - s * 512 else 0

-- How many bytes of the sector are copied, with `left` to go.
unfoldable pub copy_size : (offset left : ℕ) → ℕ
copy_size offset left = if ltb left (512 - offset) then left else 512 - offset

-- What a part of a read leaves: whether it went well, the bytes read so far and the buffer.
abbrev pub Progress : Type 0
Progress = Bool × ℕ × (ℕ → ℕ)

-- The loop of `fat16_read` over the sectors of a cluster: sector `s`, with `n` left.
unfoldable pub read_sectors :
    (n s : ℕ) (first intra want : ℕ) (d : Disk) (bytes_read : ℕ) (buffer : ℕ → ℕ) → Progress
read_sectors zero s first intra want d bytes_read buffer = (true, bytes_read, buffer)
read_sectors (suc n) s first intra want d bytes_read buffer = elim (ltb bytes_read want) [
  | false ↦ (true, bytes_read, buffer)
  | true ↦ elim (read_sector (add32 first s) d) [
    | none ↦ (false, bytes_read, buffer)
    | some sector ↦ elim (leb (s * 512 + 512) intra) [
      | true ↦ read_sectors n (s + 1) first intra want d bytes_read buffer
      | false ↦
          let offset = sector_offset intra s in
          let size = copy_size offset (want - bytes_read) in
          read_sectors n (s + 1) first intra want d (bytes_read + size)
            (blit bytes_read offset size sector buffer)
    ]
  ]
]

-- The loop of `fat16_read` over the clusters: none when the rounds do not suffice.
unfoldable pub read_clusters :
    (rounds : ℕ) (v : Volume) (cluster intra want : ℕ) (d : Disk) (bytes_read : ℕ) (buffer : ℕ → ℕ)
    → Option (Bool × (ℕ → ℕ))
read_clusters zero v cluster intra want d bytes_read buffer = none
read_clusters (suc n) v cluster intra want d bytes_read buffer =
    elim (ltb bytes_read want && not (ends cluster)) [
      | false ↦ some (bytes_read == want, buffer)
      | true ↦
          let (ok, bytes_read', buffer') =
            read_sectors v.sectors_per_cluster 0 (first_sector v cluster) intra want d bytes_read
              buffer in
          elim ok [
            | false ↦ some (false, buffer')
            | true ↦ read_clusters n v (read_fat_entry v cluster d) 0 want d bytes_read' buffer'
          ]
    ]

-- The loop of `fat16_read` that passes over clusters, with `n` to pass.
unfoldable pub skip : (n : ℕ) (v : Volume) (cluster : ℕ) (d : Disk) → ℕ
skip zero v cluster d = cluster
skip (suc n) v cluster d = elim (ends cluster) [
  | true ↦ cluster
  | false ↦ skip n v (read_fat_entry v cluster d) d
]

-- How many bytes are wanted of a file from an offset inside it.
unfoldable pub bytes_to_read : Node → (offset size : ℕ) → ℕ
bytes_to_read node offset size = if ltb (node.size - offset) size then node.size - offset else size

-- `fat16_read` after its checks.
unfoldable pub read_from :
    Volume → Node → (offset size : ℕ) → Disk → (ℕ → ℕ) → Option (Bool × (ℕ → ℕ))
read_from v node offset size d buffer =
    let cluster_size = v.sectors_per_cluster * 512 in
    let want = bytes_to_read node offset size in
    let cluster = skip (offset / cluster_size) v (node.fs_data % 2 ^ 16) d in
    if ends cluster
    then some (false, buffer)
    else read_clusters (want + 1) v cluster (offset % cluster_size) want d 0 buffer

-- `fat16_read`
unfoldable pub fat16_read :
    Volume → Node → (offset size : ℕ) → Disk → (ℕ → ℕ) → Option (Bool × (ℕ → ℕ))
fat16_read v node offset size d buffer =
    if not node.is_file
    then some (false, buffer)
    else if size == 0
    then some (true, buffer)
    else if leb node.size offset
    then some (false, buffer)
    else if ltb (node.fs_data % 2 ^ 16) 2
    then some (false, buffer)
    else read_from v node offset size d buffer
