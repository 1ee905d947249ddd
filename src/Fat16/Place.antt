-- ===== src/Fat16/Place.antt =====
-- Where the entries of a FAT16 volume, src/kernel/fs/fat16.c, stand on the disk, and the 16-bit fields
-- of a sector.
use native.Mathlib.Nat.{mul-le-mul_right}
use szczupak_os.Base.{
  ℕ, ◌+◌, ◌*◌, ◌/◌, ◌^◌, ◌≤◌, ◌<◌, ◌≡◌, ap, ◌≢◌, inl, inr, false, arith, ltb, ltb→lt, ltb→ge,
  Bool-cases,
}
use szczupak_os.Fat16.{entry_offset, put16, get16, Volume, Disk}

-- The sector of table `k` that holds the entry of a cluster.
abbrev pub place : Volume → (k cluster : ℕ) → ℕ
place v k cluster = v.fat_start + cluster / 256 + k * v.sectors_per_fat

-- The disk has `total` sectors, which can be read and written, and the tables are among them.
pub record IsHealthy (v : Volume) (total : ℕ) (d : Disk) : Type 0 where
  pub bounded : total ≤ 2 ^ 32
  pub on_disk : v.fat_start + v.num_fats * v.sectors_per_fat ≤ total
  pub reads : (lba : ℕ) → lba < total → d.bad_read lba ≡ false
  pub writes : (lba : ℕ) → lba < total → d.bad_write lba ≡ false

-- The tables have a sector number each, and there is one at least.
pub record IsValid (v : Volume) : Type 0 where
  pub addressable : v.fat_start + v.num_fats * v.sectors_per_fat ≤ 2 ^ 32
  pub some_table : 0 < v.num_fats

-- The number of entries of a table.
abbrev pub entries : Volume → ℕ
entries v = 256 * v.sectors_per_fat

-- All tables of the disk hold the entries `t`.
unfoldable pub Holds : Volume → (t : ℕ → ℕ) → Disk → Type 0
Holds v t d =
    (k cluster : ℕ)
    → k < v.num_fats
    → cluster < entries v
    → get16 (d.sectors (place v k cluster)) (entry_offset cluster) ≡ t cluster

pub rows : (k n s : ℕ) → k < n → k * s + s ≤ n * s
rows k n s h = let le = mul-le-mul_right {m = k + 1} {n = n} s (omega arith) in omega arith

place-less : (v : Volume) (j k a b : ℕ) → a < entries v → j < k → place v j a < place v k b
place-less v j k a b p h = let row = rows j k v.sectors_per_fat h in omega (arith, row, p)

pub place-distinct :
    (v : Volume) (j k a b : ℕ)
    → a < entries v
    → b < entries v
    → place v j a ≡ place v k b
    → (j ≡ k) × (a / 256 ≡ b / 256)
place-distinct v j k a b p q e = elim (Bool-cases (ltb j k)) [
  | inl lt ↦ let less = place-less v j k a b p (ltb→lt j k lt) in omega (arith, less, e)
  | inr ge ↦ elim (Bool-cases (ltb k j)) [
    | inl lt ↦ let less = place-less v k j b a q (ltb→lt k j lt) in omega (arith, less, e)
    | inr le ↦
        let same : j ≡ k = omega (arith, ltb→ge j k ge, ltb→ge k j le) in
        let shift = ap (λ i. i * v.sectors_per_fat) same in (same, omega (arith, e, shift))
  ]
]

pub get16-put16 : (i x : ℕ) (s : ℕ → ℕ) → get16 (put16 i x s) i ≡ x
unfolding get16 put16
get16-put16 i x s = ground arith

pub get16-put16_ne :
    (i j x : ℕ) (s : ℕ → ℕ) → j ≢ i → j ≢ i + 1 → j + 1 ≢ i → get16 (put16 i x s) j ≡ get16 s j
unfolding get16 put16
get16-put16_ne i j x s h1 h2 h3 = ground arith
