-- ===== src/Fat16/Write/Place.antt =====
-- Where the bytes of a file of a FAT16 volume, src/kernel/fs/fat16.c, stand on the disk, and what a
-- write of one of its sectors changes.
use szczupak_os.Fat16.Release.{ends-not}
use szczupak_os.Fat16.Allocate.{data_sector}
use szczupak_os.Fat16.File.Sectors.{content, Stored, follow}
use szczupak_os.Fat16.Place.{place, Holds, rows}
use szczupak_os.Fat16.Table.{store}
use szczupak_os.Fat16.{entry_offset, get16, Disk, Volume}
use native.Mathlib.Nat.{mul_assoc, div-add-mod', mod-lt, mul_assoc, div-mul-le_self}
use szczupak_os.Fat16.File.{blit}
use szczupak_os.Base.{
  ℕ, ◌+◌, ◌-◌, ◌*◌, ◌/◌, ◌%◌, ◌≤◌, ◌<◌, ◌≡◌, sym, ap, ◌∙◌, ◌≢◌, ◌⊎◌, inl, inr, arith, ltb, ◌==◌,
  if◌then◌else◌, ltb→lt, ltb→ge, ==→eq, ==→ne, Bool-cases, if_true, if_false, update, update_self,
  update_ne,
}

-- The sector of the disk that holds sector `i` of the file whose chain starts at `start`.
abbrev pub sector_at : Volume → (t : ℕ → ℕ) → (start i : ℕ) → ℕ
sector_at v t start i =
    data_sector v (follow t (i / v.sectors_per_cluster) start) + i % v.sectors_per_cluster

-- No cluster stands twice in the part of the chain for `size` bytes.
unfoldable pub IsSimple : Volume → (t : ℕ → ℕ) → (start size : ℕ) → Type 0
IsSimple v t start size =
    (j k : ℕ)
    → j * (v.sectors_per_cluster * 512) < size
    → k * (v.sectors_per_cluster * 512) < size
    → follow t j start ≡ follow t k start
    → j ≡ k

pub blit-more :
    (offset n part : ℕ) (src to : ℕ → ℕ) (p : ℕ)
    → p < offset + n ⊎ offset + n + part ≤ p
    → blit offset 0 (n + part) src to p ≡ blit offset 0 n src to p
blit-more offset n part src to p (inl h) = ground arith
blit-more offset n part src to p (inr h) = ground arith

clusters-apart :
    (n a b c c' : ℕ) → a < n → b < n → 2 ≤ c → c < c' → (c - 2) * n + a ≢ (c' - 2) * n + b
clusters-apart n a b c c' p q low less e =
    let row = rows (c - 2) (c' - 2) n (omega arith) in omega (arith, row, e, p)

cluster_of : (n i size : ℕ) → i * 512 < size → i / n * (n * 512) < size
cluster_of n i size h =
    let whole = div-mul-le_self i n in
    let scaled : i / n * (n * 512) ≡ i / n * n * 512 = sym (mul_assoc (i / n) n 512) in
    omega (arith, whole, scaled, h)

module _ (v : Volume) (total : ℕ) (t : ℕ → ℕ) (start limit : ℕ)
    (stored : Stored v total t start limit) (simple : IsSimple v t start limit) where
  pub sector_at-distinct :
      (i j : ℕ)
      → i * 512 < limit
      → j * 512 < limit
      → sector_at v t start i ≡ sector_at v t start j
      → i ≡ j
  unfolding Stored IsSimple
  sector_at-distinct i j p q e =
      let n = v.sectors_per_cluster in
      let c = follow t (i / n) start in
      let c' = follow t (j / n) start in
      let in_i = cluster_of n i limit p in
      let in_j = cluster_of n j limit q in
      let (goes_on, in_table, has) = stored (i / n) in_i in
      let (goes_on', in_table', has') = stored (j / n) in_j in
      let small = mod-lt i has.some_sector in
      let small' = mod-lt j has.some_sector in
      let e' : (c - 2) * n + i % n ≡ (c' - 2) * n + j % n = omega (arith, e) in
      elim (Bool-cases (ltb c c')) [
        | inl less ↦ absurd (
            clusters-apart n (i % n) (j % n) c c' small small' (ends-not c goes_on).0
              (ltb→lt c c' less) e')
        | inr ge ↦ elim (Bool-cases (ltb c' c)) [
          | inl less ↦ absurd (
              clusters-apart n (j % n) (i % n) c' c small' small (ends-not c' goes_on').0
                (ltb→lt c' c less) (sym e'))
          | inr le ↦
              let same : c ≡ c' = omega (arith, ltb→ge c c' ge, ltb→ge c' c le) in
              let turns = ap (λ x. x * n) (simple (i / n) (j / n) in_i in_j same) in
              let bases = ap (λ x. (x - 2) * n) same in
              omega (arith, e', bases, turns, div-add-mod' i n, div-add-mod' j n)
        ]
      ]

  pub content-store :
      (i : ℕ) (sector : ℕ → ℕ) (d : Disk) (p : ℕ)
      → i * 512 < limit
      → p < limit
      → content v t (store (sector_at v t start i) sector d) start p
        ≡ (if p / 512 == i then sector (p % 512) else content v t d start p)
  unfolding content
  content-store i sector d p inside h = elim (Bool-cases (p / 512 == i)) [
    | inl e ↦
        let same = ==→eq (p / 512) i e in
        ap (λ s. s (p % 512))
          (ap (update d.sectors (sector_at v t start i) sector) (ap (sector_at v t start) same)
            ∙ update_self d.sectors (sector_at v t start i) sector)
        ∙ sym (if_true (p / 512 == i) _ _ e)
    | inr e ↦
        let other = ==→ne (p / 512) i e in
        ap (λ s. s (p % 512))
          (update_ne d.sectors (sector_at v t start i) sector (sector_at v t start (p / 512))
            (λ at. other (sector_at-distinct (p / 512) i (omega (arith, h)) inside at)))
        ∙ sym (if_false (p / 512 == i) _ _ e)
  ]

  pub store-Holds :
      (i : ℕ) (sector : ℕ → ℕ) (d : Disk)
      → i * 512 < limit
      → Holds v t d
      → Holds v t (store (sector_at v t start i) sector d)
  unfolding Holds Stored
  store-Holds i sector d inside h k c p q =
      let (goes_on, in_table, has) =
        stored (i / v.sectors_per_cluster) (cluster_of v.sectors_per_cluster i limit inside) in
      let row = rows k v.num_fats v.sectors_per_fat p in
      ap (λ s. get16 s (entry_offset c))
        (update_ne d.sectors (sector_at v t start i) sector (place v k c)
          (λ at. omega (arith, at, row, q, has.behind)))
      ∙ h k c p q
