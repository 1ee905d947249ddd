-- ===== src/Fat16/Allocate.antt =====
-- Allocating a cluster of a FAT16 volume, `fat16_allocate_cluster` of src/kernel/fs/fat16.c.
use szczupak_os.Fat16.Place.{place, rows, Holds, entries, IsValid, IsHealthy}
use szczupak_os.Fat16.Table.{
  store-IsHealthy, Tables, read_fat_entry-Holds, write_fat_entry-Tables, Outside, store,
}
use szczupak_os.Fat16.{
  entry_offset, get16, allocate_cluster, read_fat_entry, first_sector, write_fat_entry, zero_loop,
  take_cluster, allocate_loop, Volume, Disk,
}
use szczupak_os.Base.{
  ℕ, zero, suc, ◌+◌, ◌-◌, ◌*◌, ◌^◌, ◌≤◌, ◌<◌, ◌≡◌, refl, sym, ap, ◌∙◌, subst, ◌≢◌, ◌⊎◌, inl, inr,
  Bool, true, arith, ◌==◌, ==→eq, ==→ne, ne→==, Bool-cases, update, update_self, update_ne, add32,
}

-- The sectors of the cluster lie behind the tables and are sectors of the disk.
pub record HasCluster (v : Volume) (total cluster : ℕ) : Type 0 where
  pub some_sector : 0 < v.sectors_per_cluster
  pub behind : v.fat_start + v.num_fats * v.sectors_per_fat ≤ v.data_start
  pub addressable :
      v.data_start + (cluster - 2) * v.sectors_per_cluster + v.sectors_per_cluster ≤ 2 ^ 32
  pub on_disk : v.data_start + (cluster - 2) * v.sectors_per_cluster + v.sectors_per_cluster ≤ total

-- The number of the first sector of a cluster.
abbrev pub data_sector : Volume → (cluster : ℕ) → ℕ
data_sector v cluster = v.data_start + (cluster - 2) * v.sectors_per_cluster

-- The disk `d'` is `d` with `n` sectors from `a` on cleared.
record Cleared (v : Volume) (total a n : ℕ) (d d' : Disk) : Type 0 where
  healthy : IsHealthy v total d'
  inside : (s : ℕ) → s < n → d'.sectors (a + s) ≡ (λ _. 0)
  outside : (lba : ℕ) → lba < a ⊎ a + n ≤ lba → d'.sectors lba ≡ d.sectors lba

zero_loop-step :
    {v : Volume} {total : ℕ} (n s a : ℕ) (d : Disk)
    → IsHealthy v total d
    → a + s < total
    → zero_loop (suc n) s a d ≡ zero_loop n (s + 1) a (store (a + s) (λ _. 0) d)
unfolding zero_loop
zero_loop-step n s a d good h =
    let writable = good.writes (a + s) h in
    let at : add32 a s ≡ a + s = omega (arith, h, good.bounded) in ground arith

Cleared-first :
    {v : Volume} {total : ℕ} (n s a : ℕ) (d d' : Disk)
    → Cleared v total (a + (s + 1)) n (store (a + s) (λ _. 0) d) d'
    → Cleared v total (a + s) (suc n) d d'
Cleared-first n s a d d' w = record {
  healthy = w.healthy;
  inside = λ k p. elim (Bool-cases (k == 0)) [
    | inl e ↦
        let at : a + s + k ≡ a + s = omega (arith, ==→eq k 0 e) in
        ap d'.sectors at
        ∙ w.outside (a + s) (inl (omega arith))
        ∙ update_self d.sectors (a + s) (λ _. 0)
    | inr ne ↦
        let at : a + s + k ≡ a + (s + 1) + (k - 1) = omega (arith, ==→ne k 0 ne) in
        ap d'.sectors at ∙ w.inside (k - 1) (omega (arith, p, ==→ne k 0 ne))
  ];
  outside = λ lba o. elim o [
    | inl low ↦
        w.outside lba (inl (omega (arith, low)))
        ∙ update_ne d.sectors (a + s) _ lba (omega (arith, low))
    | inr high ↦
        w.outside lba (inr (omega (arith, high)))
        ∙ update_ne d.sectors (a + s) _ lba (omega (arith, high))
  ];
}

zero_loop-Cleared :
    {v : Volume} {total : ℕ} (n s a : ℕ) (d : Disk)
    → IsHealthy v total d
    → a + s + n ≤ total
    → ((zero_loop n s a d).0 ≡ true) × Cleared v total (a + s) n d (zero_loop n s a d).1
unfolding zero_loop
zero_loop-Cleared {v = v} {total = total} zero s a d good h =
    (refl, record { healthy = good; inside = λ k p. absurd (omega arith); outside = λ lba o. refl })
zero_loop-Cleared {v = v} {total = total} (suc n) s a d good h =
    let (ok, w) =
      zero_loop-Cleared n (s + 1) a (store (a + s) (λ _. 0) d) (store-IsHealthy _ _ _ d good)
        (omega arith) in
    subst {A = Bool × Disk} (λ r. (r.0 ≡ true) × Cleared v total (a + s) (suc n) d r.1)
      (sym (zero_loop-step n s a d good (omega arith))) (ok, Cleared-first n s a d _ w)

-- What the search for a free cluster finds.
pub record FirstFree (v : Volume) (t : ℕ → ℕ) (i : ℕ) : Type 0 where
  pub low : 2 ≤ i
  pub high : i < 0xFFF0
  pub inside : i < entries v
  pub free : t i ≡ 0
  pub taken : (j : ℕ) → 2 ≤ j → j < i → t j ≢ 0

-- The state after cluster `i` is allocated: its entry ends a chain, its sectors are clear, and all
-- else is as before.
pub record Allocated (v : Volume) (total : ℕ) (t : ℕ → ℕ) (i : ℕ) (d d' : Disk) : Type 0 where
  pub healthy : IsHealthy v total d'
  pub holds : Holds v (update t i 0xFFFF) d'
  pub cleared : (s : ℕ) → s < v.sectors_per_cluster → d'.sectors (data_sector v i + s) ≡ (λ _. 0)
  pub others :
      (lba : ℕ)
      → Outside v lba
      → lba < data_sector v i ⊎ data_sector v i + v.sectors_per_cluster ≤ lba
      → d'.sectors lba ≡ d.sectors lba

Allocated-steps :
    {total : ℕ} (v : Volume) (t : ℕ → ℕ) (i : ℕ) (d d1 d2 : Disk)
    → HasCluster v total i
    → Tables v total (update t i 0xFFFF) d d1
    → Cleared v total (data_sector v i + 0) v.sectors_per_cluster d1 d2
    → Allocated v total t i d d2
unfolding Holds
Allocated-steps v t i d d1 d2 has tables w = record {
  healthy = w.healthy;
  holds = λ k c p q.
      let row = rows k v.num_fats v.sectors_per_fat p in
      ap (λ s. get16 s (entry_offset c))
        (w.outside (place v k c) (inl (omega (arith, row, q, has.behind))))
      ∙ tables.holds k c p q;
  cleared = λ s p.
      let at : data_sector v i + s ≡ data_sector v i + 0 + s = omega arith in
      ap d2.sectors at ∙ w.inside s p;
  others = λ lba o apart.
      w.outside lba
        (elim apart [ inl low ↦ inl (omega (arith, low)) | inr high ↦ inr (omega (arith, high)) ])
      ∙ tables.outside lba o;
}

take_cluster-succeeds :
    {total : ℕ} (v : Volume) (i : ℕ) (d : Disk)
    → HasCluster v total i
    → (write_fat_entry v i 0xFFFF d).0 ≡ true
    → (zero_loop v.sectors_per_cluster 0 (data_sector v i) (write_fat_entry v i 0xFFFF d).1).0
      ≡ true
    → take_cluster v i d ≡ (
      i,
      (zero_loop v.sectors_per_cluster 0 (data_sector v i) (write_fat_entry v i 0xFFFF d).1).1,
    )
unfolding take_cluster
take_cluster-succeeds v i d has ok zeroed =
    let at : first_sector v i ≡ data_sector v i = omega (arith, has.addressable, has.some_sector) in
    rw (take_cluster, ok, at, zeroed) refl

take_cluster-Allocated :
    {total : ℕ} (v : Volume) (t : ℕ → ℕ) (i : ℕ) (d : Disk)
    → IsValid v
    → HasCluster v total i
    → IsHealthy v total d
    → Holds v t d
    → FirstFree v t i
    → ((take_cluster v i d).0 ≡ i) × Allocated v total t i d (take_cluster v i d).1
unfolding take_cluster
take_cluster-Allocated {total = total} v t i d valid has good h found =
    let (ok, tables) = write_fat_entry-Tables v t i 0xFFFF d valid good h found.low found.inside in
    let d1 = (write_fat_entry v i 0xFFFF d).1 in
    let (zeroed, w) =
      zero_loop-Cleared {total = total} v.sectors_per_cluster 0 (data_sector v i) d1 tables.healthy
        (omega (arith, has.on_disk)) in
    subst {A = ℕ × Disk} (λ r. (r.0 ≡ i) × Allocated v total t i d r.1)
      (sym (take_cluster-succeeds v i d has ok zeroed))
      (refl, Allocated-steps v t i d d1 _ has tables w)

allocate_loop-here :
    (n j : ℕ) (v : Volume) (d : Disk)
    → read_fat_entry v j d ≡ 0
    → allocate_loop (suc n) j v d ≡ take_cluster v j d
unfolding allocate_loop
allocate_loop-here n j v d free = rw (allocate_loop, free) refl

allocate_loop-next :
    (n j : ℕ) (v : Volume) (d : Disk)
    → read_fat_entry v j d ≢ 0
    → allocate_loop (suc n) j v d ≡ allocate_loop n (j + 1) v d
unfolding allocate_loop
allocate_loop-next n j v d busy = rw (allocate_loop, ne→== (read_fat_entry v j d) 0 busy) refl

allocate_loop-Allocated :
    {total : ℕ} (n j : ℕ) (v : Volume) (t : ℕ → ℕ) (i : ℕ) (d : Disk)
    → IsValid v
    → HasCluster v total i
    → IsHealthy v total d
    → Holds v t d
    → FirstFree v t i
    → 2 ≤ j
    → j ≤ i
    → i < j + n
    → ((allocate_loop n j v d).0 ≡ i) × Allocated v total t i d (allocate_loop n j v d).1
allocate_loop-Allocated {total = total} zero j v t i d valid has good h found p q r =
    absurd (omega (arith, q, r))
allocate_loop-Allocated {total = total} (suc n) j v t i d valid has good h found p q r =
    let reads = read_fat_entry-Holds v t j d valid good h p (omega (arith, q, found.inside)) in
    elim (Bool-cases (j == i)) [
      | inl e ↦
          let here = allocate_loop-here n j v d (reads ∙ ap t (==→eq j i e) ∙ found.free) in
          subst {A = ℕ × Disk} (λ r. (r.0 ≡ i) × Allocated v total t i d r.1)
            (sym (here ∙ ap (λ c. take_cluster v c d) (==→eq j i e)))
            (take_cluster-Allocated v t i d valid has good h found)
      | inr e ↦
          let other = ==→ne j i e in
          let busy = found.taken j p (omega (arith, q, other)) in
          subst {A = ℕ × Disk} (λ r. (r.0 ≡ i) × Allocated v total t i d r.1)
            (sym (allocate_loop-next n j v d (λ free. busy (sym reads ∙ free))))
            (allocate_loop-Allocated n (j + 1) v t i d valid has good h found (omega arith)
              (omega (arith, q, other)) (omega (arith, r)))
    ]

-- On a volume with at least one table, whose tables all hold the same entries, on a disk whose
-- sectors below `total`, which is at most 2^32, can be read and written, the tables among them:
-- where `i`, below 0xFFF0, is the first cluster of the tables from 2 on whose entry is zero, and its
-- sectors lie behind the tables and below `total`, `fat16_allocate_cluster` returns `i`, marks it as
-- the end of a chain in every copy of the table, and clears its sectors; every other entry and every
-- other sector of the disk stays.
pub allocate_takes-FirstFree :
    {total : ℕ} (v : Volume) (t : ℕ → ℕ) (i : ℕ) (d : Disk)
    → IsValid v
    → HasCluster v total i
    → IsHealthy v total d
    → Holds v t d
    → FirstFree v t i
    → ((allocate_cluster v d).0 ≡ i) × Allocated v total t i d (allocate_cluster v d).1
unfolding allocate_cluster
allocate_takes-FirstFree {total = total} v t i d valid has good h found =
    allocate_loop-Allocated {total = total} (0xFFF0 - 2) 2 v t i d valid has good h found
      (omega arith) found.low (omega (arith, found.high))
