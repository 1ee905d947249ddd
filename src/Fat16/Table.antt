-- ===== src/Fat16/Table.antt =====
-- The tables of a FAT16 volume, src/kernel/fs/fat16.c, as one function from clusters to entries.
use szczupak_os.Fat16.Place.{
  place-distinct, get16-put16_ne, get16-put16, rows, place, entries, IsValid, IsHealthy, Holds,
}
use szczupak_os.Base.{
  ℕ, zero, suc, ◌+◌, ◌*◌, ◌/◌, ◌≤◌, ◌<◌, ◌≡◌, refl, sym, ap, ◌∙◌, subst, ◌≢◌, ◌⊎◌, inl, inr, Bool,
  true, none, some, arith, ltb, ◌==◌, ltb→lt, ==→eq, ==→ne, Bool-cases, if_cases, update,
  update_self, update_ne, add32,
}
use szczupak_os.Fat16.{
  read_sector, write_fat_entry, read_fat_entry, fat_sector, entry_offset, put16, write_fat_loop,
  get16, Volume, Disk,
}

-- What a write of the entry of `cluster` leaves of `d`, in `n` tables from `f` on.
record Wrote (v : Volume) (total : ℕ) (cluster value f n : ℕ) (d d' : Disk) : Type 0 where
  healthy : IsHealthy v total d'
  inside :
      (k : ℕ)
      → f ≤ k
      → k < f + n
      → d'.sectors (place v k cluster)
        ≡ put16 (entry_offset cluster) value (d.sectors (place v k cluster))
  outside :
      (lba : ℕ)
      → ((k : ℕ) → f ≤ k → k < f + n → lba ≢ place v k cluster)
      → d'.sectors lba ≡ d.sectors lba

table_sector :
    (v : Volume) (k cluster : ℕ)
    → IsValid v
    → k < v.num_fats
    → cluster < entries v
    → add32 (fat_sector v cluster) (k * v.sectors_per_fat) ≡ place v k cluster
table_sector v k cluster valid h inside =
    let row = rows k v.num_fats v.sectors_per_fat h in omega (arith, row, valid.addressable, inside)

-- The disk after a sector is written.
abbrev pub store : ℕ → (ℕ → ℕ) → Disk → Disk
store lba s d = record d { sectors = update d.sectors lba s }

-- A write keeps what the disk can do.
pub store-IsHealthy :
    {total : ℕ} (v : Volume) (lba : ℕ) (s : ℕ → ℕ) (d : Disk)
    → IsHealthy v total d
    → IsHealthy v total (store lba s d)
store-IsHealthy v lba s d good = record {
  bounded = good.bounded;
  on_disk = good.on_disk;
  reads = good.reads;
  writes = good.writes;
}

write_fat_loop-step :
    {total : ℕ} (n f : ℕ) (v : Volume) (cluster value : ℕ) (d : Disk)
    → IsValid v
    → IsHealthy v total d
    → cluster < entries v
    → f < v.num_fats
    → write_fat_loop (suc n) f v cluster value d
      ≡ write_fat_loop n (f + 1) v cluster value (
          store
            (place v f cluster)
            (put16 (entry_offset cluster) value (d.sectors (place v f cluster)))
            d)
unfolding write_fat_loop
write_fat_loop-step {total = total} n f v cluster value d valid good inside h =
    let at = table_sector v f cluster valid h inside in
    let row = rows f v.num_fats v.sectors_per_fat h in
    let on_disk : place v f cluster < total = omega (arith, row, good.on_disk, inside) in
    let readable = good.reads (place v f cluster) on_disk in
    let writable = good.writes (place v f cluster) on_disk in ground arith

Wrote-first :
    {total : ℕ} (n f : ℕ) (v : Volume) (cluster value : ℕ) (d d' : Disk)
    → cluster < entries v
    → Wrote v total cluster value
        (f + 1)
        n
        (store
          (place v f cluster)
          (put16 (entry_offset cluster) value (d.sectors (place v f cluster)))
          d)
        d'
    → Wrote v total cluster value f (suc n) d d'
Wrote-first n f v cluster value d d' inside w = record {
  healthy = w.healthy;
  inside = λ k p q. elim (Bool-cases (k == f)) [
    | inl e ↦
        subst
          (λ j.
            d'.sectors (place v j cluster)
            ≡ put16 (entry_offset cluster) value (d.sectors (place v j cluster)))
          (sym (==→eq k f e))
          (w.outside (place v f cluster) (λ j p' q' same.
              absurd
                (omega (arith, p', (place-distinct v f j cluster cluster inside inside same).0)))
            ∙ update_self d.sectors (place v f cluster) _)
    | inr ne ↦
        let later : k ≢ f = ==→ne k f ne in
        w.inside k (omega arith) (omega arith)
        ∙ ap (put16 (entry_offset cluster) value) (
            update_ne d.sectors (place v f cluster) _ (place v k cluster)
              (λ same. later (place-distinct v k f cluster cluster inside inside same).0))
  ];
  outside = λ lba h.
      w.outside lba (λ k p q. h k (omega arith) (omega arith))
      ∙ update_ne d.sectors (place v f cluster) _ lba (h f (omega arith) (omega arith));
}

write_fat_loop-Wrote :
    {total : ℕ} (n f : ℕ) (v : Volume) (cluster value : ℕ) (d : Disk)
    → IsValid v
    → IsHealthy v total d
    → cluster < entries v
    → f + n ≤ v.num_fats
    → ((write_fat_loop n f v cluster value d).0 ≡ true)
      × Wrote v total cluster value f n d (write_fat_loop n f v cluster value d).1
unfolding write_fat_loop
write_fat_loop-Wrote {total = total} zero f v cluster value d valid good inside bound = (
  refl,
  record { healthy = good; inside = λ k p q. absurd (omega arith); outside = λ lba h. refl },
)
write_fat_loop-Wrote {total = total} (suc n) f v cluster value d valid good inside bound =
    let at = place v f cluster in
    let s = put16 (entry_offset cluster) value (d.sectors at) in
    let (ok, rest) =
      write_fat_loop-Wrote {total = total} n (f + 1) v cluster value (store at s d) valid
        (store-IsHealthy v _ _ d good) inside (omega arith) in
    subst (λ r. (r.0 ≡ true) × Wrote v total cluster value f (suc n) d r.1)
      (sym (write_fat_loop-step n f v cluster value d valid good inside (omega arith)))
      (ok, Wrote-first n f v cluster value d _ inside rest)

-- Two writes that agree on a table's entries leave the same tables.
pub Holds-entries :
    (v : Volume) (t t' : ℕ → ℕ) (d : Disk)
    → ((cluster : ℕ) → cluster < entries v → t cluster ≡ t' cluster)
    → Holds v t d
    → Holds v t' d
unfolding Holds
Holds-entries v t t' d same h k cluster p q = h k cluster p q ∙ same cluster q

-- The sectors that no table occupies.
pub Outside : Volume → (lba : ℕ) → Type 0
Outside v lba = lba < v.fat_start ⊎ v.fat_start + v.num_fats * v.sectors_per_fat ≤ lba

-- What a step on the tables leaves: tables that hold `t`, and every other sector as it was.
pub record Tables (v : Volume) (total : ℕ) (t : ℕ → ℕ) (d d' : Disk) : Type 0 where
  pub healthy : IsHealthy v total d'
  pub holds : Holds v t d'
  pub outside : (lba : ℕ) → Outside v lba → d'.sectors lba ≡ d.sectors lba

pub place-Inside :
    (v : Volume) (k cluster lba : ℕ)
    → k < v.num_fats
    → cluster < entries v
    → Outside v lba
    → lba ≢ place v k cluster
unfolding Outside
place-Inside v k cluster lba p q h e =
    let row = rows k v.num_fats v.sectors_per_fat p in
    elim h [ inl low ↦ omega (arith, low, e) | inr high ↦ omega (arith, high, e, row, q) ]

Wrote-other :
    {total : ℕ} (v : Volume) (cluster value : ℕ) (d d' : Disk) (k c : ℕ)
    → cluster < entries v
    → Wrote v total cluster value 0 v.num_fats d d'
    → k < v.num_fats
    → c < entries v
    → c ≢ cluster
    → get16 (d'.sectors (place v k c)) (entry_offset c)
      ≡ get16 (d.sectors (place v k c)) (entry_offset c)
Wrote-other v cluster value d d' k c inside w p q ne =
    elim (Bool-cases (c / 256 == cluster / 256)) [
      | inl e ↦
          let same = ==→eq (c / 256) (cluster / 256) e in
          let at : place v k c ≡ place v k cluster = omega (arith, same) in
          ap (λ lba. get16 (d'.sectors lba) (entry_offset c)) at
          ∙ ap (λ s. get16 s (entry_offset c)) (w.inside k (omega arith) (omega (arith, p)))
          ∙ get16-put16_ne (entry_offset cluster) (entry_offset c) value _ (omega (arith, same, ne))
              (omega (arith, same, ne)) (omega (arith, same, ne))
          ∙ ap (λ lba. get16 (d.sectors lba) (entry_offset c)) (sym at)
      | inr e ↦
          let other = ==→ne (c / 256) (cluster / 256) e in
          ap (λ s. get16 s (entry_offset c))
            (w.outside (place v k c)
              (λ j p' q' same. other (place-distinct v k j c cluster q inside same).1))
    ]

Wrote-Tables :
    {total : ℕ} (v : Volume) (t : ℕ → ℕ) (cluster value : ℕ) (d d' : Disk)
    → cluster < entries v
    → Holds v t d
    → Wrote v total cluster value 0 v.num_fats d d'
    → Tables v total (update t cluster value) d d'
unfolding Holds
Wrote-Tables v t cluster value d d' inside h w = record {
  healthy = w.healthy;
  holds = λ k c p q. elim (Bool-cases (c == cluster)) [
    | inl e ↦
        subst (λ x. get16 (d'.sectors (place v k x)) (entry_offset x) ≡ update t cluster value x)
          (sym (==→eq c cluster e))
          (ap (λ s. get16 s (entry_offset cluster)) (w.inside k (omega arith) (omega (arith, p)))
            ∙ get16-put16 (entry_offset cluster) value _
            ∙ sym (update_self t cluster value))
    | inr ne ↦
        Wrote-other v cluster value d d' k c inside w p q (==→ne c cluster ne)
        ∙ h k c p q
        ∙ sym (update_ne t cluster value c (==→ne c cluster ne))
  ];
  outside =
      λ lba o. w.outside lba (λ k p q. place-Inside v k cluster lba (omega (arith, q)) inside o);
}

-- On a volume with at least one table, whose tables all hold the same entries, on a disk whose
-- sectors below `total`, which is at most 2^32, can be read and written, the tables among them:
-- `fat16_write_fat_entry` for a cluster of the tables, from 2 on, returns true and updates that
-- entry, in every copy of the table, and nothing else.
pub write_fat_entry-Tables :
    {total : ℕ} (v : Volume) (t : ℕ → ℕ) (cluster value : ℕ) (d : Disk)
    → IsValid v
    → IsHealthy v total d
    → Holds v t d
    → 2 ≤ cluster
    → cluster < entries v
    → ((write_fat_entry v cluster value d).0 ≡ true)
      × Tables v total (update t cluster value) d (write_fat_entry v cluster value d).1
unfolding write_fat_entry
write_fat_entry-Tables {total = total} v t cluster value d valid good h low inside =
    let (ok, w) =
      write_fat_loop-Wrote {total = total} v.num_fats 0 v cluster value d valid good inside
        (omega arith) in
    if_cases {A = Bool × Disk} (λ r. (r.0 ≡ true) × Tables v total (update t cluster value) d r.1)
      (ltb cluster 2) (λ e. absurd (omega (arith, ltb→lt cluster 2 e, low)))
      (λ e. (ok, Wrote-Tables v t cluster value d _ inside h w))

-- `fat16_read_fat_entry` reads the entry of the tables.
pub read_fat_entry-Holds :
    {total : ℕ} (v : Volume) (t : ℕ → ℕ) (cluster : ℕ) (d : Disk)
    → IsValid v
    → IsHealthy v total d
    → Holds v t d
    → 2 ≤ cluster
    → cluster < entries v
    → read_fat_entry v cluster d ≡ t cluster
unfolding read_fat_entry Holds
read_fat_entry-Holds v t cluster d valid good h low inside =
    let row = rows 0 v.num_fats v.sectors_per_fat valid.some_table in
    let at : fat_sector v cluster ≡ place v 0 cluster =
      omega (arith, row, valid.addressable, inside) in
    if_cases {A = ℕ} (λ x. x ≡ t cluster) (ltb cluster 2)
      (λ e. absurd (omega (arith, ltb→lt cluster 2 e, low)))
      (λ e.
        subst
          (λ lba.
            elim (read_sector lba d) [ none ↦ 0 | some s ↦ get16 s (entry_offset cluster) ]
            ≡ t cluster)
          (sym at)
          (rw (good.reads (place v 0 cluster) (omega (arith, row, good.on_disk, inside)))
            (h 0 cluster valid.some_table inside)))
