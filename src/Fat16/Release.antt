-- ===== src/Fat16/Release.antt =====
-- Releasing a chain of clusters of a FAT16 volume, `fat16_release_cluster_chain` of
-- src/kernel/fs/fat16.c: it completes on every table, and frees the clusters of the chain alone.
use szczupak_os.Fat16.Place.{Holds, IsHealthy, IsValid, entries}
use szczupak_os.Fat16.Table.{read_fat_entry-Holds, write_fat_entry-Tables}
use szczupak_os.Fat16.{
  release_cluster_chain, write_fat_entry, read_fat_entry, Disk, release_loop, ends, Volume,
}
use szczupak_os.Base.{
  ℕ, zero, suc, ◌+◌, ◌≤◌, ◌<◌, ◌≡◌, refl, sym, ap, ap₂, subst, ◌≢◌, inl, inr, Bool, true, false,
  arith, ltb, ◌==◌, if◌then◌else◌, ==→eq, ==→ne, Bool-cases, if_elim, update, update_self,
  update_ne,
}

-- Whether an entry is in use, as a number.
used : ℕ → ℕ
used zero = 0
used (suc x) = 1

-- The entries below `n` that are in use.
pub count : (n : ℕ) (t : ℕ → ℕ) → ℕ
count zero t = 0
count (suc n) t = used (t n) + count n t

used_le : (x : ℕ) → used x ≤ 1
unfolding used
used_le zero = omega arith
used_le (suc x) = omega arith

used_one : (x : ℕ) → x ≢ 0 → used x ≡ 1
unfolding used
used_one zero h = absurd (h refl)
used_one (suc x) h = refl

pub count_le : (n : ℕ) (t : ℕ → ℕ) → count n t ≤ n
unfolding count
count_le zero t = omega arith
count_le (suc n) t = omega (arith, used_le (t n), count_le n t)

count-update_above : (n c : ℕ) (t : ℕ → ℕ) → n ≤ c → count n (update t c 0) ≡ count n t
unfolding count
count-update_above zero c t h = refl
count-update_above (suc n) c t h =
    ap₂ (λ x m. used x + m) (update_ne t c 0 n (omega arith))
      (count-update_above n c t (omega arith))

pub count-update : (n c : ℕ) (t : ℕ → ℕ) → c < n → t c ≢ 0 → count n (update t c 0) + 1 ≡ count n t
unfolding count used
count-update zero c t h busy = absurd (omega arith)
count-update (suc n) c t h busy = elim (Bool-cases (c == n)) [
  | inl e ↦
      let same = ==→eq c n e in
      let was : used (t n) ≡ 1 = used_one (t n) (subst (λ x. t x ≢ 0) same busy) in
      let now : used (update t c 0 n) ≡ 0 =
        ap used (subst (λ x. update t c 0 x ≡ 0) same (update_self t c 0)) in
      omega (arith, was, now, count-update_above n c t (omega (arith, same)))
  | inr ne ↦
      let other = ==→ne c n ne in
      let rest = count-update n c t (omega (arith, other)) busy in
      let same : used (update t c 0 n) ≡ used (t n) =
        ap used (update_ne t c 0 n (omega (arith, other))) in
      omega (arith, rest, same)
]

-- Every entry that does not end a chain names a cluster of the table.
unfoldable pub Linked : Volume → (t : ℕ → ℕ) → Type 0
Linked v t = (c : ℕ) → c < entries v → ends (t c) ≡ false → t c < entries v

Linked-update : (v : Volume) (t : ℕ → ℕ) (c : ℕ) → Linked v t → Linked v (update t c 0)
unfolding Linked
Linked-update v t c h x p =
    if_elim (λ y. ends y ≡ false → y < entries v) (x == c) (λ e. ground arith) (h x p)

pub ends-not : (c : ℕ) → ends c ≡ false → (2 ≤ c) × (c < 0xFFF8)
ends-not c e = ground arith

pub release_loop-stop :
    (n c : ℕ) (v : Volume) (d : Disk) → ends c ≡ true → release_loop (suc n) c v d ≡ (true, d)
unfolding release_loop
release_loop-stop n c v d e = ground arith

pub release_loop-link :
    (n c next : ℕ) (v : Volume) (d : Disk)
    → ends c ≡ false
    → read_fat_entry v c d ≡ next
    → (write_fat_entry v c 0 d).0 ≡ true
    → release_loop (suc n) c v d ≡ (
        if next == c
        then (true, (write_fat_entry v c 0 d).1)
        else release_loop n next v (write_fat_entry v c 0 d).1)
unfolding release_loop
release_loop-link n c next v d e r w = ground arith

release_loop-ended :
    (n c : ℕ) (v : Volume) (d : Disk) → 0 < n → ends c ≡ true → (release_loop n c v d).0 ≡ true
release_loop-ended zero c v d p e = absurd (omega arith)
release_loop-ended (suc n) c v d p e = ap (λ r. r.0) (release_loop-stop n c v d e)

-- With a round for each entry in use and two more, the loop comes to its end.
release_loop-completes :
    {total : ℕ} (n c : ℕ) (v : Volume) (t : ℕ → ℕ) (d : Disk)
    → IsValid v
    → IsHealthy v total d
    → Holds v t d
    → Linked v t
    → (ends c ≡ false → c < entries v)
    → count 0xFFF8 t + 2 ≤ n
    → (release_loop n c v d).0 ≡ true
unfolding Linked
release_loop-completes zero c v t d valid good h linked inside fuel = absurd (omega (arith, fuel))
release_loop-completes (suc n) c v t d valid good h linked inside fuel =
    elim (Bool-cases (ends c)) [
      | inl e ↦ release_loop-ended (suc n) c v d (omega arith) e
      | inr e ↦
          let (low, high) = ends-not c e in
          let (ok, tables) = write_fat_entry-Tables v t c 0 d valid good h low (inside e) in
          let next = t c in
          let d' = (write_fat_entry v c 0 d).1 in
          let link =
            release_loop-link n c next v d e
              (read_fat_entry-Holds v t c d valid good h low (inside e)) ok in
          subst (λ r. r.0 ≡ true) (sym link)
            (if_elim {A = Bool × Disk} (λ r. r.0 ≡ true) (next == c) refl
              (elim (Bool-cases (next == 0)) [
                | inl free ↦
                    release_loop-ended n next v d' (omega (arith, fuel))
                      (subst (λ x. ends x ≡ true) (sym (==→eq next 0 free)) refl)
                | inr busy ↦
                    let less = count-update 0xFFF8 c t high (==→ne next 0 busy) in
                    release_loop-completes n next v (update t c 0) d' valid tables.healthy
                      tables.holds (Linked-update v t c linked) (linked c (inside e))
                      (omega (arith, less, fuel))
              ]))
    ]

-- On a volume with at least one table, whose tables all hold the same entries, on a disk whose
-- sectors below `total`, which is at most 2^32, can be read and written, the tables among them:
-- where the start, unless it ends a chain, and every entry that ends none name clusters of the
-- tables, `fat16_release_cluster_chain` returns true, also where the chain runs into itself or into
-- another chain.
pub release_completes :
    {total : ℕ} (start : ℕ) (v : Volume) (t : ℕ → ℕ) (d : Disk)
    → IsValid v
    → IsHealthy v total d
    → Holds v t d
    → Linked v t
    → (ends start ≡ false → start < entries v)
    → (release_cluster_chain start v d).0 ≡ true
unfolding release_cluster_chain
release_completes start v t d valid good h linked inside =
    if_elim {A = Bool × Disk} (λ r. r.0 ≡ true) (ltb start 2) refl
      (release_loop-completes 0x10000 start v t d valid good h linked inside
        (omega (arith, count_le 0xFFF8 t)))
