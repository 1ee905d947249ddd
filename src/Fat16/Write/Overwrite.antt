-- ===== src/Fat16/Write/Overwrite.antt =====
-- What `fat16_write` of src/kernel/fs/fat16.c does to a file that has all the clusters it needs.
use szczupak_os.Fat16.Write.Loop.{write_sectors-Writing, Wrote}
use szczupak_os.Fat16.Release.{ends-not}
use szczupak_os.Fat16.Allocate.{data_sector}
use szczupak_os.Fat16.Write.Sectors.{Writing-moves, Writing-full, Writing}
use szczupak_os.Fat16.Write.Place.{IsSimple}
use szczupak_os.Fat16.Place.{entries, Holds, IsHealthy, IsValid}
use szczupak_os.Fat16.Table.{read_fat_entry-Holds}
use szczupak_os.Fat16.File.Sectors.{follow, Stored}
use native.Mathlib.Nat.{mul-le-mul_right}
use szczupak_os.Fat16.Write.{
  read_fat_entry, ends, first_sector, write_sectors, Disk, write_clusters, skip_clusters,
  next_cluster, Volume,
}
use szczupak_os.Base.{
  ℕ, zero, suc, ◌+◌, ◌*◌, ◌≤◌, ◌<◌, ◌≡◌, refl, sym, ap, ◌∙◌, subst, inl, inr, Bool, true, false,
  Option, some, arith, leb, lt→ltb, ge→ltb, leb→le, leb→gt, le→leb, gt→leb, Bool-cases,
}

next_cluster-goes_on :
    (v : Volume) (c : ℕ) (d : Disk)
    → ends (read_fat_entry v c d) ≡ false
    → next_cluster v c d ≡ (some (read_fat_entry v c d), d)
unfolding next_cluster
next_cluster-goes_on v c d e = rw (next_cluster, e) refl

next_cluster-Holds :
    {total : ℕ} (v : Volume) (t : ℕ → ℕ) (c : ℕ) (d : Disk)
    → IsValid v
    → IsHealthy v total d
    → Holds v t d
    → 2 ≤ c
    → c < entries v
    → ends (t c) ≡ false
    → next_cluster v c d ≡ (some (t c), d)
next_cluster-Holds v t c d valid good h low inside e =
    let reads = read_fat_entry-Holds v t c d valid good h low inside in
    next_cluster-goes_on v c d (ap ends reads ∙ e) ∙ ap (λ x. (some x, d)) reads

write_clusters-stop :
    (n : ℕ) (v : Volume) (current intra size : ℕ) (src : ℕ → ℕ) (d : Disk) (written : ℕ)
    → size ≤ written
    → write_clusters (suc n) v current intra size src d written ≡ some (true, d)
unfolding write_clusters
write_clusters-stop n v current intra size src d written h =
    rw (write_clusters, ge→ltb written size h) refl

write_clusters-last :
    (n : ℕ) (v : Volume) (current intra size : ℕ) (src : ℕ → ℕ) (d : Disk) (written : ℕ)
    → written < size
    → (write_sectors v.sectors_per_cluster 0 (first_sector v current) intra size src d written).0
      ≡ true
    → size
      ≤ (write_sectors v.sectors_per_cluster 0 (first_sector v current) intra size src d written).2
    → write_clusters (suc n) v current intra size src d written
      ≡ some (
        true,
        (write_sectors v.sectors_per_cluster 0 (first_sector v current) intra size src d written).1,
      )
unfolding write_clusters
write_clusters-last n v current intra size src d written h ok full =
    let r =
      write_sectors v.sectors_per_cluster 0 (first_sector v current) intra size src d written in
    rw (write_clusters, lt→ltb written size h, ok, le→leb size r.2 full) refl

write_clusters-next :
    (n : ℕ) (v : Volume) (current intra size : ℕ) (src : ℕ → ℕ) (d : Disk) (written c : ℕ)
    → written < size
    → (write_sectors v.sectors_per_cluster 0 (first_sector v current) intra size src d written).0
      ≡ true
    → (write_sectors v.sectors_per_cluster 0 (first_sector v current) intra size src d written).2
      < size
    → (let r =
          write_sectors v.sectors_per_cluster 0 (first_sector v current) intra size src d written in
        next_cluster v current r.1 ≡ (some c, r.1))
    → write_clusters (suc n) v current intra size src d written ≡ (
        let r =
          write_sectors v.sectors_per_cluster 0 (first_sector v current) intra size src d written in
        write_clusters n v c 0 size src r.1 r.2)
unfolding write_clusters
write_clusters-next n v current intra size src d written c h ok short next =
    let r =
      write_sectors v.sectors_per_cluster 0 (first_sector v current) intra size src d written in
    rw
      (
        write_clusters,
        lt→ltb written size h,
        ok,
        gt→leb size r.2 short,
        ap (λ q. q.0) next,
        ap (λ q. q.1) next,
      )
      refl

skip_clusters-next :
    (n : ℕ) (v : Volume) (current c : ℕ) (d : Disk)
    → next_cluster v current d ≡ (some c, d)
    → skip_clusters (suc n) v current d ≡ skip_clusters n v c d
unfolding skip_clusters
skip_clusters-next n v current c d e = rw (skip_clusters, ap (λ q. q.0) e, ap (λ q. q.1) e) refl

pub skip_clusters-follow :
    {total : ℕ} (n j k : ℕ) (v : Volume) (t : ℕ → ℕ) (d : Disk) (start size : ℕ)
    → IsValid v
    → IsHealthy v total d
    → Holds v t d
    → Stored v total t start size
    → n + j ≡ k
    → k * (v.sectors_per_cluster * 512) < size
    → skip_clusters n v (follow t j start) d ≡ (some (follow t k start), d)
unfolding skip_clusters Stored follow
skip_clusters-follow zero j k v t d start size valid good h stored e p =
    ap (λ i. (some (follow t i start), d)) (omega (arith, e))
skip_clusters-follow (suc n) j k v t d start size valid good h stored e p =
    let le = mul-le-mul_right {m = j} {n = k} (v.sectors_per_cluster * 512) (omega (arith, e)) in
    let le' =
      mul-le-mul_right {m = suc j} {n = k} (v.sectors_per_cluster * 512) (omega (arith, e)) in
    let (goes_on, in_table, has) = stored j (omega (arith, le, p)) in
    let (next_goes_on, next_in_table, next_has) = stored (suc j) (omega (arith, le', p)) in
    skip_clusters-next n v (follow t j start) (follow t (suc j) start) d (
      next_cluster-Holds v t (follow t j start) d valid good h
        (ends-not (follow t j start) goes_on).0 in_table next_goes_on)
    ∙ skip_clusters-follow n (suc j) k v t d start size valid good h stored (omega (arith, e)) p

module _ (v : Volume) (total : ℕ) (t : ℕ → ℕ) (start limit offset size : ℕ) (src : ℕ → ℕ)
    (before : Disk) (stored : Stored v total t start limit) (simple : IsSimple v t start limit)
    (fits : offset + size ≤ limit) (valid : IsValid v) where
  abbrev pub InPlace : (base intra s written : ℕ) → Disk → Type 0
  InPlace base intra s written d =
      Writing v total t start limit offset size src before base intra s written d

  -- The loop went well and wrote all bytes.
  abbrev pub Completes : Option (Bool × Disk) → Type 0
  Completes r = (d : Disk) × ((r ≡ some (true, d)) × InPlace 0 0 0 size d)

  InPlace-complete :
      (base intra s written : ℕ) (d : Disk)
      → size ≤ written
      → InPlace base intra s written d
      → InPlace 0 0 0 size d
  InPlace-complete base intra s written d h w =
      let same : written ≡ size = omega (arith, h, w.bound) in
      subst (λ n. InPlace 0 0 0 n d) same
        (Writing-full v total t start limit offset size src before stored simple fits base intra s 0
          0 0 written d h w)

  pub write_clusters-InPlace :
      (n k intra : ℕ) (d : Disk) (written : ℕ)
      → size < n + written
      → intra < v.sectors_per_cluster * 512
      → InPlace (k * (v.sectors_per_cluster * 512)) intra 0 written d
      → Completes (write_clusters n v (follow t k start) intra size src d written)
  unfolding Stored follow
  write_clusters-InPlace zero k intra d written fuel inside w =
      absurd (omega (arith, fuel, w.bound))
  write_clusters-InPlace (suc n) k intra d written fuel inside w =
      elim (Bool-cases (leb size written)) [
        | inl e ↦
            let full = leb→le size written e in
            (
              d,
              (
                write_clusters-stop n v (follow t k start) intra size src d written full,
                InPlace-complete _ _ _ written d full w,
              ),
            )
        | inr e ↦
            let short = leb→gt size written e in
            let cluster_size = v.sectors_per_cluster * 512 in
            let c = follow t k start in
            let reached : offset + written ≡ k * cluster_size + intra = elim w.reached [
              | inl full ↦ absurd (omega (arith, full, short))
              | inr at ↦ omega (arith, at)
            ] in
            let (goes_on, in_table, has) = stored k (omega (arith, reached, short, fits)) in
            let at : first_sector v c ≡ data_sector v c =
              omega (arith, has.addressable, has.some_sector) in
            let r =
              write_sectors v.sectors_per_cluster 0 (first_sector v c) intra size src d written in
            let (ok, next) =
              subst
                (λ first.
                  Wrote v total t start limit offset size src before stored simple fits
                    (k * cluster_size) intra v.sectors_per_cluster
                    (write_sectors v.sectors_per_cluster 0 first intra size src d written))
                (sym at)
                (write_sectors-Writing v total t start limit offset size src before stored simple
                  fits v.sectors_per_cluster 0 k intra d written (omega arith) has.on_disk w) in
            elim (Bool-cases (leb size r.2)) [
              | inl e' ↦
                  let full = leb→le size r.2 e' in
                  (
                    r.1,
                    (
                      write_clusters-last n v c intra size src d written short ok full,
                      InPlace-complete _ _ _ r.2 r.1 full next,
                    ),
                  )
              | inr e' ↦
                  let more = leb→gt size r.2 e' in
                  let to : offset + r.2 ≡ suc k * cluster_size = elim next.reached [
                    | inl full ↦ absurd (omega (arith, full, more))
                    | inr to ↦ omega (arith, to, inside)
                  ] in
                  let (next_goes_on, next_in_table, next_has) =
                    stored (suc k) (omega (arith, to, more, fits)) in
                  let step =
                    next_cluster-Holds v t c r.1 valid next.healthy next.holds
                      (ends-not c goes_on).0 in_table next_goes_on in
                  subst Completes
                    (sym
                      (write_clusters-next n v c intra size src d written (t c) short ok more step))
                    (write_clusters-InPlace n (suc k) 0 r.1 r.2
                      (omega (arith, to, reached, fuel, inside)) (omega (arith, inside))
                      (Writing-moves v total t start limit offset size src before stored simple fits
                        (k * cluster_size) intra v.sectors_per_cluster (suc k * cluster_size) 0 0
                        r.2 r.1 (omega (arith, inside)) next))
            ]
      ]
