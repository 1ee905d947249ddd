-- ===== src/Fat16/Write/Loop.antt =====
-- The rounds of `fat16_write` of src/kernel/fs/fat16.c over the sectors of a cluster.
use szczupak_os.Fat16.Write.Sectors.{Writing-copy, Writing-moves, Writing-full, Writing}
use szczupak_os.Fat16.Allocate.{data_sector}
use szczupak_os.Fat16.Write.Place.{IsSimple}
use szczupak_os.Fat16.Place.{IsHealthy}
use szczupak_os.Fat16.Table.{store}
use szczupak_os.Fat16.File.Sectors.{follow, Stored}
use szczupak_os.Fat16.File.{copy_size, sector_offset, blit}
use szczupak_os.Fat16.Write.{Disk, write_sectors, Volume}
use szczupak_os.Base.{
  ℕ, zero, suc, ◌+◌, ◌-◌, ◌*◌, ◌≤◌, ◌<◌, ◌≡◌, refl, sym, subst, inl, inr, Bool, true, arith, ltb,
  leb, ltb→lt, ltb→ge, lt→ltb, ge→ltb, leb→le, leb→gt, le→leb, gt→leb, Bool-cases, add32,
}

write_sectors-stop :
    (n s first intra size : ℕ) (src : ℕ → ℕ) (d : Disk) (written : ℕ)
    → size ≤ written
    → write_sectors n s first intra size src d written ≡ (true, d, written)
unfolding write_sectors
write_sectors-stop zero s first intra size src d written h = refl
write_sectors-stop (suc n) s first intra size src d written h =
    rw (write_sectors, ge→ltb written size h) refl

write_sectors-pass :
    (n s first intra size : ℕ) (src : ℕ → ℕ) (d : Disk) (written : ℕ)
    → written < size
    → s * 512 + 512 ≤ intra
    → write_sectors (suc n) s first intra size src d written
      ≡ write_sectors n (s + 1) first intra size src d written
unfolding write_sectors
write_sectors-pass n s first intra size src d written h p =
    rw (write_sectors, lt→ltb written size h, le→leb (s * 512 + 512) intra p) refl

write_sectors-copy :
    {v : Volume} {total : ℕ} (n s first intra size : ℕ) (src : ℕ → ℕ) (d : Disk) (written : ℕ)
    → written < size
    → IsHealthy v total d
    → intra < s * 512 + 512
    → first + s < total
    → write_sectors (suc n) s first intra size src d written
      ≡ write_sectors n
          (s + 1)
          first
          intra
          size
          src
          (store
            (first + s)
            (blit
              (sector_offset intra s)
              written
              (copy_size (sector_offset intra s) (size - written))
              src
              (d.sectors (first + s)))
            d)
          (written + copy_size (sector_offset intra s) (size - written))
unfolding write_sectors
write_sectors-copy {total = total} n s first intra size src d written h good p inside =
    let at : add32 first s ≡ first + s = omega (arith, inside, good.bounded) in
    let on_disk : add32 first s < total = omega (arith, inside, at) in
    rw
      (
        write_sectors,
        lt→ltb written size h,
        gt→leb (s * 512 + 512) intra p,
        good.reads (add32 first s) on_disk,
        good.writes (add32 first s) on_disk,
        at,
        good.writes (first + s) inside,
      )
      refl

module _ (v : Volume) (total : ℕ) (t : ℕ → ℕ) (start limit offset size : ℕ) (src : ℕ → ℕ)
    (before : Disk) (stored : Stored v total t start limit) (simple : IsSimple v t start limit)
    (fits : offset + size ≤ limit) where
  abbrev pub Wrote : (base intra s : ℕ) → Bool × Disk × ℕ → Type 0
  Wrote base intra s r =
      (r.0 ≡ true) × Writing v total t start limit offset size src before base intra s r.2 r.1

  pub write_sectors-Writing :
      (n s k intra : ℕ) (d : Disk) (written : ℕ)
      → s + n ≡ v.sectors_per_cluster
      → data_sector v (follow t k start) + v.sectors_per_cluster ≤ total
      → Writing v total t start limit offset size src before
          (k * (v.sectors_per_cluster * 512))
          intra
          s
          written
          d
      → Wrote
          (k * (v.sectors_per_cluster * 512))
          intra
          v.sectors_per_cluster
          (write_sectors n s (data_sector v (follow t k start)) intra size src d written)
  unfolding write_sectors
  write_sectors-Writing zero s k intra d written e small w =
      let at : s ≡ v.sectors_per_cluster = omega (arith, e) in
      (
        refl,
        subst
            (λ i.
              Writing v total t start limit offset size src before
                (k * (v.sectors_per_cluster * 512)) intra i written d)
            at w,
      )
  write_sectors-Writing (suc n) s k intra d written e small w =
      let base = k * (v.sectors_per_cluster * 512) in
      let first = data_sector v (follow t k start) in
      elim (Bool-cases (ltb written size)) [
        | inr full ↦
            let enough = ltb→ge written size full in
            subst (Wrote base intra v.sectors_per_cluster)
              (sym (write_sectors-stop (suc n) s first intra size src d written enough))
              (
                refl,
                Writing-full v total t start limit offset size src before stored simple fits base
                    intra s base intra v.sectors_per_cluster written d enough w,
              )
        | inl short ↦
            let more = ltb→lt written size short in
            elim (Bool-cases (leb (s * 512 + 512) intra)) [
              | inl early ↦
                  let pass = leb→le (s * 512 + 512) intra early in
                  subst (Wrote base intra v.sectors_per_cluster)
                    (sym (write_sectors-pass n s first intra size src d written more pass))
                    (write_sectors-Writing n (s + 1) k intra d written (omega (arith, e)) small (
                      Writing-moves v total t start limit offset size src before stored simple fits
                        base intra s base intra (s + 1) written d (omega (arith, pass)) w))
              | inr late ↦
                  let near = leb→gt (s * 512 + 512) intra late in
                  subst (Wrote base intra v.sectors_per_cluster)
                    (sym (
                      write_sectors-copy n s first intra size src d written more w.healthy near
                        (omega (arith, e, small))))
                    (write_sectors-Writing n (s + 1) k intra _ _ (omega (arith, e)) small (
                      Writing-copy v total t start limit offset size src before stored simple fits k
                        s written intra d more (omega (arith, e)) near w))
            ]
      ]
