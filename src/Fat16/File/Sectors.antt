-- ===== src/Fat16/File/Sectors.antt =====
-- A file of a FAT16 volume, src/kernel/fs/fat16.c, as the bytes along its chain of clusters, and the
-- loop of `fat16_read` over the sectors of a cluster.
use szczupak_os.Fat16.Place.{entries, IsHealthy}
use szczupak_os.Fat16.File.Position.{Reading-copy, Reading-pass, Reading-full, Reading}
use szczupak_os.Fat16.Allocate.{HasCluster, data_sector}
use native.Mathlib.Nat.{div-eq_of_lt-le, div-add-mod', mul_assoc}
use szczupak_os.Fat16.File.{
  blit, sector_offset, copy_size, ends, Volume, Progress, Disk, read_sectors,
}
use szczupak_os.Base.{
  ℕ, zero, suc, ◌+◌, ◌-◌, ◌*◌, ◌/◌, ◌%◌, ◌≤◌, ◌<◌, ◌≡◌, refl, sym, ap, ap₂, ◌∙◌, subst, inl, inr,
  true, false, arith, ltb, leb, ltb→lt, ltb→ge, lt→ltb, ge→ltb, leb→le, leb→gt, le→leb, gt→leb,
  Bool-cases, add32,
}

-- Cluster number `k` of the chain that starts at `c`.
unfoldable pub follow : (t : ℕ → ℕ) (k c : ℕ) → ℕ
follow t zero c = c
follow t (suc k) c = t (follow t k c)

-- Byte `p` of the file whose chain starts at `start`.
unfoldable pub content : Volume → (t : ℕ → ℕ) → Disk → (start p : ℕ) → ℕ
content v t d start p =
    d.sectors
      (data_sector v (follow t (p / 512 / v.sectors_per_cluster) start)
        + p / 512 % v.sectors_per_cluster)
      (p % 512)

-- The chain from `start` on has clusters on the disk for `size` bytes.
unfoldable pub Stored : Volume → (total : ℕ) → (t : ℕ → ℕ) → (start size : ℕ) → Type 0
Stored v total t start size =
    (k : ℕ)
    → k * (v.sectors_per_cluster * 512) < size
    → (ends (follow t k start) ≡ false)
      × (follow t k start < entries v)
      × HasCluster v total (follow t k start)

pub div-position : (k n s : ℕ) → s < n → (k * n + s) / n ≡ k
div-position k n s h = div-eq_of_lt-le {k = k} n {m = k * n + s} (omega arith) (omega arith)

pub mod-position : (k n s : ℕ) → s < n → (k * n + s) % n ≡ s
mod-position k n s h =
    let whole = div-add-mod' (k * n + s) n in
    let part = ap (λ q. q * n) (div-position k n s h) in omega (arith, whole, part)

pub content-sector :
    (v : Volume) (t : ℕ → ℕ) (d : Disk) (start k s r : ℕ)
    → s < v.sectors_per_cluster
    → r < 512
    → content v t d start (k * (v.sectors_per_cluster * 512) + s * 512 + r)
      ≡ d.sectors (data_sector v (follow t k start) + s) r
unfolding content
content-sector v t d start k s r p q =
    let n = v.sectors_per_cluster in
    let p' = k * (n * 512) + s * 512 + r in
    let scaled : k * (n * 512) ≡ k * n * 512 = sym (mul_assoc k n 512) in
    let whole : p' / 512 ≡ k * n + s = omega (arith, scaled, q) in
    let part : p' % 512 ≡ r = omega (arith, scaled, q) in
    let cluster = ap (λ x. x / n) whole ∙ div-position k n s p in
    let sector = ap (λ x. x % n) whole ∙ mod-position k n s p in
    ap₂ d.sectors (ap₂ (λ c i. data_sector v (follow t c start) + i) cluster sector) part

read_sectors-stop :
    (n s first intra want : ℕ) (d : Disk) (bytes_read : ℕ) (buffer : ℕ → ℕ)
    → want ≤ bytes_read
    → read_sectors n s first intra want d bytes_read buffer ≡ (true, bytes_read, buffer)
unfolding read_sectors
read_sectors-stop zero s first intra want d bytes_read buffer h = refl
read_sectors-stop (suc n) s first intra want d bytes_read buffer h =
    rw (read_sectors, ge→ltb bytes_read want h) refl

read_sectors-pass :
    {v : Volume} {total : ℕ} (n s first intra want : ℕ) (d : Disk) (bytes_read : ℕ) (buffer : ℕ → ℕ)
    → bytes_read < want
    → IsHealthy v total d
    → s * 512 + 512 ≤ intra
    → first + s < total
    → read_sectors (suc n) s first intra want d bytes_read buffer
      ≡ read_sectors n (s + 1) first intra want d bytes_read buffer
unfolding read_sectors
read_sectors-pass {total = total} n s first intra want d bytes_read buffer h good p inside =
    let on_disk : add32 first s < total = omega (arith, inside, good.bounded) in
    rw
      (
        read_sectors,
        lt→ltb bytes_read want h,
        good.reads (add32 first s) on_disk,
        le→leb (s * 512 + 512) intra p,
      )
      refl

read_sectors-copy :
    {v : Volume} {total : ℕ} (n s first intra want : ℕ) (d : Disk) (bytes_read : ℕ) (buffer : ℕ → ℕ)
    → bytes_read < want
    → IsHealthy v total d
    → intra < s * 512 + 512
    → first + s < total
    → read_sectors (suc n) s first intra want d bytes_read buffer
      ≡ read_sectors n
          (s + 1)
          first
          intra
          want
          d
          (bytes_read + copy_size (sector_offset intra s) (want - bytes_read))
          (blit bytes_read
            (sector_offset intra s)
            (copy_size (sector_offset intra s) (want - bytes_read))
            (d.sectors (first + s))
            buffer)
unfolding read_sectors
read_sectors-copy {total = total} n s first intra want d bytes_read buffer h good p inside =
    let at : add32 first s ≡ first + s = omega (arith, inside, good.bounded) in
    let on_disk : add32 first s < total = omega (arith, inside, at) in
    rw
      (
        read_sectors,
        lt→ltb bytes_read want h,
        good.reads (add32 first s) on_disk,
        gt→leb (s * 512 + 512) intra p,
        at,
      )
      refl

module _ (file : ℕ → ℕ) (offset want base intra : ℕ) (before : ℕ → ℕ) (last : ℕ) where
  abbrev pub Arrived : Progress → Type 0
  Arrived r = (r.0 ≡ true) × Reading file offset want base intra before last r.1 r.2

  pub read_sectors-Reading :
      {v : Volume} {total : ℕ} (n s first : ℕ) (d : Disk) (bytes_read : ℕ) (buffer : ℕ → ℕ)
      → IsHealthy v total d
      → s + n ≡ last
      → first + last ≤ total
      → ((i r : ℕ) → i < last → r < 512 → d.sectors (first + i) r ≡ file (base + i * 512 + r))
      → Reading file offset want base intra before s bytes_read buffer
      → Arrived (read_sectors n s first intra want d bytes_read buffer)
  unfolding read_sectors
  read_sectors-Reading zero s first d bytes_read buffer good e h same r =
      let at : s ≡ last = omega (arith, e) in
      (refl, subst (λ i. Reading file offset want base intra before i bytes_read buffer) at r)
  read_sectors-Reading (suc n) s first d bytes_read buffer good e h same r =
      elim (Bool-cases (ltb bytes_read want)) [
        | inr full ↦
            let enough = ltb→ge bytes_read want full in
            subst Arrived
              (sym (read_sectors-stop (suc n) s first intra want d bytes_read buffer enough))
              (
                refl,
                Reading-full file offset want base intra before s last bytes_read buffer enough r,
              )
        | inl short ↦
            let more = ltb→lt bytes_read want short in
            elim (Bool-cases (leb (s * 512 + 512) intra)) [
              | inl early ↦
                  let pass = leb→le (s * 512 + 512) intra early in
                  subst Arrived
                    (sym (
                      read_sectors-pass n s first intra want d bytes_read buffer more good pass
                        (omega (arith, e, h))))
                    (read_sectors-Reading n (s + 1) first d bytes_read buffer good
                      (omega (arith, e)) h same
                      (Reading-pass file offset want base intra before s bytes_read buffer pass r))
              | inr late ↦
                  let near = leb→gt (s * 512 + 512) intra late in
                  subst Arrived
                    (sym (
                      read_sectors-copy n s first intra want d bytes_read buffer more good near
                        (omega (arith, e, h))))
                    (read_sectors-Reading n (s + 1) first d _ _ good (omega (arith, e)) h same (
                      Reading-copy file offset want base intra before s bytes_read buffer
                        (d.sectors (first + s)) more near (λ i p. same s i (omega (arith, e)) p) r))
            ]
      ]
