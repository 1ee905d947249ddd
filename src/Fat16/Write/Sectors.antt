-- ===== src/Fat16/Write/Sectors.antt =====
-- The loop of `fat16_write` of src/kernel/fs/fat16.c over the sectors of a cluster.
use szczupak_os.Fat16.Allocate.{data_sector}
use szczupak_os.Fat16.File.Position.{copy_size_le, sector_offset_eq, blit_inside, blit_outside}
use szczupak_os.Fat16.Write.Place.{store-Holds, blit-more, content-store, sector_at, IsSimple}
use szczupak_os.Fat16.Place.{Holds, IsHealthy}
use szczupak_os.Fat16.Table.{store-IsHealthy, store}
use szczupak_os.Fat16.File.Sectors.{mod-position, div-position, follow, content, Stored}
use szczupak_os.Fat16.{Disk, Volume}
use szczupak_os.Fat16.File.{sector_offset, copy_size, blit}
use szczupak_os.Fat16.File.Position.{copy_size_eq}
use native.Mathlib.Nat.{mul_assoc}
use szczupak_os.Base.{
  ℕ, ◌+◌, ◌-◌, ◌*◌, ◌/◌, ◌%◌, ◌≤◌, ◌<◌, ◌≡◌, sym, ap, ap₂, ◌∙◌, subst, ◌≢◌, ◌⊎◌, inl, inr, arith,
  ltb, ◌==◌, ltb→lt, ltb→ge, ==→eq, ==→ne, Bool-cases, if_true, if_false, update_ne,
}

-- A write of `size` bytes of `src` to a file from `offset` on, in place, that has reached sector `s`
-- of the cluster that starts at byte `base`, of which it writes the bytes from `intra` on. The file
-- has clusters for `limit` bytes.
pub record Writing (v : Volume) (total : ℕ) (t : ℕ → ℕ) (start limit offset size : ℕ) (src : ℕ → ℕ)
    (before : Disk) (base intra s written : ℕ) (d : Disk) : Type 0 where
  pub healthy : IsHealthy v total d
  pub holds : Holds v t d
  pub bound : written ≤ size
  pub reached : written ≡ size ⊎ offset + written ≡ base + (intra + (s * 512 - intra))
  pub file :
      (p : ℕ)
      → p < limit
      → content v t d start p ≡ blit offset 0 written src (content v t before start) p
  pub others :
      (lba : ℕ)
      → ((i : ℕ) → i * 512 < limit → lba ≢ sector_at v t start i)
      → d.sectors lba ≡ before.sectors lba

module _ (v : Volume) (total : ℕ) (t : ℕ → ℕ) (start limit offset size : ℕ) (src : ℕ → ℕ)
    (before : Disk) (stored : Stored v total t start limit) (simple : IsSimple v t start limit)
    (fits : offset + size ≤ limit) where
  -- The write after `written` bytes, at sector `s`.
  abbrev pub InPlace : (base intra s written : ℕ) → Disk → Type 0
  InPlace base intra s written d =
      Writing v total t start limit offset size src before base intra s written d

  pub Writing-full :
      (base intra s base' intra' s' written : ℕ) (d : Disk)
      → size ≤ written
      → InPlace base intra s written d
      → InPlace base' intra' s' written d
  Writing-full base intra s base' intra' s' written d h w = record {
    healthy = w.healthy;
    holds = w.holds;
    bound = w.bound;
    reached = inl (omega (arith, h, w.bound));
    file = w.file;
    others = w.others;
  }

  pub Writing-moves :
      (base intra s base' intra' s' written : ℕ) (d : Disk)
      → base + (intra + (s * 512 - intra)) ≡ base' + (intra' + (s' * 512 - intra'))
      → InPlace base intra s written d
      → InPlace base' intra' s' written d
  Writing-moves base intra s base' intra' s' written d h w = record {
    healthy = w.healthy;
    holds = w.holds;
    bound = w.bound;
    reached = elim w.reached [ inl e ↦ inl e | inr e ↦ inr (e ∙ h) ];
    file = w.file;
    others = w.others;
  }

  -- The sector that the step writes.
  abbrev overlaid : (offset' written part : ℕ) → (ℕ → ℕ) → ℕ → ℕ
  overlaid offset' written part sector = blit offset' written part src sector

  overlaid-sector :
      (i first written part : ℕ) (d : Disk) (p : ℕ)
      → first + part ≤ 512
      → offset + written ≡ i * 512 + first
      → content v t d start p ≡ blit offset 0 written src (content v t before start) p
      → p / 512 ≡ i
      → overlaid first written part (d.sectors (sector_at v t start i)) (p % 512)
        ≡ blit offset 0 (written + part) src (content v t before start) p
  unfolding content
  overlaid-sector i first written part d p room at old same =
      let sector = d.sectors (sector_at v t start i) in
      let kept = sym (ap (λ j. d.sectors (sector_at v t start j) (p % 512)) same) ∙ old in
      elim (Bool-cases (ltb (p % 512) first)) [
        | inl low ↦
            let less = ltb→lt (p % 512) first low in
            blit_outside first written part src sector (p % 512) (inl less)
            ∙ kept
            ∙ sym (
                blit-more offset written part src (content v t before start) p
                  (inl (omega (arith, less, at, same))))
        | inr high ↦
            let le = ltb→ge (p % 512) first high in
            elim (Bool-cases (ltb (p % 512) (first + part))) [
              | inl near ↦
                  let inside = ltb→lt (p % 512) (first + part) near in
                  let from : written + (p % 512 - first) ≡ 0 + (p - offset) =
                    omega (arith, le, at, same) in
                  blit_inside first written part src sector (p % 512) le inside
                  ∙ ap src from
                  ∙ sym (
                      blit_inside offset 0 (written + part) src (content v t before start) p
                        (omega (arith, le, at, same)) (omega (arith, inside, at, same)))
              | inr far ↦
                  let beyond = ltb→ge (p % 512) (first + part) far in
                  blit_outside first written part src sector (p % 512) (inr beyond)
                  ∙ kept
                  ∙ sym (
                      blit-more offset written part src (content v t before start) p
                        (inr (omega (arith, beyond, at, same))))
            ]
      ]

  overlaid-file :
      (i first written part : ℕ) (d : Disk) (p : ℕ)
      → i * 512 < limit
      → p < limit
      → first + part ≤ 512
      → offset + written ≡ i * 512 + first
      → content v t d start p ≡ blit offset 0 written src (content v t before start) p
      → content v t
          (store
            (sector_at v t start i)
            (overlaid first written part (d.sectors (sector_at v t start i)))
            d)
          start
          p
        ≡ blit offset 0 (written + part) src (content v t before start) p
  unfolding content
  overlaid-file i first written part d p inside h room at old =
      content-store v total t start limit stored simple i
        (overlaid first written part (d.sectors (sector_at v t start i))) d p inside h
      ∙ elim (Bool-cases (p / 512 == i)) [
        | inl e ↦
            let same = ==→eq (p / 512) i e in
            if_true (p / 512 == i) _ _ e ∙ overlaid-sector i first written part d p room at old same
        | inr e ↦
            let other = ==→ne (p / 512) i e in
            if_false (p / 512 == i) _ _ e
            ∙ old
            ∙ sym (
                blit-more offset written part src (content v t before start) p
                  (elim (Bool-cases (ltb p (offset + written))) [
                    | inl low ↦ inl (ltb→lt p (offset + written) low)
                    | inr high ↦
                        inr (omega (arith, ltb→ge p (offset + written) high, at, room, other))
                  ]))
      ]

  pub Writing-copy :
      (k s written : ℕ) (intra : ℕ) (d : Disk)
      → written < size
      → s < v.sectors_per_cluster
      → intra < s * 512 + 512
      → InPlace (k * (v.sectors_per_cluster * 512)) intra s written d
      → InPlace
          (k * (v.sectors_per_cluster * 512))
          intra
          (s + 1)
          (written + copy_size (sector_offset intra s) (size - written))
          (store
            (data_sector v (follow t k start) + s)
            (overlaid
              (sector_offset intra s)
              written
              (copy_size (sector_offset intra s) (size - written))
              (d.sectors (data_sector v (follow t k start) + s)))
            d)
  Writing-copy k s written intra d h inside near w =
      let n = v.sectors_per_cluster in
      let first = sector_offset intra s in
      let part = copy_size first (size - written) in
      let at : data_sector v (follow t k start) + s ≡ sector_at v t start (k * n + s) = sym (
        ap₂ (λ c i. data_sector v (follow t c start) + i) (div-position k n s inside)
          (mod-position k n s inside)) in
      let scaled : k * (n * 512) ≡ k * n * 512 = sym (mul_assoc k n 512) in
      let begins = sector_offset_eq intra s in
      let (le_left, le_sector) = copy_size_le first (size - written) in
      let reached : offset + written ≡ k * (n * 512) + (intra + (s * 512 - intra)) =
        elim w.reached [ inl e ↦ absurd (omega (arith, e, h)) | inr e ↦ e ] in
      let here : (k * n + s) * 512 < limit = omega (arith, scaled, reached, fits, h) in
      subst
        (λ lba.
          InPlace (k * (n * 512)) intra (s + 1) (written + part)
            (store lba (overlaid first written part (d.sectors lba)) d))
        (sym at)
        (record {
          healthy = store-IsHealthy v _ _ d w.healthy;
          holds = store-Holds v total t start limit stored simple (k * n + s) _ d here w.holds;
          bound = omega (arith, le_left, h);
          reached = elim (copy_size_eq first (size - written)) [
            | inl e ↦ inl (omega (arith, e, h))
            | inr e ↦ inr (omega (arith, e, begins, near, reached))
          ];
          file = λ p q.
              overlaid-file (k * n + s) first written part d p here q
                (omega (arith, le_sector, begins, near)) (omega (arith, reached, scaled, begins))
                (w.file p q);
          others = λ lba o.
              update_ne d.sectors (sector_at v t start (k * n + s)) _ lba (o (k * n + s) here)
              ∙ w.others lba o;
        })
