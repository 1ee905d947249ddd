-- ===== src/Fat16/File/Position.antt =====
-- How far a read of src/kernel/fs/fat16.c is: the bytes in the buffer, and the place in the cluster.
use szczupak_os.Fat16.File.{blit, sector_offset, copy_size}
use szczupak_os.Base.{
  ℕ, ◌+◌, ◌-◌, ◌*◌, ◌≤◌, ◌<◌, ◌≡◌, refl, ap, ◌∙◌, ◌⊎◌, inl, inr, arith, ltb, ltb→lt, ltb→ge,
  Bool-cases, if_elim,
}

pub sector_offset_eq : (intra s : ℕ) → sector_offset intra s ≡ intra - s * 512
unfolding sector_offset
sector_offset_eq intra s = ground arith

pub copy_size_le :
    (offset left : ℕ) → (copy_size offset left ≤ left) × (copy_size offset left ≤ 512 - offset)
unfolding copy_size
copy_size_le offset left = ground arith

pub copy_size_eq :
    (offset left : ℕ) → copy_size offset left ≡ left ⊎ copy_size offset left ≡ 512 - offset
unfolding copy_size
copy_size_eq offset left =
    if_elim (λ n. n ≡ left ⊎ n ≡ 512 - offset) (ltb left (512 - offset)) (inl refl) (inr refl)

pub blit_inside :
    (at start n : ℕ) (from to : ℕ → ℕ) (x : ℕ)
    → at ≤ x
    → x < at + n
    → blit at start n from to x ≡ from (start + (x - at))
blit_inside at start n from to x p q = ground arith

pub blit_outside :
    (at start n : ℕ) (from to : ℕ → ℕ) (x : ℕ)
    → x < at ⊎ at + n ≤ x
    → blit at start n from to x ≡ to x
blit_outside at start n from to x (inl p) = ground arith
blit_outside at start n from to x (inr p) = ground arith

-- A read of `want` bytes of a file from `offset` on that has reached sector `s` of the cluster that
-- starts at byte `base`, of which it wants the bytes from `intra` on.
pub record Reading (file : ℕ → ℕ) (offset want base intra : ℕ) (before : ℕ → ℕ) (s bytes_read : ℕ)
    (buffer : ℕ → ℕ) : Type 0 where
  pub bound : bytes_read ≤ want
  pub reached : bytes_read ≡ want ⊎ offset + bytes_read ≡ base + (intra + (s * 512 - intra))
  pub got : (x : ℕ) → x < bytes_read → buffer x ≡ file (offset + x)
  pub kept : (x : ℕ) → bytes_read ≤ x → buffer x ≡ before x

module _ (file : ℕ → ℕ) (offset want base intra : ℕ) (before : ℕ → ℕ) where
  -- The read after `bytes_read` bytes, at sector `s`.
  abbrev At : (s bytes_read : ℕ) → (ℕ → ℕ) → Type 0
  At s bytes_read buffer = Reading file offset want base intra before s bytes_read buffer

  pub Reading-full :
      (s s' bytes_read : ℕ) (buffer : ℕ → ℕ)
      → want ≤ bytes_read
      → At s bytes_read buffer
      → At s' bytes_read buffer
  Reading-full s s' bytes_read buffer h r = record {
    bound = r.bound;
    reached = inl (omega (arith, h, r.bound));
    got = r.got;
    kept = r.kept;
  }

  pub Reading-pass :
      (s bytes_read : ℕ) (buffer : ℕ → ℕ)
      → s * 512 + 512 ≤ intra
      → At s bytes_read buffer
      → At (s + 1) bytes_read buffer
  Reading-pass s bytes_read buffer h r = record {
    bound = r.bound;
    reached = elim r.reached [ inl e ↦ inl e | inr e ↦ inr (omega (arith, e, h)) ];
    got = r.got;
    kept = r.kept;
  }

  pub Reading-copy :
      (s bytes_read : ℕ) (buffer sector : ℕ → ℕ)
      → bytes_read < want
      → intra < s * 512 + 512
      → ((r : ℕ) → r < 512 → sector r ≡ file (base + s * 512 + r))
      → At s bytes_read buffer
      → At (s + 1) (bytes_read + copy_size (sector_offset intra s) (want - bytes_read)) (
          blit bytes_read
            (sector_offset intra s)
            (copy_size (sector_offset intra s) (want - bytes_read))
            sector
            buffer)
  Reading-copy s bytes_read buffer sector h near same r =
      let start = sector_offset_eq intra s in
      let (le_left, le_sector) = copy_size_le (sector_offset intra s) (want - bytes_read) in
      let reached : offset + bytes_read ≡ base + (intra + (s * 512 - intra)) = elim r.reached [
        | inl e ↦ absurd (omega (arith, e, h))
        | inr e ↦ e
      ] in
      record {
        bound = omega (arith, le_left, h);
        reached = elim (copy_size_eq (sector_offset intra s) (want - bytes_read)) [
          | inl e ↦ inl (omega (arith, e, h))
          | inr e ↦ inr (omega (arith, e, start, near, reached))
        ];
        got = λ x p. elim (Bool-cases (ltb x bytes_read)) [
          | inl old ↦
              blit_outside bytes_read _ _ sector buffer x (inl (ltb→lt x bytes_read old))
              ∙ r.got x (ltb→lt x bytes_read old)
          | inr new ↦
              let later = ltb→ge x bytes_read new in
              let at : base + s * 512 + (sector_offset intra s + (x - bytes_read)) ≡ offset + x =
                omega (arith, later, start, reached, near) in
              blit_inside bytes_read _ _ sector buffer x later p
              ∙ same _ (omega (arith, later, p, le_sector, start, near))
              ∙ ap file at
        ];
        kept = λ x p.
            blit_outside bytes_read _ _ sector buffer x (inr (omega (arith, p)))
            ∙ r.kept x (omega (arith, p));
      }
