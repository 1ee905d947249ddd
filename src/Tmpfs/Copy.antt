-- ===== src/Tmpfs/Copy.antt =====
-- The loops of src/kernel/fs/tmpfs.c that copy bytes.
use szczupak_os.Tmpfs.{copy_bytes}
use szczupak_os.Base.{
  ℕ, zero, suc, ◌+◌, ◌^◌, ◌≤◌, ◌<◌, ◌≡◌, refl, ap, ◌∙◌, ◌⊎◌, inl, inr, arith, ◌==◌, ==→eq, ==→ne,
  Bool-cases, update, update_self, update_ne, add64,
}

pub copy_bytes-before :
    (n i at start : ℕ) (from to : ℕ → ℕ) (x : ℕ)
    → at + i + n ≤ 2 ^ 64
    → x < at + i ⊎ at + i + n ≤ x
    → copy_bytes n i at start from to x ≡ to x
unfolding copy_bytes
copy_bytes-before zero i at start from to x h o = refl
copy_bytes-before (suc n) i at start from to x h o =
    copy_bytes-before n (i + 1) at start from (update to (add64 at i) (from (add64 start i))) x
      (omega (arith, h))
      (elim o [ inl low ↦ inl (omega (arith, low)) | inr high ↦ inr (omega (arith, high)) ])
    ∙ update_ne to (add64 at i) (from (add64 start i)) x
        (elim o [ inl low ↦ omega (arith, low, h) | inr high ↦ omega (arith, high, h) ])

-- Inside, the copied byte.
pub copy_bytes-inside :
    (n i at start : ℕ) (from to : ℕ → ℕ) (x : ℕ)
    → at + i + n ≤ 2 ^ 64
    → start + i + n ≤ 2 ^ 64
    → i ≤ x
    → x < i + n
    → copy_bytes n i at start from to (at + x) ≡ from (start + x)
unfolding copy_bytes
copy_bytes-inside zero i at start from to x h k p q = absurd (omega (arith, p, q))
copy_bytes-inside (suc n) i at start from to x h k p q =
    let to' = update to (add64 at i) (from (add64 start i)) in
    elim (Bool-cases (x == i)) [
      | inl e ↦
          let same = ==→eq x i e in
          let here : at + x ≡ add64 at i = omega (arith, same, h) in
          let there : add64 start i ≡ start + x = omega (arith, same, k) in
          copy_bytes-before n (i + 1) at start from to' (at + x) (omega (arith, h))
            (inl (omega (arith, same)))
          ∙ ap to' here
          ∙ update_self to (add64 at i) (from (add64 start i))
          ∙ ap from there
      | inr e ↦
          let other = ==→ne x i e in
          copy_bytes-inside n (i + 1) at start from to' x (omega (arith, h)) (omega (arith, k))
            (omega (arith, p, other)) (omega (arith, q))
    ]
