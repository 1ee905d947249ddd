-- ===== src/Vmm/Entry.antt =====
-- The entries of page tables in src/kernel/mm/vmm.c: reading behind writing, and the flags.
use szczupak_os.Base.{
  ℕ, ◌+◌, ◌*◌, ◌/◌, ◌%◌, ◌^◌, ◌≤◌, ◌<◌, ◌≡◌, refl, sym, ap, ◌∙◌, subst, ◌≢◌, ◌⊎◌, inl, inr, true,
  false, ◌&&◌, arith, ltb, leb, ◌==◌, ltb→lt, ltb→ge, lt→ltb, le→leb, ==→eq, ==→ne, Bool-cases,
  if_elim, align_down, bit_or, has_bit, bit_or-zero, bit_or_frame, bit_or_odd, Memory, read64,
  read64-write64, read64_frame, read64-write64_ne, bit_or_128, AreBytes, read64-lt,
  write64-AreBytes,
}
use szczupak_os.Pmm.{memset}
use szczupak_os.Pmm.Alloc.{memset_lem}
use szczupak_os.Vmm.{present, huge, entry, set_entry, grant}

pub entry-set_entry : (t i v : ℕ) (m : Memory) → v < 2 ^ 64 → entry (set_entry t i v m) t i ≡ v
unfolding entry set_entry
entry-set_entry t i v m h = read64-write64 (t + 8 * i) v m h

-- Two tables are the same or do not overlap.
abbrev pub IsTable : ℕ → Type 0
IsTable t = t % 4096 ≡ 0

tables_apart :
    (t i u j : ℕ)
    → IsTable t
    → IsTable u
    → i < 512
    → j < 512
    → u ≢ t
    → (u + 8 * j + 8 ≤ t + 8 * i) ⊎ (t + 8 * i + 8 ≤ u + 8 * j)
tables_apart t i u j a b p q ne = elim (Bool-cases (ltb u t)) [
  | inl e ↦ (let lt = ltb→lt u t e in inl (omega arith))
  | inr e ↦ (let ge = ltb→ge u t e in inr (omega arith))
]

apart :
    (t i u j : ℕ)
    → IsTable t
    → IsTable u
    → i < 512
    → j < 512
    → (u ≢ t) ⊎ (j ≢ i)
    → (u + 8 * j + 8 ≤ t + 8 * i) ⊎ (t + 8 * i + 8 ≤ u + 8 * j)
apart t i u j a b p q (inl ne) = tables_apart t i u j a b p q ne
apart t i u j a b p q (inr ne) = elim (Bool-cases (u == t)) [
  | inl e ↦
      let same = ==→eq u t e in
      elim (Bool-cases (ltb j i)) [
        | inl f ↦ (let lt = ltb→lt j i f in inl (omega arith))
        | inr f ↦ (let ge = ltb→ge j i f in inr (omega arith))
      ]
  | inr e ↦ tables_apart t i u j a b p q (==→ne u t e)
]

pub entry-set_entry_ne :
    (t i v u j : ℕ) (m : Memory)
    → IsTable t
    → IsTable u
    → i < 512
    → j < 512
    → (u ≢ t) ⊎ (j ≢ i)
    → entry (set_entry t i v m) u j ≡ entry m u j
unfolding entry set_entry
entry-set_entry_ne t i v u j m a b p q ne =
    read64-write64_ne (t + 8 * i) v (u + 8 * j) m (apart t i u j a b p q ne)

-- The entries of a table are what its page holds.
pub entry_page :
    (u j : ℕ) (m m' : Memory)
    → j < 512
    → ((x : ℕ) → u ≤ x → x < u + 4096 → m' x ≡ m x)
    → entry m' u j ≡ entry m u j
unfolding entry
entry_page u j m m' q h = read64_frame (u + 8 * j) m m' (λ x a b. h x (omega arith) (omega arith))

pub entry-lt : (m : Memory) (t i : ℕ) → AreBytes m → entry m t i < 2 ^ 64
unfolding entry
entry-lt m t i b = read64-lt m (t + 8 * i) b

pub set_entry-AreBytes : (t i v : ℕ) (m : Memory) → AreBytes m → AreBytes (set_entry t i v m)
unfolding set_entry
set_entry-AreBytes t i v m b = write64-AreBytes (t + 8 * i) v m b

pub memset-AreBytes : (p n : ℕ) (m : Memory) → AreBytes m → AreBytes (memset p 0 n m)
memset-AreBytes p n m b a = rw (memset_lem n p 0 m a) (ground (arith, b a))

entry_zero : (t i : ℕ) → entry (λ _. 0) t i ≡ 0
unfolding entry read64
entry_zero t i = refl

-- A page that is cleared has no entries.
pub entry-memset : (p j : ℕ) (m : Memory) → j < 512 → entry (memset p 0 4096 m) p j ≡ 0
entry-memset p j m q =
    entry_page p j (λ _. 0) (memset p 0 4096 m) q
      (λ x a b. memset_lem 4096 p 0 m x ∙ rw (le→leb p x a, lt→ltb x (p + 4096) b) refl)
    ∙ entry_zero p j

pub entry-memset_ne :
    (p u j : ℕ) (m : Memory)
    → IsTable p
    → IsTable u
    → j < 512
    → u ≢ p
    → entry (memset p 0 4096 m) u j ≡ entry m u j
entry-memset_ne p u j m a b q ne = entry_page u j m (memset p 0 4096 m) q (λ x low high.
    elim (Bool-cases (leb p x && ltb x (p + 4096))) [
      | inl e ↦ (let (f, g) : (p ≤ x) × (x < p + 4096) = ground arith in absurd (omega arith))
      | inr e ↦ memset_lem 4096 p 0 m x ∙ rw e refl
    ])

-- `e'` leads where `e` does.
pub record Like (e e' : ℕ) : Type 0 where
  pub frame : align_down e' ≡ align_down e
  pub is_present : present e' ≡ present e
  pub is_huge : huge e' ≡ huge e

pub Like-refl : (e : ℕ) → Like e e
Like-refl e = record { frame = refl; is_present = refl; is_huge = refl }

pub Like-eq : {e e' : ℕ} → e' ≡ e → Like e e'
Like-eq {e} q = rw q (Like-refl e)

pub Like-trans : (e f g : ℕ) → Like e f → Like f g → Like e g
Like-trans e f g a b = record {
  frame = b.frame ∙ a.frame;
  is_present = b.is_present ∙ a.is_present;
  is_huge = b.is_huge ∙ a.is_huge;
}

pub bit_or-frame : (e flag : ℕ) → flag < 4096 → bit_or e flag / 4096 ≡ e / 4096
bit_or-frame e flag h =
    let zero_frame : flag / 4096 ≡ 0 = omega arith in
    bit_or_frame e flag ∙ rw zero_frame (bit_or-zero (e / 4096))

flag-Like : (e flag : ℕ) → flag < 128 → flag % 2 ≡ 0 → Like e (bit_or e flag)
flag-Like e flag h even =
    let no_128 : flag / 128 ≡ 0 = omega arith in
    let top : bit_or e flag / 128 ≡ e / 128 =
      bit_or_128 e flag ∙ rw no_128 (bit_or-zero (e / 128)) in
    let odd = bit_or_odd e flag in
    let low : bit_or e flag % 2 ≡ e % 2 = omega arith in
    record {
      frame = ap (λ k. k * 4096) (bit_or-frame e flag (omega arith));
      is_present = ap (λ k. k == 1) (omega arith);
      is_huge = ap (λ k. k % 2 == 1) top;
    }

pub bit_or_flag-lt : (e flag : ℕ) → flag < 4096 → e < 2 ^ 64 → bit_or e flag < 2 ^ 64
bit_or_flag-lt e flag h k = omega (arith, bit_or-frame e flag h)

-- The entry that leads to a new table at `p`.
pub new_entry :
    (p flags : ℕ)
    → IsTable p
    → flags < 128
    → flags % 2 ≡ 1
    → (present (bit_or p flags) ≡ true)
      × (huge (bit_or p flags) ≡ false)
      × (align_down (bit_or p flags) ≡ p)
new_entry p flags a h odd =
    let no_128 : flags / 128 ≡ 0 = omega arith in
    let top : bit_or p flags / 128 ≡ p / 128 =
      bit_or_128 p flags ∙ rw no_128 (bit_or-zero (p / 128)) in
    let frame = bit_or-frame p flags (omega arith) in
    let low = bit_or_odd p flags in
    let one : bit_or p flags / 1 % 2 ≡ 1 = omega arith in
    let even : bit_or p flags / 128 % 2 ≡ 0 = omega arith in
    (rw one refl, rw even refl, omega arith)

pub grant-AreBytes : (flag t i : ℕ) (m : Memory) → AreBytes m → AreBytes (grant flag t i m)
grant-AreBytes flag t i m b =
    if_elim AreBytes (has_bit flag (entry m t i)) b
      (set_entry-AreBytes t i (bit_or (entry m t i) flag) m b)

set-Like :
    (flag t i u j : ℕ) (m : Memory)
    → flag < 128
    → flag % 2 ≡ 0
    → AreBytes m
    → IsTable t
    → IsTable u
    → i < 512
    → j < 512
    → Like (entry m u j) (entry (set_entry t i (bit_or (entry m t i) flag) m) u j)
set-Like flag t i u j m small even b a c p q = elim (Bool-cases (u == t && j == i)) [
  | inr e ↦
      let ne : (u ≢ t) ⊎ (j ≢ i) = elim (Bool-cases (u == t)) [
        | inl f ↦ inr (==→ne j i (rw f at e))
        | inr f ↦ inl (==→ne u t f)
      ] in
      Like-eq (entry-set_entry_ne t i (bit_or (entry m t i) flag) u j m a c p q ne)
  | inl e ↦
      let (same_table, same_index) : (u ≡ t) × (j ≡ i) = ground arith in
      let v = bit_or (entry m t i) flag in
      let stored : entry (set_entry t i v m) t i ≡ v =
        entry-set_entry t i v m
          (bit_or_flag-lt (entry m t i) flag (omega arith) (entry-lt m t i b)) in
      let here : Like (entry m t i) (entry (set_entry t i v m) t i) =
        subst (Like (entry m t i)) (sym stored) (flag-Like (entry m t i) flag small even) in
      subst (λ y. Like (entry m u y) (entry (set_entry t i v m) u y)) (sym same_index)
        (subst (λ x. Like (entry m x i) (entry (set_entry t i v m) x i)) (sym same_table) here)
]

-- After a flag is granted every entry leads where it did.
pub grant-Like :
    (flag t i u j : ℕ) (m : Memory)
    → flag < 128
    → flag % 2 ≡ 0
    → AreBytes m
    → IsTable t
    → IsTable u
    → i < 512
    → j < 512
    → Like (entry m u j) (entry (grant flag t i m) u j)
grant-Like flag t i u j m small even b a c p q =
    if_elim (λ n. Like (entry m u j) (entry n u j)) (has_bit flag (entry m t i))
      (Like-refl (entry m u j)) (set-Like flag t i u j m small even b a c p q)

-- The entry that `vmm_map_page` stores for the page at `p`.
pub leaf_entry :
    (p flags : ℕ)
    → p % 4096 ≡ 0
    → p < 2 ^ 52
    → let e = bit_or (bit_or (p / 4096 % 2 ^ 40 * 4096) (flags % 4096)) 1 in
      (present e ≡ true) × (align_down e ≡ p) × (e < 2 ^ 64)
leaf_entry p flags a b =
    let base : p / 4096 % 2 ^ 40 * 4096 ≡ p = omega arith in
    let inner = bit_or-frame (p / 4096 % 2 ^ 40 * 4096) (flags % 4096) (omega arith) in
    let outer = bit_or-frame (bit_or (p / 4096 % 2 ^ 40 * 4096) (flags % 4096)) 1 (omega arith) in
    let low = bit_or_odd (bit_or (p / 4096 % 2 ^ 40 * 4096) (flags % 4096)) 1 in
    let one : bit_or (bit_or (p / 4096 % 2 ^ 40 * 4096) (flags % 4096)) 1 / 1 % 2 ≡ 1 =
      omega arith in
    (rw one refl, omega arith, omega arith)
