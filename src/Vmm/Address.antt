-- ===== src/Vmm/Address.antt =====
-- The translation of the addresses of one page by `vmm_get_physical` of src/kernel/mm/vmm.c.
use szczupak_os.Base.{
  ℕ, ◌+◌, ◌*◌, ◌/◌, ◌%◌, ◌^◌, ◌≡◌, refl, ap, ◌∙◌, ◌≢◌, inl, inr, Option, none, some, arith,
  Bool-cases, add64, align_down, Memory,
}
use szczupak_os.Vmm.{
  Directory, present, huge, translate, get_physical, entry, pml4_index, pdp_index, pd_index,
  pt_index,
}

-- A page-aligned sum of a block's start `b` and an offset in it.
block_page :
    (b r s v x : ℕ)
    → b % 4096 ≡ 0
    → r / 4096 ≡ s / 4096
    → r % 4096 ≡ x % 4096
    → add64 b r ≡ align_down (add64 b s) + x % 4096
block_page b r s v x aligned same low = omega arith

giant_page :
    (e v x : ℕ)
    → x / 4096 ≡ v / 4096
    → add64 (e / 2 ^ 30 * 2 ^ 30) (x % 2 ^ 30)
      ≡ align_down (add64 (e / 2 ^ 30 * 2 ^ 30) (v % 2 ^ 30)) + x % 4096
giant_page e v x same =
    block_page (e / 2 ^ 30 * 2 ^ 30) (x % 2 ^ 30) (v % 2 ^ 30) v x (omega arith) (omega arith)
      (omega arith)

huge_page :
    (e v x : ℕ)
    → x / 4096 ≡ v / 4096
    → add64 (e / 2 ^ 21 * 2 ^ 21) (x % 2 ^ 21)
      ≡ align_down (add64 (e / 2 ^ 21 * 2 ^ 21) (v % 2 ^ 21)) + x % 4096
huge_page e v x same =
    block_page (e / 2 ^ 21 * 2 ^ 21) (x % 2 ^ 21) (v % 2 ^ 21) v x (omega arith) (omega arith)
      (omega arith)

small_page :
    (e v x : ℕ)
    → add64 (align_down e) (x % 4096) ≡ align_down (add64 (align_down e) (v % 4096)) + x % 4096
small_page e v x =
    block_page (align_down e) (x % 4096) (v % 4096) v x (omega arith) (omega arith) (omega arith)

translate-page :
    (e4 e3 e2 e1 v x : ℕ)
    → x / 4096 ≡ v / 4096
    → translate e4 e3 e2 e1 v ≢ 0
    → translate e4 e3 e2 e1 x ≡ align_down (translate e4 e3 e2 e1 v) + x % 4096
translate-page e4 e3 e2 e1 v x same = elim (Bool-cases (present e4)) [
  | inr p ↦ rw p (λ h. absurd (h refl))
  | inl p ↦ elim (Bool-cases (present e3)) [
    | inr q ↦ rw (p, q) (λ h. absurd (h refl))
    | inl q ↦ elim (Bool-cases (huge e3)) [
      | inl r ↦ rw (p, q, r) (λ h. giant_page e3 v x same)
      | inr r ↦ elim (Bool-cases (present e2)) [
        | inr t ↦ rw (p, q, r, t) (λ h. absurd (h refl))
        | inl t ↦ elim (Bool-cases (huge e2)) [
          | inl u ↦ rw (p, q, r, t, u) (λ h. huge_page e2 v x same)
          | inr u ↦ elim (Bool-cases (present e1)) [
            | inr w ↦ rw (p, q, r, t, u, w) (λ h. absurd (h refl))
            | inl w ↦ rw (p, q, r, t, u, w) (λ h. small_page e1 v x)
          ]
        ]
      ]
    ]
  ]
]

-- The bytes of a page stand behind each other.
pub get_physical-page :
    (d : Option Directory) (v x : ℕ) (m : Memory)
    → x / 4096 ≡ v / 4096
    → get_physical d v m ≢ 0
    → get_physical d x m ≡ align_down (get_physical d v m) + x % 4096
unfolding get_physical
get_physical-page none v x m same h = absurd (h refl)
get_physical-page (some d) v x m same h =
    let a = align_down v in
    let e4 = entry m d.pml4_phys (pml4_index a) in
    let e3 = entry m (align_down e4) (pdp_index a) in
    let e2 = entry m (align_down e3) (pd_index a) in
    let e1 = entry m (align_down e2) (pt_index a) in
    let moved : get_physical (some d) x m ≡ translate e4 e3 e2 e1 x =
      ap
        (λ k.
          translate (entry m d.pml4_phys (pml4_index (k * 4096)))
            (entry m (align_down (entry m d.pml4_phys (pml4_index (k * 4096))))
              (pdp_index (k * 4096)))
            (entry m
              (align_down (
                entry m (align_down (entry m d.pml4_phys (pml4_index (k * 4096))))
                  (pdp_index (k * 4096))))
              (pd_index (k * 4096)))
            (entry m
              (align_down (
                entry m
                  (align_down (
                    entry m (align_down (entry m d.pml4_phys (pml4_index (k * 4096))))
                      (pdp_index (k * 4096))))
                  (pd_index (k * 4096))))
              (pt_index (k * 4096)))
            x)
        same in
    moved ∙ translate-page e4 e3 e2 e1 v x same h
