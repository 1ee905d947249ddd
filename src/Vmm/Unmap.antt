-- ===== src/Vmm/Unmap.antt =====
-- `vmm_unmap_page` of src/kernel/mm/vmm.c: the page it takes is not translated any more.
use szczupak_os.Vmm.Path.{pointers_plain}
use szczupak_os.Vmm.Entry.{set_entry-AreBytes, entry-set_entry_ne, entry-set_entry, IsTable}
use szczupak_os.Vmm.Tables.{Child, IsTables}
use szczupak_os.Vmm.{
  unmap_page, pt_index, pml4_index, pdp_index, pd_index, huge, set_entry, get_physical, present,
  entry, Directory,
}
use szczupak_os.Pmm.{Pmm}
use szczupak_os.Base.{
  Bool, ℕ, suc, ◌<◌, ◌≡◌, refl, sym, ap, ap₂, ◌∙◌, subst, ◌≢◌, ◌⊎◌, inl, inr, true, false, ◌&&◌,
  some, arith, ◌==◌, ==→ne, Bool-cases, align_down, Memory,
}

zero_entry : (t i : ℕ) (m : Memory) → entry (set_entry t i 0 m) t i ≡ 0
zero_entry t i m = entry-set_entry t i 0 m (omega arith)

no_entry : present 0 ≡ false
no_entry = refl

-- An entry that is cleared leads nowhere, so the tables stay tables.
cleared-IsTables :
    (level : ℕ → ℕ) (s : Pmm) (t i : ℕ)
    → IsTables level s
    → IsTable t
    → i < 512
    → IsTables level (record s { memory = set_entry t i 0 s.memory })
cleared-IsTables level s t i h table q = record {
  sound = record {
    pages_in = h.sound.pages_in;
    range_in = h.sound.range_in;
    limit_in = h.sound.limit_in;
    counted = h.sound.counted;
    hint_in = h.sound.hint_in;
  };
  some_pages = h.some_pages;
  null_used = h.null_used;
  aligned_start = h.aligned_start;
  bytes = set_entry-AreBytes t i 0 s.memory h.bytes;
  aligned = h.aligned;
  held = h.held;
  children = λ u j k l p leads. elim (Bool-cases (u == t && j == i)) [
    | inl e ↦
        let (a, b) : (u ≡ t) × (j ≡ i) = ground arith in
        let absent : present (entry (set_entry t i 0 s.memory) u j) ≡ false =
          ap₂ (λ x y. present (entry (set_entry t i 0 s.memory) x y)) a b
          ∙ ap present (zero_entry t i s.memory)
          ∙ no_entry in
        absurd (cc)
    | inr e ↦
        let ne : (u ≢ t) ⊎ (j ≢ i) = elim (Bool-cases (u == t)) [
          | inl f ↦ inr (==→ne j i (rw f at e))
          | inr f ↦ inl (==→ne u t f)
        ] in
        let same =
          entry-set_entry_ne t i 0 u j s.memory table (h.aligned u (omega (arith, l))) q p ne in
        subst (Child level k) (sym same) (h.children u j k l p (ap present (sym same) ∙ leads))
  ];
}

-- Where the walk for an address ends without a page.
abbrev Unmapped : Directory → (v : ℕ) → Memory → Type 0
Unmapped d v m = (x : ℕ) → align_down x ≡ v → get_physical (some d) x m ≡ 0

-- The tables below `s` are of the levels 4 to 1.
module _ (level : ℕ → ℕ) (d : Directory) (v : ℕ) (s : Pmm) (h : IsTables level s)
    (l4 : level d.pml4_phys ≡ 4) where
  abbrev e4 : ℕ
  e4 = entry s.memory d.pml4_phys (pml4_index v)

  abbrev e3 : ℕ
  e3 = entry s.memory (align_down e4) (pdp_index v)

  abbrev e2 : ℕ
  e2 = entry s.memory (align_down e3) (pd_index v)

  absent_4 : present e4 ≡ false → Unmapped d v s.memory
  unfolding get_physical
  absent_4 p4 x same = rw (same, p4) refl

  absent_3 : present e4 ≡ true → present e3 ≡ false → Unmapped d v s.memory
  unfolding get_physical
  absent_3 p4 p3 x same = rw (same, p4, p3) refl

  absent_2 :
      present e4 ≡ true
      → present e3 ≡ true
      → huge e3 ≡ false
      → present e2 ≡ false
      → Unmapped d v s.memory
  unfolding get_physical
  absent_2 p4 p3 h3 p2 x same = rw (same, p4, p3, h3, p2) refl

  level_3 : present e4 ≡ true → level (align_down e4) ≡ 3
  level_3 p4 = (pointers_plain level s d.pml4_phys (pml4_index v) 1 h l4 (omega arith) p4).1

  below_3 : present e4 ≡ true → present e3 ≡ true → (huge e3 ≡ false) × (level (align_down e3) ≡ 2)
  below_3 p4 p3 =
      pointers_plain level s (align_down e4) (pdp_index v) 0 h (level_3 p4) (omega arith) p3

  -- An entry of a table of another level is kept.
  kept :
      (t i u j n m w : ℕ)
      → level t ≡ suc n
      → level u ≡ suc m
      → (n == m) ≡ false
      → i < 512
      → j < 512
      → entry (set_entry t i w s.memory) u j ≡ entry s.memory u j
  kept t i u j n m w a b ne p q =
      entry-set_entry_ne t i w u j s.memory (h.aligned t (omega (arith, a)))
        (h.aligned u (omega (arith, b))) p q
        (inl (λ e. ==→ne n m ne (omega (arith, a, b, ap level e))))

  -- A huge page goes as a whole, by its entry of the page directory.
  cleared_directory :
      present e4 ≡ true
      → present e3 ≡ true
      → Unmapped d v (set_entry (align_down e3) (pd_index v) 0 s.memory)
  unfolding get_physical
  cleared_directory p4 p3 x same =
      let l3 = level_3 p4 in
      let (h3, l2) = below_3 p4 p3 in
      let k4 =
        kept (align_down e3) (pd_index v) d.pml4_phys (pml4_index v) 1 3 0 l2 l4 refl (omega arith)
          (omega arith) in
      let k3 =
        kept (align_down e3) (pd_index v) (align_down e4) (pdp_index v) 1 2 0 l2 l3 refl
          (omega arith) (omega arith) in
      let k2 = zero_entry (align_down e3) (pd_index v) s.memory in
      rw (same, k4, p4, k3, p3, h3, k2) refl

  level_1 :
      present e4 ≡ true
      → present e3 ≡ true
      → present e2 ≡ true
      → huge e2 ≡ false
      → level (align_down e2) ≡ 1
  level_1 p4 p3 p2 h2 =
      elim (h.children (align_down e3) (pd_index v) 0 (below_3 p4 p3).1 (omega arith) p2) [
        | inl (_, l1) ↦ l1
        | inr (_, big) ↦ absurd (cc)
      ]

  cleared_page :
      present e4 ≡ true
      → present e3 ≡ true
      → present e2 ≡ true
      → huge e2 ≡ false
      → Unmapped d v (set_entry (align_down e2) (pt_index v) 0 s.memory)
  unfolding get_physical
  cleared_page p4 p3 p2 h2 x same =
      let l1 = level_1 p4 p3 p2 h2 in
      let l3 = level_3 p4 in
      let (h3, l2) = below_3 p4 p3 in
      let k4 =
        kept (align_down e2) (pt_index v) d.pml4_phys (pml4_index v) 0 3 0 l1 l4 refl (omega arith)
          (omega arith) in
      let k3 =
        kept (align_down e2) (pt_index v) (align_down e4) (pdp_index v) 0 2 0 l1 l3 refl
          (omega arith) (omega arith) in
      let k2 =
        kept (align_down e2) (pt_index v) (align_down e3) (pd_index v) 0 1 0 l1 l2 refl
          (omega arith) (omega arith) in
      let k1 = zero_entry (align_down e2) (pt_index v) s.memory in
      rw (same, k4, p4, k3, p3, h3, k2, p2, h2, k1) refl

-- What `vmm_unmap_page` leaves for the page at `v`.
pub record Taken (level : ℕ → ℕ) (d : Directory) (v : ℕ) (s : Pmm) (r : Bool × Memory)
    : Type 0 where
  pub tables : IsTables level (record s { memory = r.1 })
  pub unmapped : (x : ℕ) → align_down x ≡ v → get_physical (some d) x r.1 ≡ 0
  pub kept_if_absent : r.0 ≡ false → r.1 ≡ s.memory

nothing_mapped :
    (level : ℕ → ℕ) (d : Directory) (v : ℕ) (s : Pmm)
    → IsTables level s
    → Unmapped d v s.memory
    → Taken level d v s (false, s.memory)
nothing_mapped level d v s h none_there = record {
  tables = h;
  unmapped = none_there;
  kept_if_absent = λ e. refl;
}

entry_cleared :
    (level : ℕ → ℕ) (d : Directory) (v : ℕ) (s : Pmm) (t i k : ℕ)
    → IsTables level s
    → level t ≡ suc k
    → i < 512
    → Unmapped d v (set_entry t i 0 s.memory)
    → Taken level d v s (true, set_entry t i 0 s.memory)
entry_cleared level d v s t i k h l q gone = record {
  tables = cleared-IsTables level s t i h (h.aligned t (omega (arith, l))) q;
  unmapped = gone;
  kept_if_absent = λ e. absurd (cc);
}

-- `vmm_unmap_page` on page tables in allocated pages of a sound allocator, whose range has a page
-- and starts at a multiple of 4096, and which has the page at address 0, where it is in the range,
-- in use, leaves page tables, and `vmm_get_physical` finds nothing at any address of the page
-- afterwards. Where the function returns false, memory is as it was.
pub unmap_page-Taken :
    (level : ℕ → ℕ) (d : Directory) (virt : ℕ) (s : Pmm)
    → IsTables level s
    → level d.pml4_phys ≡ 4
    → Taken level d (align_down virt) s (unmap_page (some d) virt s.memory)
unfolding unmap_page
unmap_page-Taken level d virt s h l4 =
    let v = align_down virt in
    let f4 = e4 level d v s h l4 in
    let f3 = e3 level d v s h l4 in
    let f2 = e2 level d v s h l4 in
    elim (Bool-cases (present f4)) [
      | inr p4 ↦ rw p4 (nothing_mapped level d v s h (absent_4 level d v s h l4 p4))
      | inl p4 ↦ elim (Bool-cases (present f3)) [
        | inr p3 ↦ rw (p4, p3) (nothing_mapped level d v s h (absent_3 level d v s h l4 p4 p3))
        | inl p3 ↦
            let (h3, l2) = below_3 level d v s h l4 p4 p3 in
            elim (Bool-cases (present f2)) [
              | inr p2 ↦
                  rw (p4, p3, p2)
                    (nothing_mapped level d v s h (absent_2 level d v s h l4 p4 p3 h3 p2))
              | inl p2 ↦ elim (Bool-cases (huge f2)) [
                | inl h2 ↦
                    rw (p4, p3, p2, h2)
                      (entry_cleared level d v s _ _ _ h l2 (omega arith)
                        (cleared_directory level d v s h l4 p4 p3))
                | inr h2 ↦
                    rw (p4, p3, p2, h2)
                      (entry_cleared level d v s _ _ _ h (level_1 level d v s h l4 p4 p3 p2 h2)
                        (omega arith) (cleared_page level d v s h l4 p4 p3 p2 h2))
              ]
            ]
      ]
    ]
