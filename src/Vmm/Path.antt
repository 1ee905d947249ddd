-- ===== src/Vmm/Path.antt =====
-- The page tables on the way to an address, in src/kernel/mm/vmm.c.
use szczupak_os.Vmm.Tables.{Stepped, IsTables}
use szczupak_os.Vmm.Entry.{Like}
use szczupak_os.Vmm.{
  Pmm, pd_index, pt_index, pdp_index, huge, pml4_index, entry, present, get_physical, Directory,
}
use szczupak_os.Base.{
  inr, ==→ne, ◌==◌, suc, sym, subst, ap, inl, arith, ◌<◌, ℕ, ◌%◌, ◌≡◌, refl, ◌∙◌, true, false, some,
  add64, align_down, Memory,
}

-- Entry `i` of the table at `t` leads to the table at `u`.
pub record Leads (m : Memory) (t i u : ℕ) : Type 0 where
  pub is_present : present (entry m t i) ≡ true
  pub plain : huge (entry m t i) ≡ false
  pub frame : align_down (entry m t i) ≡ u

pub Leads-Like :
    (m n : Memory) (t i u : ℕ) → Leads m t i u → Like (entry m t i) (entry n t i) → Leads n t i u
Leads-Like m n t i u a b = record {
  is_present = b.is_present ∙ a.is_present;
  plain = b.is_huge ∙ a.plain;
  frame = b.frame ∙ a.frame;
}

pub Stepped-Leads :
    (level : ℕ → ℕ) (parent i k : ℕ) (s : Pmm) (t : ℕ) (s' : Pmm)
    → Stepped level parent i k s t s'
    → Leads s'.memory parent i t
Stepped-Leads level parent i k s t s' a = record {
  is_present = a.leads;
  plain = a.plain;
  frame = a.frame;
}

-- A step changes no entry of a table of another level.
pub kept_level :
    (level : ℕ → ℕ) (parent i k : ℕ) (s : Pmm) (t : ℕ) (s' : Pmm)
    → Stepped level parent i k s t s'
    → (u j n m : ℕ) → level u ≡ suc n
    → level parent ≡ m
    → j < 512
    → (suc n == m) ≡ false
    → Like (entry s.memory u j) (entry s'.memory u j)
kept_level level parent i k s t s' a u j n m l lp q ne =
    a.others u j (omega (arith, l)) q (inl (λ e. ==→ne (suc n) m ne (sym l ∙ ap level e ∙ lp)))

pub kept_Leads :
    (level : ℕ → ℕ) (parent i k : ℕ) (s : Pmm) (t : ℕ) (s' : Pmm)
    → Stepped level parent i k s t s'
    → (u j w : ℕ) {n m : ℕ} → Leads s.memory u j w
    → level u ≡ suc n
    → level parent ≡ m
    → j < 512
    → (suc n == m) ≡ false
    → Leads s'.memory u j w
kept_Leads level parent i k s t s' a u j w {n} {m} b l lp q ne =
    Leads-Like s.memory s'.memory u j w b (kept_level level parent i k s t s' a u j n m l lp q ne)

-- The tables on the way to the entry of an address.
pub record Path3 (m : Memory) (d : Directory) (v pdp pd pt : ℕ) : Type 0 where
  pub first : Leads m d.pml4_phys (pml4_index v) pdp
  pub second : Leads m pdp (pdp_index v) pd
  pub third : Leads m pd (pd_index v) pt

pub get_physical-Path3 :
    (m : Memory) (d : Directory) (v x pdp pd pt : ℕ)
    → Path3 m d v pdp pd pt
    → align_down x ≡ v
    → present (entry m pt (pt_index v)) ≡ true
    → get_physical (some d) x m ≡ add64 (align_down (entry m pt (pt_index v))) (x % 4096)
unfolding get_physical
get_physical-Path3 m d v x pdp pd pt way same leaf =
    rw
      (
        same, way.first.is_present, way.first.frame, way.second.is_present, way.second.plain,
        way.second.frame, way.third.is_present, way.third.plain, way.third.frame, leaf,
      )
      refl

pub pointers_plain :
    (level : ℕ → ℕ) (s : Pmm) (t i k : ℕ)
    → IsTables level s
    → level t ≡ suc (suc (suc k))
    → i < 512
    → present (entry s.memory t i) ≡ true
    → (huge (entry s.memory t i) ≡ false) × (level (align_down (entry s.memory t i)) ≡ suc (suc k))
pointers_plain level s t i k h l q leads = elim (h.children t i (suc k) l q leads) [
  | inl plain ↦ plain
  | inr (zero_level, _) ↦ absurd (omega arith)
]

module _ (v : ℕ) where
  -- The page directory entry behind entry `pdp_index v` of `pdp` is no huge page.
  abbrev pub NoHugeBehind : Memory → ℕ → Type 0
  NoHugeBehind m pdp =
      present (entry m pdp (pdp_index v)) ≡ true
      → huge (entry m (align_down (entry m pdp (pdp_index v))) (pd_index v)) ≡ false

  pub directory_is_plain :
      (level : ℕ → ℕ) (s : Pmm) (pdp pd : ℕ) (s' : Pmm)
      → level pdp ≡ 3
      → NoHugeBehind s.memory pdp
      → Stepped level pdp (pdp_index v) 1 s pd s'
      → huge (entry s'.memory pd (pd_index v)) ≡ false
  directory_is_plain level s pdp pd s' l3 no_huge a = elim a.origin [
    | inr cleared ↦ ap huge (cleared (pd_index v) (omega arith)) ∙ refl
    | inl (leads, frame, old) ↦
        let l2 : level pd ≡ 2 = sym (a.grows pd old) ∙ a.here in
        let like =
          kept_level level pdp (pdp_index v) 1 s pd s' a pd (pd_index v) 1 3 l2 l3 (omega arith)
            refl in
        like.is_huge ∙ ap (λ x. huge (entry s.memory x (pd_index v))) (sym frame) ∙ no_huge leads
  ]

  pub pointers_no_huge :
      (root : ℕ) (level : ℕ → ℕ) (s : Pmm) (pdp : ℕ) (s' : Pmm)
      → IsTables level s
      → level root ≡ 4
      → (present (entry s.memory root (pml4_index v)) ≡ true
          → NoHugeBehind s.memory (align_down (entry s.memory root (pml4_index v))))
      → Stepped level root (pml4_index v) 2 s pdp s'
      → NoHugeBehind s'.memory pdp
  pointers_no_huge root level s pdp s' h l4 no_huge a leads' = elim a.origin [
    | inr cleared ↦ let absent = ap present (cleared (pdp_index v) (omega arith)) in absurd (cc)
    | inl (leads, frame, old) ↦
        let l3 : level pdp ≡ 3 = sym (a.grows pdp old) ∙ a.here in
        let like =
          kept_level level root (pml4_index v) 2 s pdp s' a pdp (pdp_index v) 2 4 l3 l4
            (omega arith) refl in
        let was : present (entry s.memory pdp (pdp_index v)) ≡ true =
          sym like.is_present ∙ leads' in
        let (_, l2) = pointers_plain level s pdp (pdp_index v) 0 h l3 (omega arith) was in
        let below =
          kept_level level root (pml4_index v) 2 s pdp s' a _ (pd_index v) 1 4 l2 l4 (omega arith)
            refl in
        let before : NoHugeBehind s.memory pdp =
          subst (NoHugeBehind s.memory) frame (no_huge leads) in
        ap (λ x. huge (entry s'.memory x (pd_index v))) like.frame ∙ below.is_huge ∙ before was
  ]
