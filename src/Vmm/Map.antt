-- ===== src/Vmm/Map.antt =====
-- `vmm_map_page` of src/kernel/mm/vmm.c: what it makes `vmm_get_physical` return.
use szczupak_os.Vmm.Path.{
  pointers_no_huge, directory_is_plain, Stepped-Leads, get_physical-Path3, pointers_plain,
  kept_Leads, Leads-Like, Path3, NoHugeBehind, Leads,
}
use szczupak_os.Vmm.Walk.{get_or_create_table-Step}
use szczupak_os.Pmm.Inv.{FreeRun}
use szczupak_os.Vmm.Tables.{Stepped, Step, stepped, failed, Like-IsTables, IsTables}
use szczupak_os.Vmm.Entry.{
  set_entry-AreBytes, entry-set_entry, entry-set_entry_ne, Like-eq, leaf_entry, Like,
}
use szczupak_os.Vmm.{
  is_canonical, map_page, map_at, get_or_create_table, with_table, with_split, split_huge_page,
  set_entry, put_leaf, Pmm, pd_index, pt_index, pdp_index, huge, pml4_index, entry, present,
  get_physical, Directory,
}
use szczupak_os.Base.{
  sym, subst, ap, inl, ◌*◌, ◌/◌, ◌+◌, bit_or, ◌^◌, arith, ◌<◌, Option, Bool, ℕ, ◌%◌, ◌≡◌, refl, ◌∙◌,
  true, false, some, add64, align_down, Memory,
}

-- What `vmm_map_page` leaves: page tables that keep the old ones, and the page mapped; or no page is free.
pub record Mapped (level : ℕ → ℕ) (d : Directory) (v p : ℕ) (r : Bool × Pmm) : Type 0 where
  pub level' : ℕ → ℕ
  pub tables : IsTables level' r.1
  pub grows : (x : ℕ) → 0 < level x → level' x ≡ level x
  pub mapped :
      r.0 ≡ true → (x : ℕ) → align_down x ≡ v → get_physical (some d) x r.1.memory ≡ p + x % 4096
  pub full : r.0 ≡ false → (page : ℕ) → ¬ FreeRun r.1 page 1

abbrev Outcome : (level : ℕ → ℕ) → Directory → (v p : ℕ) → Option (Bool × Pmm) → Type 0
Outcome level d v p o = (r : Bool × Pmm) × (o ≡ some r) × Mapped level d v p r

full_memory :
    (level : ℕ → ℕ) (d : Directory) (v p : ℕ) (s : Pmm)
    → IsTables level s
    → ((page : ℕ) → ¬ FreeRun s page 1)
    → Mapped level d v p (false, s)
full_memory level d v p s h none_left = record {
  level' = level;
  tables = h;
  grows = λ x a. refl;
  mapped = λ e. absurd (cc);
  full = λ e. none_left;
}

regrow :
    (level level' : ℕ → ℕ) (d : Directory) (v p : ℕ) (o : Option (Bool × Pmm))
    → ((x : ℕ) → 0 < level x → level' x ≡ level x)
    → Outcome level' d v p o
    → Outcome level d v p o
regrow level level' d v p o g (r, e, m) = (
  r,
  e,
  record {
    level' = m.level';
    tables = m.tables;
    grows = λ x a. m.grows x (omega (arith, g x a)) ∙ g x a;
    mapped = m.mapped;
    full = m.full;
  },
)

module _ (d : Directory) (v p flags : ℕ) (aligned : p % 4096 ≡ 0) (small : p < 2 ^ 52) where
  abbrev leaf : ℕ
  leaf = bit_or (bit_or (p / 4096 % 2 ^ 40 * 4096) (flags % 4096)) 1

  -- The parts of `map_at`.
  abbrev use_table : ℕ → Pmm → Option (Bool × Pmm)
  use_table pt s = put_leaf pt (pt_index v) leaf s

  abbrev use_directory : ℕ → Pmm → Option (Bool × Pmm)
  use_directory pd s =
      with_split (split_huge_page pd (pd_index v) s)
        λ s1. with_table (get_or_create_table pd (pd_index v) flags s1) use_table

  put_leaf-Mapped :
      (level : ℕ → ℕ) (s : Pmm) (pdp pd pt : ℕ)
      → IsTables level s
      → level d.pml4_phys ≡ 4
      → level pdp ≡ 3
      → level pd ≡ 2
      → level pt ≡ 1
      → Path3 s.memory d v pdp pd pt
      → Outcome level d v p (put_leaf pt (pt_index v) leaf s)
  put_leaf-Mapped level s pdp pd pt h l4 l3 l2 l1 way =
      let (here, frame, bound) = leaf_entry p flags aligned small in
      let m = set_entry pt (pt_index v) leaf s.memory in
      let table = h.aligned pt (omega (arith, l1)) in
      let kept : (t j : ℕ) → 1 < level t → j < 512 → Like (entry s.memory t j) (entry m t j) =
        λ t j a q. Like-eq (
          entry-set_entry_ne pt (pt_index v) leaf t j s.memory table (h.aligned t (omega arith))
            (omega arith) q (inl (λ e. omega (arith, ap level e, l1)))) in
      let stored : entry m pt (pt_index v) ≡ leaf =
        entry-set_entry pt (pt_index v) leaf s.memory bound in
      let way' : Path3 m d v pdp pd pt = record {
        first = Leads-Like s.memory m _ _ _ way.first (kept _ _ (omega (arith, l4)) (omega arith));
        second =
            Leads-Like s.memory m _ _ _ way.second (kept _ _ (omega (arith, l3)) (omega arith));
        third = Leads-Like s.memory m _ _ _ way.third (kept _ _ (omega (arith, l2)) (omega arith));
      } in
      (
        (true, record s { memory = m }),
        refl,
        record {
          level' = level;
          tables =
              Like-IsTables level s m h (set_entry-AreBytes pt (pt_index v) leaf s.memory h.bytes)
                kept;
          grows = λ x a. refl;
          mapped = λ e x same.
              get_physical-Path3 m d v x pdp pd pt way' same (ap present stored ∙ here)
              ∙ ap (λ y. add64 (align_down y) (x % 4096)) stored
              ∙ ap (λ y. add64 y (x % 4096)) frame
              ∙ omega arith;
          full = λ e. absurd (cc);
        },
      )

  use_step :
      (level : ℕ → ℕ) (parent i k : ℕ) (s : Pmm) (x : Option ℕ × Pmm)
      (use_it : ℕ → Pmm → Option (Bool × Pmm))
      → IsTables level s
      → Step level parent i k s x
      → ((t : ℕ) (s' : Pmm) (a : Stepped level parent i k s t s')
          → Outcome a.level' d v p (use_it t s'))
      → Outcome level d v p (with_table (some x) use_it)
  use_step level parent i k s x use_it h (failed none_left q) f =
      subst (λ y. Outcome level d v p (with_table (some y) use_it)) (sym q)
        ((false, s), refl, full_memory level d v p s h none_left)
  use_step level parent i k s x use_it h (stepped t s' q a) f =
      subst (λ y. Outcome level d v p (with_table (some y) use_it)) (sym q)
        (regrow level a.level' d v p (use_it t s') a.grows (f t s' a))

  -- The table of the pages, behind the directory at `pd`.
  use_directory-Outcome :
      (level : ℕ → ℕ) (s : Pmm) (pdp pd : ℕ)
      → IsTables level s
      → level d.pml4_phys ≡ 4
      → level pdp ≡ 3
      → level pd ≡ 2
      → Leads s.memory d.pml4_phys (pml4_index v) pdp
      → Leads s.memory pdp (pdp_index v) pd
      → huge (entry s.memory pd (pd_index v)) ≡ false
      → Outcome level d v p (use_directory pd s)
  unfolding split_huge_page
  use_directory-Outcome level s pdp pd h l4 l3 l2 first second plain =
      let (x, e, step) =
        get_or_create_table-Step level pd (pd_index v) 0 flags s h l2 (omega arith) (λ _. plain) in
      rw (plain, e)
        (use_step level pd (pd_index v) 0 s x use_table h step λ pt s' a.
          put_leaf-Mapped a.level' s' pdp pd pt a.tables (a.grows _ (omega (arith, l4)) ∙ l4)
            (a.grows _ (omega (arith, l3)) ∙ l3) (a.grows _ (omega (arith, l2)) ∙ l2) a.here
            (record {
              first =
                  kept_Leads level pd (pd_index v) 0 s pt s' a _ _ _ first l4 l2 (omega arith) refl;
              second =
                  kept_Leads level pd (pd_index v) 0 s pt s' a _ _ _ second l3 l2 (omega arith)
                    refl;
              third = Stepped-Leads level pd (pd_index v) 0 s pt s' a;
            }))

  abbrev use_pointers : ℕ → Pmm → Option (Bool × Pmm)
  use_pointers pdp s = with_table (get_or_create_table pdp (pdp_index v) flags s) use_directory

  use_pointers-Outcome :
      (level : ℕ → ℕ) (s : Pmm) (pdp : ℕ)
      → IsTables level s
      → level d.pml4_phys ≡ 4
      → level pdp ≡ 3
      → Leads s.memory d.pml4_phys (pml4_index v) pdp
      → NoHugeBehind v s.memory pdp
      → Outcome level d v p (use_pointers pdp s)
  use_pointers-Outcome level s pdp h l4 l3 first no_huge =
      let (x, e, step) =
        get_or_create_table-Step level pdp (pdp_index v) 1 flags s h l3 (omega arith)
          (λ leads. (pointers_plain level s pdp (pdp_index v) 0 h l3 (omega arith) leads).0) in
      rw e (
        use_step level pdp (pdp_index v) 1 s x use_directory h step λ pd s' a.
          use_directory-Outcome a.level' s' pdp pd a.tables (a.grows _ (omega (arith, l4)) ∙ l4)
            (a.grows _ (omega (arith, l3)) ∙ l3) a.here
            (kept_Leads level pdp (pdp_index v) 1 s pd s' a _ _ _ first l4 l3 (omega arith) refl)
            (Stepped-Leads level pdp (pdp_index v) 1 s pd s' a)
            (directory_is_plain v level s pdp pd s' l3 no_huge a))

  map_at-Outcome :
      (level : ℕ → ℕ) (s : Pmm)
      → IsTables level s
      → level d.pml4_phys ≡ 4
      → (present (entry s.memory d.pml4_phys (pml4_index v)) ≡ true
          → NoHugeBehind v s.memory (align_down (entry s.memory d.pml4_phys (pml4_index v))))
      → Outcome level d v p (map_at d v p flags s)
  unfolding map_at
  map_at-Outcome level s h l4 no_huge =
      let (x, e, step) =
        get_or_create_table-Step level d.pml4_phys (pml4_index v) 2 flags s h l4 (omega arith)
          (λ leads.
            (pointers_plain level s d.pml4_phys (pml4_index v) 1 h l4 (omega arith) leads).0) in
      rw e (
        use_step level d.pml4_phys (pml4_index v) 2 s x use_pointers h step λ pdp s' a.
          use_pointers-Outcome a.level' s' pdp a.tables (a.grows _ (omega (arith, l4)) ∙ l4) a.here
            (Stepped-Leads level d.pml4_phys (pml4_index v) 2 s pdp s' a)
            (pointers_no_huge v d.pml4_phys level s pdp s' h l4 no_huge a))

-- The directory entry for `v`, where the tables lead to one, is no huge page.
abbrev pub NoHugePage : Memory → Directory → ℕ → Type 0
NoHugePage m d v =
    let e4 = entry m d.pml4_phys (pml4_index v) in
    let e3 = entry m (align_down e4) (pdp_index v) in
    present e4 ≡ true → present e3 ≡ true → huge (entry m (align_down e3) (pd_index v)) ≡ false

-- On page tables in allocated pages of a sound allocator, whose range has a page and starts at a
-- multiple of 4096, and which has the page at address 0, where it is in the range, in use, and with
-- no huge page at the address, `vmm_map_page` of a canonical address and a frame below 2^52 produces
-- a result. The page tables stay page tables of the levels that they had, in allocated pages of a
-- sound allocator. When the function returns true, `vmm_get_physical` sends every address of the
-- page to its place in the frame; when it returns false, the allocator has no free page left.
pub map_page-Mapped :
    (level : ℕ → ℕ) (d : Directory) (virt phys flags : ℕ) (s : Pmm)
    → IsTables level s
    → level d.pml4_phys ≡ 4
    → is_canonical virt ≡ true
    → phys < 2 ^ 52
    → NoHugePage s.memory d (align_down virt)
    → (r : Bool × Pmm) × (map_page (some d) virt phys flags s ≡ some r)
      × Mapped level d (align_down virt) (align_down phys) r
unfolding map_page
map_page-Mapped level d virt phys flags s h l4 canonical small no_huge = rw canonical (
    map_at-Outcome d (align_down virt) (align_down phys) flags (omega arith) (omega arith) level s h
      l4 no_huge)
