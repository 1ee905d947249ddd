-- ===== src/Vmm/Tests.antt =====
-- The theorems about src/kernel/mm/vmm.c for an empty root table in one of two used pages and two free pages, as
-- pages from address 0 on.
use szczupak_os.Vmm.Map.{map_page-Mapped, Mapped}
use szczupak_os.Vmm.Unmap.{unmap_page-Taken, Taken}
use szczupak_os.Vmm.Tables.{IsTables}
use szczupak_os.Vmm.{unmap_page, map_page, present, entry, Directory}
use szczupak_os.Pmm.Bits.{page_used, used_below}
use szczupak_os.Pmm.Inv.{IsSound}
use szczupak_os.Pmm.{Pmm}
use szczupak_os.Base.{
  ltb, ◌≢◌, ◌&&◌, ℕ, ◌+◌, ◌*◌, ◌≡◌, refl, ap, ◌∙◌, inl, inr, Bool, false, some, arith, ◌==◌,
  if◌then◌else◌, ==→eq, ne→==, Bool-cases, read64,
}

abbrev root : Directory
root = record { pml4 = 0x1000; pml4_phys = 0x1000 }

abbrev four_pages : Pmm
four_pages = record {
  bitmap = λ w b. (w == 0) && ltb b 2;
  total_pages = 4;
  used_pages = 2;
  start = 0;
  limit = 0x4000;
  last_alloc_hint = 0;
  memory = λ _. 0;
}

abbrev only_root : ℕ → ℕ
only_root x = if x == 0x1000 then 4 else 0

no_entries : (t i : ℕ) → entry (λ _. 0) t i ≡ 0
unfolding entry read64
no_entries t i = refl

no_lead : present 0 ≡ false
no_lead = refl

four_pages-IsSound : IsSound four_pages
unfolding used_below
four_pages-IsSound = record {
  pages_in = omega arith;
  range_in = omega arith;
  limit_in = omega arith;
  counted = refl;
  hint_in = omega arith;
}

only_root-IsTables : IsTables only_root four_pages
only_root-IsTables = record {
  sound = four_pages-IsSound;
  some_pages = omega arith;
  null_used = λ _. refl;
  aligned_start = refl;
  bytes = λ a. omega arith;
  aligned = λ t a. elim (Bool-cases (t == 0x1000)) [
    | inl e ↦ (let same = ==→eq t 0x1000 e in omega arith)
    | inr e ↦ absurd (ground arith)
  ];
  held = λ page p unused.
      let free_page : page ≢ 1 =
        λ e. (let same = ap (page_used four_pages.bitmap) e in absurd (cc)) in
      rw (ne→== (0 + page * 4096) 0x1000 (omega (arith, free_page))) refl;
  children = λ t i k l q leads. let absent = ap present (no_entries t i) ∙ no_lead in absurd (cc);
}

map_page-Mapped_example :
    (r : Bool × Pmm) × (map_page (some root) 0x8000000123 0x5000 7 four_pages ≡ some r)
    × Mapped only_root root 0x8000000000 0x5000 r
map_page-Mapped_example =
    map_page-Mapped only_root root 0x8000000123 0x5000 7 four_pages only_root-IsTables refl refl
      (omega arith)
      (λ leads _. (let absent = ap present (no_entries 0x1000 1) ∙ no_lead in absurd (cc)))

unmap_page-Taken_example :
    Taken only_root root 0x8000000000 four_pages
      (unmap_page (some root) 0x8000000123 four_pages.memory)
unmap_page-Taken_example =
    unmap_page-Taken only_root root 0x8000000123 four_pages only_root-IsTables refl
