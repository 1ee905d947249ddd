-- ===== src/Vmm/Walk.antt =====
-- `get_or_create_table` of src/kernel/mm/vmm.c in every case.
use szczupak_os.Vmm.Step.{created-Stepped}
use szczupak_os.Pmm.Inv.{IsSound}
use szczupak_os.Pmm.Alloc.{taken, alloc_pages-Allocated, none_free, none_asked, Allocated}
use szczupak_os.Vmm.Tables.{failed, found-Stepped, stepped, Step, IsTables}
use szczupak_os.Vmm.{huge, create_table, entry, present, get_or_create_table, user}
use szczupak_os.Pmm.{alloc_page, Pmm}
use szczupak_os.Base.{
  ℕ, suc, ◌%◌, ◌<◌, ◌≡◌, refl, sym, subst, ◌≢◌, inl, inr, true, false, Option, some, arith,
  if◌then◌else◌, gt→leb, ne→==, Bool-cases,
}

table_flags-lt :
    (flags : ℕ) → ((if user flags then 7 else 3) < 128) × ((if user flags then 7 else 3) % 2 ≡ 1)
table_flags-lt flags = elim (Bool-cases (user flags)) [
  | inl e ↦ rw e (omega arith, refl)
  | inr e ↦ rw e (omega arith, refl)
]

module _ (level : ℕ → ℕ) (parent i k flags : ℕ) (s : Pmm) (h : IsTables level s)
    (at : level parent ≡ suc (suc k)) (small : i < 512) where
  create_table-Step :
      (x : ℕ × Pmm)
      → Allocated 1 s x
      → IsSound x.1
      → Step level parent i k s (create_table parent i flags x)
  create_table-Step x (none_asked e q) sound = absurd (omega arith)
  create_table-Step x (none_free full q) sound =
      subst (λ y. Step level parent i k s (create_table parent i flags y)) (sym q)
        (failed full refl)
  create_table-Step (p, s1) (taken page t) sound =
      let positive : p ≢ 0 = λ e.
        let null_page : page ≡ 0 = omega (arith, t.address, e) in
        let used = h.null_used (omega (arith, t.address, e)) in
        let free = t.free.all_free 0 (omega (arith, null_page)) (omega (arith, null_page)) in
        absurd (cc) in
      let (low, odd) = table_flags-lt flags in
      rw (ne→== p 0 positive) (
        stepped p _ refl (
          created-Stepped level parent i k (if user flags then 7 else 3) s h at small low odd page p
            s1 t sound))

  pub get_or_create_table-Step :
      (present (entry s.memory parent i) ≡ true → huge (entry s.memory parent i) ≡ false)
      → (x : Option ℕ × Pmm) × (get_or_create_table parent i flags s ≡ some x)
        × Step level parent i k s x
  unfolding get_or_create_table alloc_page
  get_or_create_table-Step plain = elim (Bool-cases (present (entry s.memory parent i))) [
    | inl p ↦ (
      _,
      rw (gt→leb 512 i small, p) refl,
      stepped _ _ refl (found-Stepped level parent i k flags s h at small p (plain p)),
    )
    | inr p ↦
        let (x, e, a, sound) = alloc_pages-Allocated s 1 h.sound h.some_pages (omega arith) in
        (
          create_table parent i flags x,
          rw (gt→leb 512 i small, p, e) refl,
          create_table-Step x a sound,
        )
  ]
