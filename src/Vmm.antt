-- ===== src/Vmm.antt =====
-- Page tables: src/kernel/mm/vmm.c. The direct map makes every physical address a pointer, so a
-- pointer to a table is its physical address, and memory is that of the page allocator. Each
-- function holds `vmm_lock` with interrupts off, so it is one step. A result is `none` when the
-- page allocator divides by zero, which it does when it manages no page.
pub mod Address
pub mod Entry
pub mod Tables
pub mod Step
pub mod Walk
pub mod Path
pub mod Map
pub mod Unmap
mod Tests
use szczupak_os.Base.{
  ℕ, zero, suc, ◌+◌, ◌-◌, ◌*◌, ◌/◌, ◌%◌, ◌^◌, ◌≤◌, ◌<◌, min, ◌≡◌, refl, sym, ap, ap₂, ◌∙◌, subst,
  ◌≢◌, ◌↔◌, ◌⊎◌, inl, inr, Bool, true, false, not, ◌&&◌, ◌||◌, Option, none, some, List, [], ◌∷◌,
  ◌++◌, arith, ltb, leb, ◌==◌, if◌then◌else◌, ltb→lt, ltb→ge, lt→ltb, ge→ltb, leb→le, leb→gt,
  le→leb, gt→leb, ==→eq, ==→ne, eq→==, ne→==, tests, Bool-cases, Option-cases, if_elim, some_inj,
  length, take, drop, get_or, length-append, length-take, take_nil, take_cons, take_zero, take_all,
  drop_nil, take-min, All, update, slice, update_self, update_ne, slice_eq, add16, add32, sub32,
  add64, sub64, mul64, page_size, align_down, align_up, max, bit_or, has_bit, bit_or_step,
  bit_or-zero, zero-bit_or, bit_or_frame, bit_or_odd, bit_or_half, Memory, read64, write64,
  read64-write64, write64_frame, read64_frame, read64-write64_ne,
}
use szczupak_os.Pmm.{Pmm, memset, alloc_page, free_pages}
use szczupak_os.Pmm

-- `page_directory_t`
pub record Directory : Type 0 where
  pub pml4 : ℕ
  pub pml4_phys : ℕ

-- `PML4_INDEX`, `PDP_INDEX`, `PD_INDEX` and `PT_INDEX`
abbrev pub pml4_index : ℕ → ℕ
pml4_index v = v / 2 ^ 39 % 512

abbrev pub pdp_index : ℕ → ℕ
pdp_index v = v / 2 ^ 30 % 512

abbrev pub pd_index : ℕ → ℕ
pd_index v = v / 2 ^ 21 % 512

abbrev pub pt_index : ℕ → ℕ
pt_index v = v / 2 ^ 12 % 512

-- `PAGE_PRESENT`, `PAGE_WRITE`, `PAGE_USER` and the bit of a huge page
abbrev pub present : ℕ → Bool
present e = has_bit 1 e

abbrev pub writable : ℕ → Bool
writable e = has_bit 2 e

abbrev pub user : ℕ → Bool
user e = has_bit 4 e

abbrev pub huge : ℕ → Bool
huge e = has_bit 128 e

-- Entry `i` of the table at `t`.
unfoldable pub entry : Memory → (t i : ℕ) → ℕ
entry m t i = read64 m (t + 8 * i)

unfoldable pub set_entry : (t i v : ℕ) → Memory → Memory
set_entry t i v m = write64 (t + 8 * i) v m

-- `is_canonical`
abbrev pub is_canonical : ℕ → Bool
is_canonical addr = leb addr 0x00007FFFFFFFFFFF || leb 0xFFFF800000000000 addr

-- `parent[index] |= flag`, where the entry does not have the flag.
abbrev pub grant : (flag t i : ℕ) → Memory → Memory
grant flag t i m =
    if has_bit flag (entry m t i) then m else set_entry t i (bit_or (entry m t i) flag) m

-- What `get_or_create_table` does with the page that it allocates; address 0 is a failure.
abbrev pub create_table : (parent index flags : ℕ) → ℕ × Pmm → Option ℕ × Pmm
create_table parent index flags (table_phys, s) =
    let table_flags : ℕ = if user flags then 7 else 3 in
    if table_phys == 0 then (none, s) else (
      some table_phys,
      record s {
        memory =
            set_entry parent index (bit_or table_phys table_flags)
              (memset table_phys 0 4096 s.memory);
      },
    )

-- `get_or_create_table`
unfoldable pub get_or_create_table : (parent index flags : ℕ) → Pmm → Option (Option ℕ × Pmm)
get_or_create_table parent index flags s =
    let phys_addr = align_down (entry s.memory parent index) in
    let granted = if user flags then grant 4 parent index s.memory else s.memory in
    let granted' = if writable flags then grant 2 parent index granted else granted in
    if leb 512 index
    then some (none, s)
    else if present (entry s.memory parent index)
    then some (some phys_addr, record s { memory = granted' })
    else elim (alloc_page s) [ none ↦ none | some x ↦ some (create_table parent index flags x) ]

-- The loop of `split_huge_page`, from entry `i` on, with `n` left.
unfoldable pub fill_loop : (n i : ℕ) → (pt huge_phys flags : ℕ) → Memory → Memory
fill_loop zero i pt huge_phys flags m = m
fill_loop (suc n) i pt huge_phys flags m =
    fill_loop n (i + 1) pt huge_phys flags
      (set_entry pt i (bit_or (bit_or (add64 huge_phys (i * 4096)) flags) 1) m)

-- `flags & ~(1 << 7)`
abbrev pub without_huge : ℕ → ℕ
without_huge flags = if huge flags then flags - 128 else flags

abbrev pub split_at : (pd index : ℕ) → ℕ × Pmm → Bool × Pmm
split_at pd index (pt_phys, s) =
    let e = entry s.memory pd index in
    let flags = without_huge (e % 4096) in
    if pt_phys == 0 then (false, s) else (
      true,
      record s {
        memory =
            set_entry pd index (bit_or (bit_or pt_phys flags) 1)
              (fill_loop 512 0 pt_phys (e / 2 ^ 21 * 2 ^ 21) flags s.memory);
      },
    )

-- `split_huge_page`
unfoldable pub split_huge_page : (pd index : ℕ) → Pmm → Option (Bool × Pmm)
split_huge_page pd index s =
    if huge (entry s.memory pd index)
    then (elim (alloc_page s) [ none ↦ none | some x ↦ some (split_at pd index x) ])
    else some (true, s)

-- A table that was asked for is used, or the function fails.
abbrev pub with_table :
    Option (Option ℕ × Pmm) → (ℕ → Pmm → Option (Bool × Pmm)) → Option (Bool × Pmm)
with_table none k = none
with_table (some (none, s)) k = some (false, s)
with_table (some (some t, s)) k = k t s

abbrev pub with_split : Option (Bool × Pmm) → (Pmm → Option (Bool × Pmm)) → Option (Bool × Pmm)
with_split none k = none
with_split (some (false, s)) k = some (false, s)
with_split (some (true, s)) k = k s

-- The last write of `vmm_map_page` and `vmm_map_user_page`.
abbrev pub put_leaf : (t i v : ℕ) → Pmm → Option (Bool × Pmm)
put_leaf t i v s = some (true, record s { memory = set_entry t i v s.memory })

-- `vmm_map_page` on aligned addresses, behind its guard.
unfoldable pub map_at : Directory → (virt phys flags : ℕ) → Pmm → Option (Bool × Pmm)
map_at d virt phys flags s =
    with_table (get_or_create_table d.pml4_phys (pml4_index virt) flags s) λ pdp s1.
      with_table (get_or_create_table pdp (pdp_index virt) flags s1) λ pd s2.
        with_split (split_huge_page pd (pd_index virt) s2) λ s3.
          with_table (get_or_create_table pd (pd_index virt) flags s3) λ pt s4.
            put_leaf pt (pt_index virt)
              (bit_or (bit_or (phys / 4096 % 2 ^ 40 * 4096) (flags % 4096)) 1) s4

-- `vmm_map_page`; a null directory is `none`.
unfoldable pub map_page : Option Directory → (virt phys flags : ℕ) → Pmm → Option (Bool × Pmm)
map_page none virt phys flags s = some (false, s)
map_page (some d) virt phys flags s =
    if is_canonical virt
    then map_at d (align_down virt) (align_down phys) flags s
    else some (false, s)

-- `table[index] |= PAGE_USER`
abbrev pub grant_user : (t i : ℕ) → Pmm → Pmm
grant_user t i s = record s { memory = set_entry t i (bit_or (entry s.memory t i) 4) s.memory }

-- `vmm_map_user_page` on aligned addresses, behind its guard.
unfoldable pub map_user_at : Directory → (virt phys flags : ℕ) → Pmm → Option (Bool × Pmm)
map_user_at d virt phys flags s =
    with_table (get_or_create_table d.pml4_phys (pml4_index virt) flags s) λ pdp s1.
      with_table
        (get_or_create_table pdp (pdp_index virt) flags
          (grant_user d.pml4_phys (pml4_index virt) s1))
        λ pd s2.
          with_split (split_huge_page pd (pd_index virt) (grant_user pdp (pdp_index virt) s2)) λ s3.
            with_table (get_or_create_table pd (pd_index virt) flags s3) λ pt s4.
              put_leaf pt (pt_index virt) (bit_or (bit_or phys flags) 1)
                (grant_user pd (pd_index virt) s4)

-- `vmm_map_user_page`
unfoldable pub map_user_page : Option Directory → (virt phys flags : ℕ) → Pmm → Option (Bool × Pmm)
map_user_page none virt phys flags s = some (false, s)
map_user_page (some d) virt phys flags s =
    if is_canonical virt
    then map_user_at d (align_down virt) (align_down phys) (bit_or flags 4) s
    else some (false, s)

-- `vmm_unmap_page` with the page directory at `pd`
abbrev pub unmap_in : (pd virt : ℕ) → Memory → Bool × Memory
unmap_in pd virt m =
    let e = entry m pd (pd_index virt) in
    if not (present e)
    then (false, m)
    else if huge e
    then (true, set_entry pd (pd_index virt) 0 m)
    else (true, set_entry (align_down e) (pt_index virt) 0 m)

-- `vmm_unmap_page`
unfoldable pub unmap_page : Option Directory → (virt : ℕ) → Memory → Bool × Memory
unmap_page none virt m = (false, m)
unmap_page (some d) virt m =
    let v = align_down virt in
    let e4 = entry m d.pml4_phys (pml4_index v) in
    let e3 = entry m (align_down e4) (pdp_index v) in
    if not (present e4)
    then (false, m)
    else if not (present e3)
    then (false, m)
    else unmap_in (align_down e3) v m

-- The result of `vmm_get_physical` for the four entries on the way.
abbrev pub translate : (e4 e3 e2 e1 virt : ℕ) → ℕ
translate e4 e3 e2 e1 virt =
    if not (present e4)
    then 0
    else if not (present e3)
    then 0
    else if huge e3
    then add64 (e3 / 2 ^ 30 * 2 ^ 30) (virt % 2 ^ 30)
    else if not (present e2)
    then 0
    else if huge e2
    then add64 (e2 / 2 ^ 21 * 2 ^ 21) (virt % 2 ^ 21)
    else if not (present e1)
    then 0
    else add64 (align_down e1) (virt % 4096)

-- `vmm_get_physical`
unfoldable pub get_physical : Option Directory → (virt : ℕ) → Memory → ℕ
get_physical none virt m = 0
get_physical (some d) virt m =
    let v = align_down virt in
    let e4 = entry m d.pml4_phys (pml4_index v) in
    let e3 = entry m (align_down e4) (pdp_index v) in
    let e2 = entry m (align_down e3) (pd_index v) in
    let e1 = entry m (align_down e2) (pt_index v) in translate e4 e3 e2 e1 virt

-- The end of `vmm_change_flags`, with the table at `pt`.
abbrev pub change_leaf : (pt virt flags : ℕ) → Pmm → Option (Bool × Pmm)
change_leaf pt virt flags s =
    let e = entry s.memory pt (pt_index virt) in
    if present e
    then put_leaf pt (pt_index virt) (bit_or (bit_or (align_down e) flags) 1) s
    else some (false, s)

-- `vmm_change_flags`
unfoldable pub change_flags : Option Directory → (virt flags : ℕ) → Pmm → Option (Bool × Pmm)
change_flags none virt flags s = some (false, s)
change_flags (some d) virt flags s =
    let v = align_down virt in
    let e4 = entry s.memory d.pml4_phys (pml4_index v) in
    let e3 = entry s.memory (align_down e4) (pdp_index v) in
    let pd = align_down e3 in
    if not (present e4)
    then some (false, s)
    else if not (present e3)
    then some (false, s)
    else if not (present (entry s.memory pd (pd_index v)))
    then some (false, s)
    else with_split (split_huge_page pd (pd_index v) s)
        λ s1. change_leaf (align_down (entry s1.memory pd (pd_index v))) v flags s1

-- The static variables.
pub record Vmm : Type 0 where
  pub pmm : Pmm
  pub kernel_directory : Option Directory
  pub next_virt_addr : ℕ

-- The loop of `vmm_alloc_pages` that takes the pages mapped so far back.
pub unmap_loop : (n : ℕ) → Option Directory → (virt : ℕ) → Memory → Memory
unmap_loop zero d virt m = m
unmap_loop (suc n) d virt m = unmap_loop n d (add64 virt page_size) (unmap_page d virt m).1

-- The loop that maps page `i` and the `n - 1` after it: whether all could be mapped.
pub map_loop : (n i : ℕ) → Option Directory → (virt_start phys_base : ℕ) → Pmm → Option (Bool × Pmm)
map_loop zero i d virt_start phys_base s = some (true, s)
map_loop (suc n) i d virt_start phys_base s =
    elim (map_page d (add64 virt_start (i * 4096)) (add64 phys_base (i * 4096)) 3 s) [
      | none ↦ none
      | some (true, s') ↦ map_loop n (i + 1) d virt_start phys_base s'
      | some (false, s') ↦ some (false, record s' { memory = unmap_loop i d virt_start s'.memory })
    ]

-- `vmm_alloc_pages`: the address, or 0.
pub vmm_alloc_pages : ℕ → Vmm → Option (ℕ × Vmm)
vmm_alloc_pages count s =
    let virt_start = s.next_virt_addr in
    let s1 = record s { next_virt_addr = add64 s.next_virt_addr (mul64 count page_size) } in
    if count == 0 then some (0, s) else elim (Pmm.alloc_pages (count % 2 ^ 32) s.pmm) [
      | none ↦ none
      | some (phys_base, p) ↦
          if phys_base == 0
          then some (0, record s1 { pmm = p })
          else elim (map_loop count 0 s.kernel_directory virt_start phys_base p) [
            | none ↦ none
            | some (true, p') ↦ some (virt_start, record s1 { pmm = p' })
            | some (false, p') ↦
                some (0, record s1 { pmm = free_pages phys_base (count % 2 ^ 32) p' })
          ]
    ]

-- `vmm_free_pages`
pub vmm_free_pages : (virt count : ℕ) → Vmm → Vmm
vmm_free_pages virt count s =
    let phys_base = get_physical s.kernel_directory virt s.pmm.memory in
    let p = record (s.pmm) { memory = unmap_loop count s.kernel_directory virt s.pmm.memory } in
    if virt == 0 || count == 0
    then s
    else if phys_base == 0
    then record s { pmm = p }
    else record s { pmm = free_pages (align_down phys_base) (count % 2 ^ 32) p }
