-- ===== src/Pmm.antt =====
-- The physical page allocator, src/kernel/mm/pmm.c. Each function holds `pmm_lock` with interrupts
-- off, so that it is one step on the state. A word of `pmm_bitmap` is given by its 64 bits, which
-- is how the code reads and writes it, and physical memory by its bytes.
pub mod Bits
pub mod Inv
pub mod Alloc
pub mod Free
pub mod Init
mod Tests
use szczupak_os.Base.{
  ℕ, zero, suc, ◌+◌, ◌-◌, ◌*◌, ◌/◌, ◌%◌, ◌^◌, ◌≤◌, ◌<◌, min, ◌≡◌, refl, sym, ap, ap₂, ◌∙◌, subst,
  ◌≢◌, ◌↔◌, ◌⊎◌, inl, inr, Bool, true, false, not, ◌&&◌, ◌||◌, Option, none, some, List, [], ◌∷◌,
  ◌++◌, arith, ltb, leb, ◌==◌, if◌then◌else◌, ltb→lt, ltb→ge, lt→ltb, ge→ltb, leb→le, leb→gt,
  le→leb, gt→leb, ==→eq, ==→ne, eq→==, ne→==, tests, Bool-cases, Option-cases, if_elim, length,
  take, drop, get_or, length-append, length-take, take_nil, take_cons, take_zero, take_all,
  drop_nil, take-min, All, update, slice, update_self, update_ne, slice_eq, add16, add32, sub32,
  add64, sub64, mul64, page_size, align_down, align_up,
}

-- `MAX_MEMORY_PAGES`
abbrev pub max_pages : ℕ
max_pages = 262144

-- `BITMAP_SIZE`
abbrev pub bitmap_size : ℕ
bitmap_size = 4096

-- A 64-bit word by its bits, the lowest first.
abbrev pub Word : Type 0
Word = ℕ → Bool

-- The static variables of the allocator, and the memory that it clears.
pub record Pmm : Type 0 where
  pub bitmap : ℕ → Word
  pub total_pages : ℕ
  pub used_pages : ℕ
  pub start : ℕ
  pub limit : ℕ
  pub last_alloc_hint : ℕ
  pub memory : ℕ → ℕ

-- The variables before `pmm_init`.
abbrev pub zeroed : (ℕ → ℕ) → Pmm
zeroed m = record {
  bitmap = λ _ _. false;
  total_pages = 0;
  used_pages = 0;
  start = 0;
  limit = 0;
  last_alloc_hint = 0;
  memory = m;
}

-- The addresses that the linker gives.
pub record Symbols : Type 0 where
  pub kernel_end : ℕ
  pub p4_table : ℕ
  pub p3_table : ℕ
  pub p2_table : ℕ
  pub pmm_bitmap : ℕ

-- `memset_pmm`: bytes at `p`, with `n` left.
pub memset : (p c n : ℕ) → (ℕ → ℕ) → ℕ → ℕ
memset p c zero m = m
memset p c (suc n) m = memset (p + 1) c n (update m p (c % 256))

abbrev pub put_bit : Bool → ℕ → (ℕ → Word) → ℕ → Word
put_bit b bit w = update w (bit / 64) (update (w (bit / 64)) (bit % 64) b)

-- `bitmap_set_bit`
pub set_bit : ℕ → Pmm → Pmm
set_bit bit s = if leb s.total_pages bit then s else record s { bitmap = put_bit true bit s.bitmap }

-- `bitmap_clear_bit`
pub clear_bit : ℕ → Pmm → Pmm
clear_bit bit s =
    if leb s.total_pages bit then s else record s { bitmap = put_bit false bit s.bitmap }

-- `bitmap_test_bit`
pub test_bit : ℕ → Pmm → Bool
test_bit bit s = if leb s.total_pages bit then true else s.bitmap (bit / 64) (bit % 64)

-- The loop of `bitmap_range_is_clear`, at `i` with `n` rounds left.
pub clear_loop : (n first i : ℕ) → Pmm → Bool
clear_loop zero first i s = true
clear_loop (suc n) first i s =
    let rest = clear_loop n first (i + 1) s in if test_bit (add64 first i) s then false else rest

-- `bitmap_range_is_clear`
pub range_is_clear : (first count : ℕ) → Pmm → Bool
range_is_clear first count s =
    if count == 0
    then false
    else if leb s.total_pages first
    then false
    else if ltb s.total_pages (add64 first count)
    then false
    else clear_loop count first 0 s

-- One round of the loop of `pmm_mark_used_locked`.
pub mark_page : ℕ → Pmm → Pmm
mark_page addr s =
    if ltb addr s.start || leb s.limit addr
    then s
    else (let page = sub64 addr s.start / page_size in
        if test_bit page s
        then s
        else record (set_bit page s) { used_pages = add64 s.used_pages 1 })

-- Its loop. Both ends are multiples of the page size, so the rounds are the pages between them.
pub mark_loop : (n addr : ℕ) → Pmm → Pmm
mark_loop zero addr s = s
mark_loop (suc n) addr s = mark_loop n (add64 addr page_size) (mark_page addr s)

-- `pmm_mark_used_locked`, `pmm_mark_used` and `pmm_reserve_range`
pub mark_used : (first last : ℕ) → Pmm → Pmm
mark_used first last s =
    if leb last first
    then s
    else mark_loop ((align_up last - align_down first) / page_size) (align_down first) s

-- The loop that clears the words of the bitmap.
pub wipe_loop : (n i : ℕ) → (ℕ → Word) → ℕ → Word
wipe_loop zero i w = w
wipe_loop (suc n) i w = wipe_loop n (i + 1) (update w i (λ _. false))

-- The state of `pmm_init` after the range is set, and clamped to what the bitmap covers.
abbrev pub sized : (mem_start mem_end : ℕ) → Pmm → Pmm
sized mem_start mem_end s =
    if ltb max_pages ((mem_end - mem_start) / page_size)
    then record s {
      total_pages = max_pages;
      start = mem_start;
      limit = add64 mem_start (max_pages * page_size);
    }
    else record s {
      total_pages = (mem_end - mem_start) / page_size;
      start = mem_start;
      limit = mem_end;
    }

-- The bitmap cleared and no page counted.
abbrev pub wiped : Pmm → Pmm
wiped s = record s { bitmap = wipe_loop (add64 s.total_pages 63 / 64) 0 s.bitmap; used_pages = 0 }

-- The ranges that `pmm_init` reserves, in its order.
pub reserve_boot : Symbols → Pmm → Pmm
reserve_boot k s =
    let low = if ltb s.start 0x200000 then mark_used s.start 0x200000 s else s in
    let image = mark_used 0x100000 (align_up k.kernel_end) low in
    let p4 = mark_used k.p4_table (add64 k.p4_table page_size) image in
    let p3 = mark_used k.p3_table (add64 k.p3_table page_size) p4 in
    let p2 = mark_used k.p2_table (add64 k.p2_table page_size) p3 in
    mark_used k.pmm_bitmap (add64 k.pmm_bitmap (bitmap_size * 8)) p2

-- `pmm_init`
pub init : Symbols → (mem_start mem_end : ℕ) → Pmm → Pmm
init k mem_start mem_end s =
    if leb mem_end mem_start
    then s
    else if (mem_end - mem_start) / page_size == 0
    then record s { start = mem_start; limit = mem_end; total_pages = 0 }
    else reserve_boot k (wiped (sized mem_start mem_end s))

-- The search of `pmm_alloc_pages` from round `i`, with `n` left: the first page of the run.
pub search : (n i hint count : ℕ) → Pmm → Option ℕ
search zero i hint count s = none
search (suc n) i hint count s =
    let page = add64 hint i % s.total_pages in
    let rest = search n (i + 1) hint count s in
    if ltb s.total_pages (add64 page count)
    then rest
    else if range_is_clear page count s
    then some page
    else rest

-- The loop that sets the bits of a run, at `j` with `n` rounds left.
pub set_loop : (n page j : ℕ) → Pmm → Pmm
set_loop zero page j s = s
set_loop (suc n) page j s = set_loop n page (j + 1) (set_bit (add64 page j) s)

-- What `pmm_alloc_pages` does with the run that it found.
pub take_run : (page count : ℕ) → Pmm → ℕ × Pmm
take_run page count s =
    let result = add64 s.start (mul64 page page_size) in
    (
      result,
      record (set_loop count page 0 s) {
        used_pages = add64 s.used_pages count;
        last_alloc_hint = add64 page count;
        memory = memset result 0 (count * page_size) s.memory;
      },
    )

-- `pmm_alloc_pages`: the address, or 0; `none` is the division by zero of an empty range.
pub alloc_pages : ℕ → Pmm → Option (ℕ × Pmm)
alloc_pages count s =
    if count == 0
    then some (0, s)
    else if s.total_pages == 0
    then none
    else (elim (search s.total_pages 0 (s.last_alloc_hint % s.total_pages) count s) [
      | some page ↦ some (take_run page count s)
      | none ↦ some (0, s)
    ])

-- `pmm_alloc_page`
unfoldable pub alloc_page : Pmm → Option (ℕ × Pmm)
alloc_page s = alloc_pages 1 s

-- The loop that looks for a page that is free already: whether all are in use.
pub used_loop : (n page i : ℕ) → Pmm → Bool
used_loop zero page i s = true
used_loop (suc n) page i s =
    let rest = used_loop n page (i + 1) s in if test_bit (add64 page i) s then rest else false

-- The loop that clears the bits of a run.
pub free_loop : (n page i : ℕ) → Pmm → Pmm
free_loop zero page i s = s
free_loop (suc n) page i s = free_loop n page (i + 1) (clear_bit (add64 page i) s)

-- `pmm_free_pages` on the page of its address, behind the guards on the address.
pub free_run : (page count : ℕ) → Pmm → Pmm
free_run page count s =
    if ltb s.total_pages (add64 page count)
    then s
    else if used_loop count page 0 s
    then record (free_loop count page 0 s) {
      used_pages = sub64 s.used_pages count;
      last_alloc_hint = if ltb page s.last_alloc_hint then page else s.last_alloc_hint;
    }
    else s

-- `pmm_free_pages`
pub free_pages : (addr count : ℕ) → Pmm → Pmm
free_pages addr count s =
    if count == 0
    then s
    else if ltb addr s.start || leb s.limit addr
    then s
    else if addr % page_size == 0
    then free_run (sub64 addr s.start / page_size) count s
    else s

-- `pmm_free_page`
pub free_page : ℕ → Pmm → Pmm
free_page addr s = free_pages addr 1 s

pub get_total_memory : Pmm → ℕ
get_total_memory s = mul64 s.total_pages page_size

pub get_used_memory : Pmm → ℕ
get_used_memory s = mul64 s.used_pages page_size

pub get_free_memory : Pmm → ℕ
get_free_memory s =
    if leb s.total_pages s.used_pages then 0 else mul64 (s.total_pages - s.used_pages) page_size
