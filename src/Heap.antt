-- ===== src/Heap.antt =====
-- The kernel heap, src/kernel/mm/heap.c: a list of blocks in `heap_storage`, each behind its header.
-- A header stands at its address in a store, apart from the bytes of the blocks, and a pointer is an
-- address, where 0 is null. Whether `heap_lock_acquire` gets the lock is an argument; behind it a
-- function is one step.
pub mod Chain
pub mod Merge
pub mod Take
pub mod Used
pub mod Alloc
pub mod Search
pub mod Free
pub mod Kmalloc
pub mod Kfree
pub mod Wrap
pub mod Bounds
mod Tests
use szczupak_os.Base.{
  ℕ, zero, suc, ◌+◌, ◌-◌, ◌*◌, ◌/◌, ◌%◌, ◌^◌, ◌≤◌, ◌<◌, min, ◌≡◌, refl, sym, ap, ap₂, ◌∙◌, subst,
  ◌≢◌, ◌↔◌, ◌⊎◌, inl, inr, Bool, true, false, not, ◌&&◌, ◌||◌, Option, none, some, List, [], ◌∷◌,
  ◌++◌, arith, ltb, leb, ◌==◌, if◌then◌else◌, ltb→lt, ltb→ge, lt→ltb, ge→ltb, leb→le, leb→gt,
  le→leb, gt→leb, ==→eq, ==→ne, eq→==, ne→==, tests, Bool-cases, Option-cases, if_elim, some_inj,
  length, take, drop, get_or, length-append, length-take, take_nil, take_cons, take_zero, take_all,
  drop_nil, take-min, All, update, slice, update_self, update_ne, slice_eq, add16, add32, sub32,
  add64, sub64, mul64, page_size, align_down, align_up, max, bit_or, has_bit, bit_or_step,
  bit_or-zero, zero-bit_or, bit_or_frame, bit_or_odd, bit_or_half, Memory, read64, write64,
  read64-write64, write64_frame, read64_frame, read64-write64_ne, bit_or_128, AreBytes, read64-lt,
  write64-AreBytes,
}
use szczupak_os.Pmm.{memset}

-- `HEAP_MAGIC`
abbrev pub heap_magic : ℕ
heap_magic = 0xABCD1234

-- `HEAP_MIN_SIZE`
abbrev pub heap_min_size : ℕ
heap_min_size = 16

-- The size of `heap_storage`.
abbrev pub heap_size : ℕ
heap_size = 0x100000

-- `HEAP_MAX_STEPS`
abbrev pub heap_max_steps : ℕ
heap_max_steps = 65536

-- `sizeof(heap_block_t)`
abbrev pub header_size : ℕ
header_size = 40

-- `heap_block_t`
pub record Block : Type 0 where
  pub magic : ℕ
  pub size : ℕ
  pub free : Bool
  pub next : ℕ
  pub prev : ℕ

-- The static variables: `storage` is the address of `heap_storage`.
pub record Heap : Type 0 where
  pub storage : ℕ
  pub heap_start : ℕ
  pub blocks : ℕ → Block
  pub memory : Memory

abbrev pub set_block : ℕ → Block → Heap → Heap
set_block p b s = record s { blocks = update s.blocks p b }

abbrev pub set_prev : (p prev : ℕ) → Heap → Heap
set_prev p q s = set_block p (record (s.blocks p) { prev = q }) s

-- `heap_block_ptr_valid`
unfoldable pub block_ptr_valid : ℕ → Heap → Bool
block_ptr_valid p s =
    if p == 0
    then false
    else leb s.storage p && leb (add64 p header_size) (add64 s.storage heap_size)

-- The end of `heap_merge_next`, which joins `block` with the free block behind it.
abbrev pub join : (block next : ℕ) → Heap → Heap
join block next s =
    let b = s.blocks block in
    let joined = record b {
      size = add64 b.size (add64 header_size (s.blocks next).size);
      next = (s.blocks next).next;
    } in
    let s1 = set_block block joined s in
    let after = (s1.blocks next).next in
    if block_ptr_valid after s1 then set_prev after block s1 else s1

-- `heap_merge_next`
unfoldable pub merge_next : ℕ → Heap → Heap
merge_next block s =
    let b = s.blocks block in
    if not (block_ptr_valid block s)
    then s
    else if not (block_ptr_valid b.next s)
    then s
    else if not ((s.blocks b.next).magic == heap_magic && (s.blocks b.next).free)
    then s
    else if not (add64 (add64 block header_size) b.size == b.next)
    then s
    else join block b.next s

-- `heap_init`
unfoldable pub heap_init : Heap → Heap
heap_init s =
    set_block s.storage
      (record {
        magic = heap_magic;
        size = heap_size - header_size;
        free = true;
        next = 0;
        prev = 0;
      })
      (record s { heap_start = s.storage })

-- The rest of a block that is larger than what is asked for becomes a free block at `rest`.
abbrev pub split : (current rest size : ℕ) → Heap → Heap
split current rest size s =
    let b = s.blocks current in
    let s1 =
      set_block rest
        (record {
          magic = heap_magic;
          size = sub64 (sub64 b.size size) header_size;
          free = true;
          next = b.next;
          prev = current;
        })
        s in
    let s2 = if b.next == 0 then s1 else set_prev b.next rest s1 in
    set_block current (record (s2.blocks current) { size = size; next = rest }) s2

-- The block that `kmalloc` found is split where it is large enough, and taken.
unfoldable pub take_block : (current size : ℕ) → Heap → Heap
take_block current size s =
    let large = ltb (add64 (add64 size header_size) heap_min_size) (s.blocks current).size in
    let s1 = if large then split current (add64 (add64 current header_size) size) size s else s in
    set_block current (record (s1.blocks current) { free = false }) s1

-- What a round of the loop of `kmalloc` does: it returns, or goes on with the next block.
pub data Round : Type 0 where
  returned : (result : ℕ) (s : Heap) → Round
  continued : (next : ℕ) (s : Heap) → Round

-- The round after the merge.
abbrev pub try_block : (current size : ℕ) → Heap → Round
try_block current size s =
    let b = s.blocks current in
    if b.free && leb size b.size
    then returned (add64 current header_size) (take_block current size s)
    else if not (b.next == 0) && not (block_ptr_valid b.next s)
    then returned 0 s
    else continued b.next s

unfoldable pub round : (current size : ℕ) → Heap → Round
round current size s =
    if current == 0
    then returned 0 s
    else if not (block_ptr_valid current s)
    then returned 0 s
    else if not ((s.blocks current).magic == heap_magic)
    then returned 0 s
    else try_block current size (if (s.blocks current).free then merge_next current s else s)

-- The loop of `kmalloc`, with `n` steps left before it gives up.
unfoldable pub kmalloc_loop : (n current size : ℕ) → Heap → ℕ × Heap
kmalloc_loop zero current size s = (0, s)
kmalloc_loop (suc n) current size s = elim (round current size s) [
  | returned r s' ↦ (r, s')
  | continued next s' ↦ kmalloc_loop n next size s'
]

-- The size that `kmalloc` looks for.
abbrev pub rounded : ℕ → ℕ
rounded size = (let n = if ltb size heap_min_size then heap_min_size else size in add64 n 7 / 8 * 8)

-- `kmalloc`
unfoldable pub kmalloc : (locked : Bool) (size : ℕ) → Heap → ℕ × Heap
kmalloc locked size s =
    if size == 0
    then (0, s)
    else if not locked
    then (0, s)
    else kmalloc_loop heap_max_steps s.heap_start (rounded size) s

-- The end of `kfree`, for a block that is in use.
abbrev pub release : ℕ → Heap → Heap
release block s =
    let s1 = merge_next block (set_block block (record (s.blocks block) { free = true }) s) in
    let prev = (s1.blocks block).prev in
    if block_ptr_valid prev s1 && ((s1.blocks prev).magic == heap_magic && (s1.blocks prev).free)
    then merge_next prev s1
    else s1

-- `kfree`
unfoldable pub kfree : (locked : Bool) (ptr : ℕ) → Heap → Heap
kfree locked ptr s =
    let block = sub64 ptr header_size in
    if ptr == 0
    then s
    else if not locked
    then s
    else if not (block_ptr_valid block s)
    then s
    else if not ((s.blocks block).magic == heap_magic)
    then s
    else if (s.blocks block).free
    then s
    else release block s

-- `kcalloc`
pub kcalloc : (locked : Bool) (num size : ℕ) → Heap → ℕ × Heap
kcalloc locked num size s =
    let total = mul64 num size in
    let (p, s') = kmalloc locked total s in
    if num == 0 || size == 0
    then (0, s)
    else if not (total / num == size)
    then (0, s)
    else if p == 0
    then (0, s')
    else (p, record s' { memory = memset p 0 total s'.memory })

-- The copy of `krealloc`: byte `i` and the `n - 1` after it.
pub copy_loop : (n i from to : ℕ) → Memory → Memory
copy_loop zero i from to m = m
copy_loop (suc n) i from to m = copy_loop n (i + 1) from to (update m (to + i) (m (from + i)))

-- `krealloc`; `locked` is for `kmalloc` and `locked'` for `kfree`.
pub krealloc : (locked locked' : Bool) (ptr size : ℕ) → Heap → ℕ × Heap
krealloc locked locked' ptr size s =
    let b = s.blocks (sub64 ptr header_size) in
    let (p, s') = kmalloc locked size s in
    let copied = record s' {
      memory = copy_loop (min (s'.blocks (sub64 ptr header_size)).size size) 0 ptr p s'.memory;
    } in
    if ptr == 0
    then (p, s')
    else if size == 0
    then (0, kfree locked' ptr s)
    else if not (b.magic == heap_magic)
    then (0, s)
    else if leb size b.size
    then (ptr, s)
    else if p == 0
    then (0, s')
    else (p, kfree locked' ptr copied)
