-- ===== src/Heap/Tests.antt =====
-- The theorems about src/kernel/mm/heap.c for a heap as `heap_init` makes it, and runs of the code.
use szczupak_os.Heap.Bounds.{kmalloc_inside}
use szczupak_os.Heap.Kfree.{kfree-Freed, remove_block, has_block, kfree-kmalloc}
use szczupak_os.Heap.Used.{used}
use szczupak_os.Heap.Wrap.{kmalloc_wraps}
use szczupak_os.Heap.Merge.{heap_end, IsPlaced}
use szczupak_os.Heap.Kmalloc.{Rechained-IsHeap, kmalloc-Served, heap_init-IsHeap, Served, IsHeap}
use szczupak_os.Heap.{
  take_block, block_ptr_valid, merge_next, round, kmalloc_loop, kfree, heap_init, header_size,
  kmalloc, heap_size, Heap,
}
use szczupak_os.Heap.Take.{taken, take_block-Rechained}
use szczupak_os.Base.{◌≤◌, ◌∙◌, ap, ℕ, ◌+◌, ◌-◌, ◌≡◌, refl, Bool, true, false, List, [], ◌∷◌, arith}

abbrev before : Heap
before = record {
  storage = 0x200000;
  heap_start = 0;
  blocks = λ _. record { magic = 0; size = 0; free = false; next = 0; prev = 0 };
  memory = λ _. 0;
}

before-IsPlaced : IsPlaced before
before-IsPlaced = record { positive = omega arith; fits = omega arith }

abbrev heap : Heap
heap = heap_init before

abbrev whole : List (ℕ × Bool)
whole = (heap_size - header_size, true) ∷ []

heap-IsHeap : IsHeap heap whole
heap-IsHeap = heap_init-IsHeap before before-IsPlaced

kmalloc-Served_example : Served true 100 heap whole (kmalloc true 100 heap)
kmalloc-Served_example = kmalloc-Served true 100 heap whole heap-IsHeap (omega arith) (omega arith)

first_address : (kmalloc true 100 heap).0 ≡ 0x200028
unfolding kmalloc kmalloc_loop round merge_next heap_init block_ptr_valid take_block
first_address = refl

second_address : (kmalloc true 8 (kmalloc true 100 heap).1).0 ≡ 0x2000B8
unfolding kmalloc kmalloc_loop round merge_next heap_init block_ptr_valid take_block
second_address = refl

kmalloc_inside_example :
    (heap.storage + 40 ≤ (kmalloc true 100 heap).0)
    × ((kmalloc true 100 heap).0 + 100 ≤ heap_end heap)
kmalloc_inside_example =
    kmalloc_inside 100 heap whole heap-IsHeap (omega arith) (omega arith)
      (λ e. absurd (omega (arith, first_address)))

kfree-kmalloc_example :
    (cs : List (ℕ × Bool)) × IsHeap
      (kfree true (kmalloc true 100 heap).0 (kmalloc true 100 heap).1)
      cs
    × (used heap.storage cs ≡ used heap.storage whole)
kfree-kmalloc_example =
    kfree-kmalloc 100 heap whole heap-IsHeap (omega arith) (omega arith)
      (λ e. absurd (omega (arith, first_address)))

kmalloc_wraps_example : (kmalloc true 0xFFFFFFFFFFFFFFFF heap).0 ≡ heap.storage + 40
kmalloc_wraps_example =
    kmalloc_wraps 0xFFFFFFFFFFFFFFFF (heap_size - header_size) heap [] heap-IsHeap (omega arith)
      (omega arith)

abbrev in_use : List (ℕ × Bool)
in_use = taken (heap_size - header_size) 104 []

busy-IsHeap : IsHeap (take_block 0x200000 104 heap) in_use
unfolding heap_init
busy-IsHeap = Rechained-IsHeap heap (take_block 0x200000 104 heap) whole in_use heap-IsHeap (
    take_block-Rechained heap (heap_size - header_size) 104 [] 0 0x200000 heap-IsHeap.placed
      (omega arith) heap-IsHeap.chain (omega arith) refl (omega arith))

in_use-has_block : has_block 0x200028 (used 0x200000 in_use) ≡ true
unfolding has_block used taken
in_use-has_block = refl

same_storage : (take_block 0x200000 104 heap).storage ≡ 0x200000
unfolding take_block heap_init
same_storage = refl

kfree-Freed_example :
    let s = take_block 0x200000 104 heap in
    (cs : List (ℕ × Bool)) × IsHeap (kfree true 0x200028 s) cs
    × (used s.storage cs ≡ remove_block 0x200028 (used s.storage in_use))
kfree-Freed_example =
    kfree-Freed 0x200028 (take_block 0x200000 104 heap) in_use busy-IsHeap
      (ap (λ x. has_block 0x200028 (used x in_use)) same_storage ∙ in_use-has_block)
