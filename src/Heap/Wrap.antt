-- ===== src/Heap/Wrap.antt =====
-- `kmalloc` of src/kernel/mm/heap.c for sizes so large that rounding them wraps.
use szczupak_os.Heap.Take.{Rechained-Chain}
use szczupak_os.Heap.Search.{loop_returned, round_lem, Rechained-IsPlaced}
use szczupak_os.Heap.Merge.{
  merged_rest, merged_size, merged, merge_next-Rechained, heap_end, IsPlaced,
}
use szczupak_os.Heap.Kmalloc.{IsHeap}
use szczupak_os.Heap.Chain.{Chain-end, Chain}
use szczupak_os.Heap.{
  kmalloc_loop, heap_max_steps, Block, take_block, returned, try_block, merge_next, heap_min_size,
  Heap, rounded, kmalloc,
}
use szczupak_os.Base.{
  subst, sym, ℕ, ◌+◌, ◌^◌, ◌≤◌, ◌<◌, ◌≡◌, sym, ap, ◌∙◌, subst, Bool, true, ◌&&◌, List, ◌∷◌, arith,
  leb, ge→ltb, le→leb, ne→==,
}

rounded_wrap : (size : ℕ) → size < 2 ^ 64 → 2 ^ 64 ≤ size + 7 → rounded size ≡ 0
rounded_wrap size h wraps = rw (ge→ltb size heap_min_size (omega arith)) (omega arith)

-- Any free block is large enough for no bytes.
empty_round :
    (s : Heap) (n : ℕ) (bs : List (ℕ × Bool)) (q p : ℕ)
    → IsPlaced s
    → s.storage ≤ p
    → Chain (heap_end s) s.blocks q p ((n, true) ∷ bs)
    → try_block p 0 s ≡ returned (p + 40) (take_block p 0 s)
unfolding Chain
empty_round s n bs q p h low (b, l, a, rest) =
    let end = Chain-end bs (heap_end s) s.blocks p (p + 40 + n) rest in
    let fits : ((s.blocks p).free && leb 0 (s.blocks p).size) ≡ true =
      ap (λ (k : Block). k.free && leb 0 k.size) b ∙ le→leb 0 n (omega arith) in
    rw fits (ap (λ z. returned z (take_block p 0 s)) (omega (arith, end, h.fits)))

-- A heap whose first block is free does not refuse a size within 7 of 2^64: the size wraps to 0 when
-- `kmalloc` rounds it, and the address of the first block is returned.
pub kmalloc_wraps :
    (size n : ℕ) (s : Heap) (bs : List (ℕ × Bool))
    → IsHeap s ((n, true) ∷ bs)
    → size < 2 ^ 64
    → 2 ^ 64 ≤ size + 7
    → (kmalloc true size s).0 ≡ s.storage + 40
unfolding kmalloc
kmalloc_wraps size n s bs h low wraps =
    let p = s.storage in
    let s1 = merge_next p s in
    let step = merge_next-Rechained s n true bs 0 p h.placed (omega arith) h.chain in
    let placed = Rechained-IsPlaced s s1 0 p (merged n true bs) step h.placed in
    let same : s1.storage ≡ p = ap (λ (u : Heap). u.storage) step.same in
    let taken =
      empty_round s1 (merged_size n bs) (merged_rest bs) 0 p placed (omega arith)
        (Rechained-Chain s s1 0 p (merged n true bs) step) in
    let first = round_lem s n 0 true bs 0 p h.placed (omega arith) h.chain ∙ taken in
    let result = loop_returned 65535 p 0 (p + 40) s (take_block p 0 s1) first in
    rw (ne→== size 0 (omega arith), rounded_wrap size low wraps)
      (subst (λ z. (kmalloc_loop heap_max_steps z 0 s).0 ≡ p + 40) (sym h.start)
        (ap (λ x. x.0) result))
