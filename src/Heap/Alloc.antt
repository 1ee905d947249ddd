-- ===== src/Heap/Alloc.antt =====
-- The search of `kmalloc` of src/kernel/mm/heap.c, on a chain of blocks.
use szczupak_os.Heap.Used.{
  extend-Rechained, largest_free, used-taken, placed, no_room, Allocated, used,
}
use szczupak_os.Heap.Merge.{valid_inside, heap_end, Rechained, IsPlaced}
use szczupak_os.Heap.Chain.{link, Chain-end, Chain}
use szczupak_os.Heap.{take_block, returned, continued, try_block, Heap}
use szczupak_os.Heap.Take.{Rechained-Chain, take_block-Rechained, Rechained-trans, taken}
use szczupak_os.Base.{
  ℕ, ◌+◌, ◌%◌, ◌≤◌, ◌<◌, ◌≡◌, refl, ap, Bool, true, false, ◌&&◌, List, [], ◌∷◌, arith, leb, le→leb,
  ne→==,
}

behind :
    (s s' s2 : Heap) (n : ℕ) (f : Bool) (bs cs : List (ℕ × Bool)) (q p : ℕ)
    → Rechained s q p ((n, f) ∷ bs) s'
    → Rechained s' p (p + 40 + n) cs s2
    → Rechained s q p ((n, f) ∷ cs) s2
behind s s' s2 n f bs cs q p before r =
    Rechained-trans s s' s2 q p q p ((n, f) ∷ bs) ((n, f) ∷ cs) before
      (extend-Rechained s' s2 n f bs cs q p (Rechained-Chain s s' q p ((n, f) ∷ bs) before) r)
      (omega arith)

-- What is left of a block and the blocks behind it, where the block does not fit.
pub passed :
    (size : ℕ) (s s' : Heap) (n : ℕ) (f : Bool) (bs : List (ℕ × Bool)) (q p : ℕ) (x : ℕ × Heap)
    → Rechained s q p ((n, f) ∷ bs) s'
    → (f ≡ true → n < size)
    → Allocated size s' p (p + 40 + n) bs x
    → Allocated size s q p ((n, f) ∷ bs) x
unfolding used largest_free
passed size s s' n true bs q p x before small (no_room cs s2 e r same room) =
    no_room ((n, true) ∷ cs) s2 e (behind s s' s2 n true bs cs q p before r) same
      (let less = small refl in omega arith)
passed size s s' n false bs q p x before small (no_room cs s2 e r same room) =
    no_room ((n, false) ∷ cs) s2 e (behind s s' s2 n false bs cs q p before r)
      (ap (λ us. (p + 40, n) ∷ us) same) room
passed size s s' n true bs q p x before small
      (placed t k pre post cs s2 e r at old new enough tight) =
    placed t k pre post ((n, true) ∷ cs) s2 e (behind s s' s2 n true bs cs q p before r)
      (omega arith) old new enough tight
passed size s s' n false bs q p x before small
      (placed t k pre post cs s2 e r at old new enough tight) =
    placed t k ((p + 40, n) ∷ pre) post ((n, false) ∷ cs) s2 e
      (behind s s' s2 n false bs cs q p before r) (omega arith) (ap (λ us. (p + 40, n) ∷ us) old)
      (ap (λ us. (p + 40, n) ∷ us) new) enough tight

module _ (size : ℕ) (at_least : 16 ≤ size) (aligned : size % 8 ≡ 0) where
  -- The round that looks at a free block, after the merge.
  pub fits_round :
      (s : Heap) (n : ℕ) (bs : List (ℕ × Bool)) (q p : ℕ)
      → IsPlaced s
      → s.storage ≤ p
      → Chain (heap_end s) s.blocks q p ((n, true) ∷ bs)
      → size ≤ n
      → (x : ℕ × Heap) × (try_block p size s ≡ returned x.0 x.1)
        × Allocated size s q p ((n, true) ∷ bs) x
  unfolding Chain used
  fits_round s n bs q p h low c enough =
      let (b, l, a, rest) = c in
      let end = Chain-end bs (heap_end s) s.blocks p (p + 40 + n) rest in
      let (k, now, room, tight) = used-taken p n size bs enough in
      (
        (p + 40, take_block p size s),
        rw (b, le→leb size n enough)
            (ap (λ z. returned z (take_block p size s)) (omega (arith, end, h.fits))),
        placed (p + 40) k [] (used (p + 40 + n) bs) (taken n size bs) (take_block p size s) refl
            (take_block-Rechained s n size bs q p h low c at_least aligned enough) (omega arith)
            refl now room tight,
      )

  -- The round that passes a block.
  pub next_round :
      (s : Heap) (n : ℕ) (f : Bool) (bs : List (ℕ × Bool)) (q p : ℕ)
      → IsPlaced s
      → s.storage ≤ p
      → Chain (heap_end s) s.blocks q p ((n, f) ∷ bs)
      → (f && leb size n) ≡ false
      → try_block p size s ≡ continued (link (p + 40 + n) bs) s
  unfolding Chain
  next_round s n f [] q p h low (b, l, a, rest) no_fit = rw (b, no_fit) refl
  next_round s n f ((m, g) ∷ bs) q p h low (b, l, a, (b', l', a', rest)) no_fit =
      let end = Chain-end bs (heap_end s) s.blocks (p + 40 + n) (p + 40 + n + 40 + m) rest in
      rw
        (
          b,
          no_fit,
          valid_inside s (p + 40 + n) h (omega arith) (omega arith),
          ne→== (p + 40 + n) 0 (omega arith),
        )
        refl
