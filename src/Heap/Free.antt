-- ===== src/Heap/Free.antt =====
-- `kfree` of src/kernel/mm/heap.c on a block, with the blocks before and behind it.
use szczupak_os.Heap.Search.{Rechained-IsPlaced}
use szczupak_os.Heap.Take.{Rechained-trans, Rechained-Chain, set_free-Rechained}
use szczupak_os.Heap.Merge.{
  merged_rest, merged_size, valid_inside, null_invalid, merge_next-Rechained, merged, Rechained,
  heap_end, IsPlaced,
}
use szczupak_os.Heap.Used.{used-merged, extend-Rechained, used}
use szczupak_os.Heap.Chain.{Chain-end, Chain}
use szczupak_os.Heap.{
  header_size, Block, set_block, release, merge_next, heap_magic, block_ptr_valid, kfree, Heap,
}
use szczupak_os.Base.{
  ℕ, ◌+◌, ◌≤◌, ◌≡◌, refl, sym, ap, ap₂, ◌∙◌, subst, inl, inr, Bool, true, false, ◌&&◌, List, ◌∷◌,
  arith, ◌==◌, if◌then◌else◌, ne→==, Bool-cases, sub64,
}

-- The blocks in use with a block at `p` in front.
abbrev pub front : (p n : ℕ) → Bool → List (ℕ × ℕ) → List (ℕ × ℕ)
front p n f us = if f then us else (p + 40, n) ∷ us

pub used_front :
    (p n : ℕ) (f : Bool) (bs : List (ℕ × Bool))
    → used p ((n, f) ∷ bs) ≡ front p n f (used (p + 40 + n) bs)
unfolding used
used_front p n true bs = refl
used_front p n false bs = refl

-- Behind its guards, `kfree` releases a block in use.
pub kfree-release :
    (s : Heap) (n : ℕ) (bs : List (ℕ × Bool)) (q p : ℕ)
    → IsPlaced s
    → s.storage ≤ p
    → Chain (heap_end s) s.blocks q p ((n, false) ∷ bs)
    → kfree true (p + 40) s ≡ release p s
unfolding kfree Chain
kfree-release s n bs q p h low (b, l, a, rest) =
    let end = Chain-end bs (heap_end s) s.blocks p (p + 40 + n) rest in
    let block : sub64 (p + 40) header_size ≡ p = omega (arith, end, h.fits) in
    let magic : ((s.blocks p).magic == heap_magic) ≡ true =
      ap (λ (k : Block). k.magic == heap_magic) b in
    let in_use : (s.blocks p).free ≡ false = ap (λ (k : Block). k.free) b in
    rw (ne→== (p + 40) 0 (omega arith), block, valid_inside s p h low (omega arith), magic, in_use)
      refl

-- The block is free, and has taken the free block behind it.
freed-Rechained :
    (s : Heap) (n : ℕ) (bs : List (ℕ × Bool)) (q p : ℕ)
    → IsPlaced s
    → s.storage ≤ p
    → Chain (heap_end s) s.blocks q p ((n, false) ∷ bs)
    → Rechained s q p
        (merged n true bs)
        (merge_next p (set_block p (record (s.blocks p) { free = true }) s))
freed-Rechained s n bs q p h low c =
    let s1 = set_block p (record (s.blocks p) { free = true }) s in
    let step = set_free-Rechained s n false true bs q p c in
    let merge =
      merge_next-Rechained s1 n true bs q p (Rechained-IsPlaced s s1 q p _ step h) low
        (Rechained-Chain s s1 q p _ step) in
    Rechained-trans s s1 (merge_next p s1) q p q p _ _ step merge (omega arith)

abbrev join_prev : (z : ℕ) → Heap → Heap
join_prev z s =
    if block_ptr_valid z s && ((s.blocks z).magic == heap_magic && (s.blocks z).free)
    then merge_next z s
    else s

-- The first block has no block before it.
pub release_first-Rechained :
    (s : Heap) (n : ℕ) (bs : List (ℕ × Bool)) (p : ℕ)
    → IsPlaced s
    → s.storage ≤ p
    → Chain (heap_end s) s.blocks 0 p ((n, false) ∷ bs)
    → Rechained s 0 p (merged n true bs) (release p s)
unfolding Chain
release_first-Rechained s n bs p h low c =
    let s1 = merge_next p (set_block p (record (s.blocks p) { free = true }) s) in
    let step = freed-Rechained s n bs 0 p h low c in
    let prev : (s1.blocks p).prev ≡ 0 = ap (λ (k : Block). k.prev) step.chain.0 in
    subst (λ z. Rechained s 0 p (merged n true bs) (join_prev z s1)) (sym prev)
      (rw (null_invalid s1) step)

join_prev-Rechained :
    (s s1 : Heap) (m : ℕ) (g : Bool) (ds : List (ℕ × Bool)) (q p : ℕ)
    → IsPlaced s
    → s.storage ≤ p
    → Rechained s q p ((m, g) ∷ ds) s1
    → (cs : List (ℕ × Bool)) × Rechained s q p cs (join_prev p s1)
      × (used p cs ≡ front p m g (used (p + 40 + m) ds))
unfolding Chain used
join_prev-Rechained s s1 m g ds q p h low r =
    let here = r.chain.0 in
    let rest_end = Chain-end ds (heap_end s) s1.blocks p (p + 40 + m) r.chain.3 in
    let same : s1.storage ≡ s.storage = ap (λ (u : Heap). u.storage) r.same in
    let h1 = Rechained-IsPlaced s s1 q p ((m, g) ∷ ds) r h in
    let test : (block_ptr_valid p s1 && ((s1.blocks p).magic == heap_magic && (s1.blocks p).free))
        ≡ g =
      ap₂ (λ x y. x && y) (valid_inside s1 p h1 (omega arith) (omega arith))
        (ap (λ (k : Block). k.magic == heap_magic && k.free) here) in
    elim (Bool-cases g) [
      | inl e ↦
          let c1 = Rechained-Chain s s1 q p ((m, g) ∷ ds) r in
          let step = merge_next-Rechained s1 m g ds q p h1 (omega arith) c1 in
          (
            merged m g ds,
            rw (test ∙ e) (Rechained-trans s s1 (merge_next p s1) q p q p _ _ r step (omega arith)),
            used_front p (merged_size m ds) g (merged_rest ds) ∙ rw e (used-merged p m ds),
          )
      | inr e ↦ ((m, g) ∷ ds, rw (test ∙ e) r, used_front p m g ds)
    ]

-- The block before is joined with the block if it is free.
pub release_next-Rechained :
    (s : Heap) (m n : ℕ) (g : Bool) (bs : List (ℕ × Bool)) (q p : ℕ)
    → IsPlaced s
    → s.storage ≤ p
    → Chain (heap_end s) s.blocks q p ((m, g) ∷ (n, false) ∷ bs)
    → (cs : List (ℕ × Bool)) × Rechained s q p cs (release (p + 40 + m) s)
      × (used p cs ≡ front p m g (used (p + 40 + m + 40 + n) bs))
unfolding Chain used
release_next-Rechained s m n g bs q p h low c =
    let r = p + 40 + m in
    let s1 = merge_next r (set_block r (record (s.blocks r) { free = true }) s) in
    let step = freed-Rechained s n bs p r h (omega arith) c.3 in
    let whole = extend-Rechained s s1 m g ((n, false) ∷ bs) (merged n true bs) q p c step in
    let prev : (s1.blocks r).prev ≡ p = ap (λ (k : Block). k.prev) step.chain.0 in
    let (cs, out, us) = join_prev-Rechained s s1 m g (merged n true bs) q p h low whole in
    (
      cs,
      subst (λ z. Rechained s q p cs (join_prev z s1)) (sym prev) out,
      us ∙ ap (front p m g) (used-merged r n bs),
    )
