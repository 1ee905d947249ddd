-- ===== src/Heap/Merge.antt =====
-- `heap_merge_next` of src/kernel/mm/heap.c on a chain of blocks.
use szczupak_os.Heap.Chain.{Chain-prev, Chain-update, link, header, Chain-end, Chain}
use szczupak_os.Heap.{
  set_prev, set_block, heap_magic, Block, join, merge_next, heap_size, header_size, block_ptr_valid,
  Heap,
}
use szczupak_os.Base.{
  ℕ, ◌+◌, ◌%◌, ◌^◌, ◌≤◌, ◌<◌, ◌≡◌, refl, sym, ap, ◌∙◌, subst, Bool, true, false, ◌&&◌, List, [],
  ◌∷◌, arith, ◌==◌, if◌then◌else◌, le→leb, eq→==, ne→==, update, update_self, update_ne, add64,
}

-- The storage of a heap lies in the 64-bit address space, not at null.
pub record IsPlaced (s : Heap) : Type 0 where
  pub positive : 0 < s.storage
  pub fits : s.storage + heap_size < 2 ^ 64

-- The end of the storage.
abbrev pub heap_end : Heap → ℕ
heap_end s = s.storage + heap_size

pub valid_inside :
    (s : Heap) (p : ℕ)
    → IsPlaced s
    → s.storage ≤ p
    → p + 40 ≤ heap_end s
    → block_ptr_valid p s ≡ true
unfolding block_ptr_valid
valid_inside s p h low high =
    rw
      (
        ne→== p 0 (omega (arith, h.positive)),
        le→leb s.storage p low,
        le→leb (add64 p header_size) (add64 s.storage heap_size) (omega (arith, h.fits)),
      )
      refl

pub null_invalid : (s : Heap) → block_ptr_valid 0 s ≡ false
unfolding block_ptr_valid
null_invalid s = refl

-- A block of size `n` with the free block behind it, if one stands there.
unfoldable pub merged_size : (n : ℕ) → List (ℕ × Bool) → ℕ
merged_size n [] = n
merged_size n ((m, true) ∷ bs) = n + 40 + m
merged_size n ((m, false) ∷ bs) = n

unfoldable pub merged_rest : List (ℕ × Bool) → List (ℕ × Bool)
merged_rest [] = []
merged_rest ((m, true) ∷ bs) = bs
merged_rest ((m, false) ∷ bs) = (m, false) ∷ bs

abbrev pub merged : (n : ℕ) (f : Bool) → List (ℕ × Bool) → List (ℕ × Bool)
merged n f bs = (merged_size n bs, f) ∷ merged_rest bs

-- `s'` is `s` with a chain from `p` on, and nothing else changed.
pub record Rechained (s : Heap) (q p : ℕ) (bs : List (ℕ × Bool)) (s' : Heap) : Type 0 where
  pub chain : Chain (heap_end s) s'.blocks q p bs
  pub before : (x : ℕ) → x < p → s'.blocks x ≡ s.blocks x
  pub same : s' ≡ record s { blocks = s'.blocks }

-- The header that `join` writes.
joined_header :
    (n m z q w : ℕ) (f : Bool) (x y : Block) (next : ℕ)
    → x ≡ header n f next q
    → y ≡ header m true z w
    → n + 40 + m < 2 ^ 64
    → (record x { size = add64 x.size (add64 header_size y.size); next = y.next })
      ≡ header (n + 40 + m) f z q
joined_header n m z q w f x y next a b l = rw (a, b) (ap (λ k. header k f z q) (omega arith))

abbrev pub relink : (z p : ℕ) → Heap → Heap
relink z p s = if block_ptr_valid z s then set_prev z p s else s

-- The block at `p` is written, and the block behind it points back to it.
pub relink-Rechained :
    (s : Heap) (n : ℕ) (f : Bool) (bs : List (ℕ × Bool)) (q q' p r : ℕ) (j : Block)
    → IsPlaced s
    → s.storage ≤ p
    → r ≡ p + 40 + n
    → j ≡ header n f (link r bs) q
    → 16 ≤ n
    → n % 8 ≡ 0
    → Chain (heap_end s) s.blocks q' r bs
    → Rechained s q p ((n, f) ∷ bs) (relink (link r bs) p (set_block p j s))
unfolding Chain
relink-Rechained s n f [] q q' p r j h low at b l a c =
    rw (null_invalid (set_block p j s)) (record {
      chain = (update_self s.blocks p j ∙ b, l, a, omega arith);
      before = λ x k. update_ne s.blocks p j x (omega arith);
      same = refl;
    })
relink-Rechained s n f ((m, g) ∷ bs) q q' p r j h low at b l a c =
    let (b', l', a', rest) = c in
    let end = Chain-end bs (heap_end s) s.blocks r (r + 40 + m) rest in
    let s1 = set_block p j s in
    let placed : IsPlaced s1 = record { positive = h.positive; fits = h.fits } in
    let moved : Chain (heap_end s) s1.blocks q' r ((m, g) ∷ bs) =
      Chain-update ((m, g) ∷ bs) (heap_end s) s.blocks q' r p j c (omega arith) in
    let tail : Chain (heap_end s) (set_prev r p s1).blocks p r ((m, g) ∷ bs) =
      Chain-prev m g bs (heap_end s) s1.blocks q' p r moved in
    rw (valid_inside s1 r placed (omega arith) (omega arith)) (record {
      chain = (
        update_ne s1.blocks r _ p (omega arith)
            ∙ update_self s.blocks p j
            ∙ b
            ∙ ap (λ x. header n f x q) at,
        l,
        a,
        subst (λ x. Chain (heap_end s) (set_prev r p s1).blocks p x ((m, g) ∷ bs)) at tail,
      );
      before =
          λ x k. update_ne s1.blocks r _ x (omega arith) ∙ update_ne s.blocks p j x (omega arith);
      same = refl;
    })

join-Rechained :
    (s : Heap) (n m : ℕ) (f : Bool) (bs : List (ℕ × Bool)) (q p : ℕ)
    → IsPlaced s
    → s.storage ≤ p
    → Chain (heap_end s) s.blocks q p ((n, f) ∷ (m, true) ∷ bs)
    → Rechained s q p ((n + 40 + m, f) ∷ bs) (join p (p + 40 + n) s)
unfolding Chain
join-Rechained s n m f bs q p h low (b, l, a, (b', l', a', c)) =
    let x = s.blocks p in
    let y = s.blocks (p + 40 + n) in
    let r = p + 40 + n + 40 + m in
    let j : Block = record x { size = add64 x.size (add64 header_size y.size); next = y.next } in
    let end = Chain-end bs (heap_end s) s.blocks (p + 40 + n) r c in
    let after : (update s.blocks p j (p + 40 + n)).next ≡ link r bs =
      ap (λ (k : Block). k.next) (update_ne s.blocks p j (p + 40 + n) (omega arith))
      ∙ ap (λ (k : Block). k.next) b' in
    subst (λ z. Rechained s q p ((n + 40 + m, f) ∷ bs) (relink z p (set_block p j s))) (sym after)
      (relink-Rechained s (n + 40 + m) f bs q (p + 40 + n) p r j h low (omega arith)
        (joined_header n m (link r bs) q p f x y (p + 40 + n) b b' (omega (arith, end, h.fits)))
        (omega arith) (omega arith) c)

pub merge_next-Rechained :
    (s : Heap) (n : ℕ) (f : Bool) (bs : List (ℕ × Bool)) (q p : ℕ)
    → IsPlaced s
    → s.storage ≤ p
    → Chain (heap_end s) s.blocks q p ((n, f) ∷ bs)
    → Rechained s q p (merged n f bs) (merge_next p s)
unfolding Chain merge_next merged_size merged_rest
merge_next-Rechained s n f [] q p h low c =
    let (b, l, a, _) = c in
    rw (valid_inside s p h low (omega arith), b, null_invalid s)
      (record { chain = c; before = λ x k. refl; same = refl })
merge_next-Rechained s n f ((m, false) ∷ bs) q p h low c =
    let (b, l, a, (b', l', a', rest)) = c in
    let end = Chain-end bs (heap_end s) s.blocks (p + 40 + n) (p + 40 + n + 40 + m) rest in
    rw
      (
        valid_inside s p h low (omega arith),
        b,
        valid_inside s (p + 40 + n) h (omega arith) (omega arith),
        b',
      )
      (record { chain = c; before = λ x k. refl; same = refl })
merge_next-Rechained s n f ((m, true) ∷ bs) q p h low c =
    let (b, l, a, (b', l', a', rest)) = c in
    let end = Chain-end bs (heap_end s) s.blocks (p + 40 + n) (p + 40 + n + 40 + m) rest in
    let next : (s.blocks p).next ≡ p + 40 + n = ap (λ (k : Block). k.next) b in
    let adjacent : (add64 (add64 p header_size) (s.blocks p).size == (s.blocks p).next) ≡ true =
      eq→== _ _ (omega (arith, next, ap (λ (k : Block). k.size) b, h.fits)) in
    let valid : block_ptr_valid (s.blocks p).next s ≡ true =
      ap (λ x. block_ptr_valid x s) next
      ∙ valid_inside s (p + 40 + n) h (omega arith) (omega arith) in
    let joinable : ((s.blocks (s.blocks p).next).magic == heap_magic
          && (s.blocks (s.blocks p).next).free)
        ≡ true =
      ap (λ x. (s.blocks x).magic == heap_magic && (s.blocks x).free) next
      ∙ ap (λ (k : Block). k.magic == heap_magic && k.free) b' in
    rw (valid_inside s p h low (omega arith), valid, joinable, adjacent)
      (subst (λ x. Rechained s q p ((n + 40 + m, f) ∷ bs) (join p x s)) (sym next)
        (join-Rechained s n m f bs q p h low c))
