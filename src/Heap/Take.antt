-- ===== src/Heap/Take.antt =====
-- The block that `kmalloc` of src/kernel/mm/heap.c takes, on a chain of blocks.
use szczupak_os.Heap.Merge.{
  relink-Rechained, valid_inside, null_invalid, relink, heap_end, Rechained, IsPlaced,
}
use szczupak_os.Heap.Chain.{header, Chain-update, Chain-end, link, Chain}
use szczupak_os.Heap.{
  heap_min_size, take_block, header_size, heap_magic, set_prev, Block, split, set_block, Heap,
}
use szczupak_os.Base.{
  ℕ, ◌+◌, ◌-◌, ◌%◌, ◌≤◌, ◌<◌, ◌≡◌, refl, sym, ap, ap₂, ◌∙◌, subst, inl, inr, Bool, true, false,
  List, [], ◌∷◌, arith, ltb, ◌==◌, if◌then◌else◌, ltb→lt, ne→==, Bool-cases, update_self, update_ne,
  add64, sub64,
}

-- The chain that a step left, seen from the heap that it left.
pub Rechained-Chain :
    (s s' : Heap) (q p : ℕ) (bs : List (ℕ × Bool))
    → Rechained s q p bs s'
    → Chain (heap_end s') s'.blocks q p bs
Rechained-Chain s s' q p bs r =
    subst (λ e. Chain e s'.blocks q p bs) (sym (ap heap_end r.same)) r.chain

pub Rechained-trans :
    (s s1 s2 : Heap) (q p q' p' : ℕ) (cs bs : List (ℕ × Bool))
    → Rechained s q' p' cs s1
    → Rechained s1 q p bs s2
    → p ≤ p'
    → Rechained s q p bs s2
Rechained-trans s s1 s2 q p q' p' cs bs a b l =
    let same_end : heap_end s1 ≡ heap_end s = ap heap_end a.same in
    record {
      chain = subst (λ e. Chain e s2.blocks q p bs) same_end b.chain;
      before = λ x k. b.before x k ∙ a.before x (omega arith);
      same = b.same ∙ ap (λ (u : Heap). record u { blocks = s2.blocks }) a.same;
    }

-- The first block of a chain is marked as free or as in use.
pub set_free-Rechained :
    (s : Heap) (n : ℕ) (f g : Bool) (bs : List (ℕ × Bool)) (q p : ℕ)
    → Chain (heap_end s) s.blocks q p ((n, f) ∷ bs)
    → Rechained s q p ((n, g) ∷ bs) (set_block p (record (s.blocks p) { free = g }) s)
unfolding Chain
set_free-Rechained s n f g bs q p (b, l, a, c) = record {
  chain = (
    update_self s.blocks p _ ∙ ap (λ (k : Block). record k { free = g }) b,
    l,
    a,
    Chain-update bs (heap_end s) s.blocks p (p + 40 + n) p _ c (omega arith),
  );
  before = λ x k. update_ne s.blocks p _ x (omega arith);
  same = refl;
}

-- `kmalloc` compares the next pointer with null, which comes to the same.
null_test :
    (bs : List (ℕ × Bool)) (s s1 : Heap) (q r w : ℕ)
    → IsPlaced s
    → s.storage ≤ r
    → Chain (heap_end s) s.blocks q r bs
    → s1.storage ≡ s.storage
    → (if link r bs == 0 then s1 else set_prev (link r bs) w s1) ≡ relink (link r bs) w s1
unfolding Chain
null_test [] s s1 q r w h low c same = rw (null_invalid s1) refl
null_test ((m, g) ∷ bs) s s1 q r w h low (b, l, a, rest) same =
    let end = Chain-end bs (heap_end s) s.blocks r (r + 40 + m) rest in
    let placed : IsPlaced s1 = record {
      positive = omega (arith, h.positive);
      fits = omega (arith, h.fits);
    } in
    rw
      (
        ne→== r 0 (omega (arith, h.positive)),
        valid_inside s1 r placed (omega arith) (omega (arith, end)),
      )
      refl

split-Rechained :
    (s : Heap) (n size : ℕ) (f : Bool) (bs : List (ℕ × Bool)) (q p : ℕ)
    → IsPlaced s
    → s.storage ≤ p
    → Chain (heap_end s) s.blocks q p ((n, f) ∷ bs)
    → 16 ≤ size
    → size % 8 ≡ 0
    → size + 56 < n
    → Rechained s q p ((size, f) ∷ (n - size - 40, true) ∷ bs) (split p (p + 40 + size) size s)
unfolding Chain
split-Rechained s n size f bs q p h low (b, l, a, c) l' a' large =
    let end = Chain-end bs (heap_end s) s.blocks p (p + 40 + n) c in
    let w = p + 40 + size in
    let x = s.blocks p in
    let left : Block = record {
      magic = heap_magic;
      size = sub64 (sub64 x.size size) header_size;
      free = true;
      next = x.next;
      prev = p;
    } in
    let left_header : left ≡ header (n - size - 40) true (link (p + 40 + n) bs) p =
      rw b (ap (λ k. header k true (link (p + 40 + n) bs) p) (omega (arith, end, h.fits))) in
    let behind =
      relink-Rechained s (n - size - 40) true bs p p w (p + 40 + n) left h (omega arith)
        (omega arith) left_header (omega arith) (omega arith) c in
    let s2 = relink (link (p + 40 + n) bs) w (set_block w left s) in
    let second : (if x.next == 0
          then set_block w left s
          else set_prev x.next w (set_block w left s))
        ≡ s2 =
      ap (λ z. if z == 0 then set_block w left s else set_prev z w (set_block w left s))
        (ap (λ (k : Block). k.next) b)
      ∙ null_test bs s (set_block w left s) p (p + 40 + n) w h (omega arith) c refl in
    let kept : s2.blocks p ≡ header n f (link (p + 40 + n) bs) q =
      behind.before p (omega arith) ∙ b in
    let finish : Heap → Heap = λ u. set_block p (record (u.blocks p) { size = size; next = w }) u in
    let done : Rechained s q p ((size, f) ∷ (n - size - 40, true) ∷ bs) (finish s2) = record {
      chain = (
        update_self s2.blocks p _ ∙ ap (λ (k : Block). record k { size = size; next = w }) kept,
        l',
        a',
        Chain-update ((n - size - 40, true) ∷ bs) (heap_end s) s2.blocks p w p _ behind.chain
            (omega arith),
      );
      before = λ y k. update_ne s2.blocks p _ y (omega arith) ∙ behind.before y (omega arith);
      same = ap (λ (u : Heap). record u { blocks = (finish s2).blocks }) behind.same;
    } in
    subst (λ u. Rechained s q p ((size, f) ∷ (n - size - 40, true) ∷ bs) (finish u)) (sym second)
      done

-- The block of size `n` at the head of a chain, after `kmalloc` has taken `size` bytes of it.
unfoldable pub taken : (n size : ℕ) → List (ℕ × Bool) → List (ℕ × Bool)
taken n size bs =
    if ltb (size + 56) n then (size, false) ∷ (n - size - 40, true) ∷ bs else (n, false) ∷ bs

pub take_block-Rechained :
    (s : Heap) (n size : ℕ) (bs : List (ℕ × Bool)) (q p : ℕ)
    → IsPlaced s
    → s.storage ≤ p
    → Chain (heap_end s) s.blocks q p ((n, true) ∷ bs)
    → 16 ≤ size
    → size % 8 ≡ 0
    → size ≤ n
    → Rechained s q p (taken n size bs) (take_block p size s)
unfolding Chain take_block taken
take_block-Rechained s n size bs q p h low c l' a' enough =
    let (b, l, a, rest) = c in
    let end = Chain-end bs (heap_end s) s.blocks p (p + 40 + n) rest in
    let block_size : (s.blocks p).size ≡ n = ap (λ (k : Block). k.size) b in
    let sum : add64 (add64 size header_size) heap_min_size ≡ size + 56 =
      omega (arith, end, h.fits) in
    let place : add64 (add64 p header_size) size ≡ p + 40 + size = omega (arith, end, h.fits) in
    elim (Bool-cases (ltb (size + 56) n)) [
      | inl large ↦
          let parts =
            split-Rechained s n size true bs q p h low c l' a' (ltb→lt (size + 56) n large) in
          rw (ap₂ ltb sum block_size ∙ large, large, place)
            (Rechained-trans s (split p (p + 40 + size) size s) _ q p q p _ _ parts
              (set_free-Rechained (split p (p + 40 + size) size s) size true false
                ((n - size - 40, true) ∷ bs) q p
                (subst
                  (λ e.
                    Chain e (split p (p + 40 + size) size s).blocks q p
                      ((size, true) ∷ (n - size - 40, true) ∷ bs))
                  (sym (ap heap_end parts.same)) parts.chain))
              (omega arith))
      | inr small ↦
          rw (ap₂ ltb sum block_size ∙ small, small) (set_free-Rechained s n true false bs q p c)
    ]
