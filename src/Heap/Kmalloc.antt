-- ===== src/Heap/Kmalloc.antt =====
-- `heap_init` and `kmalloc` of src/kernel/mm/heap.c.
use szczupak_os.Heap.Take.{Rechained-Chain}
use szczupak_os.Heap.Search.{kmalloc_loop-Allocated, Rechained-IsPlaced}
use szczupak_os.Heap.Merge.{IsPlaced, heap_end, Rechained}
use szczupak_os.Heap.Used.{no_room, placed, largest_free, Allocated, used}
use szczupak_os.Heap.Chain.{link, Chain}
use szczupak_os.Heap.{
  kmalloc_loop, header_size, heap_size, heap_max_steps, heap_min_size, Block, rounded, kmalloc,
  heap_init, Heap,
}
use szczupak_os.Base.{
  ℕ, ◌+◌, ◌-◌, ◌*◌, ◌%◌, ◌^◌, ◌≤◌, ◌<◌, ◌≡◌, refl, sym, ap, ◌∙◌, subst, ◌≢◌, inl, inr, Bool, true,
  false, List, [], ◌∷◌, ◌++◌, arith, ltb, ltb→lt, ltb→ge, ne→==, Bool-cases, length, update_self,
}

-- The heap is a chain of blocks that fills its storage.
pub record IsHeap (s : Heap) (bs : List (ℕ × Bool)) : Type 0 where
  pub placed : IsPlaced s
  pub start : s.heap_start ≡ s.storage
  pub chain : Chain (heap_end s) s.blocks 0 s.storage bs

-- `heap_init` makes the whole storage one free block.
pub heap_init-IsHeap :
    (s : Heap) → IsPlaced s → IsHeap (heap_init s) ((heap_size - header_size, true) ∷ [])
unfolding heap_init Chain
heap_init-IsHeap s h = record {
  placed = record { positive = h.positive; fits = h.fits };
  start = refl;
  chain = (update_self s.blocks s.storage _, omega arith, refl, omega arith);
}

-- Blocks from `low` to `high`, in this order, with room for a header before each.
unfoldable pub Spaced : (low high : ℕ) → List (ℕ × ℕ) → Type 0
Spaced low high [] = low ≤ high
Spaced low high ((a, n) ∷ us) = (low + 40 ≤ a) × Spaced (a + n) high us

Spaced-lower :
    (low low' high : ℕ) (us : List (ℕ × ℕ)) → low' ≤ low → Spaced low high us → Spaced low' high us
unfolding Spaced
Spaced-lower low low' high [] l c = omega arith
Spaced-lower low low' high ((a, n) ∷ us) l (b, c) = (omega arith, c)

used_apart :
    (bs : List (ℕ × Bool)) (e : ℕ) (h : ℕ → Block) (q p : ℕ)
    → Chain e h q p bs
    → Spaced p e (used p bs)
unfolding Spaced used Chain
used_apart [] e h q p c = omega arith
used_apart ((n, true) ∷ bs) e h q p (b, l, a, c) =
    Spaced-lower (p + 40 + n) p e (used (p + 40 + n) bs) (omega arith)
      (used_apart bs e h p (p + 40 + n) c)
used_apart ((n, false) ∷ bs) e h q p (b, l, a, c) =
    (omega arith, used_apart bs e h p (p + 40 + n) c)

-- The blocks in use of a heap lie in its storage one behind the other, without overlap, and with
-- the header of each between it and the block before.
pub used-Spaced :
    (s : Heap) (bs : List (ℕ × Bool))
    → IsHeap s bs
    → Spaced s.storage (heap_end s) (used s.storage bs)
used-Spaced s bs h = used_apart bs (heap_end s) s.blocks 0 s.storage h.chain

-- Each block takes 56 bytes at least.
blocks_bound :
    (bs : List (ℕ × Bool)) (e : ℕ) (h : ℕ → Block) (q p : ℕ)
    → Chain e h q p bs
    → p + 56 * length bs ≤ e
unfolding Chain
blocks_bound [] e h q p c = omega arith
blocks_bound ((n, f) ∷ bs) e h q p (b, l, a, c) =
    (let rest = blocks_bound bs e h p (p + 40 + n) c in omega arith)

rounded_lem :
    (size : ℕ)
    → size + 7 < 2 ^ 64
    → (16 ≤ rounded size) × (rounded size % 8 ≡ 0) × (size ≤ rounded size)
rounded_lem size h = elim (Bool-cases (ltb size heap_min_size)) [
  | inl e ↦ (let less = ltb→lt size heap_min_size e in rw e (omega arith, omega arith, omega arith))
  | inr e ↦ (let more = ltb→ge size heap_min_size e in rw e (omega arith, omega arith, omega arith))
]

-- What `kmalloc` may return on a heap of the blocks `bs`.
pub data Served (locked : Bool) (size : ℕ) (s : Heap) (bs : List (ℕ × Bool))
    : ℕ × Heap → Type 0 where
  not_locked : {x : ℕ × Heap} → locked ≡ false → x ≡ (0, s) → Served locked size s bs x
  out_of_room :
      (cs : List (ℕ × Bool)) (s' : Heap) {x : ℕ × Heap}
      → x ≡ (0, s')
      → IsHeap s' cs
      → s'.storage ≡ s.storage
      → used s.storage cs ≡ used s.storage bs
      → largest_free cs < rounded size
      → Served locked size s bs x
  served :
      (r k : ℕ) (pre post : List (ℕ × ℕ)) (cs : List (ℕ × Bool)) (s' : Heap) {x : ℕ × Heap}
      → x ≡ (r, s')
      → IsHeap s' cs
      → s'.storage ≡ s.storage
      → r ≢ 0
      → used s.storage bs ≡ pre ++ post
      → used s.storage cs ≡ pre ++ (r, k) ∷ post
      → size ≤ k
      → k ≤ rounded size + 56
      → Served locked size s bs x

pub Rechained-IsHeap :
    (s s' : Heap) (bs cs : List (ℕ × Bool))
    → IsHeap s bs
    → Rechained s 0 s.storage cs s'
    → IsHeap s' cs
Rechained-IsHeap s s' bs cs h r =
    let same : s'.storage ≡ s.storage = ap (λ (u : Heap). u.storage) r.same in
    record {
      placed = Rechained-IsPlaced s s' 0 s.storage cs r h.placed;
      start = ap (λ (u : Heap). u.heap_start) r.same ∙ h.start ∙ sym same;
      chain =
          subst (λ p. Chain (heap_end s') s'.blocks 0 p cs) (sym same)
            (Rechained-Chain s s' 0 s.storage cs r);
    }

Allocated-Served :
    (locked : Bool) (size : ℕ) (s : Heap) (bs : List (ℕ × Bool)) (x : ℕ × Heap)
    → IsHeap s bs
    → size ≤ rounded size
    → Allocated (rounded size) s 0 s.storage bs x
    → Served locked size s bs x
Allocated-Served locked size s bs x h more (no_room cs s' e r same room) =
    out_of_room cs s' e (Rechained-IsHeap s s' bs cs h r) (ap (λ (u : Heap). u.storage) r.same) same
      room
Allocated-Served locked size s bs x h more (placed a k pre post cs s' e r at old new enough tight) =
    served a k pre post cs s' e (Rechained-IsHeap s s' bs cs h r)
      (ap (λ (u : Heap). u.storage) r.same) (λ z. absurd (omega arith)) old new (omega arith) tight

first_link : (s : Heap) (bs : List (ℕ × Bool)) → IsHeap s bs → link s.storage bs ≡ s.heap_start
unfolding Chain
first_link s [] h = absurd (omega (arith, h.chain))
first_link s (b ∷ bs) h = sym h.start

-- `kmalloc` of a size above 0 that does not wrap when it is rounded up, on a heap: without the lock it
-- returns null and changes nothing. With the lock it returns null where every free block is smaller
-- than the rounded size, or it adds one block to the blocks in use and returns its address. That block
-- has the size asked for at least, and at most 56 bytes more than the rounded size, since a larger
-- block is split. The result is a heap, in which all other blocks in use stand where they stood. The
-- limit on the steps is never met.
pub kmalloc-Served :
    (locked : Bool) (size : ℕ) (s : Heap) (bs : List (ℕ × Bool))
    → IsHeap s bs
    → 0 < size
    → size + 7 < 2 ^ 64
    → Served locked size s bs (kmalloc locked size s)
unfolding kmalloc
kmalloc-Served false size s bs h some_size bound =
    rw (ne→== size 0 (omega arith)) (not_locked refl refl)
kmalloc-Served true size s bs h some_size bound =
    let (least, aligned, more) = rounded_lem size bound in
    let count = blocks_bound bs (heap_end s) s.blocks 0 s.storage h.chain in
    let found =
      kmalloc_loop-Allocated (rounded size) least aligned heap_max_steps s bs 0 s.storage h.placed
        (omega arith) h.chain (omega arith) in
    rw (ne→== size 0 (omega arith)) (
      subst (λ p. Served true size s bs (kmalloc_loop heap_max_steps p (rounded size) s))
        (first_link s bs h) (Allocated-Served true size s bs _ h more found))
