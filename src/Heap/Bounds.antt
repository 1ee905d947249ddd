-- ===== src/Heap/Bounds.antt =====
-- Where the blocks stand that `kmalloc` of src/kernel/mm/heap.c returns.
use szczupak_os.Heap.Used.{used}
use szczupak_os.Heap.Merge.{heap_end}
use szczupak_os.Heap.Kmalloc.{
  used-Spaced, served, out_of_room, not_locked, kmalloc-Served, Served, IsHeap, Spaced,
}
use szczupak_os.Heap.{kmalloc, Heap}
use szczupak_os.Heap.Kfree.{Spaced-above}
use szczupak_os.Base.{
  ℕ, ◌+◌, ◌^◌, ◌≤◌, ◌<◌, ◌≡◌, ap, ◌∙◌, subst, ◌≢◌, Bool, true, List, [], ◌∷◌, ◌++◌, arith,
}

low_high : (low high : ℕ) (us : List (ℕ × ℕ)) → Spaced low high us → low ≤ high
unfolding Spaced
low_high low high [] h = h
low_high low high ((a, n) ∷ us) h =
    (let rest = low_high (a + n) high us h.1 in let here = h.0 in omega arith)

Spaced-end :
    (low high r k : ℕ) (pre post : List (ℕ × ℕ))
    → Spaced low high (pre ++ (r, k) ∷ post)
    → r + k ≤ high
unfolding Spaced
Spaced-end low high r k [] post h = low_high (r + k) high post h.1
Spaced-end low high r k ((a, n) ∷ pre) post h = Spaced-end (a + n) high r k pre post h.1

Served-inside :
    (size : ℕ) (s : Heap) (bs : List (ℕ × Bool)) (x : ℕ × Heap)
    → Served true size s bs x
    → x.0 ≢ 0
    → (s.storage + 40 ≤ x.0) × (x.0 + size ≤ heap_end s)
Served-inside size s bs x (not_locked l e) got = absurd (cc)
Served-inside size s bs x (out_of_room cs s' e h same kept room) got =
    absurd (got (ap (λ y. y.0) e))
Served-inside size s bs x (served r k pre post cs s' e h same some_address old new enough tight)
      got =
    let now : used s'.storage cs ≡ pre ++ (r, k) ∷ post = ap (λ y. used y cs) same ∙ new in
    let spaced : Spaced s'.storage (heap_end s') (pre ++ (r, k) ∷ post) =
      subst (Spaced s'.storage (heap_end s')) now (used-Spaced s' cs h) in
    let low = Spaced-above s'.storage (heap_end s') r k pre post spaced in
    let high = Spaced-end s'.storage (heap_end s') r k pre post spaced in
    let address : x.0 ≡ r = ap (λ y. y.0) e in (omega arith, omega arith)

-- On a heap, and for a size that does not wrap, the bytes that `kmalloc` gives lie in the heap's
-- storage, behind at least one header.
pub kmalloc_inside :
    (size : ℕ) (s : Heap) (bs : List (ℕ × Bool))
    → IsHeap s bs
    → 0 < size
    → size + 7 < 2 ^ 64
    → (kmalloc true size s).0 ≢ 0
    → (s.storage + 40 ≤ (kmalloc true size s).0) × ((kmalloc true size s).0 + size ≤ heap_end s)
kmalloc_inside size s bs h some_size bound got =
    Served-inside size s bs (kmalloc true size s) (kmalloc-Served true size s bs h some_size bound)
      got
