-- ===== src/Heap/Kfree.antt =====
-- `kfree` of src/kernel/mm/heap.c on a heap, and behind `kmalloc`.
use szczupak_os.Heap.Free.{
  release_next-Rechained, used_front, release_first-Rechained, kfree-release, front,
}
use szczupak_os.Heap.Merge.{merged, Rechained, heap_end, IsPlaced}
use szczupak_os.Heap.Used.{used-merged, extend-Rechained, used}
use szczupak_os.Heap.Kmalloc.{
  used-Spaced, served, out_of_room, not_locked, kmalloc-Served, Served, Rechained-IsHeap, IsHeap,
  Spaced,
}
use szczupak_os.Heap.Chain.{Chain}
use szczupak_os.Heap.{kmalloc, kfree, Heap}
use szczupak_os.Base.{
  ℕ, ◌+◌, ◌^◌, ◌≤◌, ◌<◌, ◌≡◌, refl, sym, ap, ◌∙◌, subst, ◌≢◌, inl, inr, Bool, true, false, List, [],
  ◌∷◌, ◌++◌, arith, ◌==◌, if◌then◌else◌, ==→eq, eq→==, ne→==, Bool-cases,
}

-- Whether one of some blocks stands at `r`.
unfoldable pub has_block : ℕ → List (ℕ × ℕ) → Bool
has_block r [] = false
has_block r ((a, n) ∷ us) = if a == r then true else has_block r us

-- The blocks without the one at `r`.
unfoldable pub remove_block : ℕ → List (ℕ × ℕ) → List (ℕ × ℕ)
remove_block r [] = []
remove_block r ((a, n) ∷ us) = if a == r then us else (a, n) ∷ remove_block r us

-- A block behind the first one.
kfree-tail :
    (bs : List (ℕ × Bool)) (s : Heap) (m : ℕ) (g : Bool) (q p r : ℕ)
    → IsPlaced s
    → s.storage ≤ p
    → Chain (heap_end s) s.blocks q p ((m, g) ∷ bs)
    → has_block r (used (p + 40 + m) bs) ≡ true
    → (cs : List (ℕ × Bool)) × Rechained s q p cs (kfree true r s)
      × (used p cs ≡ front p m g (remove_block r (used (p + 40 + m) bs)))
unfolding Chain used has_block remove_block
kfree-tail [] s m g q p r h low c there = absurd (cc)
kfree-tail ((n, true) ∷ bs) s m g q p r h low c there =
    let (cs, out, us) = kfree-tail bs s n true p (p + 40 + m) r h (omega arith) c.3 there in
    (
      (m, g) ∷ cs,
      extend-Rechained s (kfree true r s) m g ((n, true) ∷ bs) cs q p c out,
      used_front p m g cs ∙ ap (front p m g) us,
    )
kfree-tail ((n, false) ∷ bs) s m g q p r h low c there = elim (Bool-cases (p + 40 + m + 40 == r)) [
  | inl e ↦
      let same = ==→eq (p + 40 + m + 40) r e in
      let (cs, out, us) = release_next-Rechained s m n g bs q p h low c in
      let call = kfree-release s n bs p (p + 40 + m) h (omega arith) c.3 in
      (cs, subst (Rechained s q p cs) (sym call ∙ ap (λ x. kfree true x s) same) out, rw e us)
  | inr e ↦
      let (cs, out, us) =
        kfree-tail bs s n false p (p + 40 + m) r h (omega arith) c.3 (rw e at there) in
      (
        (m, g) ∷ cs,
        extend-Rechained s (kfree true r s) m g ((n, false) ∷ bs) cs q p c out,
        rw e (used_front p m g cs ∙ ap (front p m g) us),
      )
]

kfree-Chain :
    (bs : List (ℕ × Bool)) (s : Heap) (p r : ℕ)
    → IsPlaced s
    → s.storage ≤ p
    → Chain (heap_end s) s.blocks 0 p bs
    → has_block r (used p bs) ≡ true
    → (cs : List (ℕ × Bool)) × Rechained s 0 p cs (kfree true r s)
      × (used p cs ≡ remove_block r (used p bs))
unfolding used has_block remove_block
kfree-Chain [] s p r h low c there = absurd (cc)
kfree-Chain ((n, true) ∷ bs) s p r h low c there = kfree-tail bs s n true 0 p r h low c there
kfree-Chain ((n, false) ∷ bs) s p r h low c there = elim (Bool-cases (p + 40 == r)) [
  | inl e ↦
      let same = ==→eq (p + 40) r e in
      let call = kfree-release s n bs 0 p h low c in
      (
        merged n true bs,
        subst (Rechained s 0 p (merged n true bs)) (sym call ∙ ap (λ x. kfree true x s) same)
            (release_first-Rechained s n bs p h low c),
        rw e (used-merged p n bs),
      )
  | inr e ↦
      let (cs, out, us) = kfree-tail bs s n false 0 p r h low c (rw e at there) in
      (cs, out, rw e us)
]

-- `kfree` of a block in use, with the lock, leaves a heap in which the blocks in use are the others,
-- each where it stood.
pub kfree-Freed :
    (r : ℕ) (s : Heap) (bs : List (ℕ × Bool))
    → IsHeap s bs
    → has_block r (used s.storage bs) ≡ true
    → (cs : List (ℕ × Bool)) × IsHeap (kfree true r s) cs
      × (used s.storage cs ≡ remove_block r (used s.storage bs))
kfree-Freed r s bs h there =
    let (cs, out, us) = kfree-Chain bs s s.storage r h.placed (omega arith) h.chain there in
    (cs, Rechained-IsHeap s (kfree true r s) bs cs h out, us)

pub Spaced-above :
    (low high r k : ℕ) (pre post : List (ℕ × ℕ))
    → Spaced low high (pre ++ (r, k) ∷ post)
    → low + 40 ≤ r
unfolding Spaced
Spaced-above low high r k [] post h = h.0
Spaced-above low high r k ((a, n) ∷ pre) post h =
    (let above = Spaced-above (a + n) high r k pre post h.1 in let here = h.0 in omega arith)

-- Among blocks without overlap only one stands at an address.
remove_middle :
    (low high r k : ℕ) (pre post : List (ℕ × ℕ))
    → Spaced low high (pre ++ (r, k) ∷ post)
    → (has_block r (pre ++ (r, k) ∷ post) ≡ true)
      × (remove_block r (pre ++ (r, k) ∷ post) ≡ pre ++ post)
unfolding Spaced has_block remove_block
remove_middle low high r k [] post h = rw (eq→== r r refl) (refl, refl)
remove_middle low high r k ((a, n) ∷ pre) post h =
    let above = Spaced-above (a + n) high r k pre post h.1 in
    let (there, gone) = remove_middle (a + n) high r k pre post h.1 in
    rw (ne→== a r (omega arith)) (there, ap (λ us. (a, n) ∷ us) gone)

give_back :
    (size : ℕ) (s : Heap) (bs : List (ℕ × Bool)) (x : ℕ × Heap)
    → Served true size s bs x
    → x.0 ≢ 0
    → (cs : List (ℕ × Bool)) × IsHeap (kfree true x.0 x.1) cs
      × (used s.storage cs ≡ used s.storage bs)
give_back size s bs x (not_locked l e) got = absurd (cc)
give_back size s bs x (out_of_room cs s' e h same kept room) got = absurd (got (ap (λ y. y.0) e))
give_back size s bs x (served r k pre post cs s' e h same some_address old new enough tight) got =
    let now : used s'.storage cs ≡ pre ++ (r, k) ∷ post = ap (λ y. used y cs) same ∙ new in
    let spaced : Spaced s'.storage (heap_end s') (pre ++ (r, k) ∷ post) =
      subst (Spaced s'.storage (heap_end s')) now (used-Spaced s' cs h) in
    let (there, gone) = remove_middle s'.storage (heap_end s') r k pre post spaced in
    let (ds, left, us) = kfree-Freed r s' cs h (ap (has_block r) now ∙ there) in
    (
      ds,
      subst (λ y. IsHeap (kfree true y.0 y.1) ds) (sym e) left,
      ap (λ y. used y ds) (sym same) ∙ us ∙ ap (remove_block r) now ∙ gone ∙ sym old,
    )

-- A block that `kmalloc` has just returned from a heap can be given back: `kfree` leaves a heap with
-- the blocks in use of before, where `kmalloc` found room for a size that does not wrap.
pub kfree-kmalloc :
    (size : ℕ) (s : Heap) (bs : List (ℕ × Bool))
    → IsHeap s bs
    → 0 < size
    → size + 7 < 2 ^ 64
    → (kmalloc true size s).0 ≢ 0
    → (cs : List (ℕ × Bool)) × IsHeap
        (kfree true (kmalloc true size s).0 (kmalloc true size s).1)
        cs
      × (used s.storage cs ≡ used s.storage bs)
kfree-kmalloc size s bs h some_size bound got =
    give_back size s bs (kmalloc true size s) (kmalloc-Served true size s bs h some_size bound) got
