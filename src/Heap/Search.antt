-- ===== src/Heap/Search.antt =====
-- The loop of `kmalloc` of src/kernel/mm/heap.c: it passes all blocks or takes one, within its steps.
use szczupak_os.Heap.Take.{Rechained-Chain, Rechained-trans}
use szczupak_os.Heap.Alloc.{fits_round, passed, next_round}
use szczupak_os.Heap.Merge.{
  valid_inside, merge_next-Rechained, merged_rest, merged_size, IsPlaced, heap_end, Rechained,
}
use szczupak_os.Heap.Used.{
  merged_rest-length, used-merged, no_room, used, Allocated, placed, largest_free,
}
use szczupak_os.Heap.Chain.{Chain-end, link, Chain}
use szczupak_os.Heap.{
  returned, continued, Block, heap_magic, merge_next, try_block, round, kmalloc_loop, Heap,
}
use szczupak_os.Base.{
  ℕ, zero, suc, ◌+◌, ◌%◌, ◌≤◌, ◌≡◌, refl, sym, ap, ◌∙◌, subst, inl, inr, Bool, true, false, List,
  [], ◌∷◌, arith, leb, ◌==◌, if◌then◌else◌, leb→le, leb→gt, ne→==, Bool-cases, length,
}

pub Rechained-refl :
    (s : Heap) (q p : ℕ) (bs : List (ℕ × Bool))
    → Chain (heap_end s) s.blocks q p bs
    → Rechained s q p bs s
Rechained-refl s q p bs c = record { chain = c; before = λ x k. refl; same = refl }

pub Rechained-IsPlaced :
    (s s' : Heap) (q p : ℕ) (bs : List (ℕ × Bool))
    → Rechained s q p bs s'
    → IsPlaced s
    → IsPlaced s'
Rechained-IsPlaced s s' q p bs r h =
    let same : s'.storage ≡ s.storage = ap (λ (u : Heap). u.storage) r.same in
    record { positive = omega (arith, h.positive); fits = omega (arith, h.fits) }

-- What is left after a step that keeps the blocks in use.
rebase :
    (size : ℕ) (s s' : Heap) (q p : ℕ) (bs ds : List (ℕ × Bool)) (x : ℕ × Heap)
    → Rechained s q p ds s'
    → used p ds ≡ used p bs
    → Allocated size s' q p ds x
    → Allocated size s q p bs x
rebase size s s' q p bs ds x before kept (no_room cs s2 e r same room) =
    no_room cs s2 e (Rechained-trans s s' s2 q p q p ds cs before r (omega arith)) (same ∙ kept)
      room
rebase size s s' q p bs ds x before kept (placed t k pre post cs s2 e r at old new enough tight) =
    placed t k pre post cs s2 e (Rechained-trans s s' s2 q p q p ds cs before r (omega arith)) at
      (sym kept ∙ old) new enough tight

pub round_lem :
    (s : Heap) (n size : ℕ) (f : Bool) (bs : List (ℕ × Bool)) (q p : ℕ)
    → IsPlaced s
    → s.storage ≤ p
    → Chain (heap_end s) s.blocks q p ((n, f) ∷ bs)
    → round p size s ≡ try_block p size (if f then merge_next p s else s)
unfolding Chain round
round_lem s n size f bs q p h low (b, l, a, rest) =
    let end = Chain-end bs (heap_end s) s.blocks p (p + 40 + n) rest in
    let magic : ((s.blocks p).magic == heap_magic) ≡ true =
      ap (λ (k : Block). k.magic == heap_magic) b in
    let free : (s.blocks p).free ≡ f = ap (λ (k : Block). k.free) b in
    rw (ne→== p 0 (omega (arith, h.positive)), valid_inside s p h low (omega arith), magic, free)
      refl

pub loop_returned :
    (m p size r : ℕ) (s s' : Heap)
    → round p size s ≡ returned r s'
    → kmalloc_loop (suc m) p size s ≡ (r, s')
unfolding kmalloc_loop
loop_returned m p size r s s' e = rw (e, kmalloc_loop) refl

loop_continued :
    (m p size next : ℕ) (s s' : Heap)
    → round p size s ≡ continued next s'
    → kmalloc_loop (suc m) p size s ≡ kmalloc_loop m next size s'
unfolding kmalloc_loop
loop_continued m p size next s s' e = rw (e, kmalloc_loop) refl

loop_none : (size : ℕ) (p : ℕ) (s : Heap) → kmalloc_loop 0 p size s ≡ (0, s)
unfolding kmalloc_loop
loop_none size p s = refl

null_round : (size : ℕ) (s : Heap) → round 0 size s ≡ returned 0 s
unfolding round
null_round size s = refl

module _ (size : ℕ) (at_least : 16 ≤ size) (aligned : size % 8 ≡ 0) where
  -- The end of the list.
  end-Allocated :
      (s : Heap) (q p : ℕ) → Chain (heap_end s) s.blocks q p [] → Allocated size s q p [] (0, s)
  unfolding largest_free
  end-Allocated s q p c = no_room [] s refl (Rechained-refl s q p [] c) refl (omega arith)

  pub kmalloc_loop-Allocated :
      (m : ℕ) (s : Heap) (bs : List (ℕ × Bool)) (q p : ℕ)
      → IsPlaced s
      → s.storage ≤ p
      → Chain (heap_end s) s.blocks q p bs
      → length bs ≤ m
      → Allocated size s q p bs (kmalloc_loop m (link p bs) size s)
  unfolding Chain used
  kmalloc_loop-Allocated zero s [] q p h low c enough =
      subst (Allocated size s q p []) (sym (loop_none size 0 s)) (end-Allocated s q p c)
  kmalloc_loop-Allocated zero s (b ∷ bs) q p h low c enough = absurd (omega arith)
  kmalloc_loop-Allocated (suc m) s [] q p h low c enough =
      subst (Allocated size s q p []) (sym (loop_returned m 0 size 0 s s (null_round size s)))
        (end-Allocated s q p c)
  kmalloc_loop-Allocated (suc m) s ((n, false) ∷ bs) q p h low c enough =
      let went =
        round_lem s n size false bs q p h low c
        ∙ next_round size at_least aligned s n false bs q p h low c refl in
      let rest = kmalloc_loop-Allocated m s bs p (p + 40 + n) h (omega arith) c.3 (omega arith) in
      subst (Allocated size s q p ((n, false) ∷ bs))
        (sym (loop_continued m p size (link (p + 40 + n) bs) s s went))
        (passed size s s n false bs q p _ (Rechained-refl s q p _ c) (λ e. absurd (cc)) rest)
  kmalloc_loop-Allocated (suc m) s ((n, true) ∷ bs) q p h low c enough =
      let s1 = merge_next p s in
      let n1 = merged_size n bs in
      let cs = merged_rest bs in
      let step = merge_next-Rechained s n true bs q p h low c in
      let c1 = Rechained-Chain s s1 q p ((n1, true) ∷ cs) step in
      let h1 = Rechained-IsPlaced s s1 q p ((n1, true) ∷ cs) step h in
      let low1 : s1.storage ≤ p = omega (arith, ap (λ (u : Heap). u.storage) step.same) in
      let went = round_lem s n size true bs q p h low c in
      elim (Bool-cases (leb size n1)) [
        | inl e ↦
            let (x, found, out) =
              fits_round size at_least aligned s1 n1 cs q p h1 low1 c1 (leb→le size n1 e) in
            subst (Allocated size s q p ((n, true) ∷ bs))
              (sym (loop_returned m p size x.0 s x.1 (went ∙ found)))
              (rebase size s s1 q p _ _ x step (used-merged p n bs) out)
        | inr e ↦
            let found = next_round size at_least aligned s1 n1 true cs q p h1 low1 c1 e in
            let rest =
              kmalloc_loop-Allocated m s1 cs p (p + 40 + n1) h1 (omega arith) c1.3
                (omega (arith, merged_rest-length bs)) in
            subst (Allocated size s q p ((n, true) ∷ bs))
              (sym (loop_continued m p size (link (p + 40 + n1) cs) s s1 (went ∙ found)))
              (rebase size s s1 q p _ _ _ step (used-merged p n bs) (
                passed size s1 s1 n1 true cs q p _ (Rechained-refl s1 q p _ c1)
                  (λ _. leb→gt size n1 e) rest))
      ]
