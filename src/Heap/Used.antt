-- ===== src/Heap/Used.antt =====
-- The blocks in use of src/kernel/mm/heap.c, and what a search for a block may leave.
use szczupak_os.Heap.Take.{taken}
use szczupak_os.Heap.Merge.{heap_end, Rechained, merged_size, merged_rest}
use szczupak_os.Heap.Chain.{Chain-end, link, header, Chain}
use szczupak_os.Heap.{Block, Heap}
use szczupak_os.Base.{
  ltb→ge, ℕ, ◌+◌, ◌≤◌, ◌<◌, ◌≡◌, refl, ap, ◌∙◌, inl, inr, Bool, true, false, List, [], ◌∷◌, ◌++◌,
  arith, ltb, ltb→lt, Bool-cases, length, max,
}

-- The blocks in use from `p` on: the address that `kmalloc` returned for each, and its size.
unfoldable pub used : ℕ → List (ℕ × Bool) → List (ℕ × ℕ)
used p [] = []
used p ((n, true) ∷ bs) = used (p + 40 + n) bs
used p ((n, false) ∷ bs) = (p + 40, n) ∷ used (p + 40 + n) bs

-- The size of the largest free block.
unfoldable pub largest_free : List (ℕ × Bool) → ℕ
largest_free [] = 0
largest_free ((n, true) ∷ bs) = max n (largest_free bs)
largest_free ((n, false) ∷ bs) = largest_free bs

pub used-merged :
    (p n : ℕ) (bs : List (ℕ × Bool))
    → used (p + 40 + merged_size n bs) (merged_rest bs) ≡ used (p + 40 + n) bs
unfolding used merged_size merged_rest
used-merged p n [] = refl
used-merged p n ((m, true) ∷ bs) = ap (λ x. used x bs) (omega arith)
used-merged p n ((m, false) ∷ bs) = refl

pub merged_rest-length : (bs : List (ℕ × Bool)) → length (merged_rest bs) ≤ length bs
unfolding merged_rest
merged_rest-length [] = omega arith
merged_rest-length ((m, true) ∷ bs) = omega arith
merged_rest-length ((m, false) ∷ bs) = omega arith

pub used-taken :
    (p n size : ℕ) (bs : List (ℕ × Bool))
    → size ≤ n
    → (k : ℕ) × (used p (taken n size bs) ≡ (p + 40, k) ∷ used (p + 40 + n) bs)
      × (size ≤ k)
      × (k ≤ size + 56)
unfolding used taken
used-taken p n size bs enough = elim (Bool-cases (ltb (size + 56) n)) [
  | inl e ↦
      let large = ltb→lt (size + 56) n e in
      (size, rw e (ap (λ x. (p + 40, size) ∷ used x bs) (omega arith)), omega arith, omega arith)
  | inr e ↦ (n, rw e refl, enough, ltb→ge (size + 56) n e)
]

-- What a search of the blocks from `p` on may leave: the blocks in use as they were, and none of the
-- free blocks large enough; or one more block in use, at the address that is returned.
pub data Allocated (size : ℕ) (s : Heap) (q p : ℕ) (bs : List (ℕ × Bool)) : ℕ × Heap → Type 0 where
  no_room :
      (cs : List (ℕ × Bool)) (s' : Heap) {x : ℕ × Heap}
      → x ≡ (0, s')
      → Rechained s q p cs s'
      → used p cs ≡ used p bs
      → largest_free cs < size
      → Allocated size s q p bs x
  placed :
      (r k : ℕ) (pre post : List (ℕ × ℕ)) (cs : List (ℕ × Bool)) (s' : Heap) {x : ℕ × Heap}
      → x ≡ (r, s')
      → Rechained s q p cs s'
      → p + 40 ≤ r
      → used p bs ≡ pre ++ post
      → used p cs ≡ pre ++ (r, k) ∷ post
      → size ≤ k
      → k ≤ size + 56
      → Allocated size s q p bs x

link_unique :
    (bs cs : List (ℕ × Bool)) (e : ℕ) (h h' : ℕ → Block) (q q' p : ℕ)
    → Chain e h q p bs
    → Chain e h' q' p cs
    → link p bs ≡ link p cs
unfolding Chain
link_unique [] [] e h h' q q' p c d = refl
link_unique [] ((n, f) ∷ cs) e h h' q q' p c d =
    let end = Chain-end cs e h' p (p + 40 + n) d.3 in absurd (omega arith)
link_unique ((n, f) ∷ bs) [] e h h' q q' p c d =
    let end = Chain-end bs e h p (p + 40 + n) c.3 in absurd (omega arith)
link_unique (b ∷ bs) (d' ∷ cs) e h h' q q' p c d = refl

-- A block before a chain that was changed.
pub extend-Rechained :
    (s s' : Heap) (n : ℕ) (f : Bool) (bs cs : List (ℕ × Bool)) (q p : ℕ)
    → Chain (heap_end s) s.blocks q p ((n, f) ∷ bs)
    → Rechained s p (p + 40 + n) cs s'
    → Rechained s q p ((n, f) ∷ cs) s'
unfolding Chain
extend-Rechained s s' n f bs cs q p (b, l, a, c) r = record {
  chain = (
    r.before p (omega arith)
        ∙ b
        ∙ ap (λ z. header n f z q)
            (link_unique bs cs (heap_end s) s.blocks s'.blocks p p (p + 40 + n) c r.chain),
    l,
    a,
    r.chain,
  );
  before = λ x k. r.before x (omega arith);
  same = r.same;
}
