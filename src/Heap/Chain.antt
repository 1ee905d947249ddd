-- ===== src/Heap/Chain.antt =====
-- The blocks of src/kernel/mm/heap.c as a list of sizes, each with whether the block is free.
use szczupak_os.Heap.{heap_magic, Block}
use szczupak_os.Base.{
  ℕ, ◌+◌, ◌%◌, ◌≤◌, ◌<◌, ◌≡◌, ap, ◌∙◌, Bool, List, [], ◌∷◌, arith, update, update_self, update_ne,
}

-- The pointer to the blocks that start at `p`.
abbrev pub link : ℕ → List (ℕ × Bool) → ℕ
link p [] = 0
link p (_ ∷ _) = p

-- The header of a block.
abbrev pub header : (n : ℕ) (f : Bool) (next prev : ℕ) → Block
header n f next prev = record { magic = heap_magic; size = n; free = f; next = next; prev = prev }

-- From `p` to `e` stand the blocks of a list, without a gap, linked in both directions; `q` is the
-- block before them.
unfoldable pub Chain : (e : ℕ) → (ℕ → Block) → (q p : ℕ) → List (ℕ × Bool) → Type 0
Chain e h q p [] = p ≡ e
Chain e h q p ((n, f) ∷ bs) =
    (h p ≡ record { magic = heap_magic; size = n; free = f; next = link (p + 40 + n) bs; prev = q })
    × (16 ≤ n)
    × (n % 8 ≡ 0)
    × Chain e h p (p + 40 + n) bs

pub Chain-end : (bs : List (ℕ × Bool)) (e : ℕ) (h : ℕ → Block) (q p : ℕ) → Chain e h q p bs → p ≤ e
unfolding Chain
Chain-end [] e h q p c = omega arith
Chain-end ((n, f) ∷ bs) e h q p (b, m, a, c) =
    (let rest = Chain-end bs e h p (p + 40 + n) c in omega arith)

pub Chain-frame :
    (bs : List (ℕ × Bool)) (e : ℕ) (h h' : ℕ → Block) (q p : ℕ)
    → Chain e h q p bs
    → ((x : ℕ) → p ≤ x → h' x ≡ h x)
    → Chain e h' q p bs
unfolding Chain
Chain-frame [] e h h' q p c same = c
Chain-frame ((n, f) ∷ bs) e h h' q p (b, m, a, c) same = (
  same p (omega arith) ∙ b,
  m,
  a,
  Chain-frame bs e h h' p (p + 40 + n) c (λ x l. same x (omega arith)),
)

-- A change of the header in front of a chain leaves the chain.
pub Chain-update :
    (bs : List (ℕ × Bool)) (e : ℕ) (h : ℕ → Block) (q p x : ℕ) (b : Block)
    → Chain e h q p bs
    → x < p
    → Chain e (update h x b) q p bs
Chain-update bs e h q p x b c l =
    Chain-frame bs e h (update h x b) q p c (λ y k. update_ne h x b y (omega arith))

-- The first block of a chain gets another block before it.
pub Chain-prev :
    (n : ℕ) (f : Bool) (bs : List (ℕ × Bool)) (e : ℕ) (h : ℕ → Block) (q r p : ℕ)
    → Chain e h q p ((n, f) ∷ bs)
    → Chain e (update h p (record (h p) { prev = r })) r p ((n, f) ∷ bs)
unfolding Chain
Chain-prev n f bs e h q r p (b, m, a, c) = (
  update_self h p _ ∙ ap (λ (k : Block). record k { prev = r }) b,
  m,
  a,
  Chain-update bs e h p (p + 40 + n) p _ c (omega arith),
)
