-- ===== src/Pmm/Inv.antt =====
-- The invariant of the allocator, and what its loops over a run of pages do.
use szczupak_os.Base.{
  ◌∙◌, ℕ, zero, suc, ◌+◌, ◌*◌, ◌^◌, ◌≤◌, ◌<◌, ◌≡◌, refl, subst, ◌↔◌, inl, inr, Bool, true, false,
  arith, ◌==◌, ge→ltb, gt→leb, ==→eq, ==→ne, ne→==, Bool-cases, add64,
}
use szczupak_os.Pmm.{
  set_loop, set_bit, put_bit, free_loop, clear_bit, Word, Pmm, max_pages, test_bit, clear_loop,
  range_is_clear,
}
use szczupak_os.Pmm.Bits.{page_used-put_bit, filled, page_used, used_below, AllFlags}

-- The number of pages fits the bitmap, the managed range fits 64-bit addresses, and the count of
-- used pages is the number of pages that the bitmap marks.
pub record IsSound (s : Pmm) : Type 0 where
  pub pages_in : s.total_pages ≤ max_pages
  pub range_in : s.start + s.total_pages * 4096 ≤ s.limit
  pub limit_in : s.limit < 2 ^ 64
  pub counted : s.used_pages ≡ used_below (page_used s.bitmap) s.total_pages
  pub hint_in : s.last_alloc_hint ≤ s.total_pages

-- The pages from `page` on are `count` managed pages, and none of them is in use.
pub record FreeRun (s : Pmm) (page count : ℕ) : Type 0 where
  pub some_pages : 0 < count
  pub in_range : page + count ≤ s.total_pages
  pub all_free : AllFlags false page count (page_used s.bitmap)

-- Within the managed range the address arithmetic does not wrap and the flag is read.
pub test_bit-inside :
    (p i : ℕ) (s : Pmm)
    → p + i < s.total_pages
    → s.total_pages ≤ max_pages
    → test_bit (add64 p i) s ≡ page_used s.bitmap (p + i)
unfolding test_bit
test_bit-inside p i s h k =
    let here : add64 p i ≡ p + i = omega arith in rw (here, gt→leb s.total_pages (p + i) h)

-- The flags of a run are its first flag and those behind it.
pub AllFlags-cons :
    (v : Bool) (first n : ℕ) (f : ℕ → Bool)
    → f first ≡ v
    → AllFlags v (first + 1) n f
    → AllFlags v first (suc n) f
AllFlags-cons v first n f e a p h k = elim (Bool-cases (p == first)) [
  | inl q ↦ rw (==→eq p first q) e
  | inr q ↦ a p (omega (arith, ==→ne p first q)) (omega arith)
]

module _ (s : Pmm) (small : s.total_pages ≤ max_pages) where
  clear_loop-AllFlags :
      (n first i : ℕ)
      → first + i + n ≤ s.total_pages
      → clear_loop n first i s ≡ true
      → AllFlags false (first + i) n (page_used s.bitmap)
  unfolding clear_loop
  clear_loop-AllFlags zero first i h e = λ p q r. absurd (omega arith)
  clear_loop-AllFlags (suc n) first i h e =
      let flag = test_bit-inside first i s (omega arith) small in
      AllFlags-cons false (first + i) n (page_used s.bitmap) (ground arith) (
        subst (λ k. AllFlags false k n (page_used s.bitmap)) (omega arith)
          (clear_loop-AllFlags n first (i + 1) (omega arith) (ground arith)))

  clear_loop_of_AllFlags :
      (n first i : ℕ)
      → first + i + n ≤ s.total_pages
      → AllFlags false (first + i) n (page_used s.bitmap)
      → clear_loop n first i s ≡ true
  unfolding clear_loop
  clear_loop_of_AllFlags zero first i h a = refl
  clear_loop_of_AllFlags (suc n) first i h a =
      rw (test_bit-inside first i s (omega arith) small, a (first + i) (omega arith) (omega arith))
        (clear_loop_of_AllFlags n first (i + 1) (omega arith)
          (λ p q r. a p (omega arith) (omega arith)))

  -- `bitmap_range_is_clear` decides whether a run of managed pages is free.
  pub range_is_clear_iff :
      (page count : ℕ)
      → page < 2 ^ 32
      → count < 2 ^ 32
      → (range_is_clear page count s ≡ true) ↔ FreeRun s page count
  unfolding range_is_clear
  range_is_clear_iff page count h k = (sound, complete)
    where
      sum : add64 page count ≡ page + count
      sum = omega arith

      sound : range_is_clear page count s ≡ true → FreeRun s page count
      sound e =
          let parts : (0 < count)
              × (page + count ≤ s.total_pages)
              × (clear_loop count page 0 s ≡ true) =
            ground arith in
          record {
            some_pages = parts.0;
            in_range = parts.1;
            all_free =
                subst (λ q. AllFlags false q count (page_used s.bitmap)) (omega arith)
                  (clear_loop-AllFlags count page 0 (omega (arith, parts.1)) parts.2);
          }

      complete : FreeRun s page count → range_is_clear page count s ≡ true
      complete r =
          rw
            (
              ne→== count 0 (omega (arith, r.some_pages)),
              gt→leb s.total_pages page (omega (arith, r.in_range, r.some_pages)),
              sum,
              ge→ltb s.total_pages (page + count) r.in_range,
            )
            (clear_loop_of_AllFlags count page 0 (omega (arith, r.in_range))
              (subst (λ q. AllFlags false q count (page_used s.bitmap)) (omega arith) r.all_free))

set_bit-inside :
    (p i : ℕ) (s : Pmm)
    → p + i < s.total_pages
    → s.total_pages ≤ max_pages
    → set_bit (add64 p i) s ≡ record s { bitmap = put_bit true (p + i) s.bitmap }
unfolding set_bit
set_bit-inside p i s h k =
    let here : add64 p i ≡ p + i = omega arith in rw (here, gt→leb s.total_pages (p + i) h)

clear_bit-inside :
    (p i : ℕ) (s : Pmm)
    → p + i < s.total_pages
    → s.total_pages ≤ max_pages
    → clear_bit (add64 p i) s ≡ record s { bitmap = put_bit false (p + i) s.bitmap }
unfolding clear_bit
clear_bit-inside p i s h k =
    let here : add64 p i ≡ p + i = omega arith in rw (here, gt→leb s.total_pages (p + i) h)

-- `u` is `s` but for the flags of the `n` pages from `first` on, which all are `v`.
pub record Filled (v : Bool) (first n : ℕ) (s u : Pmm) : Type 0 where
  pub rest : u ≡ record s { bitmap = u.bitmap }
  pub flags : (p : ℕ) → page_used u.bitmap p ≡ filled v first n (page_used s.bitmap) p

filled_zero : (v : Bool) (first : ℕ) (f : ℕ → Bool) (p : ℕ) → f p ≡ filled v first 0 f p
filled_zero v first f p = ground arith

filled-suc :
    (v : Bool) (first n : ℕ) (w : ℕ → Word) (p : ℕ)
    → filled v (first + 1) n (page_used (put_bit v first w)) p
      ≡ filled v first (suc n) (page_used w) p
filled-suc v first n w p = rw (page_used-put_bit v first w p) (ground arith)

Filled-suc :
    (v : Bool) (page j n : ℕ) (s u : Pmm)
    → Filled v (page + (j + 1)) n (record s { bitmap = put_bit v (page + j) s.bitmap }) u
    → Filled v (page + j) (suc n) s u
Filled-suc v page j n s u f = record {
  rest = f.rest;
  flags = λ p. f.flags p ∙ rw shift (filled-suc v (page + j) n s.bitmap p);
}
  where
    shift : page + (j + 1) ≡ page + j + 1
    shift = omega arith

set_loop-Filled :
    (n page j : ℕ) (s : Pmm)
    → page + j + n ≤ s.total_pages
    → s.total_pages ≤ max_pages
    → Filled true (page + j) n s (set_loop n page j s)
unfolding set_loop
set_loop-Filled zero page j s h k = record { rest = refl; flags = filled_zero true (page + j) _ }
set_loop-Filled (suc n) page j s h k =
    rw (set_bit-inside page j s (omega arith) k)
      (Filled-suc true page j n s _ (set_loop-Filled n page (j + 1) _ (omega arith) k))

free_loop-Filled :
    (n page j : ℕ) (s : Pmm)
    → page + j + n ≤ s.total_pages
    → s.total_pages ≤ max_pages
    → Filled false (page + j) n s (free_loop n page j s)
unfolding free_loop
free_loop-Filled zero page j s h k = record { rest = refl; flags = filled_zero false (page + j) _ }
free_loop-Filled (suc n) page j s h k =
    rw (clear_bit-inside page j s (omega arith) k)
      (Filled-suc false page j n s _ (free_loop-Filled n page (j + 1) _ (omega arith) k))

-- The loops of `pmm_alloc_pages` and `pmm_free_pages` over a managed run.
pub set_run-Filled :
    (page count : ℕ) (s : Pmm)
    → page + count ≤ s.total_pages
    → s.total_pages ≤ max_pages
    → Filled true page count s (set_loop count page 0 s)
set_run-Filled page count s h k =
    subst (λ q. Filled true q count s (set_loop count page 0 s)) (omega arith)
      (set_loop-Filled count page 0 s (omega arith) k)

pub free_run-Filled :
    (page count : ℕ) (s : Pmm)
    → page + count ≤ s.total_pages
    → s.total_pages ≤ max_pages
    → Filled false page count s (free_loop count page 0 s)
free_run-Filled page count s h k =
    subst (λ q. Filled false q count s (free_loop count page 0 s)) (omega arith)
      (free_loop-Filled count page 0 s (omega arith) k)
