-- ===== src/Pmm/Init.antt =====
-- Reserving ranges: `pmm_init` and `pmm_reserve_range` keep the allocator sound, take no page out
-- of use, and mark every page that a reserved range touches.
use szczupak_os.Base.{
  update, lt→ltb, ◌&&◌, min, le→leb, ◌-◌, if◌then◌else◌, ge→ltb, ap, sym, align_up, ◌≤◌, ◌^◌, ◌*◌,
  ◌%◌, ℕ, zero, suc, ◌+◌, ◌/◌, ◌<◌, ◌≡◌, refl, ◌∙◌, inl, inr, true, false, ◌||◌, arith, ltb, leb,
  gt→leb, eq→==, ne→==, Bool-cases, if_elim, add64, sub64, page_size, align_down,
}
use szczupak_os.Pmm.{
  bitmap_size, zeroed, sized, wiped, max_pages, Word, Symbols, wipe_loop, reserve_boot, init, Pmm,
  test_bit, set_bit, put_bit, mark_page, mark_loop, mark_used,
}
use szczupak_os.Pmm.Bits.{
  used_below_none, page_used, page_used-put_bit, used_below, used_below_flip, used_below-le,
}
use szczupak_os.Pmm.Inv.{IsSound}

-- `u` is sound, manages the range of `s`, and has in use what `s` had.
pub record Grown (s u : Pmm) : Type 0 where
  pub sound : IsSound u
  pub same_range : (u.start ≡ s.start) × (u.limit ≡ s.limit) × (u.total_pages ≡ s.total_pages)
  pub keeps : (p : ℕ) → page_used s.bitmap p ≡ true → page_used u.bitmap p ≡ true

Grown-refl : {s : Pmm} → IsSound s → Grown s s
Grown-refl v = record { sound = v; same_range = (refl, refl, refl); keeps = λ p h. h }

Grown-trans : {s u w : Pmm} → Grown s u → Grown u w → Grown s w
Grown-trans a b = record {
  sound = b.sound;
  same_range = (
    b.same_range.0 ∙ a.same_range.0,
    b.same_range.1 ∙ a.same_range.1,
    b.same_range.2 ∙ a.same_range.2,
  );
  keeps = λ p h. b.keeps p (a.keeps p h);
}

-- Marking a page that the test finds free.
module _ (s : Pmm) (v : IsSound s) (page : ℕ) (free : test_bit page s ≡ false) where
  free_parts : (page < s.total_pages) × (page_used s.bitmap page ≡ false)
  unfolding test_bit
  free_parts = ground arith

  marked : Pmm
  marked = record (set_bit page s) { used_pages = add64 s.used_pages 1 }

  set_bit_lem : set_bit page s ≡ record s { bitmap = put_bit true page s.bitmap }
  unfolding set_bit
  set_bit_lem = rw (gt→leb s.total_pages page free_parts.0)

  one_more : used_below (page_used (put_bit true page s.bitmap)) s.total_pages ≡ s.used_pages + 1
  one_more =
      used_below_flip (page_used s.bitmap) (page_used (put_bit true page s.bitmap)) s.total_pages
        page free_parts.0 free_parts.1
        (page_used-put_bit true page s.bitmap page ∙ rw (eq→== page page refl))
        (λ p h. page_used-put_bit true page s.bitmap p ∙ rw (ne→== p page h))
      ∙ omega (arith, v.counted)

  marked-Grown : Grown s marked
  unfolding marked
  marked-Grown = rw set_bit_lem (record {
    sound = record {
      pages_in = v.pages_in;
      range_in = v.range_in;
      limit_in = v.limit_in;
      counted = omega (
        arith,
        one_more,
        used_below-le (page_used (put_bit true page s.bitmap)) s.total_pages,
        v.pages_in,
      );
      hint_in = v.hint_in;
    };
    same_range = (refl, refl, refl);
    keeps = λ p h. page_used-put_bit true page s.bitmap p ∙ ground arith;
  })

  marked_at : page_used marked.bitmap page ≡ true
  unfolding marked
  marked_at = rw set_bit_lem (page_used-put_bit true page s.bitmap page ∙ rw (eq→== page page refl))

mark_page-Grown : (addr : ℕ) (s : Pmm) → IsSound s → Grown s (mark_page addr s)
unfolding mark_page
mark_page-Grown addr s v =
    if_elim (Grown s) (ltb addr s.start || leb s.limit addr) (Grown-refl v)
      (elim (Bool-cases (test_bit page s)) [
        | inl used ↦ rw used (Grown-refl v)
        | inr free ↦ rw free (unfold marked in marked-Grown s v page free)
      ])
  where
    page : ℕ
    page = sub64 addr s.start / page_size

mark_loop-Grown : (n addr : ℕ) (s : Pmm) → IsSound s → Grown s (mark_loop n addr s)
unfolding mark_loop
mark_loop-Grown zero addr s v = Grown-refl v
mark_loop-Grown (suc n) addr s v =
    let first = mark_page-Grown addr s v in
    Grown-trans first (mark_loop-Grown n (add64 addr page_size) (mark_page addr s) first.sound)

pub mark_used-Grown : (first last : ℕ) (s : Pmm) → IsSound s → Grown s (mark_used first last s)
unfolding mark_used
mark_used-Grown first last s v =
    if_elim (Grown s) (leb last first) (Grown-refl v) (mark_loop-Grown _ (align_down first) s v)

-- The address of a managed page does not wrap.
page_addr-lt :
    (s : Pmm) (p : ℕ) → IsSound s → p < s.total_pages → s.start + p * 4096 + 4096 ≤ s.limit
page_addr-lt s p v h = let span = v.range_in in omega arith

-- The round at the address of a page leaves it in use.
mark_page-hits :
    (s : Pmm) (p addr : ℕ)
    → IsSound s
    → p < s.total_pages
    → addr ≡ s.start + p * 4096
    → page_used (mark_page addr s).bitmap p ≡ true
unfolding mark_page
mark_page-hits s p addr v h e =
    rw
      (
        ge→ltb addr s.start (omega arith),
        gt→leb s.limit addr (omega (arith, page_addr-lt s p v h)),
        index,
      )
      (elim (Bool-cases (test_bit p s)) [
        | inl used ↦ rw used (now used)
        | inr free ↦ rw free (unfold marked in marked_at s v p free)
      ])
  where
    index : sub64 addr s.start / page_size ≡ p
    index = let top = v.limit_in in omega (arith, page_addr-lt s p v h)

    now : test_bit p s ≡ true → page_used s.bitmap p ≡ true
    now used = unfold test_bit in (sym (rw (gt→leb s.total_pages p h) refl) ∙ used)

-- A page whose address is one of those that the loop visits is in use when it ends.
mark_loop-hits :
    (n i p addr : ℕ) (s : Pmm)
    → IsSound s
    → p < s.total_pages
    → i < n
    → addr + i * 4096 ≡ s.start + p * 4096
    → page_used (mark_loop n addr s).bitmap p ≡ true
unfolding mark_loop
mark_loop-hits zero i p addr s v h q e = absurd (omega arith)
mark_loop-hits (suc n) zero p addr s v h q e =
    let first = mark_page-Grown addr s v in
    (mark_loop-Grown n (add64 addr page_size) (mark_page addr s) first.sound).keeps p
      (mark_page-hits s p addr v h (omega arith))
mark_loop-hits (suc n) (suc i) p addr s v h q e =
    let first = mark_page-Grown addr s v in
    let top = v.limit_in in
    mark_loop-hits n i p (add64 addr page_size) (mark_page addr s) first.sound
      (omega (arith, first.same_range.2)) (omega arith)
      (omega (arith, first.same_range.0, page_addr-lt s p v h))

-- Reserving a range (`pmm_reserve_range`, and each range of `pmm_init`) keeps the allocator sound,
-- takes no page out of use, and leaves in use every managed page that the range touches, if the
-- managed memory starts at a page boundary.
pub mark_used-hits :
    (first last : ℕ) (s : Pmm)
    → IsSound s
    → s.start % 4096 ≡ 0
    → first < last
    → last + 4095 < 2 ^ 64
    → Grown s (mark_used first last s)
      × ((p : ℕ)
          → p < s.total_pages
          → first < s.start + p * 4096 + 4096
          → s.start + p * 4096 < last
          → page_used (mark_used first last s).bitmap p ≡ true)
unfolding mark_used
mark_used-hits first last s v aligned h top =
    (unfold mark_used in mark_used-Grown first last s v, hits)
  where
    hits :
        (p : ℕ)
        → p < s.total_pages
        → first < s.start + p * 4096 + 4096
        → s.start + p * 4096 < last
        → page_used (mark_used first last s).bitmap p ≡ true
    hits p q a b = rw (gt→leb last first h) (
        mark_loop-hits ((align_up last - align_down first) / page_size)
          ((s.start + p * 4096 - align_down first) / 4096) p (align_down first) s v q (omega arith)
          (omega arith))

wipe_loop_lem :
    (n i : ℕ) (w : ℕ → Word) (j : ℕ)
    → wipe_loop n i w j ≡ (if leb i j && ltb j (i + n) then (λ _. false) else w j)
unfolding wipe_loop
wipe_loop_lem zero i w j = ground arith
wipe_loop_lem (suc n) i w j = wipe_loop_lem n (i + 1) (update w i (λ _. false)) j ∙ ground arith

wiped-IsSound :
    (s : Pmm)
    → s.total_pages ≤ max_pages
    → s.start + s.total_pages * 4096 ≤ s.limit
    → s.limit < 2 ^ 64
    → s.last_alloc_hint ≤ s.total_pages
    → IsSound (wiped s)
wiped-IsSound s a b c d = record {
  pages_in = a;
  range_in = b;
  limit_in = c;
  counted = sym (used_below_none _ s.total_pages blank);
  hint_in = d;
}
  where
    blank : (p : ℕ) → p < s.total_pages → page_used (wiped s).bitmap p ≡ false
    blank p q =
        let word : wipe_loop (add64 s.total_pages 63 / 64) 0 s.bitmap (p / 64) ≡ (λ _. false) =
          wipe_loop_lem (add64 s.total_pages 63 / 64) 0 s.bitmap (p / 64)
          ∙ rw (
            le→leb 0 (p / 64) (omega arith),
            lt→ltb (p / 64) (0 + add64 s.total_pages 63 / 64) (omega arith),
          ) in
        ap (λ (w : Word). w (p % 64)) word

sized-IsSound :
    (m : ℕ → ℕ) (mem_start mem_end : ℕ)
    → mem_start < mem_end
    → mem_end < 2 ^ 64
    → IsSound (wiped (sized mem_start mem_end (zeroed m)))
sized-IsSound m a b h k =
    wiped-IsSound (sized a b (zeroed m)) (ground arith) (ground arith) (ground arith) (ground arith)

reserve_boot-Grown : (k : Symbols) (s : Pmm) → IsSound s → Grown s (reserve_boot k s)
unfolding reserve_boot
reserve_boot-Grown k s v =
    let low =
      if_elim (Grown s) (ltb s.start 0x200000) (mark_used-Grown s.start 0x200000 s v)
        (Grown-refl v) in
    let image = mark_used-Grown 0x100000 (align_up k.kernel_end) _ low.sound in
    let p4 = mark_used-Grown k.p4_table (add64 k.p4_table page_size) _ image.sound in
    let p3 = mark_used-Grown k.p3_table (add64 k.p3_table page_size) _ p4.sound in
    let p2 = mark_used-Grown k.p2_table (add64 k.p2_table page_size) _ p3.sound in
    let bits = mark_used-Grown k.pmm_bitmap (add64 k.pmm_bitmap (bitmap_size * 8)) _ p2.sound in
    Grown-trans low (Grown-trans image (Grown-trans p4 (Grown-trans p3 (Grown-trans p2 bits))))

-- `pmm_init` on a range of at least one page leaves a sound allocator: the count of used pages is
-- the number of pages that the bitmap marks, and no more pages are managed than the bitmap covers.
pub init-IsSound :
    (k : Symbols) (m : ℕ → ℕ) (mem_start mem_end : ℕ)
    → mem_start + 4096 ≤ mem_end
    → mem_end < 2 ^ 64
    → IsSound (init k mem_start mem_end (zeroed m))
      × ((init k mem_start mem_end (zeroed m)).start ≡ mem_start)
      × ((init k mem_start mem_end (zeroed m)).total_pages
          ≡ min max_pages ((mem_end - mem_start) / 4096))
unfolding init
init-IsSound k m a b h top =
    let grown =
      reserve_boot-Grown k (wiped (sized a b (zeroed m))) (sized-IsSound m a b (omega arith) top) in
    rw (gt→leb b a (omega arith), ne→== ((b - a) / 4096) 0 (omega arith))
      (grown.sound, grown.same_range.0 ∙ ground arith, grown.same_range.2 ∙ ground arith)
