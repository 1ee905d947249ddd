-- ===== src/Pmm/Free.antt =====
-- `pmm_free_pages`: which requests it obeys, and that it undoes an allocation.

use szczupak_os.Pmm.Alloc.{Taken, Allocated, none_asked, none_free, taken, alloc_pages-Allocated}
use szczupak_os.Base.{
  some_inj, ◌&&◌, ◌∙◌, sym, refl, inl, inr, Bool-cases, ==→ne, ltb→ge, ==→eq, some, leb, ◌||◌, ◌≢◌,
  ◌==◌, ap, ℕ, zero, suc, ◌+◌, ◌*◌, ◌/◌, ◌%◌, ◌^◌, ◌≤◌, ◌<◌, min, ◌≡◌, refl, subst, true, false,
  arith, ltb, if◌then◌else◌, ge→ltb, gt→leb, eq→==, ne→==, add64, sub64, page_size,
}
use szczupak_os.Pmm.{alloc_pages, Pmm, max_pages, used_loop, free_loop, free_run, free_pages}
use szczupak_os.Pmm.Bits.{
  filled_in, used_below-le, page_used, used_below, filled, AllFlags, used_below-cleared,
  used_below_eq,
}
use szczupak_os.Pmm.Inv.{FreeRun, AllFlags-cons, test_bit-inside, IsSound, Filled, free_run-Filled}

module _ (s : Pmm) (small : s.total_pages ≤ max_pages) where
  used_loop-AllFlags :
      (n first i : ℕ)
      → first + i + n ≤ s.total_pages
      → used_loop n first i s ≡ true
      → AllFlags true (first + i) n (page_used s.bitmap)
  unfolding used_loop
  used_loop-AllFlags zero first i h e = λ p q r. absurd (omega arith)
  used_loop-AllFlags (suc n) first i h e =
      let flag = test_bit-inside first i s (omega arith) small in
      AllFlags-cons true (first + i) n (page_used s.bitmap) (ground arith) (
        subst (λ k. AllFlags true k n (page_used s.bitmap)) (omega arith)
          (used_loop-AllFlags n first (i + 1) (omega arith) (ground arith)))

  used_loop_of_AllFlags :
      (n first i : ℕ)
      → first + i + n ≤ s.total_pages
      → AllFlags true (first + i) n (page_used s.bitmap)
      → used_loop n first i s ≡ true
  unfolding used_loop
  used_loop_of_AllFlags zero first i h a = refl
  used_loop_of_AllFlags (suc n) first i h a =
      rw (test_bit-inside first i s (omega arith) small, a (first + i) (omega arith) (omega arith))
        (used_loop_of_AllFlags n first (i + 1) (omega arith)
          (λ p q r. a p (omega arith) (omega arith)))

-- `addr` is the address of the first of `count` managed pages, and all of them are in use.
pub record Held (s : Pmm) (addr page count : ℕ) : Type 0 where
  pub some_pages : 0 < count
  pub address : addr ≡ s.start + page * 4096
  pub aligned : addr % 4096 ≡ 0
  pub in_range : page + count ≤ s.total_pages
  pub all_used : AllFlags true page count (page_used s.bitmap)

-- `u` is `s` with the `count` pages from `page` on given back: only their flags change, and the
-- next search starts no later than at them.
pub record Freed (s : Pmm) (page count : ℕ) (u : Pmm) : Type 0 where
  pub flags : (p : ℕ) → page_used u.bitmap p ≡ filled false page count (page_used s.bitmap) p
  pub used : u.used_pages + count ≡ s.used_pages
  pub hint : u.last_alloc_hint ≡ min page s.last_alloc_hint
  pub same :
      (u.start ≡ s.start)
      × (u.limit ≡ s.limit)
      × (u.total_pages ≡ s.total_pages)
      × (u.memory ≡ s.memory)

module _ (s : Pmm) (v : IsSound s) (addr page count : ℕ) (held : Held s addr page count) where
  cleared : Filled false page count s (free_loop count page 0 s)
  cleared = free_run-Filled page count s held.in_range v.pages_in

  unused_count :
      used_below (page_used (free_loop count page 0 s).bitmap) s.total_pages + count ≡ s.used_pages
  unused_count = omega (
    arith,
    v.counted,
    used_below_eq (page_used (free_loop count page 0 s).bitmap)
        (filled false page count (page_used s.bitmap)) s.total_pages (λ p q. cleared.flags p),
    used_below-cleared count page s.total_pages (page_used s.bitmap) held.in_range held.all_used,
  )

  free_run_ok :
      (count < 2 ^ 32)
      → free_pages addr count s ≡ record (free_loop count page 0 s) {
        used_pages = sub64 s.used_pages count;
        last_alloc_hint = if ltb page s.last_alloc_hint then page else s.last_alloc_hint;
      }
  unfolding free_pages free_run
  free_run_ok small =
      let bound = v.pages_in in
      let span = v.range_in in
      let below = v.limit_in in
      let room = held.in_range in
      let pages = held.some_pages in
      let at = held.address in
      let index : sub64 addr s.start / page_size ≡ page = omega arith in
      let sum : add64 page count ≡ page + count = omega arith in
      rw
        (
          ne→== count 0 (omega arith),
          ge→ltb addr s.start (omega arith),
          gt→leb s.limit addr (omega arith),
          eq→== (addr % 4096) 0 held.aligned,
          index,
          sum,
          ge→ltb s.total_pages (page + count) room,
        )
        (rw (
          used_loop_of_AllFlags s bound count page 0 (omega arith)
            (subst (λ q. AllFlags true q count (page_used s.bitmap)) (omega arith) held.all_used)))

-- `pmm_free_pages` on an aligned run of pages that are all in use gives exactly these pages back
-- and keeps the allocator sound.
pub free_pages-Freed :
    (s : Pmm) (addr page count : ℕ)
    → IsSound s
    → count < 2 ^ 32
    → Held s addr page count
    → Freed s page count (free_pages addr count s) × IsSound (free_pages addr count s)
free_pages-Freed s addr page count v small held = rw (free_run_ok s v addr page count held small) (
  record { flags = gone.flags; used = used; hint = hint; same = (start, limit, total, memory) },
  record {
    pages_in = omega (arith, total, v.pages_in);
    range_in = rw (start, total, limit) v.range_in;
    limit_in = rw limit v.limit_in;
    counted = rw total counted;
    hint_in = rw (hint, total) (omega (arith, v.hint_in));
  },
)
  where
    gone : Filled false page count s (free_loop count page 0 s)
    gone = cleared s v addr page count held

    start : (free_loop count page 0 s).start ≡ s.start
    start = ap (λ (u : Pmm). u.start) gone.rest

    limit : (free_loop count page 0 s).limit ≡ s.limit
    limit = ap (λ (u : Pmm). u.limit) gone.rest

    total : (free_loop count page 0 s).total_pages ≡ s.total_pages
    total = ap (λ (u : Pmm). u.total_pages) gone.rest

    memory : (free_loop count page 0 s).memory ≡ s.memory
    memory = ap (λ (u : Pmm). u.memory) gone.rest

    left :
        used_below (page_used (free_loop count page 0 s).bitmap) s.total_pages + count
        ≡ s.used_pages
    left = unused_count s v addr page count held

    in_range :
        used_below (page_used (free_loop count page 0 s).bitmap) s.total_pages ≤ s.total_pages
    in_range = used_below-le (page_used (free_loop count page 0 s).bitmap) s.total_pages

    used : sub64 s.used_pages count + count ≡ s.used_pages
    used = omega (arith, left, in_range, v.pages_in)

    counted :
        sub64 s.used_pages count
        ≡ used_below (page_used (free_loop count page 0 s).bitmap) s.total_pages
    counted = omega (arith, left, in_range, v.pages_in)

    hint :
        (if ltb page s.last_alloc_hint then page else s.last_alloc_hint)
        ≡ min page s.last_alloc_hint
    hint = ground arith

-- Any other request changes nothing: an address outside of the range or not aligned, a run that
-- leaves the range, or one with a page that is free already.
pub free_pages_refused :
    (s : Pmm) (addr count : ℕ)
    → IsSound s
    → s.start % 4096 ≡ 0
    → addr < 2 ^ 64
    → count < 2 ^ 32
    → ((page : ℕ) → ¬ Held s addr page count)
    → free_pages addr count s ≡ s
unfolding free_pages free_run
free_pages_refused s addr count v aligned wide small no_held = elim (Bool-cases (count == 0)) [
  | inl z ↦ rw z
  | inr nz ↦ rw nz (elim (Bool-cases (ltb addr s.start || leb s.limit addr)) [
    | inl out ↦ rw out
    | inr at ↦ rw at (elim (Bool-cases (addr % page_size == 0)) [
      | inr odd ↦ rw odd
      | inl even ↦ rw even (elim (Bool-cases (ltb s.total_pages (add64 page count))) [
        | inl over ↦ rw over
        | inr fits ↦ rw fits (elim (Bool-cases (used_loop count page 0 s)) [
          | inr free ↦ rw free
          | inl used ↦ absurd (no_held page (held nz at even fits used))
        ])
      ])
    ])
  ])
]
  where
    page : ℕ
    page = sub64 addr s.start / page_size

    held :
        (count == 0) ≡ false
        → (ltb addr s.start || leb s.limit addr) ≡ false
        → (addr % page_size == 0) ≡ true
        → ltb s.total_pages (add64 page count) ≡ false
        → used_loop count page 0 s ≡ true
        → Held s addr page count
    held nz at even fits used =
        let bound = v.pages_in in
        let span = v.range_in in
        let below = v.limit_in in
        let low : s.start ≤ addr = ground arith in
        let place : addr ≡ s.start + page * 4096 = omega (arith, ==→eq (addr % page_size) 0 even) in
        let room : page + count ≤ s.total_pages =
          omega (arith, ltb→ge s.total_pages (add64 page count) fits) in
        record {
          some_pages = omega (arith, ==→ne count 0 nz);
          address = place;
          aligned = ==→eq (addr % page_size) 0 even;
          in_range = room;
          all_used =
              subst (λ q. AllFlags true q count (page_used s.bitmap)) (omega arith)
                (used_loop-AllFlags s bound count page 0 (omega arith) used);
        }

-- What freeing an allocated block brings back.
abbrev Undone : ℕ → Pmm → ℕ × Pmm → Type 0
Undone count s (r, u) =
    ((p : ℕ) → page_used (free_pages r count u).bitmap p ≡ page_used s.bitmap p)
    × ((free_pages r count u).used_pages ≡ s.used_pages)
    × IsSound (free_pages r count u)

undo-Taken :
    (s : Pmm) (count page : ℕ) (x : ℕ × Pmm)
    → s.start % 4096 ≡ 0
    → count < 2 ^ 32
    → IsSound x.1
    → Taken count s page x.0 x.1
    → Undone count s x
undo-Taken s count page (r, u) aligned small w t = (flags, count_back, done.1)
  where
    run : FreeRun s page count
    run = t.free

    held : Held u r page count
    held = record {
      some_pages = run.some_pages;
      address = omega (arith, t.address, t.same_range.0);
      aligned = omega (arith, t.address);
      in_range = omega (arith, run.in_range, t.same_range.2);
      all_used = λ p a b. t.flags p ∙ filled_in true page count (page_used s.bitmap) p a b;
    }

    done : Freed u page count (free_pages r count u) × IsSound (free_pages r count u)
    done = free_pages-Freed u r page count w small held

    count_back : (free_pages r count u).used_pages ≡ s.used_pages
    count_back = omega (arith, done.0.used, t.used)

    flags : (p : ℕ) → page_used (free_pages r count u).bitmap p ≡ page_used s.bitmap p
    flags p = done.0.flags p ∙ (elim (Bool-cases (leb page p && ltb p (page + count))) [
      | inl e ↦ rw e (sym (run.all_free p (ground arith) (ground arith)))
      | inr e ↦ rw e (t.flags p ∙ rw e)
    ])

undo-Allocated :
    (s : Pmm) (count : ℕ) (x : ℕ × Pmm)
    → s.start % 4096 ≡ 0
    → count < 2 ^ 32
    → IsSound x.1
    → x.0 ≢ 0
    → Allocated count s x
    → Undone count s x
undo-Allocated s count x aligned small w nonzero (none_asked z e) =
    absurd (nonzero (ap (λ (y : ℕ × Pmm). y.0) e))
undo-Allocated s count x aligned small w nonzero (none_free z e) =
    absurd (nonzero (ap (λ (y : ℕ × Pmm). y.0) e))
undo-Allocated s count x aligned small w nonzero (taken page t) =
    undo-Taken s count page x aligned small w t

-- On a sound allocator with pages, whose range starts at a multiple of 4096: a block of less than
-- 2^32 pages that `pmm_alloc_pages` returned can be freed, and freeing it brings back the flags of
-- every page and the count of used pages.
pub free_pages-alloc_pages :
    (s : Pmm) (count r : ℕ) (u : Pmm)
    → IsSound s
    → s.start % 4096 ≡ 0
    → count < 2 ^ 32
    → 0 < s.total_pages
    → r ≢ 0
    → alloc_pages count s ≡ some (r, u)
    → ((p : ℕ) → page_used (free_pages r count u).bitmap p ≡ page_used s.bitmap p)
      × ((free_pages r count u).used_pages ≡ s.used_pages)
      × IsSound (free_pages r count u)
free_pages-alloc_pages s count r u v aligned small some_total nonzero e =
    let (x, e', case, w) = alloc_pages-Allocated s count v some_total small in
    let same : x ≡ (r, u) = some_inj (sym e' ∙ e) in
    subst (Undone count s) same (
      undo-Allocated s count x aligned small w
        (λ z. nonzero (sym (ap (λ (y : ℕ × Pmm). y.0) same) ∙ z)) case)
