-- ===== src/Pmm/Alloc.antt =====
-- `pmm_alloc_pages`: what it returns on every branch, and that its search misses no free run.
use szczupak_os.Pmm.Bits.{
  used_below-filled, used_below_eq, filled, used_below-le, used_below, page_used,
}
use szczupak_os.Base.{
  refl, Option-cases, ne→==, ◌⊎◌, sym, lt→ltb, update, le→leb, ◌∙◌, ◌&&◌, ap, ◌*◌, ℕ, zero, suc,
  ◌+◌, ◌-◌, ◌%◌, ◌^◌, ◌≤◌, ◌<◌, ◌≡◌, subst, ◌↔◌, inl, inr, Bool, true, false, none, some, arith,
  ltb, leb, ◌==◌, if◌then◌else◌, ge→ltb, leb→le, leb→gt, ==→eq, ==→ne, Bool-cases, add64,
}
use native.Mathlib.Nat.{mod-lt, mod-eq_of_lt}
use szczupak_os.Pmm.{
  alloc_pages, take_run, set_loop, memset, Pmm, max_pages, search, range_is_clear,
}
use szczupak_os.Pmm.Inv.{set_run-Filled, Filled, IsSound, FreeRun, range_is_clear_iff}

-- Whether a round of the search takes the page that it looks at.
takes : (page count : ℕ) → Pmm → Bool
takes page count s =
    if ltb s.total_pages (add64 page count) then false else range_is_clear page count s

module _ (hint count : ℕ) (s : Pmm) (v : IsSound s) (small : count < 2 ^ 32)
    (some_total : 0 < s.total_pages) (h : hint < s.total_pages) where
  page_at : ℕ → ℕ
  page_at i = (hint + i) % s.total_pages

  page_at-lt : (i : ℕ) → page_at i < s.total_pages
  unfolding page_at
  page_at-lt i = mod-lt (hint + i) some_total

  takes_iff : (page : ℕ) → page < s.total_pages → (takes page count s ≡ true) ↔ FreeRun s page count
  unfolding takes
  takes_iff page q = (sound, complete)
    where
      bound : s.total_pages ≤ max_pages
      bound = v.pages_in

      sum : add64 page count ≡ page + count
      sum = omega arith

      decides : (range_is_clear page count s ≡ true) ↔ FreeRun s page count
      decides = range_is_clear_iff s bound page count (omega arith) small

      sound : takes page count s ≡ true → FreeRun s page count
      sound e = decides.0 (ground arith)

      complete : FreeRun s page count → takes page count s ≡ true
      complete r = rw (sum, ge→ltb s.total_pages (page + count) r.in_range) (decides.1 r)

  search_step :
      (n i : ℕ)
      → i < s.total_pages
      → search (suc n) i hint count s
        ≡ (if takes (page_at i) count s then some (page_at i) else search n (i + 1) hint count s)
  unfolding search takes page_at
  search_step n i q =
      let bound : s.total_pages ≤ max_pages = v.pages_in in
      let sum : add64 hint i ≡ hint + i = omega arith in rw sum (ground arith)

  search-some :
      (n i : ℕ) {page : ℕ}
      → i + n ≤ s.total_pages
      → search n i hint count s ≡ some page
      → FreeRun s page count
  unfolding search
  search-some zero i q e = cc
  search-some (suc n) i {page} q e = elim (Bool-cases (takes (page_at i) count s)) [
    | inl t ↦
        let found : page_at i ≡ page = ground (arith, search_step n i) in
        subst (λ k. FreeRun s k count) found ((takes_iff (page_at i) (page_at-lt i)).0 t)
    | inr f ↦ search-some n (i + 1) (omega arith) (ground (arith, search_step n i))
  ]

  search-none :
      (n i : ℕ)
      → i + n ≤ s.total_pages
      → search n i hint count s ≡ none
      → (j : ℕ) → i ≤ j
      → j < i + n
      → ¬ FreeRun s (page_at j) count
  search-none zero i q e = λ j a b. absurd (omega arith)
  search-none (suc n) i q e = λ j a b r. elim (Bool-cases (takes (page_at i) count s)) [
    | inl t ↦ absurd (ground (arith, search_step n i))
    | inr f ↦ elim (Bool-cases (j == i)) [
      | inl here ↦
          let at_i : FreeRun s (page_at i) count =
            subst (λ k. FreeRun s (page_at k) count) (==→eq j i here) r in
          let t : takes (page_at i) count s ≡ true =
            (takes_iff (page_at i) (page_at-lt i)).1 at_i in
          absurd (ground arith)
      | inr later ↦
          search-none n (i + 1) (omega arith) (ground (arith, search_step n i)) j
            (omega (arith, ==→ne j i later)) (omega arith) r
    ]
  ]

  -- Every managed page is looked at.
  page_at_all :
      (page : ℕ) → page < s.total_pages → (i : ℕ) × (i < s.total_pages) × (page_at i ≡ page)
  unfolding page_at
  page_at_all page q = elim (Bool-cases (leb hint page)) [
    | inl e ↦
        let le = leb→le hint page e in
        (
          page - hint,
          omega arith,
          rw (mod-eq_of_lt {n = hint + (page - hint)} {m = s.total_pages} (omega arith))
              (omega arith),
        )
    | inr e ↦
        let gt = leb→gt hint page e in
        let wrap : hint + (page + s.total_pages - hint) ≡ page + s.total_pages = omega arith in
        (page + s.total_pages - hint, omega arith, rw wrap (grind arith))
  ]

pub memset_lem :
    (n p c : ℕ) (m : ℕ → ℕ) (a : ℕ)
    → memset p c n m a ≡ (if leb p a && ltb a (p + n) then c % 256 else m a)
unfolding memset
memset_lem zero p c m a = ground arith
memset_lem (suc n) p c m a = memset_lem n (p + 1) c (update m p (c % 256)) a ∙ ground arith

-- `u` is `s` with the `count` pages from `page` on taken, and `r` is their address: they were free,
-- only their flags change, and of the memory only they, which are zero.
pub record Taken (count : ℕ) (s : Pmm) (page r : ℕ) (u : Pmm) : Type 0 where
  pub free : FreeRun s page count
  pub address : r ≡ s.start + page * 4096
  pub used : u.used_pages ≡ s.used_pages + count
  pub flags : (p : ℕ) → page_used u.bitmap p ≡ filled true page count (page_used s.bitmap) p
  pub cleared : (a : ℕ) → r ≤ a → a < r + count * 4096 → u.memory a ≡ 0
  pub kept : (a : ℕ) → (a < r) ⊎ (r + count * 4096 ≤ a) → u.memory a ≡ s.memory a
  pub same_range : (u.start ≡ s.start) × (u.limit ≡ s.limit) × (u.total_pages ≡ s.total_pages)

-- What `pmm_alloc_pages` may return: a free run, or 0 and no change when there is none.
pub data Allocated (count : ℕ) (s : Pmm) : ℕ × Pmm → Type 0 where
  none_asked : {x : ℕ × Pmm} → count ≡ 0 → x ≡ (0, s) → Allocated count s x
  none_free :
      {x : ℕ × Pmm} → ((page : ℕ) → ¬ FreeRun s page count) → x ≡ (0, s) → Allocated count s x
  taken : (page : ℕ) {x : ℕ × Pmm} → Taken count s page x.0 x.1 → Allocated count s x

module _ (s : Pmm) (v : IsSound s) (page count : ℕ) (small : count < 2 ^ 32)
    (free : FreeRun s page count) where
  marked : Filled true page count s (set_loop count page 0 s)
  marked = set_run-Filled page count s free.in_range v.pages_in

  same_total : (set_loop count page 0 s).total_pages ≡ s.total_pages
  same_total = ap (λ (u : Pmm). u.total_pages) marked.rest

  same_start : (set_loop count page 0 s).start ≡ s.start
  same_start = ap (λ (u : Pmm). u.start) marked.rest

  same_limit : (set_loop count page 0 s).limit ≡ s.limit
  same_limit = ap (λ (u : Pmm). u.limit) marked.rest

  result_lem : (take_run page count s).0 ≡ s.start + page * 4096
  unfolding take_run
  result_lem =
      let bound = v.pages_in in
      let room = free.in_range in let below = v.limit_in in let span = v.range_in in omega arith

  used_count :
      used_below (page_used (set_loop count page 0 s).bitmap) s.total_pages ≡ s.used_pages + count
  used_count =
      used_below_eq _ (filled true page count (page_used s.bitmap)) s.total_pages
        (λ p q. marked.flags p)
      ∙ omega (
        arith,
        v.counted,
        used_below-filled count page s.total_pages (page_used s.bitmap) free.in_range free.all_free,
      )

  fits : add64 s.used_pages count ≡ s.used_pages + count
  fits = omega (
    arith,
    used_count,
    used_below-le (page_used (set_loop count page 0 s).bitmap) s.total_pages,
    v.pages_in,
  )

  take_run-Taken : Taken count s page (take_run page count s).0 (take_run page count s).1
  unfolding take_run
  take_run-Taken = record {
    free = free;
    address = result_lem;
    used = fits;
    flags = marked.flags;
    cleared = λ a p q. memset_lem (count * 4096) _ 0 s.memory a ∙ rw (le→leb _ a p, lt→ltb a _ q);
    kept = λ a h. memset_lem (count * 4096) _ 0 s.memory a ∙ ground arith;
    same_range = (same_start, same_limit, same_total);
  }

  take_run-IsSound : IsSound (take_run page count s).1
  unfolding take_run
  take_run-IsSound = record {
    pages_in = omega (arith, same_total, v.pages_in);
    range_in = rw (same_start, same_total, same_limit) v.range_in;
    limit_in = rw same_limit v.limit_in;
    counted = rw same_total (fits ∙ sym used_count);
    hint_in = omega (arith, same_total, free.in_range, v.pages_in);
  }

-- `pmm_alloc_pages` on a sound allocator with at least one page does not fail. It returns the
-- address of a free run of `count` pages, which it marks as used, counts and clears, and nothing
-- else changes in the bitmap or in memory; or it returns 0 with no change, where `count` is 0 or no
-- run of `count` free pages exists at all. The allocator stays sound.
pub alloc_pages-Allocated :
    (s : Pmm) (count : ℕ)
    → IsSound s
    → 0 < s.total_pages
    → count < 2 ^ 32
    → (x : ℕ × Pmm) × (alloc_pages count s ≡ some x) × Allocated count s x × IsSound x.1
unfolding alloc_pages
alloc_pages-Allocated s count v some_total small = elim (Bool-cases (count == 0)) [
  | inl z ↦ ((0, s), rw z, none_asked (==→eq count 0 z) refl, v)
  | inr nz ↦
      rw (nz, ne→== s.total_pages 0 (omega arith))
        (searched (Option-cases (search s.total_pages 0 hint count s)))
]
  where
    hint : ℕ
    hint = s.last_alloc_hint % s.total_pages

    hint_in : hint < s.total_pages
    hint_in = mod-lt s.last_alloc_hint some_total

    searched :
        (search s.total_pages 0 hint count s ≡ none)
          ⊎ ((page : ℕ) × (search s.total_pages 0 hint count s ≡ some page))
        → (x : ℕ × Pmm) × ((elim (search s.total_pages 0 hint count s) [
          | some page ↦ some (take_run page count s)
          | none ↦ some (0, s)
        ])
            ≡ some x)
          × Allocated count s x
          × IsSound x.1
    searched (inr (page, e)) =
        let free =
          search-some hint count s v small some_total hint_in s.total_pages 0 (omega arith) e in
        (
          take_run page count s,
          rw e,
          taken page (take_run-Taken s v page count small free),
          take_run-IsSound s v page count small free,
        )
    searched (inl e) = (
      (0, s),
      rw e,
      none_free
          (λ page r.
            let (i, q, at) =
              page_at_all hint count s v small some_total hint_in page
                (omega (arith, r.in_range, r.some_pages)) in
            search-none hint count s v small some_total hint_in s.total_pages 0 (omega arith) e i
              (omega arith) (omega arith) (subst (λ k. FreeRun s k count) (sym at) r))
          refl,
      v,
    )
