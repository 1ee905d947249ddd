-- ===== src/Vmm/Step.antt =====
-- `get_or_create_table` of src/kernel/mm/vmm.c: the table that it makes, and what it does in every case.
use szczupak_os.Base.{
  if_elim, Bool, align_down, ==→ne, subst, ne→==, eq→==, ==→eq, ◌&&◌, true, leb, ℕ, suc, ◌+◌, ◌*◌,
  ◌%◌, ◌^◌, ◌≤◌, ◌<◌, ◌≡◌, refl, sym, ap, ◌∙◌, ◌≢◌, ◌⊎◌, inl, inr, false, arith, ltb, ◌==◌,
  if◌then◌else◌, ltb→lt, ltb→ge, Bool-cases, bit_or, Memory, AreBytes,
}
use szczupak_os.Pmm.{Pmm, memset}
use szczupak_os.Pmm.Bits.{filled, page_used}
use szczupak_os.Pmm.Inv.{IsSound}
use szczupak_os.Pmm.Alloc.{Taken}
use szczupak_os.Vmm.{huge, present, entry, set_entry}
use szczupak_os.Vmm.Entry.{
  new_entry, Like-eq, Like, IsTable, entry-set_entry, entry-set_entry_ne, entry_page,
  set_entry-AreBytes, memset-AreBytes, entry-memset, entry-memset_ne, bit_or_flag-lt,
}
use szczupak_os.Vmm.Tables.{Stepped, Child, IsTables}

-- A table of level `n` more, at `p`.
abbrev with_level : (level : ℕ → ℕ) → (p n : ℕ) → ℕ → ℕ
with_level level p n x = if x == p then n else level x

no_entry : present 0 ≡ false
no_entry = refl

-- Behind the start of another page.
outside :
    (u x p : ℕ) → u ≢ p → IsTable u → IsTable p → u ≤ x → x < u + 4096 → p ≤ x → p + 1 * 4096 ≤ x
outside u x p ne a b low high ge = elim (Bool-cases (ltb u p)) [
  | inl e ↦ (let lt = ltb→lt u p e in absurd (omega arith))
  | inr e ↦ (let ge' = ltb→ge u p e in omega arith)
]

-- A page in use stays in use when another run is taken.
filled_used : (page p : ℕ) (f : ℕ → Bool) → f p ≡ true → filled true page 1 f p ≡ true
filled_used page p f e = if_elim (λ b. b ≡ true) (leb page p && ltb p (page + 1)) refl e

module _ (level : ℕ → ℕ) (parent i k flags : ℕ) (s : Pmm) (h : IsTables level s)
    (at : level parent ≡ suc (suc k)) (small : i < 512) (small_flags : flags < 128)
    (odd : flags % 2 ≡ 1) (page p : ℕ) (s1 : Pmm) (t : Taken 1 s page p s1)
    (sound : IsSound s1) where
  abbrev pub new_memory : Memory
  new_memory = set_entry parent i (bit_or p flags) (memset p 0 4096 s1.memory)

  abbrev pub new_state : Pmm
  new_state = record s1 { memory = new_memory }

  page_in : page < s.total_pages
  page_in = omega (arith, t.free.in_range)

  was_free : page_used s.bitmap page ≡ false
  was_free = t.free.all_free page (omega arith) (omega arith)

  no_table : level p ≡ 0
  no_table = ap level t.address ∙ h.held page page_in was_free

  p-IsTable : IsTable p
  p-IsTable = omega (arith, t.address, h.aligned_start)

  parent-IsTable : IsTable parent
  parent-IsTable = h.aligned parent (omega (arith, at))

  p_small : p < 2 ^ 64
  p_small = omega (arith, t.address, page_in, h.sound.range_in, h.sound.limit_in)

  other : (u : ℕ) → 0 < level u → u ≢ p
  other u a e = absurd (omega (arith, ap level e, no_table))

  -- The allocator clears its page and nothing else.
  allocated_entry : (u j : ℕ) → 0 < level u → j < 512 → entry s1.memory u j ≡ entry s.memory u j
  allocated_entry u j a q = entry_page u j s.memory s1.memory q λ x low high.
      elim (Bool-cases (ltb x p)) [
        | inl e ↦ t.kept x (inl (ltb→lt x p e))
        | inr e ↦
            let ge = ltb→ge x p e in
            let ne = other u a in
            let table = h.aligned u a in
            t.kept x (inr (outside u x p ne table p-IsTable low high ge))
      ]

  new_bytes : AreBytes s1.memory → AreBytes new_memory
  new_bytes b =
      set_entry-AreBytes parent i (bit_or p flags) (memset p 0 4096 s1.memory)
        (memset-AreBytes p 4096 s1.memory b)

  kept_entry :
      (u j : ℕ)
      → 0 < level u
      → j < 512
      → (u ≢ parent) ⊎ (j ≢ i)
      → entry new_memory u j ≡ entry s.memory u j
  kept_entry u j a q ne =
      entry-set_entry_ne parent i (bit_or p flags) u j (memset p 0 4096 s1.memory) parent-IsTable
        (h.aligned u a) small q ne
      ∙ entry-memset_ne p u j s1.memory p-IsTable (h.aligned u a) q (other u a)
      ∙ allocated_entry u j a q

  parent_entry : entry new_memory parent i ≡ bit_or p flags
  parent_entry =
      entry-set_entry parent i (bit_or p flags) (memset p 0 4096 s1.memory)
        (bit_or_flag-lt p flags (omega (arith, small_flags)) p_small)

  empty_table : (j : ℕ) → j < 512 → entry new_memory p j ≡ 0
  empty_table j q =
      entry-set_entry_ne parent i (bit_or p flags) p j (memset p 0 4096 s1.memory) parent-IsTable
        p-IsTable small q (inl (λ e. other parent (omega (arith, at)) (sym e)))
      ∙ entry-memset p j s1.memory q

  new_bytes' : AreBytes new_memory
  new_bytes' = new_bytes λ x. elim (Bool-cases (leb p x && ltb x (p + 1 * 4096))) [
    | inl e ↦
        let (f, g) : (p ≤ x) × (x < p + 1 * 4096) = ground arith in
        let clear = t.cleared x f g in omega arith
    | inr e ↦
        let out : (x < p) ⊎ (p + 1 * 4096 ≤ x) = ground arith in
        let same = t.kept x out in let old = h.bytes x in omega arith
  ]

  new_level : ℕ → ℕ
  new_level = with_level level p (suc k)

  level_here : new_level p ≡ suc k
  unfolding new_level
  level_here = rw (eq→== p p refl) refl

  level_other : (x : ℕ) → x ≢ p → new_level x ≡ level x
  unfolding new_level
  level_other x ne = rw (ne→== x p ne) refl

  level_grows : (x : ℕ) → 0 < level x → new_level x ≡ level x
  level_grows x a = level_other x (other x a)

  new_parent : Like (bit_or p flags) (entry new_memory parent i)
  new_parent = Like-eq parent_entry

  new_leads :
      (present (entry new_memory parent i) ≡ true)
      × (huge (entry new_memory parent i) ≡ false)
      × (align_down (entry new_memory parent i) ≡ p)
  new_leads =
      let (a, b, c) = new_entry p flags p-IsTable small_flags odd in
      (new_parent.is_present ∙ a, new_parent.is_huge ∙ b, new_parent.frame ∙ c)

  parent-Child : Child new_level k (entry new_memory parent i)
  parent-Child = (let (a, b, c) = new_leads in inl (b, ap new_level c ∙ level_here))

  kept-Child :
      (u j n : ℕ)
      → level u ≡ suc (suc n)
      → j < 512
      → (u ≢ parent) ⊎ (j ≢ i)
      → present (entry new_memory u j) ≡ true
      → Child new_level n (entry new_memory u j)
  kept-Child u j n e q ne leads =
      let same = kept_entry u j (omega (arith, e)) q ne in
      let old : Child level n (entry s.memory u j) =
        h.children u j n e q (ap present (sym same) ∙ leads) in
      subst (Child new_level n) (sym same) (elim old [
        | inl (plain, to) ↦ inl (plain, level_grows _ (omega (arith, to)) ∙ to)
        | inr big ↦ inr big
      ])

  new_children :
      (u j n : ℕ)
      → new_level u ≡ suc (suc n)
      → j < 512
      → present (entry new_memory u j) ≡ true
      → Child new_level n (entry new_memory u j)
  new_children u j n e q leads = elim (Bool-cases (u == p)) [
    | inl a ↦
        let same = ==→eq u p a in
        let zero_entry : present (entry new_memory u j) ≡ false =
          ap (λ x. present (entry new_memory x j)) same ∙ ap present (empty_table j q) ∙ no_entry in
        absurd (cc)
    | inr a ↦
        let old : level u ≡ suc (suc n) = sym (level_other u (==→ne u p a)) ∙ e in
        elim (Bool-cases (u == parent && j == i)) [
          | inl b ↦
              let (c, d) : (u ≡ parent) × (j ≡ i) = ground arith in
              let same_level : n ≡ k = omega (arith, ap level c, old, at) in
              subst (λ x. Child new_level x (entry new_memory u j)) (sym same_level)
                (subst (λ x. Child new_level k (entry new_memory u x)) (sym d)
                  (subst (λ x. Child new_level k (entry new_memory x i)) (sym c) parent-Child))
          | inr b ↦
              let ne : (u ≢ parent) ⊎ (j ≢ i) = elim (Bool-cases (u == parent)) [
                | inl f ↦ inr (==→ne j i (rw f at b))
                | inr f ↦ inl (==→ne u parent f)
              ] in
              kept-Child u j n old q ne leads
        ]
  ]

  new_held :
      (n : ℕ)
      → n < s1.total_pages
      → page_used s1.bitmap n ≡ false
      → new_level (s1.start + n * 4096) ≡ 0
  new_held n in_range unused =
      let (same_start, same_limit, same_total) = t.same_range in
      let now : filled true page 1 (page_used s.bitmap) n ≡ false = sym (t.flags n) ∙ unused in
      let (ne, before) : (n ≢ page) × (page_used s.bitmap n ≡ false) =
        elim (Bool-cases (leb page n && ltb n (page + 1))) [
          | inl e ↦ absurd (ground arith)
          | inr e ↦ (λ eq. absurd (ground arith), ground arith)
        ] in
      let old = h.held n (omega (arith, same_total)) before in
      let apart : s1.start + n * 4096 ≢ p = λ eq. ne (omega (arith, t.address, same_start)) in
      level_other _ apart ∙ ap (λ x. level (x + n * 4096)) same_start ∙ old

  new-IsTables : IsTables new_level new_state
  new-IsTables =
      let (same_start, same_limit, same_total) = t.same_range in
      record {
        sound = record {
          pages_in = sound.pages_in;
          range_in = sound.range_in;
          limit_in = sound.limit_in;
          counted = sound.counted;
          hint_in = sound.hint_in;
        };
        some_pages = omega (arith, same_total, h.some_pages);
        null_used = λ e.
            t.flags 0 ∙ filled_used page 0 (page_used s.bitmap) (h.null_used (sym same_start ∙ e));
        aligned_start = omega (arith, same_start, h.aligned_start);
        bytes = new_bytes';
        aligned = λ u a. elim (Bool-cases (u == p)) [
          | inl e ↦ (let eq = ==→eq u p e in omega (arith, p-IsTable))
          | inr e ↦ h.aligned u (omega (arith, a, level_other u (==→ne u p e)))
        ];
        held = new_held;
        children = new_children;
      }

  pub created-Stepped : Stepped level parent i k s p new_state
  created-Stepped =
      let (a, b, c) = new_leads in
      record {
        level' = new_level;
        tables = new-IsTables;
        here = level_here;
        grows = level_grows;
        leads = a;
        plain = b;
        frame = c;
        others = λ u j x q ne. Like-eq (kept_entry u j x q ne);
        origin = inr (λ j q. empty_table j q);
      }
