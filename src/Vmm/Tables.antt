-- ===== src/Vmm/Tables.antt =====
-- The tables that `get_or_create_table` of src/kernel/mm/vmm.c finds or makes: a forest by levels, in pages
-- that the page allocator holds.
use szczupak_os.Base.{
  ℕ, suc, ◌+◌, ◌*◌, ◌%◌, ◌<◌, ◌≡◌, refl, sym, ap, ◌∙◌, ◌≢◌, ◌⊎◌, inl, inr, true, false, Option,
  none, some, arith, if◌then◌else◌, if_elim, align_down, Memory, AreBytes,
}
use szczupak_os.Pmm.{Pmm}
use szczupak_os.Pmm.Bits.{page_used}
use szczupak_os.Pmm.Inv.{FreeRun, IsSound}
use szczupak_os.Vmm.{present, huge, user, writable, entry, grant}
use szczupak_os.Vmm.Entry.{IsTable, Like, Like-refl, Like-trans, grant-AreBytes, grant-Like}

-- What an entry of a table of level `k + 2` leads to: a table of level `k + 1`, or, from level 2, a
-- huge page.
abbrev pub Child : (level : ℕ → ℕ) → (k e : ℕ) → Type 0
Child level k e = ((huge e ≡ false) × (level (align_down e) ≡ suc k)) ⊎ ((k ≡ 0) × (huge e ≡ true))

-- `level` is the level of the table in a page, 4 for a root and 1 for the tables of pages, or 0
-- where there is no table. The tables stand in pages that the page allocator does not give out; it
-- does not give out the page at address 0 either.
pub record IsTables (level : ℕ → ℕ) (s : Pmm) : Type 0 where
  pub sound : IsSound s
  pub some_pages : 0 < s.total_pages
  pub null_used : s.start ≡ 0 → page_used s.bitmap 0 ≡ true
  pub aligned_start : s.start % 4096 ≡ 0
  pub bytes : AreBytes s.memory
  pub aligned : (t : ℕ) → 0 < level t → IsTable t
  pub held :
      (page : ℕ)
      → page < s.total_pages
      → page_used s.bitmap page ≡ false
      → level (s.start + page * 4096) ≡ 0
  pub children :
      (t i k : ℕ)
      → level t ≡ suc (suc k)
      → i < 512
      → present (entry s.memory t i) ≡ true
      → Child level k (entry s.memory t i)

-- A change of memory after which every entry of a table leads where it did.
pub Like-IsTables :
    (level : ℕ → ℕ) (s : Pmm) (m : Memory)
    → IsTables level s
    → AreBytes m
    → ((t i : ℕ) → 1 < level t → i < 512 → Like (entry s.memory t i) (entry m t i))
    → IsTables level (record s { memory = m })
Like-IsTables level s m h b like = record {
  sound = record {
    pages_in = h.sound.pages_in;
    range_in = h.sound.range_in;
    limit_in = h.sound.limit_in;
    counted = h.sound.counted;
    hint_in = h.sound.hint_in;
  };
  some_pages = h.some_pages;
  null_used = h.null_used;
  aligned_start = h.aligned_start;
  bytes = b;
  aligned = h.aligned;
  held = h.held;
  children = λ t i k e q p.
      let l = like t i (omega (arith, e)) q in
      elim (h.children t i k e q (sym l.is_present ∙ p)) [
        | inl (plain, leads) ↦ inl (l.is_huge ∙ plain, ap level l.frame ∙ leads)
        | inr (last, big) ↦ inr (last, l.is_huge ∙ big)
      ];
}

-- `s'` is `s` once entry `i` of `parent` leads to the table `t`, of level `k + 1`.
pub record Stepped (level : ℕ → ℕ) (parent i k : ℕ) (s : Pmm) (t : ℕ) (s' : Pmm) : Type 0 where
  pub level' : ℕ → ℕ
  pub tables : IsTables level' s'
  pub here : level' t ≡ suc k
  pub grows : (x : ℕ) → 0 < level x → level' x ≡ level x
  pub leads : present (entry s'.memory parent i) ≡ true
  pub plain : huge (entry s'.memory parent i) ≡ false
  pub frame : align_down (entry s'.memory parent i) ≡ t
  pub others :
      (u j : ℕ)
      → 0 < level u
      → j < 512
      → (u ≢ parent) ⊎ (j ≢ i)
      → Like (entry s.memory u j) (entry s'.memory u j)
  pub origin :
      ((present (entry s.memory parent i) ≡ true)
        × (align_down (entry s.memory parent i) ≡ t)
        × (0 < level t))
      ⊎ ((j : ℕ) → j < 512 → entry s'.memory t j ≡ 0)

-- What `get_or_create_table` may do: fail without a change where no page is free, or lead to a table.
pub data Step (level : ℕ → ℕ) (parent i k : ℕ) (s : Pmm) : Option ℕ × Pmm → Type 0 where
  failed :
      {x : Option ℕ × Pmm}
      → ((page : ℕ) → ¬ FreeRun s page 1)
      → x ≡ (none, s)
      → Step level parent i k s x
  stepped :
      (t : ℕ) (s' : Pmm) {x : Option ℕ × Pmm}
      → x ≡ (some t, s')
      → Stepped level parent i k s t s'
      → Step level parent i k s x

-- The memory when the flags asked for are granted.
abbrev pub granted : (parent i flags : ℕ) → Memory → Memory
granted parent i flags m =
    let m1 = if user flags then grant 4 parent i m else m in
    if writable flags then grant 2 parent i m1 else m1

granted-AreBytes :
    (parent i flags : ℕ) (m : Memory) → AreBytes m → AreBytes (granted parent i flags m)
granted-AreBytes parent i flags m b =
    let first : AreBytes (if user flags then grant 4 parent i m else m) =
      if_elim AreBytes (user flags) (grant-AreBytes 4 parent i m b) b in
    if_elim AreBytes (writable flags) (grant-AreBytes 2 parent i _ first) first

granted-Like :
    (parent i flags u j : ℕ) (m : Memory)
    → AreBytes m
    → IsTable parent
    → IsTable u
    → i < 512
    → j < 512
    → Like (entry m u j) (entry (granted parent i flags m) u j)
granted-Like parent i flags u j m b a c p q =
    let m1 = if user flags then grant 4 parent i m else m in
    let first : Like (entry m u j) (entry m1 u j) =
      if_elim (λ n. Like (entry m u j) (entry n u j)) (user flags)
        (grant-Like 4 parent i u j m (omega arith) refl b a c p q) (Like-refl (entry m u j)) in
    let bytes : AreBytes m1 = if_elim AreBytes (user flags) (grant-AreBytes 4 parent i m b) b in
    if_elim (λ n. Like (entry m u j) (entry n u j)) (writable flags)
      (Like-trans (entry m u j) (entry m1 u j) (entry (grant 2 parent i m1) u j) first
        (grant-Like 2 parent i u j m1 (omega arith) refl bytes a c p q))
      first

module _ (level : ℕ → ℕ) (parent i k flags : ℕ) (s : Pmm) (h : IsTables level s)
    (at : level parent ≡ suc (suc k)) (small : i < 512) where
  pub found-Stepped :
      present (entry s.memory parent i) ≡ true
      → huge (entry s.memory parent i) ≡ false
      → Stepped level parent i k s
          (align_down (entry s.memory parent i))
          (record s { memory = granted parent i flags s.memory })
  found-Stepped p plain =
      let parent-IsTable = h.aligned parent (omega (arith, at)) in
      let like = λ (u j : ℕ) (a : 0 < level u) (q : j < 512).
        granted-Like parent i flags u j s.memory h.bytes parent-IsTable (h.aligned u a) small q in
      let own = like parent i (omega (arith, at)) small in
      let child : level (align_down (entry s.memory parent i)) ≡ suc k =
        elim (h.children parent i k at small p) [
          | inl (_, leads) ↦ leads
          | inr (_, big) ↦ absurd (cc)
        ] in
      record {
        level' = level;
        tables =
            Like-IsTables level s (granted parent i flags s.memory) h
              (granted-AreBytes parent i flags s.memory h.bytes)
              (λ t j a q. like t j (omega arith) q);
        here = child;
        grows = λ x a. refl;
        leads = own.is_present ∙ p;
        plain = own.is_huge ∙ plain;
        frame = own.frame;
        others = λ u j a q ne. like u j a q;
        origin = inl (p, refl, omega (arith, child));
      }
