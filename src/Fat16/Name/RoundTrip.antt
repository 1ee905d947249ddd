-- ===== src/Fat16/Name/RoundTrip.antt =====
-- What `fat16_name_to_83` of src/kernel/fs/fat16.c makes of the name of a listed node.
use szczupak_os.Fat16.Name.{
  after_base, name_to_83, child_name, part_loop, extension_loop, base_loop, upper, Name83,
}
use szczupak_os.Base.{
  ltb→ge, ltb→lt, ltb, ne→==, if_false, zero, suc, refl, [], ◌∷◌, ==→ne, update_self, inr, subst,
  ap, ◌++◌, inl, ==→eq, ◌==◌, if_cases, List, update_ne, sym, Bool-cases, ◌⊎◌, ◌∙◌, update, suc,
  arith, ℕ, ◌+◌, ◌≤◌, ◌<◌, ◌≡◌, ◌≢◌,
}

-- A byte that a name may have: no lower case letter, no dot and not NUL.
unfoldable pub IsPlain : ℕ → Type 0
IsPlain c = (upper c ≡ c) × (c ≢ 46) × (c ≢ 0)

-- The name of an entry as the driver writes it: plain bytes, and behind a space only spaces.
pub record IsEntryName (name : Name83) : Type 0 where
  pub plain : (i : ℕ) → i < 11 → IsPlain (name i)
  pub base : (i : ℕ) → i + 1 < 8 → name i ≡ 32 → name (i + 1) ≡ 32
  pub extension : (i : ℕ) → 8 ≤ i → i + 1 < 11 → name i ≡ 32 → name (i + 1) ≡ 32

-- Behind a space, only spaces.
abbrev Trailing : (i n : ℕ) (e : Name83) → Type 0
Trailing i n e = (j : ℕ) → i ≤ j → j + 1 < i + n → e j ≡ 32 → e (j + 1) ≡ 32

Trailing-later : (i n : ℕ) (e : Name83) → Trailing i (suc n) e → Trailing (i + 1) n e
Trailing-later i n e h j p q s = h j (omega (arith, p)) (omega (arith, q)) s

spaces : (n i : ℕ) (e : Name83) → Trailing i n e → e i ≡ 32 → (j : ℕ) → i ≤ j → j < i + n → e j ≡ 32
spaces zero i e h s j p q = absurd (omega (arith, p, q))
spaces (suc n) i e h s j p q = elim (Bool-cases (j == i)) [
  | inl same ↦ ap e (==→eq j i same) ∙ s
  | inr other ↦
      let ne = ==→ne j i other in
      spaces n (i + 1) e (Trailing-later i n e h) (h i (omega arith) (omega (arith, p, q, ne)) s) j
        (omega (arith, p, ne)) (omega (arith, q))
]

-- A loop has copied the part of `n` bytes of `e` from `i` on into `a`.
record Copied (i n : ℕ) (e a a' : Name83) : Type 0 where
  inside : (j : ℕ) → i ≤ j → j < i + n → a' j ≡ e j
  outside : (j : ℕ) → j < i ⊎ i + n ≤ j → a' j ≡ a j

Copied-spaces :
    (n i : ℕ) (e a : Name83)
    → Trailing i n e
    → ((j : ℕ) → i ≤ j → j < i + n → a j ≡ 32)
    → e i ≡ 32
    → Copied i n e a a
Copied-spaces n i e a h blank s = record {
  inside = λ j p q. blank j p q ∙ sym (spaces n i e h s j p q);
  outside = λ j o. refl;
}

Copied-first :
    (n i : ℕ) (e a a' : Name83)
    → upper (e i) ≡ e i
    → Copied (i + 1) n e (update a i (upper (e i))) a'
    → Copied i (suc n) e a a'
Copied-first n i e a a' capital c = record {
  inside = λ j p q. elim (Bool-cases (j == i)) [
    | inl same ↦
        let at = ==→eq j i same in
        subst (λ x. a' x ≡ e x) (sym at)
          (c.outside i (inl (omega arith)) ∙ update_self a i (upper (e i)) ∙ capital)
    | inr other ↦ c.inside j (omega (arith, p, ==→ne j i other)) (omega (arith, q))
  ];
  outside = λ j o. elim o [
    | inl low ↦
        c.outside j (inl (omega (arith, low))) ∙ update_ne a i (upper (e i)) j (omega (arith, low))
    | inr high ↦
        c.outside j (inr (omega (arith, high)))
        ∙ update_ne a i (upper (e i)) j (omega (arith, high))
  ];
}

blank-later :
    (n i x : ℕ) (a : Name83)
    → ((j : ℕ) → i ≤ j → j < i + suc n → a j ≡ 32)
    → (j : ℕ) → i + 1 ≤ j
    → j < i + 1 + n
    → update a i x j ≡ 32
blank-later n i x a blank j p q =
    update_ne a i x j (omega (arith, p)) ∙ blank j (omega (arith, p)) (omega (arith, q))

module _ (e : Name83) where
  extension_loop-Copied :
      (n i : ℕ) (a : Name83)
      → Trailing i n e
      → ((j : ℕ) → i ≤ j → j < i + n → upper (e j) ≡ e j)
      → ((j : ℕ) → i ≤ j → j < i + n → a j ≡ 32)
      → Copied i n e a (extension_loop n i (part_loop n i e) a)
  unfolding extension_loop part_loop
  extension_loop-Copied zero i a h capital blank = record {
    inside = λ j p q. absurd (omega (arith, p, q));
    outside = λ j o. refl;
  }
  extension_loop-Copied (suc n) i a h capital blank =
      if_cases {A = List ℕ} (λ cs. Copied i (suc n) e a (extension_loop (suc n) i cs a)) (e i == 32)
        (λ s. Copied-spaces (suc n) i e a h blank (==→eq (e i) 32 s))
        (λ s. Copied-first n i e a _ (capital i (omega arith) (omega arith)) (
          extension_loop-Copied n (i + 1) (update a i (upper (e i))) (Trailing-later i n e h)
            (λ j p q. capital j (omega (arith, p)) (omega (arith, q)))
            (blank-later n i (upper (e i)) a blank)))

  -- The base name, in front of what stops the loop.
  base_loop-Copied :
      (n i : ℕ) (rest : List ℕ) (a : Name83)
      → ((m k : ℕ) (b : Name83) → base_loop m k rest b ≡ (rest, b))
      → Trailing i n e
      → ((j : ℕ) → i ≤ j → j < i + n → (upper (e j) ≡ e j) × (e j ≢ 46))
      → ((j : ℕ) → i ≤ j → j < i + n → a j ≡ 32)
      → ((base_loop n i (part_loop n i e ++ rest) a).0 ≡ rest)
        × Copied i n e a (base_loop n i (part_loop n i e ++ rest) a).1
  unfolding base_loop part_loop
  base_loop-Copied zero i rest a stops h plain blank =
      (refl, record { inside = λ j p q. absurd (omega (arith, p, q)); outside = λ j o. refl })
  base_loop-Copied (suc n) i rest a stops h plain blank =
      if_cases {A = List ℕ}
        (λ cs.
          ((base_loop (suc n) i (cs ++ rest) a).0 ≡ rest)
          × Copied i (suc n) e a (base_loop (suc n) i (cs ++ rest) a).1)
        (e i == 32)
        (λ s.
          subst {A = List ℕ × Name83} (λ r. (r.0 ≡ rest) × Copied i (suc n) e a r.1)
            (sym (stops (suc n) i a))
            (refl, Copied-spaces (suc n) i e a h blank (==→eq (e i) 32 s)))
        (λ s.
          let (capital, no_dot) = plain i (omega arith) (omega arith) in
          let (done, copied) =
            base_loop-Copied n (i + 1) rest (update a i (upper (e i))) stops
              (Trailing-later i n e h) (λ j p q. plain j (omega (arith, p)) (omega (arith, q)))
              (blank-later n i (upper (e i)) a blank) in
          subst {A = List ℕ × Name83} (λ r. (r.0 ≡ rest) × Copied i (suc n) e a r.1)
            (sym (if_false (e i == 46) _ _ (ne→== (e i) 46 no_dot)))
            (done, Copied-first n i e a _ capital copied))

stops_empty : (m k : ℕ) (b : Name83) → base_loop m k [] b ≡ ([], b)
unfolding base_loop
stops_empty zero k b = refl
stops_empty (suc m) k b = refl

stops_dot : (cs : List ℕ) (m k : ℕ) (b : Name83) → base_loop m k (46 ∷ cs) b ≡ (46 ∷ cs, b)
unfolding base_loop
stops_dot cs zero k b = refl
stops_dot cs (suc m) k b = refl

name_to_83-parts :
    (e : Name83) (rest : List ℕ)
    → IsEntryName e
    → ((m k : ℕ) (b : Name83) → base_loop m k rest b ≡ (rest, b))
    → (a : Name83) × ((name_to_83 (part_loop 8 0 e ++ rest) ≡ after_base (rest, a))
        × Copied 0 8 e (λ _. 32) a)
unfolding name_to_83 IsPlain
name_to_83-parts e rest h stops =
    let (done, copied) =
      base_loop-Copied e 8 0 rest (λ _. 32) stops (λ j p q. h.base j (omega (arith, q)))
        (λ j p q. let (capital, no_dot, no_end) = h.plain j (omega (arith, q)) in (capital, no_dot))
        (λ j p q. refl) in
    let a = (base_loop 8 0 (part_loop 8 0 e ++ rest) (λ _. 32)).1 in
    (a, (ap (λ cs. after_base (cs, a)) done, copied))

-- `fat16_name_to_83` of the name that `fat16_create` gives to the node of an entry is the name of the
-- entry, for names in capitals without dots in which spaces only end the base name and the
-- extension.
pub name_to_83-child_name :
    (e : Name83) (j : ℕ) → IsEntryName e → j < 11 → name_to_83 (child_name e) j ≡ e j
unfolding child_name after_base IsPlain
name_to_83-child_name e j h p =
    if_cases {A = List ℕ} (λ rest. name_to_83 (part_loop 8 0 e ++ rest) j ≡ e j) (e 8 == 32)
      (λ s.
        let (a, (done, copied)) = name_to_83-parts e [] h stops_empty in
        ap (λ name. name j) done ∙ elim (Bool-cases (ltb j 8)) [
          | inl low ↦ copied.inside j (omega arith) (omega (arith, ltb→lt j 8 low))
          | inr high ↦
              copied.outside j (inr (omega (arith, ltb→ge j 8 high)))
              ∙ sym (
                  spaces 3 8 e (λ i q r. h.extension i q (omega (arith, r))) (==→eq (e 8) 32 s) j
                    (ltb→ge j 8 high) (omega (arith, p)))
        ])
      (λ s.
        let (a, (done, copied)) = name_to_83-parts e (46 ∷ part_loop 3 8 e) h (stops_dot _) in
        let more =
          extension_loop-Copied e 3 8 a (λ i q r. h.extension i q (omega (arith, r)))
            (λ i q r. (h.plain i (omega (arith, r))).0)
            (λ i q r. copied.outside i (inr (omega (arith, q)))) in
        ap (λ name. name j) done ∙ elim (Bool-cases (ltb j 8)) [
          | inl low ↦
              more.outside j (inl (ltb→lt j 8 low))
              ∙ copied.inside j (omega arith) (omega (arith, ltb→lt j 8 low))
          | inr high ↦ more.inside j (ltb→ge j 8 high) (omega (arith, p))
        ])
