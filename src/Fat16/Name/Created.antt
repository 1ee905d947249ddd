-- ===== src/Fat16/Name/Created.antt =====
-- The names that `fat16_create_file` of src/kernel/fs/fat16.c gives to the nodes of new files.
use szczupak_os.Fat16.Name.{
  upper, created_name, created_loop, name_to_83, extension_loop, base_loop, after_base, Name83,
}
use szczupak_os.Fat16.Name.RoundTrip.{IsEntryName, IsPlain}
use szczupak_os.Base.{
  ℕ, zero, suc, ◌+◌, ◌<◌, ◌≡◌, refl, sym, ap, ap₂, ◌∙◌, ◌≢◌, inl, inr, not, ◌&&◌, List, [], ◌∷◌,
  arith, ◌==◌, ==→eq, ==→ne, eq→==, ne→==, Bool-cases, if_elim, if_true, if_false, update,
  update_self, update_ne,
}

extension_loop_keeps :
    (n i : ℕ) (cs : List ℕ) (a : Name83) (j : ℕ) → j < i → extension_loop n i cs a j ≡ a j
unfolding extension_loop
extension_loop_keeps zero i cs a j p = refl
extension_loop_keeps (suc n) i [] a j p = refl
extension_loop_keeps (suc n) i (c ∷ cs) a j p =
    extension_loop_keeps n (i + 1) cs (update a i (upper c)) j (omega (arith, p))
    ∙ update_ne a i (upper c) j (omega (arith, p))

after_base_keeps : (r : List ℕ × Name83) (j : ℕ) → j < 8 → after_base r j ≡ r.1 j
unfolding after_base
after_base_keeps ([], a) j p = refl
after_base_keeps (c ∷ cs, a) j p =
    if_elim {A = Name83} (λ x. x j ≡ a j) (c == 46) (extension_loop_keeps 3 8 cs a j p) refl

base_loop_keeps :
    (n i : ℕ) (cs : List ℕ) (a : Name83) (j : ℕ) → j < i → (base_loop n i cs a).1 j ≡ a j
unfolding base_loop
base_loop_keeps zero i cs a j p = refl
base_loop_keeps (suc n) i [] a j p = refl
base_loop_keeps (suc n) i (c ∷ cs) a j p =
    if_elim {A = List ℕ × Name83} (λ r. r.1 j ≡ a j) (c == 46) refl
      (base_loop_keeps n (i + 1) cs (update a i (upper c)) j (omega (arith, p))
        ∙ update_ne a i (upper c) j (omega (arith, p)))

created_loop-space :
    (n i : ℕ) (e : Name83) → e i ≡ 32 → created_loop (suc n) i e ≡ created_loop n (i + 1) e
unfolding created_loop
created_loop-space n i e s = if_true (e i == 32) _ _ (eq→== (e i) 32 s)

created_loop-byte :
    (n i : ℕ) (e : Name83)
    → e i ≢ 32
    → i ≢ 7
    → created_loop (suc n) i e ≡ e i ∷ created_loop n (i + 1) e
unfolding created_loop
created_loop-byte n i e s early =
    if_false (e i == 32) _ _ (ne→== (e i) 32 s)
    ∙ ap (λ cs. e i ∷ cs)
        (if_false (i == 7 && not (e 8 == 32)) _ _
          (ap (λ b. b && not (e 8 == 32)) (ne→== i 7 early)))

base_loop-byte :
    (n i c : ℕ) (cs : List ℕ) (a : Name83)
    → IsPlain c
    → base_loop (suc n) i (c ∷ cs) a ≡ base_loop n (i + 1) cs (update a i (upper c))
unfolding base_loop IsPlain
base_loop-byte n i c cs a (capital, no_dot, no_end) =
    if_false {A = List ℕ × Name83} (c == 46) _ _ (ne→== c 46 no_dot)

base_loop-writes :
    (n i c : ℕ) (cs : List ℕ) (a : Name83) → IsPlain c → (base_loop (suc n) i (c ∷ cs) a).1 i ≡ c
unfolding IsPlain
base_loop-writes n i c cs a plain =
    ap (λ r. r.1 i) (base_loop-byte n i c cs a plain)
    ∙ base_loop_keeps n (i + 1) cs (update a i (upper c)) i (omega arith)
    ∙ update_self a i (upper c)
    ∙ plain.0

module _ (e : Name83) (h : IsEntryName e) (short : e 7 ≡ 32) (extended : e 8 ≢ 32) where
  -- The part of the name behind the extension's first byte.
  abbrev behind : List ℕ
  behind = created_loop 2 9 e

  created_loop-spaces :
      (n k i : ℕ) → k ≡ n + 3 → n + i ≡ 8 → (i < 8 → e i ≡ 32) → created_loop k i e ≡ e 8 ∷ behind
  created_loop-spaces zero k i p q s =
      let at : k ≡ 3 = omega (arith, p) in
      let place : i ≡ 8 = omega (arith, q) in
      ap₂ (λ m x. created_loop m x e) at place ∙ created_loop-byte 2 8 e extended (omega arith)
  created_loop-spaces (suc n) zero i p q s = absurd (omega (arith, p))
  created_loop-spaces (suc n) (suc k) i p q s =
      let space = s (omega (arith, q)) in
      created_loop-space k i e space
      ∙ created_loop-spaces n k (i + 1) (omega (arith, p)) (omega (arith, q))
          (λ r. h.base i r space)

  -- A place of a space gets the first byte of the extension.
  base_loop-hit :
      (n k i : ℕ) (a : Name83)
      → k ≡ n + 3
      → n + i ≡ 8
      → 0 < n
      → (j : ℕ) × ((j < 8) × (e j ≡ 32) × ((base_loop n i (created_loop k i e) a).1 j ≡ e 8))
  base_loop-hit zero k i a p q r = absurd (omega (arith, r))
  base_loop-hit (suc n) zero i a p q r = absurd (omega (arith, p))
  base_loop-hit (suc n) (suc k) i a p q r = elim (Bool-cases (e i == 32)) [
    | inl s ↦
        let space = ==→eq (e i) 32 s in
        (
          i,
          (
            omega (arith, q),
            space,
            ap (λ cs. (base_loop (suc n) i cs a).1 i)
                  (created_loop-spaces (suc n) (suc k) i p q (λ _. space))
                ∙ base_loop-writes n i (e 8) behind a (h.plain 8 (omega arith)),
          ),
        )
    | inr s ↦
        let letter = ==→ne (e i) 32 s in
        let early : i ≢ 7 = λ x. letter (ap e x ∙ short) in
        let (j, (small, space, hit)) =
          base_loop-hit n k (i + 1) (update a i (upper (e i))) (omega (arith, p)) (omega (arith, q))
            (omega (arith, q, early)) in
        (
          j,
          (
            small,
            space,
            ap (λ cs. (base_loop (suc n) i cs a).1 j) (created_loop-byte k i e letter early)
                ∙ ap (λ r. r.1 j)
                    (base_loop-byte n i (e i) (created_loop k (i + 1) e) a
                      (h.plain i (omega (arith, q))))
                ∙ hit,
          ),
        )
  ]

-- For an entry whose name has no lower-case letter, dot or NUL, and spaces only at the end of the
-- base name and of the extension: where it has an extension and a base name shorter than eight,
-- `fat16_name_to_83` of the name that `fat16_create_file` gives to the node is not the name of the
-- entry.
pub created_name_lost :
    (e : Name83)
    → IsEntryName e
    → e 7 ≡ 32
    → e 8 ≢ 32
    → ¬ ((j : ℕ) → j < 11 → name_to_83 (created_name e) j ≡ e j)
unfolding name_to_83 created_name
created_name_lost e h short extended same =
    let (j, (p, s, hit)) =
      base_loop-hit e h short extended 8 11 0 (λ _. 32) refl refl (omega arith) in
    extended (
      sym hit
      ∙ sym (after_base_keeps (base_loop 8 0 (created_loop 11 0 e) (λ _. 32)) j p)
      ∙ same j (omega (arith, p))
      ∙ s)
