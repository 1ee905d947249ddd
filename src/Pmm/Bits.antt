-- ===== src/Pmm/Bits.antt =====
-- The bitmap as one flag per page, and the count of pages in use.
use szczupak_os.Base.{
  ℕ, zero, suc, ◌+◌, ◌/◌, ◌%◌, ◌≤◌, ◌<◌, ◌≡◌, refl, sym, ◌∙◌, subst, ◌≢◌, ◌⊎◌, inl, inr, Bool, true,
  false, ◌&&◌, arith, ltb, leb, ◌==◌, if◌then◌else◌, lt→ltb, le→leb, ==→eq, ==→ne, Bool-cases,
}
use szczupak_os.Pmm.{Word, put_bit}

-- Whether the bitmap says that page `p` is in use.
abbrev pub page_used : (ℕ → Word) → ℕ → Bool
page_used w p = w (p / 64) (p % 64)

-- How many of the first `n` pages are in use.
unfoldable pub used_below : (ℕ → Bool) → ℕ → ℕ
used_below f zero = 0
used_below f (suc n) = if f n then used_below f n + 1 else used_below f n

same_page : (p b : ℕ) → p / 64 ≡ b / 64 → p % 64 ≡ b % 64 → p ≡ b
same_page p b e f = omega arith

pub page_used-put_bit :
    (v : Bool) (b : ℕ) (w : ℕ → Word) (p : ℕ)
    → page_used (put_bit v b w) p ≡ (if p == b then v else page_used w p)
page_used-put_bit v b w p = elim (Bool-cases (p == b)) [
  | inl e ↦ rw (e, ==→eq p b e) (ground arith)
  | inr e ↦ rw e (ground (arith, same_page p b))
]

module _ (f g : ℕ → Bool) where
  pub used_below_eq : (n : ℕ) → ((p : ℕ) → p < n → f p ≡ g p) → used_below f n ≡ used_below g n
  unfolding used_below
  used_below_eq zero h = refl
  used_below_eq (suc n) h = rw (h n (omega arith), used_below_eq n (λ p q. h p (omega arith)))

  -- One more page in use is counted once.
  pub used_below_flip :
      (n b : ℕ)
      → b < n
      → f b ≡ false
      → g b ≡ true
      → ((p : ℕ) → p ≢ b → g p ≡ f p)
      → used_below g n ≡ used_below f n + 1
  unfolding used_below
  used_below_flip zero b h off on same = absurd (omega arith)
  used_below_flip (suc n) b h off on same = elim (Bool-cases (n == b)) [
    | inl e ↦
        let same_n = ==→eq n b e in
        ground (
          arith,
          subst (λ k. f k ≡ false) (sym same_n) off,
          subst (λ k. g k ≡ true) (sym same_n) on,
          used_below_eq n (λ p q. sym (same p (omega arith))),
        )
    | inr e ↦
        ground (
          arith,
          same n (==→ne n b e),
          used_below_flip n b (omega (arith, ==→ne n b e)) off on same,
        )
  ]

pub used_below-le : (f : ℕ → Bool) (n : ℕ) → used_below f n ≤ n
unfolding used_below
used_below-le f zero = omega arith
used_below-le f (suc n) = ground (arith, used_below-le f n)

pub used_below_none : (f : ℕ → Bool) (n : ℕ) → ((p : ℕ) → p < n → f p ≡ false) → used_below f n ≡ 0
unfolding used_below
used_below_none f zero h = refl
used_below_none f (suc n) h =
    rw (h n (omega arith)) (used_below_none f n (λ p q. h p (omega arith)))

-- `f` with the `n` pages from `first` on given the flag `v`
abbrev pub filled : Bool → (first n : ℕ) → (ℕ → Bool) → ℕ → Bool
filled v first n f p = if leb first p && ltb p (first + n) then v else f p

-- Every one of the `n` pages from `first` on has the flag `v`.
abbrev pub AllFlags : Bool → (first n : ℕ) → (ℕ → Bool) → Type 0
AllFlags v first n f = (p : ℕ) → first ≤ p → p < first + n → f p ≡ v

pub filled_in : (v : Bool) (first n : ℕ) (f : ℕ → Bool) → AllFlags v first n (filled v first n f)
filled_in v first n f p h k = rw (le→leb first p h, lt→ltb p (first + n) k)

pub filled_out :
    (v : Bool) (first n : ℕ) (f : ℕ → Bool) (p : ℕ)
    → (p < first) ⊎ (first + n ≤ p)
    → filled v first n f p ≡ f p
filled_out v first n f p h = ground arith

-- Taking a free run into use adds its length to the count.
pub used_below-filled :
    (n first total : ℕ) (f : ℕ → Bool)
    → first + n ≤ total
    → AllFlags false first n f
    → used_below (filled true first n f) total ≡ used_below f total + n
used_below-filled zero first total f h off =
    used_below_eq (filled true first 0 f) f total
      (λ p q. filled_out true first 0 f p (ground arith))
    ∙ omega arith
used_below-filled (suc n) first total f h off =
    used_below_flip (filled true first n f) (filled true first (suc n) f) total (first + n)
      (omega arith)
      (filled_out true first n f (first + n) (inr (omega arith))
        ∙ off (first + n) (omega arith) (omega arith))
      (filled_in true first (suc n) f (first + n) (omega arith) (omega arith)) (λ p q. ground arith)
    ∙ omega
        (arith, used_below-filled n first total f (omega arith) (λ p q r. off p q (omega arith)))

-- Giving a run in use back takes its length from the count.
pub used_below-cleared :
    (n first total : ℕ) (f : ℕ → Bool)
    → first + n ≤ total
    → AllFlags true first n f
    → used_below (filled false first n f) total + n ≡ used_below f total
used_below-cleared n first total f h on =
    sym (used_below-filled n first total (filled false first n f) h (filled_in false first n f))
    ∙ used_below_eq _ f total same
  where
    same : (p : ℕ) → p < total → filled true first n (filled false first n f) p ≡ f p
    same p q = elim (Bool-cases (leb first p && ltb p (first + n))) [
      | inl e ↦ rw e (sym (on p (ground arith) (ground arith)))
      | inr e ↦ rw e
    ]
