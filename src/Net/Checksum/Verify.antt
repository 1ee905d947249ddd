-- ===== src/Net/Checksum/Verify.antt =====
-- When a packet passes the checksum of src/kernel/net/net_utils.c, and that what the code sends does.
use szczupak_os.Base.{
  ℕ, zero, suc, ◌+◌, ◌*◌, ◌/◌, ◌%◌, ◌^◌, ◌≤◌, ◌<◌, ◌≡◌, refl, ap, ◌∙◌, subst, ◌≢◌, ◌↔◌, ◌⊎◌, inl,
  inr, List, [], ◌∷◌, ◌++◌, arith, ◌==◌, if◌then◌else◌, ==→eq, ==→ne, eq→==, Bool-cases, length,
  length-append, All, add32,
}
use szczupak_os.Net.Checksum.{
  add_bytes, fold_loop, finalize, ipv4_checksum, udp_checksum, pseudo_sum,
}

-- The sum of the big-endian words, unbounded; a last odd byte counts as a high byte.
abbrev pub word_sum : List ℕ → ℕ
word_sum [] = 0
word_sum (x ∷ []) = x * 256
word_sum (x ∷ y ∷ xs) = x * 256 + y + word_sum xs

abbrev pub IsByte : ℕ → Type 0
IsByte x = x < 256

word_sum-le : (xs : List ℕ) → All IsByte xs → word_sum xs ≤ 65535 * length xs
word_sum-le [] h = omega arith
word_sum-le (x ∷ []) h = omega arith
word_sum-le (x ∷ y ∷ xs) h = omega (arith, word_sum-le xs h.1.1)

add_bytes-word_sum :
    (s : ℕ) (xs : List ℕ) → s + word_sum xs < 2 ^ 32 → add_bytes s xs ≡ s + word_sum xs
unfolding add_bytes
add_bytes-word_sum s [] h = omega arith
add_bytes-word_sum s (x ∷ []) h = omega arith
add_bytes-word_sum s (x ∷ y ∷ xs) h =
    let here : add32 s (x * 256 + y) ≡ s + (x * 256 + y) = omega arith in
    rw here (omega (arith, add_bytes-word_sum (s + (x * 256 + y)) xs (omega arith)))

-- What the folded sum is: below 2 ^ 16, congruent to the sum, and 0 only for 0.
pub record IsFold (s f : ℕ) : Type 0 where
  pub small : f < 2 ^ 16
  pub carries : ℕ
  pub congruent : s ≡ f + 65535 * carries
  pub zero_only : f ≡ 0 → s ≡ 0

-- One round keeps the class of the sum.
IsFold-step : (s f : ℕ) → s < 2 ^ 32 → IsFold (add32 (s % 2 ^ 16) (s / 2 ^ 16)) f → IsFold s f
IsFold-step s f h c = record {
  small = c.small;
  carries = c.carries + s / 2 ^ 16;
  congruent = omega (arith, c.congruent);
  zero_only = λ z. omega (arith, c.zero_only z);
}

IsFold-done : (k s : ℕ) → s < 2 ^ 16 → IsFold s (fold_loop k s)
unfolding fold_loop
IsFold-done zero s h = record {
  small = h;
  carries = 0;
  congruent = omega arith;
  zero_only = λ z. z;
}
IsFold-done (suc k) s h =
    rw (eq→== (s / 2 ^ 16) 0 (omega arith))
      (record { small = h; carries = 0; congruent = omega arith; zero_only = λ z. z })

-- A round on a sum of at most two words ends the loop.
IsFold-round : (k s : ℕ) → s ≤ 131070 → IsFold s (fold_loop (suc k) s)
unfolding fold_loop
IsFold-round k s h = elim (Bool-cases (s / 2 ^ 16 == 0)) [
  | inl done ↦
      subst (IsFold s) (rw done refl) (IsFold-done 0 s (omega (arith, ==→eq (s / 2 ^ 16) 0 done)))
  | inr more ↦
      let over = ==→ne (s / 2 ^ 16) 0 more in
      rw more (
        IsFold-step s _ (omega arith)
          (IsFold-done k (add32 (s % 2 ^ 16) (s / 2 ^ 16)) (omega arith)))
]

fold_loop-IsFold : (k s : ℕ) → s < 2 ^ 32 → IsFold s (fold_loop (suc (suc k)) s)
unfolding fold_loop
fold_loop-IsFold k s h = elim (Bool-cases (s / 2 ^ 16 == 0)) [
  | inl done ↦
      subst (IsFold s) (rw done refl) (IsFold-done 0 s (omega (arith, ==→eq (s / 2 ^ 16) 0 done)))
  | inr more ↦
      rw more (IsFold-step s _ h (IsFold-round k (add32 (s % 2 ^ 16) (s / 2 ^ 16)) (omega arith)))
]

finalize_of_fold : (s : ℕ) → s < 2 ^ 32 → finalize s + fold_loop 3 s ≡ 65535
unfolding finalize
finalize_of_fold s h = let f = fold_loop-IsFold 1 s h in omega (arith, f.small)

finalize-le : (s : ℕ) → finalize s ≤ 65535
unfolding finalize
finalize-le s = omega arith

-- A sum passes the check exactly when it is a positive multiple of 65535.
finalize_zero_iff : (s : ℕ) → s < 2 ^ 32 → (finalize s ≡ 0) ↔ ((0 < s) × (s % 65535 ≡ 0))
finalize_zero_iff s h =
    let f = fold_loop-IsFold 1 s h in
    let end = finalize_of_fold s h in
    let classes = f.congruent in
    let small = f.small in
    (
      λ z. omega arith,
      λ (pos, multiple). elim (Bool-cases (fold_loop 3 s == 0)) [
        | inl none_left ↦ absurd (omega (arith, f.zero_only (==→eq (fold_loop 3 s) 0 none_left)))
        | inr some_left ↦ omega (arith, ==→ne (fold_loop 3 s) 0 some_left)
      ],
    )

-- The complement of a sum, added to it, passes the check; so does 65535 for a complement of 0.
finalize_closes :
    (s c : ℕ)
    → s + 65535 < 2 ^ 32
    → (c ≡ finalize s) ⊎ ((finalize s ≡ 0) × (c ≡ 65535))
    → finalize (s + c) ≡ 0
finalize_closes s c h which =
    let f = fold_loop-IsFold 1 s (omega arith) in
    let end = finalize_of_fold s (omega arith) in
    let classes = f.congruent in
    (finalize_zero_iff (s + c) (omega arith)).1 (omega arith, omega arith)

word_sum-split :
    (pre post : List ℕ) (x y : ℕ)
    → length pre % 2 ≡ 0
    → word_sum (pre ++ x ∷ y ∷ post) ≡ word_sum pre + (x * 256 + y) + word_sum post
word_sum-split [] post x y h = omega arith
word_sum-split (a ∷ []) post x y h = absurd (omega arith)
word_sum-split (a ∷ b ∷ pre) post x y h = omega (arith, word_sum-split pre post x y (omega arith))

-- A header passes `ipv4_checksum` exactly when the sum of its words is a positive multiple of
-- 65535, for headers of up to 60000 bytes.
pub ipv4_checksum_zero_iff :
    (xs : List ℕ)
    → All IsByte xs
    → length xs ≤ 60000
    → (ipv4_checksum xs ≡ 0) ↔ ((0 < word_sum xs) × (word_sum xs % 65535 ≡ 0))
unfolding ipv4_checksum
ipv4_checksum_zero_iff xs bytes short =
    rw (add_bytes-word_sum 0 xs (omega (arith, word_sum-le xs bytes))) (
      subst (λ s. (finalize s ≡ 0) ↔ ((0 < word_sum xs) × (word_sum xs % 65535 ≡ 0))) zero_sum
        (finalize_zero_iff (word_sum xs) (omega (arith, word_sum-le xs bytes))))
  where
    zero_sum : word_sum xs ≡ 0 + word_sum xs
    zero_sum = omega arith

module _ (pre post : List ℕ) (even : length pre % 2 ≡ 0) (pre_bytes : All IsByte pre)
    (post_bytes : All IsByte post) (short : length pre + length post ≤ 60000) where
  field_sum :
      (s x y : ℕ)
      → s < 2 ^ 20
      → x * 256 + y < 2 ^ 16
      → add_bytes s (pre ++ x ∷ y ∷ post) ≡ s + (word_sum pre + word_sum post) + (x * 256 + y)
  field_sum s x y small field =
      add_bytes-word_sum s (pre ++ x ∷ y ∷ post) (
        omega (
          arith,
          word_sum-split pre post x y even,
          word_sum-le pre pre_bytes,
          word_sum-le post post_bytes,
        ))
      ∙ omega (arith, word_sum-split pre post x y even)

  closes :
      (s c : ℕ)
      → s < 2 ^ 20
      → let f = finalize (add_bytes s (pre ++ 0 ∷ 0 ∷ post)) in
        (c ≡ f) ⊎ ((f ≡ 0) × (c ≡ 65535))
        → finalize (add_bytes s (pre ++ c / 256 ∷ c % 256 ∷ post)) ≡ 0
  closes s c small which =
      let total : ℕ = s + (word_sum pre + word_sum post) in
      let bound : total + 65535 < 2 ^ 32 =
        omega (arith, word_sum-le pre pre_bytes, word_sum-le post post_bytes) in
      let base : add_bytes s (pre ++ 0 ∷ 0 ∷ post) ≡ total =
        field_sum s 0 0 small (omega arith) ∙ omega arith in
      let which' : (c ≡ finalize total) ⊎ ((finalize total ≡ 0) × (c ≡ 65535)) = rw base at which in
      let c_small : c < 2 ^ 16 = omega (arith, finalize-le total) in
      let filled : add_bytes s (pre ++ c / 256 ∷ c % 256 ∷ post) ≡ total + c =
        field_sum s (c / 256) (c % 256) small (omega arith) ∙ omega arith in
      ap finalize filled ∙ finalize_closes total c bound which'

  -- A header whose checksum field, at an even place, holds the checksum of the header with that
  -- field zero, as `net_send_ipv4_payload` fills it, passes the check of `net_handle_ipv4`.
  pub ipv4_checksum_verifies :
      let c = ipv4_checksum (pre ++ 0 ∷ 0 ∷ post) in
      ipv4_checksum (pre ++ c / 256 ∷ c % 256 ∷ post) ≡ 0
  unfolding ipv4_checksum
  ipv4_checksum_verifies = closes 0 _ (omega arith) (inl refl)

  -- A UDP packet whose checksum field, at an even place, holds the checksum of the packet with that
  -- field zero, as `net_send_udp_ipv4` fills it, yields 0xFFFF in the check of `net_handle_udp`,
  -- which takes the packet; and the field is never 0, which would mean that there is no checksum.
  pub udp_checksum_verifies :
      (src dst : ℕ)
      → let c = udp_checksum src dst (pre ++ 0 ∷ 0 ∷ post) in
        (c ≢ 0) × (udp_checksum src dst (pre ++ c / 256 ∷ c % 256 ∷ post) ≡ 0xFFFF)
  unfolding udp_checksum
  udp_checksum_verifies src dst = (nonzero, checked)
    where
      packet : ℕ → List ℕ
      packet c = pre ++ c / 256 ∷ c % 256 ∷ post

      same_length : (x y : ℕ) → length (pre ++ x ∷ y ∷ post) ≡ length pre + length post + 2
      same_length x y = omega (arith, length-append {0} pre (x ∷ y ∷ post))

      pseudo : ℕ
      pseudo = pseudo_sum src dst 17 (length pre + length post + 2)

      folded : ℕ
      folded = finalize (add_bytes pseudo (pre ++ 0 ∷ 0 ∷ post))

      c : ℕ
      c = if folded == 0 then 0xFFFF else folded

      c_lem : udp_checksum src dst (pre ++ 0 ∷ 0 ∷ post) ≡ c
      c_lem = rw (same_length 0 0)

      nonzero : udp_checksum src dst (pre ++ 0 ∷ 0 ∷ post) ≢ 0
      nonzero = rw c_lem (ground arith)

      which : (c ≡ folded) ⊎ ((folded ≡ 0) × (c ≡ 65535))
      which = ground arith

      zero_sum : finalize (add_bytes pseudo (packet c)) ≡ 0
      zero_sum = closes pseudo c (omega arith) which

      checked : udp_checksum src dst (packet (udp_checksum src dst (pre ++ 0 ∷ 0 ∷ post))) ≡ 0xFFFF
      checked = rw (c_lem, same_length (c / 256) (c % 256), zero_sum)
