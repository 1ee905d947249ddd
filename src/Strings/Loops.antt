-- ===== src/Strings/Loops.antt =====
-- The loops of `memcpy` in src/kernel/string.c copy their bytes at once.
use szczupak_os.Strings.Copies.{
  copied_out, copied_in, Copies_byte, Copies_more, Copies-AreBytes, place_cases, Copies_zero,
  Forward, Copies,
}
use szczupak_os.Strings.{head_loop, aligned_copy, Place, word_loop, byte_loop, block_loop}
use szczupak_os.Base.{
  ◌||◌, ◌≤◌, ◌==◌, ◌%◌, ◌/◌, if_elim, write64-read64, ℕ, zero, suc, ◌+◌, ◌*◌, ◌^◌, ◌<◌, ◌≡◌, sym,
  ap₂, ◌∙◌, subst, inl, inr, arith, update, add64, Memory, read64, write64, write64_frame, AreBytes,
  write64-AreBytes,
}

word-Copies : (d s : ℕ) (m : Memory) → AreBytes m → Copies d s 8 m (write64 d (read64 m s) m)
word-Copies d s m b a = elim (place_cases d 8 a) [
  | inl (h, k) ↦ write64-read64 d s a m b h k ∙ sym (copied_in d s 8 m a h k)
  | inr out ↦ write64_frame d (read64 m s) m a out ∙ sym (copied_out d s 8 m a out)
]

pub Forward-part : (d s k j : ℕ) → Forward d s (k + j) → Forward (d + k) (s + k) j
Forward-part d s k j (inl h) = inl (omega arith)
Forward-part d s k j (inr h) = inr (omega arith)

pub byte_loop-Copies :
    (n d s : ℕ) (m : Memory)
    → Forward d s n
    → d + n < 2 ^ 64
    → s + n < 2 ^ 64
    → Copies d s n m (byte_loop n d s m)
unfolding byte_loop
byte_loop-Copies zero d s m f x y = Copies_zero d s m
byte_loop-Copies (suc n) d s m f x y =
    let m1 = update m d (m s) in
    let f' : Forward d s (1 + n) = elim f [ inl h ↦ inl h | inr h ↦ inr (omega arith) ] in
    let rest : Copies (d + 1) (s + 1) n m1 (byte_loop n (d + 1) (s + 1) m1) =
      byte_loop-Copies n (d + 1) (s + 1) m1 (Forward-part d s 1 n f') (omega arith) (omega arith) in
    let moved : byte_loop n (add64 d 1) (add64 s 1) m1 ≡ byte_loop n (d + 1) (s + 1) m1 =
      ap₂ (λ u v. byte_loop n u v m1) (omega arith) (omega arith) in
    subst (λ k. Copies d s k m (byte_loop n (add64 d 1) (add64 s 1) m1)) (omega arith)
      (subst (Copies d s (1 + n) m) (sym moved)
        (Copies_more d s 1 n m m1 _ f' (Copies_byte d s m) rest))

word_loop-Copies :
    (n d s : ℕ) (m : Memory)
    → AreBytes m
    → Forward d s (8 * n)
    → d + 8 * n < 2 ^ 64
    → s + 8 * n < 2 ^ 64
    → Copies d s (8 * n) m (word_loop n d s m)
unfolding word_loop
word_loop-Copies zero d s m b f x y = Copies_zero d s m
word_loop-Copies (suc n) d s m b f x y =
    let m1 = write64 d (read64 m s) m in
    let f' : Forward d s (8 + 8 * n) = elim f [ inl h ↦ inl h | inr h ↦ inr (omega arith) ] in
    let rest : Copies (d + 8) (s + 8) (8 * n) m1 (word_loop n (d + 8) (s + 8) m1) =
      word_loop-Copies n (d + 8) (s + 8) m1 (write64-AreBytes d (read64 m s) m b)
        (Forward-part d s 8 (8 * n) f') (omega arith) (omega arith) in
    let moved : word_loop n (add64 d 8) (add64 s 8) m1 ≡ word_loop n (d + 8) (s + 8) m1 =
      ap₂ (λ u v. word_loop n u v m1) (omega arith) (omega arith) in
    subst (λ k. Copies d s k m (word_loop n (add64 d 8) (add64 s 8) m1)) (omega arith)
      (subst (Copies d s (8 + 8 * n) m) (sym moved)
        (Copies_more d s 8 (8 * n) m m1 _ f' (word-Copies d s m b) rest))

block_loop-Copies :
    (n d s : ℕ) (m : Memory)
    → AreBytes m
    → Forward d s (64 * n)
    → d + 64 * n < 2 ^ 64
    → s + 64 * n < 2 ^ 64
    → Copies d s (64 * n) m (block_loop n d s m)
unfolding block_loop
block_loop-Copies zero d s m b f x y = Copies_zero d s m
block_loop-Copies (suc n) d s m b f x y =
    let m1 = word_loop 8 d s m in
    let f' : Forward d s (64 + 64 * n) = elim f [ inl h ↦ inl h | inr h ↦ inr (omega arith) ] in
    let f8 : Forward d s 64 = elim f [ inl h ↦ inl h | inr h ↦ inr (omega arith) ] in
    let first : Copies d s 64 m m1 = word_loop-Copies 8 d s m b f8 (omega arith) (omega arith) in
    let rest : Copies (d + 64) (s + 64) (64 * n) m1 (block_loop n (d + 64) (s + 64) m1) =
      block_loop-Copies n (d + 64) (s + 64) m1 (Copies-AreBytes d s 64 m m1 b first)
        (Forward-part d s 64 (64 * n) f') (omega arith) (omega arith) in
    let moved : block_loop n (add64 d 64) (add64 s 64) m1 ≡ block_loop n (d + 64) (s + 64) m1 =
      ap₂ (λ u v. block_loop n u v m1) (omega arith) (omega arith) in
    subst (λ k. Copies d s k m (block_loop n (add64 d 64) (add64 s 64) m1)) (omega arith)
      (subst (Copies d s (64 + 64 * n) m) (sym moved)
        (Copies_more d s 64 (64 * n) m m1 _ f' first rest))

-- What the first loop of `memcpy` has done: `k` bytes are copied.
pub record Headed (d s n : ℕ) (m : Memory) (p : Place) : Type 0 where
  pub k : ℕ
  pub dest : p.dest ≡ d + k
  pub src : p.src ≡ s + k
  pub left : k + p.left ≡ n
  pub copied : Copies d s k m p.memory

pub head_loop-Headed :
    (n d s : ℕ) (m : Memory)
    → Forward d s n
    → d + n < 2 ^ 64
    → s + n < 2 ^ 64
    → Headed d s n m (head_loop n d s m)
unfolding head_loop
head_loop-Headed zero d s m f x y = record {
  k = 0;
  dest = omega arith;
  src = omega arith;
  left = omega arith;
  copied = Copies_zero d s m;
}
head_loop-Headed (suc n) d s m f x y =
    let m1 = update m d (m s) in
    let f' : Forward d s (1 + n) = elim f [ inl h ↦ inl h | inr h ↦ inr (omega arith) ] in
    let rest : Headed (d + 1) (s + 1) n m1 (head_loop n (d + 1) (s + 1) m1) =
      head_loop-Headed n (d + 1) (s + 1) m1 (Forward-part d s 1 n f') (omega arith) (omega arith) in
    let moved : head_loop n (add64 d 1) (add64 s 1) m1 ≡ head_loop n (d + 1) (s + 1) m1 =
      ap₂ (λ u v. head_loop n u v m1) (omega arith) (omega arith) in
    let f1 : Forward d s (1 + rest.k) = elim f [
      | inl h ↦ inl h
      | inr h ↦ inr (omega (arith, rest.left))
    ] in
    let now : Headed d s (suc n) m (head_loop n (d + 1) (s + 1) m1) = record {
      k = 1 + rest.k;
      dest = omega (arith, rest.dest);
      src = omega (arith, rest.src);
      left = omega (arith, rest.left);
      copied = Copies_more d s 1 rest.k m m1 _ f1 (Copies_byte d s m) rest.copied;
    } in
    if_elim (Headed d s (suc n) m) (d % 8 == 0 || s % 8 == 0)
      (record {
        k = 0;
        dest = omega arith;
        src = omega arith;
        left = omega arith;
        copied = Copies_zero d s m;
      })
      (subst (Headed d s (suc n) m) (sym moved) now)

pub aligned_copy-Copies :
    (n d s : ℕ) (m : Memory)
    → AreBytes m
    → Forward d s n
    → d + n < 2 ^ 64
    → s + n < 2 ^ 64
    → Copies d s n m (aligned_copy n d s m)
unfolding aligned_copy
aligned_copy-Copies n d s m b f x y =
    let k = 64 * (n / 64) in
    let j = 8 * (n % 64 / 8) in
    let m1 = block_loop (n / 64) d s m in
    let m2 = word_loop (n % 64 / 8) (d + k) (s + k) m1 in
    let within : (i : ℕ) → i ≤ n → Forward d s i =
      λ i l. elim f [ inl h ↦ inl h | inr h ↦ inr (omega arith) ] in
    let one =
      block_loop-Copies (n / 64) d s m b (within k (omega arith)) (omega arith) (omega arith) in
    let two =
      word_loop-Copies (n % 64 / 8) (d + k) (s + k) m1 (Copies-AreBytes d s k m m1 b one)
        (Forward-part d s k j (within (k + j) (omega arith))) (omega arith) (omega arith) in
    let both = Copies_more d s k j m m1 m2 (within (k + j) (omega arith)) one two in
    let three : Copies (d + (k + j)) (s + (k + j)) (n % 8) m2
        (byte_loop (n % 8) (d + (k + j)) (s + (k + j)) m2) =
      byte_loop-Copies (n % 8) (d + (k + j)) (s + (k + j)) m2
        (Forward-part d s (k + j) (n % 8) (within (k + j + n % 8) (omega arith))) (omega arith)
        (omega arith) in
    let all =
      Copies_more d s (k + j) (n % 8) m m2 _ (within (k + j + n % 8) (omega arith)) both three in
    let step = n % 64 / 8 * 8 in
    let first : aligned_copy n d s m
        ≡ byte_loop (n % 8) (add64 (d + k) step) (add64 (s + k) step) m2 =
      ap₂ (λ u v. byte_loop (n % 8) (add64 u step) (add64 v step) (word_loop (n % 64 / 8) u v m1))
        (omega arith) (omega arith) in
    let second : byte_loop (n % 8) (add64 (d + k) step) (add64 (s + k) step) m2
        ≡ byte_loop (n % 8) (d + (k + j)) (s + (k + j)) m2 =
      ap₂ (λ u v. byte_loop (n % 8) u v m2) (omega arith) (omega arith) in
    let total : k + j + n % 8 ≡ n = omega arith in
    subst (λ i. Copies d s i m (aligned_copy n d s m)) total
      (subst (Copies d s (k + j + n % 8) m) (sym (first ∙ second)) all)
