-- ===== src/Strings/Move.antt =====
-- `memcpy` and `memmove` of src/kernel/string.c copy all bytes at once.
use szczupak_os.Strings.Loops.{
  byte_loop-Copies, aligned_copy-Copies, Forward-part, head_loop-Headed,
}
use szczupak_os.Strings.Copies.{
  copied, copied_out, copied_in, Copies_more, Copies-AreBytes, place_cases, Copies_zero, Forward,
  Copies,
}
use szczupak_os.Strings.{memmove, memcpy, back_loop, head_loop, aligned_copy, byte_loop}
use szczupak_os.Base.{
  ltb→ge, ltb→lt, ==→ne, update_self, not, ◌-◌, ◌&&◌, ltb, ==→eq, update_ne, leb, Bool-cases,
  if◌then◌else◌, ap, ◌⊎◌, ◌||◌, ◌≤◌, ◌==◌, ◌%◌, if_elim, ℕ, zero, suc, ◌+◌, ◌^◌, ◌<◌, ◌≡◌, sym, ap₂,
  ◌∙◌, subst, inl, inr, arith, update, add64, Memory, AreBytes,
}

-- `memcpy` copies all bytes at once when it reads no byte that it has written.
memcpy-Copies :
    (dest src n : ℕ) (m : Memory)
    → AreBytes m
    → Forward dest src n
    → dest + n < 2 ^ 64
    → src + n < 2 ^ 64
    → Copies dest src n m (memcpy dest src n m)
unfolding memcpy
memcpy-Copies d s n m b f x y =
    let p = head_loop n d s m in
    let h = head_loop-Headed n d s m f x y in
    let kl = h.left in
    let f' : Forward d s (h.k + p.left) = subst (Forward d s) (sym kl) f in
    let g : Forward (d + h.k) (s + h.k) p.left = Forward-part d s h.k p.left f' in
    let b' = Copies-AreBytes d s h.k m p.memory b h.copied in
    let rest : Copies (d + h.k) (s + h.k) p.left p.memory (
        if leb 8 p.left && not (not (p.dest % 8 == 0) || not (p.src % 8 == 0))
        then aligned_copy p.left (d + h.k) (s + h.k) p.memory
        else byte_loop p.left (d + h.k) (s + h.k) p.memory) =
      if_elim (Copies (d + h.k) (s + h.k) p.left p.memory)
        (leb 8 p.left && not (not (p.dest % 8 == 0) || not (p.src % 8 == 0)))
        (aligned_copy-Copies p.left (d + h.k) (s + h.k) p.memory b' g (omega arith) (omega arith))
        (byte_loop-Copies p.left (d + h.k) (s + h.k) p.memory g (omega arith) (omega arith)) in
    let whole = Copies_more d s h.k p.left m p.memory _ f' h.copied rest in
    let test = leb 8 p.left && not (not (p.dest % 8 == 0) || not (p.src % 8 == 0)) in
    let moved : memcpy d s n m ≡ (
        if test
        then aligned_copy p.left (d + h.k) (s + h.k) p.memory
        else byte_loop p.left (d + h.k) (s + h.k) p.memory) =
      ap₂ (λ u v. if test then aligned_copy p.left u v p.memory else byte_loop p.left u v p.memory)
        h.dest h.src in
    subst (λ i. Copies d s i m (memcpy d s n m)) kl
      (subst (Copies d s (h.k + p.left) m) (sym moved) whole)

-- The last byte of a copy.
Copies_last :
    (d s n : ℕ) (m : Memory) (a : ℕ)
    → (a < d) ⊎ (d + n ≤ a)
    → update m (d + n) (m (s + n)) a ≡ copied d s (suc n) m a
Copies_last d s n m a out = elim (Bool-cases (a == d + n)) [
  | inl e ↦
      let here = ==→eq a (d + n) e in
      ap (update m (d + n) (m (s + n))) here
      ∙ update_self m (d + n) (m (s + n))
      ∙ ap m (omega arith)
      ∙ sym (copied_in d s (suc n) m a (omega arith) (omega arith))
  | inr e ↦
      let ne = ==→ne a (d + n) e in
      update_ne m (d + n) (m (s + n)) a ne
      ∙ sym (copied_out d s (suc n) m a (elim out [ inl h ↦ inl h | inr h ↦ inr (omega arith) ]))
]

-- The backward loop reads each byte before it writes there.
back_loop-Copies :
    (n d s : ℕ) (m : Memory)
    → s ≤ d
    → d + n < 2 ^ 64
    → Copies d s n m (back_loop n (d + n) (s + n) m)
unfolding back_loop
back_loop-Copies zero d s m f x = Copies_zero d s m
back_loop-Copies (suc n) d s m f x =
    let m1 = update m (d + n) (m (s + n)) in
    let rest = back_loop-Copies n d s m1 f (omega arith) in
    let first : back_loop (suc n) (d + suc n) (s + suc n) m ≡ back_loop n (d + n) (s + n) m1 =
      ap₂ (λ u v. back_loop n u v (update m u (m v))) (omega arith) (omega arith) in
    λ a. ap (λ (w : Memory). w a) first ∙ rest a ∙ elim (place_cases d n a) [
      | inl (h, k) ↦
          copied_in d s n m1 a h k
          ∙ update_ne m (d + n) (m (s + n)) (s + (a - d)) (omega arith)
          ∙ sym (copied_in d s (suc n) m a h (omega arith))
      | inr out ↦ copied_out d s n m1 a out ∙ Copies_last d s n m a out
    ]

same_place : (d s n : ℕ) (m : Memory) → s ≡ d → Copies d s n m m
same_place d s n m e a = elim (place_cases d n a) [
  | inl (h, k) ↦ ap m (omega arith) ∙ sym (copied_in d s n m a h k)
  | inr out ↦ sym (copied_out d s n m a out)
]

-- `memmove` copies all bytes at once, whether the two ranges overlap or not.
pub memmove-copied :
    (dest src n : ℕ) (m : Memory)
    → AreBytes m
    → dest + n < 2 ^ 64
    → src + n < 2 ^ 64
    → (a : ℕ) → memmove dest src n m a ≡ copied dest src n m a
unfolding memmove
memmove-copied d s n m b x y = elim (Bool-cases (ltb d s)) [
  | inl e ↦ let less = ltb→lt d s e in rw e (memcpy-Copies d s n m b (inl (omega arith)) x y)
  | inr e ↦
      let order = ltb→ge d s e in
      elim (Bool-cases (ltb s d)) [
        | inl g ↦
            let moved : back_loop n (add64 d n) (add64 s n) m ≡ back_loop n (d + n) (s + n) m =
              ap₂ (λ u v. back_loop n u v m) (omega arith) (omega arith) in
            rw (e, g) (subst (Copies d s n m) (sym moved) (back_loop-Copies n d s m order x))
        | inr g ↦ (let order' = ltb→ge s d g in rw (e, g) (same_place d s n m (omega arith)))
      ]
]
