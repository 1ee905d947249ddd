-- ===== src/Strings.antt =====
-- Copies of memory: `memcpy` and `memmove` of src/kernel/string.c, on memory as bytes by address.
pub mod Copies
pub mod Loops
pub mod Move
mod Tests
use szczupak_os.Base.{
  ℕ, zero, suc, ◌+◌, ◌-◌, ◌*◌, ◌/◌, ◌%◌, ◌^◌, ◌≤◌, ◌<◌, min, ◌≡◌, refl, sym, ap, ap₂, ◌∙◌, subst,
  ◌≢◌, ◌↔◌, ◌⊎◌, inl, inr, Bool, true, false, not, ◌&&◌, ◌||◌, Option, none, some, List, [], ◌∷◌,
  ◌++◌, arith, ltb, leb, ◌==◌, if◌then◌else◌, ltb→lt, ltb→ge, lt→ltb, ge→ltb, leb→le, leb→gt,
  le→leb, gt→leb, ==→eq, ==→ne, eq→==, ne→==, tests, Bool-cases, Option-cases, if_elim, some_inj,
  length, take, drop, get_or, length-append, length-take, take_nil, take_cons, take_zero, take_all,
  drop_nil, take-min, All, update, slice, update_self, update_ne, slice_eq, add16, add32, sub32,
  add64, sub64, mul64, page_size, align_down, align_up, max, bit_or, has_bit, bit_or_step,
  bit_or-zero, zero-bit_or, bit_or_frame, bit_or_odd, bit_or_half, Memory, read64, write64,
  read64-write64, write64_frame, read64_frame, read64-write64_ne, bit_or_128, AreBytes, read64-lt,
  write64-AreBytes,
}

-- The last loop of `memcpy`: one byte after the other, with `n` left.
unfoldable pub byte_loop : (n d s : ℕ) → Memory → Memory
byte_loop zero d s m = m
byte_loop (suc n) d s m = byte_loop n (add64 d 1) (add64 s 1) (update m d (m s))

-- Where `memcpy` stands behind its first loop.
pub record Place : Type 0 where
  pub dest : ℕ
  pub src : ℕ
  pub left : ℕ
  pub memory : Memory

-- The first loop of `memcpy`, as long as neither pointer is aligned.
unfoldable pub head_loop : (n d s : ℕ) → Memory → Place
head_loop zero d s m = record { dest = d; src = s; left = 0; memory = m }
head_loop (suc n) d s m =
    let rest = head_loop n (add64 d 1) (add64 s 1) (update m d (m s)) in
    if d % 8 == 0 || s % 8 == 0
    then record { dest = d; src = s; left = suc n; memory = m }
    else rest

-- `n` words, one after the other.
unfoldable pub word_loop : (n d s : ℕ) → Memory → Memory
word_loop zero d s m = m
word_loop (suc n) d s m = word_loop n (add64 d 8) (add64 s 8) (write64 d (read64 m s) m)

-- The loop of `memcpy` over blocks of eight words.
unfoldable pub block_loop : (n d s : ℕ) → Memory → Memory
block_loop zero d s m = m
block_loop (suc n) d s m = block_loop n (add64 d 64) (add64 s 64) (word_loop 8 d s m)

-- `memcpy` from the aligned pointers on.
unfoldable pub aligned_copy : (n d s : ℕ) → Memory → Memory
aligned_copy n d s m =
    let m1 = block_loop (n / 64) d s m in
    let d1 = add64 d (n / 64 * 64) in
    let s1 = add64 s (n / 64 * 64) in
    let m2 = word_loop (n % 64 / 8) d1 s1 m1 in
    byte_loop (n % 8) (add64 d1 (n % 64 / 8 * 8)) (add64 s1 (n % 64 / 8 * 8)) m2

-- `memcpy`
unfoldable pub memcpy : (dest src n : ℕ) → Memory → Memory
memcpy dest src n m =
    let p = head_loop n dest src m in
    if leb 8 p.left && not (not (p.dest % 8 == 0) || not (p.src % 8 == 0))
    then aligned_copy p.left p.dest p.src p.memory
    else byte_loop p.left p.dest p.src p.memory

-- The loop of `memmove` from the ends `d` and `s` backwards, with `n` bytes left.
unfoldable pub back_loop : (n d s : ℕ) → Memory → Memory
back_loop zero d s m = m
back_loop (suc n) d s m = back_loop n (sub64 d 1) (sub64 s 1) (update m (sub64 d 1) (m (sub64 s 1)))

-- `memmove`
unfoldable pub memmove : (dest src n : ℕ) → Memory → Memory
memmove dest src n m =
    if ltb dest src
    then memcpy dest src n m
    else if ltb src dest
    then back_loop n (add64 dest n) (add64 src n) m
    else m
