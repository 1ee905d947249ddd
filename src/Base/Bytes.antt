-- ===== src/Base/Bytes.antt =====
-- Memory as bytes by address, and the little-endian words in it.
use Prim.Native.Nat.{ℕ, zero, suc, ◌+◌, ◌-◌, ◌*◌, ◌/◌, ◌%◌, ◌^◌, ◌≤◌, ◌<◌}
use mathlib.Core.Path.{◌≡◌, refl, ap, ◌∙◌}
use mathlib.Core.Logic.{◌⊎◌, inl, inr}
use native.Mathlib.Omega.{arith}
use szczupak_os.Base.Tests.{ltb, Bool-cases, ltb→lt, ltb→ge}
use szczupak_os.Base.Arrays.{update, update_ne, update_self}

abbrev pub Memory : Type 0
Memory = ℕ → ℕ

-- The word in the `n` bytes from `a` on.
unfoldable pub read_bytes : (n : ℕ) → Memory → ℕ → ℕ
read_bytes zero m a = 0
read_bytes (suc n) m a = m a + 256 * read_bytes n m (a + 1)

unfoldable pub write_bytes : (n : ℕ) → (a v : ℕ) → Memory → Memory
write_bytes zero a v m = m
write_bytes (suc n) a v m = write_bytes n (a + 1) (v / 256) (update m a (v % 256))

-- `v` fits in `n` bytes.
abbrev Fits : ℕ → ℕ → Type 0
Fits zero v = v ≡ 0
Fits (suc n) v = Fits n (v / 256)

write_bytes_frame :
    (n a v : ℕ) (m : Memory) (x : ℕ) → (x < a) ⊎ (a + n ≤ x) → write_bytes n a v m x ≡ m x
unfolding write_bytes
write_bytes_frame zero a v m x h = refl
write_bytes_frame (suc n) a v m x (inl h) =
    write_bytes_frame n (a + 1) (v / 256) (update m a (v % 256)) x (inl (omega arith))
    ∙ update_ne m a (v % 256) x (omega arith)
write_bytes_frame (suc n) a v m x (inr h) =
    write_bytes_frame n (a + 1) (v / 256) (update m a (v % 256)) x (inr (omega arith))
    ∙ update_ne m a (v % 256) x (omega arith)

read-write_bytes : (n a v : ℕ) (m : Memory) → Fits n v → read_bytes n (write_bytes n a v m) a ≡ v
unfolding read_bytes write_bytes
read-write_bytes zero a v m h = omega (arith, h)
read-write_bytes (suc n) a v m h =
    let first =
      write_bytes_frame n (a + 1) (v / 256) (update m a (v % 256)) a (inl (omega arith))
      ∙ update_self m a (v % 256) in
    let rest = read-write_bytes n (a + 1) (v / 256) (update m a (v % 256)) h in
    omega (arith, first, rest)

read_bytes_frame :
    (n a : ℕ) (m m' : Memory)
    → ((x : ℕ) → a ≤ x → x < a + n → m' x ≡ m x)
    → read_bytes n m' a ≡ read_bytes n m a
unfolding read_bytes
read_bytes_frame zero a m m' h = refl
read_bytes_frame (suc n) a m m' h =
    let first = h a (omega arith) (omega arith) in
    let rest = read_bytes_frame n (a + 1) m m' (λ x p q. h x (omega arith) (omega arith)) in
    omega (arith, first, rest)

-- `*(uint64_t*)a`
unfoldable pub read64 : Memory → ℕ → ℕ
unfolding read_bytes
read64 m a = read_bytes 8 m a

unfoldable pub write64 : (a v : ℕ) → Memory → Memory
write64 a v m = write_bytes 8 a v m

pub read64-write64 : (a v : ℕ) (m : Memory) → v < 2 ^ 64 → read64 (write64 a v m) a ≡ v
unfolding read64 write64
read64-write64 a v m h = read-write_bytes 8 a v m (omega arith)

pub write64_frame : (a v : ℕ) (m : Memory) (x : ℕ) → (x < a) ⊎ (a + 8 ≤ x) → write64 a v m x ≡ m x
unfolding write64
write64_frame a v m x h = write_bytes_frame 8 a v m x h

-- A word is what its eight bytes are.
pub read64_frame :
    (a : ℕ) (m m' : Memory) → ((x : ℕ) → a ≤ x → x < a + 8 → m' x ≡ m x) → read64 m' a ≡ read64 m a
unfolding read64
read64_frame a m m' h = read_bytes_frame 8 a m m' h

-- Words that do not overlap.
pub read64-write64_ne :
    (a v b : ℕ) (m : Memory) → (b + 8 ≤ a) ⊎ (a + 8 ≤ b) → read64 (write64 a v m) b ≡ read64 m b
read64-write64_ne a v b m (inl h) =
    read64_frame b m (write64 a v m) (λ x p q. write64_frame a v m x (inl (omega arith)))
read64-write64_ne a v b m (inr h) =
    read64_frame b m (write64 a v m) (λ x p q. write64_frame a v m x (inr (omega arith)))

-- Every byte is one.
abbrev pub AreBytes : Memory → Type 0
AreBytes m = (a : ℕ) → m a < 256

-- The number of values of `n` bytes.
abbrev values : ℕ → ℕ
values zero = 1
values (suc n) = 256 * values n

read_bytes-lt : (n : ℕ) (m : Memory) (a : ℕ) → AreBytes m → read_bytes n m a < values n
unfolding read_bytes
read_bytes-lt zero m a h = omega arith
read_bytes-lt (suc n) m a h = omega (arith, h a, read_bytes-lt n m (a + 1) h)

pub read64-lt : (m : Memory) (a : ℕ) → AreBytes m → read64 m a < 2 ^ 64
unfolding read64
read64-lt m a h = omega (arith, read_bytes-lt 8 m a h)

update-AreBytes : (m : Memory) (a v : ℕ) → v < 256 → AreBytes m → AreBytes (update m a v)
update-AreBytes m a v h b x = ground (arith, b x)

write_bytes-AreBytes : (n a v : ℕ) (m : Memory) → AreBytes m → AreBytes (write_bytes n a v m)
unfolding write_bytes
write_bytes-AreBytes zero a v m b = b
write_bytes-AreBytes (suc n) a v m b =
    write_bytes-AreBytes n (a + 1) (v / 256) (update m a (v % 256))
      (update-AreBytes m a (v % 256) (omega arith) b)

pub write64-AreBytes : (a v : ℕ) (m : Memory) → AreBytes m → AreBytes (write64 a v m)
unfolding write64
write64-AreBytes a v m b = write_bytes-AreBytes 8 a v m b

write-read_bytes :
    (n d s x : ℕ) (m0 m : Memory)
    → AreBytes m0
    → d ≤ x
    → x < d + n
    → write_bytes n d (read_bytes n m0 s) m x ≡ m0 (s + (x - d))
unfolding read_bytes write_bytes
write-read_bytes zero d s x m0 m b h k = absurd (omega arith)
write-read_bytes (suc n) d s x m0 m b h k =
    let byte = b s in
    let high : (m0 s + 256 * read_bytes n m0 (s + 1)) / 256 ≡ read_bytes n m0 (s + 1) =
      omega arith in
    let low : (m0 s + 256 * read_bytes n m0 (s + 1)) % 256 ≡ m0 s = omega arith in
    let m1 = update m d ((m0 s + 256 * read_bytes n m0 (s + 1)) % 256) in
    ap (λ v. write_bytes n (d + 1) v m1 x) high ∙ elim (Bool-cases (ltb d x)) [
      | inl f ↦
          let e = ltb→lt d x f in
          write-read_bytes n (d + 1) (s + 1) x m0 m1 b (omega arith) (omega arith)
          ∙ ap m0 (omega arith)
      | inr f ↦
          let e = ltb→ge d x f in
          write_bytes_frame n (d + 1) _ m1 x (inl (omega arith))
          ∙ ap m1 (omega arith)
          ∙ update_self m d _
          ∙ low
          ∙ ap m0 (omega arith)
    ]

-- A word that is read and written is its eight bytes copied.
pub write64-read64 :
    (d s x : ℕ) (m : Memory)
    → AreBytes m
    → d ≤ x
    → x < d + 8
    → write64 d (read64 m s) m x ≡ m (s + (x - d))
unfolding read64 write64
write64-read64 d s x m b h k = write-read_bytes 8 d s x m m b h k
