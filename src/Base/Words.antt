-- ===== src/Base/Words.antt =====
-- Unsigned machine arithmetic: `uint32_t`, `uint64_t` and `size_t` as numbers that wrap.
use Prim.Native.Nat.{ℕ, ◌+◌, ◌-◌, ◌*◌, ◌/◌, ◌%◌, ◌^◌}

abbrev pub add16 : ℕ → ℕ → ℕ
add16 a b = (a + b) % 2 ^ 16

abbrev pub add32 : ℕ → ℕ → ℕ
add32 a b = (a + b) % 2 ^ 32

abbrev pub sub32 : ℕ → ℕ → ℕ
sub32 a b = (a + 2 ^ 32 - b) % 2 ^ 32

abbrev pub add64 : ℕ → ℕ → ℕ
add64 a b = (a + b) % 2 ^ 64

abbrev pub sub64 : ℕ → ℕ → ℕ
sub64 a b = (a + 2 ^ 64 - b) % 2 ^ 64

abbrev pub mul64 : ℕ → ℕ → ℕ
mul64 a b = a * b % 2 ^ 64

abbrev pub page_size : ℕ
page_size = 4096

-- `x & ~(PAGE_SIZE - 1)`
abbrev pub align_down : ℕ → ℕ
align_down x = x / 4096 * 4096

-- `(x + PAGE_SIZE - 1) & ~(PAGE_SIZE - 1)`
abbrev pub align_up : ℕ → ℕ
align_up x = align_down (add64 x 4095)
