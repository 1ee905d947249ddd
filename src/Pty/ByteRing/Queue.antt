-- ===== src/Pty/ByteRing/Queue.antt =====
-- A valid ring is a queue of at most `PTY_BUF_SIZE` bytes, oldest first.
use mathlib.Core.List.{append_assoc, append-nil}
use szczupak_os.Base.{
  ℕ, zero, suc, ◌+◌, ◌-◌, ◌%◌, ◌≤◌, ◌<◌, min, ◌≡◌, refl, ap, ap₂, true, false, none, some, List, [],
  ◌∷◌, ◌++◌, drop, drop_nil, arith, update, update_ne, length, take, take_nil, take_cons, take_zero,
}
use native.Mathlib.Decide.{dec_lt}
use szczupak_os.Pty.ByteRing.{Ring, buf_size, reset, push, pop, write_loop, read_loop}

-- The counters lie in range, and `head` is where the window of stored bytes ends.
pub record IsValid (r : Ring) : Type 0 where
  pub tail_in : r.tail < buf_size
  pub count_in : r.count ≤ buf_size
  pub head_at : r.head ≡ (r.tail + r.count) % buf_size

-- the `n` bytes from index `t` on, round the end of the buffer
abbrev pub window : (ℕ → ℕ) → ℕ → ℕ → List ℕ
window b t zero = []
window b t (suc n) = b t ∷ window b ((t + 1) % buf_size) n

abbrev pub contents : Ring → List ℕ
contents r = window r.bytes r.tail r.count

length-window : (b : ℕ → ℕ) (t n : ℕ) → length (window b t n) ≡ n
length-window b t zero = refl
length-window b t (suc n) = ap suc (length-window b ((t + 1) % buf_size) n)

pub length-contents : (r : Ring) → length (contents r) ≡ r.count
length-contents r = length-window r.bytes r.tail r.count

-- Writing the cell behind a window extends the window by that byte.
window-update :
    (n : ℕ) (b : ℕ → ℕ) (c t h : ℕ)
    → t < buf_size
    → n < buf_size
    → h ≡ (t + n) % buf_size
    → window (update b h c) t (suc n) ≡ window b t n ++ c ∷ []
window-update zero b c t h ht hn e = ap (λ x. x ∷ []) (ground arith)
window-update (suc n) b c t h ht hn e =
    ap₂ ◌∷◌ (update_ne b h c t (omega arith))
      (window-update n b c ((t + 1) % buf_size) h (omega arith) (omega arith) (omega arith))

pub reset-IsValid : (r : Ring) → IsValid (reset r)
reset-IsValid r = omega arith

pub push-IsValid : {r : Ring} (c : ℕ) → IsValid r → IsValid (push r c).1
unfolding push
push-IsValid {r} c v = ground arith

pub pop-IsValid : {r : Ring} → IsValid r → IsValid (pop r).1
unfolding pop
pop-IsValid v = ground arith

pub push-full : (r : Ring) (c : ℕ) → buf_size ≤ r.count → push r c ≡ (false, r)
unfolding push
push-full r c h = ground arith

pub push-contents :
    {r : Ring} (c : ℕ)
    → IsValid r
    → r.count < buf_size
    → ((push r c).0 ≡ true)
      × (contents (push r c).1 ≡ contents r ++ c ∷ [])
      × ((push r c).1.count ≡ r.count + 1)
unfolding push
push-contents {r} c v h =
    ground (arith, window-update r.count r.bytes c r.tail r.head v.tail_in h v.head_at)

pub pop-empty : (r : Ring) → r.count ≡ 0 → pop r ≡ (none, r)
unfolding pop
pop-empty r h = ground arith

window_of_pos :
    (b : ℕ → ℕ) (t n : ℕ) → 0 < n → window b t n ≡ b t ∷ window b ((t + 1) % buf_size) (n - 1)
window_of_pos b t zero h = absurd (omega arith)
window_of_pos b t (suc n) h = ap (λ k. b t ∷ window b ((t + 1) % buf_size) k) (omega arith)

pub pop-contents :
    {r : Ring}
    → IsValid r
    → 0 < r.count
    → ((pop r).0 ≡ some (r.bytes r.tail))
      × (contents r ≡ r.bytes r.tail ∷ contents (pop r).1)
      × ((pop r).1.count + 1 ≡ r.count)
unfolding pop
pop-contents {r} v h = ground (arith, window_of_pos r.bytes r.tail r.count h)

-- What the write loop has done from `r`: the bytes that fit are appended in order, and counted.
pub write_loop-contents :
    (cs : List ℕ) {r : Ring} (n : ℕ)
    → IsValid r
    → ((write_loop r cs n).0 ≡ n + min (length cs) (buf_size - r.count))
      × (contents (write_loop r cs n).1 ≡ contents r ++ take (buf_size - r.count) cs)
      × IsValid (write_loop r cs n).1
unfolding write_loop
write_loop-contents [] {r} n v =
    ground (arith, take_nil ℕ (buf_size - r.count), append-nil (contents r))
write_loop-contents (c ∷ cs) {r} n v = elim (dec_lt r.count buf_size) [
  | yes h ↦ ground (
    arith,
    push-contents c v h,
    write_loop-contents cs (n + 1) (push-IsValid c v),
    take_cons (buf_size - r.count) c cs,
    append_assoc (contents r) (c ∷ []) (take (buf_size - r.count - 1) cs),
  )
  | no h ↦
      ground
        (arith, push-full r c, take_zero (buf_size - r.count) (c ∷ cs), append-nil (contents r))
]

contents-empty : (r : Ring) → r.count ≡ 0 → contents r ≡ []
contents-empty r h = rw h

-- The read loop takes the oldest bytes from `r`, as many as it has rounds, and leaves the rest.
pub read_loop-contents :
    (len : ℕ) {r : Ring}
    → IsValid r
    → ((read_loop len r).0 ≡ take len (contents r))
      × (contents (read_loop len r).1 ≡ drop len (contents r))
      × IsValid (read_loop len r).1
unfolding read_loop
read_loop-contents zero {r} v = ground arith
read_loop-contents (suc len) {r} v = elim (dec_lt 0 r.count) [
  | yes h ↦ ground (arith, pop-contents v h, read_loop-contents len (pop-IsValid v))
  | no h ↦ ground (arith, pop-empty r, contents-empty r, take_nil ℕ len, drop_nil ℕ len)
]
