-- ===== src/Strings/Copies.antt =====
-- What a copy of memory does, and that copies of two parts behind each other are one copy.
use szczupak_os.Base.{
  ℕ, ◌+◌, ◌-◌, ◌≤◌, ◌<◌, ◌≡◌, refl, sym, ap, ◌∙◌, ◌⊎◌, inl, inr, ◌&&◌, arith, ltb, leb,
  if◌then◌else◌, ltb→lt, ltb→ge, lt→ltb, ge→ltb, le→leb, gt→leb, Bool-cases, update, update_self,
  update_ne, Memory, AreBytes,
}

-- Memory `m` with the `n` bytes at `s` copied to `d`, all at once.
unfoldable pub copied : (d s n : ℕ) → Memory → Memory
copied d s n m a = if leb d a && ltb a (d + n) then m (s + (a - d)) else m a

abbrev pub Copies : (d s n : ℕ) → Memory → Memory → Type 0
Copies d s n m m' = (a : ℕ) → m' a ≡ copied d s n m a

pub copied_in :
    (d s n : ℕ) (m : Memory) (a : ℕ) → d ≤ a → a < d + n → copied d s n m a ≡ m (s + (a - d))
unfolding copied
copied_in d s n m a h k = rw (le→leb d a h, lt→ltb a (d + n) k) refl

pub copied_out : (d s n : ℕ) (m : Memory) (a : ℕ) → (a < d) ⊎ (d + n ≤ a) → copied d s n m a ≡ m a
unfolding copied
copied_out d s n m a (inl h) = rw (gt→leb d a h) refl
copied_out d s n m a (inr h) = rw (le→leb d a (omega arith), ge→ltb a (d + n) h) refl

-- A place is among those written or not.
pub place_cases : (d n a : ℕ) → ((d ≤ a) × (a < d + n)) ⊎ ((a < d) ⊎ (d + n ≤ a))
place_cases d n a = elim (Bool-cases (ltb a d)) [
  | inl e ↦ inr (inl (ltb→lt a d e))
  | inr e ↦ elim (Bool-cases (ltb a (d + n))) [
    | inl f ↦ inl (ltb→ge a d e, ltb→lt a (d + n) f)
    | inr f ↦ inr (inr (ltb→ge a (d + n) f))
  ]
]

-- A forward copy does not write what it has still to read.
abbrev pub Forward : (d s n : ℕ) → Type 0
Forward d s n = (d ≤ s) ⊎ (s + n ≤ d)

pub Copies_zero : (d s : ℕ) (m : Memory) → Copies d s 0 m m
Copies_zero d s m a = elim (place_cases d 0 a) [
  | inl (h, k) ↦ absurd (omega arith)
  | inr out ↦ sym (copied_out d s 0 m a out)
]

pub Copies_more :
    (d s k j : ℕ) (m m1 m2 : Memory)
    → Forward d s (k + j)
    → Copies d s k m m1
    → Copies (d + k) (s + k) j m1 m2
    → Copies d s (k + j) m m2
Copies_more d s k j m m1 m2 f one two a = elim (place_cases d (k + j) a) [
  | inr out ↦
      two a
      ∙ copied_out (d + k) (s + k) j m1 a
          (elim out [ inl h ↦ inl (omega arith) | inr h ↦ inr (omega arith) ])
      ∙ one a
      ∙ copied_out d s k m a (elim out [ inl h ↦ inl h | inr h ↦ inr (omega arith) ])
      ∙ sym (copied_out d s (k + j) m a out)
  | inl (low, high) ↦ elim (Bool-cases (ltb a (d + k))) [
    | inl e ↦
        let first = ltb→lt a (d + k) e in
        two a
        ∙ copied_out (d + k) (s + k) j m1 a (inl first)
        ∙ one a
        ∙ copied_in d s k m a low first
        ∙ sym (copied_in d s (k + j) m a low high)
    | inr e ↦
        let second = ltb→ge a (d + k) e in
        let place : s + k + (a - (d + k)) ≡ s + (a - d) = omega arith in
        two a
        ∙ copied_in (d + k) (s + k) j m1 a second (omega arith)
        ∙ ap m1 place
        ∙ one (s + (a - d))
        ∙ copied_out d s k m (s + (a - d))
            (elim f [ inl h ↦ inr (omega arith) | inr h ↦ inl (omega arith) ])
        ∙ sym (copied_in d s (k + j) m a low high)
  ]
]

pub Copies-AreBytes : (d s n : ℕ) (m m' : Memory) → AreBytes m → Copies d s n m m' → AreBytes m'
Copies-AreBytes d s n m m' b c a = elim (place_cases d n a) [
  | inl (h, k) ↦ omega (arith, c a, copied_in d s n m a h k, b (s + (a - d)))
  | inr out ↦ omega (arith, c a, copied_out d s n m a out, b a)
]

pub Copies_byte : (d s : ℕ) (m : Memory) → Copies d s 1 m (update m d (m s))
Copies_byte d s m a = elim (place_cases d 1 a) [
  | inl (h, k) ↦
      let here : a ≡ d = omega arith in
      ap (update m d (m s)) here
      ∙ update_self m d (m s)
      ∙ ap m (omega arith)
      ∙ sym (copied_in d s 1 m a h k)
  | inr out ↦
      update_ne m d (m s) a
        (λ e. elim out [ inl h ↦ absurd (omega arith) | inr h ↦ absurd (omega arith) ])
      ∙ sym (copied_out d s 1 m a out)
]
