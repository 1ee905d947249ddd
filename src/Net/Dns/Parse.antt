-- ===== src/Net/Dns/Parse.antt =====
-- What the result of `dns_parse_response_a` of src/kernel/net/net_dns.c depends on.
use szczupak_os.Base.{
  ℕ, zero, suc, ◌+◌, ◌*◌, ◌/◌, ◌%◌, ◌^◌, ◌≤◌, ◌<◌, ◌≡◌, refl, sym, ap, ap₂, ◌∙◌, inl, inr, not,
  ◌&&◌, Option, none, some, arith, ltb, ◌==◌, if◌then◌else◌, ltb→lt, ltb→ge, Bool-cases,
  Option-cases, add64,
}
use szczupak_os.Net.Bytes.{Ip, Bytes, read_be16, read_be32}
use szczupak_os.Net.Dns.{
  ip_at, Answer, skip_label, skip_loop, skip_name, skip_questions, Answer, find_answer, ip_at,
  parse_response_a,
}

-- Two packets with the same bytes before `n`.
abbrev pub Agree : ℕ → Bytes → Bytes → Type 0
Agree n p p' = (i : ℕ) → i < n → p i ≡ p' i

skip_label-Agree :
    (n : ℕ) (p p' : Bytes) (o : ℕ) (next : ℕ → Option ℕ)
    → Agree n p p'
    → skip_label p n o next ≡ skip_label p' n o next
unfolding skip_label
skip_label-Agree n p p' o next a = elim (Bool-cases (ltb o n)) [
  | inl e ↦ rw (e, a o (ltb→lt o n e)) refl
  | inr e ↦ rw e refl
]

skip_loop-Agree :
    (left n : ℕ) (p p' : Bytes) (o : ℕ)
    → Agree n p p'
    → skip_loop left p n o ≡ skip_loop left p' n o
unfolding skip_loop
skip_loop-Agree zero n p p' o a = skip_label-Agree n p p' o (λ _. none) a
skip_loop-Agree (suc left) n p p' o a =
    skip_label-Agree n p p' o (skip_loop left p n) a
    ∙ ap (skip_label p' n o) (λ i x. skip_loop-Agree left n p p' x a i)

skip_label-le :
    (n : ℕ) (p : Bytes) (o : ℕ) (next : ℕ → Option ℕ) {r : ℕ}
    → n < 2 ^ 32
    → ((x : ℕ) → next x ≡ some r → r ≤ n)
    → skip_label p n o next ≡ some r
    → r ≤ n
unfolding skip_label
skip_label-le n p o next w f h = ground (arith, f (add64 (add64 o 1) (p o)))

skip_loop-le :
    (left n : ℕ) (p : Bytes) (o : ℕ) {r : ℕ} → n < 2 ^ 32 → skip_loop left p n o ≡ some r → r ≤ n
unfolding skip_loop
skip_loop-le zero n p o w h = skip_label-le n p o (λ _. none) w (λ x q. absurd (ground arith)) h
skip_loop-le (suc left) n p o w h =
    skip_label-le n p o (skip_loop left p n) w (λ x q. skip_loop-le left n p x w q) h

skip_name-Agree : (n : ℕ) (p p' : Bytes) (o : ℕ) → Agree n p p' → skip_name p n o ≡ skip_name p' n o
unfolding skip_name
skip_name-Agree n p p' o a = skip_loop-Agree 128 n p p' o a

pub skip_name-le :
    (n : ℕ) (p : Bytes) (o : ℕ) {r : ℕ} → n < 2 ^ 32 → skip_name p n o ≡ some r → r ≤ n
unfolding skip_name
skip_name-le n p o w h = skip_loop-le 128 n p o w h

skip_questions-Agree :
    (k n : ℕ) (p p' : Bytes) (o : ℕ)
    → Agree n p p'
    → skip_questions k p n o ≡ skip_questions k p' n o
unfolding skip_questions
skip_questions-Agree zero n p p' o a = refl
skip_questions-Agree (suc k) n p p' o a = elim (Option-cases (skip_name p n o)) [
  | inl e ↦
      let e' : skip_name p' n o ≡ none = (sym (skip_name-Agree n p p' o a) ∙ e) in
      rw (skip_questions, e, e') refl
  | inr (x, e) ↦
      let e' : skip_name p' n o ≡ some x = (sym (skip_name-Agree n p p' o a) ∙ e) in
      rw (skip_questions, e, e', skip_questions-Agree k n p p' (add64 x 4) a) refl
]

read_be16-Agree :
    (n : ℕ) (p p' : Bytes) (i : ℕ) → Agree n p p' → i + 2 ≤ n → read_be16 p i ≡ read_be16 p' i
unfolding read_be16
read_be16-Agree n p p' i a h =
    ap₂ (λ (x y : ℕ). x * 256 + y) (a i (omega arith)) (a (i + 1) (omega arith))

read_be32-Agree :
    (n : ℕ) (p p' : Bytes) (i : ℕ) → Agree n p p' → i + 4 ≤ n → read_be32 p i ≡ read_be32 p' i
unfolding read_be32
read_be32-Agree n p p' i a h = omega (
  arith,
  a i (omega arith),
  a (i + 1) (omega arith),
  a (i + 2) (omega arith),
  a (i + 3) (omega arith),
)

-- A round of the loop over the answers from its fields on, `K` being the later rounds.
abbrev pub answer_of :
    (n body type class rdlength ttl : ℕ) → Ip → (ℕ → Option Answer) → Option Answer
answer_of n body type class rdlength ttl ip K =
    let rest = K (add64 body rdlength) in
    if ltb n (add64 body rdlength)
    then none
    else if type == 1 && (class == 1 && rdlength == 4)
    then some (record { ip = ip; ttl = ttl })
    else rest

abbrev pub answer_at : Bytes → (n x : ℕ) → (ℕ → Option Answer) → Option Answer
answer_at p n x K =
    let rest =
      answer_of n (add64 x 10) (read_be16 p x) (read_be16 p (x + 2)) (read_be16 p (x + 8))
        (read_be32 p (x + 4)) (ip_at p (add64 x 10)) K in
    if ltb n (add64 x 10) then none else rest

-- The address is only looked at when the packet holds it.
answer_of_ip :
    (n body type class rdlength ttl : ℕ) (ip ip' : Ip) (K : ℕ → Option Answer)
    → n < 2 ^ 32
    → body ≤ n
    → (body + 4 ≤ n → ip ≡ ip')
    → answer_of n body type class rdlength ttl ip K ≡ answer_of n body type class rdlength ttl ip' K
answer_of_ip n body type class rdlength ttl ip ip' K w b same =
    elim (Bool-cases (ltb n (add64 body rdlength))) [
      | inl e ↦ rw e refl
      | inr e ↦ elim (Bool-cases (type == 1 && (class == 1 && rdlength == 4))) [
        | inr c ↦ rw (e, c) refl
        | inl c ↦
            let four : rdlength ≡ 4 = ground arith in
            let inside : body + 4 ≤ n = omega (arith, four, ltb→ge n (add64 body rdlength) e) in
            rw (e, c) (ap (λ (x : Ip). some (record { ip = x; ttl = ttl })) (same inside))
      ]
    ]

ip_at-Agree : (n : ℕ) (p p' : Bytes) (o : ℕ) → Agree n p p' → o + 4 ≤ n → ip_at p o ≡ ip_at p' o
ip_at-Agree n p p' o a h =
    rw
      (a o (omega arith), a (o + 1) (omega arith), a (o + 2) (omega arith), a (o + 3) (omega arith))
      refl

answer_at-Agree :
    (n x : ℕ) (p p' : Bytes) (K : ℕ → Option Answer)
    → Agree n p p'
    → n < 2 ^ 32
    → x ≤ n
    → answer_at p n x K ≡ answer_at p' n x K
answer_at-Agree n x p p' K a w h = elim (Bool-cases (ltb n (add64 x 10))) [
  | inl e ↦ rw e refl
  | inr e ↦
      let body = add64 x 10 in
      let fits = ltb→ge n (add64 x 10) e in
      let r0 = read_be16-Agree n p p' x a (omega (arith, fits)) in
      let r2 = read_be16-Agree n p p' (x + 2) a (omega (arith, fits)) in
      let r8 = read_be16-Agree n p p' (x + 8) a (omega (arith, fits)) in
      let r4 = read_be32-Agree n p p' (x + 4) a (omega (arith, fits)) in
      let types =
        ap₂
          (λ (t c : ℕ).
            answer_of n body t c (read_be16 p (x + 8)) (read_be32 p (x + 4)) (ip_at p body) K)
          r0 r2 in
      let lengths =
        ap₂
          (λ (l t : ℕ).
            answer_of n body (read_be16 p' x) (read_be16 p' (x + 2)) l t (ip_at p body) K)
          r8 r4 in
      let addresses =
        answer_of_ip n body (read_be16 p' x) (read_be16 p' (x + 2)) (read_be16 p' (x + 8))
          (read_be32 p' (x + 4)) (ip_at p body) (ip_at p' body) K w fits
          (ip_at-Agree n p p' body a) in
      rw e (types ∙ lengths ∙ addresses)
]

find_answer-Agree :
    (k n : ℕ) (p p' : Bytes) (o : ℕ)
    → Agree n p p'
    → n < 2 ^ 32
    → find_answer k p n o ≡ find_answer k p' n o
unfolding find_answer
find_answer-Agree zero n p p' o a w = refl
find_answer-Agree (suc k) n p p' o a w = elim (Option-cases (skip_name p n o)) [
  | inl e ↦
      let e' : skip_name p' n o ≡ none = (sym (skip_name-Agree n p p' o a) ∙ e) in
      rw (find_answer, e, e') refl
  | inr (x, e) ↦
      let e' : skip_name p' n o ≡ some x = (sym (skip_name-Agree n p p' o a) ∙ e) in
      let small = skip_name-le n p o w e in
      let round : answer_at p n x (find_answer k p n) ≡ answer_at p' n x (find_answer k p' n) =
        answer_at-Agree n x p p' (find_answer k p n) a w small
        ∙ ap (answer_at p' n x) (λ i y. find_answer-Agree k n p p' y a w i) in
      rw (find_answer, e, e') round
]

-- The two loops, for `k` questions and `c` answers.
abbrev pub records : Bytes → (n k c : ℕ) → Option Answer
records p n k c = elim (skip_questions k p n 12) [
  | none ↦ none
  | some offset ↦ find_answer c p n offset
]

-- The checks before them.
abbrev pub checked : (n expected_txid txid flags : ℕ) → Option Answer → Option Answer
checked n expected_txid txid flags found =
    if ltb n 12
    then none
    else if not (txid == expected_txid)
    then none
    else if flags / 0x8000 % 2 == 0
    then none
    else if not (flags % 16 == 0)
    then none
    else found

records-Agree :
    (p p' : Bytes) (n k c : ℕ) → Agree n p p' → n < 2 ^ 32 → records p n k c ≡ records p' n k c
records-Agree p p' n k c a w = elim (Option-cases (skip_questions k p n 12)) [
  | inl e ↦
      let e' : skip_questions k p' n 12 ≡ none = (sym (skip_questions-Agree k n p p' 12 a) ∙ e) in
      rw (records, e, e') refl
  | inr (x, e) ↦
      let e' : skip_questions k p' n 12 ≡ some x = (sym (skip_questions-Agree k n p p' 12 a) ∙ e) in
      rw (records, e, e') (find_answer-Agree c n p p' x a w)
]

-- The result of `dns_parse_response_a` depends on the bytes of the packet only: on two packets of a
-- common length below 2^32 with the same bytes before their end it is the same, whatever follows
-- them in memory.
pub parse_response_a-Agree :
    (p p' : Bytes) (n expected_txid : ℕ)
    → n < 2 ^ 32
    → Agree n p p'
    → parse_response_a p n expected_txid ≡ parse_response_a p' n expected_txid
unfolding parse_response_a
parse_response_a-Agree p p' n txid w a = elim (Bool-cases (ltb n 12)) [
  | inl e ↦ rw e refl
  | inr e ↦
      let fits = ltb→ge n 12 e in
      let r0 = read_be16-Agree n p p' 0 a (omega (arith, fits)) in
      let r2 = read_be16-Agree n p p' 2 a (omega (arith, fits)) in
      let r4 = read_be16-Agree n p p' 4 a (omega (arith, fits)) in
      let r6 = read_be16-Agree n p p' 6 a (omega (arith, fits)) in
      let heads =
        ap₂ (λ (t g : ℕ). checked n txid t g (records p n (read_be16 p 4) (read_be16 p 6))) r0 r2 in
      let counts =
        ap₂ (λ (k c : ℕ). checked n txid (read_be16 p' 0) (read_be16 p' 2) (records p n k c)) r4
          r6 in
      let bodies =
        ap (checked n txid (read_be16 p' 0) (read_be16 p' 2))
          (records-Agree p p' n (read_be16 p' 4) (read_be16 p' 6) a w) in
      heads ∙ counts ∙ bodies
]
