-- ===== src/Net/Dns.antt =====
-- Names and answers of src/kernel/net/net_dns.c. A C string is the list of its bytes before the
-- NUL, a packet its memory and length; no argument is a null pointer.
pub mod Encode
pub mod Parse
pub mod Response
use szczupak_os.Base.{
  ℕ, zero, suc, ◌+◌, ◌-◌, ◌*◌, ◌/◌, ◌%◌, ◌^◌, ◌≤◌, ◌<◌, min, ◌≡◌, refl, sym, ap, ap₂, ◌∙◌, subst,
  ◌≢◌, ◌↔◌, ◌⊎◌, inl, inr, Bool, true, false, not, ◌&&◌, ◌||◌, Option, none, some, List, [], ◌∷◌,
  ◌++◌, arith, ltb, leb, ◌==◌, if◌then◌else◌, ltb→lt, ltb→ge, lt→ltb, ge→ltb, leb→le, leb→gt,
  le→leb, gt→leb, ==→eq, ==→ne, eq→==, ne→==, tests, Bool-cases, Option-cases, if_elim, some_inj,
  length, take, drop, get_or, length-append, length-take, take_nil, take_cons, take_zero, take_all,
  drop_nil, take-min, All, update, slice, update_self, update_ne, slice_eq, add16, add32, sub32,
  add64, sub64, mul64, page_size, align_down, align_up,
}
use szczupak_os.Net.Bytes.{Bytes, Ip, read_be16, read_be32}

-- `DNS_MAX_HOSTNAME_LEN`
abbrev pub max_hostname_len : ℕ
max_hostname_len = 253

-- The characters of a label.
abbrev pub is_label_char : ℕ → Bool
is_label_char c =
    (leb b'a' c && leb c b'z')
    || ((leb b'A' c && leb c b'Z') || ((leb b'0' c && leb c b'9') || (c == b'-')))

-- The loop of `dns_validate_hostname` over the bytes left.
unfoldable pub validate_loop : List ℕ → (total_len label_len : ℕ) → Bool
validate_loop [] total label =
    if total == 0 || label == 0
    then false
    else if ltb 63 label
    then false
    else leb total max_hostname_len
validate_loop (c ∷ cs) total label =
    let label' = if c == b'.' then 0 else label + 1 in
    let rest = validate_loop cs (total + 1) label' in
    if c == b'.'
    then if label == 0 || ltb 63 label
      then false
      else if ltb max_hostname_len (total + 1)
      then false
      else rest
    else if not (is_label_char c)
    then false
    else if ltb 63 (label + 1)
    then false
    else if ltb max_hostname_len (total + 1)
    then false
    else rest

-- `dns_validate_hostname`
unfoldable pub validate_hostname : List ℕ → Bool
validate_hostname host = validate_loop host 0 0

-- The body of the loop of `dns_encode_qname` at a separator: `label` is what stands between it and
-- the one before.
unfoldable pub put_label : (capacity : ℕ) → (label out : List ℕ) → Option (List ℕ)
put_label capacity label out =
    if length label == 0 || ltb 63 (length label)
    then none
    else if leb capacity (length out + 1 + length label)
    then none
    else some (out ++ length label ∷ label)

-- The zero byte behind the loop.
unfoldable pub put_end : (capacity : ℕ) → List ℕ → Option (List ℕ)
put_end capacity out = if leb capacity (length out) then none else some (out ++ 0 ∷ [])

-- The loop over the bytes left, the NUL included; `out` is what is written so far.
unfoldable pub encode_loop : (capacity : ℕ) → (rest label out : List ℕ) → Option (List ℕ)
encode_loop capacity [] label out = elim (put_label capacity label out) [
  | none ↦ none
  | some out' ↦ put_end capacity out'
]
encode_loop capacity (c ∷ cs) label out =
    if c == b'.'
    then (elim (put_label capacity label out) [
      | none ↦ none
      | some out' ↦ encode_loop capacity cs [] out'
    ])
    else encode_loop capacity cs (label ++ c ∷ []) out

-- `dns_encode_qname`: the bytes written, or failure.
unfoldable pub encode_qname : (host : List ℕ) (capacity : ℕ) → Option (List ℕ)
encode_qname host capacity =
    if validate_hostname host then encode_loop capacity host [] [] else none

-- One round of the loop of `dns_skip_name` at `offset`, going on by `next`. The two high bits of a
-- length are its quotient by 64.
unfoldable pub skip_label : Bytes → (packet_length offset : ℕ) → (ℕ → Option ℕ) → Option ℕ
skip_label p n offset next =
    if not (ltb offset n)
    then none
    else if p offset == 0
    then some (add64 offset 1)
    else if p offset / 64 == 3
    then if leb n (add64 offset 1) then none else some (add64 offset 2)
    else if not (p offset / 64 == 0) || ltb 63 (p offset)
    then none
    else if ltb n (add64 (add64 offset 1) (p offset))
    then none
    else next (add64 (add64 offset 1) (p offset))

-- That loop when `left` more labels are allowed, where `labels` is 128 less `left`.
unfoldable pub skip_loop : (left : ℕ) → Bytes → (packet_length offset : ℕ) → Option ℕ
skip_loop zero p n offset = skip_label p n offset (λ _. none)
skip_loop (suc left) p n offset = skip_label p n offset (skip_loop left p n)

-- `dns_skip_name`: the offset behind the name, or failure.
unfoldable pub skip_name : Bytes → (packet_length offset : ℕ) → Option ℕ
skip_name p n offset = skip_loop 128 p n offset

-- The loop over the questions, with `k` left.
unfoldable pub skip_questions : (k : ℕ) → Bytes → (packet_length offset : ℕ) → Option ℕ
skip_questions zero p n offset = some offset
skip_questions (suc k) p n offset = elim (skip_name p n offset) [
  | none ↦ none
  | some o ↦
      (let rest = skip_questions k p n (add64 o 4) in if ltb n (add64 o 4) then none else rest)
]

-- The address and the time to live of an answer.
pub record Answer : Type 0 where
  pub ip : Ip
  pub ttl : ℕ

abbrev pub ip_at : Bytes → ℕ → Ip
ip_at p o = record { a = p o; b = p (o + 1); c = p (o + 2); d = p (o + 3) }

-- The loop over the answers, with `k` left.
unfoldable pub find_answer : (k : ℕ) → Bytes → (packet_length offset : ℕ) → Option Answer
find_answer zero p n offset = none
find_answer (suc k) p n offset = elim (skip_name p n offset) [
  | none ↦ none
  | some o ↦
      (let body = add64 o 10 in
        let rdlength = read_be16 p (o + 8) in
        let rest = find_answer k p n (add64 body rdlength) in
        if ltb n body
        then none
        else if ltb n (add64 body rdlength)
        then none
        else if read_be16 p o == 1 && (read_be16 p (o + 2) == 1 && rdlength == 4)
        then some (record { ip = ip_at p body; ttl = read_be32 p (o + 4) })
        else rest)
]

-- `dns_parse_response_a`
unfoldable pub parse_response_a : Bytes → (packet_length expected_txid : ℕ) → Option Answer
parse_response_a p n expected_txid =
    if ltb n 12
    then none
    else if not (read_be16 p 0 == expected_txid)
    then none
    else if read_be16 p 2 / 0x8000 % 2 == 0
    then none
    else if not (read_be16 p 2 % 16 == 0)
    then none
    else (elim (skip_questions (read_be16 p 4) p n 12) [
      | none ↦ none
      | some offset ↦ find_answer (read_be16 p 6) p n offset
    ])
