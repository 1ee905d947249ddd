-- ===== src/Net/Dns/Response.antt =====
-- What `dns_parse_response_a` of src/kernel/net/net_dns.c takes for an answer.
use szczupak_os.Base.{
  ◌⊎◌, ℕ, zero, suc, ◌+◌, ◌/◌, ◌%◌, ◌^◌, ◌≤◌, ◌<◌, ◌≡◌, sym, ap, ◌∙◌, inl, inr, ◌&&◌, Option, none,
  some, arith, ltb, ◌==◌, ltb→ge, Bool-cases, Option-cases, add64,
}
use szczupak_os.Net.Bytes.{Bytes, read_be16, read_be32}
use szczupak_os.Net.Dns.{ip_at, Answer, skip_name, find_answer, parse_response_a, skip_questions}
use szczupak_os.Net.Dns.Parse.{
  records, checked, parse_response_a-Agree, Agree, skip_name-le, answer_at,
}

-- The answer is that of a record of type A and class IN, which lies in the packet whole.
pub record IsRecord (p : Bytes) (n : ℕ) (a : Answer) : Type 0 where
  pub at : ℕ
  pub inside : at + 14 ≤ n
  pub address_type : read_be16 p at ≡ 1
  pub internet_class : read_be16 p (at + 2) ≡ 1
  pub four_bytes : read_be16 p (at + 8) ≡ 4
  pub same : a ≡ record { ip = ip_at p (at + 10); ttl = read_be32 p (at + 4) }

-- A round of the loop over the answers, `K` being the later rounds.
answer_at-IsRecord :
    (n x : ℕ) (p : Bytes) (K : ℕ → Option Answer) (a : Answer)
    → n < 2 ^ 32
    → x ≤ n
    → ((y : ℕ) → K y ≡ some a → IsRecord p n a)
    → answer_at p n x K ≡ some a
    → IsRecord p n a
answer_at-IsRecord n x p K a w small later h = elim (Bool-cases (ltb n (add64 x 10))) [
  | inl e ↦ absurd (let none_some : none ≡ some a = rw e at h in cc)
  | inr e ↦
      let h1 = rw e at h in
      let body : x + 10 ≤ n = omega (arith, small, w, ltb→ge n (add64 x 10) e) in
      let r = read_be16 p (x + 8) in
      elim (Bool-cases (ltb n (add64 (add64 x 10) r))) [
        | inl e' ↦ absurd (let none_some : none ≡ some a = rw e' at h1 in cc)
        | inr e' ↦
            let h2 = rw e' at h1 in
            elim (Bool-cases (read_be16 p x == 1 && (read_be16 p (x + 2) == 1 && r == 4))) [
              | inr other ↦ later _ (rw other at h2)
              | inl this ↦
                  let found : some (record { ip = ip_at p (add64 x 10); ttl = read_be32 p (x + 4) })
                      ≡ some a =
                    rw this at h2 in
                  let (address, internet, four) : (read_be16 p x ≡ 1)
                      × (read_be16 p (x + 2) ≡ 1)
                      × (r ≡ 4) =
                    ground arith in
                  let place : add64 x 10 ≡ x + 10 = omega (arith, body, w) in
                  let end = ltb→ge n (add64 (add64 x 10) r) e' in
                  let answer : record { ip = ip_at p (add64 x 10); ttl = read_be32 p (x + 4) } ≡ a =
                    cc in
                  record {
                    at = x;
                    inside = omega (arith, body, w, place, four, end);
                    address_type = address;
                    internet_class = internet;
                    four_bytes = four;
                    same =
                        sym answer
                        ∙ ap (λ o. record { ip = ip_at p o; ttl = read_be32 p (x + 4) }) place;
                  }
            ]
      ]
]

pub find_answer-IsRecord :
    (k n : ℕ) (p : Bytes) (o : ℕ) (a : Answer)
    → n < 2 ^ 32
    → find_answer k p n o ≡ some a
    → IsRecord p n a
unfolding find_answer
find_answer-IsRecord zero n p o a w h = absurd (let none_some : none ≡ some a = h in cc)
find_answer-IsRecord (suc k) n p o a w h = elim (Option-cases (skip_name p n o)) [
  | inl e ↦ absurd (let none_some : none ≡ some a = rw (find_answer, e) at h in cc)
  | inr (x, e) ↦
      answer_at-IsRecord n x p (find_answer k p n) a w (skip_name-le n p o w e)
        (λ y q. find_answer-IsRecord k n p y a w q) (rw (find_answer, e) at h)
]

-- The packet answers query `txid` without an error, and the answer is one of its records.
pub record IsReply (p : Bytes) (n txid : ℕ) (a : Answer) : Type 0 where
  pub whole : 12 ≤ n
  pub id : read_be16 p 0 ≡ txid
  pub response : read_be16 p 2 / 0x8000 % 2 ≡ 1
  pub no_error : read_be16 p 2 % 16 ≡ 0
  pub from : IsRecord p n a

records-IsRecord :
    (p : Bytes) (n k c : ℕ) (a : Answer) → n < 2 ^ 32 → records p n k c ≡ some a → IsRecord p n a
records-IsRecord p n k c a w h = elim (Option-cases (skip_questions k p n 12)) [
  | inl e ↦ absurd (let none_some : none ≡ some a = rw (records, e) at h in cc)
  | inr (x, e) ↦ find_answer-IsRecord c n p x a w (rw (records, e) at h)
]

checked-some :
    (n expected_txid txid flags : ℕ) (found : Option Answer) (a : Answer)
    → checked n expected_txid txid flags found ≡ some a
    → (12 ≤ n)
      × (txid ≡ expected_txid)
      × (flags / 0x8000 % 2 ≡ 1)
      × (flags % 16 ≡ 0)
      × (found ≡ some a)
checked-some n expected_txid txid flags found a h = ground arith

parse_response_a-some :
    (p : Bytes) (n txid : ℕ) (a : Answer)
    → n < 2 ^ 32
    → parse_response_a p n txid ≡ some a
    → IsReply p n txid a
unfolding parse_response_a
parse_response_a-some p n txid a w h =
    let (whole, id, response, no_error, found) =
      checked-some n txid (read_be16 p 0) (read_be16 p 2)
        (records p n (read_be16 p 4) (read_be16 p 6)) a h in
    record {
      whole = whole;
      id = id;
      response = response;
      no_error = no_error;
      from = records-IsRecord p n (read_be16 p 4) (read_be16 p 6) a w found;
    }

-- On a packet of less than 2^32 bytes, `dns_parse_response_a` fails, or it gives the address and the
-- time to live of a record of type A, class IN and four bytes of data, which lies inside of the
-- packet whole; then the packet has its header, the number of the query, the response bit and no
-- error code. The result depends on the bytes of the packet only: on a packet of the same length
-- with the same bytes before the end it is the same, whatever follows them in memory.
pub parse_response_a-IsReply :
    (p p' : Bytes) (n expected_txid : ℕ)
    → n < 2 ^ 32
    → Agree n p p'
    → (parse_response_a p n expected_txid ≡ parse_response_a p' n expected_txid)
      × ((parse_response_a p n expected_txid ≡ none)
          ⊎ ((a : Answer) × (parse_response_a p n expected_txid ≡ some a)
              × IsReply p n expected_txid a))
parse_response_a-IsReply p p' n txid w agree = (
  parse_response_a-Agree p p' n txid w agree,
  elim (Option-cases (parse_response_a p n txid)) [
    | inl e ↦ inl e
    | inr (a, e) ↦ inr (a, e, parse_response_a-some p n txid a w e)
  ],
)
