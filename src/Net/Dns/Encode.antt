-- ===== src/Net/Dns/Encode.antt =====
-- What `dns_encode_qname` writes: the labels of the name in wire format, which `dns_skip_name` skips.
use szczupak_os.Base.{
  ℕ, zero, suc, ◌+◌, ◌*◌, ◌/◌, ◌^◌, ◌≤◌, ◌<◌, ◌≡◌, refl, sym, ap, ◌∙◌, subst, inl, inr, true,
  Option, some, List, [], ◌∷◌, ◌++◌, arith, ◌==◌, if◌then◌else◌, lt→ltb, ge→ltb, ==→eq, eq→==,
  ne→==, Bool-cases, Option-cases, length, length-append, All, add64,
}
use mathlib.Core.List.{append_assoc, append-nil}
use szczupak_os.Net.Bytes.{Bytes}
use szczupak_os.Net.Dns.{
  validate_loop, validate_hostname, put_label, put_end, encode_loop, encode_qname, skip_label,
  skip_loop, skip_name,
}

-- The labels joined by dots.
abbrev pub join_dots : List ℕ → List (List ℕ) → List ℕ
join_dots l [] = l
join_dots l (k ∷ ks) = l ++ b'.' ∷ join_dots k ks

-- The labels, each behind its length, and a zero byte.
abbrev pub wire : List (List ℕ) → List ℕ
wire [] = 0 ∷ []
wire (l ∷ ls) = (length l ∷ l) ++ wire ls

abbrev pub IsLabel : List ℕ → Type 0
IsLabel l = (0 < length l) × (length l ≤ 63)

put_label-eq_some :
    (capacity : ℕ) (label out : List ℕ) {r : List ℕ}
    → put_label capacity label out ≡ some r
    → IsLabel label × (r ≡ out ++ length label ∷ label) × (length out + 1 + length label < capacity)
unfolding put_label
put_label-eq_some capacity label out h = ground arith

put_end-eq_some :
    (capacity : ℕ) (out : List ℕ) {r : List ℕ}
    → put_end capacity out ≡ some r
    → (r ≡ out ++ 0 ∷ []) × (length out < capacity)
unfolding put_end
put_end-eq_some capacity out h = ground arith

-- What the loop has written when it succeeds: the labels of `label ++ rest`.
record Encoded (capacity : ℕ) (rest label out r : List ℕ) : Type 0 where
  first : List ℕ
  more : List (List ℕ)
  labels : All IsLabel (first ∷ more)
  name : label ++ rest ≡ join_dots first more
  written : r ≡ out ++ wire (first ∷ more)
  fits : length r ≤ capacity

encode_loop-Encoded :
    (capacity : ℕ) (rest label out : List ℕ) {r : List ℕ}
    → encode_loop capacity rest label out ≡ some r
    → Encoded capacity rest label out r
unfolding encode_loop
encode_loop-Encoded capacity [] label out {r} h =
    elim (Option-cases (put_label capacity label out)) [
      | inl e ↦ absurd (ground arith)
      | inr (out', e) ↦
          let put = put_label-eq_some capacity label out e in
          let end : put_end capacity out' ≡ some r = (sym (rw (e, encode_loop) refl) ∙ h) in
          let ended = put_end-eq_some capacity out' end in
          record {
            first = label;
            more = [];
            labels = (put.0, tt);
            name = append-nil label;
            written =
                ended.0
                ∙ ap (λ (x : List ℕ). x ++ 0 ∷ []) put.1
                ∙ append_assoc out (length label ∷ label) (0 ∷ []);
            fits =
                omega
                  (arith, ended.1, ap (length {A = ℕ}) ended.0, length-append {0} out' (0 ∷ []));
          }
    ]
encode_loop-Encoded capacity (c ∷ cs) label out {r} h = elim (Bool-cases (c == b'.')) [
  | inr other ↦
      let rest = encode_loop-Encoded capacity cs (label ++ c ∷ []) out (rw other at h) in
      record {
        first = rest.first;
        more = rest.more;
        labels = rest.labels;
        name = sym (append_assoc label (c ∷ []) cs) ∙ rest.name;
        written = rest.written;
        fits = rest.fits;
      }
  | inl dot ↦ elim (Option-cases (put_label capacity label out)) [
    | inl e ↦ absurd (ground arith)
    | inr (out', e) ↦
        let put = put_label-eq_some capacity label out e in
        let went_on : encode_loop capacity (c ∷ cs) label out ≡ encode_loop capacity cs [] out' =
          rw (dot, e, encode_loop) refl in
        let rest = encode_loop-Encoded capacity cs [] out' (sym went_on ∙ h) in
        let split : cs ≡ join_dots rest.first rest.more = rest.name in
        record {
          first = label;
          more = rest.first ∷ rest.more;
          labels = (put.0, rest.labels);
          name =
              ap (λ (x : ℕ). label ++ x ∷ cs) (==→eq c b'.' dot)
              ∙ ap (λ (x : List ℕ). label ++ b'.' ∷ x) split;
          written =
              rest.written
              ∙ ap (λ (x : List ℕ). x ++ wire (rest.first ∷ rest.more)) put.1
              ∙ append_assoc out (length label ∷ label) (wire (rest.first ∷ rest.more));
          fits = rest.fits;
        }
  ]
]

-- What `dns_encode_qname` writes for a name is its labels, each of 1 to 63 bytes and behind its
-- length, with a zero byte at the end, and it fits the buffer; the labels joined by dots are the
-- name.
pub encode_qname-wire :
    (host : List ℕ) (capacity : ℕ) (r : List ℕ)
    → encode_qname host capacity ≡ some r
    → (first : List ℕ) × (more : List (List ℕ)) × All IsLabel (first ∷ more)
      × (host ≡ join_dots first more)
      × (r ≡ wire (first ∷ more))
      × (length r ≤ capacity)
unfolding encode_qname
encode_qname-wire host capacity r h =
    let (valid, looped) : (validate_hostname host ≡ true)
        × (encode_loop capacity host [] [] ≡ some r) =
      ground arith in
    let e = encode_loop-Encoded capacity host [] [] looped in
    (e.first, e.more, e.labels, e.name, e.written, e.fits)

-- The packet `p` holds the bytes `xs` from offset `o` on.
abbrev pub Holds : Bytes → ℕ → List ℕ → Type 0
Holds p o [] = Unit
Holds p o (x ∷ xs) = (p o ≡ x) × Holds p (o + 1) xs

Holds-drop :
    (p : Bytes) (o : ℕ) (xs ys : List ℕ) → Holds p o (xs ++ ys) → Holds p (o + length xs) ys
Holds-drop p o [] ys h = subst (λ k. Holds p k ys) (omega arith) h
Holds-drop p o (x ∷ xs) ys h =
    subst (λ k. Holds p k ys) (omega arith) (Holds-drop p (o + 1) xs ys h.1)

-- One label is skipped.
skip_label_lem :
    (p : Bytes) (n o l : ℕ) (next : ℕ → Option ℕ)
    → p o ≡ l
    → 0 < l
    → l ≤ 63
    → o + 1 + l ≤ n
    → n < 2 ^ 32
    → skip_label p n o next ≡ next (o + 1 + l)
unfolding skip_label
skip_label_lem p n o l next e pos small h wide =
    let one : add64 o 1 ≡ o + 1 = omega arith in
    let end : add64 (o + 1) l ≡ o + 1 + l = omega arith in
    rw (
      e,
      lt→ltb o n (omega arith),
      ne→== l 0 (omega arith),
      ne→== (l / 64) 3 (omega arith),
      eq→== (l / 64) 0 (omega arith),
      ge→ltb 63 l small,
      one,
      end,
      ge→ltb n (o + 1 + l) h,
    )

skip_label_end :
    (p : Bytes) (n o : ℕ) (next : ℕ → Option ℕ)
    → p o ≡ 0
    → o < n
    → n < 2 ^ 32
    → skip_label p n o next ≡ some (o + 1)
unfolding skip_label
skip_label_end p n o next e h wide =
    let one : add64 o 1 ≡ o + 1 = omega arith in rw (e, lt→ltb o n h, one)

skip_loop-wire :
    (left : ℕ) (p : Bytes) (n o : ℕ) (ls : List (List ℕ))
    → All IsLabel ls
    → length ls ≤ left
    → Holds p o (wire ls)
    → o + length (wire ls) ≤ n
    → n < 2 ^ 32
    → skip_loop left p n o ≡ some (o + length (wire ls))
unfolding skip_loop
skip_loop-wire zero p n o [] a k h fits wide = skip_label_end p n o _ h.0 (omega arith) wide
skip_loop-wire (suc left) p n o [] a k h fits wide = skip_label_end p n o _ h.0 (omega arith) wide
skip_loop-wire zero p n o (l ∷ ls) a k h fits wide = absurd (omega arith)
skip_loop-wire (suc left) p n o (l ∷ ls) a k h fits wide =
    let parts = length-append {0} l (wire ls) in
    let rest =
      skip_loop-wire left p n (o + 1 + length l) ls a.1 (omega (arith, k))
        (Holds-drop p (o + 1) l (wire ls) h.1) (omega (arith, fits, parts)) wide in
    let end : o + 1 + length l + length (wire ls) ≡ o + length (wire (l ∷ ls)) =
      omega (arith, parts) in
    skip_label_lem p n o (length l) (skip_loop left p n) h.0 a.0.0 a.0.1
      (omega (arith, fits, parts)) wide
    ∙ rest
    ∙ ap (λ (x : ℕ). some x) end

length-wire :
    (l : List ℕ) (ls : List (List ℕ)) → length (wire (l ∷ ls)) ≡ length (join_dots l ls) + 2
length-wire l [] = omega (arith, length-append {0} l (0 ∷ []))
length-wire l (k ∷ ks) = omega (
  arith,
  length-append {0} l (wire (k ∷ ks)),
  length-append {0} l (b'.' ∷ join_dots k ks),
  length-wire k ks,
)

wire-labels : (ls : List (List ℕ)) → All IsLabel ls → 2 * length ls + 1 ≤ length (wire ls)
wire-labels [] a = omega arith
wire-labels (l ∷ ls) a =
    let pos : 0 < length l = a.0.0 in
    omega (arith, wire-labels ls a.1, length-append {0} l (wire ls), pos)

-- A name that is accepted is short.
validate_loop_short :
    (host : List ℕ) (total label : ℕ)
    → validate_loop host total label ≡ true
    → length host + total ≤ 253
unfolding validate_loop
validate_loop_short [] total label h = ground arith
validate_loop_short (c ∷ cs) total label h =
    let rest : validate_loop cs (total + 1) (if c == b'.' then 0 else label + 1) ≡ true =
      ground arith in
    omega (arith, validate_loop_short cs (total + 1) (if c == b'.' then 0 else label + 1) rest)

-- `dns_skip_name` steps exactly over what `dns_encode_qname` wrote: when a packet of less than 2^32
-- bytes holds the encoded name from `offset` on, the offset it returns is behind the name's last
-- byte.
pub skip_name-encode_qname :
    (host : List ℕ) (capacity : ℕ) (r : List ℕ) (p : Bytes) (n offset : ℕ)
    → encode_qname host capacity ≡ some r
    → Holds p offset r
    → offset + length r ≤ n
    → n < 2 ^ 32
    → skip_name p n offset ≡ some (offset + length r)
unfolding skip_name encode_qname validate_hostname
skip_name-encode_qname host capacity r p n offset h held fits wide =
    let (valid, _) : (validate_hostname host ≡ true) × (encode_loop capacity host [] [] ≡ some r) =
      ground arith in
    let (first, more, labels, name, written, _) = encode_qname-wire host capacity r h in
    let short = validate_loop_short host 0 0 valid in
    let same = ap (length {A = ℕ}) name in
    let few : length (first ∷ more) ≤ 128 =
      omega (arith, wire-labels (first ∷ more) labels, length-wire first more, short, same) in
    let size : length r ≡ length (wire (first ∷ more)) = ap (length {A = ℕ}) written in
    skip_loop-wire 128 p n offset (first ∷ more) labels few
      (subst (λ x. Holds p offset x) written held) (omega (arith, size, fits)) wide
    ∙ ap (λ (x : ℕ). some (offset + x)) (sym size)
