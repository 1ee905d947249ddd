-- ===== src/Net/Tests.antt =====
-- The theorems about src/kernel/net/net_utils.c and net_dns.c on small packets, and runs of the code.
use szczupak_os.Net.Dns.Response.{parse_response_a-IsReply, IsReply}
use szczupak_os.Net.Arp.Lookup.{lookup-cache_update}
use szczupak_os.Net.Dns.Encode.{skip_name-encode_qname}
use szczupak_os.Net.Dns.{
  Answer, skip_label, skip_loop, find_answer, skip_questions, parse_response_a, put_end, put_label,
  encode_loop, validate_loop, validate_hostname, skip_name, encode_qname,
}
use szczupak_os.Net.Checksum.Verify.{ipv4_checksum_zero_iff, word_sum, IsByte}
use szczupak_os.Net.Checksum.{add_bytes, fold_loop, finalize, ipv4_checksum}
use szczupak_os.Net.Arp.{mac_is_broadcast, mac_is_zero, cache_update, lookup, Mac, Arp}
use szczupak_os.Base.{
  ◌⊎◌, zero, suc, ℕ, ◌-◌, ◌%◌, ◌<◌, ◌≡◌, refl, ◌↔◌, true, none, some, List, [], ◌∷◌, ◌++◌, arith,
  length, get_or, All,
}
use szczupak_os.Net.Bytes.{ip_is_zero, Bytes, Ip, read_be16, read_be32}

-- A header's bytes before and behind its checksum field.
abbrev pre : List ℕ
pre = 0x45 ∷ 0 ∷ 0 ∷ 20 ∷ 0 ∷ 1 ∷ 0 ∷ 0 ∷ 64 ∷ 17 ∷ []

abbrev post : List ℕ
post = 10 ∷ 0 ∷ 2 ∷ 15 ∷ 10 ∷ 0 ∷ 2 ∷ 2 ∷ []

pre_bytes : All IsByte pre
pre_bytes = ground arith

post_bytes : All IsByte post
post_bytes = ground arith

-- A correct header: its checksum is zero.
whole_bytes : All IsByte (pre ++ 0x62 ∷ 0xC8 ∷ post)
whole_bytes = ground arith

ipv4_checksum_zero_iff_example : (ipv4_checksum (pre ++ 0x62 ∷ 0xC8 ∷ post) ≡ 0) ↔ (
    (0 < word_sum (pre ++ 0x62 ∷ 0xC8 ∷ post)) × (word_sum (pre ++ 0x62 ∷ 0xC8 ∷ post) % 65535 ≡ 0))
ipv4_checksum_zero_iff_example =
    ipv4_checksum_zero_iff (pre ++ 0x62 ∷ 0xC8 ∷ post) whole_bytes (omega arith)

ipv4_run : ipv4_checksum (pre ++ 0 ∷ 0 ∷ post) ≡ 0x62C8
unfolding ipv4_checksum finalize fold_loop add_bytes
ipv4_run = refl

-- An ARP cache whose slots all hold another address.
abbrev gateway : Ip
gateway = record { a = 10; b = 0; c = 2; d = 2 }

abbrev other : Ip
other = record { a = 10; b = 0; c = 2; d = 9 }

abbrev card : Mac
card = record { m0 = 0x52; m1 = 0x54; m2 = 0; m3 = 0x12; m4 = 0x34; m5 = 0x56 }

abbrev full : Arp
full = record {
  cache = λ i. record { valid = true; ip = other; mac = card; updated_at = 100 - i };
  hits = 0;
  misses = 0;
}

lookup-cache_update_example :
    (lookup 1200 100 gateway (record full { cache = cache_update 1000 gateway card full.cache })).0
    ≡ some card
unfolding ip_is_zero mac_is_zero mac_is_broadcast
lookup-cache_update_example =
    lookup-cache_update 1000 1200 100 gateway card full refl refl refl (omega arith) (omega arith)
      (omega arith)

-- `a.bc`
abbrev host : List ℕ
host = b'a' ∷ b'.' ∷ b'b' ∷ b'c' ∷ []

abbrev encoded : List ℕ
encoded = 1 ∷ b'a' ∷ 2 ∷ b'b' ∷ b'c' ∷ 0 ∷ []

encode_host : encode_qname host 64 ≡ some encoded
unfolding encode_qname validate_hostname validate_loop encode_loop put_label put_end
encode_host = refl

encode_small : encode_qname host 5 ≡ none
unfolding encode_qname validate_hostname validate_loop encode_loop put_label put_end
encode_small = refl

encode_empty_label : encode_qname (b'a' ∷ b'.' ∷ b'.' ∷ b'b' ∷ []) 64 ≡ none
unfolding encode_qname validate_hostname validate_loop encode_loop put_label put_end
encode_empty_label = refl

-- A packet with the name at offset 12, each byte the next of the list.
abbrev packet : Bytes
packet i = get_or encoded (i - 12) 0

skip_name-encode_qname_example : skip_name packet 30 12 ≡ some 18
skip_name-encode_qname_example =
    skip_name-encode_qname host 64 encoded packet 30 12 encode_host
      (refl, (refl, (refl, (refl, (refl, (refl, tt)))))) (omega arith) (omega arith)

-- An answer to query 7: one record, of type A, for the root name.
abbrev reply : List ℕ
reply =
    0 ∷ 7 ∷ 0x81 ∷ 0x80 ∷ 0 ∷ 0 ∷ 0 ∷ 1 ∷ 0 ∷ 0 ∷ 0 ∷ 0 ∷ 0 ∷ 0 ∷ 1 ∷ 0 ∷ 1 ∷ 0 ∷ 0 ∷ 1 ∷ 0 ∷ 0 ∷ 4
    ∷ 10 ∷ 0 ∷ 2 ∷ 2 ∷ []

-- It, with other bytes behind it.
abbrev memory_of : ℕ → Bytes
memory_of x i = get_or reply i x

get_or_inside : (xs : List ℕ) (i x y : ℕ) → i < length xs → get_or xs i x ≡ get_or xs i y
get_or_inside [] i x y h = absurd (omega (arith, h))
get_or_inside (z ∷ zs) zero x y h = refl
get_or_inside (z ∷ zs) (suc i) x y h = get_or_inside zs i x y (omega (arith, h))

parse_reply : parse_response_a (memory_of 0) 27 7 ≡ some (record { ip = gateway; ttl = 256 })
unfolding parse_response_a skip_questions find_answer skip_name skip_loop skip_label read_be16
    read_be32
parse_reply = refl

parse_response_a-IsReply_example :
    (parse_response_a (memory_of 0) 27 7 ≡ parse_response_a (memory_of 255) 27 7)
    × ((parse_response_a (memory_of 0) 27 7 ≡ none)
        ⊎ ((a : Answer) × (parse_response_a (memory_of 0) 27 7 ≡ some a)
            × IsReply (memory_of 0) 27 7 a))
parse_response_a-IsReply_example =
    parse_response_a-IsReply (memory_of 0) (memory_of 255) 27 7 (omega arith)
      (λ i h. get_or_inside reply i 0 255 h)
