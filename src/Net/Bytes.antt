-- ===== src/Net/Bytes.antt =====
-- Byte order and addresses: the conversions of src/kernel/net/net_utils.c. The operands of each `|`
-- have no bit in common, so it is written as a sum.
use szczupak_os.Base.{
  ℕ, ◌+◌, ◌*◌, ◌/◌, ◌%◌, ◌^◌, ◌<◌, ◌≡◌, ◌↔◌, Bool, true, ◌&&◌, arith, ◌==◌, update,
}

-- Memory from a pointer on.
abbrev pub Bytes : Type 0
Bytes = ℕ → ℕ

-- `uint8_t ip[4]`
pub record Ip : Type 0 where
  pub a : ℕ
  pub b : ℕ
  pub c : ℕ
  pub d : ℕ

-- Each part is a byte.
abbrev pub IsIp : Ip → Type 0
IsIp x = (x.a < 256) × (x.b < 256) × (x.c < 256) × (x.d < 256)

pub bswap16 : ℕ → ℕ
bswap16 v = (v * 256 + v / 256) % 2 ^ 16

pub bswap32 : ℕ → ℕ
bswap32 v = v % 256 * 2 ^ 24 + v / 256 % 256 * 2 ^ 16 + v / 2 ^ 16 % 256 * 2 ^ 8 + v / 2 ^ 24 % 256

abbrev pub htons : ℕ → ℕ
htons v = bswap16 v

abbrev pub ntohs : ℕ → ℕ
ntohs v = bswap16 v

abbrev pub htonl : ℕ → ℕ
htonl v = bswap32 v

abbrev pub ntohl : ℕ → ℕ
ntohl v = bswap32 v

unfoldable pub read_be16 : Bytes → ℕ → ℕ
read_be16 p i = p i * 256 + p (i + 1)

unfoldable pub read_be32 : Bytes → ℕ → ℕ
read_be32 p i = p i * 2 ^ 24 + p (i + 1) * 2 ^ 16 + p (i + 2) * 2 ^ 8 + p (i + 3)

unfoldable pub write_be16 : ℕ → ℕ → Bytes → Bytes
write_be16 i v p = update (update p i (v / 256 % 256)) (i + 1) (v % 256)

unfoldable pub write_be32 : ℕ → ℕ → Bytes → Bytes
write_be32 i v p =
    update
      (update (update (update p i (v / 2 ^ 24 % 256)) (i + 1) (v / 2 ^ 16 % 256)) (i + 2)
        (v / 256 % 256))
      (i + 3) (v % 256)

unfoldable pub ip_to_u32 : Ip → ℕ
ip_to_u32 x = x.a * 2 ^ 24 + x.b * 2 ^ 16 + x.c * 2 ^ 8 + x.d

unfoldable pub ip_from_u32 : ℕ → Ip
ip_from_u32 v = record {
  a = v / 2 ^ 24 % 256;
  b = v / 2 ^ 16 % 256;
  c = v / 2 ^ 8 % 256;
  d = v % 256;
}

unfoldable pub ip_is_broadcast : Ip → Bool
ip_is_broadcast x = x.a == 255 && x.b == 255 && x.c == 255 && x.d == 255

unfoldable pub ip_is_zero : Ip → Bool
ip_is_zero x = x.a == 0 && x.b == 0 && x.c == 0 && x.d == 0

-- `ip_equal`, and each `memcmp` of two addresses
unfoldable pub ip_equal : Ip → Ip → Bool
ip_equal x y = x.a == y.a && x.b == y.b && x.c == y.c && x.d == y.d

-- Swapping the bytes of a 16-bit or 32-bit word twice gives the word back, so what `net_htons` and
-- `net_htonl` write, `net_ntohs` and `net_ntohl` read.
pub bswap_involutive :
    ((v : ℕ) → v < 2 ^ 16 → ntohs (htons v) ≡ v) × ((v : ℕ) → v < 2 ^ 32 → ntohl (htonl v) ≡ v)
unfolding bswap16 bswap32
bswap_involutive = (λ v h. omega arith, λ v h. omega arith)

-- A word written in network byte order is read back, at any place of a packet.
pub read_be-write_be :
    (p : Bytes) (i v : ℕ)
    → (v < 2 ^ 16 → read_be16 (write_be16 i v p) i ≡ v)
      × (v < 2 ^ 32 → read_be32 (write_be32 i v p) i ≡ v)
unfolding read_be16 write_be16 read_be32 write_be32
read_be-write_be p i v = (λ h. ground arith, λ h. ground arith)

-- An address and its 32-bit word stand for each other, both ways.
pub ip_u32_inverse :
    ((x : Ip) → IsIp x → ip_from_u32 (ip_to_u32 x) ≡ x)
    × ((v : ℕ) → v < 2 ^ 32 → ip_to_u32 (ip_from_u32 v) ≡ v)
unfolding ip_to_u32 ip_from_u32
ip_u32_inverse = (λ x h. ground arith, λ v h. omega arith)

pub ip_equal_iff : (x y : Ip) → (ip_equal x y ≡ true) ↔ (x ≡ y)
unfolding ip_equal
ip_equal_iff x y = (λ h. ground arith, λ h. ground arith)
