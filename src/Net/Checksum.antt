-- ===== src/Net/Checksum.antt =====
-- The Internet checksum of src/kernel/net/net_utils.c, over the list of the bytes summed.
pub mod Verify
use szczupak_os.Base.{
  length-append, ap, ◌≢◌, ◌∙◌, ◌⊎◌, ◌↔◌, ◌++◌, ℕ, zero, suc, ◌+◌, ◌-◌, ◌*◌, ◌/◌, ◌%◌, ◌^◌, ◌≤◌, ◌<◌,
  ◌≡◌, refl, subst, inl, inr, List, [], ◌∷◌, arith, ◌==◌, if◌then◌else◌, ==→eq, ==→ne, eq→==,
  Bool-cases, length, All, add32,
}

-- `checksum_add_bytes`
unfoldable pub add_bytes : ℕ → List ℕ → ℕ
add_bytes sum [] = sum
add_bytes sum (x ∷ []) = add32 sum (x * 256)
add_bytes sum (x ∷ y ∷ xs) = add_bytes (add32 sum (x * 256 + y)) xs

-- The loop of `checksum_finalize`, on fuel.
unfoldable pub fold_loop : ℕ → ℕ → ℕ
fold_loop zero sum = sum
fold_loop (suc fuel) sum =
    let rest = fold_loop fuel (add32 (sum % 2 ^ 16) (sum / 2 ^ 16)) in
    if sum / 2 ^ 16 == 0 then sum else rest

-- Two rounds bring any 32-bit sum below 2 ^ 16.
abbrev pub fold_fuel : ℕ
fold_fuel = 3

-- `checksum_finalize`
unfoldable pub finalize : ℕ → ℕ
finalize sum = 65535 - fold_loop fold_fuel sum % 2 ^ 16

-- `ipv4_checksum`
unfoldable pub ipv4_checksum : List ℕ → ℕ
ipv4_checksum header = finalize (add_bytes 0 header)

-- The pseudo header of a transport protocol, summed.
abbrev pub pseudo_sum : (src dst protocol len : ℕ) → ℕ
pseudo_sum src dst protocol len =
    add32
      (add32
        (add32 (add32 (add32 (src / 2 ^ 16 % 2 ^ 16) (src % 2 ^ 16)) (dst / 2 ^ 16 % 2 ^ 16))
          (dst % 2 ^ 16))
        protocol)
      len

-- `udp_checksum`: the length is that of the packet.
pub udp_checksum : (src dst : ℕ) → List ℕ → ℕ
udp_checksum src dst packet =
    let result = finalize (add_bytes (pseudo_sum src dst 17 (length packet)) packet) in
    if result == 0 then 0xFFFF else result

-- `tcp_checksum`
pub tcp_checksum : (src dst : ℕ) → List ℕ → ℕ
tcp_checksum src dst packet = finalize (add_bytes (pseudo_sum src dst 6 (length packet)) packet)
