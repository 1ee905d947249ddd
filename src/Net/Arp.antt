-- ===== src/Net/Arp.antt =====
-- The ARP cache of src/kernel/net/net_utils.c. `now` and `frequency` are what `pit_get_ticks` and
-- `pit_get_frequency` return; no argument is a null pointer.
pub mod Search
pub mod Lookup
use szczupak_os.Base.{
  ℕ, zero, suc, ◌+◌, ◌-◌, ◌*◌, ◌/◌, ◌%◌, ◌^◌, ◌≤◌, ◌<◌, min, ◌≡◌, refl, sym, ap, ap₂, ◌∙◌, subst,
  ◌≢◌, ◌↔◌, ◌⊎◌, inl, inr, Bool, true, false, not, ◌&&◌, ◌||◌, Option, none, some, List, [], ◌∷◌,
  ◌++◌, arith, ltb, leb, ◌==◌, if◌then◌else◌, ltb→lt, ltb→ge, lt→ltb, ge→ltb, leb→le, leb→gt,
  le→leb, gt→leb, ==→eq, ==→ne, eq→==, ne→==, tests, Bool-cases, Option-cases, if_elim, some_inj,
  length, take, drop, get_or, length-append, length-take, take_nil, take_cons, take_zero, take_all,
  drop_nil, take-min, All, update, slice, update_self, update_ne, slice_eq, add16, add32, sub32,
  add64, sub64, mul64, page_size, align_down, align_up,
}
use szczupak_os.Net.Bytes.{Ip, ip_is_zero, ip_equal}

-- `uint8_t mac[6]`
pub record Mac : Type 0 where
  pub m0 : ℕ
  pub m1 : ℕ
  pub m2 : ℕ
  pub m3 : ℕ
  pub m4 : ℕ
  pub m5 : ℕ

-- The loop of `mac_is_broadcast` and of `mac_is_zero`: whether each byte is `x`.
abbrev pub mac_all : ℕ → Mac → Bool
mac_all x m = m.m0 == x && m.m1 == x && m.m2 == x && m.m3 == x && m.m4 == x && m.m5 == x

unfoldable pub mac_is_broadcast : Mac → Bool
mac_is_broadcast m = mac_all 0xFF m

unfoldable pub mac_is_zero : Mac → Bool
mac_is_zero m = mac_all 0 m

-- `ARP_CACHE_SIZE`
abbrev pub cache_size : ℕ
cache_size = 16

-- `arp_cache_entry_t`
pub record Entry : Type 0 where
  pub valid : Bool
  pub ip : Ip
  pub mac : Mac
  pub updated_at : ℕ

-- `g_arp_cache`, and the counters of `g_net_stats` that belong to it
pub record Arp : Type 0 where
  pub cache : ℕ → Entry
  pub hits : ℕ
  pub misses : ℕ

-- `arp_cache_ttl_ticks`
abbrev pub ttl_ticks : ℕ → ℕ
ttl_ticks frequency = if frequency == 0 then 0 else mul64 frequency 120

-- Whether an entry is older than `ttl`.
abbrev pub is_stale : (now ttl : ℕ) → Entry → Bool
is_stale now ttl e = ltb ttl (sub64 now e.updated_at)

-- The loop of `arp_cache_expire_stale`, at slot `i` with `n` left.
pub expire_loop : (n i now ttl : ℕ) → (ℕ → Entry) → ℕ → Entry
expire_loop zero i now ttl c = c
expire_loop (suc n) i now ttl c = expire_loop n (i + 1) now ttl (
    if (c i).valid
    then if is_stale now ttl (c i) then update c i (record (c i) { valid = false }) else c
    else c)

-- `arp_cache_expire_stale`
pub expire_stale : (now frequency : ℕ) → (ℕ → Entry) → ℕ → Entry
expire_stale now frequency c =
    if ttl_ticks frequency == 0 then c else expire_loop cache_size 0 now (ttl_ticks frequency) c

-- Whether an entry is valid and for `ip`.
abbrev pub matches : Ip → Entry → Bool
matches ip e = if e.valid then ip_equal e.ip ip else false

-- The loop of `arp_cache_lookup`.
pub find_loop : (n i : ℕ) → Ip → (ℕ → Entry) → Option Mac
find_loop zero i ip c = none
find_loop (suc n) i ip c =
    let rest = find_loop n (i + 1) ip c in if matches ip (c i) then some (c i).mac else rest

-- `arp_cache_lookup`: the option is `out_mac`.
pub lookup : (now frequency : ℕ) → Ip → Arp → Option Mac × Arp
lookup now frequency ip s =
    let c = expire_stale now frequency s.cache in
    (elim (find_loop cache_size 0 ip c) [
      | some m ↦ (some m, record s { cache = c; hits = add64 s.hits 1 })
      | none ↦ (none, record s { cache = c; misses = add64 s.misses 1 })
    ])

-- What the loop of `arp_cache_update` finds: the entry of the address, or a slot to use.
pub data Scan : Type 0 where
  present : ℕ → Scan
  absent : (free_slot : Option ℕ) (replace_slot : ℕ) → Scan

-- That loop, with its variables `free_slot` (`none` for -1), `replace_slot` and `oldest_tick`.
pub scan_loop : (n i : ℕ) → Ip → (free : Option ℕ) (replace oldest : ℕ) → (ℕ → Entry) → Scan
scan_loop zero i ip free replace oldest c = absent free replace
scan_loop (suc n) i ip free replace oldest c =
    let older = (c i).valid && ltb (c i).updated_at oldest in
    let free' = if (c i).valid then free else elim free [ none ↦ some i | some j ↦ some j ] in
    let rest =
      scan_loop n (i + 1) ip free' (if older then i else replace)
        (if older then (c i).updated_at else oldest) c in
    if matches ip (c i) then present i else rest

-- The writes that follow the loop.
pub store : (now : ℕ) → Ip → Mac → Scan → (ℕ → Entry) → ℕ → Entry
store now ip mac (present i) c = update c i (record (c i) { mac = mac; updated_at = now })
store now ip mac (absent (some i) replace) c =
    update c i (record { valid = true; ip = ip; mac = mac; updated_at = now })
store now ip mac (absent none replace) c =
    update c replace (record { valid = true; ip = ip; mac = mac; updated_at = now })

-- `arp_cache_update`
pub cache_update : (now : ℕ) → Ip → Mac → (ℕ → Entry) → ℕ → Entry
cache_update now ip mac c =
    if ip_is_zero ip || (mac_is_zero mac || mac_is_broadcast mac)
    then c
    else store now ip mac (scan_loop cache_size 0 ip none 0 (2 ^ 64 - 1) c) c

-- `arp_cache_clear`: each entry is all zero bytes.
pub cache_clear : (ℕ → Entry) → ℕ → Entry
cache_clear c i = record {
  valid = false;
  ip = record { a = 0; b = 0; c = 0; d = 0 };
  mac = record { m0 = 0; m1 = 0; m2 = 0; m3 = 0; m4 = 0; m5 = 0 };
  updated_at = 0;
}
