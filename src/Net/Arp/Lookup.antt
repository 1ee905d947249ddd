-- ===== src/Net/Arp/Lookup.antt =====
-- What the ARP cache answers after an update.
use szczupak_os.Base.{
  add64, ap, lt→ltb, ge→ltb, update_ne, sub64, le→leb, ◌-◌, update_self, ◌^◌, ℕ, zero, suc, ◌+◌,
  ◌≤◌, ◌<◌, ◌≡◌, refl, ◌∙◌, subst, inl, inr, Bool, true, false, none, some, arith, ltb, leb, ◌==◌,
  if◌then◌else◌, ==→eq, Bool-cases, update,
}
use szczupak_os.Net.Bytes.{ip_equal_iff, Ip}
use szczupak_os.Net.Arp.{
  cache_clear, mac_is_broadcast, mac_is_zero, ip_is_zero, ttl_ticks, Arp, store, lookup,
  expire_stale, cache_update, cache_size, Mac, Entry, is_stale, expire_loop, matches, find_loop,
  Scan, scan_loop,
}
use szczupak_os.Net.Arp.Search.{found, missing, First, find_loop-First, Scanned, scan_loop-Scanned}

-- What expiry leaves of an entry.
abbrev expired : (now ttl : ℕ) → Entry → Entry
expired now ttl e =
    if e.valid then if is_stale now ttl e then record e { valid = false } else e else e

expire_round :
    (i now ttl : ℕ) (c : ℕ → Entry) (j : ℕ)
    → (if (c i).valid
          then if is_stale now ttl (c i) then update c i (record (c i) { valid = false }) else c
          else c)
        j
      ≡ (if j == i then expired now ttl (c j) else c j)
expire_round i now ttl c j = elim (Bool-cases (j == i)) [
  | inl e ↦
      subst
        (λ k.
          (if (c k).valid
              then if is_stale now ttl (c k) then update c k (record (c k) { valid = false }) else c
              else c)
            j
          ≡ (if j == k then expired now ttl (c j) else c j))
        (==→eq j i e) (ground arith)
  | inr e ↦ rw e (ground arith)
]

expire_loop_lem :
    (n i now ttl : ℕ) (c : ℕ → Entry) (j : ℕ)
    → expire_loop n i now ttl c j
      ≡ (if leb i j then if ltb j (i + n) then expired now ttl (c j) else c j else c j)
unfolding expire_loop
expire_loop_lem zero i now ttl c j = ground arith
expire_loop_lem (suc n) i now ttl c j =
    expire_loop_lem n (i + 1) now ttl _ j ∙ rw (expire_round i now ttl c j) (ground arith)

expire_stale_lem :
    (now frequency : ℕ) (c : ℕ → Entry) (j : ℕ)
    → j < cache_size
    → expire_stale now frequency c j
      ≡ (if ttl_ticks frequency == 0 then c j else expired now (ttl_ticks frequency) (c j))
unfolding expire_stale
expire_stale_lem now frequency c j h = elim (Bool-cases (ttl_ticks frequency == 0)) [
  | inl e ↦ rw e
  | inr e ↦ rw e (
      expire_loop_lem cache_size 0 now (ttl_ticks frequency) c j
      ∙ rw (le→leb 0 j (omega arith), lt→ltb j (0 + cache_size) h))
]

expired_no_match :
    (now ttl : ℕ) (ip : Ip) (b : Bool) (e : Entry)
    → matches ip e ≡ false
    → matches ip (if b then e else expired now ttl e) ≡ false
expired_no_match now ttl ip b e h = ground arith

expired_fresh :
    (now ttl : ℕ) (b : Bool) (e : Entry)
    → is_stale now ttl e ≡ false
    → (if b then e else expired now ttl e) ≡ e
expired_fresh now ttl b e h = ground arith

-- The lookup answers with the first entry of the address that expiry leaves.
lookup-First :
    (now frequency : ℕ) (ip : Ip) (s : Arp) (j : ℕ)
    → First ip s.cache 0 cache_size j
    → is_stale now (ttl_ticks frequency) (s.cache j) ≡ false
    → (lookup now frequency ip s).0 ≡ some (s.cache j).mac
unfolding lookup
lookup-First now frequency ip s j f fresh = rw (answer, lookup) refl
  where
    kept : expire_stale now frequency s.cache j ≡ s.cache j
    kept =
        expire_stale_lem now frequency s.cache j f.high
        ∙ expired_fresh now (ttl_ticks frequency) (ttl_ticks frequency == 0) (s.cache j) fresh

    answer : find_loop cache_size 0 ip (expire_stale now frequency s.cache) ≡ some (s.cache j).mac
    answer =
        find_loop-First cache_size 0 ip (expire_stale now frequency s.cache) j (record {
          low = f.low;
          high = f.high;
          holds = rw kept f.holds;
          others = λ k p q. rw (expire_stale_lem now frequency s.cache k (omega (arith, f.high))) (
              expired_no_match now (ttl_ticks frequency) ip (ttl_ticks frequency == 0) (s.cache k)
                (f.others k p q));
        })
        ∙ ap (λ (e : Entry). some e.mac) kept

-- Writing an entry for the address to a slot below which no slot matches makes it the first.
First-update :
    (ip : Ip) (c : ℕ → Entry) (k : ℕ) (e : Entry)
    → k < cache_size
    → matches ip e ≡ true
    → ((l : ℕ) → l < k → matches ip (c l) ≡ false)
    → First ip (update c k e) 0 cache_size k
First-update ip c k e h m below = record {
  low = omega arith;
  high = h;
  holds = rw (update_self c k e) m;
  others = λ l p q. rw (update_ne c k e l (omega arith)) (below l q);
}

fresh_now :
    (now later ttl : ℕ)
    → now ≤ later
    → later < 2 ^ 64
    → later - now ≤ ttl
    → ltb ttl (sub64 later now) ≡ false
fresh_now now later ttl h k t = ge→ltb ttl (sub64 later now) (omega arith)

-- What the writes of an update leave: the entry of the address comes first, with the new MAC
-- address and tick.
abbrev Stored : (now : ℕ) → Ip → Mac → (ℕ → Entry) → Type 0
Stored now ip mac u =
    (k : ℕ) × First ip u 0 cache_size k × ((u k).mac ≡ mac) × ((u k).updated_at ≡ now)

Stored-at :
    (now : ℕ) (ip : Ip) (mac : Mac) (c : ℕ → Entry) (k : ℕ) (e : Entry)
    → k < cache_size
    → matches ip e ≡ true
    → ((l : ℕ) → l < k → matches ip (c l) ≡ false)
    → e.mac ≡ mac
    → e.updated_at ≡ now
    → Stored now ip mac (update c k e)
Stored-at now ip mac c k e h m below a b =
    (k, First-update ip c k e h m below, rw (update_self c k e) a, rw (update_self c k e) b)

store-Stored :
    (now : ℕ) (ip : Ip) (mac : Mac) (c : ℕ → Entry) (x : Scan)
    → Scanned ip c 0 cache_size x
    → Stored now ip mac (store now ip mac x c)
unfolding store
store-Stored now ip mac c x (found j f eq) =
    rw eq (Stored-at now ip mac c j _ f.high f.holds (λ l q. f.others l (omega arith) q) refl refl)
store-Stored now ip mac c x (missing none r no_match b h eq) = rw eq (
    Stored-at now ip mac c r _ h ((ip_equal_iff ip ip).1 refl)
      (λ l q. no_match l (omega arith) (omega arith)) refl refl)
store-Stored now ip mac c x (missing (some f) r no_match b h eq) = rw eq (
    Stored-at now ip mac c f _ b ((ip_equal_iff ip ip).1 refl)
      (λ l q. no_match l (omega arith) (omega arith)) refl refl)

-- After `arp_cache_update` with an address that is not 0.0.0.0 and a MAC address that is neither
-- all zero nor broadcast, `arp_cache_lookup` of the address answers with that MAC address, for as
-- long as the time to live has not passed, whatever the cache held before.
pub lookup-cache_update :
    (now later frequency : ℕ) (ip : Ip) (mac : Mac) (s : Arp)
    → ip_is_zero ip ≡ false
    → mac_is_zero mac ≡ false
    → mac_is_broadcast mac ≡ false
    → now ≤ later
    → later < 2 ^ 64
    → later - now ≤ ttl_ticks frequency
    → (lookup later frequency ip (record s { cache = cache_update now ip mac s.cache })).0
      ≡ some mac
unfolding cache_update
lookup-cache_update now later frequency ip mac s a b c h k t =
    rw (a, b, c)
      (let stored = store-Stored now ip mac s.cache _ (
          scan_loop-Scanned cache_size 0 cache_size ip none 0 (2 ^ 64 - 1) s.cache refl tt
            (omega arith)) in
        lookup-First later frequency ip
          (record s {
            cache =
                store now ip mac (scan_loop cache_size 0 ip none 0 (2 ^ 64 - 1) s.cache) s.cache;
          })
          stored.0 stored.1 (rw stored.3 (fresh_now now later (ttl_ticks frequency) h k t))
        ∙ ap some stored.2)

none_found :
    (n i e : ℕ) (ip : Ip) (c : ℕ → Entry)
    → i + n ≡ e
    → ((j : ℕ) → j < e → (c j).valid ≡ false)
    → find_loop n i ip c ≡ none
unfolding find_loop
none_found zero i e ip c q h = refl
none_found (suc n) i e ip c q h =
    rw (h i (omega arith)) (none_found n (i + 1) e ip c (omega arith) h)

cleared_stays :
    (now frequency : ℕ) (c : ℕ → Entry) (j : ℕ)
    → j < cache_size
    → (expire_stale now frequency (cache_clear c) j).valid ≡ false
unfolding cache_clear
cleared_stays now frequency c j h =
    rw (expire_stale_lem now frequency (cache_clear c) j h) (ground arith)

-- After `arp_cache_clear` every lookup misses, at any time and for any address, and is counted as a
-- miss.
pub lookup-cache_clear :
    (now frequency : ℕ) (ip : Ip) (s : Arp)
    → let cleared = record s { cache = cache_clear s.cache } in
      ((lookup now frequency ip cleared).0 ≡ none)
      × ((lookup now frequency ip cleared).1.misses ≡ add64 s.misses 1)
unfolding lookup
lookup-cache_clear now frequency ip s =
    let missed =
      none_found cache_size 0 cache_size ip (expire_stale now frequency (cache_clear s.cache)) refl
        (cleared_stays now frequency s.cache) in
    rw (lookup, missed) (refl, refl)
