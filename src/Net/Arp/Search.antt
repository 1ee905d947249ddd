-- ===== src/Net/Arp/Search.antt =====
-- What the loops of `arp_cache_lookup` and `arp_cache_update` find.
use szczupak_os.Base.{
  ℕ, zero, suc, ◌+◌, ◌≤◌, ◌<◌, ◌≡◌, refl, sym, subst, inl, inr, Bool, true, false, ◌&&◌, Option,
  none, some, arith, ltb, ◌==◌, if◌then◌else◌, ==→eq, ==→ne, Bool-cases, if_elim,
}
use szczupak_os.Net.Bytes.{Ip}
use szczupak_os.Net.Arp.{Entry, matches, find_loop, Scan, present, absent, scan_loop}

-- `j` is the first of the slots below `e`, from `i` on, that holds `ip`.
pub record First (ip : Ip) (c : ℕ → Entry) (i e j : ℕ) : Type 0 where
  pub low : i ≤ j
  pub high : j < e
  pub holds : matches ip (c j) ≡ true
  pub others : (k : ℕ) → i ≤ k → k < j → matches ip (c k) ≡ false

pub find_loop-First :
    (n i : ℕ) (ip : Ip) (c : ℕ → Entry) (j : ℕ)
    → First ip c i (i + n) j
    → find_loop n i ip c ≡ some (c j).mac
unfolding find_loop
find_loop-First zero i ip c j f = absurd (omega (arith, f.low, f.high))
find_loop-First (suc n) i ip c j f = elim (Bool-cases (i == j)) [
  | inl here ↦
      subst (λ k. find_loop (suc n) k ip c ≡ some (c j).mac) (sym (==→eq i j here)) (rw f.holds)
  | inr later ↦
      let ne = ==→ne i j later in
      rw (f.others i (omega arith) (omega (arith, f.low))) (
        find_loop-First n (i + 1) ip c j (record {
          low = omega (arith, f.low);
          high = omega (arith, f.high);
          holds = f.holds;
          others = λ k p q. f.others k (omega arith) q;
        }))
]

abbrev pub Below : ℕ → Option ℕ → Type 0
Below e none = Unit
Below e (some f) = f < e

-- What the scan of slots `i` to `e` may find.
pub data Scanned (ip : Ip) (c : ℕ → Entry) (i e : ℕ) (x : Scan) : Type 0 where
  found : (j : ℕ) → First ip c i e j → x ≡ present j → Scanned ip c i e x
  missing :
      (f : Option ℕ) (r : ℕ)
      → ((k : ℕ) → i ≤ k → k < e → matches ip (c k) ≡ false)
      → Below e f
      → r < e
      → x ≡ absent f r
      → Scanned ip c i e x

Scanned-later :
    (ip : Ip) (c : ℕ → Entry) (i e : ℕ) {x : Scan}
    → matches ip (c i) ≡ false
    → Scanned ip c (i + 1) e x
    → Scanned ip c i e x
Scanned-later ip c i e {x} no_match (found j f eq) =
    found j
      (record {
        low = omega (arith, f.low);
        high = f.high;
        holds = f.holds;
        others = λ k p q. elim (Bool-cases (k == i)) [
          | inl same ↦ subst (λ l. matches ip (c l) ≡ false) (sym (==→eq k i same)) no_match
          | inr other ↦ f.others k (omega (arith, ==→ne k i other)) q
        ];
      })
      eq
Scanned-later ip c i e {x} no_match (missing f r none_match a b eq) =
    missing f r
      (λ k p q. elim (Bool-cases (k == i)) [
        | inl same ↦ subst (λ l. matches ip (c l) ≡ false) (sym (==→eq k i same)) no_match
        | inr other ↦ none_match k (omega (arith, ==→ne k i other)) q
      ])
      a b eq

Below-next :
    (b : Bool) (i e : ℕ) (free : Option ℕ)
    → i < e
    → Below e free
    → Below e (if b then free else elim free [ none ↦ some i | some j ↦ some j ])
Below-next true i e free h k = k
Below-next false i e none h k = h
Below-next false i e (some j) h k = k

pub scan_loop-Scanned :
    (n i e : ℕ) (ip : Ip) (free : Option ℕ) (replace oldest : ℕ) (c : ℕ → Entry)
    → i + n ≡ e
    → Below e free
    → replace < e
    → Scanned ip c i e (scan_loop n i ip free replace oldest c)
unfolding scan_loop
scan_loop-Scanned zero i e ip free replace oldest c h b r =
    missing free replace (λ k p q. absurd (omega arith)) b r refl
scan_loop-Scanned (suc n) i e ip free replace oldest c h b r =
    elim (Bool-cases (matches ip (c i))) [
      | inl yes_here ↦ rw yes_here (
          found i
            (record {
              low = omega arith;
              high = omega arith;
              holds = yes_here;
              others = λ k p q. absurd (omega arith);
            })
            refl)
      | inr no_match ↦ rw no_match (
          Scanned-later ip c i e no_match (
            scan_loop-Scanned n (i + 1) e ip _ _ _ c (omega arith)
              (Below-next (c i).valid i e free (omega arith) b)
              (if_elim (λ x. x < e) ((c i).valid && ltb (c i).updated_at oldest) (omega arith) r)))
    ]
