-- ===== src/Fat16/Freed.antt =====
-- The clusters that `fat16_release_cluster_chain` of src/kernel/fs/fat16.c frees.
use szczupak_os.Fat16.Release.{
  count-update, release_loop-link, count_le, ends-not, release_loop-stop, count,
}
use szczupak_os.Fat16.Place.{Holds, IsHealthy, entries, IsValid}
use szczupak_os.Fat16.Table.{read_fat_entry-Holds, write_fat_entry-Tables, Holds-entries, Tables}
use szczupak_os.Fat16.{write_fat_entry, release_cluster_chain, release_loop, ends, Disk, Volume}
use szczupak_os.Base.{
  ℕ, zero, suc, ◌+◌, ◌≤◌, ◌<◌, ◌≡◌, refl, sym, ap, ◌∙◌, subst, ◌≢◌, inl, inr, Bool, true, false,
  ◌||◌, List, [], ◌∷◌, arith, ltb, leb, ◌==◌, if◌then◌else◌, ==→eq, ==→ne, Bool-cases, if_cases,
  update, update_ne,
}

unfoldable pub contains : ℕ → List ℕ → Bool
contains x [] = false
contains x (c ∷ cs) = x == c || contains x cs

-- The chain of clusters that starts at `c` in the entries `t`, no cluster twice.
pub data Chain (v : Volume) (t : ℕ → ℕ) : (c : ℕ) → List ℕ → Type 0 where
  stop : (c : ℕ) → ends c ≡ true → Chain v t c []
  link :
      (c : ℕ) (cs : List ℕ)
      → ends c ≡ false
      → c < entries v
      → contains c cs ≡ false
      → Chain v t (t c) cs
      → Chain v t c (c ∷ cs)

-- The entries without those of the clusters `cs`.
unfoldable pub freed : List ℕ → (t : ℕ → ℕ) → ℕ → ℕ
freed cs t x = if contains x cs then 0 else t x

or_false : (a b : Bool) → (a || b) ≡ false → (a ≡ false) × (b ≡ false)
or_false a b h = ground arith

contains_not :
    (x c : ℕ) (cs : List ℕ) → contains x (c ∷ cs) ≡ false → (x ≢ c) × (contains x cs ≡ false)
unfolding contains
contains_not x c cs h =
    let (first, rest) = or_false (x == c) (contains x cs) h in (==→ne x c first, rest)

Chain-update :
    (v : Volume) (t : ℕ → ℕ) (x c : ℕ) (cs : List ℕ)
    → contains x cs ≡ false
    → Chain v t c cs
    → Chain v (update t x 0) c cs
Chain-update v t x _ _ h (stop c e) = stop c e
Chain-update v t x _ _ h (link c cs e inside fresh rest) =
    let (other, later) = contains_not x c cs h in
    link c cs e inside fresh (
      subst (λ n. Chain v (update t x 0) n cs) (sym (update_ne t x 0 c (λ same. other (sym same))))
        (Chain-update v t x (t c) cs later rest))

freed-update :
    (c : ℕ) (cs : List ℕ) (t : ℕ → ℕ) (x : ℕ) → freed cs (update t c 0) x ≡ freed (c ∷ cs) t x
unfolding freed contains
freed-update c cs t x = ground arith

contains-head : (c : ℕ) (cs : List ℕ) → contains c (c ∷ cs) ≡ false → ⊥
contains-head c cs h = (contains_not c c cs h).0 refl

Chain-self :
    (v : Volume) (t : ℕ → ℕ) (c : ℕ) (cs : List ℕ)
    → ends c ≡ false
    → contains c cs ≡ false
    → Chain v t c cs
    → ⊥
Chain-self v t c cs e h (stop _ e') = ground arith
Chain-self v t c cs e h (link _ _ _ _ _ _) = contains-head c _ h

Tables-freed :
    {total : ℕ} (v : Volume) (c : ℕ) (cs : List ℕ) (t : ℕ → ℕ) (d d1 d2 : Disk)
    → Tables v total (update t c 0) d d1
    → Tables v total (freed cs (update t c 0)) d1 d2
    → Tables v total (freed (c ∷ cs) t) d d2
Tables-freed v c cs t d d1 d2 first second = record {
  healthy = second.healthy;
  holds = Holds-entries v _ _ d2 (λ x p. freed-update c cs t x) second.holds;
  outside = λ lba o. second.outside lba o ∙ first.outside lba o;
}

Tables-rest :
    {total : ℕ} (v : Volume) (c : ℕ) (cs : List ℕ) (t : ℕ → ℕ) (d d1 : Disk) (r : Bool × Disk)
    → Tables v total (update t c 0) d d1
    → (r.0 ≡ true) × Tables v total (freed cs (update t c 0)) d1 r.1
    → (r.0 ≡ true) × Tables v total (freed (c ∷ cs) t) d r.1
Tables-rest v c cs t d d1 r first (ok, second) = (ok, Tables-freed v c cs t d d1 r.1 first second)

release_loop-freed_end :
    {total : ℕ} (n c : ℕ) (v : Volume) (t : ℕ → ℕ) (d : Disk) (cs : List ℕ)
    → IsHealthy v total d
    → Holds v t d
    → 0 < n
    → ends c ≡ true
    → Chain v t c cs
    → ((release_loop n c v d).0 ≡ true) × Tables v total (freed cs t) d (release_loop n c v d).1
unfolding freed contains
release_loop-freed_end {total = total} zero c v t d cs good h more e chain =
    absurd (omega (arith, more))
release_loop-freed_end {total = total} (suc n) c v t d _ good h more e (stop _ e') =
    subst {A = Bool × Disk} (λ r. (r.0 ≡ true) × Tables v total (freed [] t) d r.1)
      (sym (release_loop-stop n c v d e))
      (refl, record { healthy = good; holds = h; outside = λ lba o. refl })
release_loop-freed_end {total = total} (suc n) c v t d _ good h more e
      (link _ cs e' inside fresh rest) =
    ground arith

release_loop-freed :
    {total : ℕ} (n c : ℕ) (v : Volume) (t : ℕ → ℕ) (d : Disk) (cs : List ℕ)
    → IsValid v
    → IsHealthy v total d
    → Holds v t d
    → Chain v t c cs
    → count 0xFFF8 t + 2 ≤ n
    → ((release_loop n c v d).0 ≡ true) × Tables v total (freed cs t) d (release_loop n c v d).1
release_loop-freed {total = total} zero c v t d cs valid good h chain fuel =
    absurd (omega (arith, fuel))
release_loop-freed {total = total} (suc n) c v t d _ valid good h (stop _ e) fuel =
    release_loop-freed_end {total = total} (suc n) c v t d [] good h (omega arith) e (stop c e)
release_loop-freed {total = total} (suc n) c v t d _ valid good h (link _ cs e inside fresh chain)
      fuel =
    let (low, high) = ends-not c e in
    let (ok, tables) = write_fat_entry-Tables v t c 0 d valid good h low inside in
    let d' = (write_fat_entry v c 0 d).1 in
    subst {A = Bool × Disk} (λ r. (r.0 ≡ true) × Tables v total (freed (c ∷ cs) t) d r.1)
      (sym (
        release_loop-link n c (t c) v d e (read_fat_entry-Holds v t c d valid good h low inside)
          ok))
      (if_cases {A = Bool × Disk} (λ r. (r.0 ≡ true) × Tables v total (freed (c ∷ cs) t) d r.1)
        (t c == c)
        (λ same.
          absurd
            (Chain-self v t c cs e fresh (subst (λ x. Chain v t x cs) (==→eq (t c) c same) chain)))
        (λ other.
          Tables-rest v c cs t d d' (release_loop n (t c) v d') tables
            (elim (Bool-cases (t c == 0)) [
              | inl free ↦
                  release_loop-freed_end {total = total} n (t c) v (update t c 0) d' cs
                    tables.healthy tables.holds (omega (arith, fuel))
                    (subst (λ x. ends x ≡ true) (sym (==→eq (t c) 0 free)) refl)
                    (Chain-update v t c (t c) cs fresh chain)
              | inr busy ↦
                  let less = count-update 0xFFF8 c t high (==→ne (t c) 0 busy) in
                  release_loop-freed {total = total} n (t c) v (update t c 0) d' cs valid
                    tables.healthy tables.holds (Chain-update v t c (t c) cs fresh chain)
                    (omega (arith, less, fuel))
            ])))

-- On a volume with at least one table, whose tables all hold the same entries, on a disk whose
-- sectors below `total`, which is at most 2^32, can be read and written, the tables among them: from
-- the start of a chain of clusters of the tables, in which none occurs twice,
-- `fat16_release_cluster_chain` returns true and sets the entries of these clusters to zero in every
-- copy; all other entries and the sectors outside the tables stay.
pub release_frees_chain :
    {total : ℕ} (start : ℕ) (v : Volume) (t : ℕ → ℕ) (d : Disk) (cs : List ℕ)
    → IsValid v
    → IsHealthy v total d
    → Holds v t d
    → Chain v t start cs
    → ((release_cluster_chain start v d).0 ≡ true)
      × Tables v total (freed cs t) d (release_cluster_chain start v d).1
unfolding release_cluster_chain
release_frees_chain {total = total} start v t d cs valid good h chain =
    if_cases {A = Bool × Disk} (λ r. (r.0 ≡ true) × Tables v total (freed cs t) d r.1) (ltb start 2)
      (λ e.
        let over : ends start ≡ true = ap (λ b. b || leb 0xFFF8 start) e in
        subst {A = Bool × Disk} (λ r. (r.0 ≡ true) × Tables v total (freed cs t) d r.1)
          (release_loop-stop 0 start v d over)
          (release_loop-freed_end 1 start v t d cs good h (omega arith) over chain))
      (λ e.
        release_loop-freed {total = total} 0x10000 start v t d cs valid good h chain
          (omega (arith, count_le 0xFFF8 t)))
