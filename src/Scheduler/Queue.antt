-- ===== src/Scheduler/Queue.antt =====
-- The list that the ready queue of src/kernel/task/scheduler.c links up: its order, and what holds of it.
use szczupak_os.Base.{
  ℕ, ◌≤◌, ◌≡◌, refl, sym, subst, ◌≢◌, inl, inr, Option, none, some, List, [], ◌∷◌, arith, leb,
  if◌then◌else◌, leb→le, leb→gt, Bool-cases, All,
}
use szczupak_os.Scheduler.{Store, Scheduler, ready}

-- `t` goes behind every task of its priority, and before the first of a higher number.
abbrev pub insert : (prio : ℕ → ℕ) → ℕ → List ℕ → List ℕ
insert prio t [] = t ∷ []
insert prio t (q ∷ qs) = if leb (prio q) (prio t) then q ∷ insert prio t qs else t ∷ q ∷ qs

abbrev pub last : List ℕ → Option ℕ
last [] = none
last (q ∷ []) = some q
last (q ∷ r ∷ qs) = last (r ∷ qs)

-- The tasks from `head` on, up to the null pointer, are these.
abbrev pub Chain : Store → (head : Option ℕ) → List ℕ → Type 0
Chain ts head [] = head ≡ none
Chain ts head (q ∷ qs) = (head ≡ some q) × Chain ts (ts q).next qs

abbrev pub NotIn : ℕ → List ℕ → Type 0
NotIn t qs = All (λ q. q ≢ t) qs

abbrev pub Distinct : List ℕ → Type 0
Distinct [] = Unit
Distinct (q ∷ qs) = NotIn q qs × Distinct qs

abbrev pub Sorted : (prio : ℕ → ℕ) → List ℕ → Type 0
Sorted prio [] = Unit
Sorted prio (q ∷ qs) = All (λ r. prio q ≤ prio r) qs × Sorted prio qs

-- The scheduler's queue is `qs`: linked from head to tail, no task twice, every one ready, and the
-- priorities in order.
pub record IsQueue (prio : ℕ → ℕ) (s : Scheduler) (qs : List ℕ) : Type 0 where
  pub chain : Chain s.tasks s.ready_queue qs
  pub tail : s.ready_queue_tail ≡ last qs
  pub distinct : Distinct qs
  pub sorted : Sorted prio qs
  pub all_ready : All (λ q. (s.tasks q).state ≡ ready) qs
  pub priorities : (q : ℕ) → (s.tasks q).priority ≡ prio q

module _ (P : ℕ → Type 0) (prio : ℕ → ℕ) (t : ℕ) where
  pub All-insert : (qs : List ℕ) → P t → All P qs → All P (insert prio t qs)
  All-insert [] p a = (p, tt)
  All-insert (q ∷ qs) p a = elim (Bool-cases (leb (prio q) (prio t))) [
    | inl e ↦ rw e (a.0, All-insert qs p a.1)
    | inr e ↦ rw e (p, a)
  ]

pub All-map : {P Q : ℕ → Type 0} → ((q : ℕ) → P q → Q q) → (qs : List ℕ) → All P qs → All Q qs
All-map f [] a = tt
All-map f (q ∷ qs) a = (f q a.0, All-map f qs a.1)

pub Distinct-insert :
    (prio : ℕ → ℕ) (t : ℕ) (qs : List ℕ) → NotIn t qs → Distinct qs → Distinct (insert prio t qs)
Distinct-insert prio t [] n d = (tt, tt)
Distinct-insert prio t (q ∷ qs) n d = elim (Bool-cases (leb (prio q) (prio t))) [
  | inl e ↦
      rw e (
        All-insert (λ r. r ≢ q) prio t qs (λ x. n.0 (sym x)) d.0,
        Distinct-insert prio t qs n.1 d.1,
      )
  | inr e ↦ rw e (n, d)
]

pub Sorted-insert :
    (prio : ℕ → ℕ) (t : ℕ) (qs : List ℕ) → Sorted prio qs → Sorted prio (insert prio t qs)
Sorted-insert prio t [] d = (tt, tt)
Sorted-insert prio t (q ∷ qs) d = elim (Bool-cases (leb (prio q) (prio t))) [
  | inl e ↦ rw e (
    All-insert (λ r. prio q ≤ prio r) prio t qs (leb→le (prio q) (prio t) e) d.0,
    Sorted-insert prio t qs d.1,
  )
  | inr e ↦
      let lower = leb→gt (prio q) (prio t) e in
      rw e ((omega arith, All-map (λ r x. omega arith) qs d.0), d)
]

-- A queue with other tasks changed is linked as before.
pub Chain-frame :
    (ts ts' : Store) (qs : List ℕ) (head : Option ℕ)
    → All (λ q. (ts' q).next ≡ (ts q).next) qs
    → Chain ts head qs
    → Chain ts' head qs
Chain-frame ts ts' [] head a c = c
Chain-frame ts ts' (q ∷ qs) head a c =
    (c.0, subst (λ h. Chain ts' h qs) (sym a.0) (Chain-frame ts ts' qs (ts q).next a.1 c.1))

-- The last task of a queue that `t` is inserted in.
pub last-insert_cons :
    (prio : ℕ → ℕ) (t q : ℕ) (qs : List ℕ) → last (q ∷ insert prio t qs) ≡ last (insert prio t qs)
last-insert_cons prio t q [] = refl
last-insert_cons prio t q (r ∷ qs) = elim (Bool-cases (leb (prio r) (prio t))) [
  | inl e ↦ rw e
  | inr e ↦ rw e
]
