-- ===== src/Scheduler/Remove.antt =====
-- `scheduler_remove_task` of src/kernel/task/scheduler.c on a queue.
use szczupak_os.Scheduler.Add.{set_next-unlinked, unlinked}
use szczupak_os.Scheduler.{
  Task, ready, unlink, set_next, Store, remove_task, remove_loop, Scheduler,
}
use szczupak_os.Base.{
  ℕ, zero, suc, ◌≤◌, ◌≡◌, refl, sym, ap, ◌∙◌, subst, ◌≢◌, inl, inr, true, false, Option, none, some,
  List, [], ◌∷◌, arith, ◌==◌, if◌then◌else◌, ==→eq, ==→ne, eq→==, ne→==, Bool-cases, length, All,
}
use szczupak_os.Scheduler.Queue.{
  All-map, Chain-frame, last, IsQueue, Chain, NotIn, Distinct, Sorted,
}

-- The list without the task.
abbrev pub erase : ℕ → List ℕ → List ℕ
erase t [] = []
erase t (q ∷ qs) = if q == t then qs else q ∷ erase t qs

All-erase : (P : ℕ → Type 0) (t : ℕ) (qs : List ℕ) → All P qs → All P (erase t qs)
All-erase P t [] a = tt
All-erase P t (q ∷ qs) a = elim (Bool-cases (q == t)) [
  | inl e ↦ rw e a.1
  | inr e ↦ rw e (a.0, All-erase P t qs a.1)
]

Distinct-erase : (t : ℕ) (qs : List ℕ) → Distinct qs → Distinct (erase t qs)
Distinct-erase t [] d = tt
Distinct-erase t (q ∷ qs) d = elim (Bool-cases (q == t)) [
  | inl e ↦ rw e d.1
  | inr e ↦ rw e (All-erase (λ r. r ≢ q) t qs d.0, Distinct-erase t qs d.1)
]

Sorted-erase : (prio : ℕ → ℕ) (t : ℕ) (qs : List ℕ) → Sorted prio qs → Sorted prio (erase t qs)
Sorted-erase prio t [] d = tt
Sorted-erase prio t (q ∷ qs) d = elim (Bool-cases (q == t)) [
  | inl e ↦ rw e d.1
  | inr e ↦ rw e (All-erase (λ r. prio q ≤ prio r) t qs d.0, Sorted-erase prio t qs d.1)
]

-- The erased task is gone.
pub NotIn-erase : (t : ℕ) (qs : List ℕ) → Distinct qs → NotIn t (erase t qs)
NotIn-erase t [] d = tt
NotIn-erase t (q ∷ qs) d = elim (Bool-cases (q == t)) [
  | inl e ↦ rw e (subst (λ x. NotIn x qs) (==→eq q t e) d.0)
  | inr e ↦ rw e (==→ne q t e, NotIn-erase t qs d.1)
]

-- The tail when `q` goes, whose neighbour before it is `prev`.
abbrev tail_without : (q : ℕ) (prev tail : Option ℕ) → Option ℕ
tail_without q prev tail = elim tail [ none ↦ none | some l ↦ if l == q then prev else some l ]

tail_kept :
    (q r : ℕ) (prev : Option ℕ) (rs : List ℕ)
    → NotIn q (r ∷ rs)
    → tail_without q prev (last (r ∷ rs)) ≡ last (r ∷ rs)
tail_kept q r prev [] n = rw (ne→== r q n.0) refl
tail_kept q r prev (r' ∷ rs) n = tail_kept q r' prev rs n.1

tail_alone : (q : ℕ) (prev : Option ℕ) → tail_without q prev (some q) ≡ prev
tail_alone q prev = rw (eq→== q q refl) refl

-- What the loop leaves from `p` on, where the tasks behind it are `qs`.
record Searched (fuel t p : ℕ) (s : Scheduler) (qs : List ℕ) : Type 0 where
  result : Scheduler
  walked : remove_loop fuel t (some p) (s.tasks p).next s ≡ some result
  chain : Chain result.tasks (result.tasks p).next (erase t qs)
  tail : s.ready_queue_tail ≡ last (p ∷ qs) → result.ready_queue_tail ≡ last (p ∷ erase t qs)
  near : (x : ℕ) → x ≢ p → NotIn x qs → result.tasks x ≡ s.tasks x
  kept : (x : ℕ) → unlinked (result.tasks x) ≡ unlinked (s.tasks x)
  rest : result ≡ record s { tasks = result.tasks; ready_queue_tail = result.ready_queue_tail }

searched_tail :
    (p q : ℕ) (qs : List ℕ) (tail : Option ℕ)
    → NotIn q qs
    → tail ≡ last (q ∷ qs)
    → tail_without q (some p) tail ≡ last (p ∷ qs)
searched_tail p q [] tail n e = ap (tail_without q (some p)) e ∙ tail_alone q (some p)
searched_tail p q (r ∷ rs) tail n e = ap (tail_without q (some p)) e ∙ tail_kept q r (some p) rs n

Chain-set_next :
    (p : ℕ) (n : Option ℕ) (ts : Store) (qs : List ℕ) (head : Option ℕ)
    → NotIn p qs
    → Chain ts head qs
    → Chain (set_next p n ts) head qs
Chain-set_next p n ts qs head a c = Chain-frame ts (set_next p n ts) qs head (All-map same qs a) c
  where
    same : (x : ℕ) → x ≢ p → (set_next p n ts x).next ≡ (ts x).next
    same x k = rw (ne→== x p k) refl

set_next_at : (p : ℕ) (n : Option ℕ) (ts : Store) → (set_next p n ts p).next ≡ n
set_next_at p n ts = rw (eq→== p p refl) refl

remove_loop-Searched :
    (fuel t p : ℕ) (s : Scheduler) (qs : List ℕ)
    → Chain s.tasks (s.tasks p).next qs
    → NotIn p qs
    → Distinct qs
    → length qs ≤ fuel
    → Searched fuel t p s qs
unfolding remove_loop
remove_loop-Searched fuel t p s [] c n d k = record {
  result = s;
  walked = rw c refl;
  chain = c;
  tail = λ e. e;
  near = λ x a b. refl;
  kept = λ x. refl;
  rest = refl;
}
remove_loop-Searched zero t p s (q ∷ qs) c n d k = absurd (omega (arith, k))
remove_loop-Searched (suc fuel) t p s (q ∷ qs) c n d k = elim (Bool-cases (q == t)) [
  | inl e ↦
      let next = (s.tasks q).next in
      record {
        result = unlink (some p) q s;
        walked = rw (c.0, e) refl;
        chain = rw e (
            subst (λ x. Chain (set_next p next s.tasks) x qs) (sym (set_next_at p next s.tasks))
              (Chain-set_next p next s.tasks qs next n.1 c.1));
        tail = λ h. rw e (searched_tail p q qs s.ready_queue_tail d.0 h);
        near = λ x a b. rw (ne→== x p a) refl;
        kept = λ x. set_next-unlinked p x next s.tasks;
        rest = refl;
      }
  | inr e ↦
      let rest = remove_loop-Searched fuel t q s qs c.1 d.0 d.1 (omega (arith, k)) in
      record {
        result = rest.result;
        walked = rw (c.0, e) rest.walked;
        chain =
            rw e (ap (λ (x : Task). x.next) (rest.near p (λ h. n.0 (sym h)) n.1) ∙ c.0, rest.chain);
        tail = λ h. rw e (rest.tail h);
        near = λ x a b. rest.near x (λ h. b.0 (sym h)) b.1;
        kept = rest.kept;
        rest = rest.rest;
      }
]

-- `s'` is `s` with `t` out of the queue, and no other change.
pub record Removed (prio : ℕ → ℕ) (t : ℕ) (s : Scheduler) (qs : List ℕ) (s' : Scheduler)
    : Type 0 where
  pub queue : IsQueue prio s' (erase t qs)
  pub gone : NotIn t (erase t qs)
  pub tasks_kept : (x : ℕ) → unlinked (s'.tasks x) ≡ unlinked (s.tasks x)
  pub rest_kept : s' ≡ record s {
    tasks = s'.tasks;
    ready_queue = s'.ready_queue;
    ready_queue_tail = s'.ready_queue_tail;
  }

unlinked-Removed :
    (prio : ℕ → ℕ) (t : ℕ) (s s' : Scheduler) (qs : List ℕ)
    → IsQueue prio s qs
    → ((x : ℕ) → unlinked (s'.tasks x) ≡ unlinked (s.tasks x))
    → s' ≡ record s {
      tasks = s'.tasks;
      ready_queue = s'.ready_queue;
      ready_queue_tail = s'.ready_queue_tail;
    }
    → Chain s'.tasks s'.ready_queue (erase t qs)
    → s'.ready_queue_tail ≡ last (erase t qs)
    → Removed prio t s qs s'
unlinked-Removed prio t s s' qs q kept same c l = record {
  queue = record {
    chain = c;
    tail = l;
    distinct = Distinct-erase t qs q.distinct;
    sorted = Sorted-erase prio t qs q.sorted;
    all_ready =
        All-erase (λ x. (s'.tasks x).state ≡ ready) t qs
          (All-map (λ x h. ap (λ (k : Task). k.state) (kept x) ∙ h) qs q.all_ready);
    priorities = λ x. ap (λ (k : Task). k.priority) (kept x) ∙ q.priorities x;
  };
  gone = NotIn-erase t qs q.distinct;
  tasks_kept = kept;
  rest_kept = same;
}

head_tail :
    (q : ℕ) (qs : List ℕ) (tail : Option ℕ)
    → NotIn q qs
    → tail ≡ last (q ∷ qs)
    → tail_without q none tail ≡ last qs
head_tail q [] tail n e = ap (tail_without q none) e ∙ tail_alone q none
head_tail q (r ∷ rs) tail n e = ap (tail_without q none) e ∙ tail_kept q r none rs n

-- `scheduler_remove_task` takes a task out of the queue: what is left is the queue without it, in
-- the same order, and still linked up to its tail. Links apart, no task changes, nor does anything
-- else of the scheduler. The walk ends within as many rounds as there are tasks in the queue.
pub remove_task-Removed :
    (prio : ℕ → ℕ) (fuel t : ℕ) (s : Scheduler) (qs : List ℕ)
    → IsQueue prio s qs
    → length qs ≤ fuel
    → (s' : Scheduler) × (remove_task fuel t s ≡ some s') × Removed prio t s qs s'
unfolding remove_task remove_loop
remove_task-Removed prio fuel t s [] h k = (
  s,
  ap (λ c. remove_loop fuel t none c s) h.chain,
  unlinked-Removed prio t s s [] h (λ x. refl) refl h.chain h.tail,
)
remove_task-Removed prio zero t s (q ∷ qs) h k = absurd (omega (arith, k))
remove_task-Removed prio (suc fuel) t s (q ∷ qs) h k = elim (Bool-cases (q == t)) [
  | inl e ↦ (
    unlink none q s,
    ap (λ c. remove_loop (suc fuel) t none c s) h.chain.0 ∙ first e,
    unlinked-Removed prio t s (unlink none q s) (q ∷ qs) h (λ x. refl) refl (rw e h.chain.1)
        (rw e (head_tail q qs s.ready_queue_tail h.distinct.0 h.tail)),
  )
  | inr e ↦
      let found =
        remove_loop-Searched fuel t q s qs h.chain.1 h.distinct.0 h.distinct.1 (omega (arith, k)) in
      let queue_kept : found.result.ready_queue ≡ s.ready_queue =
        ap (λ (x : Scheduler). x.ready_queue) found.rest in
      (
        found.result,
        ap (λ c. remove_loop (suc fuel) t none c s) h.chain.0 ∙ later e found.walked,
        unlinked-Removed prio t s found.result (q ∷ qs) h found.kept
            (found.rest
              ∙ ap
                  (λ (x : Option ℕ). record s {
                    tasks = found.result.tasks;
                    ready_queue = x;
                    ready_queue_tail = found.result.ready_queue_tail;
                  })
                  (sym queue_kept))
            (rw e (queue_kept ∙ h.chain.0, found.chain)) (rw e (found.tail h.tail)),
      )
]
  where
    first : q == t ≡ true → remove_loop (suc fuel) t none (some q) s ≡ some (unlink none q s)
    first e = rw e refl

    later :
        {r : Option Scheduler}
        → q == t ≡ false
        → remove_loop fuel t (some q) (s.tasks q).next s ≡ r
        → remove_loop (suc fuel) t none (some q) s ≡ r
    later e w = rw e w
