-- ===== src/Scheduler/Dequeue.antt =====
-- Changes of single tasks, and the head leaving the queue, in src/kernel/task/scheduler.c.
use szczupak_os.Base.{
  ℕ, ◌≡◌, refl, sym, ap, ◌∙◌, subst, ◌≢◌, inl, inr, none, some, List, [], ◌∷◌, ◌==◌, ==→eq, ==→ne,
  eq→==, ne→==, Bool-cases, All,
}
use szczupak_os.Scheduler.{Task, Scheduler, ready, dequeue}
use szczupak_os.Scheduler.Queue.{last, Chain, NotIn, IsQueue, All-map, Chain-frame}

-- A change of a task that is not in the queue leaves the queue as it is.
pub changed-IsQueue :
    (prio : ℕ → ℕ) (p : ℕ) (s s' : Scheduler) (qs : List ℕ)
    → IsQueue prio s qs
    → NotIn p qs
    → s'.ready_queue ≡ s.ready_queue
    → s'.ready_queue_tail ≡ s.ready_queue_tail
    → ((x : ℕ) → x ≢ p → s'.tasks x ≡ s.tasks x)
    → (s'.tasks p).priority ≡ (s.tasks p).priority
    → IsQueue prio s' qs
changed-IsQueue prio p s s' qs q n h t same at = record {
  chain =
      subst (λ x. Chain s'.tasks x qs) (sym h)
        (Chain-frame s.tasks s'.tasks qs s.ready_queue (All-map next qs n) q.chain);
  tail = t ∙ q.tail;
  distinct = q.distinct;
  sorted = q.sorted;
  all_ready = states qs n q.all_ready;
  priorities = priority;
}
  where
    next : (x : ℕ) → x ≢ p → (s'.tasks x).next ≡ (s.tasks x).next
    next x e = ap (λ (k : Task). k.next) (same x e)

    states :
        (rs : List ℕ)
        → NotIn p rs
        → All (λ x. (s.tasks x).state ≡ ready) rs
        → All (λ x. (s'.tasks x).state ≡ ready) rs
    states [] a b = tt
    states (r ∷ rs) a b = (ap (λ (k : Task). k.state) (same r a.0) ∙ b.0, states rs a.1 b.1)

    priority : (x : ℕ) → (s'.tasks x).priority ≡ prio x
    priority x = elim (Bool-cases (x == p)) [
      | inl e ↦
          subst (λ y. (s'.tasks y).priority ≡ prio y) (sym (==→eq x p e)) (at ∙ q.priorities p)
      | inr e ↦ ap (λ (k : Task). k.priority) (same x (==→ne x p e)) ∙ q.priorities x
    ]

-- The head leaves the queue.
pub dequeue-IsQueue :
    (prio : ℕ → ℕ) (q : ℕ) (s : Scheduler) (qs : List ℕ)
    → IsQueue prio s (q ∷ qs)
    → IsQueue prio (dequeue q s) qs
dequeue-IsQueue prio q s qs h =
    changed-IsQueue prio q behind (dequeue q s) qs rest h.distinct.0 refl (tail qs h.chain.1 h.tail)
      (λ x e. rw (ne→== x q e) refl) (rw (eq→== q q refl) refl)
  where
    behind : Scheduler
    behind = record s { ready_queue = (s.tasks q).next; ready_queue_tail = last qs }

    rest : IsQueue prio behind qs
    rest = record {
      chain = h.chain.1;
      tail = refl;
      distinct = h.distinct.1;
      sorted = h.sorted.1;
      all_ready = h.all_ready.1;
      priorities = h.priorities;
    }

    tail :
        (rs : List ℕ)
        → Chain s.tasks (s.tasks q).next rs
        → s.ready_queue_tail ≡ last (q ∷ rs)
        → (elim (s.tasks q).next [ none ↦ none | some _ ↦ s.ready_queue_tail ]) ≡ last rs
    tail [] c l = rw c refl
    tail (r ∷ rs) c l = rw c.0 l
