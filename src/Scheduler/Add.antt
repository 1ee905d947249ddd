-- ===== src/Scheduler/Add.antt =====
-- `scheduler_add_task` of src/kernel/task/scheduler.c on a queue: where the walk stops and what is linked.
use szczupak_os.Base.{
  ℕ, zero, suc, ◌≤◌, ◌≡◌, refl, sym, ap, ◌∙◌, subst, ◌≢◌, inl, inr, true, false, Option, none, some,
  List, [], ◌∷◌, arith, leb, ◌==◌, ==→eq, eq→==, ne→==, Bool-cases, length,
}
use szczupak_os.Scheduler.{
  Task, Store, Scheduler, ready, is_running, set_next, walk, splice, link, readied, enqueue,
  add_task,
}
use szczupak_os.Scheduler.Queue.{
  insert, last, Chain, NotIn, IsQueue, All-insert, All-map, Distinct-insert, Sorted-insert,
  Chain-frame,
}
use szczupak_os.Scheduler.Walk.{walk-Linked}

-- A task without its link.
abbrev pub unlinked : Task → Task
unlinked k = record k { next = none }

pub set_next-unlinked :
    (t x : ℕ) (n : Option ℕ) (ts : Store) → unlinked (set_next t n ts x) ≡ unlinked (ts x)
set_next-unlinked t x n ts = elim (Bool-cases (x == t)) [
  | inl e ↦ rw e (ap (λ (y : ℕ). unlinked (ts y)) (sym (==→eq x t e)))
  | inr e ↦ rw e refl
]

splice-unlinked :
    (t prev x : ℕ) (cur : Option ℕ) (ts : Store)
    → unlinked (splice t prev cur ts x) ≡ unlinked (ts x)
splice-unlinked t prev x cur ts =
    set_next-unlinked prev x (some t) (set_next t cur ts) ∙ set_next-unlinked t x cur ts

-- `s'` is `s` with `t` queued behind the tasks of its priority, and no other change.
pub record Queued (prio : ℕ → ℕ) (t : ℕ) (s : Scheduler) (qs : List ℕ) (s' : Scheduler)
    : Type 0 where
  pub queue : IsQueue prio s' (insert prio t qs)
  pub tasks_kept : (x : ℕ) → unlinked (s'.tasks x) ≡ unlinked (readied t s.tasks x)
  pub rest_kept : s' ≡ record s {
    tasks = s'.tasks;
    ready_queue = s'.ready_queue;
    ready_queue_tail = s'.ready_queue_tail;
  }

readied_priority : (t x : ℕ) (ts : Store) → (readied t ts x).priority ≡ (ts x).priority
readied_priority t x ts = elim (Bool-cases (x == t)) [
  | inl e ↦ rw e (ap (λ (y : ℕ). (ts y).priority) (sym (==→eq x t e)))
  | inr e ↦ rw e refl
]

readied_ready : (t x : ℕ) (ts : Store) → (ts x).state ≡ ready → (readied t ts x).state ≡ ready
readied_ready t x ts h = elim (Bool-cases (x == t)) [ inl e ↦ rw e refl | inr e ↦ rw e h ]

readied_at : (t : ℕ) (ts : Store) → (readied t ts t).state ≡ ready
readied_at t ts = rw (eq→== t t refl) refl

link-Queued :
    (prio : ℕ → ℕ) (t : ℕ) (s s' : Scheduler) (qs : List ℕ)
    → IsQueue prio s qs
    → NotIn t qs
    → ((x : ℕ) → unlinked (s'.tasks x) ≡ unlinked (readied t s.tasks x))
    → s' ≡ record s {
      tasks = s'.tasks;
      ready_queue = s'.ready_queue;
      ready_queue_tail = s'.ready_queue_tail;
    }
    → Chain s'.tasks s'.ready_queue (insert prio t qs)
    → s'.ready_queue_tail ≡ last (insert prio t qs)
    → Queued prio t s qs s'
link-Queued prio t s s' qs q n kept same c l =
    let state : (x : ℕ) → (s'.tasks x).state ≡ (readied t s.tasks x).state =
      λ x. ap (λ (k : Task). k.state) (kept x) in
    record {
      queue = record {
        chain = c;
        tail = l;
        distinct = Distinct-insert prio t qs n q.distinct;
        sorted = Sorted-insert prio t qs q.sorted;
        all_ready =
            All-insert (λ x. (s'.tasks x).state ≡ ready) prio t qs (state t ∙ readied_at t s.tasks)
              (All-map (λ x h. state x ∙ readied_ready t x s.tasks h) qs q.all_ready);
        priorities = λ x.
            ap (λ (k : Task). k.priority) (kept x) ∙ readied_priority t x s.tasks ∙ q.priorities x;
      };
      tasks_kept = kept;
      rest_kept = same;
    }

Chain-readied :
    (t : ℕ) (ts : Store) (qs : List ℕ) (head : Option ℕ)
    → NotIn t qs
    → Chain ts head qs
    → Chain (readied t ts) head qs
Chain-readied t ts qs head n c =
    Chain-frame ts (readied t ts) qs head (All-map (λ x h. same x h) qs n) c
  where
    same : (x : ℕ) → x ≢ t → (readied t ts x).next ≡ (ts x).next
    same x h = rw (ne→== x t h) refl

walk_on :
    (prio : ℕ → ℕ) (fuel t h : ℕ) (ts : Store) (r : Option (Option ℕ × Option ℕ))
    → (ts h).priority ≡ prio h
    → leb (prio h) (prio t) ≡ true
    → walk fuel ts (prio t) (some h) (ts h).next ≡ r
    → walk (suc fuel) ts (prio t) none (some h) ≡ r
unfolding walk
walk_on prio fuel t h ts r same e w = rw (same, e) w

walk_stop :
    (prio : ℕ → ℕ) (fuel t h : ℕ) (ts : Store)
    → (ts h).priority ≡ prio h
    → leb (prio h) (prio t) ≡ false
    → walk (suc fuel) ts (prio t) none (some h) ≡ some (none, some h)
unfolding walk
walk_stop prio fuel t h ts same e = rw (same, e) refl

enqueued :
    (fuel t h p : ℕ) (s : Scheduler) (prev cur : Option ℕ) (r : Option Scheduler)
    → s.ready_queue ≡ some h
    → (s.tasks t).priority ≡ p
    → walk fuel (readied t s.tasks) p none (some h) ≡ some (prev, cur)
    → some (link t prev cur (record s { tasks = readied t s.tasks })) ≡ r
    → enqueue fuel t s ≡ r
unfolding enqueue
enqueued fuel t h p s prev cur r e same w linked =
    let w' : walk fuel (readied t s.tasks) (s.tasks t).priority none (some h) ≡ some (prev, cur) =
      subst (λ x. walk fuel (readied t s.tasks) x none (some h) ≡ some (prev, cur)) (sym same) w in
    rw (e, enqueue, w') linked

enqueue-link :
    (fuel t h p : ℕ) (s : Scheduler) (prev cur : Option ℕ)
    → s.ready_queue ≡ some h
    → (s.tasks t).priority ≡ p
    → walk fuel (readied t s.tasks) p none (some h) ≡ some (prev, cur)
    → enqueue fuel t s ≡ some (link t prev cur (record s { tasks = readied t s.tasks }))
enqueue-link fuel t h p s prev cur e same w = enqueued fuel t h p s prev cur _ e same w refl

link_behind-Queued :
    (prio : ℕ → ℕ) (t prev : ℕ) (cur : Option ℕ) (s : Scheduler) (qs : List ℕ)
    → IsQueue prio s qs
    → NotIn t qs
    → Chain (splice t prev cur (readied t s.tasks)) s.ready_queue (insert prio t qs)
    → last (insert prio t qs) ≡ (elim cur [ none ↦ some t | some _ ↦ last qs ])
    → Queued prio t s qs (link t (some prev) cur (record s { tasks = readied t s.tasks }))
link_behind-Queued prio t prev none s qs q n c l =
    link-Queued prio t s (link t (some prev) none (record s { tasks = readied t s.tasks })) qs q n
      (λ x. splice-unlinked t prev x none (readied t s.tasks)) refl c (sym l)
link_behind-Queued prio t prev (some k) s qs q n c l =
    link-Queued prio t s (link t (some prev) (some k) (record s { tasks = readied t s.tasks })) qs q
      n (λ x. splice-unlinked t prev x (some k) (readied t s.tasks)) refl c (q.tail ∙ sym l)

-- `t` becomes the head.
link_before-Queued :
    (prio : ℕ → ℕ) (t h : ℕ) (s : Scheduler) (qs : List ℕ)
    → IsQueue prio s (h ∷ qs)
    → NotIn t (h ∷ qs)
    → leb (prio h) (prio t) ≡ false
    → Queued prio t s (h ∷ qs) (link t none (some h) (record s { tasks = readied t s.tasks }))
link_before-Queued prio t h s qs q n e =
    let ts = readied t s.tasks in
    let chain : Chain (set_next t s.ready_queue ts) s.ready_queue (h ∷ qs) =
      Chain-frame ts (set_next t s.ready_queue ts) (h ∷ qs) s.ready_queue (All-map same (h ∷ qs) n)
        (Chain-readied t s.tasks (h ∷ qs) s.ready_queue n q.chain) in
    let first : (set_next t s.ready_queue ts t).next ≡ s.ready_queue = rw (eq→== t t refl) refl in
    link-Queued prio t s (link t none (some h) (record s { tasks = ts })) (h ∷ qs) q n
      (λ x. set_next-unlinked t x s.ready_queue ts) refl (rw e (refl, (first ∙ q.chain.0, chain.1)))
      (rw e q.tail)
  where
    same :
        (x : ℕ)
        → x ≢ t
        → (set_next t s.ready_queue (readied t s.tasks) x).next ≡ (readied t s.tasks x).next
    same x k = rw (ne→== x t k) refl

-- `scheduler_add_task` behind its guards, with fuel for the length of the queue.
pub enqueue-Queued :
    (prio : ℕ → ℕ) (fuel t : ℕ) (s : Scheduler) (qs : List ℕ)
    → IsQueue prio s qs
    → NotIn t qs
    → length qs ≤ fuel
    → (s' : Scheduler) × (enqueue fuel t s ≡ some s') × Queued prio t s qs s'
unfolding enqueue
enqueue-Queued prio fuel t s [] q n k =
    let s' = record s {
      tasks = readied t s.tasks;
      ready_queue = some t;
      ready_queue_tail = some t;
    } in
    (
      s',
      rw q.chain refl,
      link-Queued prio t s s' [] q n (λ x. refl) refl (refl, rw (eq→== t t refl) refl) refl,
    )
enqueue-Queued prio zero t s (h ∷ qs) q n k = absurd (omega (arith, k))
enqueue-Queued prio (suc fuel) t s (h ∷ qs) q n k =
    let ts = readied t s.tasks in
    let c = Chain-readied t s.tasks (h ∷ qs) s.ready_queue n q.chain in
    let same : (x : ℕ) → (ts x).priority ≡ prio x =
      λ x. readied_priority t x s.tasks ∙ q.priorities x in
    elim (Bool-cases (leb (prio h) (prio t))) [
      | inr e ↦ (
        link t none (some h) (record s { tasks = ts }),
        enqueue-link (suc fuel) t h (prio t) s none (some h) q.chain.0 (q.priorities t)
            (walk_stop prio fuel t h ts (same h) e),
        link_before-Queued prio t h s qs q n e,
      )
      | inl e ↦
          let w =
            walk-Linked prio fuel t h ts qs same c.1 n.0 q.distinct.0 n.1 q.distinct.1
              (omega (arith, k)) in
          let ts' = splice t w.prev w.cur ts in
          let chain : Chain ts' s.ready_queue (insert prio t (h ∷ qs)) =
            rw e (q.chain.0, w.chain) in
          let tail : last (insert prio t (h ∷ qs))
              ≡ (elim w.cur [ none ↦ some t | some _ ↦ last (h ∷ qs) ]) =
            rw e w.tail in
          (
            link t (some w.prev) w.cur (record s { tasks = ts }),
            enqueue-link (suc fuel) t h (prio t) s (some w.prev) w.cur q.chain.0 (q.priorities t)
                (walk_on prio fuel t h ts (some (some w.prev, w.cur)) (same h) e w.walked),
            link_behind-Queued prio t w.prev w.cur s (h ∷ qs) q n chain tail,
          )
    ]

-- `scheduler_add_task` of a task that has a kernel stack, does not run and is not in the queue
-- makes it ready and puts it into the queue behind all tasks of its priority or a lower number,
-- and before the others: the queue stays linked up to its tail, sorted, without a repetition and
-- with ready tasks only. Links apart, no other task changes, nor does anything else of the
-- scheduler; the walk ends within as many rounds as there are tasks in the queue.
pub add_task-Queued :
    (prio : ℕ → ℕ) (fuel t : ℕ) (s : Scheduler) (qs : List ℕ)
    → IsQueue prio s qs
    → NotIn t qs
    → (s.tasks t).kernel_stack ≢ 0
    → is_running (s.tasks t).state ≡ false
    → length qs ≤ fuel
    → (s' : Scheduler) × (add_task fuel t s ≡ some s') × Queued prio t s qs s'
unfolding add_task
add_task-Queued prio fuel t s qs q n stack idle k =
    rw (ne→== (s.tasks t).kernel_stack 0 stack, idle) (enqueue-Queued prio fuel t s qs q n k)
