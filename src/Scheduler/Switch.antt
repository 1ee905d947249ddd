-- ===== src/Scheduler/Switch.antt =====
-- `schedule` of src/kernel/task/scheduler.c on a queue.
use szczupak_os.Base.{
  ℕ, ◌≤◌, ◌≡◌, refl, sym, ap, ◌∙◌, subst, ◌≢◌, inl, inr, Bool, true, false, not, ◌&&◌, ◌||◌, some,
  List, [], ◌∷◌, arith, ◌==◌, if◌then◌else◌, ==→eq, eq→==, ne→==, Bool-cases, length, All, update,
}
use szczupak_os.Scheduler.{
  Store, readied, Task, Scheduler, TaskState, ready, running, is_running, is_terminated, add_task,
  dequeue, stay, switch, stays, switches, adopt, bad_kernel_rsp, has_page_table, requeue, switch_to,
  schedule_head, schedule,
}
use szczupak_os.Scheduler.Queue.{insert, NotIn, IsQueue}
use szczupak_os.Scheduler.Add.{add_task-Queued}
use szczupak_os.Scheduler.Dequeue.{changed-IsQueue, dequeue-IsQueue}

schedule-schedule_head :
    (kernel_mapped : ℕ → Bool) (fuel prev q : ℕ) (s : Scheduler)
    → s.enabled ≡ true
    → s.ready_queue ≡ some q
    → s.current ≡ some prev
    → schedule kernel_mapped fuel s ≡ schedule_head kernel_mapped fuel prev q s
unfolding schedule
schedule-schedule_head kernel_mapped fuel prev q s on head cur = simp (on, head, cur)

pub dequeue_other : (q x : ℕ) (s : Scheduler) → x ≢ q → (dequeue q s).tasks x ≡ s.tasks x
dequeue_other q x s e = rw (ne→== x q e) refl

dequeue_idle : (q : ℕ) (s : Scheduler) → ((dequeue q s).tasks q).idle ≡ (s.tasks q).idle
dequeue_idle q s = rw (eq→== q q refl) refl

pub dequeue_running : (q : ℕ) (s : Scheduler) → ((dequeue q s).tasks q).state ≡ running
dequeue_running q s = rw (eq→== q q refl) refl

-- `scheduler_add_task` of a task that runs changes nothing.
add_task_running :
    (fuel t : ℕ) (s : Scheduler) → (s.tasks t).state ≡ running → add_task fuel t s ≡ some s
unfolding add_task
add_task_running fuel t s h = elim (Bool-cases ((s.tasks t).kernel_stack == 0)) [
  | inl e ↦ simp e
  | inr e ↦ simp (e, h)
]

-- When the scheduler is enabled, the current task is a user task that has not terminated, and the
-- head of the queue is another task, named "idle", `schedule` goes on with the current task; the
-- idle task, which is marked as running by then, has left the queue and is not put back.
pub schedule_declined :
    (prio : ℕ → ℕ) (kernel_mapped : ℕ → Bool) (fuel prev q : ℕ) (s : Scheduler) (qs : List ℕ)
    → IsQueue prio s (q ∷ qs)
    → s.enabled ≡ true
    → s.current ≡ some prev
    → prev ≢ q
    → (s.tasks prev).is_kernel ≡ false
    → is_terminated (s.tasks prev).state ≡ false
    → (s.tasks q).idle ≡ true
    → (schedule kernel_mapped fuel s ≡ some (stay (dequeue q s))) × IsQueue prio (dequeue q s) qs
unfolding schedule_head
schedule_declined prio kernel_mapped fuel prev q s qs h on cur ne user alive idle =
    let user' : ((dequeue q s).tasks prev).is_kernel ≡ false =
      ap (λ (k : Task). k.is_kernel) (dequeue_other q prev s ne) ∙ user in
    let alive' : is_terminated ((dequeue q s).tasks prev).state ≡ false =
      ap (λ (k : Task). is_terminated k.state) (dequeue_other q prev s ne) ∙ alive in
    let idle' : ((dequeue q s).tasks q).idle ≡ true = dequeue_idle q s ∙ idle in
    let declined : schedule_head kernel_mapped fuel prev q s
        ≡ stays (add_task fuel q (dequeue q s)) =
      rw (user', alive', idle') refl in
    (
      schedule-schedule_head kernel_mapped fuel prev q s on h.chain.0 cur
          ∙ declined
          ∙ ap stays (add_task_running fuel q (dequeue q s) (dequeue_running q s)),
      dequeue-IsQueue prio q s qs h,
    )

adopt_tasks : (q : ℕ) (d : Scheduler) (x : ℕ) → x ≢ q → (adopt q d).tasks x ≡ d.tasks x
adopt_tasks q d x e = elim (Bool-cases (d.tasks q).idle) [
  | inl b ↦ rw (b, ne→== x q e) refl
  | inr b ↦ rw b refl
]

adopt_at :
    (q : ℕ) (d : Scheduler)
    → (((adopt q d).tasks q).priority ≡ (d.tasks q).priority)
      × (((adopt q d).tasks q).state ≡ (d.tasks q).state)
adopt_at q d = elim (Bool-cases (d.tasks q).idle) [
  | inl b ↦ rw (b, eq→== q q refl) (refl, refl)
  | inr b ↦ rw b (refl, refl)
]

-- What a switch to `q` leaves, where the queue behind `q` was `qs`, and the current task `prev` was
-- in the state `before`.
pub record Switched (prio : ℕ → ℕ) (prev : ℕ) (before : TaskState) (q : ℕ) (qs : List ℕ)
    (s' : Scheduler) : Type 0 where
  pub queue : IsQueue prio s' (if is_running before then insert prio prev qs else qs)
  pub current : s'.current ≡ some q
  pub runs : (s'.tasks q).state ≡ running
  pub yields : (s'.tasks prev).state ≡ (if is_running before then ready else before)

-- A task that is queued is not running.
running-NotIn :
    (prev : ℕ) (s : Scheduler) (qs : List ℕ)
    → is_running (s.tasks prev).state ≡ true
    → All (λ q. (s.tasks q).state ≡ ready) qs
    → NotIn prev qs
running-NotIn prev s [] r a = tt
running-NotIn prev s (q ∷ qs) r a = (
  λ e.
      (let bad : is_running ready ≡ true =
          (sym (ap is_running a.0) ∙ ap (λ (x : ℕ). is_running (s.tasks x).state) e ∙ r) in
        cc),
  running-NotIn prev s qs r a.1,
)

rsp_kept :
    (t x : ℕ) (ts : Store)
    → (readied t (update ts t (record (ts t) { state = ready })) x).kernel_rsp ≡ (ts x).kernel_rsp
rsp_kept t x ts = elim (Bool-cases (x == t)) [
  | inl e ↦
      subst
        (λ y.
          (readied t (update ts t (record (ts t) { state = ready })) y).kernel_rsp
          ≡ (ts y).kernel_rsp)
        (sym (==→eq x t e)) (rw (eq→== t t refl) refl)
  | inr e ↦ rw e refl
]

pub requeue_lem :
    (prio : ℕ → ℕ) (fuel prev q : ℕ) (s : Scheduler) (qs : List ℕ)
    → IsQueue prio s qs
    → prev ≢ q
    → (s.tasks prev).kernel_stack ≢ 0
    → s.current ≡ some q
    → (s.tasks q).state ≡ running
    → length qs ≤ fuel
    → (s' : Scheduler) × (requeue fuel prev s ≡ some s')
      × Switched prio prev (s.tasks prev).state q qs s'
      × ((x : ℕ) → (s'.tasks x).kernel_rsp ≡ (s.tasks x).kernel_rsp)
requeue_lem prio fuel prev q s qs h ne stack cur runs k =
    elim (Bool-cases (is_running (s.tasks prev).state)) [
      | inr e ↦ (
        s,
        rw e refl,
        record { queue = rw e h; current = cur; runs = runs; yields = rw e refl },
        λ x. refl,
      )
      | inl e ↦
          let n = running-NotIn prev s qs e h.all_ready in
          let c = record s {
            tasks = update s.tasks prev (record (s.tasks prev) { state = ready });
          } in
          let hc : IsQueue prio c qs =
            changed-IsQueue prio prev s c qs h n refl refl (λ x d. rw (ne→== x prev d) refl)
              (rw (eq→== prev prev refl) refl) in
          let stack' : (c.tasks prev).kernel_stack ≢ 0 = rw (eq→== prev prev refl) stack in
          let waits : is_running (c.tasks prev).state ≡ false = rw (eq→== prev prev refl) refl in
          let added = add_task-Queued prio fuel prev c qs hc n stack' waits k in
          let s' = added.0 in
          (
            s',
            rw e added.1,
            record {
              queue = rw e added.2.queue;
              current = ap (λ (x : Scheduler). x.current) added.2.rest_kept ∙ cur;
              runs =
                  ap (λ (x : Task). x.state) (added.2.tasks_kept q)
                  ∙ rw (ne→== q prev (λ d. ne (sym d))) runs;
              yields = rw e (
                  ap (λ (x : Task). x.state) (added.2.tasks_kept prev)
                  ∙ rw (eq→== prev prev refl) refl);
            },
            λ x. ap (λ (y : Task). y.kernel_rsp) (added.2.tasks_kept x) ∙ rsp_kept prev x s.tasks,
          )
    ]

switch_to_lem :
    (prio : ℕ → ℕ) (kernel_mapped : ℕ → Bool) (fuel prev q : ℕ) (s : Scheduler) (qs : List ℕ)
    → IsQueue prio s qs
    → prev ≢ q
    → (s.tasks prev).kernel_stack ≢ 0
    → s.current ≡ some q
    → (s.tasks q).state ≡ running
    → bad_kernel_rsp (s.tasks q) ≡ false
    → kernel_mapped q ≡ true
    → length qs ≤ fuel
    → (s' : Scheduler) × (switch_to kernel_mapped fuel prev q s ≡ some (switch prev q s'))
      × Switched prio prev (s.tasks prev).state q qs s'
switch_to_lem prio kernel_mapped fuel prev q s qs h ne stack cur runs fine mapped k =
    elim (Bool-cases (has_page_table (s.tasks q))) [
      | inl e ↦
          let loaded = record s { page_table = (s.tasks q).cr3 } in
          let same : IsQueue prio loaded qs = record {
            chain = h.chain;
            tail = h.tail;
            distinct = h.distinct;
            sorted = h.sorted;
            all_ready = h.all_ready;
            priorities = h.priorities;
          } in
          let (s', done, after, _) =
            requeue_lem prio fuel prev q loaded qs same ne stack cur runs k in
          (s', rw (fine, e, mapped) (ap (switches prev q) done), after)
      | inr e ↦
          let (s', done, after, _) = requeue_lem prio fuel prev q s qs h ne stack cur runs k in
          (s', rw (fine, e) (ap (switches prev q) done), after)
    ]

pub not_declined :
    (kernel terminated idle : Bool)
    → kernel || (terminated || not idle) ≡ true
    → not kernel && (not terminated && idle) ≡ false
not_declined kernel terminated idle h = ground arith

schedule_head-switch_to :
    (kernel_mapped : ℕ → Bool) (fuel prev q : ℕ) (s : Scheduler)
    → prev ≢ q
    → (s.tasks prev).is_kernel || (is_terminated (s.tasks prev).state || not (s.tasks q).idle)
      ≡ true
    → schedule_head kernel_mapped fuel prev q s
      ≡ switch_to kernel_mapped fuel prev q (adopt q (dequeue q s))
unfolding schedule_head
schedule_head-switch_to kernel_mapped fuel prev q s ne accepted =
    let accepted' : ((dequeue q s).tasks prev).is_kernel
          || (is_terminated ((dequeue q s).tasks prev).state || not ((dequeue q s).tasks q).idle)
        ≡ true =
      rw (ne→== prev q ne, eq→== q q refl) accepted in
    let kept : not ((dequeue q s).tasks prev).is_kernel
          && (not (is_terminated ((dequeue q s).tasks prev).state) && ((dequeue q s).tasks q).idle)
        ≡ false =
      not_declined ((dequeue q s).tasks prev).is_kernel
        (is_terminated ((dequeue q s).tasks prev).state) ((dequeue q s).tasks q).idle accepted' in
    rw (kept, ne→== q prev (λ e. ne (sym e))) refl

-- When the scheduler is enabled, the current task has a kernel stack, the head of the queue is
-- another task, it is not the idle task while the current one is a live user task, and its stack
-- pointer and page table pass the checks, then `schedule` switches to it: it becomes the current
-- task and runs. The rest of the queue stays in its order, and the task that was current, if it was
-- running, is ready and goes behind all tasks of its priority or a lower number.
pub schedule-Switched :
    (prio : ℕ → ℕ) (kernel_mapped : ℕ → Bool) (fuel prev q : ℕ) (s : Scheduler) (qs : List ℕ)
    → IsQueue prio s (q ∷ qs)
    → s.enabled ≡ true
    → s.current ≡ some prev
    → prev ≢ q
    → (s.tasks prev).kernel_stack ≢ 0
    → (s.tasks prev).is_kernel || (is_terminated (s.tasks prev).state || not (s.tasks q).idle)
      ≡ true
    → bad_kernel_rsp ((adopt q (dequeue q s)).tasks q) ≡ false
    → kernel_mapped q ≡ true
    → length qs ≤ fuel
    → (s' : Scheduler) × (schedule kernel_mapped fuel s ≡ some (switch prev q s'))
      × Switched prio prev (s.tasks prev).state q qs s'
schedule-Switched prio kernel_mapped fuel prev q s qs h on cur ne stack accepted fine mapped k =
    let d = dequeue q s in
    let a = adopt q d in
    let queue : IsQueue prio a qs =
      changed-IsQueue prio q d a qs (dequeue-IsQueue prio q s qs h) h.distinct.0 refl refl
        (adopt_tasks q d) (adopt_at q d).0 in
    let other : a.tasks prev ≡ s.tasks prev = adopt_tasks q d prev ne ∙ dequeue_other q prev s ne in
    let (s', done, after) =
      switch_to_lem prio kernel_mapped fuel prev q a qs queue ne
        (subst (λ (x : Task). x.kernel_stack ≢ 0) (sym other) stack) refl
        ((adopt_at q d).1 ∙ dequeue_running q s) fine mapped k in
    (
      s',
      schedule-schedule_head kernel_mapped fuel prev q s on h.chain.0 cur
          ∙ schedule_head-switch_to kernel_mapped fuel prev q s ne accepted
          ∙ done,
      subst (λ (x : Task). Switched prio prev x.state q qs s') other after,
    )
