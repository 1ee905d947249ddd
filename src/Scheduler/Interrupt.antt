-- ===== src/Scheduler/Interrupt.antt =====
-- `schedule_from_irq` of src/kernel/task/scheduler.c on a queue.
use szczupak_os.Base.{
  if◌then◌else◌, add64, ◌≤◌, length, ◌∷◌, ℕ, ◌≡◌, refl, sym, ap, ◌∙◌, subst, ◌≢◌, inl, inr, true,
  false, not, ◌&&◌, ◌||◌, some, List, ◌==◌, ==→eq, eq→==, ne→==, Bool-cases, update,
}
use szczupak_os.Scheduler.{
  running, irq_switch_to, returns, kernel_stack_size, has_page_table, dequeue, Task, Store,
  Scheduler, ready, is_terminated, dequeue, not_preemptible, irq_switch_to, irq_head,
  schedule_from_irq,
}
use szczupak_os.Scheduler.Queue.{Chain, IsQueue, All-map, Chain-frame}
use szczupak_os.Scheduler.Switch.{
  requeue_lem, dequeue_running, dequeue_other, Switched, not_declined,
}
use szczupak_os.Scheduler.Dequeue.{dequeue-IsQueue}

schedule_from_irq-irq_head :
    (fuel irq_rsp cs prev q : ℕ) (s : Scheduler)
    → s.enabled ≡ true
    → s.ready_queue ≡ some q
    → s.current ≡ some prev
    → irq_rsp ≢ 0
    → not_preemptible cs (s.tasks prev) ≡ false
    → schedule_from_irq fuel irq_rsp cs s ≡ irq_head fuel irq_rsp prev q s
unfolding schedule_from_irq
schedule_from_irq-irq_head fuel irq_rsp cs prev q s on head cur some_rsp may =
    simp (on, head, cur, ne→== irq_rsp 0 some_rsp, may)

irq_head-irq_switch_to :
    (fuel irq_rsp prev q : ℕ) (s : Scheduler)
    → prev ≢ q
    → (s.tasks prev).is_kernel || (is_terminated (s.tasks prev).state || not (s.tasks q).idle)
      ≡ true
    → irq_head fuel irq_rsp prev q s ≡ irq_switch_to fuel irq_rsp prev q (dequeue q s)
unfolding irq_head
irq_head-irq_switch_to fuel irq_rsp prev q s ne accepted =
    let accepted' : ((dequeue q s).tasks prev).is_kernel
          || (is_terminated ((dequeue q s).tasks prev).state || not ((dequeue q s).tasks q).idle)
        ≡ true =
      rw (ne→== prev q ne, eq→== q q refl) accepted in
    let kept : not ((dequeue q s).tasks prev).is_kernel
          && (not (is_terminated ((dequeue q s).tasks prev).state) && ((dequeue q s).tasks q).idle)
        ≡ false =
      not_declined ((dequeue q s).tasks prev).is_kernel
        (is_terminated ((dequeue q s).tasks prev).state) ((dequeue q s).tasks q).idle accepted' in
    rw (kept, ne→== q prev (λ e. ne (sym e))) refl

-- The context of the interrupted task is saved.
abbrev saved : (irq_rsp prev : ℕ) → Store → Store
saved irq_rsp prev ts = update ts prev (record (ts prev) { kernel_rsp = irq_rsp })

without_rsp :
    (irq_rsp prev x : ℕ) (ts : Store)
    → record (saved irq_rsp prev ts x) { kernel_rsp = 0 } ≡ record (ts x) { kernel_rsp = 0 }
without_rsp irq_rsp prev x ts = elim (Bool-cases (x == prev)) [
  | inl e ↦ rw e (ap (λ (y : ℕ). record (ts y) { kernel_rsp = 0 }) (sym (==→eq x prev e)))
  | inr e ↦ rw e refl
]

saved-IsQueue :
    (prio : ℕ → ℕ) (irq_rsp prev : ℕ) (s s' : Scheduler) (qs : List ℕ)
    → IsQueue prio s qs
    → s'.tasks ≡ saved irq_rsp prev s.tasks
    → s'.ready_queue ≡ s.ready_queue
    → s'.ready_queue_tail ≡ s.ready_queue_tail
    → IsQueue prio s' qs
saved-IsQueue prio irq_rsp prev s s' qs h t q l =
    let same : (x : ℕ)
        → record (s'.tasks x) { kernel_rsp = 0 } ≡ record (s.tasks x) { kernel_rsp = 0 } =
      λ x.
        ap (λ (ts : Store). record (ts x) { kernel_rsp = 0 }) t
        ∙ without_rsp irq_rsp prev x s.tasks in
    record {
      chain =
          subst (λ x. Chain s'.tasks x qs) (sym q)
            (Chain-frame s.tasks s'.tasks qs s.ready_queue
              (All-map (λ x (r : (s.tasks x).state ≡ ready). ap (λ (k : Task). k.next) (same x)) qs
                h.all_ready)
              h.chain);
      tail = l ∙ h.tail;
      distinct = h.distinct;
      sorted = h.sorted;
      all_ready = All-map (λ x r. ap (λ (k : Task). k.state) (same x) ∙ r) qs h.all_ready;
      priorities = λ x. ap (λ (k : Task). k.priority) (same x) ∙ h.priorities x;
    }

irq_switch_to_lem :
    (prio : ℕ → ℕ) (fuel irq_rsp prev q : ℕ) (s : Scheduler) (qs : List ℕ)
    → IsQueue prio s qs
    → prev ≢ q
    → (s.tasks prev).kernel_stack ≢ 0
    → (s.tasks q).state ≡ running
    → length qs ≤ fuel
    → (s' : Scheduler) × (irq_switch_to fuel irq_rsp prev q s ≡ some ((s.tasks q).kernel_rsp, s'))
      × Switched prio prev (s.tasks prev).state q qs s'
      × ((s'.tasks prev).kernel_rsp ≡ irq_rsp)
unfolding irq_switch_to
irq_switch_to_lem prio fuel irq_rsp prev q s qs h ne stack runs k =
    let ts = saved irq_rsp prev s.tasks in
    let loaded = record s {
      tasks = ts;
      current = some q;
      stack_top = add64 (ts q).kernel_stack kernel_stack_size;
      syscall_rsp = (ts q).syscall_kernel_rsp;
      page_table = if has_page_table (ts q) then (ts q).cr3 else s.page_table;
    } in
    let own : ts q ≡ s.tasks q = rw (ne→== q prev (λ e. ne (sym e))) refl in
    let kept : (ts prev).state ≡ (s.tasks prev).state = rw (eq→== prev prev refl) refl in
    let stack' : (ts prev).kernel_stack ≢ 0 = rw (eq→== prev prev refl) stack in
    let at : (ts prev).kernel_rsp ≡ irq_rsp = rw (eq→== prev prev refl) refl in
    let (s', done, after, rsp) =
      requeue_lem prio fuel prev q loaded qs
        (saved-IsQueue prio irq_rsp prev s loaded qs h refl refl refl) ne stack' refl
        (ap (λ (x : Task). x.state) own ∙ runs) k in
    (
      s',
      ap (returns (ts q).kernel_rsp) done ∙ ap (λ (x : Task). some (x.kernel_rsp, s')) own,
      subst (λ x. Switched prio prev x q qs s') kept after,
      rsp prev ∙ at,
    )

-- When the scheduler is enabled, an interrupt with a saved stack pointer may preempt the current
-- task, which has a kernel stack, the head of the queue is another task, and it is not the idle
-- task while the current one is a live user task, then `schedule_from_irq` switches to it and
-- returns the stack pointer where it was left. The stack pointer of the interrupted task is kept
-- for its return; that task is ready, if it was running, and goes behind all tasks of its priority
-- or a lower number, and the rest of the queue stays in its order.
pub schedule_from_irq-Switched :
    (prio : ℕ → ℕ) (fuel irq_rsp cs prev q : ℕ) (s : Scheduler) (qs : List ℕ)
    → IsQueue prio s (q ∷ qs)
    → s.enabled ≡ true
    → s.current ≡ some prev
    → irq_rsp ≢ 0
    → not_preemptible cs (s.tasks prev) ≡ false
    → prev ≢ q
    → (s.tasks prev).kernel_stack ≢ 0
    → (s.tasks prev).is_kernel || (is_terminated (s.tasks prev).state || not (s.tasks q).idle)
      ≡ true
    → length qs ≤ fuel
    → (s' : Scheduler) × (schedule_from_irq fuel irq_rsp cs s ≡ some ((s.tasks q).kernel_rsp, s'))
      × Switched prio prev (s.tasks prev).state q qs s'
      × ((s'.tasks prev).kernel_rsp ≡ irq_rsp)
schedule_from_irq-Switched prio fuel irq_rsp cs prev q s qs h on cur some_rsp may ne stack accepted
      k =
    let d = dequeue q s in
    let other : d.tasks prev ≡ s.tasks prev = dequeue_other q prev s ne in
    let own : (d.tasks q).kernel_rsp ≡ (s.tasks q).kernel_rsp = rw (eq→== q q refl) refl in
    let (s', done, after, rsp) =
      irq_switch_to_lem prio fuel irq_rsp prev q d qs (dequeue-IsQueue prio q s qs h) ne
        (subst (λ (x : Task). x.kernel_stack ≢ 0) (sym other) stack) (dequeue_running q s) k in
    (
      s',
      schedule_from_irq-irq_head fuel irq_rsp cs prev q s on h.chain.0 cur some_rsp may
          ∙ irq_head-irq_switch_to fuel irq_rsp prev q s ne accepted
          ∙ done
          ∙ ap (λ (x : ℕ). some (x, s')) own,
      subst (λ (x : Task). Switched prio prev x.state q qs s') other after,
      rsp,
    )
