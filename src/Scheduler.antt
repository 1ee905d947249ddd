-- ===== src/Scheduler.antt =====
-- The ready queue of src/kernel/task/scheduler.c: the queue is linked through the tasks, which stand
-- in a store; a task's address is its index, and a null pointer is `none`. Every function holds the
-- lock with interrupts off, so it is one step. A walk along the queue has fuel and yields `none`
-- when that runs out.
pub mod Queue
pub mod Walk
pub mod Add
pub mod Dequeue
pub mod Switch
pub mod Remove
pub mod Interrupt
mod Tests
use szczupak_os.Base.{
  ℕ, zero, suc, ◌+◌, ◌-◌, ◌*◌, ◌/◌, ◌%◌, ◌^◌, ◌≤◌, ◌<◌, min, ◌≡◌, refl, sym, ap, ap₂, ◌∙◌, subst,
  ◌≢◌, ◌↔◌, ◌⊎◌, inl, inr, Bool, true, false, not, ◌&&◌, ◌||◌, Option, none, some, List, [], ◌∷◌,
  ◌++◌, arith, ltb, leb, ◌==◌, if◌then◌else◌, ltb→lt, ltb→ge, lt→ltb, ge→ltb, leb→le, leb→gt,
  le→leb, gt→leb, ==→eq, ==→ne, eq→==, ne→==, tests, Bool-cases, Option-cases, if_elim, some_inj,
  length, take, drop, get_or, length-append, length-take, take_nil, take_cons, take_zero, take_all,
  drop_nil, take-min, All, update, slice, update_self, update_ne, slice_eq, add16, add32, sub32,
  add64, sub64, mul64, page_size, align_down, align_up,
}

-- `task_state_t`
pub data TaskState : Type 0 where
  ready : TaskState
  running : TaskState
  blocked : TaskState
  sleeping : TaskState
  waiting : TaskState
  zombie : TaskState
  terminated : TaskState

abbrev pub is_running : TaskState → Bool
is_running running = true
is_running ready = false
is_running blocked = false
is_running sleeping = false
is_running waiting = false
is_running zombie = false
is_running terminated = false

abbrev pub is_terminated : TaskState → Bool
is_terminated terminated = true
is_terminated ready = false
is_terminated running = false
is_terminated blocked = false
is_terminated sleeping = false
is_terminated waiting = false
is_terminated zombie = false

-- `task_t`: what the scheduler reads and writes. `idle` is whether the name is "idle".
pub record Task : Type 0 where
  pub pid : ℕ
  pub idle : Bool
  pub state : TaskState
  pub kernel_rsp : ℕ
  pub cr3 : ℕ
  pub kernel_stack : ℕ
  pub next : Option ℕ
  pub priority : ℕ
  pub is_kernel : Bool
  pub syscall_kernel_rsp : ℕ
  pub kernel_preempt_ok : Bool

abbrev pub Store : Type 0
Store = ℕ → Task

-- The scheduler's variables, the current task, and the registers that a switch loads.
pub record Scheduler : Type 0 where
  pub tasks : Store
  pub ready_queue : Option ℕ
  pub ready_queue_tail : Option ℕ
  pub enabled : Bool
  pub current : Option ℕ
  pub stack_top : ℕ
  pub syscall_rsp : ℕ
  pub page_table : ℕ

-- `KERNEL_STACK_SIZE`
abbrev pub kernel_stack_size : ℕ
kernel_stack_size = 16384

abbrev pub set_next : ℕ → Option ℕ → Store → Store
set_next t n ts = update ts t (record (ts t) { next = n })

-- `scheduler_init`
pub init : Scheduler → Scheduler
init s = record s { ready_queue = none; ready_queue_tail = none; enabled = false }

-- `scheduler_enable` and `scheduler_disable`
pub set_enabled : Bool → Scheduler → Scheduler
set_enabled b s = record s { enabled = b }

-- The loop of `scheduler_add_task` for a task of priority `p`: `prev` and `cur` at its end.
unfoldable pub walk :
    (fuel : ℕ) → Store → (p : ℕ) → (prev cur : Option ℕ) → Option (Option ℕ × Option ℕ)
walk fuel ts p prev none = some (prev, none)
walk zero ts p prev (some c) = if leb (ts c).priority p then none else some (prev, some c)
walk (suc fuel) ts p prev (some c) =
    let rest = walk fuel ts p (some c) (ts c).next in
    if leb (ts c).priority p then rest else some (prev, some c)

-- The store when `t` is linked in between `prev` and `cur`.
abbrev pub splice : (t prev : ℕ) (cur : Option ℕ) → Store → Store
splice t prev cur ts = set_next prev (some t) (set_next t cur ts)

-- The writes behind the loop.
abbrev pub link : (t : ℕ) (prev cur : Option ℕ) → Scheduler → Scheduler
link t none cur s = record s { tasks = set_next t s.ready_queue s.tasks; ready_queue = some t }
link t (some p) none s = record s { tasks = splice t p none s.tasks; ready_queue_tail = some t }
link t (some p) (some c) s = record s { tasks = splice t p (some c) s.tasks }

-- The task when it is about to be queued.
abbrev pub readied : ℕ → Store → Store
readied t ts = update ts t (record (ts t) { next = none; state = ready })

-- `scheduler_add_task` behind its guards
unfoldable pub enqueue : (fuel t : ℕ) → Scheduler → Option Scheduler
enqueue fuel t s = elim s.ready_queue [
  | none ↦
      some (record s { tasks = readied t s.tasks; ready_queue = some t; ready_queue_tail = some t })
  | some q ↦ elim (walk fuel (readied t s.tasks) (s.tasks t).priority none (some q)) [
    | none ↦ none
    | some (prev, cur) ↦ some (link t prev cur (record s { tasks = readied t s.tasks }))
  ]
]

-- `scheduler_add_task`
unfoldable pub add_task : (fuel t : ℕ) → Scheduler → Option Scheduler
add_task fuel t s =
    if (s.tasks t).kernel_stack == 0
    then some s
    else if is_running (s.tasks t).state
    then some s
    else enqueue fuel t s

-- The head leaves the queue and runs.
abbrev pub dequeue : ℕ → Scheduler → Scheduler
dequeue q s = record s {
  tasks = update s.tasks q (record (s.tasks q) { next = none; state = running });
  ready_queue = (s.tasks q).next;
  ready_queue_tail = elim (s.tasks q).next [ none ↦ none | some _ ↦ s.ready_queue_tail ];
}

-- What `schedule` ends with: the caller goes on, another task's context is loaded, or a panic.
pub data Outcome : Type 0 where
  stay : Scheduler → Outcome
  switch : (old new : ℕ) → Scheduler → Outcome
  panic : Outcome

abbrev pub stays : Option Scheduler → Option Outcome
stays none = none
stays (some s) = some (stay s)

-- The task that runs next, from its kernel stack to the reset of the idle task's context.
abbrev pub adopt : ℕ → Scheduler → Scheduler
adopt q s =
    let k = s.tasks q in
    record s {
      tasks =
          if k.idle
          then update s.tasks q (record k { kernel_rsp = add64 k.kernel_stack kernel_stack_size })
          else s.tasks;
      current = some q;
      stack_top = add64 k.kernel_stack kernel_stack_size;
      syscall_rsp = k.syscall_kernel_rsp;
    }

-- Whether a kernel task's stack pointer lies outside of its stack.
abbrev pub bad_kernel_rsp : Task → Bool
bad_kernel_rsp k =
    k.is_kernel
    && (ltb k.kernel_rsp k.kernel_stack
        || ltb (add64 k.kernel_stack kernel_stack_size) k.kernel_rsp)

-- Whether a task has page tables of its own to load.
abbrev pub has_page_table : Task → Bool
has_page_table k = not k.is_kernel && not (k.cr3 == 0)

-- `prev` goes back to the queue if it was running.
abbrev pub requeue : (fuel prev : ℕ) → Scheduler → Option Scheduler
requeue fuel prev s =
    if is_running (s.tasks prev).state
    then add_task fuel prev
        (record s { tasks = update s.tasks prev (record (s.tasks prev) { state = ready }) })
    else some s

abbrev pub switches : (old new : ℕ) → Option Scheduler → Option Outcome
switches old new none = none
switches old new (some s) = some (switch old new s)

-- `schedule` from the check of the stack pointer on. `kernel_mapped` is whether the page table of a
-- task maps the kernel, once the kernel's mappings are copied to it.
abbrev pub switch_to : (kernel_mapped : ℕ → Bool) → (fuel prev q : ℕ) → Scheduler → Option Outcome
switch_to kernel_mapped fuel prev q s =
    if bad_kernel_rsp (s.tasks q)
    then some panic
    else if has_page_table (s.tasks q)
    then if kernel_mapped q
      then switches prev q (requeue fuel prev (record s { page_table = (s.tasks q).cr3 }))
      else some panic
    else switches prev q (requeue fuel prev s)

-- `schedule` with `q` at the head of the queue
unfoldable pub schedule_head :
    (kernel_mapped : ℕ → Bool) → (fuel prev q : ℕ) → Scheduler → Option Outcome
schedule_head kernel_mapped fuel prev q s =
    let d = dequeue q s in
    if not (d.tasks prev).is_kernel
      && (not (is_terminated (d.tasks prev).state) && (d.tasks q).idle)
    then stays (add_task fuel q d)
    else if q == prev
    then stays (add_task fuel q d)
    else switch_to kernel_mapped fuel prev q (adopt q d)

-- `schedule`
unfoldable pub schedule : (kernel_mapped : ℕ → Bool) → (fuel : ℕ) → Scheduler → Option Outcome
schedule kernel_mapped fuel s =
    if s.enabled
    then (elim s.ready_queue [
      | none ↦ some (stay s)
      | some q ↦ (elim s.current [
        | none ↦ some (stay s)
        | some prev ↦ schedule_head kernel_mapped fuel prev q s
      ])
    ])
    else some (stay s)

-- The writes of `scheduler_remove_task` for the task `cur` behind `prev`.
abbrev pub unlink : (prev : Option ℕ) (cur : ℕ) → Scheduler → Scheduler
unlink prev cur s = record s {
  tasks = elim prev [ none ↦ s.tasks | some p ↦ set_next p (s.tasks cur).next s.tasks ];
  ready_queue = elim prev [ none ↦ (s.tasks cur).next | some _ ↦ s.ready_queue ];
  ready_queue_tail = elim s.ready_queue_tail [
    | none ↦ none
    | some l ↦ if l == cur then prev else some l
  ];
}

-- Its loop.
unfoldable pub remove_loop : (fuel t : ℕ) → (prev cur : Option ℕ) → Scheduler → Option Scheduler
remove_loop fuel t prev none s = some s
remove_loop zero t prev (some c) s = if c == t then some (unlink prev c s) else none
remove_loop (suc fuel) t prev (some c) s =
    let rest = remove_loop fuel t (some c) (s.tasks c).next s in
    if c == t then some (unlink prev c s) else rest

-- `scheduler_remove_task`
unfoldable pub remove_task : (fuel t : ℕ) → Scheduler → Option Scheduler
remove_task fuel t s = remove_loop fuel t none s.ready_queue s

-- What `schedule_from_irq` returns, with the state: the stack pointer to go on with, or 0.
abbrev pub returns : ℕ → Option Scheduler → Option (ℕ × Scheduler)
returns rsp none = none
returns rsp (some s) = some (rsp, s)

-- `schedule_from_irq` from the save of the interrupted context on.
unfoldable pub irq_switch_to : (fuel irq_rsp prev q : ℕ) → Scheduler → Option (ℕ × Scheduler)
irq_switch_to fuel irq_rsp prev q s =
    let saved = update s.tasks prev (record (s.tasks prev) { kernel_rsp = irq_rsp }) in
    let k = saved q in
    let loaded = record s {
      tasks = saved;
      current = some q;
      stack_top = add64 k.kernel_stack kernel_stack_size;
      syscall_rsp = k.syscall_kernel_rsp;
      page_table = if has_page_table k then k.cr3 else s.page_table;
    } in
    returns k.kernel_rsp (requeue fuel prev loaded)

-- `schedule_from_irq` with `q` at the head of the queue.
unfoldable pub irq_head : (fuel irq_rsp prev q : ℕ) → Scheduler → Option (ℕ × Scheduler)
irq_head fuel irq_rsp prev q s =
    let d = dequeue q s in
    if q == prev
    then returns 0 (add_task fuel q d)
    else if not (d.tasks prev).is_kernel
        && (not (is_terminated (d.tasks prev).state) && (d.tasks q).idle)
    then returns 0 (add_task fuel q d)
    else irq_switch_to fuel irq_rsp prev q d

-- Whether the interrupt came in the kernel, in a task that must not be interrupted there; `cs` is
-- the code segment that it saved.
abbrev pub not_preemptible : (cs : ℕ) → Task → Bool
not_preemptible cs k =
    not (cs % 4 == 3)
    && (not (k.pid == 0) && (not (is_terminated k.state) && not k.kernel_preempt_ok))

-- `schedule_from_irq`: a null `irq_rsp` is 0.
unfoldable pub schedule_from_irq : (fuel irq_rsp cs : ℕ) → Scheduler → Option (ℕ × Scheduler)
schedule_from_irq fuel irq_rsp cs s =
    if s.enabled
    then (elim s.ready_queue [
      | none ↦ some (0, s)
      | some q ↦ if irq_rsp == 0 then some (0, s) else (elim s.current [
        | none ↦ some (0, s)
        | some prev ↦
            if not_preemptible cs (s.tasks prev)
            then some (0, s)
            else irq_head fuel irq_rsp prev q s
      ])
    ])
    else some (0, s)
