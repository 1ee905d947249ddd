-- ===== src/Scheduler/Tests.antt =====
-- The theorems about src/kernel/task/scheduler.c on a queue of three tasks, and runs of the code.
use szczupak_os.Scheduler.Interrupt.{schedule_from_irq-Switched}
use szczupak_os.Scheduler.Remove.{remove_task-Removed, Removed}
use szczupak_os.Base.{
  ℕ, ◌≡◌, refl, Bool, true, false, ◌&&◌, Option, none, some, List, [], ◌∷◌, arith, ◌==◌,
  if◌then◌else◌,
}
use szczupak_os.Scheduler.{
  walk, schedule_from_irq, enqueue, remove_task, Store, Scheduler, ready, running, add_task,
  dequeue, stay, switch, schedule,
}
use szczupak_os.Scheduler.Queue.{IsQueue}
use szczupak_os.Scheduler.Add.{Queued, add_task-Queued}
use szczupak_os.Scheduler.Switch.{Switched, schedule-Switched, schedule_declined}

-- Task 7 is queued before task 3, and 3 before 5; task 9 is current, and task 7 is the idle
-- task or not.
abbrev prio : ℕ → ℕ
prio q = if q == 7 then 1 else 10

abbrev links : ℕ → Option ℕ
links q = if q == 7 then some 3 else if q == 3 then some 5 else none

abbrev store : Bool → Store
store idle q = record {
  pid = q;
  idle = idle && q == 7;
  state = if q == 9 then running else ready;
  kernel_rsp = 0x9000;
  cr3 = 0;
  kernel_stack = 0x8000;
  next = links q;
  priority = prio q;
  is_kernel = false;
  syscall_kernel_rsp = 0;
  kernel_preempt_ok = false;
}

abbrev three : Bool → Scheduler
three idle = record {
  tasks = store idle;
  ready_queue = some 7;
  ready_queue_tail = some 5;
  enabled = true;
  current = some 9;
  stack_top = 0;
  syscall_rsp = 0;
  page_table = 0;
}

abbrev queued : List ℕ
queued = 7 ∷ 3 ∷ 5 ∷ []

three-IsQueue : (idle : Bool) → IsQueue prio (three idle) queued
three-IsQueue idle = record {
  chain = (refl, (refl, (refl, refl)));
  tail = refl;
  distinct = ((omega arith, (omega arith, tt)), ((omega arith, tt), (tt, tt)));
  sorted = ((omega arith, (omega arith, tt)), ((omega arith, tt), (tt, tt)));
  all_ready = (refl, (refl, (refl, tt)));
  priorities = λ q. refl;
}

add_task-Queued_example :
    (s' : Scheduler) × (add_task 3 4 (three false) ≡ some s')
    × Queued prio 4 (three false) queued s'
add_task-Queued_example =
    add_task-Queued prio 3 4 (three false) queued (three-IsQueue false)
      (omega arith, (omega arith, (omega arith, tt))) (omega arith) refl (omega arith)

schedule-Switched_example :
    (s' : Scheduler) × (schedule (λ _. true) 3 (three false) ≡ some (switch 9 7 s'))
    × Switched prio 9 running 7 (3 ∷ 5 ∷ []) s'
schedule-Switched_example =
    schedule-Switched prio (λ _. true) 3 9 7 (three false) (3 ∷ 5 ∷ []) (three-IsQueue false) refl
      refl (omega arith) (omega arith) refl refl refl (omega arith)

schedule_declined_example :
    (schedule (λ _. true) 3 (three true) ≡ some (stay (dequeue 7 (three true))))
    × IsQueue prio (dequeue 7 (three true)) (3 ∷ 5 ∷ [])
schedule_declined_example =
    schedule_declined prio (λ _. true) 3 9 7 (three true) (3 ∷ 5 ∷ []) (three-IsQueue true) refl
      refl (omega arith) refl refl refl

remove_task-Removed_example :
    (s' : Scheduler) × (remove_task 3 3 (three false) ≡ some s')
    × Removed prio 3 (three false) queued s'
remove_task-Removed_example =
    remove_task-Removed prio 3 3 (three false) queued (three-IsQueue false) (omega arith)

schedule_from_irq-Switched_example :
    (s' : Scheduler) × (schedule_from_irq 3 0x7000 0x23 (three false) ≡ some (0x9000, s'))
    × Switched prio 9 running 7 (3 ∷ 5 ∷ []) s'
    × ((s'.tasks 9).kernel_rsp ≡ 0x7000)
schedule_from_irq-Switched_example =
    schedule_from_irq-Switched prio 3 0x7000 0x23 9 7 (three false) (3 ∷ 5 ∷ [])
      (three-IsQueue false) refl refl (omega arith) refl (omega arith) (omega arith) refl
      (omega arith)

-- The link of task 5 and the tail, once task 4 is queued behind it.
abbrev ends : Option Scheduler → Option ℕ × Option ℕ
ends none = (none, none)
ends (some s) = ((s.tasks 5).next, s.ready_queue_tail)

four_queued : ends (add_task 3 4 (three false)) ≡ (some 4, some 4)
unfolding add_task enqueue walk
four_queued = refl
