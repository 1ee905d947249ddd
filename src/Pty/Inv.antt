-- ===== src/Pty/Inv.antt =====
-- What holds of the pty table whatever calls are made: an invariant over every sequence of them.
use szczupak_os.Base.{
  ℕ, zero, suc, ◌+◌, ◌≡◌, refl, inl, inr, Bool, true, false, not, ◌&&◌, Option, none, some, List,
  [], ◌∷◌, arith, ◌==◌, Bool-cases, if_elim, length, update,
}
use szczupak_os.Base.Int.{ℤ, pos, negsuc}
use szczupak_os.Pty.ByteRing.{Ring}
use szczupak_os.Pty.ByteRing.Queue.{IsValid, reset-IsValid, write_loop-contents, read_loop-contents}
use szczupak_os.Pty.{
  Pty, Table, Task, init, renewed, slot_valid, open_loop, pty_open, index, pty_close,
  pty_attach_slave, detach_slot, detach_loop, pty_detach_slave, task_attached, task_slot,
  pty_slave_read, pty_slave_write, pty_host_read, pty_host_write, max_count, set_in, set_out,
}

-- Both rings of a slot are valid queues, and a slot out of use has no slave.
pub record IsSound (p : Pty) : Type 0 where
  pub in_valid : IsValid p.host_to_slave
  pub out_valid : IsValid p.slave_to_host
  pub free_idle : p.used ≡ false → p.slave_pid ≡ 0

abbrev pub Inv : Table → Type 0
Inv t = (i : ℕ) → IsSound (t i)

update-Inv : (t : Table) (i : ℕ) (p : Pty) → Inv t → IsSound p → Inv (update t i p)
update-Inv t i p v s j = elim (Bool-cases (j == i)) [ inl e ↦ rw e s | inr e ↦ rw e (v j) ]

renewed-IsSound : (b : Bool) (p : Pty) → IsSound (renewed b p)
renewed-IsSound b p = record {
  in_valid = reset-IsValid p.host_to_slave;
  out_valid = reset-IsValid p.slave_to_host;
  free_idle = λ _. refl;
}

-- A call of the interface, with its arguments.
pub data Call : Type 0 where
  open_pty : Call
  close : ℤ → Call
  attach : ℤ → ℕ → Call
  detach : ℕ → Call
  slave_read : Option Task → Bool → ℕ → Call
  slave_write : Option Task → Option (List ℕ) → Call
  host_read : ℤ → Bool → ℕ → Call
  host_write : ℤ → Option (List ℕ) → Call

unfoldable pub step : Call → Table → Table
unfolding pty_open pty_close pty_attach_slave pty_detach_slave pty_slave_read pty_slave_write
    pty_host_read pty_host_write
step open_pty t = (pty_open t).1
step (close id) t = (pty_close id t).1
step (attach id pid) t = (pty_attach_slave id pid t).1
step (detach pid) t = pty_detach_slave pid t
step (slave_read k buf len) t = (pty_slave_read k buf len t).1
step (slave_write k cs) t = (pty_slave_write k cs t).1
step (host_read id buf len) t = (pty_host_read id buf len t).1
step (host_write id cs) t = (pty_host_write id cs t).1

unfoldable pub run : List Call → Table → Table
run [] t = t
run (c ∷ cs) t = run cs (step c t)

init-Inv : Inv init
init-Inv i = omega arith

open_loop-Inv : (n i : ℕ) (t : Table) → Inv t → Inv (open_loop n i t).1
unfolding open_loop
open_loop-Inv zero i t v = v
open_loop-Inv (suc n) i t v = elim (Bool-cases (t i).used) [
  | inl e ↦ rw e (open_loop-Inv n (i + 1) t v)
  | inr e ↦ rw e (update-Inv t i (renewed true (t i)) v (renewed-IsSound true (t i)))
]

close-Inv : (id : ℤ) (t : Table) → Inv t → Inv (pty_close id t).1
unfolding pty_close
close-Inv id t v = elim (Bool-cases (slot_valid t id)) [
  | inr e ↦ rw e v
  | inl e ↦ rw e (elim (Bool-cases ((t (index id)).slave_pid == 0)) [
    | inr f ↦ rw f v
    | inl f ↦ rw f (
        update-Inv t (index id) (renewed false (t (index id))) v
          (renewed-IsSound false (t (index id))))
  ])
]

-- Only a slot in use passes the test on an id.
pub used_of_valid : (t : Table) (id : ℤ) → slot_valid t id ≡ true → (t (index id)).used ≡ true
used_of_valid t (pos i) h = ground arith
used_of_valid t (negsuc i) h = ground arith

without_slave : (p : Pty) → IsSound p → IsSound (record p { slave_pid = 0 })
without_slave p s = record { in_valid = s.in_valid; out_valid = s.out_valid; free_idle = λ e. refl }

with_slave :
    (p : Pty) (pid : ℕ) → p.used ≡ true → IsSound p → IsSound (record p { slave_pid = pid })
with_slave p pid u s = record {
  in_valid = s.in_valid;
  out_valid = s.out_valid;
  free_idle = λ e. cc;
}

attach-Inv : (id : ℤ) (pid : ℕ) (t : Table) → Inv t → Inv (pty_attach_slave id pid t).1
unfolding pty_attach_slave
attach-Inv id pid t v = elim (Bool-cases (pid == 0)) [
  | inl e ↦ rw e v
  | inr e ↦ rw e (elim (Bool-cases (slot_valid t id)) [
    | inr f ↦ rw f v
    | inl f ↦
        rw f
          (elim (Bool-cases
            (not ((t (index id)).slave_pid == 0) && not ((t (index id)).slave_pid == pid))) [
              | inl g ↦ rw g v
              | inr g ↦ rw g (
                  update-Inv t (index id) (record (t (index id)) { slave_pid = pid }) v
                    (with_slave (t (index id)) pid (used_of_valid t id f) (v (index id))))
            ])
  ])
]

detach_loop-Inv : (n pid i : ℕ) (t : Table) → Inv t → Inv (detach_loop n pid i t)
unfolding detach_loop
detach_loop-Inv zero pid i t v = v
detach_loop-Inv (suc n) pid i t v = detach_loop-Inv n pid (i + 1) (detach_slot pid i t) kept
  where
    kept : Inv (detach_slot pid i t)
    kept =
        if_elim Inv (t i).used
          (if_elim Inv ((t i).slave_pid == pid) (update-Inv t i _ v (without_slave (t i) (v i))) v)
          v

set_in-Inv : (i : ℕ) (r : Ring) (t : Table) → Inv t → IsValid r → Inv (set_in i r t)
set_in-Inv i r t v s =
    update-Inv t i (record (t i) { host_to_slave = r }) v
      (record { in_valid = s; out_valid = (v i).out_valid; free_idle = (v i).free_idle })

set_out-Inv : (i : ℕ) (r : Ring) (t : Table) → Inv t → IsValid r → Inv (set_out i r t)
set_out-Inv i r t v s =
    update-Inv t i (record (t i) { slave_to_host = r }) v
      (record { in_valid = (v i).in_valid; out_valid = s; free_idle = (v i).free_idle })

slave_read-Inv :
    (k : Option Task) (b : Bool) (len : ℕ) (t : Table) → Inv t → Inv (pty_slave_read k b len t).1
unfolding pty_slave_read
slave_read-Inv k b len t v = elim (Bool-cases (b && not (len == 0))) [
  | inr e ↦ rw e v
  | inl e ↦ rw e (elim (Bool-cases (task_attached k t)) [
    | inr f ↦ rw f v
    | inl f ↦
        rw f (set_in-Inv (task_slot k) _ t v (read_loop-contents len (v (task_slot k)).in_valid).2)
  ])
]

pub slave_write-Inv :
    (k : Option Task) (cs : Option (List ℕ)) (t : Table) → Inv t → Inv (pty_slave_write k cs t).1
unfolding pty_slave_write
slave_write-Inv k none t v = v
slave_write-Inv k (some cs) t v = elim (Bool-cases (length cs == 0)) [
  | inl e ↦ rw e v
  | inr e ↦ rw e (elim (Bool-cases (task_attached k t)) [
    | inr f ↦ rw f v
    | inl f ↦
        rw f
          (set_out-Inv (task_slot k) _ t v (write_loop-contents cs 0 (v (task_slot k)).out_valid).2)
  ])
]

host_read-Inv : (id : ℤ) (b : Bool) (len : ℕ) (t : Table) → Inv t → Inv (pty_host_read id b len t).1
unfolding pty_host_read
host_read-Inv id b len t v = elim (Bool-cases (b && not (len == 0))) [
  | inr e ↦ rw e v
  | inl e ↦ rw e (elim (Bool-cases (slot_valid t id)) [
    | inr f ↦ rw f v
    | inl f ↦
        rw f (set_out-Inv (index id) _ t v (read_loop-contents len (v (index id)).out_valid).2)
  ])
]

pub host_write-Inv :
    (id : ℤ) (cs : Option (List ℕ)) (t : Table) → Inv t → Inv (pty_host_write id cs t).1
unfolding pty_host_write
host_write-Inv id none t v = v
host_write-Inv id (some cs) t v = elim (Bool-cases (length cs == 0)) [
  | inl e ↦ rw e v
  | inr e ↦ rw e (elim (Bool-cases (slot_valid t id)) [
    | inr f ↦ rw f v
    | inl f ↦
        rw f (set_in-Inv (index id) _ t v (write_loop-contents cs 0 (v (index id)).in_valid).2)
  ])
]

step-Inv : (c : Call) (t : Table) → Inv t → Inv (step c t)
unfolding step
step-Inv open_pty t v = open_loop-Inv max_count 0 t v
step-Inv (close id) t v = close-Inv id t v
step-Inv (attach id pid) t v = attach-Inv id pid t v
step-Inv (detach pid) t v = elim (Bool-cases (pid == 0)) [
  | inl e ↦ rw e v
  | inr e ↦ rw e (detach_loop-Inv max_count pid 0 t v)
]
step-Inv (slave_read k b len) t v = slave_read-Inv k b len t v
step-Inv (slave_write k cs) t v = slave_write-Inv k cs t v
step-Inv (host_read id b len) t v = host_read-Inv id b len t v
step-Inv (host_write id cs) t v = host_write-Inv id cs t v

run-Inv_from : (cs : List Call) (t : Table) → Inv t → Inv (run cs t)
unfolding run
run-Inv_from [] t v = v
run-Inv_from (c ∷ cs) t v = run-Inv_from cs (step c t) (step-Inv c t v)

-- After `pty_init` and any sequence of calls, in every slot both rings are valid queues (the read
-- index and the count lie within the buffer, and the write index is where the stored bytes end),
-- and a slot that is not in use has no slave.
pub run-Inv : (cs : List Call) → Inv (run cs init)
run-Inv cs = run-Inv_from cs init init-Inv
