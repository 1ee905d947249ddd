-- ===== src/Pty.antt =====
-- Pseudo terminals: src/kernel/pty.c. Each function runs with interrupts off, so that it is one
-- step on the table `g_ptys`. A buffer to write from is the list of its `len` bytes, and a read
-- returns the bytes that it stores; `none` and `false` stand for a null pointer.
pub mod ByteRing
pub mod Inv
pub mod Slots
pub mod Stream
pub mod RoundTrip
mod Tests
use szczupak_os.Base.{
  ℕ, zero, suc, ◌+◌, ◌-◌, ◌*◌, ◌/◌, ◌%◌, ◌^◌, ◌≤◌, ◌<◌, min, ◌≡◌, refl, sym, ap, ap₂, ◌∙◌, subst,
  ◌≢◌, ◌↔◌, ◌⊎◌, inl, inr, Bool, true, false, not, ◌&&◌, ◌||◌, Option, none, some, List, [], ◌∷◌,
  ◌++◌, arith, ltb, leb, ◌==◌, if◌then◌else◌, ltb→lt, ltb→ge, lt→ltb, ge→ltb, leb→le, leb→gt,
  le→leb, gt→leb, ==→eq, ==→ne, eq→==, ne→==, tests, Bool-cases, Option-cases, length, take, drop,
  get_or, length-append, length-take, take_nil, take_cons, take_zero, take_all, All, update, slice,
  update_self, update_ne, slice_eq, add16, add32, sub32, add64, sub64, mul64, page_size, align_down,
  align_up,
}
use szczupak_os.Base.Int.{ℤ, pos, negsuc, minus_one}
use szczupak_os.Pty.ByteRing.{Ring, reset, write_loop, read_loop}

-- `PTY_MAX_COUNT`
abbrev pub max_count : ℕ
max_count = 8

-- `pty_t`
pub record Pty : Type 0 where
  pub used : Bool
  pub slave_pid : ℕ
  pub host_to_slave : Ring
  pub slave_to_host : Ring

-- `g_ptys`
abbrev pub Table : Type 0
Table = ℕ → Pty

-- The fields of `task_t` that this part reads.
pub record Task : Type 0 where
  pub pid : ℕ
  pub pty_id : ℤ

abbrev zero_ring : Ring
zero_ring = record { bytes = λ _. 0; head = 0; tail = 0; count = 0 }

abbrev zero_pty : Pty
zero_pty = record {
  used = false;
  slave_pid = 0;
  host_to_slave = zero_ring;
  slave_to_host = zero_ring;
}

-- `pty_init`: `memset` of the whole table to zero
abbrev pub init : Table
init = λ _. zero_pty

-- a slot in use again, or closed, with both rings reset
abbrev pub renewed : Bool → Pty → Pty
renewed b p = record {
  used = b;
  slave_pid = 0;
  host_to_slave = reset p.host_to_slave;
  slave_to_host = reset p.slave_to_host;
}

-- `pty_slot_valid_locked`
abbrev pub slot_valid : Table → ℤ → Bool
slot_valid t (pos i) = if leb max_count i then false else (t i).used
slot_valid t (negsuc _) = false

-- The loop of `pty_open` from slot `i`, with `n` slots left.
pub open_loop : ℕ → ℕ → Table → ℤ × Table
open_loop zero i t = (minus_one, t)
open_loop (suc n) i t =
    let rest = open_loop n (i + 1) t in
    if (t i).used then rest else (pos i, update t i (renewed true (t i)))

pub pty_open : Table → ℤ × Table
pty_open t = open_loop max_count 0 t

-- the index of an id that is not negative
abbrev pub index : ℤ → ℕ
index (pos i) = i
index (negsuc _) = 0

pub pty_close : ℤ → Table → ℤ × Table
pty_close id t =
    if slot_valid t id
    then if (t (index id)).slave_pid == 0
      then (pos 0, update t (index id) (renewed false (t (index id))))
      else (minus_one, t)
    else (minus_one, t)

pub pty_attach_slave : ℤ → ℕ → Table → ℤ × Table
pty_attach_slave id pid t =
    if pid == 0
    then (minus_one, t)
    else if not (slot_valid t id)
    then (minus_one, t)
    else if not ((t (index id)).slave_pid == 0) && not ((t (index id)).slave_pid == pid)
    then (minus_one, t)
    else (pos 0, update t (index id) (record (t (index id)) { slave_pid = pid }))

-- One round of the loop of `pty_detach_slave`, at slot `i`.
abbrev pub detach_slot : ℕ → ℕ → Table → Table
detach_slot pid i t =
    if (t i).used
    then if (t i).slave_pid == pid then update t i (record (t i) { slave_pid = 0 }) else t
    else t

pub detach_loop : ℕ → ℕ → ℕ → Table → Table
detach_loop zero pid i t = t
detach_loop (suc n) pid i t = detach_loop n pid (i + 1) (detach_slot pid i t)

pub pty_detach_slave : ℕ → Table → Table
pty_detach_slave pid t = if pid == 0 then t else detach_loop max_count pid 0 t

-- `pty_task_attached_locked`
abbrev pub task_attached : Option Task → Table → Bool
task_attached none t = false
task_attached (some k) t = slot_valid t k.pty_id && ((t (index k.pty_id)).slave_pid == k.pid)

abbrev pub task_slot : Option Task → ℕ
task_slot none = 0
task_slot (some k) = index k.pty_id

pub pty_slave_has_input : Option Task → Table → Bool
pty_slave_has_input k t =
    if task_attached k t then ltb 0 (t (task_slot k)).host_to_slave.count else false

-- What the rings of slot `i` become.
abbrev pub set_in : ℕ → Ring → Table → Table
set_in i r t = update t i (record (t i) { host_to_slave = r })

abbrev pub set_out : ℕ → Ring → Table → Table
set_out i r t = update t i (record (t i) { slave_to_host = r })

pub pty_slave_read : Option Task → Bool → ℕ → Table → List ℕ × Table
pty_slave_read k buf len t =
    if buf && not (len == 0)
    then if task_attached k t
      then (let i = task_slot k in
          let (cs, r) = read_loop len (t i).host_to_slave in (cs, set_in i r t))
      else ([], t)
    else ([], t)

pub pty_slave_write : Option Task → Option (List ℕ) → Table → ℕ × Table
pty_slave_write k none t = (0, t)
pty_slave_write k (some cs) t =
    if length cs == 0
    then (0, t)
    else if task_attached k t
    then (let i = task_slot k in
        let (n, r) = write_loop (t i).slave_to_host cs 0 in (n, set_out i r t))
    else (0, t)

pub pty_host_read : ℤ → Bool → ℕ → Table → List ℕ × Table
pty_host_read id buf len t =
    if buf && not (len == 0)
    then if slot_valid t id
      then (let i = index id in
          let (cs, r) = read_loop len (t i).slave_to_host in (cs, set_out i r t))
      else ([], t)
    else ([], t)

pub pty_host_write : ℤ → Option (List ℕ) → Table → ℕ × Table
pty_host_write id none t = (0, t)
pty_host_write id (some cs) t =
    if length cs == 0
    then (0, t)
    else if slot_valid t id
    then (let i = index id in let (n, r) = write_loop (t i).host_to_slave cs 0 in (n, set_in i r t))
    else (0, t)

pub pty_host_out_available : ℤ → Table → ℕ
pty_host_out_available id t = if slot_valid t id then (t (index id)).slave_to_host.count else 0

pub pty_host_in_available : ℤ → Table → ℕ
pty_host_in_available id t = if slot_valid t id then (t (index id)).host_to_slave.count else 0

pub pty_is_open : ℤ → Table → Bool
pty_is_open id t = slot_valid t id

pub pty_task_attached : Option Task → Table → Bool
pty_task_attached k t = task_attached k t
