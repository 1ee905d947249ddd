-- ===== src/Pty/Slots.antt =====
-- Which slot `pty_open` takes, and who may be attached to a slot.
use szczupak_os.Base.{
  ℕ, zero, suc, ◌+◌, ◌<◌, ◌≡◌, refl, sym, ap, ◌∙◌, subst, ◌≢◌, ◌⊎◌, inl, inr, true, false, arith,
  ltb, leb, ◌==◌, if◌then◌else◌, lt→ltb, le→leb, ==→eq, ==→ne, eq→==, ne→==, Bool-cases, update,
  update_self, update_ne,
}
use szczupak_os.Base.Int.{ℤ, pos, negsuc, minus_one}
use szczupak_os.Pty.RoundTrip.{slot_valid_kept}
use szczupak_os.Pty.Inv.{used_of_valid}
use szczupak_os.Pty.{
  Pty, Table, renewed, max_count, slot_valid, index, open_loop, pty_open, pty_close,
  pty_attach_slave, detach_slot, detach_loop, pty_detach_slave,
}

-- What `pty_open` may return on `t`, when the slots below `i` are in use and slot `e` is the end.
pub data Opened (t : Table) (e : ℕ) : ℤ × Table → Type 0 where
  taken :
      (i : ℕ) {r : ℤ × Table}
      → i < e
      → (t i).used ≡ false
      → ((j : ℕ) → j < i → (t j).used ≡ true)
      → r ≡ (pos i, update t i (renewed true (t i)))
      → Opened t e r
  full : {r : ℤ × Table} → ((j : ℕ) → j < e → (t j).used ≡ true) → r ≡ (minus_one, t) → Opened t e r

open_loop-Opened :
    (n i e : ℕ) (t : Table)
    → i + n ≡ e
    → ((j : ℕ) → j < i → (t j).used ≡ true)
    → Opened t e (open_loop n i t)
unfolding open_loop
open_loop-Opened zero i e t h below = full (λ j p. below j (omega arith)) refl
open_loop-Opened (suc n) i e t h below = elim (Bool-cases (t i).used) [
  | inl u ↦ rw u (open_loop-Opened n (i + 1) e t (omega arith) (below_next u))
  | inr f ↦ rw f (taken i (omega arith) f below refl)
]
  where
    below_next : (t i).used ≡ true → (j : ℕ) → j < i + 1 → (t j).used ≡ true
    below_next u j p = elim (Bool-cases (j == i)) [
      | inl e ↦ subst (λ k. (t k).used ≡ true) (sym (==→eq j i e)) u
      | inr e ↦ below j (omega (arith, ==→ne j i e))
    ]

-- `pty_open` takes the first slot that is not in use, and only renews it: in use, with no slave and
-- both rings reset. If every slot is in use it returns -1 and changes nothing.
pub open-Opened : (t : Table) → Opened t max_count (pty_open t)
unfolding pty_open
open-Opened t = open_loop-Opened max_count 0 max_count t refl (λ j p. absurd (omega arith))

-- Whether a slot may take the slave `pid`.
abbrev pub MayAttach : Table → ℤ → ℕ → Type 0
MayAttach t id pid =
    (pid ≢ 0)
    × (slot_valid t id ≡ true)
    × (((t (index id)).slave_pid ≡ 0) ⊎ ((t (index id)).slave_pid ≡ pid))

-- `pty_attach_slave` succeeds exactly for a nonzero pid and a slot in use that is free or already
-- has that slave; then the slot has that slave and nothing else changes.
pub attach_lem :
    (t : Table) (id : ℤ) (pid : ℕ)
    → ((pty_attach_slave id pid t).0 ≡ pos 0 → MayAttach t id pid)
      × (MayAttach t id pid
          → pty_attach_slave id pid t
            ≡ (pos 0, update t (index id) (record (t (index id)) { slave_pid = pid })))
unfolding pty_attach_slave
attach_lem t id pid = (λ h. ground arith, λ m. ground arith)

-- What `pty_detach_slave` does to each slot.
abbrev detached : ℕ → Pty → Pty
detached pid p = if p.used then if p.slave_pid == pid then record p { slave_pid = 0 } else p else p

detach_slot_lem :
    (pid i : ℕ) (t : Table) (j : ℕ)
    → detach_slot pid i t j ≡ (if j == i then detached pid (t j) else t j)
detach_slot_lem pid i t j = elim (Bool-cases (j == i)) [
  | inr e ↦ rw e (ground arith)
  | inl e ↦
      subst (λ k. detach_slot pid k t j ≡ (if j == k then detached pid (t j) else t j))
        (==→eq j i e) (ground arith)
]

detach_loop_lem :
    (n pid i : ℕ) (t : Table) (j : ℕ)
    → detach_loop n pid i t j
      ≡ (if leb i j then if ltb j (i + n) then detached pid (t j) else t j else t j)
unfolding detach_loop
detach_loop_lem zero pid i t j = ground arith
detach_loop_lem (suc n) pid i t j =
    detach_loop_lem n pid (i + 1) (detach_slot pid i t) j
    ∙ rw (detach_slot_lem pid i t j) (ground arith)

index_in : (t : Table) (id : ℤ) → slot_valid t id ≡ true → index id < max_count
index_in t (pos i) v = ground arith
index_in t (negsuc i) v = absurd (ground arith)

detach_lem :
    (t : Table) (pid j : ℕ) → j < max_count → detach_loop max_count pid 0 t j ≡ detached pid (t j)
detach_lem t pid j h =
    detach_loop_lem max_count pid 0 t j ∙ rw (le→leb 0 j (omega arith), lt→ltb j 8 h)

-- What `pty_close` does to a slot in use with no slave.
close_idle :
    (t : Table) (id : ℤ)
    → slot_valid t id ≡ true
    → (t (index id)).slave_pid ≡ 0
    → pty_close id t ≡ (pos 0, update t (index id) (renewed false (t (index id))))
unfolding pty_close
close_idle t id v e = rw (v, eq→== _ 0 e)

-- When the slave of a slot is detached, as its exit does, the slot can be closed; closing it leaves
-- it out of use, and no slot of another slave changes.
pub close-detach :
    (t : Table) (id : ℤ) (pid : ℕ)
    → pid ≢ 0
    → slot_valid t id ≡ true
    → (t (index id)).slave_pid ≡ pid
    → let (r, u) = pty_close id (pty_detach_slave pid t) in
      (r ≡ pos 0)
      × ((u (index id)).used ≡ false)
      × ((j : ℕ) → j < max_count → (t j).slave_pid ≢ pid → j ≢ index id → u j ≡ t j)
unfolding pty_detach_slave
close-detach t id pid h valid own =
    rw (ne→== pid 0 h, close_idle w id still idle)
      (refl, ap (λ (p : Pty). p.used) (update_self w i _), others)
  where
    i : ℕ
    i = index id

    w : Table
    w = detach_loop max_count pid 0 t

    freed : w i ≡ record (t i) { slave_pid = 0 }
    freed =
        detach_lem t pid i (index_in t id valid) ∙ rw (used_of_valid t id valid, eq→== _ pid own)

    still : slot_valid w id ≡ true
    still = slot_valid_kept id t w (ap (λ (p : Pty). p.used) freed) ∙ valid

    idle : (w i).slave_pid ≡ 0
    idle = ap (λ (p : Pty). p.slave_pid) freed

    others :
        (j : ℕ)
        → j < max_count
        → (t j).slave_pid ≢ pid
        → j ≢ i
        → update w i (renewed false (w i)) j ≡ t j
    others j p q r = update_ne w i _ j r ∙ detach_lem t pid j p ∙ rw (ne→== _ pid q) (ground arith)
