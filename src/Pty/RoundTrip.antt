-- ===== src/Pty/RoundTrip.antt =====
-- Bytes that one side of a pseudo terminal writes are those that the other side reads.
use szczupak_os.Base.{
  ℕ, ◌+◌, ◌-◌, ◌≤◌, ◌<◌, min, ◌≡◌, refl, ap, ◌∙◌, inl, inr, true, some, List, ◌++◌, arith,
  Bool-cases, length, take, take_all,
}
use szczupak_os.Base.Int.{ℤ, pos, negsuc}
use szczupak_os.Pty.ByteRing.{buf_size}
use szczupak_os.Pty.ByteRing.Queue.{contents}
use szczupak_os.Pty.Inv.{Inv, host_write-Inv, slave_write-Inv}
use szczupak_os.Pty.Stream.{host_write_lem, slave_write_lem, slave_read_lem, host_read_lem}
use szczupak_os.Pty.{
  Pty, Table, Task, slot_valid, index, task_attached, pty_slave_read, pty_slave_write,
  pty_host_read, pty_host_write,
}

pub slot_valid_kept :
    (id : ℤ) (t u : Table)
    → (u (index id)).used ≡ (t (index id)).used
    → slot_valid u id ≡ slot_valid t id
slot_valid_kept (pos i) t u e = rw e
slot_valid_kept (negsuc i) t u e = refl

attached_kept :
    (k : Task) (t u : Table)
    → (u (index k.pty_id)).used ≡ (t (index k.pty_id)).used
    → (u (index k.pty_id)).slave_pid ≡ (t (index k.pty_id)).slave_pid
    → task_attached (some k) t ≡ true
    → task_attached (some k) u ≡ true
attached_kept k t u e f h = rw (slot_valid_kept k.pty_id t u e, f) h

attached-slot_valid :
    (k : Task) (t : Table) → task_attached (some k) t ≡ true → slot_valid t k.pty_id ≡ true
attached-slot_valid k t h = elim (Bool-cases (slot_valid t k.pty_id)) [
  | inl e ↦ e
  | inr e ↦ absurd (ground arith)
]

whole :
    (n : ℕ) (xs cs : List ℕ)
    → length xs + length cs ≤ buf_size
    → n ≡ min (length cs) (buf_size - length xs)
    → xs ++ take n cs ≡ xs ++ cs
whole n xs cs h e = ap (λ l. xs ++ l) (take_all n cs (omega arith))

module _ (t : Table) (v : Inv t) (k : Task) (cs : List ℕ) (len : ℕ)
    (attached : task_attached (some k) t ≡ true) (some_bytes : 0 < length cs)
    (some_room : 0 < len) where
  -- What the host writes to a slot with an attached slave, if it fits, the slave reads next, behind
  -- the bytes that waited already: a read of `len` bytes returns the first `len` of all these.
  pub slave_read-host_write :
      length (contents (t (index k.pty_id)).host_to_slave) + length cs ≤ buf_size
      → (pty_slave_read (some k) true len (pty_host_write k.pty_id (some cs) t).1).0
        ≡ take len (contents (t (index k.pty_id)).host_to_slave ++ cs)
  slave_read-host_write fits =
      let u = (pty_host_write k.pty_id (some cs) t).1 in
      let wrote = host_write_lem t v cs some_bytes k.pty_id (attached-slot_valid k t attached) in
      let still =
        attached_kept k t u (ap (λ (p : Pty). p.used) wrote.1.0)
          (ap (λ (p : Pty). p.slave_pid) wrote.1.0) attached in
      (slave_read_lem u (host_write-Inv k.pty_id (some cs) t v) len some_room (some k) still).0.0
      ∙ ap (take len)
          (wrote.0.1 ∙ whole _ (contents (t (index k.pty_id)).host_to_slave) cs fits wrote.0.0)

  -- What the attached slave writes, if it fits, the host reads next, behind the bytes that waited
  -- already: a read of `len` bytes returns the first `len` of all these.
  pub host_read-slave_write :
      length (contents (t (index k.pty_id)).slave_to_host) + length cs ≤ buf_size
      → (pty_host_read k.pty_id true len (pty_slave_write (some k) (some cs) t).1).0
        ≡ take len (contents (t (index k.pty_id)).slave_to_host ++ cs)
  host_read-slave_write fits =
      let u = (pty_slave_write (some k) (some cs) t).1 in
      let wrote = slave_write_lem t v cs some_bytes (some k) attached in
      let still =
        slot_valid_kept k.pty_id t u (ap (λ (p : Pty). p.used) wrote.1.0)
        ∙ attached-slot_valid k t attached in
      (host_read_lem u (slave_write-Inv (some k) (some cs) t v) len some_room k.pty_id still).0.0
      ∙ ap (take len)
          (wrote.0.1 ∙ whole _ (contents (t (index k.pty_id)).slave_to_host) cs fits wrote.0.0)
