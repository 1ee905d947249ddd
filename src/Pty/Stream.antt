-- ===== src/Pty/Stream.antt =====
-- What goes through a pseudo terminal: the four transfer functions as operations on two queues.
use szczupak_os.Base.{
  ℕ, ◌+◌, ◌-◌, ◌<◌, min, ◌≡◌, refl, sym, ap, ◌∙◌, ◌≢◌, true, Option, some, List, ◌++◌, arith, ne→==,
  length, take, drop, take-min, update_self, update_ne,
}
use szczupak_os.Base.Int.{ℤ}
use szczupak_os.Pty.ByteRing.{Ring, buf_size, write_loop, read_loop}
use szczupak_os.Pty.ByteRing.Queue.{
  IsValid, contents, length-contents, write_loop-contents, read_loop-contents,
}
use szczupak_os.Pty.Inv.{Inv}
use szczupak_os.Pty.{
  Table, Task, slot_valid, index, task_attached, task_slot, pty_slave_read, pty_slave_write,
  pty_host_read, pty_host_write, set_in, set_out,
}

-- Slot `i` of `u` is that of `t` but for what is written to the slave, and no other slot differs.
abbrev pub OnlyIn : ℕ → Table → Table → Type 0
OnlyIn i t u =
    (u i ≡ record (t i) { host_to_slave = (u i).host_to_slave }) × ((j : ℕ) → j ≢ i → u j ≡ t j)

-- The same, for what the slave writes.
abbrev pub OnlyOut : ℕ → Table → Table → Type 0
OnlyOut i t u =
    (u i ≡ record (t i) { slave_to_host = (u i).slave_to_host }) × ((j : ℕ) → j ≢ i → u j ≡ t j)

-- `r'` holds the bytes of `r` and then the first `n` of `cs`, which are all that fit.
abbrev pub Appended : Ring → List ℕ → ℕ → Ring → Type 0
Appended r cs n r' =
    (n ≡ min (length cs) (buf_size - length (contents r))) × (contents r' ≡ contents r ++ take n cs)

-- `cs` is the first `len` bytes of `r` and `r'` holds the rest.
abbrev pub Removed : Ring → ℕ → List ℕ → Ring → Type 0
Removed r len cs r' = (cs ≡ take len (contents r)) × (contents r' ≡ drop len (contents r))

write_loop-Appended :
    (cs : List ℕ) {r : Ring} → IsValid r → Appended r cs (write_loop r cs 0).0 (write_loop r cs 0).1
write_loop-Appended cs {r} v =
    (count, kept.1 ∙ ap (λ l. contents r ++ l) (sym short ∙ ap (λ k. take k cs) (sym counted)))
  where
    kept :
        ((write_loop r cs 0).0 ≡ 0 + min (length cs) (buf_size - r.count))
        × (contents (write_loop r cs 0).1 ≡ contents r ++ take (buf_size - r.count) cs)
        × IsValid (write_loop r cs 0).1
    kept = write_loop-contents cs 0 v

    counted : (write_loop r cs 0).0 ≡ min (length cs) (buf_size - r.count)
    counted = omega (arith, kept.0)

    count : (write_loop r cs 0).0 ≡ min (length cs) (buf_size - length (contents r))
    count = omega (arith, kept.0, length-contents r)

    short : take (min (length cs) (buf_size - r.count)) cs ≡ take (buf_size - r.count) cs
    short = take-min (buf_size - r.count) cs

module _ (t : Table) (i : ℕ) (r : Ring) where
  set_in-OnlyIn : ((set_in i r t i).host_to_slave ≡ r) × OnlyIn i t (set_in i r t)
  set_in-OnlyIn = rw (update_self t i) (refl, (refl, λ j h. update_ne t i _ j h))

  set_out-OnlyOut : ((set_out i r t i).slave_to_host ≡ r) × OnlyOut i t (set_out i r t)
  set_out-OnlyOut = rw (update_self t i) (refl, (refl, λ j h. update_ne t i _ j h))

module _ (t : Table) (v : Inv t) (cs : List ℕ) (some_bytes : 0 < length cs) where
  -- `pty_host_write` to a slot in use appends to what waits for the slave as many of the bytes as
  -- fit, in order, returns how many, and changes nothing else.
  pub host_write_lem :
      (id : ℤ)
      → slot_valid t id ≡ true
      → let i = index id in
        let (n, u) = pty_host_write id (some cs) t in
        Appended (t i).host_to_slave cs n (u i).host_to_slave × OnlyIn i t u
  unfolding pty_host_write
  host_write_lem id h =
      let only = set_in-OnlyIn t (index id) (write_loop (t (index id)).host_to_slave cs 0).1 in
      rw (ne→== (length cs) 0 (omega arith), h)
        (rw only.0 (write_loop-Appended cs (v (index id)).in_valid), only.1)

  -- `pty_slave_write` by the attached slave appends to what waits for the host as many of the
  -- bytes as fit, in order, returns how many, and changes nothing else.
  pub slave_write_lem :
      (k : Option Task)
      → task_attached k t ≡ true
      → let i = task_slot k in
        let (n, u) = pty_slave_write k (some cs) t in
        Appended (t i).slave_to_host cs n (u i).slave_to_host × OnlyOut i t u
  unfolding pty_slave_write
  slave_write_lem k h =
      let only =
        set_out-OnlyOut t (task_slot k) (write_loop (t (task_slot k)).slave_to_host cs 0).1 in
      rw (ne→== (length cs) 0 (omega arith), h)
        (rw only.0 (write_loop-Appended cs (v (task_slot k)).out_valid), only.1)

module _ (t : Table) (v : Inv t) (len : ℕ) (some_room : 0 < len) where
  -- `pty_slave_read` by the attached slave takes the oldest bytes that wait for it, at most `len`,
  -- leaves the rest in order, and changes nothing else.
  pub slave_read_lem :
      (k : Option Task)
      → task_attached k t ≡ true
      → let i = task_slot k in
        let (cs, u) = pty_slave_read k true len t in
        Removed (t i).host_to_slave len cs (u i).host_to_slave × OnlyIn i t u
  unfolding pty_slave_read
  slave_read_lem k h =
      let only = set_in-OnlyIn t (task_slot k) (read_loop len (t (task_slot k)).host_to_slave).1 in
      let got = read_loop-contents len (v (task_slot k)).in_valid in
      rw (ne→== len 0 (omega arith), h) (rw only.0 (got.0, got.1), only.1)

  -- `pty_host_read` from a slot in use takes the oldest bytes that wait for the host, at most
  -- `len`, leaves the rest in order, and changes nothing else.
  pub host_read_lem :
      (id : ℤ)
      → slot_valid t id ≡ true
      → let i = index id in
        let (cs, u) = pty_host_read id true len t in
        Removed (t i).slave_to_host len cs (u i).slave_to_host × OnlyOut i t u
  unfolding pty_host_read
  host_read_lem id h =
      let only = set_out-OnlyOut t (index id) (read_loop len (t (index id)).slave_to_host).1 in
      let got = read_loop-contents len (v (index id)).out_valid in
      rw (ne→== len 0 (omega arith), h) (rw only.0 (got.0, got.1), only.1)
