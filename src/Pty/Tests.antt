-- ===== src/Pty/Tests.antt =====
-- The theorems about src/kernel/pty.c at a table with one slot in use, and runs of the code.
use szczupak_os.Base.{ℕ, ◌≡◌, refl, true, some, List, [], ◌∷◌, ◌++◌, arith, take}
use szczupak_os.Base.Int.{pos, negsuc}
use szczupak_os.Pty.{
  Table, Task, init, open_loop, pty_close, pty_attach_slave, pty_slave_read, pty_host_write,
}
use szczupak_os.Pty.ByteRing.{push, pop, write_loop, read_loop}
use szczupak_os.Pty.ByteRing.Queue.{contents}
use szczupak_os.Pty.Inv.{Inv, Call, open_pty, attach, step, run, run-Inv}
use szczupak_os.Pty.Stream.{OnlyIn, Removed, slave_read_lem}
use szczupak_os.Pty.RoundTrip.{slave_read-host_write}

abbrev calls : List Call
calls = open_pty ∷ attach (pos 0) 7 ∷ []

-- Slot 0 in use, with slave 7.
abbrev table : Table
table = run calls init

abbrev slave : Task
slave = record { pid = 7; pty_id = pos 0 }

abbrev hello : List ℕ
hello = 104 ∷ 105 ∷ 10 ∷ []

run-Inv_example : Inv table
run-Inv_example = run-Inv calls

slave_read-host_write_example :
    (pty_slave_read (some slave) true 2 (pty_host_write (pos 0) (some hello) table).1).0
    ≡ take 2 (contents (table 0).host_to_slave ++ hello)
unfolding run step open_loop
slave_read-host_write_example =
    slave_read-host_write table (run-Inv calls) slave hello 2 refl (omega arith) (omega arith)
      (omega arith)

slave_read_lem_example :
    let (cs, u) = pty_slave_read (some slave) true 2 table in
    Removed (table 0).host_to_slave 2 cs (u 0).host_to_slave × OnlyIn 0 table u
unfolding run step open_loop
slave_read_lem_example = slave_read_lem table (run-Inv calls) 2 (omega arith) (some slave) refl

-- While its slave lives, a slot cannot be closed.
close_attached : (pty_close (pos 0) table).0 ≡ negsuc 0
unfolding run step open_loop
close_attached = refl

-- A second slave is turned away.
attach_second : (pty_attach_slave (pos 0) 9 table).0 ≡ negsuc 0
unfolding run step open_loop
attach_second = refl

-- The bytes come out in order.
echo : (pty_slave_read (some slave) true 9 (pty_host_write (pos 0) (some hello) table).1).0 ≡ hello
unfolding run step open_loop write_loop read_loop push pop
echo = refl
