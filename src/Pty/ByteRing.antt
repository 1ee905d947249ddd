-- ===== src/Pty/ByteRing.antt =====
-- `pty_ring_t` of src/kernel/pty.c: the byte ring of one direction of a pseudo terminal.
pub mod Queue
use szczupak_os.Base.{
  ℕ, zero, suc, ◌+◌, ◌-◌, ◌%◌, Bool, true, false, Option, none, some, List, [], ◌∷◌, leb, ◌==◌,
  if◌then◌else◌, update, add32, sub32,
}

-- `PTY_BUF_SIZE`
abbrev pub buf_size : ℕ
buf_size = 4096

-- `pty_ring_t`. A byte is moved and never computed with, so it is any number.
pub record Ring : Type 0 where
  pub bytes : ℕ → ℕ
  pub head : ℕ
  pub tail : ℕ
  pub count : ℕ

-- `ring_reset`: the bytes stay.
abbrev pub reset : Ring → Ring
reset r = record r { head = 0; tail = 0; count = 0 }

-- `ring_push`
unfoldable pub push : Ring → ℕ → Bool × Ring
push r c = if leb buf_size r.count then (false, r) else (
  true,
  record r {
    bytes = update r.bytes r.head c;
    head = add32 r.head 1 % buf_size;
    count = add32 r.count 1;
  },
)

-- `ring_pop`: the option is what goes through `out`.
unfoldable pub pop : Ring → Option ℕ × Ring
pop r = if r.count == 0 then (none, r) else (
  some (r.bytes r.tail),
  record r { tail = add32 r.tail 1 % buf_size; count = sub32 r.count 1 },
)

-- The loop of `pty_slave_write` and `pty_host_write` over the bytes left, with `n` written.
unfoldable pub write_loop : Ring → List ℕ → ℕ → ℕ × Ring
write_loop r [] n = (n, r)
write_loop r (c ∷ cs) n =
    let (done, r') = push r c in if done then write_loop r' cs (n + 1) else (n, r')

-- The loop of `pty_slave_read` and `pty_host_read`, with `len` rounds left: the bytes stored.
unfoldable pub read_loop : ℕ → Ring → List ℕ × Ring
read_loop zero r = ([], r)
read_loop (suc len) r =
    let (out, r') = pop r in
    elim out [ none ↦ ([], r') | some c ↦ (c ∷ (read_loop len r').0, (read_loop len r').1) ]
