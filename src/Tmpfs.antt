-- ===== src/Tmpfs.antt =====
-- Files in memory: reading and writing in src/kernel/fs/tmpfs.c.
pub mod Copy
pub mod Write
pub mod RoundTrip
mod Tests
use szczupak_os.Base.{
  ℕ, zero, suc, ◌+◌, ◌-◌, ◌*◌, ◌/◌, ◌%◌, ◌^◌, ◌≤◌, ◌<◌, min, ◌≡◌, refl, sym, ap, ap₂, ◌∙◌, subst,
  ◌≢◌, ◌↔◌, ◌⊎◌, inl, inr, Bool, true, false, not, ◌&&◌, ◌||◌, Option, none, some, List, [], ◌∷◌,
  ◌++◌, arith, ltb, leb, ◌==◌, if◌then◌else◌, ltb→lt, ltb→ge, lt→ltb, ge→ltb, leb→le, leb→gt,
  le→leb, gt→leb, ==→eq, ==→ne, eq→==, ne→==, tests, Bool-cases, Option-cases, if_elim, if_true,
  if_false, if_cases, some_inj, length, take, drop, get_or, length-append, length-take, take_nil,
  take_cons, take_zero, take_all, drop_nil, take-min, All, update, slice, update_self, update_ne,
  slice_eq, add16, add32, sub32, add64, sub64, mul64, page_size, align_down, align_up, max, bit_or,
  has_bit, bit_or_step, bit_or-zero, zero-bit_or, bit_or_frame, bit_or_odd, bit_or_half, Memory,
  read64, write64, read64-write64, write64_frame, read64_frame, read64-write64_ne, bit_or_128,
  AreBytes, read64-lt, write64-AreBytes, write64-read64,
}

-- A `vfs_node_t` with its `tmpfs_data_t`: the data are none where the pointer is null.
pub record File : Type 0 where
  pub is_file : Bool
  pub size : ℕ
  pub data_at : Option (ℕ → ℕ)
  pub allocated_size : ℕ

-- `to[at + i] = from[start + i]` for `n` values of `i` from the given one on.
unfoldable pub copy_bytes : (n i : ℕ) (at start : ℕ) (from to : ℕ → ℕ) → ℕ → ℕ
copy_bytes zero i at start from to = to
copy_bytes (suc n) i at start from to =
    copy_bytes n (i + 1) at start from (update to (add64 at i) (from (add64 start i)))

-- `read_size` of `tmpfs_read`
unfoldable pub read_size : File → (offset size : ℕ) → ℕ
read_size f offset size = if ltb f.size (add64 offset size) then sub64 f.size offset else size

-- `tmpfs_read`
unfoldable pub tmpfs_read : File → (offset size : ℕ) → (buffer : ℕ → ℕ) → Bool × (ℕ → ℕ)
tmpfs_read f offset size buffer = if not f.is_file then (false, buffer) else elim f.data_at [
  | none ↦ (false, buffer)
  | some d ↦
      if leb f.size offset
      then (false, buffer)
      else (true, copy_bytes (read_size f offset size) 0 0 offset d buffer)
]

-- A new block with the bytes of the file, if there is an old one.
unfoldable pub moved : (size : ℕ) (data_at : Option (ℕ → ℕ)) (block : ℕ → ℕ) → ℕ → ℕ
moved size none block = block
moved size (some d) block = copy_bytes size 0 0 0 d block

-- The file with room for `needed_size` bytes: none when `kmalloc` gives no block.
unfoldable pub with_room : (kmalloc : ℕ → Option (ℕ → ℕ)) (f : File) (needed_size : ℕ) → Option File
with_room kmalloc f needed_size =
    if not (ltb f.allocated_size needed_size)
    then some f
    else elim (kmalloc (mul64 needed_size 2)) [
      | none ↦ none
      | some block ↦ some (record f {
        data_at = some (moved f.size f.data_at block);
        allocated_size = mul64 needed_size 2;
      })
    ]

-- The data of a file after the last loop of `tmpfs_write`.
unfoldable pub written_data : (offset size : ℕ) (src : ℕ → ℕ) → Option (ℕ → ℕ) → Option (ℕ → ℕ)
written_data offset size src none = none
written_data offset size src (some d) = some (copy_bytes size 0 offset 0 src d)

-- The rest of `tmpfs_write`: it copies the bytes and sets the size.
unfoldable pub put_bytes : (offset size : ℕ) → (src : ℕ → ℕ) → File → File
put_bytes offset size src f = record f {
  data_at = written_data offset size src f.data_at;
  size = if ltb f.size (add64 offset size) then add64 offset size else f.size;
}

-- `tmpfs_write`
unfoldable pub tmpfs_write :
    (kmalloc : ℕ → Option (ℕ → ℕ)) → File → (offset size : ℕ) → (src : ℕ → ℕ) → Bool × File
tmpfs_write kmalloc f offset size src =
    if not f.is_file then (false, f) else elim (with_room kmalloc f (add64 offset size)) [
      | none ↦ (false, f)
      | some g ↦ (true, put_bytes offset size src g)
    ]
