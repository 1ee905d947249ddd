-- ===== src/Tmpfs/RoundTrip.antt =====
-- What `tmpfs_read` of src/kernel/fs/tmpfs.c returns, and where reads and writes of src/kernel/fs/tmpfs.c
-- reach bytes that are not the file's.
use szczupak_os.Tmpfs.Write.{
  put-before, tmpfs_write-room, with_room-moved, tmpfs_write-Written, byte_in, byte, IsValid,
}
use szczupak_os.Tmpfs.Copy.{copy_bytes-inside, copy_bytes-before}
use szczupak_os.Tmpfs.{put_bytes, moved, copy_bytes, tmpfs_read, tmpfs_write, read_size, File}
use szczupak_os.Base.{
  lt→ltb, mul64, ℕ, ◌+◌, ◌-◌, ◌*◌, ◌^◌, ◌≤◌, ◌<◌, min, ◌≡◌, refl, sym, ap, ◌∙◌, subst, inl, inr,
  Bool, true, false, not, Option, none, some, arith, ltb, leb, if◌then◌else◌, ltb→lt, ltb→ge,
  gt→leb, Option-cases, if_false, if_cases, add64,
}

-- What `tmpfs_read` leaves: true, `n` bytes of the file from `offset` on in the buffer, and the rest of
-- the buffer as before.
pub record Reads (f : File) (offset n : ℕ) (buffer : ℕ → ℕ) (r : Bool × (ℕ → ℕ)) : Type 0 where
  pub succeeds : r.0 ≡ true
  pub got : (x : ℕ) → x < n → r.1 x ≡ byte f (offset + x)
  pub kept : (x : ℕ) → n ≤ x → r.1 x ≡ buffer x

tmpfs_read-some :
    (f : File) (offset size : ℕ) (buffer d : ℕ → ℕ)
    → f.is_file ≡ true
    → f.data_at ≡ some d
    → offset < f.size
    → tmpfs_read f offset size buffer
      ≡ (true, copy_bytes (read_size f offset size) 0 0 offset d buffer)
unfolding tmpfs_read
tmpfs_read-some f offset size buffer d file at inside =
    if_false (not f.is_file) _ _ (ap not file)
    ∙ ap
        (λ o. elim o as (λ _. Bool × (ℕ → ℕ)) [
          | none ↦ (false, buffer)
          | some d ↦
              if leb f.size offset
              then (false, buffer)
              else (true, copy_bytes (read_size f offset size) 0 0 offset d buffer)
        ])
        at
    ∙ if_false {A = Bool × (ℕ → ℕ)} (leb f.size offset) _ _ (gt→leb f.size offset inside)

read_size_within :
    (f : File) (offset size : ℕ)
    → f.size < 2 ^ 64
    → offset < f.size
    → offset + size < 2 ^ 64
    → read_size f offset size ≡ min size (f.size - offset)
unfolding read_size
read_size_within f offset size small inside fits =
    if_cases (λ n. n ≡ min size (f.size - offset)) (ltb f.size (add64 offset size))
      (λ e. omega (arith, ltb→lt f.size (add64 offset size) e, small, inside, fits))
      (λ e. omega (arith, ltb→ge f.size (add64 offset size) e, small, inside, fits))

copied-Reads :
    (f : File) (offset n : ℕ) (buffer d : ℕ → ℕ)
    → f.data_at ≡ some d
    → offset + n ≤ 2 ^ 64
    → Reads f offset n buffer (true, copy_bytes n 0 0 offset d buffer)
unfolding byte byte_in
copied-Reads f offset n buffer d at fits = record {
  succeeds = refl;
  got = λ x p.
      let here : x ≡ 0 + x = omega arith in
      ap (copy_bytes n 0 0 offset d buffer) here
      ∙ copy_bytes-inside n 0 0 offset d buffer x (omega (arith, fits)) (omega (arith, fits))
          (omega arith) (omega (arith, p))
      ∙ ap (λ o. byte_in o (offset + x)) (sym at);
  kept = λ x p.
      copy_bytes-before n 0 0 offset d buffer x (omega (arith, fits)) (inr (omega (arith, p)));
}

-- `tmpfs_read` of a valid file from an offset inside it, where the end of the read is below 2^64,
-- returns true with the bytes from there on, up to the size asked for or the end of the file.
pub tmpfs_read-Reads :
    (f : File) (offset size : ℕ) (buffer : ℕ → ℕ)
    → f.is_file ≡ true
    → IsValid f
    → offset < f.size
    → offset + size < 2 ^ 64
    → Reads f offset (min size (f.size - offset)) buffer (tmpfs_read f offset size buffer)
tmpfs_read-Reads f offset size buffer file valid inside fits = elim (Option-cases f.data_at) [
  | inl e ↦ absurd (omega (arith, valid.no_block e, valid.inside, inside))
  | inr (d, at) ↦
      let n =
        read_size_within f offset size (omega (arith, valid.inside, valid.small)) inside fits in
      subst (Reads f offset (min size (f.size - offset)) buffer)
        (sym (
          tmpfs_read-some f offset size buffer d file at inside
          ∙ ap (λ m. (true, copy_bytes m 0 0 offset d buffer)) n))
        (copied-Reads f offset (min size (f.size - offset)) buffer d at (omega (arith, fits)))
]

-- A `tmpfs_write` of at least one byte to a valid file, which ends below 2^63 and for which the heap
-- gives a block where the file's own is too small, returns true, and a `tmpfs_read` of the place that
-- it has written returns true with the bytes that were written; the rest of the buffer stays.
pub tmpfs_read-tmpfs_write :
    (kmalloc : ℕ → Option (ℕ → ℕ)) (f : File) (offset size : ℕ) (src block buffer : ℕ → ℕ)
    → f.is_file ≡ true
    → IsValid f
    → 0 < size
    → offset + size < 2 ^ 63
    → (f.allocated_size < offset + size → kmalloc ((offset + size) * 2) ≡ some block)
    → (let g = (tmpfs_write kmalloc f offset size src).1 in
        ((tmpfs_write kmalloc f offset size src).0 ≡ true)
        × ((tmpfs_read g offset size buffer).0 ≡ true)
        × ((x : ℕ) → x < size → (tmpfs_read g offset size buffer).1 x ≡ src x)
        × ((x : ℕ) → size ≤ x → (tmpfs_read g offset size buffer).1 x ≡ buffer x))
tmpfs_read-tmpfs_write kmalloc f offset size src block buffer file valid some_size small gives =
    let (ok, w) = tmpfs_write-Written kmalloc f offset size src block file valid small gives in
    let g = (tmpfs_write kmalloc f offset size src).1 in
    let n : min size (g.size - offset) ≡ size = omega (arith, w.grown) in
    let r =
      subst (λ m. Reads g offset m buffer (tmpfs_read g offset size buffer)) n
        (tmpfs_read-Reads g offset size buffer (w.kind ∙ file) w.valid
          (omega (arith, w.grown, some_size)) (omega (arith, small))) in
    (ok, r.succeeds, (λ x p. r.got x p ∙ w.written x p), r.kept)

moved_behind :
    (size : ℕ) (data_at : Option (ℕ → ℕ)) (block : ℕ → ℕ) (p : ℕ)
    → size ≤ 2 ^ 64
    → size ≤ p
    → moved size data_at block p ≡ block p
unfolding moved
moved_behind size none block p small h = refl
moved_behind size (some d) block p small h =
    copy_bytes-before size 0 0 0 d block p (omega (arith, small)) (inr (omega (arith, h)))

-- Where `tmpfs_write` takes a new block for a write behind the end of the file, the bytes between the
-- old end and the write are those that the block had in the heap.
pub tmpfs_write_gap :
    (kmalloc : ℕ → Option (ℕ → ℕ)) (f : File) (offset size : ℕ) (src block : ℕ → ℕ) (p : ℕ)
    → f.is_file ≡ true
    → IsValid f
    → offset + size < 2 ^ 63
    → f.allocated_size < offset + size
    → kmalloc ((offset + size) * 2) ≡ some block
    → f.size ≤ p
    → p < offset
    → byte (tmpfs_write kmalloc f offset size src).1 p ≡ block p
unfolding byte byte_in put_bytes
tmpfs_write_gap kmalloc f offset size src block p file valid small less gives low high =
    let needed = add64 offset size in
    let whole : needed ≡ offset + size = omega (arith, small) in
    let twice : mul64 needed 2 ≡ (offset + size) * 2 = omega (arith, small) in
    let g = record f {
      data_at = some (moved f.size f.data_at block);
      allocated_size = mul64 needed 2;
    } in
    let room =
      with_room-moved kmalloc f needed block
        (lt→ltb f.allocated_size needed (omega (arith, whole, less))) (ap kmalloc twice ∙ gives) in
    ap (λ r. byte r.1 p) (tmpfs_write-room kmalloc f offset size src g file room)
    ∙ put-before (some (moved f.size f.data_at block)) offset size src p small (inl high)
    ∙ moved_behind f.size f.data_at block p (omega (arith, valid.inside, valid.small)) low
