-- ===== src/Tmpfs/Write.antt =====
-- What `tmpfs_write` of src/kernel/fs/tmpfs.c leaves in a file.
use szczupak_os.Tmpfs.Copy.{copy_bytes-inside, copy_bytes-before}
use szczupak_os.Tmpfs.{written_data, moved, copy_bytes, tmpfs_write, with_room, put_bytes, File}
use szczupak_os.Base.{
  ℕ, ◌+◌, ◌*◌, ◌^◌, ◌≤◌, ◌<◌, ◌≡◌, refl, sym, ap, ◌∙◌, subst, ◌⊎◌, inl, inr, Bool, true, false, not,
  Option, none, some, arith, ltb, ltb→lt, ltb→ge, Bool-cases, if_elim, if_true, if_false, if_cases,
  add64, mul64, max,
}

-- Byte `p` of the data of a file.
unfoldable pub byte_in : Option (ℕ → ℕ) → (p : ℕ) → ℕ
byte_in none p = 0
byte_in (some d) p = d p

-- Byte `p` of a file.
unfoldable pub byte : File → (p : ℕ) → ℕ
byte f p = byte_in f.data_at p

-- The bytes of the file lie in its block, and no block has no room.
pub record IsValid (f : File) : Type 0 where
  pub inside : f.size ≤ f.allocated_size
  pub small : f.allocated_size < 2 ^ 64
  pub no_block : f.data_at ≡ none → f.allocated_size ≡ 0

-- The file `g` is `f`, with room for `needed` bytes.
pub record HasRoom (f : File) (needed : ℕ) (g : File) : Type 0 where
  valid : IsValid g
  kind : g.is_file ≡ f.is_file
  same_size : g.size ≡ f.size
  room : needed ≤ g.allocated_size
  bytes : (p : ℕ) → p < f.size → byte g p ≡ byte f p

moved-bytes :
    (size : ℕ) (data_at : Option (ℕ → ℕ)) (block : ℕ → ℕ) (p : ℕ)
    → size ≤ 2 ^ 64
    → (data_at ≡ none → size ≡ 0)
    → p < size
    → moved size data_at block p ≡ byte_in data_at p
unfolding moved byte_in
moved-bytes size none block p small empty h = absurd (omega (arith, empty refl, h))
moved-bytes size (some d) block p small empty h =
    let at : p ≡ 0 + p = omega arith in
    ap (copy_bytes size 0 0 0 d block) at
    ∙ copy_bytes-inside size 0 0 0 d block p (omega (arith, small)) (omega (arith, small))
        (omega arith) (omega (arith, h))
    ∙ ap d (sym at)

pub with_room-moved :
    (kmalloc : ℕ → Option (ℕ → ℕ)) (f : File) (needed : ℕ) (block : ℕ → ℕ)
    → ltb f.allocated_size needed ≡ true
    → kmalloc (mul64 needed 2) ≡ some block
    → with_room kmalloc f needed
      ≡ some (record f {
        data_at = some (moved f.size f.data_at block);
        allocated_size = mul64 needed 2;
      })
unfolding with_room
with_room-moved kmalloc f needed block e gives = rw (with_room, e, gives) refl

with_room-HasRoom :
    (kmalloc : ℕ → Option (ℕ → ℕ)) (f : File) (needed : ℕ) (block : ℕ → ℕ)
    → IsValid f
    → needed < 2 ^ 63
    → (f.allocated_size < needed → kmalloc (needed * 2) ≡ some block)
    → (g : File) × ((with_room kmalloc f needed ≡ some g) × HasRoom f needed g)
unfolding with_room byte byte_in
with_room-HasRoom kmalloc f needed block valid small gives =
    elim (Bool-cases (ltb f.allocated_size needed)) [
      | inr e ↦ (
        f,
        (
          if_true (not (ltb f.allocated_size needed)) _ _ (ap not e),
          record {
            valid = valid;
            kind = refl;
            same_size = refl;
            room = ltb→ge f.allocated_size needed e;
            bytes = λ p q. refl;
          },
        ),
      )
      | inl e ↦
          let less = ltb→lt f.allocated_size needed e in
          let twice : mul64 needed 2 ≡ needed * 2 = omega (arith, small) in
          (
            record f {
              data_at = some (moved f.size f.data_at block);
              allocated_size = mul64 needed 2;
            },
            (
              with_room-moved kmalloc f needed block e (ap kmalloc twice ∙ gives less),
              record {
                valid = record {
                  inside = omega (arith, valid.inside, less, twice);
                  small = omega (arith, twice, small);
                  no_block = λ same. ground arith;
                };
                kind = refl;
                same_size = refl;
                room = omega (arith, twice);
                bytes = λ p q.
                    moved-bytes f.size f.data_at block p (omega (arith, valid.inside, valid.small))
                      (λ same. omega (arith, valid.inside, valid.no_block same)) q;
              },
            ),
          )
    ]

-- The file after the `size` bytes of `src` are written from `offset` on.
pub record Written (f : File) (offset size : ℕ) (src : ℕ → ℕ) (g : File) : Type 0 where
  pub valid : IsValid g
  pub kind : g.is_file ≡ f.is_file
  pub grown : g.size ≡ max f.size (offset + size)
  pub written : (x : ℕ) → x < size → byte g (offset + x) ≡ src x
  pub others : (p : ℕ) → p < f.size → p < offset ⊎ offset + size ≤ p → byte g p ≡ byte f p

put-inside :
    (data_at : Option (ℕ → ℕ)) (offset size : ℕ) (src : ℕ → ℕ) (x : ℕ)
    → offset + size < 2 ^ 63
    → (data_at ≡ none → size ≡ 0)
    → x < size
    → byte_in (written_data offset size src data_at) (offset + x) ≡ src x
unfolding byte_in written_data
put-inside none offset size src x small empty h = absurd (omega (arith, empty refl, h))
put-inside (some d) offset size src x small empty h =
    copy_bytes-inside size 0 offset 0 src d x (omega (arith, small)) (omega (arith, small))
      (omega arith) (omega (arith, h))
    ∙ ap src (omega arith)

pub put-before :
    (data_at : Option (ℕ → ℕ)) (offset size : ℕ) (src : ℕ → ℕ) (p : ℕ)
    → offset + size < 2 ^ 63
    → p < offset ⊎ offset + size ≤ p
    → byte_in (written_data offset size src data_at) p ≡ byte_in data_at p
unfolding byte_in written_data
put-before none offset size src p small o = refl
put-before (some d) offset size src p small o =
    copy_bytes-before size 0 offset 0 src d p (omega (arith, small))
      (elim o [ inl low ↦ inl (omega (arith, low)) | inr high ↦ inr (omega (arith, high)) ])

written_data-none :
    (offset size : ℕ) (src : ℕ → ℕ) (data_at : Option (ℕ → ℕ))
    → written_data offset size src data_at ≡ none
    → data_at ≡ none
unfolding written_data
written_data-none offset size src none e = refl
written_data-none offset size src (some d) e = ground arith

put_bytes-Written :
    (f g : File) (offset size : ℕ) (src : ℕ → ℕ)
    → offset + size < 2 ^ 63
    → HasRoom f (offset + size) g
    → Written f offset size src (put_bytes offset size src g)
unfolding put_bytes byte
put_bytes-Written f g offset size src small r =
    let whole : add64 offset size ≡ offset + size = omega (arith, small) in
    record {
      valid = record {
        inside =
            if_elim (λ n. n ≤ g.allocated_size) (ltb g.size (add64 offset size))
              (omega (arith, whole, r.room)) r.valid.inside;
        small = r.valid.small;
        no_block = λ e. r.valid.no_block (written_data-none offset size src g.data_at e);
      };
      kind = r.kind;
      grown =
          if_cases (λ n. n ≡ max f.size (offset + size)) (ltb g.size (add64 offset size))
            (λ e. omega (arith, whole, ltb→lt g.size (add64 offset size) e, r.same_size))
            (λ e. omega (arith, whole, ltb→ge g.size (add64 offset size) e, r.same_size));
      written = λ x p.
          put-inside g.data_at offset size src x small
            (λ e. omega (arith, r.valid.no_block e, r.room)) p;
      others = λ p q o. put-before g.data_at offset size src p small o ∙ r.bytes p q;
    }

pub tmpfs_write-room :
    (kmalloc : ℕ → Option (ℕ → ℕ)) (f : File) (offset size : ℕ) (src : ℕ → ℕ) (g : File)
    → f.is_file ≡ true
    → with_room kmalloc f (add64 offset size) ≡ some g
    → tmpfs_write kmalloc f offset size src ≡ (true, put_bytes offset size src g)
unfolding tmpfs_write
tmpfs_write-room kmalloc f offset size src g file e =
    if_false (not f.is_file) _ _ (ap not file)
    ∙ ap
        (λ r. elim r as (λ _. Bool × File) [
          | none ↦ (false, f)
          | some g ↦ (true, put_bytes offset size src g)
        ])
        e

-- `tmpfs_write` to a valid file, where the end of the write is below 2^63 and the heap gives a block
-- when the room does not suffice, returns true; the file is valid, holds the bytes at their place,
-- has its other bytes as before, and reaches to the end of the write at least.
pub tmpfs_write-Written :
    (kmalloc : ℕ → Option (ℕ → ℕ)) (f : File) (offset size : ℕ) (src block : ℕ → ℕ)
    → f.is_file ≡ true
    → IsValid f
    → offset + size < 2 ^ 63
    → (f.allocated_size < offset + size → kmalloc ((offset + size) * 2) ≡ some block)
    → ((tmpfs_write kmalloc f offset size src).0 ≡ true)
      × Written f offset size src (tmpfs_write kmalloc f offset size src).1
unfolding tmpfs_write
tmpfs_write-Written kmalloc f offset size src block file valid small gives =
    let (g, (e, room)) = with_room-HasRoom kmalloc f (offset + size) block valid small gives in
    let whole : add64 offset size ≡ offset + size = omega (arith, small) in
    subst {A = Bool × File} (λ r. (r.0 ≡ true) × Written f offset size src r.1)
      (sym (tmpfs_write-room kmalloc f offset size src g file (ap (with_room kmalloc f) whole ∙ e)))
      (refl, put_bytes-Written f g offset size src small room)
