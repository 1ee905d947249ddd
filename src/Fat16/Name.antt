-- ===== src/Fat16/Name.antt =====
-- The names of directory entries of a FAT16 volume: `fat16_name_to_83`, and the names that
-- `fat16_create` and `fat16_create_file` of src/kernel/fs/fat16.c give to nodes.
pub mod RoundTrip
pub mod Created
mod Tests
use szczupak_os.Base.{
  ℕ, zero, suc, ◌+◌, ◌-◌, ◌*◌, ◌/◌, ◌%◌, ◌^◌, ◌≤◌, ◌<◌, min, ◌≡◌, refl, sym, ap, ap₂, ◌∙◌, subst,
  ◌≢◌, ◌↔◌, ◌⊎◌, inl, inr, Bool, true, false, not, ◌&&◌, ◌||◌, Option, none, some, List, [], ◌∷◌,
  ◌++◌, arith, ltb, leb, ◌==◌, if◌then◌else◌, ltb→lt, ltb→ge, lt→ltb, ge→ltb, leb→le, leb→gt,
  le→leb, gt→leb, ==→eq, ==→ne, eq→==, ne→==, tests, Bool-cases, Option-cases, if_elim, if_true,
  if_false, if_cases, some_inj, length, take, drop, get_or, length-append, length-take, take_nil,
  take_cons, take_zero, take_all, drop_nil, take-min, All, update, slice, update_self, update_ne,
  slice_eq, add16, add32, sub32, add64, sub64, mul64, page_size, align_down, align_up, max, bit_or,
  has_bit, bit_or_step, bit_or-zero, zero-bit_or, bit_or_frame, bit_or_odd, bit_or_half, Memory,
  read64, write64, read64-write64, write64_frame, read64_frame, read64-write64_ne, bit_or_128,
  AreBytes, read64-lt, write64-AreBytes, write64-read64,
}

-- The 11 bytes of the name of an entry: eight, and the three of the extension.
abbrev pub Name83 : Type 0
Name83 = ℕ → ℕ

-- A letter from a to z becomes the capital one.
unfoldable pub upper : ℕ → ℕ
upper c = if leb 97 c && leb c 122 then c - 32 else c

-- The first loop of `fat16_name_to_83` at place `i`, with `n` places left: the rest of the file name
-- and the entry name.
unfoldable pub base_loop : (n i : ℕ) (filename : List ℕ) (name83 : Name83) → List ℕ × Name83
base_loop zero i filename name83 = (filename, name83)
base_loop (suc n) i [] name83 = ([], name83)
base_loop (suc n) i (c ∷ cs) name83 =
    let rest = base_loop n (i + 1) cs (update name83 i (upper c)) in
    if c == 46 then (c ∷ cs, name83) else rest

-- The second loop of `fat16_name_to_83`.
unfoldable pub extension_loop : (n i : ℕ) (filename : List ℕ) (name83 : Name83) → Name83
extension_loop zero i filename name83 = name83
extension_loop (suc n) i [] name83 = name83
extension_loop (suc n) i (c ∷ cs) name83 = extension_loop n (i + 1) cs (update name83 i (upper c))

-- What `fat16_name_to_83` does behind the base name.
unfoldable pub after_base : List ℕ × Name83 → Name83
after_base ([], name83) = name83
after_base (c ∷ cs, name83) = if c == 46 then extension_loop 3 8 cs name83 else name83

-- `fat16_name_to_83`
unfoldable pub name_to_83 : (filename : List ℕ) → Name83
name_to_83 filename = after_base (base_loop 8 0 filename (λ _. 32))

-- The bytes of a part of an entry name up to the first space.
unfoldable pub part_loop : (n j : ℕ) (name : Name83) → List ℕ
part_loop zero j name = []
part_loop (suc n) j name =
    let rest = part_loop n (j + 1) name in if name j == 32 then [] else name j ∷ rest

-- The name that `fat16_create` gives to the node of an entry.
unfoldable pub child_name : Name83 → List ℕ
child_name name = part_loop 8 0 name ++ (if name 8 == 32 then [] else 46 ∷ part_loop 3 8 name)

-- The loop of `fat16_create_file` that names the node, at place `i`, with `n` left.
unfoldable pub created_loop : (n i : ℕ) (name83 : Name83) → List ℕ
created_loop zero i name83 = []
created_loop (suc n) i name83 =
    let rest = created_loop n (i + 1) name83 in
    if name83 i == 32
    then rest
    else name83 i ∷ (if i == 7 && not (name83 8 == 32) then 46 ∷ rest else rest)

-- The name that `fat16_create_file` gives to the new node.
unfoldable pub created_name : Name83 → List ℕ
created_name name83 = created_loop 11 0 name83
