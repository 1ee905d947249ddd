-- ===== src/Uaccess.antt =====
-- Access to the memory of processes: src/kernel/mm/uaccess.c. A user pointer is its address, 0 if
-- it is null; `kernel_ok` is whether the kernel's pointer is not null. The switches of the
-- processor's access prevention around the loops (`stac`, `clac`) have no effect on the result. A
-- loop over pages has fuel and is `none` when that runs out.
pub mod Range
pub mod Copy
pub mod Strings
mod Tests
use szczupak_os.Base.{
  ◌*◌, ℕ, zero, suc, ◌+◌, ◌-◌, ◌/◌, ◌%◌, Bool, true, false, not, ◌&&◌, ◌||◌, Option, none, some,
  List, [], ◌∷◌, ◌++◌, ltb, leb, ◌==◌, if◌then◌else◌, length, take, drop, update, slice, add64,
  sub64, align_down, Memory,
}
use szczupak_os.Pmm.{memset}
use szczupak_os.Base.Int.{ℤ, pos, negsuc}
use szczupak_os.Vmm.{
  Directory, pml4_index, pdp_index, pd_index, pt_index, present, writable, user, huge, entry,
  get_physical,
}

-- `USER_SPACE_START` and `USER_SPACE_END`
abbrev pub user_space_start : ℕ
user_space_start = 0x8000000000

abbrev pub user_space_end : ℕ
user_space_end = 0x800000000000

-- `MAX_USER_STRING`
abbrev pub max_user_string : ℕ
max_user_string = 16777216

-- `-EFAULT` and `-EINVAL`
abbrev pub efault : ℤ
efault = negsuc 13

abbrev pub einval : ℤ
einval = negsuc 21

-- `task_t`: what tells whose memory is accessed.
pub record Task : Type 0 where
  pub is_kernel : Bool
  pub page_dir : Option Directory

-- `validate_user_range`
unfoldable pub validate_user_range : (addr size : ℕ) → ℤ
validate_user_range addr size =
    if addr == 0
    then efault
    else if ltb addr user_space_start
    then efault
    else if leb user_space_end addr
    then efault
    else if ltb user_space_end size
    then einval
    else if ltb (user_space_end - size) addr
    then efault
    else pos 0

-- `get_current_user_dir`
abbrev pub current_user_dir : Option Task → Option Directory
current_user_dir none = none
current_user_dir (some k) = if k.is_kernel then none else k.page_dir

-- Whether an entry lets a process read, or write, what it leads to.
abbrev pub allows : (write : Bool) → (e : ℕ) → Bool
allows write e = present e && (user e && (not write || writable e))

-- Whether the entries on the way let a process in.
abbrev pub permits : (write : Bool) → (e4 e3 e2 e1 : ℕ) → Bool
permits write e4 e3 e2 e1 =
    allows write e4
    && (allows write e3 && (huge e3 || (allows write e2 && (huge e2 || allows write e1))))

-- `check_page_permissions`, with the guards of `pml4_virt_for_dir`.
unfoldable pub check_page_permissions :
    Option Directory → (virt : ℕ) → (write : Bool) → Memory → Bool
check_page_permissions none virt write m = false
check_page_permissions (some d) virt write m =
    let e4 = entry m d.pml4_phys (pml4_index virt) in
    let e3 = entry m (align_down e4) (pdp_index virt) in
    let e2 = entry m (align_down e3) (pd_index virt) in
    let e1 = entry m (align_down e2) (pt_index virt) in
    if not (d.pml4_phys % 4096 == 0) || leb 0x100000000 d.pml4_phys
    then false
    else permits write e4 e3 e2 e1

-- Where byte `virt` of a page stands, once the page is translated to `phys`.
abbrev pub place : (phys virt : ℕ) → ℕ
place phys virt = align_down phys + virt % 4096

-- The bytes of a round: to the end of the page, or of the range.
abbrev pub chunk_size : (virt left : ℕ) → ℕ
chunk_size virt left = if ltb left (4096 - virt % 4096) then left else 4096 - virt % 4096

-- A result with bytes put before those that it has.
abbrev pub prepend : List ℕ → Option (ℤ × List ℕ) → Option (ℤ × List ℕ)
prepend xs none = none
prepend xs (some (r, ys)) = some (r, xs ++ ys)

-- The loop of `copy_from_user`: its result, and the bytes that it stores from `kernel_dst` on.
unfoldable pub read_user_loop :
    (fuel : ℕ) → Option Directory → (src_addr size copied : ℕ) → Memory → Option (ℤ × List ℕ)
read_user_loop zero d src_addr size copied m = if ltb copied size then none else some (pos 0, [])
read_user_loop (suc fuel) d src_addr size copied m =
    let virt = add64 src_addr copied in
    let phys = get_physical d virt m in
    let n = chunk_size virt (size - copied) in
    let rest =
      prepend (slice m (place phys virt) n) (read_user_loop fuel d src_addr size (copied + n) m) in
    if ltb copied size
    then if check_page_permissions d virt false m
      then if phys == 0 then some (efault, []) else rest
      else some (efault, [])
    else some (pos 0, [])

-- A call whose range is checked goes on with the page directory of the current task.
abbrev pub in_user_range :
    {R : Type 0} → Option Task → (addr size : ℕ) → (ℤ → R) → (Option Directory → R) → R
in_user_range current addr size fail go = elim (validate_user_range addr size) [
  | pos zero ↦ (elim (current_user_dir current) [ none ↦ fail efault | some d ↦ go (some d) ])
  | pos (suc r) ↦ fail (pos (suc r))
  | negsuc r ↦ fail (negsuc r)
]

-- `copy_from_user`
unfoldable pub copy_from_user :
    Option Task → (kernel_ok : Bool) → (user_src size : ℕ) → Memory → Option (ℤ × List ℕ)
copy_from_user current kernel_ok user_src size m =
    if not kernel_ok || (user_src == 0 || size == 0)
    then some (einval, [])
    else in_user_range current user_src size (λ r. some (r, []))
        (λ d. read_user_loop size d user_src size 0 m)

-- The bytes `xs` from address `a` on.
unfoldable pub write_list : (a : ℕ) → List ℕ → Memory → Memory
write_list a [] m = m
write_list a (x ∷ xs) m = write_list (a + 1) xs (update m a x)

-- The loop of `copy_to_user` over the bytes left.
unfoldable pub write_user_loop :
    (fuel : ℕ) → Option Directory → (virt : ℕ) → List ℕ → Memory → Option (ℤ × Memory)
write_user_loop zero d virt [] m = some (pos 0, m)
write_user_loop zero d virt (x ∷ xs) m = none
write_user_loop (suc fuel) d virt [] m = some (pos 0, m)
write_user_loop (suc fuel) d virt (x ∷ xs) m =
    let bytes = x ∷ xs in
    let phys = get_physical d virt m in
    let n = chunk_size virt (length bytes) in
    let rest =
      write_user_loop fuel d (add64 virt n) (drop n bytes)
        (write_list (place phys virt) (take n bytes) m) in
    if phys == 0
    then some (efault, m)
    else if check_page_permissions d virt true m
    then rest
    else some (efault, m)

-- `copy_to_user`: `bytes` are the ones at `kernel_src`, and their number is the size.
unfoldable pub copy_to_user :
    Option Task → (kernel_ok : Bool) → (user_dst : ℕ) → List ℕ → Memory → Option (ℤ × Memory)
copy_to_user current kernel_ok user_dst bytes m =
    if not kernel_ok || (user_dst == 0 || length bytes == 0)
    then some (einval, m)
    else in_user_range current user_dst (length bytes) (λ r. some (r, m))
        (λ d. write_user_loop (length bytes) d user_dst bytes m)

-- The inner loop of `strnlen_user`: the place of a NUL among the next `n` bytes.
unfoldable pub find_nul : (n len : ℕ) → (a : ℕ) → Memory → Option ℕ
find_nul zero len a m = none
find_nul (suc n) len a m =
    let rest = find_nul n (len + 1) (a + 1) m in if m a == 0 then some len else rest

-- Its outer loop, with `len` bytes behind it.
unfoldable pub strnlen_loop :
    (fuel : ℕ) → Option Directory → (str_addr max_len len : ℕ) → Memory → Option ℤ
strnlen_loop zero d str_addr max_len len m = if ltb len max_len then none else some (pos max_len)
strnlen_loop (suc fuel) d str_addr max_len len m =
    let virt = add64 str_addr len in
    let page_addr = align_down virt in
    let phys = get_physical d page_addr m in
    let n = chunk_size virt (max_len - len) in
    let rest = strnlen_loop fuel d str_addr max_len (len + n) m in
    if ltb len max_len
    then if leb user_space_end virt
      then some efault
      else if check_page_permissions d page_addr false m
      then if phys == 0
        then some efault
        else (elim (find_nul n len (place phys virt) m) [ some k ↦ some (pos k) | none ↦ rest ])
      else some efault
    else some (pos max_len)

-- `strnlen_user`
unfoldable pub strnlen_user : Option Task → (user_str max_len : ℕ) → Memory → Option ℤ
strnlen_user current user_str max_len m =
    let limit : ℕ = if ltb max_user_string max_len then max_user_string else max_len in
    if user_str == 0
    then some efault
    else in_user_range current user_str 1 (λ r. some r)
        (λ d. strnlen_loop limit d user_str limit 0 m)

-- The end of `strncpy_from_user`: a NUL behind the bytes copied.
abbrev pub terminated : (len : ℕ) → Option (ℤ × List ℕ) → Option (ℤ × List ℕ)
terminated len none = none
terminated len (some (pos zero, xs)) = some (pos len, xs ++ 0 ∷ [])
terminated len (some (pos (suc r), xs)) = some (pos (suc r), xs)
terminated len (some (negsuc r, xs)) = some (negsuc r, xs)

abbrev pub with_len : Option ℤ → (ℕ → Option (ℤ × List ℕ)) → Option (ℤ × List ℕ)
with_len none k = none
with_len (some (negsuc r)) k = some (negsuc r, [])
with_len (some (pos len)) k = k len

-- `strncpy_from_user`: the result, and the bytes stored from `kernel_dst` on.
unfoldable pub strncpy_from_user :
    Option Task → (kernel_ok : Bool) → (user_src max_len : ℕ) → Memory → Option (ℤ × List ℕ)
strncpy_from_user current kernel_ok user_src max_len m =
    if not kernel_ok || (user_src == 0 || max_len == 0)
    then some (einval, [])
    else with_len (strnlen_user current user_src (max_len - 1) m)
        (λ len. terminated len (copy_from_user current kernel_ok user_src len m))

-- The loop of `verify_user_read` and `verify_user_write` over `n` pages from `page` on.
unfoldable pub verify_loop : (n page : ℕ) → Option Directory → (write : Bool) → Memory → ℤ
verify_loop zero page d write m = pos 0
verify_loop (suc n) page d write m =
    let rest = verify_loop n (page + 4096) d write m in
    if check_page_permissions d page write m then rest else efault

-- `verify_user_read` and `verify_user_write`
unfoldable pub verify_user : (write : Bool) → Option Task → (user_ptr size : ℕ) → Memory → ℤ
verify_user write current user_ptr size m =
    let start_page = align_down user_ptr in
    let end_page = align_down (sub64 (add64 user_ptr size) 1) in
    if user_ptr == 0 || size == 0
    then einval
    else in_user_range current user_ptr size (λ r. r)
        (λ d. verify_loop ((end_page + 4096 - start_page) / 4096) start_page d write m)

abbrev pub verify_user_read : Option Task → (user_ptr size : ℕ) → Memory → ℤ
verify_user_read current user_ptr size m = verify_user false current user_ptr size m

abbrev pub verify_user_write : Option Task → (user_ptr size : ℕ) → Memory → ℤ
verify_user_write current user_ptr size m = verify_user true current user_ptr size m

-- A round of `clear_user` at the byte `a`: whole words first, where there are many and aligned.
abbrev pub clear_chunk : (a n : ℕ) → Memory → Memory
clear_chunk a n m =
    let fast : ℕ = if leb 64 n then if a % 8 == 0 then n / 8 * 8 else 0 else 0 in
    memset (a + fast) 0 (n - fast) (memset a 0 fast m)

-- The loop of `clear_user`.
pub clear_user_loop :
    (fuel : ℕ) → Option Directory → (dst_addr size cleared : ℕ) → Memory → Option (ℤ × Memory)
clear_user_loop zero d dst_addr size cleared m = if ltb cleared size then none else some (pos 0, m)
clear_user_loop (suc fuel) d dst_addr size cleared m =
    let virt = add64 dst_addr cleared in
    let page_addr = align_down virt in
    let phys = get_physical d page_addr m in
    let n = chunk_size virt (size - cleared) in
    let rest =
      clear_user_loop fuel d dst_addr size (cleared + n) (clear_chunk (place phys virt) n m) in
    if ltb cleared size
    then if check_page_permissions d page_addr true m
      then if phys == 0 then some (efault, m) else rest
      else some (efault, m)
    else some (pos 0, m)

-- `clear_user`
pub clear_user : Option Task → (user_dst size : ℕ) → Memory → Option (ℤ × Memory)
clear_user current user_dst size m =
    if user_dst == 0 || size == 0
    then some (einval, m)
    else in_user_range current user_dst size (λ r. some (r, m))
        (λ d. clear_user_loop size d user_dst size 0 m)

-- `get_user_u8`, `get_user_u16`, `get_user_u32` and `get_user_u64`, by the width.
pub get_user :
    (width : ℕ) → Option Task → (kernel_ok : Bool) → (user_src : ℕ) → Memory → Option (ℤ × List ℕ)
get_user width current kernel_ok user_src m = copy_from_user current kernel_ok user_src width m

-- The bytes of a value, the lowest first.
pub bytes_of : (width value : ℕ) → List ℕ
bytes_of zero value = []
bytes_of (suc width) value = value % 256 ∷ bytes_of width (value / 256)

-- `put_user_u8`, `put_user_u16`, `put_user_u32` and `put_user_u64`, by the width.
pub put_user : (width : ℕ) → Option Task → (user_dst value : ℕ) → Memory → Option (ℤ × Memory)
put_user width current user_dst value m =
    copy_to_user current true user_dst (bytes_of width value) m
