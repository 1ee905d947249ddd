-- ===== src/Uaccess/Tests.antt =====
-- The theorems about src/kernel/mm/uaccess.c for a process with one page, and runs of the code.
use szczupak_os.Base.{
  read_bytes, ℕ, ◌+◌, ◌<◌, ◌≡◌, refl, ◌↔◌, true, false, ◌||◌, Option, some, [], ◌∷◌, arith, ◌==◌,
  if◌then◌else◌, read64,
}
use szczupak_os.Base.Int.{pos}
use szczupak_os.Vmm.{Directory, entry, get_physical}
use szczupak_os.Uaccess.{
  Task, efault, einval, validate_user_range, current_user_dir, check_page_permissions,
  read_user_loop, find_nul, strnlen_loop, strnlen_user, copy_from_user, strncpy_from_user,
  verify_loop, verify_user,
}
use szczupak_os.Uaccess.Range.{InUserSpace, Accessible, verify_user_iff}
use szczupak_os.Uaccess.Strings.{strncpy_from_user_empty}

-- Tables at 0x1000, 0x2000, 0x3000 and 0x4000, which map the first page of the user half to 0x5000
-- for reading and writing; the page starts with "hi".
abbrev memory : ℕ → ℕ
memory a =
    if a == 0x1008 || (a == 0x2000 || (a == 0x3000 || a == 0x4000))
    then 7
    else if a == 0x1009
    then 0x20
    else if a == 0x2001
    then 0x30
    else if a == 0x3001
    then 0x40
    else if a == 0x4001
    then 0x50
    else if a == 0x5000
    then b'h'
    else if a == 0x5001
    then b'i'
    else 0

abbrev dir : Directory
dir = record { pml4 = 0x1000; pml4_phys = 0x1000 }

abbrev process : Option Task
process = some (record { is_kernel = false; page_dir = some dir })

abbrev base : ℕ
base = 0x8000000000

read_hi : copy_from_user process true base 2 memory ≡ some (pos 0, b'h' ∷ b'i' ∷ [])
unfolding copy_from_user validate_user_range read_user_loop check_page_permissions get_physical
    entry read64 read_bytes
read_hi = refl

read_out : copy_from_user process true (base + 4095) 2 memory ≡ some (efault, 0 ∷ [])
unfolding copy_from_user validate_user_range read_user_loop check_page_permissions get_physical
    entry read64 read_bytes
read_out = refl

verify_page : verify_user true process base 4096 memory ≡ pos 0
unfolding verify_user verify_loop validate_user_range check_page_permissions entry read64 read_bytes
verify_page = refl

copy_hi : strncpy_from_user process true base 10 memory ≡ some (pos 2, b'h' ∷ b'i' ∷ 0 ∷ [])
unfolding strncpy_from_user strnlen_user strnlen_loop find_nul copy_from_user validate_user_range
    read_user_loop check_page_permissions get_physical entry read64 read_bytes
copy_hi = refl

verify_user_iff_example : (verify_user true process base 4096 memory ≡ pos 0) ↔ (
    (d : Directory) × (0 < 4096)
    × InUserSpace base 4096
    × (current_user_dir process ≡ some d)
    × Accessible (some d) true memory base 4096)
verify_user_iff_example = verify_user_iff true process base 4096 memory

strncpy_from_user_empty_example :
    strncpy_from_user process true (base + 2) 16 memory ≡ some (einval, [])
unfolding check_page_permissions get_physical entry read64 read_bytes
strncpy_from_user_empty_example =
    strncpy_from_user_empty process dir (base + 2) 16 memory refl
      (record { low = omega arith; below = omega arith; high = omega arith }) refl (omega arith)
      refl
