-- ===== src/Uaccess/Copy.antt =====
-- What `copy_from_user` of src/kernel/mm/uaccess.c copies.
use szczupak_os.Base.{ℕ, ◌-◌, ◌≤◌, ◌<◌, ◌≡◌, ◌⊎◌, true, false, Option, List, slice, Memory}
use szczupak_os.Base.Int.{ℤ, pos}
use szczupak_os.Vmm.{Directory, get_physical}
use szczupak_os.Uaccess.{efault, check_page_permissions}

-- Memory as a process sees it.
abbrev pub view : Option Directory → Memory → ℕ → ℕ
view d m x = m (get_physical d x m)

-- How a read of the bytes from `a` to `b` ends.
pub data ReadUser (d : Option Directory) (m : Memory) (a b : ℕ) (x : ℤ × List ℕ) : Type 0 where
  done :
      ((v : ℕ) → a ≤ v → v < b → check_page_permissions d v false m ≡ true)
      → x ≡ (pos 0, slice (view d m) a (b - a))
      → ReadUser d m a b x
  blocked :
      (v : ℕ)
      → a ≤ v
      → v < b
      → (check_page_permissions d v false m ≡ false) ⊎ (get_physical d v m ≡ 0)
      → x.0 ≡ efault
      → ReadUser d m a b x
