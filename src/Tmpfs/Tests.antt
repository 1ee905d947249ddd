-- ===== src/Tmpfs/Tests.antt =====
-- The theorems about src/kernel/fs/tmpfs.c for a file of four bytes and an empty one.
use szczupak_os.Tmpfs.Write.{tmpfs_write-Written, Written, IsValid}
use szczupak_os.Tmpfs.RoundTrip.{tmpfs_read-tmpfs_write}
use szczupak_os.Tmpfs.{tmpfs_read, tmpfs_write, File}
use szczupak_os.Base.{
  refl, ℕ, ◌+◌, ◌≤◌, ◌<◌, ◌≡◌, refl, true, Option, none, some, arith, ltb, if◌then◌else◌,
}

-- A heap that gives blocks of less than 1000 bytes, in which each byte is 7.
abbrev heap : ℕ → Option (ℕ → ℕ)
heap n = if ltb n 1000 then some (λ _. 7) else none

abbrev empty : File
empty = record { is_file = true; size = 0; data_at = none; allocated_size = 0 }

abbrev word : ℕ → ℕ
word x = 97 + x

abbrev four : File
four = record { is_file = true; size = 4; data_at = some word; allocated_size = 8 }

empty-IsValid : IsValid empty
empty-IsValid = record { inside = omega arith; small = omega arith; no_block = λ _. refl }

tmpfs_write-Written_example :
    ((tmpfs_write heap empty 2 3 word).0 ≡ true)
    × Written empty 2 3 word (tmpfs_write heap empty 2 3 word).1
tmpfs_write-Written_example =
    tmpfs_write-Written heap empty 2 3 word (λ _. 7) refl empty-IsValid (omega arith) (λ _. refl)

tmpfs_read-tmpfs_write_example :
    let g = (tmpfs_write heap empty 2 3 word).1 in
    ((tmpfs_write heap empty 2 3 word).0 ≡ true)
    × ((tmpfs_read g 2 3 (λ _. 0)).0 ≡ true)
    × ((x : ℕ) → x < 3 → (tmpfs_read g 2 3 (λ _. 0)).1 x ≡ word x)
    × ((x : ℕ) → 3 ≤ x → (tmpfs_read g 2 3 (λ _. 0)).1 x ≡ 0)
tmpfs_read-tmpfs_write_example =
    tmpfs_read-tmpfs_write heap empty 2 3 word (λ _. 7) (λ _. 0) refl empty-IsValid (omega arith)
      (omega arith) (λ _. refl)
