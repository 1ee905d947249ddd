-- ===== src/Fat16/Mount/Tests.antt =====
-- `fat16_mount` of src/kernel/fs/fat16.c on a disk with two tables of 17 sectors.
use szczupak_os.Fat16.Mount.{
  fat16_mount-HasRegions, IsBootSector, volume_of, get16, Disk, fat16_mount, HasRegions,
}
use szczupak_os.Base.{refl, some, ℕ, ◌+◌, ◌≡◌, refl, true, false, some, arith, ◌==◌, if◌then◌else◌}

-- 512 bytes a sector, 4 sectors a cluster, 1 reserved sector, 2 tables, 512 entries, 17 sectors a table.
abbrev boot : ℕ → ℕ
boot i =
    if i == 12
    then 2
    else if i == 13
    then 4
    else if i == 14
    then 1
    else if i == 16
    then 2
    else if i == 18
    then 2
    else if i == 22
    then 17
    else 0

abbrev disk : Disk
disk = record { sectors = λ _. boot; bad_read = λ _. false; bad_write = λ _. false }

boot-IsBootSector : IsBootSector boot
unfolding get16
boot-IsBootSector = record {
  bytes = λ i. ground arith;
  sector_size = refl;
  some_sector = omega arith;
  some_table = omega arith;
  some_fat_sector = omega arith;
  some_entry = omega arith;
}

fat16_mount-HasRegions_example :
    (fat16_mount true 2048 disk ≡ some (volume_of 2048 boot)) × HasRegions (volume_of 2048 boot)
fat16_mount-HasRegions_example =
    fat16_mount-HasRegions 2048 disk refl boot-IsBootSector (omega arith)

places : (volume_of 2048 boot).data_start ≡ 2048 + 1 + 34 + 32
unfolding volume_of get16
places = refl
