-- ===== src/Fat16/Tests.antt =====
-- The theorems about src/kernel/fs/fat16.c for a volume with two tables of one sector, and runs of the
-- code.
use szczupak_os.Fat16.Write.RoundTrip.{
  fat16_write-Overwritten, fat16_read-fat16_write, Overwritten, grown,
}
use szczupak_os.Fat16.Write.Place.{IsSimple}
use szczupak_os.Fat16.File.Read.{fat16_read-content}
use szczupak_os.Fat16.Release.{release_completes, Linked}
use szczupak_os.Fat16.Place.{place, IsValid, IsHealthy, Holds}
use szczupak_os.Fat16.Table.{write_fat_entry-Tables, Tables}
use szczupak_os.Fat16.File.Sectors.{content, follow, Stored}
use szczupak_os.Fat16.File.{bytes_to_read, blit, fat16_read, Node}
use szczupak_os.Fat16.Allocate.{allocate_takes-FirstFree, FirstFree, Allocated, HasCluster}
use szczupak_os.Fat16.{
  entry_offset, write_fat_entry, release_cluster_chain, get16, allocate_cluster, Volume, Disk,
}
use szczupak_os.Fat16.Write.{fat16_write}
use szczupak_os.Fat16.Freed.{Chain, release_frees_chain, freed, contains, stop, link}
use szczupak_os.Base.{
  leb, gt→leb, ℕ, zero, suc, ◌+◌, ◌%◌, ◌≤◌, ◌<◌, ◌≡◌, refl, ap, ◌≢◌, true, ◌||◌, some, [], ◌∷◌,
  arith, ltb, ◌==◌, if◌then◌else◌, lt→ltb, if_true, update,
}

abbrev volume : Volume
volume = record {
  start_lba = 0;
  fat_start = 1;
  root_start = 3;
  data_start = 10;
  root_entries = 16;
  sectors_per_cluster = 1;
  sectors_per_fat = 1;
  num_fats = 2;
}

-- Cluster 2 is followed by cluster 3, which ends the chain; all others are free.
abbrev table : ℕ → ℕ
table x = if ltb x 4 then 255 else if x == 4 then 3 else if x == 6 || x == 7 then 255 else 0

abbrev bytes : ℕ → ℕ → ℕ
bytes lba x = (lba + x) % 256

-- The sectors of the disk, which refuses all others.
abbrev sector_count : ℕ
sector_count = 64

abbrev disk : Disk
disk = record {
  sectors = λ lba. if ltb lba 10 then table else bytes lba;
  bad_read = λ lba. leb sector_count lba;
  bad_write = λ lba. leb sector_count lba;
}

abbrev stored_entries : ℕ → ℕ
stored_entries c = get16 table (entry_offset c)

volume-IsValid : IsValid volume
volume-IsValid = record { addressable = omega arith; some_table = omega arith }

disk-IsHealthy : IsHealthy volume sector_count disk
disk-IsHealthy = record {
  bounded = omega arith;
  on_disk = omega arith;
  reads = λ lba h. gt→leb sector_count lba h;
  writes = λ lba h. gt→leb sector_count lba h;
}

disk-Holds : Holds volume stored_entries disk
unfolding Holds get16
disk-Holds k c p q =
    let low : place volume k c < 10 = omega (arith, p, q) in
    ap (λ s. get16 s (entry_offset c))
      (if_true (ltb (place volume k c) 10) table _ (lt→ltb _ 10 low))

disk-Linked : Linked volume stored_entries
unfolding Linked get16
disk-Linked c p e = ground arith

has_cluster : (c : ℕ) → c < 50 → HasCluster volume sector_count c
has_cluster c p = record {
  some_sector = omega arith;
  behind = omega arith;
  addressable = omega (arith, p);
  on_disk = omega (arith, p);
}

write_fat_entry-Tables_example :
    ((write_fat_entry volume 5 7 disk).0 ≡ true)
    × Tables volume sector_count
        (update stored_entries 5 7)
        disk
        (write_fat_entry volume 5 7 disk).1
write_fat_entry-Tables_example =
    write_fat_entry-Tables volume stored_entries 5 7 disk volume-IsValid disk-IsHealthy disk-Holds
      (omega arith) (omega arith)

release_completes_example : (release_cluster_chain 2 volume disk).0 ≡ true
release_completes_example =
    release_completes 2 volume stored_entries disk volume-IsValid disk-IsHealthy disk-Holds
      disk-Linked (λ _. omega arith)

disk-Chain : Chain volume stored_entries 2 (2 ∷ 3 ∷ [])
unfolding contains get16
disk-Chain =
    link 2 (3 ∷ []) refl (omega arith) refl (link 3 [] refl (omega arith) refl (stop 0xFFFF refl))

release_frees_chain_example :
    ((release_cluster_chain 2 volume disk).0 ≡ true)
    × Tables volume sector_count
        (freed (2 ∷ 3 ∷ []) stored_entries)
        disk
        (release_cluster_chain 2 volume disk).1
release_frees_chain_example =
    release_frees_chain 2 volume stored_entries disk (2 ∷ 3 ∷ []) volume-IsValid disk-IsHealthy
      disk-Holds disk-Chain

below_four : (j : ℕ) → 2 ≤ j → j < 4 → stored_entries j ≢ 0
unfolding get16
below_four zero p q = absurd (omega arith)
below_four (suc zero) p q = absurd (omega arith)
below_four (suc (suc zero)) p q = omega arith
below_four (suc (suc (suc zero))) p q = omega arith
below_four (suc (suc (suc (suc j)))) p q = absurd (omega (arith, q))

four-FirstFree : FirstFree volume stored_entries 4
unfolding get16
four-FirstFree = record {
  low = omega arith;
  high = omega arith;
  inside = omega arith;
  free = refl;
  taken = λ j p q. below_four j p q;
}

allocate_takes-FirstFree_example :
    ((allocate_cluster volume disk).0 ≡ 4)
    × Allocated volume sector_count stored_entries 4 disk (allocate_cluster volume disk).1
allocate_takes-FirstFree_example =
    allocate_takes-FirstFree volume stored_entries 4 disk volume-IsValid
      (has_cluster 4 (omega arith)) disk-IsHealthy disk-Holds four-FirstFree

-- A file of 1000 bytes in the clusters 2 and 3.
abbrev file : Node
file = record { is_file = true; size = 1000; fs_data = 2 }

file-Stored : Stored volume sector_count stored_entries 2 1000
unfolding Stored follow get16
file-Stored zero p = (refl, omega arith, has_cluster 2 (omega arith))
file-Stored (suc zero) p = (refl, omega arith, has_cluster 3 (omega arith))
file-Stored (suc (suc k)) p = absurd (omega (arith, p))

fat16_read-content_example :
    fat16_read volume file 500 600 disk (λ _. 0)
    ≡ some (
      true,
      blit 0 500 (bytes_to_read file 500 600) (content volume stored_entries disk 2) (λ _. 0),
    )
fat16_read-content_example =
    fat16_read-content volume stored_entries disk file 500 600 (λ _. 0) volume-IsValid
      disk-IsHealthy disk-Holds file-Stored refl (omega arith) (omega arith) (omega arith)

file-Stored-all : Stored volume sector_count stored_entries 2 1024
unfolding Stored follow get16
file-Stored-all zero p = (refl, omega arith, has_cluster 2 (omega arith))
file-Stored-all (suc zero) p = (refl, omega arith, has_cluster 3 (omega arith))
file-Stored-all (suc (suc k)) p = absurd (omega (arith, p))

file-IsSimple : IsSimple volume stored_entries 2 1024
unfolding IsSimple follow get16
file-IsSimple zero zero p q e = refl
file-IsSimple zero (suc zero) p q e = absurd (omega (arith, e))
file-IsSimple (suc zero) zero p q e = absurd (omega (arith, e))
file-IsSimple (suc zero) (suc zero) p q e = refl
file-IsSimple (suc (suc j)) k p q e = absurd (omega (arith, p))
file-IsSimple zero (suc (suc k)) p q e = absurd (omega (arith, q))
file-IsSimple (suc zero) (suc (suc k)) p q e = absurd (omega (arith, q))

-- The bytes that are written.
abbrev letters : ℕ → ℕ
letters x = 65 + x % 26

fat16_write-Overwritten_example :
    (d' : Disk) × ((fat16_write volume file 500 100 letters disk
        ≡ some (true, grown file 500 100, d'))
      × Overwritten volume sector_count stored_entries 2 1024 500 100 letters disk d')
fat16_write-Overwritten_example =
    fat16_write-Overwritten volume stored_entries disk file 500 100 1024 letters volume-IsValid
      disk-IsHealthy disk-Holds file-Stored-all file-IsSimple refl (omega arith) (omega arith)
      (omega arith) (omega arith)

fat16_read-fat16_write_example :
    (d' : Disk) × ((fat16_write volume file 500 100 letters disk
        ≡ some (true, grown file 500 100, d'))
      × (fat16_read volume (grown file 500 100) 500 100 d' (λ _. 0)
          ≡ some (true, blit 0 0 100 letters (λ _. 0))))
fat16_read-fat16_write_example =
    fat16_read-fat16_write volume stored_entries disk file 500 100 1024 letters (λ _. 0)
      volume-IsValid disk-IsHealthy disk-Holds file-Stored-all file-IsSimple refl (omega arith)
      (omega arith) (omega arith) (omega arith) (omega arith)
