-- ===== src/Fat16/Name/Tests.antt =====
-- The theorems about names of directory entries of src/kernel/fs/fat16.c at the entry of "A.TXT".
use szczupak_os.Fat16.Name.Created.{created_name_lost}
use szczupak_os.Fat16.Name.RoundTrip.{name_to_83-child_name, IsEntryName, IsPlain}
use szczupak_os.Fat16.Name.{
  part_loop, created_loop, name_to_83, created_name, child_name, upper, Name83,
}
use szczupak_os.Base.{refl, [], ◌∷◌, ℕ, ◌<◌, ◌≡◌, refl, [], ◌∷◌, arith, ltb, ◌==◌, if◌then◌else◌}

abbrev entry : Name83
entry i = if i == 0 then 65 else if ltb i 8 then 32 else if i == 9 then 88 else 84

entry-IsEntryName : IsEntryName entry
unfolding IsPlain upper
entry-IsEntryName = record {
  plain = λ i p. (ground arith, ground arith, ground arith);
  base = λ i p s. ground arith;
  extension = λ i p q s. ground arith;
}

listed : child_name entry ≡ 65 ∷ 46 ∷ 84 ∷ 88 ∷ 84 ∷ []
unfolding child_name part_loop
listed = refl

created : created_name entry ≡ 65 ∷ 84 ∷ 88 ∷ 84 ∷ []
unfolding created_name created_loop
created = refl

name_to_83-child_name_example : name_to_83 (child_name entry) 9 ≡ entry 9
name_to_83-child_name_example = name_to_83-child_name entry 9 entry-IsEntryName (omega arith)

created_name_lost_example : ¬ ((j : ℕ) → j < 11 → name_to_83 (created_name entry) j ≡ entry j)
created_name_lost_example = created_name_lost entry entry-IsEntryName refl (omega arith)
