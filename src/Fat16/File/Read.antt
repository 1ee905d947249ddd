-- ===== src/Fat16/File/Read.antt =====
-- What `fat16_read` of src/kernel/fs/fat16.c puts into the buffer.
use szczupak_os.Fat16.File.Sectors.{content-sector}
use szczupak_os.Fat16.File.Sectors.{read_sectors-Reading, Arrived, follow, content, Stored}
use szczupak_os.Fat16.Release.{ends-not}
use szczupak_os.Fat16.Place.{Holds, IsValid, IsHealthy}
use szczupak_os.Fat16.Table.{read_fat_entry-Holds}
use szczupak_os.Fat16.File.Position.{blit_outside, blit_inside, Reading}
use szczupak_os.Fat16.Allocate.{data_sector}
use native.Mathlib.Nat.{div-add-mod'}
use mathlib.Core.Path.{fun_ext}
use native.Mathlib.Nat.{mul-le-mul_right, mod-lt}
use szczupak_os.Fat16.File.{
  Node, skip, read_from, fat16_read, bytes_to_read, first_sector, read_fat_entry, read_clusters,
  blit, ends, Volume, Disk, read_sectors,
}
use szczupak_os.Base.{
  ne→==, not, if◌then◌else◌, if_false, ==→ne, ==→eq, ◌==◌, eq→==, some, ℕ, zero, suc, ◌+◌, ◌-◌, ◌*◌,
  ◌/◌, ◌%◌, ◌^◌, ◌≤◌, ◌<◌, ◌≡◌, refl, sym, ap, ◌∙◌, subst, inl, inr, true, false, arith, ltb, leb,
  ltb→lt, ltb→ge, lt→ltb, ge→ltb, gt→leb, Bool-cases,
}

Reading-cluster :
    (file : ℕ → ℕ) (offset want cluster_size k intra : ℕ) (before : ℕ → ℕ) (last bytes_read : ℕ)
    (buffer : ℕ → ℕ)
    → cluster_size ≡ last * 512
    → intra ≤ last * 512
    → Reading file offset want (k * cluster_size) intra before last bytes_read buffer
    → Reading file offset want (suc k * cluster_size) 0 before 0 bytes_read buffer
Reading-cluster file offset want cluster_size k intra before last bytes_read buffer e h r = record {
  bound = r.bound;
  reached = elim r.reached [ inl full ↦ inl full | inr at ↦ inr (omega (arith, at, e, h)) ];
  got = r.got;
  kept = r.kept;
}

read_clusters-stop :
    (n : ℕ) (v : Volume) (cluster intra want : ℕ) (d : Disk) (bytes_read : ℕ) (buffer : ℕ → ℕ)
    → bytes_read ≡ want
    → read_clusters (suc n) v cluster intra want d bytes_read buffer ≡ some (true, buffer)
unfolding read_clusters
read_clusters-stop n v cluster intra want d bytes_read buffer e =
    rw (read_clusters, ge→ltb bytes_read want (omega (arith, e)), eq→== bytes_read want e) refl

read_clusters-next :
    (n : ℕ) (v : Volume) (cluster intra want : ℕ) (d : Disk) (bytes_read : ℕ) (buffer : ℕ → ℕ)
    → bytes_read < want
    → ends cluster ≡ false
    → (read_sectors v.sectors_per_cluster 0
        (first_sector v cluster)
        intra
        want
        d
        bytes_read
        buffer).0
      ≡ true
    → read_clusters (suc n) v cluster intra want d bytes_read buffer ≡ (
        let r =
          read_sectors v.sectors_per_cluster 0
            (first_sector v cluster)
            intra
            want
            d
            bytes_read
            buffer in
        read_clusters n v (read_fat_entry v cluster d) 0 want d r.1 r.2)
unfolding read_clusters
read_clusters-next n v cluster intra want d bytes_read buffer h e ok =
    rw (read_clusters, lt→ltb bytes_read want h, e, ok) refl

module _ (v : Volume) (total : ℕ) (t : ℕ → ℕ) (d : Disk) (start size offset want : ℕ)
    (before : ℕ → ℕ) (valid : IsValid v) (good : IsHealthy v total d) (holds : Holds v t d)
    (stored : Stored v total t start size) (fits : offset + want ≤ size) where
  -- What the buffer is to hold.
  abbrev filled : ℕ → ℕ
  filled = blit 0 offset want (content v t d start) before

  filled-Reading :
      (base intra s bytes_read : ℕ) (buffer : ℕ → ℕ)
      → bytes_read ≡ want
      → Reading (content v t d start) offset want base intra before s bytes_read buffer
      → buffer ≡ filled
  filled-Reading base intra s bytes_read buffer e r = fun_ext (λ x. elim (Bool-cases (ltb x want)) [
    | inl p ↦
        let at : offset + x ≡ offset + (x - 0) = omega arith in
        r.got x (omega (arith, e, ltb→lt x want p))
        ∙ ap (content v t d start) at
        ∙ sym (
            blit_inside 0 offset want (content v t d start) before x (omega arith)
              (omega (arith, ltb→lt x want p)))
    | inr p ↦
        r.kept x (omega (arith, e, ltb→ge x want p))
        ∙ sym (
            blit_outside 0 offset want (content v t d start) before x
              (inr (omega (arith, ltb→ge x want p))))
  ])

  read_clusters-filled :
      (n k intra bytes_read : ℕ) (buffer : ℕ → ℕ)
      → want < n + bytes_read
      → intra < v.sectors_per_cluster * 512
      → Reading
          (content v t d start)
          offset
          want
          (k * (v.sectors_per_cluster * 512))
          intra
          before
          0
          bytes_read
          buffer
      → read_clusters n v (follow t k start) intra want d bytes_read buffer ≡ some (true, filled)
  unfolding Stored follow
  read_clusters-filled zero k intra bytes_read buffer fuel inside r =
      absurd (omega (arith, fuel, r.bound))
  read_clusters-filled (suc n) k intra bytes_read buffer fuel inside r =
      elim (Bool-cases (bytes_read == want)) [
        | inl e ↦
            let full = ==→eq bytes_read want e in
            read_clusters-stop n v (follow t k start) intra want d bytes_read buffer full
            ∙ ap (λ b. some (true, b)) (filled-Reading _ _ _ bytes_read buffer full r)
        | inr e ↦
            let short = ==→ne bytes_read want e in
            let reached : offset + bytes_read ≡ k * (v.sectors_per_cluster * 512) + intra =
              elim r.reached [ inl full ↦ absurd (short full) | inr at ↦ omega (arith, at) ] in
            let (goes_on, in_table, has) =
              stored k (omega (arith, reached, r.bound, short, fits)) in
            let c = follow t k start in
            let at : first_sector v c ≡ data_sector v c =
              omega (arith, has.addressable, has.some_sector) in
            let (ok, next) =
              subst
                (λ first.
                  Arrived (content v t d start) offset want (k * (v.sectors_per_cluster * 512))
                    intra before v.sectors_per_cluster
                    (read_sectors v.sectors_per_cluster 0 first intra want d bytes_read buffer))
                (sym at)
                (read_sectors-Reading (content v t d start) offset want
                  (k * (v.sectors_per_cluster * 512)) intra before v.sectors_per_cluster
                  v.sectors_per_cluster 0 (data_sector v c) d bytes_read buffer good (omega arith)
                  has.on_disk (λ i b p q. sym (content-sector v t d start k i b p q)) r) in
            let link =
              read_fat_entry-Holds v t c d valid good holds (ends-not c goes_on).0 in_table in
            let done =
              read_sectors v.sectors_per_cluster 0 (first_sector v c) intra want d bytes_read
                buffer in
            let further =
              Reading-cluster (content v t d start) offset want (v.sectors_per_cluster * 512) k
                intra before v.sectors_per_cluster done.1 done.2 refl (omega (arith, inside))
                next in
            read_clusters-next n v c intra want d bytes_read buffer (omega (arith, r.bound, short))
              goes_on ok
            ∙ ap (λ x. read_clusters n v x 0 want d done.1 done.2) link
            ∙ read_clusters-filled n (suc k) 0 done.1 done.2
                (elim next.reached [
                  | inl full ↦ omega (arith, full, fuel, r.bound, short)
                  | inr to ↦ omega (arith, to, reached, fuel, inside)
                ])
                (omega (arith, inside)) further
      ]

skip-next :
    (n : ℕ) (v : Volume) (cluster : ℕ) (d : Disk)
    → ends cluster ≡ false
    → skip (suc n) v cluster d ≡ skip n v (read_fat_entry v cluster d) d
unfolding skip
skip-next n v cluster d e = rw (skip, e) refl

skip-follow :
    {total : ℕ} (n j k : ℕ) (v : Volume) (t : ℕ → ℕ) (d : Disk) (start size : ℕ)
    → IsValid v
    → IsHealthy v total d
    → Holds v t d
    → Stored v total t start size
    → n + j ≡ k
    → k * (v.sectors_per_cluster * 512) < size
    → skip n v (follow t j start) d ≡ follow t k start
unfolding skip Stored follow
skip-follow zero j k v t d start size valid good h stored e p =
    ap (λ i. follow t i start) (omega (arith, e))
skip-follow (suc n) j k v t d start size valid good h stored e p =
    let le = mul-le-mul_right {m = j} {n = k} (v.sectors_per_cluster * 512) (omega (arith, e)) in
    let (goes_on, in_table, has) = stored j (omega (arith, le, p)) in
    skip-next n v (follow t j start) d goes_on
    ∙ ap (λ c. skip n v c d)
        (read_fat_entry-Holds v t (follow t j start) d valid good h
          (ends-not (follow t j start) goes_on).0 in_table)
    ∙ skip-follow n (suc j) k v t d start size valid good h stored (omega (arith, e)) p

bytes_to_read-fits :
    (node : Node) (offset size : ℕ)
    → offset ≤ node.size
    → offset + bytes_to_read node offset size ≤ node.size
unfolding bytes_to_read
bytes_to_read-fits node offset size h = ground arith

fat16_read-from :
    (v : Volume) (node : Node) (offset size : ℕ) (d : Disk) (buffer : ℕ → ℕ)
    → node.is_file ≡ true
    → 0 < size
    → offset < node.size
    → 2 ≤ node.fs_data
    → node.fs_data < 2 ^ 16
    → fat16_read v node offset size d buffer ≡ read_from v node offset size d buffer
unfolding fat16_read
fat16_read-from v node offset size d buffer file some_size inside low small =
    let at : node.fs_data % 2 ^ 16 ≡ node.fs_data = omega (arith, small) in
    if_false (not node.is_file) _ _ (ap not file)
    ∙ if_false (size == 0) _ _ (ne→== size 0 (omega arith))
    ∙ if_false (leb node.size offset) _ _ (gt→leb node.size offset inside)
    ∙ if_false (ltb (node.fs_data % 2 ^ 16) 2) _ _
        (ge→ltb (node.fs_data % 2 ^ 16) 2 (omega (arith, at, low)))

-- On a volume with at least one table, whose tables all hold the same entries, on a disk whose
-- sectors below `total`, which is at most 2^32, can be read and written, the tables among them:
-- `fat16_read` of at least one byte from an `offset` below the size of a file, whose first cluster
-- is a 16-bit number and whose chain has a cluster, with its sectors behind the tables and below
-- `total`, for every byte of the file, returns true, with the bytes of the file from `offset` on in
-- the buffer, up to the size asked for or the end of the file; the rest of the buffer stays.
pub fat16_read-content :
    {total : ℕ} (v : Volume) (t : ℕ → ℕ) (d : Disk) (node : Node) (offset size : ℕ) (buffer : ℕ → ℕ)
    → IsValid v
    → IsHealthy v total d
    → Holds v t d
    → Stored v total t node.fs_data node.size
    → node.is_file ≡ true
    → node.fs_data < 2 ^ 16
    → 0 < size
    → offset < node.size
    → fat16_read v node offset size d buffer
      ≡ some
          (true, blit 0 offset (bytes_to_read node offset size) (content v t d node.fs_data) buffer)
unfolding Stored follow read_from
fat16_read-content {total = total} v t d node offset size buffer valid good h stored file small
      some_size inside =
    let (first_goes_on, first_in_table, first_has) = stored 0 (omega (arith, inside)) in
    let cluster_size = v.sectors_per_cluster * 512 in
    let k = offset / cluster_size in
    let want = bytes_to_read node offset size in
    let whole = div-add-mod' offset cluster_size in
    let room : 0 < cluster_size = omega (arith, first_has.some_sector) in
    let (goes_on, in_table, has) = stored k (omega (arith, whole, inside)) in
    let at : node.fs_data % 2 ^ 16 ≡ node.fs_data = omega (arith, small) in
    let passed =
      skip-follow k 0 k v t d node.fs_data node.size valid good h stored (omega arith)
        (omega (arith, whole, inside)) in
    fat16_read-from v node offset size d buffer file some_size inside
      (ends-not node.fs_data first_goes_on).0 small
    ∙ ap
        (λ c.
          if ends c
          then some (false, buffer)
          else read_clusters (want + 1) v c (offset % cluster_size) want d 0 buffer)
        (ap (λ c. skip k v c d) at ∙ passed)
    ∙ if_false (ends (follow t k node.fs_data)) _ _ goes_on
    ∙ read_clusters-filled v total t d node.fs_data node.size offset want buffer valid good h stored
        (bytes_to_read-fits node offset size (omega (arith, inside))) (want + 1) k
        (offset % cluster_size) 0 buffer (omega arith) (mod-lt offset room)
        (record {
          bound = omega arith;
          reached = inr (omega (arith, whole));
          got = λ x p. absurd (omega (arith, p));
          kept = λ x p. refl;
        })
