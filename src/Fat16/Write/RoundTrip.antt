-- ===== src/Fat16/Write/RoundTrip.antt =====
-- What is read from a file of a FAT16 volume, src/kernel/fs/fat16.c, after it was written.
use szczupak_os.Fat16.File.Read.{fat16_read-content}
use szczupak_os.Fat16.File.Position.{blit_outside, blit_inside}
use szczupak_os.Fat16.Release.{ends-not}
use szczupak_os.Fat16.Write.Overwrite.{write_clusters-InPlace, skip_clusters-follow}
use szczupak_os.Fat16.Write.Place.{sector_at, IsSimple}
use szczupak_os.Fat16.Place.{Holds, IsValid, IsHealthy}
use szczupak_os.Fat16.File.Sectors.{content, follow, Stored}
use szczupak_os.Fat16.File.{fat16_read, bytes_to_read, blit, Node}
use mathlib.Core.Path.{fun_ext}
use native.Mathlib.Nat.{div-add-mod', mod-lt}
use szczupak_os.Fat16.Write.{
  allocate_cluster, write_clusters, skip_clusters, Disk, Volume, fat16_write, write_from,
}
use szczupak_os.Base.{
  ℕ, ◌+◌, ◌-◌, ◌*◌, ◌/◌, ◌%◌, ◌^◌, ◌≤◌, ◌<◌, ◌≡◌, refl, sym, ap, ◌∙◌, subst, ◌≢◌, inl, inr, true,
  false, not, some, arith, ltb, ◌==◌, if◌then◌else◌, ltb→lt, ltb→ge, ge→ltb, ne→==, Bool-cases,
  if_elim, if_false, if_cases, add64,
}

-- The node after a write of `size` bytes from `offset` on.
abbrev pub grown : Node → (offset size : ℕ) → Node
grown node offset size =
    if ltb node.size (offset + size) then record node { size = offset + size } else node

-- The disk after the bytes of `src` from `offset` on are in the file whose chain starts at `start`:
-- the tables are as before, the file holds the bytes, and no other sector has changed.
pub record Overwritten (v : Volume) (total : ℕ) (t : ℕ → ℕ) (start limit offset size : ℕ)
    (src : ℕ → ℕ) (before d : Disk) : Type 0 where
  pub healthy : IsHealthy v total d
  pub holds : Holds v t d
  pub file :
      (p : ℕ)
      → p < limit
      → content v t d start p ≡ blit offset 0 size src (content v t before start) p
  pub others :
      (lba : ℕ)
      → ((i : ℕ) → i * 512 < limit → lba ≢ sector_at v t start i)
      → d.sectors lba ≡ before.sectors lba

fat16_write-chain :
    (v : Volume) (node : Node) (offset size : ℕ) (src : ℕ → ℕ) (d : Disk)
    → node.fs_data % 2 ^ 16 ≡ node.fs_data
    → 2 ≤ node.fs_data
    → (elim (ltb (node.fs_data % 2 ^ 16) 2) [
      | false ↦ write_from v node (node.fs_data % 2 ^ 16) offset size src d
      | true ↦ elim ((allocate_cluster v d).0 == 0) [
        | true ↦ some (false, node, (allocate_cluster v d).1)
        | false ↦
            write_from v
              (record node { fs_data = (allocate_cluster v d).0 })
              (allocate_cluster v d).0
              offset
              size
              src
              (allocate_cluster v d).1
      ]
    ])
      ≡ write_from v node node.fs_data offset size src d
fat16_write-chain v node offset size src d at low =
    rw (ge→ltb (node.fs_data % 2 ^ 16) 2 (omega (arith, at, low)))
      (ap (λ c. write_from v node c offset size src d) at)

fat16_write-from :
    (v : Volume) (node : Node) (offset size : ℕ) (src : ℕ → ℕ) (d : Disk)
    → node.is_file ≡ true
    → 0 < size
    → offset + size < 2 ^ 64
    → 0 < v.sectors_per_cluster
    → 2 ≤ node.fs_data
    → node.fs_data < 2 ^ 16
    → fat16_write v node offset size src d ≡ write_from v node node.fs_data offset size src d
unfolding fat16_write
fat16_write-from v node offset size src d file some_size inside room low small =
    let at : node.fs_data % 2 ^ 16 ≡ node.fs_data = omega (arith, small) in
    if_false (not node.is_file) _ _ (ap not file)
    ∙ if_false (size == 0) _ _ (ne→== size 0 (omega arith))
    ∙ if_false (ltb (add64 offset size) offset) _ _
        (ge→ltb (add64 offset size) offset (omega (arith, inside)))
    ∙ if_false (v.sectors_per_cluster * 512 == 0) _ _
        (ne→== (v.sectors_per_cluster * 512) 0 (omega (arith, room)))
    ∙ fat16_write-chain v node offset size src d at low

write_from-done :
    (v : Volume) (node : Node) (cluster offset size c : ℕ) (src : ℕ → ℕ) (d d' : Disk)
    → skip_clusters (offset / (v.sectors_per_cluster * 512)) v cluster d ≡ (some c, d)
    → write_clusters (size + 1) v c (offset % (v.sectors_per_cluster * 512)) size src d 0
      ≡ some (true, d')
    → write_from v node cluster offset size src d ≡ some (true, grown node offset size, d')
unfolding write_from
write_from-done v node cluster offset size c src d d' skipped written =
    rw (write_from, ap (λ q. q.0) skipped, ap (λ q. q.1) skipped, written) refl

-- On a volume with at least one table, whose tables all hold the same entries, on a disk whose
-- sectors below `total`, which is at most 2^32, can be read and written, the tables among them:
-- `fat16_write` of at least one byte into a file, whose first cluster is a 16-bit number, up to an
-- end below 2^64 inside the clusters that its chain has, no cluster twice and all with their sectors
-- behind the tables and below `total`, returns true, puts the bytes at their place in the file, and
-- changes neither the tables nor any sector that is not the file's; the size of the node becomes the
-- end of the write where that is larger.
pub fat16_write-Overwritten :
    {total : ℕ} (v : Volume) (t : ℕ → ℕ) (d : Disk) (node : Node) (offset size limit : ℕ)
    (src : ℕ → ℕ)
    → IsValid v
    → IsHealthy v total d
    → Holds v t d
    → Stored v total t node.fs_data limit
    → IsSimple v t node.fs_data limit
    → node.is_file ≡ true
    → node.fs_data < 2 ^ 16
    → 0 < size
    → offset + size ≤ limit
    → limit < 2 ^ 64
    → (d' : Disk) × ((fat16_write v node offset size src d
          ≡ some (true, grown node offset size, d'))
        × Overwritten v total t node.fs_data limit offset size src d d')
unfolding Stored follow
fat16_write-Overwritten {total = total} v t d node offset size limit src valid good h stored simple
      file small some_size fits bound =
    let (first_goes_on, first_in_table, first_has) = stored 0 (omega (arith, fits, some_size)) in
    let cluster_size = v.sectors_per_cluster * 512 in
    let k = offset / cluster_size in
    let whole = div-add-mod' offset cluster_size in
    let room : 0 < cluster_size = omega (arith, first_has.some_sector) in
    let here : k * cluster_size < limit = omega (arith, whole, fits, some_size) in
    let skipped =
      skip_clusters-follow k 0 k v t d node.fs_data limit valid good h stored (omega arith) here in
    let (d', (done, w)) =
      write_clusters-InPlace v total t node.fs_data limit offset size src d stored simple fits valid
        (size + 1) k (offset % cluster_size) d 0 (omega arith) (mod-lt offset room)
        (record {
          healthy = good;
          holds = h;
          bound = omega arith;
          reached = inr (omega (arith, whole));
          file = λ p q. sym (
              blit_outside offset 0 0 src (content v t d node.fs_data) p
                (elim (Bool-cases (ltb p offset)) [
                  | inl low ↦ inl (ltb→lt p offset low)
                  | inr high ↦ inr (omega (arith, ltb→ge p offset high))
                ]));
          others = λ lba o. refl;
        }) in
    (
      d',
      (
        fat16_write-from v node offset size src d file some_size (omega (arith, fits, bound))
              first_has.some_sector (ends-not node.fs_data first_goes_on).0 small
            ∙ write_from-done v node node.fs_data offset size (follow t k node.fs_data) src d d'
                skipped done,
        record { healthy = w.healthy; holds = w.holds; file = w.file; others = w.others },
      ),
    )

record Extends (node : Node) (offset size limit : ℕ) : Type 0 where
  is_file : (grown node offset size).is_file ≡ node.is_file
  fs_data : (grown node offset size).fs_data ≡ node.fs_data
  reaches : offset + size ≤ (grown node offset size).size
  within : (grown node offset size).size ≤ limit

grown-Extends :
    (node : Node) (offset size limit : ℕ)
    → offset + size ≤ limit
    → node.size ≤ limit
    → Extends node offset size limit
grown-Extends node offset size limit h p = record {
  is_file =
      if_elim {A = Node} (λ n. n.is_file ≡ node.is_file) (ltb node.size (offset + size)) refl refl;
  fs_data =
      if_elim {A = Node} (λ n. n.fs_data ≡ node.fs_data) (ltb node.size (offset + size)) refl refl;
  reaches =
      if_cases {A = Node} (λ n. offset + size ≤ n.size) (ltb node.size (offset + size))
        (λ e. omega arith) (λ e. ltb→ge node.size (offset + size) e);
  within = if_elim {A = Node} (λ n. n.size ≤ limit) (ltb node.size (offset + size)) h p;
}

bytes_to_read-all :
    (node : Node) (offset size : ℕ)
    → offset + size ≤ node.size
    → bytes_to_read node offset size ≡ size
unfolding bytes_to_read
bytes_to_read-all node offset size h = ground arith

Stored-less :
    (v : Volume) (total : ℕ) (t : ℕ → ℕ) (start size limit : ℕ)
    → size ≤ limit
    → Stored v total t start limit
    → Stored v total t start size
unfolding Stored
Stored-less v total t start size limit h stored k p = stored k (omega (arith, h, p))

filled-Overwritten :
    {total : ℕ} (v : Volume) (t : ℕ → ℕ) (start limit offset size : ℕ) (src buffer : ℕ → ℕ)
    (before d : Disk)
    → offset + size ≤ limit
    → Overwritten v total t start limit offset size src before d
    → blit 0 offset size (content v t d start) buffer ≡ blit 0 0 size src buffer
filled-Overwritten v t start limit offset size src buffer before d fits w = fun_ext (λ x.
    elim (Bool-cases (ltb x size)) [
      | inl e ↦
          let less = ltb→lt x size e in
          let at : 0 + (offset + (x - 0) - offset) ≡ 0 + (x - 0) = omega arith in
          blit_inside 0 offset size (content v t d start) buffer x (omega arith)
            (omega (arith, less))
          ∙ w.file (offset + (x - 0)) (omega (arith, less, fits))
          ∙ blit_inside offset 0 size src (content v t before start) (offset + (x - 0))
              (omega arith) (omega (arith, less))
          ∙ ap src at
          ∙ sym (blit_inside 0 0 size src buffer x (omega arith) (omega (arith, less)))
      | inr e ↦
          let ge = ltb→ge x size e in
          blit_outside 0 offset size (content v t d start) buffer x (inr (omega (arith, ge)))
          ∙ sym (blit_outside 0 0 size src buffer x (inr (omega (arith, ge))))
    ])

-- On a volume with at least one table, whose tables all hold the same entries, on a disk whose
-- sectors below `total`, which is at most 2^32, can be read and written, the tables among them:
-- `fat16_write` of at least one byte into a file, whose first cluster is a 16-bit number and whose
-- size does not exceed the clusters that its chain has, up to an end below 2^64 inside these
-- clusters, no cluster twice and all with their sectors behind the tables and below `total`, returns
-- true, and a `fat16_read` of the place that it has written returns true with the bytes that were
-- written; the rest of the buffer stays.
pub fat16_read-fat16_write :
    {total : ℕ} (v : Volume) (t : ℕ → ℕ) (d : Disk) (node : Node) (offset size limit : ℕ)
    (src buffer : ℕ → ℕ)
    → IsValid v
    → IsHealthy v total d
    → Holds v t d
    → Stored v total t node.fs_data limit
    → IsSimple v t node.fs_data limit
    → node.is_file ≡ true
    → node.fs_data < 2 ^ 16
    → node.size ≤ limit
    → 0 < size
    → offset + size ≤ limit
    → limit < 2 ^ 64
    → (d' : Disk) × ((fat16_write v node offset size src d
          ≡ some (true, grown node offset size, d'))
        × (fat16_read v (grown node offset size) offset size d' buffer
            ≡ some (true, blit 0 0 size src buffer)))
fat16_read-fat16_write {total = total} v t d node offset size limit src buffer valid good h stored
      simple file small node_size some_size fits bound =
    let (d', (done, w)) =
      fat16_write-Overwritten {total = total} v t d node offset size limit src valid good h stored
        simple file small some_size fits bound in
    let node' = grown node offset size in
    let g = grown-Extends node offset size limit fits node_size in
    let here = subst (λ c. Stored v total t c limit) (sym g.fs_data) stored in
    (
      d',
      (
        done,
        fat16_read-content v t d' node' offset size buffer valid w.healthy w.holds
              (Stored-less v total t node'.fs_data node'.size limit g.within here)
              (g.is_file ∙ file) (omega (arith, g.fs_data, small)) some_size
              (omega (arith, g.reaches, some_size))
            ∙ ap (λ n. some (true, blit 0 offset n (content v t d' node'.fs_data) buffer))
                (bytes_to_read-all node' offset size g.reaches)
            ∙ ap (λ c. some (true, blit 0 offset size (content v t d' c) buffer)) g.fs_data
            ∙ ap (λ b. some (true, b))
                (filled-Overwritten v t node.fs_data limit offset size src buffer d d' fits w),
      ),
    )
