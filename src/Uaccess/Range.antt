-- ===== src/Uaccess/Range.antt =====
-- What the checks of src/kernel/mm/uaccess.c let through: `verify_user_read` and `verify_user_write`.
use szczupak_os.Base.{
  ne→==, sym, ◌≢◌, ◌||◌, add64, ◌∙◌, ◌↔◌, sub64, if◌then◌else◌, align_down, ℕ, zero, suc, ◌+◌, ◌-◌,
  ◌*◌, ◌/◌, ◌≤◌, ◌<◌, ◌≡◌, refl, subst, inl, inr, Bool, true, Option, none, some, arith, ◌==◌,
  ==→eq, ==→ne, Bool-cases, Memory,
}
use szczupak_os.Base.Int.{negsuc, ℤ, pos}
use szczupak_os.Vmm.{Directory, pml4_index, pdp_index, pd_index, pt_index}
use szczupak_os.Uaccess.{
  einval, efault, in_user_range, current_user_dir, verify_user, Task, user_space_start,
  user_space_end, validate_user_range, check_page_permissions, verify_loop,
}

-- The permissions are those of the page.
pub check_page :
    (d : Option Directory) (v x : ℕ) (write : Bool) (m : Memory)
    → x / 4096 ≡ v / 4096
    → check_page_permissions d x write m ≡ check_page_permissions d v write m
unfolding check_page_permissions
check_page none v x write m same = refl
check_page (some d) v x write m same =
    let i4 : pml4_index x ≡ pml4_index v = omega arith in
    let i3 : pdp_index x ≡ pdp_index v = omega arith in
    let i2 : pd_index x ≡ pd_index v = omega arith in
    let i1 : pt_index x ≡ pt_index v = omega arith in rw (i4, i3, i2, i1) refl

-- The range lies in the half of the address space that belongs to processes.
pub record InUserSpace (addr size : ℕ) : Type 0 where
  pub low : user_space_start ≤ addr
  pub below : addr < user_space_end
  pub high : addr + size ≤ user_space_end

pub validate-InUserSpace :
    (addr size : ℕ) → validate_user_range addr size ≡ pos 0 → InUserSpace addr size
unfolding validate_user_range
validate-InUserSpace addr size h = ground arith

pub InUserSpace-validate :
    (addr size : ℕ) → InUserSpace addr size → validate_user_range addr size ≡ pos 0
unfolding validate_user_range
InUserSpace-validate addr size h = ground arith

verify_loop-all :
    (n page : ℕ) (d : Option Directory) (write : Bool) (m : Memory)
    → verify_loop n page d write m ≡ pos 0
    → (i : ℕ) → i < n
    → check_page_permissions d (page + i * 4096) write m ≡ true
unfolding verify_loop
verify_loop-all zero page d write m h i k = absurd (omega arith)
verify_loop-all (suc n) page d write m h i k =
    elim (Bool-cases (check_page_permissions d page write m)) [
      | inr e ↦ absurd (ground arith)
      | inl e ↦ elim (Bool-cases (i == 0)) [
        | inl z ↦
            subst (λ j. check_page_permissions d j write m ≡ true) (omega (arith, ==→eq i 0 z)) e
        | inr nz ↦
            let some_i = ==→ne i 0 nz in
            subst (λ j. check_page_permissions d j write m ≡ true) (omega arith)
              (verify_loop-all n (page + 4096) d write m (rw e at h) (i - 1) (omega arith))
      ]
    ]

all-verify_loop :
    (n page : ℕ) (d : Option Directory) (write : Bool) (m : Memory)
    → ((i : ℕ) → i < n → check_page_permissions d (page + i * 4096) write m ≡ true)
    → verify_loop n page d write m ≡ pos 0
unfolding verify_loop
all-verify_loop zero page d write m h = refl
all-verify_loop (suc n) page d write m h =
    let first : check_page_permissions d page write m ≡ true =
      subst (λ j. check_page_permissions d j write m ≡ true) (omega arith) (h 0 (omega arith)) in
    rw first (
      all-verify_loop n (page + 4096) d write m (λ i k.
        subst (λ j. check_page_permissions d j write m ≡ true) (omega arith)
          (h (i + 1) (omega arith))))

-- A call whose range and task are in order goes on.
pub in_user_range_ok :
    {R : Type 0} (current : Option Task) (addr size : ℕ) (d : Directory) (fail : ℤ → R)
    (go : Option Directory → R)
    → InUserSpace addr size
    → current_user_dir current ≡ some d
    → in_user_range current addr size fail go ≡ go (some d)
in_user_range_ok current addr size d fail go h e =
    rw (in_user_range, InUserSpace-validate addr size h, e) refl

-- A call that did not fail went on.
record WentOn (current : Option Task) (addr size : ℕ) {R : Type 0} (go : Option Directory → R)
    (r : R) : Type 0 where
  dir : Directory
  range : InUserSpace addr size
  current_dir : current_user_dir current ≡ some dir
  result : go (some dir) ≡ r

dir-WentOn :
    {R : Type 0} (current : Option Task) (addr size : ℕ) (fail : ℤ → R) (go : Option Directory → R)
    (r : R) (o : Option Directory)
    → ((e : ℤ) → e ≢ pos 0 → fail e ≢ r)
    → InUserSpace addr size
    → current_user_dir current ≡ o
    → (elim o [ none ↦ fail efault | some d ↦ go (some d) ]) ≡ r
    → WentOn current addr size go r
dir-WentOn current addr size fail go r none fails h e q = absurd (fails efault (λ x. cc) q)
dir-WentOn current addr size fail go r (some d) fails h e q = record {
  dir = d;
  range = h;
  current_dir = e;
  result = q;
}

range-WentOn :
    {R : Type 0} (current : Option Task) (addr size : ℕ) (fail : ℤ → R) (go : Option Directory → R)
    (r : R) (z : ℤ)
    → ((e : ℤ) → e ≢ pos 0 → fail e ≢ r)
    → validate_user_range addr size ≡ z
    → (elim z [
      | pos zero ↦ (elim (current_user_dir current) [ none ↦ fail efault | some d ↦ go (some d) ])
      | pos (suc n) ↦ fail (pos (suc n))
      | negsuc n ↦ fail (negsuc n)
    ])
      ≡ r
    → WentOn current addr size go r
range-WentOn current addr size fail go r (pos zero) fails e q =
    dir-WentOn current addr size fail go r (current_user_dir current) fails
      (validate-InUserSpace addr size e) refl q
range-WentOn current addr size fail go r (pos (suc n)) fails e q =
    absurd (fails (pos (suc n)) (λ x. ground arith) q)
range-WentOn current addr size fail go r (negsuc n) fails e q =
    absurd (fails (negsuc n) (λ x. cc) q)

-- The pages that the loop visits.
pages : (addr size : ℕ) → ℕ
pages addr size = (align_down (sub64 (add64 addr size) 1) + 4096 - align_down addr) / 4096

pages_lem :
    (addr size : ℕ)
    → 0 < size
    → InUserSpace addr size
    → pages addr size ≡ (addr + size - 1) / 4096 - addr / 4096 + 1
unfolding pages
pages_lem addr size h u = omega (arith, u.high, u.below)

-- What a process may access at every byte of a range.
abbrev pub Accessible : Option Directory → (write : Bool) → Memory → (addr size : ℕ) → Type 0
Accessible d write m addr size =
    (x : ℕ) → addr ≤ x → x < addr + size → check_page_permissions d x write m ≡ true

loop-Accessible :
    (d : Option Directory) (write : Bool) (m : Memory) (addr size : ℕ)
    → 0 < size
    → InUserSpace addr size
    → verify_loop (pages addr size) (align_down addr) d write m ≡ pos 0
    → Accessible d write m addr size
loop-Accessible d write m addr size h u e x low high =
    let n = pages_lem addr size h u in
    let i = x / 4096 - addr / 4096 in
    let page = verify_loop-all (pages addr size) (align_down addr) d write m e i (omega arith) in
    check_page d (align_down addr + i * 4096) x write m (omega arith) ∙ page

Accessible-loop :
    (d : Option Directory) (write : Bool) (m : Memory) (addr size : ℕ)
    → 0 < size
    → InUserSpace addr size
    → Accessible d write m addr size
    → verify_loop (pages addr size) (align_down addr) d write m ≡ pos 0
Accessible-loop d write m addr size h u a =
    all-verify_loop (pages addr size) (align_down addr) d write m (λ i k.
      let n = pages_lem addr size h u in
      let x : ℕ = if i == 0 then addr else align_down addr + i * 4096 in
      let (low, high, same) : (addr ≤ x)
          × (x < addr + size)
          × ((align_down addr + i * 4096) / 4096 ≡ x / 4096) =
        elim (Bool-cases (i == 0)) [
          | inl z ↦ rw z (let e = ==→eq i 0 z in (omega arith, omega arith, omega arith))
          | inr z ↦ rw z (let e = ==→ne i 0 z in (omega arith, omega arith, omega arith))
        ] in
      check_page d x (align_down addr + i * 4096) write m same ∙ a x low high)

-- `verify_user_read` and `verify_user_write` return 0 exactly when the range is not empty, lies in
-- the half of the address space that belongs to processes, the current task is a process with page
-- tables, and these let a process read, or write, at every byte of the range.
pub verify_user_iff :
    (write : Bool) (current : Option Task) (addr size : ℕ) (m : Memory)
    → (verify_user write current addr size m ≡ pos 0) ↔ (
        (d : Directory) × (0 < size)
        × InUserSpace addr size
        × (current_user_dir current ≡ some d)
        × Accessible (some d) write m addr size)
unfolding verify_user pages
verify_user_iff write current addr size m = (accepted, accepts)
  where
    accepted :
        verify_user write current addr size m ≡ pos 0
        → (d : Directory) × (0 < size)
          × InUserSpace addr size
          × (current_user_dir current ≡ some d)
          × Accessible (some d) write m addr size
    accepted e = elim (Bool-cases (addr == 0 || size == 0)) [
      | inl z ↦ (let bad : einval ≡ pos 0 = (sym (rw z refl) ∙ e) in absurd (ground arith))
      | inr z ↦
          let h : 0 < size = ground arith in
          let w =
            range-WentOn current addr size (λ r. r)
              (λ d. verify_loop (pages addr size) (align_down addr) d write m) (pos 0)
              (validate_user_range addr size) (λ r ne q. ne q) refl (rw z at e) in
          (
            w.dir,
            h,
            w.range,
            w.current_dir,
            loop-Accessible (some w.dir) write m addr size h w.range w.result,
          )
    ]

    accepts :
        (d : Directory) × (0 < size)
          × InUserSpace addr size
          × (current_user_dir current ≡ some d)
          × Accessible (some d) write m addr size
        → verify_user write current addr size m ≡ pos 0
    accepts (d, h, u, e, a) =
        let low : user_space_start ≤ addr = u.low in
        rw (ne→== addr 0 (omega arith), ne→== size 0 (omega arith))
          (in_user_range_ok current addr size d (λ r. r)
              (λ o. verify_loop (pages addr size) (align_down addr) o write m) u e
            ∙ Accessible-loop (some d) write m addr size h u a)
