-- ===== src/Uaccess/Strings.antt =====
-- `strncpy_from_user` of src/kernel/mm/uaccess.c on a string of no bytes.
use szczupak_os.Base.{
  ltb→lt, ltb→ge, inl, ◌==◌, inr, ge→ltb, Bool-cases, ℕ, zero, suc, ◌-◌, ◌≤◌, ◌<◌, ◌≡◌, refl, sym,
  ap, ◌∙◌, ◌≢◌, true, false, Option, some, [], arith, ltb, if◌then◌else◌, lt→ltb, gt→leb, ne→==,
  add64, align_down, Memory,
}
use szczupak_os.Base.Int.{pos}
use szczupak_os.Vmm.{Directory, get_physical}
use szczupak_os.Vmm.Address.{get_physical-page}
use szczupak_os.Uaccess.{
  Task, user_space_start, user_space_end, max_user_string, einval, current_user_dir,
  check_page_permissions, place, chunk_size, find_nul, strnlen_loop, strnlen_user, copy_from_user,
  strncpy_from_user,
}
use szczupak_os.Uaccess.Range.{check_page, InUserSpace, in_user_range_ok}
use szczupak_os.Uaccess.Copy.{view}

find_nul_first : (n len a : ℕ) (m : Memory) → 0 < n → m a ≡ 0 → find_nul n len a m ≡ some len
unfolding find_nul
find_nul_first zero len a m h e = absurd (omega arith)
find_nul_first (suc n) len a m h e = rw e refl

strnlen_loop_empty :
    (fuel : ℕ) (d : Option Directory) (src limit : ℕ) (m : Memory)
    → src < user_space_end
    → limit ≤ fuel
    → check_page_permissions d src false m ≡ true
    → get_physical d (align_down src) m ≢ 0
    → view d m src ≡ 0
    → strnlen_loop fuel d src limit 0 m ≡ some (pos 0)
unfolding strnlen_loop
strnlen_loop_empty zero d src limit m low enough ok mapped nul =
    rw (ge→ltb 0 limit enough) (ap (λ n. some (pos n)) (omega (arith, enough)))
strnlen_loop_empty (suc fuel) d src limit m low enough ok mapped nul =
    elim (Bool-cases (ltb 0 limit)) [
      | inr e ↦ rw e (ap (λ n. some (pos n)) (omega (arith, ltb→ge 0 limit e)))
      | inl e ↦
          let some_limit = ltb→lt 0 limit e in
          let virt : add64 src 0 ≡ src = omega arith in
          let page = check_page d src (align_down src) false m (omega arith) ∙ ok in
          let there = get_physical-page d (align_down src) src m (omega arith) mapped in
          let inside : 0 < chunk_size src (limit - 0) = ground arith in
          let found =
            find_nul_first (chunk_size src (limit - 0)) 0
              (place (get_physical d (align_down src) m) src) m inside (ap m (sym there) ∙ nul) in
          rw
            (
              virt,
              lt→ltb 0 limit some_limit,
              gt→leb user_space_end src low,
              page,
              ne→== (get_physical d (align_down src) m) 0 mapped,
              found,
            )
            refl
    ]

-- A process that passes a readable, mapped string of no bytes in the user half is refused:
-- `strncpy_from_user` returns -EINVAL, and stores nothing, whatever room there is (also none).
pub strncpy_from_user_empty :
    (current : Option Task) (d : Directory) (src max_len : ℕ) (m : Memory)
    → current_user_dir current ≡ some d
    → InUserSpace src 1
    → check_page_permissions (some d) src false m ≡ true
    → get_physical (some d) (align_down src) m ≢ 0
    → view (some d) m src ≡ 0
    → strncpy_from_user current true src max_len m ≡ some (einval, [])
unfolding strncpy_from_user copy_from_user strnlen_user
strncpy_from_user_empty current d src max_len m e u ok mapped nul =
    let low : user_space_start ≤ src = u.low in
    let limit : ℕ = if ltb max_user_string (max_len - 1) then max_user_string else max_len - 1 in
    let counted : strnlen_user current src (max_len - 1) m ≡ some (pos 0) =
      rw (ne→== src 0 (omega arith)) (
        in_user_range_ok current src 1 d (λ r. some r) (λ o. strnlen_loop limit o src limit 0 m) u e
        ∙ strnlen_loop_empty limit (some d) src limit m u.below (omega arith) ok mapped nul) in
    elim (Bool-cases (max_len == 0)) [
      | inl z ↦ rw (ne→== src 0 (omega arith), z) refl
      | inr some_room ↦ rw (counted, ne→== src 0 (omega arith), some_room) refl
    ]
