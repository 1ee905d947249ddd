-- ===== src/Pmm/Tests.antt =====
-- The theorems about src/kernel/mm/pmm.c on small ranges of memory, and runs of the code.
use szczupak_os.Base.{ℕ, ◌/◌, ◌%◌, ◌≡◌, refl, true, ◌&&◌, some, arith, ◌==◌, eq→==}
use szczupak_os.Pmm.{
  Pmm, Word, Symbols, zeroed, alloc_pages, free_pages, search, range_is_clear, clear_loop, test_bit,
  take_run, init,
}
use szczupak_os.Pmm.Bits.{page_used, used_below}
use szczupak_os.Pmm.Inv.{IsSound}
use szczupak_os.Pmm.Alloc.{Allocated, alloc_pages-Allocated}
use szczupak_os.Pmm.Free.{Held, free_pages-alloc_pages}
use szczupak_os.Pmm.Init.{init-IsSound}

-- Four pages from 1 MB on, the first of them in use.
abbrev bits : ℕ → Word
bits w b = w == 0 && b == 0

abbrev four : Pmm
four = record {
  bitmap = bits;
  total_pages = 4;
  used_pages = 1;
  start = 0x100000;
  limit = 0x104000;
  last_alloc_hint = 3;
  memory = λ _. 255;
}

four-IsSound : IsSound four
unfolding used_below
four-IsSound = record {
  pages_in = omega arith;
  range_in = omega arith;
  limit_in = omega arith;
  counted = refl;
  hint_in = omega arith;
}

alloc_pages-Allocated_example :
    (x : ℕ × Pmm) × (alloc_pages 2 four ≡ some x) × Allocated 2 four x × IsSound x.1
alloc_pages-Allocated_example =
    alloc_pages-Allocated four 2 four-IsSound (omega arith) (omega arith)

-- The run that the search finds from page 3 on, round the end.
abbrev after : Pmm
after = (take_run 1 2 four).1

alloc_two : alloc_pages 2 four ≡ some (0x101000, after)
unfolding alloc_pages search range_is_clear clear_loop test_bit take_run
alloc_two = refl

alloc_three_at_end : alloc_pages 4 four ≡ some (0, four)
unfolding alloc_pages search range_is_clear clear_loop test_bit take_run
alloc_three_at_end = refl

free_pages-alloc_pages_example :
    ((p : ℕ) → page_used (free_pages 0x101000 2 after).bitmap p ≡ page_used four.bitmap p)
    × ((free_pages 0x101000 2 after).used_pages ≡ 1)
    × IsSound (free_pages 0x101000 2 after)
free_pages-alloc_pages_example =
    free_pages-alloc_pages four 2 0x101000 after four-IsSound (omega arith) (omega arith)
      (omega arith) (omega arith) alloc_two

four-Held : Held four 0x100000 0 1
four-Held = record {
  some_pages = omega arith;
  address = omega arith;
  aligned = omega arith;
  in_range = omega arith;
  all_used = λ p a b. rw (eq→== (p / 64) 0 (omega arith), eq→== (p % 64) 0 (omega arith));
}

-- The second page is free already.
not-Held : (page : ℕ) → ¬ Held four 0x101000 page 1
not-Held page h =
    let at : page ≡ 1 = omega (arith, h.address) in
    let flag : page_used bits 1 ≡ true = h.all_used 1 (omega arith) (omega arith) in cc

abbrev symbols : Symbols
symbols = record {
  kernel_end = 0x180000;
  p4_table = 0x110000;
  p3_table = 0x111000;
  p2_table = 0x112000;
  pmm_bitmap = 0x120000;
}

init-IsSound_example :
    IsSound (init symbols 0 0x400000 (zeroed (λ _. 0)))
    × ((init symbols 0 0x400000 (zeroed (λ _. 0))).start ≡ 0)
    × ((init symbols 0 0x400000 (zeroed (λ _. 0))).total_pages ≡ 1024)
init-IsSound_example = init-IsSound symbols (λ _. 0) 0 0x400000 (omega arith) (omega arith)
