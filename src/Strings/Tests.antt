-- ===== src/Strings/Tests.antt =====
-- The theorem about `memmove` of src/kernel/string.c for ranges that overlap, and a run of the code.
use szczupak_os.Strings.Move.{memmove-copied}
use szczupak_os.Strings.Copies.{copied}
use szczupak_os.Strings.{
  byte_loop, word_loop, block_loop, aligned_copy, head_loop, memcpy, back_loop, memmove,
}
use szczupak_os.Base.{
  write_bytes, read_bytes, ◌%◌, ◌≡◌, refl, arith, Memory, read64, write64, AreBytes,
}

-- Byte `a` of memory is `a`, up to 255.
abbrev numbers : Memory
numbers a = a % 256

numbers-AreBytes : AreBytes numbers
numbers-AreBytes a = omega arith

shift_by_three : memmove 19 16 20 numbers 22 ≡ 19
unfolding memmove back_loop
shift_by_three = refl

shift_by_eight : memmove 16 24 70 numbers 80 ≡ 88
unfolding memmove memcpy head_loop aligned_copy block_loop word_loop byte_loop read64 write64
    read_bytes write_bytes
shift_by_eight = refl

memmove-copied_example : memmove 19 16 100 numbers 22 ≡ copied 19 16 100 numbers 22
memmove-copied_example =
    memmove-copied 19 16 100 numbers numbers-AreBytes (omega arith) (omega arith) 22
