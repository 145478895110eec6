-- ===== src/Pipe/Examples.antt =====
-- The theorems on the pipe, applied to a new ring and to one with a byte.
use os.Base.{Bool, ltb, true, false, ℕ, ◌≡◌, ◌⊎◌, refl, min, List, [], ◌∷◌, ◌++◌, arith, length}
use os.Pipe.Ring.{PipeRingBuffer, new, write_byte, available_read, available_write}
use os.Pipe.Refine.{IsValid, new-IsValid, write_byte-IsValid, contents}
use os.Pipe.Io.{ok, returns, read_for_syscall, write_nonblock, write, written}
use os.Pipe.Read.{read_for_syscall-Takes}
use os.Pipe.Write.{write-all}
use os.Pipe.Nonblock.{Broken, Full, Accepts, write_nonblock_lem}

abbrev one_byte : PipeRingBuffer
one_byte = write_byte new 65

one_byte-IsValid : IsValid one_byte
one_byte-IsValid = write_byte-IsValid new 65 new-IsValid

one_byte_available : available_read one_byte ≡ 1
unfolding available_read write_byte new
one_byte_available = refl

new_available : available_write new ≡ 65536
unfolding available_write available_read new
new_available = refl

read_for_syscall-Takes_example :
    (bs : List ℕ) × (r' : PipeRingBuffer) × (read_for_syscall 10 one_byte []
      ≡ returns (ok (length bs)) bs r')
    × (contents one_byte ≡ bs ++ contents r')
    × (length bs ≡ min (available_read one_byte) 10)
    × IsValid r'
read_for_syscall-Takes_example =
    read_for_syscall-Takes 10 one_byte [] one_byte-IsValid (omega (arith, one_byte_available))

-- The read ends are closed after the first byte.
abbrev closing : ℕ → Bool
closing i = ltb 0 i

write_nonblock_lem_example :
    let w = write_nonblock closing (65 ∷ 66 ∷ []) new in
    IsValid w.ring
    × (Broken closing new w ⊎ (Full closing new w ⊎ Accepts closing (65 ∷ 66 ∷ []) new w))
write_nonblock_lem_example = write_nonblock_lem closing 65 (66 ∷ []) new new-IsValid

write-all_example :
    (r' : PipeRingBuffer) × (write (65 ∷ 66 ∷ []) new []
      ≡ written (record { answer = ok 2; ring = r'; wakes_readers = true; sigpipe = false }))
    × IsValid r'
    × (contents r' ≡ contents new ++ (65 ∷ 66 ∷ []))
unfolding new
write-all_example = write-all 65 (66 ∷ []) new [] new-IsValid refl (omega (arith, new_available))
