-- ===== src/Ext4/DirEntry/Examples.antt =====
-- A block of 20 bytes with the entry `foo` of os/src/ext4fs/ext4_dir_entry.rs at its start.
use os.Base.{
  ℕ, ◌<◌, ◌≡◌, ◌≢◌, ◌⊎◌, ◌%◌, refl, none, some, List, [], ◌∷◌, arith, length, length-replicate,
  replicate, write_at,
}
use os.Ext4.DirEntry.{
  Header, decode_header, check_header, write_to, set_rec_len, record_len, new_record, aligned_len,
}
use os.Ext4.DirEntry.Setters.{Sets, set_rec_len_lem}
use os.Ext4.DirEntry.RoundTrip.{Reads, write_to-from_bytes}

abbrev foo : List ℕ
foo = 102 ∷ 111 ∷ 111 ∷ []

abbrev old_block : List ℕ
old_block = replicate 20 7

abbrev header_of_foo : Header
header_of_foo = record { inode = 0x1234_5678; rec_len = 16; name_len = 3; file_type = 1 }

abbrev block_of_foo : List ℕ
block_of_foo =
    0x78 ∷ 0x56 ∷ 0x34 ∷ 0x12 ∷ 16 ∷ 0 ∷ 3 ∷ 1 ∷ 102 ∷ 111 ∷ 111 ∷ 0 ∷ 0 ∷ 0 ∷ 0 ∷ 0 ∷ 7 ∷ 7 ∷ 7 ∷ 7
    ∷ []

foo_written : write_to old_block 0x1234_5678 16 foo 1 ≡ some block_of_foo
unfolding write_to record_len new_record write_at replicate
foo_written = refl

length-old_block : length old_block ≡ 20
length-old_block = length-replicate 20 7

write_to-from_bytes_example :
    (buf' : List ℕ) × (write_to old_block 0x1234_5678 16 foo 1 ≡ some buf')
    × Reads old_block header_of_foo foo buf'
write_to-from_bytes_example =
    write_to-from_bytes old_block 0x1234_5678 16 foo 1 (omega arith) (omega arith) (omega arith)
      (omega arith) (omega (arith, length-old_block)) refl

foo_decoded : decode_header block_of_foo ≡ some header_of_foo
unfolding decode_header check_header
foo_decoded = refl

-- 20 bytes are enough for `foo` and fill the block.
set_rec_len_lem_example :
    ((buf' : List ℕ) × (set_rec_len block_of_foo 20 ≡ some buf')
      × Sets block_of_foo 4 2 (record header_of_foo { rec_len = 20 }) buf')
    ⊎ ((set_rec_len block_of_foo 20 ≡ none)
        × ((20 < aligned_len 3) ⊎ ((length block_of_foo < 20) ⊎ (20 % 4 ≢ 0))))
set_rec_len_lem_example = set_rec_len_lem block_of_foo header_of_foo foo_decoded 20 (omega arith)
