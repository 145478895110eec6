-- ===== src/Ext4/DirEntry.antt =====
-- os/src/ext4fs/ext4_dir_entry.rs: directory entries of variable length in a block. A function that
-- writes returns the buffer that it leaves, or `none` where it returns false and writes nothing.
pub mod Fields
pub mod Setters
pub mod RoundTrip
mod Examples
use os.Base.{
  ℕ, ◌+◌, ◌-◌, ◌*◌, ◌/◌, ◌%◌, Bool, true, false, not, ◌&&◌, ◌||◌, Option, none, some, List, [], ◌∷◌,
  ltb, ◌==◌, if◌then◌else◌, length, replicate, slice, write_at,
}
use os.Ext4.Checksum.{u16_bytes, u32_bytes, byte_at, u16_at, u32_at}

abbrev pub ext4_dir_entry_header_len : ℕ
ext4_dir_entry_header_len = 8

abbrev pub ext4_dir_entry_max_name_len : ℕ
ext4_dir_entry_max_name_len = 255

-- inode, rec_len, name_len and file_type
pub record Header : Type 0 where
  pub inode : ℕ
  pub rec_len : ℕ
  pub name_len : ℕ
  pub file_type : ℕ

-- The tests of `decode_header`, in a buffer of `buf_len` bytes.
unfoldable pub check_header : ℕ → Header → Option Header
check_header buf_len h =
    if ltb h.rec_len ext4_dir_entry_header_len
      || (not (h.rec_len % 4 == 0)
          || (ltb buf_len h.rec_len || ltb (h.rec_len - ext4_dir_entry_header_len) h.name_len))
    then none
    else some h

unfoldable pub decode_header : List ℕ → Option Header
unfolding check_header
decode_header buf =
    if ltb (length buf) ext4_dir_entry_header_len
    then none
    else check_header (length buf) (record {
      inode = u32_at buf 0;
      rec_len = u16_at buf 4;
      name_len = byte_at buf 6;
      file_type = byte_at buf 7;
    })

pub record Ext4DirEntry : Type 0 where
  pub bytes : List ℕ
  pub header : Header

unfoldable pub from_bytes : List ℕ → Option Ext4DirEntry
from_bytes buf = elim (decode_header buf) [
  | none ↦ none
  | some h ↦ some (record { bytes = slice buf 0 h.rec_len; header = h })
]

unfoldable pub name_bytes : Ext4DirEntry → List ℕ
name_bytes e = slice e.bytes ext4_dir_entry_header_len e.header.name_len

unfoldable pub linux_dirent_type : ℕ → ℕ
linux_dirent_type t =
    if t == 1
    then 8
    else (if t == 2
        then 4
        else (if t == 3
            then 2
            else (if t == 4
                then 6
                else (if t == 5 then 1 else (if t == 6 then 12 else (if t == 7 then 10 else 0))))))

-- `& !3` rounds down to a multiple of 4.
abbrev pub aligned_len : ℕ → ℕ
aligned_len name_len = (ext4_dir_entry_header_len + name_len + 3) / 4 * 4

unfoldable pub record_len : ℕ → Option ℕ
record_len name_len =
    if ltb ext4_dir_entry_max_name_len name_len then none else some (aligned_len name_len)

-- The tests of `write_to` and `set_rec_len`.
abbrev pub fits : ℕ → ℕ → ℕ → Bool
fits min_len rec_len buf_len =
    not (ltb rec_len min_len || (ltb buf_len rec_len || not (rec_len % 4 == 0)))

-- The record that `write_to` makes, of zeros at first.
unfoldable pub new_record : ℕ → ℕ → List ℕ → ℕ → List ℕ
new_record inode rec_len name file_type =
    let zeroed = replicate rec_len 0 in
    let with_inode = write_at zeroed 0 (u32_bytes inode) in
    let with_rec_len = write_at with_inode 4 (u16_bytes rec_len) in
    let with_name_len = write_at with_rec_len 6 (length name % 256 ∷ []) in
    let with_type = write_at with_name_len 7 (file_type ∷ []) in
    write_at with_type ext4_dir_entry_header_len name

unfoldable pub write_to : List ℕ → ℕ → ℕ → List ℕ → ℕ → Option (List ℕ)
unfolding record_len
write_to buf inode rec_len name file_type = elim (record_len (length name)) [
  | none ↦ none
  | some min_len ↦
      if fits min_len rec_len (length buf)
      then some (write_at buf 0 (new_record inode rec_len name file_type))
      else none
]

unfoldable pub set_inode : List ℕ → ℕ → Option (List ℕ)
unfolding decode_header
set_inode buf inode = elim (decode_header buf) [
  | none ↦ none
  | some _ ↦ some (write_at buf 0 (u32_bytes inode))
]

unfoldable pub set_file_type : List ℕ → ℕ → Option (List ℕ)
set_file_type buf file_type = elim (decode_header buf) [
  | none ↦ none
  | some _ ↦ some (write_at buf 7 (file_type ∷ []))
]

-- A `name_len` read from a byte always has a record length.
unfoldable pub set_rec_len : List ℕ → ℕ → Option (List ℕ)
set_rec_len buf rec_len = elim (decode_header buf) [
  | none ↦ none
  | some h ↦
      if fits (aligned_len h.name_len) rec_len (length buf)
      then some (write_at buf 4 (u16_bytes rec_len))
      else none
]

unfoldable pub is_checksum_tail : Ext4DirEntry → Bool
is_checksum_tail e =
    (e.header.inode == 0)
    && ((e.header.rec_len == 12) && ((e.header.name_len == 0) && (e.header.file_type == 0xde)))
