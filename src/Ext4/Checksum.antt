-- ===== src/Ext4/Checksum.antt =====
-- os/src/ext4fs/checksum.rs: CRC32C and the checksums of raw ext4 metadata. A byte slice is a list
-- of bytes; a slice that a function writes to is returned with the result.
mod Crc
mod Fields
pub mod Inode
pub mod Blocks
pub mod Seeded
mod Examples
use Prim.Native.Nat.{bit_and, bit_xor}
use os.Base.{
  ℕ, zero, suc, ◌+◌, ◌-◌, ◌*◌, ◌/◌, ◌%◌, ◌^◌, min, Bool, true, false, ◌&&◌, ◌||◌, not, Option, none,
  some, List, [], ◌∷◌, ltb, leb, ◌==◌, if◌then◌else◌, length, get_or, slice, write_at,
}

abbrev pub crc32c_poly : ℕ
crc32c_poly = 0x82F6_3B78

-- One of the eight rounds for a byte.
pub crc_round : ℕ → ℕ
crc_round seed =
    let mask : ℕ = (2 ^ 32 - bit_and seed 1) % 2 ^ 32 in
    bit_xor (seed / 2) (bit_and crc32c_poly mask)

pub crc_rounds : ℕ → ℕ → ℕ
crc_rounds zero seed = seed
crc_rounds (suc n) seed = crc_rounds n (crc_round seed)

unfoldable pub crc32c : ℕ → List ℕ → ℕ
crc32c seed [] = seed
crc32c seed (byte ∷ data_) = crc32c (crc_rounds 8 (bit_xor seed byte)) data_

-- `to_le_bytes` and `from_le_bytes` of u16 and u32
abbrev pub u16_bytes : ℕ → List ℕ
u16_bytes v = v % 256 ∷ v / 256 % 256 ∷ []

abbrev pub u32_bytes : ℕ → List ℕ
u32_bytes v = v % 256 ∷ v / 256 % 256 ∷ v / 2 ^ 16 % 256 ∷ v / 2 ^ 24 % 256 ∷ []

abbrev pub byte_at : List ℕ → ℕ → ℕ
byte_at bytes i = get_or bytes i 0

abbrev pub u16_at : List ℕ → ℕ → ℕ
u16_at bytes i = byte_at bytes i + 256 * byte_at bytes (i + 1)

abbrev pub u32_at : List ℕ → ℕ → ℕ
u32_at bytes i = u16_at bytes i + 2 ^ 16 * u16_at bytes (i + 2)

abbrev pub zeros : List ℕ
zeros = 0 ∷ 0 ∷ []

-- `checksum as u16`, `(checksum >> 16) as u16`
abbrev pub low_half : ℕ → ℕ
low_half c = c % 2 ^ 16

abbrev pub high_half : ℕ → ℕ
high_half c = c / 2 ^ 16 % 2 ^ 16

pub inode_checksum_seed : ℕ → ℕ → ℕ → ℕ
inode_checksum_seed fs_seed inode_number generation =
    crc32c (crc32c fs_seed (u32_bytes inode_number)) (u32_bytes generation)

-- A slice [..b]
abbrev pub prefix : List ℕ → ℕ → List ℕ
prefix bytes b = slice bytes 0 b

-- A slice [a..b]
abbrev pub range : List ℕ → ℕ → ℕ → List ℕ
range bytes a b = slice bytes a (b - a)

unfoldable pub has_checksum_hi : List ℕ → Bool
has_checksum_hi inode = leb (0x82 + 2) (length inode) && leb 4 (u16_at inode 128)

-- The part of `inode_checksum` past the first 128 bytes.
unfoldable pub extended_checksum : ℕ → List ℕ → ℕ
extended_checksum checksum inode =
    let before_hi_end : ℕ = min 0x82 (length inode) in
    let c1 : ℕ =
      if ltb 128 before_hi_end then crc32c checksum (range inode 128 before_hi_end) else checksum in
    let c2 : ℕ =
      if has_checksum_hi inode
      then crc32c c1 zeros
      else (if leb (0x82 + 2) (length inode)
          then crc32c c1 (range inode 0x82 (0x82 + 2))
          else c1) in
    if ltb (0x82 + 2) (length inode) then crc32c c2 (range inode (0x82 + 2) (length inode)) else c2

unfoldable pub generation_of : List ℕ → ℕ
generation_of inode = if leb 0x68 (length inode) then u32_at inode 0x64 else 0

unfoldable pub inode_checksum : ℕ → ℕ → List ℕ → Option ℕ
inode_checksum fs_seed inode_number inode =
    if ltb (length inode) 128 || ltb (length inode) (0x7c + 2)
    then none
    else (let seed : ℕ =
          crc32c (crc32c fs_seed (u32_bytes inode_number)) (u32_bytes (generation_of inode)) in
        let body : ℕ =
          crc32c (crc32c (crc32c seed (prefix inode 0x7c)) zeros) (range inode (0x7c + 2) 128) in
        some (if ltb 128 (length inode) then extended_checksum body inode else body))

unfoldable pub put_inode_checksum : ℕ → List ℕ → List ℕ
put_inode_checksum checksum inode =
    let inode' = write_at inode 0x7c (u16_bytes (low_half checksum)) in
    if has_checksum_hi inode' then write_at inode' 0x82 (u16_bytes (high_half checksum)) else inode'

unfoldable pub set_inode_checksum : ℕ → ℕ → List ℕ → Option (ℕ × List ℕ)
set_inode_checksum fs_seed inode_number inode = elim (inode_checksum fs_seed inode_number inode) [
  | none ↦ none
  | some checksum ↦ some (checksum, put_inode_checksum checksum inode)
]

pub bitmap_checksum : ℕ → List ℕ → ℕ
bitmap_checksum seed bitmap = crc32c seed bitmap

pub data BitmapKind : Type 0 where
  block_bitmap inode_bitmap : BitmapKind

abbrev pub low_offset : BitmapKind → ℕ
low_offset block_bitmap = 0x18
low_offset inode_bitmap = 0x1a

abbrev pub high_offset : BitmapKind → ℕ
high_offset block_bitmap = 0x38
high_offset inode_bitmap = 0x3a

unfoldable pub set_bitmap_checksum : ℕ → List ℕ → List ℕ → BitmapKind → Option (ℕ × List ℕ)
unfolding bitmap_checksum
set_bitmap_checksum seed bitmap descriptor kind =
    if ltb (length descriptor) (low_offset kind + 2)
    then none
    else (let checksum : ℕ = bitmap_checksum seed bitmap in
        let low = write_at descriptor (low_offset kind) (u16_bytes (low_half checksum)) in
        some (
          checksum,
          if leb (high_offset kind + 2) (length low)
              then write_at low (high_offset kind) (u16_bytes (high_half checksum))
              else low,
        ))

unfoldable pub group_desc_checksum : ℕ → ℕ → List ℕ → Option ℕ
group_desc_checksum seed group descriptor =
    if ltb (length descriptor) (0x1e + 2)
    then none
    else (let c : ℕ =
          crc32c (crc32c (crc32c seed (u32_bytes group)) (prefix descriptor 0x1e)) zeros in
        some (
          low_half (
            if ltb (0x1e + 2) (length descriptor)
            then crc32c c (range descriptor (0x1e + 2) (length descriptor))
            else c)))

unfoldable pub set_group_desc_checksum : ℕ → ℕ → List ℕ → Option (ℕ × List ℕ)
set_group_desc_checksum seed group descriptor = elim (group_desc_checksum seed group descriptor) [
  | none ↦ none
  | some checksum ↦ some (checksum, write_at descriptor 0x1e (u16_bytes checksum))
]

unfoldable pub superblock_checksum : List ℕ → Option ℕ
superblock_checksum superblock =
    if ltb (length superblock) 1024
    then none
    else some (crc32c (2 ^ 32 - 1) (prefix superblock 0x3fc))

unfoldable pub set_superblock_checksum : List ℕ → Option (ℕ × List ℕ)
set_superblock_checksum superblock = elim (superblock_checksum superblock) [
  | none ↦ none
  | some checksum ↦ some (checksum, write_at superblock 0x3fc (u32_bytes checksum))
]

-- The four conditions on the fake tail of a directory leaf, at `tail`.
abbrev pub is_tail : List ℕ → ℕ → Bool
is_tail block tail =
    u32_at block tail == 0
    && u16_at block (tail + 4) == 12
    && byte_at block (tail + 6) == 0
    && byte_at block (tail + 7) == 0xde

unfoldable pub dir_leaf_checksum_with_inode_seed : ℕ → List ℕ → Option ℕ
dir_leaf_checksum_with_inode_seed inode_seed block =
    if ltb (length block) 12
    then none
    else (if is_tail block (length block - 12)
        then some (crc32c inode_seed (prefix block (length block - 12)))
        else none)

unfoldable pub set_dir_leaf_checksum_with_inode_seed : ℕ → List ℕ → Option (ℕ × List ℕ)
set_dir_leaf_checksum_with_inode_seed inode_seed block =
    elim (dir_leaf_checksum_with_inode_seed inode_seed block) [
      | none ↦ none
      | some checksum ↦ some (checksum, write_at block (length block - 12 + 8) (u32_bytes checksum))
    ]

-- The product and the sums are of small numbers, and do not overflow `usize`.
unfoldable pub extent_tail_offset : List ℕ → Option ℕ
extent_tail_offset block =
    if ltb (length block) 12
    then none
    else (let tail : ℕ = 12 + u16_at block 4 * 12 in
        if ltb (length block) (tail + 4) then none else some tail)

unfoldable pub extent_node_checksum_with_inode_seed : ℕ → List ℕ → Option ℕ
extent_node_checksum_with_inode_seed inode_seed block = elim (extent_tail_offset block) [
  | none ↦ none
  | some tail ↦ some (crc32c inode_seed (prefix block tail))
]

unfoldable pub set_extent_node_checksum_with_inode_seed : ℕ → List ℕ → Option (ℕ × List ℕ)
set_extent_node_checksum_with_inode_seed inode_seed block = elim (extent_tail_offset block) [
  | none ↦ none
  | some tail ↦
      let checksum : ℕ = crc32c inode_seed (prefix block tail) in
      some (checksum, write_at block tail (u32_bytes checksum))
]
