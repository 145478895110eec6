-- ===== src/Ext4/Checksum/Examples.antt =====
-- The theorems on ext4 checksums, applied to small blocks.
use os.Base.{
  leb, ◌&&◌, if◌then◌else◌, ℕ, ◌≡◌, refl, some, List, [], ◌∷◌, ◌++◌, arith, length, slice,
  replicate,
}
use os.Ext4.Checksum.{
  crc32c, u16_bytes, u32_bytes, low_half, high_half, u16_at, u32_at, inode_checksum,
  set_inode_checksum, group_desc_checksum, dir_leaf_checksum_with_inode_seed, extent_tail_offset,
}
use os.Ext4.Checksum.Inode.{cleared, inode_checksum_lem, set_inode_checksum-holds}

abbrev inode_160 : List ℕ
inode_160 = replicate 160 1

inode_160_size : length inode_160 ≡ 160
unfolding replicate
inode_160_size = refl

inode_checksum_lem_example :
    inode_checksum 5 12 inode_160
    ≡ some (crc32c 5 (u32_bytes 12 ++ (u32_bytes (u32_at inode_160 0x64) ++ cleared inode_160)))
inode_checksum_lem_example =
    inode_checksum_lem 5 12 inode_160 (omega (arith, inode_160_size))
      (λ e. omega (arith, e, inode_160_size))

set_inode_checksum-holds_example :
    (c : ℕ) × (inode' : List ℕ) × (set_inode_checksum 5 12 inode_160 ≡ some (c, inode'))
    × (inode_checksum 5 12 inode' ≡ some c)
    × (slice inode' 0x7c 2 ≡ u16_bytes (low_half c))
    × (slice inode' 0x82 2 ≡ (
        if leb 132 (length inode_160) && leb 4 (u16_at inode_160 128)
        then u16_bytes (high_half c)
        else slice inode_160 0x82 2))
    × (cleared inode' ≡ cleared inode_160)
set_inode_checksum-holds_example =
    set_inode_checksum-holds 5 12 inode_160 (omega (arith, inode_160_size))
      (λ e. omega (arith, e, inode_160_size))

abbrev descriptor : List ℕ
descriptor = replicate 64 2

descriptor_size : length descriptor ≡ 64
unfolding replicate
descriptor_size = refl

abbrev descriptor_sum : ℕ
descriptor_sum = low_half (
    crc32c (crc32c (crc32c (crc32c 5 (u32_bytes 3)) (slice descriptor 0 30)) (0 ∷ 0 ∷ []))
      (slice descriptor 32 32))

descriptor_checksum : group_desc_checksum 5 3 descriptor ≡ some descriptor_sum
unfolding group_desc_checksum replicate
descriptor_checksum = refl

abbrev superblock : List ℕ
superblock = replicate 1024 7

superblock_size : length superblock ≡ 1024
unfolding replicate
superblock_size = refl

-- A leaf of one entry's bytes and the tail.
abbrev leaf : List ℕ
leaf = 9 ∷ 9 ∷ 9 ∷ 9 ∷ 0 ∷ 0 ∷ 0 ∷ 0 ∷ 12 ∷ 0 ∷ 0 ∷ 0xde ∷ 0 ∷ 0 ∷ 0 ∷ 0 ∷ []

abbrev leaf_sum : ℕ
leaf_sum = crc32c 5 (slice leaf 0 4)

leaf_checksum : dir_leaf_checksum_with_inode_seed 5 leaf ≡ some leaf_sum
unfolding dir_leaf_checksum_with_inode_seed
leaf_checksum = refl

-- An extent node with room for one entry.
abbrev node : List ℕ
node = 10 ∷ 243 ∷ 0 ∷ 0 ∷ 1 ∷ 0 ∷ replicate 22 3

node_tail : extent_tail_offset node ≡ some 24
unfolding extent_tail_offset replicate
node_tail = refl
