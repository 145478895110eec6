-- ===== src/Ext4/Checksum/Seeded.antt =====
-- The entry points of os/src/ext4fs/checksum.rs that take a file system seed, an inode number and a
-- generation, or a fixed kind of bitmap.
use os.Base.{ℕ, Option, List}
use os.Ext4.Checksum.{
  inode_checksum_seed, block_bitmap, inode_bitmap, set_bitmap_checksum,
  dir_leaf_checksum_with_inode_seed, set_dir_leaf_checksum_with_inode_seed,
  extent_node_checksum_with_inode_seed, set_extent_node_checksum_with_inode_seed,
}

pub set_block_bitmap_checksum : ℕ → List ℕ → List ℕ → Option (ℕ × List ℕ)
unfolding set_bitmap_checksum
set_block_bitmap_checksum seed bitmap descriptor =
    set_bitmap_checksum seed bitmap descriptor block_bitmap

pub set_inode_bitmap_checksum : ℕ → List ℕ → List ℕ → Option (ℕ × List ℕ)
unfolding set_bitmap_checksum
set_inode_bitmap_checksum seed bitmap descriptor =
    set_bitmap_checksum seed bitmap descriptor inode_bitmap

unfoldable pub dir_leaf_checksum : ℕ → ℕ → ℕ → List ℕ → Option ℕ
dir_leaf_checksum fs_seed inode_number generation leaf =
    dir_leaf_checksum_with_inode_seed (inode_checksum_seed fs_seed inode_number generation) leaf

unfoldable pub set_dir_leaf_checksum : ℕ → ℕ → ℕ → List ℕ → Option (ℕ × List ℕ)
set_dir_leaf_checksum fs_seed inode_number generation leaf =
    set_dir_leaf_checksum_with_inode_seed (inode_checksum_seed fs_seed inode_number generation) leaf

unfoldable pub extent_node_checksum : ℕ → ℕ → ℕ → List ℕ → Option ℕ
extent_node_checksum fs_seed inode_number generation node =
    extent_node_checksum_with_inode_seed (inode_checksum_seed fs_seed inode_number generation) node

unfoldable pub set_extent_node_checksum : ℕ → ℕ → ℕ → List ℕ → Option (ℕ × List ℕ)
set_extent_node_checksum fs_seed inode_number generation node =
    set_extent_node_checksum_with_inode_seed (inode_checksum_seed fs_seed inode_number generation)
      node
