-- ===== src/Ext4/Checksum/Blocks.antt =====
-- The setters of os/src/ext4fs/checksum.rs for group descriptors, superblocks, directory leaves and
-- extent nodes store a checksum that the written bytes have too.
use os.Base.{
  ℕ, ◌+◌, ◌-◌, ◌≤◌, ◌<◌, ◌≡◌, refl, ◌∙◌, inl, false, some, List, arith, ltb, get_or, length, slice,
  write_at, length-write_at, slice-write_at_before, slice-write_at_after, slice-write_at_self,
  get_or-write_at_ne,
}
use os.Ext4.Checksum.{
  crc32c, u16_bytes, u32_bytes, low_half, high_half, BitmapKind, block_bitmap, inode_bitmap,
  low_offset, high_offset, set_bitmap_checksum, group_desc_checksum, set_group_desc_checksum,
  superblock_checksum, set_superblock_checksum, dir_leaf_checksum_with_inode_seed,
  set_dir_leaf_checksum_with_inode_seed, extent_tail_offset, extent_node_checksum_with_inode_seed,
  set_extent_node_checksum_with_inode_seed, bitmap_checksum,
}

-- A buffer in which `field` bytes at `at` are `stored`, and all others are those of `old`.
pub record Stores (old new : List ℕ) (at : ℕ) (stored : List ℕ) : Type 0 where
  pub size : length new ≡ length old
  pub field : slice new at (length stored) ≡ stored
  pub before : slice new 0 at ≡ slice old 0 at
  pub after :
      slice new (at + length stored) (length old - (at + length stored))
      ≡ slice old (at + length stored) (length old - (at + length stored))

write_at-Stores :
    (old : List ℕ) (at : ℕ) (ys : List ℕ)
    → at + length ys ≤ length old
    → Stores old (write_at old at ys) at ys
write_at-Stores old at ys h = record {
  size = length-write_at old at ys;
  field = slice-write_at_self old at ys h;
  before = slice-write_at_before old at ys 0 at (omega arith);
  after =
      slice-write_at_after old at ys (at + length ys) (length old - (at + length ys)) (omega arith);
}

group_desc_checksum-write :
    (seed group : ℕ) (d ys : List ℕ)
    → length ys ≡ 2
    → group_desc_checksum seed group (write_at d 0x1e ys) ≡ group_desc_checksum seed group d
unfolding group_desc_checksum
group_desc_checksum-write seed group d ys two =
    rw
      (
        length-write_at d 0x1e ys,
        slice-write_at_before d 0x1e ys 0 0x1e (omega arith),
        slice-write_at_after d 0x1e ys 0x20 (length d - 0x20) (omega (arith, two)),
      )
      refl

-- Whenever a group descriptor has a checksum, which does not depend on the field that holds it,
-- `set_group_desc_checksum` stores just that: the written descriptor has the same one.
pub set_group_desc_checksum-holds :
    (seed group : ℕ) (d : List ℕ) {c : ℕ}
    → 0x20 ≤ length d
    → group_desc_checksum seed group d ≡ some c
    → (d' : List ℕ) × (set_group_desc_checksum seed group d ≡ some (c, d'))
      × (group_desc_checksum seed group d' ≡ some c)
      × Stores d d' 0x1e (u16_bytes c)
unfolding set_group_desc_checksum
set_group_desc_checksum-holds seed group d {c} big e = (
  write_at d 0x1e (u16_bytes c),
  rw (e, set_group_desc_checksum) refl,
  group_desc_checksum-write seed group d (u16_bytes c) refl ∙ e,
  write_at-Stores d 0x1e (u16_bytes c) (omega arith),
)

-- The same of the superblock, of 1024 bytes or more.
pub set_superblock_checksum-holds :
    (b : List ℕ)
    → 1024 ≤ length b
    → (c : ℕ) × (b' : List ℕ) × (set_superblock_checksum b ≡ some (c, b'))
      × (superblock_checksum b' ≡ some c)
      × Stores b b' 0x3fc (u32_bytes c)
unfolding set_superblock_checksum superblock_checksum
set_superblock_checksum-holds b big =
    let c = crc32c 0xffff_ffff (slice b 0 0x3fc) in
    let small : ltb (length b) 1024 ≡ false = ground arith in
    (
      c,
      write_at b 0x3fc (u32_bytes c),
      rw (small, set_superblock_checksum) refl,
      rw
          (
            length-write_at b 0x3fc (u32_bytes c),
            slice-write_at_before b 0x3fc (u32_bytes c) 0 0x3fc (omega arith),
            small,
          )
          refl,
      write_at-Stores b 0x3fc (u32_bytes c) (omega arith),
    )

dir_leaf_checksum-write :
    (seed : ℕ) (b ys : List ℕ)
    → length ys ≡ 4
    → dir_leaf_checksum_with_inode_seed seed (write_at b (length b - 12 + 8) ys)
      ≡ dir_leaf_checksum_with_inode_seed seed b
unfolding dir_leaf_checksum_with_inode_seed
dir_leaf_checksum-write seed b ys four =
    rw
      (
        length-write_at b (length b - 12 + 8) ys,
        slice-write_at_before b (length b - 12 + 8) ys 0 (length b - 12) (omega arith),
        same (length b - 12) (omega arith),
        same (length b - 12 + 1) (omega arith),
        same (length b - 12 + 2) (omega arith),
        same (length b - 12 + 2 + 1) (omega arith),
        same (length b - 12 + 4) (omega arith),
        same (length b - 12 + 4 + 1) (omega arith),
        same (length b - 12 + 6) (omega arith),
        same (length b - 12 + 7) (omega arith),
      )
      refl
  where
    same :
        (i : ℕ)
        → i < length b - 12 + 8
        → get_or (write_at b (length b - 12 + 8) ys) i 0 ≡ get_or b i 0
    same i h = get_or-write_at_ne b (length b - 12 + 8) ys i 0 (inl h)

dir_leaf_size :
    (seed : ℕ) (b : List ℕ) {c : ℕ}
    → dir_leaf_checksum_with_inode_seed seed b ≡ some c
    → 12 ≤ length b
unfolding dir_leaf_checksum_with_inode_seed
dir_leaf_size seed b e = ground arith

-- Whenever a directory leaf has a checksum, `set_dir_leaf_checksum_with_inode_seed` stores it in
-- the last four bytes, and the written leaf has the same one.
pub set_dir_leaf_checksum-holds :
    (seed : ℕ) (b : List ℕ) {c : ℕ}
    → dir_leaf_checksum_with_inode_seed seed b ≡ some c
    → (b' : List ℕ) × (set_dir_leaf_checksum_with_inode_seed seed b ≡ some (c, b'))
      × (dir_leaf_checksum_with_inode_seed seed b' ≡ some c)
      × Stores b b' (length b - 4) (u32_bytes c)
unfolding set_dir_leaf_checksum_with_inode_seed
set_dir_leaf_checksum-holds seed b {c} e =
    let big = dir_leaf_size seed b e in
    let last : length b - 12 + 8 ≡ length b - 4 = omega arith in
    (
      write_at b (length b - 12 + 8) (u32_bytes c),
      rw (e, set_dir_leaf_checksum_with_inode_seed) refl,
      dir_leaf_checksum-write seed b (u32_bytes c) refl ∙ e,
      rw last (write_at-Stores b (length b - 4) (u32_bytes c) (omega arith)),
    )

extent_tail-bounds :
    (b : List ℕ) {tail : ℕ} → extent_tail_offset b ≡ some tail → (12 ≤ tail) × (tail + 4 ≤ length b)
unfolding extent_tail_offset
extent_tail-bounds b e = ground arith

extent_tail_offset-write :
    (b : List ℕ) (tail : ℕ) (ys : List ℕ)
    → 12 ≤ tail
    → extent_tail_offset (write_at b tail ys) ≡ extent_tail_offset b
unfolding extent_tail_offset
extent_tail_offset-write b tail ys h =
    rw
      (
        length-write_at b tail ys,
        get_or-write_at_ne b tail ys 4 0 (inl (omega arith)),
        get_or-write_at_ne b tail ys 5 0 (inl (omega arith)),
      )
      refl

-- Whenever the entries of an extent node leave room for its tail,
-- `set_extent_node_checksum_with_inode_seed` stores in the tail the checksum that the written node
-- has too, inside of the block.
pub set_extent_node_checksum-holds :
    (seed : ℕ) (b : List ℕ) {tail : ℕ}
    → extent_tail_offset b ≡ some tail
    → (c : ℕ) × (b' : List ℕ) × (set_extent_node_checksum_with_inode_seed seed b ≡ some (c, b'))
      × (extent_node_checksum_with_inode_seed seed b' ≡ some c)
      × Stores b b' tail (u32_bytes c)
unfolding set_extent_node_checksum_with_inode_seed extent_node_checksum_with_inode_seed
set_extent_node_checksum-holds seed b {tail} e =
    let c = crc32c seed (slice b 0 tail) in
    let (low, high) = extent_tail-bounds b e in
    (
      c,
      write_at b tail (u32_bytes c),
      rw (e, set_extent_node_checksum_with_inode_seed) refl,
      rw
          (
            extent_tail_offset-write b tail (u32_bytes c) low,
            e,
            extent_node_checksum_with_inode_seed,
            slice-write_at_before b tail (u32_bytes c) 0 tail (omega arith),
          )
          refl,
      write_at-Stores b tail (u32_bytes c) (omega arith),
    )

unfoldable pub other : BitmapKind → BitmapKind
other block_bitmap = inode_bitmap
other inode_bitmap = block_bitmap

-- Storing a bitmap's checksum in a descriptor of 64 bytes or more puts both halves into the fields of
-- its kind, and leaves the fields of the other kind as they are.
pub set_bitmap_checksum_lem :
    (seed : ℕ) (bitmap d : List ℕ) (kind : BitmapKind)
    → 0x40 ≤ length d
    → let c = bitmap_checksum seed bitmap in
      (d' : List ℕ) × (set_bitmap_checksum seed bitmap d kind ≡ some (c, d'))
      × (slice d' (low_offset kind) 2 ≡ u16_bytes (low_half c))
      × (slice d' (high_offset kind) 2 ≡ u16_bytes (high_half c))
      × (slice d' (low_offset (other kind)) 2 ≡ slice d (low_offset (other kind)) 2)
      × (slice d' (high_offset (other kind)) 2 ≡ slice d (high_offset (other kind)) 2)
unfolding set_bitmap_checksum other
set_bitmap_checksum_lem seed bitmap d block_bitmap big =
    let c = bitmap_checksum seed bitmap in
    let lo = u16_bytes (low_half c) in
    let hi = u16_bytes (high_half c) in
    let low = write_at d 0x18 lo in
    let len = length-write_at d 0x18 lo in
    (
      write_at low 0x38 hi,
      ground (arith, len),
      slice-write_at_before low 0x38 hi 0x18 2 (omega arith)
          ∙ slice-write_at_self d 0x18 lo (omega arith),
      slice-write_at_self low 0x38 hi (omega (arith, len)),
      slice-write_at_before low 0x38 hi 0x1a 2 (omega arith)
          ∙ slice-write_at_after d 0x18 lo 0x1a 2 (omega arith),
      slice-write_at_after low 0x38 hi 0x3a 2 (omega arith)
          ∙ slice-write_at_after d 0x18 lo 0x3a 2 (omega arith),
    )
set_bitmap_checksum_lem seed bitmap d inode_bitmap big =
    let c = bitmap_checksum seed bitmap in
    let lo = u16_bytes (low_half c) in
    let hi = u16_bytes (high_half c) in
    let low = write_at d 0x1a lo in
    let len = length-write_at d 0x1a lo in
    (
      write_at low 0x3a hi,
      ground (arith, len),
      slice-write_at_before low 0x3a hi 0x1a 2 (omega arith)
          ∙ slice-write_at_self d 0x1a lo (omega arith),
      slice-write_at_self low 0x3a hi (omega (arith, len)),
      slice-write_at_before low 0x3a hi 0x18 2 (omega arith)
          ∙ slice-write_at_before d 0x1a lo 0x18 2 (omega arith),
      slice-write_at_before low 0x3a hi 0x38 2 (omega arith)
          ∙ slice-write_at_after d 0x1a lo 0x38 2 (omega arith),
    )
