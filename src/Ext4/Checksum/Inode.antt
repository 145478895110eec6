-- ===== src/Ext4/Checksum/Inode.antt =====
-- The inode checksum of os/src/ext4fs/checksum.rs is the CRC of the inode number, the generation and
-- the inode with its checksum fields cleared, and `set_inode_checksum` stores a checksum that holds.
use os.Base.{
  ℕ, ◌-◌, ◌≤◌, ◌<◌, ◌≡◌, ◌≢◌, refl, ap, sym, ◌∙◌, inl, inr, min, false, some, List, ◌++◌, arith,
  if_cases, true, leb, ◌&&◌, ltb, if◌then◌else◌, length, slice, write_at, length-write_at,
  slice-zero, slice-length, get_or-write_at_ne, Bool-cases, dec_lt, ◌||◌, ltb→lt, write_at_twice,
  write_at_comm,
}
use os.Ext4.Checksum.{
  crc32c, u16_at, u32_at, u16_bytes, u32_bytes, zeros, low_half, high_half, has_checksum_hi,
  extended_checksum, generation_of, inode_checksum, put_inode_checksum, set_inode_checksum,
}
use os.Ext4.Checksum.Crc.{crc32c-append, crc32c-nil, crc32c-slice_add}
use os.Ext4.Checksum.Fields.{
  with_fields, hi_in, length-with_fields, slice-with_fields_before, slice-with_fields_lo,
  slice-with_fields_between, slice-with_fields_hi, slice-with_fields_plain, slice-with_fields_after,
  has_checksum_hi-with_fields, generation_of-with_fields,
}

-- The inode with its checksum fields cleared: the low one, and the high one where the inode is long
-- enough and its `i_extra_isize` covers it.
abbrev pub cleared : List ℕ → List ℕ
cleared inode =
    if leb 132 (length inode) && leb 4 (u16_at inode 128)
    then write_at (write_at inode 0x7c zeros) 0x82 zeros
    else write_at inode 0x7c zeros

abbrev with_zeros : List ℕ → List ℕ
with_zeros inode = with_fields inode zeros zeros

-- The last part of the inode may be skipped when it is empty.
last_part :
    (c : ℕ) (inode : List ℕ)
    → 132 ≤ length inode
    → (if ltb 132 (length inode) then crc32c c (slice inode 132 (length inode - 132)) else c)
      ≡ crc32c c (slice inode 132 (length inode - 132))
last_part c inode h = elim (Bool-cases (ltb 132 (length inode))) [
  | inl e ↦ rw e refl
  | inr e ↦
      let none_left : length inode - 132 ≡ 0 = ground arith in
      rw (e, none_left, slice-zero inode 132) (sym (crc32c-nil c))
]

-- A range in three parts, at 130 and at 132.
three_parts :
    (c : ℕ) (w : List ℕ) (len : ℕ)
    → 132 ≤ len
    → crc32c c (slice w 128 (len - 128))
      ≡ crc32c (crc32c (crc32c c (slice w 128 2)) (slice w 130 2)) (slice w 132 (len - 132))
three_parts c w len h =
    crc32c-slice_add c w 128 2 130 (len - 130) (len - 128) refl (omega arith)
    ∙ crc32c-slice_add (crc32c c (slice w 128 2)) w 130 2 132 (len - 132) (len - 130) refl
        (omega arith)

-- Past the first 128 bytes the code covers the cleared inode, whatever its length but 131.
extended_lem :
    (c : ℕ) (inode : List ℕ)
    → 128 < length inode
    → length inode ≢ 131
    → extended_checksum c inode ≡ crc32c c (slice (with_zeros inode) 128 (length inode - 128))
unfolding extended_checksum
extended_lem c inode big odd = elim (Bool-cases (has_checksum_hi inode)) [
  | inl e ↦
      let long = hi_in inode zeros zeros refl refl (omega arith) e in
      let half : min 130 (length inode) ≡ 130 = omega arith in
      rw
        (
          half,
          e,
          three_parts c w (length inode) long,
          at_128,
          slice-with_fields_hi inode zeros zeros refl refl (omega arith) e,
          at_132,
        )
        (last_part (crc32c (crc32c c (slice inode 128 2)) zeros) inode long)
  | inr e ↦
      let same = slice-with_fields_plain inode zeros zeros refl refl (omega arith) in
      rw (e, same 128 (length inode - 128) e (omega arith))
        (elim (dec_lt (length inode) 132) [
          | yes h ↦
              let half : min 130 (length inode) ≡ length inode = omega arith in
              rw half (ground arith)
          | no h ↦
              let long : 132 ≤ length inode = omega arith in
              let half : min 130 (length inode) ≡ 130 = omega arith in
              rw (half, three_parts c inode (length inode) long)
                (ground (
                  arith,
                  last_part (crc32c (crc32c c (slice inode 128 2)) (slice inode 130 2)) inode long,
                ))
        ])
]
  where
    w : List ℕ
    w = with_fields inode zeros zeros

    at_128 : slice w 128 2 ≡ slice inode 128 2
    at_128 =
        slice-with_fields_between inode zeros zeros refl refl (omega arith) 128 2 (omega arith)
          (omega arith)

    at_132 : slice w 132 (length inode - 132) ≡ slice inode 132 (length inode - 132)
    at_132 =
        slice-with_fields_after inode zeros zeros refl refl (omega arith) 132 (length inode - 132)
          (omega arith)

covered :
    (seed : ℕ) (inode : List ℕ)
    → 128 ≤ length inode
    → crc32c seed (with_zeros inode)
      ≡ crc32c
          (crc32c (crc32c (crc32c seed (slice inode 0 0x7c)) zeros) (slice inode 0x7e 2))
          (slice (with_zeros inode) 128 (length inode - 128))
covered seed inode big =
    let whole = slice-length w in
    let len = length-with_fields inode zeros zeros refl refl big in
    rw (ap (crc32c seed) (sym whole), len, first, second, third, at_0, at_lo, at_7e) refl
  where
    w : List ℕ
    w = with_zeros inode

    first :
        crc32c seed (slice w 0 (length inode))
        ≡ crc32c (crc32c seed (slice w 0 0x7c)) (slice w 0x7c (length inode - 0x7c))
    first =
        crc32c-slice_add seed w 0 0x7c 0x7c (length inode - 0x7c) (length inode) refl (omega arith)

    second :
        crc32c (crc32c seed (slice w 0 0x7c)) (slice w 0x7c (length inode - 0x7c))
        ≡ crc32c
            (crc32c (crc32c seed (slice w 0 0x7c)) (slice w 0x7c 2))
            (slice w 0x7e (length inode - 0x7e))
    second =
        crc32c-slice_add (crc32c seed (slice w 0 0x7c)) w 0x7c 2 0x7e (length inode - 0x7e)
          (length inode - 0x7c) refl (omega arith)

    third :
        crc32c
          (crc32c (crc32c seed (slice w 0 0x7c)) (slice w 0x7c 2))
          (slice w 0x7e (length inode - 0x7e))
        ≡ crc32c
            (crc32c (crc32c (crc32c seed (slice w 0 0x7c)) (slice w 0x7c 2)) (slice w 0x7e 2))
            (slice w 128 (length inode - 128))
    third =
        crc32c-slice_add (crc32c (crc32c seed (slice w 0 0x7c)) (slice w 0x7c 2)) w 0x7e 2 128
          (length inode - 128) (length inode - 0x7e) refl (omega arith)

    at_0 : slice w 0 0x7c ≡ slice inode 0 0x7c
    at_0 = slice-with_fields_before inode zeros zeros refl refl big 0 0x7c (omega arith)

    at_lo : slice w 0x7c 2 ≡ zeros
    at_lo = slice-with_fields_lo inode zeros zeros refl refl big

    at_7e : slice w 0x7e 2 ≡ slice inode 0x7e 2
    at_7e =
        slice-with_fields_between inode zeros zeros refl refl big 0x7e 2 (omega arith) (omega arith)

rest_part :
    (c : ℕ) (inode : List ℕ)
    → 128 ≤ length inode
    → length inode ≢ 131
    → (if ltb 128 (length inode) then extended_checksum c inode else c)
      ≡ crc32c c (slice (with_zeros inode) 128 (length inode - 128))
rest_part c inode big odd = elim (Bool-cases (ltb 128 (length inode))) [
  | inl e ↦ rw e (extended_lem c inode (ltb→lt 128 (length inode) e) odd)
  | inr e ↦
      let none_left : length inode - 128 ≡ 0 = ground arith in
      rw (e, none_left, slice-zero (with_zeros inode) 128) (sym (crc32c-nil c))
]

inode_checksum-with_zeros :
    (fs_seed inode_number : ℕ) (inode : List ℕ)
    → 128 ≤ length inode
    → length inode ≢ 131
    → inode_checksum fs_seed inode_number inode
      ≡ some (
          crc32c fs_seed
            (u32_bytes inode_number ++ (u32_bytes (generation_of inode) ++ with_zeros inode)))
unfolding inode_checksum
inode_checksum-with_zeros fs_seed inode_number inode big odd =
    let small : (ltb (length inode) 128 || ltb (length inode) 126) ≡ false = ground arith in
    let number_seed : ℕ = crc32c fs_seed (u32_bytes inode_number) in
    let seed : ℕ = crc32c number_seed (u32_bytes (generation_of inode)) in
    let body : ℕ = crc32c (crc32c (crc32c seed (slice inode 0 0x7c)) zeros) (slice inode 0x7e 2) in
    rw small (
      ap some (
        rest_part body inode big odd
        ∙ sym (covered seed inode big)
        ∙ sym (crc32c-append number_seed (u32_bytes (generation_of inode)) (with_zeros inode))
        ∙ sym (
            crc32c-append fs_seed (u32_bytes inode_number)
              (u32_bytes (generation_of inode) ++ with_zeros inode))))

with_zeros_eq : (inode : List ℕ) → with_zeros inode ≡ cleared inode
unfolding with_fields has_checksum_hi
with_zeros_eq inode = refl

generation_of_eq : (inode : List ℕ) → 128 ≤ length inode → generation_of inode ≡ u32_at inode 0x64
unfolding generation_of
generation_of_eq inode big =
    let long : leb 0x68 (length inode) ≡ true = ground arith in rw long refl

-- An inode of 128 bytes or more, but not of 131, has as its checksum the CRC, from the seed of the
-- file system, of its number, of the generation in its bytes 0x64 to 0x67, and of all of its bytes with
-- the low checksum field cleared, and the high one where the inode has 132 bytes and an `i_extra_isize`
-- of at least 4.
pub inode_checksum_lem :
    (fs_seed inode_number : ℕ) (inode : List ℕ)
    → 128 ≤ length inode
    → length inode ≢ 131
    → inode_checksum fs_seed inode_number inode
      ≡ some (
          crc32c fs_seed
            (u32_bytes inode_number ++ (u32_bytes (u32_at inode 0x64) ++ cleared inode)))
inode_checksum_lem fs_seed inode_number inode big odd =
    inode_checksum-with_zeros fs_seed inode_number inode big odd
    ∙ ap (λ g. some (crc32c fs_seed (u32_bytes inode_number ++ (u32_bytes g ++ with_zeros inode))))
        (generation_of_eq inode big)
    ∙ ap
        (λ c.
          some (crc32c fs_seed (u32_bytes inode_number ++ (u32_bytes (u32_at inode 0x64) ++ c))))
        (with_zeros_eq inode)

high_field :
    (inode lo hi : List ℕ)
    → length lo ≡ 2
    → length hi ≡ 2
    → 128 ≤ length inode
    → slice (with_fields inode lo hi) 0x82 2
      ≡ (if leb 132 (length inode) && leb 4 (u16_at inode 128) then hi else slice inode 0x82 2)
unfolding has_checksum_hi
high_field inode lo hi two two_hi big =
    if_cases (λ (x : List ℕ). slice (with_fields inode lo hi) 0x82 2 ≡ x) (has_checksum_hi inode)
      (λ e. slice-with_fields_hi inode lo hi two two_hi big e)
      (λ e. slice-with_fields_plain inode lo hi two two_hi big 0x82 2 e (omega arith))

has_checksum_hi-write_lo :
    (inode lo : List ℕ)
    → length lo ≡ 2
    → has_checksum_hi (write_at inode 0x7c lo) ≡ has_checksum_hi inode
unfolding has_checksum_hi
has_checksum_hi-write_lo inode lo two =
    rw
      (
        length-write_at inode 0x7c lo,
        get_or-write_at_ne inode 0x7c lo 128 0 (inr (omega (arith, two))),
        get_or-write_at_ne inode 0x7c lo 129 0 (inr (omega (arith, two))),
      )
      refl

put_inode_checksum_lem :
    (c : ℕ) (inode : List ℕ)
    → put_inode_checksum c inode
      ≡ with_fields inode (u16_bytes (low_half c)) (u16_bytes (high_half c))
unfolding put_inode_checksum with_fields
put_inode_checksum_lem c inode =
    rw (has_checksum_hi-write_lo inode (u16_bytes (low_half c)) refl) refl

-- Clearing the fields forgets what was in them.
with_zeros-with_fields :
    (inode lo hi : List ℕ)
    → length lo ≡ 2
    → length hi ≡ 2
    → 128 ≤ length inode
    → with_zeros (with_fields inode lo hi) ≡ with_zeros inode
unfolding with_fields
with_zeros-with_fields inode lo hi two two_hi big =
    rw (has_checksum_hi-with_fields inode lo hi two two_hi big)
      (elim (Bool-cases (has_checksum_hi inode)) [
        | inl e ↦
            rw
              (
                e,
                sym (write_at_comm (write_at inode 0x7c lo) 0x7c zeros 0x82 hi (omega arith)),
                write_at_twice (write_at (write_at inode 0x7c lo) 0x7c zeros) 0x82 hi zeros two_hi,
                write_at_twice inode 0x7c lo zeros two,
              )
              refl
        | inr e ↦ rw (e, write_at_twice inode 0x7c lo zeros two) refl
      ])

-- `set_inode_checksum` on an inode of 128 bytes or more, but not of 131, succeeds: it returns the
-- checksum that the written inode has too, puts its low half in the low field and its high half in the
-- high field, where the inode has 132 bytes and an `i_extra_isize` of at least 4, and changes no byte
-- outside of the two fields.
pub set_inode_checksum-holds :
    (fs_seed inode_number : ℕ) (inode : List ℕ)
    → 128 ≤ length inode
    → length inode ≢ 131
    → (c : ℕ) × (inode' : List ℕ) × (set_inode_checksum fs_seed inode_number inode
        ≡ some (c, inode'))
      × (inode_checksum fs_seed inode_number inode' ≡ some c)
      × (slice inode' 0x7c 2 ≡ u16_bytes (low_half c))
      × (slice inode' 0x82 2 ≡ (
          if leb 132 (length inode) && leb 4 (u16_at inode 128)
          then u16_bytes (high_half c)
          else slice inode 0x82 2))
      × (cleared inode' ≡ cleared inode)
unfolding set_inode_checksum
set_inode_checksum-holds fs_seed inode_number inode big odd =
    let before = inode_checksum-with_zeros fs_seed inode_number inode big odd in
    let len = length-with_fields inode lo hi refl refl big in
    let same = with_zeros-with_fields inode lo hi refl refl big in
    let after =
      inode_checksum-with_zeros fs_seed inode_number (with_fields inode lo hi) (omega (arith, len))
        (λ e. odd (omega (arith, e, len))) in
    (
      c,
      with_fields inode lo hi,
      rw (before, set_inode_checksum, put_inode_checksum_lem c inode) refl,
      rw (generation_of-with_fields inode lo hi refl refl big, same) at after,
      slice-with_fields_lo inode lo hi refl refl big,
      high_field inode lo hi refl refl big,
      sym (with_zeros_eq (with_fields inode lo hi)) ∙ same ∙ with_zeros_eq inode,
    )
  where
    c : ℕ
    c =
        crc32c fs_seed
          (u32_bytes inode_number ++ (u32_bytes (generation_of inode) ++ with_zeros inode))

    lo : List ℕ
    lo = u16_bytes (low_half c)

    hi : List ℕ
    hi = u16_bytes (high_half c)
