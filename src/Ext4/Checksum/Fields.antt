-- ===== src/Ext4/Checksum/Fields.antt =====
-- The two checksum fields of a raw inode of os/src/ext4fs/checksum.rs, and the bytes beside them.
use os.Base.{
  ℕ, ◌+◌, ◌≤◌, ◌<◌, ◌≡◌, refl, ◌∙◌, ◌⊎◌, inl, inr, true, false, List, arith, get_or, if◌then◌else◌,
  length, slice, write_at, length-write_at, slice-write_at_before, slice-write_at_after,
  slice-write_at_self, get_or-write_at_ne, Bool-cases,
}
use os.Ext4.Checksum.{has_checksum_hi, generation_of}

-- The inode with `lo` in the low field of the checksum, and `hi` in the high one where it has that.
unfoldable pub with_fields : List ℕ → List ℕ → List ℕ → List ℕ
with_fields inode lo hi =
    if has_checksum_hi inode
    then write_at (write_at inode 0x7c lo) 0x82 hi
    else write_at inode 0x7c lo

-- Two bytes for each field are written inside the inode, and beside its other bytes.
module _ (inode lo hi : List ℕ) (two : length lo ≡ 2) (two_hi : length hi ≡ 2)
    (big : 128 ≤ length inode) where
  pub hi_in : has_checksum_hi inode ≡ true → 132 ≤ length inode
  unfolding has_checksum_hi
  hi_in e = ground arith

  pub length-with_fields : length (with_fields inode lo hi) ≡ length inode
  unfolding with_fields
  length-with_fields = elim (Bool-cases (has_checksum_hi inode)) [
    | inl e ↦
        rw e (length-write_at (write_at inode 0x7c lo) 0x82 hi ∙ length-write_at inode 0x7c lo)
    | inr e ↦ rw e (length-write_at inode 0x7c lo)
  ]

  pub slice-with_fields_before :
      (a n : ℕ) → a + n ≤ 0x7c → slice (with_fields inode lo hi) a n ≡ slice inode a n
  unfolding with_fields
  slice-with_fields_before a n h = elim (Bool-cases (has_checksum_hi inode)) [
    | inl e ↦ rw e (
        slice-write_at_before (write_at inode 0x7c lo) 0x82 hi a n (omega arith)
        ∙ slice-write_at_before inode 0x7c lo a n h)
    | inr e ↦ rw e (slice-write_at_before inode 0x7c lo a n h)
  ]

  pub slice-with_fields_lo : slice (with_fields inode lo hi) 0x7c 2 ≡ lo
  unfolding with_fields
  slice-with_fields_lo =
      let here : slice (write_at inode 0x7c lo) 0x7c 2 ≡ lo =
        rw two at (slice-write_at_self inode 0x7c lo (omega (arith, two, big))) in
      elim (Bool-cases (has_checksum_hi inode)) [
        | inl e ↦
            rw e
              (slice-write_at_before (write_at inode 0x7c lo) 0x82 hi 0x7c 2 (omega arith) ∙ here)
        | inr e ↦ rw e here
      ]

  pub slice-with_fields_between :
      (a n : ℕ) → 0x7e ≤ a → a + n ≤ 0x82 → slice (with_fields inode lo hi) a n ≡ slice inode a n
  unfolding with_fields
  slice-with_fields_between a n h k = elim (Bool-cases (has_checksum_hi inode)) [
    | inl e ↦ rw e (
        slice-write_at_before (write_at inode 0x7c lo) 0x82 hi a n (omega arith)
        ∙ slice-write_at_after inode 0x7c lo a n (omega (arith, two)))
    | inr e ↦ rw e (slice-write_at_after inode 0x7c lo a n (omega (arith, two)))
  ]

  pub slice-with_fields_hi :
      has_checksum_hi inode ≡ true → slice (with_fields inode lo hi) 0x82 2 ≡ hi
  unfolding with_fields
  slice-with_fields_hi e =
      let there : slice (write_at (write_at inode 0x7c lo) 0x82 hi) 0x82 2 ≡ hi = rw two_hi at (
        slice-write_at_self (write_at inode 0x7c lo) 0x82 hi
          (omega (arith, two_hi, hi_in e, length-write_at inode 0x7c lo))) in
      rw e there

  pub slice-with_fields_plain :
      (a n : ℕ)
      → has_checksum_hi inode ≡ false
      → 0x7e ≤ a
      → slice (with_fields inode lo hi) a n ≡ slice inode a n
  unfolding with_fields
  slice-with_fields_plain a n e h =
      rw e (slice-write_at_after inode 0x7c lo a n (omega (arith, two)))

  pub slice-with_fields_after :
      (a n : ℕ) → 0x84 ≤ a → slice (with_fields inode lo hi) a n ≡ slice inode a n
  unfolding with_fields
  slice-with_fields_after a n h = elim (Bool-cases (has_checksum_hi inode)) [
    | inl e ↦ rw e (
        slice-write_at_after (write_at inode 0x7c lo) 0x82 hi a n (omega (arith, two_hi))
        ∙ slice-write_at_after inode 0x7c lo a n (omega (arith, two)))
    | inr e ↦ rw e (slice-write_at_after inode 0x7c lo a n (omega (arith, two)))
  ]

  -- The bytes outside the fields, the sizes included, are those of the inode.
  pub get_or-with_fields :
      (i : ℕ)
      → (i < 0x7c) ⊎ ((0x7e ≤ i) × (i < 0x82))
      → get_or (with_fields inode lo hi) i 0 ≡ get_or inode i 0
  unfolding with_fields
  get_or-with_fields i h = elim (Bool-cases (has_checksum_hi inode)) [
    | inl e ↦ rw e (
        get_or-write_at_ne (write_at inode 0x7c lo) 0x82 hi i 0 (before h)
        ∙ get_or-write_at_ne inode 0x7c lo i 0 (beside h))
    | inr e ↦ rw e (get_or-write_at_ne inode 0x7c lo i 0 (beside h))
  ]
    where
      before : (i < 0x7c) ⊎ ((0x7e ≤ i) × (i < 0x82)) → (i < 0x82) ⊎ (0x82 + length hi ≤ i)
      before (inl k) = inl (omega arith)
      before (inr k) = inl k.1

      beside : (i < 0x7c) ⊎ ((0x7e ≤ i) × (i < 0x82)) → (i < 0x7c) ⊎ (0x7c + length lo ≤ i)
      beside (inl k) = inl k
      beside (inr k) = inr (omega (arith, k.0, two))

  pub has_checksum_hi-with_fields :
      has_checksum_hi (with_fields inode lo hi) ≡ has_checksum_hi inode
  unfolding has_checksum_hi
  has_checksum_hi-with_fields =
      rw
        (
          length-with_fields,
          get_or-with_fields 128 (inr (omega arith, omega arith)),
          get_or-with_fields 129 (inr (omega arith, omega arith)),
        )
        refl

  pub generation_of-with_fields : generation_of (with_fields inode lo hi) ≡ generation_of inode
  unfolding generation_of
  generation_of-with_fields =
      rw
        (
          length-with_fields,
          get_or-with_fields 0x64 (inl (omega arith)),
          get_or-with_fields 0x65 (inl (omega arith)),
          get_or-with_fields 0x66 (inl (omega arith)),
          get_or-with_fields 0x67 (inl (omega arith)),
        )
        refl
