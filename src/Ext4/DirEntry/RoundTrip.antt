-- ===== src/Ext4/DirEntry/RoundTrip.antt =====
-- A record that `write_to` of os/src/ext4fs/ext4_dir_entry.rs writes is the one that `from_bytes` reads.
use os.Base.{
  ℕ, zero, suc, ◌+◌, ◌-◌, ◌%◌, ◌^◌, ◌≤◌, ◌<◌, ◌≡◌, refl, ◌∙◌, ap, inl, true, false, some, List, [],
  ◌∷◌, arith, length, slice, replicate, write_at, length-write_at, length-replicate,
  get_or-write_at_ne, slice-write_at_after, slice-write_at_self, ltb,
}
use os.Ext4.Checksum.{u16_bytes, u32_bytes, byte_at, u16_at, u32_at}
use os.Ext4.DirEntry.{
  Header, Ext4DirEntry, decode_header, from_bytes, name_bytes, fits, aligned_len, record_len,
  new_record, write_to,
}
use os.Ext4.DirEntry.Fields.{get_or-write_at_self, Decoded-decode_header}
use os.Ext4.DirEntry.Setters.{u16_at-write, u32_at-write}

slice-replicate : (m a n d : ℕ) → a + n ≤ m → slice (replicate m d) a n ≡ replicate n d
unfolding slice replicate
slice-replicate zero zero zero d h = refl
slice-replicate zero zero (suc n) d h = absurd (omega arith)
slice-replicate zero (suc a) n d h = absurd (omega arith)
slice-replicate (suc m) zero zero d h = refl
slice-replicate (suc m) zero (suc n) d h =
    ap (λ t. d ∷ t) (slice-replicate m zero n d (omega arith))
slice-replicate (suc m) (suc a) n d h = slice-replicate m a n d (omega arith)

-- The record that is written, and what its bytes are.
module _ (inode rec_len : ℕ) (name : List ℕ) (file_type : ℕ) (h_inode : inode < 2 ^ 32)
    (h_rec_len : rec_len < 2 ^ 16) (h_name : length name ≤ 255)
    (h_min : aligned_len (length name) ≤ rec_len) where
  abbrev zeroed : List ℕ
  zeroed = replicate rec_len 0

  abbrev with_inode : List ℕ
  with_inode = write_at zeroed 0 (u32_bytes inode)

  abbrev with_rec_len : List ℕ
  with_rec_len = write_at with_inode 4 (u16_bytes rec_len)

  abbrev with_name_len : List ℕ
  with_name_len = write_at with_rec_len 6 (length name % 256 ∷ [])

  abbrev with_type : List ℕ
  with_type = write_at with_name_len 7 (file_type ∷ [])

  abbrev written : List ℕ
  written = write_at with_type 8 name

  length-zeroed : length zeroed ≡ rec_len
  length-zeroed = length-replicate rec_len 0

  length-with_inode : length with_inode ≡ rec_len
  length-with_inode = length-write_at zeroed 0 (u32_bytes inode) ∙ length-zeroed

  length-with_rec_len : length with_rec_len ≡ rec_len
  length-with_rec_len = length-write_at with_inode 4 (u16_bytes rec_len) ∙ length-with_inode

  length-with_name_len : length with_name_len ≡ rec_len
  length-with_name_len =
      length-write_at with_rec_len 6 (length name % 256 ∷ []) ∙ length-with_rec_len

  length-with_type : length with_type ≡ rec_len
  length-with_type = length-write_at with_name_len 7 (file_type ∷ []) ∙ length-with_name_len

  length-written : length written ≡ rec_len
  length-written = length-write_at with_type 8 name ∙ length-with_type

  -- The fields, each behind the writes that follow its own.
  byte_before_name : (i : ℕ) → i < 8 → byte_at written i ≡ byte_at with_type i
  byte_before_name i h = get_or-write_at_ne with_type 8 name i 0 (inl h)

  byte_before_type : (i : ℕ) → i < 7 → byte_at written i ≡ byte_at with_name_len i
  byte_before_type i h =
      byte_before_name i (omega arith)
      ∙ get_or-write_at_ne with_name_len 7 (file_type ∷ []) i 0 (inl h)

  byte_before_name_len : (i : ℕ) → i < 6 → byte_at written i ≡ byte_at with_rec_len i
  byte_before_name_len i h =
      byte_before_type i (omega arith)
      ∙ get_or-write_at_ne with_rec_len 6 (length name % 256 ∷ []) i 0 (inl h)

  byte_before_rec_len : (i : ℕ) → i < 4 → byte_at written i ≡ byte_at with_inode i
  byte_before_rec_len i h =
      byte_before_name_len i (omega arith)
      ∙ get_or-write_at_ne with_inode 4 (u16_bytes rec_len) i 0 (inl h)

  inode-written : u32_at written 0 ≡ inode
  inode-written =
      rw
        (
          byte_before_rec_len 0 (omega arith),
          byte_before_rec_len 1 (omega arith),
          byte_before_rec_len 2 (omega arith),
          byte_before_rec_len 3 (omega arith),
        )
        (u32_at-write zeroed 0 inode (omega (arith, length-zeroed)) h_inode)

  rec_len-written : u16_at written 4 ≡ rec_len
  rec_len-written =
      rw (byte_before_name_len 4 (omega arith), byte_before_name_len 5 (omega arith))
        (u16_at-write with_inode 4 rec_len (omega (arith, length-with_inode)) h_rec_len)

  name_len-written : byte_at written 6 ≡ length name
  name_len-written =
      byte_before_type 6 (omega arith)
      ∙ get_or-write_at_self with_rec_len 6 (length name % 256 ∷ []) 0 0 (omega arith)
          (omega (arith, length-with_rec_len))
      ∙ omega arith

  file_type-written : byte_at written 7 ≡ file_type
  file_type-written =
      byte_before_name 7 (omega arith)
      ∙ get_or-write_at_self with_name_len 7 (file_type ∷ []) 0 0 (omega arith)
          (omega (arith, length-with_name_len))

  name-written : slice written 8 (length name) ≡ name
  name-written = slice-write_at_self with_type 8 name (omega (arith, length-with_type))

  slack-written :
      slice written (8 + length name) (rec_len - (8 + length name))
      ≡ replicate (rec_len - (8 + length name)) 0
  slack-written =
      let a : ℕ = 8 + length name in
      let n : ℕ = rec_len - (8 + length name) in
      slice-write_at_after with_type 8 name a n (omega arith)
      ∙ slice-write_at_after with_name_len 7 (file_type ∷ []) a n (omega arith)
      ∙ slice-write_at_after with_rec_len 6 (length name % 256 ∷ []) a n (omega arith)
      ∙ slice-write_at_after with_inode 4 (u16_bytes rec_len) a n (omega arith)
      ∙ slice-write_at_after zeroed 0 (u32_bytes inode) a n (omega arith)
      ∙ slice-replicate rec_len a n 0 (omega arith)

-- What `from_bytes` reads out of a buffer that `write_to` wrote to: the fields and the name, and zeros
-- in the rest of the record. Behind the record the buffer is as it was.
pub record Reads (buf : List ℕ) (h : Header) (name buf' : List ℕ) : Type 0 where
  pub entry : Ext4DirEntry
  pub parsed : from_bytes buf' ≡ some entry
  pub header : entry.header ≡ h
  pub name_read : name_bytes entry ≡ name
  pub slack :
      slice entry.bytes (8 + length name) (h.rec_len - (8 + length name))
      ≡ replicate (h.rec_len - (8 + length name)) 0
  pub size : length buf' ≡ length buf
  pub behind :
      slice buf' h.rec_len (length buf - h.rec_len) ≡ slice buf h.rec_len (length buf - h.rec_len)

module _ (buf : List ℕ) (inode rec_len : ℕ) (name : List ℕ) (file_type : ℕ)
    (h_inode : inode < 2 ^ 32) (h_rec_len : rec_len < 2 ^ 16) (h_name : length name ≤ 255)
    (h_min : aligned_len (length name) ≤ rec_len) (h_buf : rec_len ≤ length buf)
    (h_aligned : rec_len % 4 ≡ 0) where
  abbrev rec : List ℕ
  rec = written inode rec_len name file_type h_inode h_rec_len h_name h_min

  abbrev after : List ℕ
  after = write_at buf 0 rec

  abbrev header : Header
  header = record {
    inode = inode;
    rec_len = rec_len;
    name_len = length name;
    file_type = file_type;
  }

  length-rec : length rec ≡ rec_len
  length-rec = length-written inode rec_len name file_type h_inode h_rec_len h_name h_min

  same_byte : (i : ℕ) → i < 8 → byte_at after i ≡ byte_at rec i
  same_byte i h =
      let plain : 0 + i ≡ i = omega arith in
      rw plain at (get_or-write_at_self buf 0 rec i 0 (omega (arith, length-rec)) (omega arith))

  header-decoded : decode_header after ≡ some header
  header-decoded = Decoded-decode_header after header (record {
    inode =
        rw
          (
            same_byte 0 (omega arith),
            same_byte 1 (omega arith),
            same_byte 2 (omega arith),
            same_byte 3 (omega arith),
          )
          (inode-written inode rec_len name file_type h_inode h_rec_len h_name h_min);
    rec_len =
        rw (same_byte 4 (omega arith), same_byte 5 (omega arith))
          (rec_len-written inode rec_len name file_type h_inode h_rec_len h_name h_min);
    name_len =
        same_byte 6 (omega arith)
        ∙ name_len-written inode rec_len name file_type h_inode h_rec_len h_name h_min;
    file_type =
        same_byte 7 (omega arith)
        ∙ file_type-written inode rec_len name file_type h_inode h_rec_len h_name h_min;
    enough = omega arith;
    aligned = h_aligned;
    inside = rw (length-write_at buf 0 rec) h_buf;
    name = omega arith;
  })

  record_bytes : slice after 0 rec_len ≡ rec
  record_bytes = rw length-rec at (slice-write_at_self buf 0 rec (omega (arith, length-rec)))

  -- `write_to` with a name of at most 255 bytes, an inode number of 32 bits and a record length of 16
  -- bits that is a multiple of 4, enough for the name and not above the size of the buffer: it
  -- succeeds, and `from_bytes` reads the same fields and the same name back. The rest of the record is
  -- zero, and the buffer behind it is unchanged.
  pub write_to-from_bytes :
      (buf' : List ℕ) × (write_to buf inode rec_len name file_type ≡ some buf')
      × Reads buf header name buf'
  unfolding write_to record_len new_record from_bytes name_bytes
  write_to-from_bytes =
      let short : ltb 255 (length name) ≡ false = ground arith in
      let fit : fits (aligned_len (length name)) rec_len (length buf) ≡ true = ground arith in
      (
        after,
        rw (write_to, short, fit) refl,
        record {
          entry = record { bytes = slice after 0 rec_len; header = header };
          parsed = rw (from_bytes, header-decoded) refl;
          header = refl;
          name_read =
              ap (λ b. slice b 8 (length name)) record_bytes
              ∙ name-written inode rec_len name file_type h_inode h_rec_len h_name h_min;
          slack =
              ap (λ b. slice b (8 + length name) (rec_len - (8 + length name))) record_bytes
              ∙ slack-written inode rec_len name file_type h_inode h_rec_len h_name h_min;
          size = length-write_at buf 0 rec;
          behind =
              slice-write_at_after buf 0 rec rec_len (length buf - rec_len)
                (omega (arith, length-rec));
        },
      )
