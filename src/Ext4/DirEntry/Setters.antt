-- ===== src/Ext4/DirEntry/Setters.antt =====
-- The setters of os/src/ext4fs/ext4_dir_entry.rs change one field of a legal header, and nothing else.
use mathlib.Core.Bool.{true≢false}
use os.Base.{
  ℕ, ◌+◌, ◌-◌, ◌%◌, ◌^◌, ◌≤◌, ◌<◌, ◌≡◌, ◌≢◌, ◌⊎◌, dec_lt, refl, ◌∙◌, inl, inr, true, false, none,
  some, List, [], ◌∷◌, arith, length, slice, write_at, length-write_at, get_or-write_at_ne,
  slice-write_at_before, slice-write_at_after, Bool-cases,
}
use os.Ext4.Checksum.{u16_bytes, u32_bytes, byte_at, u16_at, u32_at}
use os.Ext4.DirEntry.{
  Header, decode_header, fits, aligned_len, set_inode, set_file_type, set_rec_len,
}
use os.Ext4.DirEntry.Fields.{
  get_or-write_at_self, Decoded, decode_header-Decoded, Decoded-decode_header,
}

-- The buffer that a setter leaves has the new header, and the other bytes are those of the old one.
pub record Sets (buf : List ℕ) (at width : ℕ) (h : Header) (buf' : List ℕ) : Type 0 where
  pub decoded : decode_header buf' ≡ some h
  pub size : length buf' ≡ length buf
  pub before : slice buf' 0 at ≡ slice buf 0 at
  pub after :
      slice buf' (at + width) (length buf - (at + width))
      ≡ slice buf (at + width) (length buf - (at + width))

write_at-Sets :
    (buf : List ℕ) (at : ℕ) (ys : List ℕ) (h : Header)
    → Decoded (write_at buf at ys) h
    → Sets buf at (length ys) h (write_at buf at ys)
write_at-Sets buf at ys h d = record {
  decoded = Decoded-decode_header (write_at buf at ys) h d;
  size = length-write_at buf at ys;
  before = slice-write_at_before buf at ys 0 at (omega arith);
  after =
      slice-write_at_after buf at ys (at + length ys) (length buf - (at + length ys)) (omega arith);
}

pub u16_at-write :
    (buf : List ℕ) (at v : ℕ)
    → at + 2 ≤ length buf
    → v < 2 ^ 16
    → u16_at (write_at buf at (u16_bytes v)) at ≡ v
u16_at-write buf at v h k =
    let zero_off : at + 0 ≡ at = omega arith in
    let b0 =
      rw zero_off at (get_or-write_at_self buf at (u16_bytes v) 0 0 (omega arith) (omega arith)) in
    rw (b0, get_or-write_at_self buf at (u16_bytes v) 1 0 (omega arith) (omega arith)) (omega arith)

pub u32_at-write :
    (buf : List ℕ) (at v : ℕ)
    → at + 4 ≤ length buf
    → v < 2 ^ 32
    → u32_at (write_at buf at (u32_bytes v)) at ≡ v
u32_at-write buf at v h k =
    let zero_off : at + 0 ≡ at = omega arith in
    let third : at + 3 ≡ at + 2 + 1 = omega arith in
    let b0 =
      rw zero_off at (get_or-write_at_self buf at (u32_bytes v) 0 0 (omega arith) (omega arith)) in
    let b3 =
      rw third at (get_or-write_at_self buf at (u32_bytes v) 3 0 (omega arith) (omega arith)) in
    rw
      (
        b0,
        get_or-write_at_self buf at (u32_bytes v) 1 0 (omega arith) (omega arith),
        get_or-write_at_self buf at (u32_bytes v) 2 0 (omega arith) (omega arith),
        b3,
      )
      (omega arith)

module _ (buf : List ℕ) (h : Header) (e : decode_header buf ≡ some h) where
  d : Decoded buf h
  d = decode_header-Decoded buf h e

  -- On a legal header `set_inode` changes the inode number, of 32 bits, and no other field or byte.
  pub set_inode-Sets :
      (inode : ℕ)
      → inode < 2 ^ 32
      → (buf' : List ℕ) × (set_inode buf inode ≡ some buf')
        × Sets buf 0 4 (record h { inode = inode }) buf'
  unfolding set_inode
  set_inode-Sets inode k = (
    write_at buf 0 (u32_bytes inode),
    rw (set_inode, e) refl,
    write_at-Sets buf 0 (u32_bytes inode) (record h { inode = inode })
        (record {
          inode = u32_at-write buf 0 inode (omega (arith, d.enough, d.inside)) k;
          rec_len = rw (other 4 (omega arith), other 5 (omega arith)) d.rec_len;
          name_len = other 6 (omega arith) ∙ d.name_len;
          file_type = other 7 (omega arith) ∙ d.file_type;
          enough = d.enough;
          aligned = d.aligned;
          inside = rw (length-write_at buf 0 (u32_bytes inode)) d.inside;
          name = d.name;
        }),
  )
    where
      other : (i : ℕ) → 4 ≤ i → byte_at (write_at buf 0 (u32_bytes inode)) i ≡ byte_at buf i
      other i p = get_or-write_at_ne buf 0 (u32_bytes inode) i 0 (inr p)

  -- On a legal header `set_file_type` changes the file type, a byte, and no other field or byte.
  pub set_file_type-Sets :
      (file_type : ℕ)
      → (buf' : List ℕ) × (set_file_type buf file_type ≡ some buf')
        × Sets buf 7 1 (record h { file_type = file_type }) buf'
  unfolding set_file_type
  set_file_type-Sets file_type = (
    write_at buf 7 (file_type ∷ []),
    rw (set_file_type, e) refl,
    write_at-Sets buf 7 (file_type ∷ []) (record h { file_type = file_type })
        (record {
          inode =
              rw
                (
                  other 0 (omega arith),
                  other 1 (omega arith),
                  other 2 (omega arith),
                  other 3 (omega arith),
                )
                d.inode;
          rec_len = rw (other 4 (omega arith), other 5 (omega arith)) d.rec_len;
          name_len = other 6 (omega arith) ∙ d.name_len;
          file_type =
              get_or-write_at_self buf 7 (file_type ∷ []) 0 0 (omega arith)
                (omega (arith, d.enough, d.inside));
          enough = d.enough;
          aligned = d.aligned;
          inside = rw (length-write_at buf 7 (file_type ∷ [])) d.inside;
          name = d.name;
        }),
  )
    where
      other : (i : ℕ) → i < 7 → byte_at (write_at buf 7 (file_type ∷ [])) i ≡ byte_at buf i
      other i p = get_or-write_at_ne buf 7 (file_type ∷ []) i 0 (inl p)

  -- The two bytes of a record length that is legal for the name.
  rec_len-Sets :
      (rec_len : ℕ)
      → rec_len < 2 ^ 16
      → fits (aligned_len h.name_len) rec_len (length buf) ≡ true
      → Sets buf 4 2 (record h { rec_len = rec_len }) (write_at buf 4 (u16_bytes rec_len))
  rec_len-Sets rec_len k f =
      write_at-Sets buf 4 (u16_bytes rec_len) (record h { rec_len = rec_len })
        (record {
          inode =
              rw
                (
                  other 0 (inl (omega arith)),
                  other 1 (inl (omega arith)),
                  other 2 (inl (omega arith)),
                  other 3 (inl (omega arith)),
                )
                d.inode;
          rec_len = u16_at-write buf 4 rec_len (omega (arith, d.enough, d.inside)) k;
          name_len = other 6 (inr (omega arith)) ∙ d.name_len;
          file_type = other 7 (inr (omega arith)) ∙ d.file_type;
          enough = ground (arith, f);
          aligned = ground (arith, f);
          inside = rw (length-write_at buf 4 (u16_bytes rec_len)) (ground (arith, f));
          name = ground (arith, f);
        })
    where
      other :
          (i : ℕ)
          → (i < 4) ⊎ (6 ≤ i)
          → byte_at (write_at buf 4 (u16_bytes rec_len)) i ≡ byte_at buf i
      other i p = get_or-write_at_ne buf 4 (u16_bytes rec_len) i 0 p

  -- On a legal header `set_rec_len` changes the record length, of 16 bits, and no other field or byte,
  -- when the new length is a multiple of 4, is enough for the name and stays in the buffer. It refuses
  -- every other length.
  pub set_rec_len_lem :
      (rec_len : ℕ)
      → rec_len < 2 ^ 16
      → ((buf' : List ℕ) × (set_rec_len buf rec_len ≡ some buf')
          × Sets buf 4 2 (record h { rec_len = rec_len }) buf')
        ⊎ ((set_rec_len buf rec_len ≡ none)
            × ((rec_len < aligned_len h.name_len) ⊎ ((length buf < rec_len) ⊎ (rec_len % 4 ≢ 0))))
  unfolding set_rec_len
  set_rec_len_lem rec_len k =
      elim (Bool-cases (fits (aligned_len h.name_len) rec_len (length buf))) [
        | inl f ↦ inl (
          write_at buf 4 (u16_bytes rec_len),
          rw (set_rec_len, e, f) refl,
          rec_len-Sets rec_len k f,
        )
        | inr f ↦ inr (rw (set_rec_len, e, f) refl, why f)
      ]
    where
      why :
          fits (aligned_len h.name_len) rec_len (length buf) ≡ false
          → (rec_len < aligned_len h.name_len) ⊎ ((length buf < rec_len) ⊎ (rec_len % 4 ≢ 0))
      why f = elim (dec_lt rec_len (aligned_len h.name_len)) [
        | yes p ↦ inl p
        | no p ↦ elim (dec_lt (length buf) rec_len) [
          | yes q ↦ inr (inl q)
          | no q ↦ inr (inr (λ r. true≢false (ground (arith, f, p, q, r))))
        ]
      ]
