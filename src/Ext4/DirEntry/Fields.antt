-- ===== src/Ext4/DirEntry/Fields.antt =====
-- The header of a directory entry of os/src/ext4fs/ext4_dir_entry.rs, and the setters of its fields.
use mathlib.Core.Path.{subst}
use os.Base.{
  not, ◌||◌, ◌==◌, ℕ, zero, suc, ◌+◌, ◌-◌, ◌%◌, ◌≤◌, ◌<◌, ◌≡◌, refl, ap, false, Option, none, some,
  some_eq, List, [], ◌∷◌, ltb, arith, length, get_or, write_at, if_cases,
}
use os.Ext4.Checksum.{byte_at, u16_at, u32_at}
use os.Ext4.DirEntry.{Header, check_header, decode_header}

pub get_or-write_at_self :
    (xs : List ℕ) (off : ℕ) (ys : List ℕ) (i d : ℕ)
    → i < length ys
    → off + i < length xs
    → get_or (write_at xs off ys) (off + i) d ≡ get_or ys i d
unfolding write_at
get_or-write_at_self [] off ys i d h k = absurd (omega arith)
get_or-write_at_self (x ∷ xs) zero [] i d h k = absurd (omega arith)
get_or-write_at_self (x ∷ xs) zero (y ∷ ys) zero d h k = refl
get_or-write_at_self (x ∷ xs) zero (y ∷ ys) (suc i) d h k =
    let same : 0 + suc i ≡ suc (0 + i) = omega arith in
    rw same (get_or-write_at_self xs zero ys i d (omega arith) (omega arith))
get_or-write_at_self (x ∷ xs) (suc off) ys i d h k =
    let same : suc off + i ≡ suc (off + i) = omega arith in
    rw same (get_or-write_at_self xs off ys i d h (omega arith))

none-some : (h : Header) → none ≡ some h → ⊥
none-some h e = cc

-- A header that was decoded.
pub record Decoded (buf : List ℕ) (h : Header) : Type 0 where
  pub inode : u32_at buf 0 ≡ h.inode
  pub rec_len : u16_at buf 4 ≡ h.rec_len
  pub name_len : byte_at buf 6 ≡ h.name_len
  pub file_type : byte_at buf 7 ≡ h.file_type
  pub enough : 8 ≤ h.rec_len
  pub aligned : h.rec_len % 4 ≡ 0
  pub inside : h.rec_len ≤ length buf
  pub name : 8 + h.name_len ≤ h.rec_len

check_header-some :
    (n : ℕ) (x h : Header)
    → check_header n x ≡ some h
    → (x ≡ h)
      × (8 ≤ x.rec_len)
      × (x.rec_len % 4 ≡ 0)
      × (x.rec_len ≤ n)
      × (8 + x.name_len ≤ x.rec_len)
unfolding check_header
check_header-some n x h e =
    if_cases
      (λ (o : Option Header).
        o ≡ some h
        → (x ≡ h)
          × (8 ≤ x.rec_len)
          × (x.rec_len % 4 ≡ 0)
          × (x.rec_len ≤ n)
          × (8 + x.name_len ≤ x.rec_len))
      (ltb x.rec_len 8
        || (not (x.rec_len % 4 == 0) || (ltb n x.rec_len || ltb (x.rec_len - 8) x.name_len)))
      (λ _ f. absurd (none-some h f))
      (λ t f. (some_eq f, ground arith, ground arith, ground arith, ground arith)) e

raw_header : List ℕ → Header
raw_header buf = record {
  inode = u32_at buf 0;
  rec_len = u16_at buf 4;
  name_len = byte_at buf 6;
  file_type = byte_at buf 7;
}

-- `decode_header` returns what stands in the first eight bytes just when that is a legal header: the
-- record is aligned, holds the header and the name, and lies in the buffer.
pub decode_header-Decoded : (buf : List ℕ) (h : Header) → decode_header buf ≡ some h → Decoded buf h
unfolding decode_header raw_header
decode_header-Decoded buf h e =
    if_cases (λ (o : Option Header). o ≡ some h → Decoded buf h) (ltb (length buf) 8)
      (λ _ f. absurd (none-some h f))
      (λ _ f.
        let (same, h1, h2, h3, h4) = check_header-some (length buf) (raw_header buf) h f in
        record {
          inode = ap (λ (x : Header). x.inode) same;
          rec_len = ap (λ (x : Header). x.rec_len) same;
          name_len = ap (λ (x : Header). x.name_len) same;
          file_type = ap (λ (x : Header). x.file_type) same;
          enough = subst (λ (x : Header). 8 ≤ x.rec_len) same h1;
          aligned = subst (λ (x : Header). x.rec_len % 4 ≡ 0) same h2;
          inside = subst (λ (x : Header). x.rec_len ≤ length buf) same h3;
          name = subst (λ (x : Header). 8 + x.name_len ≤ x.rec_len) same h4;
        })
      e

pub Decoded-decode_header : (buf : List ℕ) (h : Header) → Decoded buf h → decode_header buf ≡ some h
unfolding decode_header check_header
Decoded-decode_header buf h d =
    let long : ltb (length buf) 8 ≡ false = ground (arith, d.enough, d.inside) in
    let legal : (ltb h.rec_len 8
          || (not (h.rec_len % 4 == 0)
              || (ltb (length buf) h.rec_len || ltb (h.rec_len - 8) h.name_len)))
        ≡ false =
      ground (arith, d.enough, d.aligned, d.inside, d.name) in
    rw (decode_header, long, d.inode, d.rec_len, d.name_len, d.file_type, check_header, legal) refl
