-- ===== src/Ext4/Checksum/Crc.antt =====
-- CRC32C of os/src/ext4fs/checksum.rs may be computed in pieces.
use Prim.Native.Nat.{bit_xor}
use os.Base.{ℕ, ◌+◌, ◌≡◌, refl, List, [], ◌∷◌, ◌++◌, slice, slice_add}
use os.Ext4.Checksum.{crc32c, crc_rounds}

pub crc32c-append :
    (seed : ℕ) (xs ys : List ℕ) → crc32c seed (xs ++ ys) ≡ crc32c (crc32c seed xs) ys
unfolding crc32c
crc32c-append seed [] ys = refl
crc32c-append seed (x ∷ xs) ys = crc32c-append (crc_rounds 8 (bit_xor seed x)) xs ys

pub crc32c-nil : (seed : ℕ) → crc32c seed [] ≡ seed
unfolding crc32c
crc32c-nil seed = refl

pub crc32c-slice_add :
    (seed : ℕ) (xs : List ℕ) (a m b n k : ℕ)
    → b ≡ a + m
    → k ≡ m + n
    → crc32c seed (slice xs a k) ≡ crc32c (crc32c seed (slice xs a m)) (slice xs b n)
crc32c-slice_add seed xs a m b n k e f =
    rw (e, f, slice_add xs a m n) (crc32c-append seed (slice xs a m) (slice xs (a + m) n))
