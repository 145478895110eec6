-- ===== src/Mm/Address.antt =====
-- os/src/mm/address.rs: virtual addresses and page numbers. RISC-V and LoongArch have the same
-- widths; the bounds of the user half are those of RISC-V.
use os.Base.{ℕ, ◌+◌, ◌-◌, ◌/◌, ◌%◌, ◌^◌, Bool, ◌&&◌, leb, ltb}

abbrev pub page_size : ℕ
page_size = 4096

abbrev pub user_app_base : ℕ
user_app_base = 0x4000_0000

abbrev pub user_app_max_size : ℕ
user_app_max_size = 2 ^ 38

-- `VirtAddr::from`: the low 39 bits
abbrev pub va_from : ℕ → ℕ
va_from v = v % 2 ^ 39

abbrev pub std_floor : ℕ → ℕ
std_floor va = va / page_size

-- The sum wraps at address 0, where it comes to less than a page.
abbrev pub std_ceil : ℕ → ℕ
std_ceil va = (va + page_size - 1) / page_size

-- `SimpleRange::contains` of the range from `l` up to `r`
abbrev pub range_contains : ℕ → ℕ → ℕ → Bool
range_contains l r t = leb l t && ltb t r
