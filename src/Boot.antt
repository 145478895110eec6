-- ===== src/Boot.antt =====
-- os/src/mm/boot_memory.rs on RISC-V: the memory region that holds the kernel, and its layout into the
-- image, the DMA reservation, the heap and the pool of page frames. Addresses are physical, without
-- the bits of the kernel window. What the device tree says is an argument: the regions of its memory
-- nodes and its reservations, in their order. `none` stands for a panic.
pub mod Layout
mod Examples
use os.Base.{
  ℕ, ◌+◌, ◌-◌, ◌*◌, ◌/◌, ◌%◌, ◌^◌, min, max, Bool, ◌&&◌, List, [], ◌∷◌, Option, none, some, ltb,
  leb, if◌then◌else◌,
}

abbrev pub page_size : ℕ
page_size = 4096

-- `DMA_SIZE`
abbrev pub dma_size : ℕ
dma_size = 16777216

-- `MIN_HEAP_SIZE`, 128 MiB
abbrev pub min_heap_size : ℕ
min_heap_size = 134217728

-- `MAX_HEAP_SIZE`, 1.5 GiB
abbrev pub max_heap_size : ℕ
max_heap_size = 1610612736

-- `MIN_FRAME_POOL_SIZE`, 32 MiB
abbrev pub min_frame_pool_size : ℕ
min_frame_pool_size = 33554432

pub record BootMemory : Type 0 where
  pub memory_start : ℕ
  pub memory_end : ℕ
  pub dma_start : ℕ
  pub dma_end : ℕ
  pub heap_start : ℕ
  pub heap_end : ℕ
  pub frame_start : ℕ
  pub frame_end : ℕ

-- For a power of two `align`, `& !(align - 1)` takes the remainder away.
abbrev pub align_down : ℕ → ℕ → ℕ
align_down value align = value - value % align

abbrev pub align_up : ℕ → ℕ → ℕ
align_up value align = align_down ((value + align - 1) % 2 ^ 64) align

-- A `memory` region of the device tree: where it starts, and its size if the entry has one.
pub record Region : Type 0 where
  pub starting_address : ℕ
  pub size : Option ℕ

-- The end of a region that has a size and does not pass 2 ^ 64.
abbrev pub region_end : Region → Option ℕ
region_end region = elim region.size [
  | none ↦ none
  | some size ↦
      if ltb (region.starting_address + size) (2 ^ 64)
      then some (region.starting_address + size)
      else none
]

unfoldable pub find_region : List Region → ℕ → ℕ → Option (ℕ × ℕ)
find_region [] image_start image_end = none
find_region (region ∷ regions) image_start image_end =
    let rest = find_region regions image_start image_end in
    elim (region_end region) [
      | none ↦ rest
      | some last ↦
          if leb region.starting_address image_start && leb image_end last
          then some (region.starting_address, last)
          else rest
    ]

-- The first start of a reservation behind the image cuts the usable memory.
unfoldable pub cut_reservations : List ℕ → ℕ → ℕ → ℕ
cut_reservations [] image_end usable_end = usable_end
cut_reservations (start ∷ starts) image_end usable_end =
    cut_reservations starts image_end
      (if leb image_end start && ltb start usable_end then start else usable_end)

unfoldable pub platform_memory_range : List Region → List ℕ → ℕ → ℕ → Option (ℕ × ℕ × ℕ)
platform_memory_range regions reservations image_start image_end =
    elim (find_region regions image_start image_end) [
      | none ↦ none
      | some (start, last) ↦ some (start, last, cut_reservations reservations image_end last)
    ]

abbrev pub desired_heap : ℕ → ℕ
desired_heap memory_size = min (max (memory_size / 4) min_heap_size) max_heap_size

-- The layout behind the DMA reservation, of the memory that is left.
unfoldable pub place_heap : ℕ → ℕ → ℕ → ℕ → ℕ → ℕ → Option BootMemory
place_heap memory_start memory_end dma_start dma_end frame_end cores =
    let allocatable : ℕ = frame_end - dma_end in
    let max_heap : ℕ = allocatable - min_frame_pool_size in
    let heap_size : ℕ =
      align_down (min (desired_heap (memory_end - memory_start)) max_heap) page_size in
    if leb dma_end frame_end
      && (leb min_frame_pool_size allocatable
          && (leb min_heap_size max_heap && leb (page_size * (cores + 1)) heap_size))
    then some (record {
      memory_start = memory_start;
      memory_end = memory_end;
      dma_start = dma_start;
      dma_end = dma_end;
      heap_start = dma_end;
      heap_end = dma_end + heap_size;
      frame_start = dma_end + heap_size;
      frame_end = frame_end;
    })
    else none

unfoldable pub layout : ℕ → ℕ → ℕ → ℕ → ℕ → ℕ → Option BootMemory
layout image_start image_end memory_start memory_end frame_end cores =
    if leb memory_end (2 ^ 38)
      && (leb memory_start image_start
          && (leb image_end frame_end && ltb (image_end + dma_size) (2 ^ 64)))
    then place_heap memory_start memory_end image_end (align_up (image_end + dma_size) page_size)
        frame_end cores
    else none

-- `init`, with the addresses of `skernel` and `ekernel` and `CPU_CORE_NUM`.
unfoldable pub init : List Region → List ℕ → ℕ → ℕ → ℕ → Option BootMemory
init regions reservations skernel ekernel cores =
    let image_end : ℕ = align_up ekernel page_size in
    elim (platform_memory_range regions reservations skernel image_end) [
      | none ↦ none
      | some (memory_start, memory_end, usable_end) ↦
          layout skernel image_end memory_start memory_end usable_end cores
    ]
