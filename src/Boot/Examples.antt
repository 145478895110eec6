-- ===== src/Boot/Examples.antt =====
-- The layout of a QEMU machine with 1 GiB of memory, whose firmware reserves the last 2 MiB.
use os.Base.{ℕ, ◌≤◌, ◌%◌, ◌≡◌, refl, List, [], ◌∷◌, none, some, arith}
use os.Boot.{BootMemory, Region, layout, init}
use os.Boot.Layout.{Listed, Clear, LaidOut, init-LaidOut}

abbrev machine : List Region
machine =
    record { starting_address = 0x8000; size = none }
    ∷ (record { starting_address = 0x80000000; size = some 0x40000000 } ∷ [])

abbrev reservations : List ℕ
reservations = 0x80000000 ∷ (0xbfe00000 ∷ [])

abbrev virt_layout : BootMemory
virt_layout = record {
  memory_start = 0x80000000;
  memory_end = 0xc0000000;
  dma_start = 0x81001000;
  dma_end = 0x82001000;
  heap_start = 0x82001000;
  heap_end = 0x92001000;
  frame_start = 0x92001000;
  frame_end = 0xbfe00000;
}

init_virt : init machine reservations 0x80200000 0x81000123 4 ≡ some virt_layout
unfolding init os.Boot.platform_memory_range os.Boot.find_region layout os.Boot.cut_reservations
    os.Boot.place_heap
init_virt = refl

init-LaidOut_example :
    Listed machine 0x80000000 0xc0000000
    × (0x80000000 ≤ 0x80200000)
    × (0x81000123 ≤ 0x81001000)
    × (0x81001000 % 4096 ≡ 0)
    × (0xbfe00000 ≤ 0xc0000000)
    × Clear reservations 0x81001000 0xbfe00000
    × LaidOut 0x81001000 0xbfe00000 virt_layout
init-LaidOut_example =
    init-LaidOut machine reservations 0x80200000 0x81000123 4 (omega arith) init_virt
