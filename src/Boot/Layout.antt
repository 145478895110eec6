-- ===== src/Boot/Layout.antt =====
-- What the layout of os/src/mm/boot_memory.rs guarantees.
use os.Base.{
  ℕ, ◌+◌, ◌%◌, ◌^◌, ◌≤◌, ◌<◌, ◌≡◌, ◌⊎◌, inl, inr, refl, List, [], ◌∷◌, Option, none, some, leb, ltb,
  ap, ◌∙◌, ◌↔◌, true, arith, some_eq, Option-cases, Bool-cases, if◌then◌else◌, ◌&&◌,
}
use os.Boot.{
  BootMemory, Region, page_size, dma_size, min_heap_size, max_heap_size, min_frame_pool_size,
  align_up, align_down, find_region, region_end, cut_reservations, platform_memory_range,
  place_heap, layout, init,
}

-- The four parts follow each other, page by page, and the heap and the pool have their sizes.
abbrev pub LaidOut : ℕ → ℕ → BootMemory → Type 0
LaidOut image_end usable_end b =
    (b.dma_start ≡ image_end)
    × (b.dma_start + dma_size ≤ b.dma_end)
    × (b.heap_start ≡ b.dma_end)
    × (b.heap_start + min_heap_size ≤ b.heap_end)
    × (b.heap_end ≤ b.heap_start + max_heap_size)
    × (b.frame_start ≡ b.heap_end)
    × (b.frame_start + min_frame_pool_size ≤ b.frame_end)
    × (b.frame_end ≡ usable_end)
    × (b.dma_end % page_size ≡ 0)
    × (b.frame_start % page_size ≡ 0)

align_down_le : (v : ℕ) → align_down v page_size ≤ v
align_down_le v = omega arith

align_up_ge : (v : ℕ) → v + page_size ≤ 2 ^ 64 → v ≤ align_up v page_size
align_up_ge v h = omega arith

align_up_aligned : (v : ℕ) → align_up v page_size % page_size ≡ 0
align_up_aligned v = omega arith

place_heap-LaidOut :
    (memory_start memory_end dma_start dma_end frame_end cores : ℕ) {b : BootMemory}
    → dma_start + dma_size ≤ dma_end
    → dma_end % page_size ≡ 0
    → place_heap memory_start memory_end dma_start dma_end frame_end cores ≡ some b
    → LaidOut dma_start frame_end b
unfolding place_heap
place_heap-LaidOut memory_start memory_end dma_start dma_end frame_end cores h k e = ground arith

layout-LaidOut :
    (image_start image_end memory_start memory_end frame_end cores : ℕ) {b : BootMemory}
    → frame_end ≤ memory_end
    → layout image_start image_end memory_start memory_end frame_end cores ≡ some b
    → LaidOut image_end frame_end b
      × (memory_start ≤ image_start)
      × (image_end ≤ frame_end)
      × (b.memory_start ≡ memory_start)
      × (b.memory_end ≡ memory_end)
unfolding layout place_heap
layout-LaidOut image_start image_end memory_start memory_end frame_end cores h e = ground arith

-- On a page-aligned image in a region below 2 ^ 38, for fewer than 32767 cores, the layout is refused
-- exactly if the memory behind the image cannot hold the DMA reservation, the least heap and the
-- least frame pool.
pub layout-eq-none_iff :
    (image_start image_end memory_start memory_end frame_end cores : ℕ)
    → memory_end ≤ 2 ^ 38
    → memory_start ≤ image_start
    → frame_end ≤ memory_end
    → image_end % page_size ≡ 0
    → cores < 32767
    → (layout image_start image_end memory_start memory_end frame_end cores ≡ none)
      ↔ (frame_end < image_end + dma_size + min_heap_size + min_frame_pool_size)
unfolding layout place_heap
layout-eq-none_iff image_start image_end memory_start memory_end frame_end cores h1 h2 h3 h4 h5 =
    ground arith

-- No reservation starts between the two addresses.
abbrev pub Clear : List ℕ → ℕ → ℕ → Type 0
Clear [] lo hi = Unit {0}
Clear (start ∷ starts) lo hi = ((start < lo) ⊎ (hi ≤ start)) × Clear starts lo hi

-- A region of the device tree has these ends.
abbrev pub Listed : List Region → ℕ → ℕ → Type 0
Listed [] start last = ⊥
Listed (region ∷ regions) start last =
    ((region.starting_address ≡ start) × (region_end region ≡ some last))
    ⊎ Listed regions start last

cut_reservations_lem :
    (starts : List ℕ) (image_end usable_end : ℕ)
    → image_end ≤ usable_end
    → (image_end ≤ cut_reservations starts image_end usable_end)
      × (cut_reservations starts image_end usable_end ≤ usable_end)
      × Clear starts image_end (cut_reservations starts image_end usable_end)
unfolding cut_reservations
cut_reservations_lem [] image_end usable_end h = (h, omega arith, tt)
cut_reservations_lem (start ∷ starts) image_end usable_end h =
    let cut : ℕ = if leb image_end start && ltb start usable_end then start else usable_end in
    let low : image_end ≤ cut = ground arith in
    let high : cut ≤ usable_end = ground arith in
    let clear : (start < image_end) ⊎ (cut ≤ start) = ground arith in
    let (f, g, k) = cut_reservations_lem starts image_end cut low in
    (f, omega (arith, g, high), (ground (arith, clear, g), k))

find_region_lem :
    (regions : List Region) (image_start image_end : ℕ) {start last : ℕ}
    → find_region regions image_start image_end ≡ some (start, last)
    → Listed regions start last × (start ≤ image_start) × (image_end ≤ last)
unfolding find_region
find_region_lem [] image_start image_end e = cc
find_region_lem (region ∷ regions) image_start image_end {start} {last} e =
    elim (Option-cases (region_end region)) [
      | inl r ↦
          let (f, g, h) =
            find_region_lem regions image_start image_end (rw (r, find_region) at e) in
          (inr f, g, h)
      | inr (top, r) ↦
          elim (Bool-cases (leb region.starting_address image_start && leb image_end top)) [
            | inl t ↦ found top r t (rw (r, find_region, t) at e)
            | inr t ↦
                let (f, g, h) =
                  find_region_lem regions image_start image_end (rw (r, find_region, t) at e) in
                (inr f, g, h)
          ]
    ]
  where
    found :
        (top : ℕ)
        → region_end region ≡ some top
        → (leb region.starting_address image_start && leb image_end top) ≡ true
        → ◌≡◌ {A = Option (ℕ × ℕ)} (some (region.starting_address, top)) (some (start, last))
        → Listed (region ∷ regions) start last × (start ≤ image_start) × (image_end ≤ last)
    found top r t q =
        let p : ◌≡◌ {A = ℕ × ℕ} (region.starting_address, top) (start, last) = some_eq q in
        (
          inl (ap (λ z. z.0) p, r ∙ ap some (ap (λ z. z.1) p)),
          ground (arith, ap (λ z. z.0) p),
          ground (arith, ap (λ z. z.1) p),
        )

-- If `init` does not panic, and the end of the kernel is at least a page below 2 ^ 64, then the memory
-- it divides is a region of the device tree with the whole kernel image; behind the image follow the
-- DMA reservation, the heap (128 MiB to 1.5 GiB) and the frame pool (at least 32 MiB) in this order,
-- without a gap after the reservation, each start and the end of the heap aligned to pages; the pool
-- ends inside the region, and no reservation starts between the image and that end.
pub init-LaidOut :
    (regions : List Region) (reservations : List ℕ) (skernel ekernel cores : ℕ) {b : BootMemory}
    → ekernel + page_size ≤ 2 ^ 64
    → init regions reservations skernel ekernel cores ≡ some b
    → Listed regions b.memory_start b.memory_end
      × (b.memory_start ≤ skernel)
      × (ekernel ≤ b.dma_start)
      × (b.dma_start % page_size ≡ 0)
      × (b.frame_end ≤ b.memory_end)
      × Clear reservations b.dma_start b.frame_end
      × LaidOut b.dma_start b.frame_end b
unfolding init platform_memory_range
init-LaidOut regions reservations skernel ekernel cores {b} h e =
    elim (Option-cases (find_region regions skernel image_end)) [
      | inl lost ↦ let q : none ≡ some b = rw (lost, init, platform_memory_range) at e in cc
      | inr ((start, last), found) ↦
          let (listed, below, above) = find_region_lem regions skernel image_end found in
          let (f, g, clear) = cut_reservations_lem reservations image_end last above in
          let (laid, _, _, ms, me) =
            layout-LaidOut skernel image_end start last
              (cut_reservations reservations image_end last) cores g
              (rw (found, init, platform_memory_range) at e) in
          let (ds, d1, d2, d3, d4, d5, d6, fe, d7, d8) = laid in
          (
            rw (ms, me) listed,
            omega (arith, ms, below),
            omega (arith, ds, align_up_ge ekernel h),
            omega (arith, ds, align_up_aligned ekernel),
            omega (arith, fe, me, g),
            rw (ds, fe) clear,
            (refl, d1, d2, d3, d4, d5, d6, refl, d7, d8),
          )
    ]
  where
    image_end : ℕ
    image_end = align_up ekernel page_size
