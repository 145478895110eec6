-- ===== src/Ipc/Shm/Examples.antt =====
-- The theorems on shared memory, applied to a table with one segment that is attached once.
use os.Base.{◌≡◌, refl, none, some, [], ◌∷◌, arith}
use os.Ids.{alloc, new_with_start}
use os.Ipc.Table.{insert, delete, lookup}
use os.Ipc.Shm.{Shm, ShmManager, new, new_shm, get_shm, create_shm, remove_shm, take_attach}
use os.Ipc.Shm.Segments.{IsValid, new-IsValid, create_shm-IsValid, stale_attachment}

abbrev segment : Shm
segment = new_shm 0 4096 7 0 1 0 0

abbrev one_segment : ShmManager
one_segment = record {
  id_allocator = record { current = 1; recycled = [] };
  shms = (0, segment) ∷ [];
  attachments = (4096, 0) ∷ [];
}

abbrev unattached : ShmManager
unattached = record one_segment { attachments = [] }

one_segment-IsValid : IsValid one_segment
one_segment-IsValid = record { ids = create_shm-IsValid_here.0.ids }
  where
    create_shm-IsValid_here :
        IsValid unattached × (get_shm new 0 ≡ none) × (get_shm unattached 0 ≡ some segment)
    create_shm-IsValid_here =
        unfold create_shm alloc new new_with_start insert delete in
        create_shm-IsValid new 4096 7 0 1 0 0 new-IsValid refl

stale_attachment_example :
    (m1 : ShmManager) × (remove_shm one_segment 0 ≡ some m1)
    × (m2 : ShmManager) × (create_shm m1 8192 9 0 2 0 0 ≡ some (new_shm 0 8192 9 0 2 0 0, m2))
    × ((take_attach m2 4096).0 ≡ some 0)
unfolding get_shm lookup take_attach
stale_attachment_example =
    stale_attachment one_segment 0 4096 8192 9 0 2 0 0 one_segment-IsValid refl (omega arith) refl
