-- ===== src/Ipc/Shm.antt =====
-- os/src/ipc/shm.rs: System V shared memory segments. A `BTreeMap` is an association list, and the
-- segment behind an `Arc` is kept as a value; its memory, a tmpfs file, is left out. A panic is `none`.
pub mod Segments
mod Examples
use mathlib.Core.Option
use os.Base.{
  ℕ, suc, ◌+◌, ◌-◌, ◌^◌, Bool, true, false, Option, none, some, List, [], ◌∷◌, ltb, ◌==◌,
  if◌then◌else◌,
}
use os.Ids.{RecycleAllocator, new_with_start, alloc, dealloc}
use os.Ipc.Table.{insert, lookup, delete}
use os.Ipc.Msg.{IpcPerm, default_perm}

pub record ShmidDs : Type 0 where
  pub shm_perm : IpcPerm
  pub shm_segsz : ℕ
  pub shm_atime : ℕ
  pub shm_dtime : ℕ
  pub shm_ctime : ℕ
  pub shm_cpid : ℕ
  pub shm_lpid : ℕ
  pub shm_nattch : ℕ

pub record Shm : Type 0 where
  pub id : ℕ
  pub stat : ShmidDs

pub record ShmManager : Type 0 where
  pub id_allocator : RecycleAllocator
  pub shms : List (ℕ × Shm)
  pub attachments : List (ℕ × ℕ)

unfoldable pub new : ShmManager
unfolding new_with_start
new = record { id_allocator = new_with_start 0; shms = []; attachments = [] }

abbrev pub new_shm : ℕ → ℕ → ℕ → ℕ → ℕ → ℕ → ℕ → Shm
new_shm id size key mode cpid uid gid = record {
  id = id;
  stat = record {
    shm_perm = record default_perm { key = key; mode = mode; uid = uid; gid = gid };
    shm_segsz = size;
    shm_atime = 0;
    shm_dtime = 0;
    shm_ctime = 0;
    shm_cpid = cpid;
    shm_lpid = 0;
    shm_nattch = 0;
  };
}

abbrev pub get_key : Shm → ℕ
get_key s = s.stat.shm_perm.key

unfoldable pub get_shm : ShmManager → ℕ → Option Shm
get_shm m id = lookup m.shms id

-- The first of the values in the order of the ids.
unfoldable pub first_with_key : List (ℕ × Shm) → ℕ → Option (ℕ × Shm)
first_with_key [] key = none
first_with_key (e ∷ es) key =
    let rest = first_with_key es key in
    if get_key e.1 == key
    then elim rest [ none ↦ some e | some f ↦ if ltb f.0 e.0 then some f else some e ]
    else rest

pub get_shm_by_key : ShmManager → ℕ → Option Shm
unfolding first_with_key
get_shm_by_key m key = Option.map (λ e. e.1) (first_with_key m.shms key)

unfoldable pub remove_shm : ShmManager → ℕ → Option ShmManager
unfolding dealloc
remove_shm m id = elim (dealloc m.id_allocator id) [
  | none ↦ none
  | some ids ↦ some (record m { shms = delete m.shms id; id_allocator = ids })
]

unfoldable pub create_shm : ShmManager → ℕ → ℕ → ℕ → ℕ → ℕ → ℕ → Option (Shm × ShmManager)
unfolding alloc
create_shm m size key mode cpid uid gid =
    let (id, ids) = alloc m.id_allocator in
    if ltb (2 ^ 32 - 1) id
    then none
    else (let shm = new_shm id size key mode cpid uid gid in
        some (shm, record m { id_allocator = ids; shms = insert m.shms id shm }))

unfoldable pub record_attach : ShmManager → ℕ → ℕ → ShmManager
record_attach m shmid addr = record m { attachments = insert m.attachments addr shmid }

unfoldable pub take_attach : ShmManager → ℕ → Option ℕ × ShmManager
take_attach m addr =
    (lookup m.attachments addr, record m { attachments = delete m.attachments addr })

pub inc_nattch : Shm → Shm
inc_nattch s = record s { stat = record s.stat { shm_nattch = s.stat.shm_nattch + 1 } }

pub dec_nattch : Shm → Shm
dec_nattch s =
    if ltb 0 s.stat.shm_nattch
    then record s { stat = record s.stat { shm_nattch = s.stat.shm_nattch - 1 } }
    else s

pub set_lpid : Shm → ℕ → Shm
set_lpid s pid = record s { stat = record s.stat { shm_lpid = pid } }

pub set_perm_fields : Shm → ℕ → ℕ → ℕ → Shm
set_perm_fields s uid gid mode = record s {
  stat = record s.stat { shm_perm = record s.stat.shm_perm { uid = uid; gid = gid; mode = mode } };
}
