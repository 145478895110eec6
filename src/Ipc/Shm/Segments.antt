-- ===== src/Ipc/Shm/Segments.antt =====
-- The table of segments of os/src/ipc/shm.rs: each id is free or that of one segment. And what
-- becomes of an attachment whose segment is removed.
use os.Base.{
  ℕ, ◌+◌, ◌-◌, ◌^◌, ◌<◌, ◌≡◌, ◌≢◌, ◌↔◌, refl, sym, ◌∙◌, inl, inr, false, Option, none, some, List,
  ◌∷◌, arith, ltb, Option-cases, ℕ_discrete, count, within, contains-count, count-contains,
  if_cases,
}
use mathlib.Core.Path.{subst}
use os.Ids.{alloc, dealloc}
use os.Ids.Unique
use os.Ipc.Table.{
  lookup, insert, delete, keys, lookup-delete_self, lookup-insert_self, count-keys-delete,
  count-keys-insert_new, lookup-keys, lookup-eq-none,
}
use os.Ipc.Shm.{Shm, ShmManager, new, new_shm, get_shm, remove_shm, create_shm, take_attach}

pub record IsValid (m : ShmManager) : Type 0 where
  pub ids : Unique.IsValid 0 m.id_allocator (keys m.shms)

pub new-IsValid : IsValid new
unfolding new keys
new-IsValid = record { ids = Unique.new_with_start-IsValid 0 }

absent_unless : (es : List (ℕ × Shm)) (k : ℕ) → count k (keys es) ≡ 0 → lookup es k ≡ none
absent_unless es k h = elim (Option-cases (lookup es k)) [
  | inl e ↦ e
  | inr (s, e) ↦ absurd (omega (arith, h, lookup-keys es k e))
]

abbrev Made : ShmManager → Option (Shm × ShmManager) → Type 0
Made m none = Unit {0}
Made m (some (shm, m')) = IsValid m' × (get_shm m shm.id ≡ none) × (get_shm m' shm.id ≡ some shm)

create_shm-Made :
    (m : ShmManager) (size key mode cpid uid gid : ℕ)
    → IsValid m
    → Made m (create_shm m size key mode cpid uid gid)
unfolding create_shm get_shm count
create_shm-Made m size key mode cpid uid gid v =
    let (id, ids) = alloc m.id_allocator in
    let (fresh_ids, unused) = Unique.alloc-IsValid 0 m.id_allocator (keys m.shms) v.ids in
    let shm = new_shm id size key mode cpid uid gid in
    if_cases (Made m) (ltb (2 ^ 32 - 1) id) (λ _. tt)
      (λ _. (
        record {
          ids = record {
            begun = fresh_ids.begun;
            once =
                λ i. omega (arith, fresh_ids.once i, count-keys-insert_new m.shms id i shm unused);
          };
        },
        absent_unless m.shms id unused,
        lookup-insert_self m.shms id shm,
      ))

-- A segment that `create_shm` makes has an id that no segment had; it stands in the table under it,
-- and the table stays valid.
pub create_shm-IsValid :
    (m : ShmManager) (size key mode cpid uid gid : ℕ) {shm : Shm} {m' : ShmManager}
    → IsValid m
    → create_shm m size key mode cpid uid gid ≡ some (shm, m')
    → IsValid m' × (get_shm m shm.id ≡ none) × (get_shm m' shm.id ≡ some shm)
create_shm-IsValid m size key mode cpid uid gid v e =
    subst (Made m) e (create_shm-Made m size key mode cpid uid gid v)

-- The manager that `remove_shm` leaves for the id of a segment.
abbrev removed : ShmManager → ℕ → ShmManager
removed m id = record {
  id_allocator = record m.id_allocator { recycled = id ∷ m.id_allocator.recycled };
  shms = delete m.shms id;
  attachments = m.attachments;
}

remove_shm-eq-some :
    (m : ShmManager) (id : ℕ)
    → IsValid m
    → 0 < count id (keys m.shms)
    → remove_shm m id ≡ some (removed m id)
unfolding remove_shm dealloc
remove_shm-eq-some m id v h =
    ground (arith, v.ids.once id, contains-count m.id_allocator.recycled id)

removed-IsValid :
    (m : ShmManager) (id : ℕ) → IsValid m → 0 < count id (keys m.shms) → IsValid (removed m id)
unfolding count
removed-IsValid m id v h = record {
  ids = record { begun = v.ids.begun; once = λ i. again i (ℕ_discrete i id) };
}
  where
    again :
        (i : ℕ)
        → Dec (i ≡ id)
        → count i (id ∷ m.id_allocator.recycled) + count i (keys (delete m.shms id))
          ≡ within 0 m.id_allocator.current i
    again i (yes e) = rw e (ground (arith, v.ids.once id, h, count-keys-delete m.shms id id))
    again i (no ne) = ground (arith, v.ids.once i, count-keys-delete m.shms id i)

-- `remove_shm` of a segment succeeds, leaves nothing under its id, and keeps the table valid. It
-- leaves all the records of attachments.
pub remove_shm-IsValid :
    (m : ShmManager) (id : ℕ) {shm : Shm}
    → IsValid m
    → get_shm m id ≡ some shm
    → (m' : ShmManager) × (remove_shm m id ≡ some m')
      × IsValid m'
      × (get_shm m' id ≡ none)
      × (m'.attachments ≡ m.attachments)
unfolding get_shm
remove_shm-IsValid m id v e =
    let here = lookup-keys m.shms id e in
    (
      removed m id,
      remove_shm-eq-some m id v here,
      removed-IsValid m id v here,
      lookup-delete_self m.shms id,
      refl,
    )

-- `remove_shm` panics on exactly the ids of no segment.
pub remove_shm-eq-none_iff :
    (m : ShmManager) (id : ℕ) → IsValid m → (remove_shm m id ≡ none) ↔ (get_shm m id ≡ none)
unfolding get_shm remove_shm dealloc
remove_shm-eq-none_iff m id v = (
  λ e. elim (Option-cases (lookup m.shms id)) [
    | inl n ↦ n
    | inr (s, f) ↦
        let there = remove_shm-eq-some m id v (lookup-keys m.shms id f) in
        absurd (some_ne (sym there ∙ e))
  ],
  λ n.
      ground (
        arith,
        v.ids.once id,
        lookup-eq-none m.shms id n,
        count-contains m.id_allocator.recycled id,
      ),
)
  where
    some_ne : {a : ShmManager} → some a ≢ none
    some_ne e = cc

-- An attachment that is still recorded when its segment is removed is taken for one of the next
-- segment that is made: that gets the same id, and `take_attach` answers with it.
pub stale_attachment :
    (m : ShmManager) (id addr size key mode cpid uid gid : ℕ) {shm : Shm}
    → IsValid m
    → get_shm m id ≡ some shm
    → id < 2 ^ 32
    → (take_attach m addr).0 ≡ some id
    → (m1 : ShmManager) × (remove_shm m id ≡ some m1)
      × (m2 : ShmManager) × (create_shm m1 size key mode cpid uid gid
          ≡ some (new_shm id size key mode cpid uid gid, m2))
      × ((take_attach m2 addr).0 ≡ some id)
unfolding get_shm take_attach create_shm alloc
stale_attachment m id addr size key mode cpid uid gid v e small kept =
    let m1 = removed m id in
    let shm' = new_shm id size key mode cpid uid gid in
    let fits : ltb (2 ^ 32 - 1) id ≡ false = ground arith in
    (
      m1,
      remove_shm-eq-some m id v (lookup-keys m.shms id e),
      record m1 { id_allocator = m.id_allocator; shms = insert m1.shms id shm' },
      rw (fits, create_shm) refl,
      kept,
    )
