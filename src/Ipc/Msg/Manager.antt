-- ===== src/Ipc/Msg/Manager.antt =====
-- The table of message queues of os/src/ipc/msg.rs: ids, queues and keys agree.
use mathlib.Core.Option
use os.Base.{
  ℕ, ◌+◌, ◌<◌, ◌≡◌, ◌≢◌, ◌⊎◌, refl, ap, inl, inr, true, false, ◌&&◌, Option, none, some, List, [],
  ◌∷◌, ◌++◌, arith, ltb, ◌==◌, if◌then◌else◌, if_cases, Option-cases, ℕ_discrete, count, within,
  count-append, contains-count,
}
use os.Ids.{RecycleAllocator, alloc, dealloc}
use os.Ids.Unique
use os.Ipc.Msg.{
  e_exist, e_noent, e_nomem, Result, ok, err, MsgQueue, MsgManager, MsgGetFlags, msg_q_max, new,
  fresh_queue, create_queue, msgget, get_queue, remove_queue,
}
use os.Ipc.Table.{
  lookup, insert, delete, keys, lookup-delete_self, lookup-delete_ne, lookup-insert_self,
  lookup-insert_ne, count-keys-delete, lookup-keys, count-keys-insert_new,
}

-- The key of the queue with an id.
abbrev pub key_at : List (ℕ × MsgQueue) → ℕ → Option ℕ
key_at queues id = Option.map (λ q. q.msqds.msg_perm.key) (lookup queues id)

-- Every key of the table names a queue that was made for it.
abbrev pub AllNamed : List (ℕ × MsgQueue) → List (ℕ × ℕ) → Type 0
AllNamed queues [] = Unit {0}
AllNamed queues (e ∷ es) = (key_at queues e.1 ≡ some e.0) × AllNamed queues es

-- Every id is free, or lost, or the id of one queue.
pub record IsValid (lost : List ℕ) (m : MsgManager) : Type 0 where
  pub ids : Unique.IsValid 1 m.id_allocator (lost ++ keys m.queues)
  pub named : AllNamed m.queues m.key_to_id

pub new-IsValid : IsValid [] new
unfolding new keys
new-IsValid = record { ids = Unique.new_with_start-IsValid 1; named = tt }

key_at-keys :
    (es : List (ℕ × MsgQueue)) (k : ℕ) {key : ℕ} → key_at es k ≡ some key → 0 < count k (keys es)
key_at-keys es k e = elim (Option-cases (lookup es k)) [
  | inl n ↦ absurd (ground (arith, n, e))
  | inr (q, s) ↦ lookup-keys es k s
]

AllNamed-lookup :
    (queues : List (ℕ × MsgQueue)) (es : List (ℕ × ℕ)) (key : ℕ) {id : ℕ}
    → AllNamed queues es
    → lookup es key ≡ some id
    → key_at queues id ≡ some key
unfolding lookup
AllNamed-lookup queues [] key h e = cc
AllNamed-lookup queues (x ∷ es) key {id} h e = elim (ℕ_discrete x.0 key) [
  | yes p ↦ let same : x.1 ≡ id = ground (arith, e, p) in rw (← same, ← p) h.0
  | no p ↦ AllNamed-lookup queues es key h.1 (ground (arith, e, p))
]

-- The other queues keep their keys when one is added under a new id, or taken away.
AllNamed-insert :
    (queues : List (ℕ × MsgQueue)) (es : List (ℕ × ℕ)) (id : ℕ) (q : MsgQueue)
    → count id (keys queues) ≡ 0
    → AllNamed queues es
    → AllNamed (insert queues id q) es
AllNamed-insert queues [] id q h n = tt
AllNamed-insert queues (x ∷ es) id q h n =
    let other : x.1 ≢ id = λ e.
      absurd (omega (arith, h, ap (λ i. count i (keys queues)) e, key_at-keys queues x.1 n.0)) in
    (rw (lookup-insert_ne queues id x.1 q other) n.0, AllNamed-insert queues es id q h n.1)

AllNamed-delete_key :
    (queues : List (ℕ × MsgQueue)) (es : List (ℕ × ℕ)) (key : ℕ)
    → AllNamed queues es
    → AllNamed queues (delete es key)
unfolding delete
AllNamed-delete_key queues [] key n = tt
AllNamed-delete_key queues (x ∷ es) key n =
    if_cases (AllNamed queues) (x.0 == key) (λ _. AllNamed-delete_key queues es key n.1)
      (λ _. (n.0, AllNamed-delete_key queues es key n.1))

AllNamed-delete :
    (queues : List (ℕ × MsgQueue)) (es : List (ℕ × ℕ)) (id key : ℕ)
    → key_at queues id ≡ some key
    → AllNamed queues es
    → AllNamed (delete queues id) (delete es key)
unfolding delete
AllNamed-delete queues [] id key h n = tt
AllNamed-delete queues (x ∷ es) id key h n =
    if_cases (AllNamed (delete queues id)) (x.0 == key)
      (λ _. AllNamed-delete queues es id key h n.1)
      (λ e.
        let other : x.1 ≢ id = λ p. ground (arith, h, n.0, ap (key_at queues) p) in
        (rw (lookup-delete_ne queues id x.1 other) n.0, AllNamed-delete queues es id key h n.1))

-- `msgget` is to make a queue: for `IPC_PRIVATE`, or for a key without one and with `IPC_CREAT`.
abbrev pub Creates : MsgManager → ℕ → MsgGetFlags → Type 0
Creates m key flags = (key ≡ 0) ⊎ ((lookup m.key_to_id key ≡ none) × (flags.ipc_creat ≡ true))

-- A new queue under an id that had none, beside the others.
pub record Created (lost : List ℕ) (m : MsgManager) (key id : ℕ) (m' : MsgManager) : Type 0 where
  pub valid : IsValid lost m'
  pub key_of : key_at m'.queues id ≡ some key
  pub unused : count id (keys m.queues) ≡ 0
  pub named : lookup m'.key_to_id key ≡ some id
  pub others : (i : ℕ) → i ≢ id → lookup m'.queues i ≡ lookup m.queues i

-- The queue that the key had, where it may be shared.
abbrev pub Shared : MsgManager → ℕ → MsgGetFlags → ℕ → MsgManager → Type 0
Shared m key flags id m' =
    (key ≢ 0)
    × (lookup m.key_to_id key ≡ some id)
    × (key_at m.queues id ≡ some key)
    × (flags.ipc_creat && flags.ipc_excl ≡ false)
    × (m' ≡ m)

-- The four answers of `msgget`: the id of a new queue or of that for the key; EEXIST and ENOENT,
-- which change nothing; ENOMEM, after which one more id is lost.
abbrev pub Got : List ℕ → MsgManager → ℕ → MsgGetFlags → Result ℕ × MsgManager → Type 0
Got lost m key flags (ok id, m') =
    (Creates m key flags × Created lost m key id m') ⊎ Shared m key flags id m'
Got lost m key flags (err e_exist, m') =
    (m' ≡ m)
    × (key ≢ 0)
    × (id : ℕ) × (lookup m.key_to_id key ≡ some id)
    × (flags.ipc_creat ≡ true)
    × (flags.ipc_excl ≡ true)
Got lost m key flags (err e_noent, m') =
    (m' ≡ m) × (key ≢ 0) × (flags.ipc_creat ≡ false) × (lookup m.key_to_id key ≡ none)
Got lost m key flags (err e_nomem, m') =
    Creates m key flags × (id : ℕ) × (msg_q_max < id) × IsValid (id ∷ lost) m'
Got lost m key flags (err _, m') = ⊥

create_queue-Got :
    (lost : List ℕ) (m : MsgManager) (key : ℕ) (flags : MsgGetFlags) (mode uid gid now : ℕ)
    → IsValid lost m
    → Creates m key flags
    → Got lost m key flags (create_queue m key mode uid gid now)
unfolding create_queue insert count
create_queue-Got lost m key flags mode uid gid now v wanted =
    let (id, ids) = alloc m.id_allocator in
    let (fresh_ids, unused) = Unique.alloc-IsValid 1 m.id_allocator (lost ++ keys m.queues) v.ids in
    let q = fresh_queue key mode uid gid now in
    let nowhere : count id (keys m.queues) ≡ 0 =
      omega (arith, unused, count-append id lost (keys m.queues)) in
    if_cases (Got lost m key flags) (ltb msg_q_max id)
      (λ e. (wanted, id, ground arith, record { ids = fresh_ids; named = v.named }))
      (λ e. inl (
        wanted,
        record {
          valid = record {
            ids = record {
              begun = fresh_ids.begun;
              once = λ i. omega (
                arith,
                fresh_ids.once i,
                count-append i lost (keys m.queues),
                count-append i lost (keys (insert m.queues id q)),
                count-keys-insert_new m.queues id i q nowhere,
              );
            };
            named = (
              rw (lookup-insert_self m.queues id q) refl,
              AllNamed-insert m.queues (delete m.key_to_id key) id q nowhere
                  (AllNamed-delete_key m.queues m.key_to_id key v.named),
            );
          };
          key_of = rw (lookup-insert_self m.queues id q) refl;
          unused = nowhere;
          named = lookup-insert_self m.key_to_id key id;
          others = λ i ne. lookup-insert_ne m.queues id i q ne;
        },
      ))

-- `msgget` on every branch, from a table in which ids, queues and keys agree. For `IPC_PRIVATE`, and for
-- a key without a queue when `IPC_CREAT` is given, it makes a queue for the key under an id that had
-- none, leaves the other queues alone and keeps the table in agreement, or fails with ENOMEM when
-- that id is too large. For a key with a queue it returns that queue's id and changes nothing, or fails
-- with EEXIST for `IPC_CREAT` with `IPC_EXCL`; without a queue or `IPC_CREAT` it fails with ENOENT.
pub msgget_lem :
    (lost : List ℕ) (m : MsgManager) (key : ℕ) (flags : MsgGetFlags) (mode uid gid now : ℕ)
    → IsValid lost m
    → Got lost m key flags (msgget m key flags mode uid gid now)
unfolding msgget
msgget_lem lost m key flags mode uid gid now v =
    if_cases P (key == 0) (λ e. created (inl (ground (arith, e))))
      (λ e. by_key (ground (arith, e)) (lookup m.key_to_id key) refl)
  where
    P : Result ℕ × MsgManager → Type 0
    P = Got lost m key flags

    created : Creates m key flags → P (create_queue m key mode uid gid now)
    created wanted = create_queue-Got lost m key flags mode uid gid now v wanted

    by_key :
        key ≢ 0
        → (o : Option ℕ) → lookup m.key_to_id key ≡ o
        → P (elim o [
          | some id ↦ (if flags.ipc_creat && flags.ipc_excl then (err e_exist, m) else (ok id, m))
          | none ↦
              (if flags.ipc_creat then create_queue m key mode uid gid now else (err e_noent, m))
        ])
    by_key ne (some id) e =
        if_cases P (flags.ipc_creat && flags.ipc_excl)
          (λ h. (refl, ne, id, e, ground arith, ground arith))
          (λ h. inr (ne, e, AllNamed-lookup m.queues m.key_to_id key v.named e, h, refl))
    by_key ne none e =
        if_cases P flags.ipc_creat (λ h. created (inr (e, h))) (λ h. (refl, ne, h, e))

-- `remove_queue` never panics. It leaves no queue under the id, and ids, queues and keys agree.
pub remove_queue-IsValid :
    (lost : List ℕ) (m : MsgManager) (id : ℕ)
    → IsValid lost m
    → (m' : MsgManager) × (remove_queue m id ≡ some m') × IsValid lost m' × (get_queue m' id ≡ none)
unfolding remove_queue get_queue dealloc count
remove_queue-IsValid lost m id v = elim (Option-cases (lookup m.queues id)) [
  | inl n ↦ (m, rw (n, remove_queue) refl, v, n)
  | inr (q, s) ↦
      let here = lookup-keys m.queues id s in
      let ids : RecycleAllocator = record m.id_allocator {
        recycled = id ∷ m.id_allocator.recycled;
      } in
      let given : dealloc m.id_allocator id ≡ some ids = ground (
        arith,
        v.ids.once id,
        here,
        count-append id lost (keys m.queues),
        contains-count m.id_allocator.recycled id,
      ) in
      (
        record {
          id_allocator = ids;
          queues = delete m.queues id;
          key_to_id = delete m.key_to_id q.msqds.msg_perm.key;
        },
        rw (s, remove_queue, given) refl,
        record {
          ids = record { begun = v.ids.begun; once = λ i. given_back i here };
          named = AllNamed-delete m.queues m.key_to_id id q.msqds.msg_perm.key (rw s refl) v.named;
        },
        lookup-delete_self m.queues id,
      )
]
  where
    given_back :
        (i : ℕ)
        → 0 < count id (keys m.queues)
        → count i (id ∷ m.id_allocator.recycled) + count i (lost ++ keys (delete m.queues id))
          ≡ within 1 m.id_allocator.current i
    given_back i here = elim (ℕ_discrete i id) [
      | yes e ↦ rw e (
          ground (
            arith,
            v.ids.once id,
            here,
            count-append id lost (keys m.queues),
            count-append id lost (keys (delete m.queues id)),
            count-keys-delete m.queues id id,
          ))
      | no ne ↦ ground (
        arith,
        v.ids.once i,
        count-append i lost (keys m.queues),
        count-append i lost (keys (delete m.queues id)),
        count-keys-delete m.queues id i,
      )
    ]
