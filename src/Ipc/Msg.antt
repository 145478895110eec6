-- ===== src/Ipc/Msg.antt =====
-- os/src/ipc/msg.rs: System V message queues. A `BTreeMap` is an association list, where an insert
-- replaces, and the queue behind an `Arc<Mutex<…>>` is kept as a value. The wall clock is an
-- argument. Message types, sizes and ids are native numbers; a panic is `none`.
pub mod Queue
pub mod Search
pub mod Manager
mod Examples
use mathlib.Core.Option
use os.Base.{
  ℕ, zero, suc, ◌+◌, Bool, true, false, ◌&&◌, not, Option, none, some, List, [], ◌∷◌, ◌++◌, ltb,
  leb, ◌==◌, if◌then◌else◌, length, get_elem?, remove_at,
}
use os.Base.Int.{ℤ, pos, negsuc}
use os.Ids.{RecycleAllocator, new_with_start, alloc, dealloc}
use os.Ipc.Table.{insert, lookup, delete}

abbrev pub msg_q_max : ℕ
msg_q_max = 4096

-- The flags of `MsgFlags` and `MsgGetFlags` that the code asks for.
pub record MsgFlags : Type 0 where
  pub msg_noerror : Bool
  pub msg_except : Bool
  pub msg_copy : Bool

pub record MsgGetFlags : Type 0 where
  pub ipc_creat : Bool
  pub ipc_excl : Bool

pub data Errno : Type 0 where
  e_exist e_noent e_nomem e_again e_inval e_nomsg e_2big : Errno

pub data Result {ℓ} (A : Type ℓ) : Type ℓ where
  ok : A → Result A
  err : Errno → Result A

-- `IpcPerm`, less its padding
pub record IpcPerm : Type 0 where
  pub key : ℕ
  pub uid : ℕ
  pub gid : ℕ
  pub cuid : ℕ
  pub cgid : ℕ
  pub mode : ℕ
  pub seq : ℕ

pub record MsqidDs : Type 0 where
  pub msg_perm : IpcPerm
  pub msg_stime : ℕ
  pub msg_rtime : ℕ
  pub msg_ctime : ℕ
  pub msg_cbytes : ℕ
  pub msg_qnum : ℕ
  pub msg_qbytes : ℕ
  pub msg_lspid : ℕ
  pub msg_lrpid : ℕ

pub record Msg : Type 0 where
  pub mtype : ℕ
  pub mtext : List ℕ

abbrev pub get_size : Msg → ℕ
get_size m = length m.mtext

pub record MsgQueue : Type 0 where
  pub msqds : MsqidDs
  pub msgs : List Msg

abbrev pub default_perm : IpcPerm
default_perm = record { key = 0; uid = 0; gid = 0; cuid = 0; cgid = 0; mode = 0; seq = 0 }

abbrev pub default_ds : MsqidDs
default_ds = record {
  msg_perm = default_perm;
  msg_stime = 0;
  msg_rtime = 0;
  msg_ctime = 0;
  msg_cbytes = 0;
  msg_qnum = 0;
  msg_qbytes = 16384;
  msg_lspid = 0;
  msg_lrpid = 0;
}

abbrev pub new_queue : MsgQueue
new_queue = record { msqds = default_ds; msgs = [] }

-- `msgs.iter().map(|msg| msg.mtext.len()).sum()`
unfoldable pub bytes_of : List Msg → ℕ
bytes_of [] = 0
bytes_of (m ∷ ms) = get_size m + bytes_of ms

pub update_msqds : MsgQueue → Bool → ℕ → ℕ → MsgQueue
update_msqds q is_send pid now =
    let counted : MsqidDs = record q.msqds {
      msg_qnum = length q.msgs;
      msg_cbytes = bytes_of q.msgs;
    } in
    record q {
      msqds =
          (if is_send
            then record counted { msg_stime = now; msg_lspid = pid }
            else record counted { msg_rtime = now; msg_lrpid = pid });
    }

unfoldable pub add : MsgQueue → Msg → ℕ → ℕ → Result MsgQueue
unfolding update_msqds
add q msg pid now =
    if ltb q.msqds.msg_qbytes (q.msqds.msg_cbytes + get_size msg)
    then err e_again
    else ok (update_msqds (record q { msgs = q.msgs ++ (msg ∷ []) }) true pid now)

unfoldable pub pop : MsgQueue → ℕ → ℕ → Option Msg × MsgQueue
unfolding update_msqds
pop q pid now = elim q.msgs [
  | [] ↦ (none, q)
  | m ∷ ms ↦ (some m, update_msqds (record q { msgs = ms }) false pid now)
]

unfoldable pub apply_ipc_set : MsgQueue → MsqidDs → ℕ → MsgQueue
apply_ipc_set q new_ds now = record q {
  msqds = record q.msqds {
    msg_perm = record q.msqds.msg_perm {
      uid = new_ds.msg_perm.uid;
      gid = new_ds.msg_perm.gid;
      mode = new_ds.msg_perm.mode;
    };
    msg_qbytes = new_ds.msg_qbytes;
    msg_ctime = now;
  };
}

-- `position` of the messages whose type equals the target, or of those whose type does not.
unfoldable pub position : List Msg → ℕ → Bool → Option ℕ
position [] target except = none
position (m ∷ ms) target except =
    let rest = Option.map (λ i. i + 1) (position ms target except) in
    if (if except then not (m.mtype == target) else m.mtype == target) then some 0 else rest

-- The loop for a negative `msgtyp`, at message `i`, with the best (index, type) so far.
abbrev pub better : ℕ → ℕ → Msg → Option (ℕ × ℕ) → Option (ℕ × ℕ)
better limit i m none = if leb m.mtype limit then some (i, m.mtype) else none
better limit i m (some b) =
    if leb m.mtype limit && ltb m.mtype b.1 then some (i, m.mtype) else some b

unfoldable pub find_least : List Msg → ℕ → ℕ → Option (ℕ × ℕ) → Option (ℕ × ℕ)
find_least [] limit i best = best
find_least (m ∷ ms) limit i best = find_least ms limit (i + 1) (better limit i m best)

-- A negative `msgtyp` is above the least `isize`, so that its negation does not overflow.
unfoldable pub find_msg : MsgQueue → ℤ → MsgFlags → Option ℕ
find_msg q msgtyp msgflg = elim q.msgs [
  | [] ↦ none
  | _ ∷ _ ↦ elim msgtyp [
    | pos n ↦ if n == 0 then some 0 else position q.msgs n msgflg.msg_except
    | negsuc n ↦ Option.map (λ b. b.0) (find_least q.msgs (n + 1) 0 none)
  ]
]

unfoldable pub get : MsgQueue → ℤ → ℕ → MsgFlags → ℕ → ℕ → Result (Msg × MsgQueue)
unfolding find_msg update_msqds
get q msgtyp msgsz msgflg pid now =
    if msgflg.msg_copy then err e_inval else elim (find_msg q msgtyp msgflg) [
      | none ↦ err e_nomsg
      | some idx ↦ elim (get_elem? q.msgs idx) [
        | none ↦ err e_nomsg
        | some msg ↦
            if ltb msgsz (get_size msg) && not msgflg.msg_noerror
            then err e_2big
            else ok (msg, update_msqds (record q { msgs = remove_at q.msgs idx }) false pid now)
      ]
    ]

pub record MsgManager : Type 0 where
  pub id_allocator : RecycleAllocator
  pub queues : List (ℕ × MsgQueue)
  pub key_to_id : List (ℕ × ℕ)

unfoldable pub new : MsgManager
unfolding new_with_start
new = record { id_allocator = new_with_start 1; queues = []; key_to_id = [] }

abbrev pub fresh_queue : ℕ → ℕ → ℕ → ℕ → ℕ → MsgQueue
fresh_queue key mode uid gid now = record {
  msqds = record default_ds {
    msg_perm = record {
      key = key;
      uid = uid;
      gid = gid;
      cuid = uid;
      cgid = gid;
      mode = mode;
      seq = 0;
    };
    msg_ctime = now;
  };
  msgs = [];
}

unfoldable pub create_queue : MsgManager → ℕ → ℕ → ℕ → ℕ → ℕ → Result ℕ × MsgManager
unfolding alloc
create_queue m key mode uid gid now =
    let (id, ids) = alloc m.id_allocator in
    if ltb msg_q_max id then (err e_nomem, record m { id_allocator = ids }) else (
      ok id,
      record {
        id_allocator = ids;
        queues = insert m.queues id (fresh_queue key mode uid gid now);
        key_to_id = insert m.key_to_id key id;
      },
    )

unfoldable pub msgget : MsgManager → ℕ → MsgGetFlags → ℕ → ℕ → ℕ → ℕ → Result ℕ × MsgManager
unfolding create_queue
msgget m key flags mode uid gid now =
    if key == 0 then create_queue m key mode uid gid now else elim (lookup m.key_to_id key) [
      | some id ↦ (if flags.ipc_creat && flags.ipc_excl then (err e_exist, m) else (ok id, m))
      | none ↦ (if flags.ipc_creat then create_queue m key mode uid gid now else (err e_noent, m))
    ]

unfoldable pub get_queue : MsgManager → ℕ → Option MsgQueue
get_queue m id = lookup m.queues id

unfoldable pub remove_queue : MsgManager → ℕ → Option MsgManager
unfolding dealloc
remove_queue m id = elim (lookup m.queues id) [
  | none ↦ some m
  | some q ↦ elim (dealloc m.id_allocator id) [
    | none ↦ none
    | some ids ↦ some (record {
      id_allocator = ids;
      queues = delete m.queues id;
      key_to_id = delete m.key_to_id q.msqds.msg_perm.key;
    })
  ]
]
