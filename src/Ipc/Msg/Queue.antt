-- ===== src/Ipc/Msg/Queue.antt =====
-- The operations on one message queue of os/src/ipc/msg.rs.
use os.Base.{
  ℕ, ◌+◌, ◌≤◌, ◌<◌, ◌≡◌, refl, ◌∙◌, Bool, true, false, ◌&&◌, not, Option, none, some, List, [], ◌∷◌,
  ◌++◌, arith, ltb, if◌then◌else◌, if_cases, length, get_elem?, remove_at, get_elem?-middle,
  remove_at-middle,
}
use os.Base.Int.{ℤ}
use os.Ipc.Msg.{
  e_again, e_inval, e_nomsg, e_2big, Result, ok, err, Msg, MsgQueue, MsgFlags, bytes_of, get_size,
  update_msqds, add, find_msg, get, new_queue,
}
use os.Ipc.Msg.Search.{Chosen, NoneFor, Finds, Found, find_msg-Found}

-- The counters of the descriptor are those of the queue.
pub record IsCounted (q : MsgQueue) : Type 0 where
  pub qnum : q.msqds.msg_qnum ≡ length q.msgs
  pub cbytes : q.msqds.msg_cbytes ≡ bytes_of q.msgs

pub new_queue-IsCounted : IsCounted new_queue
unfolding bytes_of
new_queue-IsCounted = record { qnum = refl; cbytes = refl }

update_msqds-IsCounted :
    (q : MsgQueue) (is_send : Bool) (pid now : ℕ) → IsCounted (update_msqds q is_send pid now)
unfolding update_msqds
update_msqds-IsCounted q true pid now = record { qnum = refl; cbytes = refl }
update_msqds-IsCounted q false pid now = record { qnum = refl; cbytes = refl }

msgs-update_msqds :
    (q : MsgQueue) (is_send : Bool) (pid now : ℕ) → (update_msqds q is_send pid now).msgs ≡ q.msgs
unfolding update_msqds
msgs-update_msqds q is_send pid now = refl

bytes_of-append : (xs : List Msg) (m : Msg) → bytes_of (xs ++ (m ∷ [])) ≡ bytes_of xs + get_size m
unfolding bytes_of
bytes_of-append [] m = omega arith
bytes_of-append (x ∷ xs) m = omega (arith, bytes_of-append xs m)

-- What `add` may answer: it appends the message, within the limit, or is over it.
abbrev pub Adds : MsgQueue → Msg → Result MsgQueue → Type 0
Adds q msg (ok q') =
    (q'.msgs ≡ q.msgs ++ (msg ∷ []))
    × IsCounted q'
    × (bytes_of q.msgs + get_size msg ≤ q.msqds.msg_qbytes)
Adds q msg (err e) = (e ≡ e_again) × (q.msqds.msg_qbytes < bytes_of q.msgs + get_size msg)

-- `add` appends the message and keeps the counters right when the bytes of all messages stay within
-- `msg_qbytes`, and else fails with EAGAIN.
pub add_lem :
    (q : MsgQueue) (msg : Msg) (pid now : ℕ) → IsCounted q → Adds q msg (add q msg pid now)
unfolding add
add_lem q msg pid now v =
    if_cases (Adds q msg) (ltb q.msqds.msg_qbytes (q.msqds.msg_cbytes + get_size msg))
      (λ e. (refl, ground (arith, v.cbytes)))
      (λ e. (
        msgs-update_msqds (record q { msgs = q.msgs ++ (msg ∷ []) }) true pid now,
        update_msqds-IsCounted (record q { msgs = q.msgs ++ (msg ∷ []) }) true pid now,
        ground (arith, v.cbytes),
      ))

-- What `get` may answer for a queue.
pub record Gets (q : MsgQueue) (msgtyp : ℤ) (except : Bool) (msg : Msg) (q' : MsgQueue)
    : Type 0 where
  pub before : List Msg
  pub after : List Msg
  pub had : q.msgs ≡ before ++ (msg ∷ after)
  pub left : q'.msgs ≡ before ++ after
  pub chosen : Chosen msgtyp except before msg after
  pub counted : IsCounted q'

abbrev pub Answers : MsgQueue → ℤ → ℕ → MsgFlags → Result (Msg × MsgQueue) → Type 0
Answers q msgtyp msgsz flags (ok (msg, q')) =
    Gets q msgtyp flags.msg_except msg q'
    × (flags.msg_copy ≡ false)
    × (ltb msgsz (get_size msg) && not flags.msg_noerror ≡ false)
Answers q msgtyp msgsz flags (err e_inval) = flags.msg_copy ≡ true
Answers q msgtyp msgsz flags (err e_nomsg) =
    NoneFor msgtyp flags.msg_except q.msgs × (flags.msg_copy ≡ false)
Answers q msgtyp msgsz flags (err e_2big) =
    (i : ℕ) × (f : Finds msgtyp flags.msg_except q.msgs i) × (msgsz < get_size f.msg)
    × (flags.msg_noerror ≡ false)
    × (flags.msg_copy ≡ false)
Answers q msgtyp msgsz flags (err _) = ⊥

-- `get` fails with EINVAL just when MSG_COPY is asked for; else with ENOMSG just when no message is for
-- the receiver, and else with E2BIG just when the message that `msgtyp` asks for is too long and may
-- not be cut. Otherwise it takes that message out, leaves the others in their order and the
-- counters right. There is no other answer.
pub get_lem :
    (q : MsgQueue) (msgtyp : ℤ) (msgsz : ℕ) (msgflg : MsgFlags) (pid now : ℕ)
    → Answers q msgtyp msgsz msgflg (get q msgtyp msgsz msgflg pid now)
unfolding get
get_lem q msgtyp msgsz msgflg pid now =
    if_cases P msgflg.msg_copy (λ e. e)
      (λ c. searched c (find_msg q msgtyp msgflg) (find_msg-Found q msgtyp msgflg))
  where
    P : Result (Msg × MsgQueue) → Type 0
    P = Answers q msgtyp msgsz msgflg

    pick : Option ℕ → Result (Msg × MsgQueue)
    pick o = elim o [
      | none ↦ err e_nomsg
      | some idx ↦ elim (get_elem? q.msgs idx) [
        | none ↦ err e_nomsg
        | some msg ↦
            if ltb msgsz (get_size msg) && not msgflg.msg_noerror
            then err e_2big
            else ok (msg, update_msqds (record q { msgs = remove_at q.msgs idx }) false pid now)
      ]
    ]

    searched :
        msgflg.msg_copy ≡ false
        → (o : Option ℕ) → Found msgtyp msgflg.msg_except q.msgs o
        → P (pick o)
    searched c none h = (h, c)
    searched c (some i) h =
        let there : get_elem? q.msgs i ≡ some h.msg =
          rw (h.at, h.whole) (get_elem?-middle h.before h.msg h.after) in
        let rest : remove_at q.msgs i ≡ h.before ++ h.after =
          rw (h.at, h.whole) (remove_at-middle h.before h.msg h.after) in
        rw (there, pick)
          (if_cases P (ltb msgsz (get_size h.msg) && not msgflg.msg_noerror)
            (λ e. (i, h, ground arith, ground arith, c))
            (λ e. (
              record {
                before = h.before;
                after = h.after;
                had = h.whole;
                left =
                    msgs-update_msqds (record q { msgs = remove_at q.msgs i }) false pid now ∙ rest;
                chosen = h.chosen;
                counted =
                    update_msqds-IsCounted (record q { msgs = remove_at q.msgs i }) false pid now;
              },
              c,
              e,
            )))
