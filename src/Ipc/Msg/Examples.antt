-- ===== src/Ipc/Msg/Examples.antt =====
-- The theorems on message queues, applied to a table with one queue and a queue with one message.
use os.Base.{◌≡◌, inl, inr, true, false, none, some, [], ◌∷◌}
use os.Base.Int.{negsuc}
use os.Ids.{alloc, new_with_start}
use os.Ipc.Msg.{
  Msg, MsgQueue, MsgFlags, MsgGetFlags, MsgManager, new_queue, get, new, fresh_queue, msgget,
  create_queue, get_queue, remove_queue, ok,
}
use os.Ipc.Table.{insert, delete, lookup}
use os.Ipc.Msg.Queue.{Answers, get_lem}
use os.Ipc.Msg.Manager.{IsValid, Got, new-IsValid, msgget_lem, remove_queue-IsValid}

abbrev hello : Msg
hello = record { mtype = 3; mtext = 104 ∷ 105 ∷ [] }

abbrev plain : MsgFlags
plain = record { msg_noerror = false; msg_except = false; msg_copy = false }

abbrev creating : MsgGetFlags
creating = record { ipc_creat = true; ipc_excl = false }

abbrev with_hello : MsgQueue
with_hello = record new_queue { msgs = hello ∷ [] }

get_lem_example : Answers with_hello (negsuc 4) 10 plain (get with_hello (negsuc 4) 10 plain 1 100)
get_lem_example = get_lem with_hello (negsuc 4) 10 plain 1 100

msgget_lem_example : Got [] new 42 creating (msgget new 42 creating 0 0 0 100)
msgget_lem_example = msgget_lem [] new 42 creating 0 0 0 100 new-IsValid

-- The table after the first `msgget` for key 42.
abbrev one_queue : MsgManager
one_queue = record {
  id_allocator = record { current = 2; recycled = [] };
  queues = (1, fresh_queue 42 0 0 0 100) ∷ [];
  key_to_id = (42, 1) ∷ [];
}

one_queue-IsValid : IsValid [] one_queue
unfolding msgget create_queue alloc new_with_start new insert delete lookup
one_queue-IsValid =
    let got : Got [] new 42 creating (ok 1, one_queue) =
      msgget_lem [] new 42 creating 0 0 0 100 new-IsValid in
    elim got [ inl (_, made) ↦ made.valid | inr (ne, found, key, flags, same) ↦ absurd cc ]

remove_queue-IsValid_example :
    (m' : MsgManager) × (remove_queue one_queue 1 ≡ some m')
    × IsValid [] m'
    × (get_queue m' 1 ≡ none)
remove_queue-IsValid_example = remove_queue-IsValid [] one_queue 1 one_queue-IsValid
