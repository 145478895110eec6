-- ===== src/Sync/RwLock/Examples.antt =====
-- The theorems on the read-write lock, applied to runs of two threads.
use os.Base.{◌≡◌, ◌≢◌, refl, [], ◌∷◌, arith, replicate}
use os.Base.Int.{pos, negsuc}
use os.Sync.RwLock.{Pc, Move, System, pick, Reach, begin, next}
use os.Base.Sums.{total}
use os.Sync.RwLock.Safety.{Run, writer_excludes, queued_writer_gets_in}

-- Thread 0 asks for the lock, and gets it; then thread 1 asks for it.
abbrev asked : System
asked = record {
  lock = record { state = pos 0; asked_write = pos 1 };
  pcs = Pc.write_loop ∷ Pc.idle ∷ [];
}

abbrev taken : System
taken = record {
  lock = record { state = negsuc 0; asked_write = pos 0 };
  pcs = Pc.writing ∷ Pc.idle ∷ [];
}

abbrev queued : System
queued = record {
  lock = record { state = negsuc 0; asked_write = pos 1 };
  pcs = Pc.writing ∷ Pc.write_loop ∷ [];
}

asked-Reach : Reach 2 asked
unfolding replicate
asked-Reach = next begin (pick 0 refl Move.write)

taken-Reach : Reach 2 taken
taken-Reach =
    next
      (next
        (next (next asked-Reach (pick 0 refl Move.load_write)) (pick 0 refl (Move.see_free refl)))
        (pick 0 refl (Move.take_won refl)))
      (pick 0 refl Move.unask)

queued-Reach : Reach 2 queued
queued-Reach = next taken-Reach (pick 1 refl Move.write)

writer_excludes_example : (Pc.idle ≢ Pc.writing) × (Pc.idle ≢ Pc.reading)
writer_excludes_example = writer_excludes 0 1 taken-Reach (omega arith) refl refl

queued_writer_gets_in_example :
    (t : System) × Run 0 asked t × Reach 2 t × (t.pcs ≡ Pc.writing ∷ Pc.idle ∷ [])
unfolding total
queued_writer_gets_in_example = queued_writer_gets_in {s = asked} 0 asked-Reach refl refl refl
