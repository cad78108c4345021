-- ===== src/Examples/Queue.antt =====
-- The theorems on the event queue, at concrete queues.
use spectro.Prelude.{List, ◌≡◌, refl, some, [], ◌∷◌, ◌++◌, Perm, arith, true, ◌⊎◌}
use mathlib.Core.List.{Nodup-nil}
use spectro.Protocol.Event.{immediate, batch}
use spectro.Core.Queue.Defs.{EventQueue, empty}
use spectro.Core.Queue.Evict.{IsValid, contents}
use spectro.Core.Queue.Enqueue.{EnqueueResult, enqueue, restore}
use spectro.Core.Queue.Enqueue.Laws.{Outcome, enqueue-Outcome}
use spectro.Core.Queue.Enqueue.Restore.{Restores, enqueue_returns, restore_returns}
use spectro.Core.Queue.Drain.{drain}
use spectro.Core.Queue.Drain.Laws.{drain_keeps}
use spectro.Core.Queue.Prepend.{PrependResult, prepend}
use spectro.Core.Queue.Prepend.Laws.{prepend_oversized}
use spectro.Examples.Samples.{bytes, huge, queued_click, queued_crash, two_entries}

two_entries-IsValid : IsValid bytes two_entries
two_entries-IsValid = record {
  counted = refl;
  sized = (refl, (refl, tt));
  few = omega arith;
  small = omega arith;
}

empty-IsValid : IsValid huge empty
empty-IsValid = record { counted = refl; sized = tt; few = omega arith; small = omega arith }

enqueue-Outcome_example :
    Outcome bytes queued_crash two_entries (enqueue bytes queued_crash two_entries)
enqueue-Outcome_example = enqueue-Outcome bytes queued_crash two_entries two_entries-IsValid

enqueue_returns_example :
    (result : EnqueueResult) × ((enqueue bytes queued_crash two_entries).0 ≡ some result)
    × ((queued_crash.priority ≡ batch) ⊎ (result.accepted ≡ true))
enqueue_returns_example =
    enqueue_returns bytes queued_crash two_entries two_entries-IsValid (omega arith)

restore_returns_example : Restores bytes (restore bytes (queued_click ∷ queued_crash ∷ []) empty) 2
restore_returns_example =
    restore_returns bytes (queued_click ∷ queued_crash ∷ []) empty
      (record { counted = refl; sized = tt; few = omega arith; small = omega arith }) Nodup-nil
      (omega arith, (omega arith, tt))

drain_keeps_example :
    IsValid bytes (drain bytes 100 1000 (some immediate) 7000 two_entries).1
    × Perm
        ((drain bytes 100 1000 (some immediate) 7000 two_entries).0
          ++ contents (drain bytes 100 1000 (some immediate) 7000 two_entries).1.events)
        (contents two_entries.events)
drain_keeps_example =
    drain_keeps bytes 100 1000 (some immediate) 7000 two_entries two_entries-IsValid

prepend_oversized_example :
    (q' : EventQueue) × (result : PrependResult) × (prepend huge (queued_click ∷ []) empty
      ≡ some (q', result))
    × (q'.events ≡ [])
    × (result.dropped ≡ 2)
prepend_oversized_example = prepend_oversized huge queued_click empty empty-IsValid (omega arith)
