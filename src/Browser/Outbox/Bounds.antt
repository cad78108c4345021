-- ===== src/Browser/Outbox/Bounds.antt =====
-- What `save` of packages/browser/src/outbox.ts retains.
use mathlib.Core.List.Perm
use spectro.Prelude.{ℕ, ◌+◌, ◌≤◌, List, [], ◌∷◌, ◌++◌, length, Perm}
use spectro.Protocol.Event.{ByteLength}
use spectro.Browser.Outbox.{StoredEvent, Limits}

abbrev pub total_bytes : List StoredEvent → ℕ
total_bytes [] = 0
total_bytes (r ∷ rs) = r.bytes + total_bytes rs

module _ (limits : Limits) (bytes : ByteLength) where
  -- What is retained, with the records for which there was no room, is what was given.
  abbrev Retains : List StoredEvent → List StoredEvent → List StoredEvent → Type 0
  Retains given before after =
      (length after ≤ limits.max_events)
      × (total_bytes after ≤ limits.max_bytes)
      × ((left : List StoredEvent) × Perm (after ++ left) (before ++ given))
