-- ===== src/Reservation/Store/Reach.antt =====
-- src/privacy/reservation.js, `MemoryReservationStore`: the states that its calls lead to, one after another.
use clairveiljs.Prelude.{ℕ, Bool, true, List, [], All, ok, ◌≡◌}
use clairveiljs.Json.{Fields}
use clairveiljs.Reservation.Record.{Reservation}
use clairveiljs.Reservation.Platform.{Platform}
use clairveiljs.Reservation.Store.Conflict.{assert_state_from}
use clairveiljs.Reservation.Store.Operation.{Transition}
use clairveiljs.Reservation.Store.Create.{create_reservation_batch}
use clairveiljs.Reservation.Store.Update.{compare_and_set_batch}
use clairveiljs.Reservation.Store.Release.{release_reservation_batch}
use clairveiljs.Reservation.Store.WellFormed.{IsWellFormed}
use clairveiljs.Reservation.Store.Fresh.{create_reservation_batch-IsWellFormed}
use clairveiljs.Reservation.Store.Spent.{spends_locked, compare_and_set_batch-IsWellFormed}
use clairveiljs.Reservation.Store.Free.{release_reservation_batch-IsWellFormed}
use clairveiljs.Reservation.Store.Reload.{assert_state_from-IsWellFormed}

-- The state is reached from the empty store by calls that return, at any times, by any platforms. A call
-- that throws leaves the state.
pub data IsReached : List Reservation → Type 0 where
  empty : IsReached []
  created :
      {stored next new : List Reservation} (now : List ℕ) (allow : Bool) (inputs : List Fields)
      → IsReached stored
      → create_reservation_batch now allow stored inputs ≡ ok (next, new)
      → IsReached next
  changed :
      {stored next updated : List Reservation} (p : Platform) (now : ℕ) (ts : List Transition)
      → IsReached stored
      → All (λ t. spends_locked t ≡ true) ts
      → compare_and_set_batch p now stored ts ≡ ok (next, updated)
      → IsReached next
  freed :
      {stored next updated : List Reservation} (p : Platform) (now : ℕ) (ids : List (List ℕ))
      (owner : List ℕ)
      → IsReached stored
      → release_reservation_batch p now stored ids owner ≡ ok (next, updated)
      → IsReached next

IsReached-IsWellFormed : {stored : List Reservation} → IsReached stored → IsWellFormed stored
IsReached-IsWellFormed empty = record {
  unique = record { distinct = tt; locked_once = tt };
  unspent = tt;
  named = tt;
}
IsReached-IsWellFormed (created {stored} now allow inputs r h) =
    create_reservation_batch-IsWellFormed now allow stored inputs (IsReached-IsWellFormed r) h
IsReached-IsWellFormed (changed {stored} p now ts r q h) =
    compare_and_set_batch-IsWellFormed p now stored ts (IsReached-IsWellFormed r) q h
IsReached-IsWellFormed (freed {stored} p now ids owner r h) =
    (release_reservation_batch-IsWellFormed p now stored ids owner (IsReached-IsWellFormed r) h).0

-- Each state reached from the empty store by creations, releases and batches that quarantine no note
-- without a lock is well-formed, and the scan of a stored list accepts it when it is loaded again.
pub IsReached-reloads :
    (stored : List Reservation)
    → IsReached stored
    → IsWellFormed stored × (assert_state_from [] [] [] stored ≡ ok tt)
IsReached-reloads stored r =
    let w = IsReached-IsWellFormed r in (w, (assert_state_from-IsWellFormed stored w.named).1 w)
