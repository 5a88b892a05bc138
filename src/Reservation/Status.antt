-- ===== src/Reservation/Status.antt =====
-- src/privacy/reservation.js: the reservation statuses and the tables of their transitions.
use clairveiljs.Prelude.{
  ℕ, String, Bool, true, false, ◌&&◌, ◌||◌, Option, none, some, List, [], ◌∷◌, any, ◌==◌,
  if◌then◌else◌, ◌≡◌, ◌↔◌, arith,
}
use clairveiljs.Text.{codes, codes_eq}

pub data Status : Type 0 where
  discovered available reserved proving proof_ready submitted : Status
  confirmed_spent failed replan_required released unknown manual_review : Status

-- The text of a status in a persisted record.
abbrev pub status_text : Status → String
status_text discovered = "Discovered"
status_text available = "Available"
status_text reserved = "Reserved"
status_text proving = "Proving"
status_text proof_ready = "ProofReady"
status_text submitted = "Submitted"
status_text confirmed_spent = "ConfirmedSpent"
status_text failed = "Failed"
status_text replan_required = "ReplanRequired"
status_text released = "Released"
status_text unknown = "Unknown"
status_text manual_review = "ManualReview"

abbrev pub status_index : Status → ℕ
status_index discovered = 0
status_index available = 1
status_index reserved = 2
status_index proving = 3
status_index proof_ready = 4
status_index submitted = 5
status_index confirmed_spent = 6
status_index failed = 7
status_index replan_required = 8
status_index released = 9
status_index unknown = 10
status_index manual_review = 11

-- `===` of two statuses.
abbrev pub same_status : Status → Status → Bool
same_status s t = status_index s == status_index t

abbrev pub all_statuses : List Status
all_statuses =
    discovered ∷ available ∷ reserved ∷ proving ∷ proof_ready ∷ submitted ∷ confirmed_spent ∷ failed
    ∷ replan_required ∷ released ∷ unknown ∷ manual_review ∷ []

abbrev pub one_of : Status → List Status → Bool
one_of s ts = any (same_status s) ts

abbrev pub active_reservation_statuses : List Status
active_reservation_statuses =
    reserved ∷ proving ∷ proof_ready ∷ submitted ∷ unknown ∷ manual_review ∷ []

unfoldable pub is_active_reservation_status : Status → Bool
is_active_reservation_status s = one_of s active_reservation_statuses

abbrev pub allowed_reservation_transitions : List (Status × Status)
allowed_reservation_transitions =
    (discovered, available)
    ∷ (discovered, failed)
    ∷ (available, reserved)
    ∷ (reserved, proving)
    ∷ (reserved, released)
    ∷ (reserved, replan_required)
    ∷ (reserved, manual_review)
    ∷ (proving, proof_ready)
    ∷ (proving, reserved)
    ∷ (proving, replan_required)
    ∷ (proving, manual_review)
    ∷ (proof_ready, submitted)
    ∷ (proof_ready, unknown)
    ∷ (proof_ready, confirmed_spent)
    ∷ (proof_ready, replan_required)
    ∷ (proof_ready, manual_review)
    ∷ (submitted, confirmed_spent)
    ∷ (submitted, failed)
    ∷ (submitted, unknown)
    ∷ (submitted, replan_required)
    ∷ (submitted, manual_review)
    ∷ (unknown, confirmed_spent)
    ∷ (unknown, failed)
    ∷ (unknown, replan_required)
    ∷ (unknown, manual_review)
    ∷ (manual_review, confirmed_spent)
    ∷ (manual_review, failed)
    ∷ (manual_review, released)
    ∷ (manual_review, replan_required)
    ∷ (failed, replan_required)
    ∷ (released, available)
    ∷ (replan_required, reserved)
    ∷ (replan_required, failed)
    ∷ (replan_required, manual_review)
    ∷ []

abbrev pub lease_required_transitions : List (Status × Status)
lease_required_transitions =
    (reserved, proving)
    ∷ (proving, reserved)
    ∷ (proving, proof_ready)
    ∷ (proving, replan_required)
    ∷ (proving, manual_review)
    ∷ (proof_ready, submitted)
    ∷ (proof_ready, unknown)
    ∷ (proof_ready, replan_required)
    ∷ (proof_ready, manual_review)
    ∷ []

abbrev pub expired_lease_recovery_transitions : List (Status × Status)
expired_lease_recovery_transitions =
    (proving, replan_required) ∷ (proving, manual_review) ∷ (proof_ready, manual_review) ∷ []

abbrev pub transition_in : Status → Status → List (Status × Status) → Bool
transition_in from to [] = false
transition_in from to ((a, b) ∷ rest) =
    (same_status from a && same_status to b) || transition_in from to rest

unfoldable pub can_transition_reservation : Status → Status → Bool
can_transition_reservation from to = transition_in from to allowed_reservation_transitions

unfoldable pub can_recover_reservation_after_lease_expiry : Status → Status → Bool
can_recover_reservation_after_lease_expiry from to =
    transition_in from to expired_lease_recovery_transitions

unfoldable pub requires_reservation_lease_token : Status → Status → Bool
requires_reservation_lease_token from to = transition_in from to lease_required_transitions

abbrev pub status_named : List ℕ → List Status → Option Status
status_named text [] = none
status_named text (s ∷ rest) =
    if codes_eq text (codes (status_text s)) then some s else status_named text rest

pub same_status_iff : (s t : Status) → (same_status s t ≡ true) ↔ (s ≡ t)
same_status_iff s t = ground arith
