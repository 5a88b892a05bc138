-- ===== src/Reservation/Lease.antt =====
-- src/privacy/reservation.js: who may act on a reservation under its worker lease.
use clairveiljs.Prelude.{
  ℕ, String, Bool, true, false, not, ◌&&◌, ◌||◌, Option, none, some, List, [], ◌∷◌, ◌++◌, any,
  str_eq, leb, ltb, if◌then◌else◌, Result, ok, err, ◌>>◌, assert, reject,
}
use clairveiljs.Text.{codes, codes_eq}
use clairveiljs.Json.{Fields, get, has, keys, text_if_truthy}
use clairveiljs.Reservation.Status.{
  Status, reserved, proving, proof_ready, same_status, requires_reservation_lease_token,
  can_recover_reservation_after_lease_expiry,
}
use clairveiljs.Reservation.Record.{Reservation}
use clairveiljs.Reservation.Normalize.{text_from}
use clairveiljs.Reservation.Platform.{Platform}

abbrev pub reservation_claim_token_hash_field : String
reservation_claim_token_hash_field = "reservation_claim_token_hash"

unfoldable pub patch_lease_token : Fields → List ℕ
patch_lease_token patch = text_from patch ("lease_token" ∷ "leaseToken" ∷ [])

unfoldable pub patch_lease_owner : Fields → List ℕ
patch_lease_owner patch = text_from patch ("lease_owner" ∷ "leaseOwner" ∷ [])

unfoldable pub patch_lease_until : Fields → List ℕ
patch_lease_until patch = text_from patch ("lease_until" ∷ "leaseUntil" ∷ [])

abbrev pub ms_or_zero : Option ℕ → ℕ
ms_or_zero none = 0
ms_or_zero (some ms) = ms

abbrev pub is_finite : Option ℕ → Bool
is_finite none = false
is_finite (some ms) = true

abbrev pub is_empty : List ℕ → Bool
is_empty [] = true
is_empty (c ∷ cs) = false

unfoldable pub lease_expiration_ms : Platform → Reservation → ℕ
lease_expiration_ms p r = ms_or_zero (p.parse_date r.lease_until)

unfoldable pub reservation_claim_token_hash : Platform → List ℕ → List ℕ
reservation_claim_token_hash p token =
    p.sha256_hex (codes "clairveil-reservation-claim-v1" ++ 0 ∷ token)

unfoldable pub assert_current_lease_token :
    Platform → Reservation → List ℕ → List ℕ → ℕ → Result (Unit {0})
assert_current_lease_token p current token owner now = do
  reject (is_empty token) "lease token is required"
  reject (is_empty current.lease_token || not (codes_eq token current.lease_token))
      "reservation lease token mismatch"
  reject (is_empty owner) "lease owner is required"
  reject (is_empty current.lease_owner || not (codes_eq owner current.lease_owner))
      "reservation lease owner mismatch"
  reject (leb (lease_expiration_ms p current) now) "reservation lease expired"

-- The branch of `assertLeaseTransitionAllowed` by which a worker claims a reservation.
unfoldable pub assert_claim : Platform → Reservation → Fields → ℕ → Result (Unit {0})
assert_claim p current patch now = do
  let token = patch_lease_token patch
  let until = p.parse_date (patch_lease_until patch)
  reject (is_empty token || is_empty (patch_lease_owner patch) || not (is_finite until))
      "a future lease owner, token, and expiry are required to claim the reservation"
  let expected_claim_hash = text_if_truthy (get current.metadata reservation_claim_token_hash_field)
  reject (is_empty expected_claim_hash)
      "reservation claim token is not bound; release and reserve the note again"
  assert (codes_eq (reservation_claim_token_hash p token) expected_claim_hash)
      "reservation claim token mismatch"
  reject (leb (ms_or_zero until) now) "reservation lease expired"

unfoldable pub can_apply_expired_lease_recovery : Platform → Reservation → Status → ℕ → Bool
can_apply_expired_lease_recovery p current to now =
    can_recover_reservation_after_lease_expiry current.status to
    && ltb 0 (lease_expiration_ms p current)
    && leb (lease_expiration_ms p current) now

-- The `catch` that names the transition in the message of a missing token.
abbrev name_transition : Result (Unit {0}) → Result (Unit {0})
name_transition (ok u) = ok u
name_transition (err e) =
    if str_eq e "lease token is required"
    then err "lease token is required for reservation transition"
    else err e

unfoldable pub assert_lease_transition_allowed :
    Platform → Reservation → Status → Fields → ℕ → Result (Unit {0})
assert_lease_transition_allowed p current to patch now =
    if not (requires_reservation_lease_token current.status to)
    then ok tt
    else if same_status current.status reserved
        && same_status to proving
        && is_empty current.lease_token
    then assert_claim p current patch now
    else if can_apply_expired_lease_recovery p current to now
    then ok tt
    else name_transition (
        assert_current_lease_token p current (patch_lease_token patch) (patch_lease_owner patch)
          now)

unfoldable pub is_lease_renewal_patch : Reservation → Status → Fields → Bool
is_lease_renewal_patch current to patch =
    same_status current.status to
    && any (has patch) (
        "lease_owner" ∷ "leaseOwner" ∷ "lease_token" ∷ "leaseToken" ∷ "lease_until" ∷ "leaseUntil"
        ∷ "last_heartbeat_at" ∷ "lastHeartbeatAt" ∷ [])

unfoldable pub assert_store_lease_mutation_allowed :
    Platform → Reservation → Status → Fields → ℕ → Result (Unit {0})
assert_store_lease_mutation_allowed p current to patch now =
    if requires_reservation_lease_token current.status to
    then if can_apply_expired_lease_recovery p current to now
      then ok tt
      else assert_lease_transition_allowed p current to patch now
    else if is_lease_renewal_patch current to patch
    then assert_current_lease_token p current (patch_lease_token patch) (patch_lease_owner patch)
        now
    else ok tt

abbrev same_status_lease_patch_fields : List String
same_status_lease_patch_fields =
    "lease_owner" ∷ "leaseOwner" ∷ "lease_token" ∷ "leaseToken" ∷ "lease_until" ∷ "leaseUntil"
    ∷ "last_heartbeat_at" ∷ "lastHeartbeatAt" ∷ "updated_at" ∷ "updatedAt" ∷ []

abbrev pub name_in : List String → String → Bool
name_in names k = any (str_eq k) names

unfoldable pub assert_same_status_lease_renewal_patch :
    Platform → Reservation → Fields → ℕ → Result (Unit {0})
assert_same_status_lease_renewal_patch p current patch now = do
  let ks = keys patch
  reject
      (not (any (name_in same_status_lease_patch_fields) ks)
        || any (λ k. not (name_in same_status_lease_patch_fields k)) ks)
      "same-status reservation mutations are limited to lease renewal fields"
  let lease_until = p.parse_date (patch_lease_until patch)
  reject (not (is_finite lease_until) || leb (ms_or_zero lease_until) now)
      "same-status lease renewal requires a future lease_until"
  reject (ltb (ms_or_zero lease_until) (lease_expiration_ms p current))
      "same-status lease renewal cannot shorten an existing lease"
  assert_current_lease_token p current (patch_lease_token patch) (patch_lease_owner patch) now

-- A worker keeps its lease while it is `Proving` or `ProofReady`.
unfoldable pub clears_lease_for_status_transition : Status → Bool
clears_lease_for_status_transition to =
    not (same_status to proving) && not (same_status to proof_ready)
