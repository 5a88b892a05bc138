-- ===== src/Reservation/Step/Prepared.antt =====
-- What the preparation of a patch leaves alone.

use clairveiljs.Prelude.{
  ℕ, String, Bool, true, false, not, ◌||◌, List, [], ◌∷◌, str_eq, str_eq_iff, ◌≡◌, refl, arith, any,
  all, Bool-cases, inl, inr,
}
use clairveiljs.Json.{Value, Fields, get, has, put, delete, text_if_truthy, is_object}
use clairveiljs.Json.Laws.{has-put, has-delete_ne, get-put, get-delete_ne}
use clairveiljs.Reservation.Status.{Status, proof_ready}
use clairveiljs.Reservation.Record.{Reservation}
use clairveiljs.Reservation.Lease.{
  is_empty, reservation_claim_token_hash_field, clears_lease_for_status_transition,
}
use clairveiljs.Reservation.Patching.Guards.{
  Managed, patch_has_any_own_property, submitted_tx_hash_aliases,
}
use clairveiljs.Reservation.Patching.Apply.{
  delete_all, with_stored_identity, patch_with_stable_write_once_identity_representation,
  patch_with_preserved_reservation_claim_hash, patch_with_persisted_reconciliation_evidence,
  patch_with_cleared_lease, reconciliation_metadata_fields,
}
use clairveiljs.Reservation.Store.Update.{prepared_patch}
use clairveiljs.Reservation.Store.Operation.{Transition}

-- The keys that the preparation of a patch may write or delete.
abbrev pub prepared_keys : List String
prepared_keys =
    "metadata" ∷ "lease_owner" ∷ "lease_token" ∷ "lease_until" ∷ "last_heartbeat_at"
    ∷ "broadcast_in_flight" ∷ "submitted_tx_hash" ∷ "submittedTxHash" ∷ "txHashSubmitted"
    ∷ "tx_bytes_hash" ∷ "txBytesHash" ∷ "sign_doc_hash" ∷ "signDocHash" ∷ []

-- Two objects agree on a key: both lack it, or both hold the same value.
abbrev pub Agree : String → Fields → Fields → Type 0
Agree j fs gs = (has fs j ≡ has gs j) × (get fs j ≡ get gs j)

-- None of the prepared keys is `j`.
abbrev pub Untouched : String → Type 0
Untouched j = any (λ k. str_eq k j) prepared_keys ≡ false

-- A key that differs from all of a list differs from each of them.
differs_each :
    (ks : List String) (k j : String)
    → any (str_eq k) ks ≡ true
    → any (λ x. str_eq x j) ks ≡ false
    → str_eq k j ≡ false
differs_each [] k j m h = cc
differs_each (x ∷ ks) k j m h = ground (arith, str_eq_iff k x, differs_each ks k j)

differs_all :
    (ks as' : List String) (j : String)
    → all (λ a. any (str_eq a) ks) as' ≡ true
    → any (λ x. str_eq x j) ks ≡ false
    → any (λ x. str_eq x j) as' ≡ false
differs_all ks [] j m h = refl
differs_all ks (a ∷ as') j m h = ground (arith, differs_each ks a j, differs_all ks as' j)

Agree-put :
    (k j : String) (v : Value) (fs gs : Fields)
    → str_eq k j ≡ false
    → Agree j fs gs
    → Agree j (put k v fs) gs
Agree-put k j v fs gs h a = ground (arith, has-put k j v fs, get-put k j v fs)

Agree-delete_all :
    (ks : List String) (j : String) (fs gs : Fields)
    → any (λ k. str_eq k j) ks ≡ false
    → Agree j fs gs
    → Agree j (delete_all ks fs) gs
Agree-delete_all [] j fs gs h a = a
Agree-delete_all (k ∷ ks) j fs gs h a =
    Agree-delete_all ks j (delete k fs) gs (ground arith)
      (ground (arith, has-delete_ne k j fs, get-delete_ne k j fs))

Agree-stored :
    (existing : List ℕ) (canonical : String) (aliases : List String) (j : String) (fs gs : Fields)
    → str_eq canonical j ≡ false
    → any (λ k. str_eq k j) aliases ≡ false
    → Agree j fs gs
    → Agree j (with_stored_identity existing canonical aliases fs) gs
unfolding with_stored_identity
Agree-stored existing canonical aliases j fs gs h g a = ground (
  arith,
  Agree-put canonical j (Value.str existing) (delete_all aliases fs) gs h
      (Agree-delete_all aliases j fs gs g a),
)

Agree-stable :
    (current : Reservation) (patch : Fields) (j : String)
    → Untouched j
    → Agree j (patch_with_stable_write_once_identity_representation current patch) patch
unfolding patch_with_stable_write_once_identity_representation
Agree-stable current patch j h =
    Agree-stored _ _ _ j _ patch (differs_each prepared_keys _ j refl h)
      (differs_all prepared_keys ("sign_doc_hash" ∷ "signDocHash" ∷ []) j refl h)
      (Agree-stored _ _ _ j _ patch (differs_each prepared_keys _ j refl h)
        (differs_all prepared_keys ("tx_bytes_hash" ∷ "txBytesHash" ∷ []) j refl h)
        (Agree-stored _ _ _ j _ patch (differs_each prepared_keys _ j refl h)
          (differs_all prepared_keys submitted_tx_hash_aliases j refl h) (refl, refl)))

Agree-claim :
    (current : Reservation) (fs gs : Fields) (j : String)
    → str_eq "metadata" j ≡ false
    → Agree j fs gs
    → Agree j (patch_with_preserved_reservation_claim_hash current fs) gs
unfolding patch_with_preserved_reservation_claim_hash
Agree-claim current fs gs j h a = elim (Bool-cases (kept current fs)) [
  | inl keep ↦ rw keep a
  | inr put' ↦ rw put' (Agree-put "metadata" j _ fs gs h a)
]
  where
    kept : Reservation → Fields → Bool
    kept current fs =
        is_empty (text_if_truthy (get current.metadata reservation_claim_token_hash_field))
        || not (is_object (get fs "metadata"))

Agree-reconciliation :
    (fs gs : Fields) (j : String)
    → str_eq "metadata" j ≡ false
    → Agree j fs gs
    → Agree j (patch_with_persisted_reconciliation_evidence fs) gs
unfolding patch_with_persisted_reconciliation_evidence
Agree-reconciliation fs gs j h a =
    elim (Bool-cases (not (patch_has_any_own_property fs reconciliation_metadata_fields))) [
      | inl keep ↦ rw keep a
      | inr put' ↦ rw put' (Agree-put "metadata" j _ fs gs h a)
    ]

Agree-cleared :
    (to : Status) (fs gs : Fields) (j : String)
    → Untouched j
    → Agree j fs gs
    → Agree j (patch_with_cleared_lease to fs) gs
unfolding patch_with_cleared_lease
Agree-cleared to fs gs j h a = elim (Bool-cases (clears_lease_for_status_transition to)) [
  | inl clear ↦ rw clear (
      Agree-put _ j _ _ gs (differs_each prepared_keys _ j refl h) (
        Agree-put _ j _ _ gs (differs_each prepared_keys _ j refl h) (
          Agree-put _ j _ _ gs (differs_each prepared_keys _ j refl h) (
            Agree-put _ j _ _ gs (differs_each prepared_keys _ j refl h)
              (Agree-put _ j _ _ gs (differs_each prepared_keys _ j refl h) a)))))
  | inr keep ↦ rw keep a
]

-- The preparation leaves every other key as the patch has it.
pub Agree-prepared :
    (current : Reservation) (t : Transition) (m : Managed) (j : String)
    → Untouched j
    → Agree j (prepared_patch current t m) t.patch.fields
unfolding prepared_patch
Agree-prepared current t m j h = elim (Bool-cases m.relay_evidence) [
  | inl relay ↦ rw relay (after _ (refl, refl))
  | inr other ↦ rw other (after _ (Agree-stable current t.patch.fields j h))
]
  where
    after :
        (fs : Fields)
        → Agree j fs t.patch.fields
        → Agree j
            (patch_with_cleared_lease t.to (
              patch_with_persisted_reconciliation_evidence
                (patch_with_preserved_reservation_claim_hash current fs)))
            t.patch.fields
    after fs a = Agree-cleared t.to _ _ j h (
        Agree-reconciliation _ _ j (differs_each prepared_keys "metadata" j refl h)
          (Agree-claim current fs _ j (differs_each prepared_keys "metadata" j refl h) a))

not_cleared :
    (fs : Fields) (to : Status)
    → clears_lease_for_status_transition to ≡ false
    → patch_with_cleared_lease to fs ≡ fs
unfolding patch_with_cleared_lease
not_cleared fs to e = rw e refl

-- In place, the preparation leaves the mark of a broadcast as the patch has it.
pub Agree-in_place :
    (current : Reservation) (t : Transition) (m : Managed)
    → t.to ≡ proof_ready
    → Agree "broadcast_in_flight" (prepared_patch current t m) t.patch.fields
unfolding prepared_patch patch_with_stable_write_once_identity_representation
    clears_lease_for_status_transition
Agree-in_place current t m to = elim (Bool-cases m.relay_evidence) [
  | inl relay ↦ rw relay (after _ (refl, refl))
  | inr other ↦ rw other (
      after _ (
        Agree-stored _ _ _ "broadcast_in_flight" _ t.patch.fields refl refl (
          Agree-stored _ _ _ "broadcast_in_flight" _ t.patch.fields refl refl
            (Agree-stored _ _ _ "broadcast_in_flight" _ t.patch.fields refl refl (refl, refl)))))
]
  where
    kept : (fs : Fields) (to : Status) → to ≡ proof_ready → patch_with_cleared_lease to fs ≡ fs
    kept fs to e = not_cleared fs to (rw e refl)

    after :
        (fs : Fields)
        → Agree "broadcast_in_flight" fs t.patch.fields
        → Agree "broadcast_in_flight"
            (patch_with_cleared_lease t.to (
              patch_with_persisted_reconciliation_evidence
                (patch_with_preserved_reservation_claim_hash current fs)))
            t.patch.fields
    after fs a = rw (kept _ t.to to) (
        Agree-reconciliation _ _ "broadcast_in_flight" refl
          (Agree-claim current fs _ "broadcast_in_flight" refl a))
