-- ===== src/Notes/Found.antt =====
-- src/core/note.js: notes that a scan found, and which of them are known to be unspent.
pub mod Evidence
use clairveiljs.Prelude.{
  ℕ, zero, suc, ◌+◌, ◌-◌, ◌/◌, ◌%◌, String, Bool, true, false, ◌&&◌, ◌||◌, not, List, [], ◌∷◌, ◌++◌,
  any, all, map, ltb, Option, none, some, Result, ok, err, ◌>>=◌, if◌then◌else◌,
}
use clairveiljs.Text.{codes, codes_eq, trim, to_lower_case}
use clairveiljs.Crypto.Primitives.{Primitives}
use clairveiljs.Crypto.Bytes.{canonical_field_bytes}
use clairveiljs.Wire.Note.{NoteV1, compute_note_nullifier_v1}

-- `hexFromBytes`
unfoldable pub hex_digit : ℕ → ℕ
hex_digit n = if ltb n 10 then b'0' + n else b'a' - 10 + n

unfoldable pub hex_from_bytes : List ℕ → List ℕ
hex_from_bytes [] = []
hex_from_bytes (b ∷ bs) = hex_digit (b / 16) ∷ hex_digit (b % 16) ∷ hex_from_bytes bs

unfoldable pub canonical_field_hex : ℕ → List ℕ
canonical_field_hex value = hex_from_bytes (canonical_field_bytes value)

unfoldable pub compute_note_nullifier_hex : Primitives → NoteV1 → Result (List ℕ)
compute_note_nullifier_hex c note = do
  nullifier ← compute_note_nullifier_v1 c note
  ok (canonical_field_hex nullifier)

-- What a scan hands over. A status is asked for under three names, and `spent` under four; the lists
-- hold the values of the names that the object has, `none` of a flag being any value but a Boolean.
pub record ScannedNote : Type 0 where
  pub note : NoteV1
  pub nullifier : Option (List ℕ)
  pub nullifier_statuses : List (List ℕ)
  pub spent_flags : List (Option Bool)
  pub tx_hash : List ℕ
  pub height : ℕ
  pub sequence : ℕ

pub data NullifierStatus : Type 0 where
  spent : NullifierStatus
  unspent : NullifierStatus
  unknown : NullifierStatus
  unverified : NullifierStatus

pub record FoundNote : Type 0 where
  pub note : NoteV1
  pub nullifier : List ℕ
  pub is_spent : Bool
  pub nullifier_status : NullifierStatus
  pub tx_hash : List ℕ
  pub height : ℕ
  pub sequence : ℕ

-- `validNullifierStatuses`
unfoldable pub parse_status : List ℕ → Option NullifierStatus
parse_status text =
    if codes_eq text (codes "spent")
    then some spent
    else if codes_eq text (codes "unspent")
    then some unspent
    else if codes_eq text (codes "unknown")
    then some unknown
    else if codes_eq text (codes "unverified")
    then some unverified
    else none

-- All of the statuses are the same and valid, or there is none to go by.
unfoldable pub requested_status : List (List ℕ) → Option NullifierStatus
requested_status [] = none
requested_status (status ∷ others) =
    if all (λ other. codes_eq other status) others then parse_status status else none

unfoldable pub supplied_spent : List (Option Bool) → Bool
supplied_spent [] = false
supplied_spent (some true ∷ flags) = true
supplied_spent (some false ∷ flags) = supplied_spent flags
supplied_spent (none ∷ flags) = supplied_spent flags

-- `suppliedSpent ? "spent" : nullifierStatus`
unfoldable pub status_of : Bool → Option NullifierStatus → NullifierStatus
status_of true requested = spent
status_of false (some status) = status
status_of false none = unverified

unfoldable pub is_spent_status : NullifierStatus → Bool
is_spent_status spent = true
is_spent_status unspent = false
is_spent_status unknown = false
is_spent_status unverified = false

-- `foundNote.nullifier ?? computeNoteNullifierHex(note)`
unfoldable pub nullifier_or_computed : Primitives → Option (List ℕ) → NoteV1 → Result (List ℕ)
nullifier_or_computed c (some nullifier) note = ok nullifier
nullifier_or_computed c none note = compute_note_nullifier_hex c note

-- The numbers of a note and its event are read as they are: they are safe integers.
unfoldable pub normalize_found_note : Primitives → ScannedNote → Result FoundNote
normalize_found_note c scanned = do
  let requested =
      requested_status (map (λ status. to_lower_case (trim status)) scanned.nullifier_statuses)
  let supplied = supplied_spent scanned.spent_flags
  nullifier ← nullifier_or_computed c scanned.nullifier scanned.note
  ok (record {
    note = scanned.note;
    nullifier = to_lower_case nullifier;
    is_spent = supplied || is_spent_status (status_of supplied requested);
    nullifier_status = status_of supplied requested;
    tx_hash = scanned.tx_hash;
    height = scanned.height;
    sequence = scanned.sequence;
  })

unfoldable pub is_unspent_status : NullifierStatus → Bool
is_unspent_status spent = false
is_unspent_status unspent = true
is_unspent_status unknown = false
is_unspent_status unverified = false

-- `isVerifiedUnspentFoundNote` of a note that is normalized.
unfoldable pub is_verified_unspent_found_note : FoundNote → Bool
is_verified_unspent_found_note found =
    not found.is_spent && is_unspent_status found.nullifier_status
