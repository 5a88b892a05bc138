-- ===== src/Notes/Found/Evidence.antt =====
-- src/core/note.js: a note counts as unspent only by evidence that no other contradicts.
use clairveiljs.Prelude.{
  ℕ, Bool, true, false, ◌&&◌, ◌||◌, not, List, [], ◌∷◌, All, all, map, Option, none, some, ok,
  >>=-eq-ok, ok-eq, ◌≡◌, ◌≢◌, refl, ◌∙◌, ap, arith, Bool-cases, inl, inr, &&-eq-true,
}
use clairveiljs.Text.{codes, codes_eq, codes_eq_iff, trim, to_lower_case}
use clairveiljs.Crypto.Primitives.{Primitives}
use clairveiljs.Notes.Found.{
  ScannedNote, FoundNote, NullifierStatus, spent, unspent, unknown, unverified, parse_status,
  requested_status, supplied_spent, status_of, is_spent_status, nullifier_or_computed,
  normalize_found_note, is_unspent_status, is_verified_unspent_found_note,
}

-- No flag is `true`.
supplied_spent-none :
    (flags : List (Option Bool))
    → supplied_spent flags ≡ false
    → All (λ flag. flag ≢ some true) flags
unfolding supplied_spent
supplied_spent-none [] h = tt
supplied_spent-none (some true ∷ flags) h = cc
supplied_spent-none (some false ∷ flags) h = (λ e. cc, supplied_spent-none flags h)
supplied_spent-none (none ∷ flags) h = (λ e. cc, supplied_spent-none flags h)

parse_status-unspent : (text : List ℕ) → parse_status text ≡ some unspent → text ≡ codes "unspent"
unfolding parse_status
parse_status-unspent text h = ground (arith, codes_eq_iff text (codes "unspent"))

-- A text of a status, as it is compared.
abbrev pub IsUnspentText : List ℕ → Type 0
IsUnspentText status = to_lower_case (trim status) ≡ codes "unspent"

abbrev normal : List (List ℕ) → List (List ℕ)
normal statuses = map (λ status. to_lower_case (trim status)) statuses

all_same :
    (status : List ℕ) (others : List (List ℕ))
    → all (λ other. codes_eq other status) (normal others) ≡ true
    → status ≡ codes "unspent"
    → All IsUnspentText others
all_same status [] h e = tt
all_same status (other ∷ others) h e =
    let (first, rest) = &&-eq-true (codes_eq (to_lower_case (trim other)) status) _ h in
    ((codes_eq_iff (to_lower_case (trim other)) status).0 first ∙ e, all_same status others rest e)

requested_status-unspent :
    (statuses : List (List ℕ))
    → requested_status (normal statuses) ≡ some unspent
    → (statuses ≢ []) × All IsUnspentText statuses
unfolding requested_status
requested_status-unspent [] h = cc
requested_status-unspent (status ∷ others) h =
    let asked = to_lower_case (trim status) in
    elim (Bool-cases (all (λ other. codes_eq other asked) (normal others))) [
      | inl same ↦
          let found = parse_status-unspent asked (rw same at h) in
          (λ e. cc, (found, all_same asked others same found))
      | inr mixed ↦ absurd (none_some (rw mixed at h))
    ]
  where
    none_some : none ≡ some unspent → ⊥
    none_some e = cc

-- Nothing but an unspent status, asked for, passes the last test.
unspent_only :
    (supplied : Bool) (requested : Option NullifierStatus)
    → (not (supplied || is_spent_status (status_of supplied requested))
        && is_unspent_status (status_of supplied requested))
      ≡ true
    → (supplied ≡ false) × (requested ≡ some unspent)
unfolding status_of is_spent_status is_unspent_status
unspent_only true requested h = cc
unspent_only false none h = cc
unspent_only false (some spent) h = cc
unspent_only false (some unspent) h = (refl, refl)
unspent_only false (some unknown) h = cc
unspent_only false (some unverified) h = cc

-- A note passes as unspent only if it has a status, each of its statuses reads "unspent", and none of
-- its flags says that it is spent.
pub is_verified_unspent_found_note-normalize_found_note :
    (c : Primitives) (scanned : ScannedNote) {found : FoundNote}
    → normalize_found_note c scanned ≡ ok found
    → is_verified_unspent_found_note found ≡ true
    → (scanned.nullifier_statuses ≢ [])
      × All IsUnspentText scanned.nullifier_statuses
      × All (λ flag. flag ≢ some true) scanned.spent_flags
unfolding normalize_found_note is_verified_unspent_found_note
is_verified_unspent_found_note-normalize_found_note c scanned {found} h passed =
    let (nullifier, _, r) =
      >>=-eq-ok (nullifier_or_computed c scanned.nullifier scanned.note) _ h in
    let (no_flag, asked) =
      unspent_only (supplied_spent scanned.spent_flags)
        (requested_status (normal scanned.nullifier_statuses))
        (ap (λ (f : FoundNote). not f.is_spent && is_unspent_status f.nullifier_status) (ok-eq r)
          ∙ passed) in
    let (present, all_unspent) = requested_status-unspent scanned.nullifier_statuses asked in
    (present, all_unspent, supplied_spent-none scanned.spent_flags no_flag)
