-- ===== src/Reservation/Step/Identity.antt =====
-- A transition keeps the record's identity, and gives it the transition's status.
use clairveiljs.Prelude.{
  All, ℕ, String, false, Option, some, List, [], ◌∷◌, ok, ◌≡◌, refl, arith, ◌∙◌, ap, str_eq,
}
use clairveiljs.Json.{
  Value, str, Fields, get, has, put, merge, text_if_truthy, or_else, truthy, text_of,
}
use clairveiljs.Json.Laws.{get-put, get-merge_lacks}
use clairveiljs.Text.{codes, codes_eq}
use clairveiljs.Reservation.Status.{Status, discovered, status_text, all_statuses, status_named}
use clairveiljs.Reservation.Record.{Reservation, to_fields}
use clairveiljs.Reservation.Normalize.{
  normalize_reservation, normalize_status, text_from, first_truthy,
}
use clairveiljs.Reservation.Normalize.Laws.{
  read-reservation_id, read-operation_id, read-owner_key_id, read-nullifier_lookup_key, read-status,
}
use clairveiljs.Reservation.Platform.{Platform}
use clairveiljs.Reservation.Patching.Apply.{apply_patch}

-- Two objects that agree on the keys give the same text.
pub text_from-agree :
    (fs gs : Fields) (ks : List String)
    → All (λ k. get fs k ≡ get gs k) ks
    → text_from fs ks ≡ text_from gs ks
unfolding text_from
text_from-agree fs gs ks h = ap text_if_truthy (firsts ks h)
  where
    firsts :
        (ks : List String)
        → All (λ k. get fs k ≡ get gs k) ks
        → first_truthy fs ks ≡ first_truthy gs ks
    firsts [] h = refl
    firsts (k ∷ ks) h = rw (h.0, firsts ks h.1)

merged : Platform → Reservation → Status → Fields → ℕ → Fields
merged p current to patch now =
    put "updated_at" (str (p.iso_date now))
      (put "status" (str (codes (status_text to))) (merge (to_fields current) patch))

get-merged :
    (p : Platform) (current : Reservation) (to : Status) (patch : Fields) (now : ℕ) (j : String)
    → str_eq "updated_at" j ≡ false
    → str_eq "status" j ≡ false
    → has patch j ≡ false
    → get (merged p current to patch now) j ≡ get (to_fields current) j
unfolding merged
get-merged p current to patch now j u s h = ground (
  arith,
  get-put "updated_at" j (str (p.iso_date now))
      (put "status" (str (codes (status_text to))) (merge (to_fields current) patch)),
  get-put "status" j (str (codes (status_text to))) (merge (to_fields current) patch),
  get-merge_lacks (to_fields current) patch j h,
)

pub text_of_first :
    (t : List ℕ) (rest : Option Value)
    → text_if_truthy rest ≡ []
    → text_if_truthy (or_else (some (str t)) rest) ≡ t
unfolding text_if_truthy or_else truthy text_of
text_of_first [] rest h = h
text_of_first (c ∷ cs) rest h = refl

named-all : (s : Status) → status_named (codes (status_text s)) all_statuses ≡ some s
unfolding codes_eq
named-all discovered = refl
named-all _ = refl

pub normalize_status-text :
    (s : Status) → normalize_status (some (str (codes (status_text s)))) ≡ ok s
unfolding normalize_status codes_eq text_if_truthy text_of
normalize_status-text discovered = refl
normalize_status-text _ = refl

get-merged_status :
    (p : Platform) (current : Reservation) (to : Status) (patch : Fields) (now : ℕ)
    → get (merged p current to patch now) "status" ≡ some (str (codes (status_text to)))
unfolding merged
get-merged_status p current to patch now = ground (
  arith,
  get-put "updated_at" "status" (str (p.iso_date now))
      (put "status" (str (codes (status_text to))) (merge (to_fields current) patch)),
  get-put "status" "status" (str (codes (status_text to))) (merge (to_fields current) patch),
)

-- The spellings of what identifies a record, its note and its operation.
abbrev pub identity_keys : List String
identity_keys =
    "reservation_id" ∷ "reservationID" ∷ "reservationId" ∷ "owner_key_id" ∷ "ownerKeyID"
    ∷ "ownerKeyId" ∷ "nullifier_lookup_key" ∷ "nullifierLookupKey" ∷ "operation_id" ∷ "operationID"
    ∷ "operationId" ∷ []

-- A key of the record's identity, neither a status nor a time.
abbrev IsKept : Fields → String → Type 0
IsKept patch k =
    (str_eq "updated_at" k ≡ false) × (str_eq "status" k ≡ false) × (has patch k ≡ false)

-- The patched record.
module _ (p : Platform) (current : Reservation) (to : Status) (patch : Fields) (now : ℕ)
    {r : Reservation} (h : apply_patch p current to patch now ≡ ok r) where
  input : Fields
  input = merged p current to patch now

  normalized : normalize_reservation (p.iso_date now) input ≡ ok r
  unfolding input merged apply_patch
  normalized = h

  pub apply_patch-status : r.status ≡ to
  unfolding input
  apply_patch-status = ground (
    arith,
    read-status (p.iso_date now) input normalized,
    get-merged_status p current to patch now,
    normalize_status-text to,
  )

  text_from-kept :
      (ks : List String)
      → All (IsKept patch) ks
      → text_from input ks ≡ text_from (to_fields current) ks
  unfolding input
  text_from-kept ks kept =
      text_from-agree (merged p current to patch now) (to_fields current) ks (each ks kept)
    where
      each :
          (ks : List String)
          → All (IsKept patch) ks
          → All (λ k. get (merged p current to patch now) k ≡ get (to_fields current) k) ks
      each [] kept = tt
      each (k ∷ ks) kept =
          (get-merged p current to patch now k kept.0.0 kept.0.1 kept.0.2, each ks kept.1)

  -- The patch writes no part of the identity.
  module _ (absent : All (λ k. has patch k ≡ false) identity_keys) where
    pub apply_patch-reservation_id : r.reservation_id ≡ current.reservation_id
    unfolding to_fields get text_from text_if_truthy text_of truthy or_else
    apply_patch-reservation_id =
        read-reservation_id (p.iso_date now) input normalized
        ∙ text_from-kept ("reservation_id" ∷ "reservationID" ∷ "reservationId" ∷ [])
            ((refl, refl, absent.0), ((refl, refl, absent.1.0), ((refl, refl, absent.1.1.0), tt)))
        ∙ text_of_first current.reservation_id _ refl

    pub apply_patch-owner_key_id : r.owner_key_id ≡ current.owner_key_id
    unfolding to_fields get text_from text_if_truthy text_of truthy or_else
    apply_patch-owner_key_id =
        let rest = absent.1.1.1 in
        read-owner_key_id (p.iso_date now) input normalized
        ∙ text_from-kept ("owner_key_id" ∷ "ownerKeyID" ∷ "ownerKeyId" ∷ [])
            ((refl, refl, rest.0), ((refl, refl, rest.1.0), ((refl, refl, rest.1.1.0), tt)))
        ∙ text_of_first current.owner_key_id _ refl

    pub apply_patch-nullifier_lookup_key : r.nullifier_lookup_key ≡ current.nullifier_lookup_key
    unfolding to_fields get text_from text_if_truthy text_of truthy or_else
    apply_patch-nullifier_lookup_key =
        let rest = absent.1.1.1.1.1.1 in
        read-nullifier_lookup_key (p.iso_date now) input normalized
        ∙ text_from-kept ("nullifier_lookup_key" ∷ "nullifierLookupKey" ∷ [])
            ((refl, refl, rest.0), ((refl, refl, rest.1.0), tt))
        ∙ text_of_first current.nullifier_lookup_key _ refl

    pub apply_patch-operation_id : r.operation_id ≡ current.operation_id
    unfolding to_fields get text_from text_if_truthy text_of truthy or_else
    apply_patch-operation_id =
        let rest = absent.1.1.1.1.1.1.1.1 in
        read-operation_id (p.iso_date now) input normalized
        ∙ text_from-kept ("operation_id" ∷ "operationID" ∷ "operationId" ∷ [])
            ((refl, refl, rest.0), ((refl, refl, rest.1.0), ((refl, refl, rest.1.1.0), tt)))
        ∙ text_of_first current.operation_id _ refl
