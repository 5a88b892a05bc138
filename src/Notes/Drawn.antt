-- ===== src/Notes/Drawn.antt =====
-- src/privacy/payload.js: notes that are drawn from a scan, each scanned note at most once.
use mathlib.Core.List.{Permᴰ}
use mathlib.Core.List.Permᴰ
use Prim.Native.Nat.{Ordering}
use clairveiljs.Prelude.{
  ℕ, Bool, List, [], ◌∷◌, map_ok, keep, All, ok, >>=-eq-ok, ok-eq, Bool-cases, ◌≡◌, inl, inr, refl,
  sym, subst,
}
use clairveiljs.Crypto.Primitives.{Primitives}
use clairveiljs.Wire.Domain.{compute_asset_id_v1}
use clairveiljs.Notes.Found.{ScannedNote, FoundNote, normalize_found_note}
use clairveiljs.Notes.Order.{
  Collation, found_note_planner_compare, is_gt, insert, sort, summarize_spendable_notes_by_denom,
}
use clairveiljs.Notes.Pairs.Best.{At, Before}
use clairveiljs.Notes.Selection.Sound.{Apart}
use clairveiljs.Notes.Batch.Sound.{IsPick, pick_none, pick_skip, pick_take, IsPick-none}

-- Notes as they are normalized from some of the scanned notes, in the order of the scan.
pub data IsDrawn (c : Primitives) : List FoundNote → List ScannedNote → Type 0 where
  drawn_none : IsDrawn c [] []
  drawn_skip :
      {scanned : ScannedNote} {drawn : List FoundNote} {notes : List ScannedNote}
      → IsDrawn c drawn notes
      → IsDrawn c drawn (scanned ∷ notes)
  drawn_take :
      {scanned : ScannedNote} {found : FoundNote} {drawn : List FoundNote}
      {notes : List ScannedNote}
      → normalize_found_note c scanned ≡ ok found
      → IsDrawn c drawn notes
      → IsDrawn c (found ∷ drawn) (scanned ∷ notes)

-- The notes of a list in any order are drawn from the scan: no scanned note is spent twice.
pub record AreDrawn (c : Primitives) (notes : List ScannedNote) (inputs : List FoundNote)
    : Type 0 where
  pub drawn : List FoundNote
  pub order : Permᴰ drawn inputs
  pub from_scan : IsDrawn c drawn notes

-- Sorting and inserting only permute.
insert-Perm :
    (order : FoundNote → FoundNote → Ordering) (found : FoundNote) (notes : List FoundNote)
    → Permᴰ (found ∷ notes) (insert order found notes)
unfolding insert
insert-Perm order found [] = Permᴰ.refl (found ∷ [])
insert-Perm order found (other ∷ notes) = elim (Bool-cases (is_gt (order found other))) [
  | inl behind ↦
      rw behind
        (Permᴰ.trans (Permᴰ.swap refl refl) (Permᴰ.cons refl (insert-Perm order found notes)))
  | inr before ↦ rw before (Permᴰ.refl (found ∷ other ∷ notes))
]

pub sort-Perm :
    (order : FoundNote → FoundNote → Ordering) (notes : List FoundNote)
    → Permᴰ notes (sort order notes)
unfolding sort
sort-Perm order [] = Permᴰ.nil
sort-Perm order (found ∷ notes) =
    Permᴰ.trans (Permᴰ.cons refl (sort-Perm order notes))
      (insert-Perm order found (sort order notes))

-- What is picked of a list is picked of each order of it, in another order.
pub IsPick-Perm :
    {xs ys picked : List FoundNote}
    → Permᴰ xs ys
    → IsPick picked xs
    → (others : List FoundNote) × Permᴰ others picked × IsPick others ys
IsPick-Perm Permᴰ.nil pick_none = ([], Permᴰ.nil, pick_none)
IsPick-Perm (Permᴰ.cons e d) (pick_skip p) =
    let (others, order, q) = IsPick-Perm d p in (others, order, pick_skip q)
IsPick-Perm (Permᴰ.cons {b = b} e d) (pick_take p) =
    let (others, order, q) = IsPick-Perm d p in (b ∷ others, Permᴰ.cons (sym e) order, pick_take q)
IsPick-Perm (Permᴰ.swap e₁ e₂) (pick_skip (pick_skip p)) =
    (_, Permᴰ.refl _, pick_skip (pick_skip p))
IsPick-Perm (Permᴰ.swap {a' = a'} e₁ e₂) (pick_skip (pick_take {picked = picked} p)) =
    (a' ∷ picked, Permᴰ.cons (sym e₂) (Permᴰ.refl picked), pick_take (pick_skip p))
IsPick-Perm (Permᴰ.swap {b' = b'} e₁ e₂) (pick_take (pick_skip {picked = picked} p)) =
    (b' ∷ picked, Permᴰ.cons (sym e₁) (Permᴰ.refl picked), pick_skip (pick_take p))
IsPick-Perm (Permᴰ.swap {a' = a'} {b' = b'} e₁ e₂) (pick_take (pick_take {picked = picked} p)) =
    (a' ∷ b' ∷ picked, Permᴰ.swap (sym e₂) (sym e₁), pick_take (pick_take p))
IsPick-Perm (Permᴰ.trans d₁ d₂) p =
    let (first, order, q) = IsPick-Perm d₁ p in
    let (others, order', q') = IsPick-Perm d₂ q in (others, Permᴰ.trans order' order, q')

-- What holds of all notes holds of those that are picked.
pub IsPick-All {κ} :
    (P : FoundNote → Type κ) {picked notes : List FoundNote}
    → IsPick picked notes
    → All P notes
    → All P picked
IsPick-All P pick_none h = tt
IsPick-All P (pick_skip p) h = IsPick-All P p h.1
IsPick-All P (pick_take p) h = (h.0, IsPick-All P p h.1)

pub Perm-All {κ} :
    (P : FoundNote → Type κ) {xs ys : List FoundNote} → Permᴰ xs ys → All P xs → All P ys
Perm-All P Permᴰ.nil h = tt
Perm-All P (Permᴰ.cons e d) h = (subst P e h.0, Perm-All P d h.1)
Perm-All P (Permᴰ.swap e₁ e₂) h = (subst P e₂ h.1.0, (subst P e₁ h.0, h.1.1))
Perm-All P (Permᴰ.trans d₁ d₂) h = Perm-All P d₂ (Perm-All P d₁ h)

-- A pick behind a note is one of a longer list.
widen :
    {picked : List FoundNote} {found : FoundNote} {shorter longer : List FoundNote}
    → ((others : List FoundNote) → IsPick others shorter → IsPick others longer)
    → IsPick picked (found ∷ shorter)
    → IsPick picked (found ∷ longer)
widen wider (pick_skip p) = pick_skip (wider _ p)
widen wider (pick_take p) = pick_take (wider _ p)

IsPick-keep :
    (q : FoundNote → Bool) (notes : List FoundNote) {picked : List FoundNote}
    → IsPick picked (keep q notes)
    → IsPick picked notes
IsPick-keep q [] p = p
IsPick-keep q (found ∷ notes) p = elim (Bool-cases (q found)) [
  | inl kept ↦ widen (λ others k. IsPick-keep q notes k) (rw kept at p)
  | inr dropped ↦ pick_skip (IsPick-keep q notes (rw dropped at p))
]

IsDrawn-behind :
    (c : Primitives) {scanned : ScannedNote} {found : FoundNote} {rest picked : List FoundNote}
    {notes : List ScannedNote}
    → normalize_found_note c scanned ≡ ok found
    → ((others : List FoundNote) → IsPick others rest → IsDrawn c others notes)
    → IsPick picked (found ∷ rest)
    → IsDrawn c picked (scanned ∷ notes)
IsDrawn-behind c e draw (pick_skip p) = drawn_skip (draw _ p)
IsDrawn-behind c e draw (pick_take p) = drawn_take e (draw _ p)

nothing_picked : (c : Primitives) {picked : List FoundNote} → IsPick picked [] → IsDrawn c picked []
nothing_picked c pick_none = drawn_none

normalized-IsDrawn :
    (c : Primitives) (notes : List ScannedNote) {found_notes picked : List FoundNote}
    → map_ok (normalize_found_note c) notes ≡ ok found_notes
    → IsPick picked found_notes
    → IsDrawn c picked notes
normalized-IsDrawn c [] {picked = picked} h p =
    nothing_picked c (subst (IsPick picked) (sym (ok-eq h)) p)
normalized-IsDrawn c (scanned ∷ notes) {picked = picked} h p =
    let (found, e, h1) = >>=-eq-ok (normalize_found_note c scanned) _ h in
    let (rest, others, h2) = >>=-eq-ok (map_ok (normalize_found_note c) notes) _ h1 in
    IsDrawn-behind c e (λ _ k. normalized-IsDrawn c notes others k)
      (subst (IsPick picked) (sym (ok-eq h2)) p)

-- What is picked of the notes that can be spent is drawn from the scan.
pub summarize_spendable_notes_by_denom-AreDrawn :
    (c : Primitives) (locale : Collation) (notes : List ScannedNote) (denom : List ℕ)
    {spendable picked inputs : List FoundNote}
    → summarize_spendable_notes_by_denom c locale notes denom ≡ ok spendable
    → IsPick picked spendable
    → Permᴰ picked inputs
    → AreDrawn c notes inputs
unfolding summarize_spendable_notes_by_denom
summarize_spendable_notes_by_denom-AreDrawn c locale notes denom {picked = picked} h p order =
    let (asset_id, _, r1) = >>=-eq-ok (compute_asset_id_v1 c denom) _ h in
    let (found_notes, normalized, r2) = >>=-eq-ok (map_ok (normalize_found_note c) notes) _ r1 in
    let (kept, kept_order, q) =
      IsPick-Perm (Permᴰ.symm (sort-Perm (found_note_planner_compare locale) _))
        (subst (IsPick picked) (sym (ok-eq r2)) p) in
    record {
      drawn = kept;
      order = Permᴰ.trans kept_order order;
      from_scan = normalized-IsDrawn c notes normalized (IsPick-keep _ found_notes q);
    }

-- Two notes at different places are a pick, in one order or the other.
At-IsPick : (a : FoundNote) (notes : List FoundNote) → At a notes → IsPick (a ∷ []) notes
At-IsPick a [] h = absurd h
At-IsPick a (found ∷ notes) (inl same) =
    subst (λ (f : FoundNote). IsPick (a ∷ []) (f ∷ notes)) (sym same)
      (pick_take (IsPick-none notes))
At-IsPick a (found ∷ notes) (inr behind) = pick_skip (At-IsPick a notes behind)

Before-IsPick :
    (a b : FoundNote) (notes : List FoundNote) → Before a b notes → IsPick (a ∷ b ∷ []) notes
Before-IsPick a b [] h = absurd h
Before-IsPick a b (found ∷ notes) (inl (same, behind)) =
    subst (λ (f : FoundNote). IsPick (a ∷ b ∷ []) (f ∷ notes)) (sym same)
      (pick_take (At-IsPick b notes behind))
Before-IsPick a b (found ∷ notes) (inr behind) = pick_skip (Before-IsPick a b notes behind)

pub Apart-IsPick :
    (a b : FoundNote) (notes : List FoundNote)
    → Apart a b notes
    → (picked : List FoundNote) × Permᴰ picked (a ∷ b ∷ []) × IsPick picked notes
Apart-IsPick a b notes (inl before) =
    (a ∷ b ∷ [], Permᴰ.refl (a ∷ b ∷ []), Before-IsPick a b notes before)
Apart-IsPick a b notes (inr behind) =
    (b ∷ a ∷ [], Permᴰ.swap refl refl, Before-IsPick b a notes behind)
