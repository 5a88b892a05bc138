-- ===== src/Notes/Batch/Sound.antt =====
-- src/privacy/payload.js: what is selected for a batch transfer.
use mathlib.Core.List.{append_assoc}
use Prim.Native.Nat.{Ordering}
use clairveiljs.Prelude.{
  ℕ, suc, ◌+◌, ◌-◌, ◌≤◌, Bool, true, false, ◌||◌, List, [], ◌∷◌, ◌++◌, length, length-append, take,
  ltb, leb, Option, none, some, if◌then◌else◌, ◌≡◌, ◌≢◌, refl, sym, ap, ◌∙◌, subst, arith, inl, inr,
  Bool-cases, lt_of_leb,
}
use clairveiljs.Notes.Found.{FoundNote}
use clairveiljs.Notes.Order.{Collation, found_note_planner_compare, insert, sort, total_of}
use clairveiljs.Notes.Pairs.{max_shielded_amount}
use clairveiljs.Notes.Selection.{Selection}
use clairveiljs.Notes.Batch.{
  batch_transfer_max_inputs, by_amount, better_batch_input_selection, consider, Search, is_over,
  counted, search, greedy, or_greedy, selection_or_none, select_batch_inputs,
}

-- Notes of a list, each at most as often as it stands there.
pub data IsPick : List FoundNote → List FoundNote → Type 0 where
  pick_none : IsPick [] []
  pick_skip :
      {found : FoundNote} {picked notes : List FoundNote}
      → IsPick picked notes
      → IsPick picked (found ∷ notes)
  pick_take :
      {found : FoundNote} {picked notes : List FoundNote}
      → IsPick picked notes
      → IsPick (found ∷ picked) (found ∷ notes)

pub IsPick-none : (notes : List FoundNote) → IsPick [] notes
IsPick-none [] = pick_none
IsPick-none (found ∷ notes) = pick_skip (IsPick-none notes)

IsPick-append :
    {picked notes : List FoundNote} (rest : List FoundNote)
    → IsPick picked notes
    → IsPick picked (notes ++ rest)
IsPick-append rest pick_none = IsPick-none rest
IsPick-append rest (pick_skip p) = pick_skip (IsPick-append rest p)
IsPick-append rest (pick_take p) = pick_take (IsPick-append rest p)

IsPick-snoc :
    {picked notes : List FoundNote} (found : FoundNote)
    → IsPick picked notes
    → IsPick (picked ++ (found ∷ [])) (notes ++ (found ∷ []))
IsPick-snoc found pick_none = pick_take pick_none
IsPick-snoc found (pick_skip p) = pick_skip (IsPick-snoc found p)
IsPick-snoc found (pick_take p) = pick_take (IsPick-snoc found p)

-- Sorting keeps the number and the total of notes.
length-insert :
    (order : FoundNote → FoundNote → Ordering) (found : FoundNote) (notes : List FoundNote)
    → length (insert order found notes) ≡ suc (length notes)
unfolding insert
length-insert order found [] = refl
length-insert order found (other ∷ notes) = ground (arith, length-insert order found notes)

pub length-sort :
    (order : FoundNote → FoundNote → Ordering) (notes : List FoundNote)
    → length (sort order notes) ≡ length notes
unfolding sort
length-sort order [] = refl
length-sort order (found ∷ notes) =
    length-insert order found (sort order notes) ∙ ap suc (length-sort order notes)

total_of-insert :
    (order : FoundNote → FoundNote → Ordering) (found : FoundNote) (notes : List FoundNote)
    → total_of (insert order found notes) ≡ found.note.amount + total_of notes
unfolding insert total_of
total_of-insert order found [] = refl
total_of-insert order found (other ∷ notes) = ground (arith, total_of-insert order found notes)

pub total_of-sort :
    (order : FoundNote → FoundNote → Ordering) (notes : List FoundNote)
    → total_of (sort order notes) ≡ total_of notes
unfolding sort total_of
total_of-sort order [] = refl
total_of-sort order (found ∷ notes) =
    total_of-insert order found (sort order notes)
    ∙ ap (λ (t : ℕ). found.note.amount + t) (total_of-sort order notes)

module _ (locale : Collation) (target : ℕ) (notes : List FoundNote) where
  -- What a selection for a batch meets, of the notes that are tried.
  pub record IsBatch (s : Selection) : Type 0 where
    pub picked : List FoundNote
    pub picked_ok : IsPick picked notes
    pub inputs_eq : s.inputs ≡ sort (found_note_planner_compare locale) picked
    pub total_eq : s.total ≡ total_of picked
    pub count_le : length picked ≤ batch_transfer_max_inputs
    pub enough : target ≤ s.total
    pub change_le : s.total ≤ target + max_shielded_amount

  abbrev pub IsGood : Option Selection → Type 0
  IsGood none = Unit {0}
  IsGood (some s) = IsBatch s

  consider-IsGood :
      (selected : List FoundNote) (best : Option Selection)
      → IsPick selected notes
      → length selected ≤ batch_transfer_max_inputs
      → IsGood best
      → IsGood (consider locale target selected best)
  unfolding consider
  consider-IsGood selected best pick few good =
      let total = total_of selected in
      let candidate : Selection = record {
        inputs = sort (found_note_planner_compare locale) selected;
        total = total;
        is_final = true;
        needs_zero_dummy = false;
      } in
      elim (Bool-cases (ltb total target || ltb (target + max_shielded_amount) total)) [
        | inl outside ↦ rw outside good
        | inr inside ↦ elim (Bool-cases (better_batch_input_selection candidate best target)) [
          | inr worse ↦ rw (inside, worse) good
          | inl better ↦
              rw (inside, better)
                (record {
                  picked = selected;
                  picked_ok = pick;
                  inputs_eq = refl;
                  total_eq = refl;
                  count_le = few;
                  enough = bound_of inside;
                  change_le = change_of inside;
                })
        ]
      ]
    where
      bound_of :
          (ltb (total_of selected) target || ltb (target + max_shielded_amount) (total_of selected))
            ≡ false
          → target ≤ total_of selected
      bound_of inside = ground arith

      change_of :
          (ltb (total_of selected) target || ltb (target + max_shielded_amount) (total_of selected))
            ≡ false
          → total_of selected ≤ target + max_shielded_amount
      change_of inside = ground arith

  -- The ends of a call of the search.
  end-IsGood :
      (over enough full short : Bool) (counted' considered left : Search)
      → IsGood counted'.best
      → IsGood considered.best
      → (full ≡ false → IsGood left.best)
      → IsGood
          (if over
            then counted'
            else if enough
            then considered
            else if full
            then counted'
            else if short
            then counted'
            else left).best
  end-IsGood true enough full short counted' considered left hc hd hl = hc
  end-IsGood false true full short counted' considered left hc hd hl = hd
  end-IsGood false false true short counted' considered left hc hd hl = hc
  end-IsGood false false false true counted' considered left hc hd hl = hc
  end-IsGood false false false false counted' considered left hc hd hl = hl refl

  tried-IsGood :
      (fits : Bool) (taken counted' : Search)
      → IsGood taken.best
      → IsGood counted'.best
      → IsGood (if fits then taken else counted').best
  tried-IsGood true taken counted' ht hc = ht
  tried-IsGood false taken counted' ht hc = hc

  search-IsGood :
      (candidates prefix selected : List FoundNote) (total : ℕ) (st : Search)
      → prefix ++ candidates ≡ notes
      → IsPick selected prefix
      → length selected ≤ batch_transfer_max_inputs
      → IsGood st.best
      → IsGood (search locale target candidates selected total st).best
  unfolding search counted
  search-IsGood [] prefix selected total st all pick few good =
      end-IsGood (is_over target st) (leb target total) true true (counted st)
        (record { steps = suc st.steps; best = consider locale target selected st.best })
        (counted st) good
        (consider-IsGood selected st.best (subst (IsPick selected) all (IsPick-append [] pick)) few
          good)
        (λ e. good)
  search-IsGood (candidate ∷ candidates) prefix selected total st all pick few good =
      let taken =
        search locale target candidates (selected ++ (candidate ∷ []))
          (total + candidate.note.amount) (counted st) in
      let fits = leb (total + candidate.note.amount) (target + max_shielded_amount) in
      let tried = if fits then taken else counted st in
      let all' = append_assoc prefix (candidate ∷ []) candidates ∙ all in
      end-IsGood (is_over target st) (leb target total)
        (leb batch_transfer_max_inputs (length selected))
        (ltb
          (total
            + total_of
                (take (batch_transfer_max_inputs - length selected) (candidate ∷ candidates)))
          target)
        (counted st)
        (record { steps = suc st.steps; best = consider locale target selected st.best })
        (search locale target candidates selected total tried) good
        (consider-IsGood selected st.best
          (subst (IsPick selected) all (IsPick-append (candidate ∷ candidates) pick)) few good)
        (λ room.
          search-IsGood candidates (prefix ++ (candidate ∷ [])) selected total tried all'
            (IsPick-append (candidate ∷ []) pick) few
            (tried-IsGood fits taken (counted st)
              (search-IsGood candidates (prefix ++ (candidate ∷ [])) (selected ++ (candidate ∷ []))
                (total + candidate.note.amount) (counted st) all' (IsPick-snoc candidate pick)
                (room_for room) good)
              good))
    where
      room_for :
          leb batch_transfer_max_inputs (length selected) ≡ false
          → length (selected ++ (candidate ∷ [])) ≤ batch_transfer_max_inputs
      room_for room = omega (
        arith,
        length-append selected (candidate ∷ []),
        lt_of_leb batch_transfer_max_inputs (length selected) room,
      )

  -- What the greedy choice holds when it stops.
  abbrev pub IsChoice : List FoundNote × ℕ → Type 0
  IsChoice choice = IsPick choice.0 notes × (length choice.0 ≤ batch_transfer_max_inputs)

  greedy-IsChoice :
      (candidates prefix chosen : List FoundNote) (total : ℕ)
      → prefix ++ candidates ≡ notes
      → IsPick chosen prefix
      → length chosen ≤ batch_transfer_max_inputs
      → IsChoice (greedy target candidates chosen total)
  unfolding greedy
  greedy-IsChoice [] prefix chosen total all pick few =
      (subst (IsPick chosen) all (IsPick-append [] pick), few)
  greedy-IsChoice (candidate ∷ candidates) prefix chosen total all pick few =
      let all' = append_assoc prefix (candidate ∷ []) candidates ∙ all in
      elim (Bool-cases (leb batch_transfer_max_inputs (length chosen) || leb target total)) [
        | inl done ↦
            rw done (subst (IsPick chosen) all (IsPick-append (candidate ∷ candidates) pick), few)
        | inr more ↦
            elim (Bool-cases (ltb (target + max_shielded_amount) (total + candidate.note.amount))) [
              | inl over ↦
                  rw (more, over)
                    (greedy-IsChoice candidates (prefix ++ (candidate ∷ [])) chosen total all'
                      (IsPick-append (candidate ∷ []) pick) few)
              | inr fits ↦
                  rw (more, fits)
                    (greedy-IsChoice candidates (prefix ++ (candidate ∷ []))
                      (chosen ++ (candidate ∷ [])) (total + candidate.note.amount) all'
                      (IsPick-snoc candidate pick)
                      (room_for (not_full (leb batch_transfer_max_inputs (length chosen)) _ more)))
            ]
      ]
    where
      not_full : (a b : Bool) → (a || b) ≡ false → a ≡ false
      not_full false b e = refl
      not_full true b e = cc

      room_for :
          leb batch_transfer_max_inputs (length chosen) ≡ false
          → length (chosen ++ (candidate ∷ [])) ≤ batch_transfer_max_inputs
      room_for room = omega (
        arith,
        length-append chosen (candidate ∷ []),
        lt_of_leb batch_transfer_max_inputs (length chosen) room,
      )

  or_greedy-IsGood :
      (found : Option Selection) → IsGood found → IsGood (or_greedy locale target notes found)
  unfolding or_greedy
  or_greedy-IsGood (some s) good = good
  or_greedy-IsGood none good =
      let choice = greedy-IsChoice notes [] [] 0 refl pick_none (omega arith) in
      elim (Bool-cases (leb target (greedy target notes [] 0).1)) [
        | inr short ↦ rw short tt
        | inl enough ↦
            rw enough (consider-IsGood (greedy target notes [] 0).0 none choice.0 choice.1 tt)
      ]

  best_of :
      (found : Option Selection)
      → IsGood found
      → (selection_or_none found).is_final ≡ true
      → IsBatch (selection_or_none found)
  unfolding selection_or_none
  best_of none good final = absurd (cc)
  best_of (some s) good final = good

-- The inputs are as many as the notes that are picked, and have their total.
inputs_of :
    (locale : Collation) (target : ℕ) (notes : List FoundNote) (s : Selection)
    → target ≢ 0
    → IsBatch locale target notes s
    → (1 ≤ length s.inputs) × (length s.inputs ≤ 16) × (total_of s.inputs ≡ s.total)
unfolding total_of
inputs_of locale target notes s positive batch =
    let order = found_note_planner_compare locale in
    let count = ap length batch.inputs_eq ∙ length-sort order batch.picked in
    (
      omega (arith, count, some_picked batch.picked (omega (arith, batch.enough, batch.total_eq))),
      omega (arith, count, batch.count_le),
      ap total_of batch.inputs_eq ∙ total_of-sort order batch.picked ∙ sym batch.total_eq,
    )
  where
    some_picked : (picked : List FoundNote) → total_of picked ≢ 0 → 1 ≤ length picked
    some_picked [] ne = absurd (ne refl)
    some_picked (found ∷ picked) ne = omega arith

-- A final selection for a batch with a positive target holds between 1 and 16 of the notes that can
-- be spent, each at most as often as it is one of them; its total is theirs, covers the target, and
-- leaves an amount of a note.
pub select_batch_inputs-IsBatch :
    (locale : Collation) (notes : List FoundNote) (target : ℕ)
    → target ≢ 0
    → (select_batch_inputs locale notes target).is_final ≡ true
    → IsBatch locale target
        (sort (by_amount locale) notes)
        (select_batch_inputs locale notes target)
      × (1 ≤ length (select_batch_inputs locale notes target).inputs)
      × (length (select_batch_inputs locale notes target).inputs ≤ 16)
      × (total_of (select_batch_inputs locale notes target).inputs
          ≡ (select_batch_inputs locale notes target).total)
unfolding select_batch_inputs
select_batch_inputs-IsBatch locale [] target positive final = absurd (cc)
select_batch_inputs-IsBatch locale (found ∷ others) target positive final =
    let notes = sort (by_amount locale) (found ∷ others) in
    let start : Search = record { steps = 0; best = none } in
    let found_best =
      search-IsGood locale target notes notes [] [] 0 start refl pick_none (omega arith) tt in
    let batch =
      best_of locale target notes _
        (or_greedy-IsGood locale target notes (search locale target notes [] 0 start).best
          found_best)
        final in
    let (one, sixteen, total) = inputs_of locale target notes _ positive batch in
    (batch, one, sixteen, total)
