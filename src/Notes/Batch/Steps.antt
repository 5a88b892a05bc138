-- ===== src/Notes/Batch/Steps.antt =====
-- src/privacy/payload.js: the search makes no more calls than its limit and one for each note.
use clairveiljs.Prelude.{
  ℕ, suc, ◌+◌, ◌-◌, ◌≤◌, Bool, true, List, [], ◌∷◌, ◌++◌, length, take, ltb, leb, if◌then◌else◌,
  ◌≡◌, arith, inl, inr, Bool-cases, leb→le,
}
use clairveiljs.Notes.Found.{FoundNote}
use clairveiljs.Notes.Order.{Collation, total_of}
use clairveiljs.Notes.Pairs.{max_shielded_amount}
use clairveiljs.Notes.Batch.{
  batch_transfer_max_inputs, batch_transfer_search_step_limit, consider, Search, is_over, counted,
  search,
}

-- Past the limit a call only counts.
search-past :
    (locale : Collation) (target : ℕ) (candidates selected : List FoundNote) (total : ℕ)
    (st : Search)
    → batch_transfer_search_step_limit ≤ st.steps
    → (search locale target candidates selected total st).steps ≡ suc st.steps
unfolding search is_over counted
search-past locale target [] selected total st past = ground arith
search-past locale target (candidate ∷ candidates) selected total st past = ground arith

-- The ends of a call, and its two calls.
end_of :
    (over enough full short : Bool) (counted' considered left : Search) (n : ℕ)
    → counted'.steps ≤ n
    → considered.steps ≤ n
    → left.steps ≤ n
    → (if over
        then counted'
        else if enough
        then considered
        else if full
        then counted'
        else if short
        then counted'
        else left).steps
      ≤ n
end_of over enough full short counted' considered left n hc hd hl = ground arith

-- A call of the search that starts within the limit leaves the counter at most at the limit, one
-- more, and one for each note that is left.
pub search-steps_le :
    (locale : Collation) (target : ℕ) (candidates selected : List FoundNote) (total : ℕ)
    (st : Search)
    → st.steps ≤ batch_transfer_search_step_limit
    → (search locale target candidates selected total st).steps
      ≤ suc (batch_transfer_search_step_limit + length candidates)
unfolding search counted is_over
search-steps_le locale target [] selected total st h = ground arith
search-steps_le locale target (candidate ∷ candidates) selected total st h =
    elim (Bool-cases (ltb batch_transfer_search_step_limit (suc st.steps))) [
      | inl past ↦ rw (search_over past) (omega arith)
      | inr below ↦
          let taken =
            search locale target candidates (selected ++ (candidate ∷ []))
              (total + candidate.note.amount) (counted st) in
          let fits = leb (total + candidate.note.amount) (target + max_shielded_amount) in
          let tried = if fits then taken else counted st in
          let tried_le = tried_bound fits taken (
            search-steps_le locale target candidates (selected ++ (candidate ∷ []))
              (total + candidate.note.amount) (counted st) (ground arith)) in
          end_of (is_over target st) (leb target total)
            (leb batch_transfer_max_inputs (length selected))
            (ltb
              (total
                + total_of
                    (take (batch_transfer_max_inputs - length selected) (candidate ∷ candidates)))
              target)
            (counted st)
            (record { steps = suc st.steps; best = consider locale target selected st.best })
            (search locale target candidates selected total tried) _ (omega arith) (omega arith)
            (left_bound tried tried_le
              (search-steps_le locale target candidates selected total tried))
    ]
  where
    search_over :
        ltb batch_transfer_search_step_limit (suc st.steps) ≡ true → is_over target st ≡ true
    search_over past = rw past

    tried_bound :
        (fits : Bool) (taken : Search)
        → taken.steps ≤ suc (batch_transfer_search_step_limit + length candidates)
        → (if fits then taken else counted st).steps
          ≤ suc (batch_transfer_search_step_limit + length candidates)
    tried_bound fits taken k = ground arith

    left_bound :
        (tried : Search)
        → tried.steps ≤ suc (batch_transfer_search_step_limit + length candidates)
        → (tried.steps ≤ batch_transfer_search_step_limit
            → (search locale target candidates selected total tried).steps
              ≤ suc (batch_transfer_search_step_limit + length candidates))
        → (search locale target candidates selected total tried).steps
          ≤ suc (batch_transfer_search_step_limit + suc (length candidates))
    left_bound tried k within =
        elim (Bool-cases (leb tried.steps batch_transfer_search_step_limit)) [
          | inl few ↦ omega (arith, within (leb→le _ _ few))
          | inr many ↦
              omega
                (arith, search-past locale target candidates selected total tried (ground arith))
        ]
