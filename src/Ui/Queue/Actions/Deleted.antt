-- ===== src/Ui/Queue/Actions/Deleted.antt =====
-- What a deletion of the selection leaves on the page.
use right_hire.Base.{
  ℕ, ◌≡◌, refl, true, false, not, [], All, mem, length, is_empty, count_where, length-select_where,
  All-select_where_holds,
}
use right_hire.Results.Pages.{CandidateWithEval}
use right_hire.Ui.{Answer}
use right_hire.Ui.Queue.{ResultsState}
use right_hire.Ui.Queue.Actions.{delete_selected}

-- Whatever the API answers to the deletions: a selection that is not empty is emptied, none of its
-- candidates is listed any more, also where its deletion was refused, all others are, and the offset
-- for the next page is the number of those that are.
pub record IsCleared (st after : ResultsState) : Type 0 where
  pub none_selected : after.selected_ids ≡ []
  pub none_listed : All (λ x. not (mem x.candidate.id st.selected_ids) ≡ true) after.results
  pub others_listed :
      length after.results ≡ count_where (λ x. not (mem x.candidate.id st.selected_ids)) st.results
  pub counted : after.offset ≡ length after.results

pub delete_selected-IsCleared :
    (delete : ℕ → Answer (Unit {0})) (st : ResultsState)
    → is_empty st.selected_ids ≡ false
    → IsCleared st (delete_selected delete st).0
unfolding delete_selected
delete_selected-IsCleared delete st h =
    rw (delete_selected, h)
      (record {
        none_selected = refl;
        none_listed =
            All-select_where_holds
              (λ (x : CandidateWithEval). not (mem x.candidate.id st.selected_ids)) st.results;
        others_listed =
            length-select_where
              (λ (x : CandidateWithEval). not (mem x.candidate.id st.selected_ids)) st.results;
        counted = refl;
      })
