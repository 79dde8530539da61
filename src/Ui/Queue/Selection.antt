-- ===== src/Ui/Queue/Selection.antt =====
-- The checkbox of the filter row.
use right_hire.Base.{
  ℕ, ◌≡◌, refl, sym, ap, inl, inr, Bool, not, ◌&&◌, ◌||◌, List, [], ◌∷◌, arith, mem, mem-append,
  is_empty, ==_iff, ◌==◌, Bool-cases, select_where, if◌then◌else◌,
}
use right_hire.Base.Rational.{Rational}
use right_hire.Base.{Text}
use right_hire.Store.{Failure}
use right_hire.Ui.Queue.{ResultsState, visible, all_in, without_ids, toggle_select_all}

mem-select_where :
    (p : ℕ → Bool) (i : ℕ) (ids : List ℕ) → mem i (select_where p ids) ≡ (mem i ids && p i)
mem-select_where p i [] = refl
mem-select_where p i (j ∷ ids) = elim (Bool-cases (i == j)) [
  | inl e ↦
      let same : p j ≡ p i = ap p (sym ((==_iff i j).0 e)) in
      ground (arith, e, same, mem-select_where p i ids)
  | inr e ↦ ground (arith, e, mem-select_where p i ids)
]

-- After the checkbox is clicked, a candidate is selected exactly if it was selected and is not in the
-- open tab, where all of the tab was selected; else exactly if it was selected or is in the open tab.
pub toggle_select_all-mem :
    (shown : Failure → Text) (repr : Rational → Text) (st : ResultsState) (i : ℕ)
    → mem i (toggle_select_all shown repr st).selected_ids ≡ (
        if all_in shown repr st.selected_ids (visible shown repr st)
          && not (is_empty (visible shown repr st))
        then mem i st.selected_ids && not (mem i (visible shown repr st))
        else mem i st.selected_ids || mem i (visible shown repr st))
unfolding toggle_select_all
toggle_select_all-mem shown repr st i =
    let ids = visible shown repr st in
    let taken = mem-select_where (λ j. not (mem j ids)) i st.selected_ids in
    let added = mem-select_where (λ j. not (mem j st.selected_ids)) i ids in
    let joined = mem-append i st.selected_ids (without_ids shown repr st.selected_ids ids) in
    elim (Bool-cases (all_in shown repr st.selected_ids ids && not (is_empty ids))) [
      | inl t ↦ rw (toggle_select_all, t) taken
      | inr t ↦ rw (toggle_select_all, t) (ground (arith, joined, added))
    ]
