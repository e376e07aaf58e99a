-- ===== src/Routes/History/Listing.antt =====
-- What a listing of the history answers.
use mathlib.Core.Path.{fun_ext}
use schedualerl_lm.Base.{
  ◌-◌, min, ◌≡◌, refl, ap, ◌∙◌, String, Bool, true, false, Option, some, List, [], ◌∷◌, ◌==◌, take,
  drop, filter, length, length-take, length-drop, All, All-take, All-drop, All-filter, arith, inl,
  inr, suc,
}
use schedualerl_lm.Db.Models.{TaskHistory}
use schedualerl_lm.Db.Session.{Tables, get_db, ◌>>=◌, commit}
use schedualerl_lm.Db.Session.Soundness.{HasShape}
use schedualerl_lm.Db.Session.User.{user_session, open_session_lem}
use schedualerl_lm.Python.Platform.{Platform, Uuid}
use schedualerl_lm.Python.Result.{ok, is_ok, Result-cases}
use schedualerl_lm.Routes.History.{
  history_order_by, history_filters, entries_from_rows, list_matching, matching_rows,
}
use schedualerl_lm.Schemas.History.{HistoryListQuery, HistoryEntry, entry_from_row}
use schedualerl_lm.Schemas.History.Entries.{HasSource, entry_from_row-HasShape}

module _ (p : Platform) where
  abbrev pub IsReadable : TaskHistory → Type 0
  IsReadable row = is_ok (entry_from_row p row) ≡ true

  -- Rows that can all be read give as many entries.
  entries_from_rows-length :
      (rows : List TaskHistory)
      → All IsReadable rows
      → (items : List HistoryEntry) × (entries_from_rows p rows ≡ ok items)
        × (length items ≡ length rows)
  entries_from_rows-length [] h = ([], refl, refl)
  entries_from_rows-length (row ∷ rows) h = elim (Result-cases (entry_from_row p row)) [
    | inl (e, failed) ↦ absurd (ground (arith, h.0))
    | inr (entry, read) ↦
        let (items, rest, same) = entries_from_rows-length rows h.1 in
        (entry ∷ items, rw (read, rest), ap suc same)
  ]

  -- The user's own rows that a query asks for.
  abbrev pub own_matching :
      String → HistoryListQuery → Option Uuid → List TaskHistory → List TaskHistory
  own_matching u query task_id rows =
      filter (history_filters p query task_id) (filter (λ row. row.user_id == u) rows)

  matching_rows_lem :
      (sort_history : Bool → List TaskHistory → List TaskHistory) (u : String) (t : Tables)
      (query : HistoryListQuery) (task_id : Option Uuid)
      → matching_rows p sort_history query task_id (user_session u t t [] [])
        ≡ own_matching u query task_id t.history
  matching_rows_lem sort_history u t query task_id =
      ap (λ q. filter (history_filters p query task_id) (filter q t.history))
        (fun_ext λ row. ground arith)

  All-IsReadable :
      (rows : List TaskHistory) → All HasShape rows → All HasSource rows → All IsReadable rows
  All-IsReadable [] h s = tt
  All-IsReadable (row ∷ rows) h s =
      (entry_from_row-HasShape p row h.0 s.0, All-IsReadable rows h.1 s.1)

-- What the database's sort promises: the same rows, in some order.
pub record IsSort (sort_history : Bool → List TaskHistory → List TaskHistory) : Type 1 where
  pub same_length :
      (b : Bool) (rows : List TaskHistory) → length (sort_history b rows) ≡ length rows
  pub same_rows :
      (P : TaskHistory → Type 0) (b : Bool) (rows : List TaskHistory)
      → All P rows
      → All P (sort_history b rows)

module _ (p : Platform) (sort_history : Bool → List TaskHistory → List TaskHistory) where
  -- The page of the sorted rows that a query asks for.
  abbrev pub page : HistoryListQuery → List TaskHistory → List TaskHistory
  page query rows =
      take query.limit (drop query.offset (sort_history (history_order_by query.order) rows))

  -- A listing of the history, of everything or of one task, by a user with an id that is not empty
  -- always succeeds on a history whose rows satisfy the check constraint and have known sources:
  -- its total counts the user's own rows that match the filters, and its items are the entries of
  -- the requested page of those rows, as many as the page size and the offset leave, given that
  -- the database's sort only reorders rows.
  pub list_matching_lem :
      (u : String) (t : Tables) (query : HistoryListQuery) (task_id : Option Uuid)
      → IsSort sort_history
      → (u == "") ≡ false
      → All HasShape t.history
      → All HasSource t.history
      → let rows = own_matching p u query task_id t.history in
        (items : List HistoryEntry) × (entries_from_rows p (page query rows) ≡ ok items)
        × (length items ≡ min query.limit (length rows - query.offset))
        × ((get_db (some u) t (list_matching p sort_history query task_id)).0
            ≡ ok (record {
              items = items;
              total = length rows;
              limit = query.limit;
              offset = query.offset;
            }))
  unfolding get_db list_matching ◌>>=◌ commit
  list_matching_lem u t query task_id sort filled shaped sources =
      let rows = own_matching p u query task_id t.history in
      let q = history_filters p query task_id in
      let readable : All (IsReadable p) rows = All-filter (IsReadable p) q _ (
        All-filter (IsReadable p) (λ row. row.user_id == u) t.history
          (All-IsReadable p t.history shaped sources)) in
      let sorted = sort_history (history_order_by query.order) rows in
      let (items, read, count) = entries_from_rows-length p (page query rows) (
        All-take (IsReadable p) query.limit _ (
          All-drop (IsReadable p) query.offset sorted
            (sort.same_rows (IsReadable p) (history_order_by query.order) rows readable))) in
      (
        items,
        read,
        count
            ∙ (length-take query.limit _
                ∙ ap (min query.limit) (
                    length-drop query.offset sorted
                    ∙ ap (λ n. n - query.offset)
                        (sort.same_length (history_order_by query.order) rows))),
        rw (open_session_lem u t filled, matching_rows_lem p sort_history u t query task_id, read),
      )
