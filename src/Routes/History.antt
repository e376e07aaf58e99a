-- ===== src/Routes/History.antt =====
-- app/routes/history.py: the listing of the audit history.
pub mod Listing
use schedualerl_lm.Base.{
  ℕ, Bool, true, false, ◌&&◌, Option, none, some, List, [], ◌∷◌, ◌==◌, eqb, take, drop, filter,
  length,
}
use schedualerl_lm.Db.Models.{TaskHistory}
use schedualerl_lm.Db.Session.{Session, Action, pure, gets, lift, sees_history, ◌>>=◌}
use schedualerl_lm.Enums.{asc, desc, event_value, SortOrder}
use schedualerl_lm.Python.Datetime.{Datetime, later_or_same, replace_tzinfo}
use schedualerl_lm.Python.Platform.{Platform, Uuid}
use schedualerl_lm.Python.Result
use schedualerl_lm.Python.Result.{Result, ok, err}
use schedualerl_lm.Schemas.History.{
  HistoryListQuery, HistoryListResponse, HistoryEntry, entry_from_row,
}

-- `_history_order_by`: whether the order by `created_at` ascends.
abbrev pub history_order_by : SortOrder → Bool
history_order_by order = elim order [ asc ↦ true | desc ↦ false ]

-- A condition that is added only if its value is given.
abbrev pub if_given {ℓ} : {A : Type ℓ} → Option A → (A → Bool) → Bool
if_given none condition = true
if_given (some a) condition = condition a

-- `task_id if task_id is not None else query.task_id`
abbrev pub scoped_task_id : HistoryListQuery → Option Uuid → Option Uuid
scoped_task_id query none = query.task_id
scoped_task_id query (some task_id) = some task_id

-- A datetime as the database driver, asyncpg, reads it: a naive one in the zone of the process.
abbrev pub as_bound : Platform → Datetime → Datetime
as_bound p d = elim d.tzinfo [ none ↦ replace_tzinfo d p.local_zone | some z ↦ d ]

-- `_history_filters`
abbrev pub history_filters : Platform → HistoryListQuery → Option Uuid → TaskHistory → Bool
history_filters p query task_id row =
    if_given (scoped_task_id query task_id) (λ id. eqb row.task_id id)
    && if_given query.event_type (λ e. row.event_type == event_value e)
    && if_given query.since (λ since. later_or_same p.zones row.created_at (as_bound p since))
    && if_given query.until (λ until. later_or_same p.zones (as_bound p until) row.created_at)

-- `[entry_from_row(row) for row in rows]`
abbrev pub entries_from_rows : Platform → List TaskHistory → Result (List HistoryEntry)
entries_from_rows p [] = ok []
entries_from_rows p (row ∷ rows) =
    Result.◌>>=◌ (entry_from_row p row)
      (λ entry. Result.◌>>=◌ (entries_from_rows p rows) (λ entries. ok (entry ∷ entries)))

module _ (p : Platform) (sort_history : Bool → List TaskHistory → List TaskHistory) where
  -- The rows that the two statements of `_list_history` select.
  abbrev pub matching_rows : HistoryListQuery → Option Uuid → Session → List TaskHistory
  matching_rows query task_id s =
      filter (history_filters p query task_id) (filter (sees_history s) s.working.history)

  -- `_list_history`; the database sorts the rows by `sort_history`.
  unfoldable pub list_matching : HistoryListQuery → Option Uuid → Action HistoryListResponse
  list_matching query task_id = do
    matching ← gets (matching_rows query task_id)
    items ← lift (
        entries_from_rows p (
          take query.limit
            (drop query.offset (sort_history (history_order_by query.order) matching))))
    pure (record {
      items = items;
      total = length matching;
      limit = query.limit;
      offset = query.offset;
    })

  -- `list_history` and `list_task_history`
  unfoldable pub list_history : HistoryListQuery → Action HistoryListResponse
  list_history query = list_matching query none

  unfoldable pub list_task_history : Uuid → HistoryListQuery → Action HistoryListResponse
  list_task_history task_id query = list_matching query (some task_id)
