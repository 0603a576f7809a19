-- ===== src/Hub/Renaming/Folding.antt =====
-- src/hub.ts: `foldDuplicateAssignees`, which leaves one row for each assignee.
use agent_comm_hub.Prelude.{
  ℕ, ◌≡◌, refl, ap, ◌∙◌, String, str_eq, str-cases, ltb, if◌then◌else◌, Bool, false, ◌&&◌, ◌||◌,
  not, Option, none, some, List, [], ◌∷◌, ◌++◌, map, any, includes, inl, inr, if_true_holds,
  if_false_holds, arith, eq_iff,
}
use agent_comm_hub.Protocol.{TaskRecord, AssigneeState}
use agent_comm_hub.Protocol.Status.{TaskStatus, is_terminal}
use agent_comm_hub.Protocol.Aggregate.{aggregate_task_status}
use agent_comm_hub.Timeline.{trim_acks}

abbrev earliest : Option ℕ → Option ℕ → Option ℕ
earliest first none = first
earliest none (some t) = some t
earliest (some f) (some t) = some (if ltb t f then t else f)

-- The later row's status, unless it is over and the first row is still open.
unfoldable pub merged_status : TaskStatus → TaskStatus → TaskStatus
merged_status first later = if not (is_terminal first) && is_terminal later then first else later

unfoldable pub merge_rows : AssigneeState → AssigneeState → AssigneeState
unfolding merged_status
merge_rows first later = record first {
  status = merged_status first.status later.status;
  acks = trim_acks (first.acks ++ later.acks);
  delivered_ms = earliest first.delivered_ms later.delivered_ms;
}

-- The row goes into that of the same peer, or to the end.
unfoldable pub fold_row : AssigneeState → List AssigneeState → List AssigneeState
fold_row a [] = a ∷ []
fold_row a (b ∷ bs) = if str_eq b.peer_id a.peer_id then merge_rows b a ∷ bs else b ∷ fold_row a bs

unfoldable pub fold_into : List AssigneeState → List AssigneeState → List AssigneeState
unfolding fold_row
fold_into folded [] = folded
fold_into folded (a ∷ as') = fold_into (fold_row a folded) as'

unfoldable pub fold_rows : List AssigneeState → List AssigneeState
unfolding fold_into
fold_rows rows = fold_into [] rows

abbrev pub has_duplicates : List String → Bool
has_duplicates [] = false
has_duplicates (id ∷ ids) = includes ids id || has_duplicates ids

-- A task without duplicate rows stays as it is.
unfoldable pub fold_duplicate_assignees : TaskRecord → TaskRecord
unfolding fold_rows
fold_duplicate_assignees task =
    if has_duplicates (map (λ a. a.peer_id) task.assignees)
    then record task {
      assignees = fold_rows task.assignees;
      status = aggregate_task_status (map (λ a. a.status) (fold_rows task.assignees));
    }
    else task

abbrev pub ids : List AssigneeState → List String
ids rows = map (λ a. a.peer_id) rows

abbrev pub is_open : AssigneeState → Bool
is_open a = not (is_terminal a.status)

-- Some row of the peer is open.
abbrev pub has_open : String → List AssigneeState → Bool
has_open peer rows = any (λ a. str_eq a.peer_id peer && is_open a) rows

merged_status-open :
    (first later : TaskStatus)
    → not (is_terminal (merged_status first later))
      ≡ (not (is_terminal first) || not (is_terminal later))
unfolding merged_status
merged_status-open first later = ground arith

fold_row-ids :
    (a : AssigneeState) (rows : List AssigneeState) (peer : String)
    → includes (ids (fold_row a rows)) peer ≡ (str_eq a.peer_id peer || includes (ids rows) peer)
unfolding fold_row merge_rows
fold_row-ids a [] peer = refl
fold_row-ids a (b ∷ bs) peer = ground (
  arith,
  fold_row-ids a bs peer,
  eq_iff b.peer_id a.peer_id,
  eq_iff b.peer_id peer,
  eq_iff a.peer_id peer,
)

fold_row-distinct :
    (a : AssigneeState) (rows : List AssigneeState)
    → has_duplicates (ids rows) ≡ false
    → has_duplicates (ids (fold_row a rows)) ≡ false
unfolding fold_row merge_rows
fold_row-distinct a [] h = refl
fold_row-distinct a (b ∷ bs) h = ground (
  arith,
  h,
  fold_row-distinct a bs,
  fold_row-ids a bs b.peer_id,
  eq_iff a.peer_id b.peer_id,
  eq_iff b.peer_id a.peer_id,
)

or_swap : (a b c : Bool) → (b || (a || c)) ≡ (a || (b || c))
or_swap a b c = ground arith

merged_or :
    (same first later rest : Bool)
    → (same && (first || later) || rest) ≡ ((same && later) || ((same && first) || rest))
merged_or same first later rest = ground arith

fold_row-open :
    (a : AssigneeState) (rows : List AssigneeState) (peer : String)
    → has_open peer (fold_row a rows) ≡ ((str_eq a.peer_id peer && is_open a) || has_open peer rows)
unfolding fold_row merge_rows
fold_row-open a [] peer = refl
fold_row-open a (b ∷ bs) peer = elim (str-cases b.peer_id a.peer_id) [
  | inl (same, p) ↦
      let first : str_eq b.peer_id peer ≡ str_eq a.peer_id peer = ap (λ s. str_eq s peer) p in
      if_true_holds Opens _ _ _ same (
        ap (λ o. (str_eq b.peer_id peer && o) || has_open peer bs)
          (merged_status-open b.status a.status)
        ∙ (rw first (merged_or (str_eq a.peer_id peer) (is_open b) (is_open a) (has_open peer bs))))
  | inr (other, n) ↦ if_false_holds Opens _ _ _ other (
      ap (λ o. (str_eq b.peer_id peer && is_open b) || o) (fold_row-open a bs peer)
      ∙ or_swap _ _ (has_open peer bs))
]
  where
    Opens : List AssigneeState → Type 0
    Opens rows =
        has_open peer rows ≡ ((str_eq a.peer_id peer && is_open a) || has_open peer (b ∷ bs))

abbrev Folds : List AssigneeState → List AssigneeState → List AssigneeState → Type 0
Folds folded rows result =
    (has_duplicates (ids result) ≡ false)
    × ((peer : String)
        → includes (ids result) peer ≡ (includes (ids folded) peer || includes (ids rows) peer))
    × ((peer : String) → has_open peer result ≡ (has_open peer folded || has_open peer rows))

fold_into-Folds :
    (folded rows : List AssigneeState)
    → has_duplicates (ids folded) ≡ false
    → Folds folded rows (fold_into folded rows)
unfolding fold_into
fold_into-Folds folded [] h = (h, λ peer. ground arith, λ peer. ground arith)
fold_into-Folds folded (a ∷ rows) h =
    let rest = fold_into-Folds (fold_row a folded) rows (fold_row-distinct a folded h) in
    (
      rest.0,
      λ peer. rest.1 peer ∙ ground (arith, fold_row-ids a folded peer),
      λ peer. rest.2 peer ∙ ground (arith, fold_row-open a folded peer),
    )

-- After a fold every assignee of the task has exactly one row, no other peer has one, and a peer's row
-- is open exactly when one of its rows was open before.
pub fold_rows-Folds :
    (rows : List AssigneeState)
    → (has_duplicates (ids (fold_rows rows)) ≡ false)
      × ((peer : String) → includes (ids (fold_rows rows)) peer ≡ includes (ids rows) peer)
      × ((peer : String) → has_open peer (fold_rows rows) ≡ has_open peer rows)
unfolding fold_rows
fold_rows-Folds rows = fold_into-Folds [] rows refl
