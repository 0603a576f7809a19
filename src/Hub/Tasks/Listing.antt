-- ===== src/Hub/Tasks/Listing.antt =====
-- src/hub.ts: `listTasks`.
use agent_comm_hub.Prelude.{
  ℕ, zero, suc, ◌≤◌, ◌≡◌, refl, ap, sym, ◌∙◌, subst, String, str_eq, leb, ◌==◌, min, max,
  if◌then◌else◌, Bool, true, false, Bool-cases, inl, inr, ◌&&◌, ◌||◌, Option, none, some, List, [],
  ◌∷◌, ◌++◌, length, take, drop, take-drop, any, Perm, All, All-mono, All-drop, arith,
}
use agent_comm_hub.Protocol.{TaskRecord, broadcast}
use agent_comm_hub.Protocol.Status.{TaskStatus}
use agent_comm_hub.Dict.{get, values}
use agent_comm_hub.Hub.State.{AgentHub, GroupState}
use agent_comm_hub.Hub.Notes.{published}
use mathlib.Core.List.Perm

pub data Role : Type 0 where
  sent received all_roles : Role

-- `peer` is `none` for 'all'.
pub record Listing : Type 0 where
  pub peer : Option String
  pub role : Role
  pub status : Option TaskStatus
  pub limit : Option ℕ

abbrev status_number : TaskStatus → ℕ
status_number TaskStatus.pending = 0
status_number TaskStatus.accepted = 1
status_number TaskStatus.working = 2
status_number TaskStatus.input_required = 3
status_number TaskStatus.rejected = 4
status_number TaskStatus.done = 5
status_number TaskStatus.failed = 6
status_number TaskStatus.timeout = 7
status_number TaskStatus.canceled = 8

abbrev has_status : Option TaskStatus → TaskRecord → Bool
has_status none task = true
has_status (some status) task = status_number task.status == status_number status

abbrev is_member : Option GroupState → String → Bool
is_member none peer = false
is_member (some g) peer = any (λ m. str_eq m peer) g.members

abbrev pub is_received : String → AgentHub → TaskRecord → Bool
is_received peer h task =
    str_eq task.to peer
    || str_eq task.to broadcast
    || any (λ a. str_eq a.peer_id peer) task.assignees
    || is_member (get task.to h.groups) peer

abbrev has_role : Role → String → AgentHub → TaskRecord → Bool
has_role Role.sent peer h task = str_eq task.from peer
has_role Role.received peer h task = is_received peer h task
has_role Role.all_roles peer h task = str_eq task.from peer || is_received peer h task

abbrev concerns : Option String → Role → AgentHub → TaskRecord → Bool
concerns none role h task = true
concerns (some peer) role h task = has_role role peer h task

abbrev pub is_listed : Listing → AgentHub → TaskRecord → Bool
is_listed listing h task =
    concerns listing.peer listing.role h task && has_status listing.status task

abbrev push_some : Option TaskRecord → List TaskRecord → List TaskRecord
push_some none tasks = tasks
push_some (some task) tasks = published task ∷ tasks

-- The copies of the tasks that are listed, in the order of the ledger.
unfoldable pub collect : Listing → AgentHub → List TaskRecord → List TaskRecord
collect listing h [] = []
collect listing h (task ∷ tasks) =
    if is_listed listing h task
    then push_some (get task.id h.task_ledger) (collect listing h tasks)
    else collect listing h tasks

-- `sort((a, b) => b.updatedAt - a.updatedAt)`, which is stable.
unfoldable pub insert_newest : TaskRecord → List TaskRecord → List TaskRecord
insert_newest t [] = t ∷ []
insert_newest t (u ∷ us) =
    if leb u.updated_at t.updated_at then t ∷ u ∷ us else u ∷ insert_newest t us

unfoldable pub newest_first : List TaskRecord → List TaskRecord
newest_first [] = []
newest_first (t ∷ ts) = insert_newest t (newest_first ts)

abbrev pub list_limit : Option ℕ → ℕ
list_limit none = 50
list_limit (some n) = max 1 n

unfoldable pub list_tasks : Listing → AgentHub → List TaskRecord
unfolding collect newest_first
list_tasks listing h =
    take (list_limit listing.limit) (newest_first (collect listing h (values h.task_ledger)))

abbrev pub IsNewestFirst : List TaskRecord → Type 0
IsNewestFirst [] = Unit
IsNewestFirst (t ∷ ts) = All (λ u. u.updated_at ≤ t.updated_at) ts × IsNewestFirst ts

All-insert_newest :
    (P : TaskRecord → Type 0) (t : TaskRecord) (ts : List TaskRecord)
    → P t
    → All P ts
    → All P (insert_newest t ts)
unfolding insert_newest
All-insert_newest P t [] p h = (p, tt)
All-insert_newest P t (u ∷ us) p h = elim (Bool-cases (leb u.updated_at t.updated_at)) [
  | inl before ↦ rw before (p, h)
  | inr after ↦ rw after (h.0, All-insert_newest P t us p h.1)
]

insert_newest-IsNewestFirst :
    (t : TaskRecord) (ts : List TaskRecord) → IsNewestFirst ts → IsNewestFirst (insert_newest t ts)
unfolding insert_newest
insert_newest-IsNewestFirst t [] h = (tt, tt)
insert_newest-IsNewestFirst t (u ∷ us) h = elim (Bool-cases (leb u.updated_at t.updated_at)) [
  | inl before ↦
      let le : u.updated_at ≤ t.updated_at = ground (arith, before) in
      rw before ((le, All-mono _ us (λ v k. omega (arith, k, le)) h.0), h)
  | inr after ↦ rw after (
    All-insert_newest (λ v. v.updated_at ≤ u.updated_at) t us (ground (arith, after)) h.0,
    insert_newest-IsNewestFirst t us h.1,
  )
]

newest_first-IsNewestFirst : (ts : List TaskRecord) → IsNewestFirst (newest_first ts)
unfolding newest_first
newest_first-IsNewestFirst [] = tt
newest_first-IsNewestFirst (t ∷ ts) =
    insert_newest-IsNewestFirst t _ (newest_first-IsNewestFirst ts)

insert_newest-perm : (t : TaskRecord) (ts : List TaskRecord) → Perm (insert_newest t ts) (t ∷ ts)
unfolding insert_newest
insert_newest-perm t [] = Perm.refl (t ∷ [])
insert_newest-perm t (u ∷ us) = elim (Bool-cases (leb u.updated_at t.updated_at)) [
  | inl before ↦ rw before (Perm.refl (t ∷ u ∷ us))
  | inr after ↦ rw after (Perm.trans (Perm.cons u (insert_newest-perm t us)) (Perm.swap t u us))
]

newest_first-perm : (ts : List TaskRecord) → Perm (newest_first ts) ts
unfolding newest_first
newest_first-perm [] = Perm.refl []
newest_first-perm (t ∷ ts) =
    Perm.trans (insert_newest-perm t (newest_first ts)) (Perm.cons t (newest_first-perm ts))

All-take : (P : TaskRecord → Type 0) (n : ℕ) (ts : List TaskRecord) → All P ts → All P (take n ts)
All-take P zero ts h = tt
All-take P (suc n) [] h = tt
All-take P (suc n) (t ∷ ts) h = (h.0, All-take P n ts h.1)

take-IsNewestFirst : (n : ℕ) (ts : List TaskRecord) → IsNewestFirst ts → IsNewestFirst (take n ts)
take-IsNewestFirst zero ts h = tt
take-IsNewestFirst (suc n) [] h = tt
take-IsNewestFirst (suc n) (t ∷ ts) h = (All-take _ n ts h.0, take-IsNewestFirst n ts h.1)

rest_is_older :
    (n : ℕ) (ts : List TaskRecord)
    → IsNewestFirst ts
    → All (λ t. All (λ u. u.updated_at ≤ t.updated_at) (drop n ts)) (take n ts)
rest_is_older zero ts h = tt
rest_is_older (suc n) [] h = tt
rest_is_older (suc n) (t ∷ ts) h = (All-drop _ n ts h.0, rest_is_older n ts h.1)

length-insert_newest :
    (t : TaskRecord) (ts : List TaskRecord) → length (insert_newest t ts) ≡ suc (length ts)
unfolding insert_newest
length-insert_newest t [] = refl
length-insert_newest t (u ∷ us) = elim (Bool-cases (leb u.updated_at t.updated_at)) [
  | inl before ↦ rw before refl
  | inr after ↦ rw after (ap suc (length-insert_newest t us))
]

length-newest_first : (ts : List TaskRecord) → length (newest_first ts) ≡ length ts
unfolding newest_first
length-newest_first [] = refl
length-newest_first (t ∷ ts) =
    length-insert_newest t (newest_first ts) ∙ ap suc (length-newest_first ts)

length-take : (n : ℕ) (ts : List TaskRecord) → length (take n ts) ≡ min n (length ts)
length-take zero ts = omega arith
length-take (suc n) [] = omega arith
length-take (suc n) (t ∷ ts) = let rest = length-take n ts in omega (arith, rest)

-- `listTasks` gives the tasks newest first, as many as the limit allows (50 when none is given, and at
-- least one), and it leaves out none that is newer than one it gives: its result and some rest, no task of
-- which was updated after one of the result, are together the copies of the tasks that match, in another
-- order.
pub list_tasks_lem :
    (listing : Listing) (h : AgentHub)
    → IsNewestFirst (list_tasks listing h)
      × (length (list_tasks listing h)
          ≡ min (list_limit listing.limit) (length (collect listing h (values h.task_ledger))))
      × ((rest : List TaskRecord) × Perm
            (list_tasks listing h ++ rest)
            (collect listing h (values h.task_ledger))
          × All (λ t. All (λ u. u.updated_at ≤ t.updated_at) rest) (list_tasks listing h))
unfolding list_tasks
list_tasks_lem listing h =
    let all = collect listing h (values h.task_ledger) in
    let n = list_limit listing.limit in
    let sorted = newest_first-IsNewestFirst all in
    (
      take-IsNewestFirst n (newest_first all) sorted,
      length-take n (newest_first all) ∙ ap (min n) (length-newest_first all),
      (
        drop n (newest_first all),
        subst (λ ts. Perm ts all) (sym (take-drop n (newest_first all))) (newest_first-perm all),
        rest_is_older n (newest_first all) sorted,
      ),
    )
