-- ===== src/Hub/Renaming/Keys.antt =====
-- src/hub.ts, `renamePeer`: what the hub holds under one id after a rename.
use agent_comm_hub.Prelude.{
  ℕ, ◌≡◌, ◌≢◌, refl, ap, sym, ◌∙◌, String, str_eq, str-cases, str_eq-false, if◌then◌else◌, if_holds,
  Bool, false, Bool-cases, ◌&&◌, ◌||◌, not, Option, none, some, List, [], ◌∷◌, map, any, includes,
  inl, inr, arith,
}
use agent_comm_hub.Protocol.{BridgeMessage, TaskRecord}
use agent_comm_hub.Protocol.Status.{is_terminal}
use agent_comm_hub.Dict.{Dict, get, set, has, delete}
use agent_comm_hub.Dict.Laws.{get-set, get-delete, has-set, has-delete}
use agent_comm_hub.Hub.State.{Env, AgentHub, Waiter, Lease}
use agent_comm_hub.Hub.Outcome.{done}
use agent_comm_hub.Hub.Timers.{arm, schedule_task_timeout}
use agent_comm_hub.Hub.Registry.{owns_mailbox}
use agent_comm_hub.Hub.Renaming.Folding.{fold_duplicate_assignees}
use agent_comm_hub.Hub.Renaming.{
  or_else, move, put_some, map_values, rename_shared, rename_lease, rename_waiter, rename_task,
  move_state, rename_messages, rename_tasks, rename_members, rekey, rename_peer,
}

-- What is left of the entries of one key by `view`, and nothing where there are none.
abbrev pub viewed {ℓ κ} : {A : Type ℓ} {B : Type κ} → (A → B) → Option (List A) → List B
viewed view none = []
viewed view (some xs) = map view xs

-- The messages of a mailbox by their ids.
abbrev pub held : Option (List BridgeMessage) → List String
held = viewed (λ m. m.id)

-- A lease by its message and its end, and a waiter by all but the sender that it waits for.
abbrev pub leased : Option (List Lease) → List (String × ℕ)
leased = viewed (λ l. (l.message.id, l.expires_at))

abbrev pub waiting : Option (List Waiter) → List Waiter
waiting = viewed (λ (w : Waiter). record w { from = none })

viewed-map {ℓ κ} :
    {A : Type ℓ} {B : Type κ} (view : A → B) (f : A → A) (xs : List A)
    → ((a : A) → view (f a) ≡ view a)
    → map view (map f xs) ≡ map view xs
viewed-map view f [] e = refl
viewed-map view f (a ∷ xs) e = rw (e a, viewed-map view f xs e) refl

-- A change of the entries that `view` does not see.
viewed-map_values {ℓ κ} :
    {A : Type ℓ} {B : Type κ} (view : A → B) (f : A → A) (d : Dict (List A)) (j : String)
    → ((a : A) → view (f a) ≡ view a)
    → viewed view (get j (map_values (map f) d)) ≡ viewed view (get j d)
unfolding get
viewed-map_values view f [] j e = refl
viewed-map_values view f ((k, xs) ∷ d) j e = elim (Bool-cases (str_eq k j)) [
  | inl same ↦ rw same (viewed-map view f xs e)
  | inr other ↦ rw other (viewed-map_values view f d j e)
]

rename_shared-id :
    (old new : String) (ring : List BridgeMessage) (m : BridgeMessage)
    → (rename_shared old new ring m).id ≡ m.id
rename_shared-id old new ring m =
    if_holds (λ (q : BridgeMessage). q.id ≡ m.id) (any (λ r. str_eq r.id m.id) ring) refl refl

pub has-map_values {ℓ κ} :
    {A : Type ℓ} {B : Type κ} (f : A → B) (d : Dict A) (j : String)
    → has j (map_values f d) ≡ has j d
unfolding has get
has-map_values f [] j = refl
has-map_values f ((k, a) ∷ d) j = elim (Bool-cases (str_eq k j)) [
  | inl same ↦ rw (has, same) refl
  | inr other ↦ rw (has, other) (has-map_values f d j)
]

pub get-move {ℓ} :
    {A : Type ℓ} (old new j : String) (d : Dict A)
    → old ≢ new
    → get j (move old new d) ≡ (
        if str_eq new j
        then or_else (get old d) (get j d)
        else (if str_eq old j then none else get j d))
unfolding move
get-move {A = A} old new j d n = by_value (get old d)
  where
    by_value :
        (o : Option A)
        → get j (put_some new o (delete old d))
          ≡ (if str_eq new j then or_else o (get j d) else (if str_eq old j then none else get j d))
    by_value none = elim (str-cases new j) [
      | inl (same, p) ↦
          get-delete j old d ∙ (rw (same, str_eq-false old j (λ e. n (e ∙ sym p))) refl)
      | inr (other, q) ↦ get-delete j old d ∙ (rw other refl)
    ]
    by_value (some a) = get-set j new a (delete old d) ∙ (rw (get-delete j old d) refl)

-- What the ledger, the timers and the groups have no part in.
abbrev pub Keeps : AgentHub → AgentHub → Type 0
Keeps h h' =
    (h'.queues ≡ h.queues)
    × (h'.waiters ≡ h.waiters)
    × (h'.leases ≡ h.leases)
    × (h'.dead_letters ≡ h.dead_letters)
    × (h'.last_seen ≡ h.last_seen)
    × (h'.parked_at ≡ h.parked_at)

Keeps-trans : (h h' h'' : AgentHub) → Keeps h h' → Keeps h' h'' → Keeps h h''
Keeps-trans h h' h'' a b = (b.0 ∙ a.0, b.1 ∙ a.1, b.2 ∙ a.2, b.3 ∙ a.3, b.4 ∙ a.4, b.5 ∙ a.5)

pub arm-Keeps :
    (env : Env) (id : String) (deadline : Option ℕ) (h : AgentHub) → Keeps h (arm env id deadline h)
arm-Keeps env id none h = (refl, refl, refl, refl, refl, refl)
arm-Keeps env id (some t) h = (refl, refl, refl, refl, refl, refl)

pub schedule-Keeps :
    (env : Env) (task : TaskRecord) (h : AgentHub) → Keeps h (schedule_task_timeout env task h)
unfolding schedule_task_timeout
schedule-Keeps env task h = arm-Keeps env task.id task.deadline_at h

pub rename_tasks-Keeps :
    (old new : String) (env : Env) (is_group : Bool) (tasks : List (String × TaskRecord))
    (h : AgentHub)
    → Keeps h (rename_tasks old new env is_group tasks h)
unfolding rename_tasks
rename_tasks-Keeps old new env is_group [] h = (refl, refl, refl, refl, refl, refl)
rename_tasks-Keeps old new env is_group ((id, task) ∷ tasks) h =
    let renamed_task = rename_task old new is_group task in
    let folded = fold_duplicate_assignees renamed_task in
    let h' = record h { task_ledger = set id folded h.task_ledger } in
    let next =
      (if is_terminal renamed_task.status && not (is_terminal folded.status)
        then schedule_task_timeout env folded h'
        else h') in
    Keeps-trans h next (rename_tasks old new env is_group tasks next)
      (if_holds (Keeps h) (is_terminal renamed_task.status && not (is_terminal folded.status))
        (schedule-Keeps env folded h') (refl, refl, refl, refl, refl, refl))
      (rename_tasks-Keeps old new env is_group tasks next)

pub rename_members-Keeps : (old new : String) (h : AgentHub) → Keeps h (rename_members old new h)
unfolding rename_members
rename_members-Keeps old new h =
    if_holds (Keeps h) (any (λ e. includes e.1.members old) h.groups)
      (refl, refl, refl, refl, refl, refl) (refl, refl, refl, refl, refl, refl)

pub rekey-Keeps :
    (old new : String) (env : Env) (h : AgentHub)
    → Keeps (rename_messages old new (move_state old new env h)) (rekey old new env h)
unfolding rekey
rekey-Keeps old new env h =
    let h1 = rename_messages old new (move_state old new env h) in
    let h2 = rename_tasks old new env (has old h.groups) h1.task_ledger h1 in
    Keeps-trans h1 h2 (rekey old new env h)
      (rename_tasks-Keeps old new env (has old h.groups) h1.task_ledger h1)
      (rename_members-Keeps old new h2)

-- What the guards of `rename_peer` leave open.
pub renamed-Free :
    (env : Env) (old new : String) (h h' : AgentHub)
    → rename_peer env old new h ≡ done tt h'
    → old ≢ new
    → (rekey old new env h ≡ h') × (has new h.last_seen ≡ false) × (owns_mailbox new h ≡ false)
unfolding rename_peer
renamed-Free env old new h h' e n = ground (arith, e, str_eq-false old new n)

pub queue-get :
    (old new : String) (env : Env) (h : AgentHub) (j : String)
    → held (get j (rename_messages old new (move_state old new env h)).queues)
      ≡ held (get j (move old new h.queues))
unfolding rename_messages move_state
queue-get old new env h j =
    viewed-map_values _ _ (move old new h.queues) j (rename_shared-id old new h.history_ring)

pub dead-get :
    (old new : String) (env : Env) (h : AgentHub) (j : String)
    → held (get j (rename_messages old new (move_state old new env h)).dead_letters)
      ≡ held (get j (move old new h.dead_letters))
unfolding rename_messages move_state
dead-get old new env h j =
    viewed-map_values _ _ (move old new h.dead_letters) j (rename_shared-id old new h.history_ring)

pub leases-get :
    (old new : String) (env : Env) (h : AgentHub) (j : String)
    → leased (get j (rename_messages old new (move_state old new env h)).leases)
      ≡ leased (get j (move old new h.leases))
unfolding rename_messages move_state
leases-get old new env h j =
    viewed-map_values _ (rename_lease old new h.history_ring) (move old new h.leases) j
      (λ l. ap (λ i. (i, l.expires_at)) (rename_shared-id old new h.history_ring l.message))

pub waiters-get :
    (old new : String) (env : Env) (h : AgentHub) (j : String)
    → waiting (get j (rename_messages old new (move_state old new env h)).waiters)
      ≡ waiting (get j (move old new h.waiters))
unfolding rename_messages move_state
waiters-get old new env h j =
    viewed-map_values _ (rename_waiter old new) (move old new h.waiters) j (λ w. refl)

pub seen-has :
    (old new : String) (env : Env) (h : AgentHub) (j : String)
    → has j (rename_messages old new (move_state old new env h)).last_seen
      ≡ (str_eq new j || (not (str_eq old j) && has j h.last_seen))
unfolding rename_messages move_state
seen-has old new env h j =
    has-set j new _ (delete old h.last_seen)
    ∙ ap (λ b. str_eq new j || b) (has-delete j old h.last_seen)

pub parked-has :
    (old new : String) (env : Env) (h : AgentHub) (j : String)
    → has j (rename_messages old new (move_state old new env h)).parked_at
      ≡ (not (str_eq new j) && (not (str_eq old j) && has j h.parked_at))
unfolding rename_messages move_state
parked-has old new env h j =
    has-delete j new (delete old h.parked_at)
    ∙ ap (λ b. not (str_eq new j) && b) (has-delete j old h.parked_at)

pub has-move {ℓ} :
    {A : Type ℓ} (old new j : String) (d : Dict A)
    → old ≢ new
    → has j (move old new d)
      ≡ (if str_eq new j then has old d || has j d else not (str_eq old j) && has j d)
unfolding has
has-move old new j d n = ground (arith, get-move old new j d n)

pub or_else-none {ℓ} : {A : Type ℓ} (o : Option A) → or_else o none ≡ o
or_else-none none = refl
or_else-none (some a) = refl
