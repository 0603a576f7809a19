-- ===== src/Hub/Renaming/Apart.antt =====
-- src/hub.ts: the operations that give out ids, `register`, `createGroup`, `deleteGroup` and
-- `renamePeer`, and that group ids and peer ids stay apart through them.
use agent_comm_hub.Prelude.{
  ℕ, ◌≡◌, ◌≢◌, refl, ap, sym, ◌∙◌, String, str_eq, str-cases, if_holds, if◌then◌else◌, Bool, true,
  false, ◌&&◌, ◌||◌, not, Option, none, some, List, [], ◌∷◌, any, includes, inl, inr, ◌⊎◌, arith,
  eq_iff,
}
use agent_comm_hub.Protocol.{TaskRecord}
use agent_comm_hub.Protocol.Status.{is_terminal}
use agent_comm_hub.Dict.{set, has}
use agent_comm_hub.Dict.Laws.{has-delete}
use agent_comm_hub.Hub.State.{Env, AgentHub}
use agent_comm_hub.Hub.Timers.{arm, schedule_task_timeout}
use agent_comm_hub.Hub.Registry.{register, owns_mailbox}
use agent_comm_hub.Hub.Groups.{create_group, delete_group}
use agent_comm_hub.Hub.Groups.Namespace.{IsApart, final, register-IsApart, create_group-IsApart}
use agent_comm_hub.Hub.Renaming.{
  move, rename_task, move_state, rename_messages, rename_tasks, rename_members, rekey, rename_peer,
}
use agent_comm_hub.Hub.Renaming.Folding.{fold_duplicate_assignees}
use agent_comm_hub.Hub.Renaming.Keys.{
  Keeps, rekey-Keeps, seen-has, parked-has, has-move, has-map_values,
}

arm-groups :
    (env : Env) (id : String) (deadline : Option ℕ) (h : AgentHub)
    → (arm env id deadline h).groups ≡ h.groups
arm-groups env id none h = refl
arm-groups env id (some t) h = refl

rename_tasks-groups :
    (old new : String) (env : Env) (is_group : Bool) (tasks : List (String × TaskRecord))
    (h : AgentHub)
    → (rename_tasks old new env is_group tasks h).groups ≡ h.groups
unfolding rename_tasks schedule_task_timeout
rename_tasks-groups old new env is_group [] h = refl
rename_tasks-groups old new env is_group ((id, task) ∷ tasks) h =
    let renamed_task = rename_task old new is_group task in
    let folded = fold_duplicate_assignees renamed_task in
    let h' = record h { task_ledger = set id folded h.task_ledger } in
    let next =
      (if is_terminal renamed_task.status && not (is_terminal folded.status)
        then schedule_task_timeout env folded h'
        else h') in
    rename_tasks-groups old new env is_group tasks next
    ∙ if_holds (λ (k : AgentHub). k.groups ≡ h.groups)
        (is_terminal renamed_task.status && not (is_terminal folded.status))
        (arm-groups env folded.id folded.deadline_at h') refl

rename_members-groups :
    (old new : String) (h : AgentHub) (j : String)
    → has j (rename_members old new h).groups ≡ has j h.groups
unfolding rename_members
rename_members-groups old new h j =
    if_holds (λ (k : AgentHub). has j k.groups ≡ has j h.groups)
      (any (λ e. includes e.1.members old) h.groups) (has-map_values _ h.groups j)
      (has-map_values _ h.groups j)

rekey-groups :
    (old new : String) (env : Env) (h : AgentHub) (j : String)
    → has j (rekey old new env h).groups ≡ has j h.groups
unfolding rekey rename_messages move_state
rekey-groups old new env h j =
    let h1 = rename_messages old new (move_state old new env h) in
    rename_members-groups old new (rename_tasks old new env (has old h.groups) h1.task_ledger h1) j
    ∙ ap (λ d. has j d) (rename_tasks-groups old new env (has old h.groups) h1.task_ledger h1)

queues-has :
    (old new : String) (env : Env) (h : AgentHub) (j : String)
    → has j (rename_messages old new (move_state old new env h)).queues
      ≡ has j (move old new h.queues)
unfolding rename_messages move_state
queues-has old new env h j = has-map_values _ (move old new h.queues) j

stays_apart :
    (is_old g s p q is_new both g' s' p' q' : Bool)
    → is_new ≡ false
    → g' ≡ g
    → s' ≡ (is_new || (not is_old && s))
    → p' ≡ (not is_new && (not is_old && p))
    → q' ≡ (if is_new then both else not is_old && q)
    → (g && (s || (p || q))) ≡ false
    → (g' && (s' || (p' || q'))) ≡ false
stays_apart is_old g s p q is_new both g' s' p' q' n eg es ep eq h =
    ground (arith, n, eg, es, ep, eq, h)

rekey-IsApart :
    (old new : String) (env : Env) (h : AgentHub)
    → old ≢ new
    → has new h.groups ≡ false
    → IsApart h
    → IsApart (rekey old new env h)
rekey-IsApart old new env h n free a = record { apart = λ j. apart_at j (str-cases new j) }
  where
    k : Keeps (rename_messages old new (move_state old new env h)) (rekey old new env h)
    k = rekey-Keeps old new env h

    seen :
        (j : String)
        → has j (rekey old new env h).last_seen
          ≡ (str_eq new j || (not (str_eq old j) && has j h.last_seen))
    seen j = ap (λ d. has j d) k.4 ∙ seen-has old new env h j

    parked :
        (j : String)
        → has j (rekey old new env h).parked_at
          ≡ (not (str_eq new j) && (not (str_eq old j) && has j h.parked_at))
    parked j = ap (λ d. has j d) k.5 ∙ parked-has old new env h j

    queued :
        (j : String)
        → has j (rekey old new env h).queues ≡ (
            if str_eq new j
            then has old h.queues || has j h.queues
            else not (str_eq old j) && has j h.queues)
    queued j = ap (λ d. has j d) k.0 ∙ queues-has old new env h j ∙ has-move old new j h.queues n

    apart_at :
        (j : String)
        → ((str_eq new j ≡ true) × (new ≡ j)) ⊎ ((str_eq new j ≡ false) × (new ≢ j))
        → (has j (rekey old new env h).groups
            && (has j (rekey old new env h).last_seen || owns_mailbox j (rekey old new env h)))
          ≡ false
    apart_at j (inl (same, p)) =
        let none_there : has j (rekey old new env h).groups ≡ false =
          rekey-groups old new env h j ∙ ap (λ i. has i h.groups) (sym p) ∙ free in
        rw none_there refl
    apart_at j (inr (other, m)) =
        stays_apart (str_eq old j) (has j h.groups) (has j h.last_seen) (has j h.parked_at)
          (has j h.queues) (str_eq new j) _ _ _ _ _ other (rekey-groups old new env h j) (seen j)
          (parked j) (queued j) (a.apart j)

rename_peer-IsApart :
    (env : Env) (old new : String) (h : AgentHub)
    → IsApart h
    → IsApart (final h (rename_peer env old new h))
unfolding rename_peer
rename_peer-IsApart env old new h a = ground (arith, a, rekey_apart)
  where
    rekey_apart : str_eq old new ≡ false → has new h.groups ≡ false → IsApart (rekey old new env h)
    rekey_apart n free =
        rekey-IsApart old new env h (λ e. ground (arith, n, (eq_iff old new).1 e)) free a

delete_group-IsApart : (id : String) (h : AgentHub) → IsApart h → IsApart (delete_group id h).1
unfolding delete_group
delete_group-IsApart id h a =
    if_holds (λ (out : Bool × AgentHub). IsApart out.1) (has id h.groups)
      (record { apart = λ j. ground (arith, has-delete j id h.groups, a.apart j) }) a

-- One operation that gives out or takes back an id, or that renames a peer, whether it succeeds or not.
pub data NameStep : AgentHub → AgentHub → Type 0 where
  registers :
      (env : Env) (id : String) (name version : Option String) (reclaim : Bool) (h : AgentHub)
      → NameStep h (final h (register env id name version reclaim h))
  creates :
      (env : Env) (id : String) (members : List String) (creator : String) (name : Option String)
      (h : AgentHub)
      → NameStep h (final h (create_group env id members creator name h))
  deletes : (id : String) (h : AgentHub) → NameStep h (delete_group id h).1
  renames :
      (env : Env) (old new : String) (h : AgentHub)
      → NameStep h (final h (rename_peer env old new h))

pub data NameSteps (h : AgentHub) : AgentHub → Type 0 where
  here : NameSteps h h
  next : {k l : AgentHub} → NameSteps h k → NameStep k l → NameSteps h l

NameStep-IsApart : {h k : AgentHub} → NameStep h k → IsApart h → IsApart k
NameStep-IsApart (registers env id name version reclaim h) a =
    register-IsApart env id name version reclaim h a
NameStep-IsApart (creates env id members creator name h) a =
    create_group-IsApart env id members creator name h a
NameStep-IsApart (deletes id h) a = delete_group-IsApart id h a
NameStep-IsApart (renames env old new h) a = rename_peer-IsApart env old new h a

-- If no id is at once a group and a peer that is registered or has a mailbox, then none is after any
-- sequence of registering peers, creating and deleting groups and renaming peers, whether each of these
-- succeeds or is refused.
pub NameSteps-IsApart : {h k : AgentHub} → NameSteps h k → IsApart h → IsApart k
NameSteps-IsApart here a = a
NameSteps-IsApart (next steps step) a = NameStep-IsApart step (NameSteps-IsApart steps a)
