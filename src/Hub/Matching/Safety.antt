-- ===== src/Hub/Matching/Safety.antt =====
-- Who can end a wait for the outcome of a task.
use agent_comm_hub.Prelude.{
  ◌≡◌, ◌⊎◌, refl, String, str_eq, opt_str_eq, eq_iff, true, false, Option, none, some, inl, inr,
  List, [], ◌∷◌, any, Any, arith, ap, subst,
}
use agent_comm_hub.Protocol.{
  BridgeMessage, TaskRecord, AssigneeState, AckContent, MessageKind, Content, hub_peer, is_ack,
  is_chat,
}
use agent_comm_hub.Protocol.Status.{AckStatus, is_terminal, ack_to_task_status}
use agent_comm_hub.Dict.{Dict, get}
use agent_comm_hub.Hub.State.{Waiter}
use agent_comm_hub.Hub.Matching.{
  matches_waiter, ref_passes, party_allows, sender_passes, thread_passes, is_party, lists_status,
  status_passes, ack_eq, ack_status_of, content_status,
}

-- The acks after which a task is over for its sender.
abbrev pub IsFinal : AckStatus → Type 0
IsFinal AckStatus.accepted = ⊥
IsFinal AckStatus.working = ⊥
IsFinal AckStatus.input_required = ⊥
IsFinal _ = Unit

-- What a wait asks for, and anything where it does not ask.
abbrev pub Asked : Option String → String → Type 0
Asked none s = Unit
Asked (some t) s = s ≡ t

abbrev pub AskedOption : Option String → Option String → Type 0
AskedOption none s = Unit
AskedOption (some t) s = s ≡ some t

abbrev pub Listed : Option (List AckStatus) → AckStatus → Type 0
Listed none s = Unit
Listed (some ss) s = Any (λ t. t ≡ s) ss

abbrev pub IsParty : String → TaskRecord → Type 0
IsParty peer task =
    (task.from ≡ peer) ⊎ Any (λ (a : AssigneeState). a.peer_id ≡ peer) task.assignees

-- The status of an ack, and nothing else has one.
pub data HasStatus (m : BridgeMessage) : AckStatus → Type 0 where
  ack_of :
      (a : AckContent)
      → m.kind ≡ MessageKind.ack
      → m.content ≡ Content.ack_content a
      → HasStatus m a.status

pub data Filtered (w : Waiter) (m : BridgeMessage) : Type 0 where
  unfiltered : w.statuses ≡ none → w.terminal_only ≡ false → Filtered w m
  with_status :
      (s : AckStatus)
      → HasStatus m s
      → Listed w.statuses s
      → (w.terminal_only ≡ false) ⊎ IsFinal s
      → Filtered w m

pub data Answers (w : Waiter) (r : String) (task : TaskRecord) (m : BridgeMessage) : Type 0 where
  of_hub : m.from ≡ hub_peer → Answers w r task m
  of_ack :
      m.kind ≡ MessageKind.ack
      → m.ref ≡ some r
      → Asked w.from m.from
      → Filtered w m
      → Answers w r task m
  of_party :
      m.kind ≡ MessageKind.chat
      → m.ref ≡ some r
      → Asked w.from m.from
      → IsParty m.from task
      → Filtered w m
      → Answers w r task m

any_assignee :
    (peer : String) (rows : List AssigneeState)
    → any (λ a. str_eq a.peer_id peer) rows ≡ true
    → Any (λ (a : AssigneeState). a.peer_id ≡ peer) rows
any_assignee peer [] h = ground (arith, h)
any_assignee peer (a ∷ rows) h = ground (arith, h, eq_iff a.peer_id peer, any_assignee peer rows)

is_party-IsParty :
    (peer : String) (task : TaskRecord) → is_party peer task ≡ true → IsParty peer task
is_party-IsParty peer task h =
    ground (arith, h, eq_iff task.from peer, any_assignee peer task.assignees)

ack_eq-eq : (s t : AckStatus) → ack_eq s t ≡ true → t ≡ s
ack_eq-eq s t h = ground (arith, h)

any_status : (s : AckStatus) (ss : List AckStatus) → any (ack_eq s) ss ≡ true → Any (λ t. t ≡ s) ss
any_status s [] h = ground (arith, h)
any_status s (t ∷ ss) h = ground (arith, h, ack_eq-eq s t, any_status s ss)

lists_status-Listed :
    (o : Option (List AckStatus)) (s : AckStatus) → lists_status o s ≡ true → Listed o s
lists_status-Listed none s h = tt
lists_status-Listed (some ss) s h = any_status s ss h

terminal-IsFinal : (s : AckStatus) → is_terminal (ack_to_task_status s) ≡ true → IsFinal s
unfolding ack_to_task_status
terminal-IsFinal s h = ground (arith, h)

is_ack-eq : (k : MessageKind) → is_ack k ≡ true → k ≡ MessageKind.ack
is_ack-eq k h = ground (arith, h)

is_chat-eq : (k : MessageKind) → is_chat k ≡ true → k ≡ MessageKind.chat
is_chat-eq k h = ground (arith, h)

sender-Asked : (o : Option String) (m : BridgeMessage) → sender_passes o m ≡ true → Asked o m.from
sender-Asked none m h = tt
sender-Asked (some f) m h = (eq_iff m.from f).0 h

opt_str_eq-eq : (a : Option String) (r : String) → opt_str_eq a (some r) ≡ true → a ≡ some r
opt_str_eq-eq none r h = ground (arith, h)
opt_str_eq-eq (some s) r h = ap some ((eq_iff s r).0 h)

thread-Asked :
    (o : Option String) (m : BridgeMessage) → thread_passes o m ≡ true → AskedOption o m.thread_id
thread-Asked none m h = tt
thread-Asked (some t) m h = opt_str_eq-eq m.thread_id t h

content-HasStatus :
    (m : BridgeMessage) (s : AckStatus) (c : Content)
    → m.kind ≡ MessageKind.ack
    → m.content ≡ c
    → content_status c ≡ some s
    → HasStatus m s
content-HasStatus m s (Content.ack_content a) k e h =
    subst (HasStatus m) (ground (arith, h)) (ack_of a k e)
content-HasStatus m s (Content.text t) k e h = absurd (ground (arith, h))
content-HasStatus m s (Content.task_content t) k e h = absurd (ground (arith, h))
content-HasStatus m s (Content.notice_content t l) k e h = absurd (ground (arith, h))

message-HasStatus : (m : BridgeMessage) (s : AckStatus) → ack_status_of m ≡ some s → HasStatus m s
unfolding ack_status_of
message-HasStatus m s h =
    content-HasStatus m s m.content (is_ack-eq m.kind (ground (arith, h))) refl (ground (arith, h))

status-Filtered :
    (w : Waiter) (m : BridgeMessage) (o : Option AckStatus)
    → ack_status_of m ≡ o
    → status_passes w o ≡ true
    → Filtered w m
status-Filtered w m none e h = absurd (ground (arith, h))
status-Filtered w m (some s) e h =
    with_status s (message-HasStatus m s e) (lists_status-Listed w.statuses s (ground (arith, h)))
      (ground (arith, h, terminal-IsFinal s))

Passed : Waiter → String → Option TaskRecord → BridgeMessage → Type 0
Passed w r task m =
    (sender_passes w.from m ≡ true)
    × (opt_str_eq m.ref (some r) ≡ true)
    × ((is_ack m.kind ≡ true) ⊎ ((is_chat m.kind ≡ true) × (party_allows m.from task ≡ true)))
    × (((w.statuses ≡ none) × (w.terminal_only ≡ false))
        ⊎ (status_passes w (ack_status_of m) ≡ true))

passes :
    (w : Waiter) (m : BridgeMessage) (ledger : Dict TaskRecord) (r : String)
    → w.ref ≡ some r
    → matches_waiter w m ledger ≡ true
    → ((str_eq m.from hub_peer ≡ true) ⊎ Passed w r (get r ledger) m)
      × (thread_passes w.thread_id m ≡ true)
unfolding matches_waiter ref_passes Passed
passes w m ledger r e hit = ground (arith, e, hit)

passes-Filtered :
    (w : Waiter) (m : BridgeMessage)
    → ((w.statuses ≡ none) × (w.terminal_only ≡ false)) ⊎ (status_passes w (ack_status_of m) ≡ true)
    → Filtered w m
passes-Filtered w m (inl (s, t)) = unfiltered s t
passes-Filtered w m (inr h) = status-Filtered w m (ack_status_of m) refl h

Passed-Answers :
    (w : Waiter) (r : String) (task : TaskRecord) (m : BridgeMessage)
    → Passed w r (some task) m
    → Answers w r task m
unfolding Passed
Passed-Answers w r task m (from, ref, inl is_an_ack, status) =
    of_ack (is_ack-eq m.kind is_an_ack) (opt_str_eq-eq m.ref r ref) (sender-Asked w.from m from)
      (passes-Filtered w m status)
Passed-Answers w r task m (from, ref, inr (is_a_chat, party), status) =
    of_party (is_chat-eq m.kind is_a_chat) (opt_str_eq-eq m.ref r ref) (sender-Asked w.from m from)
      (is_party-IsParty m.from task party) (passes-Filtered w m status)

-- A message that ends a wait for the outcome of a task of the ledger is of the thread that the wait asks
-- for, if it asks for one. It comes from the hub, or it names the task, is of the sender that the wait
-- asks for, if it asks for one, and is an ack, or a chat of the sender of the task or of one of its
-- assignees; and if the wait lists statuses or asks for final ones only, it is an ack whose status is
-- listed and, in the other case, final.
pub matches_waiter_lem :
    (w : Waiter) (m : BridgeMessage) (ledger : Dict TaskRecord) (r : String) (task : TaskRecord)
    → w.ref ≡ some r
    → get r ledger ≡ some task
    → matches_waiter w m ledger ≡ true
    → Answers w r task m × AskedOption w.thread_id m.thread_id
matches_waiter_lem w m ledger r task e known hit =
    let p = passes w m ledger r e hit in
    (
      elim p.0 [
        | inl hub ↦ of_hub ((eq_iff m.from hub_peer).0 hub)
        | inr other ↦ Passed-Answers w r task m (subst (λ t. Passed w r t m) known other)
      ],
      thread-Asked w.thread_id m p.1,
    )
