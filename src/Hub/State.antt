-- ===== src/Hub/State.antt =====
-- src/hub.ts: the options and the private fields of `AgentHub`, and the records they hold.
--
-- A `Map` is a `Dict`. A key of `leaseAttempts` is the pair that `leaseKey` joins with a NUL
-- (no peer id holds one), so the map is keyed by the peer and then by the message. Tokens of a
-- bucket are counted in units of 1/60000, in which the refill of the source is exact. A callback
-- of the options and the resolution of a waiter's promise are entries of `effects`, oldest first;
-- `waiter_count` gives each waiter the identity that its closure has in the source, and
-- `uuid_count` is the number of `randomUUID()` calls so far.
use agent_comm_hub.Prelude.{ℕ, String, Option, List, Bool, ◌++◌, [], ◌∷◌}
use agent_comm_hub.Protocol.{BridgeMessage, TaskRecord, DropReason}
use agent_comm_hub.Protocol.Status.{AckStatus, TaskStatus}
use agent_comm_hub.Dict.{Dict}

-- `none` is an absent option; readers apply the default of the source.
pub record HubOptions : Type 0 where
  pub max_queue : ℕ
  pub history_limit : ℕ
  pub wait_timeout_ms : ℕ
  pub connected_window_ms : Option ℕ
  pub peer_idle_timeout_ms : Option ℕ
  pub parked_ttl_ms : Option ℕ
  pub lease_ttl_ms : Option ℕ
  pub rate_per_min : Option ℕ
  pub max_attempts : Option ℕ

abbrev pub default_parked_ttl_ms : ℕ
default_parked_ttl_ms = 604800000

abbrev pub default_lease_ttl_ms : ℕ
default_lease_ttl_ms = 60000

abbrev pub default_max_attempts : ℕ
default_max_attempts = 5

abbrev pub max_profiles : ℕ
max_profiles = 512

abbrev pub max_tasks : ℕ
max_tasks = 1024

abbrev pub max_dead_letters : ℕ
max_dead_letters = 200

abbrev pub max_task_artifacts : ℕ
max_task_artifacts = 50

abbrev pub max_events : ℕ
max_events = 500

-- What the code reads from outside while one operation runs: its options, the clock, the ids that
-- `randomUUID()` gives out, by call, and the live channels.
pub record Env : Type 0 where
  pub options : HubOptions
  pub now : ℕ
  pub random_uuid : ℕ → String
  pub is_peer_live : String → Bool

-- `started_at` and `due` are what the waiter's closures and its timer hold.
pub record Waiter : Type 0 where
  pub id : ℕ
  pub started_at : ℕ
  pub due : ℕ
  pub from : Option String
  pub ref : Option String
  pub statuses : Option (List AckStatus)
  pub terminal_only : Bool
  pub thread_id : Option String
  pub manual : Bool
  pub batch : Bool

pub record Lease : Type 0 where
  pub message : BridgeMessage
  pub expires_at : ℕ

pub record Drops : Type 0 where
  pub overflow : ℕ
  pub expired : ℕ
  pub rate : ℕ

pub record Bucket : Type 0 where
  pub tokens : ℕ
  pub last : ℕ

pub record Traffic : Type 0 where
  pub sent : ℕ
  pub received : ℕ
  pub acked : ℕ

pub record PeerSkill : Type 0 where
  pub id : String
  pub name : String
  pub tags : List String

pub record PeerCard : Type 0 where
  pub skills : List PeerSkill
  pub accepts_tasks : Option Bool
  pub concurrency : Option ℕ

pub record PeerProfile : Type 0 where
  pub id : String
  pub alias : Option String
  pub client_name : Option String
  pub client_version : Option String
  pub registered_at : ℕ
  pub card : Option PeerCard

pub record GroupState : Type 0 where
  pub id : String
  pub name : Option String
  pub members : List String
  pub created_by : String
  pub created_at : ℕ

-- A pending `setTimeout` of a task and when it is due: it fires the timeout, or arms the next
-- segment of a delay that is too long for one timer.
pub data TaskTimer : Type 0 where
  fire_at rearm_at : ℕ → TaskTimer

-- The kinds of an event with the detail that each of them carries.
pub data EventKind : Type 0 where
  peer_joined : Option String → EventKind
  peer_left : ℕ → EventKind
  peer_parked : ℕ → EventKind
  mailbox_dropped : DropReason → ℕ → Option String → Option String → EventKind
  mailbox_expired : ℕ → ℕ → EventKind
  task_transition : String → TaskStatus → ℕ → EventKind
  runner_started runner_finished : String → EventKind

pub record HubEvent : Type 0 where
  pub seq : ℕ
  pub ts : ℕ
  pub kind : EventKind
  pub peer : Option String

pub record DeliveredMessage : Type 0 where
  pub message : BridgeMessage
  pub attempts : Option ℕ
  pub lease_expires_at : Option ℕ

pub data WaitResult : Type 0 where
  message : DeliveredMessage → WaitResult
  messages : List DeliveredMessage → WaitResult
  timeout : ℕ → Option TaskStatus → WaitResult

pub data Effect : Type 0 where
  resolved : ℕ → WaitResult → Effect
  aborted : ℕ → Effect
  on_queued : BridgeMessage → String → Effect
  on_task_queued : BridgeMessage → String → Effect
  on_message : BridgeMessage → Effect
  on_mailboxes_changed : Effect
  on_peers_changed : List String → Effect
  on_groups_changed : Effect
  on_task_changed : TaskRecord → Effect
  on_peer_gc : String → Effect
  on_mailbox_expired : String → ℕ → Effect

pub record AgentHub : Type 0 where
  pub queues : Dict (List BridgeMessage)
  pub parked_at : Dict ℕ
  pub seq_counter : ℕ
  pub waiters : Dict (List Waiter)
  pub history_ring : List BridgeMessage
  pub event_ring : List HubEvent
  pub event_seq : ℕ
  pub last_seen : Dict ℕ
  pub profiles : Dict PeerProfile
  pub groups : Dict GroupState
  pub task_ledger : Dict TaskRecord
  pub task_timers : Dict TaskTimer
  pub leases : Dict (List Lease)
  pub lease_attempts : Dict (Dict ℕ)
  pub dead_letters : Dict (List BridgeMessage)
  pub drops : Dict Drops
  pub buckets : Dict Bucket
  pub traffic : Dict Traffic
  pub waiter_count : ℕ
  pub uuid_count : ℕ
  pub effects : List Effect

abbrev pub empty_hub : AgentHub
empty_hub = record {
  queues = [];
  parked_at = [];
  seq_counter = 0;
  waiters = [];
  history_ring = [];
  event_ring = [];
  event_seq = 0;
  last_seen = [];
  profiles = [];
  groups = [];
  task_ledger = [];
  task_timers = [];
  leases = [];
  lease_attempts = [];
  dead_letters = [];
  drops = [];
  buckets = [];
  traffic = [];
  waiter_count = 0;
  uuid_count = 0;
  effects = [];
}

abbrev pub emit : Effect → AgentHub → AgentHub
emit e h = record h { effects = h.effects ++ e ∷ [] }
