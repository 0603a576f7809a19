-- ===== src/Hub/Settling.antt =====
-- How many tasks of the ledger the sender was not warned about, the measure by which the calls
-- between `deliver` and the notices of the hub come to an end.
use agent_comm_hub.Prelude.{
  ℕ, ◌+◌, ◌≤◌, ◌<◌, ◌≡◌, ap, String, str_eq, if◌then◌else◌, true, false, some, [], ◌∷◌, arith,
  Bool-cases, inl, inr,
}
use mathlib.Core.Option.{some-injective}
use agent_comm_hub.Protocol.{TaskRecord, BridgeMessage}
use agent_comm_hub.Dict.{Dict, get, set}
use agent_comm_hub.Hub.State.{AgentHub}
use agent_comm_hub.Hub.Matching.{is_set}
use agent_comm_hub.Hub.Outcome.{M, Outcome, done, threw, exhausted}
use agent_comm_hub.Hub.Outcome.{and_then}
use agent_comm_hub.Hub.Counters.Frames.{SameTasks}

unfoldable pub mark : TaskRecord → ℕ
mark t = if is_set t.drop_notified then 0 else 1

unfoldable pub unmarked : Dict TaskRecord → ℕ
unfolding mark
unmarked [] = 0
unmarked ((k, t) ∷ d) = mark t + unmarked d

-- Writing a task that is there moves the count by that task's own mark.
pub unmarked-set :
    (k : String) (t t' : TaskRecord) (d : Dict TaskRecord)
    → get k d ≡ some t
    → unmarked (set k t' d) + mark t ≡ unmarked d + mark t'
unfolding unmarked get set
unmarked-set k t t' [] e = cc
unmarked-set k t t' ((j, u) ∷ d) e = elim (Bool-cases (str_eq j k)) [
  | inl hit ↦
      let same : u ≡ t = some-injective u t (rw (hit, get) at e) in
      rw (hit, set, same) (omega arith)
  | inr miss ↦
      let later : get k d ≡ some t = rw (miss, get) at e in
      rw (miss, set) (omega (arith, unmarked-set k t t' d later))
]

pub mark-eq : (t t' : TaskRecord) → t'.drop_notified ≡ t.drop_notified → mark t' ≡ mark t
unfolding mark
mark-eq t t' e = rw e

pub mark_of_warned : (t : TaskRecord) → is_set t.drop_notified ≡ true → mark t ≡ 0
unfolding mark
mark_of_warned t e = rw e

pub mark_of_open : (t : TaskRecord) → is_set t.drop_notified ≡ false → mark t ≡ 1
unfolding mark
mark_of_open t e = rw e

-- The number of tasks of the hub that were not warned about.
abbrev pub open_marks : AgentHub → ℕ
open_marks h = unmarked h.task_ledger

-- The outcome is a state with at most `n` tasks that were not warned about.
abbrev pub Settles {ℓ} : {A : Type ℓ} → ℕ → Outcome A → Type 0
Settles n (done a h) = open_marks h ≤ n
Settles n (threw e h) = ⊥
Settles n exhausted = ⊥

pub Settles-mono {ℓ} : {A : Type ℓ} (n k : ℕ) (r : Outcome A) → n ≤ k → Settles n r → Settles k r
Settles-mono n k (done a h) le s = omega arith
Settles-mono n k (threw e h) le s = s
Settles-mono n k exhausted le s = s

pub Settles-and_then {ℓ κ} :
    {A : Type ℓ} {B : Type κ} (n k : ℕ) (r : Outcome A) (f : A → AgentHub → Outcome B)
    → Settles n r
    → ((a : A) (h' : AgentHub) → open_marks h' ≤ n → Settles k (f a h'))
    → Settles k (and_then r f)
Settles-and_then n k (done a h) f s next = next a h s
Settles-and_then n k (threw e h) f s next = absurd s
Settles-and_then n k exhausted f s next = absurd s

pub marks_of_same : {h h' : AgentHub} → SameTasks h h' → open_marks h' ≤ open_marks h
marks_of_same {h} {h'} s = let e = ap unmarked s.ledger in omega arith

-- What a delivery function promises below a bound on the unmarked tasks.
abbrev pub Delivers : ℕ → (String → BridgeMessage → M (Unit {0})) → Type 0
Delivers b deliver =
    (p : String) (m : BridgeMessage) (h : AgentHub)
    → open_marks h < b
    → Settles (open_marks h) (deliver p m h)
