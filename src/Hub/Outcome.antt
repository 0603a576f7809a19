-- ===== src/Hub/Outcome.antt =====
-- The result of a method: it returns a value, or throws, or the fuel of the model ran out. A
-- method that throws leaves behind what it changed before.
use agent_comm_hub.Prelude.{Bool, true, false}
use agent_comm_hub.Hub.State.{AgentHub}

pub data Error : Type 0 where
  reserved_peer_id collides_with_group already_registered parked_id sender_not_registered
        unknown_recipient not_a_member unknown_peer invalid_peer_id group_exists invalid_group_id
        group_id_taken group_collides_with_peer no_members unknown_member unknown_group
        already_member not_in_group creator_stays not_an_assignee unknown_message unknown_task
        not_a_party task_is_over no_assignee_left :
      Error

pub data Outcome {ℓ} (A : Type ℓ) : Type ℓ where
  done : A → AgentHub → Outcome A
  threw : Error → AgentHub → Outcome A
  exhausted : Outcome A

abbrev pub M {ℓ} : Type ℓ → Type ℓ
M A = AgentHub → Outcome A

abbrev pub and_then {ℓ κ} :
    {A : Type ℓ} {B : Type κ} → Outcome A → (A → AgentHub → Outcome B) → Outcome B
and_then (done a h) f = f a h
and_then (threw e h) f = threw e h
and_then exhausted f = exhausted

infixl 5 ◌>>=◌ ◌>>◌
abbrev pub ◌>>=◌ {ℓ κ} : {A : Type ℓ} {B : Type κ} → M A → (A → M B) → M B
◌>>=◌ m f h = and_then (m h) f

abbrev pub ◌>>◌ {ℓ κ} : {A : Type ℓ} {B : Type κ} → M A → M B → M B
m >> k = m >>= λ _. k

abbrev pub return {ℓ} : {A : Type ℓ} → A → M A
return a h = done a h

abbrev pub modify : (AgentHub → AgentHub) → M (Unit {0})
modify f h = done tt (f h)

abbrev pub throw {ℓ} : {A : Type ℓ} → Error → M A
throw e h = threw e h

-- `if (test) throw error`
abbrev pub refuse_if : (AgentHub → Bool) → Error → M (Unit {0})
refuse_if test e h = elim (test h) [ true ↦ threw e h | false ↦ done tt h ]
