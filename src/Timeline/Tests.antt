-- ===== src/Timeline/Tests.antt =====
-- The bound on a timeline at a concrete one.
use agent_comm_hub.Prelude.{[], ◌∷◌}
use agent_comm_hub.Protocol.Status.{AckStatus}
use agent_comm_hub.Fixtures.{ack_event}
use agent_comm_hub.Timeline.{trim_acks}
use agent_comm_hub.Timeline.Bounds.{Trimmed, trim_acks-Trimmed}

trim_acks-Trimmed_example :
    Trimmed
      (ack_event AckStatus.accepted ∷ ack_event AckStatus.done ∷ [])
      (trim_acks (ack_event AckStatus.accepted ∷ ack_event AckStatus.done ∷ []))
trim_acks-Trimmed_example =
    trim_acks-Trimmed (ack_event AckStatus.accepted ∷ ack_event AckStatus.done ∷ [])
