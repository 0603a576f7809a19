-- ===== src/Hub/Compose/Settles.antt =====
-- Sending to everybody settles if delivering to one peer does.
use agent_comm_hub.Prelude.{
  ℕ, ◌<◌, ◌≡◌, String, str_eq, true, Option, none, some, List, [], ◌∷◌, arith, Bool-cases, inl, inr,
}
use agent_comm_hub.Protocol.{BridgeMessage, broadcast}
use agent_comm_hub.Dict.{get}
use agent_comm_hub.Hub.State.{Env, AgentHub, GroupState}
use agent_comm_hub.Hub.Outcome.{M}
use agent_comm_hub.Hub.Settling.{
  Settles, Settles-mono, Settles-and_then, marks_of_same, open_marks, Delivers,
}
use agent_comm_hub.Hub.Compose.{
  Draft, deliver_each, dispatch_group, dispatch, audience, route, is_known, build_message,
}
use agent_comm_hub.Hub.Compose.Laws.{composed, compose_of_system, composed-SameTasks}

module _ (b : ℕ) (deliver : String → BridgeMessage → M (Unit {0})) (good : Delivers b deliver) where
  deliver_each-Settles :
      (m : BridgeMessage) (ps : List String) (h : AgentHub)
      → open_marks h < b
      → Settles (open_marks h) (deliver_each deliver m ps h)
  unfolding deliver_each
  deliver_each-Settles m [] h l = omega arith
  deliver_each-Settles m (p ∷ ps) h l = elim (Bool-cases (str_eq p m.from)) [
    | inl own ↦ rw (own, deliver_each) (deliver_each-Settles m ps h l)
    | inr other ↦
        rw (other, deliver_each)
          (Settles-and_then _ _ (deliver p m h) _ (good p m h l)
            (λ a h' le. Settles-mono _ _ _ le (deliver_each-Settles m ps h' (omega arith))))
  ]

  dispatch_group-Settles :
      (m : BridgeMessage) (g : Option GroupState) (h : AgentHub)
      → open_marks h < b
      → Settles (open_marks h) (dispatch_group deliver m g h)
  unfolding dispatch_group
  dispatch_group-Settles m none h l = good m.to m h l
  dispatch_group-Settles m (some g) h l = deliver_each-Settles m g.members h l

  dispatch-Settles :
      (m : BridgeMessage) (h : AgentHub)
      → open_marks h < b
      → Settles (open_marks h) (dispatch deliver m h)
  unfolding dispatch
  dispatch-Settles m h l = elim (Bool-cases (str_eq m.to broadcast)) [
    | inl all ↦ rw (all, dispatch) (deliver_each-Settles m (audience h) h l)
    | inr one ↦ rw (one, dispatch) (dispatch_group-Settles m (get m.to h.groups) h l)
  ]

  -- A notice of the hub to a peer that it knows.
  pub route-Settles :
      (env : Env) (d : Draft) (h : AgentHub)
      → d.system ≡ true
      → is_known d.to h ≡ true
      → open_marks h < b
      → Settles (open_marks h) (route env deliver d h)
  unfolding route
  route-Settles env d h s k l =
      let less = marks_of_same (composed-SameTasks env d h s) in
      let sent = dispatch-Settles (build_message env d h) (composed env d h) (omega arith) in
      rw (compose_of_system env d h s k) (
        Settles-and_then (open_marks h) (open_marks h)
          (dispatch deliver (build_message env d h) (composed env d h)) _
          (Settles-mono _ _ _ less sent) (λ a h' le. le))
