-- ===== src/Hub/Deliver/Tests.antt =====
-- Delivery at concrete states.
use agent_comm_hub.Prelude.{◌≡◌, refl, arith}
use agent_comm_hub.Fixtures.{env, chat_from}
use agent_comm_hub.Hub.State.{empty_hub}
use agent_comm_hub.Hub.Settling.{Settles, open_marks, unmarked}
use agent_comm_hub.Hub.Deliver.{deliver}
use agent_comm_hub.Hub.Deliver.Total.{deliver-Settles}

open_marks-empty_hub : open_marks empty_hub ≡ 0
unfolding unmarked
open_marks-empty_hub = refl

deliver-Settles_example :
    Settles (open_marks empty_hub) (deliver 1 env "bob" (chat_from "alice" "m1" 0) empty_hub)
deliver-Settles_example =
    deliver-Settles 1 env "bob" (chat_from "alice" "m1" 0) empty_hub
      (omega (arith, open_marks-empty_hub))
