-- ===== src/Hub/Counters/Tests.antt =====
-- The bucket of a peer that gets its first message.
use agent_comm_hub.Prelude.{◌≡◌, refl, arith, true, false}
use agent_comm_hub.Dict.{get_or, set}
use agent_comm_hub.Fixtures.{env}
use agent_comm_hub.Hub.State.{empty_hub}
use agent_comm_hub.Hub.Counters.{take_token, spend}
use agent_comm_hub.Hub.Counters.Rate.{Taken, bucket_of, take_token-Taken}

first_tokens_test :
    ((take_token env "bob" empty_hub).0 ≡ true)
    × ((take_token env "bob" (take_token env "bob" (take_token env "bob" empty_hub).1).1).0 ≡ false)
unfolding take_token spend get_or set
first_tokens_test = (refl, refl)

take_token-Taken_example :
    Taken env
      (bucket_of env "bob" empty_hub)
      (bucket_of env "bob" (take_token env "bob" empty_hub).1)
      (take_token env "bob" empty_hub).0
take_token-Taken_example = take_token-Taken env "bob" empty_hub (omega arith)
