-- ===== src/Tools/Returns.antt =====
-- What a tool that returned has done, step by step (src/hub-tools.ts).
use agent_comm_hub.Prelude.{◌≡◌, refl, String, Bool, true, false, Option, none, some, arith}
use agent_comm_hub.Sessions.{SessionRegistry}
use agent_comm_hub.Hub.State.{AgentHub}
use agent_comm_hub.Hub.Outcome.{M, Outcome, done, threw, exhausted}
use agent_comm_hub.Tools.{
  World, Ran, T, returns, throws, runs_out, ran_then, ◌>>=◌, ◌>>◌, return, fail, when, ask, change,
  on_hub, from_hub, require_not, set_if_given, ToolError,
}

-- What a call that returned has done: its first part returned too, and then the rest.
module _ {A B : Type 0} where
  ran_then-returns :
      (ran : Ran A) (f : A → T B) (b : B) (v : World)
      → ran_then ran f ≡ returns b v
      → (a : A) × (u : World) × (ran ≡ returns a u) × (f a u ≡ returns b v)
  ran_then-returns (returns a u) f b v e = (a, u, refl, e)
  ran_then-returns (throws x u) f b v e = absurd (ground (arith, e))
  ran_then-returns runs_out f b v e = absurd (ground (arith, e))

  pub then-returns :
      (m : T A) (k : T B) (w : World) (b : B) (v : World)
      → (m >> k) w ≡ returns b v
      → (a : A) × (u : World) × (m w ≡ returns a u) × (k u ≡ returns b v)
  unfolding ◌>>◌
  then-returns m k w b v e = ran_then-returns (m w) (λ _. k) b v e

  pub bind-returns :
      (m : T A) (f : A → T B) (w : World) (b : B) (v : World)
      → (m >>= f) w ≡ returns b v
      → (a : A) × (u : World) × (m w ≡ returns a u) × (f a u ≡ returns b v)
  unfolding ◌>>=◌
  bind-returns m f w b v e = ran_then-returns (m w) f b v e

  pub ask-returns :
      (g : SessionRegistry → AgentHub → A) (f : A → T B) (w : World) (b : B) (v : World)
      → (ask g >>= f) w ≡ returns b v
      → f (g w.0 w.1) w ≡ returns b v
  unfolding ask ◌>>=◌
  ask-returns g f w b v e = e

module _ {B : Type 0} where
  pub require_not-returns :
      (test : Bool) (x : ToolError) (k : T B) (w : World) (b : B) (v : World)
      → (require_not test x >> k) w ≡ returns b v
      → (test ≡ false) × (k w ≡ returns b v)
  unfolding require_not ◌>>◌ fail return
  require_not-returns true x k w b v e = absurd (ground (arith, e))
  require_not-returns false x k w b v e = (refl, e)

-- The registry of sessions stays as it is.
pub on_hub-registry :
    (m : M (Unit {0})) (w : World) (a : Unit {0}) (u : World) → on_hub m w ≡ returns a u → u.0 ≡ w.0
unfolding on_hub
on_hub-registry m w a u e = by_outcome (m w.1) e
  where
    by_outcome : (out : Outcome (Unit {0})) → from_hub w.0 out ≡ returns a u → u.0 ≡ w.0
    by_outcome (done b h) e = ground (arith, e)
    by_outcome (threw x h) e = absurd (ground (arith, e))
    by_outcome exhausted e = absurd (ground (arith, e))

pub when-registry :
    (b : Bool) (m : M (Unit {0})) (w : World) (a : Unit {0}) (u : World)
    → when b (on_hub m) w ≡ returns a u
    → u.0 ≡ w.0
unfolding when return
when-registry true m w a u e = on_hub-registry m w a u e
when-registry false m w a u e = ground (arith, e)

pub set_if_given-registry :
    (peer : String) (alias : Option String) (w : World) (a : Unit {0}) (u : World)
    → set_if_given peer alias w ≡ returns a u
    → u.0 ≡ w.0
unfolding set_if_given return
set_if_given-registry peer none w a u e = ground (arith, e)
set_if_given-registry peer (some alias) w a u e = on_hub-registry _ w a u e

pub changed :
    (f : SessionRegistry → SessionRegistry) (w : World) (a : Unit {0}) (u : World)
    → change f w ≡ returns a u
    → u.0 ≡ f w.0
unfolding change
changed f w a u e = ground (arith, e)

pub returned :
    (peer : String) (w : World) (p : String) (v : World)
    → return peer w ≡ returns p v
    → (p ≡ peer) × (v.0 ≡ w.0)
unfolding return
returned peer w p v e = (ground (arith, e), ground (arith, e))

pub required :
    (test : Bool) (x : ToolError) (w : World) (a : Unit {0}) (u : World)
    → require_not test x w ≡ returns a u
    → (test ≡ false) × (u ≡ w)
unfolding require_not fail return
required true x w a u e = absurd (ground (arith, e))
required false x w a u e = (refl, ground (arith, e))
