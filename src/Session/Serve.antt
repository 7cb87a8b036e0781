-- ===== src/Session/Serve.antt =====
-- The loop of `serve`, server/src/session.rs.
use nut_blast.Base.{Bool, true, false, none, some, List, [], ◌∷◌, ◌++◌, ok, err, if◌then◌else◌}
use nut_blast.Float.{Float}
use nut_blast.Protocol.Payloads.{ServerMessage}
use nut_blast.Blaster.{BlasterOperation}
use nut_blast.Session.{Session, Turned, send}

-- A round of the loop: whether the loop goes on, and what was executed and written in it, what
-- `serve` does after the loop included.
pub record Round (F : Float) : Type 0 where
  pub session : Session F
  pub goes_on : Bool
  pub executed : List BlasterOperation
  pub written : List ServerMessage

module _ {F : Float} where
  -- What `serve` does after its loop.
  unfoldable pub farewell : Session F → List BlasterOperation
  farewell s = elim s.pid [
    | none ↦ []
    | some pid ↦ BlasterOperation.remove_player pid s.bye_reason ∷ []
  ]

  -- The loop breaks at an error, which is told to the client, and stops by its test.
  unfoldable pub conclude : Turned F → Round F
  unfolding farewell send
  conclude t = elim t.verdict [
    | err reason ↦
        let bye = ServerMessage.disconnected reason in
        let s = send bye t.session in
        record {
          session = s;
          goes_on = false;
          executed = t.executed ++ farewell s;
          written = t.written ++ bye ∷ [];
        }
    | ok _ ↦
        if t.session.stop
        then record {
          session = t.session;
          goes_on = false;
          executed = t.executed ++ farewell t.session;
          written = t.written;
        }
        else record {
          session = t.session;
          goes_on = true;
          executed = t.executed;
          written = t.written;
        }
  ]
