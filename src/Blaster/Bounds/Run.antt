-- ===== src/Blaster/Bounds/Run.antt =====
-- The bounds hold after any history of admissible operations.
use nut_blast.Base.{ℕ, ◌≤◌, arith, List, [], ◌∷◌}
use nut_blast.Float.{Float}
use nut_blast.Config.{Config}
use nut_blast.Blaster.{BlasterOperation, Env}
use nut_blast.Blaster.EventLoop.{turn, run}
use nut_blast.Blaster.EventLoop.State.{BlasterEventLoop, new}
use nut_blast.Blaster.EventLoop.Rooms.{opened_by}
use nut_blast.Blaster.Moves.Recv.{IsAdmissibleRun, turn-Moves}
use nut_blast.Blaster.Bounds.{IsBounded, Moves-IsBounded}

module _ {F : Float} where
  run-IsBounded :
      (config : Config) (top : ℕ) (ops : List (Env × BlasterOperation)) (s : BlasterEventLoop F)
      → 1 ≤ top
      → IsAdmissibleRun config top ops s
      → IsBounded top s
      → IsBounded top (run config ops s)
  unfolding run
  run-IsBounded config top [] s one h b = b
  run-IsBounded config top ((env, op) ∷ ops) s one h b =
      run-IsBounded config top ops (turn config env op s) one h.1
        (Moves-IsBounded one (turn-Moves config env top op s h.0) b)

  -- After any history of admissible operations whose capacities are at most `top`, from the loop's
  -- start, no lobby has more than `top` players, no lobby and no player more than 16 fields, and no
  -- address more than four lobbies.
  pub run-new-IsBounded :
      (config : Config) (top : ℕ) (ops : List (Env × BlasterOperation))
      → 1 ≤ top
      → IsAdmissibleRun {F = F} config top ops (new config)
      → IsBounded top (run {F = F} config ops (new config))
  unfolding new opened_by
  run-new-IsBounded config top ops one h =
      run-IsBounded config top ops (new config) one h
        (record { lobbies = tt; players = tt; openers = λ ip. omega arith })
