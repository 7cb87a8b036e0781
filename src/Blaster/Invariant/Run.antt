-- ===== src/Blaster/Invariant/Run.antt =====
-- The event loop stays well-formed and never panics, whatever comes in.
use nut_blast.Base.{ℕ, ◌≢◌, subst, none, List, [], ◌∷◌, Option-cases, inl, inr, none≢some, sym}
use nut_blast.Float.{Float}
use nut_blast.Config.{Config}
use nut_blast.Blaster.{BlasterOperation, Env}
use nut_blast.Blaster.EventLoop.{recv, turn, run, answer}
use nut_blast.Blaster.EventLoop.State.{BlasterEventLoop, new}
use nut_blast.Blaster.Moves.{Moves}
use nut_blast.Blaster.Moves.Recv.{Ends, IsAdmissible, IsAdmissibleRun, recv-Moves, turn-Moves}
use nut_blast.Blaster.Moves.Rooms.{host_lobby-cases, join_lobby-cases}
use nut_blast.Blaster.Invariant.{IsValid, IsWalk}
use nut_blast.Blaster.Invariant.Reach.{new-IsValid, Moves-IsValid}

-- Every walk over a hash set that the history makes meets the elements of the set.
abbrev pub AllWalk : List (Env × BlasterOperation) → Type 0
AllWalk [] = Unit
AllWalk ((env, op) ∷ ops) = IsWalk env × AllWalk ops

module _ {F : Float} where
  -- Whatever the state and the operation, `recv` returns: no `unreachable!()` of `insert_player` is
  -- ever reached, so the loop's thread never starts anew.
  pub recv-ne-none :
      (env : Env) (op : BlasterOperation) (s : BlasterEventLoop F) → recv env op s ≢ none
  unfolding recv
  recv-ne-none env (BlasterOperation.host_lobby ip gid m capacity listed pm sender) s =
      host_lobby-cases (λ r. answer r ≢ none) env ip gid m capacity listed pm sender s
        (λ r e. none≢some (sym e)) (λ sent allowed e. none≢some (sym e))
  recv-ne-none env (BlasterOperation.join_lobby ip lid pm sender) s =
      join_lobby-cases (λ r. answer r ≢ none) env ip lid pm sender s (λ r e. none≢some (sym e))
        (λ l sent there room e. none≢some (sym e))
  recv-ne-none env _ s = λ e. none≢some (sym e)

  -- In a well-formed state every admissible operation returns, and leaves a well-formed state.
  pub recv-IsValid :
      (env : Env) (top : ℕ) (op : BlasterOperation) (s : BlasterEventLoop F)
      → IsWalk env
      → IsAdmissible env top op s
      → IsValid s
      → Ends IsValid (recv env op s)
  recv-IsValid env top op s walk h v = elim (Option-cases (recv env op s)) [
    | inl panicked ↦ absurd (recv-ne-none env op s panicked)
    | inr (o, e) ↦
        rw e (Moves-IsValid walk (subst (Ends (Moves env top s)) e (recv-Moves env top op s h)) v)
  ]

  -- A history of admissible operations keeps a state well-formed.
  pub run-IsValid :
      (config : Config) (top : ℕ) (ops : List (Env × BlasterOperation)) (s : BlasterEventLoop F)
      → AllWalk ops
      → IsAdmissibleRun config top ops s
      → IsValid s
      → IsValid (run config ops s)
  unfolding run
  run-IsValid config top [] s walks h v = v
  run-IsValid config top ((env, op) ∷ ops) s walks h v =
      run-IsValid config top ops (turn config env op s) walks.1 h.1
        (Moves-IsValid walks.0 (turn-Moves config env top op s h.0) v)

  -- The event loop is well-formed after any history of admissible operations.
  pub run-new-IsValid :
      (config : Config) (top : ℕ) (ops : List (Env × BlasterOperation))
      → AllWalk ops
      → IsAdmissibleRun {F = F} config top ops (new config)
      → IsValid (run {F = F} config ops (new config))
  run-new-IsValid config top ops walks h =
      run-IsValid config top ops (new config) walks h (new-IsValid config)
