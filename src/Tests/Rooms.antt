-- ===== src/Tests/Rooms.antt =====
-- The event loop's properties at the sample history.
use nut_blast.Base.{ℕ, ◌≢◌, refl, [], none, arith, lookup, insert, erase, add, remove, contains}
use nut_blast.Float.Exact.{exact}
use nut_blast.Config.{empty}
use nut_blast.Tokens
use nut_blast.Blaster.{BlasterOperation, is_full, new_peer, session_count}
use nut_blast.Blaster.EventLoop.{recv, turn, run}
use nut_blast.Blaster.EventLoop.State.{new, cap_ip, insert_player, admit, enter, new_player}
use nut_blast.Blaster.EventLoop.Sessions.{introduce_session, total_sessions}
use nut_blast.Blaster.EventLoop.Rooms.{
  host_lobby, join_lobby, host_refusal, opened_by, listed_count, indexed, new_lobby, add_to_index,
}
use nut_blast.Blaster.Moves.Recv.{IsAdmissibleRun}
use nut_blast.Blaster.Invariant.{IsValid, IsWalk}
use nut_blast.Blaster.Invariant.Run.{AllWalk, recv-ne-none, run-new-IsValid}
use nut_blast.Blaster.Bounds.{IsBounded}
use nut_blast.Blaster.Bounds.Run.{run-new-IsBounded}
use nut_blast.Blaster.Caps.{IsCapped}
use nut_blast.Blaster.Caps.Run.{run-new-IsCapped}
use nut_blast.Tests.Samples.{world, arena, meeting}

pub meeting-IsAdmissibleRun : IsAdmissibleRun {F = exact} empty 15 meeting (new empty)
unfolding turn recv new cap_ip insert_player admit enter new_player introduce_session total_sessions
    host_lobby join_lobby host_refusal opened_by listed_count indexed new_lobby add_to_index lookup
    insert erase add remove contains is_full new_peer session_count Tokens.new Tokens.try_take
    Tokens.refill Tokens.new_metadata
meeting-IsAdmissibleRun = (
  tt,
  (
    tt,
    (
      (omega arith, omega arith, omega arith, refl, (refl, omega arith)),
      ((omega arith, (refl, omega arith)), tt),
    ),
  ),
)

pub meeting-AllWalk : AllWalk meeting
meeting-AllWalk = (walk 1000 0, (walk 2000 0, (walk 3000 10, (walk 4000 20, tt))))
  where
    walk : (time seed : ℕ) → IsWalk (world time seed)
    walk time seed = record { meets = λ x xs. refl }

recv-ne-none_example :
    recv (world 4000 20) (BlasterOperation.join_lobby 8 arena [] 80) (new {F = exact} empty) ≢ none
recv-ne-none_example =
    recv-ne-none (world 4000 20) (BlasterOperation.join_lobby 8 arena [] 80) (new empty)

run-new-IsValid_example : IsValid (run {F = exact} empty meeting (new empty))
run-new-IsValid_example = run-new-IsValid empty 15 meeting meeting-AllWalk meeting-IsAdmissibleRun

run-new-IsBounded_example : IsBounded 15 (run {F = exact} empty meeting (new empty))
run-new-IsBounded_example = run-new-IsBounded empty 15 meeting (omega arith) meeting-IsAdmissibleRun

run-new-IsCapped_example : IsCapped (run {F = exact} empty meeting (new empty)).peers
run-new-IsCapped_example = run-new-IsCapped empty meeting
