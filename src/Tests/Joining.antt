-- ===== src/Tests/Joining.antt =====
-- Joining and hosting after the sample history.
use nut_blast.Base.{
  none, refl, true, [], ◌∷◌, ◌≡◌, lookup, insert, erase, add, remove, contains, nat_eq,
}
use nut_blast.Tokens
use nut_blast.Blaster.{is_full, new_peer, session_count}
use nut_blast.Blaster.EventLoop.{recv, turn, run}
use nut_blast.Blaster.EventLoop.State.{new, cap_ip, insert_player, admit, enter, new_player}
use nut_blast.Blaster.EventLoop.Sessions.{introduce_session, total_sessions}
use nut_blast.Blaster.EventLoop.Rooms.{
  host_lobby, join_lobby, host_refusal, opened_by, listed_count, indexed, new_lobby, add_to_index,
}
use nut_blast.Blaster.Joining.Laws.{Joined, join_lobby-IsSeated}
use nut_blast.Blaster.Joining.Host.{Hosted, host_lobby-IsSeated}
use nut_blast.Tests.Samples.{world, arena}
use nut_blast.Tests.Rights.{met, met-IsValid}

nobody_yet : lookup 30 met.players ≡ none
unfolding run turn recv new cap_ip insert_player admit enter new_player introduce_session
    total_sessions host_lobby join_lobby host_refusal opened_by listed_count indexed new_lobby
    add_to_index lookup insert erase add remove contains is_full new_peer session_count Tokens.new
    Tokens.try_take Tokens.refill Tokens.new_metadata
nobody_yet = refl

join_lobby-IsSeated_example : Joined (world 5000 30) 7 (("name", "kay") ∷ []) 71 met arena
join_lobby-IsSeated_example =
    join_lobby-IsSeated (world 5000 30) (record { meets = λ x xs. refl }) 7 (("name", "kay") ∷ [])
      71 met met-IsValid arena nobody_yet

host_lobby-IsSeated_example : Hosted (world 5000 30) 8 "arena" [] 6 true [] 81 met
host_lobby-IsSeated_example =
    host_lobby-IsSeated (world 5000 30) 8 "arena" [] 6 true [] 81 met
      (record { meets = λ x xs. refl }) met-IsValid
