-- ===== src/Tests/Masters.antt =====
-- A master at work after the sample history, and the address behind a proxy.
use nut_blast.Base.{
  ℕ, ◌≡◌, ◌≢◌, refl, true, some, [], ◌∷◌, ◌++◌, arith, lookup, insert, erase, add, remove, contains,
  nat_eq,
}
use nut_blast.Float.Exact.{exact}
use nut_blast.Tokens
use nut_blast.Protocol.Payloads.{ServerMessage}
use nut_blast.Blaster.{Player, is_full, new_peer, session_count}
use nut_blast.Blaster.EventLoop.{recv, turn, run}
use nut_blast.Blaster.EventLoop.State.{new, cap_ip, insert_player, admit, enter, new_player}
use nut_blast.Blaster.EventLoop.Sessions.{introduce_session, total_sessions}
use nut_blast.Blaster.EventLoop.Rooms.{
  host_lobby, join_lobby, host_refusal, opened_by, listed_count, indexed, new_lobby, add_to_index,
}
use nut_blast.Blaster.EventLoop.Master.{set_capacity, set_listed, set_master}
use nut_blast.Blaster.Altering.{IsAltered, master-IsAltered}
use nut_blast.Server.Address.{real_ip, before_comma}
use nut_blast.Server.Address.Laws.{real_ip-first}
use nut_blast.Tests.Samples.{world, arena}
use nut_blast.Tests.Rights.{met, met-IsValid, guest, guest_there, hall, hall_there}
use nut_blast.Tests.Servers.{parse}

abbrev host : Player exact
host = record {
  lid = arena;
  metadata = [];
  sender = 70;
  birth = 0;
  metadata_budget = Tokens.new_metadata "player_metadata" 3005;
}

host_there : lookup 11 met.players ≡ some host
unfolding run turn recv new cap_ip insert_player admit enter new_player introduce_session
    total_sessions host_lobby join_lobby host_refusal opened_by listed_count indexed new_lobby
    add_to_index lookup insert erase add remove contains is_full new_peer session_count Tokens.new
    Tokens.try_take Tokens.refill Tokens.new_metadata
host_there = refl

apart : ◌≢◌ {A = ℕ} 20 11
apart e = omega (arith, e)

master-IsAltered_example :
    IsAltered
      (world 5000 30)
      host
      hall
      (λ k. record k { capacity = 9 })
      (ServerMessage.set_capacity 9)
      met
      (set_capacity (world 5000 30) 11 9 met)
    × IsAltered
        (world 5000 30)
        host
        hall
        (λ k. record k { listed = true })
        (ServerMessage.set_listed true)
        met
        (set_listed (world 5000 30) 11 true met)
    × IsAltered
        (world 5000 30)
        host
        hall
        (λ k. record k { master = 20 })
        (ServerMessage.set_master 20)
        met
        (set_master (world 5000 30) 11 20 met)
master-IsAltered_example =
    master-IsAltered (world 5000 30) (record { meets = λ x xs. refl }) host hall met met-IsValid
      hall_there 11 host_there refl 9 true 20 guest guest_there refl apart

ends : before_comma (b',' ∷ b' ' ∷ b'8' ∷ []) ≡ []
unfolding before_comma
ends = refl

real_ip-first_example :
    real_ip parse true 3
      (some ((b' ' ∷ []) ++ ((b'7' ∷ b'.' ∷ []) ++ ([] ++ (b',' ∷ b' ' ∷ b'8' ∷ [])))))
    ≡ b'7'
real_ip-first_example =
    real_ip-first parse 3 b'7' (b'.' ∷ []) (b' ' ∷ []) [] (b',' ∷ b' ' ∷ b'8' ∷ [])
      (refl, (refl, tt)) (refl, tt) tt (refl, (refl, (refl, tt))) ends
