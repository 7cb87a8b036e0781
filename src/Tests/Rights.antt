-- ===== src/Tests/Rights.antt =====
-- Rights and limits at the sample history.
use nut_blast.Base.{
  none, true, ◌≡◌, ◌≢◌, ◌*◌, ◌^◌, refl, some, lookup, Option, insert, erase, add, remove, contains,
  nat_eq, string_eq, some_inj, sym, ◌∙◌, ap, subst, [], ◌∷◌, arith, Option,
}
use nut_blast.Float.Exact.{exact}
use nut_blast.Config.{empty}
use mathlib.Core.Option
use nut_blast.Protocol.Basic.{LobbyId, lobby_id_eq}
use nut_blast.Tokens.{TokenBucket, try_take, refill}
use nut_blast.Tokens
use nut_blast.Tokens.Laws.{Takes, try_take-IsWithin, new-IsWithin}
use nut_blast.Blaster.{BlasterOperation, Reply, Player, Lobby, is_full, new_peer, session_count}
use nut_blast.Blaster.EventLoop.{recv, turn, run}
use nut_blast.Blaster.EventLoop.State.{
  BlasterEventLoop, new, cap_ip, insert_player, admit, enter, new_player,
}
use nut_blast.Blaster.EventLoop.Sessions.{introduce_session, total_sessions}
use nut_blast.Blaster.EventLoop.Rooms.{
  host_lobby, join_lobby, host_refusal, opened_by, listed_count, indexed, new_lobby, add_to_index,
}
use nut_blast.Blaster.Invariant.{IsValid}
use nut_blast.Blaster.Invariant.Run.{run-new-IsValid}
use nut_blast.Blaster.Rights.Master.{ByMaster, recv-not_master}
use nut_blast.Blaster.Rights.Recv.{ByPlayer, Heard, recv-Heard}
use nut_blast.Tests.Samples.{world, arena, meeting}
use nut_blast.Tests.Rooms.{meeting-IsAdmissibleRun, meeting-AllWalk}

-- The state after the sample history; 11 is the host, and 20 has joined.
abbrev pub met : BlasterEventLoop exact
met = run empty meeting (new empty)

abbrev pub guest : Player exact
guest = record {
  lid = arena;
  metadata = [];
  sender = 80;
  birth = 0;
  metadata_budget = Tokens.new_metadata "player_metadata" 4002;
}

-- The lobby that they are in.
abbrev pub hall : Lobby exact
hall = record {
  players = 20 ∷ 11 ∷ [];
  initiator = 7;
  master = 11;
  metadata = ("map", "dunes") ∷ [];
  capacity = 4;
  listed = true;
  idle_since = none;
  created_at = 3001;
  alterations_budget = Tokens.new "lobby_alterations" 1 2 2 3002;
  metadata_budget = Tokens.new_metadata "lobby_metadata" 3003;
}

pub met-IsValid : IsValid met
met-IsValid = run-new-IsValid empty 15 meeting meeting-AllWalk meeting-IsAdmissibleRun

-- What the runs below compute.
guest_lid : (p : Player exact) → lookup 20 met.players ≡ some p → p.lid ≡ arena
unfolding run turn recv new cap_ip insert_player admit enter new_player introduce_session
    total_sessions host_lobby join_lobby host_refusal opened_by listed_count indexed new_lobby
    add_to_index lookup insert erase add remove contains is_full new_peer session_count Tokens.new
    Tokens.try_take Tokens.refill Tokens.new_metadata
guest_lid p e = sym (some_inj (ap (λ (o : Option (Player exact)). Option.map (λ q. q.lid) o) e))

arena_master : (l : Lobby exact) → lookup arena met.lobbies ≡ some l → l.master ≡ 11
unfolding run turn recv new cap_ip insert_player admit enter new_player introduce_session
    total_sessions host_lobby join_lobby host_refusal opened_by listed_count indexed new_lobby
    add_to_index lookup insert erase add remove contains is_full new_peer session_count Tokens.new
    Tokens.try_take Tokens.refill Tokens.new_metadata
arena_master l e =
    sym (some_inj (ap (λ (o : Option (Lobby exact)). Option.map (λ q. q.master) o) e))

not_master :
    (p : Player exact) (l : Lobby exact)
    → lookup 20 met.players ≡ some p
    → lookup p.lid met.lobbies ≡ some l
    → l.master ≢ 20
not_master p l there found e =
    let eleven =
      arena_master l
        (subst (λ (x : LobbyId). lookup x met.lobbies ≡ some l) (guest_lid p there) found) in
    let clash : 11 ≡ 20 = sym eleven ∙ e in omega (arith, clash)

recv-not_master_example :
    recv (world 5000 30) (BlasterOperation.set_capacity 20 9) met
    ≡ some (record { state = met; sent = []; reply = Reply.nothing })
recv-not_master_example =
    recv-not_master (world 5000 30) 20 (BlasterOperation.set_capacity 20 9) met
      (ByMaster.capacity 9) not_master

pub guest_there : lookup 20 met.players ≡ some guest
unfolding run turn recv new cap_ip insert_player admit enter new_player introduce_session
    total_sessions host_lobby join_lobby host_refusal opened_by listed_count indexed new_lobby
    add_to_index lookup insert erase add remove contains is_full new_peer session_count Tokens.new
    Tokens.try_take Tokens.refill Tokens.new_metadata
guest_there = refl

pub hall_there : lookup arena met.lobbies ≡ some hall
unfolding run turn recv new cap_ip insert_player admit enter new_player introduce_session
    total_sessions host_lobby join_lobby host_refusal opened_by listed_count indexed new_lobby
    add_to_index lookup insert erase add remove contains is_full new_peer session_count Tokens.new
    Tokens.try_take Tokens.refill Tokens.new_metadata
hall_there = refl

recv-Heard_example :
    Heard met guest (recv (world 5000 30) (BlasterOperation.set_player_meta 20 "name" "kay") met)
recv-Heard_example =
    recv-Heard (world 5000 30) 20 guest (BlasterOperation.set_player_meta 20 "name" "kay") met
      (record { meets = λ x xs. refl }) met-IsValid guest_there (ByPlayer.player_meta "name" "kay")

try_take-IsWithin_example :
    Takes {F = exact}
      (4 * 10 ^ 9)
      refl
      2
      (10 ^ 9)
      (refill {F = exact} (10 ^ 9) (Tokens.new "b" 1 2 4 0)).tokens
      (try_take {F = exact} 2 (10 ^ 9) (Tokens.new "b" 1 2 4 0))
try_take-IsWithin_example =
    try_take-IsWithin {F = exact} (4 * 10 ^ 9) refl 2 (10 ^ 9) (Tokens.new "b" 1 2 4 0)
      (new-IsWithin "b" 1 2 4 0 (omega arith) (omega arith))
