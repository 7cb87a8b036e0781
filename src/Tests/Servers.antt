-- ===== src/Tests/Servers.antt =====
-- A server at work: two clients meet in a lobby.
use nut_blast.Base.{
  ok, ℕ, ◌+◌, ◌≡◌, refl, true, Option, none, some, List, [], ◌∷◌, String, ◌==◌, nat_eq, string_eq,
  lookup, insert, erase, contains, add, remove, tally, if◌then◌else◌, arith,
}
use nut_blast.Float.Exact.{exact}
use nut_blast.Config.{Config}
use nut_blast.Protocol.Basic.{lobby_id_eq}
use nut_blast.Protocol.Payloads.{ClientMessage}
use nut_blast.Protocol.Validators.{
  validate, validate_gid, validate_capacity, deserialize_metadata, collect, deserialize_field_name,
  deserialize_field_value,
}
use nut_blast.Blaster.{IpAddr, is_full, new_peer, session_count}
use nut_blast.Blaster.EventLoop.State.{new, cap_ip, insert_player, admit, enter, new_player}
use nut_blast.Blaster.EventLoop.Sessions.{introduce_session, total_sessions}
use nut_blast.Blaster.EventLoop.Rooms.{
  host_lobby, join_lobby, host_refusal, opened_by, listed_count, indexed, new_lobby, add_to_index,
}
use nut_blast.Blaster.EventLoop.{recv}
use nut_blast.Blaster.Invariant.{IsWalk}
use nut_blast.Tokens
use nut_blast.Session as Session
use nut_blast.Session.Serve.{conclude}
use nut_blast.Server.{Action, Server, history, start, act, deliver, leave, proceed, answered, give}
use nut_blast.Server.Address.{real_ip}
use nut_blast.Session.Dispatch.{
  frame, text, handle_next_websocket_message, process_websocket_message, dispatch, resume,
}
use nut_blast.Server.Invariant.History.{IsLuckyHistory}
use nut_blast.Blaster.Invariant.{IsValid}
use nut_blast.Blaster.Bounds.{IsBounded}
use nut_blast.Blaster.Counts.{live}
use nut_blast.Base.{err, ◌⊎◌}
use nut_blast.Protocol.Sound.Merged.{IsRead}
use nut_blast.Protocol.Sound.{IsMessage}
use nut_blast.Protocol.Sound.Message.{validate-IsMessage}
use nut_blast.Session.{Session}
use nut_blast.Session.Orders.{IsTurn}
use nut_blast.Session.Orders.Laws.{handle-IsTurn}
use nut_blast.Server.Posts.{closing}
use nut_blast.Server.Turns.{held}
use nut_blast.Server.Invariant.History.{history-start-IsValid, live-history}
use nut_blast.Server.Owners.History.{IsOwned, history-start-IsOwned}
use nut_blast.Server.Settled.{AllGone, IsDeserted, works, history-works-IsDeserted}
use nut_blast.Blaster.{Env}
use nut_blast.Session.Dispatch.{broken}
use nut_blast.Session.Serve.{farewell}
use nut_blast.Session.{send}
use nut_blast.Blaster.EventLoop.Rooms.{remove_player}
use nut_blast.Blaster.EventLoop.Rooms as Rooms
use nut_blast.Blaster.EventLoop.Sessions.{close_session}
use nut_blast.Base.{length, ◌++◌}
use nut_blast.Tests.Samples.{world, arena}

-- A proxy is trusted.
abbrev pub proxied : Config
proxied = record { ice_servers = []; trust_reverse_proxy_xff = some true }

-- The stand-ins for the parsers of addresses and of JSON know a few texts.
abbrev pub parse : List ℕ → Option IpAddr
parse [] = none
parse (b ∷ bs) = some b

abbrev pub read : String → Option ClientMessage
read json =
    if json == "host"
    then some (ClientMessage.host "arena" 4 true [] (("map", "dunes") ∷ []))
    else if json == "join"
    then some (ClientMessage.join arena [])
    else none

abbrev pub clock : ℕ → ℕ → ℕ
clock time i = time + i

-- Two clients connect; one hosts a lobby, the other joins it and then loses its connection's sense.
abbrev pub party : List Action
party =
    Action.accept 0 9 (some (b' ' ∷ b'7' ∷ b',' ∷ b'9' ∷ []))
    ∷ Action.work (world 1000 0)
    ∷ Action.established 0 (clock 1100)
    ∷ Action.accept 1 8 none
    ∷ Action.work (world 1200 0)
    ∷ Action.established 1 (clock 1300)
    ∷ Action.handle 0 (clock 2000) (frame 4 (text "host"))
    ∷ Action.work (world 3000 10)
    ∷ Action.handle 1 (clock 3500) (frame 4 (text "join"))
    ∷ Action.work (world 4000 20)
    ∷ Action.receive 1 (clock 5000)
    ∷ Action.handle 1 (clock 6000) (frame 3 (text "bad"))
    ∷ []

abbrev pub after_party : Server exact
after_party = history proxied parse read party (start proxied)

walk : (time seed : ℕ) → IsWalk (world time seed)
walk time seed = record { meets = λ x xs. refl }

party-IsLucky : IsLuckyHistory {F = exact} proxied parse read party (start proxied)
unfolding act start new recv cap_ip insert_player admit enter new_player introduce_session
    total_sessions host_lobby join_lobby host_refusal opened_by listed_count indexed new_lobby
    add_to_index lookup insert erase add remove contains is_full new_peer session_count Tokens.new
    Tokens.try_take Tokens.refill Tokens.new_metadata handle_next_websocket_message
    process_websocket_message dispatch validate validate_gid validate_capacity deserialize_metadata
    collect deserialize_field_name deserialize_field_value Session.new real_ip deliver resume
    conclude leave proceed answered give
party-IsLucky = (
  tt,
  (
    (walk 1000 0, tt),
    (
      tt,
      (
        tt,
        (
          (walk 1200 0, tt),
          (
            tt,
            (
              tt,
              (
                (walk 3000 10, (refl, (refl, omega arith))),
                (tt, ((walk 4000 20, (refl, omega arith)), (tt, (tt, tt)))),
              ),
            ),
          ),
        ),
      ),
    ),
  ),
)

history-start-IsValid_example :
    IsValid (history {F = exact} proxied parse read party (start {F = exact} proxied)).loop
    × IsBounded 15 (history {F = exact} proxied parse read party (start {F = exact} proxied)).loop
history-start-IsValid_example =
    history-start-IsValid {F = exact} proxied parse read party party-IsLucky

live-history_example :
    let s = history {F = exact} proxied parse read party (start {F = exact} proxied) in
    live 55 s.loop.peers ≡ tally (held 55) s.connections + closing 55 s.queue
live-history_example = live-history exact proxied parse read party 55 party-IsLucky

-- The client of the host, once it has its lobby.
abbrev pub hosting : Session exact
hosting = record (Session.new 55 0 (clock 1100)) { pid = some 11 }

handle-IsTurn_example :
    IsTurn hosting (handle_next_websocket_message read (clock 7000) (frame 4 (text "host")) hosting)
handle-IsTurn_example = handle-IsTurn read (clock 7000) (frame 4 (text "host")) hosting

validate-IsMessage_example :
    let msg = ClientMessage.join arena (("map", "dunes") ∷ ("map", "moor") ∷ []) in
    ((e : String) × (validate msg ≡ err e) × ¬ IsMessage msg)
    ⊎ ((msg' : ClientMessage) × (validate msg ≡ ok msg')
        × IsMessage msg'
        × IsRead msg msg'
        × (IsMessage msg → msg' ≡ msg))
validate-IsMessage_example =
    validate-IsMessage (ClientMessage.join arena (("map", "dunes") ∷ ("map", "moor") ∷ []))

history-start-IsOwned_example :
    IsOwned (history {F = exact} proxied parse read party (start {F = exact} proxied))
history-start-IsOwned_example =
    history-start-IsOwned {F = exact} proxied parse read party party-IsLucky

-- The party, and then the host's connection breaks.
abbrev pub exodus : List Action
exodus =
    Action.accept 0 9 none
    ∷ Action.work (world 1000 0)
    ∷ Action.established 0 (clock 1100)
    ∷ Action.handle 0 (clock 2000) (frame 4 (text "host"))
    ∷ Action.work (world 3000 10)
    ∷ Action.handle 0 (clock 7000) broken
    ∷ []

-- What the event loop does then.
abbrev pub rest : List Env
rest = world 8000 30 ∷ world 8100 30 ∷ []

exodus-IsLucky :
    IsLuckyHistory {F = exact} proxied parse read (exodus ++ works rest) (start proxied)
unfolding act start new recv cap_ip insert_player admit enter new_player introduce_session
    total_sessions host_lobby join_lobby host_refusal opened_by listed_count indexed new_lobby
    add_to_index lookup insert erase add remove contains is_full new_peer session_count Tokens.new
    Tokens.try_take Tokens.refill Tokens.new_metadata handle_next_websocket_message
    process_websocket_message dispatch validate validate_gid validate_capacity deserialize_metadata
    collect deserialize_field_name deserialize_field_value Session.new real_ip deliver resume
    conclude leave proceed answered give farewell send remove_player Rooms.leave close_session
exodus-IsLucky = (
  tt,
  (
    (walk 1000 0, tt),
    (
      tt,
      (
        tt,
        (
          (walk 3000 10, (refl, (refl, omega arith))),
          (tt, ((walk 8000 30, tt), ((walk 8100 30, tt), tt))),
        ),
      ),
    ),
  ),
)

exodus_end :
    let s = history {F = exact} proxied parse read exodus (start {F = exact} proxied) in
    AllGone s.connections × (length rest ≡ length s.queue)
unfolding history act start new recv cap_ip insert_player admit enter new_player introduce_session
    total_sessions host_lobby join_lobby host_refusal opened_by listed_count indexed new_lobby
    add_to_index lookup insert erase add remove contains is_full new_peer session_count Tokens.new
    Tokens.try_take Tokens.refill Tokens.new_metadata handle_next_websocket_message
    process_websocket_message dispatch validate validate_gid validate_capacity deserialize_metadata
    collect deserialize_field_name deserialize_field_value Session.new real_ip deliver resume
    conclude leave proceed answered give farewell send
exodus_end = ((refl, tt), refl)

history-works-IsDeserted_example :
    IsDeserted
      (history {F = exact} proxied parse read (exodus ++ works rest) (start {F = exact} proxied))
history-works-IsDeserted_example =
    history-works-IsDeserted {F = exact} proxied parse read exodus rest exodus-IsLucky exodus_end.0
      exodus_end.1
