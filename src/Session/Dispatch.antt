-- ===== src/Session/Dispatch.antt =====
-- What a session does with what comes in: `process_websocket_message` and
-- `handle_next_websocket_message` of server/src/session.rs.
use nut_blast.Base.{ℕ, true, not, Option, none, some, List, String, Result, ok, err, is_some}
use nut_blast.Float.{Float}
use nut_blast.Protocol.Basic.{BasicId}
use nut_blast.Protocol.Payloads.{
  Kick, natural, violation, ClientMessage, ServerMessage, LobbyListing,
}
use nut_blast.Protocol.Validators.{validate}
use nut_blast.Tokens
use nut_blast.Blaster.{Instant, BlasterOperation, Reply}
use nut_blast.Session.{
  Session, Turned, Awaited, pong, listing, seat, Turn, done, waits, send, settles, executes, writes,
  refuses,
}

-- `tungstenite::Message`; the rest are pings, pongs and raw frames.
pub data WsMessage : Type 0 where
  text : String → WsMessage
  binary close rest : WsMessage

-- What `select!` in `handle_next_websocket_message` may find.
pub data Event : Type 0 where
  -- the sleep of `IDLE_TIMEOUT`
  idle : Event
  -- a WebSocket message, with what `Message::len` says of it
  frame : ℕ → WsMessage → Event
  -- an error of the WebSocket
  broken : Event
  -- a message of the event loop
  mail : ServerMessage → Event

abbrev pub bad_payload : Kick
bad_payload = violation "bad_payload" "Invalid payload"

abbrev pub bad_json : Kick
bad_json = violation "bad_json" "JSON parse error"

abbrev pub binary_unsupported : Kick
binary_unsupported = violation "binary_unsupported" "Binary messages not supported"

-- What an answer is to the one that waits for it.
abbrev pub pong_of : Option Reply → Option ServerMessage
pong_of (some (Reply.pong msg)) = some msg
pong_of reply = none

abbrev pub listing_of : Option Reply → Option (Result Kick (List LobbyListing))
listing_of (some (Reply.listing r)) = some r
listing_of reply = none

abbrev pub joined_of : Option Reply → Option (Result Kick BasicId)
joined_of (some (Reply.joined r)) = some r
joined_of reply = none

module _ {F : Float} where
  -- `relay`, once the session is known to have a player.
  unfoldable pub relay : Instant → BasicId → BasicId → ServerMessage → Session F → Turned F
  relay now pid to msg s =
      let (bucket, taken) = Tokens.try_take 1 now s.relays_budget in
      let s' = record s { relays_budget = bucket } in
      elim taken [
        | err reason ↦ executes (BlasterOperation.remove_player pid reason) s'
        | ok _ ↦ executes (BlasterOperation.relay pid to msg) s'
      ]

  -- What only a session with a player may ask for.
  abbrev pub as_player : (BasicId → Turn F) → Session F → Turn F
  as_player act s = elim s.pid [ none ↦ done (refuses bad_payload s) | some pid ↦ act pid ]

  -- What only a session with no player may ask for.
  abbrev pub as_stranger : Turn F → Session F → Turn F
  as_stranger act s = elim s.pid [ none ↦ act | some pid ↦ done (refuses bad_payload s) ]

  -- The `match` of `process_websocket_message`.
  unfoldable pub dispatch : Instant → ClientMessage → Session F → Turn F
  dispatch now ClientMessage.ping s =
      as_player (λ pid. waits s (BlasterOperation.assemble_pong pid) pong) s
  dispatch now (ClientMessage.list gid limit) s =
      as_stranger (waits s (BlasterOperation.list_lobbies s.real_ip gid limit) listing) s
  dispatch now (ClientMessage.host gid capacity listed player_metadata lobby_metadata) s =
      as_stranger
        (waits s
          (BlasterOperation.host_lobby s.real_ip gid lobby_metadata capacity listed player_metadata
            s.msg_sender)
          seat)
        s
  dispatch now (ClientMessage.join lid player_metadata) s =
      as_stranger
        (waits s (BlasterOperation.join_lobby s.real_ip lid player_metadata s.msg_sender) seat) s
  dispatch now (ClientMessage.leave code msg) s = elim s.pid [
    | none ↦ done (settles s)
    | some pid ↦ done (executes (BlasterOperation.remove_player pid (natural code msg)) s)
  ]
  dispatch now (ClientMessage.pass_candidate to candidate mid) s =
      as_player (λ from. done (relay now from to (ServerMessage.candidate from candidate mid) s)) s
  dispatch now (ClientMessage.pass_offer to sdp) s =
      as_player (λ from. done (relay now from to (ServerMessage.offer from sdp) s)) s
  dispatch now (ClientMessage.pass_answer to sdp) s =
      as_player (λ from. done (relay now from to (ServerMessage.answer from sdp) s)) s
  dispatch now (ClientMessage.set_listed listed) s =
      as_player (λ pid. done (executes (BlasterOperation.set_listed pid listed) s)) s
  dispatch now (ClientMessage.set_capacity capacity) s =
      as_player (λ pid. done (executes (BlasterOperation.set_capacity pid capacity) s)) s
  dispatch now (ClientMessage.set_player_metadata key value) s =
      as_player (λ pid. done (executes (BlasterOperation.set_player_meta pid key value) s)) s
  dispatch now (ClientMessage.erase_player_metadata key) s =
      as_player (λ pid. done (executes (BlasterOperation.erase_player_meta pid key) s)) s
  dispatch now (ClientMessage.set_lobby_metadata key value) s =
      as_player (λ pid. done (executes (BlasterOperation.set_lobby_meta pid key value) s)) s
  dispatch now (ClientMessage.erase_lobby_metadata key) s =
      as_player (λ pid. done (executes (BlasterOperation.erase_lobby_meta pid key) s)) s
  dispatch now (ClientMessage.kick kickee) s =
      as_player (λ pid. done (executes (BlasterOperation.kick_player pid kickee) s)) s
  dispatch now (ClientMessage.set_master new_master) s =
      as_player (λ pid. done (executes (BlasterOperation.set_master pid new_master) s)) s

  -- The rest of `process_websocket_message` after the `.await`, given what the event loop put on the
  -- operation's own channel, if it put anything there.
  unfoldable pub resume : Awaited → Option Reply → Session F → Turned F
  unfolding send
  resume pong reply s = elim (pong_of reply) [ none ↦ settles s | some msg ↦ writes msg s ]
  resume listing reply s = elim (listing_of reply) [
    | none ↦ settles (record s { stop = true })
    | some (err reason) ↦ refuses reason s
    | some (ok list) ↦ writes (ServerMessage.list list) (record s { stop = true })
  ]
  resume seat reply s = elim (joined_of reply) [
    | none ↦ settles s
    | some (err reason) ↦ refuses reason s
    | some (ok pid) ↦ settles (record s { pid = some pid })
  ]

  -- `read` is the part of `serde_json::from_str` that serde makes, up to the validators.
  module _ (read : String → Option ClientMessage) where
    unfoldable pub process_websocket_message : Instant → WsMessage → Session F → Turn F
    process_websocket_message now (text json) s = elim (read json) [
      | none ↦ done (refuses bad_json s)
      | some raw ↦ elim (validate raw) [
        | err _ ↦ done (refuses bad_json s)
        | ok msg ↦ dispatch now msg s
      ]
    ]
    process_websocket_message now close s = done (settles (record s { stop = true }))
    process_websocket_message now binary s = done (refuses binary_unsupported s)
    process_websocket_message now rest s = done (settles s)

    -- The clock is read for each bucket in turn.
    unfoldable pub handle_next_websocket_message : (ℕ → Instant) → Event → Session F → Turn F
    unfolding send
    handle_next_websocket_message now idle s =
        done (settles (record s { stop = not (is_some s.pid) }))
    handle_next_websocket_message now (frame len msg) s =
        let (payloads, counted) = Tokens.try_take 1 (now 0) s.payloads_budget in
        let s₁ = record s { payloads_budget = payloads } in
        elim counted [
          | err reason ↦ done (refuses reason s₁)
          | ok _ ↦
              let (bandwidth, weighed) = Tokens.try_take len (now 1) s.bandwidth_budget in
              let s₂ = record s₁ { bandwidth_budget = bandwidth } in
              elim weighed [
                | err reason ↦ done (refuses reason s₂)
                | ok _ ↦ process_websocket_message (now 2) msg s₂
              ]
        ]
    handle_next_websocket_message now broken s = done (settles (record s { stop = true }))
    handle_next_websocket_message now (mail msg) s = done (writes msg s)
