-- ===== src/Server/Faults.antt =====
-- How a fault ends a session, server/src/session.rs.
use nut_blast.Base.{
  ℕ, ◌≡◌, ◌⊎◌, refl, Bool, true, false, Option, none, some, List, [], ◌∷◌, String, ok, err,
  Option-cases, inl, inr,
}
use mathlib.Core.Bool.{false≢true}
use nut_blast.Float.{Float}
use nut_blast.Tokens
use nut_blast.Protocol.Payloads.{Kick, ClientMessage, ServerMessage}
use nut_blast.Protocol.Validators.{validate}
use nut_blast.Protocol.Basic.{BasicId}
use nut_blast.Blaster.{BlasterOperation, Instant, Reply}
use nut_blast.Session.{Session, Awaited, listing, seat, done, send, refuses, settles}
use nut_blast.Session.Dispatch.{
  Event, WsMessage, idle, mail, frame, broken, text, binary, close, bad_json, bad_payload, dispatch,
  resume, binary_unsupported, handle_next_websocket_message, process_websocket_message,
}
use nut_blast.Session.Serve.{conclude, farewell}
use nut_blast.Server.{Connection, answered, gone, Posted, send_off, leave, proceed}

-- What a session hears of: an event of its `select!`, or the answer that it waits for.
pub data Trigger : Type 0 where
  seen : Event → Trigger
  answer : Awaited → Option Reply → Trigger

-- The messages that only a session with a player may send, and those that only one without may send.
abbrev pub is_of_player : ClientMessage → Bool
is_of_player (ClientMessage.list gid limit) = false
is_of_player (ClientMessage.host gid capacity listed player lobby) = false
is_of_player (ClientMessage.join lid player) = false
is_of_player (ClientMessage.leave code msg) = false
is_of_player msg = true

abbrev pub is_of_stranger : ClientMessage → Bool
is_of_stranger (ClientMessage.list gid limit) = true
is_of_stranger (ClientMessage.host gid capacity listed player lobby) = true
is_of_stranger (ClientMessage.join lid player) = true
is_of_stranger msg = false

module _ {F : Float} where
  -- What is posted at the end: the removal of the player, if there is one, and the close.
  abbrev pub goodbye : Session F → Kick → List Posted
  goodbye s reason =
      let close = send_off (BlasterOperation.close_session s.real_ip) ∷ [] in
      elim s.pid [
        | none ↦ close
        | some pid ↦ send_off (BlasterOperation.remove_player pid reason) ∷ close
      ]

  refuses_lem :
      (reason : Kick) (s : Session F)
      → leave (conclude (refuses reason s)) ≡ (gone, goodbye s reason)
  unfolding leave conclude farewell send
  refuses_lem reason s = elim (Option-cases s.pid) [
    | inl nobody ↦ rw nobody refl
    | inr (pid, known) ↦ rw known refl
  ]

  stops_lem :
      (s : Session F)
      → leave (conclude (settles (record s { stop = true }))) ≡ (gone, goodbye s s.bye_reason)
  unfolding leave conclude farewell
  stops_lem s = elim (Option-cases s.pid) [
    | inl nobody ↦ rw nobody refl
    | inr (pid, known) ↦ rw known refl
  ]

  player_refused :
      (now : Instant) (msg : ClientMessage) (s : Session F)
      → is_of_player msg ≡ true
      → s.pid ≡ none
      → dispatch now msg s ≡ done (refuses bad_payload s)
  unfolding dispatch
  player_refused now ClientMessage.ping s h nobody = rw nobody refl
  player_refused now (ClientMessage.set_listed listed) s h nobody = rw nobody refl
  player_refused now (ClientMessage.set_capacity capacity) s h nobody = rw nobody refl
  player_refused now (ClientMessage.set_player_metadata key value) s h nobody = rw nobody refl
  player_refused now (ClientMessage.erase_player_metadata key) s h nobody = rw nobody refl
  player_refused now (ClientMessage.set_lobby_metadata key value) s h nobody = rw nobody refl
  player_refused now (ClientMessage.erase_lobby_metadata key) s h nobody = rw nobody refl
  player_refused now (ClientMessage.pass_candidate to candidate mid) s h nobody = rw nobody refl
  player_refused now (ClientMessage.pass_offer to sdp) s h nobody = rw nobody refl
  player_refused now (ClientMessage.pass_answer to sdp) s h nobody = rw nobody refl
  player_refused now (ClientMessage.kick kickee) s h nobody = rw nobody refl
  player_refused now (ClientMessage.set_master new_master) s h nobody = rw nobody refl
  player_refused now (ClientMessage.list gid limit) s h nobody = absurd (false≢true h)
  player_refused now (ClientMessage.host gid capacity listed player lobby) s h nobody =
      absurd (false≢true h)
  player_refused now (ClientMessage.join lid player) s h nobody = absurd (false≢true h)
  player_refused now (ClientMessage.leave code msg) s h nobody = absurd (false≢true h)

  stranger_refused :
      (now : Instant) (msg : ClientMessage) (s : Session F)
      → is_of_stranger msg ≡ true
      → (pid : BasicId) → s.pid ≡ some pid
      → dispatch now msg s ≡ done (refuses bad_payload s)
  unfolding dispatch
  stranger_refused now (ClientMessage.list gid limit) s h pid known = rw known refl
  stranger_refused now (ClientMessage.host gid capacity listed player lobby) s h pid known =
      rw known refl
  stranger_refused now (ClientMessage.join lid player) s h pid known = rw known refl
  stranger_refused now (ClientMessage.leave code msg) s h pid known = absurd (false≢true h)
  stranger_refused now ClientMessage.ping s h pid known = absurd (false≢true h)
  stranger_refused now (ClientMessage.set_listed listed) s h pid known = absurd (false≢true h)
  stranger_refused now (ClientMessage.set_capacity capacity) s h pid known = absurd (false≢true h)
  stranger_refused now (ClientMessage.set_player_metadata key value) s h pid known =
      absurd (false≢true h)
  stranger_refused now (ClientMessage.erase_player_metadata key) s h pid known =
      absurd (false≢true h)
  stranger_refused now (ClientMessage.set_lobby_metadata key value) s h pid known =
      absurd (false≢true h)
  stranger_refused now (ClientMessage.erase_lobby_metadata key) s h pid known =
      absurd (false≢true h)
  stranger_refused now (ClientMessage.pass_candidate to candidate mid) s h pid known =
      absurd (false≢true h)
  stranger_refused now (ClientMessage.pass_offer to sdp) s h pid known = absurd (false≢true h)
  stranger_refused now (ClientMessage.pass_answer to sdp) s h pid known = absurd (false≢true h)
  stranger_refused now (ClientMessage.kick kickee) s h pid known = absurd (false≢true h)
  stranger_refused now (ClientMessage.set_master new_master) s h pid known = absurd (false≢true h)

module _ {F : Float} (read : String → Option ClientMessage) (now : ℕ → Instant)
    (s : Session F) where
  -- The budgets let a frame of that length in.
  abbrev pub IsMetered : ℕ → Type 0
  IsMetered len =
      ((Tokens.try_take 1 (now 0) s.payloads_budget).1 ≡ ok tt)
      × ((Tokens.try_take len (now 1) s.bandwidth_budget).1 ≡ ok tt)

  -- The message does not fit in with whether the session has a player.
  abbrev pub IsMisplaced : ClientMessage → Type 0
  IsMisplaced msg =
      ((is_of_player msg ≡ true) × (s.pid ≡ none))
      ⊎ ((is_of_stranger msg ≡ true) × (pid : BasicId) × (s.pid ≡ some pid))

  -- What is wrong with what the session hears, and the reason that it gives.
  pub data IsFault : Trigger → Kick → Type 0 where
    -- the event loop dismisses the player
    dismissed : (reason : Kick) → IsFault (seen (mail (ServerMessage.disconnected reason))) reason
    -- messages come too often
    too_many :
        (len : ℕ) (msg : WsMessage) (reason : Kick)
        → (Tokens.try_take 1 (now 0) s.payloads_budget).1 ≡ err reason
        → IsFault (seen (frame len msg)) reason
    -- or are too long
    too_much :
        (len : ℕ) (msg : WsMessage) (reason : Kick)
        → (Tokens.try_take 1 (now 0) s.payloads_budget).1 ≡ ok tt
        → (Tokens.try_take len (now 1) s.bandwidth_budget).1 ≡ err reason
        → IsFault (seen (frame len msg)) reason
    unreadable :
        (len : ℕ) (json : String)
        → IsMetered len
        → read json ≡ none
        → IsFault (seen (frame len (text json))) bad_json
    unsound :
        (len : ℕ) (json : String) (raw : ClientMessage) (e : String)
        → IsMetered len
        → read json ≡ some raw
        → validate raw ≡ err e
        → IsFault (seen (frame len (text json))) bad_json
    not_text : (len : ℕ) → IsMetered len → IsFault (seen (frame len binary)) binary_unsupported
    -- the socket fails
    lost : IsFault (seen broken) s.bye_reason
    -- a client without a player waits too long
    timed_out : s.pid ≡ none → IsFault (seen idle) s.bye_reason
    -- a valid message comes at the wrong time
    misplaced :
        (len : ℕ) (json : String) (raw msg : ClientMessage)
        → IsMetered len
        → read json ≡ some raw
        → validate raw ≡ ok msg
        → IsMisplaced msg
        → IsFault (seen (frame len (text json))) bad_payload
    -- the client closes the socket
    closed : (len : ℕ) → IsMetered len → IsFault (seen (frame len close)) s.bye_reason
    -- the event loop refuses a listing, a new lobby or a seat
    unlisted : (reason : Kick) → IsFault (answer listing (some (Reply.listing (err reason)))) reason
    unseated : (reason : Kick) → IsFault (answer seat (some (Reply.joined (err reason)))) reason

  -- What comes of it, the connection being in the `select!` or waiting for that answer.
  unfoldable pub faced : ℕ → Trigger → Connection F × List Posted
  faced id (seen event) = proceed id (handle_next_websocket_message read now event s)
  faced id (answer a reply) = answered reply (Connection.waiting s a)

  -- The session once a frame is counted, and once it is weighed.
  abbrev counted : Session F
  counted = record s { payloads_budget = (Tokens.try_take 1 (now 0) s.payloads_budget).0 }

  abbrev weighed : ℕ → Session F
  weighed len = record counted {
    bandwidth_budget = (Tokens.try_take len (now 1) s.bandwidth_budget).0;
  }

  -- In the turn in which one of these faults comes up the session ends: the event loop dismisses the
  -- player, or refuses the listing, the new lobby or the seat that was asked for; frames are too many
  -- or too long for the budgets; a frame is not text, not a valid message, or one that does not fit in
  -- with whether the session has a player; the client closes the socket, or the socket fails; or a
  -- client has no player for too long. The session posts the removal of its player, if it has one,
  -- with the reason that the fault gives or else with the one that it has, and the close of its
  -- address, and nothing else.
  pub faced-IsFault :
      (id : ℕ) (what : Trigger) (reason : Kick)
      → IsFault what reason
      → faced id what ≡ (gone, goodbye s reason)
  unfolding faced proceed answered resume leave conclude farewell send handle_next_websocket_message
      process_websocket_message
  faced-IsFault id _ _ (dismissed reason) = stops_lem (record s { bye_reason = reason })
  faced-IsFault id _ _ (too_many len msg reason e) =
      rw (handle_next_websocket_message, e) (refuses_lem reason counted)
  faced-IsFault id _ _ (too_much len msg reason a e) =
      rw (handle_next_websocket_message, a) (rw e (refuses_lem reason (weighed len)))
  faced-IsFault id _ _ (unreadable len json (a, b) e) =
      rw (handle_next_websocket_message, a)
        (rw b (rw (process_websocket_message, e) (refuses_lem bad_json (weighed len))))
  faced-IsFault id _ _ (unsound len json raw k (a, b) e bad) =
      rw (handle_next_websocket_message, a)
        (rw b (rw (process_websocket_message, e) (rw bad (refuses_lem bad_json (weighed len)))))
  faced-IsFault id _ _ (not_text len (a, b)) =
      rw (handle_next_websocket_message, a) (rw b (refuses_lem binary_unsupported (weighed len)))
  faced-IsFault id _ _ lost = stops_lem s
  faced-IsFault id _ _ (timed_out nobody) =
      rw (handle_next_websocket_message, nobody) (stops_lem (record s { pid = none }))
  faced-IsFault id _ _ (misplaced len json raw msg (a, b) e good (inl (of_player, nobody))) =
      rw (handle_next_websocket_message, a)
        (rw b (
          rw (process_websocket_message, e)
            (rw good (
              rw (player_refused (now 2) msg (weighed len) of_player nobody)
                (refuses_lem bad_payload (weighed len))))))
  faced-IsFault id _ _ (misplaced len json raw msg (a, b) e good (inr (of_stranger, pid, known))) =
      rw (handle_next_websocket_message, a)
        (rw b (
          rw (process_websocket_message, e)
            (rw good (
              rw (stranger_refused (now 2) msg (weighed len) of_stranger pid known)
                (refuses_lem bad_payload (weighed len))))))
  faced-IsFault id _ _ (closed len (a, b)) =
      rw (handle_next_websocket_message, a) (rw b (stops_lem (weighed len)))
  faced-IsFault id _ _ (unlisted reason) = refuses_lem reason s
  faced-IsFault id _ _ (unseated reason) = refuses_lem reason s
