-- ===== src/Session/Orders/Laws.antt =====
-- The sessions of server/src/session.rs speak for their own players only.
use nut_blast.Base.{
  ℕ, ◌≡◌, refl, Option, none, some, String, Option-cases, Result-cases, inl, inr, List, [], ◌∷◌,
  sym, ◌∙◌, arith,
}
use nut_blast.Float.{Float}
use nut_blast.Protocol.Basic.{BasicId}
use nut_blast.Protocol.Payloads.{natural, ClientMessage, ServerMessage}
use nut_blast.Protocol.Validators.{validate}
use nut_blast.Protocol.Sound.{IsMessage}
use nut_blast.Protocol.Sound.Message.{IsMessage-of_ok}
use nut_blast.Tokens
use nut_blast.Tokens.{TokenBucket}
use nut_blast.Blaster.{BlasterOperation, Instant}
use nut_blast.Blaster.Rights.Master.{ByMaster}
use nut_blast.Blaster.Rights.Recv.{ByPlayer}
use nut_blast.Session.{Session, Turn, done, waits, Awaited, pong, listing, seat, send, executes}
use nut_blast.Session.Dispatch.{
  WsMessage, text, binary, close, rest, Event, idle, frame, broken, mail, relay, as_player,
  as_stranger, dispatch, process_websocket_message, handle_next_websocket_message,
}
use nut_blast.Session.Orders.{
  IsSignal, IsChecked, SameClient, SeatRequest, IsRequest, EachOrder, IsTurn,
}

module _ {F : Float} where
  -- A split on the player of a session, which leaves the session whole.
  by_pid :
      (P : Turn F → Type 0) (o : Option BasicId) (stranger : Turn F) (act : BasicId → Turn F)
      → (o ≡ none → P stranger)
      → ((pid : BasicId) → o ≡ some pid → P (act pid))
      → P (elim o [ none ↦ stranger | some pid ↦ act pid ])
  by_pid P none stranger act h k = h refl
  by_pid P (some pid) stranger act h k = k pid refl

  same : (s : Session F) → SameClient s s
  same s = record { pid = refl; real_ip = refl; msg_sender = refl }

  send-SameClient : (msg : ServerMessage) (s : Session F) → SameClient s (send msg s)
  unfolding send
  send-SameClient msg s = record {
    pid = ground arith;
    real_ip = ground arith;
    msg_sender = ground arith;
  }

  module _ (s : Session F) where
    as_player-IsTurn :
        (act : BasicId → Turn F)
        → ((pid : BasicId) → s.pid ≡ some pid → IsTurn s (act pid))
        → IsTurn s (as_player act s)
    as_player-IsTurn act h = by_pid (IsTurn s) s.pid _ act (λ stranger. (same s, tt)) h

    as_stranger-IsTurn :
        (act : Turn F) → (s.pid ≡ none → IsTurn s act) → IsTurn s (as_stranger act s)
    as_stranger-IsTurn act h = by_pid (IsTurn s) s.pid act _ h (λ pid known. (same s, tt))

    -- An order of the session's player.
    orders :
        (op : BasicId → BlasterOperation)
        → ((pid : BasicId) → ByPlayer pid (op pid))
        → ((pid : BasicId) → IsChecked (op pid))
        → IsTurn s (as_player (λ pid. done (executes (op pid) s)) s)
    orders op own sound =
        as_player-IsTurn (λ pid. done (executes (op pid) s))
          (λ pid known. (same s, (tt, (pid, known, own pid, sound pid))))

    relay-IsTurn :
        (now : Instant) (pid to : BasicId) (msg : ServerMessage)
        → s.pid ≡ some pid
        → IsSignal pid msg
        → IsTurn s (done (relay now pid to msg s))
    unfolding relay
    relay-IsTurn now pid to msg known signed =
        elim (Result-cases (Tokens.try_take 1 now s.relays_budget).1) [
          | inl (_, paid) ↦
              rw (paid, relay) (known_client, (tt, (pid, known, ByPlayer.message to msg, signed)))
          | inr (reason, short) ↦
              rw (short, relay) (known_client, (tt, (pid, known, ByPlayer.leaving reason, tt)))
        ]
      where
        known_client :
            SameClient s (record s { relays_budget = (Tokens.try_take 1 now s.relays_budget).0 })
        known_client = record { pid = refl; real_ip = refl; msg_sender = refl }

    pass-IsTurn :
        (now : Instant) (to : BasicId) (msg : BasicId → ServerMessage)
        → ((from : BasicId) → IsSignal from (msg from))
        → IsTurn s (as_player (λ from. done (relay now from to (msg from) s)) s)
    pass-IsTurn now to msg signed =
        as_player-IsTurn (λ from. done (relay now from to (msg from) s))
          (λ from known. relay-IsTurn now from to (msg from) known (signed from))

    dispatch-IsTurn :
        (now : Instant) (msg : ClientMessage) → IsMessage msg → IsTurn s (dispatch now msg s)
    unfolding dispatch
    dispatch-IsTurn now ClientMessage.ping h =
        as_player-IsTurn (λ pid. waits s (BlasterOperation.assemble_pong pid) pong)
          (λ pid known. (same s, (pid, known, refl)))
    dispatch-IsTurn now (ClientMessage.list gid limit) h =
        as_stranger-IsTurn (waits s (BlasterOperation.list_lobbies s.real_ip gid limit) listing)
          (λ stranger. (same s, (gid, limit, stranger, h, refl)))
    dispatch-IsTurn now (ClientMessage.host gid capacity listed player lobby) h =
        as_stranger-IsTurn
          (waits s
            (BlasterOperation.host_lobby s.real_ip gid lobby capacity listed player s.msg_sender)
            seat)
          (λ stranger. (
            same s,
            (
              stranger,
              SeatRequest.host gid lobby player capacity listed h.0 (h.1, h.2) h.4 h.3 refl,
            ),
          ))
    dispatch-IsTurn now (ClientMessage.join lid player) h =
        as_stranger-IsTurn
          (waits s (BlasterOperation.join_lobby s.real_ip lid player s.msg_sender) seat)
          (λ stranger. (same s, (stranger, SeatRequest.join lid player h.0 h.1 refl)))
    dispatch-IsTurn now (ClientMessage.leave code msg) h =
        by_pid (IsTurn s) s.pid _ _ (λ stranger. (same s, tt))
          (λ pid known. (same s, (tt, (pid, known, ByPlayer.leaving (natural code msg), tt))))
    dispatch-IsTurn now (ClientMessage.set_listed listed) h =
        orders (λ pid. BlasterOperation.set_listed pid listed)
          (λ pid. ByPlayer.as_master _ (ByMaster.listed listed)) (λ pid. tt)
    dispatch-IsTurn now (ClientMessage.set_capacity capacity) h =
        orders (λ pid. BlasterOperation.set_capacity pid capacity)
          (λ pid. ByPlayer.as_master _ (ByMaster.capacity capacity)) (λ pid. h)
    dispatch-IsTurn now (ClientMessage.set_player_metadata key value) h =
        orders (λ pid. BlasterOperation.set_player_meta pid key value)
          (λ pid. ByPlayer.player_meta key value) (λ pid. h)
    dispatch-IsTurn now (ClientMessage.erase_player_metadata key) h =
        orders (λ pid. BlasterOperation.erase_player_meta pid key)
          (λ pid. ByPlayer.no_player_meta key) (λ pid. h)
    dispatch-IsTurn now (ClientMessage.set_lobby_metadata key value) h =
        orders (λ pid. BlasterOperation.set_lobby_meta pid key value)
          (λ pid. ByPlayer.as_master _ (ByMaster.lobby_meta key value)) (λ pid. h)
    dispatch-IsTurn now (ClientMessage.erase_lobby_metadata key) h =
        orders (λ pid. BlasterOperation.erase_lobby_meta pid key)
          (λ pid. ByPlayer.as_master _ (ByMaster.no_lobby_meta key)) (λ pid. h)
    dispatch-IsTurn now (ClientMessage.pass_candidate to candidate mid) h =
        pass-IsTurn now to (λ from. ServerMessage.candidate from candidate mid)
          (λ from. (refl, h.0, h.1))
    dispatch-IsTurn now (ClientMessage.pass_offer to sdp) h =
        pass-IsTurn now to (λ from. ServerMessage.offer from sdp) (λ from. (refl, h))
    dispatch-IsTurn now (ClientMessage.pass_answer to sdp) h =
        pass-IsTurn now to (λ from. ServerMessage.answer from sdp) (λ from. (refl, h))
    dispatch-IsTurn now (ClientMessage.kick kickee) h =
        orders (λ pid. BlasterOperation.kick_player pid kickee)
          (λ pid. ByPlayer.as_master _ (ByMaster.kick kickee)) (λ pid. tt)
    dispatch-IsTurn now (ClientMessage.set_master new_master) h =
        orders (λ pid. BlasterOperation.set_master pid new_master)
          (λ pid. ByPlayer.as_master _ (ByMaster.master new_master)) (λ pid. tt)

  -- What a session does in a state that differs in the rest only.
  module _ (s s' : Session F) (c : SameClient s s') where
    EachOrder-of_same : (ops : List BlasterOperation) → EachOrder s' ops → EachOrder s ops
    EachOrder-of_same [] h = tt
    EachOrder-of_same (op ∷ ops) (hs, (pid, known, own, sound)) =
        (EachOrder-of_same ops hs, (pid, sym c.pid ∙ known, own, sound))

    SeatRequest-of_same : (op : BlasterOperation) → SeatRequest s' op → SeatRequest s op
    SeatRequest-of_same op (SeatRequest.host gid lobby player capacity listed g n l p e) =
        SeatRequest.host gid lobby player capacity listed g n l p (e ∙ cc (c.real_ip, c.msg_sender))
    SeatRequest-of_same op (SeatRequest.join lid player g p e) =
        SeatRequest.join lid player g p (e ∙ cc (c.real_ip, c.msg_sender))

    SameClient-of_same : (t : Session F) → SameClient s' t → SameClient s t
    SameClient-of_same t d = record {
      pid = d.pid ∙ c.pid;
      real_ip = d.real_ip ∙ c.real_ip;
      msg_sender = d.msg_sender ∙ c.msg_sender;
    }

    pub IsRequest-of_same :
        (op : BlasterOperation) (a : Awaited) → IsRequest s' op a → IsRequest s op a
    IsRequest-of_same op pong (pid, known, e) = (pid, sym c.pid ∙ known, e)
    IsRequest-of_same op listing (gid, limit, stranger, g, e) =
        (gid, limit, sym c.pid ∙ stranger, g, e ∙ cc (c.real_ip))
    IsRequest-of_same op seat (stranger, r) = (sym c.pid ∙ stranger, SeatRequest-of_same op r)

    IsTurn-of_same : (t : Turn F) → IsTurn s' t → IsTurn s t
    IsTurn-of_same (done t) (d, h) =
        (SameClient-of_same t.session d, EachOrder-of_same t.executed h)
    IsTurn-of_same (waits t op a) (d, h) = (SameClient-of_same t d, IsRequest-of_same op a h)

  module _ (read : String → Option ClientMessage) where
    process-IsTurn :
        (now : Instant) (msg : WsMessage) (s : Session F)
        → IsTurn s (process_websocket_message read now msg s)
    unfolding process_websocket_message
    process-IsTurn now (text json) s = elim (Option-cases (read json)) [
      | inl torn ↦ rw (torn, IsTurn) (same s, tt)
      | inr (raw, whole) ↦
          rw (whole, IsTurn)
            (elim (Result-cases (validate raw)) [
              | inr (e, bad) ↦ rw (bad, IsTurn) (same s, tt)
              | inl (msg, good) ↦
                  rw (good, IsTurn) (dispatch-IsTurn s now msg (IsMessage-of_ok raw msg good))
            ])
    ]
    process-IsTurn now binary s = (same s, tt)
    process-IsTurn now close s = (record { pid = refl; real_ip = refl; msg_sender = refl }, tt)
    process-IsTurn now rest s = (same s, tt)

    -- In every event a session speaks for itself only: an operation that it executes is one of the
    -- operations of its own player, with validated arguments, and what it passes on is signed by it,
    -- with candidates of at most 512 and session descriptions of at most 4096 bytes; what it waits for
    -- is a pong of its own player, or, while it has no player, a listing, a new lobby or a seat, for its
    -- own address and mailbox, with validated arguments. Its player, address and mailbox stay as they
    -- are.
    pub handle-IsTurn :
        (now : ℕ → Instant) (event : Event) (s : Session F)
        → IsTurn s (handle_next_websocket_message read now event s)
    unfolding handle_next_websocket_message send
    handle-IsTurn now idle s = (record { pid = refl; real_ip = refl; msg_sender = refl }, tt)
    handle-IsTurn now (frame len msg) s =
        let r = Tokens.try_take 1 (now 0) s.payloads_budget in
        let s₁ = record s { payloads_budget = r.0 } in
        let r' = Tokens.try_take len (now 1) s.bandwidth_budget in
        let s₂ = record s₁ { bandwidth_budget = r'.0 } in
        let changed : (b b' : TokenBucket F)
            → SameClient s (record s { payloads_budget = b; bandwidth_budget = b' }) =
          λ b b'. record { pid = refl; real_ip = refl; msg_sender = refl } in
        elim (Result-cases r.1) [
          | inr (e, many) ↦ rw (many, IsTurn) (changed r.0 s.bandwidth_budget, tt)
          | inl (_, few) ↦
              rw (few, IsTurn)
                (elim (Result-cases r'.1) [
                  | inr (e, large) ↦ rw (large, IsTurn) (changed r.0 r'.0, tt)
                  | inl (_, light) ↦
                      rw (light, IsTurn)
                        (IsTurn-of_same s s₂ (changed r.0 r'.0) _ (process-IsTurn (now 2) msg s₂))
                ])
        ]
    handle-IsTurn now broken s = (record { pid = refl; real_ip = refl; msg_sender = refl }, tt)
    handle-IsTurn now (mail msg) s = (send-SameClient msg s, tt)
