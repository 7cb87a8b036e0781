-- ===== src/Blaster/EventLoop/Master.antt =====
-- What a lobby's master does to it, server/src/blaster/eventloop.rs: `SetCapacity`, `SetListed`,
-- `SetMaster`, `SetLobbyMeta`, `EraseLobbyMeta`, `KickPlayer`.
use nut_blast.Base.{
  ℕ, ◌+◌, Bool, false, none, some, List, [], ◌∷◌, String, len, ◌==◌, nat_eq, string_eq, lookup,
  insert, erase, contains_key, if◌then◌else◌,
}
use nut_blast.Float.{Float}
use nut_blast.Protocol.Basic.{BasicId, LobbyId, lobby_id_eq}
use nut_blast.Protocol.Metadata.{can_add}
use nut_blast.Protocol.Payloads.{natural, ServerMessage}
use nut_blast.Blaster.{Lobby, Player, Sent, Env, send, try_take_from_budget}
use nut_blast.Blaster.EventLoop.State.{BlasterEventLoop, put_lobby, send_to_lobby, mastered}

module _ {F : Float} where
  -- Takes one token of the lobby's, then changes the lobby and tells its players of it.
  unfoldable pub alter :
      Env
      → Player F
      → Lobby F
      → (Lobby F → Lobby F)
      → ServerMessage
      → BlasterEventLoop F
      → BlasterEventLoop F × List Sent
  alter env player lobby change msg s =
      let (paid, bucket, boots) =
        try_take_from_budget player lobby.alterations_budget 1 (env.now 0) in
      let charged = record lobby { alterations_budget = bucket } in
      let s' = put_lobby player.lid (change charged) s in
      if paid
      then (s', send_to_lobby env player.lid msg s')
      else (put_lobby player.lid charged s, boots)

  unfoldable pub set_capacity :
      Env → BasicId → ℕ → BlasterEventLoop F → BlasterEventLoop F × List Sent
  set_capacity env initiator capacity s = elim (mastered initiator s) [
    | none ↦ (s, [])
    | some (player, lobby) ↦
        alter env player lobby (λ l. record l { capacity = capacity })
          (ServerMessage.set_capacity capacity) s
  ]

  unfoldable pub set_listed :
      Env → BasicId → Bool → BlasterEventLoop F → BlasterEventLoop F × List Sent
  set_listed env initiator listed s = elim (mastered initiator s) [
    | none ↦ (s, [])
    | some (player, lobby) ↦
        alter env player lobby (λ l. record l { listed = listed }) (ServerMessage.set_listed listed)
          s
  ]

  -- Whether `pid` is a player of the lobby.
  unfoldable pub is_in : BasicId → LobbyId → BlasterEventLoop F → Bool
  is_in pid lid s = elim (lookup pid s.players) [ none ↦ false | some p ↦ p.lid == lid ]

  unfoldable pub set_master :
      Env → BasicId → BasicId → BlasterEventLoop F → BlasterEventLoop F × List Sent
  set_master env initiator new_master s =
      if new_master == initiator then (s, []) else elim (mastered initiator s) [
        | none ↦ (s, [])
        | some (player, lobby) ↦
            if is_in new_master player.lid s
            then alter env player lobby (λ l. record l { master = new_master })
                (ServerMessage.set_master new_master) s
            else (s, [])
      ]

  unfoldable pub set_lobby_meta :
      Env → BasicId → String → String → BlasterEventLoop F → BlasterEventLoop F × List Sent
  set_lobby_meta env initiator key value s = elim (mastered initiator s) [
    | none ↦ (s, [])
    | some (player, lobby) ↦
        if can_add lobby.metadata key
        then (let (paid, bucket, boots) =
              try_take_from_budget player lobby.metadata_budget (len key + len value) (env.now 0) in
            let charged = record lobby { metadata_budget = bucket } in
            let s' =
              put_lobby player.lid (record charged { metadata = insert key value lobby.metadata })
                s in
            if paid
            then (s', send_to_lobby env player.lid (ServerMessage.set_lobby_meta key value) s')
            else (put_lobby player.lid charged s, boots))
        else (s, [])
  ]

  unfoldable pub erase_lobby_meta :
      Env → BasicId → String → BlasterEventLoop F → BlasterEventLoop F × List Sent
  erase_lobby_meta env initiator key s = elim (mastered initiator s) [
    | none ↦ (s, [])
    | some (player, lobby) ↦
        let s' = put_lobby player.lid (record lobby { metadata = erase key lobby.metadata }) s in
        if contains_key key lobby.metadata
        then (s', send_to_lobby env player.lid (ServerMessage.erase_lobby_meta key) s')
        else (s, [])
  ]

  unfoldable pub kick_player : BasicId → BasicId → BlasterEventLoop F → List Sent
  kick_player kicker kick_id s = elim (mastered kicker s) [
    | none ↦ []
    | some (player, lobby) ↦ elim (lookup kick_id s.players) [
      | none ↦ []
      | some kickee ↦
          if kickee.lid == player.lid
          then send kickee (ServerMessage.disconnected (natural "kick" "Kicked by lobby's master"))
            ∷ []
          else []
    ]
  ]
