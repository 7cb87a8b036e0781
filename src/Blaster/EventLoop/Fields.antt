-- ===== src/Blaster/EventLoop/Fields.antt =====
-- What a player does for itself, server/src/blaster/eventloop.rs: `SetPlayerMeta`,
-- `ErasePlayerMeta`, `Relay`, `AssemblePong`.
use nut_blast.Base.{
  ◌+◌, none, some, List, [], ◌∷◌, String, len, ok, err, ◌==◌, nat_eq, string_eq, lookup, insert,
  erase, contains_key, if◌then◌else◌,
}
use nut_blast.Float.{Float}
use nut_blast.Protocol.Basic.{BasicId, lobby_id_eq}
use nut_blast.Protocol.Metadata.{can_add}
use nut_blast.Protocol.Payloads.{ServerMessage}
use nut_blast.Tokens
use nut_blast.Blaster.{Sent, Env, send, boot}
use nut_blast.Blaster.EventLoop.State.{BlasterEventLoop, put_player, send_to_lobby}

module _ {F : Float} where
  unfoldable pub set_player_meta :
      Env → BasicId → String → String → BlasterEventLoop F → BlasterEventLoop F × List Sent
  set_player_meta env pid key value s = elim (lookup pid s.players) [
    | none ↦ (s, [])
    | some player ↦
        if can_add player.metadata key
        then (let (bucket, taken) =
              Tokens.try_take (len key + len value) (env.now 0) player.metadata_budget in
            let charged = record player { metadata_budget = bucket } in
            elim taken [
              | err reason ↦ (put_player pid charged s, boot charged reason ∷ [])
              | ok _ ↦
                  let s' =
                    put_player pid (record charged { metadata = insert key value player.metadata })
                      s in
                  (
                    s',
                    send_to_lobby env player.lid (ServerMessage.set_player_meta pid key value) s',
                  )
            ])
        else (s, [])
  ]

  unfoldable pub erase_player_meta :
      Env → BasicId → String → BlasterEventLoop F → BlasterEventLoop F × List Sent
  erase_player_meta env pid key s = elim (lookup pid s.players) [
    | none ↦ (s, [])
    | some player ↦
        let s' = put_player pid (record player { metadata = erase key player.metadata }) s in
        if contains_key key player.metadata
        then (s', send_to_lobby env player.lid (ServerMessage.erase_player_meta pid key) s')
        else (s, [])
  ]

  unfoldable pub relay : BasicId → BasicId → ServerMessage → BlasterEventLoop F → List Sent
  relay from to msg s = elim (lookup from s.players) [
    | none ↦ []
    | some p_from ↦ elim (lookup to s.players) [
      | none ↦ []
      | some p_to ↦ if p_from.lid == p_to.lid then send p_to msg ∷ [] else []
    ]
  ]

  unfoldable pub assemble_pong : Env → BasicId → BlasterEventLoop F → ServerMessage
  assemble_pong env pid s = elim (lookup pid s.players) [
    | none ↦ ServerMessage.pong []
    | some player ↦ elim (lookup player.lid s.lobbies) [
      | none ↦ ServerMessage.pong []
      | some lobby ↦ ServerMessage.pong (env.iter lobby.players)
    ]
  ]
