-- ===== src/Blaster/Caps/Frame.antt =====
-- Most operations leave the peers alone.
use nut_blast.Base.{ℕ, ◌≡◌, Bool, String, arith}
use nut_blast.Float.{Float}
use nut_blast.Protocol.Basic.{BasicId}
use nut_blast.Protocol.Payloads.{Kick}
use nut_blast.Blaster.{Env}
use nut_blast.Blaster.EventLoop.State.{BlasterEventLoop}
use nut_blast.Blaster.EventLoop.Master.{
  alter, set_capacity, set_listed, set_master, set_lobby_meta, erase_lobby_meta,
}
use nut_blast.Blaster.EventLoop.Fields.{set_player_meta, erase_player_meta}
use nut_blast.Blaster.EventLoop.Rooms.{remove_player}

module _ {F : Float} (env : Env) (pid : BasicId) (s : BlasterEventLoop F) where
  pub peers-set_capacity : (capacity : ℕ) → (set_capacity env pid capacity s).0.peers ≡ s.peers
  unfolding set_capacity alter
  peers-set_capacity capacity = ground arith

  pub peers-set_listed : (listed : Bool) → (set_listed env pid listed s).0.peers ≡ s.peers
  unfolding set_listed alter
  peers-set_listed listed = ground arith

  pub peers-set_master :
      (new_master : BasicId) → (set_master env pid new_master s).0.peers ≡ s.peers
  unfolding set_master alter
  peers-set_master new_master = ground arith

  pub peers-set_lobby_meta :
      (key value : String) → (set_lobby_meta env pid key value s).0.peers ≡ s.peers
  unfolding set_lobby_meta
  peers-set_lobby_meta key value = ground arith

  pub peers-erase_lobby_meta : (key : String) → (erase_lobby_meta env pid key s).0.peers ≡ s.peers
  unfolding erase_lobby_meta
  peers-erase_lobby_meta key = ground arith

  pub peers-set_player_meta :
      (key value : String) → (set_player_meta env pid key value s).0.peers ≡ s.peers
  unfolding set_player_meta
  peers-set_player_meta key value = ground arith

  pub peers-erase_player_meta : (key : String) → (erase_player_meta env pid key s).0.peers ≡ s.peers
  unfolding erase_player_meta
  peers-erase_player_meta key = ground arith

  pub peers-remove_player : (reason : Kick) → (remove_player env pid reason s).0.peers ≡ s.peers
  unfolding remove_player
  peers-remove_player reason = ground arith
