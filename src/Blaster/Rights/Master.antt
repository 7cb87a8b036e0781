-- ===== src/Blaster/Rights/Master.antt =====
-- Only its master alters a lobby.
use nut_blast.Base.{
  ℕ, ◌≡◌, ◌≢◌, Bool, String, none, some, [], arith, lookup, nat_eq, Option-cases, inl, inr,
}
use nut_blast.Float.{Float}
use nut_blast.Protocol.Basic.{BasicId, lobby_id_eq}
use nut_blast.Blaster.{BlasterOperation, Reply, Env, Player, Lobby}
use nut_blast.Blaster.EventLoop.{recv}
use nut_blast.Blaster.EventLoop.State.{BlasterEventLoop, mastered}
use nut_blast.Blaster.Moves.Single.{mastered_inv}
use nut_blast.Blaster.EventLoop.Master.{
  set_capacity, set_listed, set_master, set_lobby_meta, erase_lobby_meta, kick_player,
}

-- The operations of a lobby's master, asked for by `pid`.
pub data ByMaster (pid : BasicId) : BlasterOperation → Type 0 where
  capacity : (n : ℕ) → ByMaster pid (BlasterOperation.set_capacity pid n)
  listed : (b : Bool) → ByMaster pid (BlasterOperation.set_listed pid b)
  master : (new_master : BasicId) → ByMaster pid (BlasterOperation.set_master pid new_master)
  lobby_meta : (key value : String) → ByMaster pid (BlasterOperation.set_lobby_meta pid key value)
  no_lobby_meta : (key : String) → ByMaster pid (BlasterOperation.erase_lobby_meta pid key)
  kick : (kickee : BasicId) → ByMaster pid (BlasterOperation.kick_player pid kickee)

module _ {F : Float} where
  not-mastered :
      (pid : BasicId) (s : BlasterEventLoop F)
      → ((p : Player F) (l : Lobby F)
          → lookup pid s.players ≡ some p
          → lookup p.lid s.lobbies ≡ some l
          → l.master ≢ pid)
      → mastered pid s ≡ none
  unfolding mastered
  not-mastered pid s h = elim (Option-cases (mastered pid s)) [
    | inl refused ↦ refused
    | inr ((p, l), e) ↦
        let (there, found, own) = mastered_inv pid s p l e in absurd (h p l there found own)
  ]

  -- An operation of a master that comes from anyone else, be it a player of the lobby or no player
  -- at all, changes nothing and sends nothing.
  pub recv-not_master :
      (env : Env) (pid : BasicId) (op : BlasterOperation) (s : BlasterEventLoop F)
      → ByMaster pid op
      → ((p : Player F) (l : Lobby F)
          → lookup pid s.players ≡ some p
          → lookup p.lid s.lobbies ≡ some l
          → l.master ≢ pid)
      → recv env op s ≡ some (record { state = s; sent = []; reply = Reply.nothing })
  unfolding recv set_capacity set_listed set_master set_lobby_meta erase_lobby_meta kick_player
  recv-not_master env pid _ s (capacity n) h = ground (arith, not-mastered pid s h)
  recv-not_master env pid _ s (listed b) h = ground (arith, not-mastered pid s h)
  recv-not_master env pid _ s (master new_master) h = ground (arith, not-mastered pid s h)
  recv-not_master env pid _ s (lobby_meta key value) h = ground (arith, not-mastered pid s h)
  recv-not_master env pid _ s (no_lobby_meta key) h = ground (arith, not-mastered pid s h)
  recv-not_master env pid _ s (kick kickee) h = ground (arith, not-mastered pid s h)
