-- ===== src/Blaster/Caps/Run.antt =====
-- The caps on sessions and peers hold after any history.
use nut_blast.Base.{
  subst, List, [], ◌∷◌, Option-cases, inl, inr, lookup, arith, nat_eq, AllValues-lookup,
}
use nut_blast.Float.{Float}
use nut_blast.Config.{Config}
use nut_blast.Blaster.{BlasterOperation, Env, IpAddr, Instant, session_count}
use nut_blast.Blaster.EventLoop.{recv, turn, run, answer}
use nut_blast.Blaster.EventLoop.State.{BlasterEventLoop, new, cap_ip, admit}
use nut_blast.Blaster.EventLoop.Sessions.{total_sessions}
use nut_blast.Blaster.EventLoop.Rooms.{list_lobbies, add_to_index}
use nut_blast.Blaster.Moves.Recv.{Ends}
use nut_blast.Blaster.Moves.Rooms.{host_lobby-cases, join_lobby-cases}
use nut_blast.Blaster.Caps.{
  PeerIsValid, IsCapped, update-IsCapped, introduce_session-IsCapped, close_session-IsCapped,
  prune-IsCapped,
}
use nut_blast.Blaster.Caps.Frame.{
  peers-set_capacity, peers-set_listed, peers-set_master, peers-set_lobby_meta,
  peers-erase_lobby_meta, peers-set_player_meta, peers-erase_player_meta, peers-remove_player,
}

module _ {F : Float} where
  cap_ip-IsCapped :
      (ip : IpAddr) (now : Instant) (s : BlasterEventLoop F)
      → IsCapped s.peers
      → IsCapped (cap_ip ip now s).0.peers
  unfolding cap_ip session_count
  cap_ip-IsCapped ip now s c = elim (Option-cases (lookup ip s.peers)) [
    | inl gone ↦ rw (gone, cap_ip) c
    | inr (p, there) ↦
        rw (there, cap_ip)
          (update-IsCapped ip p _ s.peers there
            (AllValues-lookup PeerIsValid ip p s.peers c.each there) (omega (arith, c.sessions)) c)
  ]

  abbrev Capped : BlasterEventLoop F → Type 0
  Capped s = IsCapped s.peers

  recv-Capped :
      (env : Env) (op : BlasterOperation) (s : BlasterEventLoop F)
      → Capped s
      → Ends Capped (recv env op s)
  unfolding recv admit add_to_index list_lobbies
  recv-Capped env (BlasterOperation.assemble_pong pid) s c = c
  recv-Capped env (BlasterOperation.set_capacity pid capacity) s c =
      rw (peers-set_capacity env pid s capacity) c
  recv-Capped env (BlasterOperation.set_listed pid listed) s c =
      rw (peers-set_listed env pid s listed) c
  recv-Capped env (BlasterOperation.set_master pid new_master) s c =
      rw (peers-set_master env pid s new_master) c
  recv-Capped env (BlasterOperation.set_player_meta pid key value) s c =
      rw (peers-set_player_meta env pid s key value) c
  recv-Capped env (BlasterOperation.erase_player_meta pid key) s c =
      rw (peers-erase_player_meta env pid s key) c
  recv-Capped env (BlasterOperation.set_lobby_meta pid key value) s c =
      rw (peers-set_lobby_meta env pid s key value) c
  recv-Capped env (BlasterOperation.erase_lobby_meta pid key) s c =
      rw (peers-erase_lobby_meta env pid s key) c
  recv-Capped env (BlasterOperation.relay from to msg) s c = c
  recv-Capped env (BlasterOperation.list_lobbies ip gid limit) s c =
      cap_ip-IsCapped ip (env.now 0) s c
  recv-Capped env (BlasterOperation.host_lobby ip gid m capacity listed pm sender) s c =
      host_lobby-cases (λ r. Ends Capped (answer r)) env ip gid m capacity listed pm sender s
        (λ r. cap_ip-IsCapped ip (env.now 0) s c)
        (λ sent allowed. cap_ip-IsCapped ip (env.now 0) s c)
  recv-Capped env (BlasterOperation.join_lobby ip lid pm sender) s c =
      join_lobby-cases (λ r. Ends Capped (answer r)) env ip lid pm sender s
        (λ r. cap_ip-IsCapped ip (env.now 0) s c)
        (λ l sent there room. cap_ip-IsCapped ip (env.now 0) s c)
  recv-Capped env (BlasterOperation.kick_player kicker kickee) s c = c
  recv-Capped env (BlasterOperation.remove_player pid reason) s c =
      rw (peers-remove_player env pid s reason) c
  recv-Capped env (BlasterOperation.introduce_session ip) s c =
      introduce_session-IsCapped ip (env.now 0) s c
  recv-Capped env BlasterOperation.prune s c = prune-IsCapped env s c
  recv-Capped env (BlasterOperation.close_session ip) s c =
      close_session-IsCapped ip (env.now 0) s c

  pub run-IsCapped :
      (config : Config) (ops : List (Env × BlasterOperation)) (s : BlasterEventLoop F)
      → IsCapped s.peers
      → IsCapped (run config ops s).peers
  unfolding run turn
  run-IsCapped config [] s c = c
  run-IsCapped config ((env, op) ∷ ops) s c = elim (Option-cases (recv env op s)) [
    | inl panicked ↦ absurd (subst (Ends Capped) panicked (recv-Capped env op s c))
    | inr (o, e) ↦
        run-IsCapped config ops (turn config env op s)
          (rw (e, turn) (subst (Ends Capped) e (recv-Capped env op s c)))
  ]

  -- After any operations in any order, from the loop's start, every peer that is counted has one to
  -- four sessions, and there are at most 1024 sessions and 512 peers.
  pub run-new-IsCapped :
      (config : Config) (ops : List (Env × BlasterOperation))
      → IsCapped (run {F = F} config ops (new config)).peers
  unfolding total_sessions new
  run-new-IsCapped config ops =
      run-IsCapped config ops (new config)
        (record { each = tt; sessions = omega arith; count = omega arith })
