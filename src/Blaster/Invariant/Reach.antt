-- ===== src/Blaster/Invariant/Reach.antt =====
-- Every move keeps a state well-formed.
use nut_blast.Base.{
  ℕ, ◌≡◌, refl, sym, ◌∙◌, ap, subst, true, some, lookup, contains, some_inj, none≢some, nat_eq,
  string_eq,
}
use nut_blast.Float.{Float}
use nut_blast.Protocol.Basic.{BasicId, LobbyId, lobby_id_eq}
use nut_blast.Blaster.{Lobby, Player, Env}
use nut_blast.Config.{Config}
use nut_blast.Blaster.EventLoop.State.{BlasterEventLoop, new}
use nut_blast.Blaster.EventLoop.Rooms.{indexed}
use nut_blast.Blaster.Moves.{
  Move, Moves, peers_written, lobby_written, crowned, player_written, entered, opened, left, closed,
  forgotten, done, more,
}
use nut_blast.Blaster.Invariant.{IsValid, IsWalk}
use nut_blast.Blaster.Invariant.Writes.{
  peers_written-IsValid, lobby_written-IsValid, player_written-IsValid,
}
use nut_blast.Blaster.Invariant.Arrivals.{entered-IsValid, opened-IsValid}
use nut_blast.Blaster.Invariant.Departures.{left-IsValid, closed-IsValid}

module _ {F : Float} where
  pub new-IsValid : (config : Config) → IsValid (new {F = F} config)
  unfolding new indexed lookup contains
  new-IsValid config = record {
    rooms = λ lid l h. absurd (none≢some h);
    home = λ pid p h. absurd (none≢some h);
    guest = λ lid l pid h inside. absurd (none≢some h);
    no_null = refl;
    index = λ gid lid. refl;
    unique = λ gid. tt;
    no_empty = λ gid h. none≢some h;
  }

  -- A player of the lobby is in the lobby.
  pub member_inside :
      (lid : LobbyId) (l : Lobby F) (pid : BasicId) (p : Player F) (s : BlasterEventLoop F)
      → IsValid s
      → lookup lid s.lobbies ≡ some l
      → lookup pid s.players ≡ some p
      → p.lid ≡ lid
      → contains pid l.players ≡ true
  member_inside lid l pid p s v found there at =
      let (m, found', inside) = v.home pid p there in
      subst (λ (r : Lobby F). contains pid r.players ≡ true)
        (some_inj (sym found' ∙ ap (λ k. lookup k s.lobbies) at ∙ found)) inside

  Move-IsValid :
      {env : Env} {top : ℕ} {s t : BlasterEventLoop F}
      → IsWalk env
      → Move env top s t
      → IsValid s
      → IsValid t
  Move-IsValid walk (peers_written peers e) v = rw e (peers_written-IsValid peers _ v)
  Move-IsValid walk (lobby_written lid l l' found same master e) v = rw e (
      lobby_written-IsValid lid l l' _ found same.players same.idle_since
        (rw master (v.rooms lid l found).master) v)
  Move-IsValid walk (crowned lid l l' p found same there at e) v = rw e (
      lobby_written-IsValid lid l l' _ found same.players same.idle_since
        (member_inside lid l l'.master p _ v found there at) v)
  Move-IsValid walk (player_written pid p p' found same small e) v =
      rw e (player_written-IsValid pid p p' _ found same v)
  Move-IsValid walk (entered pid player lid l found room n e) v =
      rw e (entered-IsValid pid player lid l _ found n v)
  Move-IsValid walk (opened pid player lid l missing r allowed n e) v =
      rw e (opened-IsValid pid player lid l _ missing r n v)
  Move-IsValid {env} walk (left pid p l found there named e) v =
      rw e (left-IsValid env walk pid p l _ found there named v)
  Move-IsValid {env} walk (closed pid p l found there nulled e) v =
      rw e (closed-IsValid env walk pid p l _ found there nulled v)
  Move-IsValid walk (forgotten pid p found gone e) v =
      let (_, there, _) = v.home pid p found in absurd (none≢some (sym gone ∙ there))

  pub Moves-IsValid :
      {env : Env} {top : ℕ} {s t : BlasterEventLoop F}
      → IsWalk env
      → Moves env top s t
      → IsValid s
      → IsValid t
  Moves-IsValid walk done v = v
  Moves-IsValid walk (more ms m) v = Move-IsValid walk m (Moves-IsValid walk ms v)
