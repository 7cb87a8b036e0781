-- ===== src/Tests/Histories.antt =====
-- What the sample history shows and counts.
use nut_blast.Base.{◌≡◌, ◌⊎◌, refl, List, ok, err}
use nut_blast.Float.Exact.{exact}
use nut_blast.Config.{empty}
use nut_blast.Protocol.Payloads.{LobbyListing, natural}
use nut_blast.Blaster.EventLoop.{run}
use nut_blast.Blaster.EventLoop.State.{new, sessions_per_ip_error}
use nut_blast.Blaster.EventLoop.Rooms.{list_lobbies, remove_player}
use nut_blast.Blaster.Listing.{IsListing, list_lobbies-IsListing}
use nut_blast.Blaster.Metering.{IsMetered, IsHeldBack, IsLetIn}
use nut_blast.Blaster.Leaving.{IsRemoved, remove_player-IsRemoved}
use nut_blast.Blaster.Counts.{live, count}
use nut_blast.Blaster.Counts.Run.{replies, run-new-count}
use nut_blast.Tests.Samples.{world, meeting}
use nut_blast.Tests.Rights.{met, met-IsValid, guest, guest_there, hall, hall_there}

list_lobbies-IsListing_example :
    let (t, r) = list_lobbies (world 5000 30) 7 "arena" 0 met in
    IsMetered 7 5000 met t
    × ((IsHeldBack 7 5000 met × (r ≡ err sessions_per_ip_error))
        ⊎ (IsLetIn 7 5000 met
            × (xs : List LobbyListing) × (r ≡ ok xs)
            × IsListing met "arena" 0 xs))
list_lobbies-IsListing_example =
    list_lobbies-IsListing (world 5000 30) 7 "arena" 0 met (record { meets = λ x xs. refl })
      met-IsValid

remove_player-IsRemoved_example :
    IsRemoved 5000 20 guest hall
      (natural "leave" "Bye")
      met
      (remove_player (world 5000 30) 20 (natural "leave" "Bye") met)
remove_player-IsRemoved_example =
    remove_player-IsRemoved (world 5000 30) (record { meets = λ x xs. refl }) 20 guest hall met
      met-IsValid guest_there hall_there (natural "leave" "Bye")

run-new-count_example :
    live 7 (run {F = exact} empty meeting (new empty)).peers
    ≡ count (replies {F = exact} empty meeting (new empty)) 7 0
run-new-count_example = run-new-count exact empty meeting 7
