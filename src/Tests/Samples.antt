-- ===== src/Tests/Samples.antt =====
-- A world, and a history in which a game is hosted and joined.
use nut_blast.Base.{ℕ, ◌+◌, true, List, [], ◌∷◌}
use nut_blast.Protocol.Basic.{LobbyId}
use nut_blast.Blaster.{BlasterOperation, Env}

-- The clock ticks a microsecond with each reading; a set is walked in its order.
abbrev pub world : ℕ → ℕ → Env
world time seed = record { now = λ i. time + i; random = λ i. seed + i; iter = λ xs. xs }

abbrev pub arena : LobbyId
arena = record { lid = 10; gid = "arena" }

-- Two addresses connect; one hosts a lobby for four and the other joins it.
abbrev pub meeting : List (Env × BlasterOperation)
meeting =
    (world 1000 0, BlasterOperation.introduce_session 7)
    ∷ (world 2000 0, BlasterOperation.introduce_session 8)
    ∷ (world 3000 10, BlasterOperation.host_lobby 7 "arena" (("map", "dunes") ∷ []) 4 true [] 70)
    ∷ (world 4000 20, BlasterOperation.join_lobby 8 arena [] 80)
    ∷ []
