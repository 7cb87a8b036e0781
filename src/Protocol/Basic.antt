-- ===== src/Protocol/Basic.antt =====
-- Identifiers, server/src/protocol/basic.rs. An id is a `u64`; a text is a native
-- string, whose `len` counts bytes as Rust's does.
use text.Mathlib.TextEquality.{eq_iff}
use nut_blast.Base.{
  ℕ, ◌≡◌, ◌↔◌, Bool, true, ◌&&◌, String, arith, PartialEq, ◌==◌, nat_eq, string_eq,
}

abbrev pub BasicId : Type 0
BasicId = ℕ

-- `BasicId::NULL`
abbrev pub null : BasicId
null = 0

abbrev pub is_null : BasicId → Bool
is_null id = id == null

abbrev pub GameId : Type 0
GameId = String

pub record LobbyId : Type 0 where
  pub lid : BasicId
  pub gid : GameId

abbrev lobby_id_beq : LobbyId → LobbyId → Bool
lobby_id_beq a b = a.lid == b.lid && a.gid == b.gid

pub lobby_id_beq_iff : (a b : LobbyId) → (lobby_id_beq a b ≡ true) ↔ (a ≡ b)
lobby_id_beq_iff a b = ground (arith, eq_iff a.gid b.gid)

instance abbrev pub lobby_id_eq : PartialEq LobbyId
lobby_id_eq = record { same = lobby_id_beq; same_iff = lobby_id_beq_iff }
