-- ===== src/Config.antt =====
-- The configuration file's types, server/src/blaster/mod.rs.
use nut_blast.Base.{Bool, List, [], Option, none, String}

pub record Credentials : Type 0 where
  pub username : String
  pub credential : String

pub data IceServerKind : Type 0 where
  stun turn_udp turn_tcp turn_tls : IceServerKind

pub record IceServer : Type 0 where
  pub hostname : String
  pub kind : IceServerKind
  pub creds : Option Credentials

pub record Config : Type 0 where
  pub ice_servers : List IceServer
  pub trust_reverse_proxy_xff : Option Bool

-- `Config::empty`
abbrev pub empty : Config
empty = record { ice_servers = []; trust_reverse_proxy_xff = none }
