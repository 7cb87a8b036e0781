-- ===== src/Protocol/Metadata.antt =====
-- `Metadata` of server/src/protocol/basic.rs: a small map from field names to values.
use nut_blast.Base.{
  ℕ, ◌+◌, Bool, ◌||◌, String, len, Dict, contains_key, string_eq, length, ltb, filter,
}

abbrev pub Metadata : Type 0
Metadata = Dict String String

-- `Metadata::MAX_FIELDS`
abbrev pub max_fields : ℕ
max_fields = 16

abbrev pub max_entry_size : ℕ
max_entry_size = 128

unfoldable pub can_add : Metadata → String → Bool
can_add m key = contains_key key m || ltb (length m) max_fields

unfoldable pub truncated : Metadata → Metadata
truncated = filter (λ e. ltb (len e.0 + len e.1) max_entry_size)
