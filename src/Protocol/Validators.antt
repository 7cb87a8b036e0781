-- ===== src/Protocol/Validators.antt =====
-- The validators of server/src/protocol/basic.rs that serde calls on the fields of a client's
-- message. A validator is given what `String::deserialize` or the like has read; its error is the
-- text of the serde error. The entries of a JSON object come in their order.
use Prim.Native.Char.{code}
use nut_blast.Base.{
  ℕ, ◌==◌, Bool, not, ◌&&◌, ◌||◌, String, len, List, [], ◌∷◌, Result, ok, err, any, nat_eq, ltb,
  leb, if◌then◌else◌, length, insert, string_eq,
}
use nut_blast.Protocol.Metadata.{Metadata, max_fields}
use nut_blast.Protocol.Payloads.{ClientMessage}

abbrev pub field_name_max : ℕ
field_name_max = 255

abbrev pub field_value_max : ℕ
field_value_max = 1023

abbrev pub max_players : ℕ
max_players = 16

abbrev pub gid_max_len : ℕ
gid_max_len = 63

abbrev pub Checked : Type 0 → Type 0
Checked A = Result String A

infixl 5 ◌>>=◌
abbrev pub ◌>>=◌ : {A B : Type 0} → Checked A → (A → Checked B) → Checked B
ok a >>= f = f a
err e >>= f = err e

-- `String::chars`, as code points.
abbrev pub chars : String → List ℕ
chars String.[] = []
chars (String.◌∷◌ c s) = code c ∷ chars s

-- `char::is_ascii_alphanumeric`
abbrev pub is_ascii_alphanumeric : ℕ → Bool
is_ascii_alphanumeric c =
    leb b'0' c && leb c b'9' || (leb b'A' c && leb c b'Z' || leb b'a' c && leb c b'z')

-- `char::is_control`: the general category Cc.
abbrev pub is_control : ℕ → Bool
is_control c = leb c 31 || leb 127 c && leb c 159

-- The closure `bad`.
abbrev pub bad : ℕ → Bool
bad c = not (is_ascii_alphanumeric c) && not (c == b'-' || (c == b'_' || (c == b'.' || c == b' ')))

unfoldable pub validate_gid : String → Checked String
validate_gid gid =
    if len gid == 0 || ltb gid_max_len (len gid)
    then err "game ID must be nonempty, up to 63 bytes"
    else if any bad (chars gid)
    then err "game ID must be alphanumeric"
    else ok gid

unfoldable pub deserialize_field_name : String → Checked String
deserialize_field_name s =
    if len s == 0
    then err "field name cannot be empty"
    else if ltb field_name_max (len s)
    then err "field name exceeds 255 bytes"
    else if any is_control (chars s)
    then err "field name cannot contain control characters"
    else ok s

unfoldable pub deserialize_field_value : String → Checked String
deserialize_field_value s =
    if ltb field_value_max (len s) then err "field value exceeds max length of 1023 bytes" else ok s

-- `HashMap::<FieldKey, FieldValue>::deserialize`: a later entry of a key replaces an earlier one.
unfoldable pub collect : Metadata → List (String × String) → Checked Metadata
collect meta [] = ok meta
collect meta ((k, v) ∷ entries) = deserialize_field_name k >>= λ key.
    deserialize_field_value v >>= λ value. collect (insert key value meta) entries

unfoldable pub deserialize_metadata : List (String × String) → Checked Metadata
deserialize_metadata entries = collect [] entries >>= λ meta.
    if ltb max_fields (length meta)
    then err "too many metadata fields (max 16 allowed)"
    else ok meta

unfoldable pub validate_candidate : String → Checked String
validate_candidate candidate =
    if ltb 512 (len candidate) then err "up to 512 bytes pl0x" else ok candidate

unfoldable pub validate_sdp : String → Checked String
validate_sdp sdp = if ltb 4096 (len sdp) then err "up to 4096 bytes pl0x" else ok sdp

unfoldable pub validate_capacity : ℕ → Checked ℕ
validate_capacity capacity =
    if ltb capacity 2 || leb max_players capacity then err "invalid lobby capacity" else ok capacity

-- The validators of a message's fields, as the attributes of `ClientMessage` and of the types of its
-- fields put them; the message that comes in holds what was read.
unfoldable pub validate : ClientMessage → Checked ClientMessage
validate ClientMessage.ping = ok ClientMessage.ping
validate (ClientMessage.list gid limit) =
    validate_gid gid >>= λ gid'. ok (ClientMessage.list gid' limit)
validate (ClientMessage.host gid capacity listed player lobby) = validate_gid gid >>= λ gid'.
    validate_capacity capacity >>= λ capacity'. deserialize_metadata player >>= λ player'.
    deserialize_metadata lobby >>= λ lobby'.
    ok (ClientMessage.host gid' capacity' listed player' lobby')
validate (ClientMessage.join lid player) = validate_gid lid.gid >>= λ gid'.
    deserialize_metadata player >>= λ player'.
    ok (ClientMessage.join (record lid { gid = gid' }) player')
validate (ClientMessage.leave code msg) = ok (ClientMessage.leave code msg)
validate (ClientMessage.set_listed listed) = ok (ClientMessage.set_listed listed)
validate (ClientMessage.set_capacity capacity) =
    validate_capacity capacity >>= λ capacity'. ok (ClientMessage.set_capacity capacity')
validate (ClientMessage.set_player_metadata key value) = deserialize_field_name key >>= λ key'.
    deserialize_field_value value >>= λ value'. ok (ClientMessage.set_player_metadata key' value')
validate (ClientMessage.erase_player_metadata key) =
    deserialize_field_name key >>= λ key'. ok (ClientMessage.erase_player_metadata key')
validate (ClientMessage.set_lobby_metadata key value) = deserialize_field_name key >>= λ key'.
    deserialize_field_value value >>= λ value'. ok (ClientMessage.set_lobby_metadata key' value')
validate (ClientMessage.erase_lobby_metadata key) =
    deserialize_field_name key >>= λ key'. ok (ClientMessage.erase_lobby_metadata key')
validate (ClientMessage.pass_candidate to candidate mid) =
    validate_candidate candidate >>= λ candidate'.
    validate_candidate mid >>= λ mid'. ok (ClientMessage.pass_candidate to candidate' mid')
validate (ClientMessage.pass_offer to sdp) =
    validate_sdp sdp >>= λ sdp'. ok (ClientMessage.pass_offer to sdp')
validate (ClientMessage.pass_answer to sdp) =
    validate_sdp sdp >>= λ sdp'. ok (ClientMessage.pass_answer to sdp')
validate (ClientMessage.kick pid) = ok (ClientMessage.kick pid)
validate (ClientMessage.set_master pid) = ok (ClientMessage.set_master pid)
