-- ===== src/Protocol/Sound.antt =====
-- What a message may hold, and that the validators of server/src/protocol/basic.rs let in exactly that.
pub mod Merged
pub mod Message
use mathlib.Core.List.{Memᴰ}
use nut_blast.Base.{
  ℕ, ◌≤◌, ◌≡◌, ◌⊎◌, refl, sym, ◌∙◌, ap, subst, Bool, true, false, String, len, List, [], ◌∷◌, ◌++◌,
  Result, ok, err, any, length, ltb, leb, arith, Dict, lookup, insert, insert-append, IsKeyed,
  IsKeyed-insert, string_eq, nat_eq, Bool-cases, Result-cases, inl, inr, if◌then◌else◌, ◌&&◌, ◌||◌,
  not, ◌==◌, none, append_assoc, append-nil,
}
use nut_blast.Protocol.Basic.{LobbyId}
use nut_blast.Protocol.Metadata.{Metadata}
use nut_blast.Protocol.Payloads.{ClientMessage}
use nut_blast.Protocol.Validators.{
  chars, bad, is_control, Checked, ◌>>=◌, validate, validate_gid, deserialize_field_name,
  deserialize_field_value, collect, deserialize_metadata, validate_candidate, validate_sdp,
  validate_capacity,
}

-- The characters of a game id: letters, digits, `-`, `_`, `.` and space.
abbrev pub IsGameChar : ℕ → Type 0
IsGameChar c =
    ((b'0' ≤ c) × (c ≤ b'9'))
    ⊎ (((b'A' ≤ c) × (c ≤ b'Z'))
        ⊎ (((b'a' ≤ c) × (c ≤ b'z')) ⊎ ((c ≡ b'-') ⊎ ((c ≡ b'_') ⊎ ((c ≡ b'.') ⊎ (c ≡ b' '))))))

-- A character that is no control character.
abbrev pub IsPlain : ℕ → Type 0
IsPlain c = ((32 ≤ c) × (c ≤ 126)) ⊎ (160 ≤ c)

abbrev pub EachChar : (ℕ → Type 0) → List ℕ → Type 0
EachChar P [] = Unit
EachChar P (c ∷ cs) = EachChar P cs × P c

abbrev pub IsGid : String → Type 0
IsGid s = (1 ≤ len s) × (len s ≤ 63) × EachChar IsGameChar (chars s)

abbrev pub IsFieldName : String → Type 0
IsFieldName s = (1 ≤ len s) × (len s ≤ 255) × EachChar IsPlain (chars s)

abbrev pub IsFieldValue : String → Type 0
IsFieldValue s = len s ≤ 1023

abbrev pub EachField : Metadata → Type 0
EachField [] = Unit
EachField ((k, v) ∷ m) = EachField m × IsFieldName k × IsFieldValue v

-- At most 16 fields with different names.
abbrev pub IsMeta : Metadata → Type 0
IsMeta m = (length m ≤ 16) × IsKeyed m × EachField m

abbrev pub IsMessage : ClientMessage → Type 0
IsMessage ClientMessage.ping = Unit
IsMessage (ClientMessage.list gid limit) = IsGid gid
IsMessage (ClientMessage.host gid capacity listed player lobby) =
    IsGid gid × (2 ≤ capacity) × (capacity ≤ 15) × IsMeta player × IsMeta lobby
IsMessage (ClientMessage.join lid player) = IsGid lid.gid × IsMeta player
IsMessage (ClientMessage.leave code msg) = Unit
IsMessage (ClientMessage.set_listed listed) = Unit
IsMessage (ClientMessage.set_capacity capacity) = (2 ≤ capacity) × (capacity ≤ 15)
IsMessage (ClientMessage.set_player_metadata key value) = IsFieldName key × IsFieldValue value
IsMessage (ClientMessage.erase_player_metadata key) = IsFieldName key
IsMessage (ClientMessage.set_lobby_metadata key value) = IsFieldName key × IsFieldValue value
IsMessage (ClientMessage.erase_lobby_metadata key) = IsFieldName key
IsMessage (ClientMessage.pass_candidate to candidate mid) = (len candidate ≤ 512) × (len mid ≤ 512)
IsMessage (ClientMessage.pass_offer to sdp) = len sdp ≤ 4096
IsMessage (ClientMessage.pass_answer to sdp) = len sdp ≤ 4096
IsMessage (ClientMessage.kick pid) = Unit
IsMessage (ClientMessage.set_master pid) = Unit

IsGameChar-of_bad : (c : ℕ) → bad c ≡ false → IsGameChar c
IsGameChar-of_bad c h = ground arith

bad_of_IsGameChar : (c : ℕ) → IsGameChar c → bad c ≡ false
bad_of_IsGameChar c h = ground arith

IsPlain-of_control : (c : ℕ) → is_control c ≡ false → IsPlain c
IsPlain-of_control c h = ground arith

control_of_IsPlain : (c : ℕ) → IsPlain c → is_control c ≡ false
control_of_IsPlain c h = ground arith

module _ (P : ℕ → Type 0) (test : ℕ → Bool) where
  EachChar-of_any :
      ((c : ℕ) → test c ≡ false → P c) → (cs : List ℕ) → any test cs ≡ false → EachChar P cs
  EachChar-of_any f [] h = tt
  EachChar-of_any f (c ∷ cs) h = (EachChar-of_any f cs (ground arith), f c (ground arith))

  any_of_EachChar :
      ((c : ℕ) → P c → test c ≡ false) → (cs : List ℕ) → EachChar P cs → any test cs ≡ false
  any_of_EachChar f [] h = refl
  any_of_EachChar f (c ∷ cs) h = ground (arith, f c h.1, any_of_EachChar f cs h.0)

-- A validator lets in just the values of the predicate, as they are.
abbrev pub Checks : {A : Type 0} → (A → Type 0) → (A → Checked A) → Type 0
Checks {A} P check =
    ((a b : A) → check a ≡ ok b → (P a) × (a ≡ b)) × ((a : A) → P a → check a ≡ ok a)

pub validate_gid_lem : Checks IsGid validate_gid
unfolding validate_gid
validate_gid_lem = (
  (λ a b h. (
    (
      ground arith,
      ground arith,
      EachChar-of_any IsGameChar bad IsGameChar-of_bad (chars a) (ground arith),
    ),
    ground arith,
  )),
  (λ a h. ground (arith, any_of_EachChar IsGameChar bad bad_of_IsGameChar (chars a) h.2)),
)

pub deserialize_field_name_lem : Checks IsFieldName deserialize_field_name
unfolding deserialize_field_name
deserialize_field_name_lem = (
  (λ a b h. (
    (
      ground arith,
      ground arith,
      EachChar-of_any IsPlain is_control IsPlain-of_control (chars a) (ground arith),
    ),
    ground arith,
  )),
  (λ a h. ground (arith, any_of_EachChar IsPlain is_control control_of_IsPlain (chars a) h.2)),
)

pub deserialize_field_value_lem : Checks IsFieldValue deserialize_field_value
unfolding deserialize_field_value
deserialize_field_value_lem = ((λ a b h. (ground arith, ground arith)), (λ a h. ground arith))

pub validate_candidate_lem : Checks (λ s. len s ≤ 512) validate_candidate
unfolding validate_candidate
validate_candidate_lem = ((λ a b h. (ground arith, ground arith)), (λ a h. ground arith))

pub validate_sdp_lem : Checks (λ s. len s ≤ 4096) validate_sdp
unfolding validate_sdp
validate_sdp_lem = ((λ a b h. (ground arith, ground arith)), (λ a h. ground arith))

pub validate_capacity_lem : Checks (λ n. (2 ≤ n) × (n ≤ 15)) validate_capacity
unfolding validate_capacity
validate_capacity_lem =
    ((λ a b h. ((ground arith, ground arith), ground arith)), (λ a h. ground arith))

insert-EachField :
    (k v : String) (m : Metadata)
    → IsFieldName k
    → IsFieldValue v
    → EachField m
    → EachField (insert k v m)
unfolding insert
insert-EachField k v [] hk hv h = (tt, hk, hv)
insert-EachField k v ((j, w) ∷ m) hk hv h = elim (Bool-cases (j == k)) [
  | inl old ↦ rw old (h.0, hk, hv)
  | inr new ↦ rw new (insert-EachField k v m hk hv h.0, h.1, h.2)
]

collect-EachField :
    (meta m : Metadata) (entries : List (String × String))
    → collect meta entries ≡ ok m
    → EachField meta
    → IsKeyed meta
    → EachField m × IsKeyed m
unfolding collect
collect-EachField meta m [] h each keyed =
    (subst EachField (ground arith) each, subst IsKeyed (ground arith) keyed)
collect-EachField meta m ((k, v) ∷ entries) h each keyed =
    elim (Result-cases (deserialize_field_name k)) [
      | inr (e, bad) ↦ absurd (ground (arith, bad))
      | inl (key, good) ↦ elim (Result-cases (deserialize_field_value v)) [
        | inr (e, bad) ↦ absurd (ground (arith, good, bad))
        | inl (value, fine) ↦
            let hk = deserialize_field_name_lem.0 k key good in
            let hv = deserialize_field_value_lem.0 v value fine in
            collect-EachField (insert key value meta) m entries (rw fine at (rw good at h))
              (insert-EachField key value meta (subst IsFieldName hk.1 hk.0)
                (subst IsFieldValue hv.1 hv.0) each)
              (IsKeyed-insert key value meta keyed)
      ]
    ]

-- Of two parts of a keyed dictionary, the second has no key of the first.
lookup-append-none :
    (k j : String) (w : String) (acc m : Metadata)
    → lookup j (acc ++ (k, w) ∷ m) ≡ none
    → (j == k) ≡ false
unfolding lookup
lookup-append-none k j w [] m h = ground (arith, string_eq.same_iff j k, string_eq.same_iff k j)
lookup-append-none k j w ((i, x) ∷ acc) m h = ground (arith, lookup-append-none k j w acc m)

fresh_key : (k v : String) (acc m : Metadata) → IsKeyed (acc ++ (k, v) ∷ m) → lookup k acc ≡ none
unfolding lookup
fresh_key k v [] m h = refl
fresh_key k v ((j, w) ∷ acc) m h =
    ground (arith, lookup-append-none k j v acc m h.0, fresh_key k v acc m h.1)

collect_all : (acc m : Metadata) → IsKeyed (acc ++ m) → EachField m → collect acc m ≡ ok (acc ++ m)
unfolding collect
collect_all acc [] keyed each = ap ok (sym (append-nil acc))
collect_all acc ((k, v) ∷ m) keyed each =
    let regroup : (acc ++ (k, v) ∷ []) ++ m ≡ acc ++ (k, v) ∷ m =
      append_assoc acc ((k, v) ∷ []) m in
    rw (deserialize_field_name_lem.1 k each.1) (
      rw (deserialize_field_value_lem.1 v each.2) (
        rw (insert-append k v acc (fresh_key k v acc m keyed)) (
          collect_all (acc ++ (k, v) ∷ []) m (subst IsKeyed (sym regroup) keyed) each.0
          ∙ ap ok regroup)))

pub deserialize_metadata-IsMeta :
    (entries m : Metadata) → deserialize_metadata entries ≡ ok m → IsMeta m
unfolding deserialize_metadata
deserialize_metadata-IsMeta entries m h = elim (Result-cases (collect [] entries)) [
  | inr (e, bad) ↦ absurd (ground (arith, bad))
  | inl (meta, good) ↦ elim (Bool-cases (ltb 16 (length meta))) [
    | inl many ↦ absurd (ground (arith, good, many))
    | inr few ↦
        let same : meta ≡ m = ground (arith, good, few) in
        let (each, keyed) = collect-EachField [] meta entries good tt tt in
        subst IsMeta same (ground arith, keyed, each)
  ]
]

pub deserialize_metadata_all : (m : Metadata) → IsMeta m → deserialize_metadata m ≡ ok m
unfolding deserialize_metadata
deserialize_metadata_all m (few, keyed, each) = rw (collect_all [] m keyed each) (ground arith)
