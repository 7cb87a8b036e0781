-- ===== src/Protocol/Sound/Merged.antt =====
-- What becomes of metadata that name a field twice, server/src/protocol/basic.rs.
use nut_blast.Base.{
  ◌≡◌, refl, sym, ◌∙◌, ap, subst, String, List, [], ◌∷◌, ok, arith, lookup, insert, lookup-insert,
  string_eq, ◌==◌, Option, none, some, Bool-cases, Option-cases, Result-cases, inl, inr,
  if◌then◌else◌,
}
use nut_blast.Protocol.Metadata.{Metadata}
use nut_blast.Protocol.Payloads.{ClientMessage}
use nut_blast.Protocol.Validators.{
  collect, deserialize_metadata, deserialize_field_name, deserialize_field_value,
}
use nut_blast.Protocol.Sound.{EachField, deserialize_field_name_lem, deserialize_field_value_lem}

-- What the last entry of a name says.
unfoldable pub last_entry : String → List (String × String) → Option String
last_entry k [] = none
last_entry k ((j, v) ∷ entries) = elim (last_entry k entries) [
  | some w ↦ some w
  | none ↦ if j == k then some v else none
]

-- The metadata have what the last entry of each name says, and every entry is sound.
pub record IsMerged (entries : List (String × String)) (m : Metadata) : Type 0 where
  pub last : (k : String) → lookup k m ≡ last_entry k entries
  pub sound : EachField entries

or_older : Option String → Option String → Option String
or_older none older = older
or_older (some w) older = some w

or_older-none : (newer : Option String) → or_older newer none ≡ newer
unfolding or_older
or_older-none none = refl
or_older-none (some w) = refl

collect-lookup :
    (meta m : Metadata) (entries : List (String × String)) (k : String)
    → collect meta entries ≡ ok m
    → lookup k m ≡ or_older (last_entry k entries) (lookup k meta)
unfolding collect last_entry or_older
collect-lookup meta m [] k h = ap (λ (r : Metadata). lookup k r) (ground (arith, h))
collect-lookup meta m ((j, v) ∷ entries) k h = elim (Result-cases (deserialize_field_name j)) [
  | inr (e, bad) ↦ absurd (ground (arith, bad))
  | inl (key, good) ↦ elim (Result-cases (deserialize_field_value v)) [
    | inr (e, bad) ↦ absurd (ground (arith, good, bad))
    | inl (value, fine) ↦
        let rest = collect-lookup (insert key value meta) m entries k (rw fine at (rw good at h)) in
        let same : key ≡ j = sym (deserialize_field_name_lem.0 j key good).1 in
        let same' : value ≡ v = sym (deserialize_field_value_lem.0 v value fine).1 in
        rest
        ∙ (rw (lookup-insert key k value meta, same, same')
            (elim (Option-cases (last_entry k entries)) [
              | inl no_more ↦ rw no_more (elim (Bool-cases (j == k)) [
                | inl here ↦ rw here refl
                | inr apart ↦ rw apart refl
              ])
              | inr (w, later) ↦ rw later refl
            ]))
  ]
]

collect_sound :
    (meta m : Metadata) (entries : List (String × String))
    → collect meta entries ≡ ok m
    → EachField entries
unfolding collect
collect_sound meta m [] h = tt
collect_sound meta m ((k, v) ∷ entries) h = elim (Result-cases (deserialize_field_name k)) [
  | inr (e, bad) ↦ absurd (ground (arith, bad))
  | inl (key, good) ↦ elim (Result-cases (deserialize_field_value v)) [
    | inr (e, bad) ↦ absurd (ground (arith, good, bad))
    | inl (value, fine) ↦ (
      collect_sound (insert key value meta) m entries (rw fine at (rw good at h)),
      (deserialize_field_name_lem.0 k key good).0,
      (deserialize_field_value_lem.0 v value fine).0,
    )
  ]
]

pub deserialize_metadata-IsMerged :
    (entries m : Metadata) → deserialize_metadata entries ≡ ok m → IsMerged entries m
unfolding deserialize_metadata lookup
deserialize_metadata-IsMerged entries m h = elim (Result-cases (collect [] entries)) [
  | inr (e, bad) ↦ absurd (ground (arith, bad))
  | inl (meta, good) ↦
      let same : meta ≡ m = ground (arith, good) in
      subst (IsMerged entries) same (record {
        last = λ k. collect-lookup [] meta entries k good ∙ or_older-none (last_entry k entries);
        sound = collect_sound [] meta entries good;
      })
]

-- What comes in is what was read, but that a name that was repeated stands once, with its last value.
unfoldable pub IsRead : ClientMessage → ClientMessage → Type 0
IsRead (ClientMessage.host gid capacity listed player lobby) msg' =
    (player' : Metadata) × (lobby' : Metadata) × (msg'
      ≡ ClientMessage.host gid capacity listed player' lobby')
    × IsMerged player player'
    × IsMerged lobby lobby'
IsRead (ClientMessage.join lid player) msg' =
    (player' : Metadata) × (msg' ≡ ClientMessage.join lid player') × IsMerged player player'
IsRead msg msg' = msg' ≡ msg
