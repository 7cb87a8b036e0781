-- ===== src/Protocol/Sound/Message.antt =====
-- The validators of a whole message, server/src/protocol.
use nut_blast.Base.{
  ℕ, ◌≤◌, ◌≡◌, ◌≢◌, ◌⊎◌, refl, sym, ap, ◌∙◌, subst, String, len, ok, err, Result-cases, inl, inr,
}
use nut_blast.Protocol.Sound.Merged.{IsMerged, IsRead, deserialize_metadata-IsMerged}
use nut_blast.Protocol.Metadata.{Metadata}
use nut_blast.Protocol.Payloads.{ClientMessage}
use nut_blast.Protocol.Validators.{
  Checked, ◌>>=◌, validate, validate_gid, deserialize_field_name, deserialize_field_value,
  deserialize_metadata, validate_candidate, validate_sdp, validate_capacity,
}
use nut_blast.Protocol.Sound.{
  IsGid, IsFieldName, IsFieldValue, IsMeta, IsMessage, Checks, validate_gid_lem,
  deserialize_field_name_lem, deserialize_field_value_lem, validate_candidate_lem, validate_sdp_lem,
  validate_capacity_lem, deserialize_metadata-IsMeta, deserialize_metadata_all,
}

err≢ok : {e : String} {m : ClientMessage} → ◌≢◌ {A = Checked ClientMessage} (err e) (ok m)
err≢ok h = cc

ok_inj : {m m' : ClientMessage} → ◌≡◌ {A = Checked ClientMessage} (ok m) (ok m') → m ≡ m'
ok_inj h = cc

-- A postcondition of what a validator lets in.
abbrev Lets : {A : Type 0} → (A → Type 0) → Checked A → Type 0
Lets P (ok a) = P a
Lets P (err e) = Unit

Lets-bind :
    {A B : Type 0} (Q : B → Type 0) (P : A → Type 0) (c : Checked A) (f : A → Checked B)
    → Lets P c
    → ((a : A) → P a → Lets Q (f a))
    → Lets Q (c >>= f)
Lets-bind Q P (ok a) f h k = k a h
Lets-bind Q P (err e) f h k = tt

Lets-of :
    {A : Type 0} (P : A → Type 0) (check : A → Checked A) (a : A)
    → Checks P check
    → Lets (λ b. P b × (b ≡ a)) (check a)
Lets-of P check a c = elim (Result-cases (check a)) [
  | inl (b, e) ↦ let (h, same) = c.0 a b e in rw e (subst P same h, sym same)
  | inr (x, e) ↦ rw e tt
]

-- What `deserialize_metadata` lets in.
abbrev IsReadMeta : Metadata → Metadata → Type 0
IsReadMeta entries m = IsMeta m × IsMerged entries m

Lets-deserialize_metadata :
    (entries : Metadata) → Lets (IsReadMeta entries) (deserialize_metadata entries)
Lets-deserialize_metadata entries = elim (Result-cases (deserialize_metadata entries)) [
  | inl (b, e) ↦
      rw e (deserialize_metadata-IsMeta entries b e, deserialize_metadata-IsMerged entries b e)
  | inr (x, e) ↦ rw e tt
]

abbrev Small : ℕ → String → Type 0
Small n s = len s ≤ n

abbrev IsCapacity : ℕ → Type 0
IsCapacity n = (2 ≤ n) × (n ≤ 15)

-- A message that is sound, and is what was read.
abbrev IsSound : ClientMessage → ClientMessage → Type 0
IsSound msg msg' = IsMessage msg' × IsRead msg msg'

Lets-validate : (msg : ClientMessage) → Lets (IsSound msg) (validate msg)
unfolding validate IsRead
Lets-validate ClientMessage.ping = (tt, refl)
Lets-validate (ClientMessage.list gid limit) =
    Lets-bind _ (λ x. IsGid x × (x ≡ gid)) (validate_gid gid) _
      (Lets-of IsGid validate_gid gid validate_gid_lem)
      (λ x (h, e). (h, ap (λ y. ClientMessage.list y limit) e))
Lets-validate (ClientMessage.host gid capacity listed player lobby) =
    Lets-bind _ (λ x. IsGid x × (x ≡ gid)) (validate_gid gid) _
      (Lets-of IsGid validate_gid gid validate_gid_lem)
      (λ g (hg, eg).
        Lets-bind _ (λ x. IsCapacity x × (x ≡ capacity)) (validate_capacity capacity) _
          (Lets-of IsCapacity validate_capacity capacity validate_capacity_lem)
          (λ c (hc, ec).
            Lets-bind _ (IsReadMeta player) (deserialize_metadata player) _
              (Lets-deserialize_metadata player)
              (λ p (hp, rp).
                Lets-bind _ (IsReadMeta lobby) (deserialize_metadata lobby) _
                  (Lets-deserialize_metadata lobby)
                  (λ l (hl, rl). ((hg, hc.0, hc.1, hp, hl), (p, l, cc (eg, ec), rp, rl))))))
Lets-validate (ClientMessage.join lid player) =
    Lets-bind _ (λ x. IsGid x × (x ≡ lid.gid)) (validate_gid lid.gid) _
      (Lets-of IsGid validate_gid lid.gid validate_gid_lem)
      (λ g (hg, eg).
        Lets-bind _ (IsReadMeta player) (deserialize_metadata player) _
          (Lets-deserialize_metadata player)
          (λ p (hp, rp).
            ((hg, hp), (p, ap (λ y. ClientMessage.join (record lid { gid = y }) p) eg, rp))))
Lets-validate (ClientMessage.leave code msg) = (tt, refl)
Lets-validate (ClientMessage.set_listed listed) = (tt, refl)
Lets-validate (ClientMessage.set_capacity capacity) =
    Lets-bind _ (λ x. IsCapacity x × (x ≡ capacity)) (validate_capacity capacity) _
      (Lets-of IsCapacity validate_capacity capacity validate_capacity_lem)
      (λ x (h, e). (h, ap (λ y. ClientMessage.set_capacity y) e))
Lets-validate (ClientMessage.set_player_metadata key value) =
    Lets-bind _ (λ x. IsFieldName x × (x ≡ key)) (deserialize_field_name key) _
      (Lets-of IsFieldName deserialize_field_name key deserialize_field_name_lem)
      (λ x (h, e).
        Lets-bind _ (λ x. IsFieldValue x × (x ≡ value)) (deserialize_field_value value) _
          (Lets-of IsFieldValue deserialize_field_value value deserialize_field_value_lem)
          (λ x' (h', e'). ((h, h'), cc (e, e'))))
Lets-validate (ClientMessage.erase_player_metadata key) =
    Lets-bind _ (λ x. IsFieldName x × (x ≡ key)) (deserialize_field_name key) _
      (Lets-of IsFieldName deserialize_field_name key deserialize_field_name_lem)
      (λ x (h, e). (h, ap (λ y. ClientMessage.erase_player_metadata y) e))
Lets-validate (ClientMessage.set_lobby_metadata key value) =
    Lets-bind _ (λ x. IsFieldName x × (x ≡ key)) (deserialize_field_name key) _
      (Lets-of IsFieldName deserialize_field_name key deserialize_field_name_lem)
      (λ x (h, e).
        Lets-bind _ (λ x. IsFieldValue x × (x ≡ value)) (deserialize_field_value value) _
          (Lets-of IsFieldValue deserialize_field_value value deserialize_field_value_lem)
          (λ x' (h', e'). ((h, h'), cc (e, e'))))
Lets-validate (ClientMessage.erase_lobby_metadata key) =
    Lets-bind _ (λ x. IsFieldName x × (x ≡ key)) (deserialize_field_name key) _
      (Lets-of IsFieldName deserialize_field_name key deserialize_field_name_lem)
      (λ x (h, e). (h, ap (λ y. ClientMessage.erase_lobby_metadata y) e))
Lets-validate (ClientMessage.pass_candidate to candidate mid) =
    Lets-bind _ (λ x. (Small 512) x × (x ≡ candidate)) (validate_candidate candidate) _
      (Lets-of (Small 512) validate_candidate candidate validate_candidate_lem)
      (λ x (h, e).
        Lets-bind _ (λ x. (Small 512) x × (x ≡ mid)) (validate_candidate mid) _
          (Lets-of (Small 512) validate_candidate mid validate_candidate_lem)
          (λ x' (h', e'). ((h, h'), cc (e, e'))))
Lets-validate (ClientMessage.pass_offer to sdp) =
    Lets-bind _ (λ x. (Small 4096) x × (x ≡ sdp)) (validate_sdp sdp) _
      (Lets-of (Small 4096) validate_sdp sdp validate_sdp_lem)
      (λ x (h, e). (h, ap (λ y. ClientMessage.pass_offer to y) e))
Lets-validate (ClientMessage.pass_answer to sdp) =
    Lets-bind _ (λ x. (Small 4096) x × (x ≡ sdp)) (validate_sdp sdp) _
      (Lets-of (Small 4096) validate_sdp sdp validate_sdp_lem)
      (λ x (h, e). (h, ap (λ y. ClientMessage.pass_answer to y) e))
Lets-validate (ClientMessage.kick pid) = (tt, refl)
Lets-validate (ClientMessage.set_master pid) = (tt, refl)

validate_all : (msg : ClientMessage) → IsMessage msg → validate msg ≡ ok msg
unfolding validate
validate_all (ClientMessage.list gid limit) h = rw (validate_gid_lem.1 gid h)
validate_all (ClientMessage.host gid capacity listed player lobby) h =
    rw (validate_gid_lem.1 gid h.0) (
      rw (validate_capacity_lem.1 capacity (h.1, h.2))
        (rw (deserialize_metadata_all player h.3) (rw (deserialize_metadata_all lobby h.4))))
validate_all (ClientMessage.join lid player) h =
    rw (validate_gid_lem.1 lid.gid h.0) (rw (deserialize_metadata_all player h.1))
validate_all (ClientMessage.set_capacity capacity) h = rw (validate_capacity_lem.1 capacity h)
validate_all (ClientMessage.set_player_metadata key value) h =
    rw (deserialize_field_name_lem.1 key h.0) (rw (deserialize_field_value_lem.1 value h.1))
validate_all (ClientMessage.erase_player_metadata key) h = rw (deserialize_field_name_lem.1 key h)
validate_all (ClientMessage.set_lobby_metadata key value) h =
    rw (deserialize_field_name_lem.1 key h.0) (rw (deserialize_field_value_lem.1 value h.1))
validate_all (ClientMessage.erase_lobby_metadata key) h = rw (deserialize_field_name_lem.1 key h)
validate_all (ClientMessage.pass_candidate to candidate mid) h =
    rw (validate_candidate_lem.1 candidate h.0) (rw (validate_candidate_lem.1 mid h.1))
validate_all (ClientMessage.pass_offer to sdp) h = rw (validate_sdp_lem.1 sdp h)
validate_all (ClientMessage.pass_answer to sdp) h = rw (validate_sdp_lem.1 sdp h)
validate_all msg h = refl

-- The validators refuse a message, which then is not sound, or let it in. What they let in is sound: a
-- game id of 1 to 63 letters, digits and `-_. `, a capacity of 2 to 15, at most 16 fields with
-- different names, names of 1 to 255 bytes with no control character, values of at most 1023 bytes,
-- candidates of at most 512 and session descriptions of at most 4096. And it is what was read, with
-- nothing put in place of a bad value; but of a field that was read more than once, each time with a
-- sound name and value, the last value stays, and a sound message is let in as it is.
pub validate-IsMessage :
    (msg : ClientMessage)
    → ((e : String) × (validate msg ≡ err e) × ¬ IsMessage msg)
      ⊎ ((msg' : ClientMessage) × (validate msg ≡ ok msg')
          × IsMessage msg'
          × IsRead msg msg'
          × (IsMessage msg → msg' ≡ msg))
validate-IsMessage msg = elim (Result-cases (validate msg)) [
  | inr (e, bad) ↦ inl (e, bad, λ h. err≢ok (sym bad ∙ validate_all msg h))
  | inl (msg', good) ↦
      let (sound, same) = subst (Lets (IsSound msg)) good (Lets-validate msg) in
      inr (msg', good, sound, same, λ h. ok_inj (sym good ∙ validate_all msg h))
]

pub IsMessage-of_ok : (msg msg' : ClientMessage) → validate msg ≡ ok msg' → IsMessage msg'
IsMessage-of_ok msg msg' good = (subst (Lets (IsSound msg)) good (Lets-validate msg)).0
