-- ===== src/Server/Address.antt =====
-- The address of a client, from its connection or from the header X-Forwarded-For; server/src/main.rs.
pub mod Laws
use nut_blast.Base.{
  ℕ, Bool, ◌&&◌, ◌||◌, Option, none, some, List, [], ◌∷◌, ◌==◌, nat_eq, leb, if◌then◌else◌,
}
use nut_blast.Blaster.{IpAddr}

-- `HeaderValue::to_str`: the bytes, if each is visible ASCII or a tab.
abbrev pub is_visible : ℕ → Bool
is_visible b = leb 32 b && leb b 126 || b == 9

unfoldable pub to_str : List ℕ → Option (List ℕ)
to_str [] = some []
to_str (b ∷ bs) =
    let rest = to_str bs in
    if is_visible b then elim rest [ none ↦ none | some cs ↦ some (b ∷ cs) ] else none

-- `split(',').next()`: what stands before the first comma.
unfoldable pub before_comma : List ℕ → List ℕ
before_comma [] = []
before_comma (b ∷ bs) = let rest = before_comma bs in if b == b',' then [] else b ∷ rest

-- The white space that a header text can have.
abbrev pub is_space : ℕ → Bool
is_space b = b == 32 || b == 9

unfoldable pub trim_start : List ℕ → List ℕ
trim_start [] = []
trim_start (b ∷ bs) = let rest = trim_start bs in if is_space b then rest else b ∷ bs

unfoldable pub trim_end : List ℕ → List ℕ
trim_end [] = []
trim_end (b ∷ bs) = elim (trim_end bs) [
  | [] ↦ if is_space b then [] else b ∷ []
  | c ∷ cs ↦ b ∷ c ∷ cs
]

unfoldable pub trim : List ℕ → List ℕ
unfolding trim_start trim_end
trim s = trim_end (trim_start s)

-- `parse` is `str::parse::<IpAddr>`; the header is absent, or the bytes of its first value.
module _ (parse : List ℕ → Option IpAddr) where
  unfoldable pub forwarded : List ℕ → Option IpAddr
  unfolding to_str before_comma trim
  forwarded xff = elim (to_str xff) [ none ↦ none | some text ↦ parse (trim (before_comma text)) ]

  unfoldable pub real_ip : Bool → IpAddr → Option (List ℕ) → IpAddr
  unfolding forwarded
  real_ip trust_xff local_address header =
      if trust_xff
      then elim header [
        | none ↦ local_address
        | some xff ↦ elim (forwarded xff) [ none ↦ local_address | some real ↦ real ]
      ]
      else local_address
