-- ===== src/Server/Address/Laws.antt =====
-- Which address a client has, server/src/main.rs.
use nut_blast.Base.{
  ℕ, ◌≡◌, refl, ◌∙◌, ap, Bool, true, Option, none, some, List, [], ◌∷◌, ◌++◌, arith, ◌==◌, nat_eq,
  leb, ◌&&◌, append-nil, not,
}
use nut_blast.Blaster.{IpAddr}
use nut_blast.Server.Address.{
  is_visible, is_space, to_str, before_comma, trim_start, trim_end, trim, forwarded, real_ip,
}

-- Every byte of the list passes the test.
abbrev pub Each : (ℕ → Bool) → List ℕ → Type 0
Each test [] = Unit
Each test (b ∷ bs) = (test b ≡ true) × Each test bs

-- A byte that can stand in the text of an address.
abbrev pub is_plain : ℕ → Bool
is_plain b = leb 33 b && leb b 126 && not (b == b',')

Each-append :
    (test : ℕ → Bool) (xs ys : List ℕ) → Each test xs → Each test ys → Each test (xs ++ ys)
Each-append test [] ys hx hy = hy
Each-append test (x ∷ xs) ys hx hy = (hx.0, Each-append test xs ys hx.1 hy)

Each-weaken :
    (test other : ℕ → Bool) (xs : List ℕ)
    → ((b : ℕ) → test b ≡ true → other b ≡ true)
    → Each test xs
    → Each other xs
Each-weaken test other [] h hx = tt
Each-weaken test other (x ∷ xs) h hx = (h x hx.0, Each-weaken test other xs h hx.1)

to_str_lem : (bs : List ℕ) → Each is_visible bs → to_str bs ≡ some bs
unfolding to_str
to_str_lem [] h = refl
to_str_lem (b ∷ bs) h = ground (arith, h.0, to_str_lem bs h.1)

-- Bytes other than the comma stay in front.
before_comma-append :
    (xs tail : List ℕ)
    → Each (λ b. not (b == b',')) xs
    → before_comma (xs ++ tail) ≡ xs ++ before_comma tail
unfolding before_comma
before_comma-append [] tail h = refl
before_comma-append (x ∷ xs) tail h = ground (arith, h.0, before_comma-append xs tail h.1)

trim_start-append : (xs ys : List ℕ) → Each is_space xs → trim_start (xs ++ ys) ≡ trim_start ys
unfolding trim_start
trim_start-append [] ys h = refl
trim_start-append (x ∷ xs) ys h = ground (arith, h.0, trim_start-append xs ys h.1)

trim_start_plain : (b : ℕ) (xs : List ℕ) → is_plain b ≡ true → trim_start (b ∷ xs) ≡ b ∷ xs
unfolding trim_start
trim_start_plain b xs h = ground (arith, h)

trim_end_spaces : (xs : List ℕ) → Each is_space xs → trim_end xs ≡ []
unfolding trim_end
trim_end_spaces [] h = refl
trim_end_spaces (x ∷ xs) h = rw (trim_end, trim_end_spaces xs h.1) (ground (arith, h.0))

trim_end-append :
    (b : ℕ) (xs ys : List ℕ)
    → is_plain b ≡ true
    → Each is_plain xs
    → Each is_space ys
    → trim_end (b ∷ (xs ++ ys)) ≡ b ∷ xs
unfolding trim_end
trim_end-append b [] ys plain h hy = rw (trim_end, trim_end_spaces ys hy) (ground (arith, plain))
trim_end-append b (x ∷ xs) ys plain h hy = rw (trim_end, trim_end-append x xs ys h.0 h.1 hy) refl

-- Behind a trusted proxy, where X-Forwarded-For is a list whose first entry is an address in printable
-- characters, with white space around it or not, and whose rest is any visible text, the address of
-- the client is what that entry parses to, and the address of the connection where it does not parse:
-- the further entries do not matter.
pub real_ip-first :
    (parse : List ℕ → Option IpAddr) (local_address : IpAddr) (b : ℕ)
    (xs before after tail : List ℕ)
    → Each is_plain (b ∷ xs)
    → Each is_space before
    → Each is_space after
    → Each is_visible tail
    → before_comma tail ≡ []
    → real_ip parse true local_address (some (before ++ ((b ∷ xs) ++ (after ++ tail))))
      ≡ elim (parse (b ∷ xs)) [ none ↦ local_address | some real ↦ real ]
unfolding real_ip forwarded trim
real_ip-first parse local_address b xs before after tail plain spaces spaces' visible ends =
    let header = before ++ ((b ∷ xs) ++ (after ++ tail)) in
    let text : to_str header ≡ some header = to_str_lem header (
      Each-append is_visible before _
        (Each-weaken is_space is_visible before (λ c h. ground (arith, h)) spaces)
        (Each-append is_visible (b ∷ xs) _
          (Each-weaken is_plain is_visible (b ∷ xs) (λ c h. ground (arith, h)) plain)
          (Each-append is_visible after tail
            (Each-weaken is_space is_visible after (λ c h. ground (arith, h)) spaces') visible))) in
    let no_comma : ℕ → Bool = λ c. not (c == b',') in
    let entry : before_comma header ≡ before ++ ((b ∷ xs) ++ after) =
      before_comma-append before _
        (Each-weaken is_space no_comma before (λ c h. ground (arith, h)) spaces)
      ∙ ap (λ r. before ++ r)
          (before_comma-append (b ∷ xs) _
              (Each-weaken is_plain no_comma (b ∷ xs) (λ c h. ground (arith, h)) plain)
            ∙ ap (λ r. (b ∷ xs) ++ r)
                (before_comma-append after tail
                    (Each-weaken is_space no_comma after (λ c h. ground (arith, h)) spaces')
                  ∙ ap (λ r. after ++ r) ends
                  ∙ append-nil after)) in
    let trimmed : trim (before ++ ((b ∷ xs) ++ after)) ≡ b ∷ xs =
      ap trim_end (trim_start-append before _ spaces ∙ trim_start_plain b (xs ++ after) plain.0)
      ∙ trim_end-append b xs after plain.0 plain.1 spaces' in
    rw (forwarded, text) (rw entry (rw trimmed refl))
