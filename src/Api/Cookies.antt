-- ===== src/Api/Cookies.antt =====
-- src/auth/auth.resolver.ts: `extractRefreshTokenFromCookies`.
-- What stands behind a beginning, if the text has it.
use rooeel_backend_api.Prelude.{
  ◌∙◌, ℕ, ◌==◌, false, Option, none, some, List, [], ◌∷◌, if◌then◌else◌, or_maybe, ◌≡◌, refl, arith,
  inl, inr, Bool-cases, Option-cases,
}
use rooeel_backend_api.Text.{Text, codes}
use rooeel_backend_api.Prelude.{All, ◌∙◌, ◌++◌}
use rooeel_backend_api.Text.{trim_start, is_empty, is_space, text_eq, text_eq_iff}

unfoldable pub after : Text → Text → Option Text
after [] s = some s
after (p ∷ ps) [] = none
after (p ∷ ps) (c ∷ s) = if c == p then after ps s else none

-- `[^;]*`
unfoldable pub until_semicolon : Text → Text
until_semicolon [] = []
until_semicolon (c ∷ s) = if c == b';' then [] else c ∷ until_semicolon s

abbrev pub cookie_name : Text
cookie_name = codes "refreshToken"

abbrev given : Text → Option Text
given value = if is_empty value then none else some value

-- `refreshToken=([^;]+)`
unfoldable pub match_token : Text → Option Text
unfolding after until_semicolon
match_token s = elim (after (cookie_name ++ (b'=' ∷ [])) s) [
  | none ↦ none
  | some rest ↦ given (until_semicolon rest)
]

-- The first match behind a semicolon and blanks.
unfoldable pub scan : Text → Option Text
unfolding match_token
scan [] = none
scan (c ∷ s) =
    let rest = scan s in if c == b';' then or_maybe (match_token (trim_start s)) rest else rest

unfoldable pub extract_refresh_token_from_cookies : Option Text → Option Text
unfolding match_token scan
extract_refresh_token_from_cookies none = none
extract_refresh_token_from_cookies (some header) =
    if is_empty header then none else or_maybe (match_token header) (scan header)

-- A header as a browser sends it: `name=value; name=value`.
pub record Cookie : Type 0 where
  pub name : Text
  pub value : Text

abbrev pub pair_of : Cookie → Text → Text
pair_of c rest = c.name ++ (b'=' ∷ (c.value ++ rest))

abbrev pub more_cookies : List Cookie → Text
more_cookies [] = []
more_cookies (c ∷ cs) = b';' ∷ b' ' ∷ pair_of c (more_cookies cs)

abbrev pub cookie_header : Cookie → List Cookie → Text
cookie_header c cs = pair_of c (more_cookies cs)

abbrev NotSemicolon : ℕ → Type 0
NotSemicolon c = (c == b';') ≡ false

abbrev NameChar : ℕ → Type 0
NameChar c = ((c == b'=') ≡ false) × ((c == b';') ≡ false) × (is_space c ≡ false)

-- A name without blanks and separators, and a value without a semicolon.
pub record IsCookie (c : Cookie) : Type 0 where
  pub name_chars : All NameChar c.name
  pub value_chars : All NotSemicolon c.value

-- The name decides which cookie matches.
after_name :
    (p n r x : Text)
    → All NameChar p
    → All NameChar n
    → after (p ++ (b'=' ∷ [])) (n ++ (b'=' ∷ r)) ≡ some x
    → (n ≡ p) × (x ≡ r)
unfolding after
after_name [] [] r x hp hn h = ground (arith, h)
after_name [] (c ∷ n) r x hp hn h = ground (arith, h)
after_name (d ∷ p) [] r x hp hn h = ground (arith, h)
after_name (d ∷ p) (c ∷ n) r x (hd, hp) (hc, hn) h = elim (Bool-cases (c == d)) [
  | inl same ↦ let (e, f) = after_name p n r x hp hn (rw (same, after) at h) in (ground arith, f)
  | inr apart ↦ ground (arith, h, apart)
]

after_same : (p r : Text) → after (p ++ (b'=' ∷ [])) (p ++ (b'=' ∷ r)) ≡ some r
unfolding after
after_same [] r = ground arith
after_same (d ∷ p) r = ground (arith, after_same p r)

until_end :
    (v : Text) (cs : List Cookie) → All NotSemicolon v → until_semicolon (v ++ more_cookies cs) ≡ v
unfolding until_semicolon
until_end [] [] h = refl
until_end [] (c ∷ cs) h = refl
until_end (c ∷ v) cs (hc, h) = ground (arith, until_end v cs h)

abbrev pub header_of : List Cookie → Text
header_of [] = []
header_of (c ∷ cs) = cookie_header c cs

-- The value of the first cookie that is named so and is not empty.
abbrev pub lookup : List Cookie → Option Text
lookup [] = none
lookup (c ∷ cs) = or_maybe (if text_eq c.name cookie_name then given c.value else none) (lookup cs)

cookie_name_chars : All NameChar cookie_name
unfolding is_space
cookie_name_chars = ground arith

trim_name : (n s : Text) → All NameChar n → trim_start (b' ' ∷ (n ++ (b'=' ∷ s))) ≡ n ++ (b'=' ∷ s)
unfolding trim_start is_space
trim_name [] s h = refl
trim_name (c ∷ n) s (hc, h) = ground (arith, hc)

not_empty : (n s : Text) → is_empty (n ++ (b'=' ∷ s)) ≡ false
not_empty [] s = refl
not_empty (c ∷ n) s = refl

module _ (c : Cookie) (cs : List Cookie) (h : IsCookie c) where
  match_pair :
      match_token (pair_of c (more_cookies cs))
      ≡ (if text_eq c.name cookie_name then given c.value else none)
  unfolding match_token
  match_pair = elim (Bool-cases (text_eq c.name cookie_name)) [
    | inl same ↦
        let named : c.name ≡ cookie_name = (text_eq_iff c.name cookie_name).0 same in
        ground (
          arith,
          same,
          named,
          after_same cookie_name (c.value ++ more_cookies cs),
          until_end c.value cs h.value_chars,
        )
    | inr apart ↦
        elim (Option-cases (after (cookie_name ++ (b'=' ∷ [])) (pair_of c (more_cookies cs)))) [
          | inl none_there ↦ ground (arith, none_there, apart)
          | inr (x, there) ↦
              let (named, _) =
                after_name cookie_name c.name (c.value ++ more_cookies cs) x cookie_name_chars
                  h.name_chars there in
              ground (arith, apart, named, text_eq_iff c.name cookie_name)
        ]
  ]

scan_plain : (v s : Text) → All NotSemicolon v → scan (v ++ s) ≡ scan s
unfolding scan
scan_plain [] s h = refl
scan_plain (c ∷ v) s (hc, h) = ground (arith, scan_plain v s h)

All-weaken : (n : Text) → All NameChar n → All NotSemicolon n
All-weaken [] h = h
All-weaken (c ∷ n) ((_, hc, _), h) = (hc, All-weaken n h)

scan_pair : (c : Cookie) (s : Text) → IsCookie c → scan (pair_of c s) ≡ scan s
unfolding scan
scan_pair c s h =
    scan_plain c.name (b'=' ∷ (c.value ++ s)) (All-weaken c.name h.name_chars)
    ∙ scan_plain c.value s h.value_chars

scan_more : (cs : List Cookie) → All IsCookie cs → scan (more_cookies cs) ≡ lookup cs
unfolding scan
scan_more [] h = refl
scan_more (c ∷ cs) (hc, h) =
    rw (trim_name c.name (c.value ++ more_cookies cs) hc.name_chars)
      (rw (match_pair c cs hc) (rw (scan_pair c (more_cookies cs) hc) (rw (scan_more cs h) refl)))

-- From a `Cookie` header of cookies whose names have no blanks and separators and whose values no
-- semicolon, the value of the first refresh token that is not empty is read, and none if there is
-- none.
pub extract-header_of :
    (cs : List Cookie)
    → All IsCookie cs
    → extract_refresh_token_from_cookies (some (header_of cs)) ≡ lookup cs
unfolding extract_refresh_token_from_cookies
extract-header_of [] h = refl
extract-header_of (c ∷ cs) (hc, h) =
    rw (not_empty c.name (c.value ++ more_cookies cs))
      (rw (match_pair c cs hc) (rw (scan_pair c (more_cookies cs) hc) (rw (scan_more cs h) refl)))
