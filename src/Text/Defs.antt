-- ===== src/Text/Defs.antt =====
-- `===`, `trim`, `toUpperCase`, `toLowerCase` and `includes` on texts.
use Prim.Native.Char.{code}
use Prim.Native.String.{String}
use rooeel_backend_api.Prelude.{
  ℕ, ◌+◌, ◌-◌, Bool, true, false, ◌&&◌, ◌||◌, List, [], ◌∷◌, map, leb, ◌==◌, if◌then◌else◌,
}

abbrev pub Text : Type 0
Text = List ℕ

abbrev pub codes : String → Text
codes String.[] = []
codes (String.◌∷◌ c s) = code c ∷ codes s

-- `a === b`
unfoldable pub text_eq : Text → Text → Bool
text_eq [] [] = true
text_eq [] (_ ∷ _) = false
text_eq (_ ∷ _) [] = false
text_eq (a ∷ s) (b ∷ t) = a == b && text_eq s t

-- `list.includes(text)`
unfoldable pub includes : List Text → Text → Bool
includes [] t = false
includes (s ∷ ss) t = text_eq s t || includes ss t

-- The white space and line terminators of ECMAScript.
unfoldable pub is_space : ℕ → Bool
is_space c =
    (leb 9 c && leb c 13)
    || c == 32
    || c == 160
    || c == 0x1680
    || (leb 0x2000 c && leb c 0x200a)
    || c == 0x2028
    || c == 0x2029
    || c == 0x202f
    || c == 0x205f
    || c == 0x3000
    || c == 0xfeff

unfoldable pub trim_start : Text → Text
trim_start [] = []
trim_start (c ∷ s) = if is_space c then trim_start s else c ∷ s

-- A character goes before a trimmed rest, and a space vanishes before an empty one.
unfoldable pub cons_trimmed : ℕ → Text → Text
cons_trimmed c [] = if is_space c then [] else c ∷ []
cons_trimmed c (d ∷ s) = c ∷ d ∷ s

unfoldable pub trim_end : Text → Text
trim_end [] = []
trim_end (c ∷ s) = cons_trimmed c (trim_end s)

unfoldable pub trim : Text → Text
trim s = trim_end (trim_start s)

unfoldable pub upper : ℕ → ℕ
upper c = if leb b'a' c && leb c b'z' then c - 32 else c

unfoldable pub lower : ℕ → ℕ
lower c = if leb b'A' c && leb c b'Z' then c + 32 else c

unfoldable pub to_upper_case : Text → Text
to_upper_case = map upper

unfoldable pub to_lower_case : Text → Text
to_lower_case = map lower

abbrev pub is_empty : Text → Bool
is_empty [] = true
is_empty (_ ∷ _) = false
