-- ===== src/Project/WorkOrders/Names.antt =====
-- The name under which a work order is shown, from the name that is given or that of the file.
use rooeel_backend_api.Prelude.{
  ℕ, ◌==◌, ◌&&◌, ◌||◌, leb, Bool, false, Option, some, [], ◌∷◌, ◌++◌, keep, if◌then◌else◌,
}
use rooeel_backend_api.Text.{Text, codes, text_eq, is_space, trim, to_lower_case}
use rooeel_backend_api.Storage.{or_text}

-- `/\w/`
unfoldable pub is_word : ℕ → Bool
is_word c =
    (leb b'a' c && leb c b'z')
    || (leb b'A' c && leb c b'Z')
    || (leb b'0' c && leb c b'9')
    || c == b'_'

-- `.replace(/\.pdf$/i, '')`
unfoldable pub drop_pdf : Text → Text
drop_pdf [] = []
drop_pdf (c ∷ s) = if text_eq (to_lower_case (c ∷ s)) (codes ".pdf") then [] else c ∷ drop_pdf s

-- `.replace(/[^\w\s-]/g, '')`
unfoldable pub drop_marks : Text → Text
unfolding is_word
drop_marks s = keep (λ c. is_word c || is_space c || c == b'-') s

-- `.replace(/\s+/g, ' ')`, where a space was written last or not
unfoldable pub squeeze : Bool → Text → Text
squeeze last [] = []
squeeze last (c ∷ s) =
    let rest = squeeze (is_space c) s in
    if is_space c then (if last then rest else b' ' ∷ rest) else c ∷ rest

unfoldable pub safe_name : Text → Text
unfolding drop_marks squeeze
safe_name base = or_text (some (trim (squeeze false (drop_marks base)))) (codes "Work Order")

unfoldable pub display_name : Option Text → Text → Text → Text
unfolding safe_name drop_pdf
display_name name original_name date =
    safe_name (trim (or_text name (drop_pdf original_name)))
    ++ (codes " - " ++ (date ++ codes ".pdf"))
