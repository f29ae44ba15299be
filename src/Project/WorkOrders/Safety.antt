-- ===== src/Project/WorkOrders/Safety.antt =====
-- The characters of the name of a work order.
use rooeel_backend_api.Prelude.{
  ℕ, ◌==◌, ◌||◌, ◌≡◌, ◌⊎◌, refl, Bool, true, false, Option, some, [], ◌∷◌, ◌++◌, keep, All,
  All-append, arith, Bool-cases, inl, inr,
}
use rooeel_backend_api.Text.{Text, codes, is_space, trim, trim_start, trim_end, cons_trimmed}
use rooeel_backend_api.Storage.{or_text}
use rooeel_backend_api.Project.WorkOrders.Names.{
  is_word, drop_pdf, drop_marks, squeeze, safe_name, display_name,
}

-- A letter, a digit, `_`, `-`, `.` or a space.
abbrev pub IsPlain : ℕ → Type 0
IsPlain c = (is_word c ≡ true) ⊎ (c ≡ b'-') ⊎ (c ≡ b'.') ⊎ (c ≡ b' ')

-- What `drop_marks` leaves.
abbrev IsKept : ℕ → Type 0
IsKept c = (is_word c || is_space c || c == b'-') ≡ true

All-keep : (p : ℕ → Bool) (s : Text) → All (λ c. p c ≡ true) (keep p s)
All-keep p [] = tt
All-keep p (c ∷ s) = elim (Bool-cases (p c)) [
  | inl kept ↦ rw kept (kept, All-keep p s)
  | inr dropped ↦ rw dropped (All-keep p s)
]

kept_plain : (c : ℕ) → IsKept c → is_space c ≡ false → IsPlain c
kept_plain c kept dark = ground arith

All-squeeze : (last : Bool) (s : Text) → All IsKept s → All IsPlain (squeeze last s)
unfolding squeeze
All-squeeze last [] h = tt
All-squeeze true (c ∷ s) (k, h) = elim (Bool-cases (is_space c)) [
  | inl blank ↦ rw blank (All-squeeze true s h)
  | inr dark ↦ rw dark (kept_plain c k dark, All-squeeze false s h)
]
All-squeeze false (c ∷ s) (k, h) = elim (Bool-cases (is_space c)) [
  | inl blank ↦ rw blank (inr (inr (inr refl)), All-squeeze true s h)
  | inr dark ↦ rw dark (kept_plain c k dark, All-squeeze false s h)
]

module _ (P : ℕ → Type 0) where
  All-trim_start : (s : Text) → All P s → All P (trim_start s)
  unfolding trim_start
  All-trim_start [] h = tt
  All-trim_start (c ∷ s) (k, h) = elim (Bool-cases (is_space c)) [
    | inl blank ↦ rw blank (All-trim_start s h)
    | inr dark ↦ rw dark (k, h)
  ]

  All-cons_trimmed : (c : ℕ) (s : Text) → P c → All P s → All P (cons_trimmed c s)
  unfolding cons_trimmed
  All-cons_trimmed c [] k h = elim (Bool-cases (is_space c)) [
    | inl blank ↦ rw blank tt
    | inr dark ↦ rw dark (k, tt)
  ]
  All-cons_trimmed c (d ∷ s) k h = (k, h)

  All-trim_end : (s : Text) → All P s → All P (trim_end s)
  unfolding trim_end
  All-trim_end [] h = tt
  All-trim_end (c ∷ s) (k, h) = All-cons_trimmed c (trim_end s) k (All-trim_end s h)

  All-trim : (s : Text) → All P s → All P (trim s)
  unfolding trim
  All-trim s h = All-trim_end (trim_start s) (All-trim_start s h)

  All-or_text : (s fallback : Text) → All P s → All P fallback → All P (or_text (some s) fallback)
  All-or_text [] fallback h k = k
  All-or_text (c ∷ s) fallback h k = h

safe_name-IsPlain : (base : Text) → All IsPlain (safe_name base)
unfolding safe_name drop_marks is_word
safe_name-IsPlain base =
    All-or_text IsPlain (trim (squeeze false (drop_marks base))) (codes "Work Order")
      (All-trim IsPlain (squeeze false (drop_marks base)) (
        All-squeeze false (drop_marks base)
          (All-keep (λ c. is_word c || is_space c || c == b'-') base)))
      (ground arith)

-- Where the date has only letters, digits, `_`, `-`, `.` and spaces, so has the whole name of a work
-- order, whatever name is given and whatever the file is called: no quote, slash or line break.
pub display_name-IsPlain :
    (name : Option Text) (original_name date : Text)
    → All IsPlain date
    → All IsPlain (display_name name original_name date)
unfolding display_name is_word
display_name-IsPlain name original_name date h =
    let base = trim (or_text name (drop_pdf original_name)) in
    All-append IsPlain (safe_name base) (codes " - " ++ (date ++ codes ".pdf"))
      (safe_name-IsPlain base)
      (All-append IsPlain (codes " - ") (date ++ codes ".pdf") (ground arith)
        (All-append IsPlain date (codes ".pdf") h (ground arith)))
