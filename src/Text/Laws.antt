-- ===== src/Text/Laws.antt =====
-- Equality of texts, and that trimming and upper case settle at once.
use rooeel_backend_api.Prelude.{
  In, List, ℕ, ◌≡◌, refl, ap, ◌↔◌, ◌∙◌, true, false, [], ◌∷◌, arith, Bool-cases, length, ◌≤◌, inl,
  inr,
}
use rooeel_backend_api.Text.Defs.{
  includes, Text, text_eq, is_space, trim_start, cons_trimmed, trim_end, trim, upper, to_upper_case,
}

pub text_eq_iff : (a b : Text) → (text_eq a b ≡ true) ↔ (a ≡ b)
unfolding text_eq
text_eq_iff [] [] = ground arith
text_eq_iff [] (_ ∷ _) = ground arith
text_eq_iff (_ ∷ _) [] = ground arith
text_eq_iff (a ∷ s) (b ∷ t) = ground (arith, text_eq_iff s t)

pub text_eq_refl : (a : Text) → text_eq a a ≡ true
text_eq_refl a = (text_eq_iff a a).1 refl

upper_idem : (c : ℕ) → upper (upper c) ≡ upper c
unfolding upper
upper_idem c = ground arith

is_space-upper : (c : ℕ) → is_space (upper c) ≡ is_space c
unfolding upper is_space
is_space-upper c = ground arith

pub to_upper_case_idem : (s : Text) → to_upper_case (to_upper_case s) ≡ to_upper_case s
unfolding to_upper_case
to_upper_case_idem [] = refl
to_upper_case_idem (c ∷ s) = cc (upper_idem c, to_upper_case_idem s)

trim_start-upper : (s : Text) → trim_start (to_upper_case s) ≡ to_upper_case (trim_start s)
unfolding trim_start to_upper_case
trim_start-upper [] = refl
trim_start-upper (c ∷ s) = ground (arith, is_space-upper c, trim_start-upper s)

cons_trimmed-upper :
    (c : ℕ) (s : Text) → cons_trimmed (upper c) (to_upper_case s) ≡ to_upper_case (cons_trimmed c s)
unfolding cons_trimmed to_upper_case
cons_trimmed-upper c [] = ground (arith, is_space-upper c)
cons_trimmed-upper c (d ∷ s) = refl

trim_end-upper : (s : Text) → trim_end (to_upper_case s) ≡ to_upper_case (trim_end s)
unfolding trim_end to_upper_case
trim_end-upper [] = refl
trim_end-upper (c ∷ s) =
    ap (cons_trimmed (upper c)) (trim_end-upper s) ∙ cons_trimmed-upper c (trim_end s)

pub trim-upper : (s : Text) → trim (to_upper_case s) ≡ to_upper_case (trim s)
unfolding trim
trim-upper s = rw (trim_start-upper s) (trim_end-upper (trim_start s))

cons_trimmed_idem :
    (c : ℕ) (s : Text) → trim_end s ≡ s → trim_end (cons_trimmed c s) ≡ cons_trimmed c s
unfolding cons_trimmed trim_end
cons_trimmed_idem c [] h = ground arith
cons_trimmed_idem c (d ∷ s) h = ap (cons_trimmed c) h

trim_end_idem : (s : Text) → trim_end (trim_end s) ≡ trim_end s
unfolding trim_end
trim_end_idem [] = refl
trim_end_idem (c ∷ s) = cons_trimmed_idem c (trim_end s) (trim_end_idem s)

length-trim_start-le : (s : Text) → length (trim_start s) ≤ length s
unfolding trim_start
length-trim_start-le [] = omega arith
length-trim_start-le (c ∷ s) = ground (arith, length-trim_start-le s)

not_space_at_start : (c : ℕ) (s : Text) → trim_start (c ∷ s) ≡ c ∷ s → is_space c ≡ false
unfolding trim_start
not_space_at_start c s h = elim (Bool-cases (is_space c)) [
  | inl space ↦
      let e : trim_start s ≡ c ∷ s = rw space at h in
      absurd (omega (arith, length-trim_start-le s, ap length e))
  | inr other ↦ other
]

trim_start-cons_trimmed :
    (c : ℕ) (s : Text) → is_space c ≡ false → trim_start (cons_trimmed c s) ≡ cons_trimmed c s
unfolding cons_trimmed trim_start
trim_start-cons_trimmed c [] h = rw h (rw h)
trim_start-cons_trimmed c (d ∷ s) h = rw h

-- A text that starts with no space keeps its start when its end is trimmed.
trim_start-trim_end : (s : Text) → trim_start s ≡ s → trim_start (trim_end s) ≡ trim_end s
unfolding trim_start trim_end
trim_start-trim_end [] h = refl
trim_start-trim_end (c ∷ s) h = trim_start-cons_trimmed c (trim_end s) (not_space_at_start c s h)

trim_start_idem : (s : Text) → trim_start (trim_start s) ≡ trim_start s
unfolding trim_start
trim_start_idem [] = refl
trim_start_idem (c ∷ s) = ground (arith, trim_start_idem s)

pub trim_idem : (s : Text) → trim (trim s) ≡ trim s
unfolding trim
trim_idem s =
    rw (trim_start-trim_end (trim_start s) (trim_start_idem s)) (trim_end_idem (trim_start s))

-- A list has a text exactly if `includes` finds it.
pub includes_iff : (ts : List Text) (t : Text) → (includes ts t ≡ true) ↔ In t ts
unfolding includes
includes_iff [] t = (λ h. ground arith, λ h. absurd h)
includes_iff (s ∷ ts) t = elim (Bool-cases (text_eq s t)) [
  | inl same ↦ (λ h. inl ((text_eq_iff s t).0 same), λ h. rw same refl)
  | inr apart ↦ (
    λ h. inr ((includes_iff ts t).0 (rw apart at h)),
    λ m. rw apart (elim m [
      | inl same ↦ ground (arith, apart, text_eq_iff s t)
      | inr later ↦ (includes_iff ts t).1 later
    ]),
  )
]
