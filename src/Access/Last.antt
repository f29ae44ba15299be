-- ===== src/Access/Last.antt =====
-- The last grant about a resource, and the names under which policies are stored.
use rooeel_backend_api.Prelude.{
  ap, true, ◌≡◌, refl, ◌⊎◌, none, some, List, [], ◌∷◌, arith, Bool-cases, inl, inr, In,
}
use rooeel_backend_api.Text.{
  Text, text_eq, text_eq_iff, includes, to_upper_case, trim, trim_end, trim_start, is_space,
  cons_trimmed, upper,
}
use rooeel_backend_api.Schema.{Flags}
use rooeel_backend_api.Access.{allowed_policy_resources, normalize_resource, flag, Action}
use rooeel_backend_api.Access.Effective.{Grant}
use rooeel_backend_api.Access.Precedence.{is_about, last_about, is_granted, all_normal}

-- Names of a list in which each is written as it is looked up.
pub normal_name :
    (rs : List Text) (r : Text)
    → all_normal rs ≡ true
    → includes rs r ≡ true
    → normalize_resource r ≡ r
unfolding includes
normal_name [] r h m = ground arith
normal_name (s ∷ rs) r h m =
    ground (arith, normal_name rs r, text_eq_iff s r, text_eq_iff (normalize_resource s) s)

pub allowed_normal : all_normal allowed_policy_resources ≡ true
unfolding allowed_policy_resources normalize_resource text_eq to_upper_case trim trim_end trim_start
    is_space cons_trimmed upper
allowed_normal = refl

-- Where all grants about a resource have the same flags, the last has them.
module _ (key : Text) (f : Flags) where
  -- Every grant about the resource has the flags.
  abbrev pub Agree : List Grant → Type 0
  Agree gs = (h : Grant) → In h gs → is_about key h ≡ true → h.1 ≡ f

  last_about_cases :
      (gs : List Grant) → Agree gs → (last_about key gs ≡ none) ⊎ (last_about key gs ≡ some f)
  unfolding last_about
  last_about_cases [] agree = inl refl
  last_about_cases (g ∷ gs) agree = elim (last_about_cases gs (λ h m. agree h (inr m))) [
    | inl nothing ↦ elim (Bool-cases (is_about key g)) [
      | inl about ↦ inr (rw (nothing, about) (ap some (agree g (inl refl) about)))
      | inr apart ↦ inl (rw (nothing, apart) refl)
    ]
    | inr found ↦ inr (rw found refl)
  ]

  pub last_about_only :
      (gs : List Grant) (g : Grant)
      → Agree gs
      → In g gs
      → is_about key g ≡ true
      → last_about key gs ≡ some f
  unfolding last_about
  last_about_only [] g agree m about = absurd m
  last_about_only (h ∷ gs) g agree (inl same) about =
      elim (last_about_cases gs (λ h m. agree h (inr m))) [
        | inl nothing ↦
            let on : is_about key h ≡ true = rw same about in
            rw (nothing, on) (ap some (agree h (inl refl) on))
        | inr found ↦ rw found refl
      ]
  last_about_only (h ∷ gs) g agree (inr later) about =
      rw (last_about_only gs g (λ h m. agree h (inr m)) later about) refl

pub is_granted-last :
    (key : Text) (f : Flags) (ps qs : List Grant) (a : Action)
    → last_about key ps ≡ some f
    → is_granted ps qs key a ≡ flag f a
unfolding is_granted last_about
is_granted-last key f [] qs a e = ground (arith, e)
is_granted-last key f (p ∷ ps) qs a e = rw e refl
