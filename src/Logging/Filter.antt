-- ===== src/Logging/Filter.antt =====
-- Which lines of src/logger/logger.service.ts and src/logger/http-logger.interceptor.ts come out, by
-- the setting `LOG_LEVEL`.
use rooeel_backend_api.Prelude.{
  ap, ◌∙◌, ◌&&◌, ℕ, zero, suc, ◌+◌, Bool, true, ◌||◌, not, Option, none, some, List, [], ◌∷◌, ◌++◌,
  if◌then◌else◌, leb, ◌≡◌, refl, arith, Option-cases, Bool-cases, inl, inr, length,
}
use rooeel_backend_api.Text.{Text, codes, text_eq, includes, is_empty, to_lower_case}
use rooeel_backend_api.Logging.{
  fresh_logger, all_levels, index_of, take, set_log_levels, one, new_logger, should_log, http,
  Moment, Line,
}
use rooeel_backend_api.Logging.Http.{
  request_message, response_message, status_of, intercept, http_logger, is_skipped, Request, Times,
  Ending,
}

includes-index_of :
    (ss : List Text) (t : Text) (j : ℕ) → index_of ss t ≡ some j → includes ss t ≡ true
unfolding includes index_of
includes-index_of [] t j e = ground (arith, e)
includes-index_of (s ∷ ss) t j e = elim (Option-cases (index_of ss t)) [
  | inl missing ↦ ground (arith, e, missing)
  | inr (i, found) ↦ ground (arith, e, found, includes-index_of ss t i found)
]

includes-take :
    (k : ℕ) (ss : List Text) (t : Text) (j : ℕ)
    → index_of ss t ≡ some j
    → includes (take (suc k) ss) t ≡ leb j k
unfolding includes take index_of
includes-take k [] t j e = ground (arith, e)
includes-take zero (s ∷ ss) t j e = elim (Option-cases (index_of ss t)) [
  | inl missing ↦ ground (arith, e, missing)
  | inr (i, found) ↦ ground (arith, e, found)
]
includes-take (suc k) (s ∷ ss) t j e = elim (Option-cases (index_of ss t)) [
  | inl missing ↦ ground (arith, e, missing)
  | inr (i, found) ↦ ground (arith, e, found, includes-take k ss t i found)
]

-- The rank of the last level that comes out, by the setting; `none` where all do.
abbrev pub last_rank : Option Text → Option ℕ
last_rank none = none
last_rank (some value) = index_of all_levels (to_lower_case value)

abbrev pub is_on : Option ℕ → ℕ → Bool
is_on none j = true
is_on (some k) j = leb j k

abbrev levels_to : Option ℕ → List Text
levels_to none = all_levels
levels_to (some k) = take (suc k) all_levels

nothing_named : index_of all_levels [] ≡ none
unfolding index_of all_levels text_eq
nothing_named = refl

set-levels :
    (t : Text)
    → (set_log_levels (one t) fresh_logger).log_levels ≡ levels_to (index_of all_levels t)
unfolding set_log_levels
set-levels t = elim (Option-cases (index_of all_levels t)) [
  | inl unknown ↦ rw (unknown, set_log_levels) refl
  | inr (k, known) ↦ rw (known, set_log_levels) refl
]

new_logger-levels :
    (setting : Option Text) → (new_logger setting).log_levels ≡ levels_to (last_rank setting)
unfolding new_logger
new_logger-levels none = refl
new_logger-levels (some value) = elim_empty (to_lower_case value)
  where
    elim_empty :
        (t : Text)
        → (if is_empty t then fresh_logger else set_log_levels (one t) fresh_logger).log_levels
          ≡ levels_to (index_of all_levels t)
    elim_empty [] = rw nothing_named refl
    elim_empty (c ∷ t) = set-levels (c ∷ t)

includes-levels_to :
    (o : Option ℕ) (level : Text) (j : ℕ)
    → index_of all_levels level ≡ some j
    → includes (levels_to o) level ≡ is_on o j
includes-levels_to none level j e = includes-index_of all_levels level j e
includes-levels_to (some k) level j e = includes-take k all_levels level j e

-- A new logger logs a level of the five exactly if it ranks no later, in their order, than the level
-- that `LOG_LEVEL` names in any case of letters; and it logs all five where that is not set or names
-- none of them.
should_log-new_logger :
    (setting : Option Text) (level : Text) (j : ℕ)
    → index_of all_levels level ≡ some j
    → should_log (new_logger setting) level ≡ is_on (last_rank setting) j
unfolding should_log
should_log-new_logger setting level j e =
    ap (λ ls. includes ls level) (new_logger-levels setting)
    ∙ includes-levels_to (last_rank setting) level j e

length-append : (xs ys : List Line) → length (xs ++ ys) ≡ length xs + length ys
length-append [] ys = omega arith
length-append (x ∷ xs) ys = ground (arith, length-append xs ys)

log_rank : index_of all_levels (codes "log") ≡ some 2
unfolding index_of all_levels text_eq
log_rank = refl

length-http :
    (setting : Option Text) (now : Moment) (message : Text) (context : Option Text)
    → length (http (http_logger setting) now message context)
      ≡ (if is_on (last_rank setting) 2 then 1 else 0)
unfolding http
length-http setting now message context =
    ground (arith, should_log-new_logger setting (codes "log") 2 log_rank)

-- Of a REST request the interceptor's logger writes two lines, one as it comes in and one when its
-- handler ends, by an answer or by an error; none for the path `/` or `/health`, none for a call of
-- another kind, and none where `LOG_LEVEL` names `error` or `warn`, in any case of letters.
length-intercept :
    (setting : Option Text) (is_http : Bool) (r : Request) (times : Times) (ending : Ending)
    → length (intercept (http_logger setting) is_http r times ending)
      ≡ (if is_http && not (is_skipped r.url) && is_on (last_rank setting) 2 then 2 else 0)
unfolding intercept
length-intercept setting is_http r times ending =
    elim (Bool-cases (not is_http || is_skipped r.url)) [
      | inl passed ↦ unfold is_skipped in ground arith
      | inr noted ↦
          rw (noted, intercept)
            (rw
              (length-append (http (http_logger setting) times.started_at (request_message r) none)
                _)
              (ground (
                arith,
                length-http setting times.started_at (request_message r) none,
                length-http setting times.ended_at
                    (response_message r (status_of ending) times.duration) none,
              )))
    ]
