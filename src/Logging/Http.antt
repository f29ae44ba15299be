-- ===== src/Logging/Http.antt =====
-- src/logger/http-logger.interceptor.ts: the two lines of a request.
use rooeel_backend_api.Prelude.{
  ℕ, Bool, ◌||◌, not, Option, none, List, [], ◌∷◌, ◌++◌, if◌then◌else◌, leb, truthy, or_else,
}
use rooeel_backend_api.Text.{Text, codes, text_eq}
use rooeel_backend_api.Logging.{
  Logger, new_logger, set_context, Moment, Line, http, decimal, red, yellow, cyan, green, white,
  reset,
}

unfoldable pub get_status_color : ℕ → Text
get_status_color status_code =
    if leb 500 status_code
    then red
    else if leb 400 status_code
    then yellow
    else if leb 300 status_code
    then cyan
    else if leb 200 status_code
    then green
    else white

pub record Request : Type 0 where
  pub method : Text
  pub url : Text
  pub ip : Text

-- How the handler ends: with the status of the response, or with an error, which may have one.
pub data Ending : Type 0 where
  answers : ℕ → Ending
  throws : Option ℕ → Ending

-- `error.status || 500`
abbrev pub status_of : Ending → ℕ
status_of (answers status_code) = status_code
status_of (throws status) = or_else (truthy status) 500

-- When the request came in and when the handler ended, and the milliseconds between.
pub record Times : Type 0 where
  pub duration : ℕ
  pub started_at : Moment
  pub ended_at : Moment

abbrev pub http_logger : Option Text → Logger
http_logger setting = set_context (codes "HTTP") (new_logger setting)

unfoldable pub is_skipped : Text → Bool
is_skipped url = text_eq url (codes "/") || text_eq url (codes "/health")

-- The arrows of the two messages.
abbrev pub rightwards : Text
rightwards = 0x2192 ∷ []

abbrev pub leftwards : Text
leftwards = 0x2190 ∷ []

abbrev pub request_message : Request → Text
request_message r =
    rightwards ++ (codes " " ++ (r.method ++ (codes " " ++ (r.url ++ (codes " from " ++ r.ip)))))

abbrev pub response_message : Request → ℕ → ℕ → Text
response_message r status_code duration =
    leftwards
    ++ (codes " "
        ++ (r.method
            ++ (codes " "
                ++ (r.url
                    ++ (codes " "
                        ++ (get_status_color status_code
                            ++ (decimal status_code
                                ++ (reset
                                    ++ (codes " - " ++ (decimal duration ++ codes "ms"))))))))))

-- What is written about a call of a handler, whose answer goes through as it is. `is_http` says
-- whether it is a request of the REST interface.
unfoldable pub intercept : Logger → Bool → Request → Times → Ending → List Line
unfolding is_skipped
intercept logger is_http r times ending =
    if not is_http || is_skipped r.url
    then []
    else http logger times.started_at (request_message r) none
      ++ http logger times.ended_at (response_message r (status_of ending) times.duration) none
