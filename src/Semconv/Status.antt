-- ===== src/Semconv/Status.antt =====
-- pkg/inst-api-semconv/instrumenter/http/http_status_code_extractor.go: the span status that an
-- HTTP response calls for. `itoa` is strconv.Itoa.
use opentelemetry_go_auto_in.Base.{
  ◌≡◌, refl, Bool, true, false, not, ◌&&◌, ◌||◌, Option, none, some, List, [], ◌∷◌, arith,
  if◌then◌else◌, Str, codes,
}
use opentelemetry_go_auto_in.Base.Int.{ℤ, pos, negsuc, ltb_ℤ}
use opentelemetry_go_auto_in.Instrumenter.Internal.{
  Action, started, set_attributes, record_error, set_status_error, set_status_ok, other_status,
  ended, after_start, after_end, injected,
}
use opentelemetry_go_auto_in.Semconv.Attribute.{KeyValue, string_attr, error_type_key}

-- statusCode >= limit
abbrev pub at_least : ℤ → ℤ → Bool
at_least code limit = not (ltb_ℤ code limit)

-- What the classes of status codes call for, where errors begin at a limit.
abbrev pub status_by_class : ℤ → ℤ → List Bool
status_by_class limit code =
    if ltb_ℤ code (pos 100)
    then false ∷ []
    else if ltb_ℤ code (pos 200)
    then []
    else if ltb_ℤ code (pos 300)
    then true ∷ []
    else if ltb_ℤ code limit
    then []
    else false ∷ []

module _ (itoa : ℤ → Str) (Ctx Span Time Request Response Carrier : Type 0) where
  abbrev Log : Type 0
  Log = List (Action Ctx Span KeyValue Time Request Response Carrier)

  -- The two branches of an error, and the attribute behind them.
  unfoldable pub failed_status :
      Span → ℤ → Option Str → List (Action Ctx Span KeyValue Time Request Response Carrier)
  failed_status span code none =
      set_status_error span (codes "INVALID_HTTP_STATUS_CODE")
      ∷ set_attributes span (string_attr error_type_key (itoa code) ∷ [])
      ∷ []
  failed_status span code (some message) =
      record_error span message
      ∷ set_status_error span message
      ∷ set_attributes span (string_attr error_type_key (itoa code) ∷ [])
      ∷ []

  unfoldable pub http_client_status :
      Span → ℤ → Option Str → List (Action Ctx Span KeyValue Time Request Response Carrier)
  unfolding failed_status
  http_client_status span code error =
      if at_least code (pos 400) || ltb_ℤ code (pos 100)
      then failed_status span code error
      else if at_least code (pos 200) && ltb_ℤ code (pos 300)
      then set_status_ok span (codes "success") ∷ []
      else []

  unfoldable pub http_server_status :
      Span → ℤ → Option Str → List (Action Ctx Span KeyValue Time Request Response Carrier)
  unfolding failed_status
  http_server_status span code error =
      if at_least code (pos 500) || ltb_ℤ code (pos 100)
      then failed_status span code error
      else if at_least code (pos 200) && ltb_ℤ code (pos 300)
      then set_status_ok span (codes "success") ∷ []
      else []

  -- The statuses that a log sets, in order: true for Ok, false for Error.
  abbrev pub statuses : List (Action Ctx Span KeyValue Time Request Response Carrier) → List Bool
  statuses [] = []
  statuses (set_status_error span message ∷ log) = false ∷ statuses log
  statuses (set_status_ok span message ∷ log) = true ∷ statuses log
  statuses (started span name options ∷ log) = statuses log
  statuses (set_attributes span attrs ∷ log) = statuses log
  statuses (record_error span message ∷ log) = statuses log
  statuses (other_status span k ∷ log) = statuses log
  statuses (ended span options ∷ log) = statuses log
  statuses (after_start k ctx time ∷ log) = statuses log
  statuses (after_end k ctx attrs time ∷ log) = statuses log
  statuses (injected ctx carrier ∷ log) = statuses log

  statuses-failed_status :
      (span : Span) (code : ℤ) (error : Option Str)
      → statuses (failed_status span code error) ≡ false ∷ []
  unfolding failed_status
  statuses-failed_status span code none = refl
  statuses-failed_status span code (some message) = refl

  module _ (span : Span) (error : Option Str) where
    -- For any status code: a client's span gets the status Error once for a code below 100 or of
    -- at least 400, and Ok once for a code from 200 to 299; a server's span the same, but that a
    -- code from 400 to 499 is no error; for all other codes no status is set.
    pub http_status_classes :
        (code : ℤ)
        → (statuses (http_client_status span code error) ≡ status_by_class (pos 400) code)
          × (statuses (http_server_status span code error) ≡ status_by_class (pos 500) code)
    unfolding http_client_status http_server_status
    http_status_classes (pos n) = ground (arith, statuses-failed_status span (pos n) error)
    http_status_classes (negsuc n) = ground (arith, statuses-failed_status span (negsuc n) error)
