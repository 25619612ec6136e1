-- ===== src/Instrumenter/Suppressor.antt =====
-- pkg/inst-api/instrumenter/span_suppressor.go and span_suppression_strategy.go: whether a new span
-- is suppressed because its parent already stands for the same operation. Of the parent the code
-- reads one thing: the name of its instrumentation scope, if the span in the context is a
-- ReadOnlySpan of the SDK (`none` otherwise).
pub mod Decide
use opentelemetry_go_auto_in.Base.{
  Bool, true, false, not, ◌&&◌, Option, none, some, List, [], ◌∷◌, ◌++◌, if◌then◌else◌, any, Str,
  codes, str_eq,
}
use opentelemetry_go_auto_in.Base.Dict.{Dict, lookup}
use opentelemetry_go_auto_in.Instrumenter.Scopes.{
  SpanKind, unspecified, kind_eq, scope_key_table, kind_key_table,
}

-- scopeKey[name]; a missing key reads as "".
unfoldable pub scope_key : Str → Str
scope_key name = elim (lookup name scope_key_table) [ none ↦ [] | some key ↦ key ]

-- kindKey[name]; a missing key reads as SpanKindUnspecified.
unfoldable pub kind_key : Str → SpanKind
kind_key name = elim (lookup name kind_key_table) [ none ↦ unspecified | some kind ↦ kind ]

pub data SpanSuppressor : Type 0 where
  noop : SpanSuppressor
  by_key : List Str → SpanSuppressor
  by_kind : SpanSuppressor

-- SpanKeySuppressor.ShouldSuppress
unfoldable pub key_should_suppress : List Str → Option Str → Bool
key_should_suppress [] parent = true
key_should_suppress (span_key ∷ keys) none = false
key_should_suppress (span_key ∷ keys) (some name) =
    let rest = key_should_suppress keys (some name) in
    if not (str_eq name []) && not (str_eq span_key (scope_key name)) then false else rest

-- SpanKindSuppressor.ShouldSuppress
unfoldable pub kind_should_suppress : SpanKind → Option Str → Bool
kind_should_suppress kind none = false
kind_should_suppress kind (some name) =
    if not (str_eq name []) && not (kind_eq kind (kind_key name)) then false else true

unfoldable pub should_suppress : SpanSuppressor → Option Str → SpanKind → Bool
unfolding key_should_suppress kind_should_suppress
should_suppress noop parent kind = false
should_suppress (by_key keys) parent kind = key_should_suppress keys parent
should_suppress by_kind parent kind = kind_should_suppress kind parent

pub data Strategy : Type 0 where
  sem_conv none_strategy span_kind : Strategy

-- getSpanSuppressionStrategyFromEnv, of the value of the environment variable
unfoldable pub strategy_from_env : Str → Strategy
strategy_from_env value =
    if str_eq value (codes "none")
    then none_strategy
    else if str_eq value (codes "span-kind")
    then span_kind
    else sem_conv

-- create
unfoldable pub create : Strategy → List Str → SpanSuppressor
create sem_conv [] = noop
create sem_conv (key ∷ keys) = by_key (key ∷ keys)
create none_strategy keys = noop
create span_kind keys = by_kind

-- The keys of the map `kvs` in buildSpanSuppressor: each span key that an extractor provides, once.
unfoldable pub distinct_keys : List Str → List (Option Str) → List Str
distinct_keys seen [] = seen
distinct_keys seen (none ∷ extractors) = distinct_keys seen extractors
distinct_keys seen (some key ∷ extractors) =
    distinct_keys (if any (λ k. str_eq k key) seen then seen else seen ++ key ∷ []) extractors

-- Builder.buildSpanSuppressor, of the span keys of its extractors (`none`: no SpanKeyProvider)
unfoldable pub build_span_suppressor : Str → List (Option Str) → SpanSuppressor
unfolding strategy_from_env create distinct_keys
build_span_suppressor env extractors = create (strategy_from_env env) (distinct_keys [] extractors)
