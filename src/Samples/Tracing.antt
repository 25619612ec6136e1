-- ===== src/Samples/Tracing.antt =====
-- The theorems on trace contexts and instrumenters at concrete spans.
use opentelemetry_go_auto_in.Base.{
  ℕ, ◌≤◌, ◌≡◌, refl, ◌↔◌, true, false, none, some, List, [], ◌∷◌, arith, if◌then◌else◌, length, ok,
  Str, codes, str_eq,
}
use opentelemetry_go_auto_in.TraceContext.{
  TraceContext, get_or_init_trace_context, tail, take_snapshot, Gls, Event, start, end, wipe, run,
  span_from_gls,
}
use opentelemetry_go_auto_in.TraceContext.Stack.{
  IsStack, IsSane, run-IsSane, take_snapshot-tail, Nested, Nested-span_from_gls,
}
use opentelemetry_go_auto_in.Instrumenter.Scopes.{
  client, http_client_key, net_http_client_scope_name,
}
use opentelemetry_go_auto_in.Instrumenter.Suppressor.{
  noop, strategy_from_env, scope_key, should_suppress, distinct_keys, build_span_suppressor,
}
use opentelemetry_go_auto_in.Instrumenter.Suppressor.Decide.{build_span_suppressor_iff}
use opentelemetry_go_auto_in.Instrumenter.Internal.{
  SpanOption, InternalInstrumenter, default_span_status, is_disabled, start_and_end,
}
use opentelemetry_go_auto_in.Instrumenter.Internal.Balance.{
  opens, closes, QuietStatus, start_and_end-balanced,
}
use opentelemetry_go_auto_in.Instrumenter.Builder.{Builder}

-- Spans are numbers: all of one trace, with the number as the span's id.
abbrev trace_of : ℕ → ℕ
trace_of s = 1

abbrev id_of : ℕ → ℕ
id_of s = s

abbrev fresh : Gls ℕ trace_of id_of
fresh = record { trace = none; baggage = false }

abbrev two_deep : List (Event ℕ trace_of id_of)
two_deep = start 7 ∷ start 8 ∷ end 8 ∷ end 7 ∷ []

run-IsSane_example :
    IsSane ℕ trace_of id_of (run ℕ trace_of id_of (start 7 ∷ end 9 ∷ wipe ∷ start 8 ∷ []) fresh)
run-IsSane_example =
    run-IsSane ℕ trace_of id_of (start 7 ∷ end 9 ∷ wipe ∷ start 8 ∷ []) fresh
      (unfold get_or_init_trace_context in record { counted = refl; bounded = omega arith })

abbrev open_two : TraceContext ℕ trace_of id_of
open_two = record { sw = 8 ∷ 7 ∷ []; n = 2; lcs = some 7 }

take_snapshot-tail_example :
    (copy : TraceContext ℕ trace_of id_of) × (take_snapshot ℕ trace_of id_of open_two ≡ ok copy)
    × (IsStack ℕ trace_of id_of copy × (copy.n ≤ 1))
    × (tail ℕ trace_of id_of copy ≡ tail ℕ trace_of id_of open_two)
take_snapshot-tail_example =
    take_snapshot-tail ℕ trace_of id_of open_two (record { counted = refl; bounded = omega arith })

two_deep-Nested : Nested ℕ trace_of id_of 2 two_deep
two_deep-Nested = Nested.span 7 (Nested.span 8 Nested.flat Nested.flat) Nested.flat

Nested-span_from_gls_example :
    span_from_gls ℕ trace_of id_of (run ℕ trace_of id_of two_deep fresh)
    ≡ span_from_gls ℕ trace_of id_of fresh
Nested-span_from_gls_example =
    Nested-span_from_gls ℕ trace_of id_of fresh two_deep-Nested
      (unfold get_or_init_trace_context in omega arith)

build_span_suppressor_iff_example :
    (should_suppress
        (build_span_suppressor [] (some http_client_key ∷ none ∷ []))
        (some net_http_client_scope_name)
        client
      ≡ true)
    ↔ (distinct_keys [] (some http_client_key ∷ none ∷ [])
        ≡ scope_key net_http_client_scope_name ∷ [])
build_span_suppressor_iff_example =
    build_span_suppressor_iff [] (some http_client_key ∷ none ∷ []) net_http_client_scope_name
      client (unfold strategy_from_env str_eq in refl) (λ e. cc)

-- A context is the number of its span; the tracer opens span 5 below any context.
abbrev instrumenter : InternalInstrumenter ℕ ℕ ℕ ℕ ℕ ℕ ℕ
instrumenter = record {
  enabler = some true;
  span_name = λ request. codes "GET";
  span_kind = λ request. client;
  span_status = default_span_status ℕ ℕ ℕ ℕ ℕ ℕ ℕ;
  attributes_extractors = [];
  operation_listeners = [];
  context_customizers = [];
  span_suppressor = noop;
  tracer = λ ctx name options. (5, 5);
}

quiet : QuietStatus ℕ ℕ ℕ ℕ ℕ ℕ ℕ (λ ctx. ctx) instrumenter
unfolding default_span_status
quiet span request response error = ground arith

start_and_end-balanced_example :
    let log =
      start_and_end ℕ ℕ ℕ ℕ ℕ ℕ ℕ (λ ctx. ctx) instrumenter 1 2 3 (some (codes "boom")) 4 5 [] [] in
    (opens ℕ ℕ ℕ ℕ ℕ ℕ ℕ log ≡ closes ℕ ℕ ℕ ℕ ℕ ℕ ℕ log)
    × (length (opens ℕ ℕ ℕ ℕ ℕ ℕ ℕ log) ≡ (if is_disabled ℕ ℕ ℕ ℕ ℕ ℕ ℕ instrumenter then 0 else 1))
start_and_end-balanced_example =
    start_and_end-balanced ℕ ℕ ℕ ℕ ℕ ℕ ℕ (λ ctx. ctx) instrumenter 1 2 3 (some (codes "boom")) 4 5
      [] []
      (record {
        tracer_law = λ ctx name options. refl;
        extractors_law = tt;
        customizers_law = tt;
        listeners_law = tt;
      })
      quiet

abbrev builder : Builder ℕ ℕ ℕ ℕ ℕ ℕ ℕ
builder = record {
  enabler = some true;
  span_name = λ request. codes "GET";
  span_kind = λ request. client;
  span_status = default_span_status ℕ ℕ ℕ ℕ ℕ ℕ ℕ;
  attributes_extractors = [];
  operation_listeners = [];
  context_customizers = [];
}

abbrev marking : ℕ → ℕ → List ℕ → ℕ
marking ctx request attrs = ctx

abbrev tracer : ℕ → Str → List (SpanOption ℕ) → ℕ × ℕ
tracer ctx name options = (5, 5)
