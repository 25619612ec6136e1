-- ===== src/TraceContext.antt =====
-- pkg/rules/otel-sdk/trace/otel_trace_context.go: the stack of open spans that a goroutine
-- carries, and its accessors in the goroutine-local storage (GLS). A span is the SDK's; what the
-- code reads of it are the two ids of its SpanContext. The wrappers form a list linked by `prev`
-- that only its traceContext points into, so it is a list with the newest span first. The runtime
-- hands a new goroutine what TakeSnapShot returns.
pub mod Stack
use opentelemetry_go_auto_in.Base.{
  ℕ, ◌+◌, ◌-◌, Bool, true, false, ◌&&◌, Option, none, some, List, [], ◌∷◌, ltb, leb, ◌==◌,
  if◌then◌else◌, Outcome, ok, err, panicked,
}

-- const maxSpans
abbrev pub max_spans : ℕ
max_spans = 300

module _ (Span : Type 0) (trace_id span_id : Span → ℕ) where
  pub record TraceContext : Type 0 where
    pub sw : List Span
    pub n : ℕ
    pub lcs : Option Span

  -- &traceContext{nil, 0, nil}
  abbrev pub new_context : TraceContext
  new_context = record { sw = []; n = 0; lcs = none }

  unfoldable pub size : TraceContext → ℕ
  size tc = tc.n

  unfoldable pub add : Span → TraceContext → TraceContext × Bool
  add span tc = if ltb 0 tc.n && leb max_spans tc.n then (tc, false) else (
    record { sw = span ∷ tc.sw; n = tc.n + 1; lcs = (if tc.n == 0 then some span else tc.lcs) },
    true,
  )

  -- tc.sw.span, a panic where the pointer is nil
  abbrev top : List Span → Outcome (Option Span)
  top [] = panicked
  top (span ∷ prev) = ok (some span)

  unfoldable pub tail : TraceContext → Outcome (Option Span)
  tail tc = if tc.n == 0 then ok none else top tc.sw

  unfoldable pub local_root_span : TraceContext → Option Span
  local_root_span tc = if tc.n == 0 then none else tc.lcs

  abbrev pub same_span : Span → Span → Bool
  same_span a b = trace_id a == trace_id b && span_id a == span_id b

  -- The loop of `del`: the list without its first span of those ids, and whether there was one.
  unfoldable pub unlink : Span → List Span → List Span × Bool
  unlink span [] = ([], false)
  unlink span (cur ∷ prev) =
      let (rest, found) = unlink span prev in
      if same_span cur span then (prev, true) else (cur ∷ rest, found)

  unfoldable pub del : Span → TraceContext → TraceContext
  unfolding unlink
  del span tc =
      if tc.n == 0
      then tc
      else let (sw, found) = unlink span tc.sw in
        record tc { sw = sw; n = (if found then tc.n - 1 else tc.n) }

  -- The trace context's part of `clear`; the caller resets the baggage.
  unfoldable pub clear : TraceContext → TraceContext
  clear tc = record tc { sw = []; n = 0 }

  abbrev snapshot_of : Outcome (Option Span) → Outcome TraceContext
  snapshot_of (ok (some span)) = ok (record { sw = span ∷ []; n = 1; lcs = none })
  snapshot_of (ok none) = panicked
  snapshot_of (err c) = err c
  snapshot_of panicked = panicked

  unfoldable pub take_snapshot : TraceContext → Outcome TraceContext
  unfolding tail
  take_snapshot tc = if tc.n == 0 then ok new_context else snapshot_of (tail tc)

  -- The goroutine-local storage, as far as this file uses it: the trace context, and whether a
  -- baggage container is set.
  pub record Gls : Type 0 where
    pub trace : Option TraceContext
    pub baggage : Bool

  unfoldable pub get_or_init_trace_context : Gls → TraceContext
  get_or_init_trace_context g = elim g.trace [ none ↦ new_context | some tc ↦ tc ]

  -- A context that is full is left as it is, and a line is printed.
  unfoldable pub trace_context_add_span : Span → Gls → Gls
  unfolding get_or_init_trace_context
  trace_context_add_span span g = record g {
    trace = some (add span (get_or_init_trace_context g)).0;
  }

  unfoldable pub trace_context_del_span : Span → Gls → Gls
  unfolding get_or_init_trace_context
  trace_context_del_span span g = record g { trace = some (del span (get_or_init_trace_context g)) }

  unfoldable pub clear_trace_context : Gls → Gls
  unfolding get_or_init_trace_context clear
  clear_trace_context g = record {
    trace = some (clear (get_or_init_trace_context g));
    baggage = false;
  }

  unfoldable pub span_from_gls : Gls → Outcome (Option Span)
  unfolding tail
  span_from_gls g = elim g.trace [ none ↦ ok none | some tc ↦ tail tc ]

  unfoldable pub local_root_span_from_gls : Gls → Option Span
  local_root_span_from_gls g = elim g.trace [ none ↦ none | some tc ↦ tc.lcs ]

  abbrev ids : Outcome (Option Span) → Outcome (Option (ℕ × ℕ))
  ids (ok none) = ok none
  ids (ok (some span)) = ok (some (trace_id span, span_id span))
  ids (err c) = err c
  ids panicked = panicked

  -- GetTraceAndSpanId; the pair of empty strings is `none`.
  unfoldable pub get_trace_and_span_id : Gls → Outcome (Option (ℕ × ℕ))
  unfolding tail
  get_trace_and_span_id g = elim g.trace [ none ↦ ok none | some tc ↦ ids (tail tc) ]

  -- What a goroutine does with its storage.
  pub data Event : Type 0 where
    start : Span → Event
    end : Span → Event
    wipe : Event

  unfoldable pub step : Event → Gls → Gls
  step (start span) g = trace_context_add_span span g
  step (end span) g = trace_context_del_span span g
  step wipe g = clear_trace_context g

  unfoldable pub run : List Event → Gls → Gls
  run [] g = g
  run (e ∷ es) g = run es (step e g)
