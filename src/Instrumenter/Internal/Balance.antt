-- ===== src/Instrumenter/Internal/Balance.antt =====
-- Every span that an instrumenter opens in one call it closes in that call, and no other.
use opentelemetry_go_auto_in.Base.{
  ◌≡◌, refl, sym, ap, ◌∙◌, inl, inr, false, Option, none, some, List, [], ◌∷◌, ◌++◌, if◌then◌else◌,
  Bool-cases, length, All, Str,
}
use opentelemetry_go_auto_in.Instrumenter.Internal.{
  SpanOption, Action, started, set_attributes, record_error, set_status_error, set_status_ok,
  other_status, ended, after_start, after_end, injected, AttributesExtractor, OperationListener,
  InternalInstrumenter, is_disabled, do_start, do_end, start_and_end, after_starts, after_ends,
  report_error, end_attributes, start_attributes, customize, before_end, upstream_start_and_end,
}

module _ (Ctx Span Attr Time Request Response Carrier : Type 0) where
  abbrev Log : Type 0
  Log = List (Action Ctx Span Attr Time Request Response Carrier)

  -- The spans started, and the spans ended, in order.
  abbrev pub opens : List (Action Ctx Span Attr Time Request Response Carrier) → List Span
  opens [] = []
  opens (started span name options ∷ log) = span ∷ opens log
  opens (set_attributes span attrs ∷ log) = opens log
  opens (record_error span message ∷ log) = opens log
  opens (set_status_error span message ∷ log) = opens log
  opens (set_status_ok span message ∷ log) = opens log
  opens (other_status span k ∷ log) = opens log
  opens (ended span options ∷ log) = opens log
  opens (after_start k ctx time ∷ log) = opens log
  opens (after_end k ctx attrs time ∷ log) = opens log
  opens (injected ctx carrier ∷ log) = opens log

  abbrev pub closes : List (Action Ctx Span Attr Time Request Response Carrier) → List Span
  closes [] = []
  closes (ended span options ∷ log) = span ∷ closes log
  closes (started span name options ∷ log) = closes log
  closes (set_attributes span attrs ∷ log) = closes log
  closes (record_error span message ∷ log) = closes log
  closes (set_status_error span message ∷ log) = closes log
  closes (set_status_ok span message ∷ log) = closes log
  closes (other_status span k ∷ log) = closes log
  closes (after_start k ctx time ∷ log) = closes log
  closes (after_end k ctx attrs time ∷ log) = closes log
  closes (injected ctx carrier ∷ log) = closes log

  pub opens-append : (a b : Log) → opens (a ++ b) ≡ opens a ++ opens b
  opens-append [] b = refl
  opens-append (started span name options ∷ a) b = rw (opens-append a b)
  opens-append (set_attributes span attrs ∷ a) b = opens-append a b
  opens-append (record_error span message ∷ a) b = opens-append a b
  opens-append (set_status_error span message ∷ a) b = opens-append a b
  opens-append (set_status_ok span message ∷ a) b = opens-append a b
  opens-append (other_status span k ∷ a) b = opens-append a b
  opens-append (ended span options ∷ a) b = opens-append a b
  opens-append (after_start k ctx time ∷ a) b = opens-append a b
  opens-append (after_end k ctx attrs time ∷ a) b = opens-append a b
  opens-append (injected ctx carrier ∷ a) b = opens-append a b

  pub closes-append : (a b : Log) → closes (a ++ b) ≡ closes a ++ closes b
  closes-append [] b = refl
  closes-append (ended span options ∷ a) b = rw (closes-append a b)
  closes-append (started span name options ∷ a) b = closes-append a b
  closes-append (set_attributes span attrs ∷ a) b = closes-append a b
  closes-append (record_error span message ∷ a) b = closes-append a b
  closes-append (set_status_error span message ∷ a) b = closes-append a b
  closes-append (set_status_ok span message ∷ a) b = closes-append a b
  closes-append (other_status span k ∷ a) b = closes-append a b
  closes-append (after_start k ctx time ∷ a) b = closes-append a b
  closes-append (after_end k ctx attrs time ∷ a) b = closes-append a b
  closes-append (injected ctx carrier ∷ a) b = closes-append a b

  -- A log that starts and ends no span.
  abbrev pub IsQuiet : List (Action Ctx Span Attr Time Request Response Carrier) → Type 0
  IsQuiet log = (opens log ≡ []) × (closes log ≡ [])

  IsQuiet-append :
      (a b : Log) → IsQuiet a → (opens (a ++ b) ≡ opens b) × (closes (a ++ b) ≡ closes b)
  IsQuiet-append a b q = (rw (opens-append a b, q.0), rw (closes-append a b, q.1))

  IsQuiet-after_starts :
      (ls : List (OperationListener Ctx Span Attr Time Request Response Carrier)) (ctx : Ctx)
      (time : Time)
      → IsQuiet (after_starts Ctx Span Attr Time Request Response Carrier ls ctx time)
  unfolding after_starts
  IsQuiet-after_starts [] ctx time = (refl, refl)
  IsQuiet-after_starts (l ∷ ls) ctx time = IsQuiet-after_starts ls ctx time

  IsQuiet-after_ends :
      (ls : List (OperationListener Ctx Span Attr Time Request Response Carrier)) (ctx : Ctx)
      (attrs : List Attr) (time : Time)
      → IsQuiet (after_ends Ctx Span Attr Time Request Response Carrier ls ctx attrs time)
  unfolding after_ends
  IsQuiet-after_ends [] ctx attrs time = (refl, refl)
  IsQuiet-after_ends (l ∷ ls) ctx attrs time = IsQuiet-after_ends ls ctx attrs time

  IsQuiet-report_error :
      (span : Span) (error : Option Str)
      → IsQuiet (report_error Ctx Span Attr Time Request Response Carrier span error)
  unfolding report_error
  IsQuiet-report_error span none = (refl, refl)
  IsQuiet-report_error span (some message) = (refl, refl)

  module _ (span_from_context : Ctx → Span) where
    abbrev Instr : Type 0
    Instr = InternalInstrumenter Ctx Span Attr Time Request Response Carrier

    -- What is expected of the plugged-in parts: the tracer's context carries the span that it
    -- returns, and the extractors, customizers and listeners keep the current span of a context.
    pub record KeepsSpan (i : InternalInstrumenter Ctx Span Attr Time Request Response Carrier)
        : Type 0 where
      pub tracer_law :
          (ctx : Ctx) (name : Str) (options : List (SpanOption Time))
          → span_from_context (i.tracer ctx name options).0 ≡ (i.tracer ctx name options).1
      pub extractors_law :
          All
            (λ (x : AttributesExtractor Ctx Span Attr Time Request Response Carrier).
              (attrs : List Attr) (ctx : Ctx) (request : Request)
              → span_from_context (x.on_start attrs ctx request).1 ≡ span_from_context ctx)
            i.attributes_extractors
      pub customizers_law :
          All
            (λ (c : Ctx → Request → List Attr → Ctx).
              (ctx : Ctx) (request : Request) (attrs : List Attr)
              → span_from_context (c ctx request attrs) ≡ span_from_context ctx)
            i.context_customizers
      pub listeners_law :
          All
            (λ (l : OperationListener Ctx Span Attr Time Request Response Carrier).
              (ctx : Ctx) (attrs : List Attr) (time : Time)
              → span_from_context (l.on_before_end ctx attrs time) ≡ span_from_context ctx)
            i.operation_listeners

    -- The status extractor starts and ends no span.
    abbrev pub QuietStatus :
        InternalInstrumenter Ctx Span Attr Time Request Response Carrier → Type 0
    QuietStatus i =
        (span : Span) (request : Request) (response : Response) (error : Option Str)
        → IsQuiet (i.span_status span request response error)

    start_attributes-span :
        (xs : List (AttributesExtractor Ctx Span Attr Time Request Response Carrier))
        (attrs : List Attr) (ctx : Ctx) (request : Request)
        → All
            (λ (x : AttributesExtractor Ctx Span Attr Time Request Response Carrier).
              (attrs : List Attr) (ctx : Ctx) (request : Request)
              → span_from_context (x.on_start attrs ctx request).1 ≡ span_from_context ctx)
            xs
        → span_from_context
            (start_attributes Ctx Span Attr Time Request Response Carrier xs attrs ctx request).1
          ≡ span_from_context ctx
    unfolding start_attributes
    start_attributes-span [] attrs ctx request h = refl
    start_attributes-span (x ∷ xs) attrs ctx request h =
        start_attributes-span xs (x.on_start attrs ctx request).0 (x.on_start attrs ctx request).1
          request h.1
        ∙ h.0 attrs ctx request

    customize-span :
        (cs : List (Ctx → Request → List Attr → Ctx)) (ctx : Ctx) (request : Request)
        (attrs : List Attr)
        → All
            (λ (c : Ctx → Request → List Attr → Ctx).
              (ctx : Ctx) (request : Request) (attrs : List Attr)
              → span_from_context (c ctx request attrs) ≡ span_from_context ctx)
            cs
        → span_from_context
            (customize Ctx Span Attr Time Request Response Carrier cs ctx request attrs)
          ≡ span_from_context ctx
    unfolding customize
    customize-span [] ctx request attrs h = refl
    customize-span (c ∷ cs) ctx request attrs h =
        customize-span cs (c ctx request attrs) request attrs h.1 ∙ h.0 ctx request attrs

    before_end-span :
        (ls : List (OperationListener Ctx Span Attr Time Request Response Carrier)) (ctx : Ctx)
        (attrs : List Attr) (time : Time)
        → All
            (λ (l : OperationListener Ctx Span Attr Time Request Response Carrier).
              (ctx : Ctx) (attrs : List Attr) (time : Time)
              → span_from_context (l.on_before_end ctx attrs time) ≡ span_from_context ctx)
            ls
        → span_from_context
            (before_end Ctx Span Attr Time Request Response Carrier ls ctx attrs time)
          ≡ span_from_context ctx
    unfolding before_end
    before_end-span [] ctx attrs time h = refl
    before_end-span (l ∷ ls) ctx attrs time h =
        before_end-span ls (l.on_before_end ctx attrs time) attrs time h.1 ∙ h.0 ctx attrs time

    -- An enabled instrumenter opens one span, which the context that it returns carries.
    pub do_start-opens :
        (i : Instr) (parent : Ctx) (request : Request) (time : Time)
        (options : List (SpanOption Time))
        → KeepsSpan i
        → is_disabled Ctx Span Attr Time Request Response Carrier i ≡ false
        → let r =
            do_start Ctx Span Attr Time Request Response Carrier i parent request time options in
          (opens r.1 ≡ span_from_context r.0 ∷ []) × (closes r.1 ≡ [])
    unfolding do_start
    do_start-opens i parent request time options k e = rw e (
      ap (λ s. s ∷ [])
          (sym (
            before_end-span _ _ _ _ k.listeners_law
            ∙ customize-span _ _ _ _ k.customizers_law
            ∙ start_attributes-span _ _ _ _ k.extractors_law
            ∙ k.tracer_law _ _ _)),
      refl,
    )

    pub do_end-closes :
        (i : Instr) (ctx : Ctx) (request : Request) (response : Response) (error : Option Str)
        (time : Time) (options : List (SpanOption Time))
        → QuietStatus i
        → is_disabled Ctx Span Attr Time Request Response Carrier i ≡ false
        → let log =
            do_end Ctx Span Attr Time Request Response Carrier span_from_context i ctx request
              response error time options in
          (opens log ≡ []) × (closes log ≡ span_from_context ctx ∷ [])
    unfolding do_end
    do_end-closes i ctx request response error time options q e =
        let span = span_from_context ctx in
        let (attrs, ctx') =
          end_attributes Ctx Span Attr Time Request Response Carrier i.attributes_extractors [] ctx
            request response error in
        let q1 =
          IsQuiet-append
            (after_starts Ctx Span Attr Time Request Response Carrier i.operation_listeners ctx
              time)
            _ (IsQuiet-after_starts i.operation_listeners ctx time) in
        let q2 =
          IsQuiet-append (report_error Ctx Span Attr Time Request Response Carrier span error) _
            (IsQuiet-report_error span error) in
        let q3 =
          IsQuiet-append (i.span_status span request response error) _
            (q span request response error) in
        let q4 = IsQuiet-after_ends i.operation_listeners ctx' attrs time in
        rw e (q1.0 ∙ q2.0 ∙ q3.0 ∙ q4.0, q1.1 ∙ q2.1 ∙ q3.1 ∙ ap (λ s. span ∷ s) q4.1)

    module _ (i : InternalInstrumenter Ctx Span Attr Time Request Response Carrier) where
      -- For an instrumenter whose plugged-in parts keep the current span of a context and whose
      -- status extractor starts and ends no span, StartAndEnd ends exactly the spans that it
      -- starts: one span when enabled, none when disabled.
      pub start_and_end-balanced :
          (parent : Ctx) (request : Request) (response : Response) (error : Option Str)
          (start_time end_time : Time) (start_options end_options : List (SpanOption Time))
          → KeepsSpan i
          → QuietStatus i
          → let log =
              start_and_end Ctx Span Attr Time Request Response Carrier span_from_context i parent
                request response error start_time end_time start_options end_options in
            (opens log ≡ closes log)
            × (length (opens log)
                ≡ (if is_disabled Ctx Span Attr Time Request Response Carrier i then 0 else 1))
      unfolding start_and_end
      start_and_end-balanced parent request response error start_time end_time start_options
            end_options k q =
          elim (Bool-cases (is_disabled Ctx Span Attr Time Request Response Carrier i)) [
            | inl off ↦ unfold do_start do_end in rw off (refl, refl)
            | inr on ↦
                let (ctx, log) =
                  do_start Ctx Span Attr Time Request Response Carrier i parent request start_time
                    start_options in
                let s = do_start-opens i parent request start_time start_options k on in
                let e = do_end-closes i ctx request response error end_time end_options q on in
                let log' =
                  do_end Ctx Span Attr Time Request Response Carrier span_from_context i ctx request
                    response error end_time end_options in
                rw (opens-append log log', closes-append log log', s.0, s.1, e.0, e.1, on)
                  (refl, refl)
          ]

      -- When no carrier getter is set, an enabled PropagatingFromUpstreamInstrumenter's StartAndEnd
      -- starts no span and ends the span of the parent context.
      pub upstream_start_and_end_no_carrier :
          (extract : Ctx → Carrier → Ctx) (parent : Ctx) (request : Request) (response : Response)
          (error : Option Str) (start_time end_time : Time)
          (start_options end_options : List (SpanOption Time))
          → QuietStatus i
          → is_disabled Ctx Span Attr Time Request Response Carrier i ≡ false
          → let log =
              upstream_start_and_end Ctx Span Attr Time Request Response Carrier span_from_context
                extract none i parent request response error start_time end_time start_options
                end_options in
            (opens log ≡ []) × (closes log ≡ span_from_context parent ∷ [])
      unfolding upstream_start_and_end
      upstream_start_and_end_no_carrier extract parent request response error start_time end_time
            start_options end_options q on =
          do_end-closes i parent request response error end_time end_options q on
