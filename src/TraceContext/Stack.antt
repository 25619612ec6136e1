-- ===== src/TraceContext/Stack.antt =====
-- The context is a bounded stack of spans: its counter is exact, it never panics, and nested spans
-- leave it as it was.
use opentelemetry_go_auto_in.Base.{
  ℕ, suc, ◌+◌, ◌≤◌, ◌<◌, ◌≡◌, refl, sym, ◌∙◌, Option, none, some, List, [], ◌∷◌, ◌++◌, arith, ◌==◌,
  if◌then◌else◌, length, ok,
}
use opentelemetry_go_auto_in.TraceContext.{
  TraceContext, max_spans, new_context, add, tail, top, del, unlink, clear, take_snapshot, Gls,
  get_or_init_trace_context, trace_context_add_span, trace_context_del_span, clear_trace_context,
  span_from_gls, local_root_span_from_gls, Event, start, end, wipe, step, run,
}

module _ (Span : Type 0) (trace_id span_id : Span → ℕ) where
  abbrev Context : Type 0
  Context = TraceContext Span trace_id span_id

  pub record IsStack (tc : TraceContext Span trace_id span_id) : Type 0 where
    pub counted : tc.n ≡ length tc.sw
    pub bounded : tc.n ≤ max_spans

  abbrev pub IsSane : Gls Span trace_id span_id → Type 0
  IsSane g = IsStack (get_or_init_trace_context Span trace_id span_id g)

  length-unlink :
      (s : Span) (sw : List Span)
      → length (unlink Span trace_id span_id s sw).0
          + (if (unlink Span trace_id span_id s sw).1 then 1 else 0)
        ≡ length sw
  unfolding unlink
  length-unlink s [] = omega arith
  length-unlink s (cur ∷ prev) = ground (arith, length-unlink s prev)

  add-IsStack : (s : Span) (tc : Context) → IsStack tc → IsStack (add Span trace_id span_id s tc).0
  unfolding add
  add-IsStack s tc h = ground arith

  del-IsStack : (s : Span) (tc : Context) → IsStack tc → IsStack (del Span trace_id span_id s tc)
  unfolding del
  del-IsStack s tc h = ground (arith, length-unlink s tc.sw)

  step-IsSane :
      (e : Event Span trace_id span_id) (g : Gls Span trace_id span_id)
      → IsSane g
      → IsSane (step Span trace_id span_id e g)
  unfolding step trace_context_add_span trace_context_del_span clear_trace_context clear
  step-IsSane (start s) g h = add-IsStack s (get_or_init_trace_context Span trace_id span_id g) h
  step-IsSane (end s) g h = del-IsStack s (get_or_init_trace_context Span trace_id span_id g) h
  step-IsSane wipe g h = ground arith

  -- From a storage whose context counts its spans and holds at most 300, any sequence of span
  -- starts, span ends and clears leads to such a storage.
  pub run-IsSane :
      (es : List (Event Span trace_id span_id)) (g : Gls Span trace_id span_id)
      → IsSane g
      → IsSane (run Span trace_id span_id es g)
  unfolding run
  run-IsSane [] g h = h
  run-IsSane (e ∷ es) g h = run-IsSane es (step Span trace_id span_id e g) (step-IsSane e g h)

  abbrev newest : List Span → Option Span
  newest [] = none
  newest (s ∷ prev) = some s

  newest_of :
      (sw : List Span) (n : ℕ)
      → n ≡ length sw
      → (if n == 0 then ok none else top Span trace_id span_id sw) ≡ ok (newest sw)
  newest_of [] n h = ground arith
  newest_of (s ∷ prev) n h = ground arith

  tail-newest : (tc : Context) → IsStack tc → tail Span trace_id span_id tc ≡ ok (newest tc.sw)
  unfolding tail
  tail-newest tc h = newest_of tc.sw tc.n h.counted

  span_from_gls-tail :
      (g : Gls Span trace_id span_id)
      → span_from_gls Span trace_id span_id g
        ≡ tail Span trace_id span_id (get_or_init_trace_context Span trace_id span_id g)
  unfolding span_from_gls get_or_init_trace_context
  span_from_gls-tail g = ground arith

  snapshot-tail :
      (sw : List Span) (n : ℕ) (lcs : Option Span)
      → IsStack (record { sw = sw; n = n; lcs = lcs })
      → (copy : TraceContext Span trace_id span_id) × (take_snapshot Span trace_id span_id
            (record { sw = sw; n = n; lcs = lcs })
          ≡ ok copy)
        × (IsStack copy × (copy.n ≤ 1))
        × (tail Span trace_id span_id copy
            ≡ tail Span trace_id span_id (record { sw = sw; n = n; lcs = lcs }))
  unfolding take_snapshot
  snapshot-tail [] n lcs h = (
    new_context Span trace_id span_id,
    ground arith,
    (record { counted = refl; bounded = omega arith }, omega arith),
    ground arith,
  )
  snapshot-tail (s ∷ prev) n lcs h = (
    record { sw = s ∷ []; n = 1; lcs = none },
    ground arith,
    (record { counted = refl; bounded = omega arith }, omega arith),
    ground arith,
  )

  -- A goroutine whose storage is sane has a snapshot to hand to a goroutine that it starts: the
  -- copy is sane, has at most one span, and its newest span is that of the original. No nil
  -- wrapper is read.
  pub take_snapshot-tail :
      (tc : TraceContext Span trace_id span_id)
      → IsStack tc
      → (copy : TraceContext Span trace_id span_id) × (take_snapshot Span trace_id span_id tc
          ≡ ok copy)
        × (IsStack copy × (copy.n ≤ 1))
        × (tail Span trace_id span_id copy ≡ tail Span trace_id span_id tc)
  take_snapshot-tail tc h = snapshot-tail tc.sw tc.n tc.lcs h

  -- Spans that are opened and closed in a nested way, at most d deep.
  pub data Nested : ℕ → List (Event Span trace_id span_id) → Type 0 where
    flat : {d : ℕ} → Nested d []
    span :
        {d : ℕ} (s : Span) {inner rest : List (Event Span trace_id span_id)}
        → Nested d inner
        → Nested (suc d) rest
        → Nested (suc d) (start s ∷ (inner ++ (end s ∷ rest)))

  run-append :
      (xs ys : List (Event Span trace_id span_id)) (g : Gls Span trace_id span_id)
      → run Span trace_id span_id (xs ++ ys) g
        ≡ run Span trace_id span_id ys (run Span trace_id span_id xs g)
  unfolding run
  run-append [] ys g = refl
  run-append (x ∷ xs) ys g = run-append xs ys (step Span trace_id span_id x g)

  -- The two contexts have the same open spans.
  pub record SameSpans (a b : TraceContext Span trace_id span_id) : Type 0 where
    pub spans : a.sw ≡ b.sw
    pub number : a.n ≡ b.n

  abbrev pub at : Gls Span trace_id span_id → Context
  at g = get_or_init_trace_context Span trace_id span_id g

  -- Opening a span where there is room pushes it.
  push :
      (s : Span) (g : Gls Span trace_id span_id)
      → (at g).n < max_spans
      → ((at (step Span trace_id span_id (start s) g)).sw ≡ s ∷ (at g).sw)
        × ((at (step Span trace_id span_id (start s) g)).n ≡ (at g).n + 1)
  unfolding step trace_context_add_span add
  push s g h = ground arith

  -- Closing the newest span pops it.
  pop :
      (s : Span) (sw : List Span) (n : ℕ) (g : Gls Span trace_id span_id)
      → (at g).sw ≡ s ∷ sw
      → (at g).n ≡ n + 1
      → ((at (step Span trace_id span_id (end s) g)).sw ≡ sw)
        × ((at (step Span trace_id span_id (end s) g)).n ≡ n)
  unfolding step trace_context_del_span del
  pop s sw n g h k = ground arith

  -- Events that are nested at most d deep leave the open spans as they were, if there is room for
  -- d more.
  pub Nested-SameSpans :
      {d : ℕ} {es : List (Event Span trace_id span_id)} (g : Gls Span trace_id span_id)
      → Nested d es
      → (at g).n + d ≤ max_spans
      → SameSpans (at (run Span trace_id span_id es g)) (at g)
  unfolding run
  Nested-SameSpans g flat h = record { spans = refl; number = refl }
  Nested-SameSpans g (span {d} s {inner} {rest} i r) h =
      let g1 = step Span trace_id span_id (start s) g in
      let pushed = push s g (omega arith) in
      let same = Nested-SameSpans g1 i (omega arith) in
      let g2 = run Span trace_id span_id inner g1 in
      let popped = pop s (at g).sw (at g).n g2 (same.spans ∙ pushed.0) (same.number ∙ pushed.1) in
      let g3 = step Span trace_id span_id (end s) g2 in
      let after = Nested-SameSpans g3 r (omega arith) in
      rw (run-append inner (end s ∷ rest) g1)
        (record { spans = after.spans ∙ popped.0; number = after.number ∙ popped.1 })

  -- Events that are nested at most d deep leave the current span of the goroutine as it was, if
  -- there is room for d more.
  pub Nested-span_from_gls :
      {d : ℕ} {es : List (Event Span trace_id span_id)} (g : Gls Span trace_id span_id)
      → Nested d es
      → (at g).n + d ≤ max_spans
      → span_from_gls Span trace_id span_id (run Span trace_id span_id es g)
        ≡ span_from_gls Span trace_id span_id g
  Nested-span_from_gls {d} {es} g i h =
      let same = Nested-SameSpans g i h in
      span_from_gls-tail (run Span trace_id span_id es g)
      ∙ tail-same _ _ same
      ∙ sym (span_from_gls-tail g)
    where
      tail-same :
          (a b : Context)
          → SameSpans a b
          → tail Span trace_id span_id a ≡ tail Span trace_id span_id b
      tail-same a b e = unfold tail in ground (arith, e.spans, e.number)

  -- After a goroutine with no open span opens and closes one, it has no current span, and
  -- LocalRootSpanFromGLS still returns the closed span.
  pub local_root_outlives :
      (s : Span) (g : Gls Span trace_id span_id)
      → (at g).n ≡ 0
      → let g' = run Span trace_id span_id (start s ∷ end s ∷ []) g in
        (span_from_gls Span trace_id span_id g' ≡ ok none)
        × (local_root_span_from_gls Span trace_id span_id g' ≡ some s)
  unfolding run step trace_context_add_span trace_context_del_span add del tail span_from_gls
      local_root_span_from_gls
  local_root_outlives s g h = (ground arith, ground arith)
