-- ===== src/Semconv/Shadow.antt =====
-- pkg/inst-api-semconv/instrumenter/utils/metrics_shadower.go: Shadow, which moves the attributes of
-- a metric to the front of a slice by swaps in place, and says how many they are.
use mathlib.Core.List.{Permᴰ, append_assoc, append-nil}
use mathlib.Core.List.Permᴰ
use opentelemetry_go_auto_in.Base.{
  ℕ, zero, suc, ◌≡◌, refl, sym, Bool, true, false, inl, inr, none, some, List, [], ◌∷◌, ◌++◌, arith,
  ◌==◌, if◌then◌else◌, length, get_elem?, any, Bool-cases, Outcome, ok, panicked, ◌>>=◌, Str,
  str_eq, length-append,
}
use opentelemetry_go_auto_in.Semconv.Attribute.{KeyValue}

-- `_, ok := metricsSemConv[k]`, of the keys of the map
abbrev pub is_metric_key : List Str → Str → Bool
is_metric_key conv k = any (λ c. str_eq c k) conv

-- attrs[i]: out of range it panics.
abbrev pub at : List KeyValue → ℕ → Outcome KeyValue
at attrs i = elim (get_elem? attrs i) [ none ↦ panicked | some a ↦ ok a ]

-- attrs[i] = a
abbrev pub set_at : List KeyValue → ℕ → KeyValue → Outcome (List KeyValue)
set_at [] i b = panicked
set_at (a ∷ rest) zero b = ok (b ∷ rest)
set_at (a ∷ rest) (suc i) b = set_at rest i b >>= λ rest'. ok (a ∷ rest')

unfoldable pub swap : List KeyValue → ℕ → ℕ → Outcome (List KeyValue)
swap attrs i j = do
  tmp ← at attrs i
  other ← at attrs j
  attrs' ← set_at attrs i other
  set_at attrs' j tmp

-- The loop from index `i` on, `todo` elements before the end of the slice.
unfoldable pub shadow_loop :
    List Str → (todo : ℕ) (i index : ℕ) → List KeyValue → Outcome (ℕ × List KeyValue)
shadow_loop conv zero i index attrs = ok (index, attrs)
shadow_loop conv (suc todo) i index attrs = do
  attr ← at attrs i
  let swapped = if index == i then ok attrs else swap attrs i index
  let counted = swapped >>= shadow_loop conv todo (suc i) (suc index)
  let skipped = shadow_loop conv todo (suc i) index attrs
  if is_metric_key conv attr.key then counted else skipped

unfoldable pub shadow : List KeyValue → List Str → Outcome (ℕ × List KeyValue)
shadow attrs conv = shadow_loop conv (length attrs) 0 0 attrs

-- The attributes of the metric, in order.
abbrev pub metric_attrs : List Str → List KeyValue → List KeyValue
metric_attrs conv [] = []
metric_attrs conv (a ∷ rest) =
    if is_metric_key conv a.key then a ∷ metric_attrs conv rest else metric_attrs conv rest

-- Reading, writing and swapping behind a prefix.
at-append : (xs ys : List KeyValue) (a : KeyValue) → at (xs ++ a ∷ ys) (length xs) ≡ ok a
at-append [] ys a = refl
at-append (x ∷ xs) ys a = at-append xs ys a

set_at-append :
    (xs ys : List KeyValue) (a b : KeyValue)
    → set_at (xs ++ a ∷ ys) (length xs) b ≡ ok (xs ++ b ∷ ys)
set_at-append [] ys a b = refl
set_at-append (x ∷ xs) ys a b = rw (set_at-append xs ys a b)

swap-append :
    (kept mid rest : List KeyValue) (s a : KeyValue)
    → swap ((kept ++ s ∷ mid) ++ a ∷ rest) (length (kept ++ s ∷ mid)) (length kept)
      ≡ ok ((kept ++ a ∷ mid) ++ s ∷ rest)
unfolding swap
swap-append kept mid rest s a = rw (
  at-append (kept ++ s ∷ mid) rest a,
  append_assoc kept (s ∷ mid) (a ∷ rest),
  at-append kept (mid ++ a ∷ rest) s,
  sym (append_assoc kept (s ∷ mid) (a ∷ rest)),
  set_at-append (kept ++ s ∷ mid) rest a s,
  append_assoc kept (s ∷ mid) (s ∷ rest),
  set_at-append kept (mid ++ s ∷ rest) s a,
  append_assoc kept (a ∷ mid) (s ∷ rest),
)

-- What Shadow makes of `all`: the attributes `front` and their number, and behind them the others.
abbrev Shadowed : List KeyValue → List KeyValue → Outcome (ℕ × List KeyValue) → Type 0
Shadowed front all r =
    (others : List KeyValue) × (r ≡ ok (length front, front ++ others))
    × Permᴰ all (front ++ others)

append-snoc :
    (xs ys : List KeyValue) (a : KeyValue) (zs : List KeyValue)
    → (xs ++ ys) ++ a ∷ zs ≡ (xs ++ (ys ++ a ∷ [])) ++ zs
append-snoc xs ys a zs = simp append_assoc

length-snoc :
    (xs ys : List KeyValue) (a : KeyValue) → suc (length (xs ++ ys)) ≡ length (xs ++ (ys ++ a ∷ []))
length-snoc xs ys a =
    omega (arith, length-append xs ys, length-append xs (ys ++ a ∷ []), length-append ys (a ∷ []))

length-end : (xs : List KeyValue) (a : KeyValue) → suc (length xs) ≡ length (xs ++ a ∷ [])
length-end xs a = omega (arith, length-append xs (a ∷ []))

append-end :
    (xs : List KeyValue) (a : KeyValue) (ys : List KeyValue) → xs ++ a ∷ ys ≡ (xs ++ a ∷ []) ++ ys
append-end xs a ys = simp append_assoc

length-append-ne :
    (xs ys : List KeyValue) (s : KeyValue) → (length xs == length (xs ++ s ∷ ys)) ≡ false
length-append-ne xs ys s = ground (arith, length-append xs (s ∷ ys))

length-append-nil : (xs : List KeyValue) → (length xs == length (xs ++ [])) ≡ true
length-append-nil xs = rw append-nil (ground arith)

Permᴰ-exchange :
    (mid rest : List KeyValue) (s a : KeyValue)
    → Permᴰ (s ∷ (mid ++ a ∷ rest)) (a ∷ (mid ++ s ∷ rest))
Permᴰ-exchange mid rest s a =
    Permᴰ.trans (Permᴰ.cons refl (Permᴰ.middle a mid rest))
      (Permᴰ.trans (Permᴰ.swap refl refl) (Permᴰ.cons refl (Permᴰ.symm (Permᴰ.middle s mid rest))))

-- Moving the next attribute of the metric to the front keeps the shape of the slice.
abbrev Moved : (kept skipped rest : List KeyValue) → KeyValue → Type 0
Moved kept skipped rest a =
    let all = (kept ++ skipped) ++ a ∷ rest in
    let here = length (kept ++ skipped) in
    (skipped' : List KeyValue) × ((if length kept == here
        then ok all
        else swap all here (length kept))
      ≡ ok (((kept ++ a ∷ []) ++ skipped') ++ rest))
    × (suc here ≡ length ((kept ++ a ∷ []) ++ skipped'))
    × Permᴰ all (((kept ++ a ∷ []) ++ skipped') ++ rest)

moved : (kept skipped rest : List KeyValue) (a : KeyValue) → Moved kept skipped rest a
moved kept [] rest a =
    let nil = append-nil kept in
    (
      [],
      rw (length-append-nil kept) (simp (nil, append_assoc)),
      rw (nil, append-nil (kept ++ a ∷ [])) (length-end kept a),
      rw (nil, append-nil (kept ++ a ∷ []), append_assoc kept (a ∷ []) rest) (Permᴰ.refl _),
    )
moved kept (s ∷ mid) rest a = (
  mid ++ s ∷ [],
  rw (length-append-ne kept mid s, swap-append kept mid rest s a) (simp append_assoc),
  rw (append_assoc kept (a ∷ []) (mid ++ s ∷ [])) (
      omega (
        arith,
        length-append kept (s ∷ mid),
        length-append kept (a ∷ (mid ++ s ∷ [])),
        length-append mid (s ∷ []),
      )),
  simp append_assoc (Permᴰ.append_left kept (Permᴰ-exchange mid rest s a)),
)

module _ (conv : List Str) where
  -- The loop, where `kept` has been moved to the front and `skipped` stands behind it.
  shadow_loop-append :
      (kept skipped rest : List KeyValue)
      → Shadowed (kept ++ metric_attrs conv rest) ((kept ++ skipped) ++ rest) (
          shadow_loop conv
            (length rest)
            (length (kept ++ skipped))
            (length kept)
            ((kept ++ skipped) ++ rest))
  unfolding shadow_loop
  shadow_loop-append kept skipped [] = rw (append-nil, append-nil) (skipped, refl, Permᴰ.refl _)
  shadow_loop-append kept skipped (a ∷ rest) =
      rw (at-append (kept ++ skipped) rest a) (elim (Bool-cases (is_metric_key conv a.key)) [
        | inl metric ↦
            let (skipped', e, l, d) = moved kept skipped rest a in
            let (others, r, d') = shadow_loop-append (kept ++ a ∷ []) skipped' rest in
            (
              others,
              rw (metric, e, l, length-end kept a)
                  (rw (append-end kept a (metric_attrs conv rest)) r),
              rw (metric, append-end kept a (metric_attrs conv rest)) (Permᴰ.trans d d'),
            )
        | inr other ↦
            rw (other, append-snoc kept skipped a rest, length-snoc kept skipped a)
              (shadow_loop-append kept (skipped ++ a ∷ []) rest)
      ])

  -- For any slice, Shadow neither reads nor writes out of range, and returns the number of the
  -- attributes of the metric and a permutation of the slice that begins with them, in their order.
  pub shadow-metric_attrs :
      (attrs : List KeyValue)
      → (others : List KeyValue) × (shadow attrs conv
          ≡ ok (length (metric_attrs conv attrs), metric_attrs conv attrs ++ others))
        × Permᴰ attrs (metric_attrs conv attrs ++ others)
  unfolding shadow
  shadow-metric_attrs attrs = shadow_loop-append [] [] attrs
