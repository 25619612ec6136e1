-- ===== src/Instrument/Optimize/Rounds.antt =====
-- What a round of optimizeTJumps makes of a fresh jump, as far as it can be told from outside.
use opentelemetry_go_auto_in.Base.{
  ◌≡◌, refl, Bool, true, false, not, ◌&&◌, Option, none, some, List, [], ◌∷◌, arith, if◌then◌else◌,
  Bool-cases, inl, inr, Outcome, ok, err, panicked, ◌>>=◌, NoPanic, NoPanic-bind, Str, str_eq,
}
use opentelemetry_go_auto_in.Resource.RuleDef.{InstFuncRule}
use opentelemetry_go_auto_in.Instrument.Body.{Jump, fresh_jump}
use opentelemetry_go_auto_in.Instrument.Body.Nesting.{Event, enter, exit, stmt, initial}
use opentelemetry_go_auto_in.Instrument.Optimize.{
  Edit, keep, drop, own_context, flatten_tjump, remove_decl, removed, remove_on_enter,
  flatten_unless_skip, optimize_jump,
}

-- A trampoline calls the hook of its rule, if the rule has one: these calls and the function's own
-- statements are what can be told apart from outside.
abbrev is_seen : Event → Bool
is_seen (enter r) = not (str_eq r.on_enter [])
is_seen (exit r) = not (str_eq r.on_exit [])
is_seen (stmt n) = true

abbrev pub seen : List Event → List Event
seen [] = []
seen (e ∷ es) = let rest = seen es in if is_seen e then e ∷ rest else rest

module _ (skip : InstFuncRule → Bool) where
  -- What a round for the jump of r leaves: the calls of the hook, and where the condition is
  -- skipped although the hook asks for it, nothing is.
  pub record IsOptimized (r : InstFuncRule) (e : Edit) (j : Jump) : Type 0 where
    pub calls : seen (initial r j.init_part) ≡ seen (enter r ∷ [])
    pub condition : (not j.never && skip r) ≡ skip r
    pub then_block : skip r ≡ true → j.returns ≡ true
    pub no_hook : e ≡ drop → str_eq r.on_exit [] ≡ true

  abbrev pub Optimized : InstFuncRule → Edit × Jump × List Str → Type 0
  Optimized r p = IsOptimized r p.0 p.1

  module _ (make_name : InstFuncRule → Str) (new_context : InstFuncRule → Outcome (Unit {0}))
      (mentions_skip_call : InstFuncRule → Outcome Bool)
      (honest : (r : InstFuncRule)
        → skip r ≡ true
        → (str_eq r.on_enter [] ≡ false) × (mentions_skip_call r ≡ ok true))
      (context_safe : (r : InstFuncRule) → NoPanic (λ u. Unit) (new_context r))
      (hook_safe : (r : InstFuncRule) → NoPanic (λ u. Unit) (mentions_skip_call r)) where
    removed_safe : (d : Option (List Str)) → NoPanic (λ ds. Unit) (removed d)
    removed_safe none = tt
    removed_safe (some ds) = tt

    -- Without an enter hook nothing skips.
    no_hook_no_skip : (r : InstFuncRule) → str_eq r.on_enter [] ≡ true → skip r ≡ false
    no_hook_no_skip r e = elim (Bool-cases (skip r)) [
      | inl s ↦ let (named, found) = honest r s in ground (arith, e, named)
      | inr s ↦ s
    ]

    without_enter :
        (r : InstFuncRule) (decls : List Str)
        → str_eq r.on_enter [] ≡ true
        → str_eq r.on_exit [] ≡ false
        → NoPanic (Optimized r) (
            remove_on_enter make_name new_context mentions_skip_call r
              (str_eq r.on_exit [])
              (record fresh_jump { labelled = false })
              decls
            >>= λ (j', decls'). ok (own_context, j', decls'))
    unfolding remove_on_enter
    without_enter r decls e h =
        let quiet = no_hook_no_skip r e in
        rw h (
          NoPanic-bind (λ (p : Jump × List Str). IsOptimized r own_context p.0) (Optimized r) _ _
            (NoPanic-bind _ _ (new_context r) _ (context_safe r) λ u v.
              NoPanic-bind _ _ (removed (remove_decl (make_name r) decls)) _ (removed_safe _)
                λ ds w. record {
                  calls = rw (e, seen);
                  condition = ground (arith, quiet);
                  then_block = λ q. ground (arith, q, quiet);
                  no_hook = λ q. cc;
                })
            λ p o. o)

    with_enter :
        (r : InstFuncRule) (decls : List Str)
        → str_eq r.on_enter [] ≡ false
        → (m : Outcome Bool) → mentions_skip_call r ≡ m
        → NoPanic (λ b. Unit) m
        → NoPanic (Optimized r) (
            m
            >>= (λ found_poison.
                if found_poison
                then ok (record fresh_jump { labelled = false })
                else flatten_tjump (str_eq r.on_exit []) (record fresh_jump { labelled = false }))
            >>= λ j'. ok ((if str_eq r.on_exit [] then drop else keep), j', decls))
    unfolding flatten_tjump
    with_enter r decls e (ok true) q u = record {
      calls = refl;
      condition = refl;
      then_block = λ s. refl;
      no_hook = λ d. ground (arith, d);
    }
    with_enter r decls e (ok false) q u =
        let quiet : skip r ≡ false = elim (Bool-cases (skip r)) [
          | inl s ↦ let (named, found) = honest r s in cc
          | inr s ↦ s
        ] in
        record {
          calls = ground arith;
          condition = ground (arith, quiet);
          then_block = λ s. ground (arith, s, quiet);
          no_hook = λ d. ground (arith, d);
        }
    with_enter r decls e (err c) q u = tt
    with_enter r decls e panicked q u = u

    pub optimize_jump-IsOptimized :
        (r : InstFuncRule) (decls : List Str)
        → (str_eq r.on_enter [] && str_eq r.on_exit []) ≡ false
        → NoPanic
            (Optimized r)
            (optimize_jump make_name new_context mentions_skip_call r fresh_jump decls)
    unfolding optimize_jump flatten_unless_skip
    optimize_jump-IsOptimized r decls h = elim (Bool-cases (str_eq r.on_enter [])) [
      | inl e ↦ rw e (without_enter r decls e (ground (arith, e, h)))
      | inr e ↦ rw e (with_enter r decls e (mentions_skip_call r) refl (hook_safe r))
    ]
