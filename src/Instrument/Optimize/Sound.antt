-- ===== src/Instrument/Optimize/Sound.antt =====
-- The optimised body calls the hooks in the same order as the body it was made from.
use opentelemetry_go_auto_in.Base.{
  ℕ, ◌≡◌, refl, sym, ap, ◌∙◌, Bool, true, false, not, ◌&&◌, Option, List, [], ◌∷◌, ◌++◌, map, arith,
  if◌then◌else◌, Bool-cases, inl, inr, Outcome, ok, ◌>>=◌, NoPanic, NoPanic-bind, NoPanic-weaken,
  all, Str, str_eq,
}
use opentelemetry_go_auto_in.Resource.RuleDef.{InstFuncRule}
use opentelemetry_go_auto_in.Instrument.Order.{sort_func_rules}
use opentelemetry_go_auto_in.Instrument.Body.{
  Jump, Stmt, Block, plain, empty, defer_exit, jump, nil, cons, fresh_jump, plain_block,
  apply_func_rules,
}
use opentelemetry_go_auto_in.Instrument.Body.Nesting.{
  is_ready, tower, built, call-built, all-sort_func_rules, apply_func_rules-built, around, Event,
  enter, exit, stmt, unwind, initial, exec, exec_stmt, call,
}
use opentelemetry_go_auto_in.Instrument.Optimize.{
  Edit, keep, drop, own_context, optimize_jump, optimize_block, optimize_stmt,
}
use opentelemetry_go_auto_in.Instrument.Optimize.Rounds.{
  seen, IsOptimized, Optimized, optimize_jump-IsOptimized,
}

seen-append : (xs ys : List Event) → seen (xs ++ ys) ≡ seen xs ++ seen ys
seen-append [] ys = refl
seen-append (x ∷ xs) ys = ground (arith, seen-append xs ys)

module _ (skip : InstFuncRule → Bool) (make_name : InstFuncRule → Str)
    (new_context : InstFuncRule → Outcome (Unit {0}))
    (mentions_skip_call : InstFuncRule → Outcome Bool) where
  abbrev Cont : Type 0
  Cont = List InstFuncRule → List Event

  abbrev SameSeen : List InstFuncRule → List InstFuncRule → Type 0
  SameSeen ds ds' = seen (unwind ds') ≡ seen (unwind ds)

  -- What follows behaves alike wherever the deferred hooks are the same.
  abbrev Agree : Cont → Cont → Type 0
  Agree k k' = (ds ds' : List InstFuncRule) → SameSeen ds ds' → seen (k' ds') ≡ seen (k ds)

  abbrev Same : Block → Block → Type 0
  Same b b' = (k k' : Cont) → Agree k k' → Agree (exec skip b k) (exec skip b' k')

  abbrev SameStmt : Stmt → Stmt → Type 0
  SameStmt s s' = (k k' : Cont) → Agree k k' → Agree (exec_stmt skip s k) (exec_stmt skip s' k')

  -- The jumps are as insertTJump makes them: their else blocks begin with the deferred call of
  -- their own exit trampoline.
  unfoldable mutual
    pub HasFreshJumps : Block → Type 0
    HasFreshJumps nil = Unit
    HasFreshJumps (cons s b) = IsFresh s × HasFreshJumps b

    pub IsFresh : Stmt → Type 0
    IsFresh (jump r j (cons (defer_exit r' c) b)) =
        (j ≡ fresh_jump)
        × (r' ≡ r)
        × ((str_eq r.on_enter [] && str_eq r.on_exit []) ≡ false)
        × HasFreshJumps b
    IsFresh (jump r j b) = ⊥
    IsFresh s = Unit

  module _
      (honest : (r : InstFuncRule)
        → skip r ≡ true
        → (str_eq r.on_enter [] ≡ false) × (mentions_skip_call r ≡ ok true))
      (context_safe : (r : InstFuncRule) → NoPanic (λ u. Unit) (new_context r))
      (hook_safe : (r : InstFuncRule) → NoPanic (λ u. Unit) (mentions_skip_call r)) where
    abbrev optimized_block : Edit → Block → List Str → Outcome (Block × List Str)
    optimized_block = optimize_block make_name new_context mentions_skip_call

    abbrev IsSameBlock : Block → Block × List Str → Type 0
    IsSameBlock b p = Same b p.0

    -- An else block, of the block behind its deferred call.
    else_block-Same :
        (e : Edit) (r : InstFuncRule) (c : Bool) (b : Block) (decls : List Str)
        → (e ≡ drop → str_eq r.on_exit [] ≡ true)
        → NoPanic (IsSameBlock b) (optimized_block keep b decls)
        → NoPanic
            (IsSameBlock (cons (defer_exit r c) b))
            (optimized_block e (cons (defer_exit r c) b) decls)
    unfolding optimize_block exec
    else_block-Same keep r c b decls h inner =
        NoPanic-bind _ _ (optimized_block keep b decls) _ inner
          λ p same. λ k k' a ds ds' q. same k k' a (r ∷ ds) (r ∷ ds') (ground (arith, q))
    else_block-Same own_context r c b decls h inner =
        NoPanic-bind _ _ (optimized_block keep b decls) _ inner
          λ p same. λ k k' a ds ds' q. same k k' a (r ∷ ds) (r ∷ ds') (ground (arith, q))
    else_block-Same drop r c b decls h inner =
        NoPanic-bind _ _ (optimized_block keep b decls) _ inner
          λ p same. λ k k' a ds ds' q. same k k' a (r ∷ ds) ds' (ground (arith, q, h refl))

    jump-SameStmt :
        (r : InstFuncRule) (e : Edit) (j : Jump) (els els' : Block)
        → IsOptimized skip r e j
        → Same els els'
        → SameStmt (jump r fresh_jump els) (jump r j els')
    unfolding exec
    jump-SameStmt r e j els els' o same k k' a ds ds' q =
        let before =
          if not fresh_jump.never && skip r then exit r ∷ unwind ds else exec skip els k ds in
        let taken = if j.returns then exit r ∷ unwind ds' else k' ds' in
        let after = if not j.never && skip r then taken else exec skip els' k' ds' in
        let alike : seen after ≡ seen before = rw o.condition (elim (Bool-cases (skip r)) [
          | inl s ↦ rw (s, o.then_block s) (ground (arith, q))
          | inr s ↦ rw s (same k k' a ds ds' q)
        ]) in
        seen-append (initial r j.init_part) after
        ∙ ap (λ es. es ++ seen after) o.calls
        ∙ ap (λ es. seen (enter r ∷ []) ++ es) alike
        ∙ sym (seen-append (enter r ∷ []) before)

    optimize_stmt_jump :
        (r : InstFuncRule) (j : Jump) (els : Block) (decls : List Str)
        → optimize_stmt make_name new_context mentions_skip_call (jump r j els) decls ≡ (
            optimize_jump make_name new_context mentions_skip_call r j decls >>= λ (e, j', decls1).
            optimized_block e els decls1 >>= λ (els', decls2). ok (jump r j' els', decls2))
    unfolding optimize_block
    optimize_stmt_jump r j els decls = refl

    abbrev IsSameStmt : Stmt → Stmt × List Str → Type 0
    IsSameStmt s p = SameStmt s p.0

    optimize_stmt-jump :
        (r : InstFuncRule) (j : Jump) (r' : InstFuncRule) (c : Bool) (b : Block) (decls : List Str)
        → j ≡ fresh_jump
        → r' ≡ r
        → (str_eq r.on_enter [] && str_eq r.on_exit []) ≡ false
        → ((decls' : List Str) → NoPanic (IsSameBlock b) (optimized_block keep b decls'))
        → NoPanic (IsSameStmt (jump r j (cons (defer_exit r' c) b))) (
            optimize_stmt make_name new_context mentions_skip_call
              (jump r j (cons (defer_exit r' c) b))
              decls)
    optimize_stmt-jump r j r' c b decls fresh own hooks inner =
        rw (fresh, own, optimize_stmt_jump)
          (NoPanic-bind (Optimized skip r)
            (IsSameStmt (jump r fresh_jump (cons (defer_exit r c) b))) _ _
            (optimize_jump-IsOptimized skip make_name new_context mentions_skip_call honest
              context_safe hook_safe r decls hooks)
            λ x o.
              NoPanic-bind (IsSameBlock (cons (defer_exit r c) b)) _
                (optimized_block x.0 (cons (defer_exit r c) b) x.2) _
                (else_block-Same x.0 r c b x.2 o.no_hook (inner x.2))
                λ y same. jump-SameStmt r x.0 x.1 _ y.0 o same)

    mutual
      unfolding optimize_block exec HasFreshJumps

      optimize_block-Same :
          (b : Block) (decls : List Str)
          → HasFreshJumps b
          → NoPanic
              (λ (p : Block × List Str). Same b p.0)
              (optimize_block make_name new_context mentions_skip_call keep b decls)
      optimize_block-Same nil decls h = λ k k' a. a
      optimize_block-Same (cons s b) decls h =
          NoPanic-bind _ _ (optimize_stmt make_name new_context mentions_skip_call s decls) _
            (optimize_stmt-SameStmt s decls h.0)
            λ p same_s.
              NoPanic-bind _ _ (optimize_block make_name new_context mentions_skip_call keep b p.1)
                _ (optimize_block-Same b p.1 h.1)
                λ q same_b. λ k k' a. same_s (exec skip b k) (exec skip q.0 k') (same_b k k' a)

      optimize_stmt-SameStmt :
          (s : Stmt) (decls : List Str)
          → IsFresh s
          → NoPanic
              (λ (p : Stmt × List Str). SameStmt s p.0)
              (optimize_stmt make_name new_context mentions_skip_call s decls)
      optimize_stmt-SameStmt (plain n) decls h =
          λ k k' a ds ds' e. ap (λ es. stmt n ∷ es) (a ds ds' e)
      optimize_stmt-SameStmt empty decls h = λ k k' a ds ds' e. a ds ds' e
      optimize_stmt-SameStmt (defer_exit r c) decls h =
          λ k k' a ds ds' e. a (r ∷ ds) (r ∷ ds') (ground (arith, e))
      optimize_stmt-SameStmt (jump r j nil) decls h = absurd h
      optimize_stmt-SameStmt (jump r j (cons (plain n) b)) decls h = absurd h
      optimize_stmt-SameStmt (jump r j (cons empty b)) decls h = absurd h
      optimize_stmt-SameStmt (jump r j (cons (jump r' j' b') b)) decls h = absurd h
      optimize_stmt-SameStmt (jump r j (cons (defer_exit r' c) b)) decls h =
          optimize_stmt-jump r j r' c b decls h.0 h.1 h.2
            (λ decls'. optimize_block-Same b decls' h.3)

    module _ (generate : InstFuncRule → Outcome (Unit {0}))
        (parse_snippet : Str → Option (List ℕ)) where
      plain_block-HasFreshJumps : (ns : List ℕ) → HasFreshJumps (plain_block ns)
      unfolding HasFreshJumps
      plain_block-HasFreshJumps [] = tt
      plain_block-HasFreshJumps (n ∷ ns) = (tt, plain_block-HasFreshJumps ns)

      tower-IsFresh :
          (r : InstFuncRule) (rs : List InstFuncRule)
          → all (is_ready skip generate parse_snippet) (r ∷ rs) ≡ true
          → IsFresh (tower skip r rs)
      unfolding HasFreshJumps
      tower-IsFresh r [] h = (refl, refl, ground (arith, h), tt)
      tower-IsFresh r (s ∷ rs) h =
          (refl, refl, ground (arith, h), (tt, (tower-IsFresh s rs (ground (arith, h)), tt)))

      built-HasFreshJumps :
          (rs : List InstFuncRule) (ns : List ℕ)
          → all (is_ready skip generate parse_snippet) rs ≡ true
          → HasFreshJumps (built skip generate parse_snippet rs ns)
      unfolding HasFreshJumps
      built-HasFreshJumps [] ns h = plain_block-HasFreshJumps ns
      built-HasFreshJumps (r ∷ rs) [] h = (tower-IsFresh r rs h, (tt, tt))
      built-HasFreshJumps (r ∷ rs) (n ∷ ns) h =
          (tower-IsFresh r rs h, plain_block-HasFreshJumps (n ∷ ns))

      -- Suppose that a hook that skips the call is an enter hook that mentions SkipCall, and that
      -- neither building a context nor reading a hook panics. For rules whose hooks are not raw code
      -- and whose trampolines are generated, optimising the instrumented body does not panic, and
      -- if no error is returned, a call of the optimised function runs the same hooks and
      -- statements as the nested hooks of the sorted rules, calls of absent hooks left out.
      pub optimize_block-around :
          (rules : List InstFuncRule) (ns : List ℕ) (decls : List Str) (body : Block)
          → all (is_ready skip generate parse_snippet) rules ≡ true
          → apply_func_rules generate parse_snippet rules (plain_block ns) ≡ ok body
          → NoPanic
              (λ (p : Block × List Str).
                seen (call skip p.0) ≡ seen (around skip (sort_func_rules rules) (map stmt ns)))
              (optimized_block keep body decls)
      optimize_block-around rules ns decls body h e =
          let rs = sort_func_rules rules in
          let made : body ≡ built skip generate parse_snippet rs ns =
            (let shape = apply_func_rules-built skip generate parse_snippet rules ns h in cc) in
          rw made (
            NoPanic-weaken _ _
              (optimized_block keep (built skip generate parse_snippet rs ns) decls)
              (optimize_block-Same (built skip generate parse_snippet rs ns) decls (
                built-HasFreshJumps rs ns
                  (all-sort_func_rules skip generate parse_snippet rules ∙ h)))
              λ p same.
                same unwind unwind (λ ds ds' q. q) [] [] refl
                ∙ ap seen (call-built skip generate parse_snippet rs ns))
