-- ===== src/Instrument/Optimize.antt =====
-- tool/instrument/optimize.go: what optimizeTJumps does to the trampoline jumps of a file, and the
-- enter trampolines that it removes from the file's declarations. The list of jumps holds those
-- that stand in the bodies, and each is changed by itself: its own fields, and the deferred call of
-- its else block. So the pass is a walk over the body, which hands down to an else block what is to
-- become of its first deferred call.
pub mod Rounds
pub mod Sound
use opentelemetry_go_auto_in.Base.{
  ℕ, Bool, true, false, not, ◌&&◌, Option, none, some, List, [], ◌∷◌, ◌++◌, if◌then◌else◌, Outcome,
  ok, err, panicked, ◌>>=◌, ◌>>◌, assert, Code, Str, codes, str_eq,
}
use opentelemetry_go_auto_in.Resource.RuleDef.{InstFuncRule}
use opentelemetry_go_auto_in.Instrument.Body.{
  JumpInit, no_init, bare_call, assign, Jump, Stmt, Block, plain, empty, defer_exit, jump, nil,
  cons,
}

-- What removeOnExitTrampolineCall (drop) and removeOnEnterTrampolineCall (own_context) do to the
-- first deferred call of an else block.
pub data Edit : Type 0 where
  keep drop own_context : Edit

-- flattenTJump; the cast of the initial statement fails where it is no assignment.
unfoldable pub flatten_tjump : Bool → Jump → Outcome Jump
flatten_tjump removed_on_exit j = elim j.init_part [
  | no_init ↦ panicked
  | bare_call ↦ panicked
  | assign named ↦ ok (record j {
    never = true;
    returns = false;
    init_part = (if removed_on_exit then bare_call else assign false);
  })
]

-- removeDeclWhen, for a function declaration of that name; `none` where there is none.
unfoldable pub remove_decl : Str → List Str → Option (List Str)
remove_decl name [] = none
remove_decl name (d ∷ ds) =
    let rest = remove_decl name ds in
    if str_eq d name then some ds else elim rest [ none ↦ none | some ds' ↦ some (d ∷ ds') ]

abbrev removed : Option (List Str) → Outcome (List Str)
removed none = err Code.internal
removed (some ds) = ok ds

-- `make_name` is makeName of the rule's enter trampoline. `new_context` is what newCallContextImpl
-- returns, whose literal the AST parser reads. `mentions_skip_call` is the enter hook's function,
-- read by getHookFunc, with the search for an identifier that contains "SkipCall".
module _ (make_name : InstFuncRule → Str) (new_context : InstFuncRule → Outcome (Unit {0}))
    (mentions_skip_call : InstFuncRule → Outcome Bool) where
  -- `if rule.OnEnter == ""`: the jump without its enter trampoline. The deferred call whose context
  -- is replaced is asserted to be there still.
  unfoldable pub remove_on_enter : InstFuncRule → Bool → Jump → List Str → Outcome (Jump × List Str)
  remove_on_enter r removed_on_exit j decls = do
    new_context r
    assert (not removed_on_exit)
    decls' ← removed (remove_decl (make_name r) decls)
    ok (record j { init_part = no_init; never = true; returns = false }, decls')

  -- `if rule.OnEnter != ""`: the jump whose enter hook does not use SkipCall.
  unfoldable pub flatten_unless_skip : InstFuncRule → Bool → Jump → Outcome Jump
  unfolding flatten_tjump
  flatten_unless_skip r removed_on_exit j = do
    found_poison ← mentions_skip_call r
    (if found_poison then ok j else flatten_tjump removed_on_exit j)

  -- The round of optimizeTJumps for one jump, but for its else block.
  unfoldable pub optimize_jump : InstFuncRule → Jump → List Str → Outcome (Edit × Jump × List Str)
  unfolding remove_on_enter flatten_unless_skip
  optimize_jump r j decls =
      let removed_on_exit = str_eq r.on_exit [] in
      let stripped = record j { labelled = false } in
      assert j.labelled
      >> (if str_eq r.on_enter []
          then (remove_on_enter r removed_on_exit stripped decls >>= λ (j', decls').
              ok (own_context, j', decls'))
          else (flatten_unless_skip r removed_on_exit stripped >>= λ j'.
              ok ((if removed_on_exit then drop else keep), j', decls)))

  -- The walk; the edit is for the first deferred call of the block.
  unfoldable mutual
    pub optimize_block : Edit → Block → List Str → Outcome (Block × List Str)
    optimize_block own_context nil decls = panicked
    optimize_block e nil decls = ok (nil, decls)
    optimize_block drop (cons (defer_exit r c) b) decls =
        optimize_block keep b decls >>= λ (b', decls'). ok (cons empty b', decls')
    optimize_block own_context (cons (defer_exit r c) b) decls =
        optimize_block keep b decls >>= λ (b', decls'). ok (cons (defer_exit r true) b', decls')
    optimize_block drop (cons (plain n) b) decls = panicked
    optimize_block drop (cons empty b) decls = panicked
    optimize_block e (cons s b) decls = optimize_stmt s decls >>= λ (s', decls1).
        optimize_block e b decls1 >>= λ (b', decls2). ok (cons s' b', decls2)

    pub optimize_stmt : Stmt → List Str → Outcome (Stmt × List Str)
    optimize_stmt (jump r j els) decls = optimize_jump r j decls >>= λ (e, j', decls1).
        optimize_block e els decls1 >>= λ (els', decls2). ok (jump r j' els', decls2)
    optimize_stmt s decls = ok (s, decls)
