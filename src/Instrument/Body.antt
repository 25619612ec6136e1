-- ===== src/Instrument/Body.antt =====
-- tool/instrument/inst_func.go: what insertTJump and insertRaw do to the body of a function, and
-- how the rules of the function are applied to it. A statement of the function itself is a number;
-- an `if` of the function has no label, so it is such a statement too. Names, arguments and line
-- directives are left out.
pub mod Nesting
use opentelemetry_go_auto_in.Base.{
  ℕ, Bool, true, false, not, ◌||◌, Option, none, some, List, [], ◌∷◌, ◌++◌, if◌then◌else◌, Outcome,
  ok, ◌>>=◌, ◌>>◌, assert, or_err, Code, Str, codes, str_eq,
}
use opentelemetry_go_auto_in.Resource.RuleDef.{InstFuncRule}
use opentelemetry_go_auto_in.Instrument.Order.{sort_func_rules}

-- The initial statement of a jump: `ctx, skip := onEnter(...)`, where `skip` may be blank, the bare
-- call, or none.
pub data JumpInit : Type 0 where
  no_init : JumpInit
  bare_call : JumpInit
  assign : Bool → JumpInit  -- whether `skip` is named

-- A jump but for its else block: whether it has the label, whether its condition is the constant
-- false in place of `skip`, and whether its then block is `onExit(...); return` in place of an
-- empty statement.
pub record Jump : Type 0 where
  pub labelled : Bool
  pub init_part : JumpInit
  pub never : Bool
  pub returns : Bool

mutual
  -- `jump r j els` is the trampoline jump j of the rule r with the else block els, `defer_exit r c`
  -- the deferred call of its exit trampoline, where c says that the call makes its own context.
  pub data Stmt : Type 0 where
    plain : ℕ → Stmt
    empty : Stmt
    defer_exit : InstFuncRule → Bool → Stmt
    jump : InstFuncRule → Jump → Block → Stmt

  pub data Block : Type 0 where
    nil : Block
    cons : Stmt → Block → Block

abbrev pub append : Block → Block → Block
append nil c = c
append (cons s b) c = cons s (append b c)

abbrev pub plain_block : List ℕ → Block
plain_block [] = nil
plain_block (n ∷ ns) = cons (plain n) (plain_block ns)

-- The trampoline jump of a rule, as insertTJump makes it.
abbrev pub fresh_jump : Jump
fresh_jump = record { labelled = true; init_part = assign true; never = false; returns = true }

abbrev pub new_jump : InstFuncRule → Stmt
new_jump t = jump t fresh_jump (cons (defer_exit t false) nil)

abbrev pub is_if : Stmt → Bool
is_if (jump r j els) = true
is_if _ = false

-- `len(list) > 1`
abbrev several : Block → Bool
several (cons s (cons s' b)) = true
several _ = false

abbrev is_nil : Block → Bool
is_nil nil = true
is_nil (cons s b) = false

-- What findJumpPoint and the two appends behind it do: `none` where there is no jump point. The
-- last statement of an else block with several statements is asserted to be an `if`.
unfoldable mutual
  pub insert_in_jump : Stmt → InstFuncRule → Outcome (Option Stmt)
  insert_in_jump (jump r j els) t =
      let deeper = insert_in_last els t in
      if not j.labelled
      then ok none
      else if several els
      then (deeper >>= λ last. ok (elim last [ none ↦ none | some els' ↦ some (jump r j els') ]))
      else ok (some (jump r j (append els (cons empty (cons (new_jump t) nil)))))
  insert_in_jump s t = ok none

  -- In the last statement of the block.
  pub insert_in_last : Block → InstFuncRule → Outcome (Option Block)
  insert_in_last nil t = ok none
  insert_in_last (cons s b) t =
      let here = insert_in_jump s t in
      let deeper = insert_in_last b t in
      if is_nil b
      then (assert (is_if s) >> here >>= λ found.
          ok (elim found [ none ↦ none | some s' ↦ some (cons s' nil) ]))
      else (deeper >>= λ last. ok (elim last [ none ↦ none | some b' ↦ some (cons s b') ]))

-- The jump goes to the jump point of a first statement that has one, else in front of the body.
unfoldable pub place_jump : InstFuncRule → Block → Outcome Block
unfolding insert_in_jump
place_jump t nil = ok (cons (new_jump t) (cons empty nil))
place_jump t (cons s b) = insert_in_jump s t >>= λ found.
    ok (elim found [ none ↦ cons (new_jump t) (cons s b) | some s' ↦ cons s' b ])

-- `util.Assert(t.OnEnter != "" || t.OnExit != "", ...)`
abbrev pub has_hook : InstFuncRule → Bool
has_hook t = not (str_eq t.on_enter []) || not (str_eq t.on_exit [])

-- `generate` is what generateTrampoline returns: it adds declarations beside the function.
-- `parse_snippet` is ParseSnippet of the AST parser, `none` its error; the statements that it
-- returns are numbers too.
module _ (generate : InstFuncRule → Outcome (Unit {0}))
    (parse_snippet : Str → Option (List ℕ)) where
  unfoldable pub insert_tjump : InstFuncRule → Block → Outcome Block
  unfolding place_jump
  insert_tjump t body = do assert (has_hook t); body' ← place_jump t body; generate t; ok body'

  unfoldable pub prepend_snippet : Str → Block → Outcome Block
  prepend_snippet snippet body = do
    stmts ← or_err (parse_snippet snippet) Code.parse_code
    ok (append (plain_block stmts) body)

  unfoldable pub insert_raw : InstFuncRule → Block → Outcome Block
  unfolding prepend_snippet
  insert_raw r body = do
    assert (has_hook r)
    body' ← (if str_eq r.on_enter [] then ok body else prepend_snippet r.on_enter body)
    (if str_eq r.on_exit []
        then ok body'
        else prepend_snippet (codes "defer func(){ " ++ (r.on_exit ++ codes " }()")) body')

  -- The loop of applyFuncRules over the sorted rules of a function.
  unfoldable pub apply_sorted : List InstFuncRule → Block → Outcome Block
  apply_sorted [] body = ok body
  apply_sorted (r ∷ rs) body = do
    body' ← (if r.use_raw then insert_raw r body else insert_tjump r body)
    apply_sorted rs body'

  unfoldable pub apply_func_rules : List InstFuncRule → Block → Outcome Block
  unfolding apply_sorted
  apply_func_rules rules body = apply_sorted (sort_func_rules rules) body
