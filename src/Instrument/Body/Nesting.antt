-- ===== src/Instrument/Body/Nesting.antt =====
-- The instrumented function runs the hooks of its rules around its own statements, each rule's
-- hooks around those of the next.
use opentelemetry_go_auto_in.Base.{
  ℕ, ◌≡◌, refl, ap, ◌∙◌, Bool, true, false, not, Option, some, List, [], ◌∷◌, ◌++◌, map, arith,
  if◌then◌else◌, and-true, Bool-cases, inl, inr, Outcome, all, ◌&&◌, ok, Str,
}
use mathlib.Core.List.{append-nil, append_assoc}
use opentelemetry_go_auto_in.Base.Int.{ltb_ℤ}
use opentelemetry_go_auto_in.Resource.RuleDef.{InstFuncRule}
use opentelemetry_go_auto_in.Instrument.Order.{insert_rule, sort_func_rules}
use opentelemetry_go_auto_in.Instrument.Body.{
  Stmt, Block, plain, empty, defer_exit, jump, nil, cons, plain_block, JumpInit, no_init, bare_call,
  assign, fresh_jump, new_jump, insert_in_jump, is_if, place_jump, has_hook, insert_tjump,
  insert_raw, apply_sorted, apply_func_rules,
}

-- What can be seen of a run of the function.
pub data Event : Type 0 where
  enter exit : InstFuncRule → Event
  stmt : ℕ → Event

-- The deferred calls run when the function returns, the last one first.
abbrev pub unwind : List InstFuncRule → List Event
unwind rs = map exit rs

-- The call of the enter trampoline in the initial statement of a jump.
abbrev pub initial : InstFuncRule → JumpInit → List Event
initial r no_init = []
initial r bare_call = enter r ∷ []
initial r (assign named) = enter r ∷ []

-- `skip` says whose enter hook asks to skip the call.
module _ (skip : InstFuncRule → Bool) where
  -- Go's meaning of a body: `k` is what follows, of the deferred calls.
  unfoldable mutual
    pub exec : Block → (List InstFuncRule → List Event) → List InstFuncRule → List Event
    exec nil k ds = k ds
    exec (cons s b) k ds = exec_stmt s (exec b k) ds

    pub exec_stmt : Stmt → (List InstFuncRule → List Event) → List InstFuncRule → List Event
    exec_stmt (plain n) k ds = stmt n ∷ k ds
    exec_stmt empty k ds = k ds
    exec_stmt (defer_exit r c) k ds = k (r ∷ ds)
    exec_stmt (jump r j els) k ds =
        let rest = exec els k ds in
        let taken = if j.returns then exit r ∷ unwind ds else k ds in
        initial r j.init_part ++ (if not j.never && skip r then taken else rest)

  -- A call of the function with this body.
  abbrev pub call : Block → List Event
  call body = exec body unwind []

  -- Hooks around `inner`: the first rule's outermost. A rule that skips keeps the inner ones out.
  abbrev pub around : List InstFuncRule → List Event → List Event
  around [] inner = inner
  around (r ∷ rs) inner =
      let rest = around rs inner ++ exit r ∷ [] in enter r ∷ (if skip r then exit r ∷ [] else rest)

  -- The jumps of the rules r and rs, each in the else block of the one before.
  abbrev pub tower : InstFuncRule → List InstFuncRule → Stmt
  tower r [] = new_jump r
  tower r (s ∷ rs) =
      jump r fresh_jump (cons (defer_exit r false) (cons empty (cons (tower s rs) nil)))

  is_if-tower : (r : InstFuncRule) (rs : List InstFuncRule) → is_if (tower r rs) ≡ true
  is_if-tower r [] = refl
  is_if-tower r (s ∷ rs) = refl

  insert_in_jump-tower :
      (r : InstFuncRule) (rs : List InstFuncRule) (t : InstFuncRule)
      → insert_in_jump (tower r rs) t ≡ ok (some (tower r (rs ++ t ∷ [])))
  unfolding insert_in_jump
  insert_in_jump-tower r [] t = refl
  insert_in_jump-tower r (s ∷ rs) t = rw (is_if-tower s rs) (rw (insert_in_jump-tower s rs t) refl)

  exec_stmt-tower :
      (r : InstFuncRule) (rs : List InstFuncRule) (inner : List Event)
      (k : List InstFuncRule → List Event)
      → ((ds : List InstFuncRule) → k ds ≡ inner ++ unwind ds)
      → (ds : List InstFuncRule) → exec_stmt (tower r rs) k ds ≡ around (r ∷ rs) inner ++ unwind ds
  unfolding exec
  exec_stmt-tower r [] inner k h ds =
      ground (arith, h (r ∷ ds), append_assoc inner (exit r ∷ []) (unwind ds))
  exec_stmt-tower r (s ∷ rs) inner k h ds = ground (
    arith,
    exec_stmt-tower s rs inner k h (r ∷ ds),
    append_assoc (around (s ∷ rs) inner) (exit r ∷ []) (unwind ds),
  )

  exec-plain_block :
      (ns : List ℕ) (ds : List InstFuncRule)
      → exec (plain_block ns) unwind ds ≡ map stmt ns ++ unwind ds
  unfolding exec
  exec-plain_block [] ds = refl
  exec-plain_block (n ∷ ns) ds = rw (exec-plain_block ns ds)

  -- The body behind the first jump: insertTJump fills an empty one.
  abbrev pub filled : List ℕ → Block
  filled [] = cons empty nil
  filled (n ∷ ns) = plain_block (n ∷ ns)

  exec-filled :
      (ns : List ℕ) (ds : List InstFuncRule) → exec (filled ns) unwind ds ≡ map stmt ns ++ unwind ds
  exec-filled [] ds = unfold exec in refl
  exec-filled (n ∷ ns) ds = exec-plain_block (n ∷ ns) ds

  module _ (generate : InstFuncRule → Outcome (Unit {0}))
      (parse_snippet : Str → Option (List ℕ)) where
    abbrev is_ok : Outcome (Unit {0}) → Bool
    is_ok (ok u) = true
    is_ok _ = false

    -- A rule with hooks that are not raw code, whose trampoline is generated.
    abbrev pub is_ready : InstFuncRule → Bool
    is_ready t = not t.use_raw && (has_hook t && is_ok (generate t))

    insert_tjump-ready :
        (t : InstFuncRule) (body : Block) (result : Block)
        → is_ready t ≡ true
        → place_jump t body ≡ ok result
        → (if t.use_raw
            then insert_raw generate parse_snippet t body
            else insert_tjump generate parse_snippet t body)
          ≡ ok result
    unfolding insert_tjump
    insert_tjump-ready t body result h e = ground (arith, h, e)

    apply_sorted-tower :
        (r : InstFuncRule) (rs ts : List InstFuncRule) (rest : Block)
        → all is_ready ts ≡ true
        → apply_sorted generate parse_snippet ts (cons (tower r rs) rest)
          ≡ ok (cons (tower r (rs ++ ts)) rest)
    unfolding apply_sorted
    apply_sorted-tower r rs [] rest h = rw append-nil
    apply_sorted-tower r rs (t ∷ ts) rest h =
        let (ready, later) = and-true (is_ready t) (all is_ready ts) h in
        let placed : place_jump t (cons (tower r rs) rest)
            ≡ ok (cons (tower r (rs ++ t ∷ [])) rest) =
          unfold place_jump in rw (insert_in_jump-tower r rs t) refl in
        rw (insert_tjump-ready t (cons (tower r rs) rest) _ ready placed) (
          apply_sorted-tower r (rs ++ t ∷ []) ts rest later
          ∙ ap (λ l. ok (cons (tower r l) rest)) (append_assoc rs (t ∷ []) ts))

    place_jump-plain_block :
        (t : InstFuncRule) (ns : List ℕ)
        → place_jump t (plain_block ns) ≡ ok (cons (new_jump t) (filled ns))
    unfolding place_jump insert_in_jump
    place_jump-plain_block t [] = refl
    place_jump-plain_block t (n ∷ ns) = refl

    -- The body that the sorted rules make of the function's statements.
    abbrev pub built : List InstFuncRule → List ℕ → Block
    built [] ns = plain_block ns
    built (r ∷ rs) ns = cons (tower r rs) (filled ns)

    apply_sorted-built :
        (rs : List InstFuncRule) (ns : List ℕ)
        → all is_ready rs ≡ true
        → apply_sorted generate parse_snippet rs (plain_block ns) ≡ ok (built rs ns)
    unfolding apply_sorted
    apply_sorted-built [] ns h = refl
    apply_sorted-built (r ∷ rs) ns h =
        let (ready, later) = and-true (is_ready r) (all is_ready rs) h in
        rw (insert_tjump-ready r (plain_block ns) _ ready (place_jump-plain_block r ns))
          (apply_sorted-tower r [] rs (filled ns) later)

    pub call-built :
        (rs : List InstFuncRule) (ns : List ℕ) → call (built rs ns) ≡ around rs (map stmt ns)
    call-built [] ns = exec-plain_block ns [] ∙ append-nil (map stmt ns)
    call-built (r ∷ rs) ns =
        unfold exec in
        exec_stmt-tower r rs (map stmt ns) (exec (filled ns) unwind) (exec-filled ns) []
        ∙ append-nil (around (r ∷ rs) (map stmt ns))

    and-swap : (a b c : Bool) → (a && (b && c)) ≡ (b && (a && c))
    and-swap a b c = ground arith

    all-insert_rule :
        (r : InstFuncRule) (rs : List InstFuncRule)
        → all is_ready (insert_rule r rs) ≡ all is_ready (r ∷ rs)
    unfolding insert_rule
    all-insert_rule r [] = refl
    all-insert_rule r (x ∷ xs) = elim (Bool-cases (ltb_ℤ x.order r.order)) [
      | inl e ↦
          rw e (
            ap (λ b. is_ready x && b) (all-insert_rule r xs) ∙ and-swap (is_ready x) (is_ready r) _)
      | inr e ↦ rw e refl
    ]

    pub all-sort_func_rules :
        (rs : List InstFuncRule) → all is_ready (sort_func_rules rs) ≡ all is_ready rs
    unfolding sort_func_rules
    all-sort_func_rules [] = refl
    all-sort_func_rules (r ∷ rs) =
        all-insert_rule r (sort_func_rules rs) ∙ ap (λ b. is_ready r && b) (all-sort_func_rules rs)

    pub apply_func_rules-built :
        (rules : List InstFuncRule) (ns : List ℕ)
        → all is_ready rules ≡ true
        → apply_func_rules generate parse_snippet rules (plain_block ns)
          ≡ ok (built (sort_func_rules rules) ns)
    unfolding apply_func_rules
    apply_func_rules-built rules ns h =
        apply_sorted-built (sort_func_rules rules) ns (all-sort_func_rules rules ∙ h)

    -- When the rules of a function have hooks that are not raw code and their trampolines are
    -- generated, instrumenting succeeds, and a call of the function runs the hooks of the rule of
    -- least order outermost: each rule's enter hook before, and its exit hook after, all hooks of
    -- the rules behind it and the function's own statements, which a rule that skips keeps out.
    pub apply_func_rules-around :
        (rules : List InstFuncRule) (ns : List ℕ)
        → all is_ready rules ≡ true
        → (body : Block) × (apply_func_rules generate parse_snippet rules (plain_block ns)
            ≡ ok body)
          × (call body ≡ around (sort_func_rules rules) (map stmt ns))
    apply_func_rules-around rules ns h =
        let rs = sort_func_rules rules in
        (built rs ns, apply_func_rules-built rules ns h, call-built rs ns)
