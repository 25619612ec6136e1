-- ===== src/Preprocess/Rounds/Arrivals.antt =====
-- The bundles that matchRules of tool/preprocess/preprocess.go receives from its goroutines.
use mathlib.Core.List.{Permᴰ}
use mathlib.Core.List.Permᴰ
use opentelemetry_go_auto_in.Base.{
  ◌≡◌, refl, subst, inl, inr, if◌then◌else◌, Option, none, some, List, [], ◌∷◌, Bool-cases, Outcome,
  ok, Str, All,
}
use opentelemetry_go_auto_in.Resource.Bundle.{RuleBundle, is_valid}
use opentelemetry_go_auto_in.Preprocess.Steps.{value}
use opentelemetry_go_auto_in.Preprocess.Rounds.{keep_valid, receive, run_matches}

keep_valid-Permᴰ :
    (b : Option RuleBundle) {l l' : List RuleBundle}
    → Permᴰ l l'
    → Permᴰ (keep_valid b l) (keep_valid b l')
unfolding keep_valid
keep_valid-Permᴰ none d = d
keep_valid-Permᴰ (some b) d = elim (Bool-cases (is_valid (some b))) [
  | inl e ↦ rw e (Permᴰ.cons refl d)
  | inr e ↦ rw e d
]

keep_valid-swap :
    (a b : Option RuleBundle) (l : List RuleBundle)
    → Permᴰ (keep_valid a (keep_valid b l)) (keep_valid b (keep_valid a l))
unfolding keep_valid
keep_valid-swap none b l = Permᴰ.refl (keep_valid b l)
keep_valid-swap (some a) none l = Permᴰ.refl (keep_valid (some a) l)
keep_valid-swap (some a) (some b) l = elim (Bool-cases (is_valid (some a))) [
  | inl e ↦ elim (Bool-cases (is_valid (some b))) [
    | inl k ↦ rw e (rw k (Permᴰ.swap refl refl))
    | inr k ↦ rw e (rw k (Permᴰ.refl (a ∷ l)))
  ]
  | inr e ↦ rw e (Permᴰ.refl (keep_valid (some b) l))
]

receive-Permᴰ : {l l' : List (Option RuleBundle)} → Permᴰ l l' → Permᴰ (receive l) (receive l')
unfolding receive
receive-Permᴰ Permᴰ.nil = Permᴰ.nil
receive-Permᴰ (Permᴰ.cons {a} {b} {l₁} {l₂} e d) =
    subst (λ x. Permᴰ (keep_valid a (receive l₁)) (keep_valid x (receive l₂))) e
      (keep_valid-Permᴰ a (receive-Permᴰ d))
receive-Permᴰ (Permᴰ.swap {a} {b} {a'} {b'} {l} e e') =
    subst
      (λ x.
        Permᴰ (keep_valid a (keep_valid b (receive l))) (keep_valid x (keep_valid b' (receive l))))
      e'
      (subst
        (λ x.
          Permᴰ (keep_valid a (keep_valid b (receive l))) (keep_valid b (keep_valid x (receive l))))
        e (keep_valid-swap a b (receive l)))
receive-Permᴰ (Permᴰ.trans d d') = Permᴰ.trans (receive-Permᴰ d) (receive-Permᴰ d')

-- The bundle of each command, in the order of the commands.
abbrev pub IsResult :
    (Str → Outcome (Option RuleBundle)) → List Str → List (Option RuleBundle) → Type 0
IsResult match_cmd [] [] = Unit
IsResult match_cmd (cmd ∷ cmds) (b ∷ bs) = (match_cmd cmd ≡ ok b) × IsResult match_cmd cmds bs
IsResult match_cmd cmds bs = ⊥

-- The bundles of the commands, when every match returns.
abbrev pub AllReturn : (Str → Outcome (Option RuleBundle)) → List Str → Type 0
AllReturn match_cmd cmds = All (λ cmd. (b : Option RuleBundle) × (match_cmd cmd ≡ ok b)) cmds

run_matches-value :
    (match_cmd : Str → Outcome (Option RuleBundle)) (cmds : List Str)
    → AllReturn match_cmd cmds
    → (bs : List (Option RuleBundle)) × (run_matches match_cmd cmds ≡ value bs)
      × IsResult match_cmd cmds bs
unfolding run_matches
run_matches-value match_cmd [] h = ([], refl, tt)
run_matches-value match_cmd (cmd ∷ cmds) ((b, e), h) =
    let (bs, run, result) = run_matches-value match_cmd cmds h in
    (b ∷ bs, rw e (rw run refl), (e, result))

-- The bundles that are there and valid.
abbrev pub valid_ones : List (Option RuleBundle) → List RuleBundle
valid_ones [] = []
valid_ones (none ∷ bs) = valid_ones bs
valid_ones (some b ∷ bs) = let rest = valid_ones bs in if is_valid (some b) then b ∷ rest else rest

receive-valid_ones : (bs : List (Option RuleBundle)) → receive bs ≡ valid_ones bs
unfolding receive keep_valid
receive-valid_ones [] = refl
receive-valid_ones (none ∷ bs) = receive-valid_ones bs
receive-valid_ones (some b ∷ bs) = rw (receive-valid_ones bs) refl

-- When every match returns, matchRules collects the valid ones among the bundles of the commands,
-- each as often as there are commands that it is the bundle of, whatever the order in which the
-- goroutines send them.
pub receive-run_matches :
    (match_cmd : Str → Outcome (Option RuleBundle)) (cmds : List Str)
    (arrive : List (Option RuleBundle) → List (Option RuleBundle))
    → ((bs : List (Option RuleBundle)) → Permᴰ bs (arrive bs))
    → AllReturn match_cmd cmds
    → (bs : List (Option RuleBundle)) × (run_matches match_cmd cmds ≡ value bs)
      × IsResult match_cmd cmds bs
      × Permᴰ (valid_ones bs) (receive (arrive bs))
receive-run_matches match_cmd cmds arrive order h =
    let (bs, run, result) = run_matches-value match_cmd cmds h in
    (
      bs,
      run,
      result,
      subst (λ l. Permᴰ l (receive (arrive bs))) (receive-valid_ones bs) (receive-Permᴰ (order bs)),
    )
