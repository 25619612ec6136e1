-- ===== src/Match/Load.antt =====
-- tool/preprocess/match.go: how the available rules are read, as the
-- configuration says. The decoder of JSON, the embedded file system and the disk
-- are parameters; a rule file that is decoded is a list of holders.
use opentelemetry_go_auto_in.Base.{
  ◌≡◌, refl, ap, ◌∙◌, ◌≢◌, Bool, true, false, Option, none, some, List, [], ◌∷◌, ◌++◌, map, arith,
  if◌then◌else◌, All, Outcome, ok, err, panicked, ◌>>=◌, Code, Holds, Holds-bind, Holds-use,
  Holds-if, Str, str_eq, str_eq_iff, contains_byte, split,
}
use mathlib.Core.List.{append-nil, append_assoc}
use opentelemetry_go_auto_in.Config.{BuildConfig}
use opentelemetry_go_auto_in.Resource.RuleDef.{
  InstBaseRule, InstFuncRule, InstStructRule, InstFileRule, InstRule, func_rule, struct_rule,
  file_rule, base_of,
}

-- The fields of all three kinds; those of the base are set in the holder's own base.
pub record RuleHolder : Type 0 where
  pub base : InstBaseRule
  pub func : InstFuncRule
  pub struct : InstStructRule
  pub file : InstFileRule

-- `s != ""`
abbrev not_empty : Str → Bool
not_empty [] = false
not_empty (c ∷ s) = true

-- The round of loadRuleRaw's loop; a JSON null is a nil holder, and a holder of no kind reaches
-- ShouldNotReachHereT.
unfoldable pub rule_of : Option RuleHolder → Outcome InstRule
rule_of none = panicked
rule_of (some h) =
    if not_empty h.struct.struct_type
    then ok (struct_rule (record h.struct { base = h.base }))
    else if not_empty h.func.function
    then ok (func_rule (record h.func { base = h.base }))
    else if not_empty h.file.file_name
    then ok (file_rule (record h.file { base = h.base }))
    else panicked

unfoldable pub rules_of : List (Option RuleHolder) → Outcome (List InstRule)
rules_of [] = ok []
rules_of (h ∷ hs) = do r ← rule_of h; rs ← rules_of hs; ok (r ∷ rs)

-- A failed load is logged; what it adds to the rules is nothing.
abbrev pub loaded : Outcome (List InstRule) → List InstRule
loaded (ok rs) = rs
loaded (err c) = []
loaded panicked = []

abbrev pub holder_base : Option RuleHolder → Option InstBaseRule
holder_base none = none
holder_base (some h) = some h.base

rule_of-base : (h : Option RuleHolder) → Holds (λ r. some (base_of r) ≡ holder_base h) (rule_of h)
unfolding rule_of
rule_of-base none = tt
rule_of-base (some h) = Holds-if _ (not_empty h.struct.struct_type) _ _ refl (
    Holds-if _ (not_empty h.func.function) _ _ refl
      (Holds-if _ (not_empty h.file.file_name) _ _ refl tt))

rules_of-bases :
    (hs : List (Option RuleHolder))
    → Holds (λ rules. map (λ r. some (base_of r)) rules ≡ map holder_base hs) (rules_of hs)
unfolding rules_of
rules_of-bases [] = refl
rules_of-bases (h ∷ hs) =
    Holds-bind _ _ (rule_of h) _ (rule_of-base h)
      λ r er. Holds-bind _ _ (rules_of hs) _ (rules_of-bases hs) λ rs ers. cc

-- `unmarshal` is json.Unmarshal, `read_file` is util.ReadFile, `list_rule_files` and
-- `read_rule_file` are the embedded files of tool/data; `none` is an error.
module _ (unmarshal : Str → Option (List (Option RuleHolder))) (read_file : Str → Option Str)
    (list_rule_files : Option (List Str)) (read_rule_file : Str → Option Str) where
  unfoldable pub load_rule_raw : Str → Outcome (List InstRule)
  load_rule_raw content = elim (unmarshal content) [
    | none ↦ err Code.invalid_json
    | some hs ↦ rules_of hs
  ]

  unfoldable pub load_rule_file : Str → Outcome (List InstRule)
  load_rule_file path = elim (read_file path) [
    | none ↦ err Code.open_file
    | some content ↦ load_rule_raw content
  ]

  -- What one goroutine of loadDefaultRules stores in its chunk; `none` is the error it returns.
  abbrev chunk_of : Outcome (List InstRule) → Outcome (Option (List InstRule))
  chunk_of (ok rs) = ok (some rs)
  chunk_of (err c) = ok (some [])
  chunk_of panicked = panicked

  unfoldable pub load_chunk : Str → Outcome (Option (List InstRule))
  load_chunk name = elim (read_rule_file name) [
    | none ↦ ok none
    | some raw ↦ chunk_of (load_rule_raw raw)
  ]

  abbrev append_chunk : Option (List InstRule) → Option (List InstRule) → Option (List InstRule)
  append_chunk (some rs) (some rest) = some (rs ++ rest)
  append_chunk c rest = none

  -- All goroutines run to their end; the chunks are merged in the order of the files.
  unfoldable pub load_chunks : List Str → Outcome (Option (List InstRule))
  load_chunks [] = ok (some [])
  load_chunks (name ∷ names) = do
    c ← load_chunk name
    rest ← load_chunks names
    ok (append_chunk c rest)

  abbrev or_nil : Option (List InstRule) → List InstRule
  or_nil none = []
  or_nil (some rs) = rs

  unfoldable pub load_default_rules : Outcome (List InstRule)
  load_default_rules = elim list_rule_files [
    | none ↦ ok []
    | some names ↦ load_chunks names >>= λ chunks. ok (or_nil chunks)
  ]

  -- The loop over several rule files.
  unfoldable pub load_files : List InstRule → List Str → Outcome (List InstRule)
  load_files rules [] = ok rules
  load_files rules (file ∷ files) = elim (load_rule_file file) [
    | ok rs ↦ load_files (rules ++ rs) files
    | err c ↦ load_files rules files
    | panicked ↦ panicked
  ]

  -- The one rule file: a failure to load it returns nil.
  unfoldable pub load_one : List InstRule → Str → Outcome (List InstRule)
  load_one rules file = elim (load_rule_file file) [
    | ok rs ↦ ok (rules ++ rs)
    | err c ↦ ok []
    | panicked ↦ panicked
  ]

  -- The default rules, unless they are disabled.
  abbrev pub start_rules : BuildConfig → Outcome (List InstRule)
  start_rules conf = if conf.disable_default then ok [] else load_default_rules

  unfoldable pub find_available_rules : BuildConfig → Outcome (List InstRule)
  find_available_rules conf = if conf.restore then ok [] else (do
    rules ← start_rules conf
    (if str_eq conf.rule_json_files []
        then ok rules
        else if contains_byte conf.rule_json_files b','
        then load_files rules (split conf.rule_json_files b',')
        else load_one rules conf.rule_json_files))

  abbrev pub load_all : List Str → List InstRule
  load_all [] = []
  load_all (file ∷ files) = loaded (load_rule_file file) ++ load_all files

  load_files-load_all :
      (rules : List InstRule) (files : List Str)
      → All (λ f. load_rule_file f ≢ panicked) files
      → load_files rules files ≡ ok (rules ++ load_all files)
  unfolding load_files
  load_files-load_all rules [] h = rw append-nil
  load_files-load_all rules (file ∷ files) (h, hs) =
      by_load (load_rule_file file) h (λ rules. load_files-load_all rules files hs)
    where
      by_load :
          (m : Outcome (List InstRule))
          → m ≢ panicked
          → ((rules : List InstRule) → load_files rules files ≡ ok (rules ++ load_all files))
          → elim m [
            | ok rs ↦ load_files (rules ++ rs) files
            | err c ↦ load_files rules files
            | panicked ↦ panicked
          ]
            ≡ ok (rules ++ (loaded m ++ load_all files))
      by_load (ok rs) k rest = rest (rules ++ rs) ∙ ap ok (append_assoc rules rs _)
      by_load (err c) k rest = rest rules
      by_load panicked k rest = absurd (k refl)

  -- Outside restore mode, with several rule files none of which makes the loader panic, the
  -- available rules are the default rules (none if they are disabled) and behind them the rules of
  -- each file in the order given; a file that cannot be loaded adds nothing.
  pub find_available_rules-load_all :
      (conf : BuildConfig) (rules : List InstRule)
      → conf.restore ≡ false
      → contains_byte conf.rule_json_files b',' ≡ true
      → start_rules conf ≡ ok rules
      → All (λ f. load_rule_file f ≢ panicked) (split conf.rule_json_files b',')
      → find_available_rules conf ≡ ok (rules ++ load_all (split conf.rule_json_files b','))
  unfolding find_available_rules contains_byte
  find_available_rules-load_all conf rules hr hc hd hl = ground (
    arith,
    str_eq_iff conf.rule_json_files [],
    load_files-load_all rules (split conf.rule_json_files b',') hl,
  )

  -- Outside restore mode, when the one rule file given cannot be loaded, there are no rules at
  -- all: the default rules are dropped too.
  pub find_available_rules_one_bad :
      (conf : BuildConfig) (rules : List InstRule) (c : Code)
      → conf.restore ≡ false
      → conf.rule_json_files ≢ []
      → contains_byte conf.rule_json_files b',' ≡ false
      → start_rules conf ≡ ok rules
      → load_rule_file conf.rule_json_files ≡ err c
      → find_available_rules conf ≡ ok []
  unfolding find_available_rules load_one
  find_available_rules_one_bad conf rules c hr hn hc hd hl =
      ground (arith, str_eq_iff conf.rule_json_files [])

  -- The rules that a file's content is decoded to are as many as its holders, in their order, and
  -- each has the base fields of its holder; no holder is null.
  pub load_rule_raw-bases :
      (content : Str) (rules : List InstRule)
      → load_rule_raw content ≡ ok rules
      → (hs : List (Option RuleHolder)) × (unmarshal content ≡ some hs)
        × (map (λ r. some (base_of r)) rules ≡ map holder_base hs)
  unfolding load_rule_raw
  load_rule_raw-bases content rules h = from (unmarshal content) refl h
    where
      from :
          (m : Option (List (Option RuleHolder)))
          → unmarshal content ≡ m
          → elim m [ none ↦ err Code.invalid_json | some hs ↦ rules_of hs ] ≡ ok rules
          → (hs : List (Option RuleHolder)) × (unmarshal content ≡ some hs)
            × (map (λ r. some (base_of r)) rules ≡ map holder_base hs)
      from none e k = cc
      from (some hs) e k = (hs, e, Holds-use _ (rules_of hs) rules (rules_of-bases hs) k)
