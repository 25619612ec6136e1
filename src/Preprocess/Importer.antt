-- ===== src/Preprocess/Importer.antt =====
-- newRuleImporterWith of tool/preprocess/preprocess.go: the paths and the text of otel_importer.go.
use opentelemetry_go_auto_in.Base.{
  ℕ, ◌+◌, ◌||◌, List, [], ◌∷◌, ◌++◌, any, if◌then◌else◌, Str, codes, str_eq,
}
use opentelemetry_go_auto_in.Base.Dict.{Dict}
use opentelemetry_go_auto_in.Resource.RuleDef.{InstFuncRule}
use opentelemetry_go_auto_in.Resource.Bundle.{RuleBundle}

-- The paths of the function rules of the bundles, each once and none empty.
abbrev add_path : Str → List Str → List Str
add_path path paths =
    if str_eq path [] || any (λ p. str_eq p path) paths then paths else paths ++ path ∷ []

unfoldable pub rule_paths : List InstFuncRule → List Str → List Str
rule_paths [] paths = paths
rule_paths (r ∷ rs) paths = rule_paths rs (add_path r.base.path paths)

unfoldable pub func_paths : Dict (List InstFuncRule) → List Str → List Str
unfolding rule_paths
func_paths [] paths = paths
func_paths ((fn, rs) ∷ m) paths = func_paths m (rule_paths rs paths)

unfoldable pub file_paths : Dict (Dict (List InstFuncRule)) → List Str → List Str
unfolding func_paths
file_paths [] paths = paths
file_paths ((file, m) ∷ files) paths = file_paths files (func_paths m paths)

unfoldable pub bundle_paths : List RuleBundle → List Str → List Str
unfolding file_paths
bundle_paths [] paths = paths
bundle_paths (b ∷ bs) paths = bundle_paths bs (file_paths b.file2func_rules paths)

-- The text of otel_importer.go: the template without its build constraint, an import for each path,
-- and the two linked variables of each bundle. `quote` is %q, `decimal` is %d.
module _ (importer_template : Str) (quote : Str → Str) (decimal : ℕ → Str) where
  unfoldable pub import_lines : List Str → Str
  import_lines [] = []
  import_lines (p ∷ ps) = codes "import _ " ++ (quote p ++ (codes "\n" ++ import_lines ps))

  abbrev link_lines : ℕ → Str → Str
  link_lines n import_path =
      codes "//go:linkname getstatck"
      ++ (decimal n
          ++ (codes " "
              ++ (import_path
                  ++ (codes ".OtelGetStackImpl\nvar getstatck"
                      ++ (decimal n
                          ++ (codes " = debug.Stack\n//go:linkname printstack"
                              ++ (decimal n
                                  ++ (codes " "
                                      ++ (import_path
                                          ++ (codes ".OtelPrintStackImpl\nvar printstack"
                                              ++ (decimal n
                                                  ++ codes
                                                      " = func (bt []byte){ log.Printf(string(bt)) }\n")))))))))))

  unfoldable pub bundle_lines : ℕ → List RuleBundle → Str
  bundle_lines n [] = []
  bundle_lines n (b ∷ bs) = link_lines n b.import_path ++ bundle_lines (n + 1) bs

  -- For no bundle the two lists of lines are empty.
  unfoldable pub importer_text : List Str → List RuleBundle → Str
  unfolding import_lines bundle_lines
  importer_text paths bundles = importer_template ++ (import_lines paths ++ bundle_lines 0 bundles)
