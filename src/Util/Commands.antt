-- ===== src/Util/Commands.antt =====
-- tool/util/shared.go: build commands and how their lines are split. `windows` is IsWindows();
-- otherwise the platform is one that IsUnix accepts.
pub mod RoundTrip
use opentelemetry_go_auto_in.Base.{
  Bool, false, not, ◌&&◌, ◌||◌, List, [], ◌∷◌, ◌++◌, map, ◌==◌, if◌then◌else◌, all, Outcome,
  panicked, ◌>>=◌, ◌>>◌, assert, Str, codes, str_eq, contains,
}

unfoldable pub assert_go_build : List Str → Outcome (Unit {0})
assert_go_build [] = panicked
assert_go_build (a ∷ []) = panicked
assert_go_build (a ∷ b ∷ args) = do
  assert (contains a (codes "go"))
  assert (str_eq b (codes "build") || str_eq b (codes "install"))

-- The fields that IsCompileCommand wants to see in the line.
abbrev pub compile_fields : Bool → List Str
compile_fields windows =
    codes "-o"
    ∷ codes "-p"
    ∷ codes "-buildid"
    ∷ (if windows then codes "compile.exe" else codes "compile")
    ∷ []

unfoldable pub is_compile_command : Bool → Str → Bool
is_compile_command windows line =
    all (contains line) (compile_fields windows) && not (contains line (codes "-pgoprofile"))

-- `if arg.Len() > 0 { args = append(args, arg.String()) }`
unfoldable pub flush : List Str → Str → List Str
flush args [] = args
flush args (c ∷ arg) = args ++ (c ∷ arg) ∷ []

-- The loop of SplitCmds over the bytes of the line.
unfoldable pub split_loop : List Str → Bool → Str → Str → List Str
unfolding flush
split_loop args in_quotes arg [] = flush args arg
split_loop args in_quotes arg (c ∷ input) =
    let toggled = split_loop args (not in_quotes) arg input in
    let ended = split_loop (flush args arg) in_quotes [] input in
    let longer = split_loop args in_quotes (arg ++ c ∷ []) input in
    if c == 34 then toggled else if c == b' ' && not in_quotes then ended else longer

-- strings.ReplaceAll(arg, `\\`, `\\`): two backslashes become one.
unfoldable pub unescape : Str → Str
unescape [] = []
unescape (c ∷ []) = c ∷ []
unescape (c ∷ d ∷ s) =
    let pair = c ∷ unescape s in
    let one = c ∷ unescape (d ∷ s) in if c == 92 && d == 92 then pair else one

unfoldable pub split_cmds : Bool → Str → List Str
unfolding split_loop unescape
split_cmds windows input =
    let args = split_loop [] false [] input in if windows then map unescape args else args
