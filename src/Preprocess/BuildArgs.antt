-- ===== src/Preprocess/BuildArgs.antt =====
-- The commands that tool/preprocess/preprocess.go runs: the dry build of runDryBuild, and the build
-- of runBuildWithToolexec.
use opentelemetry_go_auto_in.Base.{
  ◌≡◌, refl, Bool, List, [], ◌∷◌, ◌++◌, if◌then◌else◌, take, drop, Outcome, ok, panicked, ◌>>=◌,
  ◌>>◌, Str, codes,
}
use opentelemetry_go_auto_in.Util.Commands.{assert_go_build}

-- goBuildCmd[:2] and goBuildCmd[2:], a panic where the command is shorter.
unfoldable pub split_at_two : List Str → Outcome (List Str × List Str)
split_at_two [] = panicked
split_at_two (a ∷ []) = panicked
split_at_two (a ∷ b ∷ rest) = ok (a ∷ b ∷ [], rest)

unfoldable pub dry_build_args : List Str → Outcome (List Str)
unfolding split_at_two
dry_build_args cmd = do
  (head, rest) ← split_at_two cmd
  let args = head ++ (codes "-a" ∷ codes "-x" ∷ codes "-n" ∷ []) ++ rest
  assert_go_build cmd
  assert_go_build args
  ok args

-- nullDevice
abbrev pub null_device : Bool → Str
null_device windows = if windows then codes "NUL" else codes "/dev/null"

module _ (windows debug restore : Bool) (exe : Str) where
  abbrev pub toolexec_flags : List Str
  toolexec_flags =
      (codes "-toolexec=" ++ (exe ++ codes " remix"))
      ∷ codes "-work"
      ∷ codes "-a"
      ∷ (if debug then codes "-gcflags=all=-N -l" ∷ [] else [])

  abbrev pub restore_flags : List Str
  restore_flags = if restore then codes "-o" ∷ null_device windows ∷ [] else []

  unfoldable pub toolexec_args : List Str → Outcome (List Str)
  unfolding split_at_two
  toolexec_args cmd = do
    (head, rest) ← split_at_two cmd
    let args = head ++ (toolexec_flags ++ (rest ++ restore_flags))
    assert_go_build args
    ok args

  -- For a command that AssertGoBuild accepts, neither build panics: each runs that command's first
  -- two words, then the tool's flags, then the rest of the command, and for the toolexec build the
  -- flags of a restore.
  pub build_args_total :
      (cmd : List Str)
      → assert_go_build cmd ≡ ok tt
      → (dry_build_args cmd
          ≡ ok (take 2 cmd ++ (codes "-a" ∷ codes "-x" ∷ codes "-n" ∷ []) ++ drop 2 cmd))
        × (toolexec_args cmd ≡ ok (take 2 cmd ++ (toolexec_flags ++ (drop 2 cmd ++ restore_flags))))
  unfolding assert_go_build dry_build_args toolexec_args
  build_args_total [] h = cc
  build_args_total (a ∷ []) h = cc
  build_args_total (a ∷ b ∷ rest) h = (rw h refl, rw h refl)
