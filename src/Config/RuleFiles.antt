-- ===== src/Config/RuleFiles.antt =====
-- The rule files of the configuration, once their paths are absolute, split into the same files.
use opentelemetry_go_auto_in.Base.{
  ℕ, not, ◌==◌, ◌||◌, ◌≢◌, ◌≡◌, refl, sym, ap, ◌∙◌, Bool, true, false, Option, some, List, [], ◌∷◌,
  ◌++◌, map, all, arith, ok, >>=-eq-ok, Str, str_eq, contains_byte, split, split_from, Bool-cases,
  inl, inr,
}
use mathlib.Core.List.{append-nil, append_assoc}
use opentelemetry_go_auto_in.Config.{
  BuildConfig, join, make_rule_abs, make_all_abs, parse_rule_files,
}

-- A separator is not among the bytes that are collected.
split_from-append :
    (cur x rest : Str) (b : ℕ)
    → contains_byte x b ≡ false
    → split_from cur (x ++ (b ∷ rest)) b ≡ (cur ++ x) ∷ split_from [] rest b
unfolding split_from contains_byte
split_from-append cur [] rest b h = ground (arith, append-nil cur)
split_from-append cur (c ∷ x) rest b h = ground (
  arith,
  split_from-append (cur ++ c ∷ []) x rest b (ground (arith, h)),
  append_assoc cur (c ∷ []) x,
)

split_from_whole :
    (cur x : Str) (b : ℕ) → contains_byte x b ≡ false → split_from cur x b ≡ (cur ++ x) ∷ []
unfolding split_from contains_byte
split_from_whole cur [] b h = rw append-nil
split_from_whole cur (c ∷ x) b h =
    ground
      (arith, split_from_whole (cur ++ c ∷ []) x b (ground (arith, h)), append_assoc cur (c ∷ []) x)

split-join :
    (x : Str) (xs : List Str) (b : ℕ)
    → all (λ y. not (contains_byte y b)) (x ∷ xs) ≡ true
    → split (join (x ∷ xs) b) b ≡ x ∷ xs
unfolding split join
split-join x [] b h = split_from_whole [] x b (ground (arith, h))
split-join x (y ∷ xs) b h =
    split_from-append [] x (join (y ∷ xs) b) b (ground (arith, h))
    ∙ ap (λ ys. x ∷ ys) (split-join y xs b (ground (arith, h)))

-- A split has at least one part.
split_from_cons : {A : Type 0} (cur s : Str) (b : ℕ) (f : Str → A) → map f (split_from cur s b) ≢ []
unfolding split_from
split_from_cons cur [] b f h = cc
split_from_cons cur (c ∷ s) b f h = elim (Bool-cases (c == b)) [
  | inl e ↦ ground (arith, e, h)
  | inr e ↦ split_from_cons (cur ++ c ∷ []) s b f (ground (arith, e, h))
]

-- The parts of a split are without the separator.
contains_byte-append :
    (x : Str) (c b : ℕ) → contains_byte (x ++ c ∷ []) b ≡ (contains_byte x b || c == b)
unfolding contains_byte
contains_byte-append [] c b = ground arith
contains_byte-append (d ∷ x) c b = ground (arith, contains_byte-append x c b)

split_from-apart :
    (cur s : Str) (b : ℕ)
    → contains_byte cur b ≡ false
    → all (λ y. not (contains_byte y b)) (split_from cur s b) ≡ true
unfolding split_from
split_from-apart cur [] b h = ground (arith, h)
split_from-apart cur (c ∷ s) b h = elim (Bool-cases (c == b)) [
  | inl e ↦ rw e (ground (arith, h, split_from-apart [] s b (unfold contains_byte in refl)))
  | inr e ↦
      rw e
        (split_from-apart (cur ++ c ∷ []) s b (contains_byte-append cur c b ∙ ground (arith, h, e)))
]

split-apart : (s : Str) → all (λ y. not (contains_byte y b',')) (split s b',') ≡ true
unfolding split
split-apart s = split_from-apart [] s b',' (unfold contains_byte in refl)

contains_byte-str_eq : (s : Str) (b : ℕ) → contains_byte s b ≡ true → str_eq s [] ≡ false
unfolding contains_byte str_eq
contains_byte-str_eq [] b h = cc
contains_byte-str_eq (c ∷ s) b h = refl

module _ (exists : Str → Bool) (abs : Str → Option Str) where
  make_rule_abs-abs :
      (file f : Str)
      → make_rule_abs exists abs file ≡ ok f
      → (abs file ≡ some f) × (exists file ≡ true)
  unfolding make_rule_abs
  make_rule_abs-abs file f h = ground (arith, h)

  make_all_abs-abs :
      (files fs : List Str)
      → make_all_abs exists abs files ≡ ok fs
      → (map abs files ≡ map some fs) × (all exists files ≡ true)
  unfolding make_all_abs
  make_all_abs-abs [] [] h = (refl, refl)
  make_all_abs-abs [] (f ∷ fs) h = cc
  make_all_abs-abs (file ∷ files) fs h =
      let (f, e, h1) = >>=-eq-ok (make_rule_abs exists abs file) _ h in
      let (fs', e', h2) = >>=-eq-ok (make_all_abs exists abs files) _ h1 in
      let (at, found) = make_rule_abs-abs file f e in
      let (ats, all_found) = make_all_abs-abs files fs' e' in
      ground (arith, h2, at, found, ats, all_found)

  -- A path without a comma has an absolute path without one, as in a working directory without one.
  abbrev pub KeepsCommaFree : Type 0
  KeepsCommaFree =
      (p q : Str) → contains_byte p b',' ≡ false → abs p ≡ some q → contains_byte q b',' ≡ false

  without_comma :
      (files fs : List Str)
      → all (λ y. not (contains_byte y b',')) files ≡ true
      → KeepsCommaFree
      → map abs files ≡ map some fs
      → all (λ y. not (contains_byte y b',')) fs ≡ true
  without_comma [] [] w k e = refl
  without_comma [] (f ∷ fs) w k e = cc
  without_comma (file ∷ files) [] w k e = refl
  without_comma (file ∷ files) (f ∷ fs) w k e =
      let at : abs file ≡ some f = cc in
      let rest : map abs files ≡ map some fs = cc in
      ground (
        arith,
        w,
        k file f (ground (arith, w)) at,
        without_comma files fs (ground (arith, w)) k rest,
      )

  split-join_abs :
      (fs : List Str) (s : Str)
      → KeepsCommaFree
      → map abs (split s b',') ≡ map some fs
      → split (join fs b',') b',' ≡ fs
  split-join_abs [] s k e = unfold split in absurd (split_from_cons [] s b',' abs e)
  split-join_abs (f ∷ fs) s k e =
      split-join f fs b',' (without_comma (split s b',') (f ∷ fs) (split-apart s) k e)

  -- When several rule files are given in the preprocess phase and their paths are made absolute,
  -- what the configuration then holds splits at the commas into the absolute paths of the given
  -- files, in their order, provided that the absolute path of a path without a comma has none;
  -- and every file exists.
  pub parse_rule_files-split :
      (conf conf' : BuildConfig)
      → contains_byte conf.rule_json_files b',' ≡ true
      → KeepsCommaFree
      → parse_rule_files exists abs false conf ≡ ok conf'
      → (map abs (split conf.rule_json_files b',') ≡ map some (split conf'.rule_json_files b','))
        × (all exists (split conf.rule_json_files b',') ≡ true)
  unfolding parse_rule_files
  parse_rule_files-split conf conf' hc no_comma h =
      let given = contains_byte-str_eq conf.rule_json_files b',' hc in
      let (fs, e, made) =
        >>=-eq-ok (make_all_abs exists abs (split conf.rule_json_files b','))
          (λ files. ok (record conf { rule_json_files = join files b',' })) {result = conf'}
          (ground (arith, h, hc, given)) in
      let (ats, found) = make_all_abs-abs (split conf.rule_json_files b',') fs e in
      let same : record conf { rule_json_files = join fs b',' } ≡ conf' = cc in
      let joined : split (join fs b',') b',' ≡ fs =
        split-join_abs fs conf.rule_json_files no_comma ats in
      (
        ats
            ∙ ap (λ xs. map some xs)
                (sym joined ∙ ap (λ (c : BuildConfig). split c.rule_json_files b',') same),
        found,
      )
