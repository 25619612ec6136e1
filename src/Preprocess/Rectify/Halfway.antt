-- ===== src/Preprocess/Rectify/Halfway.antt =====
-- States between the start and the end of rectifyRule: every rule as it was or as it shall be, and
-- what a change of one rule does to them.
use opentelemetry_go_auto_in.Base.{
  ℕ, ◌≡◌, refl, subst, ◌∙◌, ◌⊎◌, inl, inr, Bool, true, false, ◌||◌, List, [], ◌∷◌, ◌==◌, ==_iff,
  arith, if◌then◌else◌, All, Bool-cases, Str, str_eq, str_eq_refl, eq_of_str_eq, trim_prefix,
}
use opentelemetry_go_auto_in.Base.Dict.{Dict}
use opentelemetry_go_auto_in.Resource.RuleDef.{InstFuncRule, InstFileRule}
use opentelemetry_go_auto_in.Preprocess.Replace.{pkg_prefix}
use opentelemetry_go_auto_in.Preprocess.Rectify.{
  RuleRefs, RuleStore, set_func, set_file, is_rectified, each, local_path, local_func, local_file,
  mark, change_func, change_file,
}

-- `is_local` holds of the paths in the local cache. No rule has one to begin with.
module _ (join : Str → Str → Str) (cache : Str) (is_local : Str → Bool) (start : RuleStore) where
  -- The rule as it shall be.
  abbrev pub wanted_func : ℕ → InstFuncRule
  wanted_func i =
      if (start.funcs i).use_raw then start.funcs i else local_func join cache (start.funcs i)

  abbrev pub wanted_file : ℕ → InstFileRule
  wanted_file i = local_file join cache (start.files i)

  -- It is, and if it was changed its new path is marked.
  abbrev pub FuncDone : RuleStore → ℕ → Type 0
  FuncDone s i =
      (s.funcs i ≡ wanted_func i)
      × (((start.funcs i).use_raw
            || is_rectified s (local_path join cache (start.funcs i).base.path))
          ≡ true)

  abbrev pub FileDone : RuleStore → ℕ → Type 0
  FileDone s i =
      (s.files i ≡ wanted_file i)
      × (is_rectified s (local_path join cache (start.files i).base.path) ≡ true)

  -- Every rule is as it was or as it shall be, and only local paths are marked.
  pub record IsHalfway (s : RuleStore) : Type 0 where
    pub func_state : (i : ℕ) → (s.funcs i ≡ start.funcs i) ⊎ FuncDone s i
    pub file_state : (i : ℕ) → (s.files i ≡ start.files i) ⊎ FileDone s i
    pub marked_local : (p : Str) → is_rectified s p ≡ true → is_local p ≡ true

  -- A later state: what is done stays done.
  pub record Later (s s' : RuleStore) : Type 0 where
    pub halfway : IsHalfway s'
    pub funcs_stay : (i : ℕ) → FuncDone s i → FuncDone s' i
    pub files_stay : (i : ℕ) → FileDone s i → FileDone s' i

  pub Later-refl : (s : RuleStore) → IsHalfway s → Later s s
  Later-refl s h = record { halfway = h; funcs_stay = λ i d. d; files_stay = λ i d. d }

  pub Later-trans : (s t u : RuleStore) → Later s t → Later t u → Later s u
  Later-trans s t u h k = record {
    halfway = k.halfway;
    funcs_stay = λ i d. k.funcs_stay i (h.funcs_stay i d);
    files_stay = λ i d. k.files_stay i (h.files_stay i d);
  }

  pub each-Later {ℓ} :
      {A : Type ℓ} (f : A → RuleStore → RuleStore) (Good : A → RuleStore → Type 0)
      → ((a : A) → (s : RuleStore) → IsHalfway s → Later s (f a s) × Good a (f a s))
      → ((a : A) → (s t : RuleStore) → Later s t → Good a s → Good a t)
      → (l : List A) (s : RuleStore) → IsHalfway s
      → Later s (each f l s) × All (λ a. Good a (each f l s)) l
  each-Later f Good step stays [] s h = (Later-refl s h, tt)
  each-Later f Good step stays (a ∷ l) s h =
      let (first, good) = step a s h in
      let (rest, all) = each-Later f Good step stays l (f a s) first.halfway in
      (
        Later-trans s (f a s) (each f l (f a s)) first rest,
        (stays a (f a s) (each f l (f a s)) rest good, all),
      )

  marked_more :
      (p q : Str) (s : RuleStore)
      → is_rectified s q ≡ true
      → is_rectified (mark join cache p s) q ≡ true
  marked_more p q s h = ground (arith, h)

  marked_here : (p : Str) (s : RuleStore) → is_rectified (mark join cache p s) p ≡ true
  marked_here p s = rw (str_eq_refl p) refl

  marked_states :
      (local : (path : Str) → is_local (join cache path) ≡ true) (path q : Str) (s : RuleStore)
      → IsHalfway s
      → is_rectified (mark join cache (local_path join cache path) s) q ≡ true
      → is_local q ≡ true
  marked_states local path q s h e = elim (Bool-cases (str_eq (local_path join cache path) q)) [
    | inl same ↦
        subst (λ p. is_local p ≡ true) (eq_of_str_eq (local_path join cache path) q same)
          (local (trim_prefix path pkg_prefix))
    | inr other ↦ h.marked_local q (ground (arith, other, e))
  ]

  -- Marking a path keeps what is done.
  funcs_kept : (p : Str) (j : ℕ) (s : RuleStore) → FuncDone s j → FuncDone (mark join cache p s) j
  funcs_kept p j s d = (d.0, ground (arith, d.1))

  files_kept : (p : Str) (j : ℕ) (s : RuleStore) → FileDone s j → FileDone (mark join cache p s) j
  files_kept p j s d = (d.0, marked_more p (local_path join cache (start.files j).base.path) s d.1)

  abbrev func_written : ℕ → RuleStore → RuleStore
  func_written i s =
      mark join cache (local_path join cache (start.funcs i).base.path)
        (set_func i (local_func join cache (start.funcs i)) s)

  func_written-done :
      (i j : ℕ) (s : RuleStore)
      → (start.funcs i).use_raw ≡ false
      → (i == j) ≡ true
      → FuncDone (func_written i s) j
  func_written-done i j s raw e =
      let p : Str = local_path join cache (start.funcs i).base.path in
      let s1 : RuleStore = set_func i (local_func join cache (start.funcs i)) s in
      let self : (i == i) ≡ true = ground arith in
      subst (FuncDone (func_written i s)) ((==_iff i j).0 e)
        (rw self (rw raw refl), ground (arith, marked_here p s1))

  func_written-keeps :
      (i j : ℕ) (s : RuleStore)
      → (start.funcs i).use_raw ≡ false
      → FuncDone s j
      → FuncDone (func_written i s) j
  func_written-keeps i j s raw d =
      let p : Str = local_path join cache (start.funcs i).base.path in
      let q : Str = local_path join cache (start.funcs j).base.path in
      elim (Bool-cases (i == j)) [
        | inl e ↦ func_written-done i j s raw e
        | inr e ↦ (rw e d.0, ground (arith, d.1))
      ]

  pub func_written-Later :
      (local : (path : Str) → is_local (join cache path) ≡ true) (i : ℕ) (s : RuleStore)
      → IsHalfway s
      → (start.funcs i).use_raw ≡ false
      → Later s (func_written i s) × FuncDone (func_written i s) i
  func_written-Later local i s h raw =
      let path : Str = (start.funcs i).base.path in
      let p : Str = local_path join cache path in
      let self : (i == i) ≡ true = ground arith in
      (
        record {
          halfway = record {
            func_state = λ j. elim (Bool-cases (i == j)) [
              | inl e ↦ inr (func_written-done i j s raw e)
              | inr e ↦ elim (h.func_state j) [
                | inl q ↦ inl (rw e q)
                | inr d ↦ inr (func_written-keeps i j s raw d)
              ]
            ];
            file_state =
                λ j. elim (h.file_state j) [ inl e ↦ inl e | inr d ↦ inr (files_kept p j s d) ];
            marked_local = λ q e. marked_states local path q s h e;
          };
          funcs_stay = λ j d. func_written-keeps i j s raw d;
          files_stay = λ j d. files_kept p j s d;
        },
        func_written-done i i s raw self,
      )

  abbrev file_written : ℕ → RuleStore → RuleStore
  file_written i s =
      mark join cache (local_path join cache (start.files i).base.path)
        (set_file i (local_file join cache (start.files i)) s)

  file_written-done : (i j : ℕ) (s : RuleStore) → (i == j) ≡ true → FileDone (file_written i s) j
  file_written-done i j s e =
      let p : Str = local_path join cache (start.files i).base.path in
      let s1 : RuleStore = set_file i (local_file join cache (start.files i)) s in
      let self : (i == i) ≡ true = ground arith in
      subst (FileDone (file_written i s)) ((==_iff i j).0 e) (rw self refl, marked_here p s1)

  file_written-keeps : (i j : ℕ) (s : RuleStore) → FileDone s j → FileDone (file_written i s) j
  file_written-keeps i j s d =
      let p : Str = local_path join cache (start.files i).base.path in
      let q : Str = local_path join cache (start.files j).base.path in
      elim (Bool-cases (i == j)) [
        | inl e ↦ file_written-done i j s e
        | inr e ↦ (rw e d.0, marked_more p q s d.1)
      ]

  pub file_written-Later :
      (local : (path : Str) → is_local (join cache path) ≡ true) (i : ℕ) (s : RuleStore)
      → IsHalfway s
      → Later s (file_written i s) × FileDone (file_written i s) i
  file_written-Later local i s h =
      let path : Str = (start.files i).base.path in
      let p : Str = local_path join cache path in
      let self : (i == i) ≡ true = ground arith in
      (
        record {
          halfway = record {
            file_state = λ j. elim (Bool-cases (i == j)) [
              | inl e ↦ inr (file_written-done i j s e)
              | inr e ↦ elim (h.file_state j) [
                | inl q ↦ inl (rw e q)
                | inr d ↦ inr (file_written-keeps i j s d)
              ]
            ];
            func_state =
                λ j. elim (h.func_state j) [ inl e ↦ inl e | inr d ↦ inr (funcs_kept p j s d) ];
            marked_local = λ q e. marked_states local path q s h e;
          };
          files_stay = λ j d. file_written-keeps i j s d;
          funcs_stay = λ j d. funcs_kept p j s d;
        },
        file_written-done i i s self,
      )

  pub raw_same :
      (i : ℕ) (s : RuleStore)
      → (start.funcs i).use_raw ≡ true
      → (s.funcs i ≡ start.funcs i) ⊎ FuncDone s i
      → s.funcs i ≡ start.funcs i
  raw_same i s raw (inl e) = e
  raw_same i s raw (inr d) = d.0 ∙ rw raw refl

  pub not_raw :
      (i : ℕ) (s : RuleStore)
      → (start.funcs i).use_raw ≡ false
      → FuncDone s i
      → s.funcs i ≡ local_func join cache (start.funcs i)
  not_raw i s raw d = d.0 ∙ rw raw refl

  -- A path that is not local is not marked.
  pub unmarked :
      (p : Str) (s : RuleStore) → IsHalfway s → is_local p ≡ false → is_rectified s p ≡ false
  unmarked p s h remote = elim (Bool-cases (is_rectified s p)) [
    | inr e ↦ e
    | inl e ↦ ground (arith, h.marked_local p e, remote)
  ]

  unfoldable pub func_mark : ℕ → RuleStore → InstFuncRule → RuleStore
  func_mark i s r =
      mark join cache (local_path join cache r.base.path) (set_func i (local_func join cache r) s)

  pub func_changed :
      (i : ℕ) (r : InstFuncRule) (s : RuleStore)
      → r.use_raw ≡ false
      → is_rectified s r.base.path ≡ false
      → change_func join cache i r s ≡ func_mark i s r
  unfolding func_mark
  func_changed i r s raw same = rw raw (rw same refl)

  unfoldable pub file_mark : ℕ → RuleStore → InstFileRule → RuleStore
  file_mark i s r =
      mark join cache (local_path join cache r.base.path) (set_file i (local_file join cache r) s)

  pub file_changed :
      (i : ℕ) (r : InstFileRule) (s : RuleStore)
      → is_rectified s r.base.path ≡ false
      → change_file join cache i r s ≡ file_mark i s r
  unfolding file_mark
  file_changed i r s same = rw same refl

  -- What is done of a list of rules, of a file's functions and of a bundle.
  abbrev pub FuncsDone : RuleStore → List ℕ → Type 0
  FuncsDone s refs = All (FuncDone s) refs

  abbrev pub MapDone : RuleStore → Dict (List ℕ) → Type 0
  MapDone s m = All (λ (entry : Str × List ℕ). FuncsDone s entry.1) m

  abbrev pub BundleDone : RuleStore → RuleRefs → Type 0
  BundleDone s b =
      All (λ (entry : Str × Dict (List ℕ)). MapDone s entry.1) b.func_refs
      × All (FileDone s) b.file_refs
