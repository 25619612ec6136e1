-- ===== src/Preprocess/Rectify/Shared.antt =====
-- Every rule is rectified once, in however many bundles it stands.
use opentelemetry_go_auto_in.Base.{
  ℕ, ◌≡◌, refl, sym, ap, subst, ◌∙◌, ◌⊎◌, inl, inr, Bool, true, false, List, [], arith, All,
  All-map, Bool-cases, Str,
}
use opentelemetry_go_auto_in.Base.Dict.{Dict}
use opentelemetry_go_auto_in.Resource.RuleDef.{InstFuncRule, InstFileRule}
use opentelemetry_go_auto_in.Preprocess.Rectify.{
  RuleRefs, RuleStore, is_rectified, each, rectify_func, rectify_file, rectify_function,
  rectify_functions, rectify_bundle, rectify_rule,
}
use opentelemetry_go_auto_in.Preprocess.Rectify.Halfway.{
  wanted_func, wanted_file, FuncDone, FileDone, IsHalfway, Later, Later-refl, Later-trans,
  each-Later, raw_same, not_raw, unmarked, func_mark, func_changed, file_mark, file_changed,
  func_written-Later, file_written-Later, FuncsDone, MapDone, BundleDone,
}

-- `is_local` holds of the paths in the local cache. No rule has one to begin with.
module _ (join : Str → Str → Str) (cache : Str) (is_local : Str → Bool) (start : RuleStore) where
  module _ (local : (path : Str) → is_local (join cache path) ≡ true)
      (remote_func : (i : ℕ)
        → (start.funcs i).use_raw ≡ false
        → is_local (start.funcs i).base.path ≡ false)
      (remote_file : (i : ℕ) → is_local (start.files i).base.path ≡ false) where
    func_step :
        (i : ℕ) (s : RuleStore)
        → IsHalfway join cache is_local start s
        → Later join cache is_local start s (rectify_func join cache i s)
          × FuncDone join cache is_local start (rectify_func join cache i s) i
    unfolding rectify_func func_mark
    func_step i s h = elim (Bool-cases (start.funcs i).use_raw) [
      | inl raw ↦
          let e = raw_same join cache is_local start i s raw (h.func_state i) in
          let raw' : (s.funcs i).use_raw ≡ true = ap (λ (r : InstFuncRule). r.use_raw) e ∙ raw in
          rw raw' (Later-refl join cache is_local start s h, (e ∙ rw raw refl, rw raw refl))
      | inr raw ↦ elim (h.func_state i) [
        | inl e ↦
            let raw' : (s.funcs i).use_raw ≡ false = ap (λ (r : InstFuncRule). r.use_raw) e ∙ raw in
            let same : is_rectified s (s.funcs i).base.path ≡ false =
              ap (λ (r : InstFuncRule). is_rectified s r.base.path) e
              ∙ unmarked join cache is_local start (start.funcs i).base.path s h
                  (remote_func i raw) in
            subst
              (λ (t : RuleStore).
                Later join cache is_local start s t × FuncDone join cache is_local start t i)
              (sym (
                func_changed join cache is_local start i (s.funcs i) s raw' same
                ∙ ap (func_mark join cache is_local start i s) e))
              (func_written-Later join cache is_local start local i s h raw)
        | inr d ↦
            let e = not_raw join cache is_local start i s raw d in
            let raw' : (s.funcs i).use_raw ≡ false = ap (λ (r : InstFuncRule). r.use_raw) e ∙ raw in
            let same : is_rectified s (s.funcs i).base.path ≡ true =
              ap (λ (r : InstFuncRule). is_rectified s r.base.path) e ∙ ground (arith, d.1, raw) in
            rw raw' (rw same (Later-refl join cache is_local start s h, d))
      ]
    ]

    file_step :
        (i : ℕ) (s : RuleStore)
        → IsHalfway join cache is_local start s
        → Later join cache is_local start s (rectify_file join cache i s)
          × FileDone join cache is_local start (rectify_file join cache i s) i
    unfolding rectify_file file_mark
    file_step i s h = elim (h.file_state i) [
      | inl e ↦
          let same : is_rectified s (s.files i).base.path ≡ false =
            ap (λ (r : InstFileRule). is_rectified s r.base.path) e
            ∙ unmarked join cache is_local start (start.files i).base.path s h (remote_file i) in
          subst
            (λ (t : RuleStore).
              Later join cache is_local start s t × FileDone join cache is_local start t i)
            (sym (
              file_changed join cache is_local start i (s.files i) s same
              ∙ ap (file_mark join cache is_local start i s) e))
            (file_written-Later join cache is_local start local i s h)
      | inr d ↦
          let same : is_rectified s (s.files i).base.path ≡ true =
            ap (λ (r : InstFileRule). is_rectified s r.base.path) d.0 ∙ d.1 in
          rw same (Later-refl join cache is_local start s h, d)
    ]

    FuncsDone-stays :
        (refs : List ℕ) (s t : RuleStore)
        → Later join cache is_local start s t
        → FuncsDone join cache is_local start s refs
        → FuncsDone join cache is_local start t refs
    FuncsDone-stays refs s t k d =
        All-map (FuncDone join cache is_local start s) (FuncDone join cache is_local start t) refs
          k.funcs_stay d

    MapDone-stays :
        (m : Dict (List ℕ)) (s t : RuleStore)
        → Later join cache is_local start s t
        → MapDone join cache is_local start s m
        → MapDone join cache is_local start t m
    MapDone-stays m s t k d =
        All-map (λ (entry : Str × List ℕ). FuncsDone join cache is_local start s entry.1)
          (λ entry. FuncsDone join cache is_local start t entry.1) m
          (λ entry. FuncsDone-stays entry.1 s t k) d

    functions-Later :
        (m : Dict (List ℕ)) (s : RuleStore)
        → IsHalfway join cache is_local start s
        → Later join cache is_local start s (each (rectify_function join cache) m s)
          × MapDone join cache is_local start (each (rectify_function join cache) m s) m
    functions-Later m s h =
        each-Later join cache is_local start (rectify_function join cache)
          (λ entry t. FuncsDone join cache is_local start t entry.1)
          (λ entry t h.
            each-Later join cache is_local start (rectify_func join cache)
              (λ i u. FuncDone join cache is_local start u i) func_step
              (λ i u v k d. k.funcs_stay i d) entry.1 t h)
          (λ entry t u k d. FuncsDone-stays entry.1 t u k d) m s h

    bundle-Later :
        (b : RuleRefs) (s : RuleStore)
        → IsHalfway join cache is_local start s
        → Later join cache is_local start s (rectify_bundle join cache b s)
          × BundleDone join cache is_local start (rectify_bundle join cache b s) b
    unfolding rectify_bundle
    bundle-Later b s h =
        let t : RuleStore = each (rectify_functions join cache) b.func_refs s in
        let (first, funcs) =
          each-Later join cache is_local start (rectify_functions join cache)
            (λ entry u. MapDone join cache is_local start u entry.1)
            (λ entry u k. functions-Later entry.1 u k)
            (λ entry u v k d. MapDone-stays entry.1 u v k d) b.func_refs s h in
        let (rest, files) =
          each-Later join cache is_local start (rectify_file join cache)
            (λ i u. FileDone join cache is_local start u i) file_step
            (λ i u v k d. k.files_stay i d) b.file_refs t first.halfway in
        let u : RuleStore = each (rectify_file join cache) b.file_refs t in
        (
          Later-trans join cache is_local start s t u first rest,
          (
            All-map (λ (entry : Str × Dict (List ℕ)). MapDone join cache is_local start t entry.1)
                (λ entry. MapDone join cache is_local start u entry.1) b.func_refs
                (λ entry. MapDone-stays entry.1 t u rest) funcs,
            files,
          ),
        )

    BundleDone-stays :
        (b : RuleRefs) (s t : RuleStore)
        → Later join cache is_local start s t
        → BundleDone join cache is_local start s b
        → BundleDone join cache is_local start t b
    BundleDone-stays b s t k (funcs, files) = (
      All-map (λ (entry : Str × Dict (List ℕ)). MapDone join cache is_local start s entry.1)
          (λ entry. MapDone join cache is_local start t entry.1) b.func_refs
          (λ entry. MapDone-stays entry.1 s t k) funcs,
      All-map (FileDone join cache is_local start s) (FileDone join cache is_local start t)
          b.file_refs k.files_stay files,
    )

    unmarked_start : IsHalfway join cache is_local start (record start { rectified = [] })
    unmarked_start = record {
      func_state = λ i. inl refl;
      file_state = λ i. inl refl;
      marked_local = λ p e. cc;
    }

    -- When no path of a rule that may be changed is one of the local cache, rectifyRule gives each
    -- rule of the bundles its path in the local cache, once, in however many bundles it stands and
    -- however many rules share a path: the prefix of the rules' module is replaced by the cache, and
    -- the file name of a file rule is put below that path. A rule with raw code stays as it was, and
    -- every other rule is as it was or changed in this way.
    pub rectify_rule_once :
        (bundles : List RuleRefs)
        → let s = rectify_rule join cache bundles start in
          All (BundleDone join cache is_local start s) bundles
          × ((i : ℕ)
              → (s.funcs i ≡ start.funcs i) ⊎ (s.funcs i ≡ wanted_func join cache is_local start i))
          × ((i : ℕ)
              → (s.files i ≡ start.files i) ⊎ (s.files i ≡ wanted_file join cache is_local start i))
    unfolding rectify_rule
    rectify_rule_once bundles =
        let (later, all) =
          each-Later join cache is_local start (rectify_bundle join cache)
            (λ b u. BundleDone join cache is_local start u b) bundle-Later BundleDone-stays bundles
            (record start { rectified = [] }) unmarked_start in
        (
          all,
          λ i. elim (later.halfway.func_state i) [ inl e ↦ inl e | inr d ↦ inr d.0 ],
          λ i. elim (later.halfway.file_state i) [ inl e ↦ inl e | inr d ↦ inr d.0 ],
        )
