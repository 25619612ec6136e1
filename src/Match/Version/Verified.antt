-- ===== src/Match/Version/Verified.antt =====
-- What matchVersion does with the version texts that Verify accepts.
use opentelemetry_go_auto_in.Base.{
  ◌≡◌, ◌≢◌, inl, inr, Bool, true, false, ◌||◌, [], ◌∷◌, refl, arith, if◌then◌else◌, Bool-cases, ok,
  err, panicked, codes, remove_byte, index_byte, Code, Str, str_eq, str_eq_iff, >>=-eq-ok,
  contains_byte,
}
use Prim.Native.Nat.{Ordering}
use opentelemetry_go_auto_in.Resource.RuleDef.{
  InstBaseRule, InstRule, func_rule, struct_rule, file_rule, base_of, get_version, get_go_version,
  is_range_text, verify_versions, verify_rule, verify_rule_base, verify_rule_base_without_path,
  verify_func, verify_struct, verify_file, verify,
}
use opentelemetry_go_auto_in.Match.Version.{
  match_version, match_bounds, is_invalid_range, split_version_range, slice,
}
use opentelemetry_go_auto_in.Match.Version.Ranges.{match_version-err_iff}

-- A version text that is empty or has the format of a range.
abbrev is_well_formed : Str → Bool
is_well_formed v = str_eq v [] || is_range_text v

abbrev HasFormats : InstBaseRule → Type 0
HasFormats b = (is_well_formed b.version ≡ true) × (is_well_formed b.go_version ≡ true)

verify_rule-HasFormats :
    (b : InstBaseRule) (check_path : Bool) → verify_rule b check_path ≡ ok tt → HasFormats b
unfolding verify_rule verify_versions
verify_rule-HasFormats b check_path h = ground (arith, h)

verify-HasFormats : (r : InstRule) → verify r ≡ ok tt → HasFormats (base_of r)
unfolding verify verify_func verify_struct verify_file verify_rule_base
    verify_rule_base_without_path
verify-HasFormats (func_rule r) h =
    let (u, first, rest) =
      >>=-eq-ok
        (if r.use_raw then verify_rule_base_without_path r.base else verify_rule_base r.base) _ h in
    elim (Bool-cases r.use_raw) [
      | inl e ↦ verify_rule-HasFormats r.base true (ground (arith, e, first))
      | inr e ↦ verify_rule-HasFormats r.base false (ground (arith, e, first))
    ]
verify-HasFormats (struct_rule r) h =
    let (u, first, rest) = >>=-eq-ok (verify_rule_base_without_path r.base) _ h in
    verify_rule-HasFormats r.base true first
verify-HasFormats (file_rule r) h =
    let (u, first, rest) = >>=-eq-ok (verify_rule_base r.base) _ h in
    verify_rule-HasFormats r.base false first

-- The two tests are each other's negation.
is_invalid_range-is_range_text : (v : Str) → is_range_text v ≡ true → is_invalid_range v ≡ false
unfolding is_range_text is_invalid_range
is_invalid_range-is_range_text v h = ground (arith, h)

module _ (compare : Str → Str → Ordering) where
  no_error :
      (version range : Str)
      → contains_byte version b'v' ≡ true
      → is_well_formed range ≡ true
      → (c : Code) → match_version compare version range ≢ err c
  no_error version range hv hw c e =
      let (which, given, bad) = (match_version-err_iff compare version range c).0 e in
      ground (arith, hv, hw, given, bad, str_eq_iff range [], is_invalid_range-is_range_text range)

  no_bound_panics :
      (version range : Str)
      → contains_byte version b'v' ≡ true
      → is_well_formed range ≡ true
      → remove_byte range b' ' ≡ codes "[,)"
      → match_version compare version range ≡ panicked
  unfolding match_version match_bounds split_version_range slice index_byte contains_byte
      remove_byte str_eq
  no_bound_panics version [] hv hw e = cc
  no_bound_panics version (b ∷ range) hv hw e =
      let valid : is_invalid_range (b ∷ range) ≡ false =
        is_invalid_range-is_range_text (b ∷ range) hw in
      rw (hv, valid, e) refl

  -- What matchVersion does with a version text that Verify has accepted, asked about a version.
  abbrev pub Judged : Str → Str → Type 0
  Judged version range =
      ((c : Code) → match_version compare version range ≢ err c)
      × (remove_byte range b' ' ≡ codes "[,)" → match_version compare version range ≡ panicked)

  -- For a rule that Verify accepts, and a version with a `v`, matchVersion never returns an error on
  -- the rule's version range or Go version range; it may panic all the same, and does so where the
  -- range, spaces left out, is `[,)`.
  pub verify-match_version :
      (r : InstRule) (version : Str)
      → verify r ≡ ok tt
      → contains_byte version b'v' ≡ true
      → Judged version (get_version r) × Judged version (get_go_version r)
  verify-match_version r version h hv =
      let (v, g) = verify-HasFormats r h in
      (
        (no_error version (get_version r) hv v, no_bound_panics version (get_version r) hv v),
        (no_error version (get_go_version r) hv g, no_bound_panics version (get_go_version r) hv g),
      )
