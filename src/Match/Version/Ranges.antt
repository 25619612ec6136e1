-- ===== src/Match/Version/Ranges.antt =====
-- What the version ranges of rules mean, and that matchVersion decides it.
use opentelemetry_go_auto_in.Base.{
  ℕ, suc, ◌+◌, ◌-◌, ◌≡◌, refl, ◌∙◌, ◌≢◌, ◌↔◌, ◌⊎◌, Bool, true, false, ◌&&◌, Option, none, some, [],
  ◌∷◌, ◌++◌, arith, length, take, drop, length-append, take-append, Outcome, ok, err, panicked,
  ◌>>=◌, Code, Str, codes, str_eq, str_eq_iff, index_byte, contains_byte, remove_byte,
}
use Prim.Native.Nat.{Ordering}
use mathlib.Core.List.{append_assoc}
use opentelemetry_go_auto_in.Base.Text.Bytes.{
  contains_byte-append, contains_byte-remove_byte, index_byte-append,
}
use opentelemetry_go_auto_in.Match.Version.{
  slice, split_version_range, at_least, less, match_bounds, is_invalid_range, match_version,
}

-- A range with each bound given or omitted.
pub record Range : Type 0 where
  pub start : Option Str
  pub end : Option Str

abbrev pub bound_text : Option Str → Str
bound_text none = []
bound_text (some s) = s

-- "[start,end)"
abbrev pub range_text : Range → Str
range_text r = b'[' ∷ (bound_text r.start ++ (b',' ∷ (bound_text r.end ++ (b')' ∷ []))))

abbrev pub above : (Str → Str → Ordering) → Str → Option Str → Bool
above compare version none = true
above compare version (some s) = at_least (compare version (b'v' ∷ s))

abbrev pub below : (Str → Str → Ordering) → Str → Option Str → Bool
below compare version none = true
below compare version (some s) = less (compare version (b'v' ∷ s))

-- start ≤ version < end, where an omitted bound does not restrict.
abbrev pub in_range : (Str → Str → Ordering) → Str → Range → Bool
in_range compare version r = above compare version r.start && below compare version r.end

-- A bound that is given is not empty, and has neither a comma nor a `v`.
abbrev pub IsBound : Option Str → Type 0
IsBound none = Unit
IsBound (some s) = (s ≢ []) × (contains_byte s b',' ≡ false) × (contains_byte s b'v' ≡ false)

drop-take-append :
    (p m q : Str) (n : ℕ) → n ≡ length p + length m → drop (length p) (take n (p ++ (m ++ q))) ≡ m
drop-take-append [] m q n h = rw (let e : n ≡ length m = omega arith in e) (take-append m q)
drop-take-append (x ∷ p) m q n h =
    rw (let e : n ≡ suc (length p + length m) = omega arith in e) (drop-take-append p m q _ refl)

-- A slice between two lengths is the part that stands there.
slice-append :
    (p m q : Str) (lo hi : ℕ)
    → lo ≡ length p
    → hi ≡ length p + length m
    → slice (p ++ (m ++ q)) lo hi ≡ ok m
unfolding slice
slice-append p m q lo hi l h =
    ground (arith, length-append p (m ++ q), length-append m q, drop-take-append p m q hi h)

slice-second :
    (s e : Str) (lo hi : ℕ)
    → lo ≡ length s + 2
    → hi ≡ length s + 2 + length e
    → slice (b'[' ∷ (s ++ (b',' ∷ (e ++ (b')' ∷ []))))) lo hi ≡ ok e
slice-second s e lo hi l h =
    rw
      (let a : s ++ (b',' ∷ (e ++ (b')' ∷ []))) ≡ (s ++ b',' ∷ []) ++ (e ++ (b')' ∷ [])) =
          simp append_assoc in
        a)
      (slice-append (b'[' ∷ (s ++ b',' ∷ [])) e (b')' ∷ []) lo hi
        (omega (arith, length-append s (b',' ∷ []))) (omega (arith, length-append s (b',' ∷ []))))

module _ (s e : Str) (h : contains_byte s b',' ≡ false) where
  abbrev text : Str
  text = b'[' ∷ (s ++ (b',' ∷ (e ++ (b')' ∷ []))))

  text-has_comma : contains_byte text b',' ≡ true
  text-has_comma =
      unfold contains_byte in
      ground (arith, contains_byte-append s (b',' ∷ (e ++ (b')' ∷ []))) b',')

  text-has_close : contains_byte text b')' ≡ true
  text-has_close =
      unfold contains_byte in
      ground (
        arith,
        contains_byte-append s (b',' ∷ (e ++ (b')' ∷ []))) b')',
        contains_byte-append e (b')' ∷ []) b')',
      )

  text-has_open : contains_byte text b'[' ≡ true
  text-has_open = unfold contains_byte in ground arith

  index-text : index_byte text b',' ≡ some (suc (length s))
  index-text = unfold index_byte in ground (arith, index_byte-append s (e ++ (b')' ∷ [])) b',' h)

  split_version_range-range_text : split_version_range text ≡ ok (b'v' ∷ s, b'v' ∷ e)
  unfolding split_version_range
  split_version_range-range_text =
      rw (text-has_comma, text-has_open, text-has_close, index-text)
        (rw
          (slice-append (b'[' ∷ []) s (b',' ∷ (e ++ (b')' ∷ []))) 1 (suc (length s)) (omega arith)
            (omega arith))
          (rw (
            slice-second s e (suc (length s) + 1) (length text - 1) (omega arith) (
              omega (
                arith,
                length-append s (b',' ∷ (e ++ (b')' ∷ []))),
                length-append e (b')' ∷ []),
              )))))

module _ (s e : Str) (hs : contains_byte s b',' ≡ false) (v : contains_byte s b'v' ≡ false)
    (v' : contains_byte e b'v' ≡ false) where
  text-no_v : contains_byte (text s e hs) b'v' ≡ false
  text-no_v =
      unfold contains_byte in
      ground (
        arith,
        contains_byte-append s (b',' ∷ (e ++ (b')' ∷ []))) b'v',
        contains_byte-append e (b')' ∷ []) b'v',
      )

  -- A rule version with spaces anywhere passes the format test.
  is_invalid_range_of_text :
      (w : Str) → remove_byte w b' ' ≡ text s e hs → is_invalid_range w ≡ false
  unfolding is_invalid_range
  is_invalid_range_of_text w p =
      rw
        (
          ← contains_byte-remove_byte w b' ' b'[' refl,
          ← contains_byte-remove_byte w b' ' b')' refl,
          ← contains_byte-remove_byte w b' ' b',' refl,
          ← contains_byte-remove_byte w b' ' b'v' refl,
          p,
          text-has_open s e hs,
          text-has_close s e hs,
          text-has_comma s e hs,
          text-no_v,
        )
        refl

no_comma : (o : Option Str) → IsBound o → contains_byte (bound_text o) b',' ≡ false
unfolding contains_byte
no_comma none h = refl
no_comma (some s) h = h.1

no_v : (o : Option Str) → IsBound o → contains_byte (bound_text o) b'v' ≡ false
unfolding contains_byte
no_v none h = refl
no_v (some s) h = h.2

not-empty_of_range : (w : Str) → is_invalid_range w ≡ false → str_eq w [] ≡ false
unfolding is_invalid_range contains_byte str_eq
not-empty_of_range [] h = cc
not-empty_of_range (c ∷ w) h = refl

module _ (compare : Str → Str → Ordering) (version : Str) where
  -- matchVersion on a well-formed range is the test of its two bounds.
  match_version-text :
      (s e w : Str) (hs : contains_byte s b',' ≡ false)
      → contains_byte s b'v' ≡ false
      → contains_byte e b'v' ≡ false
      → contains_byte version b'v' ≡ true
      → remove_byte w b' ' ≡ text s e hs
      → match_version compare version w ≡ match_bounds compare version (b'v' ∷ s, b'v' ∷ e)
  unfolding match_version
  match_version-text s e w hs v v' hv p =
      rw
        (
          not-empty_of_range w (is_invalid_range_of_text s e hs v v' w p),
          hv,
          is_invalid_range_of_text s e hs v v' w p,
          p,
          split_version_range-range_text s e hs,
        )
        refl

  match_bounds-in_range :
      (r : Range)
      → IsBound r.start
      → IsBound r.end
      → (r.start ≢ none) ⊎ (r.end ≢ none)
      → match_bounds compare version (b'v' ∷ bound_text r.start, b'v' ∷ bound_text r.end)
        ≡ ok (in_range compare version r)
  unfolding match_bounds str_eq
  match_bounds-in_range r hs he given = ground arith

  -- For a version that has a `v` and a rule version that, its spaces removed, is a range with at
  -- least one bound, matchVersion returns, with no error and no panic, whether
  -- start ≤ version < end, an omitted bound restricting nothing.
  pub match_version-in_range :
      (w : Str) (r : Range)
      → contains_byte version b'v' ≡ true
      → remove_byte w b' ' ≡ range_text r
      → IsBound r.start
      → IsBound r.end
      → (r.start ≢ none) ⊎ (r.end ≢ none)
      → match_version compare version w ≡ ok (in_range compare version r)
  match_version-in_range w r hv p hs he given =
      match_version-text (bound_text r.start) (bound_text r.end) w (no_comma r.start hs)
        (no_v r.start hs) (no_v r.end he) hv p
      ∙ match_bounds-in_range r hs he given

  -- For a version that has a `v` and a rule version that is "[,)" up to spaces, matchVersion
  -- panics: the error of its default branch is never returned.
  pub match_version_both_omitted :
      (w : Str)
      → contains_byte version b'v' ≡ true
      → remove_byte w b' ' ≡ codes "[,)"
      → match_version compare version w ≡ panicked
  match_version_both_omitted w hv p =
      match_version-text [] [] w (unfold contains_byte in refl) (unfold contains_byte in refl)
        (unfold contains_byte in refl) hv p
      ∙ (unfold match_bounds str_eq in refl)

  split_version_range-ne_err : (w : Str) (c : Code) → split_version_range w ≢ err c
  unfolding split_version_range slice
  split_version_range-ne_err w c h = ground arith

  match_bounds-ne_err : (b : Str × Str) (c : Code) → match_bounds compare version b ≢ err c
  unfolding match_bounds
  match_bounds-ne_err (s, e) c h = ground arith

  tail-ne_err :
      (o : Outcome (Str × Str)) (c : Code)
      → o ≢ err c
      → (o >>= match_bounds compare version) ≢ err c
  tail-ne_err (ok b) c h = match_bounds-ne_err b c
  tail-ne_err (err d) c h = λ e. h (cc)
  tail-ne_err panicked c h = λ e. cc

  pub match_version-err_iff :
      (w : Str) (c : Code)
      → (match_version compare version w ≡ err c) ↔ (
          (c ≡ Code.match_rule)
          × (w ≢ [])
          × ((contains_byte version b'v' ≡ false) ⊎ (is_invalid_range w ≡ true)))
  unfolding match_version
  match_version-err_iff w c =
      let bounds = split_version_range (remove_byte w b' ') in
      let never = tail-ne_err bounds c (split_version_range-ne_err (remove_byte w b' ') c) in
      (λ h. ground (arith, str_eq_iff w [], never), λ h. ground (arith, str_eq_iff w []))
