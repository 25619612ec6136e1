-- ===== src/Util/Commands/RoundTrip.antt =====
-- A command line that is spelled from arguments is split into them.
use opentelemetry_go_auto_in.Base.{
  ◌≡◌, refl, ap, ◌∙◌, ◌≢◌, ◌⊎◌, inl, inr, Bool, true, false, List, [], ◌∷◌, ◌++◌, map, arith, All,
  Str, contains_byte,
}
use mathlib.Core.List.{append-nil, append_assoc}
use opentelemetry_go_auto_in.Util.Commands.{flush, split_loop, split_cmds}

-- How an argument may be written: as it is, if it has no space and no double quote, or between
-- double quotes, if it has no double quote.
pub data Spelling : Type 0 where
  plain quoted : Spelling

abbrev pub spell : Spelling → Str → Str
spell plain arg = arg
spell quoted arg = 34 ∷ (arg ++ 34 ∷ [])

abbrev pub CanSpell : Spelling × Str → Type 0
CanSpell (plain, arg) =
    (arg ≢ []) × (contains_byte arg 34 ≡ false) × (contains_byte arg b' ' ≡ false)
CanSpell (quoted, arg) = (arg ≢ []) × (contains_byte arg 34 ≡ false) × Unit {0}

-- The spelled arguments with a space behind each.
abbrev pub spell_all : List (Spelling × Str) → Str
spell_all [] = []
spell_all ((s, arg) ∷ rest) = spell s arg ++ (b' ' ∷ spell_all rest)

-- Bytes that are no quote, and no space where that counts, are collected.
collect :
    (in_quotes : Bool) (args : List Str) (cur arg input : Str)
    → contains_byte arg 34 ≡ false
    → (in_quotes ≡ true) ⊎ (contains_byte arg b' ' ≡ false)
    → split_loop args in_quotes cur (arg ++ input) ≡ split_loop args in_quotes (cur ++ arg) input
unfolding split_loop contains_byte
collect q args cur [] input h k = rw append-nil
collect q args cur (c ∷ arg) input h k =
    let ih : split_loop args q (cur ++ c ∷ []) (arg ++ input)
        ≡ split_loop args q ((cur ++ c ∷ []) ++ arg) input =
      collect q args (cur ++ c ∷ []) arg input (ground arith) (ground arith) in
    let assoc : (cur ++ c ∷ []) ++ arg ≡ cur ++ (c ∷ arg) = simp append_assoc in
    ground (arith, ih, ap (λ (u : Str). split_loop args q u input) assoc)

flush-some : (args : List Str) (arg : Str) → arg ≢ [] → flush args arg ≡ args ++ arg ∷ []
unfolding flush
flush-some args [] h = absurd (h refl)
flush-some args (c ∷ arg) h = refl

split-spell :
    (args : List Str) (s : Spelling) (arg input : Str)
    → CanSpell (s, arg)
    → split_loop args false [] (spell s arg ++ (b' ' ∷ input))
      ≡ split_loop (args ++ arg ∷ []) false [] input
unfolding split_loop
split-spell args plain arg input h =
    collect false args [] arg (b' ' ∷ input) h.1 (inr h.2)
    ∙ ap (λ (a : List Str). split_loop a false [] input) (flush-some args arg h.0)
split-spell args quoted arg input h =
    ap (λ (u : Str). split_loop args true [] u) (append_assoc arg (34 ∷ []) (b' ' ∷ input))
    ∙ collect true args [] arg (34 ∷ (b' ' ∷ input)) h.1 (inl refl)
    ∙ ap (λ (a : List Str). split_loop a false [] input) (flush-some args arg h.0)

split_loop-spell_all :
    (args : List Str) (words : List (Spelling × Str))
    → All CanSpell words
    → split_loop args false [] (spell_all words) ≡ args ++ map (λ (w : Spelling × Str). w.1) words
split_loop-spell_all args [] h = unfold split_loop flush in rw append-nil
split_loop-spell_all args ((s, arg) ∷ rest) h =
    split-spell args s arg (spell_all rest) h.0
    ∙ split_loop-spell_all (args ++ arg ∷ []) rest h.1
    ∙ append_assoc args (arg ∷ []) (map (λ (w : Spelling × Str). w.1) rest)

-- On Unix, a line made of arguments that are not empty and hold no double quote, each written as
-- it is (if it has no space) or between double quotes and followed by a space, is split into
-- these arguments.
pub split_cmds-spell_all :
    (words : List (Spelling × Str))
    → All CanSpell words
    → split_cmds false (spell_all words) ≡ map (λ (w : Spelling × Str). w.1) words
unfolding split_cmds
split_cmds-spell_all words h = split_loop-spell_all [] words h
