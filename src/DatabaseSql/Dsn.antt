-- ===== src/DatabaseSql/Dsn.antt =====
-- pkg/rules/databasesql/databasesql_parser.go: the address of a database in its data source name.
-- What a function returns is `none` where it returns an error; a slice out of range panics.
use mathlib.Core.List.{append_assoc, append-nil}
use opentelemetry_go_auto_in.Base.{
  ℕ, suc, ◌+◌, ◌-◌, ◌≡◌, refl, sym, ap, ◌∙◌, true, false, ◌||◌, ◌⊎◌, inl, inr, Option, none, some,
  [], ◌∷◌, ◌++◌, arith, ltb, ◌==◌, ==_iff, if◌then◌else◌, Bool-cases, length, take, drop,
  length-append, take-append, Outcome, ok, panicked, ◌>>=◌, Str, codes, str_eq, contains_byte,
}
use opentelemetry_go_auto_in.Base.Text.Bytes.{contains_byte-append}

-- s[lo:hi]
abbrev pub sub_slice : Str → ℕ → ℕ → Outcome Str
sub_slice s lo hi =
    if ltb hi lo || ltb (length s) hi then panicked else ok (take (hi - lo) (drop lo s))

-- The loop of parseMySQL, from index `k` on, with the last '(' before it: both positions, `none` for
-- -1.
unfoldable pub scan_parens : Str → ℕ → Option ℕ → Option ℕ × Option ℕ
scan_parens [] k i = (i, none)
scan_parens (c ∷ s) k i =
    let i' = if c == 40 then some k else i in
    let more = scan_parens s (suc k) i' in if c == 41 then (i', some k) else more

-- What is between the two positions.
unfoldable pub between : Str → Option ℕ × Option ℕ → Outcome (Option Str)
between dsn (none, j) = ok none
between dsn (some i, none) = ok none
between dsn (some i, some j) =
    if ltb i j then (sub_slice dsn (suc i) j >>= λ addr. ok (some addr)) else ok none

unfoldable pub parse_mysql : Str → Outcome (Option Str)
parse_mysql dsn = between dsn (scan_parens dsn 0 none)

-- What nurl.Parse yields of a URL
pub record Url : Type 0 where
  pub scheme : Str
  pub host : Str
  pub port : Str

module _ (parse_url : Str → Option Url) where
  unfoldable pub parse_postgres : Str → Option Str
  parse_postgres url = elim (parse_url url) [
    | none ↦ none
    | some u ↦
        if str_eq u.scheme (codes "postgres") || str_eq u.scheme (codes "postgresql")
        then some (u.host ++ codes ":" ++ u.port)
        else none
  ]

  unfoldable pub parse_dsn : Str → Str → Outcome (Option Str)
  unfolding parse_mysql parse_postgres
  parse_dsn driver dsn =
      if str_eq driver (codes "mysql")
      then parse_mysql dsn
      else if str_eq driver (codes "postgres") || str_eq driver (codes "postgresql")
      then ok (parse_postgres dsn)
      else ok none

-- What is known of the bytes before the loop's index.
abbrev Prefix : Str → Option ℕ → Type 0
Prefix done none = (contains_byte done 40 ≡ false) × (contains_byte done 41 ≡ false)
Prefix done (some i) =
    (before : Str) × (mid : Str) × (done ≡ before ++ 40 ∷ mid)
    × (length before ≡ i)
    × (contains_byte before 41 ≡ false)
    × (contains_byte mid 40 ≡ false)
    × (contains_byte mid 41 ≡ false)

-- What parseMySQL is to find: what stands between the first ')' and the last '(' before it, or
-- that there is no ')' or no '(' before the first one.
abbrev pub AddressIn : Str → Option Str → Type 0
AddressIn dsn (some addr) =
    (before : Str) × (rest : Str) × (dsn ≡ before ++ 40 ∷ (addr ++ 41 ∷ rest))
    × (contains_byte before 41 ≡ false)
    × (contains_byte addr 40 ≡ false)
    × (contains_byte addr 41 ≡ false)
AddressIn dsn none =
    (contains_byte dsn 41 ≡ false)
    ⊎ ((before : Str) × (rest : Str) × (dsn ≡ before ++ 41 ∷ rest)
        × (contains_byte before 40 ≡ false)
        × (contains_byte before 41 ≡ false))

contains_byte-snoc :
    (s : Str) (c b : ℕ)
    → contains_byte s b ≡ false
    → (c == b) ≡ false
    → contains_byte (s ++ c ∷ []) b ≡ false
unfolding contains_byte
contains_byte-snoc s c b h e = rw (contains_byte-append s (c ∷ []) b, h, e) refl

length-parens :
    (before mid rest : Str)
    → length (before ++ 40 ∷ (mid ++ 41 ∷ rest))
      ≡ suc (length before + length mid) + suc (length rest)
length-parens before mid rest =
    omega (arith, length-append before (40 ∷ (mid ++ 41 ∷ rest)), length-append mid (41 ∷ rest))

drop-suc : (before rest : Str) (c : ℕ) → drop (suc (length before)) (before ++ c ∷ rest) ≡ rest
drop-suc [] rest c = refl
drop-suc (d ∷ before) rest c = drop-suc before rest c

sub_slice-parens :
    (before mid rest : Str)
    → sub_slice
        (before ++ 40 ∷ (mid ++ 41 ∷ rest))
        (suc (length before))
        (suc (length before + length mid))
      ≡ ok mid
sub_slice-parens before mid rest =
    let n : suc (length before + length mid) - suc (length before) ≡ length mid = omega arith in
    let lo : ltb (suc (length before + length mid)) (suc (length before)) ≡ false = ground arith in
    let hi : ltb (length (before ++ 40 ∷ (mid ++ 41 ∷ rest))) (suc (length before + length mid))
        ≡ false =
      ground (arith, length-parens before mid rest) in
    rw (lo, hi, drop-suc before (mid ++ 41 ∷ rest) 40)
      (ap (λ k. ok (take k (mid ++ 41 ∷ rest))) n ∙ ap ok (take-append mid (41 ∷ rest)))

-- One more byte that is no parenthesis.
Prefix-extend :
    (i : Option ℕ) (done : Str) (c : ℕ)
    → (c == 40) ≡ false
    → (c == 41) ≡ false
    → Prefix done i
    → Prefix (done ++ c ∷ []) i
Prefix-extend none done c e e' p =
    (contains_byte-snoc done c 40 p.0 e, contains_byte-snoc done c 41 p.1 e')
Prefix-extend (some i) done c e e' (before, mid, d, l, b, m, m') = (
  before,
  mid ++ c ∷ [],
  ap (λ s. s ++ c ∷ []) d ∙ append_assoc before (40 ∷ mid) (c ∷ []),
  l,
  b,
  contains_byte-snoc mid c 40 m e,
  contains_byte-snoc mid c 41 m' e',
)

-- No ')' in a prefix.
Prefix-closed : (i : Option ℕ) (done : Str) → Prefix done i → contains_byte done 41 ≡ false
unfolding contains_byte
Prefix-closed none done p = p.1
Prefix-closed (some i) done (before, mid, d, l, b, m, m') =
    rw (d, contains_byte-append before (40 ∷ mid) 41, b, m') refl

-- A run of the loop that stops at a ')'.
between-stops :
    (i : Option ℕ) (done rest : Str)
    → Prefix done i
    → (r : Option Str) × (between (done ++ 41 ∷ rest) (i, some (length done)) ≡ ok r)
      × AddressIn (done ++ 41 ∷ rest) r
unfolding between
between-stops none done rest p = (none, refl, inr (done, rest, refl, p.0, p.1))
between-stops (some i) done rest (before, mid, d, l, b, m, m') =
    let long : length (before ++ 40 ∷ mid) ≡ suc (length before + length mid) =
      omega (arith, length-append before (40 ∷ mid)) in
    let less : ltb (length before) (suc (length before + length mid)) ≡ true = ground arith in
    rw (d, sym l, long, append_assoc before (40 ∷ mid) (41 ∷ rest))
      (some mid, rw (less, sub_slice-parens before mid rest) refl, (before, rest, refl, b, m, m'))

append-snoc : (done s : Str) (c : ℕ) → done ++ c ∷ s ≡ (done ++ c ∷ []) ++ s
append-snoc done s c = simp append_assoc

length-snoc : (done : Str) (c : ℕ) → suc (length done) ≡ length (done ++ c ∷ [])
length-snoc done c = omega (arith, length-append done (c ∷ []))

between-none : (dsn : Str) (i : Option ℕ) → between dsn (i, none) ≡ ok none
unfolding between
between-none dsn none = refl
between-none dsn (some i) = refl

-- The loop on what is left of the data source name.
abbrev Parsed : (s done : Str) → Option ℕ → Type 0
Parsed s done i =
    (r : Option Str) × (between (done ++ s) (scan_parens s (length done) i) ≡ ok r)
    × AddressIn (done ++ s) r

parse_from : (s done : Str) (i : Option ℕ) → Prefix done i → Parsed s done i
unfolding scan_parens contains_byte
parse_from [] done none p = (none, between-none _ none, inl (rw append-nil p.1))
parse_from [] done (some i) p =
    (none, between-none _ (some i), inl (rw append-nil (Prefix-closed (some i) done p)))
parse_from (c ∷ s) done i p = elim (Bool-cases (c == 41)) [
  | inl close ↦ rw ((==_iff c 41).0 close) (between-stops i done s p)
  | inr inside ↦ elim (Bool-cases (c == 40)) [
    | inl opens ↦
        rw ((==_iff c 40).0 opens, append-snoc done s 40, length-snoc done 40)
          (parse_from s (done ++ 40 ∷ []) (some (length done))
            (done, [], refl, refl, Prefix-closed i done p, refl, refl))
    | inr plain ↦
        rw (inside, plain, append-snoc done s c, length-snoc done c)
          (parse_from s (done ++ c ∷ []) i (Prefix-extend i done c plain inside p))
  ]
]

-- parseMySQL never slices out of range, whatever the data source name, and returns what stands
-- between the first ')' and the last '(' before it, or an error when there is no ')' or no '('
-- before the first one.
pub parse_mysql-AddressIn :
    (dsn : Str) → (r : Option Str) × (parse_mysql dsn ≡ ok r) × AddressIn dsn r
unfolding parse_mysql contains_byte
parse_mysql-AddressIn dsn = parse_from dsn [] none (refl, refl)
