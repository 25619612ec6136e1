-- ===== src/Match/Decl.antt =====
-- The declarations of a parsed Go file as far as tool/util/ast.go looks at them, and its tests
-- MatchFuncDecl and MatchStructDecl. The AST itself is github.com/dave/dst; regular expressions
-- are Go's package regexp, here the parameter `regex`: what regexp.Compile returns, as a test.
use opentelemetry_go_auto_in.Base.{
  Bool, true, false, Option, none, some, List, [], ◌∷◌, ◌++◌, if◌then◌else◌, Outcome, ok, panicked,
  ◌>>=◌, ◌>>◌, assert, Str, codes, str_eq,
}

-- The type of a receiver, by the cases of the switch in MatchFuncDecl.
pub data RecvType : Type 0 where
  star_ident : Str → RecvType  -- *dst.StarExpr over *dst.Ident
  star_other : RecvType  -- *dst.StarExpr over anything else
  ident : Str → RecvType  -- *dst.Ident
  index_expr : RecvType  -- *dst.IndexExpr
  other_type : RecvType  -- anything else

pub record FuncDecl : Type 0 where
  pub name : Str
  pub recv : Option RecvType  -- the first receiver, if HasReceiver

pub data Spec : Type 0 where
  type_spec : Str → Spec
  other_spec : Spec

pub data Decl : Type 0 where
  gen_decl : Bool → List Spec → Decl  -- whether Tok is token.TYPE, and Specs
  func_decl : FuncDecl → Decl

pub record File : Type 0 where
  pub package_name : Str
  pub decls : List Decl

-- HasReceiver
abbrev pub has_receiver : FuncDecl → Bool
has_receiver f = elim f.recv [ none ↦ false | some t ↦ true ]

module _ (regex : Str → Option (Str → Bool)) where
  -- regexp.MustCompile("^" + s + "$").MatchString(t)
  unfoldable pub must_match : Str → Str → Outcome Bool
  must_match s t = elim (regex (b'^' ∷ (s ++ codes "$"))) [
    | none ↦ panicked
    | some test ↦ ok (test t)
  ]

  -- The receiver's part of MatchFuncDecl.
  unfoldable pub match_receiver : Str → Option RecvType → Outcome Bool
  match_receiver receiver none = if str_eq receiver [] then ok true else must_match receiver []
  match_receiver receiver (some t) = if str_eq receiver [] then ok false else elim t [
    | star_ident name ↦ must_match receiver (b'*' ∷ name)
    | star_other ↦ ok false
    | ident name ↦ must_match receiver name
    | index_expr ↦ ok false
    | other_type ↦ panicked
  ]

  abbrev is_some {ℓ} : {A : Type ℓ} → Option A → Bool
  is_some none = false
  is_some (some a) = true

  unfoldable pub match_func_decl : Decl → Str → Str → Outcome Bool
  unfolding match_receiver must_match
  match_func_decl (gen_decl t specs) function receiver = do
    assert (is_some (regex function))
    ok false
  match_func_decl (func_decl f) function receiver = do
    assert (is_some (regex function))
    named ← must_match function f.name
    (if named then match_receiver receiver f.recv else ok false)

-- MatchStructDecl looks at the first Spec of a type declaration: `Specs[0]`.
unfoldable pub match_struct_decl : Decl → Str → Outcome Bool
match_struct_decl (func_decl f) struct_type = ok false
match_struct_decl (gen_decl false specs) struct_type = ok false
match_struct_decl (gen_decl true []) struct_type = panicked
match_struct_decl (gen_decl true (type_spec name ∷ specs)) struct_type =
    ok (str_eq name struct_type)
match_struct_decl (gen_decl true (other_spec ∷ specs)) struct_type = ok false
