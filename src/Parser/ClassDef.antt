-- ===== src/Parser/ClassDef.antt =====
-- src/parser.cpp: `parseClassDef`.
use hlang.Base.{
  ℕ, zero, suc, Bool, true, false, ◌&&◌, ◌||◌, List, [], ◌∷◌, ◌++◌, if◌then◌else◌, Bytes, none,
  some, codes, get_elem?, length, is_empty,
}
use hlang.Base.Int.{pos}
use hlang.Base.Dict.{insert}
use hlang.Run.{ok, undefined}
use hlang.Token.{SrcLoc, semi, colon, comma, l_brace, r_brace, dollar}
use hlang.Ast.{Ty, ClassInfo, Expr}
use hlang.Ast.Layout.{Layout, start, place, base_size}
use hlang.Ast.Statement.{Declarator}
use hlang.Ast.Program.{TopItem, class_item}
use hlang.Parser.{
  Parser, M, ◌>>=◌, ◌>>◌, give, get, no_fuel, on_option, tok, at, at_word, at_ident, at_eof, take,
  accept, expect, error, error_here, find_class, base_type_for, is_type_name, parse_base_type,
  parse_base_type_no_stars, class_name, base_class_name, one_base_class, unterminated_class,
  dollar_in_class, member_type, expected_member, duplicate_member, class_declarator,
}
use hlang.Parser.Levels.{tokens_left}
use hlang.Parser.Skip.{skip_to_semi}
use hlang.Parser.TopLevel.{Quals, global_of}

abbrev update_at : List ClassInfo → ℕ → (ClassInfo → ClassInfo) → List ClassInfo
update_at [] k f = []
update_at (c ∷ cs) zero f = f c ∷ cs
update_at (c ∷ cs) (suc k) f = c ∷ update_at cs k f

-- a write through `ci`
unfoldable pub set_class : ℕ → (ClassInfo → ClassInfo) → M (Unit {0})
set_class k f p = ok (tt, record p { store = update_at p.store k f })

-- `std::make_shared<ClassInfo>()` under a name, which may overshadow another
unfoldable pub new_class : Bytes → M ℕ
unfolding insert
new_class n p =
    let ci : ClassInfo = record {
      name = n;
      is_union = false;
      base = none;
      whole_type = none;
      members = [];
      size = pos 0;
      complete = false;
    } in
    let k = length p.store in
    ok (k, record p { store = p.store ++ ci ∷ []; classes = insert n k p.classes })

abbrev is_complete : ℕ → Parser → Bool
is_complete k p = elim (get_elem? p.store k) [ none ↦ false | some ci ↦ ci.complete ]

-- the class that a name declares
unfoldable pub declared_class : Bytes → M ℕ
unfolding find_class new_class at ◌>>=◌
declared_class n = do
  old ← get (find_class n)
  defining ← get (λ p. at l_brace 0 p || at colon 0 p)
  elim old [
    | none ↦ new_class n
    | some k ↦ do done ← get (is_complete k); if done && defining then new_class n else give k
  ]

-- `: BASE`
unfoldable pub parse_base : ℕ → M (Unit {0})
unfolding accept tok at_ident find_class take base_type_for set_class at error_here ◌>>=◌
parse_base k = do
  let named : M (Unit {0}) = do
    b ← take
    ty ← get (base_type_for b.text)
    set_class k (λ ci. record ci { base = ty })
    more ← get (at comma 0)
    if more then error_here one_base_class else give tt
  derived ← accept colon
  known ← get (λ p. let t = tok 0 p in elim (find_class t.text p) [ none ↦ false | some c ↦ true ])
  word ← get (at_ident 0)
  if derived then (if word && known then named else error_here base_class_name) else give tt

-- The metadata of a member, which is dropped: a word, then an expression. A round takes the word.
unfoldable pub meta_rounds : ℕ → M Expr → M (Unit {0})
unfolding at_ident take ◌>>=◌
meta_rounds zero asg = give tt
meta_rounds (suc n) asg = do
  let one : M (Unit {0}) = (do _ ← take; _ ← asg; meta_rounds n asg)
  word ← get (at_ident 0)
  if word then one else give tt

-- A member takes its place; `l` has the members so far.
unfoldable pub add_member : ℕ → Declarator → Layout → M Layout
unfolding place set_class error_here ◌>>=◌
add_member k d l = do
  union ← get (λ p. elim (get_elem? p.store k) [ none ↦ false | some ci ↦ ci.is_union ])
  let unplaced : M Layout = λ p. undefined
  let placed : Layout → M Layout = λ l'. do
    _ ← if is_empty l'.duplicates then give tt else error_here duplicate_member
    set_class k (λ ci. record ci { members = l'.members })
    give (record l' { duplicates = [] })
  store ← get (λ p. p.store)
  elim d.type [
    | none ↦ unplaced
    | some ty ↦ on_option (place store union (d.name, ty) l) unplaced placed
  ]

module _ (asg : M Expr) (declarator : Bool → Ty → M (Bool × Declarator)) where
  -- The members of one type: a round takes a comma.
  unfoldable pub member_rounds : ℕ → ℕ → Ty → Layout → M Layout
  unfolding error_here meta_rounds add_member accept expect ◌>>=◌
  member_rounds zero k base l = no_fuel
  member_rounds (suc n) k base l = do
    (found, d) ← declarator false base
    let one : M Layout = do
      m ← get tokens_left
      meta_rounds m asg
      l' ← add_member k d l
      let rest : M Layout = member_rounds n k base l'
      again ← accept comma
      if again then rest else (do expect semi; give l')
    if found then one else (do error_here expected_member; give l)

  -- The loop over the body of a class, with whether its end was found: a round takes a token.
  unfoldable pub body_rounds : ℕ → ℕ → SrcLoc → Layout → M (Bool × Layout)
  unfolding at at_eof error accept error_here skip_to_semi tok is_type_name parse_base_type_no_stars
      member_rounds ◌>>=◌
  body_rounds zero k kw l = no_fuel
  body_rounds (suc n) k kw l = do
    let again : M (Bool × Layout) = body_rounds n k kw l
    let members : M (Bool × Layout) = do
      base ← parse_base_type_no_stars
      m ← get tokens_left
      l' ← member_rounds (suc m) k base l
      body_rounds n k kw l'
    let skipped : hlang.Parser.Message → M (Bool × Layout) =
        λ m. do error_here m; skip_to_semi; again
    closed ← get (at r_brace 0)
    ended ← get at_eof
    let round : M (Bool × Layout) = do
      blank ← accept semi
      hacked ← get (at dollar 0)
      typed ← get (λ p. is_type_name (tok 0 p) p)
      if blank
          then again
          else if hacked
          then skipped dollar_in_class
          else if typed
          then members
          else skipped member_type
    if closed
        then give (true, l)
        else if ended
        then (do error kw unterminated_class; give (false, l))
        else round

  -- The variables behind the body: a round takes a comma.
  unfoldable pub instance_rounds : ℕ → Bytes → Quals → M (List TopItem)
  unfolding base_type_for error_here accept global_of ◌>>=◌
  instance_rounds zero name q = no_fuel
  instance_rounds (suc n) name q = do
    let one : Ty → M (List TopItem) = λ ty. do
      (found, d) ← declarator true ty
      let more : M (List TopItem) = do
        let rest : M (List TopItem) = do
          items ← instance_rounds n name q
          give (global_of d q ∷ items)
        again ← accept comma
        if again then rest else give (global_of d q ∷ [])
      if found then more else (do error_here class_declarator; give [])
    ty ← get (base_type_for name)
    on_option ty (λ p. undefined) one

  -- a class with a body
  unfoldable pub parse_body : ℕ → Bytes → SrcLoc → Quals → M (List TopItem)
  unfolding expect body_rounds base_size take set_class at instance_rounds ◌>>=◌
  parse_body k name kw q = do
    expect l_brace
    z ← get (λ p. elim (get_elem? p.store k) [ none ↦ pos 0 | some ci ↦ base_size p.store ci.base ])
    ms ← get (λ p. elim (get_elem? p.store k) [ none ↦ [] | some ci ↦ ci.members ])
    n ← get tokens_left
    (closed, l) ← body_rounds (suc n) k kw (start z ms)
    let instances : M (List TopItem) = (do m ← get tokens_left; instance_rounds (suc m) name q)
    let finished : M (List TopItem) = do
      _ ← take
      set_class k (λ ci. record ci { size = l.max_size; complete = true })
      bare ← get (at semi 0)
      items ← if bare then give [] else instances
      expect semi
      give (class_item k ∷ items)
    if closed then finished else give []

  -- `parseClassDef`
  unfoldable pub parse_class_def : Quals → M (List TopItem)
  unfolding at_word parse_base_type take at_ident error_here skip_to_semi declared_class set_class
      parse_base accept parse_body ◌>>=◌
  parse_class_def q = do
    plain ← get (λ p. at_word (codes "class") 0 p || at_word (codes "union") 0 p)
    whole ← if plain then give none else (do ty ← parse_base_type; give (some ty))
    union ← get (at_word (codes "union") 0)
    kw ← take
    named ← get (at_ident 0)
    let defined : M (List TopItem) = do
      name ← take
      k ← declared_class name.text
      set_class k (λ ci. record ci { is_union = union; whole_type = whole })
      parse_base k
      forward ← accept semi
      if forward then give [] else parse_body k name.text kw.loc q
    if named then defined else (do error_here class_name; skip_to_semi; give [])
