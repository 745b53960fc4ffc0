-- ===== src/Ast.antt =====
-- src/ast.hpp and src/ast.cpp: types, classes and expressions. A `shared_ptr<ClassInfo>` is a
-- number, the class's place in a list; so a class that is completed later is the same class.
pub mod Members
pub mod Print
pub mod Layout
pub mod Statement
pub mod Program
use hlang.Base.{
  ℕ, zero, suc, ◌+◌, ◌*◌, Bool, true, false, List, [], ◌∷◌, ◌++◌, if◌then◌else◌, Bytes, Option,
  none, some, bytes_eq, get_elem?,
}
use hlang.Base.Int.{ℤ, pos, mul64}
use hlang.Run.{Run, ok, undefined, out_of_fuel}
use hlang.Token.{Punct, SrcLoc}

-- `struct Type`, `struct FuncParam` and `struct Expr`: a constructor for each kind, with the fields
-- that the kind uses.
mutual
  pub data Ty : Type 0 where
    void : Ty
    int : ℕ → Bool → Ty
    f64 : Ty
    ptr : Ty → Ty
    array : Ty → ℤ → Ty
    class : ℕ → Ty
    func : Ty → Params → Bool → Ty

  pub data Params : Type 0 where
    no_params : Params
    param : Bytes → Ty → SrcLoc → Params → Params
    param_default : Bytes → Ty → Expr → SrcLoc → Params → Params
    param_last_class : Bytes → Ty → SrcLoc → Params → Params

  pub data Expr : Type 0 where
    int_lit : SrcLoc → ℤ → Expr
    float_lit : SrcLoc → Bytes → Expr
    str_lit : SrcLoc → Bytes → Expr
    char_lit : SrcLoc → ℤ → ℕ → Expr
    ident : SrcLoc → Bytes → Expr
    unary : SrcLoc → Punct → Bool → Expr → Expr
    binary : SrcLoc → Punct → Expr → Expr → Expr
    chain_cmp : SrcLoc → Expr → Links → Expr
    assign : SrcLoc → Punct → Expr → Expr → Expr
    call : SrcLoc → Expr → Args → Expr
    index : SrcLoc → Expr → Expr → Expr
    member : SrcLoc → Expr → Bytes → Bool → Expr
    cast : SrcLoc → Expr → Ty → Expr
    sizeof_type : SrcLoc → Ty → Expr
    sizeof_expr : SrcLoc → Expr → Expr
    offset_of : SrcLoc → Bytes → Bytes → Option ℕ → Expr
    last_class : SrcLoc → Expr
    init_list : SrcLoc → Args → Expr

  -- the operands of a chained comparison behind the first, each with its operator
  pub data Links : Type 0 where
    last : Links
    link : Punct → Expr → Links → Links

  -- `kids` behind the callee; `skipped` is a null kid with `argPresent` false
  pub data Args : Type 0 where
    no_args : Args
    arg : Expr → Args → Args
    skipped : Args → Args

-- `struct ClassMember`, without the metadata
pub record Member : Type 0 where
  pub name : Bytes
  pub type : Ty
  pub offset : ℤ

-- `struct ClassInfo`
pub record ClassInfo : Type 0 where
  pub name : Bytes
  pub is_union : Bool
  pub base : Option Ty
  pub whole_type : Option Ty
  pub members : List Member
  pub size : ℤ
  pub complete : Bool

abbrev pub Store : Type 0
Store = List ClassInfo

-- the first member of a name
unfoldable pub own_member : Bytes → List Member → Option Member
unfolding bytes_eq
own_member n [] = none
own_member n (m ∷ ms) = if bytes_eq m.name n then some m else own_member n ms

-- the class that a base type names
abbrev pub base_class : Option Ty → Option ℕ
base_class (some (class k)) = some k
base_class _ = none

-- `findMember`: the class's own members, then those of its base
unfoldable pub find_member : ℕ → Store → ℕ → Bytes → Run (Option Member)
unfolding own_member
find_member zero store k n = out_of_fuel
find_member (suc f) store k n = elim (get_elem? store k) [
  | none ↦ ok none
  | some ci ↦ elim (own_member n ci.members) [
    | some m ↦ ok (some m)
    | none ↦ elim (base_class ci.base) [ none ↦ ok none | some b ↦ find_member f store b n ]
  ]
]

-- `Type::size`: none where the product of an array overflows
unfoldable pub size : Store → Ty → Option ℤ
unfolding mul64
size store void = some (pos 0)
size store (int n u) = some (pos n)
size store f64 = some (pos 8)
size store (ptr t) = some (pos 8)
size store (func r ps v) = some (pos 8)
size store (array t n) = elim (size store t) [ none ↦ none | some s ↦ mul64 s n ]
size store (class k) = elim (get_elem? store k) [ none ↦ some (pos 0) | some ci ↦ some ci.size ]

-- `tyI64` and its kind
abbrev pub i64 : Ty
i64 = int 8 false
