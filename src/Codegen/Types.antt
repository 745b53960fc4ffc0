-- ===== src/Codegen/Types.antt =====
-- src/codegen.cpp: the variables in scope, and `typeOf`, the type that an expression has without its
-- code.
pub mod Constants
pub mod Locals
use hlang.Base.{
  ℕ, Bool, true, false, List, [], ◌∷◌, if◌then◌else◌, ◌==◌, Bytes, Option, none, some, bytes_eq,
  codes, ◌||◌,
}
use hlang.Ast.Print.{str}
use hlang.Base.Dict.{Dict, lookup, insert}
use hlang.Run.{Run, ok, undefined, out_of_fuel, ◌>>=◌}
use hlang.Token.{Punct, amp, star, bang}
use hlang.Ast.{
  Ty, void, int, f64, ptr, array, class, func, Expr, Args, int_lit, float_lit, str_lit, char_lit,
  ident, unary, binary, assign, call, index, member, cast, sizeof_type, sizeof_expr, offset_of, i64,
  Store, find_member,
}

-- `scopes` with the innermost first, `localNames` and `globals_`, as far as types go
pub record Scopes : Type 0 where
  pub scopes : List (Dict Ty)
  pub local_names : List Bytes
  pub globals : Dict Ty

abbrev pub in_scopes : Bytes → List (Dict Ty) → Dict Ty → Option Ty
in_scopes n [] globals = lookup n globals
in_scopes n (s ∷ ss) globals = elim (lookup n s) [ none ↦ in_scopes n ss globals | some t ↦ some t ]

-- `lookupVar`
unfoldable pub lookup_var : Bytes → Scopes → Option Ty
unfolding lookup
lookup_var n s = in_scopes n s.scopes s.globals

abbrev pub is_declared : Bytes → List Bytes → Bool
is_declared n [] = false
is_declared n (m ∷ ms) = bytes_eq m n || is_declared n ms

-- a new variable of the innermost scope
abbrev pub bind_innermost : Bytes → Ty → List (Dict Ty) → List (Dict Ty)
bind_innermost n t [] = []
bind_innermost n t (d ∷ ds) = insert n t d ∷ ds

-- `declareLocal`: false, with an error, for a name that the function has had; the innermost of its
-- scopes takes the variable.
unfoldable pub declare_local : Bytes → Ty → Scopes → Bool × Scopes
unfolding insert bytes_eq
declare_local n t s =
    if is_declared n s.local_names
    then (false, s)
    else (true, record s { scopes = bind_innermost n t s.scopes; local_names = n ∷ s.local_names })

-- `scopes.emplace_back` and `scopes.pop_back`
abbrev pub enter : Scopes → Scopes
enter s = record s { scopes = [] ∷ s.scopes }

abbrev pub leave : Scopes → Scopes
leave s = record s { scopes = elim s.scopes [ [] ↦ [] | d ∷ ds ↦ ds ] }

-- `subIntType`
unfoldable pub sub_int_type : Bytes → Option Ty
unfolding bytes_eq
sub_int_type n =
    if bytes_eq n (codes "i8")
    then some (int 1 false)
    else if bytes_eq n (codes "u8")
    then some (int 1 true)
    else if bytes_eq n (codes "i16")
    then some (int 2 false)
    else if bytes_eq n (codes "u16")
    then some (int 2 true)
    else if bytes_eq n (codes "i32")
    then some (int 4 false)
    else if bytes_eq n (codes "u32")
    then some (int 4 true)
    else if bytes_eq n (codes "i64")
    then some (int 8 false)
    else if bytes_eq n (codes "u64")
    then some (int 8 true)
    else none

abbrev pub u8 : Ty
u8 = int 1 true

abbrev pub is_f64 : Ty → Bool
is_f64 f64 = true
is_f64 _ = false

-- the type behind a pointer, or `U8`
abbrev pub pointed : Ty → Ty
pointed (ptr t) = t
pointed _ = u8

abbrev pub element : Ty → Ty
element (ptr t) = t
element (array t n) = t
element _ = u8

abbrev pub binary_type : Ty → Ty → Ty
binary_type f64 c = f64
binary_type (ptr t) f64 = f64
binary_type (ptr t) _ = ptr t
binary_type _ f64 = f64
binary_type _ (ptr t) = ptr t
binary_type _ _ = i64

abbrev pub unary_type : Punct → Run Ty → Run Ty
unary_type amp r = r >>= λ t. ok (ptr t)
unary_type star r = r >>= λ t. ok (pointed t)
unary_type bang r = ok i64
unary_type _ r = r

-- what a call of a value of a type gives
abbrev pub result_type : Ty → Ty
result_type (func r ps v) = r
result_type (ptr (func r ps v)) = r
result_type _ = i64

abbrev pub behind_arrow : Bool → Ty → Ty
behind_arrow true (ptr t) = t
behind_arrow _ t = t

abbrev pub sub_type : Bytes → Ty
sub_type n = elim (sub_int_type n) [ none ↦ i64 | some t ↦ t ]

-- `classNameOf`, of a type that is there: the name of the class, or of the type, behind the pointers
unfoldable pub class_name_of : Store → Ty → Bytes
unfolding str
class_name_of store (ptr t) = class_name_of store t
class_name_of store t = str store t

-- The result types of the functions, by name, are `funcs`.
module _ (store : Store) (scope : Scopes) (funcs : Bytes → Option Ty) (depth : ℕ) where
  abbrev pub member_type : Ty → Bytes → Run Ty
  member_type (class k) n =
      find_member depth store k n >>= λ m. elim m [ none ↦ ok (sub_type n) | some f ↦ ok f.type ]
  member_type _ n = ok (sub_type n)

  -- a call: of a function by its name, of `ToF64`, or of a value
  abbrev pub call_type : Expr → Run Ty → Run Ty
  call_type (ident l n) t = elim (funcs n) [
    | none ↦ if bytes_eq n (codes "ToF64") then ok f64 else t >>= λ c. ok (result_type c)
    | some r ↦ ok r
  ]
  call_type _ t = t >>= λ c. ok (result_type c)

  -- `typeOf`, of an expression that is not null
  unfoldable pub type_of : Expr → Run Ty
  unfolding lookup_var sub_int_type find_member
  type_of (float_lit l t) = ok f64
  type_of (str_lit l t) = ok (ptr u8)
  type_of (cast l a ty) = ok ty
  type_of (ident l n) = elim (lookup_var n scope) [
    | some t ↦ ok t
    | none ↦ elim (funcs n) [ none ↦ ok i64 | some r ↦ ok r ]
  ]
  type_of (unary l p prefix a) = unary_type p (type_of a)
  type_of (binary l p a b) =
      let right = type_of b in type_of a >>= λ t. right >>= λ c. ok (binary_type t c)
  type_of (assign l p a b) = type_of a
  type_of (index l a b) = type_of a >>= λ t. ok (element t)
  type_of (member l a n arrow) = type_of a >>= λ t. member_type (behind_arrow arrow t) n
  type_of (call l f args) = call_type f (type_of f)
  type_of _ = ok i64
