-- ===== src/Ast/Program.antt =====
-- src/ast.hpp: functions, global variables and the items of a program.
use hlang.Base.{ℕ, Bool, Bytes, Option}
use hlang.Token.{SrcLoc}
use hlang.Ast.{Ty, Expr}
use hlang.Ast.Statement.{Stmt, Stmts}

-- `enum class Linkage`
pub data Linkage : Type 0 where
  normal public external imported external_alias imported_alias static_linkage : Linkage

-- `struct FuncDecl`: `body` is none for a prototype.
pub record FuncDecl : Type 0 where
  pub name : Bytes
  pub alias_sym : Bytes
  pub type : Ty
  pub linkage : Linkage
  pub interrupt : Bool
  pub has_err_code : Bool
  pub arg_pop : Bool
  pub no_arg_pop : Bool
  pub body : Option Stmts
  pub loc : SrcLoc

-- `struct GlobalVar`
pub record GlobalVar : Type 0 where
  pub name : Bytes
  pub alias_sym : Bytes
  pub type : Option Ty
  pub init : Option Expr
  pub linkage : Linkage
  pub loc : SrcLoc

-- `struct TopItem`; a class is its place in the list of classes
pub data TopItem : Type 0 where
  func_item : FuncDecl → TopItem
  global_item : GlobalVar → TopItem
  stmt_item : Stmt → TopItem
  class_item : ℕ → TopItem
