-- ===== src/Ast/Statement.antt =====
-- src/ast.hpp: declarators and statements. A statement has a constructor for each kind, with the
-- fields that the kind uses; an empty `unique_ptr` is `none`.
use hlang.Base.{Bool, List, Bytes, Option}
use hlang.Token.{SrcLoc}
use hlang.Ast.{Ty, Expr}

-- `struct VarDeclarator`
pub record Declarator : Type 0 where
  pub name : Bytes
  pub type : Option Ty
  pub init : Option Expr
  pub noreg : Bool
  pub is_reg : Bool
  pub reg_name : Bytes
  pub loc : SrcLoc

-- `struct Stmt`
mutual
  pub data Stmt : Type 0 where
    empty : SrcLoc → Stmt
    block : SrcLoc → Stmts → Stmt
    expr : SrcLoc → Expr → Stmt
    cond : SrcLoc → Expr → Stmt → Stmts → Stmt
    while_loop : SrcLoc → Expr → Stmt → Stmt
    do_while : SrcLoc → Stmt → Option Expr → Stmt
    for_loop : SrcLoc → List Expr → Option Expr → List Expr → Stmt → Stmt
    switch : SrcLoc → Bool → Expr → Stmt → Stmt
    case_label : SrcLoc → Option Expr → Option Expr → Stmt
    default_label sub_start sub_end break_out : SrcLoc → Stmt
    goto_label label : SrcLoc → Bytes → Stmt
    return : SrcLoc → Option Expr → Stmt
    var_decl : SrcLoc → Bool → List Declarator → Stmt
    try_catch : SrcLoc → Stmts → Stmts → Stmt
    no_warn : SrcLoc → Stmt
    lock : SrcLoc → Stmt → Stmt

  -- `body` and `body2`
  pub data Stmts : Type 0 where
    no_stmts : Stmts
    stmt : Stmt → Stmts → Stmts
