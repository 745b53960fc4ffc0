-- ===== src/Codegen/Types/Locals.antt =====
-- src/codegen.cpp: what a declaration of a local variable does to the names.
use hlang.Base.{
  ◌≡◌, refl, true, false, List, ◌∷◌, Bytes, some, if◌then◌else◌, bytes_eq, bytes_eq_refl,
  Bool-cases, inl, inr,
}
use hlang.Base.Dict.{Dict, insert, lookup-insert}
use hlang.Ast.{Ty}
use hlang.Codegen.Types.{Scopes, in_scopes, lookup_var, is_declared, declare_local, leave}

-- The first declaration of a name in a function, in a scope of any depth: each name means what it meant
-- before, but for that one, which has the given type; and another declaration of it is refused, also
-- behind the end of the scope.
pub declare_local-once :
    (n m : Bytes) (t u : Ty) (d g : Dict Ty) (ds : List (Dict Ty)) (names : List Bytes)
    → is_declared n names ≡ false
    → let s : Scopes = record { scopes = d ∷ ds; local_names = names; globals = g } in
      ((declare_local n t s).0 ≡ true)
      × (lookup_var m (declare_local n t s).1 ≡ (if bytes_eq n m then some t else lookup_var m s))
      × ((declare_local n u (leave (declare_local n t s).1)).0 ≡ false)
unfolding declare_local lookup_var
declare_local-once n m t u d g ds names h = rw h (refl, seen, rw (bytes_eq_refl n) refl)
  where
    seen :
        in_scopes m (insert n t d ∷ ds) g
        ≡ (if bytes_eq n m then some t else in_scopes m (d ∷ ds) g)
    seen = elim (Bool-cases (bytes_eq n m)) [
      | inl e ↦ rw (lookup-insert n m t d, e, in_scopes) refl
      | inr e ↦ rw (lookup-insert n m t d, e, in_scopes) refl
    ]
