-- ===== src/Reconcile.antt =====
-- soothfast-spec/src/reconcile.rs: the routes of the code against the operations of a spec, with the two
-- records of soothfast-spec/src/lib.rs.
pub mod Clean
mod Tests
use soothfast.Base.{
  ℕ, suc, Bool, true, false, not, ◌&&◌, List, [], ◌∷◌, ◌++◌, map, keep, Option, none, some,
  if◌then◌else◌, leb, ◌+◌, Text, codes, text_eq, mem_text, join,
}
use soothfast.Base.Parse.{is_empty}
use soothfast.Base.BTreeMap.{BTreeMap, get, insert}
use soothfast.Base.BTreeSet.{from_list}

pub record DeclaredOp : Type 0 where
  pub operation : Text
  pub method : Text
  pub path : Text

pub record RouteDecl : Type 0 where
  pub id : Text
  pub operation : Text
  pub method : Text
  pub path : Text

pub record Reconciliation : Type 0 where
  pub missing_handler : List DeclaredOp
  pub missing_spec : List RouteDecl
  pub mismatched : List (RouteDecl × (DeclaredOp × Text))
  pub matched : ℕ

unfoldable pub is_clean : Reconciliation → Bool
is_clean rec =
    is_empty rec.missing_handler && (is_empty rec.missing_spec && is_empty rec.mismatched)

-- `declared.iter().map(…).collect()` into a map: of two operations with one name the later one stays.
unfoldable pub by_operation : BTreeMap DeclaredOp → List DeclaredOp → BTreeMap DeclaredOp
by_operation m [] = m
by_operation m (d ∷ ds) = by_operation (insert d.operation d m) ds

abbrev pub to_lower : ℕ → ℕ
to_lower c = if leb b'A' c && leb c b'Z' then c + 32 else c

unfoldable pub eq_ignore_ascii_case : Text → Text → Bool
eq_ignore_ascii_case s t = text_eq (map to_lower s) (map to_lower t)

abbrev pub method_differs : RouteDecl → DeclaredOp → Bool
method_differs route decl =
    not (is_empty route.method) && not (eq_ignore_ascii_case route.method decl.method)

abbrev pub path_differs : RouteDecl → DeclaredOp → Bool
path_differs route decl = not (is_empty route.path) && not (text_eq route.path decl.path)

-- The list `problems` of a route whose operation is declared.
unfoldable pub problems : RouteDecl → DeclaredOp → List Text
problems route decl =
    (if method_differs route decl
      then (codes "method " ++ (route.method ++ (codes " != spec " ++ decl.method))) ∷ []
      else [])
    ++ (if path_differs route decl
        then (codes "path " ++ (route.path ++ (codes " != spec " ++ decl.path))) ∷ []
        else [])

-- One round of the loop over the routes.
unfoldable pub take_route : BTreeMap DeclaredOp → Reconciliation → RouteDecl → Reconciliation
take_route by_op rec route = elim (get route.operation by_op) [
  | none ↦ record rec { missing_spec = rec.missing_spec ++ route ∷ [] }
  | some decl ↦
      if is_empty (problems route decl)
      then record rec { matched = suc rec.matched }
      else record rec {
        mismatched =
            rec.mismatched ++ (route, (decl, join (problems route decl) (codes "; "))) ∷ [];
      }
]

unfoldable pub take_routes : BTreeMap DeclaredOp → Reconciliation → List RouteDecl → Reconciliation
take_routes by_op rec [] = rec
take_routes by_op rec (route ∷ routes) = take_routes by_op (take_route by_op rec route) routes

abbrev pub default : Reconciliation
default = record { missing_handler = []; missing_spec = []; mismatched = []; matched = 0 }

abbrev pub operations : List RouteDecl → List Text
operations = map λ (r : RouteDecl). r.operation

-- The loop over the declared operations.
unfoldable pub unhandled : List RouteDecl → List DeclaredOp → List DeclaredOp
unhandled routes =
    keep λ (d : DeclaredOp). not (mem_text d.operation (from_list (operations routes)))

unfoldable pub reconcile : List DeclaredOp → List RouteDecl → Reconciliation
reconcile declared routes = record (take_routes (by_operation [] declared) default routes) {
  missing_handler = unhandled routes declared;
}
