-- ===== src/Reconcile/Tests.antt =====
-- Runs of the reconciler, and each theorem about it at a concrete input.
use soothfast.Base.BTreeSet.{from_list}
use soothfast.Base.{◌≡◌, refl, false, ◌&&◌, all, List, [], ◌∷◌, codes, mem_text}
use soothfast.Reconcile.{default, unhandled, DeclaredOp, RouteDecl, is_clean, reconcile, operations}
use soothfast.Reconcile.Clean.{agrees, last_named, is_clean-reconcile, Split, reconcile-Split}

abbrev declared : List DeclaredOp
declared =
    record { operation = codes "getItem"; method = codes "GET"; path = codes "/items/{id}" }
    ∷ record { operation = codes "listItems"; method = codes "GET"; path = codes "/items" }
    ∷ []

abbrev routes : List RouteDecl
routes =
    record {
      id = codes "app::getItem";
      operation = codes "getItem";
      method = codes "get";
      path = [];
    }
    ∷ []

not_clean : is_clean (reconcile declared routes) ≡ false
unfolding is_clean reconcile unhandled mem_text from_list
not_clean = refl

is_clean-reconcile_example : is_clean (reconcile declared routes) ≡ (
    all (λ (r : RouteDecl). agrees r (last_named r.operation declared)) routes
    && all (λ (d : DeclaredOp). mem_text d.operation (operations routes)) declared)
is_clean-reconcile_example = is_clean-reconcile declared routes

reconcile-Split_example :
    Split
      (λ (r : RouteDecl). last_named r.operation declared)
      default
      (reconcile declared routes)
      routes
reconcile-Split_example = reconcile-Split declared routes
