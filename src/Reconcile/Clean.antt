-- ===== src/Reconcile/Clean.antt =====
-- What a reconciliation says of the two sides.
use mathlib.Core.Path.{subst}
use soothfast.Base.{
  ◌+◌, ◌≡◌, refl, ap, fun_ext, ◌∙◌, Bool, true, false, not, ◌&&◌, List, [], ◌∷◌, ◌++◌, all, keep,
  ◌||◌, map, sym, append-nil, append_assoc, Option, none, some, arith, or_else, if◌then◌else◌, Text,
  codes, join, text_eq, mem_text, length, length-append, Bool-cases, Option-cases, inl, inr,
}
use soothfast.Base.Parse.{is_empty}
use soothfast.Base.BTreeMap.{BTreeMap, get, insert, get-insert}
use soothfast.Base.BTreeSet.{mem-from_list}
use soothfast.Reconcile.{
  DeclaredOp, RouteDecl, Reconciliation, is_clean, by_operation, method_differs, path_differs,
  problems, take_route, take_routes, default, operations, unhandled, reconcile,
}

-- The last operation of the list with a name.
abbrev pub last_named : Text → List DeclaredOp → Option DeclaredOp
last_named n [] = none
last_named n (d ∷ ds) = or_else (last_named n ds) (if text_eq d.operation n then some d else none)

get-by_operation :
    (n : Text) (m : BTreeMap DeclaredOp) (ds : List DeclaredOp)
    → get n (by_operation m ds) ≡ or_else (last_named n ds) (get n m)
unfolding by_operation
get-by_operation n m [] = refl
get-by_operation n m (d ∷ ds) =
    get-by_operation n (insert d.operation d m) ds
    ∙ ap (or_else (last_named n ds)) (get-insert d.operation n d m)
    ∙ later (last_named n ds) (text_eq d.operation n)
  where
    later :
        (o : Option DeclaredOp) (b : Bool)
        → or_else o (if b then some d else get n m)
          ≡ or_else (or_else o (if b then some d else none)) (get n m)
    later (some e) b = refl
    later none true = refl
    later none false = refl

or_else-none {ℓ} : {A : Type ℓ} (o : Option A) → or_else o none ≡ o
or_else-none none = refl
or_else-none (some d) = refl

last_found :
    (n : Text) (declared : List DeclaredOp)
    → get n (by_operation [] declared) ≡ last_named n declared
unfolding get
last_found n declared = get-by_operation n [] declared ∙ or_else-none (last_named n declared)

-- What a route says agrees with the operation: the method up to case, the path to the letter, each only
-- where the route states it.
abbrev pub agrees : RouteDecl → Option DeclaredOp → Bool
agrees route none = false
agrees route (some decl) = not (method_differs route decl) && not (path_differs route decl)

abbrev buckets_empty : Reconciliation → Bool
buckets_empty rec = is_empty rec.missing_spec && is_empty rec.mismatched

is_empty-snoc {ℓ} : {A : Type ℓ} (xs : List A) (x : A) → is_empty (xs ++ x ∷ []) ≡ false
is_empty-snoc [] x = refl
is_empty-snoc (y ∷ xs) x = refl

take_route-empty :
    (m : BTreeMap DeclaredOp) (rec : Reconciliation) (r : RouteDecl)
    → buckets_empty (take_route m rec r) ≡ (buckets_empty rec && agrees r (get r.operation m))
unfolding take_route problems
take_route-empty m rec r = elim (Option-cases (get r.operation m)) [
  | inl e ↦ rw (e, take_route) (ground (arith, is_empty-snoc rec.missing_spec r))
  | inr (d, e) ↦
      let bad : RouteDecl × (DeclaredOp × Text) = (r, (d, join (problems r d) (codes "; "))) in
      rw (e, take_route)
        (elim (Bool-cases (method_differs r d)) [
          | inl f ↦ rw (f, problems) (ground (arith, is_empty-snoc rec.mismatched bad, f))
          | inr f ↦ elim (Bool-cases (path_differs r d)) [
            | inl g ↦ rw (f, g, problems) (ground (arith, is_empty-snoc rec.mismatched bad, f, g))
            | inr g ↦ rw (f, g, problems) (ground (arith, f, g))
          ]
        ])
]

take_routes-empty :
    (m : BTreeMap DeclaredOp) (rec : Reconciliation) (rs : List RouteDecl)
    → buckets_empty (take_routes m rec rs)
      ≡ (buckets_empty rec && all (λ (r : RouteDecl). agrees r (get r.operation m)) rs)
unfolding take_routes
take_routes-empty m rec [] = ground arith
take_routes-empty m rec (r ∷ rs) =
    take_routes-empty m (take_route m rec r) rs ∙ ground (arith, take_route-empty m rec r)

unhandled-empty :
    (rs : List RouteDecl) (ds : List DeclaredOp)
    → is_empty (unhandled rs ds) ≡ all (λ (d : DeclaredOp). mem_text d.operation (operations rs)) ds
unfolding unhandled
unhandled-empty rs [] = refl
unhandled-empty rs (d ∷ ds) =
    ground (arith, unhandled-empty rs ds, mem-from_list d.operation (operations rs))

-- A reconciliation is clean exactly when every route names a declared operation, agrees with the last
-- one of that name, and every declared operation has a route.
pub is_clean-reconcile :
    (declared : List DeclaredOp) (routes : List RouteDecl)
    → is_clean (reconcile declared routes) ≡ (
        all (λ (r : RouteDecl). agrees r (last_named r.operation declared)) routes
        && all (λ (d : DeclaredOp). mem_text d.operation (operations routes)) declared)
unfolding is_clean reconcile
is_clean-reconcile declared routes = ground (
  arith,
  unhandled-empty routes declared,
  take_routes-empty (by_operation [] declared) default routes ∙ found,
)
  where
    found :
        all (λ (r : RouteDecl). agrees r (get r.operation (by_operation [] declared))) routes
        ≡ all (λ (r : RouteDecl). agrees r (last_named r.operation declared)) routes
    found =
        ap (λ p. all p routes)
          (fun_ext (λ (r : RouteDecl). ap (agrees r) (last_found r.operation declared)))

-- The routes without a declared operation, those that disagree with theirs, and those that agree.
abbrev pub unknown : Option DeclaredOp → Bool
unknown none = true
unknown (some d) = false

abbrev pub disagrees : RouteDecl → Option DeclaredOp → Bool
disagrees route none = false
disagrees route (some decl) = method_differs route decl || path_differs route decl

abbrev pub mismatched_routes : Reconciliation → List RouteDecl
mismatched_routes rec = map (λ (e : RouteDecl × (DeclaredOp × Text)). e.0) rec.mismatched

map-snoc {ℓ κ} :
    {A : Type ℓ} {B : Type κ} (f : A → B) (xs : List A) (x : A)
    → map f (xs ++ x ∷ []) ≡ map f xs ++ f x ∷ []
map-snoc f [] x = refl
map-snoc f (y ∷ xs) x = ap (λ ys. f y ∷ ys) (map-snoc f xs x)

-- Where the routes go, by the operation that is found for each.
module _ (found : RouteDecl → Option DeclaredOp) where
  abbrev pub Split : Reconciliation → Reconciliation → List RouteDecl → Type 0
  Split before after rs =
      (after.missing_spec ≡ before.missing_spec ++ keep (λ (r : RouteDecl). unknown (found r)) rs)
      × (mismatched_routes after
          ≡ mismatched_routes before ++ keep (λ (r : RouteDecl). disagrees r (found r)) rs)
      × (after.matched ≡ before.matched + length (keep (λ (r : RouteDecl). agrees r (found r)) rs))

take_route-Split :
    (m : BTreeMap DeclaredOp) (rec : Reconciliation) (r : RouteDecl)
    → Split (λ (r : RouteDecl). get r.operation m) rec (take_route m rec r) (r ∷ [])
unfolding take_route problems
take_route-Split m rec r = elim (Option-cases (get r.operation m)) [
  | inl e ↦ rw (e, take_route) (refl, sym (append-nil _), omega arith)
  | inr (d, e) ↦
      let snoc = map-snoc (λ (e : RouteDecl × (DeclaredOp × Text)). e.0) rec.mismatched in
      rw (e, take_route)
        (elim (Bool-cases (method_differs r d)) [
          | inl f ↦ rw (f, problems) (sym (append-nil _), snoc _, omega arith)
          | inr f ↦ elim (Bool-cases (path_differs r d)) [
            | inl g ↦ rw (f, g, problems) (sym (append-nil _), snoc _, omega arith)
            | inr g ↦ rw (f, g, problems) (sym (append-nil _), sym (append-nil _), omega arith)
          ]
        ])
]

keep-cons {ℓ} :
    {A : Type ℓ} (p : A → Bool) (x : A) (xs : List A)
    → keep p (x ∷ xs) ≡ keep p (x ∷ []) ++ keep p xs
keep-cons p x xs = elim (Bool-cases (p x)) [ inl e ↦ rw e refl | inr e ↦ rw e refl ]

keep-snoc {ℓ} :
    {A : Type ℓ} (p : A → Bool) (x : A) (xs ys : List A)
    → (ys ++ keep p (x ∷ [])) ++ keep p xs ≡ ys ++ keep p (x ∷ xs)
keep-snoc p x xs ys = append_assoc ys _ _ ∙ ap (λ zs. ys ++ zs) (sym (keep-cons p x xs))

take_routes-Split :
    (m : BTreeMap DeclaredOp) (rec : Reconciliation) (rs : List RouteDecl)
    → Split (λ (r : RouteDecl). get r.operation m) rec (take_routes m rec rs) rs
unfolding take_routes
take_routes-Split m rec [] = (sym (append-nil _), sym (append-nil _), omega arith)
take_routes-Split m rec (r ∷ rs) =
    let none_found : RouteDecl → Bool = λ q. unknown (get q.operation m) in
    let bad : RouteDecl → Bool = λ q. disagrees q (get q.operation m) in
    let same : RouteDecl → Bool = λ q. agrees q (get q.operation m) in
    let (a, b, c) = take_route-Split m rec r in
    let (x, y, z) = take_routes-Split m (take_route m rec r) rs in
    (
      x ∙ ap (λ l. l ++ keep none_found rs) a ∙ keep-snoc none_found r rs _,
      y ∙ ap (λ l. l ++ keep bad rs) b ∙ keep-snoc bad r rs _,
      z
          ∙ ap (λ n. n + length (keep same rs)) c
          ∙ omega (
            arith,
            ap length (keep-cons same r rs),
            length-append (keep same (r ∷ [])) (keep same rs),
          ),
    )

-- Each route falls into one bucket by the last declared operation of its name, in order: it is unknown to
-- the spec where there is none, mismatched where its method (up to case) or its path is stated and
-- differs, and counted as matched where neither does.
pub reconcile-Split :
    (declared : List DeclaredOp) (routes : List RouteDecl)
    → Split
        (λ (r : RouteDecl). last_named r.operation declared)
        default
        (reconcile declared routes)
        routes
unfolding reconcile
reconcile-Split declared routes =
    subst (λ f. Split f default (reconcile declared routes) routes)
      (fun_ext (λ (r : RouteDecl). last_found r.operation declared))
      (take_routes-Split (by_operation [] declared) default routes)
