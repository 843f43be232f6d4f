-- ===== src/Dialect/Asyncapi/Same.antt =====
-- An AsyncAPI document compared with itself.
use soothfast.Base.{
  ℕ, zero, suc, ◌≡◌, refl, sym, true, List, [], ◌∷◌, ◌++◌, Option, none, some, is_some, Text, codes,
  text_eq_iff, Option-cases, Bool-cases, inl, inr, &&_iff, all,
}
use soothfast.Base.Json.{Value, index, is_null, as_str, as_array}
use soothfast.Base.JsonKeyed.{keyed, index-keyed}
use soothfast.Compat.{sort, or_nil, deref}
use soothfast.Compat.Walk.{Direction}
use soothfast.Compat.Unchanged.{compare_same, compare_keys_same, deref-keyed}
use soothfast.Dialect.Parts.{members-keyed, fields-Keyed}
use soothfast.Dialect.Asyncapi.{
  follow_for, follow, action, address, payload_of, payload, flow, operations, compare_payload,
  compare_operation, diff,
}

follow-keyed :
    (n : ℕ) (doc node : Value)
    → keyed doc ≡ true
    → keyed node ≡ true
    → keyed (follow_for n doc node) ≡ true
unfolding follow_for
follow-keyed zero doc node d h = h
follow-keyed (suc n) doc node d h =
    elim (Bool-cases (is_some (as_str (index node (codes "$ref"))))) [
      | inl e ↦ rw e (follow-keyed n doc (deref doc node) d (deref-keyed doc node d h))
      | inr e ↦ rw e h
    ]

some-inj : {v w : Value} → some v ≡ some w → v ≡ w
some-inj h = cc

payload-keyed :
    (doc op v : Value)
    → keyed doc ≡ true
    → keyed op ≡ true
    → payload doc op ≡ some v
    → keyed v ≡ true
unfolding payload
payload-keyed doc op v d h e =
    first (as_array (index op (codes "messages")))
      (members-keyed (index op (codes "messages")) (index-keyed (codes "messages") op h)) e
  where
    first :
        (vs : Option (List Value))
        → all keyed (or_nil vs) ≡ true
        → payload_of doc vs ≡ some v
        → keyed v ≡ true
    first none k e = cc
    first (some []) k e = cc
    first (some (m ∷ rest)) k e =
        let body =
          index-keyed (codes "payload") (follow doc m)
            (follow-keyed 8 doc m d ((&&_iff (keyed m) (all keyed rest)).0 k).0) in
        elim (Bool-cases (is_null (index (follow doc m) (codes "payload")))) [
          | inl q ↦ absurd (none-some (rw q at e))
          | inr q ↦ rw (sym (some-inj (rw q at e))) body
        ]
      where
        none-some : none ≡ some v → ⊥
        none-some q = cc

module _ (to_string : Value → Text) (doc : Value) (doc_keyed : keyed doc ≡ true) where
  payload_same :
      (place : Text) (o : Value) (dir : Direction)
      → keyed o ≡ true
      → compare_payload to_string doc doc place (payload doc o) (payload doc o) dir ≡ []
  payload_same place o dir h = elim (Option-cases (payload doc o)) [
    | inl e ↦ rw e refl
    | inr (v, e) ↦ rw e (
        compare_same to_string doc dir doc_keyed [] (place ++ codes " payload") v
          (payload-keyed doc o v doc_keyed h e))
  ]

  compare_operation_same :
      (place : Text) (o : Value)
      → keyed o ≡ true
      → compare_operation to_string doc doc place o o ≡ []
  unfolding compare_operation
  compare_operation_same place o h =
      rw
        (
          (text_eq_iff (action o) (action o)).1 refl,
          (text_eq_iff (address doc o) (address doc o)).1 refl,
        )
        (payload_same place o (flow (action o)) h)

  pub diff_same : diff to_string doc doc ≡ []
  unfolding diff sort operations
  diff_same =
      rw
        (compare_keys_same (operations doc) (codes "operation")
          (compare_operation to_string doc doc)
          (λ k v e. compare_operation_same k v (
            fields-Keyed (index doc (codes "operations"))
              (index-keyed (codes "operations") doc doc_keyed) k v e)))
        refl
