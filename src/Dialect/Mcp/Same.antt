-- ===== src/Dialect/Mcp/Same.antt =====
-- A manifest of tools compared with itself.
use soothfast.Base.{
  ◌≡◌, refl, true, [], ◌++◌, Option, none, some, Text, codes, Option-cases, inl, inr,
}
use soothfast.Base.Json.{Value, get, index, as_str, as_array}
use soothfast.Base.JsonKeyed.{keyed, get-keyed, index-keyed}
use soothfast.Compat.{sort, or_nil}
use soothfast.Compat.Walk.{request, response}
use soothfast.Compat.Unchanged.{compare_same, compare_keys_same, Keyed}
use soothfast.Dialect.Parts.{members-keyed, named-Keyed}
use soothfast.Dialect.Mcp.{named, by_name, compare_output, compare_tool, diff}

by_name-Keyed : (doc : Value) → keyed doc ≡ true → Keyed (by_name doc)
unfolding by_name
by_name-Keyed doc h =
    named-Keyed (λ t. named t (as_str (index t (codes "name"))))
      (or_nil (as_array (index doc (codes "tools"))))
      (λ t e. same t (as_str (index t (codes "name"))) e)
      (members-keyed (index doc (codes "tools")) (index-keyed (codes "tools") doc h))
  where
    same : (t : Value) (n : Option Text) (e : Text × Value) → named t n ≡ some e → e.1 ≡ t
    same t none e q = cc
    same t (some n) e q = cc

module _ (to_string : Value → Text) where
  output_same :
      (place : Text) (o : Value)
      → keyed o ≡ true
      → compare_output to_string place (get (codes "outputSchema") o) (get (codes "outputSchema") o)
        ≡ []
  output_same place o h = elim (Option-cases (get (codes "outputSchema") o)) [
    | inl e ↦ rw e refl
    | inr (v, e) ↦
        let k = get-keyed (codes "outputSchema") o v h e in
        rw e (compare_same to_string v response k [] (place ++ codes " output") v k)
  ]

  compare_tool_same :
      (place : Text) (o : Value) → keyed o ≡ true → compare_tool to_string place o o ≡ []
  unfolding compare_tool
  compare_tool_same place o h =
      let k = index-keyed (codes "inputSchema") o h in
      rw
        (
          compare_same to_string (index o (codes "inputSchema")) request k []
              (place ++ codes " input") (index o (codes "inputSchema")) k,
          compare_tool,
        )
        (output_same place o h)

  pub diff_same : (doc : Value) → keyed doc ≡ true → diff to_string doc doc ≡ []
  unfolding diff sort
  diff_same doc h =
      rw
        (compare_keys_same (by_name doc) (codes "tool") (compare_tool to_string)
          (λ k v e. compare_tool_same k v (by_name-Keyed doc h k v e)))
        refl
