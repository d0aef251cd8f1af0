-- ===== src/Novelty/Table.antt =====
-- Tables with a text primary key, as the SQL of src/novelty.rs uses them.
use ct_firehose_filter.Prelude.{
  ◌≡◌, refl, true, false, Option, none, some, List, [], ◌∷◌, arith, if◌then◌else◌, Str, str_eq,
  str_eq_iff, is_some,
}

abbrev pub Table : Type 0 → Type 0
Table V = List (Str × V)

module _ {V : Type 0} where
  unfoldable pub lookup : Str → Table V → Option V
  lookup k [] = none
  lookup k ((j, v) ∷ t) = if str_eq j k then some v else lookup k t

  -- `INSERT … VALUES (k, v) ON CONFLICT(key) DO UPDATE SET …`
  unfoldable pub upsert : Str → V → (V → V) → Table V → Table V
  upsert k v f [] = (k, v) ∷ []
  upsert k v f ((j, w) ∷ t) = if str_eq j k then (j, f w) ∷ t else (j, w) ∷ upsert k v f t

  -- `UPDATE … WHERE key = k`
  unfoldable pub update : Str → (V → V) → Table V → Table V
  update k f [] = []
  update k f ((j, w) ∷ t) = if str_eq j k then (j, f w) ∷ t else (j, w) ∷ update k f t

  -- `INSERT OR IGNORE`
  unfoldable pub insert_or_ignore : Str → V → Table V → Table V
  unfolding lookup
  insert_or_ignore k v t = if is_some (lookup k t) then t else (k, v) ∷ t

  abbrev pub value_after : V → (V → V) → Option V → V
  value_after v f none = v
  value_after v f (some w) = f w

  pub lookup-upsert :
      (k j : Str) (v : V) (f : V → V) (t : Table V)
      → lookup j (upsert k v f t)
        ≡ (if str_eq k j then some (value_after v f (lookup k t)) else lookup j t)
  unfolding lookup upsert
  lookup-upsert k j v f [] = refl
  lookup-upsert k j v f ((i, w) ∷ t) =
      ground (arith, str_eq_iff i k, str_eq_iff k j, str_eq_iff i j, lookup-upsert k j v f t)

  abbrev pub value_updated : (V → V) → Option V → Option V
  value_updated f none = none
  value_updated f (some w) = some (f w)

  pub lookup-update :
      (k j : Str) (f : V → V) (t : Table V)
      → lookup j (update k f t) ≡ (if str_eq k j then value_updated f (lookup k t) else lookup j t)
  unfolding lookup update
  lookup-update k j f [] = ground arith
  lookup-update k j f ((i, w) ∷ t) =
      ground (arith, str_eq_iff i k, str_eq_iff k j, str_eq_iff i j, lookup-update k j f t)

  pub lookup-insert_or_ignore :
      (k j : Str) (v : V) (t : Table V)
      → lookup j (insert_or_ignore k v t)
        ≡ (if is_some (lookup j t) then lookup j t else if str_eq k j then some v else none)
  unfolding lookup insert_or_ignore
  lookup-insert_or_ignore k j v t = ground (arith, str_eq_iff k j)

  pub insert_or_ignore_old :
      (k : Str) (v : V) (t : Table V) → is_some (lookup k t) ≡ true → insert_or_ignore k v t ≡ t
  unfolding insert_or_ignore
  insert_or_ignore_old k v t h = rw h

  pub insert_or_ignore_new :
      (k : Str) (v : V) (t : Table V)
      → is_some (lookup k t) ≡ false
      → insert_or_ignore k v t ≡ (k, v) ∷ t
  unfolding insert_or_ignore
  insert_or_ignore_new k v t h = rw h
