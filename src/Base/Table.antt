-- ===== src/Base/Table.antt =====
-- The hash tables that the program calls, behind what it relies on: what a search finds was
-- inserted under an equal key. Which value a key inserted twice has is left open.
use mathlib.Core.Path.{◌≡◌, sym, ap, ◌∙◌}
use mathlib.Core.Logic.{◌⊎◌, inl, inr}
use mathlib.Core.Bool.{Bool, true}
use mathlib.Core.Option.{Option, some}
use memccache.Base.Text.{Bytes, bytes_eq, bytes_eq_sound}

pub record HashTable (K V : Type 0) (equal : K → K → Bool) : Type 1 where
  pub Table : Type 0
  pub create : Table
  pub search : Table → K → Option V
  pub insert : Table → K → V → Table
  -- The pairs that were inserted.
  pub Holds : Table → K → V → Type 0
  pub create-empty : (k : K) (v : V) → Holds create k v → ⊥
  pub insert-Holds :
      (t : Table) (k j : K) (v u : V) → Holds (insert t k v) j u → ((j ≡ k) × (u ≡ v)) ⊎ Holds t j u
  pub search-Holds :
      (t : Table) (k : K) (v : V) → search t k ≡ some v → (j : K) × (equal k j ≡ true) × Holds t j v

module _ {V : Type 0} (tables : HashTable Bytes V bytes_eq) (source : Bytes → Option V) where
  -- A table that holds nothing but what the source gives.
  abbrev pub Caches : tables.Table → Type 0
  Caches t = (k : Bytes) (v : V) → tables.Holds t k v → source k ≡ some v

  pub create-Caches : Caches tables.create
  create-Caches k v h = absurd (tables.create-empty k v h)

  pub insert-Caches :
      (t : tables.Table) (k : Bytes) (v : V)
      → Caches t
      → source k ≡ some v
      → Caches (tables.insert t k v)
  insert-Caches t k v c e j w h = elim (tables.insert-Holds t k j v w h) [
    | inl (same, value) ↦ ap source same ∙ e ∙ ap some (sym value)
    | inr old ↦ c j w old
  ]

  pub search-Caches :
      (t : tables.Table) (k : Bytes) (v : V)
      → Caches t
      → tables.search t k ≡ some v
      → source k ≡ some v
  search-Caches t k v c e =
      let (j, same, held) = tables.search-Holds t k v e in
      ap source (bytes_eq_sound k j same) ∙ c j v held
