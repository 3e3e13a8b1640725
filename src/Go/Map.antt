-- ===== src/Go/Map.antt =====
-- `map[string]V` as a list of entries. The order in which Go ranges over a map is not specified: a
-- function that ranges over one takes the order as an argument.
use articleflow.Prelude.{
  ◌||◌, true, String, ◌≡◌, refl, Bool, false, Option, none, some, List, [], ◌∷◌, arith, ◌==◌,
  eq_iff, eq_refl, if◌then◌else◌, Mem, inl, inr, Bool-cases,
}
use mathlib.Core.List.{mem-cons_self, mem-cons_of_mem}

abbrev pub Map {ℓ} : Type ℓ → Type ℓ
Map V = List (String × V)

module _ {ℓ} {V : Type ℓ} where
  unfoldable pub lookup : String → Map V → Option V
  lookup key [] = none
  lookup key ((name, value) ∷ entries) = if name == key then some value else lookup key entries

  -- m[key] = value: the entry keeps its place if there is one.
  unfoldable pub insert : String → V → Map V → Map V
  insert key value [] = (key, value) ∷ []
  insert key value ((name, old) ∷ entries) =
      if name == key then (key, value) ∷ entries else (name, old) ∷ insert key value entries

  -- delete(m, k)
  unfoldable pub remove : String → Map V → Map V
  remove k [] = []
  remove k ((j, w) ∷ m) = let rest = remove k m in if j == k then rest else (j, w) ∷ rest

  -- The value, or the zero value where the key is missing.
  abbrev pub lookup_or : V → String → Map V → V
  lookup_or zero_value k m = elim (lookup k m) [ none ↦ zero_value | some v ↦ v ]

  unfoldable pub values : Map V → List V
  values [] = []
  values ((k, v) ∷ m) = v ∷ values m

  pub lookup-insert :
      (key other : String) (value : V) (entries : Map V)
      → lookup other (insert key value entries)
        ≡ (if key == other then some value else lookup other entries)
  unfolding lookup insert
  lookup-insert key other value [] = refl
  lookup-insert key other value ((name, old) ∷ entries) = ground (
    arith,
    lookup-insert key other value entries,
    eq_iff key other,
    eq_iff name other,
    eq_iff name key,
  )

  pub lookup-insert_self :
      (key : String) (value : V) (entries : Map V)
      → lookup key (insert key value entries) ≡ some value
  lookup-insert_self key value entries = rw (lookup-insert key key value entries, eq_refl key)

  pub lookup-remove :
      (k j : String) (m : Map V) → lookup j (remove k m) ≡ (if k == j then none else lookup j m)
  unfolding lookup remove
  lookup-remove k j [] = ground arith
  lookup-remove k j ((i, w) ∷ m) =
      ground (arith, lookup-remove k j m, eq_iff i k, eq_iff i j, eq_iff k j)

  pub lookup-mem : (k : String) (v : V) (m : Map V) → lookup k m ≡ some v → Mem v (values m)
  unfolding lookup values
  lookup-mem k v [] e = cc
  lookup-mem k v ((j, w) ∷ m) e = elim (Bool-cases (j == k)) [
    | inl same ↦ let here : w ≡ v = ground arith in rw here mem-cons_self
    | inr other ↦ mem-cons_of_mem w (lookup-mem k v m (ground arith))
  ]

pub ruleset map_laws = (lookup-insert, lookup-insert_self, lookup-remove)

-- `map[string]bool` as a set: s[k] = true, and s[k].
abbrev pub Set : Type 0
Set = Map Bool

unfoldable pub member : String → Set → Bool
member k s = lookup_or false k s

pub member-nil : (t : String) → member t [] ≡ false
unfolding member lookup
member-nil t = refl

pub member-insert : (t v : String) (s : Set) → member t (insert v true s) ≡ (v == t || member t s)
unfolding member
member-insert t v s = ground (arith, lookup-insert v t true s)

module _ {ℓ} {V : Type ℓ} where
  pub lookup_or-insert :
      (z : V) (k j : String) (v : V) (m : Map V)
      → lookup_or z j (insert k v m) ≡ (if k == j then v else lookup_or z j m)
  lookup_or-insert z k j v m = ground (arith, lookup-insert k j v m)

  pub lookup_or-nil : (z : V) (j : String) → lookup_or z j [] ≡ z
  unfolding lookup
  lookup_or-nil z j = refl
