-- ===== src/Prelude/Maps.antt =====
-- Hash maps as association lists. The order of the list is the order in which the map iterates.
use mathlib.Core.Path.{◌≡◌, refl, subst}
use mathlib.Core.Logic.{◌↔◌, inl, inr}
use mathlib.Core.Bool.{Bool, true, false, ◌&&◌, ◌||◌}
use mathlib.Core.Option.{Option, none, some}
use mathlib.Core.List.{List, [], ◌∷◌}
use native.Mathlib.Omega.{arith}
use canonical_api_server_rs.Prelude.Tests.{if◌then◌else◌, Bool-cases}
use canonical_api_server_rs.Prelude.Results.{IfSome}

-- Keys are compared by a Boolean test that decides equality.
pub record Eq (K : Type 0) : Type 0 where
  pub beq : K → K → Bool
  pub beq_iff : (a b : K) → (beq a b ≡ true) ↔ (a ≡ b)

module _ {K V : Type 0} (e : Eq K) where
  abbrev pub lookup : K → List (K × V) → Option V
  lookup k [] = none
  lookup k ((j, v) ∷ m) = let rest = lookup k m in if e.beq j k then some v else rest

  -- `HashMap::insert`: the old value under the key, if any, is replaced.
  abbrev pub insert : K → V → List (K × V) → List (K × V)
  insert k v [] = (k, v) ∷ []
  insert k v ((j, w) ∷ m) =
      let rest = insert k v m in if e.beq j k then (j, v) ∷ m else (j, w) ∷ rest

  -- `HashMap::remove`
  abbrev pub remove : K → List (K × V) → List (K × V)
  remove k [] = []
  remove k ((j, w) ∷ m) = let rest = remove k m in if e.beq j k then rest else (j, w) ∷ rest

  abbrev pub contains_key : K → List (K × V) → Bool
  contains_key k [] = false
  contains_key k ((j, w) ∷ m) = e.beq j k || contains_key k m

  pub lookup-insert :
      (k j : K) (v : V) (m : List (K × V))
      → lookup j (insert k v m) ≡ (if e.beq k j then some v else lookup j m)
  lookup-insert k j v [] = refl
  lookup-insert k j v ((i, w) ∷ m) =
      ground (arith, e.beq_iff k j, e.beq_iff i k, e.beq_iff i j, lookup-insert k j v m)

  pub lookup-remove :
      (k j : K) (m : List (K × V))
      → lookup j (remove k m) ≡ (if e.beq k j then none else lookup j m)
  lookup-remove k j [] = ground arith
  lookup-remove k j ((i, w) ∷ m) =
      ground (arith, e.beq_iff k j, e.beq_iff i k, e.beq_iff i j, lookup-remove k j m)

-- What holds of every value that a map has under its key is kept by an insertion of such a value.
pub IfSome-insert :
    {K V : Type 0} (e : Eq K) (P : K → V → Type 0) (k : K) (v : V) (m : List (K × V))
    → P k v
    → ((j : K) → IfSome (P j) (lookup e j m))
    → (j : K) → IfSome (P j) (lookup e j (insert e k v m))
IfSome-insert e P k v m p h j = elim (Bool-cases (e.beq k j)) [
  | inl same ↦
      let equal = (e.beq_iff k j).0 same in
      rw (lookup-insert e k j v m, same) (subst (λ i. P i v) equal p)
  | inr other ↦ rw (lookup-insert e k j v m, other) (h j)
]

-- Pairs of keys
pub pair_beq_iff :
    {A B : Type 0} (a : Eq A) (b : Eq B) (p q : A × B)
    → ((a.beq p.0 q.0 && b.beq p.1 q.1) ≡ true) ↔ (p ≡ q)
pair_beq_iff a b (x, y) (u, v) = ground (arith, a.beq_iff x u, b.beq_iff y v)

abbrev pub pair_eq : {A B : Type 0} → Eq A → Eq B → Eq (A × B)
pair_eq a b = record { beq = λ p q. a.beq p.0 q.0 && b.beq p.1 q.1; beq_iff = pair_beq_iff a b }
