-- ===== src/Common/HashMap.antt =====
-- `std::collections::HashMap` as an association list in which no key stands twice.
use mathlib.Core.Path.{◌≡◌, refl}
use mathlib.Core.Logic.{◌⊎◌}
use mathlib.Core.Bool.{Bool, true}
use mathlib.Core.Option.{Option, none, some}
use mathlib.Core.List.{List, [], ◌∷◌}
use native.Mathlib.Omega.{arith}
use meshlet.Common.Tests.{if◌then◌else◌}
use meshlet.Common.Equality.{Eq, ◌==◌}

abbrev pub HashMap : Type 0 → Type 0 → Type 0
HashMap K V = List (K × V)

abbrev pub keep {ℓ} : {V : Type ℓ} → (V → Bool) → Option V → Option V
keep p none = none
keep p (some v) = if p v then some v else none

pub keep-some {ℓ} :
    {V : Type ℓ} (p : V → Bool) (o : Option V) {x : V}
    → keep p o ≡ some x
    → (o ≡ some x) × (p x ≡ true)
keep-some p none e = cc
keep-some p (some y) e = ground arith

module _ {K V : Type 0} ⦃e : Eq K⦄ where
  unfoldable pub get : K → HashMap K V → Option V
  get k [] = none
  get k ((j, v) ∷ m) = if j == k then some v else get k m

  unfoldable pub insert : K → V → HashMap K V → HashMap K V
  insert k v [] = (k, v) ∷ []
  insert k v ((j, w) ∷ m) = if j == k then (k, v) ∷ m else (j, w) ∷ insert k v m

  unfoldable pub remove : K → HashMap K V → HashMap K V
  remove k [] = []
  remove k ((j, w) ∷ m) = if j == k then m else (j, w) ∷ remove k m

  -- The program's predicates look at the value only.
  unfoldable pub retain : (V → Bool) → HashMap K V → HashMap K V
  retain p [] = []
  retain p ((j, w) ∷ m) = let rest = retain p m in if p w then (j, w) ∷ rest else rest

  -- No key stands twice.
  abbrev pub IsMap : HashMap K V → Type 0
  IsMap [] = Unit
  IsMap ((k, v) ∷ m) = (get k m ≡ none) × IsMap m

  pub get-insert :
      (j k : K) (v : V) (m : HashMap K V)
      → get j (insert k v m) ≡ (if k == j then some v else get j m)
  unfolding get insert
  get-insert j k v [] = refl
  get-insert j k v ((i, w) ∷ m) =
      ground (arith, get-insert j k v m, e.beq_iff i k, e.beq_iff i j, e.beq_iff k j)

  pub get-insert-some :
      (j k : K) (v : V) (m : HashMap K V) {w : V}
      → get j (insert k v m) ≡ some w
      → ((k ≡ j) × (v ≡ w)) ⊎ (get j m ≡ some w)
  get-insert-some j k v m h = ground (arith, get-insert j k v m, e.beq_iff k j)

  pub get-remove :
      (j k : K) (m : HashMap K V)
      → IsMap m
      → get j (remove k m) ≡ (if k == j then none else get j m)
  unfolding get remove
  get-remove j k [] h = ground arith
  get-remove j k ((i, w) ∷ m) h =
      ground (arith, get-remove j k m h.1, e.beq_iff i k, e.beq_iff i j, e.beq_iff k j)

  pub get-retain :
      (j : K) (p : V → Bool) (m : HashMap K V) → IsMap m → get j (retain p m) ≡ keep p (get j m)
  unfolding get retain
  get-retain j p [] h = refl
  get-retain j p ((i, w) ∷ m) h = ground (arith, get-retain j p m h.1, e.beq_iff i j)

  pub insert-IsMap : (k : K) (v : V) (m : HashMap K V) → IsMap m → IsMap (insert k v m)
  unfolding get insert
  insert-IsMap k v [] h = (refl, tt)
  insert-IsMap k v ((i, w) ∷ m) h =
      ground (arith, insert-IsMap k v m h.1, get-insert i k v m, e.beq_iff i k, e.beq_iff k i)

  pub remove-IsMap : (k : K) (m : HashMap K V) → IsMap m → IsMap (remove k m)
  unfolding remove
  remove-IsMap k [] h = tt
  remove-IsMap k ((i, w) ∷ m) h = ground (arith, remove-IsMap k m h.1, get-remove i k m h.1)

  pub retain-IsMap : (p : V → Bool) (m : HashMap K V) → IsMap m → IsMap (retain p m)
  unfolding retain
  retain-IsMap p [] h = tt
  retain-IsMap p ((i, w) ∷ m) h = ground (arith, retain-IsMap p m h.1, get-retain i p m h.1)
