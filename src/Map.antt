-- ===== src/Map.antt =====
-- `std::unordered_map`, as far as the sources use it: an association list in the order in which a
-- loop over the container visits the pairs. `m[k] = v` is `assign`, `m.emplace(k, v)` is `emplace`.
use octet.Prelude.{
  ◌≡◌, refl, Bool, Option, none, some, List, [], ◌∷◌, ◌++◌, arith, Comparable, ◌==◌, if◌then◌else◌,
  has_value,
}

abbrev pub Map {ℓ κ} : Type ℓ → Type κ → Type (ℓ ⊔ κ)
Map K V = List (K × V)

module _ {ℓ κ} {K : Type ℓ} {V : Type κ} ⦃e : Comparable K⦄ where
  unfoldable pub find : K → Map K V → Option V
  find k [] = none
  find k ((j, v) ∷ m) = if j == k then some v else find k m

  abbrev pub contains : K → Map K V → Bool
  contains k m = has_value (find k m)

  unfoldable pub assign : K → V → Map K V → Map K V
  assign k v [] = (k, v) ∷ []
  assign k v ((j, w) ∷ m) = if j == k then (j, v) ∷ m else (j, w) ∷ assign k v m

  unfoldable pub erase : K → Map K V → Map K V
  erase k [] = []
  erase k ((j, w) ∷ m) = let rest = erase k m in if j == k then rest else (j, w) ∷ rest

  unfoldable pub emplace : K → V → Map K V → Map K V
  unfolding find
  emplace k v m = if has_value (find k m) then m else m ++ (k, v) ∷ []

  pub find-assign :
      (k j : K) (v : V) (m : Map K V)
      → find j (assign k v m) ≡ (if k == j then some v else find j m)
  unfolding find assign
  find-assign k j v [] = refl
  find-assign k j v ((i, w) ∷ m) =
      ground (arith, e.same_iff k j, e.same_iff i k, e.same_iff i j, find-assign k j v m)

  pub find-erase :
      (k j : K) (m : Map K V) → find j (erase k m) ≡ (if k == j then none else find j m)
  unfolding find erase
  find-erase k j [] = ground arith
  find-erase k j ((i, w) ∷ m) =
      ground (arith, e.same_iff k j, e.same_iff i k, e.same_iff i j, find-erase k j m)

  pub find-append :
      (k : K) (m n : Map K V)
      → find k (m ++ n) ≡ (if has_value (find k m) then find k m else find k n)
  unfolding find
  find-append k [] n = refl
  find-append k ((i, w) ∷ m) n = ground (arith, find-append k m n)

  pub find-emplace :
      (k j : K) (v : V) (m : Map K V)
      → find j (emplace k v m)
        ≡ (if has_value (find j m) then find j m else if k == j then some v else none)
  unfolding emplace
  find-emplace k j v m = ground (arith, e.same_iff k j, find-append j m ((k, v) ∷ []), single k j v)
    where
      single : (k j : K) (v : V) → find j ((k, v) ∷ []) ≡ (if k == j then some v else none)
      single k j v = unfold find in refl

  -- What a client can see of a map.
  abbrev pub SameMap : Map K V → Map K V → Type (ℓ ⊔ κ)
  SameMap m n = (k : K) → find k m ≡ find k n

  -- No key stands twice, as the container promises.
  abbrev pub Unique : Map K V → Type (ℓ ⊔ κ)
  Unique [] = Unit
  Unique ((k, v) ∷ m) = (find k m ≡ none) × Unique m

  pub assign-Unique : (k : K) (v : V) (m : Map K V) → Unique m → Unique (assign k v m)
  unfolding assign
  assign-Unique k v [] h = unfold find in (refl, tt)
  assign-Unique k v ((i, w) ∷ m) h = grind (arith, find-assign, e.same_iff i k, assign-Unique k v m)

  pub erase-Unique : (k : K) (m : Map K V) → Unique m → Unique (erase k m)
  unfolding erase
  erase-Unique k [] h = tt
  erase-Unique k ((i, w) ∷ m) h = grind (arith, find-erase, e.same_iff k i, erase-Unique k m)
