-- ===== src/Common/Map.antt =====
-- `HashMap` and `HashSet` of the standard library, as association lists and lists of keys. The
-- order of the list stands for the order in which the map is visited.
use Prim.Native.Nat.{ℕ, suc, ◌≤◌}
use mathlib.Core.Path.{◌≡◌, refl, sym}
use mathlib.Core.Logic.{◌≢◌, ite, if_pos, if_neg}
use mathlib.Core.Bool.{Bool, true, false, ◌&&◌}
use mathlib.Core.Option.{Option, none, some}
use mathlib.Core.List.{List, [], ◌∷◌}
use native.Mathlib.Decide.{ℕ_discrete}
use native.Mathlib.Omega.{arith}
use the_swarm.Common.Lists.{length}

-- `Eq` of a key type.
pub record Key {ℓ} (K : Type ℓ) : Type ℓ where
  pub eq : Discrete K

instance abbrev pub nat_key : Key ℕ
nat_key = record { eq = ℕ_discrete }

abbrev pub Map : Type 0 → Type 0 → Type 0
Map K V = List (K × V)

module _ {K V : Type 0} ⦃key : Key K⦄ where
  unfoldable pub get : Map K V → K → Option V
  get [] k = none
  get ((j, v) ∷ m) k = ite (key.eq j k) (some v) (get m k)

  -- An entry with the key is overwritten in its place.
  unfoldable pub insert : Map K V → K → V → Map K V
  insert [] k v = (k, v) ∷ []
  insert ((j, w) ∷ m) k v = ite (key.eq j k) ((k, v) ∷ m) ((j, w) ∷ insert m k v)

  unfoldable pub remove : Map K V → K → Map K V
  remove [] k = []
  remove ((j, w) ∷ m) k = ite (key.eq j k) m ((j, w) ∷ remove m k)

  -- No entry of the map has this key.
  abbrev pub Fresh : Map K V → K → Type 0
  Fresh [] k = Unit {0}
  Fresh ((j, w) ∷ m) k = (j ≢ k) × Fresh m k

  -- Every key has one entry.
  abbrev pub Distinct : Map K V → Type 0
  Distinct [] = Unit {0}
  Distinct ((j, w) ∷ m) = Fresh m j × Distinct m

  pub get-insert :
      (m : Map K V) (k : K) (v : V) (j : K)
      → get (insert m k v) j ≡ ite (key.eq k j) (some v) (get m j)
  unfolding get insert
  get-insert [] k v j = refl
  get-insert ((i, w) ∷ m) k v j = ground (arith, get-insert m k v j)

  pub get-insert_self : (m : Map K V) (k : K) (v : V) → get (insert m k v) k ≡ some v
  get-insert_self m k v = ground (arith, get-insert m k v k)

  pub get-insert_ne : (m : Map K V) (k : K) (v : V) (j : K) → k ≢ j → get (insert m k v) j ≡ get m j
  get-insert_ne m k v j h = ground (arith, get-insert m k v j)

  pub get_of_Fresh : (m : Map K V) (k : K) → Fresh m k → get m k ≡ none
  unfolding get
  get_of_Fresh [] k f = refl
  get_of_Fresh ((j, w) ∷ m) k f = ground (arith, get_of_Fresh m k f.1)

  pub insert-Fresh :
      (m : Map K V) (k : K) (v : V) (j : K) → k ≢ j → Fresh m j → Fresh (insert m k v) j
  unfolding insert
  insert-Fresh [] k v j h f = (h, tt)
  insert-Fresh ((i, w) ∷ m) k v j h f = ground (arith, insert-Fresh m k v j h f.1)

  pub insert-Distinct : (m : Map K V) (k : K) (v : V) → Distinct m → Distinct (insert m k v)
  unfolding insert
  insert-Distinct [] k v d = (tt, tt)
  insert-Distinct ((j, w) ∷ m) k v d = elim (key.eq j k) [
    | yes p ↦ rw (if_pos _ p, ← p) d
    | no p ↦ rw (if_neg _ p) (insert-Fresh m k v j (λ e. p (sym e)) d.0, insert-Distinct m k v d.1)
  ]

  pub remove-Fresh : (m : Map K V) (k j : K) → Fresh m j → Fresh (remove m k) j
  unfolding remove
  remove-Fresh [] k j f = tt
  remove-Fresh ((i, w) ∷ m) k j f = ground (arith, remove-Fresh m k j f.1)

  pub remove-Distinct : (m : Map K V) (k : K) → Distinct m → Distinct (remove m k)
  unfolding remove
  remove-Distinct [] k d = tt
  remove-Distinct ((j, w) ∷ m) k d = ground (arith, remove-Distinct m k d.1, remove-Fresh m k j d.0)

  pub get-remove_self : (m : Map K V) (k : K) → Distinct m → get (remove m k) k ≡ none
  unfolding get remove
  get-remove_self [] k d = refl
  get-remove_self ((j, w) ∷ m) k d = elim (key.eq j k) [
    | yes p ↦ rw (if_pos _ p, ← p) (get_of_Fresh m j d.0)
    | no p ↦ rw (if_neg _ p, if_neg _ p) (get-remove_self m k d.1)
  ]

  pub get-remove_ne : (m : Map K V) (k j : K) → k ≢ j → get (remove m k) j ≡ get m j
  unfolding get remove
  get-remove_ne [] k j h = refl
  get-remove_ne ((i, w) ∷ m) k j h = ground (arith, get-remove_ne m k j h)

  pub length-insert_new :
      (m : Map K V) (k : K) (v : V) → get m k ≡ none → length (insert m k v) ≡ suc (length m)
  unfolding get insert
  length-insert_new [] k v e = refl
  length-insert_new ((j, w) ∷ m) k v e = ground (arith, length-insert_new m k v)

  pub length-insert_old :
      (m : Map K V) (k : K) (v w : V) → get m k ≡ some w → length (insert m k v) ≡ length m
  unfolding get insert
  length-insert_old [] k v w e = cc
  length-insert_old ((j, u) ∷ m) k v w e = ground (arith, length-insert_old m k v w)

-- The map that a list of pairs collects into: the last pair with a key wins.
module _ {K V : Type 0} ⦃key : Key K⦄ where
  unfoldable pub collect_into : Map K V → List (K × V) → Map K V
  collect_into m [] = m
  collect_into m ((k, v) ∷ l) = collect_into (insert m k v) l

  pub collect_into-Distinct :
      (m : Map K V) (l : List (K × V)) → Distinct m → Distinct (collect_into m l)
  unfolding collect_into
  collect_into-Distinct m [] d = d
  collect_into-Distinct m ((k, v) ∷ l) d =
      collect_into-Distinct (insert m k v) l (insert-Distinct m k v d)

-- A set.
module _ {K : Type 0} ⦃key : Key K⦄ where
  unfoldable pub contains : List K → K → Bool
  contains [] k = false
  contains (j ∷ s) k = ite (key.eq j k) true (contains s k)

  unfoldable pub add : List K → K → List K
  unfolding contains
  add s k = elim (contains s k) [ true ↦ s | false ↦ k ∷ s ]

  unfoldable pub remove_key : List K → K → List K
  remove_key [] k = []
  remove_key (j ∷ s) k = ite (key.eq j k) s (j ∷ remove_key s k)

  unfoldable pub subset : List K → List K → Bool
  subset [] t = true
  subset (k ∷ s) t = contains t k && subset s t

  unfoldable pub add_all : List K → List K → List K
  add_all s [] = s
  add_all s (k ∷ ks) = add_all (add s k) ks

  pub length-add-le : (s : List K) (k : K) → length s ≤ length (add s k)
  unfolding add
  length-add-le s k = ground arith

  pub length-add_all-le : (s ks : List K) → length s ≤ length (add_all s ks)
  unfolding add_all
  length-add_all-le s [] = omega arith
  length-add_all-le s (k ∷ ks) = omega (arith, length-add-le s k, length-add_all-le (add s k) ks)
