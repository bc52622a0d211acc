-- ===== src/Common/Values.antt =====
-- A property of every value of a map, and maps of maps.
use mathlib.Core.Path.{◌≡◌}
use mathlib.Core.Logic.{if_pos, if_neg}
use mathlib.Core.Option.{some}
use mathlib.Core.List.{[], ◌∷◌}
use native.Mathlib.Omega.{arith}
use the_swarm.Common.Map.{Key, Map, get, insert, remove, Distinct, insert-Distinct, remove-Distinct}

abbrev pub AllValues {ℓ} : {K V : Type 0} → (V → Type ℓ) → Map K V → Type ℓ
AllValues P [] = Unit
AllValues P ((k, v) ∷ m) = P v × AllValues P m

module _ {ℓ} {K V : Type 0} ⦃key : Key K⦄ (P : V → Type ℓ) where
  pub AllValues-get : (m : Map K V) (k : K) (v : V) → AllValues P m → get m k ≡ some v → P v
  unfolding get
  AllValues-get [] k v a e = absurd (cc)
  AllValues-get ((j, w) ∷ m) k v a e = elim (key.eq j k) [
    | yes p ↦ ground arith
    | no p ↦ AllValues-get m k v a.1 (ground arith)
  ]

  pub AllValues-insert :
      (m : Map K V) (k : K) (v : V) → AllValues P m → P v → AllValues P (insert m k v)
  unfolding insert
  AllValues-insert [] k v a p = (p, tt)
  AllValues-insert ((j, w) ∷ m) k v a p = elim (key.eq j k) [
    | yes q ↦ rw (if_pos _ q) (p, a.1)
    | no q ↦ rw (if_neg _ q) (a.0, AllValues-insert m k v a.1 p)
  ]

  pub AllValues-remove : (m : Map K V) (k : K) → AllValues P m → AllValues P (remove m k)
  unfolding remove
  AllValues-remove [] k a = tt
  AllValues-remove ((j, w) ∷ m) k a = elim (key.eq j k) [
    | yes q ↦ rw (if_pos _ q) a.1
    | no q ↦ rw (if_neg _ q) (a.0, AllValues-remove m k a.1)
  ]

module _ {J K V : Type 0} ⦃outer : Key J⦄ ⦃inner : Key K⦄ where
  -- A map of maps whose keys are distinct on both levels.
  abbrev pub IsTable : Map J (Map K V) → Type 0
  IsTable m = Distinct m × AllValues Distinct m

  pub IsTable-insert :
      (m : Map J (Map K V)) (k : J) (v : Map K V) → IsTable m → Distinct v → IsTable (insert m k v)
  IsTable-insert m k v t d = (insert-Distinct m k v t.0, AllValues-insert Distinct m k v t.1 d)

  pub IsTable-remove : (m : Map J (Map K V)) (k : J) → IsTable m → IsTable (remove m k)
  IsTable-remove m k t = (remove-Distinct m k t.0, AllValues-remove Distinct m k t.1)

  pub IsTable-get :
      (m : Map J (Map K V)) (k : J) (v : Map K V) → IsTable m → get m k ≡ some v → Distinct v
  IsTable-get m k v t e = AllValues-get Distinct m k v t.1 e
