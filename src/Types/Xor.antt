-- ===== src/Types/Xor.antt =====
-- src/types.rs: `Hash`, an array of 64 bytes, and its two implementations of `^`.
use Prim.Native.Nat.{bit_xor}
use mathlib.Core.List.{append_assoc}
use mathlib.Core.Option
use the_swarm.Common.{
  ℕ, zero, suc, ◌≡◌, refl, sym, ap, subst, ◌∙◌, List, [], ◌∷◌, ◌++◌, Option, some, none, arith,
  length, get_elem?, set, replicate,
}

pub record Hash : Type 0 where
  pub inner : List ℕ

abbrev pub hash_bytes : ℕ
hash_bytes = 64

-- The loop over the zipped and enumerated bytes, which writes `b1 ^ b2` at the position `i`.
write_xor : ℕ → List ℕ → List ℕ → List ℕ → List ℕ
write_xor i [] ys result = result
write_xor i (x ∷ xs) [] result = result
write_xor i (x ∷ xs) (y ∷ ys) result = write_xor (suc i) xs ys (set result i (bit_xor x y))

-- `&Hash ^ &Hash`: a new array, filled with zeros first.
pub bitxor_refs : Hash → Hash → Hash
unfolding write_xor
bitxor_refs a b = record { inner = write_xor 0 a.inner b.inner (replicate hash_bytes 0) }

-- The loop of the other implementation updates the array in place. `none` is the panic of an
-- index out of range.
xor_in_place : ℕ → ℕ → List ℕ → List ℕ → Option (List ℕ)
xor_in_place zero i inner rhs = some inner
xor_in_place (suc left) i inner rhs = elim (get_elem? inner i) [
  | none ↦ none
  | some x ↦ elim (get_elem? rhs i) [
    | none ↦ none
    | some y ↦ xor_in_place left (suc i) (set inner i (bit_xor x y)) rhs
  ]
]

-- `Hash ^ &Hash`.
pub bitxor_owned : Hash → Hash → Option Hash
unfolding xor_in_place
bitxor_owned a b =
    Option.map (λ bytes. record { inner = bytes }) (xor_in_place (length a.inner) 0 a.inner b.inner)

zip_xor : List ℕ → List ℕ → List ℕ
zip_xor [] ys = []
zip_xor (x ∷ xs) [] = []
zip_xor (x ∷ xs) (y ∷ ys) = bit_xor x y ∷ zip_xor xs ys

set-append :
    (done : List ℕ) (i z v : ℕ) (rest : List ℕ)
    → length done ≡ i
    → set (done ++ (z ∷ rest)) i v ≡ done ++ (v ∷ rest)
set-append [] zero z v rest e = refl
set-append [] (suc i) z v rest e = absurd (omega arith)
set-append (d ∷ done) zero z v rest e = absurd (omega arith)
set-append (d ∷ done) (suc i) z v rest e = ap (◌∷◌ d) (set-append done i z v rest (omega arith))

get_elem?-append :
    (done : List ℕ) (i z : ℕ) (rest : List ℕ)
    → length done ≡ i
    → get_elem? (done ++ (z ∷ rest)) i ≡ some z
get_elem?-append [] zero z rest e = refl
get_elem?-append [] (suc i) z rest e = absurd (omega arith)
get_elem?-append (d ∷ done) zero z rest e = absurd (omega arith)
get_elem?-append (d ∷ done) (suc i) z rest e = get_elem?-append done i z rest (omega arith)

append_snoc :
    (done : List ℕ) (v : ℕ) (rest : List ℕ) → done ++ (v ∷ rest) ≡ (done ++ (v ∷ [])) ++ rest
append_snoc done v rest = sym (append_assoc done (v ∷ []) rest)

length-snoc : (done : List ℕ) (v : ℕ) → length (done ++ (v ∷ [])) ≡ suc (length done)
length-snoc [] v = refl
length-snoc (d ∷ done) v = ap suc (length-snoc done v)

write_xor_lem :
    (i : ℕ) (done xs ys : List ℕ)
    → length done ≡ i
    → length xs ≡ length ys
    → write_xor i xs ys (done ++ replicate (length xs) 0) ≡ done ++ zip_xor xs ys
unfolding write_xor zip_xor
write_xor_lem i done [] ys e h = refl
write_xor_lem i done (x ∷ xs) [] e h = absurd (omega arith)
write_xor_lem i done (x ∷ xs) (y ∷ ys) e h =
    let v = bit_xor x y in
    let rest : List ℕ = replicate (length xs) 0 in
    ap (write_xor (suc i) xs ys) (set-append done i 0 v rest e ∙ append_snoc done v rest)
    ∙ write_xor_lem (suc i) (done ++ (v ∷ [])) xs ys (omega (arith, length-snoc done v))
        (omega arith)
    ∙ sym (append_snoc done v (zip_xor xs ys))

xor_in_place_lem :
    (i : ℕ) (done xs before ys : List ℕ)
    → length done ≡ i
    → length before ≡ i
    → length xs ≡ length ys
    → xor_in_place (length xs) i (done ++ xs) (before ++ ys) ≡ some (done ++ zip_xor xs ys)
unfolding xor_in_place zip_xor
xor_in_place_lem i done [] before ys e f h = refl
xor_in_place_lem i done (x ∷ xs) before [] e f h = absurd (omega arith)
xor_in_place_lem i done (x ∷ xs) before (y ∷ ys) e f h =
    let v = bit_xor x y in
    rw (get_elem?-append done i x xs e, get_elem?-append before i y ys f, xor_in_place)
      (ap (λ r. xor_in_place (length xs) (suc i) r (before ++ (y ∷ ys)))
          (set-append done i x v xs e ∙ append_snoc done v xs)
        ∙ ap (xor_in_place (length xs) (suc i) ((done ++ (v ∷ [])) ++ xs)) (append_snoc before y ys)
        ∙ xor_in_place_lem (suc i) (done ++ (v ∷ [])) xs (before ++ (y ∷ [])) ys
            (omega (arith, length-snoc done v)) (omega (arith, length-snoc before y)) (omega arith)
        ∙ ap some (sym (append_snoc done v (zip_xor xs ys))))

-- The two implementations of `^` agree on any two hashes of 64 bytes, and the one that works in
-- place does not panic on them.
pub bitxor_owned-refs :
    (a b : Hash)
    → length a.inner ≡ hash_bytes
    → length b.inner ≡ hash_bytes
    → bitxor_owned a b ≡ some (bitxor_refs a b)
unfolding bitxor_owned bitxor_refs
bitxor_owned-refs a b ha hb =
    rw (xor_in_place_lem 0 [] a.inner [] b.inner refl refl (ha ∙ sym hb)) (
      ap (λ bytes. some (record { inner = bytes }))
        (sym (
          subst (λ n. write_xor 0 a.inner b.inner (replicate n 0) ≡ zip_xor a.inner b.inner) ha
            (write_xor_lem 0 [] a.inner b.inner refl (ha ∙ sym hb)))))
