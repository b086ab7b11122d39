-- ===== src/Common/Maps.antt =====
-- Finite maps and sets over keys with decidable equality: the operations of `HashMap` and `HashSet`
-- that the program calls. The list fixes one order of iteration, and no theorem depends on it.
use Prim.Native.Nat.{ℕ}
use mathlib.Core.Path.{◌≡◌, refl}
use mathlib.Core.Logic.{ite, if_pos, if_neg}
use mathlib.Core.Bool.{Bool, true, false}
use mathlib.Core.Option.{Option, none, some}
use mathlib.Core.List.{List, [], ◌∷◌}
use native.Mathlib.Omega.{arith}
use native.Mathlib.Decide.{ℕ_discrete}

pub record Key {ℓ} (K : Type ℓ) : Type ℓ where
  pub same : Discrete K

instance abbrev pub nat_key : Key ℕ
nat_key = record { same = ℕ_discrete }

unfoldable pub bytes_same : Discrete (List ℕ)
bytes_same [] [] = yes refl
bytes_same [] (y ∷ ys) = no (λ e. cc)
bytes_same (x ∷ xs) [] = no (λ e. cc)
bytes_same (x ∷ xs) (y ∷ ys) = elim (ℕ_discrete x y) [
  | yes p ↦ elim (bytes_same xs ys) [ yes q ↦ yes (cc) | no q ↦ no (λ e. q (cc)) ]
  | no p ↦ no (λ e. p (cc))
]

instance abbrev pub bytes_key : Key (List ℕ)
bytes_key = record { same = bytes_same }

module _ {ℓ κ} {K : Type ℓ} {V : Type κ} ⦃e : Key K⦄ where
  unfoldable pub lookup : K → List (K × V) → Option V
  lookup k [] = none
  lookup k ((j, v) ∷ m) = ite (e.same j k) (some v) (lookup k m)

  unfoldable pub remove : K → List (K × V) → List (K × V)
  remove k [] = []
  remove k ((j, v) ∷ m) = ite (e.same j k) (remove k m) ((j, v) ∷ remove k m)

  unfoldable pub insert : K → V → List (K × V) → List (K × V)
  unfolding remove
  insert k v m = (k, v) ∷ remove k m

  pub lookup-remove :
      (k j : K) (m : List (K × V)) → lookup j (remove k m) ≡ ite (e.same k j) none (lookup j m)
  unfolding lookup remove
  lookup-remove k j [] = ground arith
  lookup-remove k j ((i, v) ∷ m) = elim (e.same i k) [
    | yes p ↦ rw (if_pos _ p) (ground (arith, lookup-remove k j m))
    | no p ↦ rw (if_neg _ p) (ground (arith, lookup-remove k j m))
  ]

  pub lookup-insert :
      (k j : K) (v : V) (m : List (K × V))
      → lookup j (insert k v m) ≡ ite (e.same k j) (some v) (lookup j m)
  unfolding lookup insert
  lookup-insert k j v m = ground (arith, lookup-remove k j m)

module _ {ℓ} {K : Type ℓ} ⦃e : Key K⦄ where
  unfoldable pub contains : K → List K → Bool
  contains k [] = false
  contains k (x ∷ xs) = ite (e.same x k) true (contains k xs)

  unfoldable pub erase : K → List K → List K
  erase k [] = []
  erase k (x ∷ xs) = ite (e.same x k) (erase k xs) (x ∷ erase k xs)

  -- `HashSet::insert` and `HashSet::replace`.
  unfoldable pub add : K → List K → List K
  unfolding erase
  add k xs = k ∷ erase k xs

  pub contains-erase :
      (k j : K) (xs : List K) → contains j (erase k xs) ≡ ite (e.same k j) false (contains j xs)
  unfolding contains erase
  contains-erase k j [] = ground arith
  contains-erase k j (x ∷ xs) = elim (e.same x k) [
    | yes p ↦ rw (if_pos _ p) (ground (arith, contains-erase k j xs))
    | no p ↦ rw (if_neg _ p) (ground (arith, contains-erase k j xs))
  ]

  pub contains-add :
      (k j : K) (xs : List K) → contains j (add k xs) ≡ ite (e.same k j) true (contains j xs)
  unfolding contains add
  contains-add k j xs = ground (arith, contains-erase k j xs)

-- No key stands twice.
module _ {ℓ κ} {K : Type ℓ} {V : Type κ} ⦃e : Key K⦄ where
  abbrev pub IsUnique : List (K × V) → Type κ
  IsUnique [] = Unit
  IsUnique ((k, v) ∷ m) = (lookup k m ≡ none) × IsUnique m

  lookup-remove-none :
      (k j : K) (m : List (K × V)) → lookup j m ≡ none → lookup j (remove k m) ≡ none
  lookup-remove-none k j m h = ground (arith, lookup-remove k j m)

  pub remove-IsUnique : (k : K) (m : List (K × V)) → IsUnique m → IsUnique (remove k m)
  unfolding remove
  remove-IsUnique k [] h = tt
  remove-IsUnique k ((j, v) ∷ m) (fresh, h) = elim (e.same j k) [
    | yes p ↦ rw (if_pos _ p) (remove-IsUnique k m h)
    | no p ↦ rw (if_neg _ p) (lookup-remove-none k j m fresh, remove-IsUnique k m h)
  ]

  lookup-remove_self : (k : K) (m : List (K × V)) → lookup k (remove k m) ≡ none
  lookup-remove_self k m = ground (arith, lookup-remove k k m)

  pub insert-IsUnique : (k : K) (v : V) (m : List (K × V)) → IsUnique m → IsUnique (insert k v m)
  unfolding insert
  insert-IsUnique k v m h = (lookup-remove_self k m, remove-IsUnique k m h)
