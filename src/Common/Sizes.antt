-- ===== src/Common/Sizes.antt =====
-- How many entries a map has.
use Prim.Native.Nat.{◌+◌, ◌≤◌}
use mathlib.Core.Path.{refl}
use mathlib.Core.Logic.{◌≢◌, if_pos, if_neg}
use mathlib.Core.Option.{none}
use mathlib.Core.List.{List, [], ◌∷◌}
use native.Mathlib.Omega.{arith}
use coap_rs.Common.Lists.{length}
use coap_rs.Common.Maps.{Key, lookup, insert, remove}

module _ {ℓ κ} {K : Type ℓ} {V : Type κ} ⦃e : Key K⦄ where
  pub length-remove_le : (k : K) (m : List (K × V)) → length (remove k m) ≤ length m
  unfolding remove
  length-remove_le k [] = omega arith
  length-remove_le k ((j, v) ∷ m) = ground (arith, length-remove_le k m)

  pub length-remove :
      (k : K) (m : List (K × V)) → lookup k m ≢ none → length (remove k m) + 1 ≤ length m
  unfolding lookup remove
  length-remove k [] h = absurd (h refl)
  length-remove k ((j, v) ∷ m) h = elim (e.same j k) [
    | yes p ↦ rw (if_pos _ p) (omega (arith, length-remove_le k m))
    | no p ↦ rw (if_neg _ p) (omega (arith, length-remove k m (ground arith)))
  ]

  pub length-insert_le : (k : K) (v : V) (m : List (K × V)) → length (insert k v m) ≤ length m + 1
  unfolding insert
  length-insert_le k v m = omega (arith, length-remove_le k m)
