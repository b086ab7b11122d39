-- ===== src/Common/Ordered.antt =====
-- `BTreeMap` with texts for keys: an association list whose keys ascend.
use mathlib.Core.Path.{◌≡◌, refl, sym}
use mathlib.Core.Logic.{◌≢◌, inl, inr, ite, if_pos, if_neg}
use mathlib.Core.Bool.{Bool, true, false, ◌&&◌, ◌||◌}
use mathlib.Core.Option.{none, some}
use mathlib.Core.List.{List, [], ◌∷◌}
use native.Mathlib.Omega.{arith}
use coap_rs.Common.Basics.{ltb, ◌==◌, if◌then◌else◌, Bool-cases}
use coap_rs.Common.Lists.{Bytes}
use coap_rs.Common.Maps.{
  bytes_key, bytes_same, lookup, remove, lookup-remove, IsUnique, remove-IsUnique,
}

-- The order of the texts, by their first difference.
unfoldable pub less : Bytes → Bytes → Bool
less x [] = false
less [] (b ∷ y) = true
less (a ∷ x) (b ∷ y) = ltb a b || (a == b && less x y)

less_irrefl : (x : Bytes) → less x x ≡ false
unfolding less
less_irrefl [] = refl
less_irrefl (a ∷ x) = ground (arith, less_irrefl x)

less_trans : (x y z : Bytes) → less x y ≡ true → less y z ≡ true → less x z ≡ true
unfolding less
less_trans x [] z h k = absurd (ground arith)
less_trans x (b ∷ y) [] h k = absurd (ground arith)
less_trans [] (b ∷ y) (c ∷ z) h k = refl
less_trans (a ∷ x) (b ∷ y) (c ∷ z) h k = ground (arith, less_trans x y z)

less_total : (x y : Bytes) → less x y ≡ false → x ≢ y → less y x ≡ true
unfolding less
less_total [] [] h ne = absurd (ne refl)
less_total [] (b ∷ y) h ne = absurd (ground arith)
less_total (a ∷ x) [] h ne = refl
less_total (a ∷ x) (b ∷ y) h ne = elim (bytes_same x y) [
  | yes same ↦ ground (arith, same)
  | no other ↦ ground (arith, less_total x y, other)
]

module _ {ℓ} {V : Type ℓ} where
  unfoldable pub place : Bytes → V → List (Bytes × V) → List (Bytes × V)
  place k v [] = (k, v) ∷ []
  place k v ((j, w) ∷ m) = if less k j then (k, v) ∷ (j, w) ∷ m else (j, w) ∷ place k v m

  -- `BTreeMap::insert`
  unfoldable pub set_entry : Bytes → V → List (Bytes × V) → List (Bytes × V)
  unfolding place
  set_entry k v m = place k v (remove k m)

  fresh_head :
      (k j : Bytes) (w : V) (m : List (Bytes × V))
      → lookup k ((j, w) ∷ m) ≡ none
      → (j ≢ k) × (lookup k m ≡ none)
  unfolding lookup
  fresh_head k j w m h = elim (bytes_same j k) [
    | yes p ↦ absurd (ground arith)
    | no p ↦ (p, ground arith)
  ]

  lookup-place :
      (k j : Bytes) (v : V) (m : List (Bytes × V))
      → lookup k m ≡ none
      → lookup j (place k v m) ≡ ite (bytes_same k j) (some v) (lookup j m)
  unfolding lookup place
  lookup-place k j v [] h = refl
  lookup-place k j v ((i, w) ∷ m) h =
      let (differs, fresh) = fresh_head k i w m h in
      let ih = lookup-place k j v m fresh in
      elim (Bool-cases (less k i)) [
        | inl before ↦ ground (arith, before)
        | inr after ↦ elim (bytes_same i j) [
          | yes p ↦ elim (bytes_same k j) [
            | yes q ↦ absurd (differs (cc))
            | no q ↦ ground (arith, after, ih)
          ]
          | no p ↦ ground (arith, after, ih)
        ]
      ]

  lookup_gone : (k : Bytes) (m : List (Bytes × V)) → lookup k (remove k m) ≡ none
  lookup_gone k m = ground (arith, lookup-remove k k m)

  pub lookup-set_entry :
      (k j : Bytes) (v : V) (m : List (Bytes × V))
      → lookup j (set_entry k v m) ≡ ite (bytes_same k j) (some v) (lookup j m)
  unfolding set_entry
  lookup-set_entry k j v m =
      ground (arith, lookup-place k j v (remove k m) (lookup_gone k m), lookup-remove k j m)

  place-IsUnique :
      (k : Bytes) (v : V) (m : List (Bytes × V))
      → lookup k m ≡ none
      → IsUnique m
      → IsUnique (place k v m)
  unfolding place
  place-IsUnique k v [] h u = (h, u)
  place-IsUnique k v ((j, w) ∷ m) h (gone, u) =
      let (differs, fresh) = fresh_head k j w m h in
      let ih = place-IsUnique k v m fresh u in
      let there = lookup-place k j v m fresh in
      elim (Bool-cases (less k j)) [
        | inl before ↦ rw before (h, (gone, u))
        | inr after ↦ rw after (ground (arith, there, differs), ih)
      ]

  pub set_entry-IsUnique :
      (k : Bytes) (v : V) (m : List (Bytes × V)) → IsUnique m → IsUnique (set_entry k v m)
  unfolding set_entry
  set_entry-IsUnique k v m u =
      place-IsUnique k v (remove k m) (lookup_gone k m) (remove-IsUnique k m u)

  abbrev IsBelow : Bytes → List (Bytes × V) → Type ℓ
  IsBelow k [] = Unit
  IsBelow k ((j, w) ∷ m) = (less k j ≡ true) × IsBelow k m

  -- The keys ascend.
  abbrev pub IsSorted : List (Bytes × V) → Type ℓ
  IsSorted [] = Unit
  IsSorted ((k, v) ∷ m) = IsBelow k m × IsSorted m

  IsBelow-trans : (k j : Bytes) (m : List (Bytes × V)) → less k j ≡ true → IsBelow j m → IsBelow k m
  IsBelow-trans k j [] h b = tt
  IsBelow-trans k j ((i, w) ∷ m) h (first, b) = (less_trans k j i h first, IsBelow-trans k j m h b)

  IsBelow-place :
      (i k : Bytes) (v : V) (m : List (Bytes × V))
      → less i k ≡ true
      → IsBelow i m
      → IsBelow i (place k v m)
  unfolding place
  IsBelow-place i k v [] h b = (h, tt)
  IsBelow-place i k v ((j, w) ∷ m) h (first, b) = elim (Bool-cases (less k j)) [
    | inl before ↦ rw before (h, (first, b))
    | inr after ↦ rw after (first, IsBelow-place i k v m h b)
  ]

  place-IsSorted :
      (k : Bytes) (v : V) (m : List (Bytes × V))
      → lookup k m ≡ none
      → IsSorted m
      → IsSorted (place k v m)
  unfolding place
  place-IsSorted k v [] h s = (tt, tt)
  place-IsSorted k v ((j, w) ∷ m) h (b, s) =
      let (differs, fresh) = fresh_head k j w m h in
      elim (Bool-cases (less k j)) [
        | inl before ↦ rw before ((before, IsBelow-trans k j m before b), (b, s))
        | inr after ↦
            let ordered = less_total k j after (λ e. differs (sym e)) in
            rw after (IsBelow-place j k v m ordered b, place-IsSorted k v m fresh s)
      ]

  IsBelow-remove : (i k : Bytes) (m : List (Bytes × V)) → IsBelow i m → IsBelow i (remove k m)
  unfolding remove
  IsBelow-remove i k [] b = tt
  IsBelow-remove i k ((j, w) ∷ m) (first, b) = elim (bytes_same j k) [
    | yes p ↦ rw (if_pos _ p) (IsBelow-remove i k m b)
    | no p ↦ rw (if_neg _ p) (first, IsBelow-remove i k m b)
  ]

  pub remove-IsSorted : (k : Bytes) (m : List (Bytes × V)) → IsSorted m → IsSorted (remove k m)
  unfolding remove
  remove-IsSorted k [] s = tt
  remove-IsSorted k ((j, w) ∷ m) (b, s) = elim (bytes_same j k) [
    | yes p ↦ rw (if_pos _ p) (remove-IsSorted k m s)
    | no p ↦ rw (if_neg _ p) (IsBelow-remove j k m b, remove-IsSorted k m s)
  ]

  pub set_entry-IsSorted :
      (k : Bytes) (v : V) (m : List (Bytes × V)) → IsSorted m → IsSorted (set_entry k v m)
  unfolding set_entry
  set_entry-IsSorted k v m s =
      place-IsSorted k v (remove k m) (lookup_gone k m) (remove-IsSorted k m s)

  IsBelow-absent :
      (k j : Bytes) (m : List (Bytes × V)) → less k j ≡ false → IsBelow k m → lookup j m ≡ none
  unfolding lookup
  IsBelow-absent k j [] h b = refl
  IsBelow-absent k j ((i, w) ∷ m) h (first, b) = elim (bytes_same i j) [
    | yes p ↦ absurd (ground (arith, p))
    | no p ↦ ground (arith, IsBelow-absent k j m h b)
  ]

  pub IsSorted-IsUnique : (m : List (Bytes × V)) → IsSorted m → IsUnique m
  IsSorted-IsUnique [] s = tt
  IsSorted-IsUnique ((k, v) ∷ m) (b, s) =
      (IsBelow-absent k k m (less_irrefl k) b, IsSorted-IsUnique m s)
