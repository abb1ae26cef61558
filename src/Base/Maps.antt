-- ===== src/Base/Maps.antt =====
-- Rust's `BTreeMap`: an association list in the order of its keys. A `HashMap` that the code only
-- looks up in and inserts into is one too.
use mathlib.Core.Path.{◌≡◌, refl, sym, ap, ◌∙◌}
use mathlib.Core.Bool.{true, false}
use mathlib.Core.Logic.{inl, inr}
use mathlib.Core.List.{List, [], ◌∷◌, ◌++◌, append-nil, append_assoc}
use mathlib.Core.Option
use mathlib.Core.Option.{Option, none, some}
use native.Mathlib.Omega.{arith}
use howm.Base.Tests.{if◌then◌else◌, Bool-cases}
use howm.Base.Order.{Ord, ◌==◌, ==→eq, ==_self, ==_comm}
use howm.Base.Sort.{find_by, Above, Above-mono, StrictSorted, StrictSorted-eq}

abbrev pub Map {ℓ κ} : Type ℓ → Type κ → Type (ℓ ⊔ κ)
Map K V = List (K × V)

module _ {ℓ κ} {K : Type ℓ} {V : Type κ} ⦃o : Ord K⦄ where
  unfoldable pub lookup : K → Map K V → Option V
  lookup k [] = none
  lookup k ((j, v) ∷ m) = if j == k then some v else lookup k m

  unfoldable pub insert : K → V → Map K V → Map K V
  insert k v [] = (k, v) ∷ []
  insert k v ((j, w) ∷ m) =
      if j == k then (k, v) ∷ m else if o.le k j then (k, v) ∷ (j, w) ∷ m else (j, w) ∷ insert k v m

  unfoldable pub remove : K → Map K V → Map K V
  remove k [] = []
  remove k ((j, w) ∷ m) = if j == k then remove k m else (j, w) ∷ remove k m

  -- A loop of inserts.
  unfoldable pub insert_all : Map K V → Map K V → Map K V
  insert_all m [] = m
  insert_all m ((k, v) ∷ es) = insert_all (insert k v m) es

  -- A map as Rust keeps it: keys strictly rising.
  abbrev pub IsMap : Map K V → Type (ℓ ⊔ κ)
  IsMap = StrictSorted (λ e. e.0)

  pub lookup-insert :
      (j k : K) (v : V) (m : Map K V)
      → lookup j (insert k v m) ≡ (if k == j then some v else lookup j m)
  unfolding lookup insert
  lookup-insert j k v [] = refl
  lookup-insert j k v ((i, w) ∷ m) =
      ground (arith, o.eqb_iff i k, o.eqb_iff k j, o.eqb_iff i j, lookup-insert j k v m)

  pub lookup-remove :
      (j k : K) (m : Map K V) → lookup j (remove k m) ≡ (if k == j then none else lookup j m)
  unfolding lookup remove
  lookup-remove j k [] = ground arith
  lookup-remove j k ((i, w) ∷ m) =
      ground (arith, o.eqb_iff i k, o.eqb_iff k j, o.eqb_iff i j, lookup-remove j k m)

  pub lookup-insert_self : (k : K) (v : V) (m : Map K V) → lookup k (insert k v m) ≡ some v
  lookup-insert_self k v m = lookup-insert k k v m ∙ rw (==_self k) refl

  pub lookup-remove_self : (k : K) (m : Map K V) → lookup k (remove k m) ≡ none
  lookup-remove_self k m = lookup-remove k k m ∙ rw (==_self k) refl

  find_by-lookup :
      (k : K) (m : Map K V) → find_by (λ e. e.0) k m ≡ Option.map (λ v. (k, v)) (lookup k m)
  unfolding lookup
  find_by-lookup k [] = refl
  find_by-lookup k ((j, v) ∷ m) = ground (arith, o.eqb_iff j k, find_by-lookup k m)

  -- Two maps that answer every lookup alike are one map.
  pub Map-eq : (m n : Map K V) → IsMap m → IsMap n → ((k : K) → lookup k m ≡ lookup k n) → m ≡ n
  Map-eq m n s t h =
      StrictSorted-eq (λ e. e.0) m n s t
        (λ k. find_by-lookup k m ∙ ap (Option.map (λ v. (k, v))) (h k) ∙ sym (find_by-lookup k n))

  Above-append : (k : K) (m n : Map K V) → Above (λ e. e.0) k (m ++ n) → Above (λ e. e.0) k n
  Above-append k [] n a = a
  Above-append k (e ∷ m) n a = Above-append k m n a.2

  -- An insert above all keys goes to the end.
  insert_last :
      (k : K) (v : V) (m n : Map K V) → IsMap (m ++ (k, v) ∷ n) → insert k v m ≡ m ++ (k, v) ∷ []
  unfolding insert
  insert_last k v [] n s = refl
  insert_last k v ((j, w) ∷ m) n s =
      let above = Above-append j m ((k, v) ∷ n) s.0 in
      ground (arith, ==_comm j k, ==_self j, o.le_antisymm j k, insert_last k v m n s.1)

  -- Inserting the entries of a map in their order rebuilds it.
  pub insert_all-append : (m n : Map K V) → IsMap (m ++ n) → insert_all m n ≡ m ++ n
  unfolding insert_all
  insert_all-append m [] s = sym (append-nil m)
  insert_all-append m ((k, v) ∷ n) s =
      let regroup = append_assoc m ((k, v) ∷ []) n in
      rw (insert_last k v m n s) (insert_all-append (m ++ (k, v) ∷ []) n (rw regroup s) ∙ regroup)

  Above-insert :
      (i k : K) (v : V) (m : Map K V)
      → o.le i k ≡ true
      → (k == i) ≡ false
      → Above (λ e. e.0) i m
      → Above (λ e. e.0) i (insert k v m)
  unfolding insert
  Above-insert i k v [] h n a = (h, n, tt)
  Above-insert i k v ((j, w) ∷ m) h n a = elim (Bool-cases (j == k)) [
    | inl e ↦ rw e (h, n, a.2)
    | inr e ↦ elim (Bool-cases (o.le k j)) [
      | inl l ↦ rw (e, l) (h, n, a)
      | inr l ↦ rw (e, l) (a.0, a.1, Above-insert i k v m h n a.2)
    ]
  ]

  pub insert-IsMap : (k : K) (v : V) (m : Map K V) → IsMap m → IsMap (insert k v m)
  unfolding insert
  insert-IsMap k v [] s = (tt, tt)
  insert-IsMap k v ((j, w) ∷ m) s = elim (Bool-cases (j == k)) [
    | inl e ↦ let below : Above (λ e. e.0) k m = rw (← ==→eq j k e) s.0 in rw e (below, s.1)
    | inr e ↦ elim (Bool-cases (o.le k j)) [
      | inl l ↦
          let ne : (j == k) ≡ false = e in rw (e, l) ((l, ne, Above-mono (λ e. e.0) k j m l s.0), s)
      | inr l ↦
          let ne : (k == j) ≡ false = ==_comm k j ∙ e in
          rw (e, l) (Above-insert j k v m (o.le_total k j l) ne s.0, insert-IsMap k v m s.1)
    ]
  ]

  -- The keys below a map have no entry in it.
  pub lookup-Above : (k : K) (m : Map K V) → Above (λ e. e.0) k m → lookup k m ≡ none
  unfolding lookup
  lookup-Above k [] a = refl
  lookup-Above k ((j, w) ∷ m) a = rw a.1 (lookup-Above k m a.2)
