-- ===== src/Base/Sets.antt =====
-- Sorted vectors without repetitions, which the program uses as sets.
use mathlib.Core.Path.{◌≡◌, refl, sym, ◌∙◌}
use mathlib.Core.Bool.{Bool, false, ◌&&◌, ◌||◌}
use mathlib.Core.List.{List, [], ◌∷◌}
use mathlib.Core.Logic.{inl, inr}
use mathlib.Core.Option.{none, some}
use native.Mathlib.Omega.{arith}
use howm.Base.Tests.{if◌then◌else◌, Bool-cases}
use howm.Base.Lists.{filter}
use howm.Base.Order.{Ord, ◌==◌, ==→eq}
use howm.Base.Maps.{Map, IsMap, lookup, insert, lookup-insert, insert-IsMap}
use howm.Base.Sort.{
  find_by, Distinct, StrictSorted, sort_by, sort_by-eq, find_by-sort_by, sort_by-StrictSorted,
}

module _ {ℓ} {A : Type ℓ} ⦃o : Ord A⦄ where
  abbrev pub contains : A → List A → Bool
  contains k [] = false
  contains k (x ∷ xs) = x == k || contains k xs

  -- Rust's `sort`.
  abbrev pub sort : List A → List A
  sort = sort_by (λ x. x)

  -- No entry occurs twice.
  abbrev pub NoRepeats : List A → Type ℓ
  NoRepeats = Distinct (λ x. x)

  find_by-contains :
      (k : A) (xs : List A) → find_by (λ x. x) k xs ≡ (if contains k xs then some k else none)
  find_by-contains k [] = refl
  find_by-contains k (x ∷ xs) = ground (arith, o.eqb_iff x k, find_by-contains k xs)

  pub contains-find_by :
      (k : A) (xs : List A) → (find_by (λ x. x) k xs ≡ none) → contains k xs ≡ false
  contains-find_by k xs h = ground (arith, find_by-contains k xs)

  pub find_by_absent : (k : A) (xs : List A) → contains k xs ≡ false → find_by (λ x. x) k xs ≡ none
  find_by_absent k xs h = ground (arith, find_by-contains k xs)

  -- Sorting changes no membership.
  pub contains-sort : (k : A) (xs : List A) → contains k (sort xs) ≡ contains k xs
  contains-sort k xs = ground (
    arith,
    find_by-contains k (sort xs),
    find_by-contains k xs,
    find_by-sort_by (λ (x : A). x) k xs,
  )

  pub sort-NoRepeats : (xs : List A) → NoRepeats xs → StrictSorted (λ x. x) (sort xs)
  sort-NoRepeats xs d = sort_by-StrictSorted (λ (x : A). x) xs d

  -- Two such lists with the same members sort to one list.
  pub sort-eq :
      (xs ys : List A)
      → NoRepeats xs
      → NoRepeats ys
      → ((k : A) → contains k xs ≡ contains k ys)
      → sort xs ≡ sort ys
  sort-eq xs ys d e h =
      sort_by-eq (λ (x : A). x) xs ys d e
        (λ k. find_by-contains k xs ∙ rw (h k) (sym (find_by-contains k ys)))

  pub contains-filter :
      (p : A → Bool) (k : A) (xs : List A) → contains k (filter p xs) ≡ (contains k xs && p k)
  contains-filter p k [] = refl
  contains-filter p k (x ∷ xs) = ground (arith, o.eqb_iff x k, contains-filter p k xs)

  pub filter-NoRepeats : (p : A → Bool) (xs : List A) → NoRepeats xs → NoRepeats (filter p xs)
  filter-NoRepeats p [] d = tt
  filter-NoRepeats p (x ∷ xs) d = elim (Bool-cases (p x)) [
    | inl e ↦ rw e (
      find_by_absent x (filter p xs) (contains-filter p x xs ∙ rw (contains-find_by x xs d.0) refl),
      filter-NoRepeats p xs d.1,
    )
    | inr e ↦ rw e (filter-NoRepeats p xs d.1)
  ]

-- `for k in keys { map.insert(k, f(k)) }`
module _ {ℓ κ} {K : Type ℓ} {V : Type κ} ⦃o : Ord K⦄ (f : K → V) where
  unfoldable pub insert_each : List K → Map K V → Map K V
  insert_each [] out = out
  insert_each (k ∷ ks) out = insert_each ks (insert k (f k) out)

  pub lookup-insert_each :
      (k : K) (ks : List K) (out : Map K V)
      → lookup k (insert_each ks out) ≡ (if contains k ks then some (f k) else lookup k out)
  unfolding insert_each
  lookup-insert_each k [] out = refl
  lookup-insert_each k (j ∷ ks) out =
      lookup-insert_each k ks (insert j (f j) out)
      ∙ rw (lookup-insert k j (f j) out) (elim (Bool-cases (contains k ks)) [
        | inl e ↦ rw e (ground arith)
        | inr e ↦ elim (Bool-cases (j == k)) [
          | inl same ↦ rw (e, same, ==→eq j k same) refl
          | inr other ↦ rw (e, other) refl
        ]
      ])

  pub insert_each-IsMap : (ks : List K) (out : Map K V) → IsMap out → IsMap (insert_each ks out)
  unfolding insert_each
  insert_each-IsMap [] out s = s
  insert_each-IsMap (k ∷ ks) out s =
      insert_each-IsMap ks (insert k (f k) out) (insert-IsMap k (f k) out s)
