-- ===== src/Base/Removal.antt =====
-- Maps that lose entries, and how many they have.
use mathlib.Core.Path.{◌≡◌, refl, ap, ◌∙◌}
use mathlib.Core.Bool.{Bool, false, not}
use mathlib.Core.Logic.{inl, inr}
use mathlib.Core.List.{List, [], ◌∷◌, map}
use mathlib.Core.Option.{none, some}
use native.Mathlib.Omega.{arith}
use Prim.Native.Nat.{suc, ◌≤◌}
use howm.Base.Tests.{Bool-cases}
use howm.Base.Lists.{filter, length}
use howm.Base.Order.{Ord, ◌==◌, ==_self, ==_comm}
use howm.Base.Sort.{Above, Above-mono}
use howm.Base.Maps.{Map, IsMap, lookup, insert, remove, lookup-Above}

module _ {ℓ κ} {K : Type ℓ} {V : Type κ} ⦃o : Ord K⦄ where
  -- A loop of removals.
  unfoldable pub remove_each : List K → Map K V → Map K V
  remove_each [] m = m
  remove_each (k ∷ ks) m = remove_each ks (remove k m)

  Above-remove : (i k : K) (m : Map K V) → Above (λ e. e.0) i m → Above (λ e. e.0) i (remove k m)
  unfolding remove
  Above-remove i k [] a = a
  Above-remove i k ((j, v) ∷ m) a = elim (Bool-cases (j == k)) [
    | inl e ↦ rw e (Above-remove i k m a.2)
    | inr e ↦ rw e (a.0, a.1, Above-remove i k m a.2)
  ]

  pub remove-IsMap : (k : K) (m : Map K V) → IsMap m → IsMap (remove k m)
  unfolding remove
  remove-IsMap k [] s = s
  remove-IsMap k ((j, v) ∷ m) s = elim (Bool-cases (j == k)) [
    | inl e ↦ rw e (remove-IsMap k m s.1)
    | inr e ↦ rw e (Above-remove j k m s.0, remove-IsMap k m s.1)
  ]

  pub length-remove-le : (k : K) (m : Map K V) → length (remove k m) ≤ length m
  unfolding remove
  length-remove-le k [] = omega arith
  length-remove-le k ((j, v) ∷ m) = ground (arith, length-remove-le k m)

  -- Removing a key that has no entry.
  pub remove_absent : (k : K) (m : Map K V) → lookup k m ≡ none → remove k m ≡ m
  unfolding lookup remove
  remove_absent k [] e = refl
  remove_absent k ((j, v) ∷ m) e = ground (arith, remove_absent k m)

  Above-filter :
      (p : K × V → Bool) (i : K) (m : Map K V)
      → Above (λ e. e.0) i m
      → Above (λ e. e.0) i (filter p m)
  Above-filter p i [] a = a
  Above-filter p i (e ∷ m) a = elim (Bool-cases (p e)) [
    | inl h ↦ rw h (a.0, a.1, Above-filter p i m a.2)
    | inr h ↦ rw h (Above-filter p i m a.2)
  ]

  pub filter-IsMap : (p : K × V → Bool) (m : Map K V) → IsMap m → IsMap (filter p m)
  filter-IsMap p [] s = s
  filter-IsMap p (e ∷ m) s = elim (Bool-cases (p e)) [
    | inl h ↦ rw h (Above-filter p e.0 m s.0, filter-IsMap p m s.1)
    | inr h ↦ rw h (filter-IsMap p m s.1)
  ]

  pub length-insert-le : (k : K) (v : V) (m : Map K V) → length (insert k v m) ≤ suc (length m)
  unfolding insert
  length-insert-le k v [] = omega arith
  length-insert-le k v ((j, w) ∷ m) = ground (arith, length-insert-le k v m)

  -- A value in place of another of its key.
  pub length-insert_held :
      (k : K) (v w : V) (m : Map K V)
      → IsMap m
      → lookup k m ≡ some w
      → length (insert k v m) ≡ length m
  unfolding insert lookup
  length-insert_held k v w [] s e = absurd (ground arith)
  length-insert_held k v w ((j, u) ∷ m) s e = elim (Bool-cases (j == k)) [
    | inl h ↦ rw h refl
    | inr h ↦
        let rest : lookup k m ≡ some w = ground arith in
        elim (Bool-cases (o.le k j)) [
          | inl l ↦
              let none_here = lookup-Above k m (Above-mono (λ e. e.0) k j m l s.0) in
              absurd (ground arith)
          | inr l ↦ rw (h, l) (rw (length-insert_held k v w m s.1 rest) refl)
        ]
  ]

  -- The keys above an entry are not its own.
  remove_each-Above :
      (j : K) (v : V) (rest : Map K V) (m : Map K V)
      → Above (λ e. e.0) j rest
      → remove_each (map (λ e. e.0) rest) ((j, v) ∷ m)
        ≡ (j, v) ∷ remove_each (map (λ e. e.0) rest) m
  unfolding remove_each remove
  remove_each-Above j v [] m a = refl
  remove_each-Above j v ((i, w) ∷ rest) m a =
      let apart : (j == i) ≡ false = ==_comm j i ∙ a.1 in
      rw (apart, remove_each) (remove_each-Above j v rest (remove i m) a.2)

  -- Removing the entries of a test by their keys leaves the others.
  pub remove_each-filter :
      (p : K × V → Bool) (m : Map K V)
      → IsMap m
      → remove_each (map (λ e. e.0) (filter p m)) m ≡ filter (λ e. not (p e)) m
  unfolding remove_each remove
  remove_each-filter p [] s = refl
  remove_each-filter p ((j, v) ∷ m) s = elim (Bool-cases (p (j, v))) [
    | inl h ↦
        rw (h, remove_each, ==_self j, remove_absent j m (lookup-Above j m s.0))
          (remove_each-filter p m s.1)
    | inr h ↦
        rw (h, remove_each-Above j v (filter p m) m (Above-filter p j m s.0))
          (ap (λ x. (j, v) ∷ x) (remove_each-filter p m s.1))
  ]
