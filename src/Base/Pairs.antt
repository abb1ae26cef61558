-- ===== src/Base/Pairs.antt =====
-- The order of pairs, the first component first.
use mathlib.Core.Path.{◌≡◌, refl, ap₂, ◌∙◌}
use mathlib.Core.Bool.{Bool, true, false, ◌&&◌}
use mathlib.Core.Logic.{◌↔◌, inl, inr}
use native.Mathlib.Omega.{arith}
use howm.Base.Tests.{if◌then◌else◌, Bool-cases}
use howm.Base.Order.{Ord, ◌==◌, ==→eq, ==_self, ==_comm}

module _ {ℓ κ} {A : Type ℓ} {B : Type κ} ⦃o : Ord A⦄ ⦃u : Ord B⦄ where
  abbrev pub pair_eq : A × B → A × B → Bool
  pair_eq (a, b) (c, d) = (a == c) && (b == d)

  abbrev pub pair_le : A × B → A × B → Bool
  pair_le (a, b) (c, d) = if a == c then u.le b d else o.le a c

  pair_eq_self : (p : A × B) → pair_eq p p ≡ true
  pair_eq_self (a, b) = rw (==_self a, ==_self b) refl

  pair_eq_eq : (p q : A × B) → pair_eq p q ≡ true → p ≡ q
  pair_eq_eq (a, b) (c, d) e = elim (Bool-cases (a == c)) [
    | inl h ↦ elim (Bool-cases (b == d)) [
      | inl k ↦ ap₂ (λ x y. (x, y)) (==→eq a c h) (==→eq b d k)
      | inr k ↦ absurd (ground arith)
    ]
    | inr h ↦ absurd (ground arith)
  ]

  pub pair_eq_iff : (p q : A × B) → (pair_eq p q ≡ true) ↔ (p ≡ q)
  pair_eq_iff p q = (pair_eq_eq p q, λ e. rw (← e) (pair_eq_self p))

  pub pair_le_refl : (p : A × B) → pair_le p p ≡ true
  pair_le_refl (a, b) = rw (==_self a) (u.le_refl b)

  pub pair_le_trans : (p q r : A × B) → pair_le p q ≡ true → pair_le q r ≡ true → pair_le p r ≡ true
  pair_le_trans (a, b) (c, d) (e, f) h k = ground (
    arith,
    o.eqb_iff a c,
    o.eqb_iff c e,
    o.eqb_iff a e,
    o.le_trans a c e,
    o.le_antisymm a c,
    o.le_antisymm c e,
    u.le_trans b d f,
  )

  pub pair_le_antisymm : (p q : A × B) → pair_le p q ≡ true → pair_le q p ≡ true → p ≡ q
  pair_le_antisymm (a, b) (c, d) h k = elim (Bool-cases (a == c)) [
    | inl e ↦
        let back : (c == a) ≡ true = ==_comm c a ∙ e in
        ap₂ (λ x y. (x, y)) (==→eq a c e) (u.le_antisymm b d (ground arith) (ground arith))
    | inr e ↦
        let back : (c == a) ≡ false = ==_comm c a ∙ e in
        let same = o.le_antisymm a c (ground arith) (ground arith) in
        absurd (ground (arith, o.eqb_iff a c))
  ]

  pub pair_le_total : (p q : A × B) → pair_le p q ≡ false → pair_le q p ≡ true
  pair_le_total (a, b) (c, d) h = ground (arith, ==_comm a c, o.le_total a c, u.le_total b d)

  instance abbrev pub pair_ord : Ord (A × B)
  pair_ord = record {
    eqb = pair_eq;
    le = pair_le;
    eqb_iff = pair_eq_iff;
    le_refl = pair_le_refl;
    le_trans = pair_le_trans;
    le_antisymm = pair_le_antisymm;
    le_total = pair_le_total;
  }
