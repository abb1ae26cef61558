-- ===== src/Protocol/Negotiation/Symmetry.antt =====
-- The active set is sorted, without repeats, and the same on both sides.
use howm.Base.{
  ◌≡◌, refl, sym, ◌∙◌, true, false, ◌&&◌, Option, none, some, List, [], ◌∷◌, ◌++◌, Text, bytes_ord,
  bytes_eq_iff, contains, arith, Distinct, find_by, NoRepeats, StrictSorted, sort-NoRepeats, inl,
  inr, Bool-cases, find_by_absent, contains-find_by, sort-eq,
}
use howm.Protocol.Role.{matches_comm}
use howm.Protocol.Manifest.{
  PeerId, CapabilityDeclaration, DiscoveryManifest, cap_name, HasDistinctNames, find_cap,
}
use howm.Protocol.Negotiation.{TrustGate, scan_local, compute_intersection}
use howm.Protocol.Negotiation.Members.{
  passes, pairs, agrees, scan_remote_lem, contains-append, contains-scan_local, pair_up, agreed_lem,
}

NoRepeats-append :
    (xs : List Text) (y : Text) → NoRepeats xs → contains y xs ≡ false → NoRepeats (xs ++ y ∷ [])
NoRepeats-append [] y d h = (refl, tt)
NoRepeats-append (x ∷ xs) y d h =
    let others : contains x (xs ++ y ∷ []) ≡ false = ground (
      arith,
      contains-append x xs y,
      contains-find_by x xs d.0,
      bytes_eq_iff x y,
      bytes_eq_iff y x,
    ) in
    (find_by_absent x (xs ++ y ∷ []) others, NoRepeats-append xs y d.1 (ground arith))

-- The names found so far are not among the local capabilities still to come.
abbrev pub IsBehind : List Text → List CapabilityDeclaration → Type 0
IsBehind active locals = (n : Text) → contains n active ≡ true → find_by cap_name n locals ≡ none

IsBehind-tail :
    (active : List Text) (l : CapabilityDeclaration) (rest : List CapabilityDeclaration)
    → IsBehind active (l ∷ rest)
    → IsBehind active rest
IsBehind-tail active l rest h n m = ground (arith, h n m)

IsBehind-append :
    (active : List Text) (l : CapabilityDeclaration) (rest : List CapabilityDeclaration)
    → find_by cap_name l.name rest ≡ none
    → IsBehind active (l ∷ rest)
    → IsBehind (active ++ l.name ∷ []) rest
IsBehind-append active l rest fresh h n m = elim (Bool-cases (contains n active)) [
  | inl e ↦ IsBehind-tail active l rest h n e
  | inr e ↦
      let same : l.name ≡ n =
        ground (arith, contains-append n active l.name, bytes_eq_iff l.name n) in
      rw (← same) fresh
]

scan_local-NoRepeats :
    (gate : TrustGate) (peer : PeerId) (locals remotes : List CapabilityDeclaration)
    (active : List Text)
    → Distinct cap_name locals
    → NoRepeats active
    → IsBehind active locals
    → NoRepeats (scan_local gate peer locals remotes active)
unfolding scan_local
scan_local-NoRepeats gate peer [] remotes active d r h = r
scan_local-NoRepeats gate peer (l ∷ rest) remotes active d r h =
    rw (scan_remote_lem gate peer l remotes active)
      (elim (Bool-cases (agrees gate peer remotes l)) [
        | inl e ↦
            let new : contains l.name active ≡ false =
              ground (arith, h l.name, bytes_eq_iff l.name l.name) in
            rw e (
              scan_local-NoRepeats gate peer rest remotes (active ++ l.name ∷ []) d.1
                (NoRepeats-append active l.name r new) (IsBehind-append active l rest d.0 h))
        | inr e ↦ rw e (
            scan_local-NoRepeats gate peer rest remotes active d.1 r
              (IsBehind-tail active l rest h))
      ])

scanned-NoRepeats :
    (local remote : DiscoveryManifest) (gate : TrustGate)
    → HasDistinctNames local
    → NoRepeats (scan_local gate remote.peer_id local.capabilities remote.capabilities [])
scanned-NoRepeats local remote gate d =
    scan_local-NoRepeats gate remote.peer_id local.capabilities remote.capabilities [] d tt
      (λ n e. cc)

-- The active set of a manifest that declares no name twice is sorted and names each capability
-- once.
pub compute_intersection-StrictSorted :
    (local remote : DiscoveryManifest) (gate : TrustGate)
    → HasDistinctNames local
    → StrictSorted (λ n. n) (compute_intersection local remote gate)
unfolding compute_intersection
compute_intersection-StrictSorted local remote gate d =
    sort-NoRepeats (scan_local gate remote.peer_id local.capabilities remote.capabilities [])
      (scanned-NoRepeats local remote gate d)

-- The two sides compute one active set, if neither declares a name twice and the two gates
-- answer alike for the names that both sides offer with matching roles.
pub compute_intersection_comm :
    (a b : DiscoveryManifest) (gate_a gate_b : TrustGate)
    → HasDistinctNames a
    → HasDistinctNames b
    → ((n : Text)
        → pair_up (find_cap n a) (find_cap n b) ≡ true
        → passes gate_a b.peer_id n ≡ passes gate_b a.peer_id n)
    → compute_intersection a b gate_a ≡ compute_intersection b a gate_b
unfolding compute_intersection
compute_intersection_comm a b gate_a gate_b d e h =
    sort-eq (scan_local gate_a b.peer_id a.capabilities b.capabilities [])
      (scan_local gate_b a.peer_id b.capabilities a.capabilities [])
      (scanned-NoRepeats a b gate_a d) (scanned-NoRepeats b a gate_b e)
      λ n.
        contains-scan_local n gate_a b.peer_id a.capabilities b.capabilities []
        ∙ agreed_lem n a b gate_a d e
        ∙ both_sides n (find_cap n a) (find_cap n b) (h n)
        ∙ sym (agreed_lem n b a gate_b e d)
        ∙ sym (contains-scan_local n gate_b a.peer_id b.capabilities a.capabilities [])
  where
    both_sides :
        (n : Text) (l r : Option CapabilityDeclaration)
        → (pair_up l r ≡ true → passes gate_a b.peer_id n ≡ passes gate_b a.peer_id n)
        → (pair_up l r && passes gate_a b.peer_id n) ≡ (pair_up r l && passes gate_b a.peer_id n)
    both_sides n none none k = refl
    both_sides n none (some r) k = refl
    both_sides n (some l) none k = refl
    both_sides n (some l) (some r) k =
        rw (← matches_comm l.role r.role l.is_mutual r.is_mutual)
          (elim (Bool-cases (pairs l r)) [ inl e ↦ rw e (k e) | inr e ↦ rw e refl ])
