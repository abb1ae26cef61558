-- ===== src/Protocol/Negotiation/Members.antt =====
-- Which names `compute_intersection` returns.
use howm.Base.{
  ◌≡◌, refl, ◌∙◌, Bool, false, ◌&&◌, ◌||◌, Option, none, some, List, [], ◌∷◌, ◌++◌, Text, bytes_ord,
  bytes_eq_iff, ◌==◌, if◌then◌else◌, contains, contains-sort, any, arith, Distinct, find_by, inl,
  inr, Bool-cases, subst, ap,
}
use howm.Protocol.Role
use howm.Protocol.Role.{matches_comm}
use howm.Protocol.Manifest.{
  PeerId, CapabilityDeclaration, DiscoveryManifest, cap_name, HasDistinctNames, find_cap,
}
use howm.Protocol.Negotiation.{
  TrustGate, heartbeat_name, scan_remote, scan_local, compute_intersection,
}

-- The gate lets every peer use the heartbeat.
abbrev pub passes : TrustGate → PeerId → Text → Bool
passes gate peer n = n == heartbeat_name || gate n peer

abbrev pub pairs : CapabilityDeclaration → CapabilityDeclaration → Bool
pairs l r = Role.matches l.role r.role l.is_mutual r.is_mutual

-- A local capability is agreed on: a remote one of its name has a matching role, and the gate
-- lets the remote peer use it.
abbrev pub agrees : TrustGate → PeerId → List CapabilityDeclaration → CapabilityDeclaration → Bool
agrees gate peer remotes l =
    any (λ r. l.name == r.name && pairs l r) remotes && passes gate peer l.name

pub scan_remote_lem :
    (gate : TrustGate) (peer : PeerId) (l : CapabilityDeclaration)
    (remotes : List CapabilityDeclaration) (active : List Text)
    → scan_remote gate peer l remotes active
      ≡ (if agrees gate peer remotes l then active ++ l.name ∷ [] else active)
unfolding scan_remote
scan_remote_lem gate peer l [] active = refl
scan_remote_lem gate peer l (r ∷ rest) active =
    ground (arith, scan_remote_lem gate peer l rest active)

pub contains-append :
    (n : Text) (xs : List Text) (y : Text) → contains n (xs ++ y ∷ []) ≡ (contains n xs || y == n)
contains-append n [] y = ground arith
contains-append n (x ∷ xs) y = ground (arith, contains-append n xs y)

pub contains-scan_local :
    (n : Text) (gate : TrustGate) (peer : PeerId) (locals remotes : List CapabilityDeclaration)
    (active : List Text)
    → contains n (scan_local gate peer locals remotes active)
      ≡ (contains n active || any (λ l. l.name == n && agrees gate peer remotes l) locals)
unfolding scan_local
contains-scan_local n gate peer [] remotes active = ground arith
contains-scan_local n gate peer (l ∷ rest) remotes active =
    contains-scan_local n gate peer rest remotes (scan_remote gate peer l remotes active)
    ∙ rw (scan_remote_lem gate peer l remotes active)
        (elim (Bool-cases (agrees gate peer remotes l)) [
          | inl e ↦ rw e (ground (arith, contains-append n active l.name))
          | inr e ↦ rw e (ground arith)
        ])

-- A name is in the active set exactly when some local capability of that name is agreed on.
pub contains-compute_intersection :
    (n : Text) (local remote : DiscoveryManifest) (gate : TrustGate)
    → contains n (compute_intersection local remote gate)
      ≡ any
          (λ l. l.name == n && agrees gate remote.peer_id remote.capabilities l)
          local.capabilities
unfolding compute_intersection
contains-compute_intersection n local remote gate =
    contains-sort n (scan_local gate remote.peer_id local.capabilities remote.capabilities [])
    ∙ contains-scan_local n gate remote.peer_id local.capabilities remote.capabilities []

absent_name :
    (n : Text) (p : CapabilityDeclaration → Bool) (cs : List CapabilityDeclaration)
    → find_by cap_name n cs ≡ none
    → any (λ c. c.name == n && p c) cs ≡ false
absent_name n p [] h = refl
absent_name n p (c ∷ cs) h = ground (arith, absent_name n p cs)

any-find_by :
    (n : Text) (p : CapabilityDeclaration → Bool) (cs : List CapabilityDeclaration)
    → Distinct cap_name cs
    → any (λ c. c.name == n && p c) cs
      ≡ elim (find_by cap_name n cs) [ none ↦ false | some c ↦ p c ]
any-find_by n p [] d = refl
any-find_by n p (c ∷ cs) d = elim (Bool-cases (c.name == n)) [
  | inl e ↦
      let gone : find_by cap_name n cs ≡ none = rw (← (bytes_eq_iff c.name n).0 e) d.0 in
      rw e (ground (arith, absent_name n p cs gone))
  | inr e ↦ rw e (any-find_by n p cs d.1)
]

any_swapped :
    (l : CapabilityDeclaration) (cs : List CapabilityDeclaration)
    → any (λ r. l.name == r.name && pairs l r) cs ≡ any (λ r. r.name == l.name && pairs l r) cs
any_swapped l [] = refl
any_swapped l (c ∷ cs) =
    ground (arith, bytes_eq_iff l.name c.name, bytes_eq_iff c.name l.name, any_swapped l cs)

-- The test on the two declarations of one name.
abbrev pub pair_up : Option CapabilityDeclaration → Option CapabilityDeclaration → Bool
pair_up none r = false
pair_up (some l) none = false
pair_up (some l) (some r) = pairs l r

-- What the two manifests and the gate say of a name.
abbrev pub agreed : DiscoveryManifest → DiscoveryManifest → TrustGate → Text → Bool
agreed local remote gate n =
    pair_up (find_cap n local) (find_cap n remote) && passes gate remote.peer_id n

find_by_name :
    (n : Text) (cs : List CapabilityDeclaration) (c : CapabilityDeclaration)
    → find_by cap_name n cs ≡ some c
    → c.name ≡ n
find_by_name n [] c h = cc
find_by_name n (d ∷ cs) c h = ground (arith, bytes_eq_iff d.name n, find_by_name n cs c)

pub agreed_lem :
    (n : Text) (local remote : DiscoveryManifest) (gate : TrustGate)
    → HasDistinctNames local
    → HasDistinctNames remote
    → any (λ l. l.name == n && agrees gate remote.peer_id remote.capabilities l) local.capabilities
      ≡ agreed local remote gate n
agreed_lem n local remote gate d e =
    any-find_by n (agrees gate remote.peer_id remote.capabilities) local.capabilities d
    ∙ by_local (find_cap n local) (find_by_name n local.capabilities)
  where
    by_local :
        (o : Option CapabilityDeclaration)
        → ((c : CapabilityDeclaration) → o ≡ some c → c.name ≡ n)
        → elim o [ none ↦ false | some l ↦ agrees gate remote.peer_id remote.capabilities l ]
          ≡ (pair_up o (find_cap n remote) && passes gate remote.peer_id n)
    by_local none h = refl
    by_local (some l) h =
        subst
          (λ m.
            agrees gate remote.peer_id remote.capabilities l
            ≡ (pair_up (some l) (find_cap m remote) && passes gate remote.peer_id m))
          (h l refl)
          (rw (any_swapped l remote.capabilities) (
            rw (any-find_by l.name (pairs l) remote.capabilities e) (
              ap (λ b. b && passes gate remote.peer_id l.name)
                (some_side (find_cap l.name remote)))))
      where
        some_side :
            (o : Option CapabilityDeclaration)
            → ◌≡◌ {A = Bool} (elim o [ none ↦ false | some r ↦ pairs l r ]) (pair_up (some l) o)
        some_side none = refl
        some_side (some r) = refl
