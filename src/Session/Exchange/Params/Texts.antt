-- ===== src/Session/Exchange/Params/Texts.antt =====
-- Parameters that are texts: what each end accepts.
use howm.Base.{ℕ, ◌≡◌, ◌≢◌, sym, ◌∙◌, ap, true, some, Text, lookup, bytes_ord, contains, arith}
use howm.Protocol.Manifest.{DiscoveryManifest, find_cap}
use howm.Protocol.Negotiation.{TrustGate}
use howm.Protocol.Scope.{ScopeParams, text, reconcile, get_ext, merge_key, reconcile_scope_value}
use howm.Protocol.Scope.Laws.{get_ext-reconcile}
use howm.Session.Exchange.{scope_of, reconciled, reconcile_params, optional}
use howm.Session.Exchange.Agreement.{final_params}
use howm.Session.Exchange.Params.{lookup-final_params, set_of, Exchanged}

lookup-final_active :
    (n : Text) (a b from_a from_b : DiscoveryManifest) (gate_a gate_b : TrustGate)
    → contains n (set_of a from_b gate_a) ≡ true
    → contains n (set_of b from_a gate_b) ≡ true
    → lookup n (
        final_params a from_b gate_a
          (set_of b from_a gate_b)
          (optional (reconcile_params (set_of b from_a gate_b) b from_a)))
      ≡ some (reconcile (reconciled a from_b n) (reconciled b from_a n))
lookup-final_active n a b from_a from_b gate_a gate_b ma mb =
    ground (arith, lookup-final_params n a b from_a from_b gate_a gate_b)

texts_kept :
    (s t : ScopeParams) (k : ℕ) (x y : Text)
    → get_ext s k ≡ some (text x)
    → get_ext t k ≡ some (text y)
    → get_ext (reconcile s t) k ≡ some (text x)
unfolding merge_key reconcile_scope_value
texts_kept s t k x y hs ht = ground (arith, get_ext-reconcile s t k)

-- Where each side received the capabilities of the other and the two manifests give different
-- texts to one key of a capability that both ends activate, the ends accept different
-- parameters.
pub final_params_texts_differ :
    (n : Text) (k : ℕ) (x y : Text) (a b from_a from_b : DiscoveryManifest)
    (gate_a gate_b : TrustGate)
    → Exchanged a b from_a from_b
    → contains n (set_of a from_b gate_a) ≡ true
    → contains n (set_of b from_a gate_b) ≡ true
    → get_ext (scope_of (find_cap n a)) k ≡ some (text x)
    → get_ext (scope_of (find_cap n b)) k ≡ some (text y)
    → x ≢ y
    → let set_a = set_of a from_b gate_a in
      let set_b = set_of b from_a gate_b in
      final_params a from_b gate_a set_b (optional (reconcile_params set_b b from_a))
      ≢ final_params b from_a gate_b set_a (optional (reconcile_params set_a a from_b))
final_params_texts_differ n k x y a b from_a from_b gate_a gate_b ex ma mb ka kb ne same =
    ne (cc (keep_a, keep_b, sym left ∙ ap (lookup n) same ∙ right))
  where
    ra : ScopeParams
    ra = reconciled a from_b n

    rb : ScopeParams
    rb = reconciled b from_a n

    text_a : get_ext ra k ≡ some (text x)
    text_a = texts_kept _ _ k x y ka (rw (ex n).1 kb)

    text_b : get_ext rb k ≡ some (text y)
    text_b = texts_kept _ _ k y x kb (rw (ex n).0 ka)

    keep_a : get_ext (reconcile ra rb) k ≡ some (text x)
    keep_a = texts_kept ra rb k x y text_a text_b

    keep_b : get_ext (reconcile rb ra) k ≡ some (text y)
    keep_b = texts_kept rb ra k y x text_b text_a

    left :
        lookup n (
          final_params a from_b gate_a
            (set_of b from_a gate_b)
            (optional (reconcile_params (set_of b from_a gate_b) b from_a)))
        ≡ some (reconcile ra rb)
    left = lookup-final_active n a b from_a from_b gate_a gate_b ma mb

    right :
        lookup n (
          final_params b from_a gate_b
            (set_of a from_b gate_a)
            (optional (reconcile_params (set_of a from_b gate_a) a from_b)))
        ≡ some (reconcile rb ra)
    right = lookup-final_active n b a from_b from_a gate_b gate_a mb ma
