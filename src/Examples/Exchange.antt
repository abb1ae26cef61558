-- ===== src/Examples/Exchange.antt =====
-- An exchange between the two peers, and what each side ends with.
use howm.Base.{
  ℕ, ◌≡◌, ◌≢◌, refl, ap, Bool, true, false, none, some, List, [], ◌∷◌, bytes, bytes_ord, nat_ord,
  Text, sort_by, lookup, insert, insert_each, arith, bytes_eq, if◌then◌else◌,
}
use howm.Protocol.CloseReason.{auth_failure}
use howm.Protocol.Role
use howm.Protocol.Role.{provide, consume}
use howm.Protocol.Manifest.{DiscoveryManifest}
use howm.Protocol.Message.{ProtocolMessage, offer, close, ping}
use howm.Protocol.Negotiation.{compute_intersection, heartbeat_name}
use howm.Protocol.Scope.{ScopeParams, reconcile, get_ext, text}
use howm.Protocol.Scope.Laws.{IsNumeric}
use howm.Session.State.{Session, Clock, peer_visible}
use howm.Session.Exchange.{
  run_initiator_exchange, run_responder_exchange, our_confirm, reconcile_params, optional, scope_of,
  reconcile_confirm_params, intersect_sets,
}
use howm.Session.Exchange.Agreement.{ready, final_params, exchange_agrees}
use howm.Session.Exchange.Outcomes.{Ended, initiator-Ended, responder-Ended}
use howm.Session.Exchange.Params.{
  HasNumericScopes, KeepsBoth, final_params_agree, final_params-KeepsBoth,
}
use howm.Session.Exchange.Params.Texts.{final_params_texts_differ}
use howm.Examples.Manifests.{
  provider, reader, allow_all, allow_none, feed_name, feed_scope, manifest_of, provided_feed,
  consumed_feed, heartbeat, feed_scope-IsNumeric, default_params-IsNumeric,
}

abbrev session_of : DiscoveryManifest → DiscoveryManifest → Session
session_of local remote = record {
  remote_peer_id = remote.peer_id;
  state = peer_visible;
  transport = none;
  local_manifest = local;
  remote_manifest = none;
  active_set = [];
  accepted_params = [];
  created_at = 100;
  last_activity = 100;
}

abbrev clock : Clock
clock s = 101

abbrev initiator : Session
initiator = session_of provider reader

abbrev responder : Session
responder = session_of reader provider

abbrev from_responder : List ProtocolMessage
from_responder = offer reader ∷ our_confirm reader provider allow_none ∷ []

abbrev from_initiator : List ProtocolMessage
from_initiator = offer provider ∷ our_confirm provider reader allow_all ∷ []

exchange_agrees_example :
    (run_initiator_exchange allow_all clock (ready initiator from_responder)).0.active_set
    ≡ (run_responder_exchange allow_none clock (ready responder from_initiator)).0.active_set
exchange_agrees_example =
    (exchange_agrees initiator responder allow_all allow_none clock clock provider reader
      (refl, (refl, tt)) (refl, (refl, tt))).4

-- A peer that answers the OFFER with a PING fails the exchange.
initiator-Ended_example :
    Ended (run_initiator_exchange allow_all clock (ready initiator (offer reader ∷ ping 3 ∷ [])))
initiator-Ended_example =
    initiator-Ended (ready initiator (offer reader ∷ ping 3 ∷ [])) allow_all clock refl

-- A peer that closes instead of confirming.
responder-Ended_example : Ended (
    run_responder_exchange allow_all clock
      (ready responder (offer provider ∷ close [] auth_failure ∷ [])))
responder-Ended_example =
    responder-Ended (ready responder (offer provider ∷ close [] auth_failure ∷ [])) allow_all clock
      refl

provider-HasNumericScopes : HasNumericScopes provider
provider-HasNumericScopes n = by_name (bytes_eq feed_name n) (bytes_eq heartbeat_name n)
  where
    by_name :
        (b c : Bool)
        → IsNumeric
            (scope_of (if b then some provided_feed else if c then some heartbeat else none))
    by_name true c = feed_scope-IsNumeric 10
    by_name false true = default_params-IsNumeric
    by_name false false = default_params-IsNumeric

reader-HasNumericScopes : HasNumericScopes reader
reader-HasNumericScopes n = by_name (bytes_eq heartbeat_name n) (bytes_eq feed_name n)
  where
    by_name :
        (b c : Bool)
        → IsNumeric
            (scope_of (if b then some heartbeat else if c then some consumed_feed else none))
    by_name true c = default_params-IsNumeric
    by_name false true = feed_scope-IsNumeric 5
    by_name false false = default_params-IsNumeric

abbrev their_set : List Text
their_set = compute_intersection reader provider allow_none

abbrev our_set : List Text
our_set = compute_intersection provider reader allow_all

final_params_agree_example :
    final_params provider reader allow_all their_set
      (optional (reconcile_params their_set reader provider))
    ≡ final_params reader provider allow_none our_set
        (optional (reconcile_params our_set provider reader))
final_params_agree_example =
    final_params_agree provider reader provider reader allow_all allow_none (λ n. (refl, refl))
      provider-HasNumericScopes reader-HasNumericScopes

feed_accepted :
    lookup feed_name (final_params provider reader allow_all (feed_name ∷ []) none)
    ≡ some (feed_scope 5)
unfolding compute_intersection sort_by Role.matches reconcile_params reconcile_confirm_params
    insert_each insert reconcile lookup intersect_sets
feed_accepted = refl

final_params-KeepsBoth_example : KeepsBoth (feed_scope 10) (feed_scope 5) (feed_scope 5)
final_params-KeepsBoth_example =
    final_params-KeepsBoth feed_name provider reader allow_all (feed_name ∷ []) none (feed_scope 5)
      feed_accepted

abbrev first_byte : Text → ℕ
first_byte [] = 0
first_byte (x ∷ xs) = x

abbrev codec_scope : Text → ScopeParams
codec_scope name = record { rate_limit = 0; ttl = 0; extensions = (15, text name) ∷ [] }

abbrev opus_provider : DiscoveryManifest
opus_provider =
    manifest_of 1 (record provided_feed { scope = some (codec_scope (bytes "opus")) } ∷ [])

abbrev flac_reader : DiscoveryManifest
flac_reader =
    manifest_of 2 (record consumed_feed { scope = some (codec_scope (bytes "flac")) } ∷ [])

abbrev opus_set : List Text
opus_set = compute_intersection opus_provider flac_reader allow_all

abbrev flac_set : List Text
flac_set = compute_intersection flac_reader opus_provider allow_all

final_params_texts_differ_example :
    final_params opus_provider flac_reader allow_all flac_set
      (optional (reconcile_params flac_set flac_reader opus_provider))
    ≢ final_params flac_reader opus_provider allow_all opus_set
        (optional (reconcile_params opus_set opus_provider flac_reader))
unfolding compute_intersection sort_by Role.matches get_ext lookup
final_params_texts_differ_example =
    final_params_texts_differ feed_name 15 (bytes "opus") (bytes "flac") opus_provider flac_reader
      opus_provider flac_reader allow_all allow_all (λ n. (refl, refl)) refl refl refl refl
      (λ e. omega (arith, ap first_byte e))
