-- ===== src/Protocol/Cbor/Messages/RoundTrip.antt =====
-- Each message is read back from its bytes.
use mathlib.Core.Option
use howm.Base.{
  ◌≤◌, ◌≡◌, refl, ap, ◌∙◌, Option, none, some, List, [], ◌∷◌, map, Text, Map, IsMap, insert,
  insert_all, insert_all-append, bytes_ord, ok, ok_or, ◌>>=◌, collect, All,
}
use howm.Protocol.MessageType
use howm.Protocol.MessageType.{from_u64_above}
use howm.Protocol.CloseReason.{from_u64-to_u64}
use howm.Protocol.Manifest.{DiscoveryManifest, IsPeerId, sort_capabilities}
use howm.Protocol.Message.{ProtocolMessage, offer, confirm, close, ping, pong, capability_msg}
use howm.Protocol.Scope.{ScopeParams}
use howm.Protocol.Cbor.Values.{
  Value, text, map_value, list_of, values_of, entries_of, pairs_of-entries_of,
}
use howm.Protocol.Cbor.Scopes.{undecodable}
use howm.Protocol.Cbor.Scopes.RoundTrip.{IsEncodable, scope_round_trip}
use howm.Protocol.Cbor.Capabilities.RoundTrip.{IsEncodableCap}
use howm.Protocol.Cbor.Codec.{Codec}
use howm.Protocol.Cbor.Manifests.{to_cbor, manifest_to_value}
use howm.Protocol.Cbor.Manifests.RoundTrip.{from_cbor-to_cbor}
use howm.Protocol.Cbor.Messages.{
  param_pair, expect_text, params_from, message_pairs, to_cbor_bytes, message_from_pairs,
  message_from_value, from_cbor_bytes, offer_pairs,
}

-- What a message may hold for its bytes to be readable: an OFFER's manifest has a full peer id and
-- encodable scopes, so have a CONFIRM's parameters, and the type of a capability message is above those
-- of the protocol.
abbrev pub IsSendable : ProtocolMessage → Type 0
IsSendable (offer m) = IsPeerId m.peer_id × All IsEncodableCap m.capabilities
IsSendable (confirm hash set none) = Unit {0}
IsSendable (confirm hash set (some ps)) = IsMap ps × All (λ e. IsEncodable e.1) ps
IsSendable (capability_msg t payload) = 6 ≤ t
IsSendable _ = Unit {0}

-- What arrives: a manifest comes with its capabilities sorted.
abbrev pub received : ProtocolMessage → ProtocolMessage
received (offer m) = offer (sort_capabilities m)
received m = m

texts_round_trip :
    (ts : List Text) → collect expect_text (list_of (values_of (map text ts))) ≡ ok ts
texts_round_trip [] = refl
texts_round_trip (t ∷ ts) = rw (texts_round_trip ts)

params_from-map :
    (ps out : Map Text ScopeParams)
    → All (λ e. IsEncodable e.1) ps
    → params_from (map param_pair ps) out ≡ ok (insert_all out ps)
unfolding params_from insert_all
params_from-map [] out a = refl
params_from-map ((n, s) ∷ ps) out a =
    ap (λ r. (r >>= λ t. ok (insert n t out)) >>= params_from (map param_pair ps))
      (scope_round_trip s a.0)
    ∙ params_from-map ps (insert n s out) a.1

module _ (codec : Codec) where
  offer_entries :
      (m : DiscoveryManifest) → codec.from_bytes (to_cbor codec m) ≡ some (manifest_to_value m)
  unfolding to_cbor
  offer_entries m = codec.round_trip (manifest_to_value m)

  pairs_round_trip :
      (m : ProtocolMessage)
      → IsSendable m
      → Option.map (message_from_pairs codec) (message_pairs codec m) ≡ some (ok (received m))
  unfolding message_pairs message_from_pairs MessageType.from_u64 MessageType.to_u64 to_cbor
  pairs_round_trip (offer m) h =
      ap (λ o. Option.map (message_from_pairs codec) (offer_pairs codec o)) (offer_entries m)
      ∙ ap (λ r. some (r >>= λ k. ok (offer k))) (from_cbor-to_cbor codec m h.0 h.1)
  pairs_round_trip (confirm hash set none) h = rw (texts_round_trip set) refl
  pairs_round_trip (confirm hash set (some ps)) h =
      rw
        (
          texts_round_trip set,
          pairs_of-entries_of (map param_pair ps),
          params_from-map ps [] h.1,
          insert_all-append [] ps h.0,
        )
        refl
  pairs_round_trip (close hash reason) h = rw (from_u64-to_u64 reason) refl
  pairs_round_trip (ping t) h = refl
  pairs_round_trip (pong t) h = refl
  pairs_round_trip (capability_msg t payload) h = rw (from_u64_above t h) refl

  read_back :
      (o : Option (List (Value × Value))) (m : ProtocolMessage)
      → Option.map (message_from_pairs codec) o ≡ some (ok m)
      → Option.map
          (from_cbor_bytes codec)
          (Option.map (λ es. codec.to_bytes (map_value (entries_of es))) o)
        ≡ some (ok m)
  unfolding from_cbor_bytes message_from_value
  read_back none m h = cc
  read_back (some es) m h =
      ap (λ r. some (ok_or r undecodable >>= message_from_value codec))
        (codec.round_trip (map_value (entries_of es)))
      ∙ ap (λ qs. some (message_from_pairs codec qs)) (pairs_of-entries_of es)
      ∙ h

  -- A sendable message has bytes, and they are read back as the message, an OFFER's capabilities
  -- sorted.
  pub from_cbor_bytes-to_cbor_bytes :
      (m : ProtocolMessage)
      → IsSendable m
      → Option.map (from_cbor_bytes codec) (to_cbor_bytes codec m) ≡ some (ok (received m))
  unfolding to_cbor_bytes
  from_cbor_bytes-to_cbor_bytes m h =
      read_back (message_pairs codec m) (received m) (pairs_round_trip m h)
