-- ===== src/Capabilities/Rpc.antt =====
-- node/p2pcd/src/capabilities/rpc.rs: calls of methods from other peers, and the answers to our calls. The
-- request itself is written by node/daemon/src/p2pcd/bridge/messaging.rs.
pub mod Calls
use howm.Base.{
  ℕ, Option, none, some, List, [], ◌∷◌, ◌++◌, Bytes, Text, bytes as text_bytes, bytes_ord, nat_ord,
  Map, lookup, insert, remove, nat_eq, unwrap_or, if◌then◌else◌, Result, ok, err,
}
use howm.Protocol.Manifest.{PeerId}
use howm.Protocol.Cbor.Values.{Value, bytes, text, int_value}
use howm.Protocol.Cbor.Scopes.{CborError}
use howm.Protocol.Cbor.Codec.{Codec}
use howm.Capabilities.Payload.{
  CapabilityContext, cbor_encode_map, cbor_get_int, cbor_get_text, cbor_get_bytes, decode_payload,
  make_capability_msg, with_map,
}
use howm.Capabilities.Senders.{Senders, send_msg}

abbrev pub rpc_req : ℕ
rpc_req = 22

abbrev pub rpc_resp : ℕ
rpc_resp = 23

abbrev pub method_key : ℕ
method_key = 1

abbrev pub request_id_key : ℕ
request_id_key = 2

abbrev pub payload_key : ℕ
payload_key = 3

abbrev pub error_key : ℕ
error_key = 4

-- A method gives its result or the text of its error.
abbrev pub RpcMethodHandler : Type 0
RpcMethodHandler = Bytes → CapabilityContext → Result Text Bytes

-- The daemon's way to the processes of the capabilities: the peer, the method, the whole payload and the
-- peer's active set.
abbrev pub RpcForwarder : Type 0
RpcForwarder = PeerId → Text → Bytes → List Text → Result Text Bytes

-- A waiter is the name of who waits, and `delivered` is what each has been given.
pub record RpcHandler : Type 0 where
  pub methods : Map Text RpcMethodHandler
  pub peer_senders : Senders
  pub rpc_waiters : Map ℕ ℕ
  pub delivered : List (ℕ × Bytes)
  pub cap_forwarder : Option RpcForwarder
  pub peer_active_sets : Map PeerId (List Text)

abbrev pub new_rpc : RpcHandler
new_rpc = record {
  methods = [];
  peer_senders = [];
  rpc_waiters = [];
  delivered = [];
  cap_forwarder = none;
  peer_active_sets = [];
}

unfoldable pub set_forwarder : RpcForwarder → RpcHandler → RpcHandler
set_forwarder f h = record h { cap_forwarder = some f }

unfoldable pub set_peer_active_set : PeerId → List Text → RpcHandler → RpcHandler
set_peer_active_set p names h = record h { peer_active_sets = insert p names h.peer_active_sets }

unfoldable pub remove_peer_active_set : PeerId → RpcHandler → RpcHandler
remove_peer_active_set p h = record h { peer_active_sets = remove p h.peer_active_sets }

unfoldable pub add_peer_sender : PeerId → RpcHandler → RpcHandler
add_peer_sender p h = record h { peer_senders = insert p [] h.peer_senders }

unfoldable pub remove_peer_sender : PeerId → RpcHandler → RpcHandler
remove_peer_sender p h = record h { peer_senders = remove p h.peer_senders }

unfoldable pub register_method : Text → RpcMethodHandler → RpcHandler → RpcHandler
register_method name f h = record h { methods = insert name f h.methods }

-- The waiter of a number that is in use is dropped.
unfoldable pub register_waiter : ℕ → ℕ → RpcHandler → RpcHandler
register_waiter id w h = record h { rpc_waiters = insert id w h.rpc_waiters }

abbrev pub unknown_method : Text
unknown_method = text_bytes "unknown method: "

abbrev pub forwarded : PeerId → Text → Bytes → List Text → Option RpcForwarder → Result Text Bytes
forwarded p method payload names none = err (unknown_method ++ method)
forwarded p method payload names (some f) = f p method payload names

abbrev pub call :
    CapabilityContext
    → Text
    → Bytes
    → Bytes
    → RpcHandler
    → Option RpcMethodHandler
    → Result Text Bytes
call ctx method argument payload h (some f) = f argument ctx
call ctx method argument payload h none =
    forwarded ctx.peer_id method payload (unwrap_or (lookup ctx.peer_id h.peer_active_sets) [])
      h.cap_forwarder

abbrev pub answer_pairs : ℕ → Result Text Bytes → List (ℕ × Value)
answer_pairs id (ok contents) = (request_id_key, int_value id) ∷ (payload_key, bytes contents) ∷ []
answer_pairs id (err e) = (request_id_key, int_value id) ∷ (error_key, text e) ∷ []

-- A waiter that is there is given the payload, empty where there is none, and is gone.
abbrev pub deliver : ℕ → Bytes → RpcHandler → Option ℕ → RpcHandler
deliver id contents h none = h
deliver id contents h (some w) = record h {
  rpc_waiters = remove id h.rpc_waiters;
  delivered = h.delivered ++ (w, contents) ∷ [];
}

unfoldable pub resp_message : RpcHandler → List (Value × Value) → RpcHandler
resp_message h m =
    let id = unwrap_or (cbor_get_int m request_id_key) 0 in
    deliver id (unwrap_or (cbor_get_bytes m payload_key) []) h (lookup id h.rpc_waiters)

module _ (codec : Codec) where
  abbrev pub request_payload : Text → ℕ → Bytes → Bytes
  request_payload method id argument = cbor_encode_map codec (
      (method_key, text method)
      ∷ (request_id_key, int_value id)
      ∷ (payload_key, bytes argument)
      ∷ [])

  abbrev pub answer_payload : ℕ → Result Text Bytes → Bytes
  answer_payload id r = cbor_encode_map codec (answer_pairs id r)

  abbrev pub send_answer : PeerId → ℕ → Result Text Bytes → RpcHandler → RpcHandler
  send_answer p id r h =
      let msg = make_capability_msg rpc_resp (answer_payload id r) in
      record h { peer_senders = send_msg p msg h.peer_senders }

  unfoldable pub req_message :
      CapabilityContext → Bytes → RpcHandler → List (Value × Value) → RpcHandler
  req_message ctx payload h m =
      let method = unwrap_or (cbor_get_text m method_key) [] in
      let argument = unwrap_or (cbor_get_bytes m payload_key) [] in
      send_answer ctx.peer_id (unwrap_or (cbor_get_int m request_id_key) 0)
        (call ctx method argument payload h (lookup method h.methods)) h

  -- `on_message`: a payload that is no map is an error whatever the number.
  unfoldable pub rpc_on_message :
      ℕ → CapabilityContext → Bytes → RpcHandler → RpcHandler × Result CborError (Unit {0})
  unfolding decode_payload req_message resp_message
  rpc_on_message msg_type ctx payload h = with_map (decode_payload codec payload) h (λ m.
      if nat_eq msg_type rpc_req
      then req_message ctx payload h m
      else if nat_eq msg_type rpc_resp
      then resp_message h m
      else h)
