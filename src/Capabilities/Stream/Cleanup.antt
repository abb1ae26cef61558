-- ===== src/Capabilities/Stream/Cleanup.antt =====
-- node/p2pcd/src/capabilities/stream.rs: streams that end by time or with their peer.
use howm.Base.{
  ℕ, Bool, not, List, [], ◌∷◌, remove_each, map, filter, bytes_ord, nat_ord, pair_ord, ◌==◌,
}
use howm.Protocol.Manifest.{PeerId}
use howm.Protocol.Cbor.Codec.{Codec}
use howm.Capabilities.Payload.{CapabilityContext, cbor_encode_map}
use howm.Capabilities.Stream.{
  StreamState, StreamHandler, is_idle, on_stream_closed, call_sink, stream_send_msg, stream_close,
}
use howm.Capabilities.Stream.Messages.{close_pairs}

abbrev pub normal : ℕ
normal = 0

abbrev pub timeout : ℕ
timeout = 2

unfoldable pub reap_idle_streams : ℕ → StreamHandler → StreamHandler × List (PeerId × ℕ)
unfolding is_idle
reap_idle_streams now h = (
  record h { streams = filter (λ e. not (is_idle now e.1)) h.streams },
  map (λ e. e.0) (filter (λ e. is_idle now e.1) h.streams),
)

unfoldable pub notify_reaped : Codec → List (PeerId × ℕ) → StreamHandler → StreamHandler
unfolding call_sink stream_send_msg
notify_reaped wire [] h = h
notify_reaped wire ((p, id) ∷ more) h = notify_reaped wire more (
    stream_send_msg p stream_close (cbor_encode_map wire (close_pairs id timeout))
      (call_sink (on_stream_closed id p timeout) h))

unfoldable pub reap_and_notify : Codec → ℕ → StreamHandler → StreamHandler
unfolding reap_idle_streams notify_reaped
reap_and_notify wire now h =
    let (h', reaped) = reap_idle_streams now h in notify_reaped wire reaped h'

abbrev pub of_peer : PeerId → (PeerId × ℕ) × StreamState → Bool
of_peer p e = e.0.0 == p

unfoldable pub notify_closed : PeerId → List (PeerId × ℕ) → StreamHandler → StreamHandler
unfolding call_sink
notify_closed p [] h = h
notify_closed p ((q, id) ∷ more) h =
    notify_closed p more (call_sink (on_stream_closed id p normal) h)

unfoldable pub stream_on_deactivated : CapabilityContext → StreamHandler → StreamHandler
unfolding notify_closed
stream_on_deactivated ctx h =
    let to_close = map (λ e. e.0) (filter (of_peer ctx.peer_id) h.streams) in
    notify_closed ctx.peer_id to_close (record h { streams = remove_each to_close h.streams })
