-- ===== src/Capabilities/Blob.antt =====
-- node/p2pcd/src/capabilities/blob.rs: the transfers of blobs. Each handler is one step; the clock, in seconds,
-- is an argument.
pub mod Sending
pub mod Receiving
pub mod Unchanged
pub mod Integrity
pub mod Progress
pub mod Arrival
pub mod Provision
pub mod Transfer
use howm.Base.{
  ℕ, ◌+◌, ◌-◌, ◌*◌, ◌/◌, ◌%◌, ◌^◌, Bool, true, false, ◌&&◌, not, Option, none, some, List, [], ◌∷◌,
  ◌++◌, Bytes, bytes_ord, nat_ord, ◌==◌, Map, insert, remove, filter, ltb, nat_eq, unwrap_or,
  if◌then◌else◌,
}
use howm.Protocol.Manifest.{PeerId}
use howm.Protocol.Scope.{ScopeParams, get_ext_uint}
use howm.Capabilities.Payload.{CapabilityContext, make_capability_msg}
use howm.Capabilities.Senders.{Senders, send_msg}
use howm.Capabilities.BlobStore.{BlobStore}

abbrev pub blob_req : ℕ
blob_req = 18

abbrev pub blob_offer : ℕ
blob_offer = 19

abbrev pub blob_chunk : ℕ
blob_chunk = 20

abbrev pub blob_ack : ℕ
blob_ack = 21

abbrev pub transfer_id_key : ℕ
transfer_id_key = 1

abbrev pub blob_hash_key : ℕ
blob_hash_key = 2

abbrev pub offset_key : ℕ
offset_key = 4

abbrev pub total_size_key : ℕ
total_size_key = 5

abbrev pub chunk_size_key : ℕ
chunk_size_key = 6

abbrev pub chunk_count_key : ℕ
chunk_count_key = 7

abbrev pub chunk_index_key : ℕ
chunk_index_key = 8

abbrev pub blob_data_key : ℕ
blob_data_key = 9

abbrev pub ack_status_key : ℕ
ack_status_key = 10

abbrev pub missing_chunks_key : ℕ
missing_chunks_key = 11

-- The status of an ACK.
abbrev pub complete : ℕ
complete = 0

abbrev pub retransmit : ℕ
retransmit = 1

abbrev pub refused : ℕ
refused = 2

abbrev pub not_found : ℕ
not_found = 3

abbrev pub transfer_timeout_secs : ℕ
transfer_timeout_secs = 300

abbrev pub max_retransmit_attempts : ℕ
max_retransmit_attempts = 3

-- The number of bytes of a hash.
abbrev pub hash_len : ℕ
hash_len = 32

pub record InboundTransfer : Type 0 where
  pub transfer_id : ℕ
  pub peer_id : PeerId
  pub blob_hash : Bytes
  pub total_size : ℕ
  pub chunk_size : ℕ
  pub chunk_count : ℕ
  pub received : List Bool
  pub chunks : List (Option Bytes)
  pub started_at : ℕ
  pub retransmit_count : ℕ

abbrev pub all_received : List Bool → Bool
all_received [] = true
all_received (r ∷ rs) = r && all_received rs

abbrev pub is_complete : InboundTransfer → Bool
is_complete t = all_received t.received

abbrev pub missing_from : ℕ → List Bool → List ℕ
missing_from i [] = []
missing_from i (r ∷ rs) = let rest = missing_from (i + 1) rs in if r then rest else i ∷ rest

abbrev pub missing_indices : InboundTransfer → List ℕ
missing_indices t = missing_from 0 t.received

abbrev pub inbound_expired : ℕ → InboundTransfer → Bool
inbound_expired now t = ltb transfer_timeout_secs (now - t.started_at)

abbrev pub joined : List (Option Bytes) → Bytes
joined [] = []
joined (none ∷ cs) = joined cs
joined (some c ∷ cs) = c ++ joined cs

abbrev pub assembled_data : InboundTransfer → Bytes
assembled_data t = joined t.chunks

pub record OutboundTransfer : Type 0 where
  pub transfer_id : ℕ
  pub peer_id : PeerId
  pub blob_hash : Bytes
  pub total_size : ℕ
  pub chunk_size : ℕ
  pub chunk_count : ℕ
  pub started_at : ℕ

pub data TransferStatus : Type 0 where
  completed failed : TransferStatus

-- The error's text says which of the two it is.
pub data TransferError : Type 0 where
  not_on_provider too_many_retries : TransferError

pub record TransferEvent : Type 0 where
  pub transfer_id : ℕ
  pub blob_hash : Bytes
  pub status : TransferStatus
  pub size : ℕ
  pub error : Option TransferError

-- `events` is what was broadcast.
pub record BlobHandler : Type 0 where
  pub inbound : Map ℕ InboundTransfer
  pub outbound : Map ℕ OutboundTransfer
  pub store : BlobStore
  pub peer_senders : Senders
  pub events : List TransferEvent

abbrev pub new_blobs : BlobStore → BlobHandler
new_blobs s = record { inbound = []; outbound = []; store = s; peer_senders = []; events = [] }

unfoldable pub add_peer_sender : PeerId → BlobHandler → BlobHandler
add_peer_sender p h = record h { peer_senders = insert p [] h.peer_senders }

unfoldable pub remove_peer_sender : PeerId → BlobHandler → BlobHandler
remove_peer_sender p h = record h { peer_senders = remove p h.peer_senders }

unfoldable pub emit_transfer_event :
    ℕ → Bytes → TransferStatus → ℕ → Option TransferError → BlobHandler → BlobHandler
emit_transfer_event id hash status size e h =
    let event : TransferEvent = record {
      transfer_id = id;
      blob_hash = hash;
      status = status;
      size = size;
      error = e;
    } in
    record h { events = h.events ++ event ∷ [] }

unfoldable pub blob_send_msg : PeerId → ℕ → Bytes → BlobHandler → BlobHandler
blob_send_msg p msg_type payload h = record h {
  peer_senders = send_msg p (make_capability_msg msg_type payload) h.peer_senders;
}

abbrev pub max_bytes : ScopeParams → ℕ
max_bytes params = unwrap_or (get_ext_uint params 16) 52428800

abbrev pub default_chunk_size : ℕ
default_chunk_size = 32768

abbrev pub chunk_size_of : ScopeParams → ℕ
chunk_size_of params = unwrap_or (get_ext_uint params 17) default_chunk_size

-- Rust's `div_ceil`, of a divisor that is not 0.
abbrev pub div_ceil : ℕ → ℕ → ℕ
div_ceil a b = if nat_eq (a % b) 0 then a / b else a / b + 1

unfoldable pub reap_stale_transfers : ℕ → BlobHandler → BlobHandler
reap_stale_transfers now h = record h {
  inbound = filter (λ e. not (inbound_expired now e.1)) h.inbound;
  outbound = filter (λ e. not (ltb transfer_timeout_secs (now - e.1.started_at))) h.outbound;
}

unfoldable pub blob_on_deactivated : CapabilityContext → BlobHandler → BlobHandler
blob_on_deactivated ctx h = record h {
  inbound = filter (λ e. not (e.1.peer_id == ctx.peer_id)) h.inbound;
  outbound = filter (λ e. not (e.1.peer_id == ctx.peer_id)) h.outbound;
}
