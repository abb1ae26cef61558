-- ===== src/Capabilities/Stream/Messages.antt =====
-- The payloads of the four messages, and what a node does of its own accord: it opens a stream, sends a
-- frame, closes a stream.
use howm.Base.{
  ℕ, ◌+◌, ◌%◌, ◌^◌, Option, none, some, List, [], ◌∷◌, Bytes, Text, lookup, insert, remove, length,
  bytes_ord, nat_ord, pair_ord, if◌then◌else◌, Result, ok, err,
}
use howm.Protocol.Manifest.{PeerId}
use howm.Protocol.Cbor.Values.{Value, bytes, text, int_value, map_value, entries_of}
use howm.Protocol.Cbor.Codec.{Codec}
use howm.Capabilities.Payload.{cbor_encode_map}
use howm.Capabilities.Stream.{
  StreamMode, StreamState, StreamHandler, framed, raw, to_u64, sending, new_stream, stream_send_msg,
  stream_open, stream_data, stream_close, frames_sent, bytes_sent, stream_id_key, status_key,
  codec_key, bitrate_kbps_key, label_key, data_key, sequence_key, timestamp_ms_key, reason_key,
  control_type_key, value_key, mode_key,
}

abbrev pub request : ℕ
request = 0

abbrev pub accepted : ℕ
accepted = 1

abbrev pub rejected : ℕ
rejected = 2

abbrev pub stats_resp : ℕ
stats_resp = 5

abbrev pub label_pairs : Option Text → List (ℕ × Value)
label_pairs none = []
label_pairs (some l) = (label_key, text l) ∷ []

abbrev pub open_pairs : ℕ → Text → StreamMode → ℕ → Option Text → List (ℕ × Value)
open_pairs id codec mode bitrate label =
    (stream_id_key, int_value id)
    ∷ (status_key, int_value request)
    ∷ (codec_key, text codec)
    ∷ (bitrate_kbps_key, int_value bitrate)
    ∷ (mode_key, int_value (to_u64 mode))
    ∷ label_pairs label

abbrev pub time_pairs : Option ℕ → List (ℕ × Value)
time_pairs none = []
time_pairs (some ts) = (timestamp_ms_key, int_value ts) ∷ []

abbrev pub data_pairs : ℕ → Bytes → ℕ → Option ℕ → List (ℕ × Value)
data_pairs id contents seq timestamp =
    (stream_id_key, int_value id)
    ∷ (data_key, bytes contents)
    ∷ (sequence_key, int_value seq)
    ∷ time_pairs timestamp

abbrev pub status_pairs : ℕ → ℕ → List (ℕ × Value)
status_pairs id status = (stream_id_key, int_value id) ∷ (status_key, int_value status) ∷ []

abbrev pub close_pairs : ℕ → ℕ → List (ℕ × Value)
close_pairs id reason = (stream_id_key, int_value id) ∷ (reason_key, int_value reason) ∷ []

abbrev pub stats_pairs : ℕ → StreamState → List (ℕ × Value)
stats_pairs id st =
    (stream_id_key, int_value id)
    ∷ (control_type_key, int_value stats_resp)
    ∷ (
      value_key,
      map_value (
          entries_of (
            (text frames_sent, int_value st.frames_transferred)
            ∷ (text bytes_sent, int_value st.bytes_transferred)
            ∷ [])),
    )
    ∷ []

-- How far a frame takes the sequence: framed counts frames, raw counts bytes.
abbrev pub advance : StreamMode → ℕ → ℕ
advance framed n = 1
advance raw n = n

-- The counters are `u64`, which wrap around in a release build.
abbrev pub count_sent : ℕ → ℕ → StreamState → StreamState
count_sent now n st = record st {
  next_sequence = (st.next_sequence + advance st.mode n) % 2 ^ 64;
  bytes_transferred = (st.bytes_transferred + n) % 2 ^ 64;
  frames_transferred = (st.frames_transferred + 1) % 2 ^ 64;
  last_activity = now;
}

module _ (wire : Codec) where
  unfoldable pub open_stream :
      ℕ → ℕ → PeerId → Text → StreamMode → ℕ → Option Text → ℕ → StreamHandler → StreamHandler
  unfolding stream_send_msg
  open_stream now id p codec mode bitrate label timeout h =
      let payload = cbor_encode_map wire (open_pairs id codec mode bitrate label) in
      let h' = stream_send_msg p stream_open payload h in
      record h' {
        streams =
            insert (p, id) (new_stream now id p codec mode bitrate label sending timeout)
              h'.streams;
      }

  -- A paused stream drops the frame. The error is `stream not found`.
  abbrev pub send_on :
      ℕ
      → PeerId
      → ℕ
      → Bytes
      → Option ℕ
      → StreamHandler
      → Option StreamState
      → StreamHandler × Result ℕ (Unit {0})
  send_on now p id contents timestamp h none = (h, err id)
  send_on now p id contents timestamp h (some st) = if st.paused then (h, ok tt) else (
    stream_send_msg p stream_data
        (cbor_encode_map wire (data_pairs id contents st.next_sequence timestamp))
        (record h { streams = insert (p, id) (count_sent now (length contents) st) h.streams }),
    ok tt,
  )

  unfoldable pub send_frame :
      ℕ → PeerId → ℕ → Bytes → Option ℕ → StreamHandler → StreamHandler × Result ℕ (Unit {0})
  unfolding stream_send_msg
  send_frame now p id contents timestamp h =
      send_on now p id contents timestamp h (lookup (p, id) h.streams)

  unfoldable pub close_stream : PeerId → ℕ → ℕ → StreamHandler → StreamHandler
  unfolding stream_send_msg
  close_stream p id reason h =
      stream_send_msg p stream_close (cbor_encode_map wire (close_pairs id reason))
        (record h { streams = remove (p, id) h.streams })

  unfoldable pub send_open_response : PeerId → ℕ → ℕ → StreamHandler → StreamHandler
  unfolding stream_send_msg
  send_open_response p id status h =
      stream_send_msg p stream_open (cbor_encode_map wire (status_pairs id status)) h
