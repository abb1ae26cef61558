-- ===== src/Capabilities/Rpc/Calls.antt =====
-- A call from its request to its answer.
use howm.Base.{[], Bytes, Text, ok, err, Result, bytes_ord, nat_ord}
use howm.Protocol.Cbor.Codec.{Codec}

-- What a waiter is given of a result: nothing of an error.
abbrev pub given : Result Text Bytes → Bytes
given (ok contents) = contents
given (err e) = []
