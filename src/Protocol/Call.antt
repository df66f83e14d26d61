-- ===== src/Protocol/Call.antt =====
-- `call` of cote3mon/protocol.py.
use teecam.Prelude.{not, ◌==◌, Bytes, Result, ok, value_error, ◌>>=◌, ◌>>◌, raise_if}
use teecam.Protocol.Stream.{Stream}
use teecam.Protocol.Message.{Request, Response, encode_request}
use teecam.Protocol.Receive.{recv_response}

-- The gateway is what the peer of the socket does with the bytes that are sent: a stream of
-- answers, or the `OSError` of `connect` or `sendall`.
unfoldable pub call : (Bytes → Result Stream) → Request → Result Response
call gateway request = do
  sent ← encode_request request
  answer ← gateway sent
  response ← (recv_response answer).0
  raise_if (not (response.request_id == request.request_id)) value_error
  ok response
