-- ===== src/Protocol/Receive.antt =====
-- `recv_request` and `recv_response` of cote3mon/protocol.py.
use teecam.Prelude.{◌+◌, ◌==◌, if◌then◌else◌, [], Bytes}
use teecam.Protocol.Message.{Request, Response}
use teecam.Protocol.Stream.{recv_exact}
use teecam.Protocol.Reader.{Read, pure, lift, ◌>>=◌}
use teecam.Protocol.Header.{
  RequestHeader, ResponseHeader, request_header, response_header, request_of,
}

-- The payload of a request whose header is `h`.
unfoldable pub recv_payload : RequestHeader → Read Request
unfolding request_of
recv_payload h = do payload ← recv_exact (h.key_len + h.value_len); lift (request_of h payload)

unfoldable pub after_request_header : Bytes → Read Request
unfolding request_header recv_payload
after_request_header raw = do h ← lift (request_header raw); recv_payload h

unfoldable pub recv_request : Read Request
unfolding after_request_header
recv_request = do raw ← recv_exact 24; after_request_header raw

-- `Response(request_id, status, recv_exact(stream, value_len) if value_len else b"")`
unfoldable pub recv_value : ResponseHeader → Read Response
recv_value h = do
  value ← (if h.value_len == 0 then pure [] else recv_exact h.value_len)
  pure (record { request_id = h.request_id; status = h.status; value = value })

unfoldable pub after_response_header : Bytes → Read Response
unfolding response_header recv_value
after_response_header raw = do h ← lift (response_header raw); recv_value h

unfoldable pub recv_response : Read Response
unfolding after_response_header
recv_response = do raw ← recv_exact 20; after_response_header raw
