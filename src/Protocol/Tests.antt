-- ===== src/Protocol/Tests.antt =====
-- The protocol on concrete messages and streams.
use teecam.Prelude.{
  ◌^◌, ◌<◌, ◌≡◌, ◌↔◌, refl, inl, inr, arith, [], ◌∷◌, ◌++◌, take, drop, Bytes, codes, IsBytes,
  Result, ok, err, value_error,
}
use teecam.Protocol.Wire.{pack, packed, be, from_be, unpack, calcsize, Fits}
use teecam.Protocol.Stream.{Stream, chunk, recv_exact, ready, ending}
use teecam.Protocol.Message.{
  put, get, Request, Response, encode_response, not_found, request_struct, encode_request,
  operation_code, operation_of, status_of, status_code, validate_request,
}
use teecam.Protocol.Encoding.{IsAllowed, encode_request_iff, request_bytes, response_bytes}
use teecam.Protocol.Receive.{recv_request, recv_response}
use teecam.Protocol.Call.{call}
use teecam.Protocol.RoundTrip.{recv_request-encode}
use teecam.Protocol.Canonical.{encode-recv_request}
use teecam.Protocol.Rejection.{recv_request-outside, declared}
use teecam.Protocol.Pieces.{SameOutput, recv_request-IsUniform}
use teecam.Protocol.Responses.{recv_response-encode, call_matches}

abbrev put_request : Request
put_request = record { request_id = 7; operation = put; key = codes "k"; value = codes "value" }

abbrev not_found_response : Response
not_found_response = record { request_id = 7; status = not_found; value = [] }

-- The request in three pieces, with a byte of the next message behind it.
abbrev in_pieces : Stream
in_pieces =
    chunk (take 3 (request_bytes put_request))
    ∷ chunk (drop 3 (request_bytes put_request))
    ∷ chunk (9 ∷ [])
    ∷ []

abbrev in_one_piece : Stream
in_one_piece = chunk (request_bytes put_request ++ (9 ∷ [])) ∷ []

put_request-encode : encode_request put_request ≡ ok (request_bytes put_request)
unfolding encode_request be packed
put_request-encode = refl

ready-in_pieces : ready in_pieces ≡ request_bytes put_request ++ (9 ∷ [])
unfolding ready take drop be operation_code packed
ready-in_pieces = refl

put_request-read : recv_request in_pieces ≡ (ok put_request, chunk (9 ∷ []) ∷ [])
unfolding recv_request recv_exact take drop be operation_code packed unpack calcsize from_be
    operation_of validate_request
put_request-read = refl

encode_request_iff_example : ((bs : Bytes) × (encode_request put_request ≡ ok bs)) ↔ (
    IsAllowed put_request.operation put_request.key put_request.value
    × (put_request.request_id < 2 ^ 64))
encode_request_iff_example = encode_request_iff put_request

recv_request-encode_example :
    (t : Stream) × (recv_request in_pieces ≡ (ok put_request, t))
    × (ready t ≡ 9 ∷ [])
    × (ending t ≡ ending in_pieces)
recv_request-encode_example =
    recv_request-encode put_request in_pieces (9 ∷ []) put_request-encode ready-in_pieces

IsBytes-in_pieces : IsBytes (ready in_pieces)
unfolding ready take drop be operation_code packed
IsBytes-in_pieces = omega arith

encode-recv_request_example :
    (bs : Bytes) × (encode_request put_request ≡ ok bs)
    × (ready in_pieces ≡ bs ++ ready (chunk (9 ∷ []) ∷ []))
encode-recv_request_example =
    encode-recv_request put_request in_pieces (chunk (9 ∷ []) ∷ []) IsBytes-in_pieces
      put_request-read

-- A header that declares a key of 65 bytes.
abbrev long_key : Stream
long_key = chunk (packed request_struct (declared get 7 65 0) ++ (1 ∷ [])) ∷ []

ready-long_key : ready long_key ≡ packed request_struct (declared get 7 65 0) ++ (1 ∷ [])
unfolding ready packed be operation_code
ready-long_key = refl

long_key-Fits : Fits request_struct (declared get 7 65 0)
unfolding operation_code
long_key-Fits = omega arith

recv_request-outside_example :
    (t : Stream) × (recv_request long_key ≡ (err value_error, t)) × (ready t ≡ 1 ∷ [])
recv_request-outside_example =
    recv_request-outside get 7 65 0 long_key (1 ∷ []) long_key-Fits (inr (inl (omega arith)))
      ready-long_key

same_input : (ready in_pieces ≡ ready in_one_piece) × (ending in_pieces ≡ ending in_one_piece)
unfolding ready ending take drop be operation_code packed
same_input = (refl, refl)

recv_request-IsUniform_example : SameOutput (recv_request in_pieces) (recv_request in_one_piece)
recv_request-IsUniform_example = recv_request-IsUniform in_pieces in_one_piece same_input

abbrev response_stream : Stream
response_stream = chunk (response_bytes not_found_response) ∷ []

ready-response : ready response_stream ≡ response_bytes not_found_response ++ []
unfolding ready packed be
ready-response = refl

encode_not_found : encode_response not_found_response ≡ ok (response_bytes not_found_response)
unfolding encode_response pack packed be status_code
encode_not_found = refl

recv_response-encode_example :
    (t : Stream) × (recv_response response_stream ≡ (ok not_found_response, t)) × (ready t ≡ [])
recv_response-encode_example =
    recv_response-encode not_found_response encode_not_found response_stream [] ready-response

-- A peer that answers everything with the one response.
abbrev one_answer : Bytes → Result Stream
one_answer sent = ok response_stream

one_answer_returned : call one_answer put_request ≡ ok not_found_response
unfolding call recv_response encode_request recv_exact packed be take drop unpack calcsize from_be
    status_of status_code
one_answer_returned = refl

call_matches_example : not_found_response.request_id ≡ put_request.request_id
call_matches_example = call_matches one_answer put_request one_answer_returned
