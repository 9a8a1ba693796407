-- ===== src/Upstream/Examples.antt =====
-- Requests and bodies for src/upstream/mod.rs. A header map is a function here, and the HTTP client
-- gives one answer.
use ferrum_proxy.Common.{
  u64_mod, subst, ◌<◌, ℕ, ◌≡◌, refl, String, Option, none, some, List, [], ◌∷◌, if◌then◌else◌, ◌==◌,
  string_eq, ltb, length, ok, err, arith,
}
use ferrum_proxy.Upstream.Headers.{
  HeaderApi, Authority, content_length_exceeds, sanitize_hop_by_hop_headers,
  apply_forwarding_headers,
}
use ferrum_proxy.Upstream.Sanitized.{
  belongs_to_hop, forwarded_value, get-sanitize, get-apply_forwarding_headers,
}
use ferrum_proxy.Upstream.Body.{Item, bytes, timed_out, Frame, size_limit_kind, limit_body_stream}
use ferrum_proxy.Upstream.Limits.{arriving, read_unlimited, read_frames, read-limit_body_stream}
use ferrum_proxy.Upstream.Forward.{
  Message, Answer, answered, Urls, UpstreamClient, RequestLine, build_upstream_uri, relay, receive,
  forward,
}
use ferrum_proxy.Upstream.Relayed.{IsExchange, forward-ok}

abbrev pub HeaderMap : Type 0
HeaderMap = String → Option String

abbrev pub api : HeaderApi HeaderMap String
api = record {
  get = λ name m. m name;
  remove = λ name m other. if name == other then none else m other;
  set = λ name v m other. if name == other then some v else m other;
  to_str = some;
  from_str = some;
  from_static = λ text. text;
  name_from_bytes = some;
  get-remove = λ name other m. refl;
  get-set = λ name other v m. refl;
}

abbrev pub url : Authority
url = record { host = some "backend"; port = some 8080 }

abbrev pub sent_headers : HeaderMap
sent_headers name =
    if name == "connection"
    then some "x-trace, close"
    else if name == "x-trace"
    then some "1"
    else if name == "x-forwarded-for"
    then some "6.6.6.6"
    else none

get-sanitize_example :
    api.get "x-trace" (sanitize_hop_by_hop_headers api sent_headers)
    ≡ (if belongs_to_hop api "x-trace" sent_headers then none else api.get "x-trace" sent_headers)
get-sanitize_example = get-sanitize api "x-trace" sent_headers

get-apply_forwarding_headers_example :
    api.get "x-forwarded-for" (apply_forwarding_headers api url (some "10.0.0.1") sent_headers)
    ≡ forwarded_value api url (some "10.0.0.1") "x-forwarded-for" sent_headers
get-apply_forwarding_headers_example =
    get-apply_forwarding_headers api url (some "10.0.0.1") sent_headers "x-forwarded-for"

abbrev pub body : List (Item String)
body = bytes (1 ∷ 2 ∷ []) ∷ bytes (3 ∷ []) ∷ timed_out ∷ []

read-limit_body_stream_example :
    read_frames (limit_body_stream 2 1000 "client request body" body) ≡ (
      if ltb 2 (length (arriving body))
      then err (size_limit_kind "client request body")
      else read_unlimited "client request body" body)
read-limit_body_stream_example =
    read-limit_body_stream 2 1000 "client request body" body (omega arith)

abbrev pub urls : Urls String String
urls = record {
  parse = ok;
  path = λ uri. uri;
  query = λ _. none;
  set_path = λ path _. path;
  set_query = λ _ url'. url';
  to_uri = ok;
  authority = λ _. url;
}

abbrev client : UpstreamClient
client = record { max_request_body_bytes = 10; max_response_body_bytes = 10 }

abbrev pub request : Message (RequestLine String String) HeaderMap (List (Item String))
request = record {
  line = record { method_version = "POST"; uri = "/api" };
  headers = sent_headers;
  body = body;
}

abbrev pub answer : Message ℕ HeaderMap (List (Item String))
answer = record { line = 200; headers = λ _. none; body = bytes (7 ∷ []) ∷ [] }

abbrev pub send :
    Message (RequestLine String String) HeaderMap (List (Frame String))
    → Answer (Message ℕ HeaderMap (List (Item String)))
send _ = answered answer

answer_fits :
    (sent : Message (RequestLine String String) HeaderMap (List (Frame String)))
    (a : Message ℕ HeaderMap (List (Item String)))
    → send sent ≡ answered a
    → length (arriving a.body) < u64_mod
answer_fits sent a e = subst (λ x. length (arriving x) < u64_mod) (body_of e) (omega arith)
  where
    body_of : answered answer ≡ answered a → answer.body ≡ a.body
    body_of h = ground (arith, h)

forward-ok_example :
    IsExchange urls api client send "http://backend" request none 7 (relay urls api client 9 answer)
unfolding forward build_upstream_uri receive content_length_exceeds
forward-ok_example =
    forward-ok urls api client send "http://backend" request none 5 9 7
      (relay urls api client 9 answer) answer_fits refl
