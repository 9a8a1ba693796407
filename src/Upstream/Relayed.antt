-- ===== src/Upstream/Relayed.antt =====
-- What a successful `forward` of src/upstream/mod.rs has sent, and what it hands on.
use ferrum_proxy.Common.{
  ◌<◌, ◌≡◌, refl, subst, String, Option, none, List, ok, err, Duration, if◌then◌else◌, ltb, length,
  u64_mod, arith, Option-cases, Result-cases, inl, inr,
}
use ferrum_proxy.Upstream.Headers.{HeaderApi, content_length_exceeds}
use ferrum_proxy.Upstream.Body.{Item, Frame, size_limit_kind}
use ferrum_proxy.Upstream.Sanitized.{belongs_to_hop, get-sanitize}
use ferrum_proxy.Upstream.Limits.{arriving, read_unlimited, read_frames, read-limit_body_stream}
use ferrum_proxy.Upstream.Forward.{
  Message, Answer, elapsed, refused, answered, Urls, UpstreamClient, RequestLine,
  build_upstream_uri, upstream_request, relay, receive, forward,
}

module _ {Url Uri Map Value : Type 0} (urls : Urls Url Uri) (api : HeaderApi Map Value)
    (client : UpstreamClient) where
  -- `response` is the answer of the backend, passed on: its status and version unchanged, its
  -- headers but those of one connection, and its body up to the limit.
  pub record IsRelayOf {Status Failure : Type 0} (answer : Message Status Map (List (Item Failure)))
      (response : Message Status Map (List (Frame Failure))) : Type 0 where
    pub same_line : response.line ≡ answer.line
    pub same_headers :
        (name : String)
        → api.get name response.headers
          ≡ (if belongs_to_hop api name answer.headers then none else api.get name answer.headers)
    pub declared_within :
        content_length_exceeds api answer.headers client.max_response_body_bytes ≡ none
    pub same_body : read_frames response.body ≡ (
        if ltb client.max_response_body_bytes (length (arriving answer.body))
        then err (size_limit_kind "upstream response body")
        else read_unlimited "upstream response body" answer.body)

  relay-IsRelayOf :
      {Status Failure : Type 0} (idle : Duration)
      (answer : Message Status Map (List (Item Failure)))
      → content_length_exceeds api answer.headers client.max_response_body_bytes ≡ none
      → length (arriving answer.body) < u64_mod
      → IsRelayOf answer (relay urls api client idle answer)
  unfolding relay
  relay-IsRelayOf idle answer within small = record {
    same_line = refl;
    same_headers = λ name. get-sanitize api name answer.headers;
    declared_within = within;
    same_body =
        read-limit_body_stream client.max_response_body_bytes idle "upstream response body"
          answer.body small;
  }

  -- The answer of the backend to the one request that `forward` has sent, which `response` passes on.
  pub record IsExchange {Rest Status Failure : Type 0}
      (send : Message (RequestLine Uri Rest) Map (List (Frame Failure))
        → Answer (Message Status Map (List (Item Failure))))
      (backend : String) (request : Message (RequestLine Uri Rest) Map (List (Item Failure)))
      (client_addr : Option String) (body_timeout : Duration)
      (response : Message Status Map (List (Frame Failure))) : Type 0 where
    pub backend_url : Url
    pub valid_url : urls.parse backend ≡ ok backend_url
    pub upstream_uri : Uri
    pub valid_uri :
        build_upstream_uri urls api client backend_url request.line.uri ≡ ok upstream_uri
    pub answer : Message Status Map (List (Item Failure))
    pub was_answered :
        send (
          upstream_request urls api client backend_url upstream_uri client_addr body_timeout
            request)
        ≡ answered answer
    pub relayed : IsRelayOf answer response

  receive-ok :
      {Status Failure : Type 0} (connect idle : Duration)
      (reply : Answer (Message Status Map (List (Item Failure))))
      (response : Message Status Map (List (Frame Failure)))
      → ((a : Message Status Map (List (Item Failure)))
          → reply ≡ answered a
          → length (arriving a.body) < u64_mod)
      → receive urls api client connect idle reply ≡ ok response
      → (answer : Message Status Map (List (Item Failure))) × (reply ≡ answered answer)
        × IsRelayOf answer response
  unfolding receive
  receive-ok connect idle elapsed response small h = absurd (ground arith)
  receive-ok connect idle (refused e) response small h = absurd (ground arith)
  receive-ok connect idle (answered answer) response small h =
      elim (Option-cases
        (content_length_exceeds api answer.headers client.max_response_body_bytes)) [
          | inl e ↦
              let same : relay urls api client idle answer ≡ response = ground arith in
              (
                answer,
                refl,
                subst (λ r. IsRelayOf answer r) same
                    (relay-IsRelayOf idle answer e (small answer refl)),
              )
          | inr (n, e) ↦ absurd (ground arith)
        ]

  -- When forwarding succeeds and no answer of the HTTP client has 2^64 bytes or more, the
  -- backend URL and the upstream URI are valid, the backend answered the request that the code
  -- builds from them, and the response passes the answer on: its status and version unchanged,
  -- its headers but those of one connection, a declared length within the limit, and its body up
  -- to the limit.
  pub forward-ok :
      {Rest Status Failure : Type 0}
      (send : Message (RequestLine Uri Rest) Map (List (Frame Failure))
        → Answer (Message Status Map (List (Item Failure))))
      (backend : String) (request : Message (RequestLine Uri Rest) Map (List (Item Failure)))
      (client_addr : Option String) (connect idle body_timeout : Duration)
      (response : Message Status Map (List (Frame Failure)))
      → ((sent : Message (RequestLine Uri Rest) Map (List (Frame Failure)))
            (a : Message Status Map (List (Item Failure)))
          → send sent ≡ answered a
          → length (arriving a.body) < u64_mod)
      → forward urls api client send backend request client_addr connect idle body_timeout
        ≡ ok response
      → IsExchange send backend request client_addr body_timeout response
  unfolding forward
  forward-ok send backend request client_addr connect idle body_timeout response small h =
      elim (Result-cases (urls.parse backend)) [
        | inr (e, bad) ↦ absurd (ground arith)
        | inl (url, good) ↦
            elim (Result-cases (build_upstream_uri urls api client url request.line.uri)) [
              | inr (e, bad) ↦ absurd (ground arith)
              | inl (uri, fine) ↦
                  let (answer, was, relayed) =
                    receive-ok connect idle
                      (send
                        (upstream_request urls api client url uri client_addr body_timeout request))
                      response
                      (small
                        (upstream_request urls api client url uri client_addr body_timeout request))
                      (ground arith) in
                  record {
                    backend_url = url;
                    valid_url = good;
                    upstream_uri = uri;
                    valid_uri = fine;
                    answer = answer;
                    was_answered = was;
                    relayed = relayed;
                  }
            ]
      ]
