-- ===== src/Upstream/Forward.antt =====
-- `UpstreamClient::forward` of src/upstream/mod.rs. What the crate `url` and the HTTP client answer
-- are parameters.
use ferrum_proxy.Common.{
  ℕ, String, Option, none, some, List, Result, ok, err, ◌>>=◌, map_err, Duration,
}
use ferrum_proxy.Config.{UpstreamConfig}
use ferrum_proxy.Upstream.Error.{
  ClientError, UpstreamError, invalid_backend_url, invalid_uri, connect_timeout, response_too_large,
  classify_request_error,
}
use ferrum_proxy.Upstream.Headers.{
  HeaderApi, Authority, apply_forwarding_headers, sanitize_hop_by_hop_headers,
  content_length_exceeds,
}
use ferrum_proxy.Upstream.Body.{Item, Frame, limit_body_stream}

-- A request or a response: `line` is its method, URI and version, or its status and version.
pub record Message (Line Map Body : Type 0) : Type 0 where
  pub line : Line
  pub headers : Map
  pub body : Body

-- `client.request` under `timeout(connect_timeout, ..)`
pub data Answer (A : Type 0) : Type 0 where
  elapsed : Answer A
  refused : ClientError → Answer A
  answered : A → Answer A

-- What the code asks of `url::Url` and `http::Uri`.
pub record Urls (Url Uri : Type 0) : Type 0 where
  pub parse : String → Result String Url
  pub path : Uri → String
  pub query : Uri → Option String
  pub set_path : String → Url → Url
  pub set_query : Option String → Url → Url
  pub to_uri : Url → Result String Uri
  pub authority : Url → Authority

pub record UpstreamClient : Type 0 where
  pub max_request_body_bytes : ℕ
  pub max_response_body_bytes : ℕ

-- The method, URI and version of a request.
pub record RequestLine (Uri Rest : Type 0) : Type 0 where
  pub method_version : Rest
  pub uri : Uri

module _ {Url Uri Map Value : Type 0} (urls : Urls Url Uri) (api : HeaderApi Map Value)
    (client : UpstreamClient) where
  open urls use {parse, path, query, set_path, set_query, to_uri, authority}

  unfoldable pub build_upstream_uri : Url → Uri → Result UpstreamError Uri
  build_upstream_uri backend request_uri =
      map_err invalid_uri
        (to_uri (set_query (query request_uri) (set_path (path request_uri) backend)))

  -- The request that is sent for `request`.
  unfoldable pub upstream_request :
      {Rest Failure : Type 0}
      → Url
      → Uri
      → Option String
      → Duration
      → Message (RequestLine Uri Rest) Map (List (Item Failure))
      → Message (RequestLine Uri Rest) Map (List (Frame Failure))
  upstream_request backend_url upstream_uri client_addr client_body_timeout request = record {
    line = record { method_version = request.line.method_version; uri = upstream_uri };
    headers =
        apply_forwarding_headers api (authority backend_url) client_addr
          (sanitize_hop_by_hop_headers api request.headers);
    body =
        limit_body_stream client.max_request_body_bytes client_body_timeout "client request body"
          request.body;
  }

  unfoldable pub relay :
      {Status Failure : Type 0}
      → Duration
      → Message Status Map (List (Item Failure))
      → Message Status Map (List (Frame Failure))
  relay read_timeout response = record {
    line = response.line;
    headers = sanitize_hop_by_hop_headers api response.headers;
    body =
        limit_body_stream client.max_response_body_bytes read_timeout "upstream response body"
          response.body;
  }

  -- What becomes of the client's answer.
  unfoldable pub receive :
      {Status Failure : Type 0}
      → Duration
      → Duration
      → Answer (Message Status Map (List (Item Failure)))
      → Result UpstreamError (Message Status Map (List (Frame Failure)))
  unfolding relay
  receive connect read_timeout elapsed = err (connect_timeout connect)
  receive connect read_timeout (refused e) = err (classify_request_error e)
  receive connect read_timeout (answered response) =
      elim (content_length_exceeds api response.headers client.max_response_body_bytes) [
        | some content_length ↦
            err (response_too_large client.max_response_body_bytes content_length)
        | none ↦ ok (relay read_timeout response)
      ]

  -- `send` is the HTTP client.
  unfoldable pub forward :
      {Rest Status Failure : Type 0}
      → (Message (RequestLine Uri Rest) Map (List (Frame Failure))
          → Answer (Message Status Map (List (Item Failure))))
      → String
      → Message (RequestLine Uri Rest) Map (List (Item Failure))
      → Option String
      → (connect read_timeout client_body_timeout : Duration)
      → Result UpstreamError (Message Status Map (List (Frame Failure)))
  unfolding build_upstream_uri upstream_request receive
  forward send backend request client_addr connect read_timeout client_body_timeout = do
    backend_url ← map_err invalid_backend_url (parse backend)
    upstream_uri ← build_upstream_uri backend_url request.line.uri
    receive connect read_timeout
        (send (upstream_request backend_url upstream_uri client_addr client_body_timeout request))

-- `UpstreamClient::new`, without its pool of connections
abbrev pub new_client : UpstreamConfig → UpstreamClient
new_client config = record {
  max_request_body_bytes = config.max_request_body_bytes;
  max_response_body_bytes = config.max_response_body_bytes;
}
