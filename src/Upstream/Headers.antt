-- ===== src/Upstream/Headers.antt =====
-- The header work of src/upstream/mod.rs.
use ferrum_proxy.Common.{
  ℕ, String, ◌≡◌, Option, none, some, List, [], ◌∷◌, if◌then◌else◌, ◌==◌, string_eq, insert, ltb,
  ◌⧺◌, show, split, trim, to_ascii_lowercase, contains_char, parse_u64,
}

-- What the code asks of `http::HeaderMap`, `HeaderName` and `HeaderValue`. A name is lower case.
pub record HeaderApi (Map Value : Type 0) : Type 0 where
  pub get : String → Map → Option Value
  pub remove : String → Map → Map
  pub set : String → Value → Map → Map
  pub to_str : Value → Option String
  pub from_str : String → Option Value
  pub from_static : String → Value
  pub name_from_bytes : String → Option String
  pub get-remove :
      (name other : String) (m : Map)
      → get other (remove name m) ≡ (if name == other then none else get other m)
  pub get-set :
      (name other : String) (v : Value) (m : Map)
      → get other (set name v m) ≡ (if name == other then some v else get other m)

-- The names that `strip_names` begins with.
abbrev pub hop_by_hop : List String
hop_by_hop =
    "connection" ∷ "keep-alive" ∷ "proxy-authenticate" ∷ "proxy-authorization" ∷ "te" ∷ "trailer"
    ∷ "transfer-encoding" ∷ "upgrade" ∷ "proxy-connection" ∷ []

-- `backend_url.host_str()` and `.port()`
pub record Authority : Type 0 where
  pub host : Option String
  pub port : Option ℕ

unfoldable pub backend_authority : Authority → Option String
backend_authority url = elim url.host [
  | none ↦ none
  | some host ↦ some (elim url.port [ none ↦ host | some port ↦ host ⧺ ":" ⧺ show port ])
]

unfoldable pub format_forwarded_for : String → String
format_forwarded_for value = if contains_char b':' value then "\"[" ⧺ value ⧺ "]\"" else value

module _ {Map Value : Type 0} (api : HeaderApi Map Value) where
  open api use {get, remove, set, to_str, from_str, from_static, name_from_bytes}

  -- The name that one token of the `Connection` header adds to the set.
  unfoldable pub add_token : String → List String → List String
  add_token token names = elim (name_from_bytes (to_ascii_lowercase (trim token))) [
    | none ↦ names
    | some name ↦ insert name names
  ]

  unfoldable pub add_tokens : List String → List String → List String
  unfolding add_token
  add_tokens [] names = names
  add_tokens (token ∷ rest) names = add_tokens rest (add_token token names)

  -- The set `strip_names`
  unfoldable pub strip_names : Map → List String
  unfolding add_tokens
  strip_names headers = elim (get "connection" headers) [
    | none ↦ hop_by_hop
    | some value ↦ elim (to_str value) [
      | none ↦ hop_by_hop
      | some text ↦ add_tokens (split b',' text) hop_by_hop
    ]
  ]

  unfoldable pub remove_all : List String → Map → Map
  remove_all [] headers = headers
  remove_all (name ∷ rest) headers = remove_all rest (remove name headers)

  unfoldable pub sanitize_hop_by_hop_headers : Map → Map
  unfolding strip_names remove_all
  sanitize_hop_by_hop_headers headers = remove_all (strip_names headers) headers

  -- `if let Ok(value) = HeaderValue::from_str(text) { headers.insert(name, value); }`
  unfoldable pub set_text : String → String → Map → Map
  set_text name text headers = elim (from_str text) [
    | none ↦ headers
    | some value ↦ set name value headers
  ]

  abbrev pub set_host : Option String → Map → Map
  set_host none headers = headers
  set_host (some authority) headers = set_text "host" authority headers

  abbrev pub set_client : Option String → Map → Map
  set_client none headers = headers
  set_client (some client_ip) headers =
      set_text "forwarded" ("for=" ⧺ format_forwarded_for client_ip ⧺ ";proto=http") (
        set "x-forwarded-proto" (from_static "http") (set_text "x-forwarded-for" client_ip headers))

  -- `client_addr` is the text of the client's address.
  unfoldable pub apply_forwarding_headers : Authority → Option String → Map → Map
  unfolding set_text backend_authority
  apply_forwarding_headers backend_url client_addr headers = set_client client_addr (
      set_host (backend_authority backend_url) (
        remove "forwarded"
          (remove "x-forwarded-proto" (remove "x-forwarded-for" (remove "host" headers)))))

  abbrev keep_above : ℕ → Option ℕ → Option ℕ
  keep_above limit none = none
  keep_above limit (some n) = if ltb limit n then some n else none

  abbrev parse_value : Option String → Option ℕ
  parse_value none = none
  parse_value (some text) = parse_u64 text

  abbrev text_of : Option Value → Option String
  text_of none = none
  text_of (some value) = to_str value

  unfoldable pub content_length_exceeds : Map → ℕ → Option ℕ
  content_length_exceeds headers limit =
      keep_above limit (parse_value (text_of (get "content-length" headers)))
