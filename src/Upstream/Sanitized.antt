-- ===== src/Upstream/Sanitized.antt =====
-- What src/upstream/mod.rs leaves of a request's headers, name by name.
use ferrum_proxy.Common.{
  String, Bool, false, ◌||◌, inl, inr, ◌≡◌, refl, sym, ◌∙◌, ◌&&◌, Option, none, some, List, [], ◌∷◌,
  if◌then◌else◌, ◌==◌, string_eq, contains, contains-insert, any, ◌⧺◌, split, trim,
  to_ascii_lowercase, arith, Bool-cases, Option-cases,
}
use ferrum_proxy.Upstream.Headers.{
  HeaderApi, hop_by_hop, Authority, backend_authority, format_forwarded_for, add_token, add_tokens,
  strip_names, remove_all, sanitize_hop_by_hop_headers, set_text, set_host, set_client,
  apply_forwarding_headers,
}

apart : (a b name : String) → (a == b) ≡ false → ((a == name) && (b == name)) ≡ false
apart a b name h = elim (Bool-cases (a == name)) [
  | inl e ↦ elim (Bool-cases (b == name)) [
    | inl f ↦
        let x =
          (string_eq.decides a b).1
            ((string_eq.decides a name).0 e ∙ sym ((string_eq.decides b name).0 f)) in
        ground arith
    | inr f ↦ ground arith
  ]
  | inr e ↦ ground arith
]

module _ {Map Value : Type 0} (api : HeaderApi Map Value) where
  open api use {
    get, remove, set, to_str, from_str, from_static, name_from_bytes, get-remove, get-set,
  }

  -- A token of the `Connection` header stands for the name.
  abbrev pub means : String → String → Bool
  means name token = elim (name_from_bytes (to_ascii_lowercase (trim token))) [
    | none ↦ false
    | some named ↦ named == name
  ]

  -- The tokens of the `Connection` header.
  abbrev pub connection_tokens : Map → List String
  connection_tokens headers = elim (get "connection" headers) [
    | none ↦ []
    | some value ↦ elim (to_str value) [ none ↦ [] | some text ↦ split b',' text ]
  ]

  -- The name belongs to one connection only.
  abbrev pub belongs_to_hop : String → Map → Bool
  belongs_to_hop name headers =
      any (λ token. means name token) (connection_tokens headers) || contains hop_by_hop name

  contains-add_token :
      (name token : String) (names : List String)
      → contains (add_token api token names) name ≡ (means name token || contains names name)
  unfolding add_token
  contains-add_token name token names =
      elim (Option-cases (name_from_bytes (to_ascii_lowercase (trim token)))) [
        | inl e ↦ ground arith
        | inr (named, e) ↦ let x = contains-insert named name names in ground arith
      ]

  contains-add_tokens :
      (name : String) (tokens names : List String)
      → contains (add_tokens api tokens names) name
        ≡ (any (λ token. means name token) tokens || contains names name)
  unfolding add_tokens
  contains-add_tokens name [] names = refl
  contains-add_tokens name (token ∷ rest) names =
      let x = contains-add_tokens name rest (add_token api token names) in
      let y = contains-add_token name token names in ground arith

  contains-strip_names :
      (name : String) (headers : Map)
      → contains (strip_names api headers) name ≡ belongs_to_hop name headers
  unfolding strip_names
  contains-strip_names name headers = elim (Option-cases (get "connection" headers)) [
    | inl e ↦ ground arith
    | inr (value, e) ↦ elim (Option-cases (to_str value)) [
      | inl f ↦ ground arith
      | inr (text, f) ↦
          let x = contains-add_tokens name (split b',' text) hop_by_hop in ground arith
    ]
  ]

  get-remove_all :
      (name : String) (names : List String) (headers : Map)
      → get name (remove_all api names headers)
        ≡ (if contains names name then none else get name headers)
  unfolding remove_all
  get-remove_all name [] headers = refl
  get-remove_all name (first ∷ rest) headers =
      let x = get-remove_all name rest (remove first headers) in
      let y = get-remove first name headers in ground arith

  -- After sanitizing, no header is left whose name is on the fixed list or among the tokens of
  -- the Connection header, and each other header keeps its value.
  pub get-sanitize :
      (name : String) (headers : Map)
      → get name (sanitize_hop_by_hop_headers api headers)
        ≡ (if belongs_to_hop name headers then none else get name headers)
  unfolding sanitize_hop_by_hop_headers
  get-sanitize name headers =
      let x = get-remove_all name (strip_names api headers) headers in
      let y = contains-strip_names name headers in ground arith

  get-set_text :
      (name text : String) (headers : Map) (other : String)
      → get other (set_text api name text headers) ≡ (
          if name == other
          then elim (from_str text) [ none ↦ get other headers | some value ↦ some value ]
          else get other headers)
  unfolding set_text
  get-set_text name text headers other = elim (Option-cases (from_str text)) [
    | inl e ↦ ground arith
    | inr (value, e) ↦ let x = get-set name other value headers in ground arith
  ]

  abbrev cleared : Map → Map
  cleared headers =
      remove "forwarded"
        (remove "x-forwarded-proto" (remove "x-forwarded-for" (remove "host" headers)))

  get-cleared :
      (headers : Map) (other : String)
      → get other (cleared headers) ≡ (
          if "host" == other
          then none
          else if "x-forwarded-for" == other
          then none
          else if "x-forwarded-proto" == other
          then none
          else if "forwarded" == other
          then none
          else get other headers)
  get-cleared headers other =
      let a = get-remove "host" other headers in
      let h = remove "host" headers in
      let b = get-remove "x-forwarded-for" other h in
      let i = remove "x-forwarded-for" h in
      let c = get-remove "x-forwarded-proto" other i in
      let d = get-remove "forwarded" other (remove "x-forwarded-proto" i) in ground arith

  get-set_host :
      (authority : Option String) (headers : Map) (other : String)
      → get other (set_host api authority headers) ≡ (
          if "host" == other
          then elim authority [
            | none ↦ get other headers
            | some text ↦ elim (from_str text) [
              | none ↦ get other headers
              | some value ↦ some value
            ]
          ]
          else get other headers)
  get-set_host none headers other = ground arith
  get-set_host (some text) headers other = get-set_text "host" text headers other

  get-set_client :
      (ip : String) (headers : Map) (other : String)
      → get other (set_client api (some ip) headers) ≡ (
          if "forwarded" == other
          then elim (from_str ("for=" ⧺ format_forwarded_for ip ⧺ ";proto=http")) [
            | none ↦ get other headers
            | some value ↦ some value
          ]
          else if "x-forwarded-proto" == other
          then some (from_static "http")
          else if "x-forwarded-for" == other
          then elim (from_str ip) [ none ↦ get other headers | some value ↦ some value ]
          else get other headers)
  get-set_client ip headers other =
      let h = set_text api "x-forwarded-for" ip headers in
      let a = get-set_text "x-forwarded-for" ip headers other in
      let b = get-set "x-forwarded-proto" other (from_static "http") h in
      let c =
        get-set_text "forwarded" ("for=" ⧺ format_forwarded_for ip ⧺ ";proto=http")
          (set "x-forwarded-proto" (from_static "http") h) other in
      let t = apart "x-forwarded-for" "x-forwarded-proto" other refl in
      let u = apart "x-forwarded-for" "forwarded" other refl in
      let v = apart "x-forwarded-proto" "forwarded" other refl in ground arith

  -- What a backend finds under a name, with the client's address known or not.
  abbrev pub forwarded_value : Authority → Option String → String → Map → Option Value
  forwarded_value url client name headers =
      if "host" == name
      then elim (backend_authority url) [ none ↦ none | some text ↦ from_str text ]
      else if "x-forwarded-for" == name
      then elim client [ none ↦ none | some ip ↦ from_str ip ]
      else if "x-forwarded-proto" == name
      then elim client [ none ↦ none | some ip ↦ some (from_static "http") ]
      else if "forwarded" == name
      then elim client [
        | none ↦ none
        | some ip ↦ from_str ("for=" ⧺ format_forwarded_for ip ⧺ ";proto=http")
      ]
      else get name headers

  -- The host and the three forwarding headers that a backend gets are those of the proxy,
  -- whatever the client sent under these names, and each other header keeps its value.
  pub get-apply_forwarding_headers :
      (url : Authority) (client : Option String) (headers : Map) (name : String)
      → get name (apply_forwarding_headers api url client headers)
        ≡ forwarded_value url client name headers
  unfolding apply_forwarding_headers set_text
  get-apply_forwarding_headers url none headers name =
      let a = get-cleared headers name in
      let b = get-set_host (backend_authority url) (cleared headers) name in
      let p = apart "host" "x-forwarded-for" name refl in
      let q = apart "host" "x-forwarded-proto" name refl in
      let r = apart "host" "forwarded" name refl in
      elim (Option-cases (backend_authority url)) [
        | inl e ↦ ground arith
        | inr (text, e) ↦ ground arith
      ]
  get-apply_forwarding_headers url (some ip) headers name =
      let a = get-cleared headers name in
      let b = get-set_host (backend_authority url) (cleared headers) name in
      let c = get-set_client ip (set_host api (backend_authority url) (cleared headers)) name in
      let p = apart "host" "x-forwarded-for" name refl in
      let q = apart "host" "x-forwarded-proto" name refl in
      let r = apart "host" "forwarded" name refl in
      let t = apart "x-forwarded-for" "x-forwarded-proto" name refl in
      let u = apart "x-forwarded-for" "forwarded" name refl in
      let v = apart "x-forwarded-proto" "forwarded" name refl in
      elim (Option-cases (backend_authority url)) [
        | inl e ↦ ground arith
        | inr (text, e) ↦ ground arith
      ]
