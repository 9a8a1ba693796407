-- ===== src/Bench/BackendArgs.antt =====
-- The command line of src/bin/benchmark_backend.rs. `StatusCode::from_u16` is the `http` crate's:
-- `is_status` says which numbers it takes.
use ferrum_proxy.Common.{
  ℕ, String, Bool, ◌||◌, Option, none, some, List, [], ◌∷◌, ◌==◌, string_eq, if◌then◌else◌, ◌⧺◌,
  show, Result, ok, err, ◌>>=◌, map_err, parse_uint, u64_mod,
}

-- 2 ^ 16
abbrev pub u16_mod : ℕ
u16_mod = 0x1_0000

pub record BackendConfig : Type 0 where
  pub name : String
  pub port : ℕ
  pub status : ℕ
  pub failure_status : ℕ
  pub fail_every : ℕ
  pub delay_ms : ℕ
  pub response_body_bytes : ℕ
  pub health_status : ℕ

-- The variables of `parse_args` before its loop is done.
pub record Given : Type 0 where
  pub port : Option ℕ
  pub name : String
  pub status : ℕ
  pub failure_status : ℕ
  pub fail_every : ℕ
  pub delay_ms : ℕ
  pub response_body_bytes : ℕ
  pub health_status : ℕ

abbrev pub nothing_given : Given
nothing_given = record {
  port = none;
  name = "benchmark-backend";
  status = 200;
  failure_status = 503;
  fail_every = 0;
  delay_ms = 0;
  response_body_bytes = 128;
  health_status = 200;
}

abbrev pub backend_usage : String
backend_usage =
    "usage: benchmark_backend --port <port> [--name <name>] [--status <code>] [--failure-status <code>] [--fail-every <n>] [--delay-ms <ms>] [--response-body-bytes <n>] [--health-status <code>]"

-- `value.ok_or_else(..)`
abbrev pub required : Option String → String → Result String String
required none flag = err ("missing value for " ⧺ flag)
required (some raw) flag = ok raw

-- `parse_value` at an unsigned type whose values are below `bound`
unfoldable pub parse_value : ℕ → Option String → String → Result String ℕ
parse_value bound value flag = do
  raw ← required value flag
  map_err (λ e. "invalid value for " ⧺ flag ⧺ ": " ⧺ e) (parse_uint bound raw)

module _ (is_status : ℕ → Bool) where
  unfoldable pub parse_status : Option String → String → Result String ℕ
  unfolding parse_value
  parse_status value flag = do
    number ← parse_value u16_mod value flag
    if is_status number
        then ok number
        else err ("invalid status code for " ⧺ flag ⧺ ": " ⧺ show number)

  -- One round of the loop: the flag `arg`, with what `args.next()` gives behind it.
  unfoldable pub set_flag : String → Option String → Given → Result String Given
  unfolding parse_status parse_value
  set_flag arg value g =
      if arg == "--port"
      then (do port ← parse_value u16_mod value "--port"; ok (record g { port = some port }))
      else if arg == "--name"
      then (do name ← required value "--name"; ok (record g { name = name }))
      else if arg == "--status"
      then (do status ← parse_status value "--status"; ok (record g { status = status }))
      else if arg == "--failure-status"
      then (do
        status ← parse_status value "--failure-status"
        ok (record g { failure_status = status }))
      else if arg == "--fail-every"
      then (do n ← parse_value u64_mod value "--fail-every"; ok (record g { fail_every = n }))
      else if arg == "--delay-ms"
      then (do n ← parse_value u64_mod value "--delay-ms"; ok (record g { delay_ms = n }))
      else if arg == "--response-body-bytes"
      then (do
        n ← parse_value u64_mod value "--response-body-bytes"
        ok (record g { response_body_bytes = n }))
      else if arg == "--health-status"
      then (do
        status ← parse_status value "--health-status"
        ok (record g { health_status = status }))
      else if arg == "--help" || arg == "-h"
      then err backend_usage
      else err ("unknown argument: " ⧺ arg ⧺ "\n\n" ⧺ backend_usage)

  -- The loop. Each flag that does not end it takes the argument behind it.
  unfoldable pub set_flags : List String → Given → Result String Given
  unfolding set_flag
  set_flags [] g = ok g
  set_flags (arg ∷ []) g = set_flag arg none g
  set_flags (arg ∷ value ∷ rest) g = do g' ← set_flag arg (some value) g; set_flags rest g'

  abbrev finish : Given → Result String BackendConfig
  finish g = elim g.port [
    | none ↦ err ("missing required --port\n\n" ⧺ backend_usage)
    | some port ↦ ok (record {
      name = g.name;
      port = port;
      status = g.status;
      failure_status = g.failure_status;
      fail_every = g.fail_every;
      delay_ms = g.delay_ms;
      response_body_bytes = g.response_body_bytes;
      health_status = g.health_status;
    })
  ]

  -- `parse_args`, on the arguments behind the program's name
  unfoldable pub parse_backend_args : List String → Result String BackendConfig
  unfolding set_flags
  parse_backend_args args = do g ← set_flags args nothing_given; finish g
