-- ===== src/Tokens.antt =====
-- pkg/tokens: where the client gets its ID token from.
pub mod Minted
use zipstash.Base.{
  ℕ, ◌*◌, List, [], ◌∷◌, ◌++◌, take, length, leb, ◌==◌, if◌then◌else◌, Option, none, some, Text,
  codes, text_eq, Result, ok, err, crash, panic, Err, message, wrap, Io, pure, reads, on_error,
  ◌>>=◌, map_err,
}
use zipstash.GoStd.Words.{trim_space}

pub record CommandResult : Type 0 where
  pub stdout : Text
  pub stderr : Text
  pub exit_code : ℕ

-- cmd.Run: no error, an *exec.ExitError, or another error
pub data Exit : Type 0 where
  succeeded : Exit
  exit_error : ℕ → Exit
  not_run : Err → Exit

pub record Execution : Type 0 where
  pub exit : Exit
  pub stdout : Text
  pub stderr : Text

-- The bytes of a response, and the error that ends them.
pub record Body : Type 0 where
  pub bytes : Text
  pub failure : Option Err

pub record Response : Type 0 where
  pub status_code : ℕ
  pub body : Body

-- The environment, processes, net/url and net/http. `set_query` is `q.Set` on the query of a URL, and
-- `do_get` sends a GET with the header Authorization. `value_of_json` is the field `value` of an object.
pub record System : Type 1 where
  pub World : Type 0
  pub Url : Type 0
  pub getenv : Text → World → Text
  pub exec : Text → List Text → World → Execution × World
  pub parse_url : Text → Result Url
  pub set_query : Url → Text → Text → Url
  pub url_string : Url → Text
  pub new_request : Text → Result (Unit {0})
  pub do_get : Text → Text → Io World Response
  pub value_of_json : Text → Result Text

abbrev pub max_body_size : ℕ
max_body_size = 65536

-- io.ReadAll(io.LimitReader(body, limit)): what follows the limit is not read.
unfoldable pub read_limited : ℕ → Body → Result Text
read_limited limit body =
    if leb limit (length body.bytes)
    then ok (take limit body.bytes)
    else elim body.failure [ none ↦ ok body.bytes | some e ↦ err e ]

unfoldable pub command_result : Execution → Exit → Result CommandResult
command_result x succeeded = ok (record { stdout = x.stdout; stderr = x.stderr; exit_code = 0 })
command_result x (exit_error code) =
    ok (record { stdout = x.stdout; stderr = x.stderr; exit_code = code })
command_result x (not_run e) = err e

abbrev pub request_url_name : Text
request_url_name = codes "ACTIONS_ID_TOKEN_REQUEST_URL"

abbrev pub request_token_name : Text
request_token_name = codes "ACTIONS_ID_TOKEN_REQUEST_TOKEN"

-- os.Getenv, and an error for the empty text
unfoldable pub required : Err → Text → Result Text
required missing [] = err missing
required missing (c ∷ value) = ok (c ∷ value)

abbrev pub agent_command : Text → List Text
agent_command audience =
    codes "buildkite-agent"
    ∷ codes "oidc"
    ∷ codes "request-token"
    ∷ codes "--audience"
    ∷ audience
    ∷ codes "--claim"
    ∷ codes "organization_id"
    ∷ []

module _ (s : System) where
  -- No arguments at all are an index out of range.
  unfoldable pub run_command : Text → List Text → Io s.World CommandResult
  run_command working_dir [] w = (crash panic, w)
  run_command working_dir (name ∷ args) w =
      let (x, w') = s.exec working_dir (name ∷ args) w in (command_result x x.exit, w')

  -- `buildkite.getIDToken`
  unfoldable pub buildkite_token : Text → Io s.World Text
  buildkite_token audience = do
    result ← on_error (wrap "failed to get OIDC token") (run_command [] (agent_command audience))
    reads λ _.
        if result.exit_code == 0
        then ok (trim_space result.stdout)
        else err (message "error getting OIDC token")

  unfoldable pub with_audience : s.Url → Text → s.Url
  with_audience u [] = u
  with_audience u (c ∷ audience) = s.set_query u (codes "audience") (c ∷ audience)

  unfoldable pub token_of : Response → Text → Result Text
  token_of resp body =
      if resp.status_code == 200
      then map_err (wrap "failed to process response as JSON") (s.value_of_json body)
      else err (message "non-successful response from minting OIDC token")

  -- `gitHubActions.getIDToken`
  unfoldable pub github_token : Text → Io s.World Text
  github_token audience = do
    request_url ← reads (λ w.
        required (message "missing ACTIONS_ID_TOKEN_REQUEST_URL in environment")
          (s.getenv request_url_name w))
    request_token ← reads (λ w.
        required (message "missing ACTIONS_ID_TOKEN_REQUEST_TOKEN in environment")
          (s.getenv request_token_name w))
    u ← on_error (wrap "failed to parse request URL") (reads (λ _. s.parse_url request_url))
    let url = s.url_string (with_audience u audience)
    _ ← on_error (wrap "failed to create HTTP request") (reads (λ _. s.new_request url))
    resp ←
        on_error (wrap "failed to make HTTP request")
          (s.do_get url (codes "Bearer " ++ request_token))
    body ←
        on_error (wrap "failed to read response body")
          (reads (λ _. read_limited max_body_size resp.body))
    reads (λ _. token_of resp (trim_space body))

  unfoldable pub local_token : Text → Io s.World Text
  local_token audience = pure (codes "abc123cde456")

  unfoldable pub get_token : Text → Text → Io s.World Text
  get_token source audience =
      if text_eq source (codes "github_actions")
      then github_token audience
      else if text_eq source (codes "buildkite")
      then buildkite_token audience
      else if text_eq source (codes "local")
      then local_token audience
      else λ w. (err (message "unknown token source"), w)
