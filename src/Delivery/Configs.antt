-- ===== src/Delivery/Configs.antt =====
-- internal/daemon/connectors.go: the configuration of connectors, and the tests of one. The file system
-- and the parsers of addresses and URLs are parameters.
use agent_comms.Base.{
  ℕ, ◌+◌, String, Bool, not, ◌&&◌, ◌||◌, ◌==◌, Option, none, some, List, [], ◌∷◌, ltb, length, any,
  if◌then◌else◌,
}
use Prim.Native.String.{len}
use text.Mathlib.Text.{starts_with}
use agent_comms.Base.Map.{Map, get}
use agent_comms.Base.Text.{trim_space, to_upper, contains, equal_fold}
use agent_comms.Model.State.{AgentRuntime}
use agent_comms.Protocol.Result.{Result, ok, err, ◌>>=◌, ◌>>◌, reject_if, found}
use agent_comms.Delivery.Attempts.{effective_runtime_kind}

pub record ConnectorConfig : Type 0 where
  pub typ : String
  pub executable : String
  pub arguments : List String
  pub working_directory : String
  pub environment : Map String
  pub endpoint : String
  pub headers : Map String
  pub timeout : ℕ

-- The parts of a URL that has been parsed.
pub record WebAddress : Type 0 where
  pub scheme : String
  pub host : String
  pub hostname : String
  pub has_user : Bool

-- What the host answers: whether a path is absolute, is a regular file that may be run and that
-- nobody else may write to, or is a directory; and the parsers of the net packages.
pub record Host : Type 0 where
  pub is_absolute : String → Bool
  pub executable_error : String → Option String
  pub is_directory : String → Bool
  pub parse_url : String → Option WebAddress
  pub is_loopback_address : String → Bool
  pub has_any : String → String → Bool

-- The dispatcher's own settings.
pub record Dispatcher : Type 0 where
  pub configs : Map ConnectorConfig
  pub project_root : String
  pub host_id : String

abbrev pub max_connector_args : ℕ
max_connector_args = 64

abbrev pub max_connector_arg_bytes : ℕ
max_connector_arg_bytes = 4_096

abbrev pub max_connector_headers : ℕ
max_connector_headers = 32

abbrev pub max_connector_header_bytes : ℕ
max_connector_header_bytes = 8_192

unfoldable pub is_loopback_host : Host → String → Bool
unfolding equal_fold
is_loopback_host host name = equal_fold name "localhost" || host.is_loopback_address name

unfoldable pub bad_header : Host → String × String → Bool
unfolding trim_space equal_fold
bad_header host (key, value) =
    trim_space key == ""
    || host.has_any key "\r\n:"
    || host.has_any value "\r\n"
    || equal_fold key "Host"
    || equal_fold key "Content-Length"

abbrev pub header_bytes : Map String → ℕ
header_bytes [] = 0
header_bytes ((key, value) ∷ rest) = len key + len value + header_bytes rest

unfoldable pub validate_webhook_config : Host → ConnectorConfig → Result (Unit {0})
unfolding is_loopback_host bad_header any
validate_webhook_config host config = do
  address ← found (host.parse_url config.endpoint) "webhook endpoint is invalid"
  reject_if (address.host == "" || address.has_user) "webhook endpoint is invalid"
  reject_if
      (not (address.scheme == "https")
        && not (address.scheme == "http" && is_loopback_host host address.hostname))
      "webhook endpoint must use HTTPS or loopback HTTP"
  reject_if (ltb max_connector_headers (length config.headers)) "too many webhook headers"
  reject_if (any (bad_header host) config.headers) "webhook header is invalid"
  reject_if (ltb max_connector_header_bytes (header_bytes config.headers))
      "webhook headers exceed the size limit"

unfoldable pub reserved_key : String × String → Bool
unfolding trim_space contains
reserved_key (key, value) =
    trim_space key == "" || contains key "=" || starts_with key "AGENT_COMMS_"

abbrev pub check_executable : Option String → Result (Unit {0})
check_executable none = ok tt
check_executable (some message) = err message

unfoldable pub validate_process_config : Host → ConnectorConfig → Result (Unit {0})
unfolding reserved_key any
validate_process_config host config = do
  reject_if (not (host.is_absolute config.executable)) "executable must be an absolute path"
  check_executable (host.executable_error config.executable)
  reject_if
      (not (config.working_directory == "") && not (host.is_absolute config.working_directory))
      "working directory must be absolute"
  reject_if
      (not (config.working_directory == "") && not (host.is_directory config.working_directory))
      "working directory must be an existing directory"
  reject_if (ltb max_connector_args (length config.arguments)) "too many arguments"
  reject_if (any (λ a. ltb max_connector_arg_bytes (len a)) config.arguments)
      "argument exceeds the size limit"
  reject_if (any reserved_key config.environment) "environment key is reserved or invalid"

unfoldable pub validate_by_type : Host → ConnectorConfig → Result (Unit {0})
unfolding validate_webhook_config validate_process_config
validate_by_type host config =
    if config.typ == "WEBHOOK"
    then validate_webhook_config host config
    else if not (config.typ == "LOCAL_PROCESS")
    then ok tt
    else validate_process_config host config

-- validateConnectorConfig
unfoldable pub validate_connector_config : Host → String → ConnectorConfig → Result (Unit {0})
unfolding trim_space validate_by_type
validate_connector_config host reference config = do
  reject_if (trim_space reference == "") "connector configuration reference is required"
  reject_if
      (not (config.typ == "MANUAL")
        && not (config.typ == "MCP")
        && not (config.typ == "LOCAL_PROCESS")
        && not (config.typ == "WEBHOOK"))
      "type must be MANUAL, MCP, LOCAL_PROCESS, or WEBHOOK"
  validate_by_type host config

abbrev pub interactive_config : ConnectorConfig
interactive_config = record {
  typ = "INTERACTIVE";
  executable = "";
  arguments = [];
  working_directory = "";
  environment = [];
  endpoint = "";
  headers = [];
  timeout = 30_000_000_000;
}

-- ValidateRuntime, on the configurations that were loaded last
unfoldable pub validate_runtime : Host → Dispatcher → String → String → String → Result (Unit {0})
unfolding trim_space to_upper get validate_connector_config
validate_runtime host d connector reference host_id =
    let named = to_upper (trim_space connector) in
    if named == "INTERACTIVE"
    then reject_if (d.host_id == "" || not (host_id == d.host_id))
        "interactive runtime host ID does not match this local daemon"
    else if not (named == "LOCAL_PROCESS") && not (named == "WEBHOOK")
    then ok tt
    else (do
      config ←
          found (get reference d.configs)
            "connector configuration reference is not available on this host"
      reject_if (not (config.typ == named)) "connector configuration has another type"
      validate_connector_config host reference config)

-- configForRuntime, on the configurations that were loaded last
unfoldable pub config_for_runtime : Host → Dispatcher → AgentRuntime → Result ConnectorConfig
unfolding effective_runtime_kind get validate_connector_config
config_for_runtime host d runtime =
    if effective_runtime_kind runtime == "INTERACTIVE"
    then (do
      reject_if
          (not (runtime.connector == "INTERACTIVE")
            || not (runtime.status == "ONLINE")
            || runtime.host_id == ""
            || not (runtime.host_id == d.host_id)
            || d.project_root == "")
          "interactive runtime is not available on this host"
      ok interactive_config)
    else (do
      reject_if
          (runtime.connector == "MANUAL"
            || runtime.connector == "MCP"
            || runtime.connector == "QUEUE")
          "runtime does not support notification delivery"
      reject_if (runtime.config_reference == "")
          "runtime connector configuration reference is missing"
      config ←
          found (get runtime.config_reference d.configs)
            "runtime connector configuration is unavailable or mismatched"
      reject_if (not (config.typ == runtime.connector))
          "runtime connector configuration is unavailable or mismatched"
      validate_connector_config host runtime.config_reference config
      ok config)
