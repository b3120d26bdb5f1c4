-- ===== src/Gateway/Run.antt =====
-- From the start of cmd/gateway/main.go to its servers: which failures end the program. `serves` is that both servers
-- take requests; what comes after that is in Lifecycle.
use aquatiq_root.Common.{Text, Bool, true, false, Option, none, some, List, if◌then◌else◌}
use aquatiq_root.Config as Config
use aquatiq_root.Config.{Loaded}
use aquatiq_root.Gateway.Startup.{configured, rest_addr, grpc_addr, registered}

-- What the calls of main answer: NewAuditLogger, config.Load, docker.NewManager, whitelist.NewManager, net.Listen
-- and ListenAndServe for an address and NewServerTLSFromFile for a certificate and a key; none where there is no error.
pub record Answers : Type 0 where
  pub logger_error : Option Text
  pub configuration : Loaded
  pub docker_error : Option Text
  pub whitelist_error : Option Text
  pub listen_error : Text → Option Text
  pub tls_error : Text → Text → Option Text

-- What the two servers serve.
pub record Running : Type 0 where
  pub configuration : Config.Config
  pub rest_address : Text
  pub grpc_address : Text
  pub services : List Text
  pub is_encrypted : Bool

-- os.Exit(1), or the servers.
pub data Start : Type 0 where
  exits : Start
  serves : Running → Start

abbrev pub no_error : Option Text → Bool
no_error none = true
no_error (some e) = false

abbrev pub running : Answers → Config.Config → Bool → Running
running o cfg encrypted = record {
  configuration = cfg;
  rest_address = rest_addr cfg;
  grpc_address = grpc_addr cfg;
  services = registered (no_error o.docker_error) (no_error o.whitelist_error);
  is_encrypted = encrypted;
}

-- The credentials of the gRPC server.
unfoldable pub with_credentials : Answers → Config.Config → Start
with_credentials o cfg =
    if cfg.grpc.tls.enabled
    then (if no_error (o.tls_error cfg.grpc.tls.cert_file cfg.grpc.tls.key_file)
        then serves (running o cfg true)
        else exits)
    else serves (running o cfg false)

-- The gRPC server.
unfoldable pub listening : Answers → Config.Config → Start
listening o cfg =
    if no_error (o.listen_error (grpc_addr cfg)) then with_credentials o cfg else exits

-- The goroutine of the REST server, whose ListenAndServe exits where the address cannot be bound, beside the rest of
-- main: whichever of the two fails first, the program exits.
unfoldable pub with_rest : Answers → Config.Config → Start
with_rest o cfg = if no_error (o.listen_error (rest_addr cfg)) then listening o cfg else exits

unfoldable pub run : Answers → Start
run o = if no_error o.logger_error then with_rest o (configured o.configuration) else exits
