-- ===== src/Gateway/Outcome.antt =====
-- When the gateway of cmd/gateway/main.go serves, and what it then serves.
use aquatiq_root.Common.{
  Text, lit, text_eq, ◌≡◌, ◌↔◌, ◌⊎◌, inl, inr, refl, ap, Bool, true, false, ◌||◌, Option, none,
  some, arith, Bool-cases, List, [], ◌∷◌, ◌++◌,
}
use aquatiq_root.Common.Int.{decimal_ℤ}
use aquatiq_root.Config as Config
use aquatiq_root.Config.{
  Loaded, loaded, failed_to_read, failed_to_unmarshal, invalid_configuration, get_server_addr,
}
use aquatiq_root.Gateway.Startup.{configured, get_default_config, grpc_addr, rest_addr, registered}
use aquatiq_root.Gateway.Run.{
  Answers, Running, Start, exits, serves, no_error, running, with_credentials, listening, with_rest,
  run,
}

-- The configuration that the gateway goes on with: the loaded one, and the default where loading failed.
abbrev pub Chosen : Loaded → Config.Config → Type 0
Chosen (loaded c) cfg = cfg ≡ c
Chosen _ cfg = cfg ≡ get_default_config

abbrev pub address : Config.Config → Text → Text
address cfg port = cfg.server.host ++ (lit ":" ++ port)

-- What has to be in place for the servers.
pub record IsReady (o : Answers) (cfg : Config.Config) : Type 0 where
  pub logger : o.logger_error ≡ none
  pub rest_port : o.listen_error (address cfg (decimal_ℤ cfg.server.port)) ≡ none
  pub grpc_port : o.listen_error (address cfg (decimal_ℤ cfg.server.grpc_port)) ≡ none
  pub certificate :
      (cfg.grpc.tls.enabled ≡ false)
      ⊎ (o.tls_error cfg.grpc.tls.cert_file cfg.grpc.tls.key_file ≡ none)

abbrev pub offers : Text → List Text → Bool
offers service [] = false
offers service (s ∷ rest) = text_eq service s || offers service rest

-- What is served: on which addresses, which services, and whether gRPC is encrypted.
pub record IsServed (o : Answers) (cfg : Config.Config) (r : Running) : Type 0 where
  pub configuration : r.configuration ≡ cfg
  pub rest_address : r.rest_address ≡ address cfg (decimal_ℤ cfg.server.port)
  pub grpc_address : r.grpc_address ≡ address cfg (decimal_ℤ cfg.server.grpc_port)
  pub health : offers (lit "health") r.services ≡ true
  pub database : offers (lit "database") r.services ≡ true
  pub docker : (offers (lit "docker") r.services ≡ true) ↔ (o.docker_error ≡ none)
  pub whitelist : (offers (lit "whitelist") r.services ≡ true) ↔ (o.whitelist_error ≡ none)
  pub is_encrypted : r.is_encrypted ≡ cfg.grpc.tls.enabled

no_error-none : (o : Option Text) → no_error o ≡ true → o ≡ none
no_error-none none h = refl
no_error-none (some e) h = cc h

configured-Chosen : (l : Loaded) → Chosen l (configured l)
unfolding configured
configured-Chosen (loaded c) = refl
configured-Chosen (failed_to_read e) = refl
configured-Chosen (failed_to_unmarshal e) = refl
configured-Chosen (invalid_configuration e) = refl

offers-docker :
    (d w : Option Text)
    → (offers (lit "docker") (registered (no_error d) (no_error w)) ≡ true) ↔ (d ≡ none)
unfolding registered lit text_eq
offers-docker none none = (λ h. refl, λ h. refl)
offers-docker none (some e) = (λ h. refl, λ h. refl)
offers-docker (some d) none = (λ h. cc h, λ h. cc h)
offers-docker (some d) (some e) = (λ h. cc h, λ h. cc h)

offers-whitelist :
    (d w : Option Text)
    → (offers (lit "whitelist") (registered (no_error d) (no_error w)) ≡ true) ↔ (w ≡ none)
unfolding registered lit text_eq
offers-whitelist none none = (λ h. refl, λ h. refl)
offers-whitelist none (some e) = (λ h. cc h, λ h. cc h)
offers-whitelist (some d) none = (λ h. refl, λ h. refl)
offers-whitelist (some d) (some e) = (λ h. cc h, λ h. cc h)

offers-always :
    (d w : Bool)
    → (offers (lit "health") (registered d w) ≡ true)
      × (offers (lit "database") (registered d w) ≡ true)
unfolding registered lit text_eq
offers-always true true = (refl, refl)
offers-always true false = (refl, refl)
offers-always false true = (refl, refl)
offers-always false false = (refl, refl)

running-IsServed :
    (o : Answers) (cfg : Config.Config) (encrypted : Bool)
    → cfg.grpc.tls.enabled ≡ encrypted
    → IsServed o cfg (running o cfg encrypted)
unfolding rest_addr grpc_addr get_server_addr
running-IsServed o cfg encrypted h = record {
  configuration = refl;
  rest_address = refl;
  grpc_address = refl;
  health = (offers-always _ _).0;
  database = (offers-always _ _).1;
  docker = offers-docker o.docker_error o.whitelist_error;
  whitelist = offers-whitelist o.docker_error o.whitelist_error;
  is_encrypted = cc h;
}

-- The program exits, and something that it needs is missing, or it has all and serves as described.
abbrev Decides : Answers → Config.Config → Start → Type 0
Decides o cfg start =
    ((start ≡ exits) × (¬ (IsReady o cfg)))
    ⊎ (IsReady o cfg × (r : Running) × (start ≡ serves r) × IsServed o cfg r)

credentials-Decides :
    (o : Answers) (cfg : Config.Config)
    → o.logger_error ≡ none
    → o.listen_error (address cfg (decimal_ℤ cfg.server.port)) ≡ none
    → o.listen_error (address cfg (decimal_ℤ cfg.server.grpc_port)) ≡ none
    → Decides o cfg (with_credentials o cfg)
unfolding with_credentials
credentials-Decides o cfg logged rest grpc = elim (Bool-cases cfg.grpc.tls.enabled) [
  | inr off ↦ inr (
    record { logger = logged; rest_port = rest; grpc_port = grpc; certificate = inl off },
    running o cfg false,
    ground (arith, off),
    running-IsServed o cfg false off,
  )
  | inl on ↦
      elim (Bool-cases (no_error (o.tls_error cfg.grpc.tls.cert_file cfg.grpc.tls.key_file))) [
        | inl fine ↦ inr (
          record {
            logger = logged;
            rest_port = rest;
            grpc_port = grpc;
            certificate = inr (no_error-none _ fine);
          },
          running o cfg true,
          ground (arith, on, fine),
          running-IsServed o cfg true on,
        )
        | inr bad ↦ inl (
          ground (arith, on, bad),
          λ ready. elim ready.certificate [
            | inl off ↦ cc (on, off)
            | inr fine ↦ cc (bad, ap no_error fine)
          ],
        )
      ]
]

-- The gateway serves where the audit logger is created, the REST and the gRPC address can be bound, and TLS is not
-- enabled or its files can be loaded, and else it exits; failures of the configuration, of Docker and of the whitelist
-- never stop it. It goes on with the loaded configuration, or the default one where loading failed, and serves on its
-- two addresses, the health and the database service always, that of Docker and that of the whitelist exactly where
-- their manager was created, and gRPC over TLS exactly where the configuration enables that.
pub run_decides :
    (o : Answers)
    → (cfg : Config.Config) × Chosen o.configuration cfg
      × (((run o ≡ exits) × (¬ (IsReady o cfg)))
          ⊎ (IsReady o cfg × (r : Running) × (run o ≡ serves r) × IsServed o cfg r))
unfolding run with_rest listening rest_addr grpc_addr get_server_addr
run_decides o =
    let cfg = configured o.configuration in
    (
      cfg,
      configured-Chosen o.configuration,
      elim (Bool-cases (no_error o.logger_error)) [
        | inr silent ↦ inl (rw silent refl, λ ready. cc (silent, ap no_error ready.logger))
        | inl logged ↦ elim (Bool-cases (no_error (o.listen_error (rest_addr cfg)))) [
          | inr taken ↦
              inl (rw (logged, taken) refl, λ ready. cc (taken, ap no_error ready.rest_port))
          | inl rest ↦ elim (Bool-cases (no_error (o.listen_error (grpc_addr cfg)))) [
            | inr taken ↦
                inl
                  (rw (logged, rest, taken) refl, λ ready. cc (taken, ap no_error ready.grpc_port))
            | inl grpc ↦
                rw (logged, rest, grpc)
                  (credentials-Decides o cfg (no_error-none _ logged) (no_error-none _ rest)
                    (no_error-none _ grpc))
          ]
        ]
      ],
    )
