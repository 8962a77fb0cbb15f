-- ===== src/RequestHandler/Config.antt =====
-- `set_config` and `inspect` of src/broker_config.hpp, over the nodes of a YAML library, which is
-- not part of the repository: a member of a node may be missing, and a scalar may not be of the
-- type that is asked for; both throw.
use zbroker.Base.{
  ℤ, ◌≡◌, ◌∷◌, ◌++◌, [], Text, codes, decimal_int, Result, ok, err, Result-cases, inl, inr,
}
use zbroker.RequestHandler.{BrokerConfig}

record Yaml : Type 1 where
  pub Node : Type 0
  pub member : Node → Text → Result Node
  pub text : Node → Result Text
  pub int : Node → Result ℤ

-- `>>` into a member of the configuration, and what follows it.
assign :
    {A : Type 0}
    → Result A
    → (A → BrokerConfig)
    → BrokerConfig
    → (BrokerConfig → BrokerConfig × Result (Unit {0}))
    → BrokerConfig × Result (Unit {0})
assign (err e) set c next = (c, err e)
assign (ok v) set c next = next (set v)

-- `inspect`, what it prints.
inspect : BrokerConfig → Text
inspect c =
    (codes "mongo_host:" ++ (c.mongo_host ++ b'\n' ∷ []))
    ++ ((codes "mongo_port:" ++ (decimal_int c.mongo_port ++ b'\n' ∷ []))
        ++ ((codes "broker_listen_ip:" ++ (c.broker_listen_ip ++ b'\n' ∷ []))
            ++ (codes "broker_listen_port:" ++ (decimal_int c.broker_listen_port ++ b'\n' ∷ []))))

module _ (yaml : Yaml) where
  open yaml use {Node, member, text, int}

  -- A scalar of a node.
  abbrev scalar : {A : Type 0} → (Node → Result A) → Node → Text → Result A
  scalar convert node key = elim (member node key) [ err e ↦ err e | ok n ↦ convert n ]

  -- The four scalars, in the order of the code.
  set_members : Node → Node → BrokerConfig → BrokerConfig × Result (Unit {0})
  unfolding assign
  set_members mongo broker c =
      assign (scalar text mongo (codes "host")) (λ v. record c { mongo_host = v }) c
        (λ c.
          assign (scalar int mongo (codes "port")) (λ v. record c { mongo_port = v }) c
            (λ c.
              assign (scalar text broker (codes "listen_ip"))
                (λ v. record c { broker_listen_ip = v }) c
                (λ c.
                  assign (scalar int broker (codes "listen_port"))
                    (λ v. record c { broker_listen_port = v }) c (λ c. (c, ok tt)))))

  set_config : Node → BrokerConfig → BrokerConfig × Result (Unit {0})
  unfolding set_members
  set_config node c = elim (member node (codes "mongo")) [
    | err e ↦ (c, err e)
    | ok mongo ↦ elim (member node (codes "broker")) [
      | err e ↦ (c, err e)
      | ok broker ↦ set_members mongo broker c
    ]
  ]

  -- A configuration as a document gives it.
  record IsConfigured (node : Node) (c : BrokerConfig) : Type 0 where
    pub mongo : Node
    pub broker : Node
    pub mongo_is : member node (codes "mongo") ≡ ok mongo
    pub broker_is : member node (codes "broker") ≡ ok broker
    pub mongo_host : scalar text mongo (codes "host") ≡ ok c.mongo_host
    pub mongo_port : scalar int mongo (codes "port") ≡ ok c.mongo_port
    pub broker_listen_ip : scalar text broker (codes "listen_ip") ≡ ok c.broker_listen_ip
    pub broker_listen_port : scalar int broker (codes "listen_port") ≡ ok c.broker_listen_port

  Configured : Node → BrokerConfig × Result (Unit {0}) → Type 0
  Configured node (c, ok _) = IsConfigured node c
  Configured node (c, err e) = Unit {0}

  set_members-Configured :
      (node mongo broker : Node) (c : BrokerConfig)
      → member node (codes "mongo") ≡ ok mongo
      → member node (codes "broker") ≡ ok broker
      → Configured node (set_members mongo broker c)
  unfolding set_members Configured
  set_members-Configured node mongo broker c m b =
      elim (Result-cases (scalar text mongo (codes "host"))) [
        | inr (x, h) ↦ rw (h, set_members) tt
        | inl (host, h) ↦ elim (Result-cases (scalar int mongo (codes "port"))) [
          | inr (x, p) ↦ simp (h, p, set_members) tt
          | inl (port, p) ↦ elim (Result-cases (scalar text broker (codes "listen_ip"))) [
            | inr (x, i) ↦ simp (h, p, i, set_members) tt
            | inl (ip, i) ↦ elim (Result-cases (scalar int broker (codes "listen_port"))) [
              | inr (x, l) ↦ simp (h, p, i, l, set_members) tt
              | inl (listen, l) ↦
                  simp (h, p, i, l, set_members)
                    (record {
                      mongo = mongo;
                      broker = broker;
                      mongo_is = m;
                      broker_is = b;
                      mongo_host = h;
                      mongo_port = p;
                      broker_listen_ip = i;
                      broker_listen_port = l;
                    })
            ]
          ]
        ]
      ]

  -- Where `set_config` does not throw, every member is what the document says, whatever it was
  -- before.
  set_config-Configured : (node : Node) (c : BrokerConfig) → Configured node (set_config node c)
  unfolding set_config Configured
  set_config-Configured node c = elim (Result-cases (member node (codes "mongo"))) [
    | inr (x, m) ↦ simp (m, set_config) tt
    | inl (mongo, m) ↦ elim (Result-cases (member node (codes "broker"))) [
      | inr (x, b) ↦ simp (m, b, set_config) tt
      | inl (broker, b) ↦ simp (m, b, set_config) (set_members-Configured node mongo broker c m b)
    ]
  ]
