-- ===== src/Main/Failure.antt =====
-- src/main.rs: what stops the program before the engine runs.
use rosetta_mq.Prelude.{
  ◌≡◌, refl, Option, sym, ◌∙◌, subst, inl, inr, none, some, Result, ok, err, map_err, >>=-eq-err,
  map_err-eq-ok, map_err-eq-err, Option-cases,
}
use rosetta_mq.Text.{codes}
use rosetta_mq.Util.{FilePath, parent_or}
use rosetta_mq.Decoder.Registry
use rosetta_mq.Auth
use rosetta_mq.Auth.{AuthConfig, AuthError, ResolvedAuth, none_auth}
use rosetta_mq.Config.{Config, ConfigError, load}
use rosetta_mq.Config.Parse.{load-IsReady}
use rosetta_mq.Client.{build_options}
use rosetta_mq.Client.Tls.{ClientInitError}
use rosetta_mq.Client.Driver.{subscribe_all}
use rosetta_mq.Main.{
  Platform, StartError, loading, resolving_auth, connecting, subscribing, add_mappings,
  resolve_auth, startup,
}
use rosetta_mq.Main.Startup.{Builder}
use rosetta_mq.Main.Faults.{IsLate, add_mappings-IsLate}
use rosetta_mq.Main.Ready.{topic_filters}

module _ (s : Platform) (config_path : FilePath) where
  -- The directory of the configuration.
  abbrev pub base_dir : FilePath
  base_dir = parent_or (codes ".") config_path

  abbrev pub IsLoaded : Config → Type 0
  IsLoaded config = load s.host s.toml s.read_to_string config_path ≡ ok config

  abbrev pub Built : Config → Result Builder (StartError s) → Type 0
  Built config result = add_mappings s base_dir config.decoders Registry.new config.topics ≡ result

  -- The stages of the start, each behind the success of those before it.
  pub data Failure : StartError s → Type 0 where
    not_loaded :
        {x : ConfigError s.host s.toml}
        → load s.host s.toml s.read_to_string config_path ≡ err x
        → Failure (loading x)
    not_built :
        {config : Config} {e : StartError s}
        → IsLoaded config
        → Built config (err e)
        → IsLate e
        → Failure e
    no_auth :
        {config : Config} {builder : Builder} {cfg : AuthConfig} {x : AuthError s.host}
        → IsLoaded config
        → Built config (ok builder)
        → config.connection.auth ≡ some cfg
        → Auth.build s.host cfg base_dir ≡ err x
        → Failure (resolving_auth x)
    not_connected :
        {config : Config} {builder : Builder} {auth : ResolvedAuth} {x : ClientInitError s.rustls}
        → IsLoaded config
        → Built config (ok builder)
        → resolve_auth s base_dir config.connection.auth ≡ ok auth
        → build_options s.rustls s.mqtt config.connection auth ≡ err x
        → Failure (connecting x)
    not_subscribed :
        {config : Config} {builder : Builder} {auth : ResolvedAuth} {options : s.mqtt.MqttOptions}
        {x : s.SubscribeError}
        → IsLoaded config
        → Built config (ok builder)
        → resolve_auth s base_dir config.connection.auth ≡ ok auth
        → build_options s.rustls s.mqtt config.connection auth ≡ ok options
        → (subscribe_all (s.subscribe options) (topic_filters config)).1 ≡ err x
        → Failure (subscribing x)

  resolve_auth-none :
      (auth : Option AuthConfig) → auth ≡ none → resolve_auth s base_dir auth ≡ ok none_auth
  unfolding resolve_auth
  resolve_auth-none auth e = rw e refl

  resolve_auth-some :
      (auth : Option AuthConfig) (cfg : AuthConfig)
      → auth ≡ some cfg
      → resolve_auth s base_dir auth ≡ map_err resolving_auth (Auth.build s.host cfg base_dir)
  unfolding resolve_auth
  resolve_auth-some auth cfg e = rw e refl

  auth-Failure :
      {config : Config} {builder : Builder} {e : StartError s}
      → IsLoaded config
      → Built config (ok builder)
      → resolve_auth s base_dir config.connection.auth ≡ err e
      → Failure e
  auth-Failure {config} p q h = elim (Option-cases config.connection.auth) [
    | inl missing ↦ cc (sym h, resolve_auth-none config.connection.auth missing)
    | inr (cfg, given) ↦
        let (x, f, same) =
          map_err-eq-err resolving_auth (Auth.build s.host cfg base_dir)
            (sym (resolve_auth-some config.connection.auth cfg given) ∙ h) in
        subst Failure (sym same) (no_auth p q given f)
  ]

  loaded-Failure :
      {config : Config} {e : StartError s} → IsLoaded config → Built config (err e) → Failure e
  loaded-Failure {config} {e} p h = not_built p h (
      add_mappings-IsLate s base_dir config.decoders Registry.new config.topics e
        (load-IsReady s.host s.toml s.read_to_string config_path config p).usable h)

  -- If the start fails, the error is that of the first of its stages that fails: the configuration, the
  -- decoders with their filters, the authentication, the connection, the subscriptions. At the second
  -- stage a decoder could not be built or a filter was registered twice.
  pub startup-Failure : (e : StartError s) → startup s config_path ≡ err e → Failure e
  unfolding startup
  startup-Failure e h =
      elim (>>=-eq-err (map_err loading (load s.host s.toml s.read_to_string config_path)) _ h) [
        | inl h1 ↦
            let (x, f, same) = map_err-eq-err loading _ h1 in
            subst Failure (sym same) (not_loaded f)
        | inr (config, p, h1) ↦
            elim (>>=-eq-err (add_mappings s base_dir config.decoders Registry.new config.topics) _
              h1) [
                | inl h2 ↦ loaded-Failure (map_err-eq-ok _ _ p) h2
                | inr (builder, q, h2) ↦
                    elim (>>=-eq-err (resolve_auth s base_dir config.connection.auth) _ h2) [
                      | inl h3 ↦ auth-Failure (map_err-eq-ok _ _ p) q h3
                      | inr (auth, r, h3) ↦
                          elim (>>=-eq-err
                            (map_err connecting
                              (build_options s.rustls s.mqtt config.connection auth))
                            _ h3) [
                              | inl h4 ↦
                                  let (x, f, same) = map_err-eq-err connecting _ h4 in
                                  subst Failure (sym same)
                                    (not_connected (map_err-eq-ok _ _ p) q r f)
                              | inr (options, o, h4) ↦
                                  elim (>>=-eq-err
                                    (map_err subscribing
                                      (subscribe_all (s.subscribe options)
                                        (topic_filters config)).1)
                                    _ h4) [
                                      | inl h5 ↦
                                          let (x, f, same) = map_err-eq-err subscribing _ h5 in
                                          subst Failure (sym same) (
                                            not_subscribed (map_err-eq-ok _ _ p) q r
                                              (map_err-eq-ok _ _ o) f)
                                      | inr (u, _, h5) ↦ cc h5
                                    ]
                            ]
                    ]
              ]
      ]
