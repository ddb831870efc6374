-- ===== src/Main/NoPanic.antt =====
-- src/main.rs: the `expect` on the reference of a mapping.
use rosetta_mq.Prelude.{
  ◌≡◌, refl, ◌≢◌, sym, subst, Option, none, some, Result, ok, err, ◌>>=◌, map_err, map_err-eq-ok,
  Result-cases, inl, inr, All,
}
use rosetta_mq.Text.{Text, codes}
use rosetta_mq.Util.{FilePath, parent_or}
use rosetta_mq.Decoder.Registry
use rosetta_mq.Auth
use rosetta_mq.Auth.{AuthConfig}
use rosetta_mq.Config.{Config, load}
use rosetta_mq.Config.Validate.{IsUsable}
use rosetta_mq.Config.Parse.{load-IsReady}
use rosetta_mq.Client.{build_options}
use rosetta_mq.Client.Driver.{subscribe_all}
use rosetta_mq.Main.{
  Platform, StartError, loading, resolving_auth, connecting, subscribing, panicked, add_mappings,
  resolve_auth, startup,
}
use rosetta_mq.Main.Startup.{Builder}
use rosetta_mq.Main.Faults.{IsLate, not_built, not_registered, add_mappings-IsLate}
use rosetta_mq.Main.Ready.{topic_filters}

module _ (s : Platform) where
  -- A result that is not the panic.
  abbrev Calm : {A : Type 0} → Result A (StartError s) → Type 0
  Calm (ok a) = Unit
  Calm (err (panicked why)) = ⊥
  Calm (err _) = Unit

  bind-Calm :
      {A B : Type 0} (r : Result A (StartError s)) (f : A → Result B (StartError s))
      → Calm r
      → ((a : A) → r ≡ ok a → Calm (f a))
      → Calm (r >>= f)
  bind-Calm (ok a) f h k = k a refl
  bind-Calm (err e) f h k = h

  map_err-Calm :
      {A E : Type 0} (wrap : E → StartError s) (r : Result A E)
      → ((x : E) → Calm {A = A} (err (wrap x)))
      → Calm (map_err wrap r)
  map_err-Calm wrap (ok a) h = tt
  map_err-Calm wrap (err x) h = h x

  IsLate-Calm : (A : Type 0) {e : StartError s} → IsLate e → Calm {A = A} (err e)
  IsLate-Calm A not_built = tt
  IsLate-Calm A not_registered = tt

  add_mappings-Calm :
      (base_dir : FilePath) (config : Config) (b : Builder)
      → All (IsUsable config.decoders) config.topics
      → Calm (add_mappings s base_dir config.decoders b config.topics)
  add_mappings-Calm base_dir config b usable =
      elim (Result-cases (add_mappings s base_dir config.decoders b config.topics)) [
        | inl (b', e) ↦ subst Calm (sym e) tt
        | inr (x, e) ↦ subst Calm (sym e) (
            IsLate-Calm Builder
              (add_mappings-IsLate s base_dir config.decoders b config.topics x usable e))
      ]

  resolve_auth-Calm :
      (base_dir : FilePath) (auth : Option AuthConfig) → Calm (resolve_auth s base_dir auth)
  unfolding resolve_auth
  resolve_auth-Calm base_dir none = tt
  resolve_auth-Calm base_dir (some cfg) =
      map_err-Calm resolving_auth (Auth.build s.host cfg base_dir) (λ x. tt)

  module _ (config_path : FilePath) where
    startup-Calm : Calm (startup s config_path)
    unfolding startup
    startup-Calm =
        bind-Calm (map_err loading (load s.host s.toml s.read_to_string config_path)) _
          (map_err-Calm loading _ (λ x. tt))
          (λ config p.
            bind-Calm
              (add_mappings s (parent_or (codes ".") config_path) config.decoders Registry.new
                config.topics)
              _
              (add_mappings-Calm (parent_or (codes ".") config_path) config Registry.new
                (load-IsReady s.host s.toml s.read_to_string config_path config
                  (map_err-eq-ok _ _ p)).usable)
              (λ builder _.
                bind-Calm
                  (resolve_auth s (parent_or (codes ".") config_path) config.connection.auth) _
                  (resolve_auth-Calm (parent_or (codes ".") config_path) config.connection.auth)
                  (λ auth _.
                    bind-Calm
                      (map_err connecting (build_options s.rustls s.mqtt config.connection auth)) _
                      (map_err-Calm connecting _ (λ x. tt))
                      (λ options _.
                        bind-Calm
                          (map_err subscribing
                            (subscribe_all (s.subscribe options) (topic_filters config)).1)
                          _ (map_err-Calm subscribing _ (λ x. tt)) (λ _ _. tt)))))

    -- The start never reaches the `expect` on a decoder reference, whatever the file holds.
    pub startup-no_panic : (why : Text) → startup s config_path ≢ err (panicked why)
    startup-no_panic why e = subst Calm e startup-Calm
