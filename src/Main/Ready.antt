-- ===== src/Main/Ready.antt =====
-- src/main.rs: what the engine is started with.
use rosetta_mq.Prelude.{
  ◌<◌, ◌≡◌, sym, ap, ◌∙◌, subst, List, map, ok, map_err, >>=-eq-ok, map_err-eq-ok, ok_inj, All,
}
use rosetta_mq.Text.{Text, codes}
use rosetta_mq.Util.{FilePath, parent_or}
use rosetta_mq.Decoder.{ErasedDecoder}
use rosetta_mq.Decoder.Behaviour.{KeepsTemplates}
use rosetta_mq.Decoder.Registry
use rosetta_mq.Decoder.Registry.{RegistryEntry, DecoderRegistry}
use rosetta_mq.Decoder.Registry.Build.{IsWellFormed}
use rosetta_mq.Config.{Config, TopicMapping, load}
use rosetta_mq.Config.Parse.{IsReady, load-IsReady}
use rosetta_mq.Client.{build_options}
use rosetta_mq.Client.Driver.{subscribe_all}
use rosetta_mq.Client.Subscribe.{subscription, subscribed-all}
use rosetta_mq.Main.{
  Platform, Started, loading, connecting, subscribing, add_mappings, resolve_auth, startup,
}
use rosetta_mq.Main.Startup.{
  Builder, HasSingleDecoder, decoded_filters, add_mappings-IsSound, new-IsSound, filters-new,
}

abbrev pub topic_filters : Config → List Text
topic_filters config = map (λ (m : TopicMapping). m.topic_filter) config.topics

module _ (s : Platform) (config_path : FilePath) where
  -- The parts of a successful start.
  record Run (st : Started s) : Type 0 where
    config : Config
    loaded : load s.host s.toml s.read_to_string config_path ≡ ok config
    builder : Builder
    built :
        add_mappings s
          (parent_or (codes ".") config_path)
          config.decoders
          Registry.new
          config.topics
        ≡ ok builder
    registry : st.registry ≡ Registry.build builder
    options : s.mqtt.MqttOptions
    calls : st.subscribed ≡ (subscribe_all (s.subscribe options) (topic_filters config)).0
    result : (subscribe_all (s.subscribe options) (topic_filters config)).1 ≡ ok tt
    limit : st.max_concurrent_decodes ≡ config.engine.max_concurrent_decodes

  startup-Run : (st : Started s) → startup s config_path ≡ ok st → Run st
  unfolding startup
  startup-Run st e =
      let (config, p, e1) =
        >>=-eq-ok (map_err loading (load s.host s.toml s.read_to_string config_path)) _ e in
      let (builder, q, e2) =
        >>=-eq-ok
          (add_mappings s (parent_or (codes ".") config_path) config.decoders Registry.new
            config.topics)
          _ e1 in
      let (auth, _, e3) =
        >>=-eq-ok (resolve_auth s (parent_or (codes ".") config_path) config.connection.auth) _
          e2 in
      let (options, _, e4) =
        >>=-eq-ok (map_err connecting (build_options s.rustls s.mqtt config.connection auth)) _
          e3 in
      let (u, r, e5) =
        >>=-eq-ok
          (map_err subscribing (subscribe_all (s.subscribe options) (topic_filters config)).1) _
          e4 in
      let same = ok_inj e5 in
      record {
        config = config;
        loaded = map_err-eq-ok _ _ p;
        builder = builder;
        built = q;
        registry = ap (λ (x : Started s). x.registry) (sym same);
        options = options;
        calls = ap (λ (x : Started s). x.subscribed) (sym same);
        result = map_err-eq-ok _ _ r;
        limit = ap (λ (x : Started s). x.max_concurrent_decodes) (sym same);
      }

  -- What the engine may rely on, of the configuration `config`.
  pub record IsStarted (config : Config) (st : Started s) : Type 0 where
    pub ready : IsReady config
    pub well_formed : IsWellFormed st.registry.entries
    pub single : All HasSingleDecoder st.registry.entries
    pub registered :
        map (λ (e : RegistryEntry ErasedDecoder). e.filter.raw) st.registry.entries
        ≡ decoded_filters config.topics
    pub subscribed : st.subscribed ≡ map subscription (topic_filters config)
    pub has_room : 0 < st.max_concurrent_decodes

  -- If the start succeeds, the configuration was loaded, and the engine gets a registry of exactly
  -- the filters that have a decoder, in order and distinct, whose decoders each emit one message or
  -- fail, a subscription to every topic filter, with a decoder or without, and a positive limit of
  -- concurrent decodes. The template engine must find the template that it was given.
  pub startup-IsStarted :
      (st : Started s)
      → KeepsTemplates s.libraries.engine
      → startup s config_path ≡ ok st
      → (config : Config) × (load s.host s.toml s.read_to_string config_path ≡ ok config)
        × IsStarted config st
  startup-IsStarted st keeps e =
      let r = startup-Run st e in
      let (sound, added) =
        add_mappings-IsSound s (parent_or (codes ".") config_path) r.config.decoders Registry.new
          r.builder r.config.topics keeps new-IsSound r.built in
      let ready = load-IsReady s.host s.toml s.read_to_string config_path r.config r.loaded in
      (
        r.config,
        r.loaded,
        record {
          ready = ready;
          well_formed =
              subst (λ (x : DecoderRegistry ErasedDecoder). IsWellFormed x.entries) (sym r.registry)
                (unfold Registry.build in sound.well_formed);
          single = rw r.registry (unfold Registry.build in sound.single);
          registered =
              ap
                (λ (x : DecoderRegistry ErasedDecoder).
                  map (λ (e : RegistryEntry ErasedDecoder). e.filter.raw) x.entries)
                r.registry
              ∙ (unfold Registry.build in filters-new r.builder _ added);
          subscribed =
              r.calls ∙ subscribed-all (s.subscribe r.options) (topic_filters r.config) r.result;
          has_room = rw r.limit ready.has_room;
        },
      )
