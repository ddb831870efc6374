-- ===== src/Lib.antt =====
-- rosetta-mq: a bridge that subscribes to MQTT topics, decodes each message by the decoder of the
-- most specific matching filter, and publishes the decoded text beside the topic.
--
-- The parts of the program and the files that model them; paths are from the repository's root.
--   src/topic.rs              Topic      `TopicFilter::parse` is `parse`, by `rank_parts` and `rank`;
--                                        `Ord::cmp` is `cmp`. Children: the valid segments, the
--                                        verdict of the parser, the order, the filters that cover a
--                                        topic
--   src/decoder/registry.rs   Decoder/Registry   `register`, `build`, `resolve`
--   src/decoder/mod.rs        Decoder, Decoder/Config   the two traits, `DecodePublish::resolve` and
--                                        `publish`, `DecoderConfig::build`
--   src/decoder/hexdump.rs    Decoder/Hexdump, Decoder/Decimal
--   src/decoder/utf8.rs       Decoder/Utf8, with the standard library's check of UTF-8
--   src/decoder/template.rs   Decoder/Template
--   src/decoder/protobuf.rs   Decoder/Protobuf
--   src/engine.rs             Engine     `handle_incoming`, `publish` (`publish_decoded`) and the
--                                        error message; Engine/Relay: `decode_and_publish`;
--                                        Engine/Loop: `run` with `drain`
--   src/protocol.rs           Protocol   `WebsocketConfig::normalize`
--   src/auth.rs               Auth       `AuthConfig::build`
--   src/config.rs             Config     `load`, `parse` (`parse_config`), `validate`, `normalize`
--                                        (`normalize_config`), `RefOr::resolve`. Config/Document:
--                                        the values of a TOML document; Config/Read: the derived
--                                        readers of all configuration types, by their `serde`
--                                        attributes, and of the types that src/client.rs,
--                                        src/protocol.rs, src/auth.rs, src/engine.rs and
--                                        src/decoder/ declare
--   src/client.rs             Client     `build_options`; Client/Tls: `build_tls_config`;
--                                        Client/Driver: the driver task and `subscribe_all`
--   src/util.rs               Util       `resolve_path`, and the parts of `std::path` that are called
--   src/main.rs               Main       `main` up to the start of the engine (`startup`);
--                                        Main/System: the rest of `main`, with the driver, the
--                                        engine and the decode tasks that run at the same time;
--                                        Main/Requests: that program with the client's queue of
--                                        requests, for which a call of `publish` waits, and
--                                        Main/Requests/Start: the subscriptions, which wait for it
--   examples/dev_generate_test_certs.rs   Examples/TestCerts
--   examples/encode_device_reading.rs     Examples/Reading
-- Text has the functions on strings of the Rust standard library that the source calls, Mqtt the
-- packet types of the MQTT client, Runtime the channel of the runtime, Prelude the names that all
-- modules share, and Tests the runs at concrete inputs, with the source's own unit tests in
-- Tests/Units.
--
-- How the parts interact. `main` loads the configuration, builds a decoder for each mapping that has
-- one and registers it, connects, subscribes and starts the engine. The engine takes a message in,
-- resolves its decoder and spawns a task; the task runs the decoder and publishes what it emits.
-- The driver, the engine, its tasks and `main` then run at the same time: the driver forwards packets
-- to the engine over a channel, and `main` stops the engine at a signal or when the driver has ended.
--
-- How the code is modelled. A `Result` with `?` is `Result` with a `do` block. A string is the list
-- of its bytes. A decoder's asynchronous body is a value of `Act`, which sends messages one after
-- the other and ends with a result or a panic; the channel stays outside of it. The join of decoder
-- and publisher is a step relation over a first-in first-out channel of 8 messages, so a theorem on
-- its steps is one on every interleaving. The loop of `run` is a step relation too: each open branch
-- of `select!` may be taken, and the wait at the end may time out at any point. The fields
-- `received`, `reaped` and `abandoned` of its state are a record for the proofs. The running program
-- is a step relation over all of these: a step is one of the driver, of the engine, of one decode
-- task or of `main`, and the channel of 100 packets and the cancellation token are in its state. There
-- the client answers each call of `publish` as it likes; Main/Requests restricts these steps by the
-- client's queue of 100 requests, so what holds in every state of the first holds in the second.
--
-- Bounds and fuel. `decimal` runs on fuel one above the number, and each round divides it by ten.
-- The check of UTF-8 runs on the length of the input, and each round takes a byte at least. Nothing
-- else runs on fuel: loops over lists are structural. Lengths and counts are natural numbers; the
-- source's `usize` counts the tasks and bytes in memory, which do not reach its bound.
--
-- Parameters, with what is assumed of them: `matches` of the MQTT client library (it accepts only
-- topics that the filter covers segment by segment), the template engine (a template that was added
-- is found again), the runtime's channel and the client's queue (they hold what was put in, in
-- order), `JoinSet` (it holds what was spawned, and may report the end of any task that it holds),
-- and the options of the MQTT client (each setter sets what it names); and, with nothing assumed,
-- the schema compiler, the TLS and certificate libraries, the parser of TOML (what the derived
-- readers make of the values that it gives is modelled), the hex encoder, the file system, the
-- environment, the clock, and the broker's answers.
--
-- Not modelled: the command line, the log and the runtime's scheduling and time, which are calls of
-- libraries; what the broker answers to a request; the tests against a broker and those that render
-- templates, which are runs of libraries; the build files.
pub mod Auth
pub mod Client
pub mod Config
pub mod Decoder
pub mod Engine
pub mod Examples
pub mod Main
pub mod Mqtt
pub mod Prelude
pub mod Protocol
pub mod Runtime
pub mod Tests
pub mod Text
pub mod Topic
pub mod Util
