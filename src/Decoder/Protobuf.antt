-- ===== src/Decoder/Protobuf.antt =====
-- src/decoder/protobuf.rs. The schema compiler, the descriptor pool, the wire decoder and the JSON
-- serializer are a parameter, `Schemas`.
use rosetta_mq.Prelude.{
  ℕ, Bool, true, Option, List, [], ◌∷◌, ◌++◌, map, Result, ok, err, ◌>>=◌, map_err, ok_or,
}
use rosetta_mq.Text.{Text, codes}
use rosetta_mq.Util.{FilePath, parent_or, resolve_path}
use rosetta_mq.Mqtt.{Publish}
use rosetta_mq.Decoder.{Act, send_last, fail, with_payload, Decoder}

pub record ProtobufConfig : Type 0 where
  pub proto_file : Text
  pub message_type : Text
  pub include_paths : List Text

-- What the source calls of `protox`, `prost_reflect` and `serde_json`. The flag of `serialize` is
-- `use_proto_field_name`.
pub record Schemas : Type 1 where
  pub CompileError : Type 0
  pub PoolError : Type 0
  pub WireError : Type 0
  pub JsonError : Type 0
  pub DescriptorSet : Type 0
  pub Pool : Type 0
  pub Descriptor : Type 0
  pub Message : Type 0
  pub compile : List FilePath → List FilePath → Result DescriptorSet CompileError
  pub from_file_descriptor_set : DescriptorSet → Result Pool PoolError
  pub get_message_by_name : Pool → Text → Option Descriptor
  pub decode_message : Descriptor → List ℕ → Result Message WireError
  pub serialize : Bool → Message → Result (List ℕ) JsonError
  pub debug_path : FilePath → Text
  pub debug_text : Text → Text
  pub show_compile : CompileError → Text
  pub show_pool : PoolError → Text
  pub show_wire : WireError → Text
  pub show_json : JsonError → Text

pub data ProtobufDecoderError (p : Schemas) : Type 0 where
  compile : FilePath → p.CompileError → ProtobufDecoderError p
  descriptor : p.PoolError → ProtobufDecoderError p
  decode : p.WireError → ProtobufDecoderError p
  json : p.JsonError → ProtobufDecoderError p
  unknown_message_type : Text → ProtobufDecoderError p

pub record ProtobufDecoder (p : Schemas) : Type 0 where
  pub descriptor : p.Descriptor

-- The directories that the compiler searches: the schema's own one first, then the configured ones.
unfoldable pub search_paths : ProtobufConfig → FilePath → List FilePath
unfolding resolve_path
search_paths cfg base_dir =
    parent_or base_dir (resolve_path base_dir cfg.proto_file)
    ∷ map (resolve_path base_dir) cfg.include_paths

module _ (p : Schemas) where
  -- The `#[error(…)]` texts.
  unfoldable pub show_protobuf_error : ProtobufDecoderError p → Text
  show_protobuf_error (compile file source) =
      codes "failed to compile " ++ p.debug_path file ++ codes ": " ++ p.show_compile source
  show_protobuf_error (descriptor e) = codes "failed to build descriptor pool: " ++ p.show_pool e
  show_protobuf_error (decode e) =
      codes "failed to decode protobuf payload against schema: " ++ p.show_wire e
  show_protobuf_error (json e) = codes "Failed to serialize into JSON: " ++ p.show_json e
  show_protobuf_error (unknown_message_type name) =
      codes "message type " ++ p.debug_text name ++ codes " not found in compiled schema"

  unfoldable pub from_config :
      ProtobufConfig → FilePath → Result (ProtobufDecoder p) (ProtobufDecoderError p)
  from_config cfg base_dir = do
    let proto_file = resolve_path base_dir cfg.proto_file
    set ← map_err (compile proto_file) (p.compile (proto_file ∷ []) (search_paths cfg base_dir))
    pool ← map_err descriptor (p.from_file_descriptor_set set)
    found ←
        ok_or (unknown_message_type cfg.message_type) (p.get_message_by_name pool cfg.message_type)
    ok (record { descriptor = found })

  unfoldable pub protobuf_run : ProtobufDecoder p → Publish → Act (ProtobufDecoderError p)
  protobuf_run d publish = elim (p.decode_message d.descriptor publish.payload) [
    | err e ↦ fail (decode e)
    | ok message ↦ elim (p.serialize true message) [
      | err e ↦ fail (json e)
      | ok buf ↦ send_last (with_payload buf)
    ]
  ]

  unfoldable pub protobuf_decoder : ProtobufDecoder p → Decoder
  protobuf_decoder d = record {
    Error = ProtobufDecoderError p;
    display = show_protobuf_error;
    name = codes "protobuf";
    run = protobuf_run d;
  }
