-- ===== src/Decoder/Config.antt =====
-- `DecoderConfig` of src/decoder/mod.rs: which decoder a configuration describes.
use rosetta_mq.Prelude.{List, ℕ, Result, ok, ◌>>=◌, map_err}
use rosetta_mq.Text.{Text}
use rosetta_mq.Util.{FilePath}
use rosetta_mq.Decoder.{ErasedDecoder, erased}
use rosetta_mq.Decoder.Hexdump.{hexdump_decoder}
use rosetta_mq.Decoder.Utf8.{Utf8Error, utf8_decoder}
use rosetta_mq.Decoder.Template
use rosetta_mq.Decoder.Template.{TemplateConfig, template_decoder}
use rosetta_mq.Decoder.Protobuf
use rosetta_mq.Decoder.Protobuf.{ProtobufConfig, protobuf_decoder}

pub data DecoderConfig : Type 0 where
  hexdump utf8 : DecoderConfig
  protobuf : ProtobufConfig → DecoderConfig
  template : TemplateConfig → DecoderConfig

-- The libraries that the decoders stand on.
pub record Libraries : Type 1 where
  pub hex_encode : List ℕ → Text
  pub show_utf8_error : Utf8Error → Text
  pub engine : Template.Engine
  pub schemas : Protobuf.Schemas

pub data BuildDecoderError (l : Libraries) : Type 0 where
  protobuf : Protobuf.ProtobufDecoderError l.schemas → BuildDecoderError l
  template : Template.TemplateDecoderError l.engine → BuildDecoderError l

module _ (l : Libraries) where
  unfoldable pub build : DecoderConfig → FilePath → Result ErasedDecoder (BuildDecoderError l)
  build DecoderConfig.hexdump base_dir = ok (erased (hexdump_decoder l.hex_encode))
  build DecoderConfig.utf8 base_dir = ok (erased (utf8_decoder l.show_utf8_error))
  build (DecoderConfig.protobuf cfg) base_dir = do
    d ← map_err BuildDecoderError.protobuf (Protobuf.from_config l.schemas cfg base_dir)
    ok (erased (protobuf_decoder l.schemas d))
  build (DecoderConfig.template cfg) base_dir = do
    d ← map_err BuildDecoderError.template (Template.from_config l.engine cfg)
    ok (erased (template_decoder l.engine d))
