-- ===== src/Runs/Configured.antt =====
-- The configuration of a small Llama model.
use project_willamette.Prelude.{[], ◌∷◌}
use project_willamette.Gguf.Values.{GgufValue, GgufValues}
use project_willamette.Gguf.Header.{Metadata}
use project_willamette.Config.Keys.{
  key, architecture_key, llama_string, tokens_key, block_count_suffix, embedding_length_suffix,
  feed_forward_length_suffix, context_length_suffix, head_count_suffix, rms_epsilon_suffix,
}
use project_willamette.Config.Read
use project_willamette.Config.Read.{ModelConfig}
use project_willamette.Config.Architecture
use project_willamette.Config.Architecture.{Architecture, bitnet}

abbrev small_llama : Metadata
small_llama =
    (architecture_key, GgufValue.str_value llama_string)
    ∷ (key llama_string block_count_suffix, GgufValue.uint32_value 2)
    ∷ (key llama_string embedding_length_suffix, GgufValue.uint64_value 8)
    ∷ (key llama_string feed_forward_length_suffix, GgufValue.uint32_value 16)
    ∷ (key llama_string context_length_suffix, GgufValue.uint32_value 32)
    ∷ (key llama_string head_count_suffix, GgufValue.uint32_value 2)
    ∷ (key llama_string rms_epsilon_suffix, GgufValue.float32_value 0x3727_c5ac)
    ∷ (
      tokens_key,
      GgufValue.array_value (GgufValues.cons (GgufValue.str_value (97 ∷ [])) GgufValues.nil),
    )
    ∷ []

abbrev small_config : ModelConfig
small_config = record {
  architecture = llama_string;
  block_count = 2;
  embedding_length = 8;
  feed_forward_length = 16;
  context_length = 32;
  head_count = 2;
  head_count_kv = 2;
  head_dim = 4;
  kv_dim = 8;
  layer_norm_rms_epsilon = 0x3727_c5ac;
  rope_dimension_count = 4;
  rope_freq_base = 0x461c_4000;
  vocab_size = 1;
}
