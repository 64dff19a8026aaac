-- ===== src/Config/Architecture.antt =====
-- src/model/architecture/: the families of models, and `ModelConfig::from_gguf_metadata`.
use project_willamette.Prelude.{ℕ, Option, none, some, List, [], ◌∷◌, if◌then◌else◌}
use project_willamette.Gguf.Result.{Result, err, ◌>>=◌, unsupported_architecture}
use project_willamette.Gguf.Header.{Metadata}
use project_willamette.Config.Keys.{
  architecture_key, bitnet_b158, bitnet_25, bitnet_string, llama_string, qwen2_string,
}
use project_willamette.Config.Read.{
  ModelConfig, has_key, required_str, from_gguf_metadata_with_prefix,
  from_llama_metadata_with_prefix,
}

-- The three implementations of `ModelArchitecture`.
pub data Architecture : Type 0 where
  bitnet llama qwen2 : Architecture

unfoldable pub architecture_strings : Architecture → List (List ℕ)
architecture_strings bitnet = bitnet_b158 ∷ bitnet_25 ∷ bitnet_string ∷ []
architecture_strings llama = llama_string ∷ []
architecture_strings qwen2 = qwen2_string ∷ []

unfoldable pub metadata_prefix : Architecture → List ℕ → List ℕ
metadata_prefix bitnet arch_string = arch_string
metadata_prefix llama arch_string = llama_string
metadata_prefix qwen2 arch_string = qwen2_string

unfoldable pub config_from_meta : (ℕ → ℕ) → Architecture → List ℕ → Metadata → Result ModelConfig
config_from_meta narrow bitnet arch meta =
    from_gguf_metadata_with_prefix narrow arch (metadata_prefix bitnet arch) meta
config_from_meta narrow llama arch meta =
    from_llama_metadata_with_prefix narrow arch (metadata_prefix llama arch) meta
config_from_meta narrow qwen2 arch meta =
    from_llama_metadata_with_prefix narrow arch (metadata_prefix qwen2 arch) meta

abbrev pub registry : List Architecture
registry = bitnet ∷ llama ∷ qwen2 ∷ []

unfoldable pub find_claim : List ℕ → List Architecture → Option Architecture
find_claim arch [] = none
find_claim arch (a ∷ rest) =
    let later = find_claim arch rest in
    if has_key arch (architecture_strings a) then some a else later

unfoldable pub resolve : List ℕ → Option Architecture
resolve arch = find_claim arch registry

unfoldable pub from_gguf_metadata : (ℕ → ℕ) → Metadata → Result ModelConfig
from_gguf_metadata narrow meta = do
  arch ← required_str meta architecture_key
  elim (resolve arch) [
    | none ↦ err (unsupported_architecture arch)
    | some a ↦ config_from_meta narrow a arch meta
  ]
