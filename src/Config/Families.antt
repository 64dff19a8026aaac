-- ===== src/Config/Families.antt =====
-- What `ModelConfig::from_gguf_metadata` of src/model/config.rs promises for each family of models.
use project_willamette.Prelude.{ℕ, ◌%◌, ◌<◌, ◌≡◌, true, false, List}
use project_willamette.Gguf.Header.{Metadata}
use project_willamette.Config.Keys.{
  key, head_count_kv_suffix, rope_dimension_count_suffix, freq_base_suffix,
}
use project_willamette.Config.Entries.{HoldsOr, HoldsFloatOr, CountsTokens}
use project_willamette.Config.Read.{ModelConfig, is_finite, at_most_zero, default_freq_base}
use project_willamette.Config.Architecture.{Architecture, bitnet, llama, qwen2}
use project_willamette.Config.Valid.{IsBitnetConfig}

-- What holds besides of the families that are not BitNet's: a rotation of pairs, no dimension that is zero,
-- and an epsilon and a base that are finite and positive.
abbrev pub IsLlamaConfig : (ℕ → ℕ) → Metadata → List ℕ → ModelConfig → Type 0
IsLlamaConfig narrow meta prefix c =
    HoldsOr meta (key prefix head_count_kv_suffix) c.head_count c.head_count_kv
    × HoldsOr meta (key prefix rope_dimension_count_suffix) c.head_dim c.rope_dimension_count
    × HoldsFloatOr narrow meta (key prefix freq_base_suffix) default_freq_base c.rope_freq_base
    × CountsTokens meta c.vocab_size
    × (c.head_dim % 2 ≡ 0)
    × (0 < c.embedding_length)
    × (0 < c.feed_forward_length)
    × (0 < c.context_length)
    × (is_finite c.layer_norm_rms_epsilon ≡ true)
    × (at_most_zero c.layer_norm_rms_epsilon ≡ false)
    × (is_finite c.rope_freq_base ≡ true)
    × (at_most_zero c.rope_freq_base ≡ false)

-- What a configuration takes from the metadata besides, for each family.
abbrev pub IsOfFamily : (ℕ → ℕ) → Metadata → Architecture → List ℕ → ModelConfig → Type 0
IsOfFamily narrow meta bitnet prefix c = IsBitnetConfig narrow meta prefix c
IsOfFamily narrow meta llama prefix c = IsLlamaConfig narrow meta prefix c
IsOfFamily narrow meta qwen2 prefix c = IsLlamaConfig narrow meta prefix c
