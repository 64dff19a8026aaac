-- ===== src/Config/Keys.antt =====
-- The keys of the metadata that src/model/config.rs reads, and the strings that src/model/architecture/
-- compares, as their bytes.
use project_willamette.Prelude.{ℕ, List, [], ◌∷◌, ◌++◌}

-- `format!("{prefix}.{suffix}")`
abbrev pub key : List ℕ → List ℕ → List ℕ
key prefix suffix = prefix ++ 0x2e ∷ suffix

-- `block_count`
abbrev pub block_count_suffix : List ℕ
block_count_suffix = 0x62 ∷ 0x6c ∷ 0x6f ∷ 0x63 ∷ 0x6b ∷ 0x5f ∷ 0x63 ∷ 0x6f ∷ 0x75 ∷ 0x6e ∷ 0x74 ∷ []

-- `embedding_length`
abbrev pub embedding_length_suffix : List ℕ
embedding_length_suffix =
    0x65 ∷ 0x6d ∷ 0x62 ∷ 0x65 ∷ 0x64 ∷ 0x64 ∷ 0x69 ∷ 0x6e ∷ 0x67 ∷ 0x5f ∷ 0x6c ∷ 0x65 ∷ 0x6e ∷ 0x67
    ∷ 0x74 ∷ 0x68 ∷ []

-- `feed_forward_length`
abbrev pub feed_forward_length_suffix : List ℕ
feed_forward_length_suffix =
    0x66 ∷ 0x65 ∷ 0x65 ∷ 0x64 ∷ 0x5f ∷ 0x66 ∷ 0x6f ∷ 0x72 ∷ 0x77 ∷ 0x61 ∷ 0x72 ∷ 0x64 ∷ 0x5f ∷ 0x6c
    ∷ 0x65 ∷ 0x6e ∷ 0x67 ∷ 0x74 ∷ 0x68 ∷ []

-- `context_length`
abbrev pub context_length_suffix : List ℕ
context_length_suffix =
    0x63 ∷ 0x6f ∷ 0x6e ∷ 0x74 ∷ 0x65 ∷ 0x78 ∷ 0x74 ∷ 0x5f ∷ 0x6c ∷ 0x65 ∷ 0x6e ∷ 0x67 ∷ 0x74 ∷ 0x68
    ∷ []

-- `attention.head_count`
abbrev pub head_count_suffix : List ℕ
head_count_suffix =
    0x61 ∷ 0x74 ∷ 0x74 ∷ 0x65 ∷ 0x6e ∷ 0x74 ∷ 0x69 ∷ 0x6f ∷ 0x6e ∷ 0x2e ∷ 0x68 ∷ 0x65 ∷ 0x61 ∷ 0x64
    ∷ 0x5f ∷ 0x63 ∷ 0x6f ∷ 0x75 ∷ 0x6e ∷ 0x74 ∷ []

-- `attention.head_count_kv`
abbrev pub head_count_kv_suffix : List ℕ
head_count_kv_suffix =
    0x61 ∷ 0x74 ∷ 0x74 ∷ 0x65 ∷ 0x6e ∷ 0x74 ∷ 0x69 ∷ 0x6f ∷ 0x6e ∷ 0x2e ∷ 0x68 ∷ 0x65 ∷ 0x61 ∷ 0x64
    ∷ 0x5f ∷ 0x63 ∷ 0x6f ∷ 0x75 ∷ 0x6e ∷ 0x74 ∷ 0x5f ∷ 0x6b ∷ 0x76 ∷ []

-- `attention.layer_norm_rms_epsilon`
abbrev pub rms_epsilon_suffix : List ℕ
rms_epsilon_suffix =
    0x61 ∷ 0x74 ∷ 0x74 ∷ 0x65 ∷ 0x6e ∷ 0x74 ∷ 0x69 ∷ 0x6f ∷ 0x6e ∷ 0x2e ∷ 0x6c ∷ 0x61 ∷ 0x79 ∷ 0x65
    ∷ 0x72 ∷ 0x5f ∷ 0x6e ∷ 0x6f ∷ 0x72 ∷ 0x6d ∷ 0x5f ∷ 0x72 ∷ 0x6d ∷ 0x73 ∷ 0x5f ∷ 0x65 ∷ 0x70
    ∷ 0x73 ∷ 0x69 ∷ 0x6c ∷ 0x6f ∷ 0x6e ∷ []

-- `rope.dimension_count`
abbrev pub rope_dimension_count_suffix : List ℕ
rope_dimension_count_suffix =
    0x72 ∷ 0x6f ∷ 0x70 ∷ 0x65 ∷ 0x2e ∷ 0x64 ∷ 0x69 ∷ 0x6d ∷ 0x65 ∷ 0x6e ∷ 0x73 ∷ 0x69 ∷ 0x6f ∷ 0x6e
    ∷ 0x5f ∷ 0x63 ∷ 0x6f ∷ 0x75 ∷ 0x6e ∷ 0x74 ∷ []

-- `rope.freq_base`
abbrev pub freq_base_suffix : List ℕ
freq_base_suffix =
    0x72 ∷ 0x6f ∷ 0x70 ∷ 0x65 ∷ 0x2e ∷ 0x66 ∷ 0x72 ∷ 0x65 ∷ 0x71 ∷ 0x5f ∷ 0x62 ∷ 0x61 ∷ 0x73 ∷ 0x65
    ∷ []

-- `vocab_size`
abbrev pub vocab_size_suffix : List ℕ
vocab_size_suffix = 0x76 ∷ 0x6f ∷ 0x63 ∷ 0x61 ∷ 0x62 ∷ 0x5f ∷ 0x73 ∷ 0x69 ∷ 0x7a ∷ 0x65 ∷ []

-- `rope.scaling`
abbrev pub scaling_suffix : List ℕ
scaling_suffix =
    0x72 ∷ 0x6f ∷ 0x70 ∷ 0x65 ∷ 0x2e ∷ 0x73 ∷ 0x63 ∷ 0x61 ∷ 0x6c ∷ 0x69 ∷ 0x6e ∷ 0x67 ∷ []

-- `rope.scaling.type`
abbrev pub scaling_type_suffix : List ℕ
scaling_type_suffix =
    0x72 ∷ 0x6f ∷ 0x70 ∷ 0x65 ∷ 0x2e ∷ 0x73 ∷ 0x63 ∷ 0x61 ∷ 0x6c ∷ 0x69 ∷ 0x6e ∷ 0x67 ∷ 0x2e ∷ 0x74
    ∷ 0x79 ∷ 0x70 ∷ 0x65 ∷ []

-- `general.architecture`
abbrev pub architecture_key : List ℕ
architecture_key =
    0x67 ∷ 0x65 ∷ 0x6e ∷ 0x65 ∷ 0x72 ∷ 0x61 ∷ 0x6c ∷ 0x2e ∷ 0x61 ∷ 0x72 ∷ 0x63 ∷ 0x68 ∷ 0x69 ∷ 0x74
    ∷ 0x65 ∷ 0x63 ∷ 0x74 ∷ 0x75 ∷ 0x72 ∷ 0x65 ∷ []

-- `tokenizer.ggml.tokens`
abbrev pub tokens_key : List ℕ
tokens_key =
    0x74 ∷ 0x6f ∷ 0x6b ∷ 0x65 ∷ 0x6e ∷ 0x69 ∷ 0x7a ∷ 0x65 ∷ 0x72 ∷ 0x2e ∷ 0x67 ∷ 0x67 ∷ 0x6d ∷ 0x6c
    ∷ 0x2e ∷ 0x74 ∷ 0x6f ∷ 0x6b ∷ 0x65 ∷ 0x6e ∷ 0x73 ∷ []

-- `none`
abbrev pub none_string : List ℕ
none_string = 0x6e ∷ 0x6f ∷ 0x6e ∷ 0x65 ∷ []

-- `bitnet-b1.58`
abbrev pub bitnet_b158 : List ℕ
bitnet_b158 = 0x62 ∷ 0x69 ∷ 0x74 ∷ 0x6e ∷ 0x65 ∷ 0x74 ∷ 0x2d ∷ 0x62 ∷ 0x31 ∷ 0x2e ∷ 0x35 ∷ 0x38 ∷ []

-- `bitnet-25`
abbrev pub bitnet_25 : List ℕ
bitnet_25 = 0x62 ∷ 0x69 ∷ 0x74 ∷ 0x6e ∷ 0x65 ∷ 0x74 ∷ 0x2d ∷ 0x32 ∷ 0x35 ∷ []

-- `bitnet`
abbrev pub bitnet_string : List ℕ
bitnet_string = 0x62 ∷ 0x69 ∷ 0x74 ∷ 0x6e ∷ 0x65 ∷ 0x74 ∷ []

-- `llama`
abbrev pub llama_string : List ℕ
llama_string = 0x6c ∷ 0x6c ∷ 0x61 ∷ 0x6d ∷ 0x61 ∷ []

-- `qwen2`
abbrev pub qwen2_string : List ℕ
qwen2_string = 0x71 ∷ 0x77 ∷ 0x65 ∷ 0x6e ∷ 0x32 ∷ []
