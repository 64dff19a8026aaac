-- ===== src/Config/Valid.antt =====
-- What src/model/config.rs promises of a configuration that it returns.
use project_willamette.Prelude.{
  ℕ, ◌*◌, ◌/◌, ◌%◌, ◌^◌, ◌<◌, ◌≡◌, refl, arith, Bool, true, false, not, List, ◌==◌,
}
use native.Mathlib.Nat.{div-add-mod'}
use project_willamette.Gguf.Result.{
  ok, Gives, >>=-Gives, ok-Gives, WillametteError, gguf_parse, no_head, indivisible_embedding,
  no_kv_head, indivisible_heads, rope_not_head_dim, zero_blocks, zero_vocab,
}
use project_willamette.Gguf.Header.{Metadata}
use project_willamette.Config.Keys.{
  key, block_count_suffix, embedding_length_suffix, feed_forward_length_suffix,
  context_length_suffix, head_count_suffix, head_count_kv_suffix, rms_epsilon_suffix,
  rope_dimension_count_suffix, freq_base_suffix, vocab_size_suffix,
}
use project_willamette.Config.Entries.{
  Holds, HoldsFloat, required_u32-Holds, required_f32-HoldsFloat,
}
use project_willamette.Config.Read.{
  ModelConfig, required_u32, required_f32, check, checked_mul_u32, from_gguf_metadata_with_prefix,
}

-- A configuration that agrees with the metadata under a prefix, and whose dimensions agree.
pub record IsConfig (narrow : ℕ → ℕ) (meta : Metadata) (arch prefix : List ℕ) (c : ModelConfig)
    : Type 0 where
  pub architecture : c.architecture ≡ arch
  pub block_count : Holds meta (key prefix block_count_suffix) c.block_count
  pub embedding_length : Holds meta (key prefix embedding_length_suffix) c.embedding_length
  pub feed_forward_length : Holds meta (key prefix feed_forward_length_suffix) c.feed_forward_length
  pub context_length : Holds meta (key prefix context_length_suffix) c.context_length
  pub head_count : Holds meta (key prefix head_count_suffix) c.head_count
  pub layer_norm_rms_epsilon :
      HoldsFloat narrow meta (key prefix rms_epsilon_suffix) c.layer_norm_rms_epsilon
  pub some_head : 0 < c.head_count
  pub heads : c.head_dim * c.head_count ≡ c.embedding_length
  pub some_kv_head : 0 < c.head_count_kv
  pub groups : c.head_count % c.head_count_kv ≡ 0
  pub kv_width : c.kv_dim ≡ c.head_dim * c.head_count_kv
  pub kv_fits : c.kv_dim < 2 ^ 32
  pub full_rope : c.rope_dimension_count ≡ c.head_dim
  pub some_block : 0 < c.block_count
  pub some_token : 0 < c.vocab_size

-- What a configuration of BitNet's family takes from the metadata besides.
abbrev pub IsBitnetConfig : (ℕ → ℕ) → Metadata → List ℕ → ModelConfig → Type 0
IsBitnetConfig narrow meta prefix c =
    Holds meta (key prefix head_count_kv_suffix) c.head_count_kv
    × Holds meta (key prefix rope_dimension_count_suffix) c.rope_dimension_count
    × HoldsFloat narrow meta (key prefix freq_base_suffix) c.rope_freq_base
    × Holds meta (key prefix vocab_size_suffix) c.vocab_size

pub check-passed :
    (bad : Bool) (e : WillametteError) (u : Unit {0}) → check bad e ≡ ok u → bad ≡ false
unfolding check
check-passed true e u h = cc
check-passed false e u h = refl

pub checked_mul_u32-ok : (a b c : ℕ) → checked_mul_u32 a b ≡ ok c → (c ≡ a * b) × (c < 2 ^ 32)
unfolding checked_mul_u32
checked_mul_u32-ok a b c h = ground arith

pub divided : (a b : ℕ) → (b == 0) ≡ false → not (a % b == 0) ≡ false → a / b * b ≡ a
divided a b h k =
    let exact : a % b ≡ 0 = ground (arith, k) in omega (arith, div-add-mod' a b, exact)

pub test-false : (a b : ℕ) → not (a == b) ≡ false → a ≡ b
test-false a b h = ground arith

pub test-nonzero : (a : ℕ) → (a == 0) ≡ false → 0 < a
test-nonzero a h = ground arith

pub bitnet-IsConfig :
    (narrow : ℕ → ℕ) (arch prefix : List ℕ) (meta : Metadata)
    → Gives
        (λ c. IsConfig narrow meta arch prefix c × IsBitnetConfig narrow meta prefix c)
        (from_gguf_metadata_with_prefix narrow arch prefix meta)
unfolding from_gguf_metadata_with_prefix
bitnet-IsConfig narrow arch prefix meta =
    let P : ModelConfig → Type 0 =
      λ c. IsConfig narrow meta arch prefix c × IsBitnetConfig narrow meta prefix c in
    >>=-Gives P (required_u32 meta (key prefix block_count_suffix)) _ λ block_count block_ok.
      >>=-Gives P (required_u32 meta (key prefix embedding_length_suffix)) _
        λ embedding embedding_ok.
          >>=-Gives P (required_u32 meta (key prefix feed_forward_length_suffix)) _
            λ feed_forward feed_ok.
              >>=-Gives P (required_u32 meta (key prefix context_length_suffix)) _
                λ context context_ok.
                  >>=-Gives P (required_u32 meta (key prefix head_count_suffix)) _ λ heads heads_ok.
                    >>=-Gives P (required_u32 meta (key prefix head_count_kv_suffix)) _
                      λ kv_heads kv_heads_ok.
                        >>=-Gives P (required_f32 narrow meta (key prefix rms_epsilon_suffix)) _
                          λ epsilon epsilon_ok.
                            >>=-Gives P (required_u32 meta (key prefix rope_dimension_count_suffix))
                              _
                              λ rope rope_ok.
                                >>=-Gives P (required_f32 narrow meta (key prefix freq_base_suffix))
                                  _
                                  λ base base_ok.
                                    >>=-Gives P (required_u32 meta (key prefix vocab_size_suffix)) _
                                      λ vocab vocab_ok.
                                        >>=-Gives P (check (heads == 0) (gguf_parse no_head)) _
                                          λ _ c1.
                                            >>=-Gives P
                                              (check (not (embedding % heads == 0))
                                                (gguf_parse indivisible_embedding))
                                              _
                                              λ _ c2.
                                                >>=-Gives P
                                                  (check (kv_heads == 0) (gguf_parse no_kv_head)) _
                                                  λ _ c3.
                                                    >>=-Gives P
                                                      (check (not (heads % kv_heads == 0))
                                                        (gguf_parse indivisible_heads))
                                                      _
                                                      λ _ c4.
                                                        >>=-Gives P
                                                          (checked_mul_u32 (embedding / heads)
                                                            kv_heads)
                                                          _
                                                          λ kv_dim kv_ok.
                                                            >>=-Gives P
                                                            (check (not (rope == embedding / heads))
                                                            (gguf_parse rope_not_head_dim))
                                                            _
                                                            λ _ c5.
                                                            >>=-Gives P
                                                            (check (block_count == 0)
                                                            (gguf_parse zero_blocks))
                                                            _
                                                            λ _ c6.
                                                            >>=-Gives P
                                                            (check (vocab == 0)
                                                            (gguf_parse zero_vocab))
                                                            _
                                                            λ _ c7. ok-Gives P _ (
                                                            let (kv_width, kv_fits) =
                                                            checked_mul_u32-ok (embedding / heads)
                                                            kv_heads kv_dim kv_ok in
                                                            (
                                                            record {
                                                            architecture = refl;
                                                            block_count =
                                                            required_u32-Holds meta _ block_count
                                                            block_ok;
                                                            embedding_length =
                                                            required_u32-Holds meta _ embedding
                                                            embedding_ok;
                                                            feed_forward_length =
                                                            required_u32-Holds meta _ feed_forward
                                                            feed_ok;
                                                            context_length =
                                                            required_u32-Holds meta _ context
                                                            context_ok;
                                                            head_count =
                                                            required_u32-Holds meta _ heads
                                                            heads_ok;
                                                            layer_norm_rms_epsilon =
                                                            required_f32-HoldsFloat narrow meta _
                                                            epsilon epsilon_ok;
                                                            some_head =
                                                            test-nonzero heads
                                                            (check-passed _ _ _ c1);
                                                            heads =
                                                            divided embedding heads
                                                            (check-passed _ _ _ c1)
                                                            (check-passed _ _ _ c2);
                                                            some_kv_head =
                                                            test-nonzero kv_heads
                                                            (check-passed _ _ _ c3);
                                                            groups =
                                                            test-false (heads % kv_heads) 0
                                                            (check-passed _ _ _ c4);
                                                            kv_width = kv_width;
                                                            kv_fits = kv_fits;
                                                            full_rope =
                                                            test-false rope (embedding / heads)
                                                            (check-passed _ _ _ c5);
                                                            some_block =
                                                            test-nonzero block_count
                                                            (check-passed _ _ _ c6);
                                                            some_token =
                                                            test-nonzero vocab
                                                            (check-passed _ _ _ c7);
                                                            },
                                                            (
                                                            required_u32-Holds meta _ kv_heads
                                                            kv_heads_ok,
                                                            required_u32-Holds meta _ rope rope_ok,
                                                            required_f32-HoldsFloat narrow meta _
                                                            base base_ok,
                                                            required_u32-Holds meta _ vocab
                                                            vocab_ok,
                                                            ),
                                                            ))
