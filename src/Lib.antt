-- ===== src/Lib.antt =====
-- Willamette runs quantised language models from GGUF files on a CPU. This development models the
-- parts whose correctness is a matter of indices, bytes and states, and not of floating point: the
-- reader of the files, the linker that writes a transformed copy of one, the configuration of a model,
-- the tokenizers, the cache that a forward pass appends to, the loops that generate tokens with
-- the sampler that they use, and the line editor of the chat interface.
--
-- Which file models what:
--   Gguf/Types     src/gguf/types.rs: the tags (GgmlType, GgufMetadataValueType).
--   Gguf/Result    src/error.rs: an error is a value; the formatted messages are represented by the
--                  check that writes them (Problem), with the operation that they name where several
--                  make the check (Operation).
--   Gguf/Lengths   src/gguf/tensor.rs (q4k_expected_byte_len and its kin) and
--                  compute_tensor_byte_len of src/gguf/reader.rs. Lengths/Exact has the proofs.
--   Gguf/Cursor, Gguf/Values, Gguf/Header
--                  src/gguf/reader.rs: the cursor over the bytes, the metadata values, and the file
--                  up to the tensor directory.
--   Gguf/Views     src/gguf/reader.rs: the rest of GgufFile::parse, the views into the file.
--                  Views/Checked is what a round of its loop has checked, Views/Disjoint what
--                  follows for a whole file.
--   Gguf/Linker    src/gguf/linker.rs: build_plan; Linker/Writer: patched_header and
--                  write_artifact; Linker/Embedding: validate_q6k_embedding. Linker/Tiled, Linker/Selected,
--                  Linker/Rows and Linker/Written have the proofs.
--   KvCache        src/model/kv_cache.rs: State (buffers, append_quantised), Cache (the operations),
--                  Valid (the invariant), Rollback.
--   Tokenizer      src/tokenizer/bpe.rs (Bpe, Bpe/Merged) and src/tokenizer/byte_unicode.rs
--                  (ByteUnicode, ByteUnicode/RoundTrip).
--   Tokenizer/Pretokenize
--                  src/tokenizer/pretokenize.rs: gpt2_pretokenize, smollm_pretokenize and pretokenize;
--                  its child Qwen2 is qwen2_pretokenize. Advance, Matches and Lossless have the proofs.
--   Tokenizer/Vocabulary, Tokenizer/Gpt2
--                  src/tokenizer/mod.rs: the bytes of a text, the map from tokens to ids, encode_gpt2
--                  and the GPT-2 half of decode_to_bytes. Gpt2/RoundTrip and Gpt2/Complete have the
--                  proofs.
--   Tokenizer/SentencePiece
--                  src/tokenizer/mod.rs: encode_sentencepiece and decode_sentencepiece.
--                  SentencePiece/Merging and SentencePiece/RoundTrip have the proofs.
--   Tokenizer/Driver
--                  src/tokenizer/mod.rs: Tokenizer with encode, encode_with_specials, the ChatML turns and
--                  decode_to_bytes. Driver/Prompts has the proofs.
--   Config         src/model/config.rs (Read) and src/model/architecture/ (Architecture), with the keys
--                  of the metadata in Keys. Entries, Valid and Families have the proofs.
--   Sampling       src/model/sampler.rs: State (random numbers, history, penalty), Filters (top-k,
--                  top-p, softmax, and argmax of src/model/lm_head.rs), Sample (multinomial, sample).
--                  Penalty, Bounds and Rollback have the proofs.
--   Generation     src/model/generate.rs: Budget (validate_generation_budget and the checks of a
--                  prompt), Loops (the three loops). Run is a call with the calls of its callback.
--                  Limits, Output and Greedy have the proofs.
--   Editor         src/chat/input_editor.rs: Text (strings), State, Operations, History; Calls makes
--                  a session of them. The other modules have the proofs.
--   Prelude        the shared names, lists and machine words.
--   Runs           the theorems at concrete inputs, a small GGUF file among them.
--
-- How they interact: Views uses Lengths, Header and Cursor as GgufFile::parse does; Linker takes the
-- file that parse returns; Config reads the metadata that Header reads; Tokenizer/Gpt2 runs a text
-- through Pretokenize, ByteUnicode and Bpe, and Tokenizer/Driver calls it or Tokenizer/SentencePiece;
-- Generation calls the sampler, and the forward passes by the interface Model (Generation/Loops).
-- The cache and the editor stand alone.
--
-- State is passed explicitly. A method that can panic returns an Option, `none` being the panic; a
-- method that can fail returns a Result; KVCache::append and write_artifact return both. A string is
-- the list of its code points, and offsets into it count the bytes of its UTF-8 form, so that a slice
-- off a char boundary is the panic that it is in Rust. A file is the list of its bytes. Numbers are
-- unbounded, with the overflow checks of the source written out; usize is u64. The product in
-- KVCache::rollback wraps around, as in a release build.
--
-- Fuel: encode_word runs on the number of its symbols, as each round makes the list one shorter; the
-- loop that evicts old history entries runs on the number of entries; the reader of metadata values
-- runs on the levels of nesting that validate_array still lets pass; the loop of qwen2_pretokenize
-- runs on the number of characters, as each round takes one at least; the merges of encode_sentencepiece
-- run on one more than the number of symbols, as each leaves one less; a generation loop runs on
-- max_new_tokens, as the for loop of the source does.
--
-- Parameters: f32 and i8 and their operations in the cache and the sampler, with the sum and the sort
-- that the sampler takes from the standard library, the sort being given the comparison of the code
-- and free to panic; the cast of an f64 to an f32 in Config, where an f32 is its word; whether an
-- allocation succeeds in KVCache::try_new; the map of merge ranks; the expressions of the regex
-- crate and the white space of the standard library in Pretokenize, assumed (AreFinders)
-- to give matches in order and none of them empty; the forward passes, the logits and the cache in
-- Generation; and in the linker what profile_transform finds, the conversion of an
-- f16 and q6_k::quantize_row, which is assumed to leave its buffer as long as it was, as a slice is.
--
-- Not modelled: the numeric kernels, the forward passes, the model graph, the terminal interface, memory
-- maps, file I/O and the command line; of the tokenizer the loaders and the UTF-8 checks of decode and
-- decode_lossy; of the modelled files the display width of the editor's cursor, read_into of the
-- cache, the accessors of I2_S codes, durations, and error messages and allocation failures of the
-- reader and the linker.
pub mod Prelude
pub mod Editor
pub mod Gguf
pub mod KvCache
pub mod Tokenizer
pub mod Sampling
pub mod Generation
pub mod Config
pub mod Runs
