-- ===== src/Tokenizer.antt =====
-- src/tokenizer: the byte-pair merges (Bpe), the reversible map of bytes to characters
-- (ByteUnicode), the pre-tokenizers (Pretokenize), the two backends (Gpt2, SentencePiece) and the
-- tokenizer over them (Driver).
pub mod ByteUnicode
pub mod Bpe
pub mod Pretokenize
pub mod Vocabulary
pub mod Gpt2
pub mod SentencePiece
pub mod Driver
