-- ===== src/Tokenizer/SentencePiece.antt =====
-- The SentencePiece backend of src/tokenizer/mod.rs: `encode_sentencepiece` and `decode_sentencepiece`.
-- `F` stands for `f32`; an outer `none` is a panic.
pub mod Merging
pub mod RoundTrip
use project_willamette.Prelude.{
  ℕ, zero, suc, ◌+◌, ◌-◌, ◌*◌, ◌/◌, ◌%◌, Bool, true, false, ◌&&◌, ◌||◌, Option, none, some, List,
  [], ◌∷◌, ◌++◌, length, get_elem?, set, leb, ltb, ◌==◌, if◌then◌else◌, ◌>>=◌,
}
use project_willamette.Gguf.Result.{
  Result, ok, err, unsupported_tokenizer, token_range, malformed_piece,
}
use project_willamette.Gguf.Outcome
use project_willamette.Gguf.Outcome.{Outcome, unless_panic}
use project_willamette.Sampling.State.{Floats}
use project_willamette.Tokenizer.Pretokenize.Qwen2.{Text}
use project_willamette.Tokenizer.Vocabulary.{as_bytes, token_id}

-- The fields of `TokenizerBackend::SentencePiece`.
pub record SentencePiece (F : Type 0) : Type 0 where
  pub scores : List F
  pub token_types : List ℕ
  pub unknown_id : ℕ
  pub add_space_prefix : Bool

-- `replace` of a character by another.
unfoldable pub replace_char : ℕ → ℕ → Text → Text
replace_char from to [] = []
replace_char from to (c ∷ s) = (if c == from then to else c) ∷ replace_char from to s

-- The lower block that stands for a space.
abbrev pub space_mark : ℕ
space_mark = 0x2581

unfoldable pub normalized_text : Bool → Text → Text
normalized_text add_space_prefix text =
    replace_char 32 space_mark (if add_space_prefix then 32 ∷ text else text)

-- A symbol for each character; a merge leaves `none` where its right one was.
abbrev pub Symbols : Type 0
Symbols = List (Option Text)

unfoldable pub symbols_of_chars : Text → Symbols
symbols_of_chars [] = []
symbols_of_chars (c ∷ s) = some (c ∷ []) ∷ symbols_of_chars s

-- The symbols that are left, with their indices.
unfoldable pub live : ℕ → Symbols → List (ℕ × Text)
live i [] = []
live i (none ∷ symbols) = live (i + 1) symbols
live i (some s ∷ symbols) = (i, s) ∷ live (i + 1) symbols

-- `symbols[right].take().unwrap()`, appended to `symbols[left]`.
unfoldable pub merge_pair : Symbols → ℕ → ℕ → Option Symbols
merge_pair symbols left right = do
  entry ← get_elem? symbols right
  right_symbol ← entry
  entry' ← get_elem? (set symbols right none) left
  left_symbol ← entry'
  some (set (set symbols right none) left (some (left_symbol ++ right_symbol)))

module _ {F : Type 0} (f : Floats F) where
  -- Whether a candidate replaces the best so far.
  unfoldable pub beats : ℕ × ℕ × F → Option (ℕ × ℕ × F) → Bool
  beats candidate none = true
  beats candidate (some current) =
      f.less current.2 candidate.2
      || ((f.less_eq candidate.2 current.2 && f.less_eq current.2 candidate.2)
          && ltb candidate.0 current.0)

  -- The best after one window.
  unfoldable pub consider :
      List F → List Text → ℕ × Text → ℕ × Text → Option (ℕ × ℕ × F) → Option (Option (ℕ × ℕ × F))
  consider scores tokens (l, a) (r, b) best = elim (token_id tokens (a ++ b)) [
    | none ↦ some best
    | some token ↦ (do
      score ← get_elem? scores token
      some (if beats (l, r, score) best then some (l, r, score) else best))
  ]

  unfoldable pub scan_windows :
      List F → List Text → List (ℕ × Text) → Option (ℕ × ℕ × F) → Option (Option (ℕ × ℕ × F))
  scan_windows scores tokens [] best = some best
  scan_windows scores tokens (x ∷ []) best = some best
  scan_windows scores tokens (x ∷ y ∷ rest) best = do
    best' ← consider scores tokens x y best
    scan_windows scores tokens (y ∷ rest) best'

  unfoldable pub best_sentencepiece_merge : Symbols → List F → List Text → Option (Option (ℕ × ℕ))
  best_sentencepiece_merge symbols scores tokens = do
    best ← scan_windows scores tokens (live 0 symbols) none
    some (elim best [ none ↦ none | some (l, r, score) ↦ some (l, r) ])

  -- The `while let` loop, on fuel.
  unfoldable pub merge_symbols : ℕ → List F → List Text → Symbols → Option Symbols
  merge_symbols zero scores tokens symbols = none
  merge_symbols (suc fuel) scores tokens symbols = do
    best ← best_sentencepiece_merge symbols scores tokens
    elim best [
      | none ↦ some symbols
      | some (l, r) ↦ (do merged ← merge_pair symbols l r; merge_symbols fuel scores tokens merged)
    ]

-- A digit of `{:02X}`.
unfoldable pub hex_digit : ℕ → ℕ
hex_digit d = if ltb d 10 then 48 + d else 55 + d

-- `format!("<0x{byte:02X}>")`
unfoldable pub byte_piece : ℕ → Text
byte_piece b = 60 ∷ 48 ∷ 120 ∷ hex_digit (b / 16) ∷ hex_digit (b % 16) ∷ 62 ∷ []

unfoldable pub unwrap_id : Option ℕ → ℕ → ℕ
unwrap_id none unknown = unknown
unwrap_id (some id) unknown = id

unfoldable pub fallback_ids : ℕ → List Text → List ℕ → List ℕ
fallback_ids unknown tokens [] = []
fallback_ids unknown tokens (b ∷ bs) =
    unwrap_id (token_id tokens (byte_piece b)) unknown ∷ fallback_ids unknown tokens bs

unfoldable pub emit_sentencepiece_symbol : ℕ → List Text → Text → List ℕ
emit_sentencepiece_symbol unknown tokens symbol = elim (token_id tokens symbol) [
  | some token ↦ token ∷ []
  | none ↦ fallback_ids unknown tokens (as_bytes symbol)
]

unfoldable pub emit_all : ℕ → List Text → Symbols → List ℕ
emit_all unknown tokens [] = []
emit_all unknown tokens (none ∷ symbols) = emit_all unknown tokens symbols
emit_all unknown tokens (some s ∷ symbols) =
    emit_sentencepiece_symbol unknown tokens s ++ emit_all unknown tokens symbols

unfoldable pub is_empty_text : Text → Bool
is_empty_text [] = true
is_empty_text (c ∷ s) = false

-- What `encode_sentencepiece` appends to the ids.
unfoldable pub encode_sentencepiece :
    {F : Type 0} → Floats F → SentencePiece F → List Text → Text → Outcome (List ℕ)
encode_sentencepiece f backend tokens text =
    let symbols = symbols_of_chars (normalized_text backend.add_space_prefix text) in
    if is_empty_text text
    then Outcome.pure []
    else unless_panic (do
      merged ← merge_symbols f (suc (length symbols)) backend.scores tokens symbols
      some (emit_all backend.unknown_id tokens merged))

-- The value of a hexadecimal digit.
unfoldable pub digit_value : ℕ → Option ℕ
digit_value c =
    if leb 48 c && leb c 57
    then some (c - 48)
    else if leb 65 c && leb c 70
    then some (c - 55)
    else if leb 97 c && leb c 102
    then some (c - 87)
    else none

-- `u8::from_str_radix(hex, 16).ok()` on two characters; a sign may stand before a digit.
unfoldable pub hex_pair : ℕ → ℕ → Option ℕ
hex_pair a b =
    if a == 43 then digit_value b else (do x ← digit_value a; y ← digit_value b; some (x * 16 + y))

unfoldable pub parse_byte_piece : Text → Option ℕ
parse_byte_piece (p ∷ q ∷ r ∷ a ∷ b ∷ e ∷ []) =
    if p == 60 && (q == 48 && (r == 120 && e == 62)) then hex_pair a b else none
parse_byte_piece _ = none

-- The bytes of one token, by its type.
unfoldable pub piece_bytes : Text → ℕ → Result (List ℕ)
piece_bytes token token_type =
    if token_type == 3
    then ok []
    else if token_type == 6
    then elim (parse_byte_piece token) [
      | none ↦ err (unsupported_tokenizer malformed_piece)
      | some b ↦ ok (b ∷ [])
    ]
    else ok (as_bytes (replace_char space_mark 32 token))

unfoldable pub decode_sentencepiece : List Text → List ℕ → List ℕ → Outcome (List ℕ)
decode_sentencepiece tokens token_types [] = Outcome.pure []
decode_sentencepiece tokens token_types (id ∷ ids) =
    let later = decode_sentencepiece tokens token_types ids in
    elim (get_elem? tokens id) [
      | none ↦ some (err (unsupported_tokenizer token_range))
      | some token ↦ Outcome.◌>>=◌ (unless_panic (get_elem? token_types id)) λ token_type.
          Outcome.◌>>=◌ (some (piece_bytes token token_type))
            λ bytes. Outcome.◌>>=◌ later λ rest. Outcome.pure (bytes ++ rest)
    ]

-- The bytes of `Tokenizer::decode` for this backend: one leading space is removed where one was added.
unfoldable pub without_prefix : Bool → List ℕ → List ℕ
without_prefix add_space_prefix [] = []
without_prefix add_space_prefix (b ∷ bs) = if add_space_prefix && b == 32 then bs else b ∷ bs
