-- ===== src/Tokenizer/Driver/Prompts.antt =====
-- What the prompts that src/tokenizer/mod.rs encodes with a GPT-2 vocabulary decode to.
use project_willamette.Prelude.{
  ℕ, ◌≤◌, ◌<◌, ◌≡◌, refl, sym, ap, ◌∙◌, arith, false, Option, none, some, List, [], ◌∷◌, ◌++◌,
  length, concat, get_elem?, All, leb, Bool-cases, inl, inr,
}
use mathlib.Core.Path.{subst}
use mathlib.Core.List.{append-nil}
use project_willamette.Gguf.Result.{ok}
use project_willamette.Gguf.Outcome.{pure, >>=-eq-pure}
use project_willamette.Sampling.State.{Floats}
use project_willamette.Tokenizer.ByteUnicode
use project_willamette.Tokenizer.ByteUnicode.{new, decode_char}
use project_willamette.Tokenizer.Pretokenize.Qwen2.{Text}
use project_willamette.Tokenizer.Pretokenize.Lossless.{AreFinders}
use project_willamette.Tokenizer.Vocabulary.{
  as_bytes, utf8_char, as_bytes-append, char_end, token_id, token_id-get, u32_mod,
}
use project_willamette.Tokenizer.Gpt2.{Gpt2, is_smol_lm, bytes_of_token, decode_gpt2}
use project_willamette.Tokenizer.Gpt2.RoundTrip.{decode_gpt2-encode_gpt2, decode-append}
use project_willamette.Tokenizer.SentencePiece.{decode_sentencepiece}
use project_willamette.Tokenizer.Driver.{
  Tokenizer, TokenizerBackend, gpt2, sentence_piece, encode_joined, PromptPart, text, special,
  im_start, im_end, system_line, user_line, assistant_line, newline, encode_text, checked_special,
  encode_part, encode_each, encode_with_specials, ok_or_marker, chatml_marker_ids, system_parts,
  user_parts, encode_chatml_turn, decode_to_bytes,
}

-- The text of a turn.
abbrev pub user_text : Text → Text
user_text prompt =
    im_start ++ (user_line ++ (prompt ++ (im_end ++ (newline ++ (im_start ++ assistant_line)))))

abbrev pub turn_text : Option Text → Text → Text
turn_text none prompt = user_text prompt
turn_text (some s) prompt =
    im_start ++ (system_line ++ (s ++ (im_end ++ (newline ++ user_text prompt))))

-- The same, part by part.
abbrev user_pieces : Text → List Text
user_pieces prompt =
    im_start ∷ user_line ∷ prompt ∷ im_end ∷ newline ∷ im_start ∷ assistant_line ∷ []

abbrev turn_pieces : Option Text → Text → List Text
turn_pieces none prompt = user_pieces prompt
turn_pieces (some s) prompt = im_start ∷ system_line ∷ s ∷ im_end ∷ newline ∷ user_pieces prompt

concat-turn_pieces :
    (system : Option Text) (prompt : Text)
    → concat (turn_pieces system prompt) ≡ turn_text system prompt
concat-turn_pieces none prompt = refl
concat-turn_pieces (some s) prompt = refl

-- A text of characters.
abbrev pub IsText : Text → Type 0
IsText s = All (λ c. c < char_end) s

im_start-bytes : bytes_of_token new im_start ≡ ok (as_bytes im_start)
unfolding bytes_of_token new as_bytes decode_char ByteUnicode.lookup ByteUnicode.inverse_of
    ByteUnicode.table_from ByteUnicode.printable utf8_char
im_start-bytes = refl

im_end-bytes : bytes_of_token new im_end ≡ ok (as_bytes im_end)
unfolding bytes_of_token new as_bytes decode_char ByteUnicode.lookup ByteUnicode.inverse_of
    ByteUnicode.table_from ByteUnicode.printable utf8_char
im_end-bytes = refl

IsText-lines : IsText system_line × IsText user_line × IsText assistant_line × IsText newline
IsText-lines = ground arith

abbrev pub IsSystem : Option Text → Type 0
IsSystem none = Unit
IsSystem (some s) = IsText s

module _ {F : Type 0} (f : Floats F) (t : Tokenizer F) (backend : Gpt2)
    (is_gpt2 : t.backend ≡ gpt2 backend) (fit : length t.id_to_token ≤ u32_mod)
    (plain : is_smol_lm backend.pretokenizer ≡ false) (table : backend.byte_unicode ≡ new)
    (finds : AreFinders backend.regexes) where
  -- What a part stands for.
  abbrev Spells : PromptPart → Text → Type 0
  Spells (text s) out = (s ≡ out) × IsText s
  Spells (special id) out =
      (get_elem? t.id_to_token id ≡ some out) × (bytes_of_token new out ≡ ok (as_bytes out))

  abbrev Decodes : List ℕ → Text → Type 0
  Decodes ids out = decode_gpt2 backend.byte_unicode t.id_to_token ids ≡ ok (as_bytes out)

  encode_part-Decodes :
      (p : PromptPart) (out : Text) (ids : List ℕ)
      → Spells p out
      → encode_part f t p ≡ some (ok ids)
      → Decodes ids out
  unfolding encode_part encode_text decode_gpt2 checked_special
  encode_part-Decodes (text s) out ids (same, chars) h =
      decode_gpt2-encode_gpt2 backend t.id_to_token s ids fit plain table finds chars
        (rw is_gpt2 at h)
      ∙ ap (λ s. ok (as_bytes s)) same
  encode_part-Decodes (special id) out ids (at, own) h =
      elim (Bool-cases (leb (length t.id_to_token) id)) [
        | inl beyond ↦ cc (rw beyond at h)
        | inr within ↦
            subst (λ ids. Decodes ids out) (only (rw within at h))
              (rw (decode_gpt2, at, ap (λ t. bytes_of_token t out) table ∙ own)
                (ap ok (append-nil (as_bytes out))))
      ]
    where
      only : {l m : List ℕ} → some (ok l) ≡ some (ok m) → l ≡ m
      only p = cc

  abbrev Spelled : List PromptPart → List Text → Type 0
  Spelled [] [] = Unit
  Spelled [] (s ∷ ss) = ⊥
  Spelled (p ∷ ps) [] = ⊥
  Spelled (p ∷ ps) (s ∷ ss) = Spells p s × Spelled ps ss

  user-Spelled :
      (prompt : Text) (start end : ℕ)
      → get_elem? t.id_to_token start ≡ some im_start
      → get_elem? t.id_to_token end ≡ some im_end
      → IsText prompt
      → Spelled (user_parts start end prompt) (user_pieces prompt)
  unfolding user_parts
  user-Spelled prompt start end start_at end_at chars =
      let (_, user, assistant, line) = IsText-lines in
      (
        (start_at, im_start-bytes),
        (
          (refl, user),
          (
            (refl, chars),
            (
              (end_at, im_end-bytes),
              ((refl, line), ((start_at, im_start-bytes), ((refl, assistant), tt))),
            ),
          ),
        ),
      )

  turn-Spelled :
      (system : Option Text) (prompt : Text) (start end : ℕ)
      → get_elem? t.id_to_token start ≡ some im_start
      → get_elem? t.id_to_token end ≡ some im_end
      → IsSystem system
      → IsText prompt
      → Spelled
          (system_parts start end system ++ user_parts start end prompt)
          (turn_pieces system prompt)
  unfolding system_parts user_parts
  turn-Spelled none prompt start end start_at end_at system_chars chars =
      user-Spelled prompt start end start_at end_at chars
  turn-Spelled (some s) prompt start end start_at end_at system_chars chars =
      let (system, _, _, line) = IsText-lines in
      (
        (start_at, im_start-bytes),
        (
          (refl, system),
          (
            (refl, system_chars),
            (
              (end_at, im_end-bytes),
              ((refl, line), user-Spelled prompt start end start_at end_at chars),
            ),
          ),
        ),
      )

  encode_each-Decodes :
      (ps : List PromptPart) (ss : List Text) (ids : List ℕ)
      → Spelled ps ss
      → encode_each f t ps ≡ some (ok ids)
      → Decodes ids (concat ss)
  unfolding encode_each decode_gpt2 as_bytes
  encode_each-Decodes [] [] ids h e = subst (λ ids. Decodes ids []) (only e) refl
    where
      only : {l m : List ℕ} → some (ok l) ≡ some (ok m) → l ≡ m
      only p = cc
  encode_each-Decodes [] (s ∷ ss) ids h e = absurd h
  encode_each-Decodes (p ∷ ps) [] ids h e = absurd h
  encode_each-Decodes (p ∷ ps) (s ∷ ss) ids h e =
      let (xs, xs_ok, e1) = >>=-eq-pure (encode_part f t p) _ e in
      let (ys, ys_ok, e2) = >>=-eq-pure (encode_each f t ps) (λ rest. pure (xs ++ rest)) e1 in
      subst (λ ids. Decodes ids (s ++ concat ss)) (only e2)
        (decode-append backend.byte_unicode t.id_to_token xs ys _ _
            (encode_part-Decodes p s xs h.0 xs_ok) (encode_each-Decodes ps ss ys h.1 ys_ok)
          ∙ ap ok (sym (as_bytes-append s (concat ss))))
    where
      only : {l m : List ℕ} → some (ok l) ≡ some (ok m) → l ≡ m
      only p = cc

ok_or_marker-ok : (o : Option ℕ) (id : ℕ) → ok_or_marker o ≡ some (ok id) → o ≡ some id
unfolding ok_or_marker
ok_or_marker-ok none id h = cc
ok_or_marker-ok (some x) id h = cc

-- The ids of the markers are those of the vocabulary.
chatml_marker_ids-get :
    {F : Type 0} (t : Tokenizer F) (start end : ℕ)
    → length t.id_to_token ≤ u32_mod
    → chatml_marker_ids t ≡ some (ok (start, end))
    → (get_elem? t.id_to_token start ≡ some im_start) × (get_elem? t.id_to_token end ≡ some im_end)
unfolding chatml_marker_ids
chatml_marker_ids-get t start end fit h =
    let (s, s_ok, h1) = >>=-eq-pure (ok_or_marker (token_id t.id_to_token im_start)) _ h in
    let (e, e_ok, h2) =
      >>=-eq-pure (ok_or_marker (token_id t.id_to_token im_end)) (λ e. pure (s, e)) h1 in
    let first : s ≡ start = ap (λ p. p.0) (pair_same h2) in
    let second : e ≡ end = ap (λ p. p.1) (pair_same h2) in
    (
      ap (get_elem? t.id_to_token) (sym first)
          ∙ token_id-get t.id_to_token im_start s fit
              (ok_or_marker-ok (token_id t.id_to_token im_start) s s_ok),
      ap (get_elem? t.id_to_token) (sym second)
          ∙ token_id-get t.id_to_token im_end e fit
              (ok_or_marker-ok (token_id t.id_to_token im_end) e e_ok),
    )
  where
    pair_same : {p q : ℕ × ℕ} → some (ok p) ≡ some (ok q) → p ≡ q
    pair_same h = cc

encode_with_specials-gpt2 :
    {F : Type 0} (f : Floats F) (t : Tokenizer F) (backend : Gpt2) (parts : List PromptPart)
    → t.backend ≡ gpt2 backend
    → encode_with_specials f t parts ≡ encode_each f t parts
unfolding encode_with_specials
encode_with_specials-gpt2 {F} f t backend parts is_gpt2 =
    ap
      (λ (b : TokenizerBackend F). elim b [
        | gpt2 _ ↦ encode_each f t parts
        | sentence_piece _ ↦ encode_joined f t [] parts
      ])
      is_gpt2

decode_to_bytes-gpt2 :
    {F : Type 0} (t : Tokenizer F) (backend : Gpt2) (ids : List ℕ)
    → t.backend ≡ gpt2 backend
    → decode_to_bytes t ids ≡ some (decode_gpt2 backend.byte_unicode t.id_to_token ids)
unfolding decode_to_bytes
decode_to_bytes-gpt2 {F} t backend ids is_gpt2 =
    ap
      (λ (b : TokenizerBackend F). elim b [
        | gpt2 g ↦ some (decode_gpt2 g.byte_unicode t.id_to_token ids)
        | sentence_piece s ↦ decode_sentencepiece t.id_to_token s.token_types ids
      ])
      is_gpt2

-- For a GPT-2 tokenizer of at most 2 ^ 32 tokens that is not SmolLM's, with the table of
-- `ByteUnicode::new` and expressions that find matches in order, none of them empty: where
-- `encode_chatml_turn` gives ids for a turn whose texts are of characters, the id beside them is that of the
-- end marker, and the ids decode to the bytes of the turn as ChatML writes it, markers included.
pub encode_chatml_turn-decodes :
    {F : Type 0} (f : Floats F) (t : Tokenizer F) (backend : Gpt2) (system : Option Text)
    (prompt : Text) (ids : List ℕ) (end : ℕ)
    → t.backend ≡ gpt2 backend
    → length t.id_to_token ≤ u32_mod
    → is_smol_lm backend.pretokenizer ≡ false
    → backend.byte_unicode ≡ new
    → AreFinders backend.regexes
    → IsSystem system
    → IsText prompt
    → encode_chatml_turn f t system prompt ≡ some (ok (ids, end))
    → (get_elem? t.id_to_token end ≡ some im_end)
      × (decode_to_bytes t ids ≡ some (ok (as_bytes (turn_text system prompt))))
unfolding encode_chatml_turn system_parts user_parts
encode_chatml_turn-decodes f t backend system prompt ids end is_gpt2 fit plain table finds
      system_chars chars h =
    let ((start, end'), markers, h1) = >>=-eq-pure (chatml_marker_ids t) _ h in
    let (xs, xs_ok, h2) =
      >>=-eq-pure
        (encode_with_specials f t (system_parts start end' system ++ user_parts start end' prompt))
        (λ ids. pure (ids, end')) h1 in
    let (start_at, end_at) = chatml_marker_ids-get t start end' fit markers in
    let same : (xs, end') ≡ (ids, end) = pair_same h2 in
    let decoded =
      encode_each-Decodes f t backend is_gpt2 fit plain table finds
        (system_parts start end' system ++ user_parts start end' prompt) (turn_pieces system prompt)
        xs
        (turn-Spelled f t backend is_gpt2 fit plain table finds system prompt start end' start_at
          end_at system_chars chars)
        (sym (
            encode_with_specials-gpt2 f t backend
              (system_parts start end' system ++ user_parts start end' prompt) is_gpt2)
          ∙ xs_ok) in
    (
      ap (λ (p : List ℕ × ℕ). get_elem? t.id_to_token p.1) (sym same) ∙ end_at,
      ap (λ (p : List ℕ × ℕ). decode_to_bytes t p.0) (sym same)
          ∙ decode_to_bytes-gpt2 t backend xs is_gpt2
          ∙ (ap some (decoded ∙ ap (λ s. ok (as_bytes s)) (concat-turn_pieces system prompt))),
    )
  where
    pair_same : {p q : List ℕ × ℕ} → some (ok p) ≡ some (ok q) → p ≡ q
    pair_same h = cc
