-- ===== src/Runs/Lines.antt =====
-- Sessions at the editor, and words of the tokenizer.
use project_willamette.Prelude.{
  ℕ, ◌≡◌, refl, arith, none, some, List, [], ◌∷◌, ◌++◌, take, length, inl, if◌then◌else◌, ◌==◌,
  ◌&&◌,
}
use project_willamette.Editor.Text.{is_whitespace}
use project_willamette.Editor.State.{
  InputEditor, SearchState, with_history, history_cap, new as new_editor,
}
use project_willamette.Editor.Cursor.{placed, edited}
use project_willamette.Editor.Calls.{Call, call, session}
use project_willamette.Editor.Valid.{Safe}
use project_willamette.Editor.Safety.{session-Safe}
use project_willamette.Editor.Refinement.{Edits, IsLineCall, after, call-refines-Edits}
use project_willamette.Editor.Operations.{delete_word_back}
use project_willamette.Editor.Words.{EndsInWord, delete_word_back-placed}
use project_willamette.Editor.History.{refresh_match, older_match, evict, submit}
use project_willamette.Editor.Browse.{there_and_back, resumed, up_down_restores}
use project_willamette.Editor.Search.{Newest, resume_from, search_finds-Newest, submit_remembers}
use project_willamette.Editor.Eviction.{evict-eq-take}
use project_willamette.Tokenizer.Bpe.{MergeRanks, Symbol, encode_word}
use project_willamette.Tokenizer.Bpe.Merged.{Merges, encode_word-Merges}
use project_willamette.Tokenizer.ByteUnicode.{new, encode_byte, decode_char}
use project_willamette.Tokenizer.ByteUnicode.RoundTrip.{decode_char-encode_byte}

-- Two lines, and an editor that keeps them.
abbrev hello : List ℕ
hello = 104 ∷ 105 ∷ []

abbrev two_lines : List (List ℕ)
two_lines = hello ∷ (98 ∷ []) ∷ []

abbrev keys : List Call
keys =
    Call.typed 97
    ∷ Call.up
    ∷ Call.up
    ∷ Call.down
    ∷ Call.erase_left
    ∷ Call.start_search
    ∷ Call.search_typed 98
    ∷ Call.accept
    ∷ Call.enter
    ∷ []

session-Safe_example : Safe (session keys (with_history two_lines))
session-Safe_example = session-Safe two_lines keys

call-refines-Edits_example :
    (l' : List ℕ) × (r' : List ℕ) × Edits Call.erase_left hello hello l' r'
    × (call Call.erase_left (placed (with_history two_lines) hello hello)
        ≡ some (placed (after Call.erase_left (with_history two_lines)) l' r'))
call-refines-Edits_example =
    call-refines-Edits (with_history two_lines) hello hello IsLineCall.erase_left

one_word : EndsInWord [] hello (32 ∷ [])
unfolding is_whitespace
one_word = record {
  word = (refl, (refl, tt));
  space = (refl, tt);
  before = inl refl;
  nonempty = inl refl;
}

delete_word_back-placed_example :
    delete_word_back (placed (with_history two_lines) ([] ++ (hello ++ (32 ∷ []))) hello)
    ≡ some (placed (edited (with_history two_lines)) [] hello)
delete_word_back-placed_example =
    delete_word_back-placed (with_history two_lines) [] hello (32 ∷ []) hello one_word

up_down_restores_example :
    session (there_and_back 2 keys) (with_history two_lines)
    ≡ session keys (resumed (with_history two_lines))
up_down_restores_example = up_down_restores 1 (with_history two_lines) keys refl (omega arith)

abbrev needle_b : SearchState
needle_b = record { needle = 98 ∷ []; match_idx = some 0 }

search_finds-Newest_example :
    Newest needle_b.needle 0 two_lines (refresh_match two_lines needle_b).match_idx
    × Newest needle_b.needle
        (resume_from needle_b.match_idx)
        two_lines
        (older_match two_lines needle_b).match_idx
search_finds-Newest_example = search_finds-Newest two_lines needle_b 98 [] refl

abbrev fresh : InputEditor
fresh = placed (with_history two_lines) (99 ∷ []) []

submit_remembers_example : submit fresh ≡ (
  record new_editor { history = take history_cap (fresh.buffer ∷ fresh.history) },
  fresh.buffer,
)
submit_remembers_example = submit_remembers fresh (λ e. cc) (λ rest e. cc)

evict-eq-take_example : evict 5 two_lines ≡ take history_cap two_lines
evict-eq-take_example = evict-eq-take 5 two_lines (omega arith)

abbrev ranks : MergeRanks
ranks a b = if length a == 1 && length b == 1 then some 3 else none

abbrev symbols : List Symbol
symbols = (97 ∷ []) ∷ (98 ∷ []) ∷ (99 ∷ []) ∷ []

encode_word-Merges_example : Merges ranks symbols (encode_word ranks symbols)
encode_word-Merges_example = encode_word-Merges ranks symbols

decode_char-encode_byte_example :
    (c : ℕ) × (encode_byte new 0 ≡ some c) × (decode_char new c ≡ some 0)
decode_char-encode_byte_example = decode_char-encode_byte 0 (omega arith)
