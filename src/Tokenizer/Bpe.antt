-- ===== src/Tokenizer/Bpe.antt =====
-- src/tokenizer/bpe.rs: `Bpe::encode_word`. A symbol is a string, the list of its characters; the
-- map of merge ranks is a parameter, `rank a b` being what it holds for the pair.
pub mod Merged
use project_willamette.Prelude.{
  ℕ, zero, suc, ◌+◌, Bool, true, false, Option, none, some, List, [], ◌∷◌, ◌++◌, length, ltb, leb,
  if◌then◌else◌, set, get_elem?, take, drop, ◌>>=◌,
}

-- A symbol, and what `merge_ranks.get` gives for a pair of them.
abbrev pub Symbol : Type 0
Symbol = List ℕ

abbrev pub MergeRanks : Type 0
MergeRanks = Symbol → Symbol → Option ℕ

-- `u32::MAX`
abbrev pub u32_max : ℕ
u32_max = 4294967295

-- The state of the search for the lowest rank: that rank, and the index that has it.
abbrev pub Best : Type 0
Best = ℕ × Option ℕ

unfoldable pub better : Option ℕ → ℕ → Best → Best
better none i best = best
better (some rank) i best = if ltb rank best.0 then (rank, some i) else best

-- The `for` loop over the pairs, `i` being the index of the first symbol of the list.
unfoldable pub scan_pairs : MergeRanks → ℕ → List Symbol → Best → Best
scan_pairs ranks i [] best = best
scan_pairs ranks i (a ∷ []) best = best
scan_pairs ranks i (a ∷ b ∷ rest) best =
    scan_pairs ranks (i + 1) (b ∷ rest) (better (ranks a b) i best)

-- `symbols[idx] = merged` and `symbols.remove(idx + 1)`; `none` is a panic on an index out of range.
unfoldable pub merge_at : ℕ → List Symbol → Option (List Symbol)
merge_at i [] = none
merge_at zero (a ∷ []) = none
merge_at zero (a ∷ b ∷ rest) = some ((a ++ b) ∷ rest)
merge_at (suc i) (a ∷ rest) = do merged ← merge_at i rest; some (a ∷ merged)

-- The `loop`, on fuel: a round that merges shortens the list, so that its length is enough.
unfoldable pub merge_loop : ℕ → MergeRanks → List Symbol → Option (List Symbol)
merge_loop zero ranks symbols = none
merge_loop (suc fuel) ranks symbols = elim (scan_pairs ranks 0 symbols (u32_max, none)).1 [
  | none ↦ some symbols
  | some idx ↦ (do
    merged ← merge_at idx symbols
    if ltb (length merged) 2 then some merged else merge_loop fuel ranks merged)
]

unfoldable pub encode_word : MergeRanks → List Symbol → Option (List Symbol)
encode_word ranks symbols =
    if ltb (length symbols) 2 then some symbols else merge_loop (length symbols) ranks symbols
