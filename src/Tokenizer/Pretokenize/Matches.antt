-- ===== src/Tokenizer/Pretokenize/Matches.antt =====
-- Splitting a text by the matches of an expression, in src/tokenizer/pretokenize.rs, loses nothing.
use project_willamette.Prelude.{
  ℕ, ◌-◌, ◌≤◌, ◌<◌, ◌≡◌, refl, sym, ap, ◌∙◌, arith, Option, some, List, [], ◌∷◌, ◌++◌, length, take,
  drop, slice?, slice?-some, concat, concat-append, take-drop_split, take_all, drop_all,
  length-take, length-drop, All, All-append, map, ltb, if◌then◌else◌, ◌>>=◌, Bool-cases, inl, inr,
}
use mathlib.Core.Path.{subst}
use mathlib.Core.List.{map-append, append-nil}
use project_willamette.Tokenizer.Pretokenize.Qwen2.{Text}
use project_willamette.Tokenizer.Pretokenize.{
  Regex, split_matches, itself, alone, split_by_regex, Marked, matched, unmatched, alone_unmatched,
  extract, extend_each,
}

abbrev pub IsFull : Text → Type 0
IsFull s = 0 < length s

-- The pieces come, spell the text, and none of them is empty.
abbrev pub Splits : {A : Type 0} → (A → Text) → Option (List A) → Text → Type 0
Splits {A} view out text =
    (ps : List A) × (out ≡ some ps) × (concat (map view ps) ≡ text) × All (λ p. IsFull (view p)) ps

-- Matches in order, none empty and none beyond `n`, from `last` on.
abbrev pub IsOrdered : ℕ → ℕ → List (ℕ × ℕ) → Type 0
IsOrdered n last [] = Unit
IsOrdered n last ((start, end) ∷ ms) =
    (last ≤ start) × (start < end) × (end ≤ n) × IsOrdered n end ms

-- What the regex crate documents of `find_iter`, for an expression that matches no empty text.
abbrev pub IsFinder : Regex → Type 0
IsFinder re = (s : Text) → IsOrdered (length s) 0 (re.find_iter s)

part-IsFull :
    (from to : ℕ) (s : Text) → from < to → to ≤ length s → IsFull (take (to - from) (drop from s))
part-IsFull from to s h k = omega (arith, length-take (to - from) (drop from s), length-drop from s)

module _ {A : Type 0} (gap : Text → Text → Option (List A)) (hit rest : Text → A) (view : A → Text)
    (gap_splits : (g found : Text) → IsFull g → Splits view (gap g found) g)
    (view_hit : (s : Text) → view (hit s) ≡ s) (view_rest : (s : Text) → view (rest s) ≡ s) where
  before-Splits :
      (chunk found : Text) (last start : ℕ)
      → last ≤ start
      → start ≤ length chunk
      → Splits view
          (if ltb last start then (slice? last start chunk >>= λ s. gap s found) else some [])
          (take (start - last) (drop last chunk))
  before-Splits chunk found last start h k = elim (Bool-cases (ltb last start)) [
    | inl some_gap ↦
        rw (some_gap, slice?-some last start chunk h k)
          (gap_splits (take (start - last) (drop last chunk)) found
            (part-IsFull last start chunk (ground arith) k))
    | inr no_gap ↦
        let nothing : 0 ≡ start - last = ground arith in
        rw no_gap ([], refl, ap (λ n. take n (drop last chunk)) nothing, tt)
  ]

  glued :
      (bs qs : List A) (p : A) {found : Text} (l r : Text)
      → concat (map view bs) ≡ l
      → view p ≡ found
      → concat (map view qs) ≡ r
      → concat (map view (bs ++ (p ∷ qs))) ≡ l ++ (found ++ r)
  glued bs qs p l r h k m = rw (map-append, concat-append, h, k, m) refl

  pub split_matches-Splits :
      (chunk : Text) (last : ℕ) (ms : List (ℕ × ℕ))
      → last ≤ length chunk
      → IsOrdered (length chunk) last ms
      → Splits view (split_matches gap hit rest chunk last ms) (drop last chunk)
  unfolding split_matches
  split_matches-Splits chunk last [] h o = elim (Bool-cases (ltb last (length chunk))) [
    | inl more ↦
        let whole : take (length chunk - last) (drop last chunk) ≡ drop last chunk =
          take_all (length chunk - last) (drop last chunk)
            (omega (arith, length-drop last chunk)) in
        rw (more, slice?-some last (length chunk) chunk h (omega arith))
          (
            rest (take (length chunk - last) (drop last chunk)) ∷ [],
            refl,
            append-nil (view (rest (take (length chunk - last) (drop last chunk))))
                ∙ view_rest _
                ∙ whole,
            (
              subst IsFull (sym (view_rest _))
                  (part-IsFull last (length chunk) chunk (ground arith) (omega arith)),
              tt,
            ),
          )
    | inr no_more ↦ rw no_more ([], refl, sym (drop_all last chunk (ground arith)), tt)
  ]
  split_matches-Splits chunk last ((start, end) ∷ ms) h o =
      let found = take (end - start) (drop start chunk) in
      let (bs, bs_ok, bs_text, bs_full) =
        before-Splits chunk found last start o.0 (omega (arith, o.1, o.2)) in
      let (qs, qs_ok, qs_text, qs_full) = split_matches-Splits chunk end ms o.2 o.3 in
      let here : IsFull (view (hit found)) =
        subst IsFull (sym (view_hit found)) (part-IsFull start end chunk o.1 o.2) in
      rw (slice?-some start end chunk (omega (arith, o.1)) o.2, bs_ok, qs_ok)
        (
          bs ++ (hit found ∷ qs),
          refl,
          glued bs qs (hit found) (take (start - last) (drop last chunk)) (drop end chunk) bs_text
                (view_hit found) qs_text
              ∙ ap (λ t. take (start - last) (drop last chunk) ++ t)
                  (take-drop_split start end chunk (omega (arith, o.1)))
              ∙ take-drop_split last start chunk o.0,
          All-append (λ p. IsFull (view p)) bs (hit found ∷ qs) bs_full (here, qs_full),
        )

-- The two loops of the source whose gaps are pieces of their own.
pub split_by_regex-Splits :
    (re : Regex) → IsFinder re → (s : Text) → Splits itself (split_by_regex s re) s
unfolding split_by_regex
split_by_regex-Splits re finds s =
    split_matches-Splits alone itself itself itself
      (λ g found full. (g ∷ [], refl, append-nil g, (full, tt))) (λ s. refl) (λ s. refl) s 0
      (re.find_iter s) (omega arith) (finds s)

abbrev pub text_of : Marked → Text
text_of p = p.1

pub extract-Splits : (re : Regex) → IsFinder re → (s : Text) → Splits text_of (extract s re) s
unfolding extract
extract-Splits re finds s =
    split_matches-Splits alone_unmatched matched unmatched text_of
      (λ g found full. (unmatched g ∷ [], refl, append-nil g, (full, tt))) (λ s. refl) (λ s. refl) s
      0 (re.find_iter s) (omega arith) (finds s)

-- A loop whose rounds split each piece splits the whole.
pub extend_each-Splits :
    {A B : Type 0} (view : A → Text) (view' : B → Text) (f : A → Option (List B)) (xs : List A)
    → ((x : A) → IsFull (view x) → Splits view' (f x) (view x))
    → All (λ x. IsFull (view x)) xs
    → Splits view' (extend_each f xs) (concat (map view xs))
unfolding extend_each
extend_each-Splits view view' f [] h full = ([], refl, refl, tt)
extend_each-Splits view view' f (x ∷ xs) h full =
    let (ys, ys_ok, ys_text, ys_full) = h x full.0 in
    let (zs, zs_ok, zs_text, zs_full) = extend_each-Splits view view' f xs h full.1 in
    rw (ys_ok, zs_ok)
      (
        ys ++ zs,
        refl,
        rw (map-append, concat-append, ys_text, zs_text) refl,
        All-append (λ p. IsFull (view' p)) ys zs ys_full zs_full,
      )
