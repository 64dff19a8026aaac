-- ===== src/Sampling/Penalty.antt =====
-- `apply_repetition_penalty` of src/model/sampler.rs against a description of it by position.
use project_willamette.Prelude.{
  ℕ, ◌≤◌, ◌<◌, ◌≡◌, refl, sym, ap, ◌∙◌, arith, Bool, true, false, not, ◌&&◌, Option, none, some,
  List, [], ◌∷◌, length, get_elem?, get_elem?-lt, get_elem?-set, get_elem?-set_other, get_elem?-ge,
  set, ltb, ltb→lt, lt→ltb, ◌==◌, ==_iff, if◌then◌else◌, Bool-cases, inl, inr,
}
use project_willamette.Sampling.State.{
  Floats, Sampler, contains_id, penalized, penalize_id, penalize, apply_repetition_penalty,
}

module _ {F : Type 0} (f : Floats F) where
  -- A logit, penalized once if its id was seen before.
  abbrev scaled : F → Bool → Option F → Option F
  scaled r seen none = none
  scaled r seen (some l) = some (if seen then penalized f r l else l)

  penalize_id-new :
      (r : F) (id : ℕ) (seen : List ℕ) (logits : List F)
      → id < length logits
      → contains_id seen id ≡ false
      → (l : F) × (get_elem? logits id ≡ some l)
        × (penalize_id f r id (seen, logits) ≡ (id ∷ seen, set logits id (penalized f r l)))
  unfolding penalize_id
  penalize_id-new r id seen logits lt fresh =
      let (l, at) = get_elem?-lt logits id lt in
      (l, at, rw (lt→ltb id (length logits) lt, fresh, at) refl)

  same_id : (id i : ℕ) (ids : List ℕ) → (id == i) ≡ true → contains_id (id ∷ ids) i ≡ true
  unfolding contains_id
  same_id id i ids h = rw h refl

  other_id :
      (id i : ℕ) (ids : List ℕ) → (id == i) ≡ false → contains_id (id ∷ ids) i ≡ contains_id ids i
  unfolding contains_id
  other_id id i ids h = rw h refl

  and_false : (b : Bool) → (b && false) ≡ false
  and_false true = refl
  and_false false = refl

  scaled-false : (r : F) (o : Option F) → scaled r false o ≡ o
  scaled-false r none = refl
  scaled-false r (some l) = refl

  -- What the rounds for `id ∷ ids` do to position `i`, given what those for `ids` do.
  first-new :
      (r l : F) (id i : ℕ) (ids seen : List ℕ) (logits : List F)
      → id < length logits
      → get_elem? logits id ≡ some l
      → contains_id seen id ≡ false
      → scaled r
          (contains_id ids i && not (contains_id (id ∷ seen) i))
          (get_elem? (set logits id (penalized f r l)) i)
        ≡ scaled r (contains_id (id ∷ ids) i && not (contains_id seen i)) (get_elem? logits i)
  first-new r l id i ids seen logits lt at fresh = elim (Bool-cases (id == i)) [
    | inl same ↦
        let eq : id ≡ i = (==_iff id i).0 same in
        rw
          (
            same_id id i ids same,
            same_id id i seen same,
            sym eq,
            at,
            fresh,
            get_elem?-set logits id (penalized f r l) lt,
          )
          (ap (λ b. some (if b then penalized f r (penalized f r l) else penalized f r l))
            (and_false (contains_id ids id)))
    | inr other ↦
        rw
          (
            other_id id i ids other,
            other_id id i seen other,
            get_elem?-set_other logits id i (penalized f r l) other,
          )
          refl
  ]

  beyond :
      (logits : List F) (i id : ℕ) (seen : List ℕ)
      → (ltb id (length logits) && not (contains_id seen id)) ≡ false
      → id ≡ i
      → contains_id seen i ≡ false
      → length logits ≤ i
  beyond logits i id seen skip eq fresh =
      let unseen : contains_id seen id ≡ false = rw eq fresh in
      elim (Bool-cases (ltb id (length logits))) [
        | inl lt ↦ cc (rw (lt, unseen) at skip)
        | inr ge ↦ omega (arith, eq, not_lt id (length logits) ge)
      ]
    where
      not_lt : (a b : ℕ) → ltb a b ≡ false → b ≤ a
      not_lt a b h = ground arith

  first-old :
      (r : F) (id i : ℕ) (ids seen : List ℕ) (logits : List F)
      → (ltb id (length logits) && not (contains_id seen id)) ≡ false
      → scaled r (contains_id ids i && not (contains_id seen i)) (get_elem? logits i)
        ≡ scaled r (contains_id (id ∷ ids) i && not (contains_id seen i)) (get_elem? logits i)
  first-old r id i ids seen logits skip = elim (Bool-cases (id == i)) [
    | inr other ↦ rw (other_id id i ids other) refl
    | inl same ↦ elim (Bool-cases (contains_id seen i)) [
      | inl old ↦ rw (old, and_false (contains_id ids i), and_false (contains_id (id ∷ ids) i)) refl
      | inr fresh ↦
          rw (get_elem?-ge logits i (beyond logits i id seen skip ((==_iff id i).0 same) fresh))
            refl
    ]
  ]

  penalize-get_elem? :
      (r : F) (ids seen : List ℕ) (logits : List F) (i : ℕ)
      → get_elem? (penalize f r ids (seen, logits)) i
        ≡ scaled r (contains_id ids i && not (contains_id seen i)) (get_elem? logits i)
  unfolding penalize penalize_id contains_id
  penalize-get_elem? r [] seen logits i = sym (scaled-false r (get_elem? logits i))
  penalize-get_elem? r (id ∷ ids) seen logits i =
      elim (Bool-cases (ltb id (length logits) && not (contains_id seen id))) [
        | inr skip ↦
            rw (penalize_id, skip)
              (penalize-get_elem? r ids seen logits i ∙ first-old r id i ids seen logits skip)
        | inl go ↦
            let (lt, fresh) = both id seen logits go in
            let (l, at, step) = penalize_id-new r id seen logits lt fresh in
            ap (λ p. get_elem? (penalize f r ids p) i) step
            ∙ penalize-get_elem? r ids (id ∷ seen) (set logits id (penalized f r l)) i
            ∙ first-new r l id i ids seen logits lt at fresh
      ]
    where
      both :
          (id : ℕ) (seen : List ℕ) (logits : List F)
          → (ltb id (length logits) && not (contains_id seen id)) ≡ true
          → (id < length logits) × (contains_id seen id ≡ false)
      both id seen logits h = elim (Bool-cases (contains_id seen id)) [
        | inl old ↦ cc (rw (old, and_false (ltb id (length logits))) at h)
        | inr fresh ↦ (ltb→lt id (length logits) (left _ (rw fresh at h)), fresh)
      ]
        where
          left : (b : Bool) → (b && true) ≡ true → b ≡ true
          left true h = refl
          left false h = cc

  -- What is promised of a logit, by its sign and by whether its id is in the history.
  abbrev pub described : F → Bool → Option F → Option F
  described r seen none = none
  described r false (some l) = some l
  described r true (some l) = some (if f.less f.zero_f32 l then f.div l r else f.mul l r)

  scaled-described : (r : F) (seen : Bool) (o : Option F) → scaled r seen o ≡ described r seen o
  unfolding penalized
  scaled-described r seen none = refl
  scaled-described r false (some l) = refl
  scaled-described r true (some l) = refl

-- Where the repetition penalty is set and neither at most zero nor within 1e-9 of one, a logit whose id is in
-- the history, however often and wherever it is there, is divided by the penalty once if it is positive
-- and multiplied by it once if it is not, and the other logits are left alone.
pub apply_repetition_penalty-get_elem? :
    {F : Type 0} (f : Floats F) (s : Sampler F) (logits : List F) (r : F) (i : ℕ)
    → s.params.repetition_penalty ≡ some r
    → f.less_eq r f.zero_f32 ≡ false
    → f.less (f.abs (f.sub r f.one)) f.tiny ≡ false
    → get_elem? (apply_repetition_penalty f s logits) i
      ≡ described f r (contains_id s.history i) (get_elem? logits i)
unfolding apply_repetition_penalty contains_id
apply_repetition_penalty-get_elem? f s logits r i set_to positive far =
    rw (apply_repetition_penalty, set_to, positive, far)
      (penalize-get_elem? f r s.history [] logits i
        ∙ ap (λ b. scaled f r b (get_elem? logits i)) (and_true (contains_id s.history i))
        ∙ scaled-described f r (contains_id s.history i) (get_elem? logits i))
  where
    and_true : (b : Bool) → (b && true) ≡ b
    and_true true = refl
    and_true false = refl
