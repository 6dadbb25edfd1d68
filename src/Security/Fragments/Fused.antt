-- ===== src/Security/Fragments/Fused.antt =====
-- The search for a decomposition against the decomposition itself.
use nodejs_template.Prelude.{
  ℕ, zero, suc, ◌≤◌, ◌≡◌, ◌↔◌, inl, inr, refl, sym, ap, ◌∙◌, Bool, true, ◌&&◌, List, [], ◌∷◌, ◌++◌,
  length, length-append, drop, arith, append_assoc, append-nil, Bool-cases,
}
use nodejs_template.Text.{Text, has}
use nodejs_template.Text.Equality.{starts_with-append, starts_with-split}
use nodejs_template.Security.Keywords.{key_fragments}
use nodejs_template.Security.Fragments.{
  max_fragment_length, some_split, known_from, is_known_fragment, fits, keyword_from,
  has_keyword_fragment,
}

-- A text that is a row of words of the list.
pub data Fused (words : List Text) : Text → Type 0 where
  none_left : Fused words []
  word_then :
      (w rest s : Text) → has words w ≡ true → Fused words rest → s ≡ w ++ rest → Fused words s

module _ (words : List Text) where
  some_split_sound :
      (known : Text → Bool) (before after : Text)
      → some_split known words before after ≡ true
      → (w rest : Text) × (before ++ after ≡ w ++ rest) × (has words w ≡ true) × (known rest ≡ true)
  unfolding some_split
  some_split_sound known before [] h = cc
  some_split_sound known before (c ∷ after) h =
      elim (Bool-cases (has words before && known (c ∷ after))) [
        | inl here ↦ (before, c ∷ after, refl, ground arith, ground arith)
        | inr later ↦
            let (w, rest, e, p, q) =
              some_split_sound known (before ++ c ∷ []) after (ground arith) in
            (w, rest, sym (append_assoc before (c ∷ []) after) ∙ e, p, q)
      ]

  known_from_sound : (fuel : ℕ) (s : Text) → known_from words fuel s ≡ true → Fused words s
  unfolding known_from
  known_from_sound fuel [] h = none_left
  known_from_sound zero (c ∷ s) h = word_then (c ∷ s) [] (c ∷ s) h none_left (sym (append-nil _))
  known_from_sound (suc fuel) (c ∷ s) h = elim (Bool-cases (has words (c ∷ s))) [
    | inl whole ↦ word_then (c ∷ s) [] (c ∷ s) whole none_left (sym (append-nil _))
    | inr parts ↦
        let (w, rest, e, p, q) =
          some_split_sound (known_from words fuel) (c ∷ []) s (ground arith) in
        word_then w rest (c ∷ s) p (known_from_sound fuel rest q) e
  ]

  -- `before` is a prefix of the first word.
  some_split_complete :
      (known : Text → Bool) (before w' : Text) (c : ℕ) (rest : Text)
      → has words (before ++ w') ≡ true
      → known (c ∷ rest) ≡ true
      → some_split known words before (w' ++ c ∷ rest) ≡ true
  unfolding some_split
  some_split_complete known before [] c rest p q =
      let p' : has words before ≡ true = rw append-nil at p in ground arith
  some_split_complete known before (d ∷ w') c rest p q =
      let p' : has words ((before ++ d ∷ []) ++ w') ≡ true = rw append_assoc p in
      ground (arith, some_split_complete known (before ++ d ∷ []) w' c rest p' q)

  known_from_step :
      (fuel : ℕ) (c : ℕ) (w rest : Text)
      → has words (c ∷ w) ≡ true
      → known_from words fuel rest ≡ true
      → length (c ∷ (w ++ rest)) ≤ max_fragment_length
      → known_from words (suc fuel) (c ∷ (w ++ rest)) ≡ true
  unfolding known_from
  known_from_step fuel c w [] p q m = rw (append-nil, p) refl
  known_from_step fuel c w (d ∷ rest) p q m =
      ground (arith, some_split_complete (known_from words fuel) (c ∷ []) w d rest p q)

  known_from_complete :
      (fuel : ℕ) {s : Text}
      → length s ≤ fuel
      → length s ≤ max_fragment_length
      → Fused words s
      → known_from words fuel s ≡ true
  known_from_complete fuel l m none_left = unfold known_from in refl
  known_from_complete fuel l m (word_then [] rest s p f e) =
      rw e (known_from_complete fuel (rw e at l) (rw e at m) f)
  known_from_complete zero l m (word_then (c ∷ w) rest s p f e) =
      absurd (omega (arith, ap length e))
  known_from_complete (suc fuel) l m (word_then (c ∷ w) rest s p f e) = rw e (
      known_from_step fuel c w rest p
        (known_from_complete fuel (omega (arith, ap length e, length-append w rest))
          (omega (arith, ap length e, length-append w rest)) f)
        (rw e at m))

-- A fragment of at most 40 units is known exactly when it is a row of affixes and keywords.
is_known_fragment_iff :
    (s : Text)
    → length s ≤ max_fragment_length
    → (is_known_fragment s ≡ true) ↔ Fused key_fragments s
unfolding is_known_fragment
is_known_fragment_iff s m = (
  known_from_sound key_fragments (length s) s,
  known_from_complete key_fragments (length s) (omega arith) m,
)

-- Where a keyword stands in a word, between known fragments.
pub record Embedded (word keyword : Text) : Type 0 where
  pub before : Text
  pub after : Text
  pub here : word ≡ before ++ (keyword ++ after)
  pub known_before : is_known_fragment before ≡ true
  pub known_after : is_known_fragment after ≡ true

drop-append : (p s : Text) → drop (length p) (p ++ s) ≡ s
drop-append [] s = refl
drop-append (c ∷ p) s = drop-append p s

fits_sound :
    (keyword before rest : Text)
    → fits keyword before rest ≡ true
    → Embedded (before ++ rest) keyword
unfolding fits
fits_sound keyword before rest h =
    let (after, e) = starts_with-split keyword rest (ground arith) in
    let dropped : drop (length keyword) rest ≡ after = rw e (drop-append keyword after) in
    let known : is_known_fragment (drop (length keyword) rest) ≡ true = ground arith in
    record {
      before = before;
      after = after;
      here = ap (λ r. before ++ r) e;
      known_before = ground arith;
      known_after = rw dropped at known;
    }

keyword_from_sound :
    (keyword before rest : Text)
    → keyword_from keyword before rest ≡ true
    → Embedded (before ++ rest) keyword
unfolding keyword_from
keyword_from_sound keyword before [] h = fits_sound keyword before [] h
keyword_from_sound keyword before (c ∷ rest) h =
    elim (Bool-cases (fits keyword before (c ∷ rest))) [
      | inl here ↦ fits_sound keyword before (c ∷ rest) here
      | inr later ↦
          rw append_assoc at (keyword_from_sound keyword (before ++ c ∷ []) rest (ground arith))
    ]

keyword_from-fits :
    (keyword before rest : Text)
    → fits keyword before rest ≡ true
    → keyword_from keyword before rest ≡ true
unfolding keyword_from
keyword_from-fits keyword before [] h = h
keyword_from-fits keyword before (c ∷ rest) h = rw h refl

keyword_from_complete :
    (keyword before middle rest : Text)
    → fits keyword (before ++ middle) rest ≡ true
    → keyword_from keyword before (middle ++ rest) ≡ true
unfolding keyword_from
keyword_from_complete keyword before [] rest h =
    keyword_from-fits keyword before rest (rw append-nil at h)
keyword_from_complete keyword before (c ∷ middle) rest h = ground (
  arith,
  keyword_from_complete keyword (before ++ c ∷ []) middle rest
      (rw (append_assoc before (c ∷ []) middle) h),
)

fits-Embedded :
    (before keyword after : Text)
    → is_known_fragment before ≡ true
    → is_known_fragment after ≡ true
    → fits keyword before (keyword ++ after) ≡ true
unfolding fits
fits-Embedded before keyword after p q =
    rw (starts_with-append keyword after, p, drop-append keyword after, q) refl

-- A keyword is found in a word exactly when it stands somewhere in it with known fragments on both
-- sides.
has_keyword_fragment_iff :
    (word keyword : Text) → (has_keyword_fragment word keyword ≡ true) ↔ Embedded word keyword
unfolding has_keyword_fragment
has_keyword_fragment_iff word keyword = (
  keyword_from_sound keyword [] word,
  λ e. rw e.here (
      keyword_from_complete keyword [] e.before (keyword ++ e.after)
        (fits-Embedded e.before keyword e.after e.known_before e.known_after)),
)
