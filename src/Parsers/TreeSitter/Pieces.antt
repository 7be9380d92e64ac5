-- ===== src/Parsers/TreeSitter/Pieces.antt =====
-- The pieces that the regions are split into cover the source once and in order.
use graph_blizz.Prelude.{
  ℕ, zero, suc, ◌+◌, ◌-◌, ◌≤◌, ◌≡◌, refl, ap, subst, ◌∙◌, arith, Bool, false, not, Bool-cases, inl,
  inr, List, [], ◌∷◌, ◌++◌, length, map, take, drop, is_space, leb, ◌&&◌, Text, All, length-append,
}
use graph_blizz.Parsers.Intervals.{Interval, Tiles, Tiles-append, Tiles-le, slice}
use graph_blizz.Parsers.TreeSitter.{
  Region, span, token_starts, first_and, every, char_cuts, pairwise, pairwise_all, Codec, byte_cuts,
  split_by_token_limit,
}

-- Positions that do not fall, between two bounds.
abbrev Ascends : ℕ → ℕ → List ℕ → Type 0
Ascends lo hi [] = lo ≤ hi
Ascends lo hi (x ∷ xs) = (lo ≤ x) × Ascends x hi xs

Ascends-lower : (a b hi : ℕ) (xs : List ℕ) → a ≤ b → Ascends b hi xs → Ascends a hi xs
Ascends-lower a b hi [] h k = omega (arith, h, k)
Ascends-lower a b hi (x ∷ xs) h k = (omega (arith, h, k.0), k.1)

drop-Ascends : (n lo hi : ℕ) (xs : List ℕ) → Ascends lo hi xs → Ascends lo hi (drop n xs)
drop-Ascends zero lo hi xs h = h
drop-Ascends (suc n) lo hi [] h = h
drop-Ascends (suc n) lo hi (x ∷ xs) h = drop-Ascends n lo hi xs (Ascends-lower lo x hi xs h.0 h.1)

Ascends-le : (lo hi : ℕ) (xs : List ℕ) → Ascends lo hi xs → lo ≤ hi
Ascends-le lo hi [] h = h
Ascends-le lo hi (x ∷ xs) h = omega (arith, h.0, Ascends-le x hi xs h.1)

first_and-Ascends :
    (lo hi : ℕ) (next later : List ℕ)
    → Ascends lo hi next
    → ((x : ℕ) → Ascends x hi next → Ascends x hi later)
    → Ascends lo hi (first_and next later)
first_and-Ascends lo hi [] later h k = h
first_and-Ascends lo hi (x ∷ rest) later h k = (h.0, k x (omega arith, h.1))

every-Ascends :
    (fuel limit lo hi : ℕ) (xs : List ℕ) → Ascends lo hi xs → Ascends lo hi (every fuel limit xs)
unfolding every
every-Ascends zero limit lo hi xs h = Ascends-le lo hi xs h
every-Ascends (suc fuel) limit lo hi xs h =
    first_and-Ascends lo hi (drop limit xs) _ (drop-Ascends limit lo hi xs h)
      (λ x k. every-Ascends fuel limit x hi (drop limit xs) k)

token_starts-Ascends :
    (position : ℕ) (in_token : Bool) (text : Text)
    → Ascends position (position + length text) (token_starts position in_token text)
unfolding token_starts
token_starts-Ascends position in_token [] = omega arith
token_starts-Ascends position in_token (c ∷ text) =
    let later =
      subst (λ n. Ascends (suc position) n (token_starts (suc position) (not (is_space c)) text))
        (omega arith) (token_starts-Ascends (suc position) (not (is_space c)) text) in
    let wider = Ascends-lower position (suc position) _ _ (omega arith) later in
    elim (Bool-cases (not (is_space c) && not in_token)) [
      | inl begins ↦ rw begins (omega arith, wider)
      | inr other ↦ rw other wider
    ]

-- What the documentation of Python says of the codec: it encodes a text character by character.
pub record IsCodec (codec : Codec) : Type 0 where
  pub append : (s t : Text) → codec.encode (s ++ t) ≡ codec.encode s ++ codec.encode t

take-le : (m n : ℕ) (text : Text) → m ≤ n → (rest : Text) × (take n text ≡ take m text ++ rest)
take-le zero n text h = (take n text, refl)
take-le (suc m) zero text h = absurd (omega (arith, h))
take-le (suc m) (suc n) [] h = ([], refl)
take-le (suc m) (suc n) (c ∷ text) h =
    let (rest, same) = take-le m n text (omega (arith, h)) in (rest, ap (λ t. c ∷ t) same)

take-length : (text : Text) → take (length text) text ≡ text
take-length [] = refl
take-length (c ∷ text) = ap (λ t. c ∷ t) (take-length text)

module _ (codec : Codec) (laws : IsCodec codec) (start : ℕ) (text : Text) where
  abbrev byte_cut : ℕ → ℕ
  byte_cut cut = start + length (codec.encode (take cut text))

  byte_cut-le : (m n : ℕ) → m ≤ n → byte_cut m ≤ byte_cut n
  byte_cut-le m n h =
      let (rest, same) = take-le m n text h in
      let longer = ap (λ t. length (codec.encode t)) same in
      let parts = ap (λ bytes. length bytes) (laws.append (take m text) rest) in
      omega (arith, longer, parts, length-append (codec.encode (take m text)) (codec.encode rest))

  pairwise-Tiles :
      (lo hi : ℕ) (cuts : List ℕ)
      → Ascends lo hi cuts
      → Tiles
          (byte_cut lo)
          (byte_cut hi)
          (pairwise (byte_cut lo) (byte_cuts codec start text (cuts ++ hi ∷ [])))
  unfolding pairwise
  pairwise-Tiles lo hi [] h = (refl, byte_cut-le lo hi h, refl)
  pairwise-Tiles lo hi (x ∷ cuts) h = (refl, byte_cut-le lo x h.0, pairwise-Tiles x hi cuts h.1)

  cuts-Tiles :
      (limit : ℕ)
      → Tiles
          (byte_cut 0)
          (byte_cut (length text))
          (pairwise_all (byte_cuts codec start text (char_cuts limit text)))
  unfolding char_cuts
  cuts-Tiles limit =
      let starts = token_starts 0 false text in
      pairwise-Tiles 0 (length text) (every (length starts) limit starts) (
        every-Ascends (length starts) limit 0 (length text) starts
          (subst (λ n. Ascends 0 n starts) (omega arith) (token_starts-Ascends 0 false text)))

length-drop : (n : ℕ) (xs : List ℕ) → length (drop n xs) ≡ length xs - n
length-drop zero xs = omega arith
length-drop (suc n) [] = omega arith
length-drop (suc n) (x ∷ xs) = omega (arith, length-drop n xs)

length-take : (n : ℕ) (xs : List ℕ) → n ≤ length xs → length (take n xs) ≡ n
length-take zero xs h = refl
length-take (suc n) [] h = absurd (omega (arith, h))
length-take (suc n) (x ∷ xs) h = omega (arith, length-take n xs (omega (arith, h)))

length-slice :
    (source : List ℕ) (i : Interval)
    → i.0 ≤ i.1
    → i.1 ≤ length source
    → i.0 + length (slice source i) ≡ i.1
unfolding slice
length-slice source i h k =
    let dropped = length-drop i.0 source in
    let taken = length-take (i.1 - i.0) (drop i.0 source) (omega (arith, dropped, h, k)) in
    omega (arith, taken, h)

-- A region begins and ends between characters: its bytes are the code of the text they decode to.
abbrev pub IsText : Codec → List ℕ → Region → Type 0
IsText codec source r = codec.encode (codec.decode (slice source (span r))) ≡ slice source (span r)

byte_cut-zero :
    (codec : Codec) (laws : IsCodec codec) (start : ℕ) (text : Text)
    → byte_cut codec laws start text 0 ≡ start
byte_cut-zero codec laws start text =
    let parts = ap (λ bytes. length bytes) (laws.append [] []) in
    omega (arith, parts, length-append (codec.encode []) (codec.encode []))

split-Tiles :
    (codec : Codec) (limit : ℕ) (source : List ℕ) (r : Region)
    → IsCodec codec
    → r.start ≤ r.end
    → r.end ≤ length source
    → IsText codec source r
    → Tiles r.start r.end (split_by_token_limit codec limit source r)
unfolding split_by_token_limit
split-Tiles codec limit source r laws ordered inside good =
    let text = codec.decode (slice source (span r)) in
    let whole = ap (λ t. r.start + length (codec.encode t)) (take-length text) in
    let ends =
      (whole ∙ (ap (λ bytes. r.start + length bytes) good))
      ∙ (length-slice source (span r) ordered inside) in
    elim (Bool-cases (leb (length (token_starts 0 false text)) limit)) [
      | inl few ↦ rw few (refl, ordered, refl)
      | inr many ↦ rw many (
          subst
            (λ a.
              Tiles a r.end (pairwise_all (byte_cuts codec r.start text (char_cuts limit text))))
            (byte_cut-zero codec laws r.start text)
            (subst
              (λ b.
                Tiles (byte_cut codec laws r.start text 0) b
                  (pairwise_all (byte_cuts codec r.start text (char_cuts limit text))))
              ends (cuts-Tiles codec laws r.start text limit)))
    ]

-- The pieces of the regions, in their order.
unfoldable pub pieces : Codec → (limit : ℕ) → (source : List ℕ) → List Region → List Interval
pieces codec limit source [] = []
pieces codec limit source (r ∷ regions) =
    split_by_token_limit codec limit source r ++ pieces codec limit source regions

pub pieces-Tiles :
    (codec : Codec) (limit : ℕ) (source : List ℕ) (a : ℕ) (regions : List Region)
    → IsCodec codec
    → Tiles a (length source) (map span regions)
    → All (IsText codec source) regions
    → Tiles a (length source) (pieces codec limit source regions)
unfolding pieces
pieces-Tiles codec limit source a [] laws tiles good = tiles
pieces-Tiles codec limit source a (r ∷ regions) laws tiles good =
    Tiles-append a r.end (length source) (split_by_token_limit codec limit source r) _
      (subst (λ n. Tiles n r.end (split_by_token_limit codec limit source r)) tiles.0
        (split-Tiles codec limit source r laws tiles.1
          (Tiles-le r.end (length source) (map span regions) tiles.2) good.0))
      (pieces-Tiles codec limit source r.end regions laws tiles.2 good.1)
