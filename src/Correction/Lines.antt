-- ===== src/Correction/Lines.antt =====
-- app/correction/service.py, `_line_ranges` and `_segment_index_for_range`: the line of a text, and
-- so the segment, that a position belongs to.
use mathlib.Core.List.{append_assoc, append-nil}
use onramp_stt_api.Base.{
  ℕ, suc, ◌+◌, ◌-◌, ◌≤◌, ◌<◌, ◌≡◌, refl, sym, ◌∙◌, ◌&&◌, Option, none, some, List, [], ◌∷◌, ◌++◌,
  map, Text, length, take, length-append, length-map, leb, ltb, ◌==◌, splitlines,
  splitlines_keepends, lines_from, is_break, if◌then◌else◌, Bool-cases, inl, inr, arith,
}

unfoldable pub ranges_from : ℕ → List Text → List (ℕ × ℕ)
ranges_from cursor [] = []
ranges_from cursor (l ∷ ls) = (cursor, cursor + length l) ∷ ranges_from (cursor + length l) ls

-- `_line_ranges`
unfoldable pub line_ranges : Text → List (ℕ × ℕ)
unfolding ranges_from
line_ranges text = ranges_from 0 (splitlines_keepends text)

-- the loop of `_segment_index_for_range`
unfoldable pub index_in : ℕ → ℕ → List (ℕ × ℕ) → Option ℕ
index_in position i [] = none
index_in position i ((start, end) ∷ rs) =
    let rest = index_in position (i + 1) rs in
    if leb start position && ltb position end then some i else rest

-- `ranges[-1][1]`
unfoldable pub last_end : List (ℕ × ℕ) → Option ℕ
last_end [] = none
last_end (r ∷ []) = some r.1
last_end (r ∷ q ∷ rs) = last_end (q ∷ rs)

abbrev at_end : ℕ → ℕ → Option ℕ → Option ℕ
at_end position n none = none
at_end position n (some end) = if position == end then some n else none

-- `_segment_index_for_range`
unfoldable pub segment_index_for_range : ℕ → List (ℕ × ℕ) → Option ℕ
unfolding index_in last_end
segment_index_for_range position ranges = elim (index_in position 0 ranges) [
  | some i ↦ some i
  | none ↦ at_end position (length ranges - 1) (last_end ranges)
]

-- Joined again, the lines are the text.
abbrev joined : List Text → Text
joined [] = []
joined (l ∷ ls) = l ++ joined ls

lines_from-joined : (line s : Text) → joined (map (λ l. l.0 ++ l.1) (lines_from line s)) ≡ line ++ s
unfolding lines_from
lines_from-joined [] [] = refl
lines_from-joined (b ∷ line) [] = append-nil ((b ∷ line) ++ [])
lines_from-joined line (c ∷ []) = elim (Bool-cases (is_break c)) [
  | inl ended ↦ rw ended (append-nil (line ++ c ∷ []))
  | inr inside ↦ rw inside (append-nil ((line ++ c ∷ []) ++ []) ∙ append-nil (line ++ c ∷ []))
]
lines_from-joined line (c ∷ d ∷ s) = elim (Bool-cases (c == 0xd && d == 0xa)) [
  | inl pair ↦ rw (pair, lines_from-joined [] s) (append_assoc line (c ∷ d ∷ []) s)
  | inr single ↦ elim (Bool-cases (is_break c)) [
    | inl ended ↦
        rw (single, ended, lines_from-joined [] (d ∷ s)) (append_assoc line (c ∷ []) (d ∷ s))
    | inr inside ↦
        rw (single, inside, lines_from-joined (line ++ c ∷ []) (d ∷ s))
          (append_assoc line (c ∷ []) (d ∷ s))
  ]
]

splitlines_keepends-joined : (s : Text) → joined (splitlines_keepends s) ≡ s
unfolding splitlines_keepends
splitlines_keepends-joined s = lines_from-joined [] s

splitlines-length : (s : Text) → length (splitlines_keepends s) ≡ length (splitlines s)
unfolding splitlines splitlines_keepends
splitlines-length s =
    length-map (λ l. l.0 ++ l.1) (lines_from [] s) ∙ sym (length-map (λ l. l.0) (lines_from [] s))

-- The line at this place has the position in it.
abbrev pub HasPosition : ℕ → ℕ → List Text → ℕ → Type 0
HasPosition cursor position ls i =
    i < length ls
    × cursor + length (joined (take i ls)) ≤ position
    × position < cursor + length (joined (take (suc i) ls))

index_in-ranges :
    (cursor position k : ℕ) (ls : List Text)
    → cursor ≤ position
    → position < cursor + length (joined ls)
    → (i : ℕ) × (index_in position k (ranges_from cursor ls) ≡ some (k + i))
      × HasPosition cursor position ls i
unfolding index_in ranges_from
index_in-ranges cursor position k [] low high = absurd (omega arith)
index_in-ranges cursor position k (l ∷ ls) low high =
    elim (Bool-cases (ltb position (cursor + length l))) [
      | inl inside ↦
          (0, ground (arith, k), (omega arith, omega arith, ground (arith, length-append l [])))
      | inr past ↦
          let (i, found, (least, first, last)) =
            index_in-ranges (cursor + length l) position (k + 1) ls (ground arith)
              (omega (arith, length-append l (joined ls))) in
          (
            suc i,
            ground (arith, found),
            (
              omega arith,
              omega (arith, length-append l (joined (take i ls))),
              omega (arith, length-append l (joined (take (suc i) ls))),
            ),
          )
    ]

first_index-found :
    (position i : ℕ) (ranges : List (ℕ × ℕ))
    → index_in position 0 ranges ≡ some (0 + i)
    → segment_index_for_range position ranges ≡ some i
unfolding segment_index_for_range
first_index-found position i ranges h =
    let e : 0 + i ≡ i = omega arith in rw (segment_index_for_range, h, e) refl

-- Every position of a text is in a line: the index that is found is that of the line which begins
-- at or before the position and ends after it, and a text has that many lines or more.
pub position_in_line :
    (text : Text) (position : ℕ)
    → position < length text
    → (i : ℕ) × segment_index_for_range position (line_ranges text) ≡ some i
      × i < length (splitlines text)
      × HasPosition 0 position (splitlines_keepends text) i
unfolding line_ranges
position_in_line text position h =
    let all = splitlines_keepends-joined text in
    let (i, found, has) =
      index_in-ranges 0 position 0 (splitlines_keepends text) (omega arith)
        (rw all (omega arith)) in
    (
      i,
      first_index-found position i (line_ranges text) found,
      omega (arith, splitlines-length text, has.0),
      has,
    )
