-- ===== src/Torture/Bytes.antt =====
-- lib/sippycup_torture/minimize.py, the functions on bytes: the spans of a SIP message at each
-- level, their deletion, and the subsequence test. Bytes are numbers; a span is a pair of positions.
pub mod Subsequence
use sippycup.Prelude.{
  ℕ, zero, suc, ◌+◌, ◌-◌, Bool, true, false, ◌&&◌, ◌||◌, not, List, [], ◌∷◌, ◌++◌, Option, none,
  some, ltb, leb, ◌==◌, length, take, drop, get_elem?, any, if◌then◌else◌,
}

-- `data[i : i + len(pattern)] == pattern`.
unfoldable pub starts_with : List ℕ → List ℕ → Bool
starts_with [] ys = true
starts_with (x ∷ xs) [] = false
starts_with (x ∷ xs) (y ∷ ys) = x == y && starts_with xs ys

-- The first of the `n` positions from `i` on where the pattern stands.
unfoldable pub find_in : List ℕ → List ℕ → ℕ → ℕ → Option ℕ
find_in pattern data' i zero = none
find_in pattern data' i (suc n) =
    let later = find_in pattern data' (i + 1) n in
    if starts_with pattern (drop i data') then some i else later

-- `data.find(pattern, start, end)`, where `none` is -1.
unfoldable pub find : List ℕ → List ℕ → ℕ → ℕ → Option ℕ
find pattern data' start end = find_in pattern data' start (end + 1 - (start + length pattern))

pub record Span : Type 0 where
  pub start : ℕ
  pub end : ℕ

-- `_line_spans`, with fuel for the bytes left: every line has at least one.
unfoldable pub line_spans_from : ℕ → List ℕ → ℕ → ℕ → List Span
line_spans_from zero data' cursor end = []
line_spans_from (suc fuel) data' cursor end =
    let line_end : ℕ = elim (find (10 ∷ []) data' cursor end) [ none ↦ end | some i ↦ i + 1 ] in
    let rest = line_spans_from fuel data' line_end end in
    if ltb cursor end then record { start = cursor; end = line_end } ∷ rest else []

unfoldable pub line_spans : List ℕ → ℕ → ℕ → List Span
line_spans data' start end = line_spans_from (end - start) data' start end

-- `while position < end and test(data[position]): position += 1`, for the `n` positions up to `end`.
unfoldable pub skip : (ℕ → Bool) → List ℕ → ℕ → ℕ → ℕ
skip test data' position zero = position
skip test data' position (suc n) =
    let further = skip test data' (position + 1) n in
    elim (get_elem? data' position) [
      | none ↦ position
      | some byte ↦ if test byte then further else position
    ]

-- `in b" \t;,="` and `in b" \t;,=\r\n"`.
abbrev pub is_separator : ℕ → Bool
is_separator byte = any (λ b. byte == b) (32 ∷ 9 ∷ 59 ∷ 44 ∷ 61 ∷ [])

abbrev pub is_delimiter : ℕ → Bool
is_delimiter byte = is_separator byte || byte == 13 || byte == 10

-- The tokens of one line from `cursor` on; every round moves `cursor` on.
unfoldable pub token_spans : ℕ → List ℕ → ℕ → ℕ → List Span
token_spans zero data' cursor end = []
token_spans (suc fuel) data' cursor end =
    let token_start = skip is_separator data' cursor (end - cursor) in
    let token_end = skip (λ b. not (is_delimiter b)) data' token_start (end - token_start) in
    let rest = token_spans fuel data' (token_end + 1) end in
    if not (ltb cursor end)
    then []
    else if ltb token_start token_end
    then record { start = token_start; end = token_end } ∷ rest
    else rest

unfoldable pub value_spans : List ℕ → List Span → List Span
value_spans data' [] = []
value_spans data' (line ∷ lines) =
    elim (find (58 ∷ []) data' line.start line.end) [
      | none ↦ []
      | some colon ↦ token_spans (line.end - colon) data' (colon + 1) line.end
    ]
    ++ value_spans data' lines

pub data Level : Type 0 where
  sections headers body_lines values : Level

-- The position after the blank line, or the end: `\r\n\r\n` first, then `\n\n`.
unfoldable pub body_start : List ℕ → ℕ
body_start data' = elim (find (13 ∷ 10 ∷ 13 ∷ 10 ∷ []) data' 0 (length data')) [
  | some i ↦ i + 4
  | none ↦ elim (find (10 ∷ 10 ∷ []) data' 0 (length data')) [
    | some i ↦ i + 2
    | none ↦ length data'
  ]
]

-- `_spans`; a level of another name is not a `Level`.
unfoldable pub spans : List ℕ → Level → List Span
spans data' sections =
    if ltb (body_start data') (length data')
    then record { start = body_start data'; end = length data' } ∷ []
    else []
spans data' headers = drop 1 (line_spans data' 0 (body_start data'))
spans data' body_lines = line_spans data' (body_start data') (length data')
spans data' values = value_spans data' (line_spans data' 0 (body_start data'))

-- `del removed[start:end]`.
unfoldable pub delete_span : List ℕ → Span → List ℕ
delete_span data' s =
    take s.start data' ++ drop (if ltb s.end s.start then s.start else s.end) data'

-- `sorted(spans, reverse=True)`, by insertion: a span before those that are not above it.
unfoldable pub insert_span : Span → List Span → List Span
insert_span s [] = s ∷ []
insert_span s (t ∷ ts) =
    if ltb t.start s.start || (t.start == s.start && leb t.end s.end)
    then s ∷ t ∷ ts
    else t ∷ insert_span s ts

unfoldable pub sort_spans : List Span → List Span
sort_spans [] = []
sort_spans (s ∷ ss) = insert_span s (sort_spans ss)

unfoldable pub delete_all : List ℕ → List Span → List ℕ
delete_all data' [] = data'
delete_all data' (s ∷ ss) = delete_all (delete_span data' s) ss

-- `_delete_spans`.
unfoldable pub delete_spans : List ℕ → List Span → List ℕ
delete_spans data' ss = delete_all data' (sort_spans ss)

-- `_is_subsequence`: each value of the candidate is sought in what the iterator has left.
-- `any(value == original for original in iterator)`: what is left after the first match.
unfoldable pub seek : ℕ → List ℕ → Option (List ℕ)
seek value [] = none
seek value (original ∷ rest) = if value == original then some rest else seek value rest

unfoldable pub is_subsequence : List ℕ → List ℕ → Bool
is_subsequence [] source = true
is_subsequence (value ∷ more) source = elim (seek value source) [
  | none ↦ false
  | some rest ↦ is_subsequence more rest
]
