-- ===== src/Query/Rewrite.antt =====
-- src/rag/query/rewrite.py, multi_query.py and hyde.py, and `normalize_whitespace` and `truncate` of
-- src/rag/utils/text.py.
use ai_rag.Prelude.{
  ℕ, ◌-◌, ◌≤◌, ◌==◌, ◌||◌, ◌&&◌, not, leb, Text, List, [], ◌∷◌, ◌++◌, Bool, true, false,
  if◌then◌else◌, codes, contains, lower, strip, is_space, is_empty, text_eq, length, take,
  length-take-le, length-append, ◌≡◌, arith,
}

-- `_WHITESPACE.sub(" ", text)`; `gap` tells whether the last character was a space.
collapse : Bool → Text → Text
collapse gap [] = []
collapse gap (c ∷ text) =
    let plain = collapse false text in
    let blank = collapse true text in
    if is_space c then if gap then blank else b' ' ∷ blank else c ∷ plain

unfoldable pub normalize_whitespace : Text → Text
unfolding collapse
normalize_whitespace text = strip (collapse false text)

-- `limit` and the suffix
unfoldable pub truncate : Text → (limit : ℕ) → (suffix : Text) → Text
truncate text limit suffix =
    if leb (length text) limit
    then text
    else if leb limit (length suffix)
    then take limit text
    else take (limit - length suffix) text ++ suffix

-- `re.sub(r"[?!.]+$", "", text)`
unfoldable pub drop_marks : Text → Text
drop_marks [] = []
drop_marks (c ∷ text) =
    let rest = drop_marks text in
    if is_empty rest && (c == b'?' || (c == b'!' || c == b'.')) then [] else c ∷ rest

unfoldable pub rewrite_query : Text → List Text
rewrite_query query =
    let cleaned = normalize_whitespace query in
    let alt = strip (drop_marks cleaned) in
    if is_empty cleaned
    then []
    else if not (is_empty alt) && not (text_eq (lower alt) (lower cleaned))
    then cleaned ∷ alt ∷ []
    else cleaned ∷ []

-- The loop over `extras`.
unfoldable pub add_extras : (n : ℕ) → List Text → List Text → List Text
add_extras n variants [] = variants
add_extras n variants (e ∷ extras) =
    let grown = if contains e variants then variants else variants ++ (e ∷ []) in
    let rest = add_extras n grown extras in if leb n (length grown) then grown else rest

unfoldable pub expand_multi_query : Text → (n : ℕ) → List Text
expand_multi_query query n = elim (rewrite_query query) [
  | [] ↦ []
  | primary ∷ more ↦ take n (
      add_extras n (primary ∷ more) (
        (codes "information about " ++ primary)
        ∷ (codes "details on " ++ primary)
        ∷ (codes "explain " ++ primary)
        ∷ []))
]

unfoldable pub hyde_document : Text → Text
hyde_document query =
    let cleaned = strip query in
    if is_empty cleaned
    then []
    else codes "This document answers the question: "
      ++ (cleaned
          ++ (codes
                ". It provides factual background, definitions, and supporting details relevant to: "
              ++ (cleaned ++ codes ".")))

-- A truncated text is never longer than the limit, and a text within the limit is not changed.
pub length-truncate-le :
    (text : Text) (limit : ℕ) (suffix : Text)
    → (length (truncate text limit suffix) ≤ limit)
      × (length text ≤ limit → truncate text limit suffix ≡ text)
unfolding truncate
length-truncate-le text limit suffix = (
  ground (
    arith,
    length-take-le limit text,
    length-take-le (limit - length suffix) text,
    length-append (take (limit - length suffix) text) suffix,
  ),
  λ short. ground arith,
)
