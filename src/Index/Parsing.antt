-- ===== src/Index/Parsing.antt =====
-- src/rag/parsing: the text of a document, by its mime type. The reader of PDF pages and the
-- substitutions of markup by regular expressions are arguments. Texts are read as ASCII.
pub mod Kept
use ai_rag.Prelude.{
  ℕ, ◌+◌, ◌==◌, ◌≡◌, ◌≢◌, refl, Text, List, [], ◌∷◌, ◌++◌, map, Bool, true, false, not, Option,
  none, some, if◌then◌else◌, codes, is_empty, is_space, strip, join, keep, length, leb, show_nat,
  arith, inl, inr, Bool-cases, Option-cases, All,
}
use ai_rag.Prelude.Dict.{Dict, lookup, insert, All-insert, All-lookup}
use ai_rag.Prelude.Result.{Result, ok, raise, value_error, key_error, Result-cases}
use ai_rag.Schemas.Chunk.{Document}

-- `Parser.parse`
abbrev pub Parser : Type 0
Parser = Document → Result Document

-- `collapse_blank_lines`: of three newlines or more in a row two are left; `run` counts those just read.
unfoldable pub two_newlines : (run : ℕ) → Text → Text
two_newlines run [] = []
two_newlines run (c ∷ text) =
    let after = two_newlines (run + 1) text in
    let other = two_newlines 0 text in
    if c == 10 then (if leb 2 run then after else c ∷ after) else c ∷ other

-- `re.sub(r"\s+", " ", text)`
unfoldable pub one_space : (in_space : Bool) → Text → Text
unfolding is_space
one_space in_space [] = []
one_space in_space (c ∷ text) =
    let spaced = one_space true text in
    let worded = one_space false text in
    if is_space c then (if in_space then spaced else 32 ∷ spaced) else c ∷ worded

-- The document with a text, and the name of its parser in the metadata.
unfoldable pub parsed_as : (parser : Text) → Text → Document → Document
unfolding insert
parsed_as parser text document = record document {
  text = some text;
  metadata = insert (codes "parser") parser document.metadata;
}

-- What is common to the parsers that need a text.
unfoldable pub parse_text : (parser : Text) → (Text → Text) → Parser
unfolding parsed_as
parse_text parser normalize document = elim document.text [
  | none ↦ raise (value_error (codes "No text available"))
  | some text ↦ ok (parsed_as parser (normalize text) document)
]

unfoldable pub parse_plain : Parser
parse_plain = parse_text (codes "text") strip

unfoldable pub parse_markdown : Parser
parse_markdown = parse_text (codes "markdown") (λ t. two_newlines 0 (strip t))

-- `HtmlParser.parse`; `without_markup` puts a space for scripts, styles and tags.
unfoldable pub parse_html : (without_markup : Text → Text) → Parser
parse_html without_markup =
    parse_text (codes "html") (λ t. strip (one_space false (without_markup t)))

-- The pages that have a text, a blank line between them.
unfoldable pub pages_text : List Text → Text
unfolding join
pages_text pages = join (10 ∷ 10 ∷ []) (map strip (keep (λ p. not (is_empty (strip p))) pages))

unfoldable pub passed_through : Parser
passed_through document = elim document.text [
  | none ↦ raise (value_error (codes "no path or text available"))
  | some text ↦ ok (parsed_as (codes "pdf-passthrough") text document)
]

unfoldable pub with_pages : Document → List Text → Document
with_pages document pages =
    let read = parsed_as (codes "pdf") (pages_text pages) document in
    record read { metadata = insert (codes "page_count") (show_nat (length pages)) read.metadata }

-- `PdfParser.parse`; `read_pages` raises where the package is missing or the file cannot be read.
unfoldable pub parse_pdf : (read_pages : Text → Result (List Text)) → Parser
parse_pdf read_pages document = elim (lookup (codes "path") document.metadata) [
  | none ↦ passed_through document
  | some path ↦
      if is_empty path
      then passed_through document
      else elim (read_pages path) [ raise e ↦ raise e | ok pages ↦ ok (with_pages document pages) ]
]

-- `REGISTRY`, by mime type
unfoldable pub default_parsers :
    (without_markup : Text → Text) → (read_pages : Text → Result (List Text)) → Dict Parser
default_parsers without_markup read_pages =
    (codes "text/plain", parse_plain)
    ∷ (codes "application/json", parse_plain)
    ∷ (codes "text/markdown", parse_markdown)
    ∷ (codes "text/html", parse_html without_markup)
    ∷ (codes "application/pdf", parse_pdf read_pages)
    ∷ []

unfoldable pub get_parser : (mime_type : Text) → Dict Parser → Result Parser
get_parser mime_type parsers = elim (lookup mime_type parsers) [
  | none ↦ raise (key_error (codes "No parser for mime type"))
  | some parser ↦ ok parser
]

-- `register`
unfoldable pub register : (mime_type : Text) → Parser → Dict Parser → Dict Parser
register mime_type parser parsers = insert mime_type parser parsers

unfoldable pub parse_document : Dict Parser → Document → Result Document
parse_document parsers document = elim (get_parser document.mime_type parsers) [
  | raise e ↦ raise e
  | ok parser ↦ parser document
]
