-- ===== src/Index/Parsing/Kept.antt =====
-- What the parsers of src/rag/parsing leave as it was.
use ai_rag.Prelude.{
  ◌≡◌, ◌≢◌, refl, sym, Text, List, none, codes, is_empty, arith, inl, inr, Bool-cases, Option-cases,
  All,
}
use ai_rag.Prelude.Dict.{Dict, lookup, All-insert, All-lookup}
use ai_rag.Prelude.Result.{Result, ok, Result-cases}
use ai_rag.Schemas.Chunk.{Document}
use ai_rag.Index.Parsing.{
  Parser, parsed_as, parse_text, parse_plain, parse_markdown, parse_html, parse_pdf, passed_through,
  with_pages, default_parsers, register, get_parser, parse_document,
}

-- A parsed document is that of the source, with the access tags it had, and has a text.
pub record IsParsed (document parsed : Document) : Type 0 where
  pub same_id : parsed.doc_id ≡ document.doc_id
  pub same_acl : parsed.acl ≡ document.acl
  pub same_mime : parsed.mime_type ≡ document.mime_type
  pub same_source : parsed.source_uri ≡ document.source_uri
  pub has_text : parsed.text ≢ none

abbrev pub Keeps : Parser → Type 0
Keeps parser = (document parsed : Document) → parser document ≡ ok parsed → IsParsed document parsed

abbrev pub AllKeep : Dict Parser → Type 0
AllKeep = All (λ e. Keeps e.1)

parsed_as-IsParsed : (name text : Text) (d : Document) → IsParsed d (parsed_as name text d)
unfolding parsed_as
parsed_as-IsParsed name text d = record {
  same_id = refl;
  same_acl = refl;
  same_mime = refl;
  same_source = refl;
  has_text = λ e. ground (arith, e);
}

parse_text-Keeps : (name : Text) (normalize : Text → Text) → Keeps (parse_text name normalize)
unfolding parse_text
parse_text-Keeps name normalize d parsed h = elim (Option-cases d.text) [
  | inl e ↦ absurd (ground (arith, (rw (parse_text, e) at h)))
  | inr (text, e) ↦
      let same : parsed_as name (normalize text) d ≡ parsed =
        ground (arith, (rw (parse_text, e) at h)) in
      rw (sym same) (parsed_as-IsParsed name (normalize text) d)
]

passed_through-Keeps : Keeps passed_through
unfolding passed_through
passed_through-Keeps d parsed h = elim (Option-cases d.text) [
  | inl e ↦ absurd (ground (arith, (rw (passed_through, e) at h)))
  | inr (text, e) ↦
      let same : parsed_as (codes "pdf-passthrough") text d ≡ parsed =
        ground (arith, (rw (passed_through, e) at h)) in
      rw (sym same) (parsed_as-IsParsed (codes "pdf-passthrough") text d)
]

with_pages-IsParsed : (d : Document) (pages : List Text) → IsParsed d (with_pages d pages)
unfolding with_pages parsed_as
with_pages-IsParsed d pages = record {
  same_id = refl;
  same_acl = refl;
  same_mime = refl;
  same_source = refl;
  has_text = λ e. ground (arith, e);
}

parse_pdf-Keeps : (read_pages : Text → Result (List Text)) → Keeps (parse_pdf read_pages)
unfolding parse_pdf
parse_pdf-Keeps read_pages d parsed h = elim (Option-cases (lookup (codes "path") d.metadata)) [
  | inl e ↦ passed_through-Keeps d parsed (rw (parse_pdf, e) at h)
  | inr (path, e) ↦ elim (Bool-cases (is_empty path)) [
    | inl n ↦ passed_through-Keeps d parsed (rw (parse_pdf, e, n) at h)
    | inr n ↦ elim (Result-cases (read_pages path)) [
      | inr (x, r) ↦ absurd (ground (arith, (rw (parse_pdf, e, n, r) at h)))
      | inl (pages, r) ↦
          let same : with_pages d pages ≡ parsed = ground (arith, (rw (parse_pdf, e, n, r) at h)) in
          rw (sym same) (with_pages-IsParsed d pages)
    ]
  ]
]

-- The parsers that the registry starts with.
pub default_parsers-AllKeep :
    (without_markup : Text → Text) (read_pages : Text → Result (List Text))
    → AllKeep (default_parsers without_markup read_pages)
unfolding default_parsers parse_plain parse_markdown parse_html
default_parsers-AllKeep without_markup read_pages = (
  parse_text-Keeps _ _,
  (
    parse_text-Keeps _ _,
    (parse_text-Keeps _ _, (parse_text-Keeps _ _, (parse_pdf-Keeps read_pages, tt))),
  ),
)

pub register-AllKeep :
    (mime_type : Text) (parser : Parser) (parsers : Dict Parser)
    → Keeps parser
    → AllKeep parsers
    → AllKeep (register mime_type parser parsers)
unfolding register
register-AllKeep mime_type parser parsers h all =
    All-insert (λ n p. Keeps p) mime_type parser parsers (λ j e. h) all

-- Whatever the mime type, a document that `parse_document` returns has the id, the source and the access tags of the one
-- it was given, and a text, where the registered parsers see to that.
pub parse_document-IsParsed :
    (parsers : Dict Parser) (document parsed : Document)
    → AllKeep parsers
    → parse_document parsers document ≡ ok parsed
    → IsParsed document parsed
unfolding parse_document get_parser
parse_document-IsParsed parsers d parsed all h = elim (Option-cases (lookup d.mime_type parsers)) [
  | inl e ↦ absurd (ground (arith, (rw (parse_document, get_parser, e) at h)))
  | inr (parser, e) ↦
      All-lookup (λ n p. Keeps p) d.mime_type parser parsers all e d parsed
        (rw (parse_document, get_parser, e) at h)
]
