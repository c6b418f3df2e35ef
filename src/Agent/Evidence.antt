-- ===== src/Agent/Evidence.antt =====
-- src/rag/agent/evidence.py: the sources of one turn, one for each ref, and their rendering.
pub mod Best
pub mod Bound
use ai_rag.Prelude.{
  ℕ, suc, ◌+◌, ◌-◌, min, Text, List, [], ◌∷◌, ◌++◌, map, Bool, true, false, Option, none, some,
  ◌&&◌, ltb, leb, if◌then◌else◌, is_empty, length, take, join, codes, show_nat,
}
use ai_rag.Prelude.Number.{Float}
use ai_rag.Prelude.Dict.{Dict, lookup, insert, values}
use ai_rag.Prelude.Sort.{sort_desc}
use ai_rag.Schemas.Answer.{Source, SourceKind, chunk, web, graph, tool}

pub record EvidenceLedger (F : Type 0) : Type 0 where
  pub max_chars : ℕ
  pub max_quote_chars : ℕ
  pub by_ref : Dict (Source F)

abbrev pub default_max_chars : ℕ
default_max_chars = 6000

abbrev pub min_quote_chars : ℕ
min_quote_chars = 120

module _ {F : Type 0} ⦃fl : Float F⦄ where
  -- One round of the loop of `add`: the sources by ref, and those added so far.
  unfoldable pub add_source :
      Source F → Dict (Source F) → List (Source F) → Dict (Source F) × List (Source F)
  add_source source by_ref added = elim (lookup source.ref by_ref) [
    | none ↦ (insert source.ref source by_ref, added ++ (source ∷ []))
    | some previous ↦
        if fl.lt previous.score source.score
        then (insert source.ref source by_ref, added)
        else (by_ref, added)
  ]

  unfoldable pub add_sources :
      List (Source F) → Dict (Source F) → List (Source F) → Dict (Source F) × List (Source F)
  add_sources [] by_ref added = (by_ref, added)
  add_sources (source ∷ sources) by_ref added =
      let (by_ref', added') = add_source source by_ref added in add_sources sources by_ref' added'

  unfoldable pub add : List (Source F) → EvidenceLedger F → EvidenceLedger F × List (Source F)
  add sources self =
      let (by_ref, added) = add_sources sources self.by_ref [] in
      (record self { by_ref = by_ref }, added)

  abbrev pub by_score : Source F → Source F → Bool
  by_score a b = fl.lt a.score b.score

  unfoldable pub sources : EvidenceLedger F → List (Source F)
  sources self = sort_desc by_score (values self.by_ref)

  unfoldable pub len_ledger : EvidenceLedger F → ℕ
  len_ledger self = length self.by_ref

unfoldable pub kind_value : SourceKind → Text
kind_value chunk = codes "chunk"
kind_value web = codes "web"
kind_value graph = codes "graph"
kind_value tool = codes "tool"

-- `text[: min(cap, limit - used)]`, where a negative bound counts from the end
unfoldable pub slice_to : (cap limit used : ℕ) → Text → Text
slice_to cap limit used text =
    if leb used limit
    then take (min cap (limit - used)) text
    else take (length text - (used - limit)) text

unfoldable pub omitted_note : ℕ → Text
omitted_note omitted =
    codes "("
    ++ (show_nat omitted ++ codes " weaker source(s) omitted to stay within the prompt budget)")

-- `show_score` is the format `.4f`.
module _ {F : Type 0} (show_score : F → Text) where
  unfoldable pub header : Source F → Text
  header src =
      let base =
        codes "["
        ++ (src.ref
            ++ (codes "] kind="
                ++ (kind_value src.kind
                    ++ (codes " doc="
                        ++ (src.doc_id ++ (codes " score=" ++ show_score src.score)))))) in
      if is_empty src.title then base else base ++ (codes " title=" ++ src.title)

  -- The loop over the sources that are left: `used` characters, and whether this is the first.
  unfoldable pub render_from :
      (max_chars max_quote_chars used : ℕ) → (first : Bool) → List (Source F) → List Text
  render_from max_chars max_quote_chars used first [] = []
  render_from max_chars max_quote_chars used first (src ∷ rest) =
      let head = header src in
      let spent = used + length head + 1 in
      let entry = head ++ (codes "\n" ++ slice_to max_quote_chars max_chars spent src.quote) in
      let later = render_from max_chars max_quote_chars (used + length entry + 2) false rest in
      if ltb max_chars (spent + min_quote_chars) && (if first then false else true)
      then omitted_note (length (src ∷ rest)) ∷ []
      else entry ∷ later

  unfoldable pub render_sources : (max_chars max_quote_chars : ℕ) → List (Source F) → Text
  render_sources max_chars max_quote_chars srcs =
      if is_empty srcs
      then codes "(none)"
      else join (codes "\n\n") (render_from max_chars max_quote_chars 0 true srcs)

  unfoldable pub render : ⦃fl : Float F⦄ → EvidenceLedger F → Text
  render self = render_sources self.max_chars self.max_quote_chars (sources self)
