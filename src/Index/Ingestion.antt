-- ===== src/Index/Ingestion.antt =====
-- src/rag/ingestion: the documents of a directory. The file system and the operations of `pathlib` on
-- paths are fields.
use ai_rag.Prelude.{
  Text, List, [], ◌∷◌, map, Bool, not, ◌&&◌, Option, if◌then◌else◌, codes, text_eq, text_lt, lower,
  keep, or_else,
}
use ai_rag.Prelude.Dict.{Dict, lookup}
use ai_rag.Prelude.Result.{Result, ok, raise}
use ai_rag.Prelude.Sort.{sort_desc}
use ai_rag.Schemas.Principal.{AclTags}
use ai_rag.Schemas.Chunk.{Document}

pub record FileSystem : Type 0 where
  pub exists : (root : Text) → Bool
  pub glob : (root pattern : Text) → List Text
  pub is_file : Text → Bool
  pub name : Text → Text
  pub stem : Text → Text
  pub suffix : Text → Text
  pub as_uri : Text → Text
  -- `Path(uri.removeprefix("file://"))`
  pub of_uri : Text → Text
  -- what `read_bytes` gives: the checksum of the data, and the data decoded where it is UTF-8
  pub read : Text → Result (Text × Option Text)

abbrev pub default_acl : AclTags
default_acl = record {
  tenant = codes "default";
  allow_groups = codes "public" ∷ [];
  classification = codes "internal";
}

abbrev mime_types : Dict Text
mime_types =
    (codes ".txt", codes "text/plain")
    ∷ (codes ".md", codes "text/markdown")
    ∷ (codes ".markdown", codes "text/markdown")
    ∷ (codes ".pdf", codes "application/pdf")
    ∷ (codes ".html", codes "text/html")
    ∷ (codes ".htm", codes "text/html")
    ∷ (codes ".json", codes "application/json")
    ∷ []

module _ (fs : FileSystem) where
  unfoldable pub guess_mime : (path : Text) → Text
  guess_mime path =
      or_else (lookup (lower (fs.suffix path)) mime_types) (codes "application/octet-stream")

  -- What `list_uris` does not pass over.
  unfoldable pub is_listed : (path : Text) → Bool
  is_listed path =
      fs.is_file path
      && (not (text_eq (fs.name path) (codes ".gitkeep"))
          && not (text_eq (fs.name path) (codes "README.md")))

  unfoldable pub list_uris : (root pattern : Text) → List Text
  list_uris root pattern =
      if fs.exists root
      then map fs.as_uri (keep is_listed (sort_desc (λ a b. text_lt b a) (fs.glob root pattern)))
      else []

  unfoldable pub document_of : (uri path : Text) → Option AclTags → Text × Option Text → Document
  document_of uri path acl (checksum, text) = record {
    doc_id = fs.stem path;
    source_uri = uri;
    mime_type = guess_mime path;
    checksum = checksum;
    text = text;
    acl = or_else acl default_acl;
    metadata = (codes "path", path) ∷ [];
  }

  -- `LocalFSConnector.fetch`
  unfoldable pub fetch : (uri : Text) → Option AclTags → Result Document
  fetch uri acl =
      let path = fs.of_uri uri in
      elim (fs.read path) [ raise e ↦ raise e | ok read ↦ ok (document_of uri path acl read) ]
