-- ===== src/Tests/ChunkingTests.antt =====
-- The fixed chunker at a sample document.
use ai_rag.Prelude.{
  refl, ◌∷◌, starts_with, strip, lstrip, rstrip, is_space, ◌-◌, ◌≡◌, max, Text, List, [], some,
  codes, arith,
}
use ai_rag.Schemas.Chunk.{Chunk, Document}
use ai_rag.Chunking.Fixed.{chunk}
use ai_rag.Chunking.Fixed.Windows.{AreWindows, chunk-AreWindows}
use ai_rag.Chunking.Recursive
use ai_rag.Chunking.Recursive.{split_text, separators, pack, split_from, flushed}
use ai_rag.Chunking.Recursive.InOrder.{InOrder}
use ai_rag.Chunking.Recursive.Kept.{IsGap, split_text_kept}
use ai_rag.Chunking.Recursive.Spans.{AreSpans, chunk-AreSpans}
use ai_rag.Tests.Samples.{shared}

abbrev document : Document
document = record {
  doc_id = codes "d1";
  source_uri = codes "file";
  mime_type = codes "text/plain";
  checksum = codes "0";
  text = some (codes "one two three");
  acl = shared;
  metadata = [];
}

abbrev same : Text → Text
same t = t

chunk-AreWindows_example :
    (cs : List Chunk) × (chunk same document (codes "v7") 5 2 ≡ some cs)
    × AreWindows same document (codes "v7") (codes "one two three") 5 (max (5 - 2) 1) 0 0 cs
chunk-AreWindows_example = chunk-AreWindows same document (codes "v7") 5 2 (omega arith)

chunk-AreSpans_example :
    AreSpans same document
      (codes "v7")
      (codes "one two three")
      8
      0
      0
      (Recursive.chunk same document (codes "v7") 8 2)
chunk-AreSpans_example = chunk-AreSpans same document (codes "v7") 8 2 (omega arith)

split_text_kept_example :
    InOrder IsGap (codes "one two. three") (split_text separators 8 (codes "one two. three"))
split_text_kept_example = split_text_kept 8 (codes "one two. three") (omega arith)

split_two : split_text separators 8 (codes "one two. three") ≡ codes "one two" ∷ codes "three" ∷ []
unfolding split_text pack split_from flushed starts_with strip lstrip rstrip is_space
split_two = refl
