-- ===== src/Tests/ServiceTests.antt =====
-- The theorems on the caches, the model calls and the online pipeline at sample data.
use ai_rag.Prelude.{
  lower, strip, ℕ, ◌≡◌, ◌+◌, ◌≤◌, refl, Text, List, [], ◌∷◌, false, none, some, codes, text_eq, In,
  Some, inl, inr, arith, or_else,
}
use ai_rag.Prelude.Number.{whole}
use ai_rag.Prelude.Dict.{lookup}
use ai_rag.Prelude.Result.{ok, raise, Raised, exception}
use ai_rag.Cache.Memory
use ai_rag.Cache.Memory.History.{Event, got, put, after, last_written, is_good, get-after}
use ai_rag.Cache.Semantic
use ai_rag.Cache.Semantic.{Entry, SemanticCache, set_bounded, get_hit, size, best_from, nearest}
use ai_rag.Cache.Keys.{normalize_query}
use ai_rag.Retrieval.Store.{cosine}
use ai_rag.Llm.Resilient.{
  RetryPolicy, LlmClient, Host, ResilientLlm, complete, chain, exhausted, attempt_once,
}
use ai_rag.Llm.Resilient.Fallback.{Gave, Replies, complete-Gave, complete-Replies}

-- A write, a read after its end, and a newer write: the last one first.
abbrev calls : List (Event ℕ)
calls =
    put (codes "k") (codes "new") (some 30) 16
    ∷ got (codes "k") 15
    ∷ put (codes "k") (codes "old") (some 5) 1
    ∷ []

get-after_example : (Memory.get (codes "k") 20 (after calls)).0 ≡ last_written (codes "k") 20 calls
get-after_example = get-after (codes "k") 20 calls (refl, tt)

newest : last_written (codes "k") 20 calls ≡ some (codes "new")
unfolding last_written is_good text_eq
newest = refl

gone : last_written (codes "k") 47 calls ≡ none
unfolding last_written is_good text_eq
gone = refl

abbrev policy : RetryPolicy ℕ
policy = record {
  max_attempts = 2;
  base_delay_seconds = 3;
  max_delay_seconds = 5;
  timeout_seconds = 0;
  jitter = false;
}

abbrev broken : LlmClient Text Text ℕ
broken = record {
  model_name = codes "broken";
  call = λ q w. (raise (exception (codes "down")), w + 1);
}

abbrev echo : LlmClient Text Text ℕ
echo = record { model_name = codes "echo"; call = λ q w. (ok q, w + 1) }

abbrev host : Host ℕ Text ℕ
host = record {
  sleep = λ n w. w + n;
  random = λ w. (0, w);
  with_timeout = λ n call. call;
  show_error = λ e. codes "error";
  show_seconds = λ n. codes "n";
}

abbrev models : ResilientLlm ℕ Text Text ℕ
models = record { primary = broken; fallbacks = echo ∷ []; policy = policy }

complete-Gave_example :
    ((r : Text)
      → (complete host models (codes "q") 0).0 ≡ ok r
      → Some (Gave host models (codes "q") r) (chain host models))
    × ((x : Raised)
        → (complete host models (codes "q") 0).0 ≡ raise x
        → (last : Text) × (x ≡ exhausted host models last))
complete-Gave_example = complete-Gave host models (codes "q") 0

echo-Replies : Replies host models (codes "q") echo
unfolding Replies attempt_once
echo-Replies w = (codes "q", refl)

complete-Replies_example : (r : Text) × ((complete host models (codes "q") 0).0 ≡ ok r)
complete-Replies_example =
    complete-Replies host models (codes "q") 0 (omega arith) (inr (inl echo-Replies))

abbrev embed : Text → List ℕ
embed t = 1 ∷ []

abbrev same : ℕ → ℕ
same n = n

abbrev near : SemanticCache ℕ
near = record {
  threshold = 1;
  max_entries_per_scope = 1;
  buckets =
      (codes "s", record { query = codes "why"; vector = 1 ∷ []; value = codes "because" } ∷ [])
      ∷ [];
}

within : size same embed (some (codes "s")) near ≤ 1
unfolding size lookup text_eq
within = omega arith

set_bounded_example :
    (size same embed
        (some (codes "s"))
        (Semantic.set same embed (codes "how") (codes "so") (codes "s") near)
      ≤ 1)
    × ((other q : Text)
        → text_eq (codes "s") other ≡ false
        → Semantic.get same embed q other
            (Semantic.set same embed (codes "how") (codes "so") (codes "s") near)
          ≡ Semantic.get same embed q other near)
set_bounded_example = set_bounded same embed (codes "how") (codes "so") (codes "s") near within

found : Semantic.get same embed (codes "why") (codes "s") near ≡ some (codes "because")
unfolding Semantic.get nearest best_from lookup text_eq cosine normalize_query lower strip
found = refl

get_hit_example :
    (e : Entry ℕ) × In e (or_else (lookup (codes "s") near.buckets) [])
    × (whole.lt (cosine same (embed (normalize_query (codes "why"))) e.vector) near.threshold
        ≡ false)
    × (e.value ≡ codes "because")
get_hit_example = get_hit same embed (codes "why") (codes "s") (codes "because") near found
