-- ===== src/Agent/Critic.antt =====
-- src/rag/agent/critic.py: the verdict on a draft. The JSON parser, `str` and `float` on its values,
-- and the prompt template are arguments.
pub mod Approval
use ai_rag.Prelude.{
  ℕ, suc, Text, List, [], ◌∷◌, ◌++◌, ◌≡◌, ◌≢◌, refl, Bool, true, false, not, Option, none, some,
  arith, if◌then◌else◌, is_empty, codes, text_eq, or_else, ◌==◌,
}
use ai_rag.Prelude.Number.{Float}
use ai_rag.Prelude.Result.{Raised, exception, Result, ok, raise, Call, ◌>>=◌}
use ai_rag.Schemas.Answer.{Source, Usage}
use ai_rag.Schemas.Agent.{
  Json, null, boolean, integer, number, string, array, object, Items, nil, item, Fields, end, field,
  ℤ, pos, negsuc, Verdict,
}
use ai_rag.Schemas.Chat.{Role, Message, ChatCompletion}
use ai_rag.Agent.Evidence.{render_sources}

pub record Critic (F W : Type 0) : Type 0 where
  -- `self._llm.chat(messages, tools=None)`
  pub chat : List Message → Call W (ChatCompletion F)
  -- `template.render(question, draft, sources)`
  pub render : Text → Text → Text → Text
  pub max_evidence_chars : ℕ
  pub show_score : F → Text
  -- `json.loads`, none for a `JSONDecodeError`
  pub loads : Text → Option Json
  pub str_of : Json → Text
  pub float_of : Json → Result F
  -- whether the text of a float stands for a number other than zero
  pub is_nonzero : Text → Bool

-- The text from the first `{` on.
unfoldable pub from_brace : Text → Text
from_brace [] = []
from_brace (c ∷ text) = if c == b'{' then c ∷ text else from_brace text

-- The text up to the last `}`, if there is one.
unfoldable pub to_brace : Text → Option Text
to_brace [] = none
to_brace (c ∷ text) = elim (to_brace text) [
  | some rest ↦ some (c ∷ rest)
  | none ↦ if c == b'}' then some (c ∷ []) else none
]

-- `_JSON_RE.search(text)`: greedy, over lines
unfoldable pub search_json : Text → Option Text
unfolding from_brace to_brace
search_json text = to_brace (from_brace text)

-- `raw.get(key)`, null where there is none
unfoldable pub get_field : Text → Fields → Json
get_field key end = null
get_field key (field k v rest) = if text_eq k key then v else get_field key rest

module _ {F W : Type 0} ⦃fl : Float F⦄ (self : Critic F W) where
  -- `bool(value)`
  unfoldable pub truthy : Json → Bool
  truthy null = false
  truthy (boolean b) = b
  truthy (integer (pos n)) = not (n == 0)
  truthy (integer (negsuc n)) = true
  truthy (number t) = self.is_nonzero t
  truthy (string t) = not (is_empty t)
  truthy (array nil) = false
  truthy (array (item x xs)) = true
  truthy (object end) = false
  truthy (object (field k v fs)) = true

  strings_of : Items → List Text
  strings_of nil = []
  strings_of (item x xs) = self.str_of x ∷ strings_of xs

  keys_of : Fields → List Text
  keys_of end = []
  keys_of (field k v fs) = k ∷ keys_of fs

  characters : Text → List Text
  characters [] = []
  characters (c ∷ text) = (c ∷ []) ∷ characters text

  -- `[str(r) for r in (value or [])]`; what cannot be iterated raises a TypeError
  unfoldable pub list_of : Json → Result (List Text)
  unfolding truthy strings_of keys_of characters
  list_of value = if not (truthy value) then ok [] else elim value [
    | array xs ↦ ok (strings_of xs)
    | string t ↦ ok (characters t)
    | object fs ↦ ok (keys_of fs)
    | _ ↦ raise (exception (codes "TypeError"))
  ]

  -- `float(value or 0.0)`
  unfoldable pub confidence_of : Json → Result F
  unfolding truthy
  confidence_of value = if truthy value then self.float_of value else ok (fl.of_nat 0)

  unfoldable pub parse_error : List Text → Verdict F
  parse_error missing = record {
    sufficient = false;
    grounded = false;
    reasons = codes "critic_parse_error" ∷ [];
    missing = missing;
    confidence = fl.of_nat 0;
  }

  unfoldable pub verdict_of : Fields → Result (Verdict F)
  unfolding list_of confidence_of truthy
  verdict_of raw = do
    reasons ← list_of (get_field (codes "reasons") raw)
    missing ← list_of (get_field (codes "missing") raw)
    confidence ← confidence_of (get_field (codes "confidence") raw)
    ok (record {
      sufficient = truthy (get_field (codes "sufficient") raw);
      grounded = truthy (get_field (codes "grounded") raw);
      reasons = reasons;
      missing = missing;
      confidence = confidence;
    })

  abbrev pub retry_hint : List Text
  retry_hint = codes "retry with clearer evidence" ∷ []

  unfoldable pub parse_verdict : Text → Result (Verdict F)
  unfolding search_json parse_error
  parse_verdict text = elim (search_json text) [
    | none ↦ ok (parse_error retry_hint)
    | some found ↦ elim (self.loads found) [
      | none ↦ ok (parse_error retry_hint)
      | some parsed ↦ elim parsed [ object raw ↦ verdict_of raw | _ ↦ ok (parse_error []) ]
    ]
  ]

  unfoldable pub evaluate : (question draft : Text) → List (Source F) → Call W (Verdict F × Usage F)
  evaluate question draft sources w =
      let prompt =
        self.render question draft
          (render_sources self.show_score self.max_evidence_chars 500 sources) in
      let message : Message = record {
        role = Role.user;
        content = prompt;
        name = none;
        tool_call_id = none;
        tool_calls = [];
      } in
      let (reply, w') = self.chat (message ∷ []) w in
      elim reply [
        | raise e ↦ (raise e, w')
        | ok completion ↦ (
          (do verdict ← parse_verdict completion.message.content; ok (verdict, completion.usage)),
          w',
        )
      ]
