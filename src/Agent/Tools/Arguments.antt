-- ===== src/Agent/Tools/Arguments.antt =====
-- `validate_arguments` and `_matches_type` of src/rag/agent/tools/registry.py. The arguments of a call
-- are JSON values, so the final round trip through `json.dumps` always succeeds and is left out.
use ai_rag.Prelude.{
  Text, List, [], ◌∷◌, ◌≡◌, refl, Bool, true, false, not, ◌&&◌, ◌||◌, Option, none, some, arith,
  if◌then◌else◌, keep, is_empty, contains, codes, or_else, All, Bool-cases, inl, inr,
}
use ai_rag.Prelude.Dict.{Dict, lookup, keys, has}
use ai_rag.Schemas.Agent.{Json, null, boolean, integer, number, string, array, object, ToolSchema}

pub data ArgumentError : Type 0 where
  unexpected_fields : List Text → ArgumentError
  missing_fields : List Text → ArgumentError
  wrong_type : Text → List Text → ArgumentError

pub data Validated : Type 0 where
  valid : Dict Json → Validated
  invalid : ArgumentError → Validated

-- `expected` is the set of kinds; an `int` is a number and an integer, a `bool` neither.
unfoldable pub matches_type : Json → List Text → Bool
matches_type (string _) kinds = contains (codes "string") kinds
matches_type (number _) kinds = contains (codes "number") kinds
matches_type (integer _) kinds = contains (codes "number") kinds || contains (codes "integer") kinds
matches_type (boolean _) kinds = contains (codes "boolean") kinds
matches_type (array _) kinds = contains (codes "array") kinds
matches_type (object _) kinds = contains (codes "object") kinds
matches_type null kinds = contains (codes "null") kinds

-- `properties.get(key, {}).get("type")`; the empty list where there is none
unfoldable pub expected_of : ToolSchema → Text → List Text
expected_of schema key = or_else (lookup key schema.properties) []

-- The loop of the type checks: the first argument of a wrong type.
unfoldable pub first_mismatch : ToolSchema → Dict Json → Option ArgumentError
first_mismatch schema [] = none
first_mismatch schema ((key, value) ∷ arguments) =
    let expected = expected_of schema key in
    if not (is_empty expected) && not (matches_type value expected)
    then some (wrong_type key expected)
    else first_mismatch schema arguments

unfoldable pub unexpected : ToolSchema → Dict Json → List Text
unexpected schema arguments =
    if schema.additional then [] else keep (λ key. not (has key schema.properties)) (keys arguments)

unfoldable pub missing : ToolSchema → Dict Json → List Text
missing schema arguments = keep (λ key. not (has key arguments)) schema.required

unfoldable pub validate_arguments : Dict Json → ToolSchema → Validated
validate_arguments arguments schema =
    if not (is_empty (unexpected schema arguments))
    then invalid (unexpected_fields (unexpected schema arguments))
    else if not (is_empty (missing schema arguments))
    then invalid (missing_fields (missing schema arguments))
    else elim (first_mismatch schema arguments) [ some e ↦ invalid e | none ↦ valid arguments ]

-- Arguments that a tool may be run with: every key declared unless more are allowed, every required
-- key present, and every value of the declared type.
pub record IsValid (schema : ToolSchema) (arguments : Dict Json) : Type 0 where
  pub declared :
      schema.additional ≡ false → All (λ key. has key schema.properties ≡ true) (keys arguments)
  pub complete : All (λ key. has key arguments ≡ true) schema.required
  pub typed :
      All
        (λ e.
          (is_empty (expected_of schema e.0) || matches_type e.1 (expected_of schema e.0)) ≡ true)
        arguments

keep_none :
    {A : Type 0} (p : A → Bool) (xs : List A)
    → is_empty (keep (λ x. not (p x)) xs) ≡ true
    → All (λ x. p x ≡ true) xs
keep_none p [] h = tt
keep_none p (x ∷ xs) h = elim (Bool-cases (p x)) [
  | inl e ↦ (e, keep_none p xs (rw e at h))
  | inr e ↦ absurd (ground arith)
]

first_mismatch-none :
    (schema : ToolSchema) (arguments : Dict Json)
    → first_mismatch schema arguments ≡ none
    → All
        (λ e.
          (is_empty (expected_of schema e.0) || matches_type e.1 (expected_of schema e.0)) ≡ true)
        arguments
unfolding first_mismatch
first_mismatch-none schema [] h = tt
first_mismatch-none schema ((key, value) ∷ arguments) h =
    (ground arith, first_mismatch-none schema arguments (ground arith))

-- Whatever is accepted is passed on unchanged, and meets the schema.
pub validate_arguments-IsValid :
    (arguments : Dict Json) (schema : ToolSchema) (out : Dict Json)
    → validate_arguments arguments schema ≡ valid out
    → (out ≡ arguments) × IsValid schema arguments
unfolding validate_arguments unexpected missing
validate_arguments-IsValid arguments schema out h = (
  ground arith,
  record {
    declared =
        λ closed. keep_none (λ key. has key schema.properties) (keys arguments) (ground arith);
    complete = keep_none (λ key. has key arguments) schema.required (ground arith);
    typed = first_mismatch-none schema arguments (ground arith);
  },
)

keep_all :
    {A : Type 0} (p : A → Bool) (xs : List A)
    → All (λ x. p x ≡ true) xs
    → keep (λ x. not (p x)) xs ≡ []
keep_all p [] h = refl
keep_all p (x ∷ xs) h = rw h.0 (keep_all p xs h.1)

first_mismatch-all :
    (schema : ToolSchema) (arguments : Dict Json)
    → All
        (λ e.
          (is_empty (expected_of schema e.0) || matches_type e.1 (expected_of schema e.0)) ≡ true)
        arguments
    → first_mismatch schema arguments ≡ none
unfolding first_mismatch
first_mismatch-all schema [] h = refl
first_mismatch-all schema ((key, value) ∷ arguments) h =
    ground (arith, first_mismatch-all schema arguments h.1)

unexpected_nil :
    (schema : ToolSchema) (arguments : Dict Json)
    → IsValid schema arguments
    → unexpected schema arguments ≡ []
unfolding unexpected
unexpected_nil schema arguments v = elim (Bool-cases schema.additional) [
  | inl more ↦ rw (more, unexpected)
  | inr closed ↦
      rw (closed, unexpected)
        (keep_all (λ key. has key schema.properties) (keys arguments) (v.declared closed))
]

-- Arguments that meet the schema are accepted.
pub validate_arguments_of_IsValid :
    (arguments : Dict Json) (schema : ToolSchema)
    → IsValid schema arguments
    → validate_arguments arguments schema ≡ valid arguments
unfolding validate_arguments missing
validate_arguments_of_IsValid arguments schema v =
    rw
      (
        unexpected_nil schema arguments v,
        keep_all (λ key. has key arguments) schema.required v.complete,
        first_mismatch-all schema arguments v.typed,
      )
      refl
