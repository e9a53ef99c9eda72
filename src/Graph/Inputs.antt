-- ===== src/Graph/Inputs.antt =====
-- The inputs of a step, sorted into opaque ones and the others.
use mathlib.Core.List.{append_assoc, append-nil}
use catalyst_build_executor.Base.{
  ◌≡◌, refl, ap, ◌∙◌, sym, Bytes, List, [], ◌∷◌, ◌++◌, Option, none, some, foldl, Bool-cases, inl,
  inr, starts_with, codes, drop, split_on, if◌then◌else◌, false,
}
use catalyst_build_executor.Domain.{BuildStep}
use catalyst_build_executor.Fields.{add_field, for_each_field_lem}
use catalyst_build_executor.Graph.{push_optional, or_empty, add_input, parse_inputs}

-- Among the fields of an input list: the opaque paths, without their '!', and the plain ones.
abbrev pub opaque_fields : List Bytes → List Bytes
opaque_fields [] = []
opaque_fields (f ∷ fs) =
    if starts_with f (codes "!") then drop 1 f ∷ opaque_fields fs else opaque_fields fs

abbrev keep_plain : Bytes → List Bytes → List Bytes
keep_plain [] fs = fs
keep_plain (c ∷ f) fs = if starts_with (c ∷ f) (codes "!") then fs else (c ∷ f) ∷ fs

abbrev pub plain_fields : List Bytes → List Bytes
plain_fields [] = []
plain_fields (f ∷ fs) = keep_plain f (plain_fields fs)

abbrev pub push_names : Option (List Bytes) → List Bytes → Option (List Bytes)
push_names = foldl (λ o x. push_optional x o)

pub or_empty-push_names :
    (o : Option (List Bytes)) (xs : List Bytes) → or_empty (push_names o xs) ≡ or_empty o ++ xs
or_empty-push_names o [] = sym (append-nil (or_empty o))
or_empty-push_names none (x ∷ xs) = or_empty-push_names (some (x ∷ [])) xs
or_empty-push_names (some ys) (x ∷ xs) =
    or_empty-push_names (some (ys ++ x ∷ [])) xs ∙ append_assoc ys (x ∷ []) xs

abbrev sorted : BuildStep → List Bytes → BuildStep
sorted step fs = record step {
  opaque_inputs = push_names step.opaque_inputs (opaque_fields fs);
  parsed_inputs = step.parsed_inputs ++ plain_fields fs;
}

pub nil-bang : starts_with [] (codes "!") ≡ false
unfolding starts_with
nil-bang = refl

fold-sorted :
    (step : BuildStep) (fs : List Bytes) → foldl (add_field add_input) step fs ≡ sorted step fs
unfolding add_input
fold-sorted step [] =
    ap (λ l. record step { parsed_inputs = l }) (sym (append-nil step.parsed_inputs))
fold-sorted step ([] ∷ fs) = rw nil-bang (fold-sorted step fs)
fold-sorted step ((c ∷ f) ∷ fs) = elim (Bool-cases (starts_with (c ∷ f) (codes "!"))) [
  | inl bang ↦ rw bang (fold-sorted _ fs)
  | inr plain ↦ rw plain (
      fold-sorted _ fs
      ∙ ap
          (λ l. record step {
            opaque_inputs = push_names step.opaque_inputs (opaque_fields fs);
            parsed_inputs = l;
          })
          (append_assoc step.parsed_inputs ((c ∷ f) ∷ []) (plain_fields fs)))
]

-- A comma-separated input list is sorted field by field: behind a '!' stands an opaque input, and
-- every other field that is not empty is a plain input. Nothing else of the step changes.
pub parse_inputs_lem :
    (step : BuildStep)
    → parse_inputs step ≡ record step {
      opaque_inputs = push_names step.opaque_inputs (opaque_fields (split_on b',' step.inputs));
      parsed_inputs = step.parsed_inputs ++ plain_fields (split_on b',' step.inputs);
    }
unfolding parse_inputs
parse_inputs_lem step =
    for_each_field_lem add_input step step.inputs ∙ fold-sorted step (split_on b',' step.inputs)
