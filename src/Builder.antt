-- ===== src/Builder.antt =====
-- src/builder.cpp and include/cbe/builder.hpp: the facade over the graph and the definitions.
use catalyst_build_executor.Base.{
  ◌≡◌, Bytes, List, [], ◌∷◌, none, some, lookup, emplace, lookup-emplace, split_on, bytes_eq,
  bytes_eq_iff, if◌then◌else◌, arith,
}
use catalyst_build_executor.Domain.{BuildStep, Definitions, FileSystem, Result, ok, ◌>>=◌}
use catalyst_build_executor.Graph.{BuildGraph, empty_graph, add_step, add_resource}

-- `CBEBuilder`
pub record Builder : Type 0 where
  pub graph : BuildGraph
  pub definitions : Definitions

abbrev pub empty_builder : Builder
empty_builder = record { graph = empty_graph; definitions = [] }

unfoldable pub add_definition : Bytes → Bytes → Builder → Builder
add_definition key value b = record b { definitions = emplace key value b.definitions }

-- `CBEBuilder::add_step`
unfoldable pub builder_add_step : FileSystem → BuildStep → Builder → Result Builder
builder_add_step fs step b = add_step fs step b.graph >>= λ r. ok (record b { graph = r.1 })

unfoldable pub builder_add_resource : Bytes → Builder → Builder
builder_add_resource res b = record b { graph = add_resource b.graph res }

-- `getDefinitionOf<std::string>`
unfoldable pub definition_of : Builder → Bytes → Bytes
definition_of b key = elim (lookup key b.definitions) [ none ↦ [] | some v ↦ v ]

-- `views::split(def, ' ')`, which has no piece at all for an empty text.
abbrev pub split_words : Bytes → List Bytes
split_words [] = []
split_words (c ∷ s) = split_on 0x20 (c ∷ s)

-- `getDefinitionOf<std::vector<std::string>>`
unfoldable pub definition_words : Builder → Bytes → List Bytes
definition_words b key = split_words (definition_of b key)

-- The first definition of a name stays: a later one for the same name is dropped,
-- and one for another name does not touch it.
pub definition_of-add_definition :
    (b : Builder) (key value name : Bytes)
    → lookup name (add_definition key value b).definitions ≡ elim (lookup name b.definitions) [
      | some old ↦ some old
      | none ↦ if bytes_eq key name then some value else none
    ]
unfolding add_definition
definition_of-add_definition b key value name =
    ground (arith, lookup-emplace key name value b.definitions, bytes_eq_iff key name)
