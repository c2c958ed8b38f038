-- ===== src/Memory/Extraction/Tests.antt =====
-- Runs of the extraction, with an extractor that takes the whole text, and its theorem at them.
use astra_agent.Base.{String, true, false, List, [], ◌∷◌}
use astra_agent.Domain.Kinds.{MemoryKind}
use astra_agent.Domain.Models.{MemoryRecord}
use astra_agent.Runtime.Samples.{env}
use astra_agent.Memory.Extraction.{ExtractedMemory, candidate_memory}

abbrev same : String → String
same s = s

abbrev extract : String → List ExtractedMemory
extract content =
    record { kind = MemoryKind.fact; content = content; confidence = 990000; promoted = true } ∷ []

abbrev stored : MemoryRecord
stored =
    candidate_memory same extract env 0 1 900 51 false (record {
      kind = MemoryKind.fact;
      content = "uses rust";
      confidence = 990000;
      promoted = true;
    })
