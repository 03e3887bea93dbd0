-- ===== src/Xray/Labels.antt =====
-- The groups of test cases that the Xray client returns.
use mathlib.Core.List.{append_assoc}
use text.Mathlib.TextLemmas.{append_assoc as text_assoc}
use qa_ai_native.Prelude.{true, map, str_append, String, List, [], ◌∷◌, if◌then◌else◌}
use qa_ai_native.Dict.{Dict, elem}
use qa_ai_native.Json.{Json, string, number, object, dict}
use qa_ai_native.Reserve.{join}
use qa_ai_native.Service.{Call}
use qa_ai_native.Service.Sends.{Sends}
use qa_ai_native.TestCases.{TestCase}
use qa_ai_native.Xray.{Config, graphql_call}

-- What stands under a label that is wanted, and nothing under another.
abbrev pub if_wanted : List String → String → List TestCase → List TestCase
if_wanted targets label tcs = if elem label targets then tcs else []

-- The query for the tests of a project with one of these labels: it names no status.
abbrev pub wanted_jql : String → List String → String
wanted_jql project_key targets = str_append "project = " (
    str_append project_key (
      str_append " AND labels in ("
        (str_append (join ", " (map (λ l. str_append "\"" (str_append l "\"")) targets)) ")")))

abbrev pub query_call : Config → String → List String → Call
query_call c project_key targets = graphql_call c c.tests_query (
    object
      (dict (("jql", string (wanted_jql project_key targets)) ∷ ("limit", number true "100") ∷ [])))
