-- ===== src/Dashboard/Tests.antt =====
-- A summary of concrete data.
use qa_ai_native.Prelude.{ℕ, String, [], ◌∷◌}
use qa_ai_native.Registry.{Registry, empty_registry}
use qa_ai_native.Registry.Invariant.{registering, perform_all}
use qa_ai_native.History.{TaskHistory, new_history}

abbrev agents : Registry String
agents = perform_all (registering "a" "Coder" ∷ []) empty_registry

abbrev tasks : TaskHistory ℕ
tasks = new_history 3
