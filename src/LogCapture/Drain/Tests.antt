-- ===== src/LogCapture/Drain/Tests.antt =====
-- Drains of a concrete capture.
use qa_ai_native.Prelude.{◌≡◌, true, false, List, [], ◌∷◌}
use qa_ai_native.LogCapture.{new_capture}
use qa_ai_native.LogCapture.Drain.{Call, emitting, draining, drains, expected, drains-capture}

abbrev calls : List Call
calls =
    emitting true "one"
    ∷ emitting true "two"
    ∷ draining
    ∷ emitting true "three"
    ∷ emitting false "other task"
    ∷ draining
    ∷ []

drains-capture_example : drains calls (new_capture 1) ≡ expected 1 calls []
drains-capture_example = drains-capture 1 calls
