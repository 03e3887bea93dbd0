-- ===== src/Zephyr/Sends.antt =====
-- The calls that a command of the Zephyr client sends, if the service answers each of them.
use qa_ai_native.Prelude.{◌<◌, refl, Option, some, [], ◌∷◌}
use qa_ai_native.Json.{Json, object, Fields}
use qa_ai_native.Retry.{Attempt}
use qa_ai_native.Service.{Call, World}
use qa_ai_native.Service.Sends.{Sends, Answers}
use qa_ai_native.Zephyr.{Config, request, request_json}
use qa_ai_native.Zephyr.Pages.{request-succeeded, request_json-succeeded}

module _ {S : Type 0} (send : Call → S → S × Attempt (Option Json)) (c : Config) where
  module _ (reply : Call → Fields) (answers : Answers send reply)
      (positive : 0 < c.max_retries) where
    pub request-Sends :
        (call : Call) (w : World S)
        → Sends (call ∷ []) (some (object (reply call))) w (request send c call w)
    request-Sends call w =
        rw
          (request-succeeded send c call (some (object (reply call))) w positive
            (answers call w.service))
          (record { value = refl; sent = refl; slept = refl })

    pub request_json-Sends :
        (call : Call) (w : World S)
        → Sends (call ∷ []) (object (reply call)) w (request_json send c call w)
    request_json-Sends call w =
        rw
          (request_json-succeeded send c call (object (reply call)) w positive
            (answers call w.service))
          (record { value = refl; sent = refl; slept = refl })
