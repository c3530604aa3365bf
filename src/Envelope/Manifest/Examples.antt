-- ===== src/Envelope/Manifest/Examples.antt =====
-- lib/sippycup/envelope.py: a small manifest with one override, and what is compiled from it.
use sippycup.Prelude.{ℕ, String, List, [], ◌∷◌, Option, none, some}
use sippycup.Json.{Value, obj, str, int, pos, end, field}
use sippycup.Envelope.Manifest.Lowered.{Lowered}

abbrev number : ℕ → Value
number n = int (pos n)

abbrev manifest : Value
manifest = obj (
    field "apiVersion" (str "sippycup.dev/envelope/v1") (
      field "kind" (str "Envelope") (
        field "metadata" (obj (field "name" (str "small") end)) (
          field "authorization"
            (obj (
              field "hardMaxima"
                (obj (
                  field "callsPerSecond" (number 10) (
                    field "concurrentCalls" (number 20) (
                      field "mediaPacketsPerSecond" (number 1000) (
                        field "totalCalls" (number 1000) (
                          field "durationSeconds" (number 100) (
                            field "holdSeconds" (number 10) (
                              field "cooldownSeconds" (number 5)
                                (field "recoveryDeadlineSeconds" (number 5) end)))))))))
                end))
            (field "workload"
              (obj (
                field "callsPerSecond" (number 2) (
                  field "concurrentCalls" (number 4) (
                    field "mediaPacketsPerSecond" (number 100)
                      (field "callDurationSeconds" (number 5) end)))))
              (field "ramp"
                (obj (
                  field "dimension" (str "callsPerSecond")
                    (field "start" (number 2) (field "step" (number 3) end))))
                end))))))

abbrev sha256 : String
sha256 = "e3b0c44298fc1c149afbf4c8996fb92427ae41e4649b934ca495991b7852b855"

abbrev overrides : List (String × Option Value)
overrides = ("callsPerSecond", some (number 5)) ∷ ("totalCalls", none) ∷ []
