-- ===== src/Examples/ProtocolRuns.antt =====
-- Failures and provider assignments, and the theorems at them.
use Prim.Native.String.{String}
use image_processor.Base.{
  ℕ, ◌≤◌, ◌≡◌, refl, false, Option, none, some, List, [], ◌∷◌, length, arith,
}
use image_processor.Chars.{codes, lowered, lower_code, occurs, begins}
use image_processor.Protocol.Tables.{
  ErrorClass, contaminating, contaminating_patterns, memory_patterns, permanent_patterns,
  transient_patterns,
}
use image_processor.Protocol.Messages.{bound_message}
use image_processor.Protocol.Bounds.{IsLine, bound_message-IsLine}
use image_processor.Protocol.Classify.{
  ErrorInfo, PyException, from_table, from_memory, first_code, matches_any, classify_message,
  classify_error,
}
use image_processor.Protocol.Severity.{Diagnosed, classify_message-Diagnosed}
use image_processor.Protocol.Codes.{IsBounded, Blames}
use image_processor.Protocol.Blame.{classify_error-Blames}
use image_processor.Protocol.Providers.{
  verify_provider_assignment, normalize_policy, check_assignment, is_cpu_only, refused,
  provider_cpu_only,
}
use image_processor.Protocol.Assigned.{VerifiedUnder, verify_provider_assignment-Verified}

-- A message with the signature of an illegal address and of exhausted memory.
abbrev poisoned : List ℕ
poisoned = codes "CUDA failure: an Illegal Memory Access was encountered; out of memory"

abbrev class_name : Option ErrorInfo → Option ErrorClass
class_name none = none
class_name (some i) = some i.error_class

-- The poisoned context is recognized first.
poisoned_class : class_name (classify_message poisoned) ≡ some contaminating
unfolding classify_message from_table from_memory first_code matches_any lowered lower_code occurs
    begins codes contaminating_patterns memory_patterns permanent_patterns transient_patterns
poisoned_class = refl

bound_message-IsLine_example :
    (length (bound_message poisoned 20) ≤ 20) × IsLine (bound_message poisoned 20)
bound_message-IsLine_example = bound_message-IsLine poisoned 20 (omega arith)

classify_message-Diagnosed_example : Diagnosed poisoned (classify_message poisoned)
classify_message-Diagnosed_example = classify_message-Diagnosed poisoned

abbrev missing_file : PyException
missing_file = record {
  name = "FileNotFoundError";
  bases = "OSError" ∷ "Exception" ∷ [];
  text = codes "image is gone";
  code = none;
}

classify_error-Blames_example :
    IsBounded (classify_error missing_file) × Blames (classify_error missing_file)
classify_error-Blames_example = classify_error-Blames missing_file

abbrev assigned : List String
assigned = "CUDAExecutionProvider" ∷ "CPUExecutionProvider" ∷ []

-- A session that fell back to the CPU is refused.
fallback :
    verify_provider_assignment ("CPUExecutionProvider" ∷ []) [] none none false
    ≡ refused provider_cpu_only
unfolding verify_provider_assignment normalize_policy check_assignment is_cpu_only
fallback = refl

verify_provider_assignment-Verified_example :
    VerifiedUnder assigned
      ("CUDAExecutionProvider" ∷ [])
      none
      false
      (normalize_policy (some "Prefer"))
      (verify_provider_assignment assigned
        ("CUDAExecutionProvider" ∷ [])
        (some "Prefer")
        none
        false)
verify_provider_assignment-Verified_example =
    verify_provider_assignment-Verified assigned ("CUDAExecutionProvider" ∷ []) (some "Prefer") none
      false
