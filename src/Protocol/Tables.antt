-- ===== src/Protocol/Tables.antt =====
-- The tables of image_processor/engine/protocol.py.
use Prim.Native.String.{String}
use image_processor.Base.{Bool, true, false, List, [], ◌∷◌}

-- `ERROR_CLASSES`
pub data ErrorClass : Type 0 where
  transient permanent contaminating : ErrorClass

-- `_CONTAMINATING_PATTERNS`
unfoldable pub contaminating_patterns : List (String × List String)
contaminating_patterns =
    (
      "CUDA_ILLEGAL_ADDRESS",
      "an illegal memory access" ∷ "illegal address" ∷ "cudaerrorillegaladdress"
          ∷ "misaligned address" ∷ "device-side assert" ∷ [],
    )
    ∷ (
      "CUDA_LAUNCH_FAILURE",
      "unspecified launch failure" ∷ "cudaerrorlaunchfailure" ∷ "launch timed out"
          ∷ "cudaerrorlaunchtimeout" ∷ [],
    )
    ∷ (
      "CUDA_CONTEXT_LOST",
      "context is destroyed" ∷ "cudaerrorcontextisdestroyed" ∷ "cuda_error_invalid_context"
          ∷ "invalid device context" ∷ "cuda_error_context_is_destroyed"
          ∷ "cudaerrorcudartunloading" ∷ [],
    )
    ∷ (
      "CUDA_HARDWARE_FAULT",
      "uncorrectable ecc" ∷ "ecc uncorrectable" ∷ "cudaerroreccuncorrectable"
          ∷ "cudaerrorhardwarestackerror" ∷ "has fallen off the bus" ∷ [],
    )
    ∷ []

-- `_MEMORY_PATTERNS`
unfoldable pub memory_patterns : List String
memory_patterns =
    "cuda_error_out_of_memory" ∷ "cudaerrormemoryallocation" ∷ "out of memory"
    ∷ "failed to allocate memory" ∷ "failed to allocate a buffer" ∷ "cudnn_status_alloc_failed"
    ∷ "cublas_status_alloc_failed" ∷ "bad_alloc" ∷ "outofmemory" ∷ []

-- `_PERMANENT_PATTERNS`
unfoldable pub permanent_patterns : List (String × List String)
permanent_patterns =
    (
      "PROVIDER_UNAVAILABLE",
      "no cuda-capable device" ∷ "cudaerrornodevice" ∷ "cuda driver version is insufficient"
          ∷ "cudaerrorinsufficientdriver" ∷ "no kernel image is available"
          ∷ "cannot open shared object" ∷ "the specified module could not be found" ∷ "libcudnn"
          ∷ "libcublas" ∷ [],
    )
    ∷ (
      "MODEL_INVALID",
      "invalid model" ∷ "invalid protobuf" ∷ "protobuf parsing failed" ∷ "failed to load model"
          ∷ "load model from" ∷ "invalid graph" ∷ "no graph was found"
          ∷ "unsupported model ir version" ∷ [],
    )
    ∷ (
      "UNSUPPORTED_MODEL",
      "not implemented" ∷ "unsupported op" ∷ "no opset import" ∷ "invalid opset"
          ∷ "is not a registered function/op" ∷ [],
    )
    ∷ (
      "SHAPE_MISMATCH",
      "got invalid dimensions" ∷ "invalid rank" ∷ "shape mismatch" ∷ "invalid input shape"
          ∷ "static input shape" ∷ "index out of range" ∷ [],
    )
    ∷ (
      "INPUT_MISMATCH",
      "invalid feed input name" ∷ "required inputs" ∷ "missing input" ∷ "unexpected input"
          ∷ "invalid input name" ∷ "unexpected type" ∷ [],
    )
    ∷ (
      "FILE_MISSING",
      "no such file or directory" ∷ "system cannot find the file" ∷ "system cannot find the path"
          ∷ [],
    )
    ∷ []

-- `_TRANSIENT_PATTERNS`
unfoldable pub transient_patterns : List (String × List String)
transient_patterns =
    (
      "DEVICE_BUSY",
      "device is busy" ∷ "all cuda-capable devices are busy" ∷ "cudaerrordevicealreadyinuse"
          ∷ "resource temporarily unavailable" ∷ [],
    )
    ∷ ("TIMEOUT", "timed out" ∷ "timeout" ∷ [])
    ∷ []

-- What a type name says: the class, the code, and whether memory ran out.
pub record TypeClass : Type 0 where
  pub error_class : ErrorClass
  pub code : String
  pub memory_pressure : Bool

abbrev class : ErrorClass → String → Bool → TypeClass
class c code memory = record { error_class = c; code = code; memory_pressure = memory }

-- `_TYPE_CLASSES`
unfoldable pub type_classes : List (String × TypeClass)
type_classes =
    ("DecodeError", class permanent "IMAGE_UNDECODABLE" false)
    ∷ ("FamilyError", class permanent "FAMILY_REFUSED" false)
    ∷ ("BundleError", class permanent "BUNDLE_INVALID" false)
    ∷ ("ProviderPolicyError", class permanent "PROVIDER_POLICY" false)
    ∷ ("ProtocolError", class permanent "PROTOCOL" false)
    ∷ ("MemoryError", class transient "HOST_OOM" true)
    ∷ ("OutOfMemory", class transient "CUDA_OOM" true)
    ∷ ("InvalidArgument", class permanent "MODEL_ARGUMENT_INVALID" false)
    ∷ ("InvalidProtobuf", class permanent "MODEL_INVALID" false)
    ∷ ("InvalidGraph", class permanent "MODEL_INVALID" false)
    ∷ ("NoSuchFile", class permanent "FILE_MISSING" false)
    ∷ ("NoModel", class permanent "MODEL_INVALID" false)
    ∷ ("NotImplemented", class permanent "UNSUPPORTED_MODEL" false)
    ∷ ("ModelLoadCanceled", class transient "MODEL_LOAD_CANCELED" false)
    ∷ ("FileNotFoundError", class permanent "FILE_MISSING" false)
    ∷ ("IsADirectoryError", class permanent "FILE_MISSING" false)
    ∷ ("PermissionError", class transient "IO_ERROR" false)
    ∷ ("TimeoutError", class transient "TIMEOUT" false)
    ∷ ("OSError", class transient "IO_ERROR" false)
    ∷ []

-- `_OWN_ERRORS`
unfoldable pub own_errors : List String
own_errors =
    "DecodeError" ∷ "FamilyError" ∷ "BundleError" ∷ "ProviderPolicyError" ∷ "ProtocolError" ∷ []

-- `INPUT_ERROR_CODES`
unfoldable pub input_error_codes : List String
input_error_codes =
    "EMPTY_IMAGE" ∷ "FILE_MISSING" ∷ "IMAGE_DIMENSION_EXCEEDED" ∷ "IMAGE_PIXELS_EXCEEDED"
    ∷ "IMAGE_TOO_LARGE" ∷ "IMAGE_UNDECODABLE" ∷ "INPUT_DIGEST_MISMATCH" ∷ "INPUT_TOO_LARGE"
    ∷ "MULTI_FRAME_IMAGE" ∷ "UNREADABLE_IMAGE" ∷ "UNSUPPORTED_PIXEL_FORMAT" ∷ []
