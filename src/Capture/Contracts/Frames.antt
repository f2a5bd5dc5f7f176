-- ===== src/Capture/Contracts/Frames.antt =====
-- capture/contracts.py: the requests, streams and frames that a backend and its owner exchange.
use viskium.Prelude.{ℕ, ◌*◌, String, Option, none, some, ltb, ◌==◌, not, length, List}
use viskium.Core.Value.{
  Float, Value, none_value, Result, ok, raise, type_error, ◌>>=◌, ◌>>◌, refuse_if, require_integer,
  require_finite_float, require_text,
}
use viskium.Capture.Contracts.Policy.{max_capture_frame_bytes}

abbrev pub max_capture_dimension : ℕ
max_capture_dimension = 8_192

abbrev pub max_capture_fps : ℕ
max_capture_fps = 240

abbrev pub max_reason_code_chars : ℕ
max_reason_code_chars = 128

pub data VideoioPreference : Type 0 where
  auto media_foundation directshow : VideoioPreference

pub record CaptureRequest : Type 0 where
  pub device_index : ℕ
  pub requested_width : ℕ
  pub requested_height : ℕ
  pub requested_fps : Float
  pub max_frame_bytes : ℕ
  pub videoio_preference : VideoioPreference

-- `none` is an object that is no member of the enumeration.
abbrev require_preference : Option VideoioPreference → Result VideoioPreference
require_preference none = raise type_error
require_preference (some p) = ok p

-- `CaptureRequest(...)`
unfoldable pub make_request :
    Value → Value → Value → Value → Value → Option VideoioPreference → Result CaptureRequest
make_request device width height fps frame_bytes preference = do
  index ← require_integer 0 (some 1_024) device
  w ← require_integer 1 (some max_capture_dimension) width
  h ← require_integer 1 (some max_capture_dimension) height
  rate ← require_finite_float max_capture_fps fps
  bytes ← require_integer 1 (some max_capture_frame_bytes) frame_bytes
  refuse_if (ltb bytes (w * h))
  api ← require_preference preference
  ok (record {
    device_index = index;
    requested_width = w;
    requested_height = h;
    requested_fps = rate;
    max_frame_bytes = bytes;
    videoio_preference = api;
  })

pub record NegotiatedStream : Type 0 where
  pub backend_id : String
  pub width : ℕ
  pub height : ℕ
  pub fps : Option Float
  pub pixel_format : String
  pub stride : ℕ

abbrev optional_fps : Value → Result (Option Float)
optional_fps none_value = ok none
optional_fps v = do f ← require_finite_float max_capture_fps v; ok (some f)

-- `NegotiatedStream(...)`
unfoldable pub make_stream : Value → Value → Value → Value → Value → Value → Result NegotiatedStream
make_stream backend_id width height fps pixel_format stride = do
  name ← require_text max_reason_code_chars backend_id
  w ← require_integer 1 (some max_capture_dimension) width
  h ← require_integer 1 (some max_capture_dimension) height
  rate ← optional_fps fps
  format ← require_text max_reason_code_chars pixel_format
  step ← require_integer w none stride
  refuse_if (ltb max_capture_frame_bytes (step * h))
  ok (record {
    backend_id = name;
    width = w;
    height = h;
    fps = rate;
    pixel_format = format;
    stride = step;
  })

pub record BackendFrame : Type 0 where
  pub payload : List ℕ
  pub received_monotonic_ns : ℕ
  pub width : ℕ
  pub height : ℕ
  pub stride : ℕ
  pub pixel_format : String

-- `BackendFrame(...)`, for a payload of bytes.
unfoldable pub make_frame : List ℕ → Value → Value → Value → Value → Value → Result BackendFrame
make_frame payload received width height stride pixel_format = do
  at ← require_integer 0 none received
  w ← require_integer 1 (some max_capture_dimension) width
  h ← require_integer 1 (some max_capture_dimension) height
  step ← require_integer w none stride
  format ← require_text max_reason_code_chars pixel_format
  refuse_if (ltb max_capture_frame_bytes (step * h))
  refuse_if (not (length payload == step * h))
  ok (record {
    payload = payload;
    received_monotonic_ns = at;
    width = w;
    height = h;
    stride = step;
    pixel_format = format;
  })

-- `CaptureRead`: its checks leave these five values.
pub data CaptureRead : Type 0 where
  frame : BackendFrame → CaptureRead
  timeout disconnected recoverable_error fatal_error : String → CaptureRead
