-- ===== src/Frame.antt =====
-- src/frame.rs: RESP frames, the errors of the frame parser, and the shape of its functions. The
-- parser itself is in `Line`, `Number`, `Check` and `Parse`; the modules below those are about it.
pub mod Reader
pub mod Line
pub mod Number
pub mod Check
pub mod Parse
pub mod Grammar
pub mod Encode
pub mod Exact
pub mod RoundTrip
pub mod Arrival
pub mod Tests
use mini_redis.Prelude.{ℕ, zero, suc, String, List, [], ◌∷◌}
use mini_redis.Prelude.Int.{ℤ}
use mini_redis.Text.{Bytes, codes}

-- `frame::Error`.
pub data Error : Type 0 where
  incomplete : Error
  other : String → Error

-- `Display` of `frame::Error`, as the bytes that it writes.
unfoldable pub error_text : Error → Bytes
error_text incomplete = codes "Incomplete frame"
error_text (other message) = codes message

-- `frame::Frame`; `Frames` is the `Vec<Frame>` inside an array.
mutual
  pub data Frame : Type 0 where
    simple : Bytes → Frame
    error : Bytes → Frame
    integer : ℤ → Frame
    bulk : Bytes → Frame
    array : Frames → Frame
    null : Frame

  pub data Frames : Type 0 where
    nil : Frames
    cons : Frame → Frames → Frames

-- The elements of an array, as a list and back, and their number.
abbrev pub elements : Frames → List Frame
elements nil = []
elements (cons f fs) = f ∷ elements fs

abbrev pub frames : List Frame → Frames
frames [] = nil
frames (f ∷ fs) = cons f (frames fs)

abbrev pub frame_count : Frames → ℕ
frame_count nil = 0
frame_count (cons f fs) = suc (frame_count fs)
