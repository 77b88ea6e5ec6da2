-- ===== src/GmailCalendar/Json.antt =====
-- The JSON reader of common_lib_c, which c/gmail-calendar uses and does not contain: an abstract
-- reader and tokens, and the calls that the code makes.
pub mod Echo
use code_samples.Base.{ℕ, Bool, true, false, Option, List, Bytes}
use code_samples.Base.Int.{ℤ}

-- `result_t`: `ok`, or a failure with its code.
pub data Status : Type 0 where
  ok : Status
  error : ℕ → Status

abbrev pub failed : Status → Bool
failed ok = false
failed (error code) = true

-- The kinds of a token that the code asks for; all the rest are `other`.
pub data Kind : Type 0 where
  begin_object end_object begin_array property_name text number other : Kind

abbrev pub is_begin_object : Kind → Bool
is_begin_object begin_object = true
is_begin_object _ = false

abbrev pub is_end_object : Kind → Bool
is_end_object end_object = true
is_end_object _ = false

abbrev pub is_begin_array : Kind → Bool
is_begin_array begin_array = true
is_begin_array _ = false

abbrev pub is_property_name : Kind → Bool
is_property_name property_name = true
is_property_name _ = false

abbrev pub is_text : Kind → Bool
is_text text = true
is_text _ = false

abbrev pub is_number : Kind → Bool
is_number number = true
is_number _ = false

pub record Json : Type 1 where
  pub Reader : Type 0
  pub Token : Type 0
  pub unexpected_char : ℕ
  -- json_reader_init, or a failure.
  pub reader_init : Bytes → Option Reader
  pub rewind : Reader → Status × Reader
  pub next_token : Reader → Status × Reader
  pub skip_children : Reader → Status × Reader
  -- The token that the reader stands at, `reader->token`.
  pub current : Reader → Token
  pub kind : Token → Kind
  -- The value of a property of the object that the reader stands in.
  pub find_property : Reader → Bytes → Status × Reader × Token
  -- json_token_get_string_span with room for so many bytes, given what the buffer holds: whether
  -- it succeeds, and the bytes then in the buffer, up to the NUL that the caller puts behind them
  -- in case of success.
  pub get_string : Token → ℕ → Bytes → Bool × Bytes
  pub get_int32 : Token → Option ℤ
  pub is_text_equal : Token → Bytes → Bool
