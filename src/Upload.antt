-- ===== src/Upload.antt =====
-- apc_rfc1867.c: the progress of an upload, which is kept in the user cache; its data of apc_globals.h
-- and the setting of its frequency in php_apc.c. The events are those of the multipart parser of PHP.
pub mod Text
pub mod Tracks
pub mod Progress
pub mod Keys
pub mod Reports
pub mod Lag
pub mod Frequency
mod Tests
use pecl_caching_apc.Base.{ℕ, ◌+◌, ℤ, Bool, Option, List}

-- A member of a stored array. A double is an exact fraction, as numerator and denominator.
pub data Value : Type 0 where
  long : ℤ → Value
  double : ℕ × ℕ → Value
  string : List ℕ → Value

-- A zval of the user cache: an array, as its members in order, or anything else.
pub data Zval : Type 0 where
  array : List (List ℕ × Value) → Zval
  other : Zval

-- `apc_rfc1867_data`. The arrays have all their bytes; times are in microseconds.
pub record UploadData : Type 0 where
  pub tracking_key : List ℕ
  pub key_length : ℕ
  pub content_length : ℕ
  pub filename : List ℕ
  pub name : List ℕ
  pub temp_filename : Option (List ℕ)
  pub cancel_upload : ℕ
  pub start_time : ℕ
  pub bytes_processed : ℕ
  pub prev_bytes_processed : ℕ
  pub update_freq : ℤ
  pub rate : ℕ × ℕ
  pub started : Bool

-- The settings of the extension: strings without their NUL, and `rfc1867_freq` in hundredths.
pub record UploadSettings : Type 0 where
  pub rfc1867_prefix : List ℕ
  pub rfc1867_name : List ℕ
  pub rfc1867_ttl : ℕ
  pub rfc1867_freq : ℤ

-- The events with what the code reads of their data; `length` is what the parser says of the value.
pub data Event : Type 0 where
  start : (content_length : ℕ) → Event
  formdata : (name value : Option (List ℕ)) (length post_bytes_processed : ℕ) → Event
  file_start : (name filename : List ℕ) (post_bytes_processed : ℕ) → Event
  file_data : (post_bytes_processed : ℕ) → Event
  file_end : (temp_filename : Option (List ℕ)) (cancel_upload post_bytes_processed : ℕ) → Event
  end : (post_bytes_processed : ℕ) → Event

-- The calls on the user cache: `_apc_store` and `_apc_update`, with the array that the key stands in.
pub data CacheCall : Type 0 where
  store : (strkey : List ℕ) (strkey_len : ℕ) (track : Zval) (ttl : ℕ) → CacheCall
  update : (strkey : List ℕ) (strkey_len bytes : ℕ) → CacheCall

-- How many bytes a call reads of its key: `_apc_update` adds the NUL itself.
abbrev pub read_size : CacheCall → ℕ
read_size (store s n t ttl) = n
read_size (update s n b) = n + 1
