-- ===== src/Upload/Tracks.antt =====
-- apc_rfc1867.c and php_apc.c: the arrays that an upload stores, the updater of a stored array, and
-- the setting of the frequency.
use pecl_caching_apc.Base.{
  ℕ, zero, suc, ◌+◌, ◌-◌, ◌*◌, ◌/◌, ◌%◌, ◌^◌, ℤ, pos, negsuc, Bool, true, false, not, ◌&&◌, Option,
  none, some, List, [], ◌∷◌, ltb, if◌then◌else◌, length, ◌==◌, bytes_eq, get_or, until_nul,
}
use pecl_caching_apc.Upload.{Value, long, double, string, Zval, array, other, UploadData}

-- The keys of the members, without their NUL.
abbrev pub total_key : List ℕ
total_key = 116 ∷ 111 ∷ 116 ∷ 97 ∷ 108 ∷ []

abbrev pub current_key : List ℕ
current_key = 99 ∷ 117 ∷ 114 ∷ 114 ∷ 101 ∷ 110 ∷ 116 ∷ []

abbrev pub filename_key : List ℕ
filename_key = 102 ∷ 105 ∷ 108 ∷ 101 ∷ 110 ∷ 97 ∷ 109 ∷ 101 ∷ []

abbrev pub name_key : List ℕ
name_key = 110 ∷ 97 ∷ 109 ∷ 101 ∷ []

abbrev pub done_key : List ℕ
done_key = 100 ∷ 111 ∷ 110 ∷ 101 ∷ []

abbrev pub start_time_key : List ℕ
start_time_key = 115 ∷ 116 ∷ 97 ∷ 114 ∷ 116 ∷ 95 ∷ 116 ∷ 105 ∷ 109 ∷ 101 ∷ []

abbrev pub temp_filename_key : List ℕ
temp_filename_key = 116 ∷ 101 ∷ 109 ∷ 112 ∷ 95 ∷ 102 ∷ 105 ∷ 108 ∷ 101 ∷ 110 ∷ 97 ∷ 109 ∷ 101 ∷ []

abbrev pub cancel_upload_key : List ℕ
cancel_upload_key = 99 ∷ 97 ∷ 110 ∷ 99 ∷ 101 ∷ 108 ∷ 95 ∷ 117 ∷ 112 ∷ 108 ∷ 111 ∷ 97 ∷ 100 ∷ []

abbrev pub rate_key : List ℕ
rate_key = 114 ∷ 97 ∷ 116 ∷ 101 ∷ []

-- An `int` from the low half of a `size_t`, in the order of bytes of a little-endian machine.
abbrev pub low_int : ℕ → ℤ
low_int n = let m = n % 2 ^ 32 in if ltb m (2 ^ 31) then pos m else negsuc (2 ^ 32 - 1 - m)

abbrev pub negate : ℕ → ℤ
negate zero = pos 0
negate (suc n) = negsuc n

-- The cast of a fraction to `int`, which drops what stands behind the point.
abbrev pub truncate : (numerator : ℤ) (denominator : ℕ) → ℤ
truncate (pos n) d = pos (n / d)
truncate (negsuc n) d = negate ((n + 1) / d)

abbrev pub scale : ℕ → ℤ → ℤ
scale k (pos n) = pos (k * n)
scale k (negsuc n) = negate (k * (n + 1))

abbrev pub is_negative : ℤ → Bool
is_negative (pos n) = false
is_negative (negsuc n) = true

-- `(uint) x`
abbrev pub unsigned : ℤ → ℕ
unsigned (pos n) = n % 2 ^ 32
unsigned (negsuc n) = 2 ^ 32 - 1 - n % 2 ^ 32

-- `OnUpdateRfc1867Freq`, by the number that `zend_atoi` reads and whether a percent sign is last: the
-- frequency in hundredths, or a failure.
unfoldable pub on_update_freq : (tmp : ℤ) (percent : Bool) → Option ℤ
on_update_freq (negsuc n) percent = none
on_update_freq (pos n) true = if ltb 100 n then none else some (pos n)
on_update_freq (pos n) false = some (pos (100 * n))

-- The loop of `update_bytes_processed`, with the members before the current one in the result.
abbrev pub set_current : ℤ → List (List ℕ × Value) → Option (List (List ℕ × Value))
set_current v [] = none
set_current v ((k, x) ∷ l) =
    let rest = set_current v l in
    if length k + 1 == 8 && bytes_eq k current_key
    then some ((k, long v) ∷ l)
    else elim rest [ none ↦ none | some l' ↦ some ((k, x) ∷ l') ]

-- `update_bytes_processed`
unfoldable pub update_bytes_processed : (bytes : ℕ) → Zval → Bool × Zval
update_bytes_processed bytes other = (false, other)
update_bytes_processed bytes (array l) = elim (set_current (low_int bytes) l) [
  | none ↦ (false, array l)
  | some l' ↦ (true, array l')
]

abbrev pub has_tracking_key : UploadData → Bool
has_tracking_key d = not (get_or d.tracking_key 0 0 == 0)

-- The array that a file's start and its data store.
abbrev pub running_track : UploadData → Zval
running_track d = array (
    (total_key, long (pos d.content_length))
    ∷ (current_key, long (pos d.bytes_processed))
    ∷ (filename_key, string (until_nul d.filename))
    ∷ (name_key, string (until_nul d.name))
    ∷ (done_key, long (pos 0))
    ∷ (start_time_key, double (d.start_time, 10 ^ 6))
    ∷ [])

abbrev pub text_of : Option (List ℕ) → List ℕ
text_of none = []
text_of (some l) = l

-- The array at the end of a file.
abbrev pub file_track : UploadData → Zval
file_track d = array (
    (total_key, long (pos d.content_length))
    ∷ (current_key, long (pos d.bytes_processed))
    ∷ (filename_key, string (until_nul d.filename))
    ∷ (name_key, string (until_nul d.name))
    ∷ (temp_filename_key, string (text_of d.temp_filename))
    ∷ (cancel_upload_key, long (pos d.cancel_upload))
    ∷ (done_key, long (pos 0))
    ∷ (start_time_key, double (d.start_time, 10 ^ 6))
    ∷ [])

-- The array at the end of the upload.
abbrev pub done_track : UploadData → Zval
done_track d = array (
    (total_key, long (pos d.content_length))
    ∷ (current_key, long (pos d.bytes_processed))
    ∷ (rate_key, double d.rate)
    ∷ (filename_key, string (until_nul d.filename))
    ∷ (name_key, string (until_nul d.name))
    ∷ (cancel_upload_key, long (pos d.cancel_upload))
    ∷ (done_key, long (pos 1))
    ∷ (start_time_key, double (d.start_time, 10 ^ 6))
    ∷ [])
