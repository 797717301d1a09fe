-- ===== src/Upload/Progress.antt =====
-- apc_rfc1867.c: the handler of the events, a function per event.
use pecl_caching_apc.Base.{
  ℕ, ◌+◌, ◌-◌, ◌*◌, ◌^◌, Bool, true, false, not, ◌&&◌, Option, none, some, List, [], ◌∷◌, ◌++◌, ltb,
  leb, if◌then◌else◌, length, sub64, set,
}
use pecl_caching_apc.Upload.{
  Zval, UploadData, UploadSettings, Event, start, formdata, file_start, file_data, file_end, end,
  CacheCall, store, update,
}
use pecl_caching_apc.Upload.Tracks.{
  truncate, scale, is_negative, unsigned, has_tracking_key, running_track, text_of, file_track,
  done_track,
}
use pecl_caching_apc.Upload.Text.{strlcpy, strlcat, starts_with}

abbrev pub store_call : UploadSettings → UploadData → Zval → CacheCall
store_call s d track = store d.tracking_key (d.key_length + 1) track s.rfc1867_ttl

-- MULTIPART_EVENT_START
unfoldable pub on_start : UploadSettings → (now content_length : ℕ) → UploadData → UploadData
on_start s now content_length d =
    let freq = truncate s.rfc1867_freq 100 in
    record {
      tracking_key = set d.tracking_key 0 0;
      key_length = 0;
      content_length = content_length;
      filename = set d.filename 0 0;
      name = set d.name 0 0;
      temp_filename = none;
      cancel_upload = 0;
      start_time = now;
      bytes_processed = 0;
      prev_bytes_processed = 0;
      update_freq =
          if is_negative freq then truncate (scale content_length s.rfc1867_freq) 10000 else freq;
      rate = (0, 1);
      started = false;
    }

-- `data->name && !strncasecmp(data->name, rfc1867_name, strlen(rfc1867_name))`
abbrev pub is_key_field : UploadSettings → Option (List ℕ) → Bool
is_key_field s none = false
is_key_field s (some name) = starts_with name s.rfc1867_name

-- MULTIPART_EVENT_FORMDATA. The room for the key is a difference of words, which wraps.
unfoldable pub on_formdata :
    UploadSettings → (name value : Option (List ℕ)) (length post : ℕ) → UploadData → UploadData
unfolding strlcat
on_formdata s name none len post d = d
on_formdata s name (some value) len post d =
    let prefix_len = length s.rfc1867_prefix in
    let key = strlcat (strlcat d.tracking_key s.rfc1867_prefix 63) value 63 in
    if not (is_key_field s name && ltb 0 len)
    then d
    else if leb (sub64 64 prefix_len) len
    then d
    else if d.started
    then d
    else record d { tracking_key = key; key_length = len + prefix_len; bytes_processed = post }

-- MULTIPART_EVENT_FILE_START
unfoldable pub on_file_start :
    UploadSettings → (name filename : List ℕ) (post : ℕ) → UploadData → UploadData × List CacheCall
unfolding strlcpy
on_file_start s name filename post d =
    let d' = record d {
      started = true;
      bytes_processed = post;
      filename = strlcpy d.filename filename 128;
      temp_filename = none;
      name = strlcpy d.name name 64;
    } in
    if has_tracking_key d
    then (d', store_call s d' (running_track d') ∷ [])
    else (record d { started = true }, [])

-- MULTIPART_EVENT_FILE_DATA. `updated` is what `_apc_update` returns.
unfoldable pub on_file_data :
    UploadSettings → (updated : Bool) (post : ℕ) → UploadData → UploadData × List CacheCall
on_file_data s updated post d =
    let d' = record d { bytes_processed = post } in
    if not (has_tracking_key d)
    then (d, [])
    else if ltb (unsigned d.update_freq) (sub64 post d.prev_bytes_processed)
    then (
      record d' { prev_bytes_processed = post },
      update d.tracking_key d.key_length post
          ∷ (if updated then [] else store_call s d' (running_track d') ∷ []),
    )
    else (d', [])

-- MULTIPART_EVENT_FILE_END
unfoldable pub on_file_end :
    UploadSettings
    → (temp_filename : Option (List ℕ)) (cancel_upload post : ℕ) → UploadData
    → UploadData × List CacheCall
on_file_end s temp_filename cancel_upload post d =
    let d' = record d {
      bytes_processed = post;
      cancel_upload = cancel_upload;
      temp_filename = some (text_of temp_filename);
    } in
    if has_tracking_key d then (d', store_call s d' (file_track d') ∷ []) else (d, [])

-- MULTIPART_EVENT_END
unfoldable pub on_end : UploadSettings → (now post : ℕ) → UploadData → UploadData × List CacheCall
on_end s now post d =
    let d' = record d {
      bytes_processed = post;
      rate =
          if ltb d.start_time now then (8 * post * 10 ^ 6, now - d.start_time) else (8 * post, 1);
    } in
    if has_tracking_key d then (d', store_call s d' (done_track d') ∷ []) else (d, [])

-- `apc_rfc1867_progress`
unfoldable pub progress :
    UploadSettings → (now : ℕ) (updated : Bool) → Event → UploadData → UploadData × List CacheCall
progress s now updated (start content_length) d = (on_start s now content_length d, [])
progress s now updated (formdata name value len post) d = (on_formdata s name value len post d, [])
progress s now updated (file_start name filename post) d = on_file_start s name filename post d
progress s now updated (file_data post) d = on_file_data s updated post d
progress s now updated (file_end temp cancel post) d = on_file_end s temp cancel post d
progress s now updated (end post) d = on_end s now post d

-- Any number of events, each with its time and with what `_apc_update` would return.
unfoldable pub run_events :
    UploadSettings → List (ℕ × Bool × Event) → UploadData → UploadData × List CacheCall
unfolding progress
run_events s [] d = (d, [])
run_events s ((now, updated, e) ∷ es) d =
    let r = progress s now updated e d in let rest = run_events s es r.0 in (rest.0, r.1 ++ rest.1)
