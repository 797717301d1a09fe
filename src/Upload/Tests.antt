-- ===== src/Upload/Tests.antt =====
-- Runs of the upload progress and the theorems at concrete uploads.
use pecl_caching_apc.Base.{
  ℕ, get_elem?, ◌<◌, ◌^◌, ◌≡◌, refl, pos, negsuc, Bool, true, false, none, some, List, [], ◌∷◌,
  arith, length, replicate, All, map, ◌++◌, ◌*◌, ◌-◌,
}
use pecl_caching_apc.Upload.{
  array, long, string, double, UploadData, UploadSettings, Event, start, formdata, file_start,
  file_data, file_end, end, update,
}
use pecl_caching_apc.Upload.Text.{strlcat, strlcpy, starts_with}
use pecl_caching_apc.Upload.Progress.{
  on_start, on_formdata, on_file_start, on_file_data, on_file_end, on_end, progress, run_events,
}
use pecl_caching_apc.Upload.Tracks.{
  running_track, update_bytes_processed, on_update_freq, total_key, current_key, filename_key,
  name_key, done_key, start_time_key,
}
use pecl_caching_apc.Upload.Keys.{Fits, InBounds, run_events-Sound, identifier}
use pecl_caching_apc.Upload.Reports.{run_events-named, update_bytes_processed-running}
use pecl_caching_apc.Upload.Frequency.{on_update_freq-percent}

-- The prefix "u_", the field "ID" and a percentage of 50.
abbrev settings : UploadSettings
settings = record {
  rfc1867_prefix = 117 ∷ 95 ∷ [];
  rfc1867_name = 73 ∷ 68 ∷ [];
  rfc1867_ttl = 3600;
  rfc1867_freq = pos 50;
}

-- Data of an earlier request.
abbrev used : UploadData
used = record {
  tracking_key = replicate 64 120;
  key_length = 5;
  content_length = 0;
  filename = replicate 128 0;
  name = replicate 64 0;
  temp_filename = none;
  cancel_upload = 0;
  start_time = 0;
  bytes_processed = 0;
  prev_bytes_processed = 0;
  update_freq = pos 0;
  rate = (0, 1);
  started = false;
}

abbrev file_events : List (ℕ × Bool × Event)
file_events =
    (13, true, file_data 700)
    ∷ (14, false, file_data 900)
    ∷ (15, true, file_end none 0 950)
    ∷ (16, true, end 1000)
    ∷ []

-- The field's name is "id", its value "hi".
abbrev upload : List (ℕ × Bool × Event)
upload =
    (10, true, start 1000)
    ∷ (11, true, formdata (some (105 ∷ 100 ∷ [])) (some (104 ∷ 105 ∷ [])) 2 100)
    ∷ (12, true, file_start (102 ∷ []) (97 ∷ []) 200)
    ∷ file_events

-- The start of the file, two blocks, of which the second finds no entry, and the two ends.
run_events-length : length (run_events settings upload used).1 ≡ 6
unfolding run_events progress on_start on_formdata on_file_start on_file_data on_file_end on_end
    strlcat strlcpy starts_with
run_events-length = refl

-- A key of 63 bytes with its prefix: strlcat keeps 62 of them, and the name that is stored ends in
-- a byte of an earlier request.
abbrev long_upload : List (ℕ × Bool × Event)
long_upload =
    (10, true, start 1000)
    ∷ (11, true, formdata (some (105 ∷ 100 ∷ [])) (some (replicate 61 104)) 61 100)
    ∷ (12, true, file_start (102 ∷ []) (97 ∷ []) 200)
    ∷ []

abbrev stale_name : List ℕ
stale_name = 117 ∷ 95 ∷ replicate 60 104 ++ (0 ∷ 120 ∷ [])

run_events-stale : map identifier (run_events settings long_upload used).1 ≡ stale_name ∷ []
unfolding run_events progress on_start on_formdata on_file_start strlcat strlcpy starts_with
run_events-stale = refl

run_events-Sound_example :
    Fits (run_events settings upload used).0 × All InBounds (run_events settings upload used).1
run_events-Sound_example =
    run_events-Sound settings upload used (omega arith)
      (record { room = refl; short = omega arith })

-- A field "ab" with the value "c".
abbrev other_field : ℕ → ℕ × Bool × Event
other_field now = (now, true, formdata (some (97 ∷ 98 ∷ [])) (some (99 ∷ [])) 1 60)

abbrev key_field : ℕ → List ℕ → ℕ × Bool × Event
key_field now value = (now, true, formdata (some (105 ∷ 100 ∷ [])) (some value) (length value) 100)

abbrev first_file : List (ℕ × Bool × Event)
first_file = (12, true, file_start (102 ∷ []) (97 ∷ []) 200) ∷ file_events

abbrev named_upload : List (ℕ × Bool × Event)
named_upload =
    (10, true, start 1000)
    ∷ other_field 11
    ∷ key_field 11 (104 ∷ 105 ∷ [])
    ∷ other_field 11
    ∷ first_file

run_events-named_example :
    All
      (λ c. identifier c ≡ 117 ∷ 95 ∷ 104 ∷ 105 ∷ 0 ∷ [])
      (run_events settings named_upload used).1
    × (0 < length (run_events settings named_upload used).1)
unfolding starts_with
run_events-named_example =
    run_events-named settings 10 11 12 true true true 1000 100 200 (105 ∷ 100 ∷ []) (104 ∷ 105 ∷ [])
      (102 ∷ []) (97 ∷ []) (other_field 11 ∷ []) (other_field 11 ∷ []) file_events used refl refl
      (omega arith, (omega arith, tt)) (omega arith, (omega arith, tt)) (omega arith) (omega arith)
      (refl, tt) (refl, tt) (refl, (refl, (refl, (refl, tt))))

-- Two key fields, "hi" and "yo": the second one, with its prefix, is appended to the first, and the
-- length is its own.
run_events-appends :
    map identifier
      (run_events settings
        ((10, true, start 1000)
          ∷ key_field 11 (104 ∷ 105 ∷ [])
          ∷ key_field 11 (121 ∷ 111 ∷ [])
          ∷ (12, true, file_start (102 ∷ []) (97 ∷ []) 200)
          ∷ [])
        used).1
    ≡ (117 ∷ 95 ∷ 104 ∷ 105 ∷ 117 ∷ []) ∷ []
unfolding run_events progress on_start on_formdata on_file_start strlcat strlcpy starts_with
run_events-appends = refl

update_bytes_processed-running_example :
    update_bytes_processed 700 (running_track used)
    ≡ (true, running_track (record used { bytes_processed = 700 }))
update_bytes_processed-running_example = update_bytes_processed-running used 700 (omega arith)

-- An upload that is reported every 300 bytes.
abbrev running : UploadData
running = record used { update_freq = pos 300 }

abbrev blocks : List (ℕ × Bool × ℕ)
blocks = (13, true, 400) ∷ (14, false, 600) ∷ (15, true, 800) ∷ []

on_update_freq-percent_example :
    get_elem? (on_file_data settings true 700 used).1 0
    ≡ some (update used.tracking_key used.key_length 700)
unfolding on_update_freq on_start
on_update_freq-percent_example =
    on_update_freq-percent settings 50 10 1000 700 true used used refl (omega arith) refl refl
      (omega arith) (omega arith)

-- At 3 GiB the count turns negative.
update-negative : update_bytes_processed (3 * 2 ^ 30) (running_track used) ≡ (
  true,
  array (
      (total_key, long (pos 0))
      ∷ (current_key, long (negsuc (2 ^ 30 - 1)))
      ∷ (filename_key, string [])
      ∷ (name_key, string [])
      ∷ (done_key, long (pos 0))
      ∷ (start_time_key, double (0, 10 ^ 6))
      ∷ []),
)
unfolding update_bytes_processed
update-negative = refl
