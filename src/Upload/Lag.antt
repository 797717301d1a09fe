-- ===== src/Upload/Lag.antt =====
-- What the user cache shows of an upload while its data come in.
use pecl_caching_apc.Base.{
  ℕ, ◌+◌, ◌≤◌, ◌<◌, ◌^◌, ◌≡◌, Bool, true, List, [], ◌∷◌, if◌then◌else◌, map,
}
use pecl_caching_apc.Upload.{
  Zval, UploadData, UploadSettings, Event, file_data, CacheCall, store, update,
}
use pecl_caching_apc.Upload.Progress.{progress}
use pecl_caching_apc.Upload.Tracks.{
  has_tracking_key, running_track, unsigned, update_bytes_processed,
}

-- What a call leaves in the entry of its key: a store its array, an update that succeeds what the
-- updater makes of the array that is there.
abbrev pub entry_after : (updated : Bool) → List CacheCall → Zval → Zval
entry_after u [] entry = entry
entry_after u (store k n track ttl ∷ calls) entry = entry_after u calls track
entry_after u (update k n bytes ∷ calls) entry =
    entry_after u calls (if u then (update_bytes_processed bytes entry).1 else entry)

-- The entry after some events.
abbrev pub entry_of_run : UploadSettings → List (ℕ × Bool × Event) → UploadData → Zval → Zval
entry_of_run s [] d entry = entry
entry_of_run s ((now, u, e) ∷ es) d entry =
    let r = progress s now u e d in entry_of_run s es (r.0) (entry_after u (r.1) entry)

-- Blocks of data, each with the count of bytes after it, which grows.
abbrev pub block_events : List (ℕ × Bool × ℕ) → List (ℕ × Bool × Event)
block_events = map λ b. (b.0, b.1, file_data (b.2))

abbrev pub Grows : ℕ → List (ℕ × Bool × ℕ) → Type 0
Grows post [] = post < 2 ^ 31
Grows post ((now, u, post') ∷ blocks) = (post ≤ post') × Grows post' blocks

abbrev pub last_count : ℕ → List (ℕ × Bool × ℕ) → ℕ
last_count post [] = post
last_count post ((now, u, post') ∷ blocks) = last_count post' blocks

-- The entry shows the array of the upload with a count of `shown`, not far behind the last one.
record Shows (freq post : ℕ) (entry : Zval) (d : UploadData) : Type 0 where
  keyed : has_tracking_key d ≡ true
  limit : unsigned d.update_freq ≡ freq
  counted : d.bytes_processed ≡ post
  shown : ℕ
  track : entry ≡ running_track (record d { bytes_processed = shown })
  since : d.prev_bytes_processed ≤ shown
  behind : shown ≤ post
  near : post ≤ shown + freq
