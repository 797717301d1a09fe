-- ===== src/Upload/Frequency.antt =====
-- What a frequency in percent does to an upload.
use pecl_caching_apc.Base.{
  ℕ, ℤ, ◌<◌, ◌^◌, ◌≡◌, refl, Bool, true, not, none, some, List, ltb, if◌then◌else◌, ◌/◌, arith,
  sub64, pos, get_elem?, ap, ◌∙◌,
}
use pecl_caching_apc.Upload.{UploadData, UploadSettings, CacheCall, update}
use pecl_caching_apc.Upload.Progress.{on_start, on_file_data}
use pecl_caching_apc.Upload.Tracks.{has_tracking_key, unsigned, on_update_freq}
use pecl_caching_apc.Upload.Keys.{both_branches}

percent-taken :
    (n : ℕ) (freq : ℤ) → (if ltb 100 n then none else some (pos n)) ≡ some freq → freq ≡ pos n
percent-taken n freq =
    both_branches (λ o. o ≡ some freq → freq ≡ pos n) (ltb 100 n) (λ e h. absurd (cc h))
      (λ e h. cc h)

percent-freq :
    (s : UploadSettings) (n now size : ℕ) (d : UploadData)
    → on_update_freq (pos n) true ≡ some s.rfc1867_freq
    → n < 100
    → (on_start s now size d).update_freq ≡ pos 0
unfolding on_update_freq on_start
percent-freq s n now size d h k =
    let t : s.rfc1867_freq ≡ pos n = percent-taken n s.rfc1867_freq h in
    let z : n / 100 ≡ 0 = omega arith in rw (t, z) refl

-- With a frequency of less than 100 percent, which the setting takes, a keyed upload of whatever
-- size calls for a report at every block of data that brings bytes, not at that share of the size.
pub on_update_freq-percent :
    (s : UploadSettings) (n now size post : ℕ) (updated : Bool) (before d : UploadData)
    → on_update_freq (pos n) true ≡ some s.rfc1867_freq
    → n < 100
    → d.update_freq ≡ (on_start s now size before).update_freq
    → has_tracking_key d ≡ true
    → d.prev_bytes_processed < post
    → post < 2 ^ 64
    → get_elem? (on_file_data s updated post d).1 0 ≡ some (update d.tracking_key d.key_length post)
unfolding on_file_data
on_update_freq-percent s n now size post updated before d h k f key more word =
    let z : unsigned d.update_freq ≡ 0 = ap unsigned (f ∙ percent-freq s n now size before h k) in
    let P : UploadData × List CacheCall → Type 0 =
      λ r. get_elem? (r.1) 0 ≡ some (update d.tracking_key d.key_length post) in
    both_branches P (not (has_tracking_key d)) (λ e. absurd (cc (e, key)))
      (λ e.
        both_branches P (ltb (unsigned d.update_freq) (sub64 post d.prev_bytes_processed))
          (λ g. refl) (λ g. absurd (ground (arith, g, z))))
