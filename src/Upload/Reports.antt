-- ===== src/Upload/Reports.antt =====
-- What an upload reports: the name of its entry, and the array that is kept there.
use pecl_caching_apc.Base.{
  ℕ, none, ◌+◌, ◌≤◌, ◌<◌, ◌^◌, ◌≡◌, ◌≢◌, refl, Bool, true, false, not, ◌&&◌, some, List, [], ◌∷◌,
  ◌++◌, ltb, leb, length, length-append, length-set, set, get_or, All, arith, sub64, pos, ◌==◌, ap,
}
use pecl_caching_apc.Upload.{
  UploadData, UploadSettings, Event, start, formdata, file_start, file_data, file_end, end,
  CacheCall,
}
use pecl_caching_apc.Upload.Text.{strlcat, length-strlcat, Holds, Holds-take, strlcat-Holds}
use pecl_caching_apc.Upload.Progress.{
  on_start, on_formdata, on_file_start, progress, run_events, is_key_field,
}
use pecl_caching_apc.Upload.Tracks.{
  has_tracking_key, running_track, low_int, update_bytes_processed,
}
use pecl_caching_apc.Upload.Keys.{
  both_branches, Steady, run_events-Steady, is_start, identifier, All-append,
}

-- The key that the form has given.
record Named (l : List ℕ) (d : UploadData) : Type 0 where
  holds : Holds d.tracking_key l
  len : d.key_length ≡ length l

on_formdata-Named :
    (s : UploadSettings) (name value : List ℕ) (post : ℕ) (d : UploadData)
    → length d.tracking_key ≡ 64
    → Holds d.tracking_key []
    → d.started ≡ false
    → is_key_field s (some name) ≡ true
    → All (λ c. c ≢ 0) s.rfc1867_prefix
    → All (λ c. c ≢ 0) value
    → 0 < length value
    → length s.rfc1867_prefix + length value ≤ 62
    → Named
        (s.rfc1867_prefix ++ value)
        (on_formdata s (some name) (some value) (length value) post d)
unfolding on_formdata
on_formdata-Named s name value post d r h st k p v z m =
    let P = Named (s.rfc1867_prefix ++ value) in
    both_branches P (not (is_key_field s (some name) && ltb 0 (length value)))
      (λ e. absurd (ground (arith, e, k, z)))
      (λ e.
        both_branches P (leb (sub64 64 (length s.rfc1867_prefix)) (length value))
          (λ f. absurd (ground (arith, f, m)))
          (λ f.
            both_branches P d.started (λ g. absurd (cc (g, st)))
              (λ g. record {
                holds =
                    strlcat-Holds (strlcat d.tracking_key s.rfc1867_prefix 63) s.rfc1867_prefix
                      value 63
                      (strlcat-Holds d.tracking_key [] s.rfc1867_prefix 63 h p (omega arith)
                        (omega arith))
                      v (omega arith)
                      (omega (arith, r, length-strlcat d.tracking_key s.rfc1867_prefix 63));
                len = omega (arith, length-append s.rfc1867_prefix value);
              })))

-- A string that is not empty begins with a byte that is not NUL.
Holds-first : (xs s : List ℕ) → Holds xs s → 0 < length s → not (get_or xs 0 0 == 0) ≡ true
Holds-first [] s h k = absurd h
Holds-first (x ∷ xs) [] h k = absurd (omega arith)
Holds-first (x ∷ xs) (c ∷ s) (e, m, h) k = ground (arith, e, m)

Holds-reset : (xs : List ℕ) → 0 < length xs → Holds (set xs 0 0) []
Holds-reset [] h = absurd (omega arith)
Holds-reset (x ∷ xs) h = refl

-- The start of a file stores an entry under the key.
abbrev Opens : List ℕ → UploadData × List CacheCall → Type 0
Opens l r = Steady l r × (0 < length r.1)

on_file_start-Opens :
    (s : UploadSettings) (name filename l : List ℕ) (post : ℕ) (d : UploadData)
    → Named l d
    → 0 < length l
    → Opens (l ++ 0 ∷ []) (on_file_start s name filename post d)
unfolding on_file_start
on_file_start-Opens s name filename l post d h z =
    let t = Holds-take (d.key_length + 1) d.tracking_key l (omega (arith, h.len)) h.holds in
    both_branches (Opens (l ++ 0 ∷ [])) (has_tracking_key d)
      (λ e. ((record { begun = refl; named = t }, (t, tt)), omega arith))
      (λ e. absurd (cc (e, Holds-first d.tracking_key l h.holds z)))

-- A field of the form that is not the key.
abbrev pub is_other_field : UploadSettings → Event → Bool
is_other_field s (formdata name value len post) = not (is_key_field s name)
is_other_field s (start n) = false
is_other_field s (file_start name filename post) = false
is_other_field s (file_data post) = false
is_other_field s (file_end temp cancel post) = false
is_other_field s (end post) = false

progress-other :
    (s : UploadSettings) (now : ℕ) (u : Bool) (e : Event) (d : UploadData)
    → is_other_field s e ≡ true
    → progress s now u e d ≡ (d, [])
unfolding progress on_formdata
progress-other s now u (formdata name none len post) d h = refl
progress-other s now u (formdata name (some value) len post) d h =
    let silent : UploadData → UploadData × List CacheCall = λ d'. (d', []) in
    ap silent (
      both_branches (λ d'. d' ≡ d) (not (is_key_field s name && ltb 0 len)) (λ e. refl)
        (λ e. absurd (ground (arith, e, h))))
progress-other s now u (start n) d h = absurd (cc h)
progress-other s now u (file_start name filename post) d h = absurd (cc h)
progress-other s now u (file_data post) d h = absurd (cc h)
progress-other s now u (file_end temp cancel post) d h = absurd (cc h)
progress-other s now u (end post) d h = absurd (cc h)

run_events-others :
    (s : UploadSettings) (os es : List (ℕ × Bool × Event)) (d : UploadData)
    → All (λ i. is_other_field s i.2 ≡ true) os
    → run_events s (os ++ es) d ≡ run_events s es d
unfolding run_events
run_events-others s [] es d h = refl
run_events-others s ((now, u, e) ∷ os) es d (h, hs) =
    rw (progress-other s now u e d h) (run_events-others s os es d hs)

-- An upload whose form has one key field before its first file, with any other fields around it, and
-- whose key is not empty and has at most 62 bytes with the prefix, neither with a NUL: that file's start and whatever
-- comes until the next upload call the user cache, at least once, and always for the entry that the
-- prefix, the key and a NUL name.
pub run_events-named :
    (s : UploadSettings) (now now' now'' : ℕ) (u u' u'' : Bool) (size post post' : ℕ)
    (field value name filename : List ℕ) (before after es : List (ℕ × Bool × Event))
    (d : UploadData)
    → length d.tracking_key ≡ 64
    → is_key_field s (some field) ≡ true
    → All (λ c. c ≢ 0) s.rfc1867_prefix
    → All (λ c. c ≢ 0) value
    → 0 < length value
    → length s.rfc1867_prefix + length value ≤ 62
    → All (λ i. is_other_field s i.2 ≡ true) before
    → All (λ i. is_other_field s i.2 ≡ true) after
    → All (λ i. is_start i.2 ≡ false) es
    → let first_file = (now'', u'', file_start name filename post') ∷ es in
      let key_field : ℕ × Bool × Event =
        (now', u', formdata (some field) (some value) (length value) post) in
      let calls =
        (run_events s ((now, u, start size) ∷ (before ++ key_field ∷ (after ++ first_file))) d).1 in
      All (λ c. identifier c ≡ s.rfc1867_prefix ++ value ++ 0 ∷ []) calls × (0 < length calls)
unfolding run_events progress on_start
run_events-named s now now' now'' u u' u'' size post post' field value name filename before after es
      d r k p v z m b a q =
    let d₁ = on_start s now size d in
    let n =
      on_formdata-Named s field value post d₁ (omega (arith, r, length-set d.tracking_key 0 0))
        (Holds-reset d.tracking_key (omega (arith, r))) refl k p v z m in
    let d₂ = on_formdata s (some field) (some value) (length value) post d₁ in
    let l = s.rfc1867_prefix ++ value in
    let o =
      on_file_start-Opens s name filename l post' d₂ n
        (omega (arith, z, length-append s.rfc1867_prefix value)) in
    let f = on_file_start s name filename post' d₂ in
    let w = run_events-Steady s es f.0 (l ++ 0 ∷ []) q o.0.0 in
    rw (run_events-others s before _ d₁ b, run_events-others s after _ d₂ a)
      (
        All-append (λ c. identifier c ≡ l ++ 0 ∷ []) f.1 (run_events s es f.0).1 o.0.1 w.1,
        omega (arith, o.1, length-append f.1 (run_events s es f.0).1),
      )

-- To update the entry of a file that has started is to store it anew: the updater turns the array
-- that the start stores into the one that it would store for the new count, below 2^31 bytes.
pub update_bytes_processed-running :
    (d : UploadData) (bytes : ℕ)
    → bytes < 2 ^ 31
    → update_bytes_processed bytes (running_track d)
      ≡ (true, running_track (record d { bytes_processed = bytes }))
unfolding update_bytes_processed
update_bytes_processed-running d bytes h =
    let e : low_int bytes ≡ pos bytes = ground arith in rw (e) refl
