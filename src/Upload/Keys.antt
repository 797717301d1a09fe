-- ===== src/Upload/Keys.antt =====
-- The key of an upload: its room, when it is settled, and what it is made of.
use pecl_caching_apc.Base.{
  ℕ, ◌+◌, ◌≤◌, ◌<◌, ◌≡◌, refl, Bool, true, false, not, ◌&&◌, Option, none, some, List, [], ◌∷◌,
  ◌++◌, ltb, leb, if◌then◌else◌, length, length-set, take, All, arith, sub64,
}
use pecl_caching_apc.Upload.{
  UploadData, UploadSettings, Event, start, formdata, file_start, file_data, file_end, end,
  CacheCall, store, update, read_size,
}
use pecl_caching_apc.Upload.Text.{strlcat, length-strlcat}
use pecl_caching_apc.Upload.Progress.{
  on_start, on_formdata, on_file_start, on_file_data, on_file_end, on_end, progress, run_events,
  is_key_field,
}
use pecl_caching_apc.Upload.Tracks.{has_tracking_key, unsigned}

-- A property of both branches, each under its condition.
pub both_branches {ℓ κ} :
    {A : Type ℓ} (P : A → Type κ) (b : Bool) {x y : A}
    → (b ≡ true → P x)
    → (b ≡ false → P y)
    → P (if b then x else y)
both_branches P true h k = h refl
both_branches P false h k = k refl

pub All-append {ℓ κ} :
    {A : Type ℓ} (P : A → Type κ) (xs ys : List A) → All P xs → All P ys → All P (xs ++ ys)
All-append P [] ys h k = k
All-append P (x ∷ xs) ys (a, h) k = (a, All-append P xs ys h k)

-- The array of the key has its 64 bytes, and the length leaves room for the NUL.
pub record Fits (d : UploadData) : Type 0 where
  pub room : length d.tracking_key ≡ 64
  pub short : d.key_length < 64

abbrev pub key_array : CacheCall → List ℕ
key_array (store k n t ttl) = k
key_array (update k n b) = k

-- A call reads its key inside the array.
abbrev pub InBounds : CacheCall → Type 0
InBounds c = read_size c ≤ length (key_array c)

abbrev Sound : UploadData × List CacheCall → Type 0
Sound r = Fits r.0 × All InBounds r.1

on_formdata-Fits :
    (s : UploadSettings) (name value : Option (List ℕ)) (len post : ℕ) (d : UploadData)
    → length s.rfc1867_prefix ≤ 64
    → Fits d
    → Fits (on_formdata s name value len post d)
unfolding on_formdata
on_formdata-Fits s name none len post d p h = h
on_formdata-Fits s name (some value) len post d p h =
    both_branches Fits (not (is_key_field s name && ltb 0 len)) (λ e. h)
      (λ e.
        both_branches Fits (leb (sub64 64 (length s.rfc1867_prefix)) len) (λ f. h)
          (λ f.
            both_branches Fits d.started (λ g. h)
              (λ g. record {
                room = omega (
                  arith,
                  h.room,
                  length-strlcat d.tracking_key s.rfc1867_prefix 63,
                  length-strlcat (strlcat d.tracking_key s.rfc1867_prefix 63) value 63,
                );
                short = ground (arith, f, p);
              })))

progress-Sound :
    (s : UploadSettings) (now : ℕ) (updated : Bool) (e : Event) (d : UploadData)
    → length s.rfc1867_prefix ≤ 64
    → Fits d
    → Sound (progress s now updated e d)
unfolding progress on_start on_file_start on_file_data on_file_end on_end
progress-Sound s now u (start n) d p h = (
  record { room = omega (arith, h.room, length-set d.tracking_key 0 0); short = omega arith },
  tt,
)
progress-Sound s now u (formdata name value len post) d p h =
    (on_formdata-Fits s name value len post d p h, tt)
progress-Sound s now u (file_start name filename post) d p h =
    both_branches Sound (has_tracking_key d)
      (λ e. (record { room = h.room; short = h.short }, (omega (arith, h.room, h.short), tt)))
      (λ e. (record { room = h.room; short = h.short }, tt))
progress-Sound s now u (file_data post) d p h =
    let h' : Fits (record d { bytes_processed = post }) = record {
      room = h.room;
      short = h.short;
    } in
    both_branches Sound (not (has_tracking_key d)) (λ e. (h, tt))
      (λ e.
        both_branches Sound (ltb (unsigned d.update_freq) (sub64 post d.prev_bytes_processed))
          (λ f. (
            record { room = h.room; short = h.short },
            (
              omega (arith, h.room, h.short),
              both_branches (All InBounds) u (λ g. tt) (λ g. (omega (arith, h.room, h.short), tt)),
            ),
          ))
          (λ f. (h', tt)))
progress-Sound s now u (file_end temp cancel post) d p h =
    both_branches Sound (has_tracking_key d)
      (λ e. (record { room = h.room; short = h.short }, (omega (arith, h.room, h.short), tt)))
      (λ e. (h, tt))
progress-Sound s now u (end post) d p h =
    both_branches Sound (has_tracking_key d)
      (λ e. (record { room = h.room; short = h.short }, (omega (arith, h.room, h.short), tt)))
      (λ e. (h, tt))

-- Whatever events come, the array of the key keeps its 64 bytes, the key's length is below 64, and
-- every call on the user cache reads its key inside the array, provided that the prefix has 64 bytes
-- at most.
pub run_events-Sound :
    (s : UploadSettings) (es : List (ℕ × Bool × Event)) (d : UploadData)
    → length s.rfc1867_prefix ≤ 64
    → Fits d
    → Fits (run_events s es d).0 × All InBounds (run_events s es d).1
unfolding run_events
run_events-Sound s [] d p h = (h, tt)
run_events-Sound s ((now, u, e) ∷ es) d p h =
    let r = progress s now u e d in
    let a = progress-Sound s now u e d p h in
    let b = run_events-Sound s es r.0 p a.0 in
    (b.0, All-append InBounds r.1 (run_events s es r.0).1 a.1 b.1)

-- The bytes that name an entry of the user cache.
abbrev pub identifier : CacheCall → List ℕ
identifier c = take (read_size c) (key_array c)

abbrev pub is_start : Event → Bool
is_start (start n) = true
is_start (formdata name value len post) = false
is_start (file_start name filename post) = false
is_start (file_data post) = false
is_start (file_end temp cancel post) = false
is_start (end post) = false

-- The upload has begun, and what names its entry.
pub record Settled (l : List ℕ) (d : UploadData) : Type 0 where
  pub begun : d.started ≡ true
  pub named : take (d.key_length + 1) d.tracking_key ≡ l

abbrev pub Steady : List ℕ → UploadData × List CacheCall → Type 0
Steady l r = Settled l r.0 × All (λ c. identifier c ≡ l) r.1

progress-Steady :
    (s : UploadSettings) (now : ℕ) (updated : Bool) (e : Event) (d : UploadData) (l : List ℕ)
    → is_start e ≡ false
    → Settled l d
    → Steady l (progress s now updated e d)
unfolding progress on_formdata on_file_start on_file_data on_file_end on_end
progress-Steady s now u (start n) d l q h = absurd (cc q)
progress-Steady s now u (formdata name none len post) d l q h = (h, tt)
progress-Steady s now u (formdata name (some value) len post) d l q h = (
  both_branches (Settled l) (not (is_key_field s name && ltb 0 len)) (λ e. h)
      (λ e.
        both_branches (Settled l) (leb (sub64 64 (length s.rfc1867_prefix)) len) (λ f. h)
          (λ f. both_branches (Settled l) d.started (λ g. h) (λ g. absurd (cc (g, h.begun))))),
  tt,
)
progress-Steady s now u (file_start name filename post) d l q h =
    both_branches (Steady l) (has_tracking_key d)
      (λ e. (record { begun = refl; named = h.named }, (h.named, tt)))
      (λ e. (record { begun = refl; named = h.named }, tt))
progress-Steady s now u (file_data post) d l q h =
    both_branches (Steady l) (not (has_tracking_key d)) (λ e. (h, tt))
      (λ e.
        both_branches (Steady l) (ltb (unsigned d.update_freq) (sub64 post d.prev_bytes_processed))
          (λ f. (
            record { begun = h.begun; named = h.named },
            (h.named, both_branches (All (λ c. identifier c ≡ l)) u (λ g. tt) (λ g. (h.named, tt))),
          ))
          (λ f. (record { begun = h.begun; named = h.named }, tt)))
progress-Steady s now u (file_end temp cancel post) d l q h =
    both_branches (Steady l) (has_tracking_key d)
      (λ e. (record { begun = h.begun; named = h.named }, (h.named, tt))) (λ e. (h, tt))
progress-Steady s now u (end post) d l q h =
    both_branches (Steady l) (has_tracking_key d)
      (λ e. (record { begun = h.begun; named = h.named }, (h.named, tt))) (λ e. (h, tt))

pub run_events-Steady :
    (s : UploadSettings) (es : List (ℕ × Bool × Event)) (d : UploadData) (l : List ℕ)
    → All (λ i. is_start i.2 ≡ false) es
    → Settled l d
    → Steady l (run_events s es d)
unfolding run_events
run_events-Steady s [] d l q h = (h, tt)
run_events-Steady s ((now, u, e) ∷ es) d l (q, qs) h =
    let r = progress s now u e d in
    let a = progress-Steady s now u e d l q h in
    let b = run_events-Steady s es r.0 l qs a.0 in
    (b.0, All-append (λ c. identifier c ≡ l) r.1 (run_events s es r.0).1 a.1 b.1)
