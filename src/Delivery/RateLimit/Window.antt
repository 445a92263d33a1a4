-- ===== src/Delivery/RateLimit/Window.antt =====
-- server/bbz_core/infra/rate_limit.py: the requests of one caller within one window.
use native.Mathlib.Nat.{lt-div-mul-add}
use bbz_platform.Prelude.{
  ℕ, suc, ◌+◌, ◌≤◌, String, Bool, true, false, not, List, [], ◌∷◌, none, some, ◌≡◌, refl, sym,
  subst, ap, ◌∙◌, ◌⊎◌, inl, inr, leb, nat_eq, eq_iff, find, filter, some_injective, length, All,
  Bool-cases, arith, if◌then◌else◌,
}
use bbz_platform.Delivery.RateLimit.{
  RateLimitRule, RateLimitHit, RateLimitResult, window_of, window_start_of, expires_of, bucket_of,
  is_row, is_stale, upsert, first_hit, hit, hits,
}

abbrev pub min_of : ℕ → ℕ → ℕ
min_of a b = if leb a b then a else b

find-filter-some :
    (p q : RateLimitHit → Bool) (rows : List RateLimitHit) {row : RateLimitHit}
    → find p rows ≡ some row
    → q row ≡ true
    → find p (filter q rows) ≡ some row
find-filter-some p q [] found kept = absurd (cc found)
find-filter-some p q (r ∷ rows) {row} found kept = elim (Bool-cases (p r)) [
  | inl here ↦
      let itself : r ≡ row = some_injective (rw here at found) in
      rw (subst (λ x. q x ≡ true) (sym itself) kept) (rw here (rw here at found))
  | inr other ↦
      let after = find-filter-some p q rows (rw other at found) kept in
      elim (Bool-cases (q r)) [ inl stays ↦ rw stays (rw other after) | inr goes ↦ rw goes after ]
]

module _ (new : RateLimitHit) where
  itself_found : is_row new.bucket new.window_start new ≡ true
  itself_found = ground (arith, (eq_iff new.bucket new.bucket).1 refl)

  upsert-missing :
      (rows : List RateLimitHit)
      → find (is_row new.bucket new.window_start) rows ≡ none
      → (find (is_row new.bucket new.window_start) (upsert new rows).0 ≡ some new)
        × ((upsert new rows).1 ≡ new.count)
  upsert-missing [] missing = (rw itself_found refl, refl)
  upsert-missing (r ∷ rows) missing = elim (Bool-cases (is_row new.bucket new.window_start r)) [
    | inl here ↦ absurd (cc (rw here at missing))
    | inr other ↦
        let (found, count) = upsert-missing rows (rw other at missing) in
        rw other (rw other found, count)
  ]

  upsert-found :
      (rows : List RateLimitHit) {row : RateLimitHit}
      → find (is_row new.bucket new.window_start) rows ≡ some row
      → (find (is_row new.bucket new.window_start) (upsert new rows).0
          ≡ some (record row { count = suc row.count }))
        × ((upsert new rows).1 ≡ suc row.count)
  upsert-found [] found = absurd (cc found)
  upsert-found (r ∷ rows) {row} found = elim (Bool-cases (is_row new.bucket new.window_start r)) [
    | inl here ↦
        let itself : r ≡ row = some_injective (rw here at found) in
        rw here (
          rw here (ap (λ (x : RateLimitHit). some (record x { count = suc x.count })) itself),
          ap (λ (x : RateLimitHit). suc x.count) itself,
        )
    | inr other ↦
        let (after, count) = upsert-found rows (rw other at found) in
        rw other (rw other after, count)
  ]

-- The table counts so many hits in the window, with a row that expires at its end.
abbrev pub HasRow : String → ℕ → ℕ → ℕ → List RateLimitHit → Type 0
HasRow bucket start expires count rows =
    (row : RateLimitHit) × (find (is_row bucket start) rows ≡ some row)
    × (row.count ≡ count)
    × (row.expires_at ≡ expires)

abbrev pub HasCount : String → ℕ → ℕ → ℕ → List RateLimitHit → Type 0
HasCount bucket start expires count rows =
    ((find (is_row bucket start) rows ≡ none) × (count ≡ 0))
    ⊎ HasRow bucket start expires count rows

upsert-HasRow :
    (new : RateLimitHit) (count : ℕ) (rows : List RateLimitHit)
    → new.count ≡ 1
    → HasCount new.bucket new.window_start new.expires_at count rows
    → HasRow new.bucket new.window_start new.expires_at (suc count) (upsert new rows).0
      × ((upsert new rows).1 ≡ suc count)
upsert-HasRow new count rows one (inl (missing, none_yet)) =
    let (found, counted) = upsert-missing new rows missing in
    ((new, found, omega (arith, one, none_yet), refl), omega (arith, counted, one, none_yet))
upsert-HasRow new count rows one (inr (row, found, same, until)) =
    let (after, counted) = upsert-found new rows found in
    (
      (record row { count = suc row.count }, after, omega (arith, same), until),
      omega (arith, counted, same),
    )

filter-HasRow :
    (bucket : String) (start expires count now : ℕ) (rows : List RateLimitHit)
    → now ≤ expires
    → HasRow bucket start expires count rows
    → HasRow bucket start expires count (filter (λ row. not (is_stale bucket now row)) rows)
filter-HasRow bucket start expires count now rows live (row, found, same, until) = (
  row,
  find-filter-some (is_row bucket start) (λ r. not (is_stale bucket now r)) rows found
      (ground (arith, live, until)),
  same,
  until,
)

cleaned-HasRow :
    (b : Bool) (bucket : String) (start expires count now : ℕ) (rows : List RateLimitHit)
    → now ≤ expires
    → HasRow bucket start expires count rows
    → HasRow bucket start expires count
        (if b then filter (λ row. not (is_stale bucket now row)) rows else rows)
cleaned-HasRow true bucket start expires count now rows live row =
    filter-HasRow bucket start expires count now rows live row
cleaned-HasRow false bucket start expires count now rows live row = row

abbrev pub allowed_of : List RateLimitResult → ℕ
allowed_of results = length (filter (λ (result : RateLimitResult). result.allowed) results)

one_more_allowed :
    (result : RateLimitResult) (results : List RateLimitResult) (limit count more : ℕ)
    → result.allowed ≡ leb result.count limit
    → result.count ≡ suc count
    → allowed_of results + min_of limit (suc count) ≡ min_of limit (suc count + more)
    → allowed_of (result ∷ results) + min_of limit count ≡ min_of limit (count + suc more)
one_more_allowed result results limit count more rule counted rest =
    elim (Bool-cases (leb (suc count) limit)) [
      | inl within ↦
          let allowed : result.allowed ≡ true = rule ∙ rw counted within in
          rw allowed (ground (arith, within, rest))
      | inr over ↦
          let refused : result.allowed ≡ false = rule ∙ rw counted over in
          rw refused (ground (arith, over, rest))
    ]

module _ (rule : RateLimitRule) (identifier : String) where
  abbrev pub Counted : ℕ → ℕ → List RateLimitHit → Type 0
  Counted start count rows =
      HasCount (bucket_of rule identifier) start (start + window_of rule) count rows

  within_window : (now : ℕ) → 1 ≤ rule.window_seconds → now ≤ expires_of rule now
  unfolding window_start_of
  within_window now wide =
      omega (arith, lt-div-mul-add {a = now} {b = window_of rule} (omega (arith, wide)))

  hit-Counted :
      (now count : ℕ) (rows : List RateLimitHit)
      → 1 ≤ rule.window_seconds
      → Counted (window_start_of rule now) count rows
      → Counted (window_start_of rule now) (suc count) (hit rule identifier now rows).0
        × ((hit rule identifier now rows).1.count ≡ suc count)
  hit-Counted now count rows wide counted =
      let new = first_hit rule identifier now in
      let (row, result) = upsert-HasRow new count rows refl counted in
      (
        inr (
            cleaned-HasRow (nat_eq (upsert new rows).1 1) new.bucket new.window_start new.expires_at
              (suc count) now (upsert new rows).0 (within_window now wide) row),
        result,
      )

  -- Of the requests of one caller in one window as many are allowed as the limit leaves: with those
  -- counted before, never more than the limit.
  pub hits_allowed :
      (start count : ℕ) (nows : List ℕ) (rows : List RateLimitHit)
      → 1 ≤ rule.window_seconds
      → All (λ now. window_start_of rule now ≡ start) nows
      → Counted start count rows
      → allowed_of (hits rule identifier nows rows).1 + min_of rule.limit count
        ≡ min_of rule.limit (count + length nows)
  hits_allowed start count [] rows wide all_within counted = ground arith
  hits_allowed start count (now ∷ nows) rows wide all_within counted =
      let (next, now_counted) =
        hit-Counted now count rows wide
          (subst (λ w. Counted w count rows) (sym all_within.0) counted) in
      let after = (hit rule identifier now rows).0 in
      let rest =
        hits_allowed start (suc count) nows after wide all_within.1
          (subst (λ w. Counted w (suc count) after) all_within.0 next) in
      one_more_allowed (hit rule identifier now rows).1 (hits rule identifier nows after).1
        rule.limit count (length nows) refl now_counted rest
