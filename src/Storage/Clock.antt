-- ===== src/Storage/Clock.antt =====
-- The times of the tables (formatTime of internal/storage/store.go). A time is stored as its
-- RFC3339Nano text in UTC and compared as text by the queries.
use maintainer_cockpit.Prelude.{
  ℕ, zero, suc, ◌+◌, ◌/◌, ◌%◌, ◌^◌, ◌<◌, ◌≤◌, Bool, true, false, List, [], ◌∷◌, ◌++◌, ◌&&◌, ◌==◌,
  ltb, ◌≡◌, refl, ◌⊎◌, inl, inr, arith, if◌then◌else◌,
}

-- time.Time in UTC: seconds since the zero time (January 1 of year 1), and nanoseconds below 10^9.
pub record Instant : Type 0 where
  pub seconds : ℕ
  pub nanos : ℕ

-- Time.IsZero
abbrev pub is_zero : Instant → Bool
is_zero t = t.seconds == 0 && t.nanos == 0

-- The zero time.
abbrev pub zero_time : Instant
zero_time = record { seconds = 0; nanos = 0 }

-- The digit of 10^k in the nanoseconds, as a byte.
abbrev digit : ℕ → ℕ → ℕ
digit n k = b'0' + n / 10 ^ k % 10

abbrev digits_from : ℕ → ℕ → List ℕ
digits_from n zero = []
digits_from n (suc k) = digit n k ∷ digits_from n k

abbrev is_nil : List ℕ → Bool
is_nil [] = true
is_nil (x ∷ xs) = false

-- The digits with the trailing zeros removed.
abbrev trim_zeros : List ℕ → List ℕ
trim_zeros [] = []
trim_zeros (d ∷ ds) = let rest = trim_zeros ds in if d == b'0' && is_nil rest then [] else d ∷ rest

-- The fraction of RFC3339Nano: nothing for a whole second.
fraction : ℕ → List ℕ
fraction n = if n == 0 then [] else b'.' ∷ trim_zeros (digits_from n 9)

-- formatTime. The date and the time of day have a fixed width and sort as the seconds they stand
-- for (years 1 to 9999), so they are one leading entry here; the fraction and the Z are bytes.
unfoldable pub format_time : Instant → List ℕ
unfolding fraction
format_time t = t.seconds ∷ fraction t.nanos ++ b'Z' ∷ []

-- SQLite's order of texts: byte by byte, a proper prefix first.
unfoldable pub text_le : List ℕ → List ℕ → Bool
text_le [] ys = true
text_le (x ∷ xs) [] = false
text_le (x ∷ xs) (y ∷ ys) =
    let rest = text_le xs ys in if ltb x y then true else if x == y then rest else false

-- `a <= b` of two stored times.
unfoldable pub stored_le : Instant → Instant → Bool
unfolding text_le format_time
stored_le a b = text_le (format_time a) (format_time b)

pub text_le_total : (xs ys : List ℕ) → (text_le xs ys ≡ true) ⊎ (text_le ys xs ≡ true)
unfolding text_le
text_le_total [] ys = inl refl
text_le_total (x ∷ xs) [] = inr refl
text_le_total (x ∷ xs) (y ∷ ys) = ground (arith, text_le_total xs ys)

pub text_le_trans :
    (xs ys zs : List ℕ) → text_le xs ys ≡ true → text_le ys zs ≡ true → text_le xs zs ≡ true
unfolding text_le
text_le_trans [] ys zs h k = refl
text_le_trans (x ∷ xs) [] zs h k = ground arith
text_le_trans (x ∷ xs) (y ∷ ys) [] h k = ground arith
text_le_trans (x ∷ xs) (y ∷ ys) (z ∷ zs) h k = ground (arith, text_le_trans xs ys zs)

-- A time of an earlier second is stored as a smaller text.
pub stored_le-seconds :
    (a b : Instant) → a.seconds < b.seconds → (stored_le a b ≡ true) × (stored_le b a ≡ false)
unfolding stored_le
stored_le-seconds a b h = (ground arith, ground arith)

-- A time whose stored text is greater is of the same second or of a later one.
pub seconds_le : (a b : Instant) → stored_le a b ≡ false → b.seconds ≤ a.seconds
seconds_le a b h = ground (arith, stored_le-seconds a b)

-- Within one second the order of the stored texts is not the order of the times: a whole second is
-- stored as a greater text than every later time with a fraction in that second.
pub whole_second_not_stored_le :
    (s n : ℕ)
    → 0 < n
    → (stored_le (record { seconds = s; nanos = 0 }) (record { seconds = s; nanos = n }) ≡ false)
      × (stored_le (record { seconds = s; nanos = n }) (record { seconds = s; nanos = 0 }) ≡ true)
unfolding stored_le
whole_second_not_stored_le s n h = (ground arith, ground arith)

-- a.Before(b)
abbrev pub earlier : Instant → Instant → Bool
earlier a b =
    if ltb a.seconds b.seconds
    then true
    else if a.seconds == b.seconds
    then ltb a.nanos b.nanos
    else false
