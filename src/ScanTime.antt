-- ===== src/ScanTime.antt =====
-- pkg/store/time.go: the scanners that read the stored texts of times. A scan returns what its
-- pointer then holds, and the error. `parse` is `time.Parse` and `utc` is `Time.UTC`; a column is
-- whatever the driver hands over.
use stone_server.Prelude.{
  ℕ, ◌<◌, ◌≡◌, refl, ap, Option, none, some, List, [], ◌∷◌, String, Result, ok, err, Option-cases,
  inl, inr,
}
use mathlib.Core.List.{Memᴰ}
use mathlib.Core.List.Memᴰ.{cases_cons}

pub data Column (Time Text : Type 0) : Type 0 where
  time : Time → Column Time Text
  text : Text → Column Time Text
  null : Column Time Text
  other : Column Time Text

pub data ScanError (Text : Type 0) : Type 0 where
  cannot_parse : Text → ScanError Text
  unsupported : ScanError Text

abbrev pub time_formats : List String
time_formats =
    "2006-01-02T15:04:05Z07:00" ∷ "2006-01-02T15:04:05Z" ∷ "2006-01-02T15:04:05"
    ∷ "2006-01-02 15:04:05" ∷ []

module _ {Time Text : Type 0} (parse : String → Text → Option Time) (utc : Time → Time) where
  unfoldable pub first_parsed : List String → Text → Result (ScanError Text) Time
  first_parsed [] s = err (cannot_parse s)
  first_parsed (f ∷ fs) s = elim (parse f s) [ some t ↦ ok (utc t) | none ↦ first_parsed fs s ]

  unfoldable pub parse_time_str : Text → Result (ScanError Text) Time
  parse_time_str s = first_parsed time_formats s

  -- `zero_time` is `time.Time{}`.
  module _ (zero_time : Time) where
    unfoldable pub scan_time : Column Time Text → Time → Time × Result (ScanError Text) (Unit {0})
    scan_time (time t) p = (utc t, ok tt)
    scan_time (text s) p = elim (parse_time_str s) [ err e ↦ (p, err e) | ok t ↦ (t, ok tt) ]
    scan_time null p = (zero_time, ok tt)
    scan_time other p = (p, err unsupported)

    -- The rest of a scan into a pointer that can be nil, once the inner time is scanned.
    unfoldable scan_inner :
        Option Time
        → Time × Result (ScanError Text) (Unit {0})
        → Option Time × Result (ScanError Text) (Unit {0})
    scan_inner p (inner, err e) = (p, err e)
    scan_inner p (inner, ok u) = (some inner, ok tt)

    unfoldable pub scan_null_time :
        Column Time Text → Option Time → Option Time × Result (ScanError Text) (Unit {0})
    unfolding scan_inner scan_time
    scan_null_time null p = (none, ok tt)
    scan_null_time (time t) p = scan_inner p (scan_time (time t) zero_time)
    scan_null_time (text s) p = scan_inner p (scan_time (text s) zero_time)
    scan_null_time other p = scan_inner p (scan_time other zero_time)

-- The seconds before the year 10000, whose texts have a year of four digits.
abbrev pub end_of_texts : ℕ
end_of_texts = 253402300800

-- What Go documents of `Format` and `Parse`, for the layouts that are tried and times in UTC:
-- a time that a layout has written is read by that layout, and no layout reads it as another time.
-- `instant n` is the n-th second of the epoch, in UTC.
pub record Stamps {Time Text : Type 0} (parse : String → Text → Option Time) (utc : Time → Time)
    (stamp : String → ℕ → Text) (instant : ℕ → Time) : Type 0 where
  pub reads :
      (f : String)
      → Memᴰ f time_formats
      → (n : ℕ) → n < end_of_texts
      → (t : Time) × (parse f (stamp f n) ≡ some t)
  pub agrees :
      (f g : String)
      → Memᴰ f time_formats
      → Memᴰ g time_formats
      → (n : ℕ) → n < end_of_texts
      → (t : Time) → parse g (stamp f n) ≡ some t
      → utc t ≡ instant n

module _ {Time Text : Type 0} (parse : String → Text → Option Time) (utc : Time → Time) where
  -- The first layout that reads a text gives its time, if some layout does and all that do agree.
  first_parsed_lem :
      (fs : List String) (s : Text) (u : Time) {f : String} {t : Time}
      → Memᴰ f fs
      → parse f s ≡ some t
      → ((g : String) (t' : Time) → Memᴰ g fs → parse g s ≡ some t' → utc t' ≡ u)
      → first_parsed parse utc fs s ≡ ok u
  unfolding first_parsed
  first_parsed_lem [] s u m e h = elim m [ ]
  first_parsed_lem (g ∷ fs) s u {f} m e h = elim (Option-cases (parse g s)) [
    | inl unread ↦
        rw (unread, first_parsed)
          (elim (cases_cons m) [
            | inl f_eq ↦ cc
            | inr m' ↦ first_parsed_lem fs s u m' e (λ g' t' m''. h g' t' (Memᴰ.tail m''))
          ])
    | inr (t', read) ↦ rw (read, first_parsed) (ap ok (h g t' (Memᴰ.head refl) read))
  ]

  scan_time-parsed :
      (zero_time p : Time) (s : Text) {t : Time}
      → parse_time_str parse utc s ≡ ok t
      → scan_time parse utc zero_time (text s) p ≡ (t, ok tt)
  unfolding scan_time
  scan_time-parsed zero_time p s e = rw (e, scan_time) refl

  scan_null_time-text :
      (zero_time : Time) (q : Option Time) (s : Text) {t : Time}
      → parse_time_str parse utc s ≡ ok t
      → scan_null_time parse utc zero_time (text s) q ≡ (some t, ok tt)
  unfolding scan_null_time scan_inner
  scan_null_time-text zero_time q s e =
      ap (scan_inner parse utc zero_time q) (scan_time-parsed zero_time zero_time s e)

  -- A time that is stored in any of the layouts is scanned as itself, into a pointer to a time and
  -- into a pointer that can be nil, whatever they held; the year has four digits.
  pub scan_time-stamp :
      {stamp : String → ℕ → Text} {instant : ℕ → Time}
      → Stamps parse utc stamp instant
      → (zero_time : Time) (f : String) → Memᴰ f time_formats
      → (n : ℕ) → n < end_of_texts
      → (p : Time) (q : Option Time)
      → (scan_time parse utc zero_time (text (stamp f n)) p ≡ (instant n, ok tt))
        × (scan_null_time parse utc zero_time (text (stamp f n)) q ≡ (some (instant n), ok tt))
  unfolding parse_time_str
  scan_time-stamp {stamp} {instant} laws zero_time f m n lt p q =
      let (t, read) = laws.reads f m n lt in
      let parsed : parse_time_str parse utc (stamp f n) ≡ ok (instant n) =
        first_parsed_lem time_formats (stamp f n) (instant n) m read
          (λ g t' m'. laws.agrees f g m m' n lt t') in
      (
        scan_time-parsed zero_time p (stamp f n) parsed,
        scan_null_time-text zero_time q (stamp f n) parsed,
      )
