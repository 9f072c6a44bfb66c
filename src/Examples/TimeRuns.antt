-- ===== src/Examples/TimeRuns.antt =====
-- The scan of a stored time, with texts that are a layout and the second that it has written.
use stone_server.Prelude.{
  ℕ, ◌≡◌, refl, Option, none, some, String, str_eq, eq_iff, if◌then◌else◌, ok, arith,
}
use mathlib.Core.List.{Memᴰ}
use stone_server.ScanTime.{text, Stamps, scan_time, scan_null_time, scan_time-stamp}

abbrev Written : Type 0
Written = String × ℕ

abbrev read_text : String → Written → Option ℕ
read_text f (g, n) = if str_eq f g then some n else none

abbrev whole : ℕ → ℕ
whole n = n

read_text-same : (f : String) (n : ℕ) → read_text f (f, n) ≡ some n
read_text-same f n = rw ((eq_iff f f).1 refl) refl

read_text-only : (f g : String) (n t : ℕ) → read_text g (f, n) ≡ some t → t ≡ n
read_text-only f g n t e = ground (arith, e)

stamps : Stamps read_text whole (λ f n. (f, n)) whole
stamps = record {
  reads = λ f m n lt. (n, read_text-same f n);
  agrees = λ f g m m' n lt t e. read_text-only f g n t e;
}

scan_time-stamp_example :
    (scan_time read_text whole 0 (text ("2006-01-02T15:04:05", 90)) 7 ≡ (90, ok tt))
    × (scan_null_time read_text whole 0 (text ("2006-01-02T15:04:05", 90)) none ≡ (some 90, ok tt))
scan_time-stamp_example =
    scan_time-stamp read_text whole stamps 0 "2006-01-02T15:04:05"
      (Memᴰ.tail (Memᴰ.tail (Memᴰ.head refl))) 90 (omega arith) 7 none
