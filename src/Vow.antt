-- ===== src/Vow.antt =====
-- internal/vow/vow.go: the offering of skins, its rarities, its success rate and its transaction.
--
-- Success rates are exact numbers: those of a tier in millionths of a percent, and a computed one
-- as a fraction of them; the rounding of float64 is not modelled. Counts are int64, and sums of
-- them wrap. Module Rates has the arithmetic, Pray the transaction and the handler.
pub mod Rates
pub mod Pray
