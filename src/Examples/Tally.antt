-- ===== src/Examples/Tally.antt =====
-- Counts written as tallies, which parse back: the texts of numbers in the sample stores.
use Prim.Native.String.{String, ◌∷◌, [], count}
use text.Mathlib.TextLemmas.{length-cons}
use stone_server.Prelude.{ℕ, zero, suc, ◌≡◌, refl, ap, ◌∙◌, Option, some}
use stone_server.Kv.{KvStore, KvLaws}
use stone_server.Kv.Memory.{mem_kv}
use stone_server.Kv.Memory.Laws.{mem_laws}

pub tally : ℕ → String
tally zero = []
tally (suc n) = "I" ∷ tally n

count-tally : (n : ℕ) → count (tally n) ≡ n
unfolding tally
count-tally zero = refl
count-tally (suc n) = length-cons "I" (tally n) ∙ ap suc (count-tally n)

abbrev pub parse_tally : String → Option ℕ
parse_tally s = some (count s)

abbrev pub tally_kv : KvStore
tally_kv = mem_kv parse_tally tally

pub tally_laws : KvLaws tally_kv
tally_laws = mem_laws parse_tally tally λ n. ap some (count-tally n)
