-- ===== src/Gacha/Logs.antt =====
-- internal/gacha/gacha.go: the handler `Logs`. `page` and `limit` are what `strconv.Atoi` gives:
-- 0 for a text that is no number.

use stone_server.Prelude.{
  length-map, ℕ, ℤ, pos, negsuc, zero, suc, ◌+◌, ◌-◌, ◌*◌, ◌%◌, ◌≤◌, ◌<◌, ◌≡◌, refl, sym, ap, ◌∙◌,
  Bool, ◌||◌, List, [], ◌∷◌, ◌++◌, map, length, ltb, leb, if◌then◌else◌, Result, ok, ◌>>◌,
  refuse_if, arith,
}
use stone_server.Tables.{Rarity, PlayerRows, GachaLog, Env, Error, count_logs, load_logs, db_failed}
use stone_server.Prelude.{String}

abbrev pub default_logs_limit : ℕ
default_logs_limit = 20

abbrev pub max_logs_limit : ℕ
max_logs_limit = 100

pub record LogEntry : Type 0 where
  pub item_id : String
  pub rarity : Rarity
  pub is_duplicate : Bool
  pub refund_points : ℕ
  pub cost_points : ℕ
  pub pulled_at : ℕ

pub record LogsResponse : Type 0 where
  pub logs : List LogEntry
  pub total : ℕ

abbrev pub log_entry : GachaLog → LogEntry
log_entry l = record {
  item_id = l.item_id;
  rarity = l.rarity;
  is_duplicate = l.is_duplicate;
  refund_points = l.refund_points;
  cost_points = l.cost_points;
  pulled_at = l.pulled_at;
}

-- page < 1 is the first page
abbrev pub page_of : ℤ → ℕ
page_of (pos n) = if ltb n 1 then 1 else n
page_of (negsuc n) = 1

-- limit < 1 or > 100 is the default
abbrev pub limit_of : ℤ → ℕ
limit_of (pos n) = if ltb n 1 || ltb max_logs_limit n then default_logs_limit else n
limit_of (negsuc n) = default_logs_limit

-- (page - 1) * limit as an int64; SQLite reads a negative OFFSET as 0.
unfoldable pub offset_of : ℕ → ℕ → ℕ
offset_of page limit =
    let offset = (page - 1) * limit % 18446744073709551616 in
    if leb 9223372036854775808 offset then 0 else offset

module _ {ℓ} {A : Type ℓ} where
  abbrev pub take : ℕ → List A → List A
  take zero xs = []
  take (suc n) [] = []
  take (suc n) (x ∷ xs) = x ∷ take n xs

  abbrev pub drop : ℕ → List A → List A
  drop zero xs = xs
  drop (suc n) [] = []
  drop (suc n) (x ∷ xs) = drop n xs

  take-nil : (m : ℕ) → take m [] ≡ []
  take-nil zero = refl
  take-nil (suc m) = refl

  take-add : (n m : ℕ) (xs : List A) → take n xs ++ take m (drop n xs) ≡ take (n + m) xs
  take-add zero m xs = ap (λ k. take k xs) (omega arith)
  take-add (suc n) m [] = take-nil m ∙ sym (take-nil (suc n + m))
  take-add (suc n) m (x ∷ xs) =
      let up : suc n + m ≡ suc (n + m) = omega arith in rw up (ap (λ l. x ∷ l) (take-add n m xs))

  length-take-le : (n : ℕ) (xs : List A) → length (take n xs) ≤ n
  length-take-le zero xs = omega arith
  length-take-le (suc n) [] = omega arith
  length-take-le (suc n) (x ∷ xs) = omega (arith, length-take-le n xs)

-- ORDER BY pulled_at DESC
unfoldable pub insert_by_pull : GachaLog → List GachaLog → List GachaLog
insert_by_pull l [] = l ∷ []
insert_by_pull l (x ∷ xs) =
    let rest = insert_by_pull l xs in if leb x.pulled_at l.pulled_at then l ∷ x ∷ xs else x ∷ rest

unfoldable pub newest_first : List GachaLog → List GachaLog
unfolding insert_by_pull
newest_first [] = []
newest_first (l ∷ ls) = insert_by_pull l (newest_first ls)

unfoldable pub get_logs : Env → ℤ → ℤ → PlayerRows → Result Error LogsResponse
unfolding offset_of newest_first
get_logs env page limit db = do
  refuse_if (env.fault count_logs) db_failed
  refuse_if (env.fault load_logs) db_failed
  ok (record {
    logs = map log_entry (
        take (limit_of limit)
          (drop (offset_of (page_of page) (limit_of limit)) (newest_first db.gacha_logs)));
    total = length db.gacha_logs;
  })

map-append : {A B : Type 0} (f : A → B) (xs ys : List A) → map f (xs ++ ys) ≡ map f xs ++ map f ys
map-append f [] ys = refl
map-append f (x ∷ xs) ys = ap (λ l. f x ∷ l) (map-append f xs ys)

length-insert_by_pull :
    (l : GachaLog) (xs : List GachaLog) → length (insert_by_pull l xs) ≡ suc (length xs)
unfolding insert_by_pull
length-insert_by_pull l [] = refl
length-insert_by_pull l (x ∷ xs) = ground (arith, length-insert_by_pull l xs)

length-newest_first : (ls : List GachaLog) → length (newest_first ls) ≡ length ls
unfolding newest_first
length-newest_first [] = refl
length-newest_first (l ∷ ls) =
    length-insert_by_pull l (newest_first ls) ∙ ap suc (length-newest_first ls)

offset_of-small :
    (page limit : ℕ)
    → (page - 1) * limit < 9223372036854775808
    → offset_of page limit ≡ (page - 1) * limit
unfolding offset_of
offset_of-small page limit h = ground arith

-- What the queries of a page in range return.
page_rows :
    (env : Env) (page limit : ℕ) (db : PlayerRows) {r : LogsResponse}
    → 1 ≤ page
    → 1 ≤ limit
    → limit ≤ max_logs_limit
    → get_logs env (pos page) (pos limit) db ≡ ok r
    → r ≡ record {
      logs = map log_entry (take limit (drop (offset_of page limit) (newest_first db.gacha_logs)));
      total = length db.gacha_logs;
    }
unfolding get_logs
page_rows env page limit db p l l' e = ground arith

next_page : (page limit : ℕ) → 1 ≤ page → (page - 1) * limit + limit ≡ page * limit
next_page page limit p =
    let step : page ≡ page - 1 + 1 = omega arith in
    let product : (page - 1) * limit + limit ≡ (page - 1 + 1) * limit = grind arith in
    product ∙ ap (λ k. k * limit) (sym step)

-- The pages of the logs follow each other without a gap or an overlap: the logs of the pages
-- before a page and those of the page are the first page * limit of all, newest first. A page
-- has at most `limit` logs, and the total counts all of them. The page and the limit are in
-- range, and page * limit is an int64.
pub get_logs-pages :
    (env : Env) (page limit : ℕ) (db : PlayerRows) {r : LogsResponse}
    → 1 ≤ page
    → 1 ≤ limit
    → limit ≤ max_logs_limit
    → page * limit < 9223372036854775808
    → get_logs env (pos page) (pos limit) db ≡ ok r
    → (map log_entry (take ((page - 1) * limit) (newest_first db.gacha_logs)) ++ r.logs
        ≡ map log_entry (take (page * limit) (newest_first db.gacha_logs)))
      × (length r.logs ≤ limit)
      × (r.total ≡ length (newest_first db.gacha_logs))
get_logs-pages env page limit db {r} p l l' fits e =
    let all = newest_first db.gacha_logs in
    let before = (page - 1) * limit in
    let next = next_page page limit p in
    let offset = offset_of-small page limit (omega (arith, next, fits, l)) in
    let part = take limit (drop before all) in
    let same : r ≡ record { logs = map log_entry part; total = length db.gacha_logs } =
      page_rows env page limit db p l l' e
      ∙ ap
          (λ o. record {
            logs = map log_entry (take limit (drop o all));
            total = length db.gacha_logs;
          })
          offset in
    rw same (
      sym (map-append log_entry (take before all) part)
          ∙ ap (map log_entry) (take-add before limit all ∙ ap (λ k. take k all) next),
      omega (arith, length-map log_entry part, length-take-le limit (drop before all)),
      sym (length-newest_first db.gacha_logs),
    )
