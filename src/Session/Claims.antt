-- ===== src/Session/Claims.antt =====
-- A ticket that was claimed, over any store that meets the laws.
use stone_server.Prelude.{ℕ, ◌+◌, ◌≤◌, ◌≡◌, true, false, String, arith}
use stone_server.Kv
use stone_server.Kv.{KvStore, KvLaws, written, is_some, key_eq, key_eq_iff}
use stone_server.Session.{claim_ticket, ticket_key, ticket_ttl}

-- A ticket can be claimed once: whoever claims it again within its hour is refused.
pub claim_ticket_once :
    (kv : KvStore) (laws : KvLaws kv) (now later : ℕ) (hash : String) (s : kv.State)
    → now ≤ later
    → later ≤ now + ticket_ttl
    → (claim_ticket kv now hash s).0 ≡ Kv.ok true
    → (claim_ticket kv later hash (claim_ticket kv now hash s).1).0 ≡ Kv.ok false
unfolding claim_ticket
claim_ticket_once kv laws now later hash s h k first =
    let reply = laws.set_nx-reply now (ticket_key hash) "1" ticket_ttl s in
    let kept =
      laws.value_at-set_nx now later (ticket_key hash) (ticket_key hash) "1" ticket_ttl s h in
    let again =
      laws.set_nx-reply later (ticket_key hash) "1" ticket_ttl
        (kv.set_nx now (ticket_key hash) "1" ticket_ttl s).1 in
    ground (arith, reply, kept, again, key_eq_iff (ticket_key hash) (ticket_key hash))
