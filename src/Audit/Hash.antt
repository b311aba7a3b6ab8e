-- ===== src/Audit/Hash.antt =====
-- apps/edge/src/audit-chain.ts, `canonicalEvent` and `auditEventHash`.
pub mod Coverage
use challanse.Prelude.{String}
use challanse.Json.{Fields, stringify_sorted}
use challanse.Json.Texts.{colon_join}
use challanse.World.{Platform}

-- `JSON.stringify(event, Object.keys(event).sort())`
unfoldable pub canonical_event : Fields → String
canonical_event event = stringify_sorted event

-- SHA-256 of the previous hash, a colon and the canonical event.
unfoldable pub audit_event_hash : Platform → String → Fields → String
audit_event_hash p previous_hash event =
    p.sha256_hex (colon_join previous_hash (canonical_event event))
