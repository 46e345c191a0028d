-- ===== src/Audit.antt =====
-- The audit log: src/audit/auditService.ts. Entries are only ever appended.
use ptv_mcp.Base.{
  ℕ, ◌+◌, Bool, true, ◌&&◌, List, [], ◌∷◌, ◌++◌, Option, none, some, Text, text_eq, leb, filter_by,
  sort_by, take,
}
use ptv_mcp.Json.{Json}
use ptv_mcp.World.{AuditEntry, Platform, ok, Call}

-- `AuditEntryInput`, with the members that the modelled callers give.
pub record AuditEntryInput : Type 0 where
  pub tenant_id : Text
  pub user_id : Option Text
  pub action : Text
  pub resource_type : Text
  pub resource_id : Option Text
  pub before_state : Option Json
  pub after_state : Option Json
  pub result : Text
  pub correlation_id : Option Text

abbrev pub entry_of : AuditEntryInput → Text → ℕ → AuditEntry
entry_of input correlation now = record {
  tenant_id = input.tenant_id;
  user_id = input.user_id;
  correlation_id = correlation;
  action = input.action;
  resource_type = input.resource_type;
  resource_id = input.resource_id;
  before_state = input.before_state;
  after_state = input.after_state;
  result = input.result;
  created_at = now;
}

-- `options?.x ? eq(column, options.x) : undefined`
abbrev pub matches : Option Text → Text → Bool
matches none column = true
matches (some wanted) column = text_eq column wanted

module _ {P : Type 0} ⦃platform : Platform⦄ where
  -- `AuditService.record`; a fresh correlation id is drawn if none is given.
  unfoldable pub record_audit : AuditEntryInput → Call P AuditEntry
  record_audit input w = elim input.correlation_id [
    | some id ↦
        let entry = entry_of input id w.now in
        (ok entry, record w { audit = w.audit ++ entry ∷ [] })
    | none ↦
        let entry = entry_of input (platform.random_uuid w.seed) w.now in
        (ok entry, record w { audit = w.audit ++ entry ∷ []; seed = w.seed + 1 })
  ]

-- `AuditService.listForTenant`: newest first, at most `limit` entries.
unfoldable pub list_for_tenant :
    Text → Option Text → Option Text → ℕ → List AuditEntry → List AuditEntry
list_for_tenant tenant resource_type correlation_id limit log = take limit (
    sort_by (λ a b. leb b.created_at a.created_at)
      (filter_by
        (λ e.
          text_eq e.tenant_id tenant
          && matches resource_type e.resource_type
          && matches correlation_id e.correlation_id)
        log))

-- `AuditService.listByCorrelationId`: oldest first, without a limit.
unfoldable pub list_by_correlation_id : Text → Text → List AuditEntry → List AuditEntry
list_by_correlation_id tenant correlation_id log =
    sort_by (λ a b. leb a.created_at b.created_at)
      (filter_by (λ e. text_eq e.tenant_id tenant && text_eq e.correlation_id correlation_id) log)
