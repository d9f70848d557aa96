-- ===== src/Gateway/Hub.antt =====
-- internal/gateway/gateway.go: who calls, and the tables that calls touch.
use aurium.Base.{Bool, Option, List, Text}
use aurium.Db.{Sql, inside}
use aurium.Gateway.Grants.{Subject, Grants}
use aurium.Gateway.Approvals.{Gate}
use aurium.Gateway.Registry.{Registry}

-- `Caller`
pub record Caller : Type 0 where
  pub subject : Subject
  pub is_human : Bool

-- The payload of an event about a call, without the reason of the verdict, and who made it.
pub record Audit : Type 0 where
  pub actor : Caller
  pub integration : Text
  pub capability : Text
  pub args_hash : Text
  pub is_ok : Bool

-- The tables that a call touches.
pub record Hub (W M : Type 0) : Type 0 where
  pub registry : Registry
  pub grants : Grants
  pub gate : Gate W M
  pub audits : List Audit

abbrev pub Step : Type 0 → Type 0 → Type 0 → Type 0
Step W M A = Sql Text (Hub W M) A

module _ {W M : Type 0} where
  abbrev pub on_registry : {A : Type 0} → Sql Text Registry A → Step W M (Option A)
  on_registry = inside (λ (h : Hub W M). h.registry) (λ r h. record h { registry = r })

  abbrev pub on_grants : {A : Type 0} → Sql Text Grants A → Step W M (Option A)
  on_grants = inside (λ (h : Hub W M). h.grants) (λ g h. record h { grants = g })
