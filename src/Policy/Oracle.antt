-- ===== src/Policy/Oracle.antt =====
-- crates/tracedb-policy/src/lib.rs: policies, actors and the visibility oracle.
use tracedb.Base.{
  ℕ, Text, codes, text_eq, text_eq_iff, Bool, true, false, ◌&&◌, any, Option, none, List, [], ◌∷◌,
  ◌++◌, is_empty, if◌then◌else◌, ◌≡◌, ◌↔◌, arith,
}

pub data VisibilityMode : Type 0 where
  tenant public acl hidden : VisibilityMode

pub record AclEntry : Type 0 where
  pub user_id : Text
  pub allow : Bool

pub record RetentionPolicy : Type 0 where
  pub retain_until_epoch : Option ℕ
  pub legal_hold : Bool

pub record Policy : Type 0 where
  pub tenant_id : Text
  pub workspace_id : Option Text
  pub owner_id : Option Text
  pub visibility : VisibilityMode
  pub acl_entries : List AclEntry
  pub sensitivity : Text
  pub retention : RetentionPolicy
  pub suppress_from_ai : Bool
  pub allow_embedding : Bool
  pub allow_training : Bool

-- `Policy::tenant`.
abbrev pub tenant_policy : Text → Policy
tenant_policy tenant_id = record {
  tenant_id = tenant_id;
  workspace_id = none;
  owner_id = none;
  visibility = VisibilityMode.tenant;
  acl_entries = [];
  sensitivity = codes "normal";
  retention = record { retain_until_epoch = none; legal_hold = false };
  suppress_from_ai = false;
  allow_embedding = true;
  allow_training = false;
}

pub record ActorContext : Type 0 where
  pub tenant_id : Text
  pub user_id : Text
  pub database_id : Text
  pub branch_id : Text
  pub token_identity : Text
  pub request_id : Text
  pub policy_epoch : ℕ
  pub scopes : List Text
  pub audit : Bool

abbrev pub tenant_user : Text → Text → ActorContext
tenant_user tenant_id user_id = record {
  tenant_id = tenant_id;
  user_id = user_id;
  database_id = codes "local";
  branch_id = codes "main";
  token_identity = codes "user:" ++ user_id;
  request_id = [];
  policy_epoch = 0;
  scopes = [];
  audit = false;
}

pub record VisibilityDecision : Type 0 where
  pub allowed : Bool
  pub reasons : List Text

abbrev pub acl_allows : List AclEntry → ActorContext → Bool
acl_allows entries actor = any (λ entry. entry.allow && text_eq entry.user_id actor.user_id) entries

-- What the match on `policy.visibility` pushes.
abbrev pub visibility_reasons : VisibilityMode → List AclEntry → ActorContext → List Text
visibility_reasons VisibilityMode.public entries actor = []
visibility_reasons VisibilityMode.tenant entries actor = []
visibility_reasons VisibilityMode.hidden entries actor = codes "hidden" ∷ []
visibility_reasons VisibilityMode.acl entries actor =
    if acl_allows entries actor then [] else codes "acl_denied" ∷ []

unfoldable pub reasons_against : Policy → ActorContext → List Text
reasons_against policy actor =
    (if text_eq policy.tenant_id actor.tenant_id then [] else codes "tenant_mismatch" ∷ [])
    ++ (visibility_reasons policy.visibility policy.acl_entries actor
        ++ (if policy.suppress_from_ai then codes "suppress_from_ai" ∷ [] else []))

-- The record and the version are not looked at.
unfoldable pub visible : Text → ℕ → Policy → ActorContext → VisibilityDecision
visible record_id version_id policy actor = record {
  allowed = is_empty (reasons_against policy actor);
  reasons = reasons_against policy actor;
}

-- What a mode asks of the actor.
abbrev pub Admits : VisibilityMode → List AclEntry → ActorContext → Type 0
Admits VisibilityMode.public entries actor = Unit
Admits VisibilityMode.tenant entries actor = Unit
Admits VisibilityMode.hidden entries actor = ⊥
Admits VisibilityMode.acl entries actor = acl_allows entries actor ≡ true

-- The oracle allows a record exactly when the actor is of the policy's tenant, the policy does not
-- keep the record from AI, and its mode admits the actor: public and tenant admit everyone, acl those
-- with an entry that allows their user, hidden no one.
pub visible-allowed_iff :
    (record_id : Text) (version_id : ℕ) (policy : Policy) (actor : ActorContext)
    → ((visible record_id version_id policy actor).allowed ≡ true) ↔ (
        (policy.tenant_id ≡ actor.tenant_id)
        × (policy.suppress_from_ai ≡ false)
        × Admits policy.visibility policy.acl_entries actor)
unfolding visible reasons_against
visible-allowed_iff record_id version_id policy actor = by_mode policy.visibility
  where
    by_mode :
        (mode : VisibilityMode)
        → (is_empty (
              (if text_eq policy.tenant_id actor.tenant_id
                then []
                else codes "tenant_mismatch" ∷ [])
              ++ (visibility_reasons mode policy.acl_entries actor
                  ++ (if policy.suppress_from_ai then codes "suppress_from_ai" ∷ [] else [])))
            ≡ true)
          ↔ ((policy.tenant_id ≡ actor.tenant_id)
              × (policy.suppress_from_ai ≡ false)
              × Admits mode policy.acl_entries actor)
    by_mode VisibilityMode.public = ground (arith, text_eq_iff policy.tenant_id actor.tenant_id)
    by_mode VisibilityMode.tenant = ground (arith, text_eq_iff policy.tenant_id actor.tenant_id)
    by_mode VisibilityMode.hidden = ground (arith, text_eq_iff policy.tenant_id actor.tenant_id)
    by_mode VisibilityMode.acl = ground (arith, text_eq_iff policy.tenant_id actor.tenant_id)
