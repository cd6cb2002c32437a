-- ===== src/Identity/Models.antt =====
-- identity/models.py: the rows of the identity tables. Identifiers and times are numbers.
use editingtab_platform_core.Shared.{ℕ, Bool, Option, Text}

pub record Organization : Type 0 where
  pub id : ℕ
  pub name : Text
  pub slug : Text
  pub deleted_at : Option ℕ

pub record User : Type 0 where
  pub id : ℕ
  pub email : Text
  pub normalized_email : Text
  pub display_name : Text
  pub is_active : Bool
  pub deleted_at : Option ℕ

pub record Membership : Type 0 where
  pub id : ℕ
  pub organization_id : ℕ
  pub user_id : ℕ
  pub created_at : ℕ
  pub updated_at : ℕ
  pub deleted_at : Option ℕ
