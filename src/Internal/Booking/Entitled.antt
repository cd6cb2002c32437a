-- ===== src/Internal/Booking/Entitled.antt =====
-- The booking module of an organization, as `require_entitlement` of platform/services.py finds it.
use editingtab_platform_core.Shared.{
  ℕ, true, any, Memᴰ, some, ◌==◌, ◌≡◌, refl, sym, contains, contains-Memᴰ, Memᴰ-contains,
  order_by-Memᴰ, Memᴰ-order_by, where-Memᴰ, Memᴰ-where, &&-left, &&-right, &&-intro, ==→≡, ≡→==,
  subst,
}
use mathlib.Core.List.Memᴰ
use editingtab_platform_core.Errors.{access_error}
use editingtab_platform_core.Outcome.{ok, >>=-ok, require-true}
use editingtab_platform_core.Identity.Models.{Organization}
use editingtab_platform_core.Identity.Repository.{get_organization}
use editingtab_platform_core.Platform.Models.{ModuleEntitlement}
use editingtab_platform_core.Platform.Services.Modules.{
  check_module, find_current, enabled_modules_of, supported_modules,
}
use editingtab_platform_core.Platform.Services.Reads.{require_entitlement}
use editingtab_platform_core.Storage.Tables.{Database}

-- The organization has the booking module enabled.
pub record HasBooking (db : Database) (organization_id : ℕ) : Type 0 where
  pub entitlement : ModuleEntitlement
  pub row : Memᴰ entitlement db.module_entitlements
  pub organization : entitlement.organization_id ≡ organization_id
  pub code : entitlement.module_code ≡ "booking"
  pub enabled : entitlement.enabled ≡ true

module _ (db : Database) (organization_id : ℕ) where
  pub require_entitlement-HasBooking :
      {u : Unit {0}}
      → require_entitlement db organization_id "booking" ≡ ok u
      → HasBooking db organization_id
  unfolding require_entitlement enabled_modules_of
  require_entitlement-HasBooking e =
      let (_, _, e1) = >>=-ok (check_module "booking" true) _ e in
      let (_, _, e2) = >>=-ok (find_current db organization_id) _ e1 in
      let m =
        contains-Memᴰ (enabled_modules_of db organization_id) (require-true _ access_error e2) in
      let (row, k, c) = Memᴰ.of_map _ _ (order_by-Memᴰ _ _ m) in
      let (k', t) = where-Memᴰ _ _ k in
      record {
        entitlement = row;
        row = k';
        organization = ==→≡ _ _ (&&-left _ _ t);
        code = c;
        enabled = &&-left row.enabled _ (&&-right (row.organization_id == organization_id) _ t);
      }

  HasBooking-enabled :
      HasBooking db organization_id
      → contains (enabled_modules_of db organization_id) "booking" ≡ true
  unfolding enabled_modules_of
  HasBooking-enabled b =
      let t : contains supported_modules b.entitlement.module_code ≡ true =
        subst (λ c. contains supported_modules c ≡ true) (sym b.code) supported in
      Memᴰ-contains _ (
        Memᴰ-order_by _ _ (
          Memᴰ.cast (sym b.code) (
            Memᴰ.map (λ (e : ModuleEntitlement). e.module_code)
              (Memᴰ-where _ _ b.row
                (&&-intro _ _ (≡→== _ _ b.organization) (&&-intro _ _ b.enabled t))))))
    where
      supported : contains supported_modules "booking" ≡ true
      supported = Memᴰ-contains supported_modules (Memᴰ.head refl)

  pub HasBooking-require_entitlement :
      {o : Organization}
      → get_organization db organization_id ≡ some o
      → HasBooking db organization_id
      → require_entitlement db organization_id "booking" ≡ ok tt
  unfolding require_entitlement check_module find_current contains any
  HasBooking-require_entitlement e b = rw (e, HasBooking-enabled b)
