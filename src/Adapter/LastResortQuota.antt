-- ===== src/Adapter/LastResortQuota.antt =====
-- The quota on last-resort packages, with the in-memory backend, when their own limit is off.
use cordn_rs.Common.{
  ℕ, ◌+◌, ◌-◌, ◌<◌, ◌≡◌, refl, ◌∙◌, arith, true, false, List, Str, ltb, ◌&&◌, if◌then◌else◌, length,
  count_if, retain, length-retain, ok,
}
use cordn_rs.Types.{PublishedKeyPackageRecord}
use cordn_rs.Memory.KeyPackages
use cordn_rs.Memory.KeyPackages.Refinement.{filed}
use cordn_rs.Coordinator.Service
use cordn_rs.Config.{KeyPackageQuotaConfig}
use cordn_rs.Adapter.{enforce_on, enforce_key_package_quota, is_last_resort_record}
use cordn_rs.Adapter.Ownership.{MemoryAdapter, state}

never_over :
    (max_per n e : ℕ)
    → 0 < max_per
    → e ≡ n
    → (ltb 0 max_per && ltb max_per (n - e + (if ltb e 0 then e else 0) + 1)) ≡ false
never_over max_per n e pos all = ground arith

module _ {Value : Type 0} where
  enforce_on-off :
      (pk : Str) (a : MemoryAdapter Value) (quota : KeyPackageQuotaConfig)
      (records : List (PublishedKeyPackageRecord Value))
      → quota.max_last_resort_per_identity ≡ 0
      → 0 < quota.max_per_identity
      → length (retain is_last_resort_record records) ≡ length records
      → enforce_on pk true quota records a ≡ (ok tt, a)
  enforce_on-off pk a quota records off pos all =
      rw
        (
          off,
          never_over quota.max_per_identity (length records)
              (length (retain is_last_resort_record records)) pos all,
        )
        refl

  -- On the in-memory backend, with the limit on last-resort packages at 0 and the quota above 0, an
  -- identity that has only last-resort packages, however many, is let through with another one, and no
  -- package is evicted.
  pub enforce_key_package_quota-off :
      (pk : Str) (a : MemoryAdapter Value)
      → a.abuse.key_package_quota.max_last_resort_per_identity ≡ 0
      → 0 < a.abuse.key_package_quota.max_per_identity
      → count_if is_last_resort_record (filed (state a) pk) ≡ length (filed (state a) pk)
      → enforce_key_package_quota pk true a ≡ (ok tt, a)
  unfolding enforce_key_package_quota Service.list_key_packages_for_identity
      KeyPackages.list_key_packages_for_identity
  enforce_key_package_quota-off pk a off pos all =
      enforce_on-off pk a a.abuse.key_package_quota (filed (state a) pk) off pos
        (length-retain is_last_resort_record (filed (state a) pk) ∙ all)
