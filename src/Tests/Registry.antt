-- ===== src/Tests/Registry.antt =====
-- libs/ntdll/registry.c on its table.
use nloader.Base.{◌≡◌, refl, some, [], ◌∷◌, ◌++◌, replicate, map}
use nloader.Wide.{widetol}
use nloader.Registry.{
  RegKey, codes, wide_bytes, reg_keys, registry_lookup, find_key, starts_ignoring_case,
  same_ignoring_case, partial, query_value,
}
use nloader.Registry.Query.{Queried, query_value-Queried}

abbrev options : RegKey
options = record { path = codes "a"; content = 1 ∷ 2 ∷ []; kind = 1 }

query_value-Queried_example :
    Queried options partial
      (replicate 20 9)
      (query_value (some options) partial (replicate 20 9) 20)
query_value-Queried_example = query_value-Queried options partial (replicate 20 9)

partition_kind : map (λ (k : RegKey). k.kind) (reg_keys) ≡ 1 ∷ 1 ∷ 1 ∷ 1 ∷ 1 ∷ 7 ∷ 7 ∷ 7 ∷ 7 ∷ []
partition_kind = refl

-- The value behind the prefix, in another case.
partition_found :
    registry_lookup reg_keys (codes "\\REGISTRY\\machine\\system\\Setup\\SystemPartition")
    ≡ some (record {
      path = codes "System\\Setup\\SystemPartition";
      content = wide_bytes (codes "\\Device\\HarddiskVolume1" ++ 0 ∷ []);
      kind = 1;
    })
unfolding registry_lookup find_key starts_ignoring_case same_ignoring_case widetol
partition_found = refl
