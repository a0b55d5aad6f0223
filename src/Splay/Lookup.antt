-- ===== src/Splay/Lookup.antt =====
-- libs/ntdll/splay.c: `RtlLookupElementGenericTable` on a valid table.
use nloader.Base.{ℕ, ◌≡◌, refl, false, Option, none, some, ◌⊎◌, Bool-cases, inl, inr}
use nloader.Splay.{Compared, equal, Item, Tree, node}
use nloader.Splay.Table.{Table, done, lookup}
use nloader.Splay.Loop.{inorder, IsOrder}
use nloader.Splay.Contains.{contains}
use nloader.Splay.Valid.{IsValid, IsValid-root, splay-found, splay-absent}

module _ {A : Type 0} (compare_routine : A → A → Compared) (laws : IsOrder compare_routine) where
  -- A lookup finds an address exactly where some node is equal to the element, that of such a node;
  -- the nodes stay as they are.
  pub lookup-contains :
      (buffer : A) (t : Table A)
      → IsValid compare_routine t
      → (root : Tree A) × (found : Option ℕ) × (lookup compare_routine buffer t
          ≡ done (record t { root = root }, found))
        × (inorder root ≡ inorder t.root)
        × IsValid compare_routine (record t { root = root })
        × ((contains compare_routine buffer (inorder t.root) ≡ false) × (found ≡ none)
            ⊎ ((l : Tree A) × (x : Item A) × (r : Tree A) × (root ≡ node l x r)
                × (compare_routine buffer x.body ≡ equal)
                × (found ≡ some x.address)))
  unfolding lookup
  lookup-contains buffer t v =
      elim (Bool-cases (contains compare_routine buffer (inorder t.root))) [
        | inl present ↦
            let (l, x, r, e, k, c) = splay-found compare_routine laws buffer t v present in
            (
              node l x r,
              some x.address,
              rw (lookup, e),
              k,
              IsValid-root compare_routine laws t (node l x r) k v,
              inr (l, x, r, refl, c, refl),
            )
        | inr absent ↦
            let (root, e, k) = splay-absent compare_routine laws buffer t v absent in
            (
              root,
              none,
              rw (lookup, e),
              k,
              IsValid-root compare_routine laws t root k v,
              inl (absent, refl),
            )
      ]
