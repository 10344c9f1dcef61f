-- ===== src/Operator/Publisher/Safety.antt =====
-- The effects that a sync of a region may have, for pkg/operator/controller/storage/publisher.go.
use mathlib.Core.List.{Memᴰ}
use proxmox_csi_plugin.Prelude.{
  ◌≡◌, refl, Bool, true, false, not, ◌&&◌, List, [], ◌∷◌, Option, none, some, All, arith,
}
use proxmox_csi_plugin.Text.{Text, text_eq, eq_of_text_eq, contains_text}
use proxmox_csi_plugin.Operator.Types.{ListedStorage, CatalogEntry}
use proxmox_csi_plugin.Operator.Action.{
  Env, Effect, apply_storage, write_storage_status, remove_storage, Trace, pure, ask, perform,
}
use proxmox_csi_plugin.Operator.Action.Rules.{
  Ensures, Emits, Ensures-pure, Ensures-if, Ensures-ask, Ensures-perform, Emits-perform,
  Ensures-bind, Ensures-weakened,
}
use proxmox_csi_plugin.Operator.StorageName.{label_value}
use proxmox_csi_plugin.Operator.Publisher.{
  entry_of, upsert_status, upsert, upsert_all, published, removed, prune_entry, prune_entries,
  prune_listed, prune, prune_after, sync_listed, sync_region,
}

left_of : (a b : Bool) → (a && b) ≡ true → a ≡ true
left_of a b h = ground (arith, h)

right_of : (a b : Bool) → (a && b) ≡ true → b ≡ true
right_of a b h = ground (arith, h)

negated : (b : Bool) → not b ≡ false → b ≡ true
negated b h = ground (arith, h)

module _ (digest : Text → Text) (env : Env) (region : Text) where
  -- What the hypervisor and the API server answered for the region, at some time of asking.
  abbrev pub RegionListed : List ListedStorage → Type 0
  RegionListed storages = (t : Trace) × (env.list_region t region ≡ some storages)

  abbrev pub Catalogued : CatalogEntry → Type 0
  Catalogued e =
      (es : List CatalogEntry) × (t : Trace) × (env.list_catalog t (label_value region) ≡ some es)
      × Memᴰ e es

  -- The storage was written, its object and its status.
  abbrev pub Written : ListedStorage → Type 0
  Written s =
      ((t : Trace) × (env.succeeds t (apply_storage (entry_of digest s)) ≡ true))
      × ((t : Trace) × (env.succeeds t (write_storage_status (entry_of digest s)) ≡ true))

  abbrev pub OfListing : CatalogEntry → Type 0
  OfListing e =
      (storages : List ListedStorage) × (s : ListedStorage) × RegionListed storages
      × Memᴰ s storages
      × (e ≡ entry_of digest s)

  -- The effects that a sync may have.
  abbrev pub PublishEffect : Effect → Type 0
  PublishEffect (apply_storage e) = OfListing e
  PublishEffect (write_storage_status e) = OfListing e
  PublishEffect (remove_storage e) =
      (storages : List ListedStorage) × RegionListed storages
      × All Written storages
      × Catalogued e
      × (e.spec.region ≡ region)
      × (contains_text (published digest storages) e.name ≡ false)
  PublishEffect e = ⊥

  module _ (storages : List ListedStorage) (listed : RegionListed storages) where
    Ensures-upsert :
        (s : ListedStorage)
        → Memᴰ s storages
        → Ensures PublishEffect (λ b. b ≡ true → Written s) (upsert digest env s)
    unfolding upsert
    Ensures-upsert s m =
        Ensures-bind (perform env (apply_storage (entry_of digest s))) (upsert_status digest env s)
          (Ensures-perform env (apply_storage (entry_of digest s)) (storages, s, listed, m, refl))
          (λ b k. branch b k.0 k.1)
      where
        branch :
            (b : Bool) (t : Trace)
            → env.succeeds t (apply_storage (entry_of digest s)) ≡ b
            → Ensures PublishEffect (λ c. c ≡ true → Written s) (upsert_status digest env s b)
        branch false t e = unfold upsert_status in Ensures-pure false (λ h. cc h)
        branch true t e =
            unfold upsert_status in
            Ensures-weakened
              (Ensures-perform env (write_storage_status (entry_of digest s))
                (storages, s, listed, m, refl))
              (λ c k h. ((t, e), (k.0, cc (k.1, h))))

    Ensures-upsert_all :
        (ss : List ListedStorage)
        → ((s : ListedStorage) → Memᴰ s ss → Memᴰ s storages)
        → Ensures PublishEffect (λ b. b ≡ true → All Written ss) (upsert_all digest env ss)
    unfolding upsert_all
    Ensures-upsert_all [] inside = Ensures-pure true (λ h. tt)
    Ensures-upsert_all (s ∷ ss) inside =
        Ensures-bind (upsert digest env s) _ (Ensures-upsert s (inside s (Memᴰ.head refl))) (λ b k.
          Ensures-bind (upsert_all digest env ss) (λ c. pure (b && c))
            (Ensures-upsert_all ss (λ u m. inside u (Memᴰ.tail m)))
            (λ c l. Ensures-pure (b && c) (λ h. (k (left_of b c h), l (right_of b c h)))))

    module _ (written : All Written storages) where
      Emits-prune_entry :
          (e : CatalogEntry)
          → Catalogued e
          → Emits PublishEffect (prune_entry digest env region (published digest storages) e)
      unfolding prune_entry
      Emits-prune_entry e k =
          Ensures-if (not (text_eq e.spec.region region)) _ _ (λ h. Ensures-pure true tt)
            (λ same.
              Ensures-if (contains_text (published digest storages) e.name) _ _
                (λ h. Ensures-pure true tt)
                (λ gone.
                  Ensures-bind (perform env (remove_storage e)) (removed digest env e)
                    (Emits-perform env (remove_storage e) (
                      storages,
                      listed,
                      written,
                      k,
                      eq_of_text_eq e.spec.region region
                          (negated (text_eq e.spec.region region) same),
                      gone,
                    ))
                    (λ b q. branch b)))
        where
          branch : (b : Bool) → Emits PublishEffect (removed digest env e b)
          branch true = unfold removed in Ensures-pure true tt
          branch false = unfold removed in Ensures-ask _ (λ t. tt)

      Emits-prune_entries :
          (es : List CatalogEntry)
          → ((e : CatalogEntry) → Memᴰ e es → Catalogued e)
          → Emits PublishEffect (prune_entries digest env region (published digest storages) es)
      unfolding prune_entries
      Emits-prune_entries [] k = Ensures-pure true tt
      Emits-prune_entries (e ∷ es) k =
          Ensures-bind (prune_entry digest env region (published digest storages) e) _
            (Emits-prune_entry e (k e (Memᴰ.head refl)))
            (λ b q.
              Ensures-bind (prune_entries digest env region (published digest storages) es)
                (λ c. pure (b && c)) (Emits-prune_entries es (λ u m. k u (Memᴰ.tail m)))
                (λ c r. Ensures-pure (b && c) tt))

      Emits-prune : Emits PublishEffect (prune digest env region (published digest storages))
      unfolding prune
      Emits-prune =
          Ensures-bind (ask (λ t. env.list_catalog t (label_value region)))
            (prune_listed digest env region (published digest storages))
            (Ensures-ask {Q = λ o. (t : Trace) × (env.list_catalog t (label_value region) ≡ o)} _
              (λ t. (t, refl)))
            (λ o k. branch o k.0 k.1)
        where
          branch :
              (o : Option (List CatalogEntry)) (t : Trace)
              → env.list_catalog t (label_value region) ≡ o
              → Emits PublishEffect (prune_listed digest env region (published digest storages) o)
          branch none t e = unfold prune_listed in Ensures-pure false tt
          branch (some es) t e =
              unfold prune_listed in Emits-prune_entries es (λ u m. (es, t, e, m))

  Emits-sync_listed :
      (o : Option (List ListedStorage)) (t : Trace)
      → env.list_region t region ≡ o
      → Emits PublishEffect (sync_listed digest env region o)
  unfolding sync_listed
  Emits-sync_listed none t e = Ensures-pure false tt
  Emits-sync_listed (some storages) t e =
      Ensures-bind (upsert_all digest env storages)
        (prune_after digest env region (published digest storages))
        (Ensures-upsert_all storages (t, e) storages (λ s m. m)) (λ b k. branch b k)
    where
      branch :
          (b : Bool)
          → (b ≡ true → All Written storages)
          → Emits PublishEffect (prune_after digest env region (published digest storages) b)
      branch false k = unfold prune_after in Ensures-pure false tt
      branch true k = unfold prune_after in Emits-prune storages (t, e) (k refl)

  -- A sync of a region writes only what the hypervisor listed for it, and removes a published storage
  -- only if the region was listed, every storage of the listing was written, and the storage is of the
  -- region, and none of the listing has its name: a region that is not listed loses nothing.
  pub sync_region_safe : Emits PublishEffect (sync_region digest env region)
  unfolding sync_region
  sync_region_safe =
      Ensures-bind (ask (λ t. env.list_region t region)) (sync_listed digest env region)
        (Ensures-ask {Q = λ o. (t : Trace) × (env.list_region t region ≡ o)} _ (λ t. (t, refl)))
        (λ o k. Emits-sync_listed o k.0 k.1)
