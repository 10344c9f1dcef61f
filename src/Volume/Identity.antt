-- ===== src/Volume/Identity.antt =====
-- Volume ids of pkg/utils/volume/volume.go, printed and parsed.
use proxmox_csi_plugin.Prelude.{
  ◌≡◌, ◌↔◌, ◌∙◌, refl, ap, sym, List, [], ◌∷◌, ◌++◌, ok, arith, inl, inr, Option-cases, subst,
  length, ◌<◌,
}
use proxmox_csi_plugin.Text.{
  Text, Lacks, cut, cut_sound, split_n, split_n-none, split_n-some, split_n-append,
}
use proxmox_csi_plugin.Volume.{Volume, from_parts, parse_volume_id, volume_id}

-- What a volume needs to be read back from its id: the slashes of the id are those between the
-- parts, and the node is the zone.
pub record IsPrintable (v : Volume) : Type 0 where
  pub region : Lacks b'/' v.region
  pub zone : Lacks b'/' v.zone
  pub storage : Lacks b'/' v.storage
  pub node : v.node ≡ v.zone

-- A volume is read back from its id, if its region, zone and storage hold no slash and its node is
-- its zone.
pub parse_volume_id-volume_id : (v : Volume) → IsPrintable v → parse_volume_id (volume_id v) ≡ ok v
unfolding parse_volume_id volume_id
parse_volume_id-volume_id v h =
    rw
      (
        split_n-append b'/' 2 v.region _ h.region,
        split_n-append b'/' 1 v.zone _ h.zone,
        split_n-append b'/' 0 v.storage v.disk h.storage,
      )
      (unfold split_n in ap (λ n. ok (record v { node = n })) (sym h.node))

from_parts-ne-ok : (parts : List Text) (v : Volume) → length parts < 4 → from_parts parts ≡ ok v → ⊥
unfolding from_parts
from_parts-ne-ok [] v l h = ground arith
from_parts-ne-ok (a ∷ []) v l h = ground arith
from_parts-ne-ok (a ∷ b ∷ []) v l h = ground arith
from_parts-ne-ok (a ∷ b ∷ c ∷ []) v l h = ground arith
from_parts-ne-ok (a ∷ b ∷ c ∷ d ∷ parts) v l h = absurd (omega arith)

of_parts : Text → Text → Text → Text → Volume
of_parts a b c d = record { region = a; zone = b; node = b; storage = c; disk = d }

from_parts-injective :
    (a b c d : Text) (v : Volume) → from_parts (a ∷ b ∷ c ∷ d ∷ []) ≡ ok v → of_parts a b c d ≡ v
unfolding from_parts of_parts
from_parts-injective a b c d v h = cc

abbrev Reads : Text → Volume → Type 0
Reads s v = (volume_id v ≡ s) × IsPrintable v

volume_of_parts :
    (a b c d : Text) (v : Volume)
    → Lacks b'/' a
    → Lacks b'/' b
    → Lacks b'/' c
    → from_parts (a ∷ b ∷ c ∷ d ∷ []) ≡ ok v
    → Reads (a ++ b'/' ∷ (b ++ b'/' ∷ (c ++ b'/' ∷ d))) v
unfolding volume_id of_parts
volume_of_parts a b c d v la lb lc h =
    subst (Reads (a ++ b'/' ∷ (b ++ b'/' ∷ (c ++ b'/' ∷ d)))) (from_parts-injective a b c d v h)
      (refl, record { region = la; zone = lb; storage = lc; node = refl })

-- The text behind the region and the zone.
read_storage :
    (a b s : Text) (v : Volume)
    → Lacks b'/' a
    → Lacks b'/' b
    → from_parts (a ∷ b ∷ split_n b'/' 2 s) ≡ ok v
    → Reads (a ++ b'/' ∷ (b ++ b'/' ∷ s)) v
read_storage a b s v la lb h = elim (Option-cases (cut b'/' s)) [
  | inl stop ↦
      absurd
        (from_parts-ne-ok (a ∷ b ∷ s ∷ []) v (omega arith) (rw (split_n-none b'/' 0 s stop) at h))
  | inr ((c, d), e) ↦
      let (parts, lc) = cut_sound b'/' s c d e in
      rw parts (
        volume_of_parts a b c d v la lb lc
          (unfold split_n in (rw (split_n-some b'/' 0 s c d e) at h)))
]

-- The text behind the region.
read_zone :
    (a s : Text) (v : Volume)
    → Lacks b'/' a
    → from_parts (a ∷ split_n b'/' 3 s) ≡ ok v
    → Reads (a ++ b'/' ∷ s) v
read_zone a s v la h = elim (Option-cases (cut b'/' s)) [
  | inl stop ↦
      absurd (from_parts-ne-ok (a ∷ s ∷ []) v (omega arith) (rw (split_n-none b'/' 1 s stop) at h))
  | inr ((b, s'), e) ↦
      let (parts, lb) = cut_sound b'/' s b s' e in
      rw parts (read_storage a b s' v la lb (rw (split_n-some b'/' 1 s b s' e) at h))
]

read_region : (s : Text) (v : Volume) → from_parts (split_n b'/' 4 s) ≡ ok v → Reads s v
read_region s v h = elim (Option-cases (cut b'/' s)) [
  | inl stop ↦
      absurd (from_parts-ne-ok (s ∷ []) v (omega arith) (rw (split_n-none b'/' 2 s stop) at h))
  | inr ((a, s'), e) ↦
      let (parts, la) = cut_sound b'/' s a s' e in
      rw parts (read_zone a s' v la (rw (split_n-some b'/' 2 s a s' e) at h))
]

pub volume_id-parse_volume_id :
    (s : Text) (v : Volume) → parse_volume_id s ≡ ok v → (volume_id v ≡ s) × IsPrintable v
unfolding parse_volume_id
volume_id-parse_volume_id s v h = read_region s v h

-- An id is read as a volume exactly if it is the volume's id, and the volume can be printed: its
-- region, zone and storage have no slash, and its node is its zone.
pub parse_volume_id-iff-volume_id :
    (s : Text) (v : Volume) → (parse_volume_id s ≡ ok v) ↔ ((volume_id v ≡ s) × IsPrintable v)
parse_volume_id-iff-volume_id s v = (
  volume_id-parse_volume_id s v,
  (λ h. ap parse_volume_id (sym h.0) ∙ parse_volume_id-volume_id v h.1),
)
