-- ===== src/Torrent/Inspect/Inversion.antt =====
-- metainfo.go, Inspect: what an accepted descriptor holds, part by part.
use atlas_bridge.Base.{◌≡◌, Option, none, some, Result, ok, err, >>=-eq-ok, ◌∙◌}
use atlas_bridge.Base.Text.{Bytes, codes}
use atlas_bridge.Torrent.Bencode.{Value, Entries, str, int, list, dict, decode, encode, DecodeError}
use atlas_bridge.Torrent.Inspect.{
  Inventory, InspectError, get, as_dict, as_string, list_files, add_sizes, hex_encode, inventory,
  inspect, decoded, require,
}

pub require-eq-ok {ℓ} :
    {A : Type ℓ} (e : InspectError) (o : Option A) {a : A} → require e o ≡ ok a → o ≡ some a
require-eq-ok e none p = cc
require-eq-ok e (some a) p = cc

pub as_dict-eq-some : (o : Option Value) {es : Entries} → as_dict o ≡ some es → o ≡ some (dict es)
as_dict-eq-some (some (dict es)) e = cc
as_dict-eq-some (some (str _)) e = cc
as_dict-eq-some (some (int _)) e = cc
as_dict-eq-some (some (list _)) e = cc
as_dict-eq-some none e = cc

decoded-eq-ok : (r : Result DecodeError Value) {v : Value} → decoded r ≡ ok v → r ≡ ok v
decoded-eq-ok (ok v) e = cc
decoded-eq-ok (err _) e = cc

-- What `inspect` saw on its way to an inventory.
pub record Inspected (sha1 : Bytes → Bytes) (r : Bytes) (inv : Inventory) : Type 0 where
  pub root : Entries
  pub info : Entries
  pub root_decoded : decode r ≡ ok (dict root)
  pub info_found : get (codes "info") root ≡ some (dict info)
  pub files_listed : list_files info ≡ ok inv.files
  pub sizes_added : add_sizes 0 inv.files ≡ ok inv.total_size
  pub hash_made : inv.info_hash ≡ hex_encode (sha1 (encode (dict info)))
  pub named : inv.name ≡ as_string (get (codes "name") info)

module _ (sha1 : Bytes → Bytes) where
  inventory-Inspected :
      (r : Bytes) (root : Entries) {inv : Inventory}
      → decode r ≡ ok (dict root)
      → inventory sha1 (dict root) ≡ ok inv
      → Inspected sha1 r inv
  unfolding inventory
  inventory-Inspected r root {inv} d e =
      let (info, p, e₁) =
        >>=-eq-ok (require InspectError.no_info_dictionary (as_dict (get (codes "info") root))) _
          e in
      let (files, p₁, e₂) = >>=-eq-ok (list_files info) _ e₁ in
      let (total, p₂, e₃) = >>=-eq-ok (add_sizes 0 files) _ e₂ in
      record {
        root = root;
        info = info;
        root_decoded = d;
        info_found = as_dict-eq-some _ (require-eq-ok _ _ p);
        files_listed = p₁ ∙ cc;
        sizes_added = cc;
        hash_made = cc;
        named = cc;
      }

  pub inspect-Inspected :
      (r : Bytes) {inv : Inventory} → inspect sha1 r ≡ ok inv → Inspected sha1 r inv
  unfolding inspect
  inspect-Inspected r {inv} e =
      let (v, d, e₁) = >>=-eq-ok (decoded (decode r)) _ e in
      by_root v (decoded-eq-ok (decode r) d) e₁
    where
      by_root : (v : Value) → decode r ≡ ok v → inventory sha1 v ≡ ok inv → Inspected sha1 r inv
      by_root (dict root) d e = inventory-Inspected r root d e
      by_root (str _) d e = unfold inventory in cc
      by_root (int _) d e = unfold inventory in cc
      by_root (list _) d e = unfold inventory in cc
