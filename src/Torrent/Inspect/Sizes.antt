-- ===== src/Torrent/Inspect/Sizes.antt =====
-- metainfo.go, Inspect: the sizes and paths of an inventory.
use atlas_bridge.Base.{
  ℕ, ◌+◌, ◌-◌, ◌≤◌, ◌≡◌, refl, List, [], ◌∷◌, Option, none, some, ltb, Result, ok, err, >>=-eq-ok,
  arith, All, Bool-cases, inl, inr, subst, ◌∙◌,
}
use atlas_bridge.Base.Text.{Bytes, codes, ◌=ᵇ◌}
use atlas_bridge.Base.Decimal.{max_int64, pos, negsuc}
use atlas_bridge.Torrent.Bencode.{
  Value, Items, Entries, str, int, list, dict, nil, cons, end, entry,
}
use atlas_bridge.Torrent.Bencode.Fuel.{decode-IsWellFormed}
use atlas_bridge.Torrent.Bencode.Values.{IsWellFormed, AllWellFormed, IsMap}
use atlas_bridge.Torrent.Inspect.Inversion.{require-eq-ok, inspect-Inspected}
use atlas_bridge.Torrent.Inspect.{
  FileEntry, Inventory, InspectError, get, as_list, as_size, as_string, join_path, read_entry,
  read_files, single_file, list_files, add_sizes, inspect, require, files_or,
}

abbrev pub sum_sizes : List FileEntry → ℕ
sum_sizes [] = 0
sum_sizes (f ∷ fs) = f.size + sum_sizes fs

-- The overflow test refuses exactly the sums that do not fit.
add_sizes_exact :
    (fs : List FileEntry) (total : ℕ)
    → All (λ f. f.size ≤ max_int64) fs
    → total + sum_sizes fs ≤ max_int64
    → add_sizes total fs ≡ ok (total + sum_sizes fs)
unfolding add_sizes
add_sizes_exact [] total h fits = ground arith
add_sizes_exact (f ∷ fs) total (hf, hs) fits =
    ground (arith, add_sizes_exact fs (total + f.size) hs (omega arith))

add_sizes_sound :
    (fs : List FileEntry) (total : ℕ) {t : ℕ}
    → All (λ f. f.size ≤ max_int64) fs
    → total ≤ max_int64
    → add_sizes total fs ≡ ok t
    → (t ≡ total + sum_sizes fs) × (t ≤ max_int64)
unfolding add_sizes
add_sizes_sound [] total h le e = ground arith
add_sizes_sound (f ∷ fs) total {t} (hf, hs) le e =
    elim (Bool-cases (ltb (max_int64 - f.size) total)) [
      | inl p ↦ absurd (refuse (rw p at e))
      | inr p ↦
          let (q, r) = add_sizes_sound fs (total + f.size) hs (ground arith) (rw p at e) in
          (omega arith, r)
    ]
  where
    refuse : ¬ (◌≡◌ {A = Result InspectError ℕ} (err InspectError.size_overflow) (ok t))
    refuse q = cc

-- A value found in a well-formed map is well formed.
get-IsWellFormed :
    (k : Bytes) (es : Entries) {v : Value} → IsMap es → get k es ≡ some v → IsWellFormed v
unfolding get
get-IsWellFormed k end m e = cc
get-IsWellFormed k (entry j w es) {v} m e = elim (Bool-cases (j =ᵇ k)) [
  | inl p ↦ (let q = rw p at e in subst IsWellFormed (cc) m.2)
  | inr p ↦ get-IsWellFormed k es m.3 (rw p at e)
]

as_size-bound :
    (o : Option Value) {n : ℕ}
    → ((v : Value) → o ≡ some v → IsWellFormed v)
    → as_size o ≡ some n
    → n ≤ max_int64
as_size-bound (some (int (pos m))) h e = ground (arith, h (int (pos m)) refl)
as_size-bound (some (int (negsuc m))) h e = cc
as_size-bound (some (str s)) h e = cc
as_size-bound (some (list s)) h e = cc
as_size-bound (some (dict s)) h e = cc
as_size-bound none h e = cc

-- What an accepted entry of info["files"] holds.
pub read_entry-eq-ok :
    (m : Entries) {f : FileEntry}
    → read_entry (dict m) ≡ ok f
    → (parts : Items) × (as_size (get (codes "length") m) ≡ some f.size)
      × (join_path 0 [] parts ≡ ok f.path)
unfolding read_entry
read_entry-eq-ok m {f} e =
    let (n, p, e₁) =
      >>=-eq-ok (require InspectError.invalid_file_length (as_size (get (codes "length") m))) _ e in
    let (parts, p', e₂) =
      >>=-eq-ok (require InspectError.invalid_file_path (as_list (get (codes "path") m))) _ e₁ in
    let (path, p'', e₃) = >>=-eq-ok (join_path 0 [] parts) _ e₂ in
    (parts, require-eq-ok _ _ p ∙ cc, p'' ∙ cc)

read_entry-bound :
    (item : Value) {f : FileEntry} → IsWellFormed item → read_entry item ≡ ok f → f.size ≤ max_int64
read_entry-bound (dict m) {f} w e =
    as_size-bound (get (codes "length") m) (λ v. get-IsWellFormed (codes "length") m w)
      (read_entry-eq-ok m e).1
read_entry-bound (str _) w e = unfold read_entry in cc
read_entry-bound (int _) w e = unfold read_entry in cc
read_entry-bound (list _) w e = unfold read_entry in cc

read_files-bound :
    (items : Items) {fs : List FileEntry}
    → AllWellFormed items
    → read_files items ≡ ok fs
    → All (λ f. f.size ≤ max_int64) fs
unfolding read_files
read_files-bound nil {fs} w e = subst (All (λ f. f.size ≤ max_int64)) {x = []} (cc) tt
read_files-bound (cons item items) {fs} w e =
    let (f, p, e₁) = >>=-eq-ok (read_entry item) _ e in
    let (rest, p₁, e₂) = >>=-eq-ok (read_files items) _ e₁ in
    subst (All (λ f. f.size ≤ max_int64)) {x = f ∷ rest} (cc)
      (read_entry-bound item w.0 p, read_files-bound items w.1 p₁)

as_list-eq-some : (o : Option Value) {xs : Items} → as_list o ≡ some xs → o ≡ some (list xs)
as_list-eq-some (some (list xs)) e = cc
as_list-eq-some (some (str _)) e = cc
as_list-eq-some (some (int _)) e = cc
as_list-eq-some (some (dict _)) e = cc
as_list-eq-some none e = cc

single_file-bound :
    (info : Entries) {fs : List FileEntry}
    → IsMap info
    → single_file info ≡ ok fs
    → All (λ f. f.size ≤ max_int64) fs
unfolding single_file
single_file-bound info {fs} w e =
    let (n, p, e₁) =
      >>=-eq-ok (require InspectError.no_valid_files (as_size (get (codes "length") info))) _ e in
    let one : FileEntry = record { path = as_string (get (codes "name") info); size = n } in
    subst (All (λ f. f.size ≤ max_int64)) {x = one ∷ []} (cc) (
      as_size-bound (get (codes "length") info) (λ v. get-IsWellFormed (codes "length") info w)
          (require-eq-ok _ _ p),
      tt,
    )

list_files-bound :
    (info : Entries) {fs : List FileEntry}
    → IsMap info
    → list_files info ≡ ok fs
    → All (λ f. f.size ≤ max_int64) fs
unfolding list_files
list_files-bound info {fs} w e = by_layout (as_list (get (codes "files") info)) refl e
  where
    by_layout :
        (o : Option Items)
        → as_list (get (codes "files") info) ≡ o
        → files_or o (single_file info) ≡ ok fs
        → All (λ f. f.size ≤ max_int64) fs
    by_layout (some items) p q =
        read_files-bound items (get-IsWellFormed (codes "files") info w (as_list-eq-some _ p)) q
    by_layout none p q = single_file-bound info w q

-- An accepted descriptor's total is the sum of its files' sizes, exactly, and an int64.
pub inspect-total_size :
    (sha1 : Bytes → Bytes) (r : Bytes) {inv : Inventory}
    → inspect sha1 r ≡ ok inv
    → (inv.total_size ≡ sum_sizes inv.files) × (inv.total_size ≤ max_int64)
inspect-total_size sha1 r {inv} e =
    let seen = inspect-Inspected sha1 r e in
    let root : IsMap seen.root = decode-IsWellFormed r seen.root_decoded in
    let info : IsMap seen.info = get-IsWellFormed (codes "info") seen.root root seen.info_found in
    let (sum, fits) =
      add_sizes_sound inv.files 0 (list_files-bound seen.info info seen.files_listed) (omega arith)
        seen.sizes_added in
    (omega arith, fits)
