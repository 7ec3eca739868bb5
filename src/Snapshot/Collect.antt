-- ===== src/Snapshot/Collect.antt =====
-- What the collection of garbage leaves in storage.
use cloud_drive.Prelude.{
  ℕ, ◌+◌, ◌*◌, ◌≡◌, refl, ap, ◌∙◌, inl, inr, Bool, true, not, ◌&&◌, none, List, [], ◌∷◌, arith,
  keep, any, length, leb, if◌then◌else◌, Bool-cases,
}
use cloud_drive.Model.{Time, StorageKey, file_key, chunk_key, Blob, Db}
use cloud_drive.Blobs.{key_eq, find_blob, without_blob, delete, is_chunk, list_objects}
use cloud_drive.Snapshot.{GcOutcome, sweep, collect_garbage, has_key, referenced_storage_keys}

-- Equal keys answer every test of a key in the same way.
key_eq-left : (k j l : StorageKey) → key_eq k j ≡ true → key_eq k l ≡ key_eq j l
unfolding key_eq
key_eq-left (file_key u i n) (file_key v j m) (file_key w o p) h = ground arith
key_eq-left (file_key u i n) (file_key v j m) (chunk_key w o p) h = refl
key_eq-left (file_key u i n) (chunk_key v j m) l h = absurd (ground arith)
key_eq-left (chunk_key u i n) (file_key v j m) l h = absurd (ground arith)
key_eq-left (chunk_key u i n) (chunk_key v j m) (file_key w o p) h = refl
key_eq-left (chunk_key u i n) (chunk_key v j m) (chunk_key w o p) h = ground arith

key_eq-sym : (k j : StorageKey) → key_eq k j ≡ key_eq j k
unfolding key_eq
key_eq-sym (file_key u i n) (file_key v j m) = ground arith
key_eq-sym (file_key u i n) (chunk_key v j m) = refl
key_eq-sym (chunk_key u i n) (file_key v j m) = refl
key_eq-sym (chunk_key u i n) (chunk_key v j m) = ground arith

find_blob-without_blob :
    (k j : StorageKey) (blobs : List Blob)
    → find_blob k (without_blob j blobs) ≡ (if key_eq k j then none else find_blob k blobs)
unfolding find_blob without_blob keep
find_blob-without_blob k j [] = ground arith
find_blob-without_blob k j (b ∷ blobs) = ground (
  arith,
  find_blob-without_blob k j blobs,
  key_eq-left k j b.key,
  key_eq-left k b.key j,
  key_eq-sym b.key j,
)

-- Nothing refers to the object, and it was written before the period of grace.
unfoldable pub is_garbage : List StorageKey → Time → ℕ → Blob → Bool
is_garbage referenced now grace b =
    not (has_key b.key referenced) && not (leb now (b.modified_at + grace))

under_key : StorageKey → List StorageKey → Time → ℕ → List Blob → Bool
under_key k referenced now grace = any (λ b. key_eq k b.key && is_garbage referenced now grace b)

find_blob-sweep :
    (k : StorageKey) (referenced : List StorageKey) (now : Time) (grace : ℕ) (blobs : List Blob)
    (out : GcOutcome) (db : Db)
    → find_blob k (sweep referenced now grace blobs out db).1.blobs
      ≡ (if under_key k referenced now grace blobs then none else find_blob k db.blobs)
unfolding sweep is_garbage any under_key delete
find_blob-sweep k referenced now grace [] out db = refl
find_blob-sweep k referenced now grace (b ∷ blobs) out db =
    elim (Bool-cases (has_key b.key referenced)) [
      | inl used ↦ rw used (ground (arith, find_blob-sweep k referenced now grace blobs out db))
      | inr free ↦ elim (Bool-cases (leb now (b.modified_at + grace))) [
        | inl recent ↦
            rw (free, recent)
              (ground (
                arith,
                find_blob-sweep k referenced now grace blobs
                    (record out { skipped_recent = out.skipped_recent + 1 }) db,
              ))
        | inr old ↦
            rw (free, old)
              (ground (
                arith,
                find_blob-sweep k referenced now grace blobs
                    (record out {
                      deleted = out.deleted + 1;
                      freed_bytes = out.freed_bytes + length b.bytes;
                    })
                    (delete b.key db).1,
                find_blob-without_blob k b.key db.blobs,
              ))
      ]
    ]

any-keep :
    {A : Type 0} (p q : A → Bool) (xs : List A) → any p (keep q xs) ≡ any (λ x. q x && p x) xs
unfolding any keep
any-keep p q [] = refl
any-keep p q (x ∷ xs) = ground (arith, any-keep p q xs)

-- What no key refers to, was written before the period of grace and is no chunk of an upload.
unfoldable pub is_collected : List StorageKey → Time → ℕ → StorageKey → Blob → Bool
is_collected referenced now grace k b =
    not (is_chunk b.key) && (key_eq k b.key && is_garbage referenced now grace b)

-- The collection of garbage leaves under each key what stood there, unless an object stood under it
-- that no item, version or snapshot entry refers to, that was written before the period of grace and
-- that is no chunk of an upload: such a key is gone.
pub find_blob-collect_garbage :
    (grace_minutes : ℕ) (now : Time) (k : StorageKey) (db : Db)
    → find_blob k (collect_garbage grace_minutes now db).1.blobs ≡ (
        if any (is_collected (referenced_storage_keys db) now (grace_minutes * 60) k) db.blobs
        then none
        else find_blob k db.blobs)
unfolding collect_garbage list_objects under_key is_collected
find_blob-collect_garbage grace_minutes now k db =
    find_blob-sweep k (referenced_storage_keys db) now (grace_minutes * 60) (list_objects db) _ db
    ∙ ap (λ b. if b then none else find_blob k db.blobs) (any-keep _ _ db.blobs)
