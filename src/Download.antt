-- ===== src/Download.antt =====
-- Downloads of files and archives (backend/app/download/service.py) and the type of a file
-- (backend/app/core/mime.py). The content of the files, their compression and the pages in which a folder is
-- read are left out; the order of a folder's items is the database's, a parameter.
pub mod Archive
use cloud_drive.Prelude.{
  ℕ, zero, suc, ◌+◌, Bool, true, false, not, ◌&&◌, Option, none, some, List, [], ◌∷◌, ◌++◌, Text,
  take, drop, length, any, keep, text_eq, ltb, ◌==◌, option_eq, if◌then◌else◌,
}
use cloud_drive.Model.{
  Uuid, ErrorCode, Error, app_error, not_found_error, bad_operation, diverges, ItemType, is_folder,
  StorageKey, DriveItem, Db,
}
use cloud_drive.Exec.{Result, ok, err, bind_result}
use cloud_drive.Read.{Read, pure, gets, required, guard, refuse, ◌>>=◌, ◌>>◌}
use cloud_drive.Items.{get_by_id}
use cloud_drive.Drive.Checks.{live}
use cloud_drive.Permission.{assert_can_download}
use cloud_drive.Naming.{rfind, numbered}
use cloud_drive.Naming.Decimal.{show}
use cloud_drive.Blobs.{exists}
use cloud_drive.Auth.{lower}

-- `name.rpartition(".")`, with the dot at the head of the extension: none where there is no dot.
unfoldable pub rpartition : Text → Option (Text × Text)
rpartition name = elim (rfind 46 name) [ none ↦ none | some i ↦ some (take i name, drop i name) ]

-- `EXT_MIME`
abbrev ext_mime : List (Text × Text)
ext_mime =
    (
      112 ∷ 100 ∷ 102 ∷ [],
      97 ∷ 112 ∷ 112 ∷ 108 ∷ 105 ∷ 99 ∷ 97 ∷ 116 ∷ 105 ∷ 111 ∷ 110 ∷ 47 ∷ 112 ∷ 100 ∷ 102 ∷ [],
    )
    ∷ (112 ∷ 110 ∷ 103 ∷ [], 105 ∷ 109 ∷ 97 ∷ 103 ∷ 101 ∷ 47 ∷ 112 ∷ 110 ∷ 103 ∷ [])
    ∷ (106 ∷ 112 ∷ 103 ∷ [], 105 ∷ 109 ∷ 97 ∷ 103 ∷ 101 ∷ 47 ∷ 106 ∷ 112 ∷ 101 ∷ 103 ∷ [])
    ∷ (106 ∷ 112 ∷ 101 ∷ 103 ∷ [], 105 ∷ 109 ∷ 97 ∷ 103 ∷ 101 ∷ 47 ∷ 106 ∷ 112 ∷ 101 ∷ 103 ∷ [])
    ∷ (103 ∷ 105 ∷ 102 ∷ [], 105 ∷ 109 ∷ 97 ∷ 103 ∷ 101 ∷ 47 ∷ 103 ∷ 105 ∷ 102 ∷ [])
    ∷ (119 ∷ 101 ∷ 98 ∷ 112 ∷ [], 105 ∷ 109 ∷ 97 ∷ 103 ∷ 101 ∷ 47 ∷ 119 ∷ 101 ∷ 98 ∷ 112 ∷ [])
    ∷ (98 ∷ 109 ∷ 112 ∷ [], 105 ∷ 109 ∷ 97 ∷ 103 ∷ 101 ∷ 47 ∷ 98 ∷ 109 ∷ 112 ∷ [])
    ∷ (
      115 ∷ 118 ∷ 103 ∷ [],
      105 ∷ 109 ∷ 97 ∷ 103 ∷ 101 ∷ 47 ∷ 115 ∷ 118 ∷ 103 ∷ 43 ∷ 120 ∷ 109 ∷ 108 ∷ [],
    )
    ∷ (116 ∷ 120 ∷ 116 ∷ [], 116 ∷ 101 ∷ 120 ∷ 116 ∷ 47 ∷ 112 ∷ 108 ∷ 97 ∷ 105 ∷ 110 ∷ [])
    ∷ (108 ∷ 111 ∷ 103 ∷ [], 116 ∷ 101 ∷ 120 ∷ 116 ∷ 47 ∷ 112 ∷ 108 ∷ 97 ∷ 105 ∷ 110 ∷ [])
    ∷ (
      109 ∷ 100 ∷ [],
      116 ∷ 101 ∷ 120 ∷ 116 ∷ 47 ∷ 109 ∷ 97 ∷ 114 ∷ 107 ∷ 100 ∷ 111 ∷ 119 ∷ 110 ∷ [],
    )
    ∷ (
      109 ∷ 97 ∷ 114 ∷ 107 ∷ 100 ∷ 111 ∷ 119 ∷ 110 ∷ [],
      116 ∷ 101 ∷ 120 ∷ 116 ∷ 47 ∷ 109 ∷ 97 ∷ 114 ∷ 107 ∷ 100 ∷ 111 ∷ 119 ∷ 110 ∷ [],
    )
    ∷ (
      106 ∷ 115 ∷ 111 ∷ 110 ∷ [],
      97 ∷ 112 ∷ 112 ∷ 108 ∷ 105 ∷ 99 ∷ 97 ∷ 116 ∷ 105 ∷ 111 ∷ 110 ∷ 47 ∷ 106 ∷ 115 ∷ 111 ∷ 110
          ∷ [],
    )
    ∷ (120 ∷ 109 ∷ 108 ∷ [], 116 ∷ 101 ∷ 120 ∷ 116 ∷ 47 ∷ 120 ∷ 109 ∷ 108 ∷ [])
    ∷ (121 ∷ 97 ∷ 109 ∷ 108 ∷ [], 116 ∷ 101 ∷ 120 ∷ 116 ∷ 47 ∷ 121 ∷ 97 ∷ 109 ∷ 108 ∷ [])
    ∷ (121 ∷ 109 ∷ 108 ∷ [], 116 ∷ 101 ∷ 120 ∷ 116 ∷ 47 ∷ 121 ∷ 97 ∷ 109 ∷ 108 ∷ [])
    ∷ (99 ∷ 115 ∷ 118 ∷ [], 116 ∷ 101 ∷ 120 ∷ 116 ∷ 47 ∷ 99 ∷ 115 ∷ 118 ∷ [])
    ∷ (109 ∷ 112 ∷ 52 ∷ [], 118 ∷ 105 ∷ 100 ∷ 101 ∷ 111 ∷ 47 ∷ 109 ∷ 112 ∷ 52 ∷ [])
    ∷ (119 ∷ 101 ∷ 98 ∷ 109 ∷ [], 118 ∷ 105 ∷ 100 ∷ 101 ∷ 111 ∷ 47 ∷ 119 ∷ 101 ∷ 98 ∷ 109 ∷ [])
    ∷ (
      109 ∷ 111 ∷ 118 ∷ [],
      118 ∷ 105 ∷ 100 ∷ 101 ∷ 111 ∷ 47 ∷ 113 ∷ 117 ∷ 105 ∷ 99 ∷ 107 ∷ 116 ∷ 105 ∷ 109 ∷ 101 ∷ [],
    )
    ∷ (109 ∷ 112 ∷ 51 ∷ [], 97 ∷ 117 ∷ 100 ∷ 105 ∷ 111 ∷ 47 ∷ 109 ∷ 112 ∷ 101 ∷ 103 ∷ [])
    ∷ (119 ∷ 97 ∷ 118 ∷ [], 97 ∷ 117 ∷ 100 ∷ 105 ∷ 111 ∷ 47 ∷ 119 ∷ 97 ∷ 118 ∷ [])
    ∷ (111 ∷ 103 ∷ 103 ∷ [], 97 ∷ 117 ∷ 100 ∷ 105 ∷ 111 ∷ 47 ∷ 111 ∷ 103 ∷ 103 ∷ [])
    ∷ (109 ∷ 52 ∷ 97 ∷ [], 97 ∷ 117 ∷ 100 ∷ 105 ∷ 111 ∷ 47 ∷ 109 ∷ 112 ∷ 52 ∷ [])
    ∷ []

find_mime : Text → List (Text × Text) → Option Text
find_mime ext [] = none
find_mime ext (e ∷ es) = let rest = find_mime ext es in if text_eq e.0 ext then some e.1 else rest

-- A text that is there and not empty.
nonempty_text : Option Text → Option Text
nonempty_text none = none
nonempty_text (some []) = none
nonempty_text (some (c ∷ s)) = some (c ∷ s)

unfoldable pub effective_extension : Text → Option Text → Option Text
unfolding nonempty_text
effective_extension name extension = elim (nonempty_text extension) [
  | some ext ↦ some ext
  | none ↦ elim (rpartition name) [
    | none ↦ none
    | some split ↦ nonempty_text (some (drop 1 split.1))
  ]
]

strip_dots : Text → Text
strip_dots [] = []
strip_dots (c ∷ s) = let rest = strip_dots s in if c == 46 then rest else c ∷ s

unfoldable pub resolve_mime : Option Text → Text → Option Text → Option Text
unfolding find_mime strip_dots nonempty_text
resolve_mime mime_type name extension = elim (nonempty_text mime_type) [
  | some mime ↦ some mime
  | none ↦ elim (effective_extension name extension) [
    | none ↦ find_mime [] ext_mime
    | some ext ↦ find_mime (strip_dots (lower ext)) ext_mime
  ]
]

pub record DownloadFileResult : Type 0 where
  pub filename : Text
  pub mime_type : Text
  pub size_bytes : ℕ
  pub key : StorageKey

-- "application/octet-stream"
abbrev octet_stream : Text
octet_stream =
    97 ∷ 112 ∷ 112 ∷ 108 ∷ 105 ∷ 99 ∷ 97 ∷ 116 ∷ 105 ∷ 111 ∷ 110 ∷ 47 ∷ 111 ∷ 99 ∷ 116 ∷ 101 ∷ 116
    ∷ 45 ∷ 115 ∷ 116 ∷ 114 ∷ 101 ∷ 97 ∷ 109 ∷ []

abbrev or_octets : Option Text → Text
or_octets none = octet_stream
or_octets (some mime) = mime

abbrev content_not_found : Error
content_not_found = app_error ErrorCode.item_content_not_found 404

-- The key of an item whose content is in the storage.
unfoldable pub stored_key : DriveItem → Db → Option StorageKey
stored_key it db = elim it.storage_key [
  | none ↦ none
  | some k ↦ if exists k db then some k else none
]

unfoldable pub download : Uuid → Uuid → Read DownloadFileResult
download user item_id = do
  found ← gets (λ db. live (get_by_id db item_id))
  it ← required not_found_error found
  refuse (is_folder it.item_type) bad_operation
  assert_can_download user it
  content ← gets (stored_key it)
  k ← required content_not_found content
  pure (record {
    filename = it.name;
    mime_type = or_octets (resolve_mime it.mime_type it.name it.extension);
    size_bytes = it.size_bytes;
    key = k;
  })

unfoldable pub is_used : List Text → Text → Bool
is_used used name = any (text_eq name) used

-- The search for a free name inside the archive, on fuel.
unfoldable pub dedupe_loop : ℕ → List Text → Text → Text → ℕ → Result Text
unfolding is_used
dedupe_loop zero used base suffix i = err diverges
dedupe_loop (suc n) used base suffix i =
    let rest = dedupe_loop n used base suffix (i + 1) in
    if is_used used (numbered base suffix i) then rest else ok (numbered base suffix i)

-- The name before its last dot and the rest.
unfoldable pub base_suffix : Text → Text × Text
base_suffix name = elim (rpartition name) [ none ↦ (name, []) | some split ↦ split ]

-- One name more is tried than there are names in use.
unfoldable pub dedupe : List Text → Text → Result Text
unfolding is_used
dedupe used name =
    if is_used used name
    then dedupe_loop (suc (length used)) used (base_suffix name).0 (base_suffix name).1 1
    else ok name

-- A name inside the archive and the key of the content.
abbrev pub Entry : Type 0
Entry = Text × StorageKey

unfoldable pub maybe_add : Text → DriveItem → Db → List Entry
maybe_add arcname it db = elim (stored_key it db) [ none ↦ [] | some k ↦ (arcname, k) ∷ [] ]

unfoldable pub is_child : DriveItem → DriveItem → Bool
is_child folder it =
    it.owner_id == folder.owner_id && (not it.is_deleted && option_eq it.parent_id (some folder.id))

module _ (ordered : List DriveItem → List DriveItem) where
  unfoldable pub list_children : DriveItem → Db → List DriveItem
  list_children folder db = ordered (keep (is_child folder) db.items)

  -- The items of one folder; `walk` goes into a folder below.
  unfoldable pub collect_children :
      (DriveItem → Text → Read (List Entry)) → Uuid → Text → List DriveItem → Read (List Entry)
  collect_children walk user prefix [] = pure []
  collect_children walk user prefix (child ∷ children) = do
    let path = prefix ++ 47 ∷ child.name
    here ← elim child.item_type [
      | ItemType.file ↦ (assert_can_download user child >> gets (maybe_add path child))
      | ItemType.folder ↦ walk child path
    ]
    rest ← collect_children walk user prefix children
    pure (here ++ rest)

  unfoldable pub collect_folder : ℕ → Uuid → DriveItem → Text → Read (List Entry)
  collect_folder zero user folder prefix db = err diverges
  collect_folder (suc n) user folder prefix db =
      collect_children (collect_folder n user) user prefix (list_children folder db) db

  -- The entries of one selected item under its name in the archive. A folder is at most as deep as there are rows.
  unfoldable pub collect_item : Uuid → DriveItem → Text → Read (List Entry)
  collect_item user it top_name db = elim it.item_type [
    | ItemType.file ↦ ok (maybe_add top_name it db)
    | ItemType.folder ↦ collect_folder (suc (length db.items)) user it top_name db
  ]

  -- The names at the top of the archive, the last first, and the entries.
  unfoldable pub archive_loop : Uuid → List Uuid → List Text → Read (List Text × List Entry)
  archive_loop user [] used = pure (used, [])
  archive_loop user (i ∷ ids) used = do
    found ← gets (λ db. live (get_by_id db i))
    it ← required not_found_error found
    assert_can_download user it
    top_name ← (λ db. dedupe used it.name)
    here ← collect_item user it top_name
    rest ← archive_loop user ids (top_name ∷ used)
    pure (rest.0, here ++ rest.1)

strip_ext : Text → Text
strip_ext name = elim (rpartition name) [ none ↦ name | some split ↦ split.0 ]

-- The name of the first item, without the extension of a file.
first_label : Option DriveItem → Text
unfolding strip_ext
first_label none = []
first_label (some it) = elim it.item_type [
  | ItemType.file ↦ strip_ext it.name
  | ItemType.folder ↦ it.name
]

-- `first_name or "download"`
or_download : Text → Text
or_download [] = 100 ∷ 111 ∷ 119 ∷ 110 ∷ 108 ∷ 111 ∷ 97 ∷ 100 ∷ []
or_download (c ∷ s) = c ∷ s

-- The name of the archive: of the first item, and how many there are.
unfoldable pub archive_name : List Uuid → Db → Text
unfolding first_label or_download
archive_name [] db = 100 ∷ 111 ∷ 119 ∷ 110 ∷ 108 ∷ 111 ∷ 97 ∷ 100 ∷ 46 ∷ 122 ∷ 105 ∷ 112 ∷ []
archive_name (i ∷ ids) db =
    let label = or_download (first_label (get_by_id db i)) in
    let count = length (i ∷ ids) in
    (if ltb 1 count then label ++ (32 ∷ 31561 ∷ 32 ∷ show count ++ (32 ∷ 38917 ∷ [])) else label)
    ++ (46 ∷ 122 ∷ 105 ∷ 112 ∷ [])

abbrev pub is_empty_list {ℓ} : {A : Type ℓ} → List A → Bool
is_empty_list [] = true
is_empty_list (x ∷ xs) = false

pub record ArchiveResult : Type 0 where
  pub filename : Text
  pub top_names : List Text
  pub files : List Entry

unfoldable pub archive : (List DriveItem → List DriveItem) → Uuid → List Uuid → Read ArchiveResult
archive ordered user ids = do
  refuse (is_empty_list ids) bad_operation
  found ← archive_loop ordered user ids []
  refuse (is_empty_list found.1) bad_operation
  filename ← gets (archive_name ids)
  pure (record { filename = filename; top_names = found.0; files = found.1 })
