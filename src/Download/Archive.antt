-- ===== src/Download/Archive.antt =====
-- The lemmas on the names and the contents of an archive.
use cloud_drive.Prelude.{
  ℕ, zero, suc, ◌+◌, ◌<◌, ◌≡◌, ◌≢◌, refl, ◌⊎◌, sym, subst, inl, inr, true, false, some, List, [],
  ◌∷◌, ◌++◌, Text, Bool, All, arith, any, keep, if◌then◌else◌, ◌==◌, length, In, here, there,
  Distinct, length-le_of_Distinct, text_eq, text_eq_refl, eq_of_text_eq, Bool-cases, Option-cases,
}
use native.Mathlib.Numerals.{add-one}
use cloud_drive.Model.{Uuid, ItemType, DriveItem, Db}
use cloud_drive.Exec.{Result, ok, err, bind_result, Ensures, Ensures-ok, Result-cases}
use cloud_drive.Naming.{numbered}
use cloud_drive.Naming.Free.{Tried, All-Tried, All-ne-Tried}
use cloud_drive.Blobs.{exists}
use cloud_drive.Permission.{assert_can_download}
use cloud_drive.Items.{find, get_by_id}
use cloud_drive.Drive.Checks.{live}
use cloud_drive.Download.{
  Entry, is_used, dedupe_loop, dedupe, base_suffix, stored_key, maybe_add, collect_children,
  collect_folder, collect_item, is_child, list_children, archive_loop, archive, is_empty_list,
  ArchiveResult,
}

is_used-In : (used : List Text) (name : Text) → is_used used name ≡ true → In name used
unfolding is_used any
is_used-In [] name h = absurd (ground arith)
is_used-In (u ∷ used) name h = elim (Bool-cases (text_eq name u)) [
  | inl e ↦ here (eq_of_text_eq name u e)
  | inr e ↦ there (is_used-In used name (ground arith))
]

ne_of_text_eq : (s t : Text) → text_eq s t ≡ false → s ≢ t
ne_of_text_eq s t h e =
    let same : text_eq s t ≡ true = subst (λ x. text_eq s x ≡ true) e (text_eq_refl s) in
    absurd (ground arith)

-- A name that no name in use equals.
abbrev pub IsNew : List Text → Text → Type 0
IsNew used name = All (λ t. name ≢ t) used

is_used-IsNew : (used : List Text) (name : Text) → is_used used name ≡ false → IsNew used name
unfolding is_used any
is_used-IsNew [] name h = tt
is_used-IsNew (u ∷ used) name h =
    (ne_of_text_eq name u (ground arith), is_used-IsNew used name (ground arith))

dedupe_loop-IsNew :
    (used : List Text) (base suffix : Text) (fuel n : ℕ) (ts : List Text)
    → Distinct ts
    → All (Tried base suffix n) ts
    → All (λ t. In t used) ts
    → length used < fuel + length ts
    → (r : Text) × (dedupe_loop fuel used base suffix n ≡ ok r) × IsNew used r
unfolding dedupe_loop
dedupe_loop-IsNew used base suffix zero n ts d tried taken h =
    absurd (omega (arith, length-le_of_Distinct ts _ d taken))
dedupe_loop-IsNew used base suffix (suc fuel) n ts d tried taken h =
    let name = numbered base suffix n in
    elim (Bool-cases (is_used used name)) [
      | inr e ↦ (name, rw e refl, is_used-IsNew used name e)
      | inl e ↦
          let (r, eq, new) =
            dedupe_loop-IsNew used base suffix fuel (suc n) (name ∷ ts)
              (All-ne-Tried base suffix n ts tried, d)
              ((n, omega arith, refl), All-Tried base suffix n ts tried)
              (is_used-In used name e, taken) (omega arith) in
          (r, rw (e, add-one) eq, new)
    ]

-- The name for an entry of an archive is always found: it differs from each name in use, and it is the
-- item's own where that is free.
dedupe-IsNew :
    (used : List Text) (name : Text) → (r : Text) × (dedupe used name ≡ ok r) × IsNew used r
unfolding dedupe
dedupe-IsNew used name = elim (Bool-cases (is_used used name)) [
  | inr e ↦ (name, rw e refl, is_used-IsNew used name e)
  | inl e ↦
      let (r, eq, new) =
        dedupe_loop-IsNew used (base_suffix name).0 (base_suffix name).1 (suc (length used)) 1 [] tt
          tt tt (omega arith) in
      (r, rw e eq, new)
]

-- A row of the table that is not in the trash.
abbrev pub IsLive : Db → DriveItem → Type 0
IsLive db it = In it db.items × (it.is_deleted ≡ false)

-- The content of a live file of the table that the user may download.
abbrev pub MayDownload : Uuid → Db → Entry → Type 0
MayDownload user db e =
    (it : DriveItem) × IsLive db it
    × (assert_can_download user it db ≡ ok tt)
    × (it.item_type ≡ ItemType.file)
    × (it.storage_key ≡ some e.1)

maybe_add-MayDownload :
    (user : Uuid) (db : Db) (arcname : Text) (it : DriveItem)
    → IsLive db it
    → assert_can_download user it db ≡ ok tt
    → it.item_type ≡ ItemType.file
    → All (MayDownload user db) (maybe_add arcname it db)
unfolding maybe_add stored_key
maybe_add-MayDownload user db arcname it row may file = elim (Option-cases it.storage_key) [
  | inl e ↦ rw (e, maybe_add) tt
  | inr (k, e) ↦ elim (Bool-cases (exists k db)) [
    | inl f ↦ rw (e, f, maybe_add) ((it, row, may, file, e), tt)
    | inr f ↦ rw (e, f, maybe_add) tt
  ]
]

All-append {ℓ κ} :
    {A : Type ℓ} (P : A → Type κ) (xs ys : List A) → All P xs → All P ys → All P (xs ++ ys)
All-append P [] ys h k = k
All-append P (x ∷ xs) ys h k = (h.0, All-append P xs ys h.1 k)

find-In :
    (items : List DriveItem) (i : Uuid) (it : DriveItem) → find items i ≡ some it → In it items
unfolding find
find-In [] i it h = absurd (ground arith)
find-In (x ∷ items) i it h = elim (Bool-cases (x.id == i)) [
  | inl e ↦ here (ground arith)
  | inr e ↦ there (find-In items i it (ground arith))
]

live-IsLive : (db : Db) (i : Uuid) (it : DriveItem) → live (get_by_id db i) ≡ some it → IsLive db it
live-IsLive db i it h = elim (Option-cases (find db.items i)) [
  | inl e ↦ absurd (ground (arith, h))
  | inr (x, e) ↦ (find-In db.items i it (ground (arith, h)), ground (arith, h))
]

In-if :
    (b : Bool) (x it : DriveItem) (xs : List DriveItem)
    → In it (if b then x ∷ xs else xs)
    → In it xs ⊎ ((it ≡ x) × (b ≡ true))
In-if true x it xs (here e) = inr (e, refl)
In-if true x it xs (there at) = inl at
In-if false x it xs at = inl at

In-keep :
    (p : DriveItem → Bool) (items : List DriveItem) (it : DriveItem)
    → In it (keep p items)
    → In it items × (p it ≡ true)
unfolding keep
In-keep p [] it h = elim h [ ]
In-keep p (x ∷ items) it h = elim (In-if (p x) x it (keep p items) h) [
  | inl at ↦ let (a, b) = In-keep p items it at in (there a, b)
  | inr (e, yes_) ↦ (here e, subst (λ y. p y ≡ true) (sym e) yes_)
]

type-cases : (t : ItemType) → (t ≡ ItemType.file) ⊎ (t ≡ ItemType.folder)
type-cases ItemType.file = inl refl
type-cases ItemType.folder = inr refl

module _ (ordered : List DriveItem → List DriveItem)
    (sorts : (items : List DriveItem) (it : DriveItem) → In it (ordered items) → In it items)
    (user : Uuid) (db : Db) where
  abbrev AllMay : List Entry → Type 0
  AllMay = All (MayDownload user db)

  both-MayDownload :
      (first second : Result (List Entry))
      → Ensures AllMay first
      → Ensures AllMay second
      → Ensures AllMay (bind_result first (λ xs. bind_result second (λ ys. ok (xs ++ ys))))
  both-MayDownload (err e) second h k = tt
  both-MayDownload (ok xs) (err e) h k = tt
  both-MayDownload (ok xs) (ok ys) h k = All-append (MayDownload user db) xs ys h k

  file-MayDownload :
      (path : Text) (it : DriveItem)
      → IsLive db it
      → it.item_type ≡ ItemType.file
      → (r : Result (Unit {0})) → r ≡ assert_can_download user it db
      → Ensures AllMay (bind_result r (λ _. ok (maybe_add path it db)))
  file-MayDownload path it row file (err bad) e = tt
  file-MayDownload path it row file (ok tt) e =
      maybe_add-MayDownload user db path it row (sym e) file

  collect_children-MayDownload :
      (walk : DriveItem → Text → Db → Result (List Entry))
      → ((it : DriveItem) (path : Text) → Ensures AllMay (walk it path db))
      → (prefix : Text) (children : List DriveItem)
      → ((it : DriveItem) → In it children → IsLive db it)
      → Ensures AllMay (collect_children ordered walk user prefix children db)
  unfolding collect_children
  collect_children-MayDownload walk h prefix [] rows = tt
  collect_children-MayDownload walk h prefix (child ∷ children) rows =
      let path = prefix ++ 47 ∷ child.name in
      let rest = collect_children ordered walk user prefix children db in
      let more =
        collect_children-MayDownload walk h prefix children (λ it at. rows it (there at)) in
      elim (type-cases child.item_type) [
        | inl e ↦ rw e (
            both-MayDownload
              (bind_result (assert_can_download user child db) (λ _. ok (maybe_add path child db)))
              rest
              (file-MayDownload path child (rows child (here refl)) e
                (assert_can_download user child db) refl)
              more)
        | inr e ↦ rw e (both-MayDownload (walk child path db) rest (h child path) more)
      ]

  list_children-IsLive :
      (folder it : DriveItem) → In it (list_children ordered folder db) → IsLive db it
  unfolding list_children is_child
  list_children-IsLive folder it at =
      let (row, test) = In-keep (is_child folder) db.items it (sorts _ it at) in (row, ground arith)

  collect_folder-MayDownload :
      (n : ℕ) (folder : DriveItem) (prefix : Text)
      → Ensures AllMay (collect_folder ordered n user folder prefix db)
  unfolding collect_folder
  collect_folder-MayDownload zero folder prefix = tt
  collect_folder-MayDownload (suc n) folder prefix =
      collect_children-MayDownload (collect_folder ordered n user) (collect_folder-MayDownload n)
        prefix (list_children ordered folder db) (list_children-IsLive folder)

  collect_item-MayDownload :
      (it : DriveItem) (top_name : Text)
      → IsLive db it
      → assert_can_download user it db ≡ ok tt
      → Ensures AllMay (collect_item ordered user it top_name db)
  unfolding collect_item
  collect_item-MayDownload it top_name row may = elim (type-cases it.item_type) [
    | inl e ↦ rw (e, collect_item, Ensures) (maybe_add-MayDownload user db top_name it row may e)
    | inr e ↦ rw (e, collect_item) (collect_folder-MayDownload (suc (length db.items)) it top_name)
  ]

  abbrev IsPacked : List Text × List Entry → Type 0
  IsPacked r = Distinct r.0 × AllMay r.1

  packed :
      (here : Result (List Entry)) (rest : Result (List Text × List Entry))
      → Ensures AllMay here
      → Ensures IsPacked rest
      → Ensures IsPacked (bind_result here (λ xs. bind_result rest (λ r. ok (r.0, xs ++ r.1))))
  packed (err e) rest h k = tt
  packed (ok xs) (err e) h k = tt
  packed (ok xs) (ok r) h k = (k.0, All-append (MayDownload user db) xs r.1 h k.1)

  archive_loop-IsPacked :
      (ids : List Uuid) (used : List Text)
      → Distinct used
      → Ensures IsPacked (archive_loop ordered user ids used db)
  unfolding archive_loop
  archive_loop-IsPacked [] used d = (d, tt)
  archive_loop-IsPacked (i ∷ ids) used d = elim (Option-cases (live (get_by_id db i))) [
    | inl e ↦ rw (e, Ensures) tt
    | inr (it, e) ↦ elim (Result-cases (assert_can_download user it db)) [
      | inl (bad, f) ↦ rw (e, f, Ensures) tt
      | inr (tt, f) ↦
          let (name, g, new) = dedupe-IsNew used it.name in
          rw (e, f, g)
            (packed (collect_item ordered user it name db)
              (archive_loop ordered user ids (name ∷ used) db)
              (collect_item-MayDownload it name (live-IsLive db i it e) f)
              (archive_loop-IsPacked ids (name ∷ used) (new, d)))
    ]
  ]

  archive-IsPacked :
      (ids : List Uuid)
      → Ensures (λ r. IsPacked (r.top_names, r.files)) (archive ordered user ids db)
  unfolding archive
  archive-IsPacked [] = tt
  archive-IsPacked (i ∷ ids) =
      let all = archive_loop-IsPacked (i ∷ ids) [] tt in
      elim (Result-cases (archive_loop ordered user (i ∷ ids) [] db)) [
        | inl (bad, e) ↦ rw (e, Ensures) tt
        | inr (found, e) ↦ elim (Bool-cases (is_empty_list found.1)) [
          | inl f ↦ rw (e, f, Ensures) tt
          | inr f ↦ rw (e, f, Ensures) (Ensures-ok IsPacked _ found e all)
        ]
      ]

  -- Where the database's order of a folder's rows gives rows of that folder only, every entry of an archive
  -- is the content of a live file of the table that the user may download, down to the last folder
  -- below the selected items, and the names at the top of the archive differ from each other.
  pub archive-MayDownload :
      (ids : List Uuid) (r : ArchiveResult)
      → archive ordered user ids db ≡ ok r
      → Distinct r.top_names × All (MayDownload user db) r.files
  archive-MayDownload ids r h =
      Ensures-ok (λ x. IsPacked (x.top_names, x.files)) _ r h (archive-IsPacked ids)
