-- ===== src/Tests/Names.antt =====
-- The theorems on names, at the small drive.
use cloud_drive.Prelude.{none, ◌≡◌, some, [], ◌∷◌, Text, length-keep}
use cloud_drive.Model.{Db}
use cloud_drive.Exec.{ok}
use cloud_drive.Items.{name_rows}
use cloud_drive.Naming.{free_name}
use cloud_drive.Upload.{upload_simple}
use cloud_drive.Upload.Names.{upload_simple-IsNameUnique}
use cloud_drive.Drive.{create_folder}
use cloud_drive.Drive.Names.{create_folder-IsNameUnique}
use cloud_drive.Naming.Free.{IsNameUnique, IsFree, free_name-IsFree}
use cloud_drive.Tests.{drive_db, beach}

abbrev one_file : Db
one_file = record drive_db { items = beach ∷ [] }

one_file-IsNameUnique : IsNameUnique one_file.items
unfolding name_rows
one_file-IsNameUnique name parent owner = length-keep _ (beach ∷ [])

free_name-IsFree_example :
    (r : Text) × (free_name (98 ∷ 46 ∷ 106 ∷ []) (some 2) 7 one_file ≡ ok r)
    × IsFree (some 2) 7 one_file one_file-IsNameUnique r
    × (IsFree (some 2) 7 one_file one_file-IsNameUnique (98 ∷ 46 ∷ 106 ∷ [])
        → r ≡ 98 ∷ 46 ∷ 106 ∷ [])
free_name-IsFree_example =
    free_name-IsFree (some 2) 7 one_file one_file-IsNameUnique (98 ∷ 46 ∷ 106 ∷ [])

create_folder-IsNameUnique_example :
    IsNameUnique (create_folder 9 200 7 (some 2) (97 ∷ []) one_file).1.items
create_folder-IsNameUnique_example =
    create_folder-IsNameUnique 9 200 7 (some 2) (97 ∷ []) one_file one_file-IsNameUnique

upload_simple-IsNameUnique_example :
    IsNameUnique
      (upload_simple
        (λ bytes. 0)
        9
        90
        91
        200
        7
        (some 2)
        (98 ∷ [])
        (5 ∷ 6 ∷ [])
        2
        none
        one_file).1.items
upload_simple-IsNameUnique_example =
    upload_simple-IsNameUnique (λ bytes. 0) 9 90 91 200 7 (some 2) (98 ∷ []) (5 ∷ 6 ∷ []) 2 none
      one_file one_file-IsNameUnique
