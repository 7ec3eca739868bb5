-- ===== src/Prefs.antt =====
-- SQLUserItemPreferenceRepository of backend/app/drive/repository.py: who starred what; and the
-- activity log of backend/app/activity_log, whose failures are swallowed.
use cloud_drive.Prelude.{
  Bool, ◌&&◌, Option, List, [], ◌∷◌, ◌++◌, map, keep, mem, ◌==◌, if◌then◌else◌,
}
use cloud_drive.Model.{Uuid, Time, Preference, Action, Db}
use cloud_drive.Exec.{Exec, modify}

abbrev is_pref : Uuid → Uuid → Preference → Bool
is_pref user item p = p.user_id == user && p.item_id == item

unfoldable pub upsert_rows : Time → Uuid → Uuid → Bool → List Preference → List Preference
upsert_rows now user item starred [] =
    record { user_id = user; item_id = item; is_starred = starred; updated_at = now } ∷ []
upsert_rows now user item starred (p ∷ prefs) =
    let rest = upsert_rows now user item starred prefs in
    if is_pref user item p
    then record p { is_starred = starred; updated_at = now } ∷ prefs
    else p ∷ rest

unfoldable pub upsert_preference : Time → Uuid → Uuid → Bool → Exec (Unit {0})
upsert_preference now user item starred =
    modify (λ db. record db { prefs = upsert_rows now user item starred db.prefs })

unfoldable pub get_starred_ids : Uuid → List Uuid → Db → List Uuid
get_starred_ids user ids db =
    map (λ p. p.item_id)
      (keep (λ p. p.user_id == user && (mem p.item_id ids && p.is_starred)) db.prefs)

unfoldable pub log : Uuid → Action → Option Uuid → Exec (Unit {0})
log actor action item = modify (λ db. record db {
  activity = db.activity ++ record { actor_id = actor; action = action; item_id = item } ∷ [];
})
