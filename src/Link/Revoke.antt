-- ===== src/Link/Revoke.antt =====
-- The lemmas on deactivated links.
use cloud_drive.Prelude.{
  ◌≡◌, refl, ◌⊎◌, inl, inr, false, some, List, [], ◌∷◌, arith, ◌==◌, Bool-cases, Option-cases,
}
use cloud_drive.Model.{Uuid, Time, ShareLink, Db, not_found_error, forbidden_error}
use cloud_drive.Exec.{ok, err, IsRefused}
use cloud_drive.Items.{get_by_id}
use cloud_drive.Link.{
  link_invalid, find_link, update_link, owned_link, deactivate_link, Claims, authorize,
}

find_link-update_link :
    (i : Uuid) (f : ShareLink → ShareLink) (l : ShareLink) (links : List ShareLink)
    → ((k : ShareLink) → (f k).id ≡ k.id)
    → find_link links i ≡ some l
    → find_link (update_link i f links) i ≡ some (f l)
unfolding find_link update_link
find_link-update_link i f l [] same h = absurd (ground arith)
find_link-update_link i f l (k ∷ links) same h = elim (Bool-cases (k.id == i)) [
  | inl e ↦ ground (arith, same k)
  | inr e ↦ ground (arith, find_link-update_link i f l links same)
]

-- Deactivating a link raises and nothing changes, or it returns and from then on a credential for
-- the link, given out before or not, is refused at any time and changes nothing.
pub authorize-deactivate_link :
    (actor : Uuid) (claims : Claims) (now : Time) (db : Db)
    → let r = deactivate_link actor claims.link_id db in
      IsRefused db r ⊎ ((r.0 ≡ ok tt) × (authorize now (some claims) r.1 ≡ (err link_invalid, r.1)))
unfolding deactivate_link owned_link authorize
authorize-deactivate_link actor claims now db =
    elim (Option-cases (find_link db.links claims.link_id)) [
      | inl e ↦ inl (not_found_error, rw e)
      | inr (l, e) ↦ elim (Option-cases (get_by_id db l.item_id)) [
        | inl gone ↦ inl (forbidden_error, rw (e, gone))
        | inr (it, there) ↦ elim (Bool-cases (it.owner_id == actor)) [
          | inr no_ ↦ inl (forbidden_error, rw (e, there, no_))
          | inl own ↦
              rw (e, there, own)
                (inr (
                  refl,
                  rw (
                      find_link-update_link claims.link_id (λ k. record k { is_active = false }) l
                        db.links (λ k. refl) e),
                ))
        ]
      ]
    ]
