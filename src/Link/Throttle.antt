-- ===== src/Link/Throttle.antt =====
-- What holds of the links that are given up: one error for each reason, and the lock.
use cloud_drive.Prelude.{
  ℕ, ◌+◌, ◌≤◌, ◌<◌, ◌≡◌, refl, ◌⊎◌, inl, inr, Bool, true, false, Option, none, some, List, [], ◌∷◌,
  arith, ◌==◌, ltb, leb, Bool-cases, Option-cases,
}
use cloud_drive.Model.{Time, ShareLink, Db}
use cloud_drive.Exec.{ok, err}
use cloud_drive.Items.{get_by_id}
use cloud_drive.Drive.{live}
use cloud_drive.Link.{
  link_invalid, find_link, find_token, update_link, is_expired, is_locked, Throttling, lock_after,
  attempt_window, register_attempt, check_password, open_session, Claims, Authorized, authorize,
}

-- What a credential proves when it is accepted.
pub record IsGood (now : Time) (db : Db) (auth : Authorized) : Type 0 where
  pub link : ShareLink
  pub found : find_link db.links auth.claims.link_id ≡ some link
  pub active : link.is_active ≡ true
  pub valid : is_expired link.expires_at now ≡ false
  pub rights : auth.permission ≡ link.permission
  pub shares : live (get_by_id db link.item_id) ≡ some auth.root

-- The authorization of a request changes nothing, and either raises the one error of an invalid link
-- or accepts: then the link is in the table as it is now, active and not expired, the rights are
-- those of the row, not those in the credential, and the shared item is the live row that it names.
pub authorize-IsGood :
    (now : Time) (credential : Option Claims) (db : Db)
    → (authorize now credential db ≡ (err link_invalid, db))
      ⊎ ((auth : Authorized) × (authorize now credential db ≡ (ok auth, db))
          × ((credential ≡ some auth.claims) × IsGood now db auth))
unfolding authorize
authorize-IsGood now none db = inl refl
authorize-IsGood now (some claims) db = elim (Option-cases (find_link db.links claims.link_id)) [
  | inl e ↦ inl (rw e)
  | inr (l, e) ↦ elim (Bool-cases l.is_active) [
    | inr off ↦ inl (rw (e, off))
    | inl on ↦ elim (Bool-cases (is_expired l.expires_at now)) [
      | inl late ↦ inl (rw (e, on, late))
      | inr soon ↦ elim (Option-cases (live (get_by_id db l.item_id))) [
        | inl gone ↦ inl (rw (e, on, soon, gone))
        | inr (it, there) ↦ inr (
          record { claims = claims; root = it; permission = l.permission },
          rw (e, on, soon, there),
          (
            refl,
            record {
              link = l;
              found = e;
              active = on;
              valid = soon;
              rights = refl;
              shares = there;
            },
          ),
        )
      ]
    ]
  ]
]

find_token-update_link :
    (h : ℕ) (f : ShareLink → ShareLink) (l : ShareLink) (links : List ShareLink)
    → ((k : ShareLink) → (f k).token_hash ≡ k.token_hash)
    → find_token links h ≡ some l
    → find_token (update_link l.id f links) h ≡ some (f l)
unfolding find_token update_link
find_token-update_link h f l [] same e = absurd (ground arith)
find_token-update_link h f l (k ∷ links) same e = elim (Bool-cases (k.token_hash == h)) [
  | inl is ↦ ground (arith, same k)
  | inr other ↦ elim (Bool-cases (k.id == l.id)) [
    | inl at ↦ ground (arith, same k, find_token-update_link h f l links same)
    | inr at ↦ ground (arith, same k, find_token-update_link h f l links same)
  ]
]

-- The row of a link after an attempt past the limit.
abbrev locked_row : Throttling → Time → Time → ℕ → ShareLink → ShareLink
locked_row t now start count row = record row {
  attempt_window_start = some start;
  attempt_count = count;
  locked_until = some (now + t.lockout_seconds);
}

register_attempt-locked :
    (t : Throttling) (now start : Time) (l : ShareLink) (db : Db)
    → l.attempt_window_start ≡ some start
    → now < start + 60
    → t.attempt_limit ≤ l.attempt_count
    → register_attempt t now l db ≡ (
      err link_invalid,
      record db {
        links = update_link l.id (locked_row t now start (l.attempt_count + 1)) db.links;
      },
    )
unfolding register_attempt attempt_window lock_after
register_attempt-locked t now start l db window inside count =
    let early : leb (start + 60) now ≡ false = ground arith in
    let over : ltb t.attempt_limit (l.attempt_count + 1) ≡ true = ground arith in
    rw (window, attempt_window, early, lock_after, over)

-- With a lock that has not ended the answer is the error, whatever the password.
still_locked :
    (verify : ℕ → ℕ → Bool) (t : Throttling) (now later until : Time) (token : ℕ)
    (password : Option ℕ) (l : ShareLink) (db : Db)
    → find_token db.links token ≡ some l
    → l.locked_until ≡ some until
    → later < until
    → open_session verify t later token password db ≡ (err link_invalid, db)
unfolding open_session
still_locked verify t now later until token password l db found lock early =
    let shut : is_locked l.locked_until later ≡ true = ground arith in rw (found, shut)

-- An attempt past the limit, within a minute of the window's start, is refused whatever the password
-- is, and locks the link: until the lock ends every attempt is refused and changes nothing, with the
-- right password too.
pub open_session-locked :
    (verify : ℕ → ℕ → Bool) (t : Throttling) (now later : Time) (token h p start : ℕ)
    (password : Option ℕ) (l : ShareLink) (db : Db)
    → find_token db.links token ≡ some l
    → is_locked l.locked_until now ≡ false
    → l.is_active ≡ true
    → is_expired l.expires_at now ≡ false
    → l.password_hash ≡ some h
    → l.attempt_window_start ≡ some start
    → now < start + 60
    → t.attempt_limit ≤ l.attempt_count
    → later < now + t.lockout_seconds
    → let after = (open_session verify t now token (some p) db) in
      (after.0 ≡ err link_invalid)
      × (open_session verify t later token password after.1 ≡ (err link_invalid, after.1))
unfolding open_session check_password
open_session-locked verify t now later token h p start password l db found free active soon hash
      window inside count early =
    let f = locked_row t now start (l.attempt_count + 1) in
    let shut : Db = record db { links = update_link l.id f db.links } in
    let tried : open_session verify t now token (some p) db ≡ (err link_invalid, shut) = rw (
      found,
      free,
      active,
      soon,
      hash,
      check_password,
      register_attempt-locked t now start l db window inside count,
    ) in
    rw tried (
      refl,
      still_locked verify t now later (now + t.lockout_seconds) token password (f l) shut
          (find_token-update_link token f l db.links (λ k. refl) found) refl early,
    )
