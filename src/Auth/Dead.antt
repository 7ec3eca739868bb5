-- ===== src/Auth/Dead.antt =====
-- Refresh tokens that are used up or revoked.
use cloud_drive.Prelude.{
  ℕ, ◌≡◌, refl, sym, ◌⊎◌, inl, inr, subst, Bool, true, false, Option, none, some, List, [], ◌∷◌,
  ◌++◌, map, Text, All, IfSome, arith, leb, ◌==◌, keep, is_some, Bool-cases, Option-cases,
}
use cloud_drive.Model.{Uuid, Time, Error, User, RefreshToken, Db}
use cloud_drive.Exec.{Result, ok, err, Ensures-ok, one_or_none, one_or_none-All, Exec, Result-cases}
use cloud_drive.Quota.{find_user}
use cloud_drive.Auth.{
  unauthorized, token_revoked, has_hash, get_by_hash, revoked_row, mark_revoked, revoke, new_token,
  create_token, Drawn, token_expiry, refresh,
}

-- Every row with the hash is revoked.
abbrev pub IsDead : ℕ → Db → Type 0
IsDead hash db = All (λ t. (t.token_hash == hash) ≡ true → is_some t.revoked_at ≡ true) db.tokens

All-from_keep {ℓ} :
    {A : Type ℓ} (P : A → Type 0) (test : A → Bool) (xs : List A)
    → All P (keep test xs)
    → All (λ x. test x ≡ true → P x) xs
unfolding keep
All-from_keep P test [] = λ h. tt
All-from_keep P test (x ∷ xs) = elim (Bool-cases (test x)) [
  | inl e ↦ rw e (λ h. ((λ k. h.0), All-from_keep P test xs h.1))
  | inr e ↦ rw e (λ h. ((λ k. absurd (ground arith)), All-from_keep P test xs h))
]

revoked_rows-IsDead :
    (hash : ℕ) (id : Uuid) (now : Time) (ts : List RefreshToken)
    → All (λ t. (t.token_hash == hash) ≡ true → is_some t.revoked_at ≡ true) ts
    → All
        (λ t. (t.token_hash == hash) ≡ true → is_some t.revoked_at ≡ true)
        (map (revoked_row id now) ts)
unfolding revoked_row
revoked_rows-IsDead hash id now [] h = tt
revoked_rows-IsDead hash id now (t ∷ ts) h = elim (Bool-cases (t.id == id)) [
  | inl e ↦ rw e ((λ k. refl), revoked_rows-IsDead hash id now ts h.1)
  | inr e ↦ rw e (h.0, revoked_rows-IsDead hash id now ts h.1)
]

-- When the rows with the hash all have the id, revoking the id kills the token.
revoked_rows-dead :
    (hash : ℕ) (id : Uuid) (now : Time) (ts : List RefreshToken)
    → All (λ t. has_hash hash t ≡ true → t.id ≡ id) ts
    → All
        (λ t. (t.token_hash == hash) ≡ true → is_some t.revoked_at ≡ true)
        (map (revoked_row id now) ts)
unfolding revoked_row has_hash
revoked_rows-dead hash id now [] h = tt
revoked_rows-dead hash id now (t ∷ ts) h = elim (Bool-cases (t.id == id)) [
  | inl e ↦ rw e ((λ k. refl), revoked_rows-dead hash id now ts h.1)
  | inr e ↦ rw e ((λ k. absurd (ground (arith, h.0 k))), revoked_rows-dead hash id now ts h.1)
]

pub new_row-IsDead :
    (hash : ℕ) (t : RefreshToken) (ts : List RefreshToken)
    → (t.token_hash == hash) ≡ false
    → All (λ x. (x.token_hash == hash) ≡ true → is_some x.revoked_at ≡ true) ts
    → All (λ x. (x.token_hash == hash) ≡ true → is_some x.revoked_at ≡ true) (ts ++ t ∷ [])
new_row-IsDead hash t [] h k = ((λ e. absurd (ground arith)), tt)
new_row-IsDead hash t (x ∷ ts) h k = (k.0, new_row-IsDead hash t ts h k.1)

one_or_none-rows {ℓ} :
    {A : Type ℓ} (P : A → Type 0) (xs : List A) (o : Option A)
    → one_or_none xs ≡ ok o
    → IfSome P o
    → All P xs
unfolding one_or_none
one_or_none-rows P [] o e h = tt
one_or_none-rows P (x ∷ []) o e h =
    (Ensures-ok (λ q. IfSome P q → P x) (ok (some x)) o e (λ k. k) h, tt)
one_or_none-rows P (x ∷ y ∷ xs) o e h = absurd (ground arith)

pub revoke-cases :
    (now : Time) (id : Uuid) (db : Db)
    → ((e : Error) × (revoke now id db ≡ (err e, db)))
      ⊎ ((o : Option RefreshToken) × (one_or_none (keep (λ t. t.id == id) db.tokens) ≡ ok o)
          × (revoke now id db ≡ (ok tt, mark_revoked o id now db)))
unfolding revoke
revoke-cases now id db = elim (Result-cases (one_or_none (keep (λ t. t.id == id) db.tokens))) [
  | inl (bad, e) ↦ inl (bad, rw e refl)
  | inr (o, e) ↦ inr (o, e, rw e refl)
]

-- The rows with the hash of a token that was found all have its id.
found-rows :
    (hash : ℕ) (rt : RefreshToken) (db : Db)
    → get_by_hash hash db ≡ ok (some rt)
    → All (λ t. has_hash hash t ≡ true → t.id ≡ rt.id) db.tokens
unfolding get_by_hash
found-rows hash rt db found =
    All-from_keep (λ t. t.id ≡ rt.id) (has_hash hash) db.tokens
      (one_or_none-rows (λ t. t.id ≡ rt.id) (keep (has_hash hash) db.tokens) (some rt) found refl)

none-dead :
    (hash : ℕ) (id : Uuid) (ts : List RefreshToken)
    → All (λ t. has_hash hash t ≡ true → t.id ≡ id) ts
    → All (λ t. (t.id == id) ≡ true → ⊥) ts
    → All (λ t. (t.token_hash == hash) ≡ true → is_some t.revoked_at ≡ true) ts
unfolding has_hash
none-dead hash id [] h k = tt
none-dead hash id (t ∷ ts) h k =
    ((λ e. absurd (k.0 (ground (arith, h.0 e)))), none-dead hash id ts h.1 k.1)

-- A token that is in no row, or whose row is revoked, is dead.
pub get_by_hash-IsDead :
    (hash : ℕ) (o : Option RefreshToken) (db : Db)
    → get_by_hash hash db ≡ ok o
    → IfSome (λ t. is_some t.revoked_at ≡ true) o
    → IsDead hash db
unfolding get_by_hash has_hash
get_by_hash-IsDead hash o db found revoked =
    All-from_keep (λ t. is_some t.revoked_at ≡ true) (has_hash hash) db.tokens
      (one_or_none-rows (λ t. is_some t.revoked_at ≡ true) (keep (has_hash hash) db.tokens) o found
        revoked)

pub found_revoked-IsDead :
    (hash : ℕ) (rt : RefreshToken) (o : Option RefreshToken) (now : Time) (db : Db)
    → get_by_hash hash db ≡ ok (some rt)
    → one_or_none (keep (λ t. t.id == rt.id) db.tokens) ≡ ok o
    → IsDead hash (mark_revoked o rt.id now db)
unfolding mark_revoked
found_revoked-IsDead hash rt none now db found rows =
    none-dead hash rt.id db.tokens (found-rows hash rt db found) (
      All-from_keep (λ t. ⊥) (λ t. t.id == rt.id) db.tokens
        (one_or_none-rows (λ t. ⊥) (keep (λ t. t.id == rt.id) db.tokens) none rows tt))
found_revoked-IsDead hash rt (some t) now db found rows =
    revoked_rows-dead hash rt.id now db.tokens (found-rows hash rt db found)

pub mark_revoked-IsDead :
    (hash : ℕ) (o : Option RefreshToken) (id : Uuid) (now : Time) (db : Db)
    → IsDead hash db
    → IsDead hash (mark_revoked o id now db)
unfolding mark_revoked
mark_revoked-IsDead hash none id now db h = h
mark_revoked-IsDead hash (some t) id now db h = revoked_rows-IsDead hash id now db.tokens h

All-to_keep {ℓ} :
    {A : Type ℓ} (P : A → Type 0) (test : A → Bool) (xs : List A)
    → All (λ x. test x ≡ true → P x) xs
    → All P (keep test xs)
unfolding keep
All-to_keep P test [] h = tt
All-to_keep P test (x ∷ xs) h = elim (Bool-cases (test x)) [
  | inl e ↦ rw e (h.0 e, All-to_keep P test xs h.1)
  | inr e ↦ rw e (All-to_keep P test xs h.1)
]

dead-found :
    (hash : ℕ) (rt : RefreshToken) (db : Db)
    → get_by_hash hash db ≡ ok (some rt)
    → IsDead hash db
    → is_some rt.revoked_at ≡ true
unfolding get_by_hash has_hash
dead-found hash rt db found h =
    let P : RefreshToken → Type 0 = λ t. is_some t.revoked_at ≡ true in
    Ensures-ok (IfSome P) _ (some rt) found (
      one_or_none-All P (keep (has_hash hash) db.tokens)
        (All-to_keep P (has_hash hash) db.tokens h))

-- The tokens stay, or one with the hash is added.
abbrev IsGiven : ℕ → Db → Db → Type 0
IsGiven hash db after =
    (after.tokens ≡ db.tokens)
    ⊎ ((t : RefreshToken) × (t.token_hash ≡ hash) × (after.tokens ≡ db.tokens ++ t ∷ []))

IsGiven-IsDead :
    (hash new : ℕ) (db after : Db)
    → (new == hash) ≡ false
    → IsGiven new db after
    → IsDead hash db
    → IsDead hash after
IsGiven-IsDead hash new db after fresh (inl e) h = rw e h
IsGiven-IsDead hash new db after fresh (inr (t, same, e)) h =
    rw e (new_row-IsDead hash t db.tokens (rw same fresh) h)

module _ (hash_password : Text → ℕ) (verify_password : Text → ℕ → Bool) (hash_token : Text → ℕ)
    (decode_refresh_token : Time → Text → Option Uuid) (days : ℕ) where
  abbrev refresh_of : Drawn → Time → Text → Exec User
  refresh_of = refresh hash_password verify_password hash_token decode_refresh_token days

  -- What a refresh does: it fails and changes nothing, or finds an unrevoked token and revokes it.
  IsRefreshed : Drawn → Time → Text → Db → Result User × Db → Type 0
  IsRefreshed drawn now token db r =
      ((e : Error) × (r ≡ (err e, db)))
      ⊎ ((rt : RefreshToken) × (o : Option RefreshToken) × (get_by_hash (hash_token token) db
            ≡ ok (some rt))
          × (is_some rt.revoked_at ≡ false)
          × (one_or_none (keep (λ t. t.id == rt.id) db.tokens) ≡ ok o)
          × IsGiven (hash_token drawn.token) (mark_revoked o rt.id now db) r.1)

  refresh-IsRefreshed :
      (drawn : Drawn) (now : Time) (token : Text) (db : Db)
      → IsRefreshed drawn now token db (refresh_of drawn now token db)
  unfolding IsRefreshed refresh create_token
  refresh-IsRefreshed drawn now token db = elim (Option-cases (decode_refresh_token now token)) [
    | inl e1 ↦ rw (e1, refresh) (inl (unauthorized, refl))
    | inr (user, e1) ↦ elim (Result-cases (get_by_hash (hash_token token) db)) [
      | inl (bad, e2) ↦ rw (e1, e2, refresh) (inl (bad, refl))
      | inr (none, e2) ↦ rw (e1, e2, refresh) (inl (token_revoked, refl))
      | inr (some rt, e2) ↦ elim (Bool-cases (is_some rt.revoked_at)) [
        | inl e3 ↦ rw (e1, e2, e3, refresh) (inl (token_revoked, refl))
        | inr e3 ↦ elim (Bool-cases (leb rt.expires_at now)) [
          | inl e4 ↦ rw (e1, e2, e3, e4, refresh) (inl (unauthorized, refl))
          | inr e4 ↦ elim (revoke-cases now rt.id db) [
            | inl (bad, e5) ↦ rw (e1, e2, e3, e4, e5, refresh) (inl (bad, refl))
            | inr (o, rows, e5) ↦
                let db' = mark_revoked o rt.id now db in
                let R = IsRefreshed drawn now token db in
                elim (Option-cases (find_user db'.users user)) [
                  | inl e6 ↦
                      let eq : refresh_of drawn now token db ≡ (err unauthorized, db') =
                        rw (e1, e2, e3, e4, e5, e6, refresh) refl in
                      subst R (sym eq) (inr (rt, o, e2, e3, rows, inl refl))
                  | inr (u, e6) ↦ elim (Bool-cases u.is_active) [
                    | inr e7 ↦
                        let eq : refresh_of drawn now token db ≡ (err unauthorized, db') =
                          rw (e1, e2, e3, e4, e5, e6, e7, refresh) refl in
                        subst R (sym eq) (inr (rt, o, e2, e3, rows, inl refl))
                    | inl e7 ↦
                        let t =
                          new_token drawn.row_id u.id (hash_token drawn.token)
                            (token_expiry now days) now in
                        let eq : refresh_of drawn now token db
                            ≡ (ok u, record db' { tokens = db'.tokens ++ t ∷ [] }) =
                          rw (e1, e2, e3, e4, e5, e6, e7, refresh) refl in
                        subst R (sym eq) (inr (rt, o, e2, e3, rows, inr (t, refl, refl)))
                  ]
                ]
          ]
        ]
      ]
    ]
  ]

  pub refresh_keeps :
      (hash : ℕ) (drawn : Drawn) (now : Time) (token : Text) (db : Db)
      → (hash_token drawn.token == hash) ≡ false
      → IsDead hash db
      → IsDead hash (refresh_of drawn now token db).1
  unfolding IsRefreshed
  refresh_keeps hash drawn now token db fresh h = elim (refresh-IsRefreshed drawn now token db) [
    | inl (bad, e) ↦ rw e h
    | inr (rt, o, found, live, rows, given) ↦
        IsGiven-IsDead hash (hash_token drawn.token) (mark_revoked o rt.id now db)
          (refresh_of drawn now token db).1 fresh given (mark_revoked-IsDead hash o rt.id now db h)
  ]

  -- A token that went through is dead; one that is dead does not go through.
  pub refresh_kills :
      (drawn : Drawn) (now : Time) (token : Text) (db : Db) (u : User)
      → (hash_token drawn.token == hash_token token) ≡ false
      → (refresh_of drawn now token db).0 ≡ ok u
      → IsDead (hash_token token) (refresh_of drawn now token db).1
  unfolding IsRefreshed
  refresh_kills drawn now token db u fresh went = elim (refresh-IsRefreshed drawn now token db) [
    | inl (bad, e) ↦ absurd (ground (arith, e, went))
    | inr (rt, o, found, live, rows, given) ↦
        IsGiven-IsDead (hash_token token) (hash_token drawn.token) (mark_revoked o rt.id now db)
          (refresh_of drawn now token db).1 fresh given
          (found_revoked-IsDead (hash_token token) rt o now db found rows)
  ]

  pub dead_fails :
      (drawn : Drawn) (now : Time) (token : Text) (db : Db)
      → IsDead (hash_token token) db
      → (e : Error) × (refresh_of drawn now token db ≡ (err e, db))
  unfolding IsRefreshed
  dead_fails drawn now token db h = elim (refresh-IsRefreshed drawn now token db) [
    | inl done ↦ done
    | inr (rt, o, found, live, rows, given) ↦
        let revoked = dead-found (hash_token token) rt db found h in absurd (ground arith)
  ]
