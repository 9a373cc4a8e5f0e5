-- ===== src/Http/Login/Admits.antt =====
-- internal/http/server.go: who is signed in by `login`.
use mgp.Base.{
  ◌≡◌, refl, ◌∙◌, sym, ap, subst, Bool, true, ◌&&◌, Bool-cases, inl, inr, eq_iff, eq_refl, ◌==◌,
  text_equality, Option-cases, some, ◌∷◌, ◌+◌, String, Result, ok, err, find, or_empty, arith,
}
use mgp.Base.Keys.{find-first}
use mgp.Database.{World, pure, tick, statement, continue}
use mgp.Database.Laws.{statement-ok, pure-ok}
use mgp.Database.Tables.{UserRow, Db}
use mgp.Auth.Pin.{normalize_username, verify_pin}
use mgp.Auth.Users.{User, user_of, has_username, find_by_username}
use mgp.Auth.Limiter.{is_attempt, admits, login_allowed, clear_login_failures}
use mgp.Sessions.{
  Session, is_session, row_of_session, sign_cookie, new_session, create_session, insert_session,
}
use mgp.Http.{Request, Response, caught}
use mgp.Http.Login.{valid_login, session_answer, login_found, login_checked, login}

-- What the program reads besides the tables stays.
abbrev Same : World → World → Type 0
Same u w = (u.platform ≡ w.platform) × (u.now ≡ w.now)

login_allowed-ok :
    (name : String) (w u : World) (allowed : Bool)
    → login_allowed name w ≡ (ok allowed, u)
    → (u.db ≡ w.db)
      × Same u w
      × (admits (find (is_attempt (normalize_username w.lower name)) w.db.attempts) w.now ≡ allowed)
unfolding login_allowed statement
login_allowed-ok name w u allowed h = ground arith

find_by_username-ok :
    (name : String) (w u : World) (user : User)
    → find_by_username name w ≡ (ok user, u)
    → (u.db ≡ w.db)
      × Same u w
      × (row : UserRow) × (find
            (has_username w.sql_lower (normalize_username w.lower name))
            w.db.users
          ≡ some row)
      × (user ≡ user_of row)
unfolding find_by_username statement
find_by_username-ok name w u user h =
    elim (Option-cases
      (find (has_username w.sql_lower (normalize_username w.lower name)) w.db.users)) [
        | inl e ↦ absurd (ground arith)
        | inr (row, e) ↦ (ground arith, (ground arith, ground arith), row, e, ground arith)
      ]

clear-Same : (name : String) (w : World) → Same (clear_login_failures name w).1 w
unfolding clear_login_failures statement
clear-Same name w = ground arith

insert_session-ok :
    (session : Session) (w : World) (db : Db)
    → insert_session session w ≡ ok (tt, db)
    → find (is_session session.id) db.sessions ≡ some (row_of_session session)
unfolding insert_session
insert_session-ok session w db h =
    let stored : record w.db { sessions = row_of_session session ∷ w.db.sessions } ≡ db =
      ground arith in
    subst (λ x. find (is_session session.id) x.sessions ≡ some (row_of_session session)) stored
      (find-first (is_session session.id) (row_of_session session) w.db.sessions
        (eq_refl session.id))

create_session-ok :
    (id : String) (w u : World) (session : Session)
    → create_session id w ≡ (ok session, u)
    → Same u w
      × (session.user_id ≡ id)
      × (find (is_session session.id) u.db.sessions ≡ some (row_of_session session))
unfolding create_session
create_session-ok id w u session h =
    let drawn = record w { reads = w.reads + 1 + 1 } in
    let made = new_session (w.random w.reads) (w.random (w.reads + 1)) id w.now in
    let (_, db, inserted, last) = statement-ok drawn (insert_session made) (λ _. pure made) h in
    let (same, end) = pure-ok (record (tick drawn) { db = db }) made last in
    (
      (ap (λ x. x.platform) (sym end), ap (λ x. x.now) (sym end)),
      ap (λ s. s.user_id) (sym same),
      rw (sym same, sym end) (insert_session-ok made drawn db inserted),
    )

and3 : (a b c : Bool) → (a && b && c) ≡ true → (a ≡ true) × (b ≡ true) × (c ≡ true)
and3 a b c h = (ground arith, ground arith, ground arith)

abbrev cookie_of : Result Response → String
cookie_of (ok (Response.redirect_with_cookie _ value)) = value
cookie_of _ = ""

module _ (key name pin location value : String) (w : World) where
  -- The account of the name is active, not locked, has the PIN, and has a session in the tables whose
  -- signed name is the cookie.
  abbrev pub SignedIn : Db → Type 0
  SignedIn db =
      (row : UserRow) × (session : Session) × (find
          (has_username w.sql_lower (normalize_username w.lower name)) w.db.users
        ≡ some row)
      × (row.status ≡ "active")
      × (verify_pin w.argon2 (or_empty row.pin_hash) pin ≡ true)
      × (admits (find (is_attempt (normalize_username w.lower name)) w.db.attempts) w.now ≡ true)
      × (session.user_id ≡ row.id)
      × (find (is_session session.id) db.sessions ≡ some (row_of_session session))
      × (value ≡ sign_cookie w.hmac key session.id)

  abbrev Cookie : Result Response × World → Type 0
  Cookie r = r.0 ≡ ok (Response.redirect_with_cookie location value)

  answered :
      (user : User) (u v : World) (r : Result Session × World)
      → (row : UserRow)
      → (find (has_username w.sql_lower (normalize_username w.lower name)) w.db.users ≡ some row)
      → (user ≡ user_of row)
      → (user.status == "active") ≡ true
      → verify_pin v.argon2 user.pin_hash pin ≡ true
      → (admits (find (is_attempt (normalize_username w.lower name)) w.db.attempts) w.now ≡ true)
      → v.platform ≡ w.platform
      → u.platform ≡ w.platform
      → create_session user.id u ≡ r
      → Cookie (continue (caught r) (session_answer key))
      → SignedIn (continue (caught r) (session_answer key)).1.db
  answered user u v (err e, u') row found known active verified free same same' made h = cc
  answered user u v (ok session, u') row found known active verified free same same' made h =
      let (kept, owner, stored) = create_session-ok user.id u u' session made in
      let platform : u'.platform ≡ w.platform = kept.0 ∙ same' in
      (
        row,
        session,
        found,
        ap (λ x. x.status) (sym known) ∙ (eq_iff _ _).0 active,
        subst (λ p. verify_pin p.argon2 (or_empty row.pin_hash) pin ≡ true) same
            (subst (λ x. verify_pin v.argon2 x.pin_hash pin ≡ true) known verified),
        free,
        owner ∙ ap (λ x. x.id) known,
        stored,
        sym (ap cookie_of h) ∙ ap (λ p. sign_cookie p.hmac key session.id) platform,
      )

  found_out :
      (allowed : Bool) (u : World) (r : Result User × World)
      → u.db ≡ w.db
      → Same u w
      → (admits (find (is_attempt (normalize_username w.lower name)) w.db.attempts) w.now ≡ allowed)
      → find_by_username name u ≡ r
      → Cookie (continue (caught r) (login_found key name pin allowed))
      → SignedIn (continue (caught r) (login_found key name pin allowed)).1.db
  found_out allowed u (err e, v) db same free read h = cc
  found_out allowed u (ok user, v) db same free read h =
      elim (Bool-cases (valid_login allowed (ok user) pin v)) [
        | inl valid ↦
            let (kept, same', row, found, known) = find_by_username-ok name u v user read in
            let (open_door, active, verified) =
              and3 allowed (user.status == "active") (verify_pin v.argon2 user.pin_hash pin)
                valid in
            rw valid (
              answered user (clear_login_failures name v).1 v
                (create_session user.id (clear_login_failures name v).1) row
                (ap (λ d. find (has_username w.sql_lower (normalize_username w.lower name)) d.users)
                    (sym db)
                  ∙ ap
                      (λ p.
                        find (has_username p.sql_lower (normalize_username p.lower name))
                          u.db.users)
                      (sym same.0)
                  ∙ found)
                known active verified (free ∙ open_door) (same'.0 ∙ same.0)
                ((clear-Same name v).0 ∙ same'.0 ∙ same.0) refl (rw valid at h))
        | inr invalid ↦ let k = rw invalid at h in cc
      ]

  checked :
      (r : Result Bool × World)
      → login_allowed name w ≡ r
      → Cookie (continue (caught r) (login_checked key name pin))
      → SignedIn (continue (caught r) (login_checked key name pin)).1.db
  checked (err e, u) read h = cc
  checked (ok allowed, u) read h =
      let (db, same, free) = login_allowed-ok name w u allowed read in
      found_out allowed u (find_by_username name u) db same free refl h

-- A login that sets the session's cookie was made with the PIN of an active account that was not
-- locked: the cookie is the signed name of a session that then stands in the tables and belongs to
-- that account.
pub login-SignedIn :
    (key location value : String) (request : Request) (w : World)
    → (login key request w).0 ≡ ok (Response.redirect_with_cookie location value)
    → SignedIn key
        (normalize_username w.lower (request.form_value "username"))
        (request.form_value "pin")
        location
        value
        w
        (login key request w).1.db
unfolding login
login-SignedIn key location value request w h = elim (Bool-cases request.is_malformed) [
  | inl bad ↦ let k = rw bad at h in cc
  | inr good ↦
      let name = normalize_username w.lower (request.form_value "username") in
      rw good (
        checked key name (request.form_value "pin") location value w (login_allowed name w) refl
          (rw good at h))
]
