-- ===== src/Sessions/Lifetime.antt =====
-- internal/platform/sessions/store.go: a session from its creation to its end.
use mgp.Base.{
  ℕ, ◌<◌, ◌+◌, ◌*◌, ◌≡◌, refl, ap, ◌∙◌, true, false, String, Option, none, some, List, [], ◌∷◌, All,
  ◌==◌, text_equality, arith, Result, ok, err, Bool-cases, Option-cases, eq_refl, inl, inr, no_rows,
  any, ltb, if◌then◌else◌, discard, find,
}
use mgp.Base.Base64.{url_alphabet, url-IsAlphabet}
use mgp.Base.Splits.{lacks, encode-lacks}
use mgp.Database.{World, statement}
use mgp.Database.Tables.{SessionRow}
use mgp.Gatepass.Rows.{is_user}
use mgp.Sessions.{
  Session, new_session, is_session, create_session, insert_session, get_session, delete_session,
  sign_cookie, row_of_session, is_live, find_session,
}
use mgp.Sessions.Cookies.{verify_cookie-sign_cookie}

-- The driver refuses no call.
abbrev Calm : World → Type 0
Calm w = (n : ℕ) → w.fault n ≡ none

abbrev found : Option Session → Result Session
found none = err no_rows
found (some session) = ok session

-- The session that `Create` makes in a world.
abbrev fresh_session : String → World → Session
fresh_session user_id w = new_session (w.random w.reads) (w.random (w.reads + 1)) user_id w.now

abbrev stored : String → World → World
stored user_id w = record w {
  db = record w.db { sessions = row_of_session (fresh_session user_id w) ∷ w.db.sessions };
  reads = w.reads + 1 + 1;
  calls = w.calls + 1;
}

create_session-Calm :
    (user_id : String) (w : World)
    → Calm w
    → any (is_user user_id) w.db.users ≡ true
    → any (is_session (fresh_session user_id w).id) w.db.sessions ≡ false
    → create_session user_id w ≡ (ok (fresh_session user_id w), stored user_id w)
unfolding create_session insert_session statement
create_session-Calm user_id w calm known new = rw (calm w.calls, new, known) refl

-- No row is live under a name that no row has.
live-none :
    (id : String) (now : ℕ) (rows : List SessionRow)
    → any (is_session id) rows ≡ false
    → find (is_live id now) rows ≡ none
live-none id now [] h = refl
live-none id now (row ∷ rows) h = let rest = live-none id now rows in ground arith

any-discard :
    (id : String) (rows : List SessionRow)
    → any (is_session id) (discard (is_session id) rows) ≡ false
any-discard id [] = refl
any-discard id (row ∷ rows) = elim (Bool-cases (is_session id row)) [
  | inl e ↦ rw e (any-discard id rows)
  | inr e ↦ rw e (rw e (any-discard id rows))
]

live-first :
    (now : ℕ) (session : Session) (rows : List SessionRow)
    → any (is_session session.id) rows ≡ false
    → found (find_session (find (is_live session.id now) (row_of_session session ∷ rows)))
      ≡ (if ltb now session.expires_at then ok session else err no_rows)
live-first now session rows new = elim (Bool-cases (ltb now session.expires_at)) [
  | inl e ↦ rw (eq_refl session.id, e) refl
  | inr e ↦ rw (eq_refl session.id, e, live-none session.id now rows new) refl
]

get_session-Calm :
    (key id : String) (w : World)
    → Calm w
    → (key == "") ≡ false
    → All (λ b. b < 256) (w.hmac key id)
    → lacks b'.' id ≡ true
    → (id == "") ≡ false
    → (get_session key (some (sign_cookie w.hmac key id)) w).0
      ≡ found (find_session (find (is_live id w.now) w.db.sessions))
unfolding get_session statement
get_session-Calm key id w calm keyed bytes dotless named =
    rw (verify_cookie-sign_cookie w.hmac key keyed id bytes dotless named, calm w.calls)
      (elim (Option-cases (find_session (find (is_live id w.now) w.db.sessions))) [
        | inl e ↦ rw e refl
        | inr (session, e) ↦ rw e refl
      ])

delete_session-Calm :
    (key id : String) (w : World)
    → Calm w
    → (key == "") ≡ false
    → All (λ b. b < 256) (w.hmac key id)
    → lacks b'.' id ≡ true
    → (id == "") ≡ false
    → delete_session key (some (sign_cookie w.hmac key id)) w ≡ (
      ok tt,
      record w {
        db = record w.db { sessions = discard (is_session id) w.db.sessions };
        calls = w.calls + 1;
      },
    )
unfolding delete_session statement
delete_session-Calm key id w calm keyed bytes dotless named =
    rw (verify_cookie-sign_cookie w.hmac key keyed id bytes dotless named, calm w.calls) refl

-- Where the driver refuses no call, there is a key, the bytes of the generator and of HMAC are
-- bytes, and the drawn name is not empty and unused, a session is created for any user; it is read
-- back through its signed cookie until it expires, 8 * 60 * 60 seconds later, and not from then on;
-- and once it is deleted it is not read back at all. This holds whatever the settings of the
-- organization say: the session timeout in minutes that they offer is not read.
pub create_session-get_session :
    (key user_id : String) (w : World) (now : ℕ)
    → Calm w
    → any (is_user user_id) w.db.users ≡ true
    → any (is_session (fresh_session user_id w).id) w.db.sessions ≡ false
    → (key == "") ≡ false
    → ((fresh_session user_id w).id == "") ≡ false
    → All (λ b. b < 256) (w.random w.reads)
    → All (λ b. b < 256) (w.hmac key (fresh_session user_id w).id)
    → (session : Session) × (later : World) × (create_session user_id w ≡ (ok session, later))
      × (session.user_id ≡ user_id)
      × ((get_session key (some (sign_cookie w.hmac key session.id)) (record later { now = now })).0
          ≡ (if ltb now (w.now + 8 * 60 * 60) then ok session else err no_rows))
      × ((get_session key
            (some (sign_cookie w.hmac key session.id))
            (record (delete_session key (some (sign_cookie w.hmac key session.id)) later).1 {
              now = now;
            })).0
          ≡ err no_rows)
create_session-get_session key user_id w now calm known new keyed named bytes mac =
    let session = fresh_session user_id w in
    let later = stored user_id w in
    let dotless = encode-lacks b'.' url_alphabet (w.random w.reads) url-IsAlphabet bytes in
    let gone = delete_session-Calm key session.id later calm keyed mac dotless named in
    (
      session,
      later,
      create_session-Calm user_id w calm known new,
      refl,
      get_session-Calm key session.id (record later { now = now }) calm keyed mac dotless named
          ∙ live-first now session w.db.sessions new,
      ap
            (λ r.
              (get_session key (some (sign_cookie w.hmac key session.id))
                (record r.1 { now = now })).0)
            gone
          ∙ get_session-Calm key session.id _ calm keyed mac dotless named
          ∙ ap (λ o. found (find_session o))
              (live-none session.id now _ (any-discard session.id later.db.sessions)),
    )
