-- ===== src/Tests/Accounts.antt =====
-- PINs, the limiter and sessions on concrete inputs.
use mgp.Base.{
  ◌≡◌, ◌+◌, ◌*◌, refl, ◌↔◌, ok, err, no_rows, true, false, not, none, some, [], ◌∷◌, String, find,
  leb, ltb, if◌then◌else◌, arith, ◌==◌, text_equality,
}
use mgp.Base.Text.{trim_space}
use mgp.Base.Splits.{lacks}
use mgp.Base.Base64.{url_alphabet, encode}
use mgp.Database.{World}
use mgp.Auth.Pin.{normalize_username, validate_pin, hash_pin, verify_pin}
use mgp.Auth.Pin.Verifies.{hash_pin-verify_pin}
use mgp.Auth.Limiter.{is_attempt, admits, login_allowed, record_login_failure, clear_login_failures}
use mgp.Auth.Limiter.Locks.{failures, failures-admits, locks, login_allowed_after}
use mgp.Sessions.{Session, sign_cookie, verify_cookie, create_session, get_session, delete_session}
use mgp.Sessions.Cookies.{verify_cookie_iff}
use mgp.Sessions.Lifetime.{create_session-get_session}
use mgp.Tests.Data.{start}

pin_accepted : validate_pin " 123456" ≡ none
unfolding validate_pin trim_space
pin_accepted = refl

hash_pin-verify_pin_example :
    (encoded : String) × ((hash_pin " 123456" start).0 ≡ ok encoded)
    × (verify_pin start.argon2 encoded " 123456" ≡ true)
    × ((verify_pin start.argon2 encoded "654321" ≡ true) ↔ (
        (validate_pin "654321" ≡ none)
        × (start.argon2 (trim_space "654321") (start.random start.reads)
            ≡ start.argon2 (trim_space " 123456") (start.random start.reads))))
hash_pin-verify_pin_example =
    hash_pin-verify_pin " 123456" "654321" start (omega arith, tt) (omega arith, tt) pin_accepted

failures-admits_example :
    (admits (find (is_attempt "ina") (failures "ina" (2 ∷ 1 ∷ []) [])) 10 ≡ true)
    × (admits (find (is_attempt "ina") (failures "ina" (5 ∷ 4 ∷ 3 ∷ 2 ∷ 1 ∷ []) [])) 10
        ≡ leb (5 + 15 * 60) 10)
failures-admits_example =
    failures-admits "ina" [] (2 ∷ 1 ∷ []) (4 ∷ 3 ∷ 2 ∷ 1 ∷ []) 10 5 refl (omega arith) refl

login_allowed_after_example :
    ((login_allowed "Ina" (record_login_failure "Ina" start).1).0
      ≡ ok (
          not (
            locks
              (find (is_attempt (normalize_username start.lower "Ina")) start.db.attempts)
              start.now)))
    × ((login_allowed "Ina" (clear_login_failures "Ina" start).1).0 ≡ ok true)
login_allowed_after_example = login_allowed_after "Ina" start (λ n. refl)

abbrev session_name : String
session_name = "a"

abbrev cookie : String
cookie = "a.AA"

verify_cookie_iff_example : (verify_cookie start.hmac "key" cookie ≡ some session_name) ↔ (
    (cookie ≡ sign_cookie start.hmac "key" session_name)
    × ((session_name == "") ≡ false)
    × (lacks b'.' session_name ≡ true))
verify_cookie_iff_example =
    verify_cookie_iff start.hmac "key" refl cookie session_name (omega arith, tt)

name_drawn : (encode url_alphabet (start.random 0) == "") ≡ false
unfolding encode
name_drawn = refl

create_session-get_session_example :
    (session : Session) × (later : World) × (create_session "ina" start ≡ (ok session, later))
    × (session.user_id ≡ "ina")
    × ((get_session "key"
          (some (sign_cookie start.hmac "key" session.id))
          (record later { now = 1200 })).0
        ≡ (if ltb 1200 (start.now + 8 * 60 * 60) then ok session else err no_rows))
    × ((get_session "key"
          (some (sign_cookie start.hmac "key" session.id))
          (record (delete_session "key" (some (sign_cookie start.hmac "key" session.id)) later).1 {
            now = 1200;
          })).0
        ≡ err no_rows)
create_session-get_session_example =
    create_session-get_session "key" "ina" start 1200 (λ n. refl) refl refl refl name_drawn
      (omega arith, tt) (omega arith, tt)
