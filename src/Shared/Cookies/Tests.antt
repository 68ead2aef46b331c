-- ===== src/Shared/Cookies/Tests.antt =====
-- Runs of the cookie functions, and the theorem about them at one of these.
use kenojs.Prelude.{◌≡◌, refl, true, some, [], ◌∷◌, arith}
use kenojs.Prelude.Maps.{set}
use kenojs.Prelude.Text.{codes, trim, trim_start, trim_end, split_parts, split_on}
use kenojs.Shared.Cookies.{add_cookies, parse_cookies, no_options, serialize_cookie}
use kenojs.Shared.Cookies.RoundTrip.{parse_cookies-serialize_cookie}

-- The later of two cookies with one name stays, and an entry without a name is passed over.
parsed :
    parse_cookies some (some (codes "a=1; =2;b=x=y; a=3"))
    ≡ some ((codes "a", codes "3") ∷ (codes "b", codes "x=y") ∷ [])
unfolding parse_cookies add_cookies split_on split_parts trim trim_start trim_end set
parsed = refl

-- A cookie of this name is lost.
proto_lost : parse_cookies some (some (codes "__proto__=1")) ≡ some []
unfolding parse_cookies add_cookies split_on split_parts trim trim_start trim_end set
proto_lost = refl

serialized :
    serialize_cookie
      (λ t. t)
      (λ n. codes "60")
      (codes "a")
      (codes "1")
      (record no_options { max_age = some 60000; http_only = true; same_site = some (codes "lax") })
    ≡ codes "a=1; Max-Age=60; HttpOnly; SameSite=Lax"
unfolding serialize_cookie
serialized = refl

parse_cookies-serialize_cookie_example :
    parse_cookies some
      (some (serialize_cookie (λ t. t) (λ n. []) (codes "a") (codes "1") no_options))
    ≡ some ((codes "a", codes "1") ∷ [])
parse_cookies-serialize_cookie_example =
    parse_cookies-serialize_cookie (λ t. t) some (λ n. []) (codes "a") (codes "1") refl
      (omega arith) ((refl, refl, refl), tt) ((refl, refl, refl), tt) refl refl
