-- ===== src/Shared/Cookies.antt =====
-- src/internal/shared/cookies.ts: the Cookie header and the Set-Cookie header. `encodeURIComponent` and
-- `decodeURIComponent`, none where it throws, are parameters, and so is the text of a number.
pub mod RoundTrip
mod Tests
use kenojs.Prelude.{
  ℕ, ◌/◌, ◌-◌, Bool, true, false, Option, none, some, List, [], ◌∷◌, ◌++◌, if◌then◌else◌, leb,
}
use kenojs.Prelude.Maps.{set}
use kenojs.Prelude.Text.{Text, same_text, text_key, codes, is_empty, trim, split_on, lower}

abbrev pub semicolon : ℕ
semicolon = 59

abbrev pub equals_sign : ℕ
equals_sign = 61

abbrev pub join : Text → List Text → Text
join separator [] = []
join separator (t ∷ []) = t
join separator (t ∷ u ∷ ts) = t ++ separator ++ join separator (u ∷ ts)

abbrev pub Cookies : Type 0
Cookies = List (Text × Text)

abbrev pub proto_key : Text
proto_key = codes "__proto__"

-- An assignment to the key "__proto__" of a plain object with a string is ignored.
abbrev pub set_decoded : Option Text → Option Text → Cookies → Option Cookies
set_decoded (some name) (some value) cookies =
    some (if same_text name proto_key then cookies else set name value cookies)
set_decoded _ _ cookies = none

-- One round of the loop, on the parts of an entry.
abbrev pub add_cookie : (decode : Text → Option Text) → List Text → Cookies → Option Cookies
add_cookie decode [] cookies = some cookies
add_cookie decode ([] ∷ value_parts) cookies = some cookies
add_cookie decode ((c ∷ raw_name) ∷ value_parts) cookies =
    set_decoded (decode (c ∷ raw_name)) (decode (join (equals_sign ∷ []) value_parts)) cookies

unfoldable pub add_cookies : (decode : Text → Option Text) → List Text → Cookies → Option Cookies
add_cookies decode [] cookies = some cookies
add_cookies decode (entry ∷ entries) cookies =
    elim (add_cookie decode (split_on equals_sign (trim entry)) cookies) [
      | none ↦ none
      | some added ↦ add_cookies decode entries added
    ]

unfoldable pub parse_cookies :
    (decode : Text → Option Text) → (header_value : Option Text) → Option Cookies
parse_cookies decode none = some []
parse_cookies decode (some header_value) =
    let entries = add_cookies decode (split_on semicolon header_value) [] in
    if is_empty header_value then some [] else entries

-- `expires` is the text of `toUTCString`.
pub record CookieOptions : Type 0 where
  pub max_age : Option ℕ
  pub domain : Option Text
  pub path : Option Text
  pub expires : Option Text
  pub http_only : Bool
  pub secure : Bool
  pub same_site : Option Text

abbrev pub no_options : CookieOptions
no_options = record {
  max_age = none;
  domain = none;
  path = none;
  expires = none;
  http_only = false;
  secure = false;
  same_site = none;
}

abbrev pub upper_char : ℕ → ℕ
upper_char c = if leb 97 c then if leb c 122 then c - 32 else c else c

abbrev pub capitalize : Text → Text
capitalize [] = []
capitalize (c ∷ value) = upper_char c ∷ lower value

-- A part with a text that is given and not empty.
abbrev pub text_part : Text → Option Text → List Text
text_part name none = []
text_part name (some []) = []
text_part name (some (c ∷ value)) = (name ++ c ∷ value) ∷ []

abbrev pub max_age_part : (show : ℕ → Text) → Option ℕ → List Text
max_age_part show none = []
max_age_part show (some max_age) = (codes "Max-Age=" ++ show (max_age / 1000)) ∷ []

abbrev pub capitalized : Option Text → Option Text
capitalized none = none
capitalized (some value) = some (capitalize value)

unfoldable pub serialize_cookie :
    (encode : Text → Text) (show : ℕ → Text) (name value : Text) → CookieOptions → Text
serialize_cookie encode show name value o = join (codes "; ") (
    (encode name ++ equals_sign ∷ encode value)
    ∷ (max_age_part show o.max_age
        ++ text_part (codes "Domain=") o.domain
        ++ text_part (codes "Path=") o.path
        ++ text_part (codes "Expires=") o.expires
        ++ (if o.http_only then codes "HttpOnly" ∷ [] else [])
        ++ (if o.secure then codes "Secure" ∷ [] else [])
        ++ text_part (codes "SameSite=") (capitalized o.same_site)))
