-- ===== src/Api/Hosts.antt =====
-- lib/target-authorization.js of the API: the form of UUIDs and of the hosts of web targets.
pub mod Dots
use bevoac_dev.Prelude.{
  ℕ, zero, suc, ◌+◌, ◌*◌, ◌-◌, Bool, true, false, ◌&&◌, ◌||◌, Option, none, some, List, [], ◌∷◌,
  ltb, leb, ◌==◌, if◌then◌else◌,
}
use bevoac_dev.Prelude.Text.{Text, text, text_eq, to_lower, trim, starts_with}
use mathlib.Core.List.{reverse}
use bevoac_dev.Api.Errors.{validation_error, ApiResult, returned, failed}

-- `[0-9a-f]`, on a text in lower case
abbrev pub is_hex : ℕ → Bool
is_hex c = (leb b'0' c && leb c b'9') || (leb b'a' c && leb c b'f')

-- the units of a UUID by their places: `-` at 8, 13, 18 and 23, a version 1 to 5 at 14, a variant
-- 8, 9, a or b at 19, and hexadecimal digits elsewhere
unfoldable pub uuid_unit : ℕ → ℕ → Bool
uuid_unit place c =
    if (place == 8 || place == 13) || (place == 18 || place == 23)
    then c == b'-'
    else if place == 14
    then leb b'1' c && leb c b'5'
    else if place == 19
    then (c == b'8' || c == b'9') || (c == b'a' || c == b'b')
    else is_hex c

unfoldable pub uuid_from : ℕ → Text → Bool
unfolding uuid_unit
uuid_from place [] = place == 36
uuid_from place (c ∷ s) = (ltb place 36 && uuid_unit place c) && uuid_from (suc place) s

-- `uuidRegex.test(raw)`, on a text in lower case
unfoldable pub is_uuid : Text → Bool
unfolding uuid_from
is_uuid = uuid_from 0

unfoldable pub normalize_uuid : Text → (field_name : Text) → ApiResult Text
unfolding is_uuid to_lower trim
normalize_uuid value field_name =
    let raw = to_lower (trim value) in
    if is_uuid raw then returned raw else failed (validation_error field_name)

-- `replace(/\.$/, '')`
unfoldable pub drop_final_dot : Text → Text
drop_final_dot [] = []
drop_final_dot (c ∷ []) = if c == b'.' then [] else c ∷ []
drop_final_dot (c ∷ (d ∷ s)) = c ∷ drop_final_dot (d ∷ s)

unfoldable pub normalize_host : Text → Text
unfolding drop_final_dot to_lower trim
normalize_host hostname = drop_final_dot (to_lower (trim hostname))

unfoldable pub ends_with : Text → Text → Bool
unfolding starts_with
ends_with s suffix = starts_with (reverse s) (reverse suffix)

-- `normalized.split('.')`, with the units of the part so far, newest first
unfoldable pub split_dots : Text → Text → List Text
split_dots part [] = reverse part ∷ []
split_dots part (c ∷ s) =
    let same = split_dots (c ∷ part) s in
    let next = split_dots [] s in if c == b'.' then reverse part ∷ next else same

-- `Number(part)` of a part that is all digits, as those of an IPv4 address are
unfoldable pub number_from : ℕ → Text → ℕ
number_from n [] = n
number_from n (c ∷ s) = number_from (n * 10 + (c - b'0')) s

-- the n-th part as a number, 0 for a part that an IPv4 address does not lack
unfoldable pub part_number : ℕ → List Text → ℕ
unfolding number_from
part_number n [] = 0
part_number zero (p ∷ parts) = number_from 0 p
part_number (suc n) (p ∷ parts) = part_number n parts

-- the ranges of `isPrivateOrLocalHost` for an IPv4 address that starts with the two numbers
unfoldable pub is_private_ipv4 : ℕ → ℕ → Bool
is_private_ipv4 a b =
    (a == 10 || (a == 172 && leb 16 b && leb b 31))
    || ((a == 192 && b == 168) || a == 127)
    || (a == 0 || (a == 169 && b == 254))

-- `net.isIP` of Node: 4, 6, or 0 for a text that is no address
module _ (is_ip : Text → ℕ) where
  unfoldable pub is_private_or_local_host : Text → Bool
  unfolding normalize_host ends_with starts_with split_dots part_number is_private_ipv4 text_eq
  is_private_or_local_host host =
      let normalized = normalize_host host in
      let parts = split_dots [] normalized in
      if text_eq normalized []
      then true
      else if text_eq normalized (text "localhost") || ends_with normalized (text ".localhost")
      then true
      else if ends_with normalized (text ".local") || ends_with normalized (text ".internal")
      then true
      else if is_ip normalized == 4
      then is_private_ipv4 (part_number 0 parts) (part_number 1 parts)
      else if is_ip normalized == 6
      then (text_eq normalized (text "::1") || starts_with normalized (text "fc"))
        || (starts_with normalized (text "fd") || starts_with normalized (text "fe80"))
      else false

-- What `new URL` makes of a text: the protocol, the host name, and the text of the URL once its hash,
-- user name and password are empty.
pub record ParsedUrl : Type 0 where
  pub protocol : Text
  pub hostname : Text
  pub bare_text : Text

-- What the service uses of Node.
pub record UrlTools : Type 0 where
  pub parse_url : Text → Option ParsedUrl
  pub is_ip : Text → ℕ

pub record WebTarget : Type 0 where
  pub url : Text
  pub host : Text

unfoldable pub normalize_https_target_url : UrlTools → Text → ApiResult WebTarget
unfolding trim text_eq normalize_host is_private_or_local_host
normalize_https_target_url tools raw_url = elim (tools.parse_url (trim raw_url)) [
  | none ↦ failed (validation_error (text "azure.targetUrl"))
  | some parsed ↦
      let host = normalize_host parsed.hostname in
      if text_eq parsed.protocol (text "https:")
      then (if is_private_or_local_host tools.is_ip host
          then failed (validation_error (text "azure.targetUrl"))
          else returned (record { url = parsed.bare_text; host = host }))
      else failed (validation_error (text "azure.targetUrl"))
]
