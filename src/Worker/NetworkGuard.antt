-- ===== src/Worker/NetworkGuard.antt =====
-- lib/network-guard.js of the worker: which addresses and URLs a web scan may reach. The scan itself,
-- over HTTPS with a pinned address, is left out.
pub mod Ranges
use bevoac_dev.Prelude.{
  ℕ, zero, suc, ◌+◌, ◌-◌, ◌*◌, ◌/◌, ◌%◌, ◌^◌, Bool, true, false, not, ◌&&◌, ◌||◌, ◌⊎◌, inl, inr,
  Option, none, some, List, [], ◌∷◌, ◌==◌, if◌then◌else◌, any,
}
use bevoac_dev.Prelude.Text.{Text, text, text_eq, mem_text, to_lower, trim, starts_with, includes}
use bevoac_dev.Api.Hosts.{split_dots, number_from, ends_with, ParsedUrl}

-- `((acc << 8) + Number(octet)) >>> 0`
unfoldable pub push_octet : (acc octet : ℕ) → ℕ
push_octet acc octet = (acc * 2 ^ 8 + octet) % 2 ^ 32

-- `.reduce(…, 0)` over the octets as numbers
unfoldable pub octets_to_int : ℕ → List ℕ → ℕ
unfolding push_octet
octets_to_int acc [] = acc
octets_to_int acc (o ∷ os) = octets_to_int (push_octet acc o) os

unfoldable pub numbers_of : List Text → List ℕ
unfolding number_from
numbers_of [] = []
numbers_of (t ∷ ts) = number_from 0 t ∷ numbers_of ts

-- `ipv4ToInt`, on the text of an IPv4 address
unfoldable pub ipv4_to_int : Text → ℕ
unfolding octets_to_int numbers_of split_dots
ipv4_to_int ip = octets_to_int 0 (numbers_of (split_dots [] ip))

-- `n & mask`, where the mask has ones in the first `prefix` of 32 bits
unfoldable pub masked : (prefix n : ℕ) → ℕ
masked prefix n = n / 2 ^ (32 - prefix) * 2 ^ (32 - prefix)

unfoldable pub ipv4_in_cidr : Text → (base : Text) → (prefix : ℕ) → Bool
unfolding ipv4_to_int masked
ipv4_in_cidr ip base prefix = masked prefix (ipv4_to_int ip) == masked prefix (ipv4_to_int base)

abbrev pub blocked_ipv4_ranges : List (Text × ℕ)
blocked_ipv4_ranges =
    (text "0.0.0.0", 8)
    ∷ (text "10.0.0.0", 8)
    ∷ (text "100.64.0.0", 10)
    ∷ (text "127.0.0.0", 8)
    ∷ (text "169.254.0.0", 16)
    ∷ (text "172.16.0.0", 12)
    ∷ (text "192.0.0.0", 24)
    ∷ (text "192.0.2.0", 24)
    ∷ (text "192.168.0.0", 16)
    ∷ (text "198.18.0.0", 15)
    ∷ (text "198.51.100.0", 24)
    ∷ (text "203.0.113.0", 24)
    ∷ (text "224.0.0.0", 4)
    ∷ (text "240.0.0.0", 4)
    ∷ []

abbrev pub blocked_exact_ipv4 : List Text
blocked_exact_ipv4 = text "169.254.169.254" ∷ (text "168.63.129.16" ∷ [])

unfoldable pub is_blocked_ipv4 : Text → Bool
unfolding ipv4_in_cidr mem_text
is_blocked_ipv4 ip =
    mem_text ip blocked_exact_ipv4 || any (λ r. ipv4_in_cidr ip r.0 r.1) blocked_ipv4_ranges

-- the text after a prefix
unfoldable pub after_prefix : Text → Text → Text
after_prefix s [] = s
after_prefix [] (d ∷ t) = []
after_prefix (c ∷ s) (d ∷ t) = after_prefix s t

unfoldable pub is_blocked_ipv6 : Text → Bool
unfolding to_lower text_eq starts_with is_blocked_ipv4 after_prefix
is_blocked_ipv6 ip =
    let normalized = to_lower ip in
    if text_eq normalized (text "::1") || text_eq normalized (text "::")
    then true
    else if starts_with normalized (text "fc") || starts_with normalized (text "fd")
    then true
    else if (starts_with normalized (text "fe8") || starts_with normalized (text "fe9"))
        || (starts_with normalized (text "fea") || starts_with normalized (text "feb"))
    then true
    else if starts_with normalized (text "ff")
    then true
    else if starts_with normalized (text "2001:db8")
    then true
    else if starts_with normalized (text "::ffff:")
    then is_blocked_ipv4 (after_prefix normalized (text "::ffff:"))
    else false

-- `net.isIP` and `new URL` of Node
module _ (is_ip : Text → ℕ) where
  unfoldable pub is_blocked_address : Text → Bool
  unfolding is_blocked_ipv4 is_blocked_ipv6
  is_blocked_address address =
      if is_ip address == 4
      then is_blocked_ipv4 address
      else if is_ip address == 6
      then is_blocked_ipv6 address
      else true

-- `normalizeAndValidateUrl`: the schemes and hosts of the configuration, and the parsed URL that is let
-- through
unfoldable pub normalize_and_validate_url :
    (is_ip : Text → ℕ)
    → (parse_url : Text → Option ParsedUrl) → (allowed_schemes blocked_hosts : List Text) → Text
    → Option ParsedUrl
unfolding trim to_lower mem_text text_eq ends_with is_blocked_address
normalize_and_validate_url is_ip parse_url allowed_schemes blocked_hosts input =
    elim (parse_url (trim input)) [
      | none ↦ none
      | some parsed ↦
          let hostname = to_lower parsed.hostname in
          if mem_text parsed.protocol allowed_schemes
          then (if (mem_text hostname blocked_hosts
                  || (text_eq hostname (text "localhost")
                      || text_eq hostname (text "localhost.localdomain")))
                || (ends_with hostname (text ".local") || ends_with hostname (text ".internal"))
              then none
              else if not (is_ip hostname == 0) && is_blocked_address is_ip hostname
              then none
              else some parsed)
          else none
    ]

-- what `dns.lookup` answers: an address with its family
abbrev pub Address : Type 0
Address = Text × ℕ

-- `resolvePublicAddresses`, from the answer of the lookup: refused if it is empty or has a blocked one
unfoldable pub resolve_public_addresses : (is_ip : Text → ℕ) → List Address → Option (List Address)
unfolding is_blocked_address
resolve_public_addresses is_ip [] = none
resolve_public_addresses is_ip (a ∷ addresses) =
    if any (λ x. is_blocked_address is_ip x.0) (a ∷ addresses) then none else some (a ∷ addresses)
