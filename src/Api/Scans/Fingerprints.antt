-- ===== src/Api/Scans/Fingerprints.antt =====
-- What the fingerprint of a request forgets.
use bevoac_dev.Prelude.{◌≡◌, refl, ap, ◌∙◌, sym, ◌&&◌, List, [], ◌∷◌, map, some, arith}
use bevoac_dev.Prelude.Text.{Text, text_eq, mem_text, truthy, to_lower}
use bevoac_dev.Prelude.TextOrder.{sorted_set-ext}
use bevoac_dev.Api.Contract.{Azure}
use bevoac_dev.Api.Scans.{
  Tools, clean_name, non_empty, normalize_fingerprint_request, build_request_fingerprint,
}

mem-non_empty :
    (t : Text) (l : List Text) → mem_text t (non_empty l) ≡ (truthy (some t) && mem_text t l)
unfolding mem_text non_empty text_eq
mem-non_empty [] [] = refl
mem-non_empty (c ∷ t) [] = refl
mem-non_empty [] ([] ∷ l) = mem-non_empty [] l
mem-non_empty (c ∷ t) ([] ∷ l) = mem-non_empty (c ∷ t) l
mem-non_empty [] ((d ∷ s) ∷ l) = mem-non_empty [] l
mem-non_empty (c ∷ t) ((d ∷ s) ∷ l) = ground (arith, mem-non_empty (c ∷ t) l)

-- Requests for the same modules and the same subscriptions, in any order, any number of times and with
-- any case of letters (and any outer space around a module), have the same fingerprint, if the rest of
-- the requests is the same.
pub build_request_fingerprint-unordered :
    (tools : Tools) (cloud_provider scan_profile : Text) (modules others : List Text)
    (azure other : Azure)
    → ((t : Text) → mem_text t (map clean_name modules) ≡ mem_text t (map clean_name others))
    → ((t : Text)
        → mem_text t (map to_lower azure.subscriptions)
          ≡ mem_text t (map to_lower other.subscriptions))
    → azure.target_url ≡ other.target_url
    → azure.microsoft_tenant_id ≡ other.microsoft_tenant_id
    → build_request_fingerprint tools cloud_provider scan_profile modules azure
      ≡ build_request_fingerprint tools cloud_provider scan_profile others other
unfolding build_request_fingerprint normalize_fingerprint_request
build_request_fingerprint-unordered tools cloud_provider scan_profile modules others azure other m s
      u t =
    let same_modules =
      sorted_set-ext (non_empty (map clean_name modules)) (non_empty (map clean_name others)) (λ x.
        mem-non_empty x (map clean_name modules)
        ∙ (ap (λ b. truthy (some x) && b) (m x) ∙ sym (mem-non_empty x (map clean_name others)))) in
    let same_subscriptions =
      sorted_set-ext (map to_lower azure.subscriptions) (map to_lower other.subscriptions) s in
    rw (u, t, same_modules, same_subscriptions) refl
