-- ===== src/Api/Contract/Modules.antt =====
-- What a normalised list of modules is.
use bevoac_dev.Prelude.{
  ◌≡◌, refl, sym, ◌∙◌, subst, inl, inr, Bool, true, false, not, ◌&&◌, ◌||◌, some, List, [], ◌∷◌,
  ◌++◌, map, All, arith, Bool-cases, Option-cases,
}
use bevoac_dev.Prelude.Text.{Text, text_eq, text_eq_iff, mem_text}
use bevoac_dev.Api.Errors.{returned}
use bevoac_dev.Api.Contract.{
  Descriptor, module_by_name, module_name, modules_for_profile, normalize_from, normalize_modules,
}

-- whether no text stands twice
unfoldable pub distinct : List Text → Bool
unfolding mem_text
distinct [] = true
distinct (t ∷ ts) = not (mem_text t ts) && distinct ts

mem-append :
    (t : Text) (xs ys : List Text) → mem_text t (xs ++ ys) ≡ (mem_text t xs || mem_text t ys)
unfolding mem_text
mem-append t [] ys = refl
mem-append t (x ∷ xs) ys = ground (arith, mem-append t xs ys)

text_eq_sym : (s t : Text) → text_eq s t ≡ text_eq t s
unfolding text_eq
text_eq_sym [] [] = refl
text_eq_sym [] (d ∷ t) = refl
text_eq_sym (c ∷ s) [] = refl
text_eq_sym (c ∷ s) (d ∷ t) = ground (arith, text_eq_sym s t)

distinct-append :
    (xs : List Text) (t : Text)
    → distinct xs ≡ true
    → mem_text t xs ≡ false
    → distinct (xs ++ (t ∷ [])) ≡ true
unfolding distinct mem_text
distinct-append [] t h n = refl
distinct-append (x ∷ xs) t h n = ground (
  arith,
  distinct-append xs t (ground arith) (ground arith),
  mem-append x xs (t ∷ []),
  text_eq_sym x t,
)

module _ (catalog : List Descriptor) (allowed : List Text) where
  -- one more module that passes
  abbrev Within : List Text → List Text → Type 0
  Within start result = (distinct result ≡ true) × All (λ t. mem_text t allowed ≡ true) result

  All-append :
      (xs : List Text) (t : Text)
      → All (λ t. mem_text t allowed ≡ true) xs
      → mem_text t allowed ≡ true
      → All (λ t. mem_text t allowed ≡ true) (xs ++ (t ∷ []))
  All-append [] t h m = (m, tt)
  All-append (x ∷ xs) t h m = (h.0, All-append xs t h.1 m)

  normalize_from-allowed :
      (normalized items r : List Text)
      → normalize_from catalog allowed normalized items ≡ returned r
      → distinct normalized ≡ true
      → All (λ t. mem_text t allowed ≡ true) normalized
      → (distinct r ≡ true) × All (λ t. mem_text t allowed ≡ true) r
  unfolding normalize_from
  normalize_from-allowed normalized [] r h d a =
      let same : normalized ≡ r = cc in
      subst (λ l. (distinct l ≡ true) × All (λ t. mem_text t allowed ≡ true) l) same (d, a)
  normalize_from-allowed normalized (item ∷ rest) r h d a =
      elim (Option-cases (module_by_name (module_name item) catalog)) [
        | inl e ↦ ground arith
        | inr (x, e) ↦ elim (Bool-cases (mem_text (module_name item) allowed)) [
          | inr n ↦ ground arith
          | inl m ↦ elim (Bool-cases (mem_text (module_name item) normalized)) [
            | inl y ↦
                normalize_from-allowed normalized rest r (rw (e, m, y, normalize_from) at h) d a
            | inr n ↦
                normalize_from-allowed (normalized ++ (module_name item ∷ [])) rest r
                  (rw (e, m, n, normalize_from) at h)
                  (distinct-append normalized (module_name item) d n)
                  (All-append normalized (module_name item) a m)
          ]
        ]
      ]

  normalize_from-mem :
      (normalized items r : List Text) (t : Text)
      → normalize_from catalog allowed normalized items ≡ returned r
      → mem_text t r ≡ (mem_text t normalized || mem_text t (map module_name items))
  unfolding normalize_from mem_text
  normalize_from-mem normalized [] r t h =
      let same : normalized ≡ r = cc in rw (sym same) (ground arith)
  normalize_from-mem normalized (item ∷ rest) r t h =
      elim (Option-cases (module_by_name (module_name item) catalog)) [
        | inl e ↦ ground arith
        | inr (x, e) ↦ elim (Bool-cases (mem_text (module_name item) allowed)) [
          | inr n ↦ ground arith
          | inl m ↦ elim (Bool-cases (mem_text (module_name item) normalized)) [
            | inl y ↦
                let rest_mem =
                  normalize_from-mem normalized rest r t (rw (e, m, y, normalize_from) at h) in
                elim (Bool-cases (text_eq t (module_name item))) [
                  | inr q ↦ ground arith
                  | inl q ↦
                      let seen : mem_text t normalized ≡ true =
                        subst (λ z. mem_text z normalized ≡ true)
                          (sym ((text_eq_iff t (module_name item)).0 q)) y in
                      ground arith
                ]
            | inr n ↦
                normalize_from-mem (normalized ++ (module_name item ∷ [])) rest r t
                  (rw (e, m, n, normalize_from) at h)
                ∙ ground (arith, mem-append t normalized (module_name item ∷ []))
          ]
        ]
      ]

-- Where the modules of a request are accepted, the list has each module once, its modules are those of
-- the profile, and they are the ones that were asked for, without the case of letters and outer spaces.
pub normalize_modules-requested :
    (catalog : List Descriptor) (profile item : Text) (rest r : List Text) (t : Text)
    → normalize_modules catalog profile (some (item ∷ rest)) ≡ returned r
    → ((distinct r ≡ true) × All (λ t. mem_text t (modules_for_profile catalog profile) ≡ true) r)
      × (mem_text t r ≡ mem_text t (map module_name (item ∷ rest)))
unfolding normalize_modules distinct mem_text
normalize_modules-requested catalog profile item rest r t h =
    let allowed = modules_for_profile catalog profile in
    (
      normalize_from-allowed catalog allowed [] (item ∷ rest) r h refl tt,
      normalize_from-mem catalog allowed [] (item ∷ rest) r t h,
    )
