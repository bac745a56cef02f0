-- ===== src/Worker/NetworkGuard/Ranges.antt =====
-- What the guard blocks, against what the API calls private.
use bevoac_dev.Prelude.{
  ℕ, zero, suc, ◌+◌, ◌*◌, ◌/◌, ◌%◌, ◌≤◌, ◌<◌, ◌≡◌, refl, ap, ◌∙◌, inl, inr, Bool, true, false, ◌&&◌,
  ◌||◌, List, [], ◌∷◌, ◌++◌, ltb, ◌==◌, any, all, arith, ==_iff, Bool-cases,
}
use bevoac_dev.Prelude.Text.{Text, text, text_eq, text_eq_iff, mem_text, decimal, decimal_from}
use bevoac_dev.Api.Hosts.{split_dots, number_from, is_private_ipv4}
use bevoac_dev.Api.Hosts.Dots.{is_plain, split_dots-four}
use bevoac_dev.Worker.NetworkGuard.{
  blocked_exact_ipv4, push_octet, octets_to_int, numbers_of, ipv4_to_int, masked, ipv4_in_cidr,
  blocked_ipv4_ranges, is_blocked_ipv4,
}

number_from-decimal_from :
    (fuel n : ℕ) (acc : Text)
    → n < fuel
    → number_from 0 (decimal_from fuel n acc) ≡ number_from n acc
unfolding decimal_from number_from
number_from-decimal_from zero n acc h = absurd (omega arith)
number_from-decimal_from (suc fuel) n acc h = elim (Bool-cases (ltb n 10)) [
  | inl small ↦ rw (small, decimal_from) (ap (λ k. number_from k acc) (omega arith))
  | inr big ↦
      rw (big, decimal_from)
        (number_from-decimal_from fuel (n / 10) ((48 + n % 10) ∷ acc) (ground arith)
          ∙ ap (λ k. number_from k acc) (ground arith))
]

-- `Number` reads back what a number is printed as.
number_from-decimal : (n : ℕ) → number_from 0 (decimal n) ≡ n
unfolding decimal number_from
number_from-decimal n = number_from-decimal_from (suc n) n [] (omega arith)

decimal_from-plain :
    (fuel n : ℕ) (acc : Text)
    → all is_plain acc ≡ true
    → all is_plain (decimal_from fuel n acc) ≡ true
unfolding decimal_from
decimal_from-plain zero n acc h = h
decimal_from-plain (suc fuel) n acc h =
    let rest = decimal_from-plain fuel (n / 10) ((48 + n % 10) ∷ acc) (ground arith) in
    elim (Bool-cases (ltb n 10)) [
      | inl small ↦ rw (small, decimal_from) (ground arith)
      | inr big ↦ rw (big, decimal_from) rest
    ]

decimal-plain : (n : ℕ) → all is_plain (decimal n) ≡ true
unfolding decimal
decimal-plain n = decimal_from-plain (suc n) n [] refl

-- the text of an IPv4 address
unfoldable pub dotted : (a b c d : ℕ) → Text
unfolding decimal
dotted a b c d = decimal a ++ (b'.' ∷ (decimal b ++ (b'.' ∷ (decimal c ++ (b'.' ∷ decimal d)))))

ipv4_to_int-dotted :
    (a b c d : ℕ) → ipv4_to_int (dotted a b c d) ≡ octets_to_int 0 (a ∷ (b ∷ (c ∷ (d ∷ []))))
unfolding ipv4_to_int dotted numbers_of
ipv4_to_int-dotted a b c d =
    rw
      (
        split_dots-four (decimal a) (decimal b) (decimal c) (decimal d) (decimal-plain a)
            (decimal-plain b) (decimal-plain c) (decimal-plain d),
        numbers_of,
        number_from-decimal a,
        number_from-decimal b,
        number_from-decimal c,
        number_from-decimal d,
      )
      refl

-- The number of an address whose octets are below 256.
octets_to_int-value :
    (a b c d : ℕ)
    → a < 256
    → b < 256
    → c < 256
    → d < 256
    → octets_to_int 0 (a ∷ (b ∷ (c ∷ (d ∷ [])))) ≡ a * 16777216 + b * 65536 + c * 256 + d
unfolding octets_to_int push_octet
octets_to_int-value a b c d p q r s = omega arith

or-true : (x : Bool) → (x || true) ≡ true
or-true true = refl
or-true false = refl

and-true : (x y : Bool) → (x && y) ≡ true → (x ≡ true) × (y ≡ true)
and-true true y h = (refl, h)
and-true false y h = cc

any-implies :
    (f g : Text × ℕ → Bool) (l : List (Text × ℕ))
    → ((x : Text × ℕ) → g x ≡ true → f x ≡ true)
    → any g l ≡ true
    → any f l ≡ true
any-implies f g [] h k = k
any-implies f g (x ∷ l) h k = elim (Bool-cases (g x)) [
  | inl y ↦ ground (arith, h x y)
  | inr n ↦ ground (arith, any-implies f g l h (ground arith))
]

module _ (a b c d : ℕ) (p : a < 256) (q : b < 256) (r : c < 256) (s : d < 256) where
  value-dotted : ipv4_to_int (dotted a b c d) ≡ a * 16777216 + b * 65536 + c * 256 + d
  value-dotted = ipv4_to_int-dotted a b c d ∙ octets_to_int-value a b c d p q r s

  -- a range with a first octet
  in_first :
      (base : Text) → ipv4_to_int base ≡ a * 16777216 → ipv4_in_cidr (dotted a b c d) base 8 ≡ true
  unfolding ipv4_in_cidr masked
  in_first base h = rw (value-dotted, h) (ground arith)

  -- a range with two first octets
  in_second :
      (base : Text)
      → ipv4_to_int base ≡ a * 16777216 + b * 65536
      → ipv4_in_cidr (dotted a b c d) base 16 ≡ true
  unfolding ipv4_in_cidr masked
  in_second base h = rw (value-dotted, h) (ground arith)

  in_172 :
      (base : Text)
      → ipv4_to_int base ≡ 2886729728
      → a ≡ 172
      → 16 ≤ b
      → b ≤ 31
      → ipv4_in_cidr (dotted a b c d) base 12 ≡ true
  unfolding ipv4_in_cidr masked
  in_172 base h e i j = rw (value-dotted, h) (ground arith)

  -- a range of the list that has the address
  blocked_by :
      (base : Text) (prefix : ℕ)
      → any (λ x. text_eq x.0 base && x.1 == prefix) blocked_ipv4_ranges ≡ true
      → ipv4_in_cidr (dotted a b c d) base prefix ≡ true
      → is_blocked_ipv4 (dotted a b c d) ≡ true
  unfolding is_blocked_ipv4
  blocked_by base prefix h i =
      let ip = dotted a b c d in
      let ranged =
        any-implies (λ x. ipv4_in_cidr ip x.0 x.1) (λ x. text_eq x.0 base && x.1 == prefix)
          blocked_ipv4_ranges
          (λ x k.
            let (same, size) = and-true (text_eq x.0 base) (x.1 == prefix) k in
            rw ((text_eq_iff x.0 base).0 same, (==_iff x.1 prefix).0 size) i)
          h in
      rw (ranged, is_blocked_ipv4) (or-true (mem_text ip blocked_exact_ipv4))

  -- An address that the API of the service calls private, by its first two octets, is blocked by the
  -- guard of the worker.
  pub is_blocked_ipv4-private : is_private_ipv4 a b ≡ true → is_blocked_ipv4 (dotted a b c d) ≡ true
  unfolding is_private_ipv4 ipv4_to_int numbers_of octets_to_int push_octet number_from split_dots
      text_eq
  is_blocked_ipv4-private h = elim (Bool-cases (a == 10)) [
    | inl e ↦ blocked_by (text "10.0.0.0") 8 refl (in_first (text "10.0.0.0") (ground arith))
    | inr n ↦ elim (Bool-cases (a == 127)) [
      | inl e ↦ blocked_by (text "127.0.0.0") 8 refl (in_first (text "127.0.0.0") (ground arith))
      | inr n' ↦ elim (Bool-cases (a == 0)) [
        | inl e ↦ blocked_by (text "0.0.0.0") 8 refl (in_first (text "0.0.0.0") (ground arith))
        | inr n'' ↦ elim (Bool-cases (a == 169)) [
          | inl e ↦
              blocked_by (text "169.254.0.0") 16 refl
                (in_second (text "169.254.0.0") (ground arith))
          | inr m ↦ elim (Bool-cases (a == 192)) [
            | inl e ↦
                blocked_by (text "192.168.0.0") 16 refl
                  (in_second (text "192.168.0.0") (ground arith))
            | inr m' ↦
                blocked_by (text "172.16.0.0") 12 refl
                  (in_172 (text "172.16.0.0") refl (ground arith) (ground arith) (ground arith))
          ]
        ]
      ]
    ]
  ]
