-- ===== src/Api/CanonicalJson/Order.antt =====
-- The canonical form of an object forgets the order of its members.
use Prim.Native.Nat.{Ordering}
use bevoac_dev.Prelude.{◌≡◌, ◌≢◌, sym, ap, ◌∙◌, List, [], ◌∷◌}
use bevoac_dev.Prelude.Text.{Text}
use bevoac_dev.Prelude.TextOrder.{
  text_cmp, text_cmp-lt, text_cmp_trans, before, same, after, order_of,
}
use bevoac_dev.Api.CanonicalJson.{
  Json, object, Members, no_members, member, insert_member, canonicalize, canonicalize_members,
}

insert_member_comm :
    (k j : Text) (v w : Json) (l : Members)
    → k ≢ j
    → insert_member k v (insert_member j w l) ≡ insert_member j w (insert_member k v l)
unfolding insert_member
insert_member_comm k j v w no_members apart = elim (order_of k j) [
  | before p q ↦ rw (p, q, insert_member)
  | same p q e ↦ absurd (apart e)
  | after p q ↦ rw (p, q, insert_member)
]
insert_member_comm k j v w (member i u l) apart = elim (order_of k i) [
  | before p q ↦ elim (order_of j i) [
    | before r s ↦ elim (order_of k j) [
      | before t o ↦ simp (p, r, t, o, insert_member)
      | same t o e ↦ absurd (apart e)
      | after t o ↦ simp (p, r, t, o, insert_member)
    ]
    | same r s f ↦
        let t : text_cmp k j ≡ Ordering.lt = rw f p in
        let o : text_cmp j k ≡ Ordering.gt = rw f q in simp (p, r, t, o, insert_member)
    | after r s ↦
        let o = text_cmp-lt k j (text_cmp_trans k i j p s) in simp (p, r, o, insert_member)
  ]
  | same p q e ↦ elim (order_of j i) [
    | before r s ↦
        let t : text_cmp j k ≡ Ordering.lt = rw e r in
        let o : text_cmp k j ≡ Ordering.gt = rw e s in simp (p, r, t, o, insert_member)
    | same r s f ↦ absurd (apart (e ∙ sym f))
    | after r s ↦ let t : text_cmp j k ≡ Ordering.gt = rw e r in simp (p, r, t, insert_member)
  ]
  | after p q ↦ elim (order_of j i) [
    | before r s ↦
        let o = text_cmp-lt j k (text_cmp_trans j i k r q) in simp (p, r, o, insert_member)
    | same r s f ↦ let t : text_cmp k j ≡ Ordering.gt = rw f p in simp (p, r, t, insert_member)
    | after r s ↦ simp (p, r, insert_member, insert_member_comm k j v w l apart)
  ]
]

-- members before others
unfoldable pub members_then : List (Text × Json) → Members → Members
members_then [] l = l
members_then ((k, v) ∷ rest) l = member k v (members_then rest l)

canonicalize_members-then :
    (first : List (Text × Json)) (l m : Members)
    → canonicalize_members l ≡ canonicalize_members m
    → canonicalize_members (members_then first l) ≡ canonicalize_members (members_then first m)
unfolding canonicalize members_then
canonicalize_members-then [] l m h = h
canonicalize_members-then ((k, v) ∷ rest) l m h =
    ap (insert_member k (canonicalize v)) (canonicalize_members-then rest l m h)

-- The canonical form of an object does not depend on the order of its members: two neighbours with
-- different keys may be exchanged, wherever they stand.
pub canonicalize-swap :
    (first : List (Text × Json)) (k j : Text) (v w : Json) (l : Members)
    → k ≢ j
    → canonicalize (object (members_then first (member k v (member j w l))))
      ≡ canonicalize (object (members_then first (member j w (member k v l))))
unfolding canonicalize
canonicalize-swap first k j v w l apart = ap object (
    canonicalize_members-then first _ _
      (insert_member_comm k j (canonicalize v) (canonicalize w) (canonicalize_members l) apart))
