-- ===== src/Api/CanonicalJson.antt =====
-- lib/canonical-json.js of the API: the canonical form of a JSON value. Numbers are natural, keys are
-- no array indices (which an object would list first), and an object has each key once.
pub mod Order
use Prim.Native.Nat.{Ordering}
use bevoac_dev.Prelude.{ℕ, Bool, true, false}
use bevoac_dev.Prelude.Text.{Text}
use bevoac_dev.Prelude.TextOrder.{text_cmp}

mutual
  pub data Json : Type 0 where
    undefined_value null_value : Json
    boolean : Bool → Json
    number : ℕ → Json
    string : Text → Json
    array : Items → Json
    object : Members → Json

  pub data Items : Type 0 where
    no_items : Items
    item : Json → Items → Items

  pub data Members : Type 0 where
    no_members : Members
    member : Text → Json → Members → Members

-- a member into members that are sorted by their keys
unfoldable pub insert_member : Text → Json → Members → Members
insert_member k v no_members = member k v no_members
insert_member k v (member j w rest) =
    let later = insert_member k v rest in
    elim (text_cmp k j) [ Ordering.gt ↦ member j w later | _ ↦ member k v (member j w rest) ]

unfoldable mutual
  unfolding insert_member

  pub canonicalize : Json → Json
  canonicalize undefined_value = null_value
  canonicalize (array items) = array (canonicalize_items items)
  canonicalize (object members) = object (canonicalize_members members)
  canonicalize v = v

  pub canonicalize_items : Items → Items
  canonicalize_items no_items = no_items
  canonicalize_items (item v rest) = item (canonicalize v) (canonicalize_items rest)

  pub canonicalize_members : Members → Members
  canonicalize_members no_members = no_members
  canonicalize_members (member k v rest) =
      insert_member k (canonicalize v) (canonicalize_members rest)

-- `sha256Canonical`: `JSON.stringify` and the hash of Node are the parameter
unfoldable pub sha256_canonical : (stringify_and_hash : Json → Text) → Json → Text
unfolding canonicalize
sha256_canonical stringify_and_hash value = stringify_and_hash (canonicalize value)
