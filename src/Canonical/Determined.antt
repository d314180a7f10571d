-- ===== src/Canonical/Determined.antt =====
-- The writer of canonical_json.go and the order in which Go visits a map.
use npvtunnel_creator_server.Base.{◌≡◌, ◌≢◌, refl, ap₂, ◌∙◌, List, [], ◌∷◌, Text, arith}
use npvtunnel_creator_server.Base.Order.{text_less_asymm, text_less_trans, text_less_total}
use npvtunnel_creator_server.Canonical.{
  Json, Items, Fields, arr, obj, nil, cons, field, Written, insert_entry, sort_entries,
  write_canonical, write_items, write_fields, canonical_json,
}

-- One value, with each of its objects visited in another order: two entries with different keys
-- change places.
mutual
  pub data Same : Json → Json → Type 0 where
    same : (v : Json) → Same v v
    items : {xs ys : Items} → SameItems xs ys → Same (arr xs) (arr ys)
    fields : {fs gs : Fields} → SameFields fs gs → Same (obj fs) (obj gs)

  pub data SameItems : Items → Items → Type 0 where
    none_left : SameItems nil nil
    each :
        {x y : Json} {xs ys : Items}
        → Same x y
        → SameItems xs ys
        → SameItems (cons x xs) (cons y ys)

  pub data SameFields : Fields → Fields → Type 0 where
    stay : (fs : Fields) → SameFields fs fs
    below :
        {v w : Json} {fs gs : Fields} (k : Text)
        → Same v w
        → SameFields fs gs
        → SameFields (field k v fs) (field k w gs)
    swap :
        (j k : Text) (v w : Json) (fs : Fields)
        → j ≢ k
        → SameFields (field j v (field k w fs)) (field k w (field j v fs))
    then_on : {fs gs hs : Fields} → SameFields fs gs → SameFields gs hs → SameFields fs hs

insert-insert :
    (j k : Text) (v w : Written) (es : List (Text × Written))
    → j ≢ k
    → insert_entry (j, v) (insert_entry (k, w) es) ≡ insert_entry (k, w) (insert_entry (j, v) es)
unfolding insert_entry
insert-insert j k v w [] ne = ground (arith, text_less_asymm j k, text_less_total j k ne)
insert-insert j k v w ((i, u) ∷ es) ne = ground (
  arith,
  text_less_asymm j k,
  text_less_total j k ne,
  text_less_trans j k i,
  text_less_trans k j i,
  insert-insert j k v w es ne,
)

mutual
  unfolding write_canonical write_items write_fields sort_entries

  write-Same : {v w : Json} → Same v w → write_canonical v ≡ write_canonical w
  write-Same (same v) = refl
  write-Same (items s) = rw (write_items-Same s) refl
  write-Same (fields s) = rw (write_fields-Same s) refl

  write_items-Same : {xs ys : Items} → SameItems xs ys → write_items xs ≡ write_items ys
  write_items-Same none_left = refl
  write_items-Same (each s r) = ap₂ (◌∷◌) (write-Same s) (write_items-Same r)

  write_fields-Same :
      {fs gs : Fields}
      → SameFields fs gs
      → sort_entries (write_fields fs) ≡ sort_entries (write_fields gs)
  write_fields-Same (stay fs) = refl
  write_fields-Same (below k s r) =
      ap₂ (λ x es. insert_entry (k, x) es) (write-Same s) (write_fields-Same r)
  write_fields-Same (swap j k v w fs ne) =
      insert-insert j k (write_canonical v) (write_canonical w) (sort_entries (write_fields fs)) ne
  write_fields-Same (then_on s r) = write_fields-Same s ∙ write_fields-Same r

-- The bytes, or the error, do not depend on the order in which the objects within a value are
-- visited.
pub canonical_json-Same : {v w : Json} → Same v w → canonical_json v ≡ canonical_json w
unfolding canonical_json
canonical_json-Same s = write-Same s
