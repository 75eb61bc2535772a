-- ===== src/Idempotency/Hash/Canonical.antt =====
-- request-hash.util.ts: the sorted value is one and the same for all orders of the keys, and tells
-- apart everything else.
use earn_defi_nestjs_backend.Base.{
  ◌≡◌, ◌≢◌, ◌↔◌, refl, ap, subst, ◌∙◌, inl, inr, Bool-cases, arith, Text,
}
use mathlib.Core.Path.{sym, ap₂}
use earn_defi_nestjs_backend.Idempotency.Hash.{
  Value, Items, Fields, null, boolean, number, string, array, object, nil, item, end, field,
  leb_text, insert_field, sort_value, sort_items, sort_fields, stable_stringify, hash_request,
}
use earn_defi_nestjs_backend.Idempotency.Hash.Order.{
  leb_text_refl, leb_text_total, leb_text_antisymm, leb_text_trans,
}

-- Two values that differ only in the order of the keys of their objects, at any depth: two fields
-- that stand side by side, with keys that differ, change places.
mutual
  pub data Reordered : Value → Value → Type 0 where
    same : (v : Value) → Reordered v v
    items : {xs ys : Items} → ItemsReordered xs ys → Reordered (array xs) (array ys)
    fields : {fs gs : Fields} → FieldsReordered fs gs → Reordered (object fs) (object gs)

  pub data ItemsReordered : Items → Items → Type 0 where
    no_items : ItemsReordered nil nil
    next_item :
        {v w : Value} {xs ys : Items}
        → Reordered v w
        → ItemsReordered xs ys
        → ItemsReordered (item v xs) (item w ys)

  pub data FieldsReordered : Fields → Fields → Type 0 where
    no_fields : FieldsReordered end end
    next_field :
        {v w : Value} {fs gs : Fields} (k : Text)
        → Reordered v w
        → FieldsReordered fs gs
        → FieldsReordered (field k v fs) (field k w gs)
    swap :
        (k j : Text) (v w : Value) (fs : Fields)
        → k ≢ j
        → FieldsReordered (field k v (field j w fs)) (field j w (field k v fs))
    then_fields :
        {fs gs hs : Fields} → FieldsReordered fs gs → FieldsReordered gs hs → FieldsReordered fs hs

insert_field_swap :
    (k j : Text) (v w : Value) (fs : Fields)
    → k ≢ j
    → insert_field k v (insert_field j w fs) ≡ insert_field j w (insert_field k v fs)
unfolding insert_field
insert_field_swap k j v w end ne = elim (Bool-cases (leb_text k j)) [
  | inl le ↦ elim (Bool-cases (leb_text j k)) [
    | inl ge ↦ absurd (ne (leb_text_antisymm k j le ge))
    | inr gt ↦ rw (le, gt)
  ]
  | inr gt ↦ let ge = leb_text_total k j gt in rw (gt, ge)
]
insert_field_swap k j v w (field i u fs) ne =
    let rest = insert_field_swap k j v w fs ne in
    ground (
      arith,
      rest,
      leb_text_total k j,
      leb_text_total j k,
      leb_text_total k i,
      leb_text_total j i,
      leb_text_antisymm k j,
      leb_text_trans k j i,
      leb_text_trans j k i,
      leb_text_trans k i j,
      leb_text_trans j i k,
    )

mutual
  unfolding sort_value

  sort-Reordered : {v w : Value} → Reordered v w → sort_value v ≡ sort_value w
  sort-Reordered (same v) = refl
  sort-Reordered (items r) = ap array (sort-ItemsReordered r)
  sort-Reordered (fields r) = ap object (sort-FieldsReordered r)

  sort-ItemsReordered : {xs ys : Items} → ItemsReordered xs ys → sort_items xs ≡ sort_items ys
  sort-ItemsReordered no_items = refl
  sort-ItemsReordered (next_item r rs) = ap₂ item (sort-Reordered r) (sort-ItemsReordered rs)

  sort-FieldsReordered : {fs gs : Fields} → FieldsReordered fs gs → sort_fields fs ≡ sort_fields gs
  sort-FieldsReordered no_fields = refl
  sort-FieldsReordered (next_field k r rs) =
      ap₂ (insert_field k) (sort-Reordered r) (sort-FieldsReordered rs)
  sort-FieldsReordered (swap k j v w fs ne) =
      insert_field_swap k j (sort_value v) (sort_value w) (sort_fields fs) ne
  sort-FieldsReordered (then_fields r q) = sort-FieldsReordered r ∙ sort-FieldsReordered q

fields_same : (fs : Fields) → FieldsReordered fs fs
fields_same end = no_fields
fields_same (field k v fs) = next_field k (same v) (fields_same fs)

insert_field-FieldsReordered :
    (k : Text) (v : Value) (fs : Fields) → FieldsReordered (field k v fs) (insert_field k v fs)
unfolding insert_field
insert_field-FieldsReordered k v end = fields_same (field k v end)
insert_field-FieldsReordered k v (field j w fs) = elim (Bool-cases (leb_text k j)) [
  | inl le ↦ rw le (fields_same (field k v (field j w fs)))
  | inr gt ↦
      let ne : k ≢ j = λ e. absurd (ground (arith, leb_text_refl j)) in
      rw gt (
        then_fields (swap k j v w fs ne)
          (next_field j (same w) (insert_field-FieldsReordered k v fs)))
]

mutual
  unfolding sort_value

  Reordered-sort : (v : Value) → Reordered v (sort_value v)
  Reordered-sort null = same null
  Reordered-sort (boolean b) = same (boolean b)
  Reordered-sort (number n) = same (number n)
  Reordered-sort (string t) = same (string t)
  Reordered-sort (array xs) = items (ItemsReordered-sort xs)
  Reordered-sort (object fs) = fields (FieldsReordered-sort fs)

  ItemsReordered-sort : (xs : Items) → ItemsReordered xs (sort_items xs)
  ItemsReordered-sort nil = no_items
  ItemsReordered-sort (item v xs) = next_item (Reordered-sort v) (ItemsReordered-sort xs)

  FieldsReordered-sort : (fs : Fields) → FieldsReordered fs (sort_fields fs)
  FieldsReordered-sort end = no_fields
  FieldsReordered-sort (field k v fs) =
      then_fields (next_field k (Reordered-sort v) (FieldsReordered-sort fs))
        (insert_field-FieldsReordered k (sort_value v) (sort_fields fs))

mutual
  Reordered-sym : {v w : Value} → Reordered v w → Reordered w v
  Reordered-sym (same v) = same v
  Reordered-sym (items r) = items (ItemsReordered-sym r)
  Reordered-sym (fields r) = fields (FieldsReordered-sym r)

  ItemsReordered-sym : {xs ys : Items} → ItemsReordered xs ys → ItemsReordered ys xs
  ItemsReordered-sym no_items = no_items
  ItemsReordered-sym (next_item r rs) = next_item (Reordered-sym r) (ItemsReordered-sym rs)

  FieldsReordered-sym : {fs gs : Fields} → FieldsReordered fs gs → FieldsReordered gs fs
  FieldsReordered-sym no_fields = no_fields
  FieldsReordered-sym (next_field k r rs) = next_field k (Reordered-sym r) (FieldsReordered-sym rs)
  FieldsReordered-sym (swap k j v w fs ne) = swap j k w v fs (λ e. ne (sym e))
  FieldsReordered-sym (then_fields r q) =
      then_fields (FieldsReordered-sym q) (FieldsReordered-sym r)

mutual
  Reordered-trans : {v w u : Value} → Reordered v w → Reordered w u → Reordered v u
  Reordered-trans (same v) q = q
  Reordered-trans (items r) (same _) = items r
  Reordered-trans (items r) (items q) = items (ItemsReordered-trans r q)
  Reordered-trans (fields r) (same _) = fields r
  Reordered-trans (fields r) (fields q) = fields (then_fields r q)

  ItemsReordered-trans :
      {xs ys zs : Items} → ItemsReordered xs ys → ItemsReordered ys zs → ItemsReordered xs zs
  ItemsReordered-trans no_items q = q
  ItemsReordered-trans (next_item r rs) (next_item q qs) =
      next_item (Reordered-trans r q) (ItemsReordered-trans rs qs)

-- Where two requests differ only in the order of the keys of their objects their hashes are the same,
-- whatever the hash function.
pub hash_request-Reordered :
    (sha256_hex : Text → Text) (v w : Value)
    → Reordered v w
    → hash_request sha256_hex v ≡ hash_request sha256_hex w
unfolding hash_request stable_stringify
hash_request-Reordered sha256_hex v w r = rw (sort-Reordered r) refl

-- The sorted value, whose text is hashed, is the same for two requests exactly when these differ at
-- most in the order of the keys of their objects, at any depth.
pub sort_value_iff : (v w : Value) → (sort_value v ≡ sort_value w) ↔ Reordered v w
sort_value_iff v w = (
  λ e.
      Reordered-trans (Reordered-sort v)
        (Reordered-sym (subst (Reordered w) (sym e) (Reordered-sort w))),
  sort-Reordered,
)
