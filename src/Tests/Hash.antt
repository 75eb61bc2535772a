-- ===== src/Tests/Hash.antt =====
-- Two bodies with their keys in another order.
use earn_defi_nestjs_backend.Base.{◌≡◌, ◌≢◌, ◌↔◌, refl, true, codes, arith}
use earn_defi_nestjs_backend.Idempotency.Hash.{
  Value, Fields, boolean, number, object, end, field, sort_value, stable_stringify, leb_text,
}
use earn_defi_nestjs_backend.Idempotency.Hash.Canonical.{Reordered, fields, swap, sort_value_iff}

abbrev inner : Fields
inner = field (codes "y") (number 12) end

abbrev one : Value
one = object (field (codes "b") (object inner) (field (codes "a") (boolean true) end))

abbrev other : Value
other = object (field (codes "a") (boolean true) (field (codes "b") (object inner) end))

sort_value_iff_example : (sort_value one ≡ sort_value other) ↔ Reordered one other
sort_value_iff_example = sort_value_iff one other

keys_differ : codes "b" ≢ codes "a"
keys_differ e = absurd (ground arith)

other-Reordered : Reordered one other
other-Reordered =
    fields (swap (codes "b") (codes "a") (object inner) (boolean true) end keys_differ)

canonical_text : stable_stringify one ≡ codes "{\"a\":true,\"b\":{\"y\":12}}"
unfolding stable_stringify leb_text
canonical_text = refl
