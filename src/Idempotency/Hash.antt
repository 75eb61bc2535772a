-- ===== src/Idempotency/Hash.antt =====
-- idempotency/utils/request-hash.util.ts: the text of a request of which the hash is taken, with the
-- keys of every object in order. Keys that read as array indices, which JavaScript moves to the
-- front of an object, are not told apart. SHA-256 is a parameter.
pub mod Order
pub mod Canonical
use Prim.Native.String.{String}
use earn_defi_nestjs_backend.Base.{
  ℕ, ◌+◌, ◌/◌, ◌%◌, ltb, ◌==◌, if◌then◌else◌, Bool, true, false, ◌&&◌, ◌||◌, Option, none, some, [],
  ◌∷◌, ◌++◌, Text, codes, to_string,
}

-- A value of `JSON.parse`; a number is a natural one, which is all that the DTOs let through.
mutual
  pub data Value : Type 0 where
    null : Value
    boolean : Bool → Value
    number : ℕ → Value
    string : Text → Value
    array : Items → Value
    object : Fields → Value

  pub data Items : Type 0 where
    nil : Items
    item : Value → Items → Items

  pub data Fields : Type 0 where
    end : Fields
    field : Text → Value → Fields → Fields

-- The order of `Array.prototype.sort` on texts, by their code units.
unfoldable pub leb_text : Text → Text → Bool
leb_text [] t = true
leb_text (c ∷ cs) [] = false
leb_text (c ∷ cs) (d ∷ ds) = ltb c d || c == d && leb_text cs ds

unfoldable pub insert_field : Text → Value → Fields → Fields
insert_field k v end = field k v end
insert_field k v (field j w fs) =
    let rest = insert_field k v fs in
    if leb_text k j then field k v (field j w fs) else field j w rest

unfoldable mutual
  unfolding insert_field

  pub sort_value : Value → Value
  sort_value null = null
  sort_value (boolean b) = boolean b
  sort_value (number n) = number n
  sort_value (string t) = string t
  sort_value (array xs) = array (sort_items xs)
  sort_value (object fs) = object (sort_fields fs)

  pub sort_items : Items → Items
  sort_items nil = nil
  sort_items (item v xs) = item (sort_value v) (sort_items xs)

  pub sort_fields : Fields → Fields
  sort_fields end = end
  sort_fields (field k v fs) = insert_field k (sort_value v) (sort_fields fs)

abbrev pub hex_digit : ℕ → ℕ
hex_digit n = if ltb n 10 then 48 + n else 87 + n

-- A quotation mark, a backslash and the control characters are escaped.
abbrev pub escaped : ℕ → Text
escaped c =
    if c == 34 || c == 92
    then 92 ∷ c ∷ []
    else if ltb c 32
    then 92 ∷ 117 ∷ 48 ∷ 48 ∷ hex_digit (c / 16) ∷ hex_digit (c % 16) ∷ []
    else c ∷ []

unfoldable pub quoted_rest : Text → Text
quoted_rest [] = 34 ∷ []
quoted_rest (c ∷ cs) = escaped c ++ quoted_rest cs

abbrev pub quoted : Text → Text
quoted t = 34 ∷ quoted_rest t

abbrev pub boolean_text : Bool → Text
boolean_text true = codes "true"
boolean_text false = codes "false"

-- `JSON.stringify`
unfoldable mutual
  unfolding quoted_rest to_string

  pub stringify : Value → Text
  stringify null = codes "null"
  stringify (boolean b) = boolean_text b
  stringify (number n) = codes (to_string n)
  stringify (string t) = quoted t
  stringify (array nil) = codes "[]"
  stringify (array (item v xs)) = 91 ∷ (stringify v ++ stringify_items xs)
  stringify (object end) = codes "{}"
  stringify (object (field k v fs)) =
      123 ∷ (quoted k ++ (58 ∷ (stringify v ++ stringify_fields fs)))

  pub stringify_items : Items → Text
  stringify_items nil = 93 ∷ []
  stringify_items (item v xs) = 44 ∷ (stringify v ++ stringify_items xs)

  pub stringify_fields : Fields → Text
  stringify_fields end = 125 ∷ []
  stringify_fields (field k v fs) = 44 ∷ (quoted k ++ (58 ∷ (stringify v ++ stringify_fields fs)))

unfoldable pub stable_stringify : Value → Text
unfolding sort_value stringify
stable_stringify v = stringify (sort_value v)

unfoldable pub hash_request : (Text → Text) → Value → Text
unfolding stable_stringify
hash_request sha256_hex fingerprint = sha256_hex (stable_stringify fingerprint)
