-- ===== src/Canonical.antt =====
-- canonical_json.go: the one serialisation of a generic JSON value. An object is its entries in the
-- order in which Go happens to visit the map.
pub mod Determined
use npvtunnel_creator_server.Base.{
  ℕ, zero, suc, ◌+◌, ◌-◌, ◌/◌, ◌%◌, Bool, true, false, ◌&&◌, ◌||◌, List, [], ◌∷◌, ◌++◌, Text, text,
  if◌then◌else◌, ltb, leb, ◌==◌, map, ℤ, decimal_int,
}
use npvtunnel_creator_server.Base.Runes.{runes, concat}
use npvtunnel_creator_server.Base.Order.{text_less}

-- The values of an `any`: those that decoding gives (`json.Number` is its text), Go's integers, a
-- float64, and any other type.
mutual
  pub data Json : Type 0 where
    null : Json
    bool : Bool → Json
    str : Text → Json
    number : Text → Json
    int : ℤ → Json
    float : Json
    arr : Items → Json
    obj : Fields → Json
    unsupported : Json

  pub data Items : Type 0 where
    nil : Items
    cons : Json → Items → Items

  pub data Fields : Type 0 where
    end : Fields
    field : Text → Json → Fields → Fields

abbrev backslash : ℕ → Text
backslash c = b'\\' ∷ c ∷ []

abbrev hex_digit : ℕ → ℕ
hex_digit n = if ltb n 10 then n + b'0' else n - 10 + b'a'

-- What an ASCII character is written as.
unfoldable pub escaped : ℕ → Text
escaped c =
    if c == b'"'
    then backslash b'"'
    else if c == b'\\'
    then backslash b'\\'
    else if c == 8
    then backslash b'b'
    else if c == 12
    then backslash b'f'
    else if c == 10
    then backslash b'n'
    else if c == 13
    then backslash b'r'
    else if c == 9
    then backslash b't'
    else if ltb c 0x20
    then text "\\u00" ++ (hex_digit (c / 16) ∷ hex_digit (c % 16) ∷ [])
    else c ∷ []

-- A rune, as its bytes.
abbrev write_rune : Text → Text
write_rune (c ∷ []) = escaped c
write_rune r = r

unfoldable pub write_canonical_string : Text → Text
write_canonical_string s = b'"' ∷ (concat (map write_rune (runes s)) ++ text "\"")

-- The bytes, or the error that ends the writing.
pub data Written : Type 0 where
  bytes : Text → Written
  float_error type_error : Written

abbrev after : Text → Written → Written
after front (bytes t) = bytes (front ++ t)
after front float_error = float_error
after front type_error = type_error

abbrev and_then : Written → (Text → Written) → Written
and_then (bytes t) next = next t
and_then float_error next = float_error
and_then type_error next = type_error

-- The loop that writes values with commas between them.
unfoldable pub joined : List Written → Written
joined [] = bytes []
joined (w ∷ []) = w
joined (w ∷ v ∷ ws) = and_then w (λ t. after (t ++ text ",") (joined (v ∷ ws)))

abbrev Entry : Type 0
Entry = Text × Written

unfoldable pub insert_entry : Entry → List Entry → List Entry
insert_entry e [] = e ∷ []
insert_entry e (f ∷ es) = if text_less e.0 f.0 then e ∷ f ∷ es else f ∷ insert_entry e es

-- `sort.Strings` on the keys, each with what its value is written as.
unfoldable pub sort_entries : List Entry → List Entry
sort_entries [] = []
sort_entries (e ∷ es) = insert_entry e (sort_entries es)

abbrev write_entry : Entry → Written
write_entry (k, w) = after (write_canonical_string k ++ text ":") w

abbrev enclosed : Text → Text → Written → Written
enclosed front back w = and_then w (λ t. bytes (front ++ t ++ back))

abbrev write_bool : Bool → Text
write_bool true = text "true"
write_bool false = text "false"

unfoldable mutual
  pub write_canonical : Json → Written
  write_canonical null = bytes (text "null")
  write_canonical (bool b) = bytes (write_bool b)
  write_canonical (str s) = bytes (write_canonical_string s)
  write_canonical (number t) = bytes t
  write_canonical (int n) = bytes (decimal_int n)
  write_canonical float = float_error
  write_canonical (arr xs) = enclosed (text "[") (text "]") (joined (write_items xs))
  write_canonical (obj fs) =
      enclosed (text "{") (text "}") (joined (map write_entry (sort_entries (write_fields fs))))
  write_canonical unsupported = type_error

  pub write_items : Items → List Written
  write_items nil = []
  write_items (cons x xs) = write_canonical x ∷ write_items xs

  pub write_fields : Fields → List Entry
  write_fields end = []
  write_fields (field k v fs) = (k, write_canonical v) ∷ write_fields fs

-- `canonicalJSON`
unfoldable pub canonical_json : Json → Written
canonical_json v = write_canonical v
