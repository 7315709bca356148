-- ===== src/Sample/Codec.antt =====
-- A concrete codec for the JSON records of the program, for examples. It keeps the text and the
-- number fields of an object; every other value is read back as `null`.
use hayate.Prelude.{
  ℕ, zero, suc, ◌≡◌, refl, ap, ◌∙◌, List, [], ◌∷◌, arith, if◌then◌else◌, ◌==◌, inr, All, and_then,
  Bool-cases, inl,
}
use hayate.Prelude.Text.{Bytes, Text, text_eq}
use hayate.Json.{
  Json, null, bool, number, other_number, string, array, object, Fields, end, field, get_field,
  as_str, as_u64, str_field, u64_field,
}
use hayate.Externals.{IsHexDigit}

-- A text is its characters, each raised by one, and a zero.
abbrev raised : Text → Bytes → Bytes
raised [] rest = 0 ∷ rest
raised (c ∷ t) rest = suc c ∷ raised t rest

abbrev joined : List Text → Bytes
joined [] = []
joined (t ∷ ts) = raised t (joined ts)

abbrev push : ℕ → List Text → List Text
push c [] = []
push c (t ∷ ts) = (c ∷ t) ∷ ts

abbrev split : Bytes → List Text
split [] = []
split (zero ∷ b) = [] ∷ split b
split (suc c ∷ b) = push c (split b)

split-raised : (t : Text) (b : Bytes) → split (raised t b) ≡ t ∷ split b
split-raised [] b = refl
split-raised (c ∷ t) b = rw (split-raised t b)

split-joined : (ts : List Text) → split (joined ts) ≡ ts
split-joined [] = refl
split-joined (t ∷ ts) = split-raised t (joined ts) ∙ ap (λ x. t ∷ x) (split-joined ts)

-- A value of a field as a text.
abbrev value_text : Json → Text
value_text (string s) = 1 ∷ s
value_text (number n) = 0 ∷ n ∷ []
value_text _ = []

abbrev text_value : Text → Json
text_value (suc zero ∷ s) = string s
text_value (zero ∷ n ∷ []) = number n
text_value _ = null

abbrev kept : Json → Json
kept (string s) = string s
kept (number n) = number n
kept _ = null

kept_lem : (j : Json) → text_value (value_text j) ≡ kept j
kept_lem null = refl
kept_lem (bool b) = refl
kept_lem (number n) = refl
kept_lem (other_number n) = refl
kept_lem (string s) = refl
kept_lem (array l) = refl
kept_lem (object fs) = refl

abbrev field_texts : Fields → List Text
field_texts end = []
field_texts (field k v fs) = k ∷ value_text v ∷ field_texts fs

abbrev read_fields : List Text → Fields
read_fields [] = end
read_fields (k ∷ []) = end
read_fields (k ∷ v ∷ ts) = field k (text_value v) (read_fields ts)

abbrev kept_fields : Fields → Fields
kept_fields end = end
kept_fields (field k v fs) = field k (kept v) (kept_fields fs)

read_fields-field_texts : (fs : Fields) → read_fields (field_texts fs) ≡ kept_fields fs
read_fields-field_texts end = refl
read_fields-field_texts (field k v fs) = rw (kept_lem v, read_fields-field_texts fs)

abbrev json_texts : Json → List Text
json_texts (object fs) = [] ∷ field_texts fs
json_texts _ = []

abbrev read_json : List Text → Json
read_json [] = null
read_json (_ ∷ ts) = object (read_fields ts)

abbrev pub write : Json → Bytes
write j = joined (json_texts j)

abbrev pub parse : Bytes → Json
parse b = read_json (split b)

abbrev pub reread : Json → Json
reread (object fs) = object (kept_fields fs)
reread _ = null

read_json_lem : (j : Json) → read_json (json_texts j) ≡ reread j
read_json_lem null = refl
read_json_lem (bool b) = refl
read_json_lem (number n) = refl
read_json_lem (other_number n) = refl
read_json_lem (string s) = refl
read_json_lem (array l) = refl
read_json_lem (object fs) = ap object (read_fields-field_texts fs)

pub parse-write : (j : Json) → parse (write j) ≡ reread j
parse-write j = rw (split-joined (json_texts j)) (read_json_lem j)

str-kept : (j : Json) → as_str (kept j) ≡ as_str j
str-kept null = refl
str-kept (bool b) = refl
str-kept (number n) = refl
str-kept (other_number n) = refl
str-kept (string s) = refl
str-kept (array l) = refl
str-kept (object fs) = refl

u64-kept : (j : Json) → as_u64 (kept j) ≡ as_u64 j
u64-kept null = refl
u64-kept (bool b) = refl
u64-kept (number n) = refl
u64-kept (other_number n) = refl
u64-kept (string s) = refl
u64-kept (array l) = refl
u64-kept (object fs) = refl

str_in_kept :
    (k : Text) (fs : Fields)
    → and_then (get_field k (kept_fields fs)) as_str ≡ and_then (get_field k fs) as_str
str_in_kept k end = refl
str_in_kept k (field j v fs) = elim (Bool-cases (text_eq j k)) [
  | inl same ↦ rw same (str-kept v)
  | inr differ ↦ rw differ (str_in_kept k fs)
]

u64_in_kept :
    (k : Text) (fs : Fields)
    → and_then (get_field k (kept_fields fs)) as_u64 ≡ and_then (get_field k fs) as_u64
u64_in_kept k end = refl
u64_in_kept k (field j v fs) = elim (Bool-cases (text_eq j k)) [
  | inl same ↦ rw same (u64-kept v)
  | inr differ ↦ rw differ (u64_in_kept k fs)
]

pub str_field-reread : (k : Text) (j : Json) → str_field k (reread j) ≡ str_field k j
str_field-reread k null = refl
str_field-reread k (bool b) = refl
str_field-reread k (number n) = refl
str_field-reread k (other_number n) = refl
str_field-reread k (string s) = refl
str_field-reread k (array l) = refl
str_field-reread k (object fs) = str_in_kept k fs

pub u64_field-reread : (k : Text) (j : Json) → u64_field k (reread j) ≡ u64_field k j
u64_field-reread k null = refl
u64_field-reread k (bool b) = refl
u64_field-reread k (number n) = refl
u64_field-reread k (other_number n) = refl
u64_field-reread k (string s) = refl
u64_field-reread k (array l) = refl
u64_field-reread k (object fs) = u64_in_kept k fs

-- A byte in unary, with hexadecimal digits: as many `b` as it counts, and an `a`.
abbrev unary : ℕ → Text → Text
unary zero rest = b'a' ∷ rest
unary (suc n) rest = b'b' ∷ unary n rest

abbrev pub encode : Bytes → Text
encode [] = []
encode (n ∷ b) = unary n (encode b)

abbrev bump : Bytes → Bytes
bump [] = []
bump (n ∷ b) = suc n ∷ b

abbrev pub decode : Text → Bytes
decode [] = []
decode (c ∷ t) = if c == b'a' then 0 ∷ decode t else bump (decode t)

decode-unary : (n : ℕ) (t : Text) → decode (unary n t) ≡ n ∷ decode t
decode-unary zero t = refl
decode-unary (suc n) t = rw (decode-unary n t)

pub decode-encode : (b : Bytes) → decode (encode b) ≡ b
decode-encode [] = refl
decode-encode (n ∷ b) = decode-unary n (encode b) ∙ ap (λ x. n ∷ x) (decode-encode b)

All-unary : (n : ℕ) (t : Text) → All IsHexDigit t → All IsHexDigit (unary n t)
All-unary zero t h = (inr (omega arith, omega arith), h)
All-unary (suc n) t h = (inr (omega arith, omega arith), All-unary n t h)

pub All-encode : (b : Bytes) → All IsHexDigit (encode b)
All-encode [] = tt
All-encode (n ∷ b) = All-unary n (encode b) (All-encode b)
