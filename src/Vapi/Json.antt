-- ===== src/Vapi/Json.antt =====
-- Parsed JSON, and the reads that Python makes of it. Numbers are natural numbers.
use vapivoiceassistant.Prelude.{
  ℕ, String, ◌≡◌, refl, Bool, true, false, not, Option, none, some, ◌==◌, eqb, if◌then◌else◌,
}

mutual
  pub data Json : Type 0 where
    null : Json
    bool : Bool → Json
    num : ℕ → Json
    text : String → Json
    list : Items → Json
    dict : Fields → Json

  pub data Items : Type 0 where
    nil : Items
    cons : Json → Items → Items

  -- A dict with text keys; the first entry with a key counts.
  pub data Fields : Type 0 where
    end : Fields
    field : String → Json → Fields → Fields

-- `args.get(key)`
unfoldable pub get : String → Fields → Option Json
get key end = none
get key (field k v fs) = if k == key then some v else get key fs

-- The dict with one more entry, which hides an older one of the key.
unfoldable pub set : String → Json → Fields → Fields
set key v fs = field key v fs

pub get-set :
    (key k : String) (v : Json) (fs : Fields)
    → get key (set k v fs) ≡ (if k == key then some v else get key fs)
unfolding get set
get-set key k v fs = refl

-- `value in (None, "")`
abbrev pub is_absent : Option Json → Bool
is_absent none = true
is_absent (some null) = true
is_absent (some (text s)) = s == ""
is_absent (some (bool b)) = false
is_absent (some (num n)) = false
is_absent (some (list xs)) = false
is_absent (some (dict fs)) = false

-- `bool(value)`
abbrev pub is_truthy : Option Json → Bool
is_truthy none = false
is_truthy (some null) = false
is_truthy (some (bool b)) = b
is_truthy (some (num n)) = not (eqb n 0)
is_truthy (some (text s)) = not (s == "")
is_truthy (some (list nil)) = false
is_truthy (some (list (cons x xs))) = true
is_truthy (some (dict end)) = false
is_truthy (some (dict (field k v fs))) = true

-- `value is True`
abbrev pub is_true : Option Json → Bool
is_true (some (bool true)) = true
is_true (some (bool false)) = false
is_true none = false
is_true (some null) = false
is_true (some (num n)) = false
is_true (some (text s)) = false
is_true (some (list xs)) = false
is_true (some (dict fs)) = false

-- `args.get(key)` as a value, where a missing one is `None`.
abbrev pub or_null : Option Json → Json
or_null none = null
or_null (some v) = v

-- `args.get(key, default)`
abbrev pub or_text : Option Json → String → Json
or_text none s = text s
or_text (some v) s = v
