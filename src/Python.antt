-- ===== src/Python.antt =====
-- The Python values that the backend keeps in its JSON files, and what it takes from CPython's
-- standard library.
use Prim.Native.String.{◌++◌}
use live_photo_llm.Prelude.{
  ℕ, String, Bool, true, false, Option, none, some, List, [], ◌∷◌, ◌≡◌, refl, str_eq, arith, eq_iff,
  if◌then◌else◌, ◌==◌, ◌||◌, not,
}

-- What `json.loads` returns. A float is kept as the text that stands for it.
mutual
  pub data Json : Type 0 where
    null : Json
    bool : Bool → Json
    int : ℕ → Json
    float : String → Json
    text : String → Json
    arr : Items → Json
    obj : Fields → Json

  pub data Items : Type 0 where
    nil : Items
    cons : Json → Items → Items

  pub data Fields : Type 0 where
    end : Fields
    field : String → Json → Fields → Fields

-- `d.get(k)`: a missing key gives None, which is also what `null` is read as.
unfoldable pub get : String → Fields → Json
get k end = null
get k (field j v f) = if str_eq j k then v else get k f

-- `k in d`
unfoldable pub has_key : String → Fields → Bool
has_key k end = false
has_key k (field j v f) = str_eq j k || has_key k f

-- `d.get(k, default)`
unfoldable pub get_or : String → Json → Fields → Json
get_or k d f = if has_key k f then get k f else d

-- `d[k] = v`
unfoldable pub set : String → Json → Fields → Fields
set k v end = field k v end
set k v (field j w f) = if str_eq j k then field k v f else field j w (set k v f)

-- `isinstance(v, str)`, with the text
abbrev pub as_text : Json → Option String
as_text (text s) = some s
as_text _ = none

-- `isinstance(v, dict)`, with the fields
abbrev pub as_fields : Json → Option Fields
as_fields (obj f) = some f
as_fields _ = none

-- `v if isinstance(v, list) else []`
abbrev pub list_or_empty : Json → Items
list_or_empty (arr xs) = xs
list_or_empty _ = nil

-- `v == s` for a text `s`
abbrev pub eq_text : Json → String → Bool
eq_text (text a) s = str_eq a s
eq_text _ s = false

-- `v in names` for texts
abbrev pub text_in : Json → List String → Bool
text_in v [] = false
text_in v (n ∷ ns) = eq_text v n || text_in v ns

-- `s in xs` for a text `s`
unfoldable pub contains_text : String → Items → Bool
contains_text s nil = false
contains_text s (cons x xs) = eq_text x s || contains_text s xs

-- `xs.append(v)`
unfoldable pub snoc : Json → Items → Items
snoc v nil = cons v nil
snoc v (cons x xs) = cons x (snoc v xs)

unfoldable pub count_items : Items → ℕ
count_items nil = 0
count_items (cons x xs) = Prim.Native.Nat.suc (count_items xs)

-- The characters of a text, one text each.
abbrev pub characters : String → Items
characters String.[] = nil
characters (String.◌∷◌ c s) = cons (text (String.◌∷◌ c String.[])) (characters s)

-- `list(d)` of a dict: its keys
abbrev pub keys : Fields → Items
keys end = nil
keys (field k v f) = cons (text k) (keys f)

-- `list(v)`; `none` stands for TypeError.
abbrev pub list_of : Json → Option Items
list_of (arr xs) = some xs
list_of (text s) = some (characters s)
list_of (obj f) = some (keys f)
list_of _ = none

-- `None` for a missing text
abbrev pub option_text : Option String → Json
option_text none = null
option_text (some s) = text s

abbrev pub Bytes : Type 0
Bytes = List ℕ

-- CPython's library, as far as the backend calls it. Digests are texts, an instant is a number of
-- microseconds.
pub record Env : Type 0 where
  pub sha256_hex : Bytes → String
  pub encode : String → Bytes
  pub loads : Bytes → Option Json
  pub dumps : Fields → Bytes
  pub repr : Json → String
  pub parse_int : Json → Option ℕ
  pub float_is_zero : String → Bool
  pub isoformat : ℕ → String
  pub fromisoformat : String → Option ℕ
  pub base64 : Bytes → String
  pub lower : String → String
  pub environ : String → String

module _ (env : Env) where
  -- `str(v)`
  abbrev pub str_of : Json → String
  str_of (text s) = s
  str_of v = env.repr v

  -- `int(v)`; `none` stands for ValueError and TypeError.
  abbrev pub int_of : Json → Option ℕ
  int_of (int n) = some n
  int_of v = env.parse_int v

  -- `bool(v)`
  abbrev pub truthy : Json → Bool
  truthy null = false
  truthy (bool b) = b
  truthy (int n) = not (n == 0)
  truthy (float f) = not (env.float_is_zero f)
  truthy (text s) = not (str_eq s "")
  truthy (arr nil) = false
  truthy (arr (cons _ _)) = true
  truthy (obj end) = false
  truthy (obj (field _ _ _)) = true

-- `f"{a}:{b}"`
abbrev pub join_colon : String → String → String
join_colon a b = a ++ ":" ++ b

pub get-set :
    (k j : String) (v : Json) (f : Fields) → get j (set k v f) ≡ (if str_eq k j then v else get j f)
unfolding get set
get-set k j v end = refl
get-set k j v (field i w f) = ground (arith, eq_iff k j, eq_iff i k, eq_iff i j, get-set k j v f)

pub has_key-set :
    (k j : String) (v : Json) (f : Fields)
    → has_key j (set k v f) ≡ (if str_eq k j then true else has_key j f)
unfolding has_key set
has_key-set k j v end = ground arith
has_key-set k j v (field i w f) =
    ground (arith, eq_iff k j, eq_iff i k, eq_iff i j, has_key-set k j v f)

pub contains_text-snoc :
    (s a : String) (xs : Items)
    → contains_text s (snoc (text a) xs) ≡ (str_eq a s || contains_text s xs)
unfolding contains_text snoc
contains_text-snoc s a nil = ground arith
contains_text-snoc s a (cons x xs) = ground (arith, contains_text-snoc s a xs)

pub count_items-snoc :
    (v : Json) (xs : Items) → count_items (snoc v xs) ≡ Prim.Native.Nat.suc (count_items xs)
unfolding count_items snoc
count_items-snoc v nil = refl
count_items-snoc v (cons x xs) = rw (count_items-snoc v xs)

pub ruleset dict_laws = (get-set, has_key-set)
