-- ===== src/Transactions/Ids.antt =====
-- Transaction ids: TRANSACTION_ID_PATTERN of backend/app/transactions/store.py.
use live_photo_llm.Prelude.{
  ℕ, String, Bool, ◌&&◌, ◌||◌, ◌≡◌, List, [], ◌∷◌, leb, ◌==◌, true, length, codes,
}

-- `[A-Za-z0-9_-]`
abbrev pub is_id_char : ℕ → Bool
is_id_char c =
    (leb b'A' c && leb c b'Z')
    || (leb b'a' c && leb c b'z')
    || (leb b'0' c && leb c b'9')
    || c == b'_'
    || c == b'-'

abbrev pub all_id_chars : List ℕ → Bool
all_id_chars [] = true
all_id_chars (c ∷ cs) = is_id_char c && all_id_chars cs

unfoldable pub is_valid_transaction_id : String → Bool
is_valid_transaction_id s =
    all_id_chars (codes s) && leb 16 (length (codes s)) && leb (length (codes s)) 128

-- An id that has passed `_validate_transaction_id`, which every operation of the store calls first.
pub record TxId : Type 0 where
  pub name : String
  pub is_valid : is_valid_transaction_id name ≡ true
