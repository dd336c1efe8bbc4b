-- ===== src/Transactions/Store/Laws.antt =====
-- What a write and a removal leave to be read, in the transaction that they touch and in the others.
use live_photo_llm.Prelude.{false, none, some, ◌≡◌, eq_refl, if◌then◌else◌, str_eq}
use live_photo_llm.State.{FilePath, path_eq, Content, World}
use live_photo_llm.Transactions.Ids.{TxId}
use live_photo_llm.Transactions.Store.{read, put, remove}

module _ (s : World) (t : TxId) (p : FilePath) where
  pub read-put :
      (c : Content) (q : FilePath)
      → read (put s t p c) t q ≡ (if path_eq p q then some c else read s t q)
  unfolding read put
  read-put c q = rw eq_refl

  pub read-remove :
      (q : FilePath) → read (remove s t p) t q ≡ (if path_eq p q then none else read s t q)
  unfolding read remove
  read-remove q = rw eq_refl

  pub read-put_other :
      (c : Content) (u : TxId) (q : FilePath)
      → str_eq t.name u.name ≡ false
      → read (put s t p c) u q ≡ read s u q
  unfolding read put
  read-put_other c u q h = rw h

  pub read-remove_other :
      (u : TxId) (q : FilePath)
      → str_eq t.name u.name ≡ false
      → read (remove s t p) u q ≡ read s u q
  unfolding read remove
  read-remove_other u q h = rw h

pub ruleset file_laws = (read-put, read-remove)
