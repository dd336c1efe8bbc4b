-- ===== src/Integrations/Index.antt =====
-- IntegrationIndexStore: backend/app/integrations/store.py.
use live_photo_llm.Prelude.{String, Option, none, some, ◌≡◌, refl, str_eq, if◌then◌else◌, ◌&&◌}
use live_photo_llm.Python.{Json, obj, Fields, Env, join_colon}
use live_photo_llm.State.{
  IndexKind, index_kind_eq, Content, document, blob, World, Result, ok, err, index_error,
}

unfoldable pub index_read : World → IndexKind → String → Option Content
index_read s k h = s.index k h

abbrev with_entry : IndexKind → String → Option Content → World → World
with_entry k h c s = record s {
  index = λ j g. if index_kind_eq k j && str_eq h g then c else s.index j g;
}

-- `put_launch_token`, `put_browser_session` and `put_external`
unfoldable pub index_put : IndexKind → String → Fields → World → World
index_put k h f s = with_entry k h (some (document f)) s

-- `delete_launch_token` and `delete_browser_session`: `unlink(missing_ok=True)`
unfoldable pub index_delete : IndexKind → String → World → World
index_delete k h s = with_entry k h none s

abbrev object_or_error : Option Json → Result (Option Fields)
object_or_error (some (obj f)) = ok (some f)
object_or_error _ = err index_error

module _ (env : Env) where
  abbrev entry_of : Option Content → Result (Option Fields)
  entry_of none = ok none
  entry_of (some (document f)) = ok (some f)
  entry_of (some (blob b)) = object_or_error (env.loads b)

  -- `_read`: None for a missing entry; a corrupt one raises.
  unfoldable pub index_get : World → IndexKind → String → Result (Option Fields)
  index_get s k h = entry_of (index_read s k h)

  abbrev pub external_key_hash : String → String → String
  external_key_hash consumer_id external_transaction_id =
      env.sha256_hex (env.encode (join_colon consumer_id external_transaction_id))

module _ (s : World) (k : IndexKind) (h : String) where
  pub index_read-index_put :
      (f : Fields) (j : IndexKind) (g : String)
      → index_read (index_put k h f s) j g
        ≡ (if index_kind_eq k j && str_eq h g then some (document f) else index_read s j g)
  unfolding index_read index_put
  index_read-index_put f j g = refl

  pub index_read-index_delete :
      (j : IndexKind) (g : String)
      → index_read (index_delete k h s) j g
        ≡ (if index_kind_eq k j && str_eq h g then none else index_read s j g)
  unfolding index_read index_delete
  index_read-index_delete j g = refl

pub ruleset index_laws = (index_read-index_put, index_read-index_delete)
