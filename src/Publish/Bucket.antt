-- ===== src/Publish/Bucket.antt =====
-- The object store behind edge-publish.js: what the code relies on of the R2 binding `ARTIFACTS`.
use zed_infra.Base.{ℕ, String, Option, none, some, List, ◌≡◌, ◌≢◌}
use zed_infra.Publish.{VersionMetadata}

-- A body of bytes, or the text of a version's document.
pub data Body : Type 0 where
  content : List ℕ → Body
  version_document : VersionMetadata → Body

pub record StoredObject : Type 0 where
  pub body : Body
  pub visibility : String
  pub content_type : String
  pub cache_control : Option String

-- `put` with `If-None-Match: *` is `put_if_absent`: one operation that writes exactly where the key
-- has no object, and answers null (`none`) where it has one.
pub record Bucket : Type 1 where
  pub Store : Type 0
  pub lookup : String → Store → Option StoredObject
  pub put : String → StoredObject → Store → Store
  pub put_if_absent : String → StoredObject → Store → Option Store
  pub lookup_put : (k : String) (o : StoredObject) (s : Store) → lookup k (put k o s) ≡ some o
  pub lookup_put_other :
      (j k : String) (o : StoredObject) (s : Store) → j ≢ k → lookup j (put k o s) ≡ lookup j s
  pub writes_absent :
      (k : String) (o : StoredObject) (s : Store)
      → lookup k s ≡ none
      → put_if_absent k o s ≡ some (put k o s)
  pub keeps_present :
      (k : String) (o x : StoredObject) (s : Store)
      → lookup k s ≡ some x
      → put_if_absent k o s ≡ none
