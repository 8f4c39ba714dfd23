-- ===== src/Services/Objects.antt =====
-- The client for DataExport objects, runtimeclient.Client.
use kdmp.Base.{false, Option, some, ◌≡◌, ◌⊎◌, Text, Error, ok, err, Call, is_not_found}
use kdmp.Api.{DataExport}

pub record Client : Type 1 where
  pub Objects : Type 0
  -- Both reads are by name and namespace: kdmp.Instance().GetDataExport reads past the cache, Get
  -- may read from it.
  pub read : Text → Text → Call Objects DataExport
  pub get : Text → Text → Call Objects DataExport
  pub update : DataExport → Call Objects Unit
  pub delete : DataExport → Call Objects Unit

-- The documented behaviour of reads and Update at the object of one name and namespace, while it is
-- not being deleted. An Update that reports an error may have taken place or not.
pub record ClientLaws (c : Client) (name ns : Text) : Type 0 where
  pub stored : c.Objects → Option DataExport
  pub named :
      (s : c.Objects) (d : DataExport) → stored s ≡ some d → (d.name ≡ name) × (d.namespace ≡ ns)
  pub read_keeps : (s : c.Objects) → stored (c.read name ns s).0 ≡ stored s
  pub read_stored :
      (s : c.Objects) (d e : DataExport) → stored s ≡ some d → (c.read name ns s).1 ≡ ok e → e ≡ d
  pub get_keeps : (s : c.Objects) → stored (c.get name ns s).0 ≡ stored s
  pub get_stored :
      (s : c.Objects) (d e : DataExport) → stored s ≡ some d → (c.get name ns s).1 ≡ ok e → e ≡ d
  pub get_found :
      (s : c.Objects) (d : DataExport) (e : Error)
      → stored s ≡ some d
      → (c.get name ns s).1 ≡ err e
      → is_not_found e ≡ false
  pub update_done :
      (d : DataExport) (s : c.Objects)
      → d.name ≡ name
      → d.namespace ≡ ns
      → d.deleting ≡ false
      → (c.update d s).1 ≡ ok tt
      → stored (c.update d s).0 ≡ some d
  pub update_failed :
      (d : DataExport) (s : c.Objects) (e : Error)
      → d.name ≡ name
      → d.namespace ≡ ns
      → d.deleting ≡ false
      → (c.update d s).1 ≡ err e
      → (stored (c.update d s).0 ≡ stored s) ⊎ (stored (c.update d s).0 ≡ some d)
